-- ===== src/Utf8.antt =====
-- The UTF-8 routines of src/uutf.c. A buffer that is read is the list of its bytes from the read
-- pointer on, and its length is the count that the C function is given; a pointer into it that is
-- returned is the list from there on. Functions that walk backwards take the whole buffer and give
-- an offset into it. `none` is a null pointer, unless it is said otherwise.
pub mod Encode
pub mod Decode
pub mod Shape
pub mod Text
pub mod Reverse
pub mod Repair
pub mod Validate
mod Tests
use uncil.Prelude.{
  ℕ, zero, suc, ◌+◌, ◌-◌, ◌*◌, ◌/◌, ◌%◌, ◌^◌, min, Bool, true, false, not, ◌&&◌, ◌||◌, List, [],
  ◌∷◌, ◌++◌, Option, none, some, bit_and, bit_or, ltb, leb, ◌==◌, if◌then◌else◌, length, take, drop,
  get_or, set,
}

-- The bytes of `u` in the four ranges of unc0_utf8enc.
unfoldable pub utf8_bytes : ℕ → List ℕ
utf8_bytes u =
    if ltb u 0x80
    then bit_and u 0x7f ∷ []
    else if ltb u 0x800
    then bit_or 0xc0 (bit_and (u / 2 ^ 6) 0x1f) ∷ bit_or 0x80 (bit_and u 0x3f) ∷ []
    else if ltb u 0x10000
    then bit_or 0xe0 (bit_and (u / 2 ^ 12) 0x0f)
      ∷ bit_or 0x80 (bit_and (u / 2 ^ 6) 0x3f)
      ∷ bit_or 0x80 (bit_and u 0x3f)
      ∷ []
    else bit_or 0xf0 (bit_and (u / 2 ^ 18) 0x07)
      ∷ bit_or 0x80 (bit_and (u / 2 ^ 12) 0x3f)
      ∷ bit_or 0x80 (bit_and (u / 2 ^ 6) 0x3f)
      ∷ bit_or 0x80 (bit_and u 0x3f)
      ∷ []

-- unc0_utf8enc: the count that it returns, and what it writes, which `if (i++ < n)` limits to `n`
-- bytes. Its last branch calls it with the same `u` and 0xFFFD for `n`; `none` is a call that is
-- still running after `fuel` calls.
unfoldable pub utf8enc : ℕ → ℕ → ℕ → Option (ℕ × List ℕ)
utf8enc zero u n = none
utf8enc (suc fuel) u n =
    let again = utf8enc fuel u 0xfffd in
    if ltb u 0x110000 then some (length (utf8_bytes u), take n (utf8_bytes u)) else again

-- The loop of unc0_utf8dec: `left` is `j - i`, and the result has what is left of it.
unfoldable pub utf8dec_loop : ℕ → ℕ → List ℕ → ℕ × ℕ × List ℕ
utf8dec_loop zero u p = (u, 0, p)
utf8dec_loop (suc left) u [] = (u, suc left, [])
utf8dec_loop (suc left) u (b ∷ p) =
    if bit_and b 0xc0 == 0x80
    then utf8dec_loop left (bit_or (u * 2 ^ 6) (bit_and b 0x3f)) p
    else (u, suc left, b ∷ p)

-- `if (i < j || u >= 0x110000UL) return 0xFFFDU;`
unfoldable pub utf8dec_end : ℕ × ℕ × List ℕ → ℕ × List ℕ
utf8dec_end (u, left, p) = if not (left == 0) || leb 0x110000 u then (0xfffd, p) else (u, p)

-- unc0_utf8dec: the code point and the new read pointer
unfoldable pub utf8dec : List ℕ → ℕ × List ℕ
utf8dec [] = (0, [])
utf8dec (b ∷ p) =
    if bit_and b 0x80 == 0
    then (b, p)
    else if bit_and b 0xe0 == 0xc0
    then utf8dec_end (utf8dec_loop 1 (bit_and b 0x1f) p)
    else if bit_and b 0xf0 == 0xe0
    then utf8dec_end (utf8dec_loop 2 (bit_and b 0x0f) p)
    else if bit_and b 0xf8 == 0xf0
    then utf8dec_end (utf8dec_loop 3 (bit_and b 0x07) p)
    else (0xfffd, p)

-- How far unc0_utf8nextchar and unc0_utf8scanforw step from a lead byte.
unfoldable pub lead_size : ℕ → ℕ
lead_size b = if ltb b 0xc0 then 1 else if ltb b 0xe0 then 2 else if ltb b 0xf0 then 3 else 4

-- unc0_utf8nextchar
unfoldable pub utf8nextchar : List ℕ → Option (List ℕ)
utf8nextchar [] = none
utf8nextchar (b ∷ s) = some (drop (min (lead_size b) (suc (length s))) (b ∷ s))

-- unc0_utf8shift: skips `i` characters
unfoldable pub utf8shift : ℕ → List ℕ → Option (List ℕ)
utf8shift zero s = some s
utf8shift (suc i) s = elim (utf8nextchar s) [ none ↦ none | some s' ↦ utf8shift i s' ]

-- unc0_utf8reshift: the offset of character `n`, `none` for UNC_RESHIFTBAD
unfoldable pub utf8reshift : ℕ → List ℕ → Option ℕ
utf8reshift n s = elim (utf8shift n s) [ none ↦ none | some sp ↦ some (length s - length sp) ]

-- unc0_utf8scanforw: as many bytes are skipped as the lead byte says, `drop` stopping at the end
unfoldable pub utf8scanforw : ℕ → List ℕ → Option (List ℕ)
utf8scanforw count [] = none
utf8scanforw zero (b ∷ s) = some (b ∷ s)
utf8scanforw (suc count) (b ∷ s) = utf8scanforw count (drop (lead_size b) (b ∷ s))

-- unc0_utf8unshift: how many characters start in the buffer
unfoldable pub utf8unshift : List ℕ → ℕ
utf8unshift [] = 0
utf8unshift (b ∷ s) = let q = utf8unshift s in if bit_and b 0xc0 == 0x80 then q else suc q

-- unc0_utf8scanbackw over the first `e` bytes of `s`; `count` is what the loop has left
unfoldable pub scanback : List ℕ → ℕ → ℕ → Option ℕ
scanback s e zero = some e
scanback s zero (suc count) = none
scanback s (suc e) (suc count) =
    scanback s e (if bit_and (get_or s e 0) 0xc0 == 0x80 then suc count else count)

unfoldable pub utf8scanbackw : List ℕ → ℕ → Option ℕ
utf8scanbackw s count = scanback s (length s) (count + 1)

-- unc0_utf8lastchar
unfoldable pub utf8lastchar : List ℕ → Option ℕ
utf8lastchar s = utf8scanbackw s 0

-- The loops of unc0_utf8shiftback and unc0_utf8shiftaway: `i` characters back from offset `q`.
unfoldable pub shift_back : List ℕ → ℕ → ℕ → Option ℕ
shift_back s zero q = some q
shift_back s (suc i) zero = none
shift_back s (suc i) (suc q) =
    shift_back s (if bit_and (get_or s q 0) 0xc0 == 0x80 then suc i else i) q

-- unc0_utf8shiftback: the offset, and the count of bytes behind it
unfoldable pub utf8shiftback : List ℕ → ℕ → Option (ℕ × ℕ)
utf8shiftback s i = elim (shift_back s i (length s)) [
  | none ↦ none
  | some q ↦ some (q, length s - q)
]

-- unc0_utf8shiftaway: the bytes before it
unfoldable pub utf8shiftaway : List ℕ → ℕ → Option (List ℕ)
utf8shiftaway s i = elim (shift_back s i (length s)) [ none ↦ none | some q ↦ some (take q s) ]
