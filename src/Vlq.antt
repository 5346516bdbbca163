-- ===== src/Vlq.antt =====
-- The variable-length and constant-length integer codes of src/uvlq.c. A buffer that is written
-- is the list of its bytes in order, and its length is the count that the C function returns,
-- unless it says otherwise. A buffer that is read is the list of the bytes from the read pointer
-- on; `none` is undefined behaviour: a read past the end, or a shift by the width of its type.
pub mod Unsigned
pub mod Signed
pub mod Constant
pub mod Length
mod Tests
use uncil.Prelude.{
  ℕ, zero, suc, ◌+◌, ◌-◌, ◌*◌, ◌/◌, ◌%◌, ◌^◌, Bool, not, ◌&&◌, List, [], ◌∷◌, Option, none, some,
  bit_and, bit_or, ltb, leb, ◌==◌, if◌then◌else◌, length,
}
use uncil.Prelude.Int.{ℤ, pos, negsuc, ltb_ℤ, eqb_ℤ, bits, signed}
use uncil.Arithm.{asr}

-- `while (vv) vv >>= CHAR_BIT, ++l2;` for at most `fuel` rounds
unfoldable pub byte_length : ℕ → ℕ → ℕ
byte_length zero vv = 0
byte_length (suc fuel) vv =
    let more = byte_length fuel (vv / 2 ^ 8) in if vv == 0 then 0 else suc more

-- `do { if (i >= n) break; out[i++] = v >> (CHAR_BIT * --l2); } while (l2)`
unfoldable pub emit_bytes : ℕ → ℕ → ℕ → ℕ → List ℕ
emit_bytes v n i zero = []
emit_bytes v n i (suc l2) =
    if leb n i then [] else (v / 2 ^ (8 * l2) % 256) ∷ emit_bytes v n (i + 1) l2

-- unc0_vlqencz: eight rounds are enough for the 64 bits of `v`
unfoldable pub vlqencz : ℕ → ℕ → List ℕ
vlqencz v n =
    if ltb v 0x80
    then v ∷ []
    else let l2 = byte_length 8 v in bit_or (2 ^ 7) l2 % 256 ∷ emit_bytes v n 1 l2

-- `while (l2--) s = (s << CHAR_BIT) | *p++;`
unfoldable pub read_bytes : ℕ → ℕ → List ℕ → Option (ℕ × List ℕ)
read_bytes zero s p = some (s, p)
read_bytes (suc l2) s [] = none
read_bytes (suc l2) s (b ∷ p) = read_bytes l2 (bit_or (s * 2 ^ 8 % 2 ^ 64) b) p

-- unc0_vlqdecz
unfoldable pub vlqdecz : List ℕ → Option (ℕ × List ℕ)
vlqdecz [] = none
vlqdecz (b ∷ p) =
    if bit_and b 0x80 == 0 then some (b, p) else read_bytes (bit_and b (2 ^ 7 - 1)) 0 p

-- unc0_vlqenczl and unc0_vlqdeczl: the length of a code
unfoldable pub vlqenczl : ℕ → ℕ
vlqenczl v = length (vlqencz v 9)

unfoldable pub vlqdeczl : List ℕ → Option ℕ
vlqdeczl p = elim (vlqdecz p) [ none ↦ none | some (v, rest) ↦ some (length p - length rest) ]

-- `~v`
unfoldable pub lnot : ℤ → ℤ
lnot (pos n) = negsuc n
lnot (negsuc n) = pos n

-- `v & 0x7F`
unfoldable pub low7 : ℤ → ℕ
low7 v = bit_and (bits v) 0x7f

abbrev pub nonzero : ℤ → Bool
nonzero v = not (eqb_ℤ v (pos 0))

-- The loop of unc0_vlqencip at index `i`, with `n - i` left in the buffer, and the byte that
-- follows it where bit 6 of the last one could be read as a sign. `i++ < n` holds for the first
-- `n` rounds.
unfoldable pub vlqencip : ℕ → ℤ → List ℕ
vlqencip zero v = let b = low7 v in (if nonzero (asr v 7) then bit_or b 0x80 else b) ∷ []
vlqencip (suc left) v =
    let v' = asr v 7 in
    let rest = vlqencip left v' in
    let b = if nonzero v' then bit_or (low7 v) 0x80 else low7 v in
    if nonzero v'
    then b ∷ rest
    else if ltb 0 left && not (bit_and b 0x40 == 0)
    then bit_or b 0x80 ∷ 0 ∷ []
    else b ∷ []

-- The same of unc0_vlqencin. `>>` is arithmetic, so its test `v > 0` never holds.
unfoldable pub vlqencin : ℕ → ℤ → List ℕ
vlqencin zero v = let b = low7 v in (if nonzero (lnot (asr v 7)) then bit_or b 0x80 else b) ∷ []
vlqencin (suc left) v =
    let v' = asr v 7 in
    let rest = vlqencin left v' in
    let b = if nonzero (lnot v') then bit_or (low7 v) 0x80 else low7 v in
    if nonzero (lnot v')
    then b ∷ rest
    else if ltb 0 left && (bit_and b 0x40 == 0)
    then bit_or b 0x80 ∷ 0x7f ∷ []
    else b ∷ []

-- unc0_vlqenci
unfoldable pub vlqenci : ℤ → ℕ → List ℕ
vlqenci v n = if ltb_ℤ v (pos 0) then vlqencin n v else vlqencip n v

-- The loop of unc0_vlqdeci on the patterns of `s` and `m`.
unfoldable pub vlqdeci_loop : ℕ → ℕ → ℕ → List ℕ → Option (ℤ × List ℕ)
vlqdeci_loop s m j [] = none
vlqdeci_loop s m j (b ∷ p) =
    let s' = bit_or s (bit_and b 0x7f * 2 ^ j % 2 ^ 64) in
    let m' = m * 2 ^ 7 % 2 ^ 64 in
    let more = vlqdeci_loop s' m' (j + 7) p in
    if leb 64 j
    then none
    else if bit_and b 0x80 == 0
    then some (signed (if bit_and b 0x40 == 0 then s' else bit_or s' m'), p)
    else more

-- unc0_vlqdeci: `m` starts as -1
unfoldable pub vlqdeci : List ℕ → Option (ℤ × List ℕ)
vlqdeci p = vlqdeci_loop 0 (2 ^ 64 - 1) 0 p

-- unc0_vlqencil calls the unsigned encoder, on a buffer of UNC_VLQ_UINT_MAXLEN bytes.
unfoldable pub vlqencil : ℤ → ℕ
vlqencil v = length (vlqencz (bits v) 10)

-- unc0_vlqdecil
unfoldable pub vlqdecil : List ℕ → Option ℕ
vlqdecil p = elim (vlqdeci p) [ none ↦ none | some (v, rest) ↦ some (length p - length rest) ]

-- The bytes that unc0_clqencz writes, lowest first.
unfoldable pub clqencz : ℕ → ℕ → List ℕ
clqencz v zero = []
clqencz v (suc width) = v % 256 ∷ clqencz (v / 2 ^ 8) width

-- What it returns: 0 if there is nothing to write, else `width` after `while (width--)`.
unfoldable pub clqencz_result : ℕ → ℕ
clqencz_result width = if width == 0 then 0 else 2 ^ 64 - 1

-- `*p++ << sh` is a shift of an `int` of 32 bits: undefined from 32 on, and extended with its sign
-- when it joins the 64 bits of `v`.
unfoldable pub int_shift : ℕ → ℕ → Option ℕ
int_shift b sh =
    if leb 32 sh
    then none
    else let w = b * 2 ^ sh % 2 ^ 32 in some (if ltb w (2 ^ 31) then w else w + (2 ^ 64 - 2 ^ 32))

-- `while (--width) sh += CHAR_BIT, v |= *p++ << sh;`, `left` being the rounds to come
unfoldable pub clqdecz_loop : ℕ → ℕ → ℕ → List ℕ → Option (ℕ × List ℕ)
clqdecz_loop zero v sh p = some (v, p)
clqdecz_loop (suc left) v sh [] = none
clqdecz_loop (suc left) v sh (b ∷ p) = elim (int_shift b (sh + 8)) [
  | none ↦ none
  | some w ↦ clqdecz_loop left (bit_or v w) (sh + 8) p
]

-- unc0_clqdecz
unfoldable pub clqdecz : ℕ → List ℕ → Option (ℕ × List ℕ)
clqdecz zero p = some (0, p)
clqdecz (suc width) [] = none
clqdecz (suc width) (b ∷ p) = clqdecz_loop width b 0 p
