-- ===== src/Encoding.antt =====
-- The character encodings of src/utxt.c, and the converter of src/uutf.c that belongs to
-- them. An input callback is the list of the bytes that it has left, and gives -1 at its end. An
-- output callback is a parameter with a state of its own. A converter returns its status, the
-- input that is left and the state of the output.
pub mod Encode
pub mod Table
pub mod Units
pub mod Decode
pub mod Text
pub mod RoundTrip
pub mod Errors
pub mod Ends
mod Tests
use uncil.Prelude.{
  ℕ, zero, suc, ◌+◌, ◌-◌, ◌*◌, ◌/◌, ◌%◌, ◌^◌, Bool, true, false, not, ◌&&◌, ◌||◌, List, [], ◌∷◌,
  ◌++◌, Option, none, some, bit_and, bit_or, ltb, leb, ◌==◌, if◌then◌else◌, length, take,
}
use uncil.Prelude.Int.{ℤ, pos, negsuc, ltb_ℤ, eqb_ℤ}
use uncil.Utf8.{utf8enc, utf8dec}

abbrev pub Sink : Type 0 → Type 0
Sink σ = σ → List ℕ → σ × ℤ

abbrev pub Run : Type 0 → Type 0
Run σ = ℤ × List ℕ × σ

-- `unc0_utf8enc(u, sizeof(buf), buf)`: one call is enough below 0x110000, and from there on it
-- does not return, which is `none`.
unfoldable pub utf8_buf : ℕ → Option (List ℕ)
utf8_buf u = elim (utf8enc 1 u 4) [ none ↦ none | some (n, b) ↦ some (take n b) ]

-- `c < 0 ? c : 0`
unfoldable pub stop_status : ℤ → ℤ
stop_status c = if ltb_ℤ c (pos 0) then c else pos 0

-- `u |= c << (i * 8)` for two bytes, and the same of a 32-bit unsigned word for four
unfoldable pub join16le : ℕ → ℕ → ℕ → ℕ
join16le u c d = bit_or (bit_or u c) (d * 2 ^ 8)

unfoldable pub join32le : ℕ → ℕ → ℕ → ℕ → ℕ
join32le c d e f = bit_or (bit_or (bit_or (bit_or 0 c) (d * 2 ^ 8)) (e * 2 ^ 16)) (f * 2 ^ 24)

-- `u = (u << 8) | c` for two bytes and for four
unfoldable pub join16be : ℕ → ℕ → ℕ → ℕ
join16be u c d = bit_or (bit_or (u * 2 ^ 8 % 2 ^ 32) c * 2 ^ 8 % 2 ^ 32) d

unfoldable pub join32be : ℕ → ℕ → ℕ → ℕ → ℕ
unfolding join16be
join32be c d e f = join16be (join16be 0 c d) e f

-- What is kept of the first half of a surrogate pair.
unfoldable pub first16le : ℕ → ℕ
first16le u = bit_and u 0x3ff * 2 ^ 16

unfoldable pub first16be : ℕ → ℕ
first16be u = bit_and u 0x3ff

-- `(((u >> 6) & 0xFFC00UL) | (ulow & 0x3FFUL)) + 0x10000UL`
unfoldable pub surrogate_pair : ℕ → ℕ
surrogate_pair u = bit_or (bit_and (u / 2 ^ 6) 0xffc00) (bit_and (bit_and u 0xffff) 0x3ff) + 0x10000

unfoldable pub is_low_half : ℕ → Bool
is_low_half u = let ulow = bit_and u 0xffff in not (ltb ulow 0xdc00) && leb ulow 0xdfff

module _ {σ : Type 0} (out : Sink σ) where
  -- The code of a character to the output, with what the output returns
  unfoldable pub put_char : ℕ → σ → Option (σ × ℤ)
  unfolding utf8_buf
  put_char u st = elim (utf8_buf u) [ none ↦ none | some b ↦ some (out st b) ]

  -- The loop of unc0_cconv_utf16le_dec and unc0_cconv_utf16be_dec: `n` counts the characters that
  -- are left when the test of the loop has been passed.
  unfoldable pub utf16_dec : (ℕ → ℕ → ℕ → ℕ) → (ℕ → ℕ) → Bool → ℕ → ℕ → List ℕ → σ → Option (Run σ)
  utf16_dec join first false u zero s st = some (pos 0, s, st)
  utf16_dec join first false u (suc n) [] st = some (pos 0, [], st)
  utf16_dec join first false u (suc n) (c ∷ []) st = some (negsuc 0, [], st)
  utf16_dec join first false u (suc n) (c ∷ d ∷ s) st =
      elim (leb 0xd800 (join u c d) && ltb (join u c d) 0xdc00) [
        | true ↦ utf16_dec join first true (first (join u c d)) n s st
        | false ↦ elim (put_char (join u c d) st) [
          | none ↦ none
          | some (st', r) ↦ elim (eqb_ℤ r (pos 0)) [
            | true ↦ utf16_dec join first false 0 n s st'
            | false ↦ some (stop_status r, s, st')
          ]
        ]
      ]
  utf16_dec join first true u n [] st = some (negsuc 0, [], st)
  utf16_dec join first true u n (c ∷ []) st = some (negsuc 0, [], st)
  utf16_dec join first true u n (c ∷ d ∷ s) st = elim (is_low_half (join u c d)) [
    | false ↦ some (negsuc 0, s, st)
    | true ↦ elim (put_char (surrogate_pair (join u c d)) st) [
      | none ↦ none
      | some (st', r) ↦ elim (eqb_ℤ r (pos 0)) [
        | true ↦ utf16_dec join first false 0 n s st'
        | false ↦ some (stop_status r, s, st')
      ]
    ]
  ]

  -- unc0_cconv_utf16le_dec and unc0_cconv_utf16be_dec
  unfoldable pub utf16le_dec : ℕ → List ℕ → σ → Option (Run σ)
  utf16le_dec n s st = utf16_dec join16le first16le false 0 n s st

  unfoldable pub utf16be_dec : ℕ → List ℕ → σ → Option (Run σ)
  utf16be_dec n s st = utf16_dec join16be first16be false 0 n s st

  -- The loop of unc0_cconv_utf32le_dec and unc0_cconv_utf32be_dec.
  unfoldable pub utf32_dec : (ℕ → ℕ → ℕ → ℕ → ℕ) → ℕ → List ℕ → σ → Option (Run σ)
  utf32_dec join zero s st = some (pos 0, s, st)
  utf32_dec join (suc n) [] st = some (pos 0, [], st)
  utf32_dec join (suc n) (c ∷ []) st = some (negsuc 0, [], st)
  utf32_dec join (suc n) (c ∷ d ∷ []) st = some (negsuc 0, [], st)
  utf32_dec join (suc n) (c ∷ d ∷ e ∷ []) st = some (negsuc 0, [], st)
  utf32_dec join (suc n) (c ∷ d ∷ e ∷ f ∷ s) st = elim (leb 0x110000 (join c d e f)) [
    | true ↦ some (negsuc 0, s, st)
    | false ↦ elim (put_char (join c d e f) st) [
      | none ↦ none
      | some (st', r) ↦ elim (eqb_ℤ r (pos 0)) [
        | true ↦ utf32_dec join n s st'
        | false ↦ some (stop_status r, s, st')
      ]
    ]
  ]

  -- unc0_cconv_utf32le_dec and unc0_cconv_utf32be_dec
  unfoldable pub utf32le_dec : ℕ → List ℕ → σ → Option (Run σ)
  utf32le_dec n s st = utf32_dec join32le n s st

  unfoldable pub utf32be_dec : ℕ → List ℕ → σ → Option (Run σ)
  utf32be_dec n s st = utf32_dec join32be n s st

  -- unc0_cconv_ascii_dec
  unfoldable pub ascii_dec : ℕ → List ℕ → σ → Run σ
  ascii_dec zero s st = (pos 0, s, st)
  ascii_dec (suc n) [] st = (pos 0, [], st)
  ascii_dec (suc n) (c ∷ s) st =
      let r = out st (c ∷ []) in
      let next = ascii_dec n s r.0 in
      if leb 0x80 c
      then (negsuc 0, s, st)
      else if eqb_ℤ r.1 (pos 0)
      then next
      else (stop_status r.1, s, r.0)

  -- unc0_cconv_latin1_dec
  unfoldable pub latin1_dec : ℕ → List ℕ → σ → Run σ
  latin1_dec zero s st = (pos 0, s, st)
  latin1_dec (suc n) [] st = (pos 0, [], st)
  latin1_dec (suc n) (c ∷ s) st =
      let r = out st (c ∷ []) in
      let next = latin1_dec n s r.0 in if eqb_ℤ r.1 (pos 0) then next else (stop_status r.1, s, r.0)
