-- ===== src/Utf8/Tests.antt =====
-- Runs of the routines of src/uutf.c, and the theorems at concrete texts.
use uncil.Prelude.{ℕ, ◌≡◌, refl, arith, List, [], ◌∷◌, ◌++◌, true, false, some, none, length}
use uncil.Utf8.{
  utf8_bytes, utf8enc, utf8dec, utf8dec_loop, utf8dec_end, utf8unshift, utf8scanbackw,
  utf8shiftback, scanback, utf8lastchar,
}
use uncil.Utf8.Encode.{utf8enc-diverges}
use uncil.Utf8.Decode.{utf8dec-utf8_bytes}
use uncil.Utf8.Text.{text, AllCodes}
use uncil.Utf8.Reverse.{utf8rev, rev_loop, rev_size, utf8rev-text}
use uncil.Utf8.Repair.{utf8patdown, pat_loop, pat_tails, pat_count, utf8patdown_repairs}
use uncil.Encoding.{utf8_buf}
use mathlib.Core.List.{reverse}
use uncil.Utf8.Text.Backward.{shiftback-text}
use uncil.Utf8.Validate.{utf8validate, validate_loop, check_tails, read_tails}
use uncil.Utf8.Validate.Accepts.{AllWide, validate-text}
use uncil.Utf8.Validate.Exact.{validate-exact}

-- "aé€" and U+1F600
abbrev sample : List ℕ
sample = 0x61 ∷ 0xe9 ∷ 0x20ac ∷ 0x1f600 ∷ []

abbrev sample_bytes : List ℕ
sample_bytes = 0x61 ∷ 0xc3 ∷ 0xa9 ∷ 0xe2 ∷ 0x82 ∷ 0xac ∷ 0xf0 ∷ 0x9f ∷ 0x98 ∷ 0x80 ∷ []

sample-text : text sample ≡ sample_bytes
unfolding text utf8_bytes
sample-text = refl

decodes_euro : utf8dec (0xe2 ∷ 0x82 ∷ 0xac ∷ 0x41 ∷ []) ≡ (0x20ac, 0x41 ∷ [])
unfolding utf8dec utf8dec_loop utf8dec_end
decodes_euro = refl

-- A character that is cut short gives U+FFFD, and what follows is read anew.
decodes_cut : utf8dec (0xe2 ∷ 0x82 ∷ 0x41 ∷ []) ≡ (0xfffd, 0x41 ∷ [])
unfolding utf8dec utf8dec_loop utf8dec_end
decodes_cut = refl

counts_sample : utf8unshift sample_bytes ≡ 4
unfolding utf8unshift
counts_sample = refl

last_of_sample : utf8lastchar sample_bytes ≡ some 6
unfolding utf8lastchar utf8scanbackw scanback
last_of_sample = refl

rejects_overlong : utf8validate (0xc0 ∷ 0x80 ∷ []) ≡ some false
unfolding utf8validate validate_loop check_tails read_tails
rejects_overlong = refl

-- A surrogate passes.
accepts_surrogate : utf8validate (0xed ∷ 0xa0 ∷ 0x80 ∷ []) ≡ some true
unfolding utf8validate validate_loop check_tails read_tails
accepts_surrogate = refl

sample_codes : AllCodes sample
sample_codes = (omega arith, (omega arith, (omega arith, (omega arith, tt))))

sample_wide : AllWide (0x61 ∷ 0x110000 ∷ [])
sample_wide = (omega arith, (omega arith, tt))

utf8enc-diverges_example : utf8enc 9 0x110000 4 ≡ none
utf8enc-diverges_example = utf8enc-diverges 9 0x110000 4 (omega arith)

utf8dec-utf8_bytes_example : utf8dec (utf8_bytes 0x20ac ++ 0x41 ∷ []) ≡ (0x20ac, 0x41 ∷ [])
utf8dec-utf8_bytes_example = utf8dec-utf8_bytes 0x20ac (0x41 ∷ []) (omega arith)

shiftback-text_example :
    utf8shiftback ((0x41 ∷ []) ++ text sample) (length sample) ≡ some (1, length (text sample))
shiftback-text_example = shiftback-text (0x41 ∷ []) sample sample_codes

validate-text_example : utf8validate (text (0x61 ∷ 0x110000 ∷ [])) ≡ some true
validate-text_example = validate-text (0x61 ∷ 0x110000 ∷ []) sample_wide

validate-exact_example : (us : List ℕ) × AllWide us × ((0xc3 ∷ 0xa9 ∷ []) ≡ text us)
validate-exact_example =
    validate-exact (0xc3 ∷ 0xa9 ∷ []) (omega arith, (omega arith, tt))
      (unfold utf8validate validate_loop check_tails read_tails in refl)

-- "a" and the two bytes of U+00E9, written into a buffer of three bytes
reversed : utf8rev (0 ∷ 0 ∷ 0 ∷ []) (0x61 ∷ 0xc3 ∷ 0xa9 ∷ []) ≡ some (0xc3 ∷ 0xa9 ∷ 0x61 ∷ [])
unfolding utf8rev rev_loop rev_size
reversed = refl

utf8rev-text_example : utf8rev sample_bytes (text sample) ≡ some (text (reverse sample))
utf8rev-text_example =
    utf8rev-text sample sample_bytes sample_codes (unfold text utf8_bytes in refl)
      (unfold text utf8_bytes in omega arith)

-- An overlong "A", a stray byte and a character that is cut off
repaired : utf8patdown (0xc1 ∷ 0x81 ∷ 0x80 ∷ 0x42 ∷ 0xe2 ∷ 0x82 ∷ []) ≡ some (0x41 ∷ 0x42 ∷ [])
unfolding utf8patdown pat_loop pat_tails pat_count utf8dec utf8dec_loop utf8dec_end utf8_buf utf8enc
    utf8_bytes
repaired = refl

utf8patdown_repairs_example :
    ((us : List ℕ) × AllCodes us × (utf8patdown (0xc1 ∷ 0x80 ∷ 0xff ∷ []) ≡ some (text us)))
    × (utf8patdown (text sample) ≡ some (text sample))
utf8patdown_repairs_example = utf8patdown_repairs (0xc1 ∷ 0x80 ∷ 0xff ∷ []) sample sample_codes
