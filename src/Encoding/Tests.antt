-- ===== src/Encoding/Tests.antt =====
-- Runs of the converters of src/utxt.c, and the theorems at concrete texts.
use uncil.Prelude.{ℕ, ◌≡◌, ◌≢◌, refl, arith, false, List, [], ◌∷◌, some, none}
use uncil.Prelude.Int.{pos, negsuc}
use uncil.Utf8.Text.{text}
use uncil.Utf8.Validate.{utf8validate}
use uncil.Encoding.{latin1_dec, utf16be_dec, utf16_dec, join16be, is_low_half, first16be}
use uncil.Encoding.Table.{utf16le, utf16be, utf32le, enc, dec}
use uncil.Encoding.Text.{collect}
use uncil.Encoding.RoundTrip.{dec-enc}
use uncil.Encoding.Errors.{latin1_dec_invalid}
use uncil.Encoding.Ends.{converters_total}

dec-enc_example :
    (w : List ℕ) × (enc collect utf16le (text (0x41 ∷ 0x1f600 ∷ [])) [] ≡ some (pos 0, [], w))
    × (dec collect utf16le 5 w [] ≡ some (pos 0, [], text (0x41 ∷ 0x1f600 ∷ [])))
dec-enc_example =
    dec-enc utf16le (0x41 ∷ 0x1f600 ∷ []) 5 ((omega arith, refl), ((omega arith, refl), tt))
      (omega arith)

latin1_dec_invalid_example :
    (latin1_dec collect 1 (0xe9 ∷ []) [] ≡ (pos 0, [], 0xe9 ∷ []))
    × (utf8validate (0xe9 ∷ []) ≡ some false)
latin1_dec_invalid_example = latin1_dec_invalid 0xe9 (omega arith) (omega arith)

-- The word 0x110000 in UTF-32
converters_total_example :
    (enc collect utf32le (0 ∷ 0 ∷ 0x11 ∷ 0 ∷ []) [] ≢ none)
    × (dec collect utf32le 3 (0 ∷ 0 ∷ 0x11 ∷ 0 ∷ []) [] ≢ none)
converters_total_example =
    converters_total collect utf32le 3 (0 ∷ 0 ∷ 0x11 ∷ 0 ∷ []) []
      (omega arith, (omega arith, (omega arith, (omega arith, tt))))

-- The second half of a surrogate pair, and the end of the input inside of a unit
low_half_alone : dec collect utf16be 3 (0xd8 ∷ 0x3d ∷ 0 ∷ 0x41 ∷ []) [] ≡ some (negsuc 0, [], [])
unfolding dec utf16be_dec utf16_dec join16be is_low_half first16be
low_half_alone = refl
