-- ===== src/Encoding/Errors.antt =====
-- Where the converters of src/utxt.c stop, and that they do.
use uncil.Prelude.{
  ℕ, zero, suc, ◌≤◌, ◌<◌, ◌≡◌, refl, ap, ◌∙◌, arith, false, List, [], ◌∷◌, ◌++◌, Option, none, some,
  Option-cases, inl, inr, length, length-append, append_assoc, append-nil,
}
use uncil.Prelude.Int.{pos, negsuc}
use uncil.Prelude.Bits.{and_0x80, and_0xc0, and_0xe0, and_0xf0, and_0xf8}
use uncil.Utf8.{utf8_bytes}
use uncil.Utf8.Text.{text, AllCodes}
use uncil.Utf8.Shape.{shape}
use uncil.Utf8.Validate.{utf8validate, validate_loop, check_tails}
use uncil.Encoding.{latin1_dec}
use uncil.Encoding.Encode.{encode_loop, encode}
use uncil.Encoding.Text.{collect, written, AllHave, read_char-utf8_bytes, dec_whole, encode_step}

refuse_step :
    (units : ℕ → Option (List ℕ)) (fuel u : ℕ) (s st : List ℕ)
    → u < 0x110000
    → units u ≡ none
    → encode_loop collect units (suc fuel) (utf8_bytes u ++ s) st ≡ some (negsuc 0, s, st)
unfolding encode_loop
refuse_step units fuel u s st h e =
    rw (encode_loop, read_char-utf8_bytes u s h, dec_whole u h, e) refl

refuse_all :
    (units : ℕ → Option (List ℕ)) (us : List ℕ) (v : ℕ) (s : List ℕ) (fuel : ℕ) (st : List ℕ)
    → AllCodes us
    → AllHave units us
    → v < 0x110000
    → units v ≡ none
    → length (text us) < fuel
    → encode_loop collect units fuel (text us ++ (utf8_bytes v ++ s)) st
      ≡ some (negsuc 0, s, st ++ written units us)
unfolding text written
refuse_all units us v s zero st h k l e m = absurd (omega arith)
refuse_all units [] v s (suc fuel) st h k l e m = rw append-nil (refuse_step units fuel v s st l e)
refuse_all units (u ∷ us) v s (suc fuel) st h k l e m =
    let b = shape u (omega (arith, h.0)) in
    let n : length (utf8_bytes u) ≡ suc (length b.tails) = ap length b.split in
    elim (Option-cases (units u)) [
      | inl f ↦ absurd (k.0 f)
      | inr (w, f) ↦
          rw (f, append_assoc (utf8_bytes u) (text us) (utf8_bytes v ++ s))
            (encode_step units fuel u (text us ++ (utf8_bytes v ++ s)) w st h.0 f
              ∙ refuse_all units us v s fuel (st ++ w) h.1 k.1 l e
                  (omega (arith, length-append {0} (utf8_bytes u) (text us)))
              ∙ rw append_assoc)
    ]

-- A text of code points that an encoding has, followed by one below 0x110000 that it does not
-- have, makes the encoder write what it has for the first ones, take the character that it
-- does not have, and return -1 there, whatever follows.
encode_refuses :
    (units : ℕ → Option (List ℕ)) (us : List ℕ) (v : ℕ) (s : List ℕ)
    → AllCodes us
    → AllHave units us
    → v < 0x110000
    → units v ≡ none
    → encode collect units (text us ++ (utf8_bytes v ++ s)) []
      ≡ some (negsuc 0, s, written units us)
unfolding encode
encode_refuses units us v s h k l e =
    refuse_all units us v s (suc (length (text us ++ (utf8_bytes v ++ s)))) [] h k l e
      (omega (arith, length-append {0} (text us) (utf8_bytes v ++ s)))

latin1_value : (c : ℕ) → latin1_dec collect 1 (c ∷ []) [] ≡ (pos 0, [], c ∷ [])
unfolding latin1_dec
latin1_value c = refl

validate_one : (c : ℕ) → 0x80 ≤ c → c < 0x100 → utf8validate (c ∷ []) ≡ some false
unfolding utf8validate validate_loop check_tails
validate_one c h k = ground (arith, and_0x80 c, and_0xc0 c, and_0xe0 c, and_0xf0 c, and_0xf8 c)

-- For a byte from 0x80 to 0xFF, unc0_cconv_latin1_dec returns 0 and writes the byte itself,
-- which unc0_utf8validate refuses.
pub latin1_dec_invalid :
    (c : ℕ)
    → 0x80 ≤ c
    → c < 0x100
    → (latin1_dec collect 1 (c ∷ []) [] ≡ (pos 0, [], c ∷ []))
      × (utf8validate (c ∷ []) ≡ some false)
latin1_dec_invalid c h k = (latin1_value c, validate_one c h k)
