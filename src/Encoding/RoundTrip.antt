-- ===== src/Encoding/RoundTrip.antt =====
-- Every encoding that is registered reads back what it writes.
use uncil.Prelude.{
  ℕ, ◌≤◌, ◌<◌, ◌≡◌, ◌≢◌, ap, arith, false, List, [], ◌∷◌, none, some, Bool-cases, inl, inr, length,
  leb,
}
use uncil.Prelude.Int.{pos}
use uncil.Utf8.Text.{text, AllCodes}
use uncil.Encoding.{utf16le_dec, utf16be_dec, utf32le_dec, utf32be_dec}
use uncil.Encoding.Encode.{
  is_surrogate, utf16_units, utf32_units, byte_units, u16le, u16be, u32le, u32be,
}
use uncil.Encoding.Table.{
  Encoding, utf8, utf16le, utf16be, utf32le, utf32be, ascii, latin1, enc, dec,
}
use uncil.Encoding.Units.{little, big, little4, big4}
use uncil.Encoding.Text.{collect, written, AllHave, encode-text, utf8ts-text, passthru-input}
use uncil.Encoding.Decode.{
  AllScalars, AllAscii, utf16_dec-written, utf32_dec-written, ascii_dec-written, latin1_dec-written,
}

-- The code points that come back: all for UTF-8, no surrogates for UTF-16 and UTF-32, and those
-- below 0x80 for ASCII and Latin-1.
abbrev pub AllReadable : Encoding → List ℕ → Type 0
AllReadable utf8 us = AllCodes us
AllReadable ascii us = AllAscii us
AllReadable latin1 us = AllAscii us
AllReadable e us = AllScalars us

scalar_codes : (us : List ℕ) → AllScalars us → AllCodes us
scalar_codes [] h = tt
scalar_codes (u ∷ us) h = (h.0.0, scalar_codes us h.1)

ascii_codes : (us : List ℕ) → AllAscii us → AllCodes us
ascii_codes [] h = tt
ascii_codes (u ∷ us) h = (omega (arith, h.0), ascii_codes us h.1)

utf16_has : (u16 : ℕ → List ℕ) (u : ℕ) → is_surrogate u ≡ false → utf16_units u16 u ≢ none
unfolding utf16_units
utf16_has u16 u h = elim (Bool-cases (leb 0x10000 u)) [
  | inl y ↦ rw (h, y) (λ e. cc)
  | inr y ↦ rw (h, y) (λ e. cc)
]

utf32_has : (u32 : ℕ → List ℕ) (u : ℕ) → is_surrogate u ≡ false → utf32_units u32 u ≢ none
unfolding utf32_units
utf32_has u32 u h = rw h (λ e. cc)

byte_has : (limit u : ℕ) → u < limit → byte_units limit u ≢ none
unfolding byte_units
byte_has limit u h = let l : leb limit u ≡ false = ground arith in rw l (λ e. cc)

utf16_all : (u16 : ℕ → List ℕ) (us : List ℕ) → AllScalars us → AllHave (utf16_units u16) us
utf16_all u16 [] h = tt
utf16_all u16 (u ∷ us) h = (utf16_has u16 u h.0.1, utf16_all u16 us h.1)

utf32_all : (u32 : ℕ → List ℕ) (us : List ℕ) → AllScalars us → AllHave (utf32_units u32) us
utf32_all u32 [] h = tt
utf32_all u32 (u ∷ us) h = (utf32_has u32 u h.0.1, utf32_all u32 us h.1)

byte_all : (limit : ℕ) (us : List ℕ) → 0x80 ≤ limit → AllAscii us → AllHave (byte_units limit) us
byte_all limit [] l h = tt
byte_all limit (u ∷ us) l h = (byte_has limit u (omega (arith, h.0)), byte_all limit us l h.1)

-- For each of the seven encodings and a text of at most `n` code points that the encoding can
-- read back (for UTF-8 all below 0x110000, for UTF-16 and UTF-32 all of these but the
-- surrogates, for ASCII and Latin-1 those below 0x80), the encoder of unc0_adddefaultencs
-- takes the whole text, returns 0 and writes some bytes, and the decoder, asked for `n`
-- characters, takes all these bytes, returns 0 and writes the text.
pub dec-enc :
    (e : Encoding) (us : List ℕ) (n : ℕ)
    → AllReadable e us
    → length us ≤ n
    → (w : List ℕ) × (enc collect e (text us) [] ≡ some (pos 0, [], w))
      × (dec collect e n w [] ≡ some (pos 0, [], text us))
unfolding enc dec
dec-enc utf8 us n h k = (text us, ap some (passthru-input (text us)), utf8ts-text us n h k)
dec-enc utf16le us n h k = (
  written (utf16_units u16le) us,
  encode-text (utf16_units u16le) us (scalar_codes us h) (utf16_all u16le us h),
  unfold utf16le_dec in utf16_dec-written little us n [] h k,
)
dec-enc utf16be us n h k = (
  written (utf16_units u16be) us,
  encode-text (utf16_units u16be) us (scalar_codes us h) (utf16_all u16be us h),
  unfold utf16be_dec in utf16_dec-written big us n [] h k,
)
dec-enc utf32le us n h k = (
  written (utf32_units u32le) us,
  encode-text (utf32_units u32le) us (scalar_codes us h) (utf32_all u32le us h),
  unfold utf32le_dec in utf32_dec-written little4 us n [] h k,
)
dec-enc utf32be us n h k = (
  written (utf32_units u32be) us,
  encode-text (utf32_units u32be) us (scalar_codes us h) (utf32_all u32be us h),
  unfold utf32be_dec in utf32_dec-written big4 us n [] h k,
)
dec-enc ascii us n h k = (
  written (byte_units 0x80) us,
  encode-text (byte_units 0x80) us (ascii_codes us h) (byte_all 0x80 us (omega arith) h),
  ap some (ascii_dec-written us n [] h k),
)
dec-enc latin1 us n h k = (
  written (byte_units 0x100) us,
  encode-text (byte_units 0x100) us (ascii_codes us h) (byte_all 0x100 us (omega arith) h),
  ap some (latin1_dec-written us n [] h k),
)
