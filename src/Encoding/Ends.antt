-- ===== src/Encoding/Ends.antt =====
-- The loops of the encoders come to an end: each round takes a byte of the input.
use uncil.Prelude.{
  ℕ, zero, suc, ◌-◌, ◌≤◌, ◌<◌, ◌≡◌, ◌≢◌, ◌⊎◌, refl, sym, ap, ◌∙◌, arith, List, [], ◌∷◌, Option,
  none, Option-cases, Bool-cases, inl, inr, length, ◌==◌, bit_and, bit_or, ◌*◌, ◌/◌, ◌%◌, ◌^◌, Bool,
  true, false, ◌&&◌, ltb, leb,
}
use uncil.Prelude.Int.{pos, eqb_ℤ, ltb_ℤ}
use uncil.Prelude.Bits.{bit_or_fields, bit_or_above, bit_and_window, bit_and_low}
use uncil.Utf8.{utf8dec, utf8_bytes}
use uncil.Utf8.Shape.{AllBytes}
use uncil.Encoding.{
  Sink, join16le, join16be, join32le, join32be, first16le, first16be, surrogate_pair, is_low_half,
  utf16_dec, utf32_dec, utf16le_dec, utf16be_dec, utf32le_dec, utf32be_dec,
}
use uncil.Encoding.Decode.{put_char-bytes}
use uncil.Encoding.Encode.{
  char_size, Tails, ended, broken, whole, also, read_tails, Char, at_end, cut, wrong, char,
  with_lead, read_char, encode_loop, encode, utf8ts_loop, utf8ts,
}
use uncil.Encoding.Encode.{utf16_units, utf32_units, byte_units, u16le, u16be, u32le, u32be}
use uncil.Encoding.Table.{
  Encoding, utf8, utf16le, utf16be, utf32le, utf32be, ascii, latin1, enc, dec,
}

-- How much is left behind a character.
LeavesAtMost : ℕ → Tails → Type 0
LeavesAtMost n ended = Unit {0}
LeavesAtMost n (broken s) = length s ≤ n
LeavesAtMost n (whole b s) = length s ≤ n

also_rest : (c n : ℕ) (t : Tails) → LeavesAtMost n t → LeavesAtMost (suc n) (also c t)
unfolding LeavesAtMost
also_rest c n ended h = tt
also_rest c n (broken s) h = omega arith
also_rest c n (whole b s) h = omega arith

read_tails_rest : (j : ℕ) (s : List ℕ) → LeavesAtMost (length s) (read_tails j s)
unfolding read_tails
read_tails_rest zero s = unfold LeavesAtMost in omega arith
read_tails_rest (suc j) [] = unfold LeavesAtMost in tt
read_tails_rest (suc j) (c ∷ s) =
    let rest = also_rest c (length s) (read_tails j s) (read_tails_rest j s) in
    elim (Bool-cases (bit_and c 0xc0 == 0x80)) [
      | inl y ↦ rw y rest
      | inr y ↦ rw y (unfold LeavesAtMost in omega arith)
    ]

with_lead_rest :
    (c n : ℕ) (t : Tails) (b s : List ℕ)
    → LeavesAtMost n t
    → with_lead c t ≡ char b s
    → length s ≤ n
unfolding LeavesAtMost
with_lead_rest c n ended b s h e = cc
with_lead_rest c n (broken s') b s h e = cc
with_lead_rest c n (whole b' s') b s h e = let f : s' ≡ s = cc in omega (arith, ap length f)

read_char_rest : (s b s' : List ℕ) → read_char s ≡ char b s' → length s' < length s
read_char_rest [] b s' e = let f : read_char [] ≡ at_end = unfold read_char in refl in cc
read_char_rest (c ∷ s) b s' e = elim (Option-cases (char_size c)) [
  | inl f ↦ let g : read_char (c ∷ s) ≡ wrong s = unfold read_char in rw (read_char, f) refl in cc
  | inr (j, f) ↦
      let g : read_char (c ∷ s) ≡ with_lead c (read_tails (j - 1) s) =
        unfold read_char in rw (read_char, f) refl in
      let l =
        with_lead_rest c (length s) (read_tails (j - 1) s) b s' (read_tails_rest (j - 1) s)
          (sym g ∙ e) in
      omega arith
]

Char-cases :
    (k : Char)
    → (k ≡ at_end) ⊎ (k ≡ cut) ⊎ ((s : List ℕ) × (k ≡ wrong s)) ⊎ ((b s : List ℕ) × (k ≡ char b s))
Char-cases at_end = inl refl
Char-cases cut = inr (inl refl)
Char-cases (wrong s) = inr (inr (inl (s, refl)))
Char-cases (char b s) = inr (inr (inr (b, s, refl)))

module _ {σ : Type 0} (out : Sink σ) where
  encode_ends :
      (units : ℕ → Option (List ℕ)) (fuel : ℕ) (s : List ℕ) (st : σ)
      → length s < fuel
      → encode_loop out units fuel s st ≢ none
  unfolding encode_loop
  encode_ends units zero s st h = absurd (omega arith)
  encode_ends units (suc fuel) s st h = elim (Char-cases (read_char s)) [
    | inl e ↦ rw (encode_loop, e) (λ f. cc)
    | inr (inl e) ↦ rw (encode_loop, e) (λ f. cc)
    | inr (inr (inl (s', e))) ↦ rw (encode_loop, e) (λ f. cc)
    | inr (inr (inr (b, s', e))) ↦
        let l = read_char_rest s b s' e in
        elim (Option-cases (units (utf8dec b).0)) [
          | inl g ↦ rw (encode_loop, e, g) (λ f. cc)
          | inr (w, g) ↦
              let ih = encode_ends units fuel s' (out st w).0 (omega arith) in
              elim (Bool-cases (eqb_ℤ (out st w).1 (pos 0))) [
                | inl t ↦ rw (encode_loop, e, g, t) ih
                | inr t ↦ rw (encode_loop, e, g, t) (λ f. cc)
              ]
        ]
  ]

  utf8ts_ends :
      (fuel b left : ℕ) (s : List ℕ) (st : σ)
      → length s < fuel
      → utf8ts_loop out fuel b left s st ≢ none
  unfolding utf8ts_loop
  utf8ts_ends zero b left s st h = absurd (omega arith)
  utf8ts_ends (suc fuel) b zero s st h = λ f. cc
  utf8ts_ends (suc fuel) b (suc left) s st h = elim (Char-cases (read_char s)) [
    | inl e ↦ rw (utf8ts_loop, e) (λ f. cc)
    | inr (inl e) ↦ rw (utf8ts_loop, e) (λ f. cc)
    | inr (inr (inl (s', e))) ↦ rw (utf8ts_loop, e) (λ f. cc)
    | inr (inr (inr (w, s', e))) ↦
        let l = read_char_rest s w s' e in
        let counted = utf8ts_ends fuel (suc b) left s' (out st w).0 (omega arith) in
        let skipped = utf8ts_ends fuel b (suc left) s' (out st w).0 (omega arith) in
        elim (Bool-cases (ltb_ℤ (pos 0) (out st w).1)) [
          | inl g ↦ rw (utf8ts_loop, e, g) (λ f. cc)
          | inr g ↦ elim (Bool-cases (eqb_ℤ (out st w).1 (pos 0))) [
            | inl t ↦ rw (utf8ts_loop, e, g, t) counted
            | inr t ↦ rw (utf8ts_loop, e, g, t) skipped
          ]
        ]
  ]

-- One decoded character
or_byte : (c : ℕ) → c < 256 → bit_or 0 c ≡ c
or_byte c h = bit_or_fields 8 0 c h ∙ omega arith

join16le_below : (c d : ℕ) → c < 256 → d < 256 → join16le 0 c d < 0x10000
unfolding join16le
join16le_below c d h k = rw (or_byte c h, bit_or_above 8 d c h) (omega arith)

join16be_below : (c d : ℕ) → c < 256 → d < 256 → join16be 0 c d < 0x10000
unfolding join16be
join16be_below c d h k =
    let e : c * 2 ^ 8 % 2 ^ 32 ≡ c * 2 ^ 8 = omega arith in
    rw (or_byte c h, e, bit_or_fields 8 c d k) (omega arith)

surrogate_pair_below : (v : ℕ) → surrogate_pair v < 0x110000
unfolding surrogate_pair
surrogate_pair_below v =
    let e = bit_and_window 10 10 (v / 2 ^ 6) in
    let g = bit_and_low 10 (bit_and v 0xffff) in
    let r = bit_and v 0xffff % 2 ^ 10 in
    rw (e, g, bit_or_fields 10 (v / 2 ^ 6 / 2 ^ 10 % 2 ^ 10) r (omega arith)) (omega arith)

-- What is kept before a unit: nothing, or the first half of a pair
Kept : Bool → ℕ → Type 0
Kept false u = u ≡ 0
Kept true u = Unit {0}

module _ {σ : Type 0} (out : Sink σ) where
  utf16_ends :
      (join : ℕ → ℕ → ℕ → ℕ) (first : ℕ → ℕ)
      → ((c d : ℕ) → c < 256 → d < 256 → join 0 c d < 0x10000)
      → (half : Bool) (u n : ℕ) (s : List ℕ) (st : σ) → Kept half u
      → AllBytes s
      → utf16_dec out join first half u n s st ≢ none
  unfolding utf16_dec Kept
  utf16_ends join first j false u zero s st k b = λ f. cc
  utf16_ends join first j false u (suc n) [] st k b = λ f. cc
  utf16_ends join first j false u (suc n) (c ∷ []) st k b = λ f. cc
  utf16_ends join first j false u (suc n) (c ∷ d ∷ s) st k b =
      elim (Bool-cases (leb 0xd800 (join u c d) && ltb (join u c d) 0xdc00)) [
        | inl h ↦
            rw (utf16_dec, h) (utf16_ends join first j true (first (join u c d)) n s st tt b.1.1)
        | inr h ↦
            let l : join u c d < 0x10000 = rw k (j c d b.0 b.1.0) in
            let p = put_char-bytes out (join u c d) st (omega (arith, l)) in
            let r = out st (utf8_bytes (join u c d)) in
            elim (Bool-cases (eqb_ℤ r.1 (pos 0))) [
              | inl t ↦ rw (utf16_dec, h, p, t) (utf16_ends join first j false 0 n s r.0 refl b.1.1)
              | inr t ↦ rw (utf16_dec, h, p, t) (λ f. cc)
            ]
      ]
  utf16_ends join first j true u n [] st k b = λ f. cc
  utf16_ends join first j true u n (c ∷ []) st k b = λ f. cc
  utf16_ends join first j true u n (c ∷ d ∷ s) st k b =
      elim (Bool-cases (is_low_half (join u c d))) [
        | inl h ↦
            let x = surrogate_pair (join u c d) in
            let p = put_char-bytes out x st (surrogate_pair_below (join u c d)) in
            let r = out st (utf8_bytes x) in
            elim (Bool-cases (eqb_ℤ r.1 (pos 0))) [
              | inl t ↦ rw (utf16_dec, h, p, t) (utf16_ends join first j false 0 n s r.0 refl b.1.1)
              | inr t ↦ rw (utf16_dec, h, p, t) (λ f. cc)
            ]
        | inr h ↦ rw (utf16_dec, h) (λ f. cc)
      ]

  -- The test of the decoder keeps what unc0_utf8enc does not return for away from it.
  utf32_ends :
      (join : ℕ → ℕ → ℕ → ℕ → ℕ) (n : ℕ) (s : List ℕ) (st : σ) → utf32_dec out join n s st ≢ none
  unfolding utf32_dec
  utf32_ends join zero s st = λ f. cc
  utf32_ends join (suc n) [] st = λ f. cc
  utf32_ends join (suc n) (c ∷ []) st = λ f. cc
  utf32_ends join (suc n) (c ∷ d ∷ []) st = λ f. cc
  utf32_ends join (suc n) (c ∷ d ∷ e ∷ []) st = λ f. cc
  utf32_ends join (suc n) (c ∷ d ∷ e ∷ f ∷ s) st =
      let x = join c d e f in
      elim (Bool-cases (leb 0x110000 x)) [
        | inl h ↦ rw (utf32_dec, h) (λ g. cc)
        | inr h ↦
            let p = put_char-bytes out x st (ground arith) in
            let r = out st (utf8_bytes x) in
            elim (Bool-cases (eqb_ℤ r.1 (pos 0))) [
              | inl t ↦ rw (utf32_dec, h, p, t) (utf32_ends join n s r.0)
              | inr t ↦ rw (utf32_dec, h, p, t) (λ g. cc)
            ]
      ]

enc_total : {σ : Type 0} (out : Sink σ) (e : Encoding) (s : List ℕ) (st : σ) → enc out e s st ≢ none
unfolding enc encode
enc_total out utf8 s st = λ f. cc
enc_total out utf16le s st = encode_ends out (utf16_units u16le) (suc (length s)) s st (omega arith)
enc_total out utf16be s st = encode_ends out (utf16_units u16be) (suc (length s)) s st (omega arith)
enc_total out utf32le s st = encode_ends out (utf32_units u32le) (suc (length s)) s st (omega arith)
enc_total out utf32be s st = encode_ends out (utf32_units u32be) (suc (length s)) s st (omega arith)
enc_total out ascii s st = encode_ends out (byte_units 0x80) (suc (length s)) s st (omega arith)
enc_total out latin1 s st = encode_ends out (byte_units 0x100) (suc (length s)) s st (omega arith)

dec_total :
    {σ : Type 0} (out : Sink σ) (e : Encoding) (n : ℕ) (s : List ℕ) (st : σ)
    → AllBytes s
    → dec out e n s st ≢ none
unfolding dec utf8ts utf16le_dec utf16be_dec utf32le_dec utf32be_dec Kept
dec_total out utf8 n s st b = utf8ts_ends out (suc (length s)) 0 n s st (omega arith)
dec_total out utf16le n s st b =
    utf16_ends out join16le first16le join16le_below false 0 n s st refl b
dec_total out utf16be n s st b =
    utf16_ends out join16be first16be join16be_below false 0 n s st refl b
dec_total out utf32le n s st b = utf32_ends out join32le n s st
dec_total out utf32be n s st b = utf32_ends out join32be n s st
dec_total out ascii n s st b = λ f. cc
dec_total out latin1 n s st b = λ f. cc

-- For every output, every encoding and every input of bytes, valid or not, the encoder and the
-- decoder of unc0_adddefaultencs return: the fuel, one more than the number of bytes, is
-- enough, and unc0_utf8enc is not called with what it does not return for.
pub converters_total :
    {σ : Type 0} (out : Sink σ) (e : Encoding) (n : ℕ) (s : List ℕ) (st : σ)
    → AllBytes s
    → (enc out e s st ≢ none) × (dec out e n s st ≢ none)
converters_total out e n s st b = (enc_total out e s st, dec_total out e n s st b)
