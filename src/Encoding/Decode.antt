-- ===== src/Encoding/Decode.antt =====
-- The decoders of src/utxt.c on what the encoders have for a text.
use uncil.Prelude.{
  ℕ, zero, suc, ◌+◌, ◌-◌, ◌*◌, ◌/◌, ◌%◌, ◌^◌, ◌≤◌, ◌<◌, ◌≡◌, refl, ap, subst, ◌∙◌, arith, true,
  false, ◌&&◌, List, [], ◌∷◌, ◌++◌, some, Bool-cases, inl, inr, append_assoc, append-nil, length,
  take_all, ltb, leb,
}
use uncil.Prelude.Int.{pos}
use uncil.Prelude.Bits.{bit_and_low}
use uncil.Utf8.{utf8_bytes, utf8enc}
use uncil.Utf8.Encode.{bytes_one}
use uncil.Utf8.Text.{text}
use uncil.Encoding.{
  Sink, is_low_half, surrogate_pair, put_char, utf8_buf, utf16_dec, utf32_dec, ascii_dec,
  latin1_dec,
}
use uncil.Encoding.Encode.{is_surrogate, utf16_units, utf32_units, byte_units}
use uncil.Encoding.Units.{Joins, Joins4, pair_value, pair_is_low_half}
use uncil.Encoding.Text.{collect, written}

length-utf8_bytes : (u : ℕ) → length (utf8_bytes u) ≤ 4
unfolding utf8_bytes
length-utf8_bytes u = ground arith

-- The buffer of four bytes is large enough for a character.
pub utf8_buf-bytes : (u : ℕ) → u < 0x110000 → utf8_buf u ≡ some (utf8_bytes u)
unfolding utf8_buf utf8enc
utf8_buf-bytes u h =
    let e : ltb u 0x110000 ≡ true = ground arith in
    let n = length-utf8_bytes u in
    rw (utf8_buf, utf8enc, e)
      (rw (take_all 4 (utf8_bytes u) n)
        (ap some (take_all (length (utf8_bytes u)) (utf8_bytes u) (omega arith))))

pub put_char-bytes :
    {σ : Type 0} (out : Sink σ) (u : ℕ) (st : σ)
    → u < 0x110000
    → put_char out u st ≡ some (out st (utf8_bytes u))
unfolding put_char
put_char-bytes out u st h = rw (put_char, utf8_buf-bytes u h) refl

-- The rounds of the loops that go on
module _ {σ : Type 0} (out : Sink σ) (join : ℕ → ℕ → ℕ → ℕ) (first : ℕ → ℕ) where
  unit_round :
      (u n c d : ℕ) (s : List ℕ) (st st' : σ)
      → leb 0xd800 (join u c d) && ltb (join u c d) 0xdc00 ≡ false
      → put_char out (join u c d) st ≡ some (st', pos 0)
      → utf16_dec out join first false u (suc n) (c ∷ d ∷ s) st
        ≡ utf16_dec out join first false 0 n s st'
  unfolding utf16_dec
  unit_round u n c d s st st' h e = rw (utf16_dec, h, e) refl

  half_round :
      (u n c d : ℕ) (s : List ℕ) (st : σ)
      → leb 0xd800 (join u c d) && ltb (join u c d) 0xdc00 ≡ true
      → utf16_dec out join first false u (suc n) (c ∷ d ∷ s) st
        ≡ utf16_dec out join first true (first (join u c d)) n s st
  unfolding utf16_dec
  half_round u n c d s st h = rw (utf16_dec, h) refl

  pair_round :
      (u n c d : ℕ) (s : List ℕ) (st st' : σ)
      → is_low_half (join u c d) ≡ true
      → put_char out (surrogate_pair (join u c d)) st ≡ some (st', pos 0)
      → utf16_dec out join first true u n (c ∷ d ∷ s) st ≡ utf16_dec out join first false 0 n s st'
  unfolding utf16_dec
  pair_round u n c d s st st' h e = rw (utf16_dec, h, e) refl

word_round :
    {σ : Type 0} (out : Sink σ) (join : ℕ → ℕ → ℕ → ℕ → ℕ) (n c d e f : ℕ) (s : List ℕ) (st st' : σ)
    → leb 0x110000 (join c d e f) ≡ false
    → put_char out (join c d e f) st ≡ some (st', pos 0)
    → utf32_dec out join (suc n) (c ∷ d ∷ e ∷ f ∷ s) st ≡ utf32_dec out join n s st'
unfolding utf32_dec
word_round out join n c d e f s st st' h p = rw (utf32_dec, h, p) refl

-- A code point that the encodings of more than a byte have.
abbrev pub IsScalar : ℕ → Type 0
IsScalar u = (u < 0x110000) × (is_surrogate u ≡ false)

abbrev pub AllScalars : List ℕ → Type 0
AllScalars [] = Unit {0}
AllScalars (u ∷ us) = IsScalar u × AllScalars us

module _ {join : ℕ → ℕ → ℕ → ℕ} {first : ℕ → ℕ} {u16 : ℕ → List ℕ} (j : Joins join first u16) where
  unit_step :
      (n u : ℕ) (s st : List ℕ)
      → u < 0x10000
      → is_surrogate u ≡ false
      → utf16_dec collect join first false 0 (suc n) (u16 u ++ s) st
        ≡ utf16_dec collect join first false 0 n s (st ++ utf8_bytes u)
  unit_step n u s st h k =
      let v : join 0 (j.low u) (j.high u) ≡ u =
        subst (λ (t : ℕ). join t (j.low u) (j.high u) ≡ u) j.start
          (j.joined 0 u (omega arith) h ∙ omega arith) in
      let no : leb 0xd800 u && ltb u 0xdc00 ≡ false = ground arith in
      rw (j.unit u h) (
        unit_round collect join first 0 n (j.low u) (j.high u) s st (st ++ utf8_bytes u) (rw v no)
          (rw v (put_char-bytes collect u st (omega arith))))

  pair_step :
      (n a b : ℕ) (s st : List ℕ)
      → a < 0x400
      → b < 0x400
      → utf16_dec collect join first false 0
          (suc n)
          (u16 (0xd800 + a) ++ (u16 (0xdc00 + b) ++ s))
          st
        ≡ utf16_dec collect join first false 0 n s (st ++ utf8_bytes (a * 2 ^ 10 + b + 0x10000))
  pair_step n a b s st h k =
      let v : join 0 (j.low (0xd800 + a)) (j.high (0xd800 + a)) ≡ 0xd800 + a =
        subst (λ (t : ℕ). join t (j.low (0xd800 + a)) (j.high (0xd800 + a)) ≡ 0xd800 + a) j.start
          (j.joined 0 (0xd800 + a) (omega arith) (omega arith) ∙ omega arith) in
      let yes : leb 0xd800 (0xd800 + a) && ltb (0xd800 + a) 0xdc00 ≡ true = ground arith in
      let w = j.joined a (0xdc00 + b) h (omega arith) in
      let x : ℕ = a * 2 ^ 10 + b + 0x10000 in
      let o = put_char-bytes collect x st (omega arith) in
      rw (j.unit (0xd800 + a) (omega arith), j.unit (0xdc00 + b) (omega arith))
        (half_round collect join first 0 n (j.low (0xd800 + a)) (j.high (0xd800 + a))
            (j.low (0xdc00 + b) ∷ j.high (0xdc00 + b) ∷ s) st (rw v yes)
          ∙ rw (v, j.half a h)
              (pair_round collect join first (j.base a) n (j.low (0xdc00 + b)) (j.high (0xdc00 + b))
                s st (st ++ utf8_bytes x) (rw w (pair_is_low_half a b h k))
                (rw (w, pair_value a b h k) o)))

units_one :
    (u16 : ℕ → List ℕ) (u : ℕ)
    → u < 0x10000
    → is_surrogate u ≡ false
    → utf16_units u16 u ≡ some (u16 u)
unfolding utf16_units
units_one u16 u h k = let l : leb 0x10000 u ≡ false = ground arith in rw (k, l)

units_two :
    (u16 : ℕ → List ℕ) (u : ℕ)
    → 0x10000 ≤ u
    → u < 0x110000
    → utf16_units u16 u
      ≡ some (u16 (0xd800 + (u - 0x10000) / 2 ^ 10) ++ u16 (0xdc00 + (u - 0x10000) % 2 ^ 10))
unfolding utf16_units
units_two u16 u h k =
    let n : is_surrogate u ≡ false = ground arith in
    let l : leb 0x10000 u ≡ true = ground arith in
    let e : (u - 0x10000) / 2 ^ 10 % 2 ^ 10 ≡ (u - 0x10000) / 2 ^ 10 = omega arith in
    rw (n, l, bit_and_low 10 ((u - 0x10000) / 2 ^ 10), bit_and_low 10 (u - 0x10000), e)

units_none : (u32 : ℕ → List ℕ) (u : ℕ) → is_surrogate u ≡ false → utf32_units u32 u ≡ some (u32 u)
unfolding utf32_units
units_none u32 u k = rw k

byte_one : (limit u : ℕ) → u < limit → byte_units limit u ≡ some (u ∷ [])
unfolding byte_units
byte_one limit u h = let l : leb limit u ≡ false = ground arith in rw l

module _ {join : ℕ → ℕ → ℕ → ℕ} {first : ℕ → ℕ} {u16 : ℕ → List ℕ} (j : Joins join first u16) where
  -- A decoder of UTF-16 turns the units of a text into the text.
  pub utf16_dec-written :
      (us : List ℕ) (n : ℕ) (st : List ℕ)
      → AllScalars us
      → length us ≤ n
      → utf16_dec collect join first false 0 n (written (utf16_units u16) us) st
        ≡ some (pos 0, [], st ++ text us)
  unfolding written text
  utf16_dec-written [] zero st h k = rw append-nil (unfold utf16_dec in refl)
  utf16_dec-written [] (suc n) st h k = rw append-nil (unfold utf16_dec in refl)
  utf16_dec-written (u ∷ us) zero st h k = absurd (omega arith)
  utf16_dec-written (u ∷ us) (suc n) st h k =
      let next = utf16_dec-written us n (st ++ utf8_bytes u) h.1 (omega arith) in
      elim (Bool-cases (ltb u 0x10000)) [
        | inl y ↦ rw (units_one u16 u (ground arith) h.0.1) (
            unit_step j n u (written (utf16_units u16) us) st (ground arith) h.0.1
            ∙ next
            ∙ rw append_assoc)
        | inr y ↦
            let a : ℕ = (u - 0x10000) / 2 ^ 10 in
            let b : ℕ = (u - 0x10000) % 2 ^ 10 in
            let l : 0x10000 ≤ u = ground arith in
            let m = h.0.0 in
            let e : a * 2 ^ 10 + b + 0x10000 ≡ u = omega arith in
            rw (units_two u16 u l m, append_assoc)
              (rw e at
                  (pair_step j n a b (written (utf16_units u16) us) st (omega arith) (omega arith))
                ∙ next
                ∙ rw append_assoc)
      ]

module _ {join : ℕ → ℕ → ℕ → ℕ → ℕ} {u32 : ℕ → List ℕ} (j : Joins4 join u32) where
  word_step :
      (n u : ℕ) (s st : List ℕ)
      → u < 0x110000
      → utf32_dec collect join (suc n) (u32 u ++ s) st
        ≡ utf32_dec collect join n s (st ++ utf8_bytes u)
  word_step n u s st h =
      let no : leb 0x110000 u ≡ false = ground arith in
      rw (j.unit u (omega arith)) (
        word_round collect join n (j.first u) (j.second u) (j.third u) (j.fourth u) s st
          (st ++ utf8_bytes u) (rw (j.joined u (omega arith)) no)
          (rw (j.joined u (omega arith)) (put_char-bytes collect u st h)))

  -- A decoder of UTF-32 turns the words of a text into the text.
  pub utf32_dec-written :
      (us : List ℕ) (n : ℕ) (st : List ℕ)
      → AllScalars us
      → length us ≤ n
      → utf32_dec collect join n (written (utf32_units u32) us) st ≡ some (pos 0, [], st ++ text us)
  unfolding written text
  utf32_dec-written [] zero st h k = rw append-nil (unfold utf32_dec in refl)
  utf32_dec-written [] (suc n) st h k = rw append-nil (unfold utf32_dec in refl)
  utf32_dec-written (u ∷ us) zero st h k = absurd (omega arith)
  utf32_dec-written (u ∷ us) (suc n) st h k = rw (units_none u32 u h.0.1) (
      word_step n u (written (utf32_units u32) us) st h.0.0
      ∙ utf32_dec-written us n (st ++ utf8_bytes u) h.1 (omega arith)
      ∙ rw append_assoc)

abbrev pub AllAscii : List ℕ → Type 0
AllAscii [] = Unit {0}
AllAscii (u ∷ us) = (u < 0x80) × AllAscii us

ascii_step :
    (n c : ℕ) (s st : List ℕ)
    → leb 0x80 c ≡ false
    → ascii_dec collect (suc n) (c ∷ s) st ≡ ascii_dec collect n s (st ++ c ∷ [])
unfolding ascii_dec
ascii_step n c s st e = rw (ascii_dec, e) refl

latin1_step :
    (n c : ℕ) (s st : List ℕ)
    → latin1_dec collect (suc n) (c ∷ s) st ≡ latin1_dec collect n s (st ++ c ∷ [])
unfolding latin1_dec
latin1_step n c s st = refl

-- Bytes below 0x80 are passed on.
pub ascii_dec-written :
    (us : List ℕ) (n : ℕ) (st : List ℕ)
    → AllAscii us
    → length us ≤ n
    → ascii_dec collect n (written (byte_units 0x80) us) st ≡ (pos 0, [], st ++ text us)
unfolding written text
ascii_dec-written [] zero st h k = rw append-nil (unfold ascii_dec in refl)
ascii_dec-written [] (suc n) st h k = rw append-nil (unfold ascii_dec in refl)
ascii_dec-written (u ∷ us) zero st h k = absurd (omega arith)
ascii_dec-written (u ∷ us) (suc n) st h k =
    let no : leb 0x80 u ≡ false = ground (arith, h.0) in
    let next = ascii_dec-written us n (st ++ u ∷ []) h.1 (omega arith) in
    rw (byte_one 0x80 u h.0, bytes_one u h.0)
      (ascii_step n u (written (byte_units 0x80) us) st no ∙ next ∙ rw append_assoc)

pub latin1_dec-written :
    (us : List ℕ) (n : ℕ) (st : List ℕ)
    → AllAscii us
    → length us ≤ n
    → latin1_dec collect n (written (byte_units 0x100) us) st ≡ (pos 0, [], st ++ text us)
unfolding written text
latin1_dec-written [] zero st h k = rw append-nil (unfold latin1_dec in refl)
latin1_dec-written [] (suc n) st h k = rw append-nil (unfold latin1_dec in refl)
latin1_dec-written (u ∷ us) zero st h k = absurd (omega arith)
latin1_dec-written (u ∷ us) (suc n) st h k =
    let next = latin1_dec-written us n (st ++ u ∷ []) h.1 (omega arith) in
    rw (byte_one 0x100 u (omega (arith, h.0)), bytes_one u h.0)
      (latin1_step n u (written (byte_units 0x100) us) st ∙ next ∙ rw append_assoc)
