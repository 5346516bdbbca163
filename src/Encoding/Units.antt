-- ===== src/Encoding/Units.antt =====
-- Putting bytes together again: 16-bit and 32-bit units of either byte order, and surrogate pairs.
use uncil.Prelude.{
  ℕ, ◌+◌, ◌*◌, ◌/◌, ◌%◌, ◌^◌, ◌<◌, ◌≡◌, refl, ◌∙◌, arith, true, List, [], ◌∷◌, bit_and, bit_or,
}
use uncil.Prelude.Bits.{bit_or_fields, bit_or_above, bit_or_between, bit_and_low, bit_and_window}
use uncil.Encoding.{
  join16le, join16be, join32le, join32be, first16le, first16be, surrogate_pair, is_low_half,
}
use uncil.Encoding.Encode.{u16le, u16be, u32le, u32be}

-- `join`, `first` and `u16` belong to one byte order: a unit that is written as two bytes is put
-- together again, also above what is held of a first half.
pub record Joins (join : ℕ → ℕ → ℕ → ℕ) (first : ℕ → ℕ) (u16 : ℕ → List ℕ) : Type 0 where
  pub base : ℕ → ℕ
  pub start : base 0 ≡ 0
  pub half : (a : ℕ) → a < 0x400 → first (0xd800 + a) ≡ base a
  pub low : ℕ → ℕ
  pub high : ℕ → ℕ
  pub unit : (x : ℕ) → x < 2 ^ 16 → u16 x ≡ low x ∷ high x ∷ []
  pub joined : (a x : ℕ) → a < 0x400 → x < 2 ^ 16 → join (base a) (low x) (high x) ≡ a * 2 ^ 16 + x

low10 : (a : ℕ) → a < 0x400 → bit_and (0xd800 + a) 0x3ff ≡ a
low10 a h = bit_and_low 10 (0xd800 + a) ∙ omega arith

half_le : (a : ℕ) → a < 0x400 → first16le (0xd800 + a) ≡ a * 2 ^ 16
unfolding first16le
half_le a h = rw (low10 a h)

half_be : (a : ℕ) → a < 0x400 → first16be (0xd800 + a) ≡ a
unfolding first16be
half_be a h = low10 a h

unit_le : (x : ℕ) → x < 2 ^ 16 → u16le x ≡ (x % 256) ∷ (x / 256) ∷ []
unfolding u16le
unit_le x h =
    let e : x / 2 ^ 8 % 2 ^ 8 ≡ x / 256 = omega arith in
    rw (bit_and_low 8 x, bit_and_low 8 (x / 2 ^ 8), e)

unit_be : (x : ℕ) → x < 2 ^ 16 → u16be x ≡ (x / 256) ∷ (x % 256) ∷ []
unfolding u16be
unit_be x h =
    let e : x / 2 ^ 8 % 2 ^ 8 ≡ x / 256 = omega arith in
    rw (bit_and_low 8 x, bit_and_low 8 (x / 2 ^ 8), e)

joined_le :
    (a x : ℕ) → a < 0x400 → x < 2 ^ 16 → join16le (a * 2 ^ 16) (x % 256) (x / 256) ≡ a * 2 ^ 16 + x
unfolding join16le
joined_le a x h k =
    let e : a * 2 ^ 16 + x % 256 ≡ a * 2 ^ 8 * 2 ^ 8 + x % 256 = omega arith in
    rw (bit_or_fields 16 a (x % 256) (omega arith), e)
      (bit_or_between 8 8 a (x % 256) (x / 256) (omega arith) (omega arith) ∙ omega arith)

shift_in : (a c : ℕ) → a < 2 ^ 24 → c < 256 → bit_or (a * 2 ^ 8 % 2 ^ 32) c ≡ a * 2 ^ 8 + c
shift_in a c h k =
    let e : a * 2 ^ 8 % 2 ^ 32 ≡ a * 2 ^ 8 = omega arith in rw e (bit_or_fields 8 a c k)

pub join16be_value :
    (a c d : ℕ) → a < 2 ^ 16 → c < 256 → d < 256 → join16be a c d ≡ (a * 2 ^ 8 + c) * 2 ^ 8 + d
unfolding join16be
join16be_value a c d h k l =
    rw (shift_in a c (omega arith) k) (shift_in (a * 2 ^ 8 + c) d (omega arith) l)

joined_be : (a x : ℕ) → a < 0x400 → x < 2 ^ 16 → join16be a (x / 256) (x % 256) ≡ a * 2 ^ 16 + x
joined_be a x h k =
    join16be_value a (x / 256) (x % 256) (omega arith) (omega arith) (omega arith) ∙ omega arith

pub little : Joins join16le first16le u16le
little = record {
  base = λ a. a * 2 ^ 16;
  start = refl;
  half = half_le;
  low = λ x. x % 256;
  high = λ x. x / 256;
  unit = unit_le;
  joined = joined_le;
}

pub big : Joins join16be first16be u16be
big = record {
  base = λ a. a;
  start = refl;
  half = half_be;
  low = λ x. x / 256;
  high = λ x. x % 256;
  unit = unit_be;
  joined = joined_be;
}

-- The two halves of a pair, put together.
pub pair_value :
    (a b : ℕ)
    → a < 0x400
    → b < 0x400
    → surrogate_pair (a * 2 ^ 16 + (0xdc00 + b)) ≡ a * 2 ^ 10 + b + 0x10000
unfolding surrogate_pair
pair_value a b h k =
    let v : ℕ = a * 2 ^ 16 + (0xdc00 + b) in
    let e : bit_and (v / 2 ^ 6) 0xffc00 ≡ a * 2 ^ 10 =
      bit_and_window 10 10 (v / 2 ^ 6) ∙ omega arith in
    let f : bit_and v 0xffff ≡ 0xdc00 + b = bit_and_low 16 v ∙ omega arith in
    let g : bit_and (0xdc00 + b) 0x3ff ≡ b = bit_and_low 10 (0xdc00 + b) ∙ omega arith in
    rw (e, f, g, bit_or_fields 10 a b k)

pub pair_is_low_half :
    (a b : ℕ) → a < 0x400 → b < 0x400 → is_low_half (a * 2 ^ 16 + (0xdc00 + b)) ≡ true
unfolding is_low_half
pair_is_low_half a b h k =
    let f : bit_and (a * 2 ^ 16 + (0xdc00 + b)) 0xffff ≡ 0xdc00 + b =
      bit_and_low 16 (a * 2 ^ 16 + (0xdc00 + b)) ∙ omega arith in
    rw f (ground arith)

-- `join` and `u32` belong to one byte order.
pub record Joins4 (join : ℕ → ℕ → ℕ → ℕ → ℕ) (u32 : ℕ → List ℕ) : Type 0 where
  pub first : ℕ → ℕ
  pub second : ℕ → ℕ
  pub third : ℕ → ℕ
  pub fourth : ℕ → ℕ
  pub unit : (x : ℕ) → x < 2 ^ 32 → u32 x ≡ first x ∷ second x ∷ third x ∷ fourth x ∷ []
  pub joined : (x : ℕ) → x < 2 ^ 32 → join (first x) (second x) (third x) (fourth x) ≡ x

unit4_le :
    (x : ℕ)
    → x < 2 ^ 32
    → u32le x ≡ (x % 256) ∷ (x / 2 ^ 8 % 256) ∷ (x / 2 ^ 16 % 256) ∷ (x / 2 ^ 24 % 256) ∷ []
unfolding u32le
unit4_le x h = rw (
  bit_and_low 8 x,
  bit_and_low 8 (x / 2 ^ 8),
  bit_and_low 8 (x / 2 ^ 16),
  bit_and_low 8 (x / 2 ^ 24),
)

unit4_be :
    (x : ℕ)
    → x < 2 ^ 32
    → u32be x ≡ (x / 2 ^ 24 % 256) ∷ (x / 2 ^ 16 % 256) ∷ (x / 2 ^ 8 % 256) ∷ (x % 256) ∷ []
unfolding u32be
unit4_be x h = rw (
  bit_and_low 8 x,
  bit_and_low 8 (x / 2 ^ 8),
  bit_and_low 8 (x / 2 ^ 16),
  bit_and_low 8 (x / 2 ^ 24),
)

join32le_value :
    (c d e f : ℕ)
    → c < 256
    → d < 256
    → e < 256
    → join32le c d e f ≡ c + d * 2 ^ 8 + e * 2 ^ 16 + f * 2 ^ 24
unfolding join32le
join32le_value c d e f h k l =
    rw
      (
        bit_or_fields 8 0 c h,
        bit_or_above 8 d (0 * 2 ^ 8 + c) (omega arith),
        bit_or_above 16 e (0 * 2 ^ 8 + c + d * 2 ^ 8) (omega arith),
        bit_or_above 24 f (0 * 2 ^ 8 + c + d * 2 ^ 8 + e * 2 ^ 16) (omega arith),
      )
      (omega arith)

join32be_value :
    (c d e f : ℕ)
    → c < 256
    → d < 256
    → e < 256
    → f < 256
    → join32be c d e f ≡ ((c * 2 ^ 8 + d) * 2 ^ 8 + e) * 2 ^ 8 + f
unfolding join32be
join32be_value c d e f h k l m =
    rw (join16be_value 0 c d (omega arith) h k)
      (join16be_value ((0 * 2 ^ 8 + c) * 2 ^ 8 + d) e f (omega arith) l m ∙ omega arith)

joined4_le :
    (x : ℕ)
    → x < 2 ^ 32
    → join32le (x % 256) (x / 2 ^ 8 % 256) (x / 2 ^ 16 % 256) (x / 2 ^ 24 % 256) ≡ x
joined4_le x h =
    join32le_value (x % 256) (x / 2 ^ 8 % 256) (x / 2 ^ 16 % 256) (x / 2 ^ 24 % 256) (omega arith)
      (omega arith) (omega arith)
    ∙ omega arith

joined4_be :
    (x : ℕ)
    → x < 2 ^ 32
    → join32be (x / 2 ^ 24 % 256) (x / 2 ^ 16 % 256) (x / 2 ^ 8 % 256) (x % 256) ≡ x
joined4_be x h =
    join32be_value (x / 2 ^ 24 % 256) (x / 2 ^ 16 % 256) (x / 2 ^ 8 % 256) (x % 256) (omega arith)
      (omega arith) (omega arith) (omega arith)
    ∙ omega arith

pub little4 : Joins4 join32le u32le
little4 = record {
  first = λ x. x % 256;
  second = λ x. x / 2 ^ 8 % 256;
  third = λ x. x / 2 ^ 16 % 256;
  fourth = λ x. x / 2 ^ 24 % 256;
  unit = unit4_le;
  joined = joined4_le;
}

pub big4 : Joins4 join32be u32be
big4 = record {
  first = λ x. x / 2 ^ 24 % 256;
  second = λ x. x / 2 ^ 16 % 256;
  third = λ x. x / 2 ^ 8 % 256;
  fourth = λ x. x % 256;
  unit = unit4_be;
  joined = joined4_be;
}
