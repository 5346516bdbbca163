-- ===== src/Utf8/Shape.antt =====
-- What the walks over a text need of one character: a lead byte that tells the size, and
-- continuation bytes behind it.
use uncil.Prelude.{
  ℕ, suc, ◌+◌, ◌/◌, ◌%◌, ◌≤◌, ◌<◌, ◌≡◌, ◌≢◌, inl, inr, arith, List, [], ◌∷◌, bit_and, ltb, ◌==◌,
  Bool-cases, false, length,
}
use uncil.Prelude.Bits.{and_0xc0}
use uncil.Utf8.{utf8_bytes, lead_size}
use uncil.Utf8.Encode.{bytes_one, bytes_two, bytes_three, bytes_four}
use uncil.Utf8.Decode.{is_tail}

abbrev pub IsTail : ℕ → Type 0
IsTail b = bit_and b 0xc0 ≡ 0x80

abbrev pub AllTails : List ℕ → Type 0
AllTails [] = Unit {0}
AllTails (b ∷ bs) = IsTail b × AllTails bs

abbrev pub AllBytes : List ℕ → Type 0
AllBytes [] = Unit {0}
AllBytes (b ∷ bs) = (b < 256) × AllBytes bs

pub record Shape (bs : List ℕ) : Type 0 where
  pub lead : ℕ
  pub tails : List ℕ
  pub split : bs ≡ lead ∷ tails
  pub starts : (bit_and lead 0xc0 == 0x80) ≡ false
  pub continues : AllTails tails
  pub size : lead_size lead ≡ suc (length tails)
  pub below : lead < 248
  pub bytes : AllBytes tails

not_tail : (b : ℕ) → b < 256 → b / 64 ≢ 2 → (bit_and b 0xc0 == 0x80) ≡ false
not_tail b h n = rw (and_0xc0 b h) (ground arith)

size_one : (b : ℕ) → b < 0xc0 → lead_size b ≡ 1
unfolding lead_size
size_one b h = ground arith

size_two : (b : ℕ) → 0xc0 ≤ b → b < 0xe0 → lead_size b ≡ 2
unfolding lead_size
size_two b h k = ground arith

size_three : (b : ℕ) → 0xe0 ≤ b → b < 0xf0 → lead_size b ≡ 3
unfolding lead_size
size_three b h k = ground arith

size_four : (b : ℕ) → 0xf0 ≤ b → lead_size b ≡ 4
unfolding lead_size
size_four b h = ground arith

Shape-one : (u : ℕ) → u < 0x80 → Shape (utf8_bytes u)
Shape-one u h = record {
  lead = u;
  tails = [];
  split = bytes_one u h;
  starts = not_tail u (omega arith) (omega arith);
  continues = tt;
  size = size_one u (omega arith);
  below = omega arith;
  bytes = tt;
}

Shape-two : (u : ℕ) → 0x80 ≤ u → u < 0x800 → Shape (utf8_bytes u)
Shape-two u h k = record {
  lead = 192 + u / 64;
  tails = (128 + u % 64) ∷ [];
  split = bytes_two u h k;
  starts = not_tail (192 + u / 64) (omega arith) (omega arith);
  continues = (is_tail (u % 64) (omega arith), tt);
  size = size_two (192 + u / 64) (omega arith) (omega arith);
  below = omega arith;
  bytes = (omega arith, tt);
}

Shape-three : (u : ℕ) → 0x800 ≤ u → u < 0x10000 → Shape (utf8_bytes u)
Shape-three u h k = record {
  lead = 224 + u / 4096;
  tails = (128 + u / 64 % 64) ∷ (128 + u % 64) ∷ [];
  split = bytes_three u h k;
  starts = not_tail (224 + u / 4096) (omega arith) (omega arith);
  continues = (is_tail (u / 64 % 64) (omega arith), (is_tail (u % 64) (omega arith), tt));
  size = size_three (224 + u / 4096) (omega arith) (omega arith);
  below = omega arith;
  bytes = (omega arith, (omega arith, tt));
}

Shape-four : (u : ℕ) → 0x10000 ≤ u → u < 0x200000 → Shape (utf8_bytes u)
Shape-four u h k = record {
  lead = 240 + u / 262144;
  tails = (128 + u / 4096 % 64) ∷ (128 + u / 64 % 64) ∷ (128 + u % 64) ∷ [];
  split = bytes_four u h k;
  starts = not_tail (240 + u / 262144) (omega arith) (omega arith);
  continues = (
    is_tail (u / 4096 % 64) (omega arith),
    (is_tail (u / 64 % 64) (omega arith), (is_tail (u % 64) (omega arith), tt)),
  );
  size = size_four (240 + u / 262144) (omega arith);
  below = omega arith;
  bytes = (omega arith, (omega arith, (omega arith, tt)));
}

-- Every code point below 2 ^ 21 has such bytes.
pub shape : (u : ℕ) → u < 0x200000 → Shape (utf8_bytes u)
shape u h = elim (Bool-cases (ltb u 0x80)) [
  | inl y ↦ Shape-one u (ground arith)
  | inr y ↦ elim (Bool-cases (ltb u 0x800)) [
    | inl z ↦ Shape-two u (ground arith) (ground arith)
    | inr z ↦ elim (Bool-cases (ltb u 0x10000)) [
      | inl t ↦ Shape-three u (ground arith) (ground arith)
      | inr t ↦ Shape-four u (ground arith) h
    ]
  ]
]
