-- ===== src/Utf8/Encode.antt =====
-- The bytes that unc0_utf8enc writes, in plain arithmetic, and when it returns.
use uncil.Prelude.{
  ℕ, zero, suc, ◌+◌, ◌/◌, ◌%◌, ◌^◌, ◌≤◌, ◌<◌, ◌≡◌, refl, arith, [], ◌∷◌, none, bit_and, bit_or,
}
use uncil.Prelude.Bits.{bit_or_fields, bit_and_low}
use uncil.Utf8.{utf8_bytes, utf8enc}

-- `0x80 | (x & 0x3F)`
tail_byte : (x : ℕ) → bit_or 0x80 (bit_and x 0x3f) ≡ 128 + x % 64
tail_byte x = rw (bit_and_low 6 x) (bit_or_fields 6 2 (x % 64) (omega arith))

lead_two : (x : ℕ) → x < 32 → bit_or 0xc0 (bit_and x 0x1f) ≡ 192 + x
lead_two x h = let e : x % 32 ≡ x = omega arith in rw (bit_and_low 5 x, e) (bit_or_fields 5 6 x h)

lead_three : (x : ℕ) → x < 16 → bit_or 0xe0 (bit_and x 0x0f) ≡ 224 + x
lead_three x h =
    let e : x % 16 ≡ x = omega arith in rw (bit_and_low 4 x, e) (bit_or_fields 4 14 x h)

lead_four : (x : ℕ) → x < 8 → bit_or 0xf0 (bit_and x 0x07) ≡ 240 + x
lead_four x h = let e : x % 8 ≡ x = omega arith in rw (bit_and_low 3 x, e) (bit_or_fields 3 30 x h)

pub bytes_one : (u : ℕ) → u < 0x80 → utf8_bytes u ≡ u ∷ []
unfolding utf8_bytes
bytes_one u h = let e : u % 128 ≡ u = omega arith in rw (bit_and_low 7 u, e) (ground arith)

pub bytes_two : (u : ℕ) → 0x80 ≤ u → u < 0x800 → utf8_bytes u ≡ (192 + u / 64) ∷ (128 + u % 64) ∷ []
unfolding utf8_bytes
bytes_two u h k = rw (tail_byte u, lead_two (u / 2 ^ 6) (omega arith)) (ground arith)

pub bytes_three :
    (u : ℕ)
    → 0x800 ≤ u
    → u < 0x10000
    → utf8_bytes u ≡ (224 + u / 4096) ∷ (128 + u / 64 % 64) ∷ (128 + u % 64) ∷ []
unfolding utf8_bytes
bytes_three u h k =
    rw (tail_byte u, tail_byte (u / 2 ^ 6), lead_three (u / 2 ^ 12) (omega arith)) (ground arith)

pub bytes_four :
    (u : ℕ)
    → 0x10000 ≤ u
    → u < 0x200000
    → utf8_bytes u
      ≡ (240 + u / 262144) ∷ (128 + u / 4096 % 64) ∷ (128 + u / 64 % 64) ∷ (128 + u % 64) ∷ []
unfolding utf8_bytes
bytes_four u h k =
    rw
      (
        tail_byte u,
        tail_byte (u / 2 ^ 6),
        tail_byte (u / 2 ^ 12),
        lead_four (u / 2 ^ 18) (omega arith),
      )
      (ground arith)

-- For a code point from 0x110000 on, unc0_utf8enc is still running after any number of calls.
pub utf8enc-diverges : (fuel u n : ℕ) → 0x110000 ≤ u → utf8enc fuel u n ≡ none
unfolding utf8enc
utf8enc-diverges zero u n h = refl
utf8enc-diverges (suc fuel) u n h = ground (arith, utf8enc-diverges fuel u 0xfffd)
