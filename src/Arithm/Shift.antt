-- ===== src/Arithm/Shift.antt =====
-- The shifts of src/uarithm.c against multiplication and division by a power of two.
use uncil.Prelude.{
  ap, sym, ℕ, zero, suc, ◌+◌, ◌-◌, ◌*◌, ◌%◌, ◌^◌, ◌≤◌, ◌<◌, ◌≡◌, refl, arith, ◌∙◌, ltb,
  if◌then◌else◌,
}
use uncil.Prelude.Int.{ℤ, pos, negsuc, pos_part, neg_part, ◌*ℤ◌, neg, IsInt, wrap, bits, signed}
use native.Mathlib.Nat.{pow-le-pow_right, one-le-pow, div-eq_of_lt, mod-eq_of_lt}
use uncil.Prelude.Bits.{two_pow_add}
use uncil.Arithm.{shiftl, shiftr, shiftl2, shiftr2, asr}

big_power : (b : ℕ) → 64 ≤ b → 2 ^ 64 ≤ 2 ^ b
big_power b h = pow-le-pow_right (omega arith) h

asr_small :
    (a : ℤ) (b : ℕ)
    → IsInt a
    → 64 ≤ b
    → asr a b ≡ (if ltb (pos_part a) (neg_part a) then negsuc 0 else pos 0)
unfolding asr
asr_small (pos n) b h k =
    rw (div-eq_of_lt {n = n} {m = 2 ^ b} (omega (arith, big_power b k))) (ground arith)
asr_small (negsuc n) b h k =
    rw (div-eq_of_lt {n = n} {m = 2 ^ b} (omega (arith, big_power b k))) (ground arith)

shiftr2-asr : (a : ℤ) (b : ℕ) → IsInt a → shiftr2 a b ≡ asr a b
unfolding shiftr2
shiftr2-asr a b h = ground (arith, asr_small a b h)

-- A right shift of a 64-bit integer by any count from 0 to 2 ^ 63 - 1 is the division by that
-- power of two, rounded down: counts of 64 and more included.
shiftr-asr : (a : ℤ) (b : ℕ) → IsInt a → b < 2 ^ 63 → shiftr a (pos b) ≡ asr a b
unfolding shiftr bits
shiftr-asr a b h k = ground (arith, shiftr2-asr a b h)

complement_mul :
    (a p : ℕ)
    → a < 2 ^ 63
    → 0 < p
    → (2 ^ 64 - 1 - a) * p % 2 ^ 64 ≡ 2 ^ 64 - 1 - (suc a * p - 1) % 2 ^ 64
complement_mul a p h k =
    let e : 2 ^ 64 - 1 - a + suc a ≡ 2 ^ 64 = omega arith in
    let f : 0 < suc a * p = grind arith in omega (arith, ap (λ (t : ℕ). t * p) e)

mul_negsuc_pos : (a p : ℕ) → 0 < p → negsuc a *ℤ pos p ≡ negsuc (suc a * p - 1)
unfolding ◌*ℤ◌
mul_negsuc_pos a p h = let f : 0 < suc a * p = grind arith in ground arith

mul_pos_pos : (a p : ℕ) → pos a *ℤ pos p ≡ pos (a * p)
unfolding ◌*ℤ◌
mul_pos_pos a p = ground arith

signed_mul : (a : ℤ) (p : ℕ) → IsInt a → 0 < p → signed (bits a * p % 2 ^ 64) ≡ wrap (a *ℤ pos p)
signed_mul (pos a) p h k =
    rw mul_pos_pos (unfold bits wrap in rw (mod-eq_of_lt {n = a} {m = 2 ^ 64} (omega arith)))
signed_mul (negsuc a) p h k = rw (mul_negsuc_pos a p k) (
    unfold bits wrap in
    rw (mod-eq_of_lt {n = a} {m = 2 ^ 64} (omega arith), complement_mul a p (omega arith) k))

-- From 64 on the power of two is a multiple of 2 ^ 64.
signed_high : (a : ℤ) (b : ℕ) → 64 ≤ b → signed (bits a * 2 ^ b % 2 ^ 64) ≡ pos 0
signed_high a b k =
    let e : 2 ^ b ≡ 2 ^ 64 * 2 ^ (b - 64) =
      let f : b ≡ 64 + (b - 64) = omega arith in
      ap (λ (t : ℕ). 2 ^ t) f ∙ two_pow_add 64 (b - 64) in
    let z : bits a * 2 ^ b % 2 ^ 64 ≡ 0 = omega (arith, ap (λ (t : ℕ). bits a * t) e) in
    rw z (unfold signed in refl)

shiftl2-wrap : (a : ℤ) (b : ℕ) → IsInt a → shiftl2 a b ≡ wrap (a *ℤ pos (2 ^ b))
unfolding shiftl2
shiftl2-wrap a b h =
    ground (arith, signed_mul a (2 ^ b) h (one-le-pow b 2 (omega arith)), signed_high a b)

-- A left shift of a 64-bit integer by any count from 0 to 2 ^ 63 - 1 is the product with that
-- power of two, wrapped to 64 bits: counts of 64 and more included.
shiftl-wrap : (a : ℤ) (b : ℕ) → IsInt a → b < 2 ^ 63 → shiftl a (pos b) ≡ wrap (a *ℤ pos (2 ^ b))
unfolding shiftl bits
shiftl-wrap a b h k = ground (arith, shiftl2-wrap a b h)

-- A shift by zero, on both sides.
shift_zero : (a : ℤ) → IsInt a → wrap (a *ℤ pos (2 ^ 0)) ≡ asr a 0
unfolding wrap ◌*ℤ◌ asr
shift_zero (pos n) h = ground arith
shift_zero (negsuc n) h = ground arith

neg_pos_suc : (b : ℕ) → neg (pos (suc b)) ≡ negsuc b
unfolding neg
neg_pos_suc b = ground arith

neg_negsuc : (b : ℕ) → neg (negsuc b) ≡ pos (suc b)
unfolding neg
neg_negsuc b = ground arith

shiftr_negsuc : (a : ℤ) (b : ℕ) → shiftr a (negsuc b) ≡ shiftl2 a (bits (pos (suc b)))
unfolding shiftr
shiftr_negsuc a b = rw neg_negsuc (ground arith)

shiftl_negsuc : (a : ℤ) (b : ℕ) → shiftl a (negsuc b) ≡ shiftr2 a (bits (pos (suc b)))
unfolding shiftl
shiftl_negsuc a b = rw neg_negsuc (ground arith)

shiftr_pos : (a : ℤ) (b : ℕ) → shiftr a (pos b) ≡ shiftr2 a (bits (pos b))
unfolding shiftr
shiftr_pos a b = ground arith

shiftl_pos : (a : ℤ) (b : ℕ) → shiftl a (pos b) ≡ shiftl2 a (bits (pos b))
unfolding shiftl
shiftl_pos a b = ground arith

neg_zero : neg (pos 0) ≡ pos 0
unfolding neg
neg_zero = refl

-- For a 64-bit integer a and any count b, positive or negative, a left shift by -b is a right
-- shift by b.
shift_neg : (a b : ℤ) → IsInt a → shiftl a (neg b) ≡ shiftr a b
shift_neg a (pos zero) ha =
    rw neg_zero
      (shiftl-wrap a 0 ha (omega arith) ∙ shift_zero a ha ∙ sym (shiftr-asr a 0 ha (omega arith)))
shift_neg a (pos (suc b)) ha = rw neg_pos_suc (shiftl_negsuc a b ∙ sym (shiftr_pos a (suc b)))
shift_neg a (negsuc b) ha = rw neg_negsuc (shiftl_pos a (suc b) ∙ sym (shiftr_negsuc a b))
