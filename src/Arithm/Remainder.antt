-- ===== src/Arithm/Remainder.antt =====
-- The remainder of src/uarithm.c, whose sign is that of the divisor.
use uncil.Prelude.{
  ℕ, zero, suc, ◌+◌, ◌-◌, ◌*◌, ◌/◌, ◌%◌, ◌^◌, ◌≤◌, ◌<◌, ◌≡◌, ◌≢◌, refl, arith, ◌∙◌, Bool-cases, inl,
  inr, true, ◌==◌, if◌then◌else◌,
}
use uncil.Prelude.Int.{ℤ, pos, negsuc, pos_part, ◌+ℤ◌, ◌*ℤ◌, ◌≤ℤ◌, ◌<ℤ◌, neg, IsInt, wrap}
use native.Mathlib.Nat.{
  mod-lt, mod-eq_of_lt, add-mod_right, mod-mod, mod_self, suc-mod, mod-le, sub-zero, div-add-mod,
}
use uncil.Arithm.{imod, tmod}

imod_value : (a b r t : ℤ) → tmod a b ≡ r → wrap (r +ℤ b) ≡ t → imod a b ≡ tmod t b
unfolding imod
imod_value a b r t e f = rw (e, f)

wrap_sum : (r b : ℕ) → r + b < 2 ^ 63 → wrap (pos r +ℤ pos b) ≡ pos (r + b)
unfolding wrap ◌+ℤ◌
wrap_sum r b h = ground arith

wrap-neg_sum : (r b : ℕ) → r < b → b < 2 ^ 63 → wrap (neg (pos r) +ℤ pos b) ≡ pos (b - r)
unfolding wrap ◌+ℤ◌ neg
wrap-neg_sum zero b h k = ground arith
wrap-neg_sum (suc r) b h k = ground arith

mod_add_self : (a b : ℕ) → (a % b + b) % b ≡ a % b
mod_add_self a b = add-mod_right (a % b) b ∙ mod-mod a b

imod_pos_pos : (a b : ℕ) → 0 < b → a % b + b < 2 ^ 63 → imod (pos a) (pos b) ≡ pos (a % b)
imod_pos_pos a b hb h =
    imod_value (pos a) (pos b) (pos (a % b)) (pos (a % b + b)) (unfold tmod in refl)
      (wrap_sum (a % b) b h)
    ∙ unfold tmod in rw mod_add_self

next_mod : (x b t : ℕ) → x % b ≡ t → t < b → suc x % b ≡ (if suc t == b then 0 else suc t)
next_mod x b t e h = elim (Bool-cases (suc t == b)) [
  | inl y ↦ let g : b ≡ suc t = ground arith in rw (y, suc-mod, e, g) (mod_self (suc t))
  | inr n ↦ rw (n, suc-mod, e) (mod-eq_of_lt (ground arith))
]

next_eq : (b t : ℕ) → (suc t == b) ≡ true → suc t ≡ b
next_eq b t h = ground arith

floor_rest : (x b : ℕ) → 0 < b → (b - suc x % b) % b ≡ b - 1 - x % b
floor_rest x b hb = elim (Bool-cases (suc (x % b) == b)) [
  | inl y ↦
      let g : suc x % b ≡ 0 = rw y at (next_mod x b (x % b) refl (mod-lt x hb)) in
      rw (g, sub-zero) (mod_self b ∙ (omega (arith, next_eq b (x % b) y)))
  | inr n ↦
      let g : suc x % b ≡ suc (x % b) = rw n at (next_mod x b (x % b) refl (mod-lt x hb)) in
      rw g (mod-eq_of_lt {m = b} (omega arith) ∙ omega arith)
]

imod_negsuc_pos : (a b : ℕ) → 0 < b → b < 2 ^ 63 → imod (negsuc a) (pos b) ≡ pos (b - 1 - a % b)
imod_negsuc_pos a b hb h =
    imod_value (negsuc a) (pos b) (neg (pos (suc a % b))) (pos (b - suc a % b))
      (unfold tmod in refl) (wrap-neg_sum (suc a % b) b (mod-lt (suc a) hb) h)
    ∙ unfold tmod in rw (floor_rest a b hb)

-- `r` is the remainder of rounding down: the dividend is a multiple of `b` plus `r`, and
-- `0 <= r < b`.
abbrev pub IsRemainder : ℤ → ℕ → ℤ → Type 0
IsRemainder a b r = (q : ℤ) × (a ≡ q *ℤ pos b +ℤ r) × (pos 0 ≤ℤ r) × (r <ℤ pos b)

decompose_pos : (a b k r : ℕ) → b * k + r ≡ a → pos a ≡ pos k *ℤ pos b +ℤ pos r
unfolding ◌*ℤ◌ ◌+ℤ◌
decompose_pos a b k r e = ground arith

decompose_negsuc :
    (a b k r : ℕ) → b * k + r ≡ a → r < b → negsuc a ≡ negsuc k *ℤ pos b +ℤ pos (b - 1 - r)
unfolding ◌*ℤ◌ ◌+ℤ◌
decompose_negsuc a b k r e h = ground arith

-- For a 64-bit dividend a and a positive divisor b below 2 ^ 63, where the first remainder and
-- b add up to less than 2 ^ 63 (for a negative a, b alone does), `imod` is the remainder of
-- rounding down: at least 0, below b, and a less a multiple of b.
pub imod-IsRemainder :
    (a : ℤ) (b : ℕ)
    → IsInt a
    → 0 < b
    → b < 2 ^ 63
    → pos_part a % b + b < 2 ^ 63
    → IsRemainder a b (imod a (pos b))
imod-IsRemainder (pos a) b ha h0 hb fits = rw (imod_pos_pos a b h0 fits) (
  pos (a / b),
  decompose_pos a b (a / b) (a % b) (div-add-mod a b),
  omega arith,
  omega (arith, mod-lt a h0),
)
imod-IsRemainder (negsuc a) b ha h0 hb fits = rw (imod_negsuc_pos a b h0 hb) (
  negsuc (a / b),
  decompose_negsuc a b (a / b) (a % b) (div-add-mod a b) (mod-lt a h0),
  omega arith,
  omega arith,
)

tmod_negsuc-nonpos : (n b : ℕ) → tmod (negsuc n) (pos b) ≤ℤ pos 0
unfolding tmod neg
tmod_negsuc-nonpos n b = ground arith

wrap_sum_over :
    (r b : ℕ)
    → 2 ^ 63 ≤ r + b
    → r + b < 2 ^ 64
    → wrap (pos r +ℤ pos b) ≡ negsuc (2 ^ 64 - 1 - (r + b))
unfolding wrap ◌+ℤ◌
wrap_sum_over r b h k = ground arith

-- For a nonnegative a and a divisor b below 2 ^ 63, where a % b is positive and a % b + b
-- reaches 2 ^ 63, `imod` is zero or negative, and so is not the remainder.
imod-overflow :
    (a b : ℕ)
    → a < 2 ^ 63
    → b < 2 ^ 63
    → 0 < a % b
    → 2 ^ 63 ≤ a % b + b
    → (imod (pos a) (pos b) ≤ℤ pos 0) × (imod (pos a) (pos b) ≢ pos (a % b))
imod-overflow a b ha hb h0 over =
    let e : imod (pos a) (pos b) ≡ tmod (negsuc (2 ^ 64 - 1 - (a % b + b))) (pos b) =
      imod_value (pos a) (pos b) (pos (a % b)) (negsuc (2 ^ 64 - 1 - (a % b + b)))
        (unfold tmod in refl) (wrap_sum_over (a % b) b over (omega (arith, mod-le a b))) in
    let s : imod (pos a) (pos b) ≤ℤ pos 0 =
      rw e (tmod_negsuc-nonpos (2 ^ 64 - 1 - (a % b + b)) b) in
    (s, λ f. let z : pos (a % b) ≤ℤ pos 0 = rw f at s in omega arith)
