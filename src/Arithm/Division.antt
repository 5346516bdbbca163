-- ===== src/Arithm/Division.antt =====
-- Division and remainder of src/uarithm.c against rounding down.
use uncil.Prelude.{
  Bool-cases, inl, inr, ap, ℕ, zero, suc, ◌∙◌, ◌+◌, ◌*◌, ◌/◌, ◌%◌, ◌^◌, ◌≤◌, ◌<◌, ◌≡◌, ◌≢◌, arith,
  not, ◌&&◌, ◌==◌, if◌then◌else◌,
}
use uncil.Prelude.Int.{
  ℤ, pos, negsuc, pos_part, neg_part, eqb_ℤ, ltb_ℤ, ◌+ℤ◌, ◌-ℤ◌, ◌*ℤ◌, ◌≤ℤ◌, ◌<ℤ◌, neg, sub_ℕ, IsInt,
  wrap, wrap_id,
}
use native.Mathlib.Nat.{
  div-eq_of_lt-le, div-add-mod, mod-lt, div-mul-le_self, div-le_self, lt-div-mul-add, add-zero,
  zero-add,
}
use uncil.Arithm.{iidiv, tdiv}

div_unique : (x b q r : ℕ) → x ≡ q * b + r → r < b → x / b ≡ q
div_unique x b q r e h = div-eq_of_lt-le b (omega arith) (omega arith)

suc-div : (a b : ℕ) → 0 < b → suc a / b ≡ (if a % b + 1 == b then a / b + 1 else a / b)
suc-div a b h = ground (
  arith,
  div-add-mod a b,
  mod-lt a h,
  div_unique (suc a) b (a / b + 1) 0,
  div_unique (suc a) b (a / b) (a % b + 1),
)

neg_pos-mul_pos : (k b : ℕ) → neg (pos k) *ℤ pos b ≡ neg (pos (k * b))
unfolding neg ◌*ℤ◌
neg_pos-mul_pos k b = ground arith

neg_pos-mul_negsuc : (k b : ℕ) → neg (pos k) *ℤ negsuc b ≡ pos (k * suc b)
unfolding neg ◌*ℤ◌
neg_pos-mul_negsuc k b = ground arith

wrap-neg_pos : (k : ℕ) → k ≤ 2 ^ 63 → wrap (neg (pos k)) ≡ neg (pos k)
unfolding neg wrap
wrap-neg_pos k h = ground arith

iidiv_value :
    (a b q p : ℤ)
    → wrap (tdiv a b) ≡ q
    → wrap (q *ℤ b) ≡ p
    → iidiv a b ≡ wrap (q -ℤ (if not (eqb_ℤ p a) && ltb_ℤ a (pos 0) then pos 1 else pos 0))
unfolding iidiv
iidiv_value a b q p e f = rw (e, f)

div-mul-le : (x b : ℕ) → x / b * b ≤ x
div-mul-le x b = div-mul-le_self x b

wrap_mul_pos_pos : (k b : ℕ) → k * b < 2 ^ 63 → wrap (pos k *ℤ pos b) ≡ pos (k * b)
unfolding wrap ◌*ℤ◌
wrap_mul_pos_pos k b h = ground arith

wrap_mul_neg_pos : (k b : ℕ) → k * b ≤ 2 ^ 63 → wrap (neg (pos k) *ℤ pos b) ≡ neg (pos (k * b))
wrap_mul_neg_pos k b h = rw neg_pos-mul_pos (wrap-neg_pos (k * b) h)

iidiv_pos_pos : (a b : ℕ) → a < 2 ^ 63 → 0 < b → iidiv (pos a) (pos b) ≡ pos (a / b)
iidiv_pos_pos a b ha h0 =
    iidiv_value (pos a) (pos b) (pos (a / b)) (pos (a / b * b))
      (unfold tdiv in wrap_id (pos (a / b)) (omega (arith, div-le_self a b), omega arith))
      (wrap_mul_pos_pos (a / b) b (omega (arith, div-mul-le a b)))
    ∙ unfold wrap ◌-ℤ◌ in ground (arith, div-le_self a b)

-- The correction of a negative dividend `-(a + 1)` whose quotient is `-q`, with product `-p`.
correct :
    (a q p d : ℕ)
    → a < 2 ^ 63
    → q ≤ 2 ^ 63
    → p ≤ 2 ^ 63
    → d < 2 ^ 63
    → q ≡ (if suc a == p then d + 1 else d)
    → wrap (
        neg (pos q)
        -ℤ (if not (eqb_ℤ (neg (pos p)) (negsuc a)) && ltb_ℤ (negsuc a) (pos 0)
            then pos 1
            else pos 0))
      ≡ negsuc d
unfolding wrap neg ◌-ℤ◌
correct a zero zero d ha hq hp hd e = ground arith
correct a zero (suc p) d ha hq hp hd e = ground arith
correct a (suc q) zero d ha hq hp hd e = ground arith
correct a (suc q) (suc p) d ha hq hp hd e = ground arith

product_step :
    (a b j r q : ℕ)
    → b * j + r ≡ a
    → r < b
    → q ≡ (if r + 1 == b then j + 1 else j)
    → q ≡ (if suc a == q * b then j + 1 else j)
product_step a b j r q e h f = elim (Bool-cases (r + 1 == b)) [
  | inl y ↦ let g : q ≡ j + 1 = rw y at f in ground (arith, ap (λ (t : ℕ). t * b) g)
  | inr n ↦ let g : q ≡ j = rw n at f in ground (arith, ap (λ (t : ℕ). t * b) g)
]

quotient_step :
    (a b : ℕ) → 0 < b → suc a / b ≡ (if suc a == suc a / b * b then a / b + 1 else a / b)
quotient_step a b h0 =
    product_step a b (a / b) (a % b) (suc a / b) (div-add-mod a b) (mod-lt a h0) (suc-div a b h0)

iidiv_negsuc_pos : (a b : ℕ) → a < 2 ^ 63 → 0 < b → iidiv (negsuc a) (pos b) ≡ negsuc (a / b)
iidiv_negsuc_pos a b ha h0 =
    let q : suc a / b ≤ 2 ^ 63 = omega (arith, div-le_self (suc a) b) in
    let p : suc a / b * b ≤ 2 ^ 63 = omega (arith, div-mul-le (suc a) b) in
    iidiv_value (negsuc a) (pos b) (neg (pos (suc a / b))) (neg (pos (suc a / b * b)))
      (unfold tdiv in wrap-neg_pos (suc a / b) q) (wrap_mul_neg_pos (suc a / b) b p)
    ∙ correct a (suc a / b) (suc a / b * b) (a / b) ha q p (omega (arith, div-le_self a b))
        (quotient_step a b h0)

-- `q` is `a / b` rounded down: `q * b` is the multiple of `b` that `a` lies at or beyond, on the
-- side of `b`'s sign, by less than `b`.
abbrev pub IsFloor : ℤ → ℤ → ℤ → Type 0
IsFloor a (pos b) q = (q *ℤ pos b ≤ℤ a) × (a <ℤ q *ℤ pos b +ℤ pos b)
IsFloor a (negsuc b) q = (a ≤ℤ q *ℤ negsuc b) × (q *ℤ negsuc b +ℤ negsuc b <ℤ a)

IsFloor-pos_pos : (a b q : ℕ) → q * b ≤ a → a < q * b + b → IsFloor (pos a) (pos b) (pos q)
unfolding ◌*ℤ◌ ◌+ℤ◌
IsFloor-pos_pos a b q h k = ground arith

IsFloor-negsuc_pos : (a b q : ℕ) → q * b ≤ a → a < q * b + b → IsFloor (negsuc a) (pos b) (negsuc q)
unfolding ◌*ℤ◌ ◌+ℤ◌
IsFloor-negsuc_pos a b q h k = ground arith

-- For a 64-bit dividend and a positive divisor, `iidiv` is the quotient rounded down.
pub iidiv-IsFloor : (a : ℤ) (b : ℕ) → IsInt a → 0 < b → IsFloor a (pos b) (iidiv a (pos b))
iidiv-IsFloor (pos a) b ha hb =
    rw (iidiv_pos_pos a b (omega arith) hb)
      (IsFloor-pos_pos a b (a / b) (div-mul-le a b) (lt-div-mul-add hb))
iidiv-IsFloor (negsuc a) b ha hb =
    rw (iidiv_negsuc_pos a b (omega arith) hb)
      (IsFloor-negsuc_pos a b (a / b) (div-mul-le a b) (lt-div-mul-add hb))

-- negative divisors
wrap_mul_neg_negsuc :
    (k b : ℕ) → k * suc b < 2 ^ 63 → wrap (neg (pos k) *ℤ negsuc b) ≡ pos (k * suc b)
wrap_mul_neg_negsuc k b h = rw neg_pos-mul_negsuc (wrap_id (pos (k * suc b)) (h, omega arith))

wrap_mul_pos_negsuc :
    (k b : ℕ) → k * suc b ≤ 2 ^ 63 → wrap (pos k *ℤ negsuc b) ≡ neg (pos (k * suc b))
unfolding wrap ◌*ℤ◌ neg
wrap_mul_pos_negsuc k b h = ground arith

uncorrected :
    (a q p : ℕ)
    → q ≤ 2 ^ 63
    → wrap (
        neg (pos q)
        -ℤ (if not (eqb_ℤ (pos p) (pos a)) && ltb_ℤ (pos a) (pos 0) then pos 1 else pos 0))
      ≡ neg (pos q)
unfolding wrap neg ◌-ℤ◌
uncorrected a zero p h = ground arith
uncorrected a (suc q) p h = ground arith

iidiv_pos_negsuc : (a b : ℕ) → a < 2 ^ 63 → iidiv (pos a) (negsuc b) ≡ neg (pos (a / suc b))
iidiv_pos_negsuc a b ha =
    let q : a / suc b ≤ 2 ^ 63 = omega (arith, div-le_self a (suc b)) in
    iidiv_value (pos a) (negsuc b) (neg (pos (a / suc b))) (pos (a / suc b * suc b))
      (unfold tdiv in wrap-neg_pos (a / suc b) q)
      (wrap_mul_neg_negsuc (a / suc b) b (omega (arith, div-mul-le a (suc b))))
    ∙ uncorrected a (a / suc b) (a / suc b * suc b) q

corrected :
    (a q p : ℕ)
    → a < 2 ^ 63
    → q < 2 ^ 63
    → p ≢ suc a
    → wrap (
        pos q
        -ℤ (if not (eqb_ℤ (neg (pos p)) (negsuc a)) && ltb_ℤ (negsuc a) (pos 0)
            then pos 1
            else pos 0))
      ≡ sub_ℕ q 1
unfolding wrap neg ◌-ℤ◌
corrected a zero zero ha hq e = ground arith
corrected a zero (suc p) ha hq e = ground arith
corrected a (suc q) zero ha hq e = ground arith
corrected a (suc q) (suc p) ha hq e = ground arith

quotient_small : (q b r x : ℕ) → suc b * q + r ≡ x → r ≢ 0 → x ≤ 2 ^ 63 → q < 2 ^ 63
quotient_small q b r x e h f = grind arith

-- The quotient of two negative numbers that do not divide evenly is one too small.
iidiv_negsuc_negsuc :
    (a b : ℕ)
    → a < 2 ^ 63
    → suc a % suc b ≢ 0
    → iidiv (negsuc a) (negsuc b) ≡ sub_ℕ (suc a / suc b) 1
iidiv_negsuc_negsuc a b ha uneven =
    let whole : suc b * (suc a / suc b) + suc a % suc b ≡ suc a = div-add-mod (suc a) (suc b) in
    let ne : suc a / suc b * suc b ≢ suc a = omega arith in
    let q : suc a / suc b < 2 ^ 63 =
      quotient_small (suc a / suc b) b (suc a % suc b) (suc a) whole uneven ha in
    iidiv_value (negsuc a) (negsuc b) (pos (suc a / suc b)) (neg (pos (suc a / suc b * suc b)))
      (unfold tdiv in wrap_id (pos (suc a / suc b)) (q, omega arith))
      (wrap_mul_pos_negsuc (suc a / suc b) b (omega (arith, div-mul-le (suc a) (suc b))))
    ∙ corrected a (suc a / suc b) (suc a / suc b * suc b) ha q ne

not-IsFloor_pos :
    (a b k r : ℕ) → suc b * k + r ≡ a → r ≢ 0 → ¬ IsFloor (pos a) (negsuc b) (neg (pos k))
not-IsFloor_pos a b k r e h f =
    let g : pos a ≤ℤ pos (k * suc b) = rw neg_pos-mul_negsuc at f.0 in omega arith

not-IsFloor_negsuc :
    (a b k r : ℕ) → suc b * k + r ≡ suc a → r ≢ 0 → ¬ IsFloor (negsuc a) (negsuc b) (sub_ℕ k 1)
unfolding ◌*ℤ◌ ◌+ℤ◌
not-IsFloor_negsuc a b zero r e h f = ground arith
not-IsFloor_negsuc a b (suc k) r e h f = ground arith

-- For a 64-bit dividend and a negative divisor that does not divide it, `iidiv` is not the
-- quotient rounded down.
iidiv-not-IsFloor :
    (a : ℤ) (b : ℕ)
    → IsInt a
    → (pos_part a + neg_part a) % suc b ≢ 0
    → ¬ IsFloor a (negsuc b) (iidiv a (negsuc b))
iidiv-not-IsFloor (pos a) b ha uneven =
    rw (iidiv_pos_negsuc a b (omega arith))
      (not-IsFloor_pos a b (a / suc b) (a % suc b) (div-add-mod a (suc b)) (rw add-zero at uneven))
iidiv-not-IsFloor (negsuc a) b ha uneven =
    rw (iidiv_negsuc_negsuc a b (omega arith) (rw zero-add at uneven)) (
      not-IsFloor_negsuc a b (suc a / suc b) (suc a % suc b) (div-add-mod (suc a) (suc b))
        (rw zero-add at uneven))
