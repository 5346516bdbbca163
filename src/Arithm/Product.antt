-- ===== src/Arithm/Product.antt =====
-- What unc0_mulovf of src/uarithm.c detects: the partial products bound the full one.
use uncil.Prelude.{
  ℕ, ◌+◌, ◌-◌, ◌*◌, ◌/◌, ◌%◌, ◌^◌, ◌≤◌, ◌<◌, ◌≡◌, ◌≢◌, arith, Bool, true, false, not, ◌&&◌, ◌||◌,
  ltb, leb, ◌==◌, if◌then◌else◌, suc, Bool-cases, inl, inr, refl, ap, ◌∙◌,
}
use uncil.Prelude.Int.{ℤ, pos, negsuc, pos_part, eqb_ℤ, ◌*ℤ◌, IsInt, int_min, in_range, wrap}
use uncil.Arithm.{partial_products, magnitude, mulovf}
use native.Mathlib.Nat.{mul-le-mul}

partial-le : (h z x y : ℕ) → h * 2 ^ 32 ≤ x → z ≤ y → h * z * 2 ^ 32 ≤ x * y
partial-le h z x y p q = omega (arith, mul-le-mul p q)

hi_lo-le : (x y : ℕ) → (x / 2 ^ 32) * (y % 2 ^ 32) * 2 ^ 32 ≤ x * y
hi_lo-le x y = partial-le (x / 2 ^ 32) (y % 2 ^ 32) x y (omega arith) (omega arith)

hi_lo-lt : (x y : ℕ) → x < 2 ^ 64 → (x / 2 ^ 32) * (y % 2 ^ 32) < 2 ^ 64
hi_lo-lt x y h =
    let p : x / 2 ^ 32 ≤ 2 ^ 32 - 1 = omega arith in
    let q : y % 2 ^ 32 ≤ 2 ^ 32 - 1 = omega arith in omega (arith, mul-le-mul p q)

abbrev limit : Bool → ℕ
limit negative = if negative then 2 ^ 63 else 2 ^ 63 + 1

partial_products-limit :
    (s : Bool) (x y : ℕ) → x < 2 ^ 64 → y < 2 ^ 64 → partial_products s x y ≡ true → limit s < x * y
unfolding partial_products
partial_products-limit s x y hx hy h =
    ground (arith, hi_lo-le x y, hi_lo-le y x, hi_lo-lt x y, hi_lo-lt y x)

-- Whether a high half times a low half reaches 2 ^ 32, the test of unc0_mulovf on q and r
abbrev pub crossed : ℕ → ℕ → Bool
crossed x y =
    leb (2 ^ 32) ((x / 2 ^ 32) * (y % 2 ^ 32)) || leb (2 ^ 32) ((x % 2 ^ 32) * (y / 2 ^ 32))

-- Products that are at least 2 ^ 64, and small again modulo 2 ^ 64
abbrev pub wrapped : Bool → ℕ → ℕ → Bool
wrapped negative x y =
    leb (2 ^ 64) (x * y)
    && not (crossed x y)
    && leb (x * y % 2 ^ 64) (if negative then 2 ^ 63 else 2 ^ 63 + 1)

crossed-large : (x y : ℕ) → crossed x y ≡ true → 2 ^ 64 ≤ x * y
crossed-large x y h = ground (arith, hi_lo-le x y, hi_lo-le y x)

partial_products-crossed :
    (s : Bool) (x y : ℕ)
    → x < 2 ^ 64
    → y < 2 ^ 64
    → partial_products s x y ≡ crossed x y || ltb (limit s) (x * y % 2 ^ 64)
unfolding partial_products
partial_products-crossed s x y hx hy = ground (arith, hi_lo-lt x y, hi_lo-lt y x)

partial_products-exact :
    (s : Bool) (x y : ℕ)
    → x < 2 ^ 64
    → y < 2 ^ 64
    → partial_products s x y ≡ ltb (limit s) (x * y) && not (wrapped s x y)
partial_products-exact s x y hx hy = elim (Bool-cases (crossed x y)) [
  | inl c ↦
      let m = crossed-large x y c in
      let l : ltb (limit s) (x * y) ≡ true = ground (arith, m) in
      rw (partial_products-crossed s x y hx hy, c, l) (ground arith)
  | inr c ↦ rw (partial_products-crossed s x y hx hy, c) (ground arith)
]

in_range-mul_pos_pos : (a b : ℕ) → in_range (pos a *ℤ pos b) ≡ ltb (a * b) (2 ^ 63)
unfolding ◌*ℤ◌
in_range-mul_pos_pos a b = ground arith

in_range-mul_pos_negsuc : (a b : ℕ) → in_range (pos a *ℤ negsuc b) ≡ leb (a * suc b) (2 ^ 63)
unfolding ◌*ℤ◌
in_range-mul_pos_negsuc a b = ground arith

in_range-mul_negsuc_pos : (a b : ℕ) → in_range (negsuc a *ℤ pos b) ≡ leb (suc a * b) (2 ^ 63)
unfolding ◌*ℤ◌
in_range-mul_negsuc_pos a b = ground arith

in_range-mul_negsuc_negsuc :
    (a b : ℕ) → in_range (negsuc a *ℤ negsuc b) ≡ ltb (suc a * suc b) (2 ^ 63)
unfolding ◌*ℤ◌
in_range-mul_negsuc_negsuc a b = ground arith

mulovf_pos_pos :
    (a b : ℕ)
    → a < 2 ^ 63
    → b < 2 ^ 63
    → mulovf (pos a) (pos b) ≡ (
        if a == 0 || b == 0
        then false
        else if leb (2 ^ 32) a && leb (2 ^ 32) b
        then true
        else partial_products false a b)
unfolding mulovf
mulovf_pos_pos a b ha hb = ground arith

mulovf_pos_negsuc :
    (a b : ℕ)
    → a < 2 ^ 63
    → b < 2 ^ 63
    → mulovf (pos a) (negsuc b) ≡ (
        if a == 0
        then false
        else if b == 2 ^ 63 - 1
        then not (a == 1)
        else partial_products true a (suc b))
unfolding mulovf wrap magnitude
mulovf_pos_negsuc a b ha hb = ground arith

mulovf_negsuc_pos :
    (a b : ℕ)
    → a < 2 ^ 63
    → b < 2 ^ 63
    → mulovf (negsuc a) (pos b) ≡ (
        if b == 0
        then false
        else if a == 2 ^ 63 - 1
        then not (b == 1)
        else partial_products true (suc a) b)
unfolding mulovf wrap magnitude
mulovf_negsuc_pos a b ha hb = ground arith

mulovf_negsuc_negsuc :
    (a b : ℕ)
    → a < 2 ^ 63
    → b < 2 ^ 63
    → mulovf (negsuc a) (negsuc b) ≡ (
        if a == 2 ^ 63 - 1 || b == 2 ^ 63 - 1 then true else partial_products false (suc a) (suc b))
unfolding mulovf wrap magnitude
mulovf_negsuc_negsuc a b ha hb = ground arith

big_product : (a b : ℕ) → 2 ^ 32 ≤ a → 2 ^ 32 ≤ b → 2 ^ 64 ≤ a * b
big_product a b p q = omega (arith, mul-le-mul p q)

-- For all 64-bit integers a and b, where `mulovf` reports an overflow the exact product a * b
-- is outside the range of Unc_Int.
mulovf_sound : (a b : ℤ) → IsInt a → IsInt b → mulovf a b ≡ true → in_range (a *ℤ b) ≡ false
mulovf_sound (pos a) (pos b) ha hb h = ground (
  arith,
  mulovf_pos_pos a b,
  in_range-mul_pos_pos a b,
  big_product a b,
  partial_products-limit false a b,
)
mulovf_sound (pos a) (negsuc b) ha hb h = ground (
  arith,
  mulovf_pos_negsuc a b,
  in_range-mul_pos_negsuc a b,
  partial_products-limit true a (suc b),
)
mulovf_sound (negsuc a) (pos b) ha hb h = ground (
  arith,
  mulovf_negsuc_pos a b,
  in_range-mul_negsuc_pos a b,
  partial_products-limit true (suc a) b,
)
mulovf_sound (negsuc a) (negsuc b) ha hb h = ground (
  arith,
  mulovf_negsuc_negsuc a b,
  in_range-mul_negsuc_negsuc a b,
  partial_products-limit false (suc a) (suc b),
)

abbrev pub absolute : ℤ → ℕ
absolute (pos n) = n
absolute (negsuc n) = suc n

abbrev pub negative : ℤ → Bool
negative (pos n) = false
negative (negsuc n) = true

abbrev pub at_limit : ℤ → Bool
at_limit p = eqb_ℤ p (pos (2 ^ 63)) || eqb_ℤ p (pos (2 ^ 63 + 1))

-- The overflows that are not reported: two products at the limit, and those that are small again
-- modulo 2 ^ 64, unless both factors are positive and at least 2 ^ 32
abbrev pub missed : ℤ → ℤ → Bool
missed a b =
    at_limit (a *ℤ b)
    || (not (leb (2 ^ 32) (pos_part a) && leb (2 ^ 32) (pos_part b))
        && wrapped (if negative a then not (negative b) else negative b) (absolute a) (absolute b))

at_limit-mul_pos_pos :
    (a b : ℕ) → at_limit (pos a *ℤ pos b) ≡ (a * b == 2 ^ 63) || (a * b == 2 ^ 63 + 1)
unfolding ◌*ℤ◌
at_limit-mul_pos_pos a b = ground arith

at_limit-mul_pos_negsuc : (a b : ℕ) → at_limit (pos a *ℤ negsuc b) ≡ false
unfolding ◌*ℤ◌
at_limit-mul_pos_negsuc a b = ground arith

at_limit-mul_negsuc_pos : (a b : ℕ) → at_limit (negsuc a *ℤ pos b) ≡ false
unfolding ◌*ℤ◌
at_limit-mul_negsuc_pos a b = ground arith

at_limit-mul_negsuc_negsuc :
    (a b : ℕ)
    → at_limit (negsuc a *ℤ negsuc b) ≡ (suc a * suc b == 2 ^ 63) || (suc a * suc b == 2 ^ 63 + 1)
unfolding ◌*ℤ◌
at_limit-mul_negsuc_negsuc a b = ground arith

-- What is left of the four cases of signs: products of factors that are not zero
limit-same :
    (p : ℕ) (w : Bool)
    → ltb (2 ^ 63 + 1) p && not w
      ≡ not (ltb p (2 ^ 63)) && not ((p == 2 ^ 63) || (p == 2 ^ 63 + 1) || w)
limit-same p true = ground arith
limit-same p false = ground arith

limit-other : (p : ℕ) (w : Bool) → ltb (2 ^ 63) p && not w ≡ not (leb p (2 ^ 63)) && not w
limit-other p true = ground arith
limit-other p false = ground arith

same_signs :
    (x y : ℕ)
    → x < 2 ^ 64
    → y < 2 ^ 64
    → partial_products false x y
      ≡ not (ltb (x * y) (2 ^ 63))
        && not ((x * y == 2 ^ 63) || (x * y == 2 ^ 63 + 1) || wrapped false x y)
same_signs x y hx hy =
    partial_products-exact false x y hx hy ∙ limit-same (x * y) (wrapped false x y)

other_signs :
    (x y : ℕ)
    → x < 2 ^ 64
    → y < 2 ^ 64
    → partial_products true x y ≡ not (leb (x * y) (2 ^ 63)) && not (wrapped true x y)
other_signs x y hx hy =
    partial_products-exact true x y hx hy ∙ limit-other (x * y) (wrapped true x y)

-- A factor that is zero
zero_left : (x y : ℕ) → (x == 0) ≡ true → x * y ≡ 0
zero_left x y h = let e : x ≡ 0 = ground arith in rw e (omega arith)

zero_right : (x y : ℕ) → (y == 0) ≡ true → x * y ≡ 0
zero_right x y h = let e : y ≡ 0 = ground arith in rw e (omega arith)

zero_or : (x y : ℕ) → (x == 0) || (y == 0) ≡ true → x * y ≡ 0
zero_or x y h = elim (Bool-cases (x == 0)) [
  | inl e ↦ zero_left x y e
  | inr e ↦ zero_right x y (rw e at h)
]

not_least : (b : ℕ) → negsuc b ≢ int_min → (b == 2 ^ 63 - 1) ≡ false
not_least b n = elim (Bool-cases (b == 2 ^ 63 - 1)) [
  | inl e ↦ let f : b ≡ 2 ^ 63 - 1 = ground arith in absurd (n (ap negsuc f))
  | inr e ↦ e
]

and_false : (b : Bool) → b && false ≡ false
and_false true = refl
and_false false = refl

-- For 64-bit integers a and b other than the least one, `mulovf` is true exactly where the
-- product is outside the range of Unc_Int, but for the overflows of `missed`: a product of 2 ^
-- 63 or 2 ^ 63 + 1, and one of at least 2 ^ 64 in absolute value whose crossed partial
-- products are below 2 ^ 32 and which is at most the limit modulo 2 ^ 64, unless both factors
-- are at least 2 ^ 32.
pub mulovf-exact :
    (a b : ℤ)
    → IsInt a
    → IsInt b
    → a ≢ int_min
    → b ≢ int_min
    → mulovf a b ≡ not (in_range (a *ℤ b)) && not (missed a b)
mulovf-exact (pos a) (pos b) ha hb na nb =
    rw (mulovf_pos_pos a b ha.0 hb.0, in_range-mul_pos_pos a b, at_limit-mul_pos_pos a b)
      (elim (Bool-cases ((a == 0) || (b == 0))) [
        | inl z ↦
            let l : ltb (a * b) (2 ^ 63) ≡ true = ground (arith, zero_or a b z) in rw (z, l) refl
        | inr z ↦ elim (Bool-cases (leb (2 ^ 32) a && leb (2 ^ 32) b)) [
          | inl g ↦
              let m = big_product a b (ground (arith, g)) (ground (arith, g)) in
              let l : ltb (a * b) (2 ^ 63) ≡ false = ground (arith, m) in
              let t : (a * b == 2 ^ 63) || (a * b == 2 ^ 63 + 1) ≡ false = ground (arith, m) in
              rw (z, g, l, t) refl
          | inr g ↦ rw (z, g) (same_signs a b (omega (arith, ha.0)) (omega (arith, hb.0)))
        ]
      ])
mulovf-exact (pos a) (negsuc b) ha hb na nb =
    rw
      (
        mulovf_pos_negsuc a b ha.0 (omega (arith, hb.1)),
        in_range-mul_pos_negsuc a b,
        at_limit-mul_pos_negsuc a b,
        not_least b nb,
        and_false (leb (2 ^ 32) a),
      )
      (elim (Bool-cases (a == 0)) [
        | inl z ↦
            let l : leb (a * suc b) (2 ^ 63) ≡ true = ground (arith, zero_left a (suc b) z) in
            rw (z, l) refl
        | inr z ↦ rw z (other_signs a (suc b) (omega (arith, ha.0)) (omega (arith, hb.1)))
      ])
mulovf-exact (negsuc a) (pos b) ha hb na nb =
    rw
      (
        mulovf_negsuc_pos a b (omega (arith, ha.1)) hb.0,
        in_range-mul_negsuc_pos a b,
        at_limit-mul_negsuc_pos a b,
        not_least a na,
      )
      (elim (Bool-cases (b == 0)) [
        | inl z ↦
            let l : leb (suc a * b) (2 ^ 63) ≡ true = ground (arith, zero_right (suc a) b z) in
            rw (z, l) refl
        | inr z ↦ rw z (other_signs (suc a) b (omega (arith, ha.1)) (omega (arith, hb.0)))
      ])
mulovf-exact (negsuc a) (negsuc b) ha hb na nb =
    rw
      (
        mulovf_negsuc_negsuc a b (omega (arith, ha.1)) (omega (arith, hb.1)),
        in_range-mul_negsuc_negsuc a b,
        at_limit-mul_negsuc_negsuc a b,
        not_least a na,
        not_least b nb,
      )
      (same_signs (suc a) (suc b) (omega (arith, ha.1)) (omega (arith, hb.1)))
