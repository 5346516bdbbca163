-- ===== src/Vlq/Constant.antt =====
-- The constant-length code of src/uvlq.c: up to four bytes it round trips, above it is undefined.
use uncil.Prelude.{
  ℕ, zero, suc, ◌+◌, ◌*◌, ◌/◌, ◌%◌, ◌^◌, ◌≤◌, ◌<◌, ◌≡◌, refl, ap, ◌∙◌, arith, List, [], ◌∷◌, ◌++◌,
  some, none, bit_or, leb, Bool-cases, Option-cases, inl, inr,
}
use native.Mathlib.Nat.{mul_comm, div-add-mod, mul-le-mul_right}
use uncil.Prelude.Bits.{two_pow_add, bit_or_above}
use uncil.Vlq.{clqencz, int_shift, clqdecz_loop, clqdecz}

eight_more : (s : ℕ) → 2 ^ (s + 8) ≡ 256 * 2 ^ s
eight_more s = two_pow_add s 8 ∙ mul_comm (2 ^ s) 256

int_shift_small : (b sh : ℕ) → sh < 32 → b * 2 ^ sh < 2 ^ 31 → int_shift b sh ≡ some (b * 2 ^ sh)
unfolding int_shift
int_shift_small b sh h k = ground arith

int_shift_wide : (b sh : ℕ) → 32 ≤ sh → int_shift b sh ≡ none
unfolding int_shift
int_shift_wide b sh h = ground arith

loop_step :
    (left v sh b w : ℕ) (p : List ℕ)
    → int_shift b (sh + 8) ≡ some w
    → clqdecz_loop (suc left) v sh (b ∷ p) ≡ clqdecz_loop left (bit_or v w) (sh + 8) p
unfolding clqdecz_loop
loop_step left v sh b w p e = rw (e, clqdecz_loop)

split_low : (u p : ℕ) → u * p ≡ u % 256 * p + u / 256 * (256 * p)
split_low u p = omega (arith, ap (λ (t : ℕ). t * p) (div-add-mod u 256))

add_digit : (v b p : ℕ) → v < p → b < 256 → v + b * p < 256 * p
add_digit v b p h k = let j : suc b ≤ 256 = k in omega (arith, mul-le-mul_right p j)

div_digit : (u l : ℕ) → u < 2 ^ (8 * suc l) → u / 256 < 2 ^ (8 * l)
div_digit u l h =
    let e : 8 * suc l ≡ 8 * l + 8 = omega arith in
    let f : 2 ^ (8 * suc l) ≡ 256 * 2 ^ (8 * l) = ap (λ (t : ℕ). 2 ^ t) e ∙ eight_more (8 * l) in
    omega arith

encode_step : (u w : ℕ) → clqencz u (suc w) ≡ u % 256 ∷ clqencz (u / 256) w
unfolding clqencz
encode_step u w = refl

-- The loop reads `u` above the `sh + 8` bits that it has.
loop_reads :
    (left v sh u : ℕ) (rest : List ℕ)
    → v < 2 ^ (sh + 8)
    → v + u * 2 ^ (sh + 8) < 2 ^ 31
    → u < 2 ^ (8 * left)
    → sh + 8 * left < 32
    → clqdecz_loop left v sh (clqencz u left ++ rest) ≡ some (v + u * 2 ^ (sh + 8), rest)
loop_reads zero v sh u rest hv fits hu hs =
    let z : u ≡ 0 = omega arith in rw z (unfold clqdecz_loop clqencz in (ground arith))
loop_reads (suc left) v sh u rest hv fits hu hs =
    let parts = split_low u (2 ^ (sh + 8)) in
    let next : 2 ^ (sh + 8 + 8) ≡ 256 * 2 ^ (sh + 8) = eight_more (sh + 8) in
    let up = ap (λ (t : ℕ). u / 256 * t) next in
    let value : v + u % 256 * 2 ^ (sh + 8) + u / 256 * 2 ^ (sh + 8 + 8) ≡ v + u * 2 ^ (sh + 8) =
      omega arith in
    let small : u % 256 * 2 ^ (sh + 8) < 2 ^ 31 = omega arith in
    let room : v + u % 256 * 2 ^ (sh + 8) < 2 ^ (sh + 8 + 8) =
      omega (arith, add_digit v (u % 256) (2 ^ (sh + 8)) hv (omega arith)) in
    rw encode_step (
      loop_step left v sh (u % 256) (u % 256 * 2 ^ (sh + 8)) _
        (int_shift_small (u % 256) (sh + 8) (omega arith) small)
      ∙ rw (bit_or_above (sh + 8) (u % 256) v hv) (
          loop_reads left (v + u % 256 * 2 ^ (sh + 8)) (sh + 8) (u / 256) rest room (omega arith)
            (div_digit u left hu) (omega arith)
          ∙ rw value))

-- A number below 2 ^ 31 that fits `width` bytes, for a width of at most 4, is read back by
-- unc0_clqdecz from what unc0_clqencz writes, and what follows is left.
pub clqdecz-clqencz :
    (v width : ℕ) (rest : List ℕ)
    → width ≤ 4
    → v < 2 ^ (8 * width)
    → v < 2 ^ 31
    → clqdecz width (clqencz v width ++ rest) ≡ some (v, rest)
clqdecz-clqencz v zero rest hw hv fits =
    let z : v ≡ 0 = omega arith in rw z (unfold clqdecz clqencz in refl)
clqdecz-clqencz v (suc width) rest hw hv fits =
    unfold clqdecz clqencz in
    (loop_reads width (v % 256) 0 (v / 256) rest (omega arith) (omega arith) (div_digit v width hv)
        (omega arith)
      ∙ (let e : v % 256 + v / 256 * 2 ^ 8 ≡ v = omega arith in rw e))

loop_undefined :
    (left v sh : ℕ) (p : List ℕ) → 0 < left → 32 ≤ sh + 8 * left → clqdecz_loop left v sh p ≡ none
unfolding clqdecz_loop
loop_undefined zero v sh p h k = absurd (omega arith)
loop_undefined (suc left) v sh [] h k = refl
loop_undefined (suc left) v sh (b ∷ p) h k = elim (Option-cases (int_shift b (sh + 8))) [
  | inl e ↦ rw (e, clqdecz_loop)
  | inr (w, e) ↦ elim (Bool-cases (leb 32 (sh + 8))) [
    | inl y ↦ cc (int_shift_wide b (sh + 8) (ground arith))
    | inr n ↦
        loop_step left v sh b w p e
        ∙ loop_undefined left (bit_or v w) (sh + 8) p (ground arith) (ground arith)
  ]
]

-- For a width of five bytes or more, unc0_clqdecz on any bytes either reads past their end or
-- shifts a 32-bit int by 32 or more, which is undefined.
clqdecz-undefined : (width : ℕ) (p : List ℕ) → 5 ≤ width → clqdecz width p ≡ none
clqdecz-undefined zero p h = absurd (omega arith)
clqdecz-undefined (suc width) [] h = unfold clqdecz in refl
clqdecz-undefined (suc width) (b ∷ p) h =
    unfold clqdecz in loop_undefined width b 0 p (omega arith) (omega arith)
