-- ===== src/Vlq/Signed/Positive.antt =====
-- Reading back a nonnegative number: after `i` groups the low `7 * i` bits are in `s`.
use uncil.Prelude.{
  ℕ, zero, suc, ◌+◌, ◌*◌, ◌/◌, ◌%◌, ◌^◌, ◌≤◌, ◌<◌, ◌≡◌, ap, ◌∙◌, arith, List, ◌∷◌, ◌++◌, some, ltb,
  Bool-cases, inl, inr,
}
use uncil.Prelude.Int.{pos, signed}
use uncil.Prelude.Bits.{two_pow_add, two_pow_pos}
use uncil.Vlq.{vlqencip, vlqdeci_loop}
use uncil.Vlq.Signed.Steps.{
  encode_more, encode_last, encode_sign, push_group, decode_more, decode_positive,
}
use native.Mathlib.Nat.{mul_comm, div-add-mod, mul-le-mul_right, mul-le-mul_left}

pub seven_more : (j : ℕ) → 2 ^ (j + 7) ≡ 128 * 2 ^ j
seven_more j = two_pow_add j 7 ∙ mul_comm (2 ^ j) 128

pub split_group : (n p : ℕ) → n * p ≡ n % 128 * p + n / 128 * (128 * p)
split_group n p = omega (arith, ap (λ (t : ℕ). t * p) (div-add-mod n 128))

pub add_group : (s g p : ℕ) → s < p → g < 128 → s + g * p < 128 * p
add_group s g p h k = let e : suc g ≤ 128 = k in omega (arith, mul-le-mul_right p e)

-- A further group cannot start past bit 56.
pub index_below : (i j n : ℕ) → j ≡ 7 * i → i ≤ 8 → 128 ≤ n → n * 2 ^ j < 2 ^ 63 → i < 8
index_below i j n e h k fits = elim (Bool-cases (ltb i 8)) [
  | inl y ↦ ground arith
  | inr y ↦
      let f : j ≡ 56 = ground arith in
      let p : 2 ^ j ≡ 2 ^ 56 = ap (λ (t : ℕ). 2 ^ t) f in
      absurd (omega (arith, mul-le-mul_right (2 ^ j) k))
]

pub small_factor : (s n j : ℕ) → s + n * 2 ^ j < 2 ^ 63 → n < 2 ^ 63
small_factor s n j h = omega (arith, mul-le-mul_left n (two_pow_pos j))

signed_small : (w : ℕ) → w < 2 ^ 63 → signed w ≡ pos w
unfolding signed
signed_small w h = ground arith

decode_small :
    (s m n j : ℕ) (rest : List ℕ)
    → n < 64
    → j < 64
    → s < 2 ^ j
    → s + n * 2 ^ j < 2 ^ 63
    → vlqdeci_loop s m j (n ∷ rest) ≡ some (pos (s + n * 2 ^ j), rest)
decode_small s m n j rest h k room fits =
    decode_positive s m n j rest h k
    ∙ rw (push_group s n j room (omega arith), signed_small (s + n * 2 ^ j) fits)

pub decode_pos :
    (left i j n s m : ℕ) (rest : List ℕ)
    → j ≡ 7 * i
    → i ≤ 8
    → 10 ≤ left + i
    → s < 2 ^ j
    → s + n * 2 ^ j < 2 ^ 63
    → vlqdeci_loop s m j (vlqencip left (pos n) ++ rest) ≡ some (pos (s + n * 2 ^ j), rest)
decode_pos zero i j n s m rest ej hi hl room fits = absurd (omega arith)
decode_pos (suc left) i j n s m rest ej hi hl room fits = elim (Bool-cases (ltb n 64)) [
  | inl y ↦
      let small : n < 64 = ground arith in
      rw (encode_last left n small) (decode_small s m n j rest small (omega arith) room fits)
  | inr y ↦ elim (Bool-cases (ltb n 128)) [
    | inl z ↦
        let next : 2 ^ (j + 7) ≡ 128 * 2 ^ j = seven_more j in
        let above : s + n * 2 ^ j < 2 ^ (j + 7) =
          omega (arith, add_group s n (2 ^ j) room (ground arith)) in
        rw (encode_sign left n (ground arith) (ground arith) (omega arith)) (
          decode_more s m n j (0 ∷ rest) (ground arith) (omega arith)
          ∙ rw (push_group s n j room (omega arith)) (
              decode_small (s + n * 2 ^ j) _ 0 (j + 7) rest (omega arith) (omega arith) above
                (omega arith)
              ∙ (let e : s + n * 2 ^ j + 0 * 2 ^ (j + 7) ≡ s + n * 2 ^ j = omega arith in rw e)))
    | inr z ↦
        let big : 128 ≤ n = ground arith in
        let parts = split_group n (2 ^ j) in
        let next : 2 ^ (j + 7) ≡ 128 * 2 ^ j = seven_more j in
        let up = ap (λ (t : ℕ). n / 128 * t) next in
        let value : s + n % 128 * 2 ^ j + n / 128 * 2 ^ (j + 7) ≡ s + n * 2 ^ j = omega arith in
        let room' : s + n % 128 * 2 ^ j < 2 ^ (j + 7) =
          omega (arith, add_group s (n % 128) (2 ^ j) room (omega arith)) in
        rw (encode_more left n big (small_factor s n j fits)) (
          decode_more s m (n % 128) j _ (omega arith) (omega arith)
          ∙ rw (push_group s (n % 128) j room (omega arith)) (
              decode_pos left (i + 1) (j + 7) (n / 128) (s + n % 128 * 2 ^ j) _ rest (omega arith)
                (omega (arith, index_below i j n ej hi big (omega arith))) (omega arith) room'
                (omega arith)
              ∙ rw value))
  ]
]
