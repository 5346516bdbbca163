-- ===== src/Vlq/Signed/Negative.antt =====
-- Reading back a negative number -(x + 1): after `i` groups the low `7 * i` bits of `x` are `t`,
-- `s` is their complement and `m` is the mask of the bits above them.
use uncil.Prelude.{
  ℕ, zero, suc, ◌+◌, ◌-◌, ◌*◌, ◌/◌, ◌%◌, ◌^◌, ◌≤◌, ◌<◌, ◌≡◌, ◌≢◌, ap, sym, ◌∙◌, arith, List, ◌∷◌,
  ◌++◌, some, bit_or, ltb, ◌==◌, Bool-cases, inl, inr,
}
use uncil.Prelude.Int.{negsuc, signed}
use uncil.Prelude.Bits.{two_pow_add, bit_or_above, two_pow_pos}
use uncil.Vlq.{vlqencin, vlqdeci_loop}
use uncil.Vlq.Signed.Steps.{
  encode_more_neg, encode_last_neg, encode_sign_neg, push_group, decode_more, decode_negative,
}
use uncil.Vlq.Signed.Positive.{seven_more, split_group, add_group, index_below, small_factor}
use native.Mathlib.Nat.{pow-le-pow_right}

pred_mul : (c p : ℕ) → 0 < c → (c - 1) * p + p ≡ c * p
pred_mul c p h = let e : c - 1 + 1 ≡ c = omega arith in omega (arith, ap (λ (u : ℕ). u * p) e)

-- `s | m` where `m` holds the bits from `k` on.
or_mask : (s m k : ℕ) → k ≤ 64 → m + 2 ^ k ≡ 2 ^ 64 → s < 2 ^ k → bit_or s m ≡ s + m
or_mask s m k h e room =
    let d : 2 ^ (64 - k) * 2 ^ k ≡ 2 ^ 64 =
      sym (two_pow_add (64 - k) k)
      ∙ (let f : 64 - k + k ≡ 64 = omega arith in ap (λ (t : ℕ). 2 ^ t) f) in
    let q : m ≡ (2 ^ (64 - k) - 1) * 2 ^ k =
      omega (arith, pred_mul (2 ^ (64 - k)) (2 ^ k) (two_pow_pos (64 - k))) in
    rw q (bit_or_above k (2 ^ (64 - k) - 1) s room)

signed_large : (w x : ℕ) → x < 2 ^ 63 → w + x + 1 ≡ 2 ^ 64 → signed w ≡ negsuc x
unfolding signed
signed_large w x h e = ground arith

power_bound : (j : ℕ) → j ≤ 56 → 2 ^ j ≤ 2 ^ 56
power_bound j h = pow-le-pow_right (omega arith) h

next_mask : (m j : ℕ) → j ≤ 56 → m + 2 ^ j ≡ 2 ^ 64 → m * 2 ^ 7 % 2 ^ 64 + 2 ^ (j + 7) ≡ 2 ^ 64
next_mask m j h e = omega (arith, seven_more j, power_bound j h, two_pow_pos j)

decode_complement :
    (s m g n t j : ℕ) (rest : List ℕ)
    → g + n ≡ 127
    → n < 64
    → j ≤ 56
    → s + t + 1 ≡ 2 ^ j
    → m + 2 ^ j ≡ 2 ^ 64
    → t + n * 2 ^ j < 2 ^ 63
    → vlqdeci_loop s m j (g ∷ rest) ≡ some (negsuc (t + n * 2 ^ j), rest)
decode_complement s m g n t j rest eg hn hj es em fits =
    let bound = power_bound j hj in
    let next = seven_more j in
    let sum : g * 2 ^ j + n * 2 ^ j ≡ 127 * 2 ^ j = omega (arith, ap (λ (u : ℕ). u * 2 ^ j) eg) in
    let mask = next_mask m j hj em in
    let room : s + g * 2 ^ j < 2 ^ (j + 7) =
      omega (arith, add_group s g (2 ^ j) (omega arith) (omega arith)) in
    decode_negative s m g j rest (omega arith) (omega arith) (omega arith)
    ∙ rw (
      push_group s g j (omega arith) (omega arith),
      or_mask (s + g * 2 ^ j) (m * 2 ^ 7 % 2 ^ 64) (j + 7) (omega arith) mask room,
      signed_large (s + g * 2 ^ j + m * 2 ^ 7 % 2 ^ 64) (t + n * 2 ^ j) fits (omega arith),
    )

complement_step : (n p : ℕ) → n < 128 → (127 - n) * p + n * p ≡ 127 * p
complement_step n p h =
    let e : 127 - n + n ≡ 127 = omega arith in omega (arith, ap (λ (u : ℕ). u * p) e)

-- The tenth byte, at bit 63.
decode_tenth :
    (s m t : ℕ) (rest : List ℕ)
    → s + t + 1 ≡ 2 ^ 63
    → m ≡ 2 ^ 63
    → vlqdeci_loop s m 63 (0x7f ∷ rest) ≡ some (negsuc t, rest)
decode_tenth s m t rest es em =
    let z : m * 2 ^ 7 % 2 ^ 64 ≡ 0 * 2 ^ 64 = omega arith in
    decode_negative s m 127 63 rest (omega arith) (omega arith) (omega arith)
    ∙ rw (
      z,
      bit_or_above 63 1 s (omega arith),
      bit_or_above 64 0 (s + 1 * 2 ^ 63) (omega arith),
      signed_large (s + 1 * 2 ^ 63 + 0 * 2 ^ 64) t (omega arith) (omega arith),
    )

-- The byte that only carries the sign.
decode_sign :
    (s m t j : ℕ) (rest : List ℕ)
    → j ≤ 63
    → (j ≢ 63 → j ≤ 56)
    → s + t + 1 ≡ 2 ^ j
    → m + 2 ^ j ≡ 2 ^ 64
    → t < 2 ^ 63
    → vlqdeci_loop s m j (0x7f ∷ rest) ≡ some (negsuc t, rest)
decode_sign s m t j rest hj gap es em fits = elim (Bool-cases (j == 63)) [
  | inl y ↦
      let e : j ≡ 63 = ground arith in
      let p : 2 ^ j ≡ 2 ^ 63 = ap (λ (u : ℕ). 2 ^ u) e in
      rw e (decode_tenth s m t rest (omega arith) (omega arith))
  | inr n ↦
      let e : t + 0 * 2 ^ j ≡ t = omega arith in
      decode_complement s m 127 0 t j rest (omega arith) (omega arith) (gap (ground arith)) es em
        (omega arith)
      ∙ rw e
]

pub decode_neg :
    (left i j n s m t : ℕ) (rest : List ℕ)
    → j ≡ 7 * i
    → i ≤ 8
    → 10 ≤ left + i
    → s + t + 1 ≡ 2 ^ j
    → m + 2 ^ j ≡ 2 ^ 64
    → t + n * 2 ^ j < 2 ^ 63
    → vlqdeci_loop s m j (vlqencin left (negsuc n) ++ rest) ≡ some (negsuc (t + n * 2 ^ j), rest)
decode_neg zero i j n s m t rest ej hi hl es em fits = absurd (omega arith)
decode_neg (suc left) i j n s m t rest ej hi hl es em fits = elim (Bool-cases (ltb n 64)) [
  | inl y ↦
      let small : n < 64 = ground arith in
      rw (encode_last_neg left n small)
        (decode_complement s m (127 - n) n t j rest (omega arith) small (omega arith) es em fits)
  | inr y ↦ elim (Bool-cases (ltb n 128)) [
    | inl z ↦
        let below : n < 128 = ground arith in
        let high : 64 ≤ n = ground arith in
        let parts = complement_step n (2 ^ j) below in
        let bound = power_bound j (omega arith) in
        let next = seven_more j in
        rw (encode_sign_neg left n high below (omega arith)) (
          decode_more s m (127 - n) j (0x7f ∷ rest) (omega arith) (omega arith)
          ∙ rw (push_group s (127 - n) j (omega arith) (omega arith)) (
              decode_sign (s + (127 - n) * 2 ^ j) _ (t + n * 2 ^ j) (j + 7) rest (omega arith)
                (λ ne. omega arith) (omega arith) (next_mask m j (omega arith) em) fits))
    | inr z ↦
        let big : 128 ≤ n = ground arith in
        let r : n % 128 < 128 = omega arith in
        let parts = complement_step (n % 128) (2 ^ j) r in
        let split = split_group n (2 ^ j) in
        let bound = power_bound j (omega arith) in
        let next = seven_more j in
        let up = ap (λ (u : ℕ). n / 128 * u) next in
        let value : t + n % 128 * 2 ^ j + n / 128 * 2 ^ (j + 7) ≡ t + n * 2 ^ j = omega arith in
        rw (encode_more_neg left n big (small_factor t n j fits)) (
          decode_more s m (127 - n % 128) j _ (omega arith) (omega arith)
          ∙ rw (push_group s (127 - n % 128) j (omega arith) (omega arith)) (
              decode_neg left (i + 1) (j + 7) (n / 128) (s + (127 - n % 128) * 2 ^ j) _
                (t + n % 128 * 2 ^ j) rest (omega arith)
                (omega (arith, index_below i j n ej hi big (omega arith))) (omega arith)
                (omega arith) (next_mask m j (omega arith) em) (omega arith)
              ∙ rw value))
  ]
]
