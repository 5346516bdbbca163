-- ===== src/Vlq/Length.antt =====
-- How many bytes the codes of src/uvlq.c take, and what the length functions report.
use uncil.Prelude.{
  ℕ, zero, suc, ◌+◌, ◌-◌, ◌*◌, ◌/◌, ◌%◌, ◌^◌, ◌≤◌, ◌<◌, ◌≡◌, ap, ◌∙◌, arith, List, ◌++◌, some, ltb,
  leb, min, ◌&&◌, if◌then◌else◌, refl, sym, true, false, Bool-cases, inl, inr, length,
  length-append,
}
use uncil.Prelude.Int.{ℤ, pos, negsuc, bits, IsInt}
use uncil.Vlq.{emit_bytes, vlqencz, vlqenczl, vlqdeczl, vlqencip, vlqencin, vlqenci, vlqencil}
use uncil.Vlq.Unsigned.{short_code, vlqdecz-vlqencz}
use uncil.Vlq.Signed.{encode_pos, encode_neg}
use uncil.Vlq.Signed.Steps.{
  encode_full, encode_full_neg, encode_more, encode_last, encode_sign, encode_more_neg,
  encode_last_neg, encode_sign_neg,
}
use uncil.Vlq.Signed.Positive.{seven_more}

length-emit_bytes : (v n i l : ℕ) → length (emit_bytes v n i l) ≤ l
unfolding emit_bytes
length-emit_bytes v n i zero = omega arith
length-emit_bytes v n i (suc l) = ground (arith, length-emit_bytes v n (i + 1) l)

-- The length that unc0_vlqdeczl finds on the code of a 64-bit number, whatever follows it, is
-- the one that unc0_vlqenczl promises.
vlqdeczl-vlqencz :
    (v : ℕ) (rest : List ℕ) → v < 2 ^ 64 → vlqdeczl (vlqencz v 9 ++ rest) ≡ some (vlqenczl v)
unfolding vlqdeczl vlqenczl
vlqdeczl-vlqencz v rest h =
    rw (vlqdecz-vlqencz v 9 rest h (omega arith), vlqdeczl, length-append {0} (vlqencz v 9) rest)
      (let e : length (vlqencz v 9) + length rest - length rest ≡ length (vlqencz v 9) =
          omega arith in
        rw e)

-- The number of groups of seven bits of a number below 128 * 2 ^ (7 * f), at least one, and the
-- highest of them
abbrev pub septets : ℕ → ℕ → ℕ
septets zero m = 1
septets (suc f) m = let more = septets f (m / 128) in if ltb m 128 then 1 else suc more

abbrev pub highest : ℕ → ℕ → ℕ
highest zero m = m
highest (suc f) m = let more = highest f (m / 128) in if ltb m 128 then m else more

-- How many bytes are written with the limit n: one for each group, but at most one more than n,
-- and one for a sign that the highest group does not show, if there is room below n
abbrev pub code_length : ℕ → ℕ → ℕ → ℕ
code_length n f m =
    min (suc n) (septets f m) + (if ltb (septets f m) n && leb 64 (highest f m) then 1 else 0)

-- The bits of an integer, without its sign
abbrev pub payload : ℤ → ℕ
payload (pos n) = n
payload (negsuc n) = n

septets_pos : (f m : ℕ) → 0 < septets f m
septets_pos zero m = omega arith
septets_pos (suc f) m = ground arith

septets-le : (f m : ℕ) → septets f m ≤ suc f
septets-le zero m = omega arith
septets-le (suc f) m = ground (arith, septets-le f (m / 128))

code_length_small :
    (n f m : ℕ)
    → m < 128
    → code_length n f m ≡ min (suc n) 1 + (if ltb 1 n && leb 64 m then 1 else 0)
code_length_small n zero m h = refl
code_length_small n (suc f) m h = let e : ltb m 128 ≡ true = ground arith in rw e refl

code_length_more :
    (n f m : ℕ) → 128 ≤ m → code_length (suc n) (suc f) m ≡ suc (code_length n f (m / 128))
code_length_more n f m h =
    let e : ltb m 128 ≡ false = ground arith in
    let l : ltb (suc (septets f (m / 128))) (suc n) ≡ ltb (septets f (m / 128)) n = ground arith in
    rw (e, l) (omega arith)

code_length_none : (f m : ℕ) → code_length 0 f m ≡ 1
code_length_none f m = ground (arith, septets_pos f m)

-- A number of more than one group has f above 0.
room_below : (f m : ℕ) → m < 128 * 2 ^ (7 * suc f) → m / 128 < 128 * 2 ^ (7 * f)
room_below f m h =
    let e : 7 * suc f ≡ 7 * f + 7 = omega arith in
    let g : 2 ^ (7 * suc f) ≡ 128 * 2 ^ (7 * f) = ap (λ (t : ℕ). 2 ^ t) e ∙ seven_more (7 * f) in
    omega (arith, h, g)

length_pos_small : (n m : ℕ) → m < 128 → length (vlqencip (suc n) (pos m)) ≡ code_length (suc n) 0 m
length_pos_small n m h = elim (Bool-cases (ltb m 64)) [
  | inl y ↦
      let l : leb 64 m ≡ false = ground arith in
      rw (encode_last n m (ground arith)) (ground (arith, l))
  | inr y ↦ elim (Bool-cases (ltb 0 n)) [
    | inl z ↦ rw (encode_sign n m (ground arith) h (ground arith)) (ground arith)
    | inr z ↦ let e : n ≡ 0 = ground arith in rw (e, encode_full m h) (ground arith)
  ]
]

length_pos :
    (n f m : ℕ)
    → m < 2 ^ 63
    → m < 128 * 2 ^ (7 * f)
    → length (vlqencip n (pos m)) ≡ code_length n f m
length_pos zero f m h k = unfold vlqencip in sym (code_length_none f m)
length_pos (suc n) zero m h k = length_pos_small n m (omega (arith, k))
length_pos (suc n) (suc f) m h k = elim (Bool-cases (ltb m 128)) [
  | inl y ↦
      length_pos_small n m (ground arith) ∙ sym (code_length_small (suc n) (suc f) m (ground arith))
  | inr y ↦
      let l : 128 ≤ m = ground arith in
      rw (code_length_more n f m l, encode_more n m l h)
        (ap suc (length_pos n f (m / 128) (omega arith) (room_below f m k)))
]

length_neg_small :
    (n m : ℕ) → m < 128 → length (vlqencin (suc n) (negsuc m)) ≡ code_length (suc n) 0 m
length_neg_small n m h = elim (Bool-cases (ltb m 64)) [
  | inl y ↦
      let l : leb 64 m ≡ false = ground arith in
      rw (encode_last_neg n m (ground arith)) (ground (arith, l))
  | inr y ↦ elim (Bool-cases (ltb 0 n)) [
    | inl z ↦ rw (encode_sign_neg n m (ground arith) h (ground arith)) (ground arith)
    | inr z ↦ let e : n ≡ 0 = ground arith in rw (e, encode_full_neg m h) (ground arith)
  ]
]

length_neg :
    (n f m : ℕ)
    → m < 2 ^ 63
    → m < 128 * 2 ^ (7 * f)
    → length (vlqencin n (negsuc m)) ≡ code_length n f m
length_neg zero f m h k = unfold vlqencin in sym (code_length_none f m)
length_neg (suc n) zero m h k = length_neg_small n m (omega (arith, k))
length_neg (suc n) (suc f) m h k = elim (Bool-cases (ltb m 128)) [
  | inl y ↦
      length_neg_small n m (ground arith) ∙ sym (code_length_small (suc n) (suc f) m (ground arith))
  | inr y ↦
      let l : 128 ≤ m = ground arith in
      rw (code_length_more n f m l, encode_more_neg n m l h)
        (ap suc (length_neg n f (m / 128) (omega arith) (room_below f m k)))
]

code_length-le : (n m : ℕ) → code_length n 8 m ≤ 10
code_length-le n m = ground (arith, septets-le 8 m)

-- For every 64-bit integer and every limit n, unc0_vlqenci writes a byte for each group of
-- seven bits, but at most n + 1, and one more for the sign where the highest group does not
-- show it and there is room below n; that is never more than 10.
pub length-vlqenci :
    (v : ℤ) (n : ℕ)
    → IsInt v
    → (length (vlqenci v n) ≡ code_length n 8 (payload v)) × (length (vlqenci v n) ≤ 10)
length-vlqenci (pos m) n h =
    let e = length_pos n 8 m (omega (arith, h.0)) (omega (arith, h.0)) in
    rw (encode_pos m n) (e, omega (arith, e, code_length-le n m))
length-vlqenci (negsuc m) n h =
    let e = length_neg n 8 m (omega (arith, h.1)) (omega (arith, h.1)) in
    rw (encode_neg m n) (e, omega (arith, e, code_length-le n m))

-- For 64 to 127, unc0_vlqencil reports a length of one byte where unc0_vlqenci writes two.
vlqencil_short :
    (n : ℕ) → 64 ≤ n → n < 128 → (vlqencil (pos n) ≡ 1) × (length (vlqenci (pos n) 10) ≡ 2)
unfolding vlqencil bits
vlqencil_short n h k =
    let e : n % 2 ^ 64 ≡ n = omega arith in
    (rw (e, short_code n 10 k), rw (encode_pos n 10, encode_sign 9 n h k (omega arith)))
