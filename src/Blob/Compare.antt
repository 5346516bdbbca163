-- ===== src/Blob/Compare.antt =====
-- unc0_blobeq and unc0_cmpblob against the contents of the two blobs.
use uncil.Prelude.{
  ℕ, zero, suc, ◌-◌, ◌≤◌, ◌<◌, ◌≡◌, ◌≢◌, ◌⊎◌, inl, inr, refl, ap, ◌∙◌, arith, List, [], ◌∷◌, Option,
  none, some, ltb, ◌==◌, if◌then◌else◌, true, false, Bool-cases, length, take,
}
use uncil.Prelude.Int.{ℤ, pos, negsuc, eqb_ℤ}
use uncil.Memory.{held}
use uncil.Blob.{Blob, memcmp, blobeq, cmp_result, cmpblob}
use uncil.Blob.Contents.{IsBlob, contents, length-contents}
use mathlib.Core.Option

-- The order of two lists by their first difference, a proper beginning of a list before it.
unfoldable pub lex : List ℕ → List ℕ → ℤ
lex [] [] = pos 0
lex [] (y ∷ b) = negsuc 0
lex (x ∷ a) [] = pos 1
lex (x ∷ a) (y ∷ b) =
    let rest = lex a b in if x == y then rest else if ltb y x then pos 1 else negsuc 0

both : ℕ → ℕ → ℕ
both m n = if ltb m n then m else n

both-suc : (m n : ℕ) → both (suc m) (suc n) ≡ suc (both m n)
unfolding both
both-suc m n = ground arith

cmp_result-suc : (m n : ℕ) (r : ℤ) → cmp_result (suc m) (suc n) r ≡ cmp_result m n r
unfolding cmp_result
cmp_result-suc m n r = ground arith

map-suc :
    (m n : ℕ) (r : Option ℤ)
    → Option.map (cmp_result (suc m) (suc n)) r ≡ Option.map (cmp_result m n) r
map-suc m n none = refl
map-suc m n (some r) = ap some (cmp_result-suc m n r)

cmp_result_above : (m n d : ℕ) → 0 < d → cmp_result m n (pos d) ≡ pos 1
unfolding cmp_result
cmp_result_above m n d h = ground arith

cmp_result_below : (m n d : ℕ) → cmp_result m n (negsuc d) ≡ negsuc 0
unfolding cmp_result
cmp_result_below m n d = ground arith

cmp_step :
    (m n : ℕ) (a b : List ℕ) (v : ℤ) (x y : ℕ)
    → Option.map (cmp_result m n) (memcmp (both m n) a b) ≡ some v
    → Option.map (cmp_result (suc m) (suc n)) (memcmp (suc (both m n)) (x ∷ a) (y ∷ b))
      ≡ some (if x == y then v else if ltb y x then pos 1 else negsuc 0)
unfolding memcmp
cmp_step m n a b v x y e = elim (Bool-cases (x == y)) [
  | inl z ↦ rw z (map-suc m n (memcmp (both m n) a b) ∙ e)
  | inr z ↦ elim (Bool-cases (ltb y x)) [
    | inl t ↦ rw (z, t) (ap some (cmp_result_above (suc m) (suc n) (x - y) (ground arith)))
    | inr t ↦ rw (z, t) (ap some (cmp_result_below (suc m) (suc n) (y - x - 1)))
  ]
]

cmp_lex :
    (m n : ℕ) (a b : List ℕ)
    → m ≤ length a
    → n ≤ length b
    → Option.map (cmp_result m n) (memcmp (both m n) a b) ≡ some (lex (take m a) (take n b))
unfolding lex
cmp_lex zero zero a b h k = unfold memcmp cmp_result both in refl
cmp_lex zero (suc n) a [] h k = absurd (omega arith)
cmp_lex zero (suc n) a (y ∷ b) h k = unfold memcmp cmp_result both in ground arith
cmp_lex (suc m) zero [] b h k = absurd (omega arith)
cmp_lex (suc m) zero (x ∷ a) b h k = unfold memcmp cmp_result both in ground arith
cmp_lex (suc m) (suc n) [] b h k = absurd (omega arith)
cmp_lex (suc m) (suc n) (x ∷ a) [] h k = absurd (omega arith)
cmp_lex (suc m) (suc n) (x ∷ a) (y ∷ b) h k =
    rw (both-suc m n) (
      cmp_step m n a b (lex (take m a) (take n b)) x y
        (cmp_lex m n a b (omega arith) (omega arith)))

-- For two well-formed blobs, unc0_cmpblob reads within their bytes and returns -1, 0 or 1 by
-- the lexicographic order of their contents.
pub cmpblob-lex :
    (a b : Blob) → IsBlob a → IsBlob b → cmpblob a b ≡ some (lex (contents a) (contents b))
unfolding cmpblob
cmpblob-lex a b w v =
    let e =
      cmp_lex a.size b.size (held a.bytes) (held b.bytes) (omega (arith, w.0, w.1))
        (omega (arith, v.0, v.1)) in
    unfold both in e

head_eq : {x y : ℕ} {a b : List ℕ} → x ∷ a ≡ y ∷ b → x ≡ y
head_eq e = cc

tail_eq : {x y : ℕ} {a b : List ℕ} → x ∷ a ≡ y ∷ b → a ≡ b
tail_eq e = cc

-- Bytes that compare as equal are equal, and only they.
pub memcmp_equal :
    (n : ℕ) (a b : List ℕ)
    → n ≤ length a
    → n ≤ length b
    → ((memcmp n a b ≡ some (pos 0)) × (take n a ≡ take n b))
      ⊎ ((r : ℤ) × (memcmp n a b ≡ some r) × (eqb_ℤ r (pos 0) ≡ false) × (take n a ≢ take n b))
unfolding memcmp
memcmp_equal zero a b h k = inl (refl, refl)
memcmp_equal (suc n) [] b h k = absurd (omega arith)
memcmp_equal (suc n) (x ∷ a) [] h k = absurd (omega arith)
memcmp_equal (suc n) (x ∷ a) (y ∷ b) h k =
    let rest = memcmp_equal n a b (omega arith) (omega arith) in
    elim (Bool-cases (x == y)) [
      | inl z ↦
          let e : x ≡ y = ground arith in
          elim rest [
            | inl (p, q) ↦ inl (rw z p, rw e (ap (λ (t : List ℕ). y ∷ t) q))
            | inr (r, p, q, t) ↦ inr (r, rw z p, q, λ f. t (tail_eq f))
          ]
      | inr z ↦
          let d : x ≢ y = ground arith in
          inr (
            if ltb y x then pos (x - y) else negsuc (y - x - 1),
            rw z refl,
            ground arith,
            λ f. d (head_eq f),
          )
    ]

length_differs : {a b : List ℕ} → length a ≢ length b → a ≢ b
length_differs d e = d (ap length e)

-- For two well-formed blobs at different addresses, unc0_blobeq returns true where their
-- contents are equal and false where they differ, and nothing else.
pub blobeq-contents :
    (a b : Blob)
    → IsBlob a
    → IsBlob b
    → ((blobeq a b ≡ some true) × (contents a ≡ contents b))
      ⊎ ((blobeq a b ≡ some false) × (contents a ≢ contents b))
unfolding blobeq
blobeq-contents a b w v =
    let la = length-contents a w in
    let lb = length-contents b v in
    elim (Bool-cases (a.size == b.size)) [
      | inr z ↦
          let d : length (contents a) ≢ length (contents b) = ground arith in
          inr (rw z refl, length_differs d)
      | inl z ↦
          let e : b.size ≡ a.size = ground arith in
          elim (Bool-cases (a.size == 0)) [
            | inl t ↦ let f : a.size ≡ 0 = ground arith in inl (rw (z, t) refl, rw (e, f) refl)
            | inr t ↦
                elim (memcmp_equal a.size (held a.bytes) (held b.bytes) (omega (arith, w.0, w.1))
                  (omega (arith, v.0, v.1))) [
                    | inl (p, q) ↦ inl (rw (z, t, p) refl, rw e q)
                    | inr (r, p, q, f) ↦ inr (rw (z, t, p, q) refl, rw e f)
                  ]
          ]
    ]
