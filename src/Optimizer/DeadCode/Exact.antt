-- ===== src/Optimizer/DeadCode/Exact.antt =====
-- What dead code elimination keeps.
use uncil.Prelude.{
  ℕ, zero, suc, ◌+◌, ◌<◌, ◌≡◌, ◌⊎◌, inl, inr, refl, sym, ap, subst, arith, Bool, true, false, List,
  [], ◌∷◌, none, some, Bool-cases, Option-cases, length, replicate, length-replicate,
  get_elem?-set_self,
}
use uncil.Optimizer.{Instr, op_delete, set_op}
use uncil.Optimizer.Jumps.{InRange}
use uncil.Optimizer.DeadCode.{
  Marks, unmark_all, first_true, scan, scan_pending, sweep, nodeadcode_i, Reach, start, step,
}
use uncil.Optimizer.DeadCode.Marking.{At, At-below, At-set, Scanned, open-Scanned}
use uncil.Optimizer.DeadCode.Scan.{Scan, scan_lem, unmarked, unmarked-set, unmarked_less}

first_true-At : (bs : List Bool) (i : ℕ) → first_true bs ≡ some i → At bs i
first_true-At [] i h = absurd (cc)
first_true-At (true ∷ bs) i h = let e : 0 ≡ i = cc in rw (sym e) refl
first_true-At (false ∷ bs) i h = elim (Option-cases (first_true bs)) [
  | inl z ↦ let f : none ≡ some i = rw z at h in absurd (cc)
  | inr (k, z) ↦
      let f : some (suc k) ≡ some i = rw z at h in
      let e : suc k ≡ i = cc in rw (sym e) (first_true-At bs k z)
]

none_true : (bs : List Bool) (i : ℕ) → first_true bs ≡ none → ¬ At bs i
none_true [] i h k = absurd (cc)
none_true (true ∷ bs) i h k = absurd (cc)
none_true (false ∷ bs) zero h k = absurd (cc)
none_true (false ∷ bs) (suc i) h k = elim (Option-cases (first_true bs)) [
  | inl z ↦ none_true bs i z k
  | inr (j, z) ↦ let f : some (suc j) ≡ none = rw z at h in absurd (cc)
]

pending_lem :
    (fuel : ℕ) (code : List Instr) (m : Marks)
    → InRange code
    → unmarked m.marked < fuel
    → Scanned code m (λ a b. none ≡ some b)
    → (m' : Marks) × (scan_pending fuel code m ≡ some m')
      × Scanned code m' (λ a b. none ≡ some b)
      × (first_true m'.pending ≡ none)
      × ((a : ℕ) → At m.marked a → At m'.marked a)
unfolding scan_pending Scan
pending_lem zero code m h u s = absurd (omega arith)
pending_lem (suc fuel) code m h u s = elim (Option-cases (first_true m.pending)) [
  | inl z ↦ (m, rw (scan_pending, z) refl, s, z, λ a x. x)
  | inr (i, z) ↦
      let p = first_true-At m.pending i z in
      let s' = open-Scanned code m (λ a b. none ≡ some b) (λ a b. i ≡ b) s (λ a b x. absurd (cc)) in
      let (m', f, t, v, w) =
        scan_lem (length code) code m i h (omega (arith, At-below m.pending i p, s.pending_length))
          (omega arith) (s.pending_reach i p) s' in
      let (m'', f', t', v', w') =
        pending_lem fuel code m' h (omega (arith, v, unmarked_less m.marked i (s.apart i p))) t in
      (m'', rw (scan_pending, z, f) f', t', v', λ a x. w' a (w a (At-set m.marked i a x)))
]

-- The instructions that are reached stay, and the others are deleted; the first has the index i.
abbrev pub Swept : List Instr → ℕ → List Instr → List Instr → Type 0
Swept code i [] [] = Unit {0}
Swept code i [] (q ∷ qs) = true ≡ false
Swept code i (q ∷ qs) [] = true ≡ false
Swept code i (q ∷ qs) (q' ∷ qs') =
    (((q' ≡ q) × Reach code i) ⊎ ((q' ≡ set_op op_delete q) × (¬ Reach code i)))
    × Swept code (suc i) qs qs'

sweep-Swept :
    (code qs : List Instr) (bs : List Bool) (i : ℕ)
    → length bs ≡ length qs
    → ((a : ℕ) → At bs a → Reach code (i + a))
    → ((a : ℕ) → a < length bs → Reach code (i + a) → At bs a)
    → Swept code i qs (sweep qs bs).0
unfolding sweep
sweep-Swept code [] bs i e f g = tt
sweep-Swept code (q ∷ qs) [] i e f g = absurd (omega (arith, e))
sweep-Swept code (q ∷ qs) (b ∷ bs) i e f g =
    let shift : (a : ℕ) → i + suc a ≡ suc i + a = λ a. omega arith in
    let rest =
      sweep-Swept code qs bs (suc i) (omega (arith, e))
        (λ a x. subst (λ (w : ℕ). Reach code w) (shift a) (f (suc a) x))
        (λ a l x. g (suc a) (omega arith) (subst (λ (w : ℕ). Reach code w) (sym (shift a)) x)) in
    let z : i + 0 ≡ i = omega arith in
    elim (Bool-cases b) [
      | inl y ↦ rw y (inl (refl, subst (λ (w : ℕ). Reach code w) z (f 0 (ap some y))), rest)
      | inr y ↦ rw y (
        inr (
          refl,
          λ r.
              let x : some b ≡ some true =
                g 0 (omega arith) (subst (λ (w : ℕ). Reach code w) (sym z) r) in
              let v : some false ≡ some true = rw y at x in absurd (cc),
        ),
        rest,
      )
    ]

get-replicate : (n a : ℕ) → ¬ At (replicate n false) a
get-replicate zero a h = absurd (cc)
get-replicate (suc n) zero h = absurd (cc)
get-replicate (suc n) (suc a) h = get-replicate n a h

unmarked-replicate : (n : ℕ) → unmarked (replicate n false) ≡ n
unfolding unmarked
unmarked-replicate zero = refl
unmarked-replicate (suc n) = ap suc (unmarked-replicate n)

first-Scanned : (code : List Instr) → Scanned code (unmark_all (length code)) (λ a b. 0 ≡ b)
first-Scanned code =
    let n = length code in
    record {
      marked_length = length-replicate n false;
      pending_length = length-replicate n false;
      marked_reach = λ a k. absurd (get-replicate n a k);
      pending_reach = λ a k. absurd (get-replicate n a k);
      apart = λ a k. absurd (get-replicate n a k);
      closed = λ a b k g. absurd (get-replicate n a k);
    }

-- Without pending marks, everything that can be reached is marked.
Reach-marked :
    (code : List Instr) (m : Marks) (i : ℕ)
    → Scanned code m (λ a b. none ≡ some b)
    → first_true m.pending ≡ none
    → At m.marked 0
    → Reach code i
    → At m.marked i
Reach-marked code m i s p z start = z
Reach-marked code m i s p z (step a b r g) = elim (s.closed a b (Reach-marked code m a s p z r) g) [
  | inl (inl x) ↦ x
  | inl (inr x) ↦ absurd (none_true m.pending b p x)
  | inr e ↦ absurd (cc)
]

pass :
    (code : List Instr) (m m' : Marks)
    → 0 < length code
    → scan (length code) code (unmark_all (length code)) 0 ≡ some m
    → scan_pending (suc (length code)) code m ≡ some m'
    → nodeadcode_i code ≡ some (sweep code m'.marked)
unfolding nodeadcode_i
pass [] m m' h e f = absurd (omega arith)
pass (q ∷ qs) m m' h e f = rw (nodeadcode_i, e, f) refl

-- One pass over a code whose jumps have their targets in it keeps what is reached and deletes the
-- rest.
pub nodeadcode_i-Reach :
    (code : List Instr)
    → InRange code
    → (code' : List Instr) × (again : Bool) × (nodeadcode_i code ≡ some (code', again))
      × Swept code 0 code code'
unfolding nodeadcode_i Scan
nodeadcode_i-Reach [] h = ([], false, refl, tt)
nodeadcode_i-Reach (q ∷ qs) h =
    let code = q ∷ qs in
    let n = length code in
    let (m, f, s, u, k) =
      scan_lem n code (unmark_all n) 0 h (omega arith) (omega arith) start (first-Scanned code) in
    let l : 0 < length (replicate n false) = omega (arith, length-replicate n false) in
    let (m', f', s', p, k') =
      pending_lem (suc n) code m h
        (omega (arith, u, unmarked-set (replicate n false) 0, unmarked-replicate n)) s in
    let z = k' 0 (k 0 (get_elem?-set_self (replicate n false) 0 true l)) in
    let zero_add : (a : ℕ) → 0 + a ≡ a = λ a. omega arith in
    (
      (sweep code m'.marked).0,
      (sweep code m'.marked).1,
      pass code m m' (omega arith) f f',
      sweep-Swept code code m'.marked 0 s'.marked_length
          (λ a x. subst (λ (w : ℕ). Reach code w) (sym (zero_add a)) (s'.marked_reach a x))
          (λ a b r. Reach-marked code m' a s' p z (subst (λ (w : ℕ). Reach code w) (zero_add a) r)),
    )
