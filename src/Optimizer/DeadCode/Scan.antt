-- ===== src/Optimizer/DeadCode/Scan.antt =====
-- The scans of dead code elimination, and that they end.
use uncil.Prelude.{
  ℕ, zero, suc, ◌+◌, ◌≤◌, ◌<◌, ◌≡◌, inl, inr, refl, sym, ap, ◌∙◌, arith, Bool, true, false, List,
  [], ◌∷◌, none, some, Option-cases, length, get_elem?, set,
}
use uncil.Optimizer.{Instr}
use uncil.Optimizer.Jumps.{InRange}
use uncil.Optimizer.DeadCode.{Marks, visit, scan, Reach, step}
use uncil.Optimizer.DeadCode.Marking.{At, At-set, Scanned, open-Scanned}
use uncil.Optimizer.DeadCode.Visit.{Visited, visit_lem}

-- The instructions that have no mark
unfoldable pub unmarked : List Bool → ℕ
unmarked [] = 0
unmarked (true ∷ bs) = unmarked bs
unmarked (false ∷ bs) = suc (unmarked bs)

pub unmarked-set : (bs : List Bool) (i : ℕ) → unmarked (set bs i true) ≤ unmarked bs
unfolding unmarked
unmarked-set [] i = omega arith
unmarked-set (true ∷ bs) zero = omega arith
unmarked-set (false ∷ bs) zero = omega arith
unmarked-set (true ∷ bs) (suc i) = unmarked-set bs i
unmarked-set (false ∷ bs) (suc i) = omega (arith, unmarked-set bs i)

pub unmarked_less :
    (bs : List Bool) (i : ℕ) → get_elem? bs i ≡ some false → unmarked (set bs i true) < unmarked bs
unfolding unmarked
unmarked_less [] i h = absurd (cc)
unmarked_less (true ∷ bs) zero h = absurd (cc)
unmarked_less (false ∷ bs) zero h = omega arith
unmarked_less (true ∷ bs) (suc i) h = unmarked_less bs i h
unmarked_less (false ∷ bs) (suc i) h = omega (arith, unmarked_less bs i h)

-- A scan ends, with its first instruction marked and no fewer marks.
unfoldable pub Scan : ℕ → List Instr → Marks → ℕ → Type 0
Scan fuel code m i =
    (m' : Marks) × (scan fuel code m i ≡ some m')
    × Scanned code m' (λ a b. none ≡ some b)
    × (unmarked m'.marked ≤ unmarked (set m.marked i true))
    × ((a : ℕ) → At (set m.marked i true) a → At m'.marked a)

scan_stop :
    (fuel : ℕ) (code : List Instr) (m m' : Marks) (i : ℕ)
    → visit code m i ≡ some (m', none)
    → scan (suc fuel) code m i ≡ some m'
unfolding scan
scan_stop fuel code m m' i h = rw (scan, h) refl

scan_on :
    (fuel : ℕ) (code : List Instr) (m m' : Marks) (i j : ℕ)
    → visit code m i ≡ some (m', some j)
    → scan (suc fuel) code m i ≡ scan fuel code m' j
unfolding scan
scan_on fuel code m m' i j h = rw (scan, h) refl

pub scan_lem :
    (fuel : ℕ) (code : List Instr) (m : Marks) (i : ℕ)
    → InRange code
    → i < length code
    → length code ≤ fuel + i
    → Reach code i
    → Scanned code m (λ a b. i ≡ b)
    → Scan fuel code m i
unfolding Scan Visited
scan_lem zero code m i h l f r s = absurd (omega arith)
scan_lem (suc fuel) code m i h l f r s =
    let (m', nxt, v, k, t, w) = visit_lem code m i h l r s in
    elim (Option-cases nxt) [
      | inl z ↦ (
        m',
        scan_stop fuel code m m' i (v ∙ ap (λ o. some (m', o)) z),
        open-Scanned code m' (λ a b. nxt ≡ some b) (λ a b. none ≡ some b) t (λ a b x. sym z ∙ x),
        omega (arith, ap unmarked k),
        λ a x. rw k x,
      )
      | inr (j, z) ↦
          let (b, c, g) = w j z in
          let t' =
            open-Scanned code m' (λ a b. nxt ≡ some b) (λ a b. j ≡ b) t
              (λ a b x. let y : some j ≡ some b = sym z ∙ x in cc) in
          let (m'', v', t'', u, y) = scan_lem fuel code m' j h c (omega arith) (step i j r g) t' in
          (
            m'',
            scan_on fuel code m m' i j (v ∙ ap (λ o. some (m', o)) z) ∙ v',
            t'',
            omega (arith, u, unmarked-set m'.marked j, ap unmarked k),
            λ a x. y a (At-set m'.marked j a (rw k x)),
          )
    ]
