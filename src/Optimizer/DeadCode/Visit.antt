-- ===== src/Optimizer/DeadCode/Visit.antt =====
-- One visited instruction in the scans of dead code elimination.
use uncil.Prelude.{
  ℕ, ◌+◌, ◌<◌, ◌≡◌, ◌⊎◌, inl, inr, refl, sym, ap, subst, ◌∙◌, arith, true, false, ◌||◌, ◌&&◌, List,
  Option, none, some, Bool-cases, lt-cases, ltb, ◌==◌, length, get_elem?, get_elem?-set_self, set,
}
use uncil.Optimizer.{Instr, isjump, isexit, getjumpd, op_jmp}
use uncil.Optimizer.Jumps.{InRange}
use uncil.Optimizer.Jumps.Retarget.{Targets-get, jmp_isjump}
use uncil.Optimizer.Jumps.Merge.{get-below}
use uncil.Optimizer.Jumps.Chain.{same_instr}
use uncil.Optimizer.DeadCode.{
  Marks, mark, pmark, next, visit_target, visit_jump, visit, Goes, falls, branches, leaps, Reach,
  step,
}
use uncil.Optimizer.DeadCode.Marking.{At, Scanned, mark-Scanned, pmark-Scanned, finish-Scanned}

-- The edges of an instruction that is known
Edge : List Instr → ℕ → Instr → ℕ → Type 0
Edge code i q b =
    ((isexit q.op || ((q.op == op_jmp) && ltb i q.o1data)) ≡ false)
      × ((b ≡ i + 1) × (i + 1 < length code))
    ⊎ ((isjump q.op ≡ true) × ((q.op == op_jmp) ≡ false) × (b ≡ q.o1data))
    ⊎ (((q.op == op_jmp) ≡ true) × (i < q.o1data) × (b ≡ q.o1data))

edge :
    (code : List Instr) (i b : ℕ) (q : Instr)
    → get_elem? code i ≡ some q
    → Goes code i b
    → Edge code i q b
unfolding Edge
edge code i b q e (falls x p f o m) =
    let s = same_instr code x p q f e in
    inl (subst (λ w. (isexit w.op || ((w.op == op_jmp) && ltb x w.o1data)) ≡ false) s o, (refl, m))
edge code i b q e (branches x p f k o) =
    let s = same_instr code x p q f e in
    inr (
      inl (
        subst (λ w. (isjump w.op ≡ true) × ((w.op == op_jmp) ≡ false) × (p.o1data ≡ w.o1data)) s
          (k, o, refl)))
edge code i b q e (leaps x p f o m) =
    let s = same_instr code x p q f e in
    inr (
      inr (
        subst (λ w. ((w.op == op_jmp) ≡ true) × (x < w.o1data) × (p.o1data ≡ w.o1data)) s
          (o, m, refl)))

next-some : (code : List Instr) (i b : ℕ) → b ≡ i + 1 → i + 1 < length code → next code i ≡ some b
next-some code i b e m = let z : ltb (i + 1) (length code) ≡ true = ground arith in rw (z, e) refl

next_is : (code : List Instr) (i b : ℕ) → next code i ≡ some b → (i + 1 ≡ b) × (i + 1 < length code)
next_is code i b h = elim (Bool-cases (ltb (i + 1) (length code))) [
  | inl z ↦ let f : some (i + 1) ≡ some b = rw z at h in let g : i + 1 ≡ b = cc in (g, ground arith)
  | inr z ↦ let f : none ≡ some b = rw z at h in absurd (cc)
]

-- What a visit to i gives: where it goes on, and the marks
unfoldable pub Visited : List Instr → Marks → ℕ → Type 0
Visited code m i =
    (m' : Marks) × (nxt : Option ℕ) × (visit code m i ≡ some (m', nxt))
    × (m'.marked ≡ set m.marked i true)
    × Scanned code m' (λ a b. nxt ≡ some b)
    × ((j : ℕ) → nxt ≡ some j → (i < j) × (j < length code) × Goes code i j)

forward :
    (code : List Instr) (i : ℕ) (q : Instr)
    → get_elem? code i ≡ some q
    → (isexit q.op || ((q.op == op_jmp) && ltb i q.o1data)) ≡ false
    → (j : ℕ) → next code i ≡ some j
    → (i < j) × (j < length code) × Goes code i j
forward code i q e o j h =
    let (f, m) = next_is code i j h in
    (omega arith, omega arith, subst (λ (w : ℕ). Goes code i w) f (falls i q e o m))

no_jmp : (q : Instr) → isjump q.op ≡ false → (q.op == op_jmp) ≡ false
no_jmp q k = ground arith

no_exit : (q : Instr) → isjump q.op ≡ true → isexit q.op ≡ false
no_exit q k = ground arith

visit_exit :
    (code : List Instr) (m : Marks) (i : ℕ) (q : Instr)
    → get_elem? code i ≡ some q
    → isjump q.op ≡ false
    → isexit q.op ≡ true
    → Scanned code (mark m i) (λ a b. i ≡ a)
    → Visited code m i
unfolding Visited Edge visit
visit_exit code m i q e k x s =
    let n = no_jmp q k in
    let edges : (b : ℕ)
        → Edge code i q b
        → (At (mark m i).marked b ⊎ At (mark m i).pending b) ⊎ (none ≡ some b) =
      λ b w. elim w [
        | inl v ↦ let f : true ≡ false = rw x at v.0 in absurd (cc)
        | inr (inl v) ↦ absurd (cc)
        | inr (inr v) ↦ absurd (cc)
      ] in
    (
      mark m i,
      none,
      rw (visit, e, k, x) refl,
      refl,
      finish-Scanned code (mark m i) i (λ a b. none ≡ some b) s
          (λ b g. edges b (edge code i b q e g)),
      λ j f. absurd (cc),
    )

-- Where the only edge is the one to the next instruction
visit-next :
    (code : List Instr) (m m' : Marks) (i : ℕ) (q : Instr)
    → get_elem? code i ≡ some q
    → visit code m i ≡ some (m', next code i)
    → m'.marked ≡ set m.marked i true
    → Scanned code m' (λ a b. i ≡ a)
    → (isexit q.op || ((q.op == op_jmp) && ltb i q.o1data)) ≡ false
    → ((isjump q.op ≡ true)
        → ((q.op == op_jmp) ≡ false)
        → At m'.marked q.o1data ⊎ At m'.pending q.o1data)
    → Visited code m i
unfolding Visited Edge
visit-next code m m' i q e v f s o t =
    let edges : (b : ℕ)
        → Edge code i q b
        → (At m'.marked b ⊎ At m'.pending b) ⊎ (next code i ≡ some b) =
      λ b w. elim w [
        | inl x ↦ inr (next-some code i b x.1.0 x.1.1)
        | inr (inl x) ↦ inl (rw x.2 (t x.0 x.1))
        | inr (inr x) ↦ absurd (ground (arith, o, x.0, x.1))
      ] in
    (
      m',
      next code i,
      v,
      f,
      finish-Scanned code m' i (λ a b. next code i ≡ some b) s
          (λ b g. edges b (edge code i b q e g)),
      forward code i q e o,
    )

visit_leap :
    (code : List Instr) (m : Marks) (i : ℕ) (q : Instr)
    → InRange code
    → get_elem? code i ≡ some q
    → (q.op == op_jmp) ≡ true
    → i < q.o1data
    → Scanned code (mark m i) (λ a b. i ≡ a)
    → Visited code m i
unfolding Visited Edge visit visit_jump
visit_leap code m i q h e k l s =
    let j = jmp_isjump q k in
    let d : getjumpd q.op ≡ 1 = rw j refl in
    let z : ltb i q.o1data ≡ true = ground arith in
    let edges : (b : ℕ)
        → Edge code i q b
        → (At (mark m i).marked b ⊎ At (mark m i).pending b) ⊎ (some q.o1data ≡ some b) =
      λ b w. elim w [
        | inl v ↦ absurd (ground (arith, k, v.0, z))
        | inr (inl v) ↦ absurd (cc)
        | inr (inr v) ↦ inr (ap some (sym v.2))
      ] in
    (
      mark m i,
      some q.o1data,
      rw (visit, e, j, visit_jump, d, k, z) refl,
      refl,
      finish-Scanned code (mark m i) i (λ a b. some q.o1data ≡ some b) s
          (λ b g. edges b (edge code i b q e g)),
      λ x f.
          let y : q.o1data ≡ x = cc in
          (
            rw (sym y) l,
            rw (sym y) (Targets-get (length code) code i q h e j),
            subst (λ (w : ℕ). Goes code i w) y (leaps i q e k l),
          ),
    )

visit_branch :
    (code : List Instr) (m : Marks) (i : ℕ) (q : Instr)
    → InRange code
    → get_elem? code i ≡ some q
    → isjump q.op ≡ true
    → (q.op == op_jmp) ≡ false
    → Reach code i
    → Scanned code (mark m i) (λ a b. i ≡ a)
    → Visited code m i
unfolding visit visit_jump visit_target
visit_branch code m i q h e k o r s =
    let d : getjumpd q.op ≡ 1 = rw k refl in
    let x = no_exit q k in
    let b = Targets-get (length code) code i q h e k in
    let (y, f) = get-below (set m.marked i true) q.o1data (omega (arith, b, s.marked_length)) in
    elim (Bool-cases y) [
      | inl z ↦
          let g : get_elem? (set m.marked i true) q.o1data ≡ some true = f ∙ ap some z in
          visit-next code m (mark m i) i q e
            (rw (visit, e, k, visit_jump, d, o, visit_target, g) refl) refl s (rw (x, o) refl)
            (λ k' o'. inl g)
      | inr z ↦
          let g : get_elem? (set m.marked i true) q.o1data ≡ some false = f ∙ ap some z in
          let hp : q.o1data < length (set m.pending i false) = omega (arith, b, s.pending_length) in
          visit-next code m (pmark (mark m i) q.o1data) i q e
            (rw (visit, e, k, visit_jump, d, o, visit_target, g) refl) refl
            (pmark-Scanned code (mark m i) i q.o1data b (step i q.o1data r (branches i q e k o)) g
              s)
            (rw (x, o) refl)
            (λ k' o'. inr (get_elem?-set_self (set m.pending i false) q.o1data true hp))
    ]

pub visit_lem :
    (code : List Instr) (m : Marks) (i : ℕ)
    → InRange code
    → i < length code
    → Reach code i
    → Scanned code m (λ a b. i ≡ b)
    → Visited code m i
unfolding visit visit_jump visit_target
visit_lem code m i h l r s =
    let (q, e) = get-below code i l in
    let t = mark-Scanned code m i l r s in
    elim (Bool-cases (isjump q.op)) [
      | inr k ↦ elim (Bool-cases (isexit q.op)) [
        | inl x ↦ visit_exit code m i q e k x t
        | inr x ↦
            let n = no_jmp q k in
            visit-next code m (mark m i) i q e (rw (visit, e, k, x) refl) refl t (rw (x, n) refl)
              (λ k' o. absurd (cc))
      ]
      | inl k ↦
          let d : getjumpd q.op ≡ 1 = rw k refl in
          let x = no_exit q k in
          elim (Bool-cases (q.op == op_jmp)) [
            | inl o ↦ elim (lt-cases i q.o1data) [
              | inl b ↦ visit_leap code m i q h e o b t
              | inr b ↦
                  let z : ltb i q.o1data ≡ false = ground arith in
                  visit-next code m (mark m i) i q e (rw (visit, e, k, visit_jump, d, o, z) refl)
                    refl t (rw (x, o, z) refl) (λ k' o'. absurd (cc))
            ]
            | inr o ↦ visit_branch code m i q h e k o r t
          ]
    ]
