-- ===== src/Optimizer/DeadCode/Marking.antt =====
-- The marks of dead code elimination, as sets of instructions.
use uncil.Prelude.{
  ℕ, zero, suc, ◌<◌, ◌≡◌, ◌≢◌, ◌⊎◌, inl, inr, sym, subst, ◌∙◌, arith, Bool, true, false, List, [],
  ◌∷◌, some, eq-cases, length, get_elem?, set, get_elem?-set_self, get_elem?-set_ne, length-set,
}
use uncil.Optimizer.{Instr}
use uncil.Optimizer.DeadCode.{Marks, mark, pmark, Goes, Reach}

abbrev pub At : List Bool → ℕ → Type 0
At xs i = get_elem? xs i ≡ some true

pub At-below : (xs : List Bool) (i : ℕ) → At xs i → i < length xs
At-below [] i h = absurd (cc)
At-below (x ∷ xs) zero h = omega arith
At-below (x ∷ xs) (suc i) h = omega (arith, At-below xs i h)

pub At-set : (xs : List Bool) (i j : ℕ) → At xs j → At (set xs i true) j
At-set xs i j h = elim (eq-cases i j) [
  | inl e ↦ rw e (get_elem?-set_self xs j true (At-below xs j h))
  | inr n ↦ get_elem?-set_ne xs true n ∙ h
]

pub At-set_other : (xs : List Bool) (i j : ℕ) → i ≢ j → At xs j → At (set xs i false) j
At-set_other xs i j n h = get_elem?-set_ne xs false n ∙ h

-- What a set mark adds, and what a cleared one leaves
pub set-At :
    (xs : List Bool) (i j : ℕ)
    → i < length xs
    → At (set xs i true) j
    → (i ≡ j) ⊎ ((i ≢ j) × At xs j)
set-At xs i j m h = elim (eq-cases i j) [
  | inl e ↦ inl e
  | inr n ↦ inr (n, sym (get_elem?-set_ne xs true n) ∙ h)
]

pub clear-At :
    (xs : List Bool) (i j : ℕ) → i < length xs → At (set xs i false) j → (i ≢ j) × At xs j
clear-At xs i j m h = elim (eq-cases i j) [
  | inl e ↦
      let f : some false ≡ some true =
        sym (get_elem?-set_self xs i false m)
        ∙ subst (λ (w : ℕ). get_elem? (set xs i false) w ≡ some true) (sym e) h in
      absurd (cc)
  | inr n ↦ (n, sym (get_elem?-set_ne xs false n) ∙ h)
]

-- The invariant of a scan: the marks are on reachable instructions, and every edge from a marked
-- instruction leads to a mark unless it is `open'`.
pub record Scanned (code : List Instr) (m : Marks) (open' : ℕ → ℕ → Type 0) : Type 0 where
  pub marked_length : length m.marked ≡ length code
  pub pending_length : length m.pending ≡ length code
  pub marked_reach : (a : ℕ) → At m.marked a → Reach code a
  pub pending_reach : (a : ℕ) → At m.pending a → Reach code a
  pub apart : (a : ℕ) → At m.pending a → get_elem? m.marked a ≡ some false
  pub closed :
      (a b : ℕ) → At m.marked a → Goes code a b → (At m.marked b ⊎ At m.pending b) ⊎ open' a b

pub mark-Scanned :
    (code : List Instr) (m : Marks) (i : ℕ)
    → i < length code
    → Reach code i
    → Scanned code m (λ a b. i ≡ b)
    → Scanned code (mark m i) (λ a b. i ≡ a)
mark-Scanned code m i h r s =
    let hm : i < length m.marked = omega (arith, h, s.marked_length) in
    let hp : i < length m.pending = omega (arith, h, s.pending_length) in
    record {
      marked_length = length-set m.marked i true ∙ s.marked_length;
      pending_length = length-set m.pending i false ∙ s.pending_length;
      marked_reach = λ a k. elim (set-At m.marked i a hm k) [
        | inl e ↦ rw (sym e) r
        | inr w ↦ s.marked_reach a w.1
      ];
      pending_reach = λ a k. s.pending_reach a (clear-At m.pending i a hp k).1;
      apart = λ a k.
          let w = clear-At m.pending i a hp k in get_elem?-set_ne m.marked true w.0 ∙ s.apart a w.1;
      closed = λ a b k g. elim (set-At m.marked i a hm k) [
        | inl e ↦ inr e
        | inr w ↦ elim (s.closed a b w.1 g) [
          | inl (inl x) ↦ inl (inl (At-set m.marked i b x))
          | inl (inr x) ↦ elim (eq-cases i b) [
            | inl e ↦ inl (inl (rw (sym e) (get_elem?-set_self m.marked i true hm)))
            | inr n ↦ inl (inr (At-set_other m.pending i b n x))
          ]
          | inr e ↦ inl (inl (rw (sym e) (get_elem?-set_self m.marked i true hm)))
        ]
      ];
    }

pub pmark-Scanned :
    (code : List Instr) (m : Marks) (i t : ℕ)
    → t < length code
    → Reach code t
    → get_elem? m.marked t ≡ some false
    → Scanned code m (λ a b. i ≡ a)
    → Scanned code (pmark m t) (λ a b. i ≡ a)
pmark-Scanned code m i t h r f s =
    let hp : t < length m.pending = omega (arith, h, s.pending_length) in
    record {
      marked_length = s.marked_length;
      pending_length = length-set m.pending t true ∙ s.pending_length;
      marked_reach = s.marked_reach;
      pending_reach = λ a k. elim (set-At m.pending t a hp k) [
        | inl e ↦ rw (sym e) r
        | inr w ↦ s.pending_reach a w.1
      ];
      apart =
          λ a k. elim (set-At m.pending t a hp k) [ inl e ↦ rw (sym e) f | inr w ↦ s.apart a w.1 ];
      closed = λ a b k g. elim (s.closed a b k g) [
        | inl (inl x) ↦ inl (inl x)
        | inl (inr x) ↦ inl (inr (At-set m.pending t b x))
        | inr e ↦ inr e
      ];
    }

-- The edges of the instruction that was marked last
pub finish-Scanned :
    (code : List Instr) (m : Marks) (i : ℕ) (open' : ℕ → ℕ → Type 0)
    → Scanned code m (λ a b. i ≡ a)
    → ((b : ℕ) → Goes code i b → (At m.marked b ⊎ At m.pending b) ⊎ open' i b)
    → Scanned code m open'
finish-Scanned code m i open' s f = record {
  marked_length = s.marked_length;
  pending_length = s.pending_length;
  marked_reach = s.marked_reach;
  pending_reach = s.pending_reach;
  apart = s.apart;
  closed = λ a b k g. elim (s.closed a b k g) [
    | inl x ↦ inl x
    | inr e ↦ subst (λ w. (At m.marked b ⊎ At m.pending b) ⊎ open' w b) e (f b (rw e g))
  ];
}

-- Other open edges
pub open-Scanned :
    (code : List Instr) (m : Marks) (some' more' : ℕ → ℕ → Type 0)
    → Scanned code m some'
    → ((a b : ℕ) → some' a b → more' a b)
    → Scanned code m more'
open-Scanned code m some' more' s f = record {
  marked_length = s.marked_length;
  pending_length = s.pending_length;
  marked_reach = s.marked_reach;
  pending_reach = s.pending_reach;
  apart = s.apart;
  closed = λ a b k g. elim (s.closed a b k g) [ inl x ↦ inl x | inr e ↦ inr (f a b e) ];
}
