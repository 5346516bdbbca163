-- ===== src/Optimizer/Jumps/Chain.antt =====
-- Chains of JMP instructions that end at another instruction.
use uncil.Prelude.{
  ℕ, zero, suc, ◌+◌, ◌≤◌, ◌<◌, ◌≡◌, inl, inr, refl, sym, ap, subst, ◌∙◌, arith, true, false, List,
  [], ◌∷◌, Option, none, some, Bool-cases, eq-cases, length, get_elem?,
}
use uncil.Optimizer.{Instr, isjump, set_target, update, mergejmps_i, mergejmps_loop, mergejmps}
use uncil.Optimizer.Jumps.{Leads, here, jump, Ends, last, more, InRange, Retargets, AllRetarget}
use uncil.Optimizer.Jumps.Retarget.{
  Targets-get, all-length, all_new, all-InRange, all-update, jmp_isjump,
}
use uncil.Optimizer.Jumps.Merge.{
  get-below, jump_turn, other_turn, inner, outer, loop_jump, loop_other, loop,
}

pub same_instr :
    (c : List Instr) (i : ℕ) (p q : Instr) → get_elem? c i ≡ some p → get_elem? c i ≡ some q → p ≡ q
same_instr c i p q e f = let g : some p ≡ some q = sym e ∙ f in cc

-- A place on a chain has the rest of it.
Ends-rest :
    (c : List Instr) (i t j n : ℕ) → Leads c i t → Ends c n i j → (m : ℕ) × (m ≤ n) × Ends c m t j
Ends-rest c i t j n (here x) h = (n, omega arith, h)
Ends-rest c i t j n (jump x y q e o l) (last x' q' e' o') =
    let s = same_instr c x q q' e e' in absurd (cc)
Ends-rest c i t j n (jump x y q e o l) (more k x' j' q' e' o' r) =
    let s = same_instr c x q' q e' e in
    let (m, b, r') = Ends-rest c q.o1data y j k l (subst (λ w. Ends c k w.o1data j) s r) in
    (m, omega arith, r')

Ends-last : (c : List Instr) (n i j : ℕ) → Ends c n i j → Ends c 0 j j
Ends-last c n i j (last x q e o) = last x q e o
Ends-last c n i j (more k x y q e o r) = Ends-last c k q.o1data y r

at_last : (c : List Instr) (n i j : ℕ) → n ≤ 0 → Ends c n i j → i ≡ j
at_last c n i j h (last x q e o) = refl
at_last c n i j h (more k x y q e o r) = absurd (omega arith)

Retargets-op : (a : List Instr) (q q' : Instr) → Retargets a q q' → q'.op ≡ q.op
Retargets-op a q q' (inl s) = ap (λ w. w.op) s
Retargets-op a q q' (inr (k, (t, s, l))) = ap (λ w. w.op) s

Retargets-Leads : (a : List Instr) (q q' : Instr) → Retargets a q q' → Leads a q.o1data q'.o1data
Retargets-Leads a q q' (inl s) = subst (λ w. Leads a q.o1data w.o1data) (sym s) (here q.o1data)
Retargets-Leads a q q' (inr (k, (t, s, l))) = subst (λ w. Leads a q.o1data w.o1data) (sym s) l

-- A chain is no longer in the retargeted code.
Ends-new :
    (bound : ℕ) (a b : List Instr) (n x j : ℕ)
    → AllRetarget a a b
    → n ≤ bound
    → Ends a n x j
    → (m : ℕ) × (m ≤ n) × Ends b m x j
Ends-new bound a b n x j h m (last i q e o) =
    let (q', f, g) = all_new a a b x q h e in
    (0, omega arith, last x q' f (rw (Retargets-op a q q' g) o))
Ends-new zero a b n x j h m (more k i j' q e o r) = absurd (omega arith)
Ends-new (suc bound) a b n x j h m (more k i j' q e o r) =
    let (q', f, g) = all_new a a b i q h e in
    let (k', s, r') = Ends-rest a q.o1data q'.o1data j' k (Retargets-Leads a q q' g) r in
    let (k'', s', r'') = Ends-new bound a b k' q'.o1data j' h (omega arith) r' in
    (suc k'', omega arith, more k'' i j' q' f (rw (Retargets-op a q q' g) o) r'')

-- With enough fuel, the end of the chain is found.
inner_reaches :
    (fuel : ℕ) (c : List Instr) (n i j : ℕ)
    → n ≤ fuel
    → Ends c n i j
    → (c' : List Instr) × (mergejmps_i fuel false c i ≡ some (c', j))
unfolding mergejmps_i
inner_reaches zero c n i j h (last x q e o) = (c, refl)
inner_reaches (suc fuel) c n i j h (last x q e o) = (c, other_turn fuel false c x q e o)
inner_reaches zero c n i j h (more k x y q e o r) = absurd (omega arith)
inner_reaches (suc fuel) c n i j h (more k x y q e o r) =
    let (c', s) = inner_reaches fuel c k q.o1data y (omega arith) r in
    (update (set_target 1 y) c' x, jump_turn fuel false c x q c' y e o (jmp_isjump q o) s)

pub below-get : {A : Type 0} (xs : List A) (i : ℕ) (x : A) → get_elem? xs i ≡ some x → i < length xs
below-get [] i x e = absurd (cc)
below-get (y ∷ ys) zero x e = omega arith
below-get (y ∷ ys) (suc i) x e = omega (arith, below-get ys i x e)

get-update :
    (f : Instr → Instr) (xs : List Instr) (i : ℕ) (x : Instr)
    → get_elem? xs i ≡ some x
    → get_elem? (update f xs i) i ≡ some (f x)
get-update f [] i x e = absurd (cc)
get-update f (y ∷ ys) zero x e = let s : y ≡ x = cc in ap (λ w. some (f w)) s
get-update f (y ∷ ys) (suc i) x e = get-update f ys i x e

-- The instruction at k is the jump q with a target that is at most n instructions before j.
Aims : List Instr → ℕ → Instr → ℕ → ℕ → Type 0
Aims c k q j n =
    (t : ℕ) × (get_elem? c k ≡ some (set_target 1 t q)) × ((m : ℕ) × (m ≤ n) × Ends c m t j)

Retargets-aim :
    (a : List Instr) (t : ℕ) (q q' : Instr)
    → Retargets a (set_target 1 t q) q'
    → (u : ℕ) × (q' ≡ set_target 1 u q) × Leads a t u
Retargets-aim a t q q' (inl s) = (t, s, here t)
Retargets-aim a t q q' (inr (k, (u, s, l))) = (u, s, l)

Aims-new :
    (a b : List Instr) (k : ℕ) (q : Instr) (j n : ℕ)
    → AllRetarget a a b
    → Aims a k q j n
    → Aims b k q j n
unfolding Aims
Aims-new a b k q j n h (t, e, (m, s, r)) =
    let (q', f, g) = all_new a a b k (set_target 1 t q) h e in
    let (u, p, l) = Retargets-aim a t q q' g in
    let (m', s', r') = Ends-rest a t u j m l r in
    let (m'', s'', r'') = Ends-new m' a b m' u j h (omega arith) r' in
    (u, f ∙ ap some p, (m'', omega arith, r''))

target_of : Option (List Instr × ℕ) → ℕ
target_of none = 0
target_of (some (c, t)) = t

same_target :
    (o : Option (List Instr × ℕ)) (c d : List Instr) (i j : ℕ)
    → o ≡ some (c, i)
    → o ≡ some (d, j)
    → i ≡ j
unfolding target_of
same_target o c d i j e f = sym (ap target_of e) ∙ ap target_of f

-- The turn of a jump
Aims-turn :
    (c : List Instr) (k : ℕ) (q : Instr) (j n : ℕ)
    → InRange c
    → isjump q.op ≡ true
    → n ≤ 255
    → Aims c k q j n
    → (c' : List Instr) × (t : ℕ) × (mergejmps_i 256 true c k ≡ some (c', t))
      × AllRetarget c c c'
      × Aims c' k q j 0
unfolding Aims
Aims-turn c k q j n h o b (t, e, (m, s, r)) =
    let (d, u, f, a, l) = inner 255 c t h (Targets-get (length c) c k (set_target 1 t q) h e o) in
    let (d', g) = inner_reaches 255 c m t j (omega arith) r in
    let p = same_target (mergejmps_i 255 false c t) d d' u j f g in
    let a' = all-update c c d k u (set_target 1 t q) a e o l in
    let (q', f', g') = all_new c c d k (set_target 1 t q) a e in
    let (v, p', l') = Retargets-aim c t q q' g' in
    let c' = update (set_target 1 u) d k in
    let (m', s', r') = Ends-new 0 c c' 0 j j a' (omega arith) (Ends-last c m t j r) in
    (
      c',
      u,
      jump_turn 255 true c k (set_target 1 t q) d u e o o f,
      a',
      (
        u,
        get-update (set_target 1 u) d k q' f' ∙ ap (λ w. some (set_target 1 u w)) p',
        (m', s', subst (λ (w : ℕ). Ends c' m' w j) (sym p) r'),
      ),
    )

loop_reaches :
    (count i : ℕ) (c : List Instr) (k : ℕ) (q : Instr) (j n : ℕ)
    → InRange c
    → i + count ≤ length c
    → isjump q.op ≡ true
    → n ≤ 255
    → i ≤ k
    → k < i + count
    → Aims c k q j n
    → (c' : List Instr) × (mergejmps_loop count i c ≡ some c') × Aims c' k q j 0
unfolding mergejmps_loop Aims
loop_reaches zero i c k q j n h m o b l u a = absurd (omega arith)
loop_reaches (suc count) i c k q j n h m o b l u a = elim (eq-cases i k) [
  | inl z ↦
      let (t, e, r) = a in
      let (c', v, f, s, a') = Aims-turn c k q j n h o b a in
      let (d, g, s') =
        loop count (i + 1) c' (all-InRange c c' s h) (omega (arith, all-length c c c' s)) in
      (
        d,
        loop_jump count i c (set_target 1 t q) c' v (rw z e) o (rw z f) ∙ g,
        Aims-new c' d k q j 0 s' a',
      )
  | inr z ↦
      let (p, e) = get-below c i (omega arith) in
      elim (Bool-cases (isjump p.op)) [
        | inl o' ↦
            let (c', v, f, s) = outer 255 c i p h e o' in
            let (d, g, a') =
              loop_reaches count (i + 1) c' k q j n (all-InRange c c' s h)
                (omega (arith, all-length c c c' s)) o b (omega arith) (omega arith)
                (Aims-new c c' k q j n s a) in
            (d, loop_jump count i c p c' v e o' f ∙ g, a')
        | inr o' ↦
            let (d, g, a') =
              loop_reaches count (i + 1) c k q j n h (omega arith) o b (omega arith) (omega arith)
                a in
            (d, loop_other count i c p e o' ∙ g, a')
      ]
]

-- If the targets of all jumps are in the code, and from the target of a jump at most 255 JMP
-- instructions in a row lead to another instruction, then after mergejmps that instruction is
-- the target of the jump, which is as before otherwise.
pub mergejmps-Ends :
    (code : List Instr) (k : ℕ) (q : Instr) (n j : ℕ)
    → InRange code
    → get_elem? code k ≡ some q
    → isjump q.op ≡ true
    → Ends code n q.o1data j
    → n ≤ 255
    → (code' : List Instr) × (mergejmps code ≡ some code')
      × (get_elem? code' k ≡ some (set_target 1 j q))
unfolding mergejmps Aims
mergejmps-Ends code k q n j h e o r b =
    let (d, g, (t, e', (m, s, r'))) =
      loop_reaches (length code) 0 code k q j n h (omega arith) o b (omega arith)
        (omega (arith, below-get code k q e)) (q.o1data, e, (n, omega arith, r)) in
    let z : t ≡ j = at_last d m t j s r' in (d, g, e' ∙ ap (λ w. some (set_target 1 w q)) z)
