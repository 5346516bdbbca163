-- ===== src/Optimizer/Jumps/Retarget.antt =====
-- Codes that differ in the targets of jumps only.
use uncil.Prelude.{
  ℕ, zero, suc, ◌<◌, ◌≡◌, ◌⊎◌, inl, inr, refl, sym, ap, subst, ◌∙◌, true, false, List, [], ◌∷◌,
  some, ◌==◌, length, get_elem?,
}
use uncil.Optimizer.{Instr, isjump, op_jmp, set_target, update}
use uncil.Optimizer.Jumps.{Leads, here, jump, Targets, InRange, Retargets, AllRetarget}

pub Leads-trans : (c : List Instr) (i j k : ℕ) → Leads c i j → Leads c j k → Leads c i k
Leads-trans c i j k (here x) l = l
Leads-trans c i j k (jump x y q e o h) l = jump x k q e o (Leads-trans c q.o1data y k h l)

pub all_same : (c xs : List Instr) → AllRetarget c xs xs
all_same c [] = tt
all_same c (x ∷ xs) = (inl refl, all_same c xs)

pub all-length : (c xs ys : List Instr) → AllRetarget c xs ys → length ys ≡ length xs
all-length c [] [] h = refl
all-length c [] (y ∷ ys) h = absurd (cc)
all-length c (x ∷ xs) [] h = absurd (cc)
all-length c (x ∷ xs) (y ∷ ys) h = ap suc (all-length c xs ys h.1)

-- The old instruction of a new one, and the other way round
pub all_old :
    (c xs ys : List Instr) (k : ℕ) (y : Instr)
    → AllRetarget c xs ys
    → get_elem? ys k ≡ some y
    → (x : Instr) × (get_elem? xs k ≡ some x) × Retargets c x y
all_old c [] [] k y h e = absurd (cc)
all_old c [] (y' ∷ ys) k y h e = absurd (cc)
all_old c (x ∷ xs) [] k y h e = absurd (cc)
all_old c (x ∷ xs) (y' ∷ ys) zero y h e =
    let f : y' ≡ y = cc in (x, refl, subst (λ w. Retargets c x w) f h.0)
all_old c (x ∷ xs) (y' ∷ ys) (suc k) y h e = all_old c xs ys k y h.1 e

pub all_new :
    (c xs ys : List Instr) (k : ℕ) (x : Instr)
    → AllRetarget c xs ys
    → get_elem? xs k ≡ some x
    → (y : Instr) × (get_elem? ys k ≡ some y) × Retargets c x y
all_new c [] [] k x h e = absurd (cc)
all_new c [] (y ∷ ys) k x h e = absurd (cc)
all_new c (x' ∷ xs) [] k x h e = absurd (cc)
all_new c (x' ∷ xs) (y ∷ ys) zero x h e =
    let f : x' ≡ x = cc in (y, refl, subst (λ w. Retargets c w y) f h.0)
all_new c (x' ∷ xs) (y ∷ ys) (suc k) x h e = all_new c xs ys k x h.1 e

-- What the retargeted code leads to, the old code leads to.
Leads-old : (a b : List Instr) (i j : ℕ) → AllRetarget a a b → Leads b i j → Leads a i j
Leads-old a b i j h (here x) = here x
Leads-old a b i j h (jump x y q e o l) =
    let f = all_old a a b x q h e in
    let g = Leads-old a b q.o1data y h l in
    elim f.2 [
      | inl s ↦ jump x y q (f.1 ∙ ap some (sym s)) o g
      | inr (k, (t, s, m)) ↦
          let u : q.op ≡ f.0.op = ap (λ w. w.op) s in
          let v : q.o1data ≡ t = ap (λ w. w.o1data) s in
          jump x y f.0 f.1 (rw u at o) (Leads-trans a f.0.o1data t y m (rw v at g))
    ]

Retargets-trans :
    (a b : List Instr) (x y z : Instr)
    → AllRetarget a a b
    → Retargets a x y
    → Retargets b y z
    → Retargets a x z
Retargets-trans a b x y z h (inl e) (inl f) = inl (f ∙ e)
Retargets-trans a b x y z h (inl e) (inr (k, (t, s, m))) = inr (
    subst (λ w. (isjump w.op ≡ true) × ((t : ℕ) × (z ≡ set_target 1 t w) × Leads a w.o1data t)) e
      (k, (t, s, Leads-old a b y.o1data t h m)))
Retargets-trans a b x y z h (inr r) (inl f) = inr (r.0, (r.1.0, f ∙ r.1.1, r.1.2))
Retargets-trans a b x y z h (inr (k, (t, s, m))) (inr (k', (t', s', m'))) =
    let v : y.o1data ≡ t = ap (λ w. w.o1data) s in
    let l : Leads a t t' = Leads-old a b t t' h (rw v at m') in
    inr (k, (t', s' ∙ ap (set_target 1 t') s, Leads-trans a x.o1data t t' m l))

pub all_trans :
    (a b xs ys zs : List Instr)
    → AllRetarget a a b
    → AllRetarget a xs ys
    → AllRetarget b ys zs
    → AllRetarget a xs zs
all_trans a b [] [] [] h f g = tt
all_trans a b [] [] (z ∷ zs) h f g = g
all_trans a b [] (y ∷ ys) zs h f g = absurd (cc)
all_trans a b (x ∷ xs) [] zs h f g = absurd (cc)
all_trans a b (x ∷ xs) (y ∷ ys) [] h f g = absurd (cc)
all_trans a b (x ∷ xs) (y ∷ ys) (z ∷ zs) h f g =
    (Retargets-trans a b x y z h f.0 g.0, all_trans a b xs ys zs h f.1 g.1)

update_here :
    (c : List Instr) (x y : Instr) (t : ℕ)
    → isjump x.op ≡ true
    → Leads c x.o1data t
    → Retargets c x y
    → Retargets c x (set_target 1 t y)
update_here c x y t k l (inl e) = inr (k, (t, ap (set_target 1 t) e, l))
update_here c x y t k l (inr (k', (u, s, m))) = inr (k, (t, ap (set_target 1 t) s, l))

-- Another target for one jump
pub all-update :
    (c xs ys : List Instr) (i t : ℕ) (q : Instr)
    → AllRetarget c xs ys
    → get_elem? xs i ≡ some q
    → isjump q.op ≡ true
    → Leads c q.o1data t
    → AllRetarget c xs (update (set_target 1 t) ys i)
all-update c [] [] i t q h e k l = tt
all-update c [] (y ∷ ys) i t q h e k l = absurd (cc)
all-update c (x ∷ xs) [] i t q h e k l = absurd (cc)
all-update c (x ∷ xs) (y ∷ ys) zero t q h e k l =
    let f : x ≡ q = cc in
    let k' = subst (λ w. isjump w.op ≡ true) (sym f) k in
    let l' = subst (λ w. Leads c w.o1data t) (sym f) l in (update_here c x y t k' l' h.0, h.1)
all-update c (x ∷ xs) (y ∷ ys) (suc i) t q h e k l = (h.0, all-update c xs ys i t q h.1 e k l)

in_range :
    (n : ℕ) (x : Instr) → isjump x.op ≡ true → (isjump x.op ≡ false) ⊎ (x.o1data < n) → x.o1data < n
in_range n x k (inl e) = absurd (cc)
in_range n x k (inr m) = m

pub Targets-get :
    (n : ℕ) (xs : List Instr) (i : ℕ) (q : Instr)
    → Targets n xs
    → get_elem? xs i ≡ some q
    → isjump q.op ≡ true
    → q.o1data < n
Targets-get n [] i q h e k = absurd (cc)
Targets-get n (x ∷ xs) zero q h e k =
    let f : x ≡ q = cc in
    let k' = subst (λ w. isjump w.op ≡ true) (sym f) k in
    subst (λ w. w.o1data < n) f (in_range n x k' h.0)
Targets-get n (x ∷ xs) (suc i) q h e k = Targets-get n xs i q h.1 e k

pub jmp_isjump : (q : Instr) → (q.op == op_jmp) ≡ true → isjump q.op ≡ true
jmp_isjump q h = rw h refl

pub Leads-range : (c : List Instr) (i j : ℕ) → InRange c → i < length c → Leads c i j → j < length c
Leads-range c i j h m (here x) = m
Leads-range c i j h m (jump x y q e o l) =
    Leads-range c q.o1data y h (Targets-get (length c) c x q h e (jmp_isjump q o)) l

retarget_in :
    (c : List Instr) (x y : Instr)
    → InRange c
    → Retargets c x y
    → (isjump x.op ≡ false) ⊎ (x.o1data < length c)
    → (isjump y.op ≡ false) ⊎ (y.o1data < length c)
retarget_in c x y h (inl e) r = subst (λ w. (isjump w.op ≡ false) ⊎ (w.o1data < length c)) (sym e) r
retarget_in c x y h (inr (k, (t, s, l))) r =
    let m = Leads-range c x.o1data t h (in_range (length c) x k r) l in
    inr (subst (λ w. w.o1data < length c) (sym s) m)

all-Targets :
    (c xs ys : List Instr)
    → InRange c
    → AllRetarget c xs ys
    → Targets (length c) xs
    → Targets (length c) ys
all-Targets c [] [] h f g = tt
all-Targets c [] (y ∷ ys) h f g = absurd (cc)
all-Targets c (x ∷ xs) [] h f g = tt
all-Targets c (x ∷ xs) (y ∷ ys) h f g = (retarget_in c x y h f.0 g.0, all-Targets c xs ys h f.1 g.1)

pub all-InRange : (a b : List Instr) → AllRetarget a a b → InRange a → InRange b
all-InRange a b h g = subst (λ n. Targets n b) (sym (all-length a a b h)) (all-Targets a a b g h g)
