-- ===== src/Optimizer/DeadCode/Repeat.antt =====
-- The repeated passes of nodeadcode.
use uncil.Prelude.{
  ℕ, zero, suc, ◌+◌, ◌<◌, ◌≡◌, ◌⊎◌, inl, inr, refl, sym, ap, subst, ◌∙◌, arith, false, List, [],
  ◌∷◌, some, Bool-cases, length, get_elem?,
}
use uncil.Optimizer.{Instr, isjump, op_delete, set_op}
use uncil.Optimizer.Jumps.{Targets, InRange}
use uncil.Optimizer.DeadCode.{
  nodeadcode_loop, nodeadcode, Goes, falls, branches, leaps, Reach, start, step,
}
use uncil.Optimizer.DeadCode.Exact.{Swept, nodeadcode_i-Reach}

pub Swept-length : (code xs ys : List Instr) (i : ℕ) → Swept code i xs ys → length ys ≡ length xs
Swept-length code [] [] i h = refl
Swept-length code [] (y ∷ ys) i h = absurd (cc)
Swept-length code (x ∷ xs) [] i h = absurd (cc)
Swept-length code (x ∷ xs) (y ∷ ys) i h = ap suc (Swept-length code xs ys (suc i) h.1)

-- A reached instruction is the same in both.
reached_same :
    (code xs ys : List Instr) (i k : ℕ)
    → Swept code i xs ys
    → Reach code (i + k)
    → get_elem? ys k ≡ get_elem? xs k
reached_same code [] [] i k h r = refl
reached_same code [] (y ∷ ys) i k h r = absurd (cc)
reached_same code (x ∷ xs) [] i k h r = absurd (cc)
reached_same code (x ∷ xs) (y ∷ ys) i zero h r =
    let z : i + 0 ≡ i = omega arith in
    elim h.0 [ inl w ↦ ap some w.0 | inr w ↦ absurd (w.1 (subst (λ (n : ℕ). Reach code n) z r)) ]
reached_same code (x ∷ xs) (y ∷ ys) i (suc k) h r =
    let z : i + suc k ≡ suc i + k = omega arith in
    reached_same code xs ys (suc i) k h.1 (subst (λ (n : ℕ). Reach code n) z r)

Goes-same :
    (a b : List Instr) (i j : ℕ)
    → length b ≡ length a
    → get_elem? b i ≡ get_elem? a i
    → Goes a i j
    → Goes b i j
Goes-same a b i j l e (falls x q f o m) = falls x q (e ∙ f) o (omega (arith, l, m))
Goes-same a b i j l e (branches x q f k o) = branches x q (e ∙ f) k o
Goes-same a b i j l e (leaps x q f o m) = leaps x q (e ∙ f) o m

same_here : (a b : List Instr) (i : ℕ) → Swept a 0 a b → Reach a i → get_elem? b i ≡ get_elem? a i
same_here a b i h r =
    let z : i ≡ 0 + i = omega arith in reached_same a a b 0 i h (subst (λ (n : ℕ). Reach a n) z r)

Reach-new : (a b : List Instr) (i : ℕ) → Swept a 0 a b → Reach a i → Reach b i
Reach-new a b i h start = start
Reach-new a b i h (step x y r g) =
    step x y (Reach-new a b x h r)
      (Goes-same a b x y (Swept-length a a b 0 h) (same_here a b x h r) g)

Reach-old : (a b : List Instr) (i : ℕ) → Swept a 0 a b → Reach b i → Reach a i
Reach-old a b i h start = start
Reach-old a b i h (step x y r g) =
    let r' = Reach-old a b x h r in
    step x y r' (Goes-same b a x y (sym (Swept-length a a b 0 h)) (sym (same_here a b x h r')) g)

pub Swept-Targets :
    (code xs ys : List Instr) (i n : ℕ) → Swept code i xs ys → Targets n xs → Targets n ys
Swept-Targets code [] [] i n h t = tt
Swept-Targets code [] (y ∷ ys) i n h t = absurd (cc)
Swept-Targets code (x ∷ xs) [] i n h t = tt
Swept-Targets code (x ∷ xs) (y ∷ ys) i n h t =
    let rest = Swept-Targets code xs ys (suc i) n h.1 t.1 in
    elim h.0 [
      | inl w ↦ (subst (λ q. (isjump q.op ≡ false) ⊎ (q.o1data < n)) (sym w.0) t.0, rest)
      | inr w ↦ (subst (λ q. (isjump q.op ≡ false) ⊎ (q.o1data < n)) (sym w.0) (inl refl), rest)
    ]

-- Another pass finds nothing to change.
Swept-again :
    (a b xs ys zs : List Instr) (i : ℕ)
    → Swept a 0 a b
    → Swept a i xs ys
    → Swept b i ys zs
    → zs ≡ ys
Swept-again a b [] [] [] i h f g = refl
Swept-again a b [] [] (z ∷ zs) i h f g = absurd (cc)
Swept-again a b [] (y ∷ ys) zs i h f g = absurd (cc)
Swept-again a b (x ∷ xs) [] zs i h f g = absurd (cc)
Swept-again a b (x ∷ xs) (y ∷ ys) [] i h f g = absurd (cc)
Swept-again a b (x ∷ xs) (y ∷ ys) (z ∷ zs) i h f g =
    let rest = Swept-again a b xs ys zs (suc i) h f.1 g.1 in
    elim g.0 [
      | inl w ↦ rw (w.0, rest) refl
      | inr w ↦ elim f.0 [
        | inl v ↦ absurd (w.1 (Reach-new a b i h v.1))
        | inr v ↦ let e : z ≡ y = w.0 ∙ ap (set_op op_delete) v.0 ∙ sym v.0 in rw (e, rest) refl
      ]
    ]

loop_same :
    (cycles : ℕ) (b : List Instr)
    → ((c : List Instr) → Swept b 0 b c → c ≡ b)
    → InRange b
    → nodeadcode_loop cycles b ≡ some b
unfolding nodeadcode_loop
loop_same zero b f h = refl
loop_same (suc cycles) b f h =
    let (c, again, e, s) = nodeadcode_i-Reach b h in
    let z = f c s in
    elim (Bool-cases again) [
      | inl y ↦ rw (nodeadcode_loop, e, y, z) (loop_same cycles b f h)
      | inr y ↦ rw (nodeadcode_loop, e, y, z) refl
    ]

-- If the targets of all jumps are in the code, nodeadcode ends and reads and writes inside of
-- the code; it keeps the instructions that are reached from the first one over the edges
-- `Goes`, and turns all others into DELETE.
pub nodeadcode-Reach :
    (code : List Instr)
    → InRange code
    → (code' : List Instr) × (nodeadcode code ≡ some code') × Swept code 0 code code'
unfolding nodeadcode nodeadcode_loop
nodeadcode-Reach code h =
    let (b, again, e, s) = nodeadcode_i-Reach code h in
    let h' : InRange b =
      subst (λ (n : ℕ). Targets n b) (sym (Swept-length code code b 0 s))
        (Swept-Targets code code b 0 (length code) s h) in
    let same = loop_same 6 b (λ c t. Swept-again code b code b c 0 s s t) h' in
    (
      b,
      elim (Bool-cases again) [
        | inl y ↦ rw (nodeadcode_loop, e, y) same
        | inr y ↦ rw (nodeadcode_loop, e, y) refl
      ],
      s,
    )
