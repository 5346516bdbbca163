-- ===== src/Optimizer/Passes.antt =====
-- The passes of unc0_optqcode of src/uoptim.c behind reducetmp, one after the other.
use uncil.Prelude.{
  ℕ, suc, ◌≡◌, inl, inr, refl, sym, ap, subst, ◌∙◌, Bool, false, ◌&&◌, List, [], ◌∷◌, Option, none,
  some, Bool-cases, ◌==◌, length,
}
use uncil.Optimizer.{Instr, isjump, op_fcall, tailcalls, mergejmps}
use uncil.Optimizer.TailCalls.{is_call, is_end, ends, as_tail, with_tails, tailcalls-with_tails}
use uncil.Optimizer.Jumps.{Targets, InRange}
use uncil.Optimizer.Jumps.Retarget.{all-length, all-InRange}
use uncil.Optimizer.Jumps.Merge.{mergejmps-Leads}
use uncil.Optimizer.DeadCode.{nodeadcode}
use uncil.Optimizer.DeadCode.Repeat.{Swept-length, Swept-Targets, nodeadcode-Reach}

-- The body of the loop over the functions
unfoldable pub optimize : List Instr → Option (List Instr)
optimize code = elim (tailcalls code) [
  | none ↦ none
  | some a ↦ elim (mergejmps a) [ none ↦ none | some b ↦ nodeadcode b ]
]

length-with_tails : (b : Bool) (code : List Instr) → length (with_tails b code) ≡ length code
length-with_tails b [] = refl
length-with_tails b (q ∷ qs) = ap suc (length-with_tails (is_call q) qs)

as_tail_no_jump : (q : Instr) → isjump (as_tail q).op ≡ false
as_tail_no_jump q = elim (Bool-cases (q.op == op_fcall)) [ inl e ↦ rw e refl | inr e ↦ rw e refl ]

with_tails-Targets :
    (n : ℕ) (b : Bool) (code : List Instr) → Targets n code → Targets n (with_tails b code)
with_tails-Targets n b [] h = tt
with_tails-Targets n b (q ∷ qs) h =
    let rest = with_tails-Targets n (is_call q) qs h.1 in
    elim (Bool-cases (is_call q && ends qs)) [
      | inl e ↦ rw e (inl (as_tail_no_jump q), rest)
      | inr e ↦ elim (Bool-cases (b && is_end q)) [
        | inl f ↦ rw (e, f) (inl refl, rest)
        | inr f ↦ rw (e, f) (h.0, rest)
      ]
    ]

-- If the code has an instruction and the targets of all its jumps are in it, the three passes
-- one after the other never read or write outside of it, and give a code of as many
-- instructions whose jumps have their targets in it.
pub optimize-InRange :
    (q : Instr) (code : List Instr)
    → InRange (q ∷ code)
    → (code' : List Instr) × (optimize (q ∷ code) ≡ some code')
      × (length code' ≡ length (q ∷ code))
      × InRange code'
unfolding optimize
optimize-InRange q code h =
    let a = with_tails false (q ∷ code) in
    let l = length-with_tails false (q ∷ code) in
    let t = with_tails-Targets (length (q ∷ code)) false (q ∷ code) h in
    let i : InRange a = subst (λ (n : ℕ). Targets n a) (sym l) t in
    let (b, e, r) = mergejmps-Leads a i in
    let i' = all-InRange a b r i in
    let (c, f, s) = nodeadcode-Reach b i' in
    let m = Swept-length b b c 0 s in
    (
      c,
      rw (optimize, tailcalls-with_tails q code, e) f,
      m ∙ all-length a a b r ∙ l,
      subst (λ (n : ℕ). Targets n c) (sym m) (Swept-Targets b b c 0 (length b) s i'),
    )
