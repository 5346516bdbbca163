-- ===== src/Optimizer/Jumps.antt =====
-- The chains of jumps that mergejmps of src/uoptim.c shortens.
pub mod Retarget
pub mod Chain
pub mod Merge
use uncil.Prelude.{
  ℕ, suc, ◌≤◌, ◌<◌, ◌≡◌, ◌⊎◌, inl, inr, refl, Bool, true, false, List, [], ◌∷◌, some, ◌==◌, length,
  get_elem?,
}
use uncil.Optimizer.{Instr, isjump, op_jmp, set_target}

-- From i, some JMP instructions in a row lead to j.
pub data Leads (code : List Instr) : ℕ → ℕ → Type 0 where
  here : (i : ℕ) → Leads code i i
  jump :
      (i j : ℕ) (q : Instr)
      → get_elem? code i ≡ some q
      → (q.op == op_jmp) ≡ true
      → Leads code q.o1data j
      → Leads code i j

-- From i, n JMP instructions in a row lead to j, which is another instruction.
pub data Ends (code : List Instr) : ℕ → ℕ → ℕ → Type 0 where
  last :
      (i : ℕ) (q : Instr) → get_elem? code i ≡ some q → (q.op == op_jmp) ≡ false → Ends code 0 i i
  more :
      (n i j : ℕ) (q : Instr)
      → get_elem? code i ≡ some q
      → (q.op == op_jmp) ≡ true
      → Ends code n q.o1data j
      → Ends code (suc n) i j

-- The target of every jump is in the code.
abbrev pub Targets : ℕ → List Instr → Type 0
Targets n [] = Unit {0}
Targets n (q ∷ qs) = ((isjump q.op ≡ false) ⊎ (q.o1data < n)) × Targets n qs

abbrev pub InRange : List Instr → Type 0
InRange code = Targets (length code) code

-- An instruction is as before, or a jump whose target the old one leads to.
abbrev pub Retargets : List Instr → Instr → Instr → Type 0
Retargets code q q' =
    (q' ≡ q) ⊎ ((isjump q.op ≡ true) × ((t : ℕ) × (q' ≡ set_target 1 t q) × Leads code q.o1data t))

abbrev pub AllRetarget : List Instr → List Instr → List Instr → Type 0
AllRetarget code [] [] = Unit {0}
AllRetarget code [] (q ∷ qs) = true ≡ false
AllRetarget code (q ∷ qs) [] = true ≡ false
AllRetarget code (q ∷ qs) (q' ∷ qs') = Retargets code q q' × AllRetarget code qs qs'
