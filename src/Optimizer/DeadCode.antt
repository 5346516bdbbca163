-- ===== src/Optimizer/DeadCode.antt =====
-- Dead code elimination: nodeadcode_i and nodeadcode of src/uoptim.c.
pub mod Marking
pub mod Visit
pub mod Scan
pub mod Exact
pub mod Repeat
use uncil.Prelude.{
  ℕ, zero, suc, ◌+◌, ◌<◌, ◌≡◌, Bool, true, false, not, ◌&&◌, ◌||◌, List, [], ◌∷◌, Option, none,
  some, ltb, ◌==◌, if◌then◌else◌, length, get_elem?, set, replicate,
}
use uncil.Optimizer.{Instr, isjump, isexit, getjumpd, get_target, set_op, op_jmp, op_delete}

-- The top bits of o0type (MARK) and of o1type (PMARK). They are kept apart from the operand types,
-- which are below 128 after parsing (UNC_QOPER_TYPE_* of uparse.h), so that UNMARK, which clears
-- these bits, leaves the types as they are.
pub record Marks : Type 0 where
  pub marked : List Bool
  pub pending : List Bool

-- UNMARK, of all instructions
abbrev pub unmark_all : ℕ → Marks
unmark_all n = record { marked = replicate n false; pending = replicate n false }

-- MARK clears PMARK.
abbrev pub mark : Marks → ℕ → Marks
mark m i = record { marked = set m.marked i true; pending = set m.pending i false }

abbrev pub pmark : Marks → ℕ → Marks
pmark m i = record { marked = m.marked; pending = set m.pending i true }

-- `++i` and `i < n` of the loop
abbrev pub next : List Instr → ℕ → Option ℕ
next code i = if ltb (i + 1) (length code) then some (i + 1) else none

-- What a conditional jump does to its target
unfoldable pub visit_target : Marks → ℕ → Option Marks
visit_target m target = elim (get_elem? m.marked target) [
  | none ↦ none
  | some b ↦ some (if b then m else pmark m target)
]

-- A marked jump: the marks and where the scan goes on
unfoldable pub visit_jump : List Instr → Marks → ℕ → Instr → Option (Marks × Option ℕ)
visit_jump code m i q = elim (get_target (getjumpd q.op) q) [
  | none ↦ none
  | some target ↦ elim (q.op == op_jmp) [
    | true ↦ some (m, if ltb i target then some target else next code i)
    | false ↦ elim (visit_target m target) [ none ↦ none | some m' ↦ some (m', next code i) ]
  ]
]

-- From `nodeadcode_again` on, at the instruction i
unfoldable pub visit : List Instr → Marks → ℕ → Option (Marks × Option ℕ)
visit code m i = elim (get_elem? code i) [
  | none ↦ none
  | some q ↦ elim (isjump q.op) [
    | true ↦ visit_jump code (mark m i) i q
    | false ↦ some (mark m i, if isexit q.op then none else next code i)
  ]
]

-- The loop up to its end or to `break`; the fuel bounds the instructions that it visits.
unfoldable pub scan : ℕ → List Instr → Marks → ℕ → Option Marks
scan zero code m i = none
scan (suc fuel) code m i = elim (visit code m i) [
  | none ↦ none
  | some (m', none) ↦ some m'
  | some (m', some j) ↦ scan fuel code m' j
]

abbrev pub first_true : List Bool → Option ℕ
first_true [] = none
first_true (true ∷ bs) = some 0
first_true (false ∷ bs) = elim (first_true bs) [ none ↦ none | some i ↦ some (suc i) ]

-- The scans from the instructions with a pending mark, as long as there are any
unfoldable pub scan_pending : ℕ → List Instr → Marks → Option Marks
scan_pending zero code m = none
scan_pending (suc fuel) code m = elim (first_true m.pending) [
  | none ↦ some m
  | some i ↦ elim (scan (length code) code m i) [
    | none ↦ none
    | some m' ↦ scan_pending fuel code m'
  ]
]

-- The last loop, with `ret`
unfoldable pub sweep : List Instr → List Bool → List Instr × Bool
sweep [] bs = ([], false)
sweep (q ∷ qs) [] = (q ∷ qs, false)
sweep (q ∷ qs) (b ∷ bs) =
    let rest = sweep qs bs in
    if b
    then (q ∷ rest.0, rest.1)
    else (set_op op_delete q ∷ rest.0, not (q.op == op_delete) || rest.1)

unfoldable pub nodeadcode_i : List Instr → Option (List Instr × Bool)
nodeadcode_i [] = some ([], false)
nodeadcode_i (q ∷ qs) =
    let code = q ∷ qs in
    elim (scan (length code) code (unmark_all (length code)) 0) [
      | none ↦ none
      | some m ↦ elim (scan_pending (suc (length code)) code m) [
        | none ↦ none
        | some m' ↦ some (sweep code m'.marked)
      ]
    ]

-- `while (--cycles && nodeadcode_i(cxt, fn));` with `cycles` less 1
unfoldable pub nodeadcode_loop : ℕ → List Instr → Option (List Instr)
nodeadcode_loop zero code = some code
nodeadcode_loop (suc cycles) code = elim (nodeadcode_i code) [
  | none ↦ none
  | some (code', again) ↦ elim again [ true ↦ nodeadcode_loop cycles code' | false ↦ some code' ]
]

unfoldable pub nodeadcode : List Instr → Option (List Instr)
nodeadcode code = nodeadcode_loop 7 code

-- Where the pass goes on from an instruction: a conditional jump goes both ways, and JMP goes to
-- its target if that stands behind it.
pub data Goes (code : List Instr) : ℕ → ℕ → Type 0 where
  falls :
      (i : ℕ) (q : Instr)
      → get_elem? code i ≡ some q
      → (isexit q.op || ((q.op == op_jmp) && ltb i q.o1data)) ≡ false
      → i + 1 < length code
      → Goes code i (i + 1)
  branches :
      (i : ℕ) (q : Instr)
      → get_elem? code i ≡ some q
      → isjump q.op ≡ true
      → (q.op == op_jmp) ≡ false
      → Goes code i q.o1data
  leaps :
      (i : ℕ) (q : Instr)
      → get_elem? code i ≡ some q
      → (q.op == op_jmp) ≡ true
      → i < q.o1data
      → Goes code i q.o1data

pub data Reach (code : List Instr) : ℕ → Type 0 where
  start : Reach code 0
  step : (i j : ℕ) → Reach code i → Goes code i j → Reach code j
