-- ===== src/Optimizer.antt =====
-- Three passes of src/uoptim.c over the code of a function: tailcalls, mergejmps and nodeadcode,
-- with the tables of src/uparse.c that they ask. A pass is `none` where it reads or writes outside
-- of the code or uses an uninitialized target.
--
-- The marks that nodeadcode_i keeps in the top bits of o0type and o1type are two lists of Boolean
-- values, one value for each instruction.
pub mod TailCalls
pub mod Jumps
pub mod DeadCode
pub mod Passes
mod Tests
use uncil.Prelude.{
  ℕ, zero, suc, ◌+◌, ◌-◌, Bool, true, false, not, ◌&&◌, ◌||◌, List, [], ◌∷◌, map, Option, none,
  some, ltb, leb, ◌==◌, if◌then◌else◌, length, get_elem?, get_or, set, replicate,
}

-- Unc_QInstr, with the member `o` of the operands' data
pub record Instr : Type 0 where
  pub op : ℕ
  pub o0type : ℕ
  pub o1type : ℕ
  pub o2type : ℕ
  pub o0data : ℕ
  pub o1data : ℕ
  pub o2data : ℕ
  pub lineno : ℕ

abbrev pub op_delete : ℕ
op_delete = 0

abbrev pub op_jmp : ℕ
op_jmp = 16

abbrev pub op_ift : ℕ
op_ift = 17

abbrev pub op_iff : ℕ
op_iff = 18

abbrev pub op_expush : ℕ
op_expush = 24

abbrev pub op_fcall : ℕ
op_fcall = 34

abbrev pub op_inext : ℕ
op_inext = 38

abbrev pub op_inexts : ℕ
op_inexts = 49

abbrev pub op_dcall : ℕ
op_dcall = 57

abbrev pub op_ftail : ℕ
op_ftail = 58

abbrev pub op_dtail : ℕ
op_dtail = 59

abbrev pub op_exit0 : ℕ
op_exit0 = 60

abbrev pub op_exit1 : ℕ
op_exit1 = 61

abbrev pub op_end : ℕ
op_end = 255

-- UNC_QOPER_TYPE_STACK
abbrev pub type_stack : ℕ
type_stack = 11

-- unc0_qcode_isjump, unc0_qcode_isexit and unc0_qcode_getjumpd
abbrev pub isjump : ℕ → Bool
isjump op = (op == op_jmp) || (op == op_iff) || (op == op_ift) || (op == op_expush)

abbrev pub isexit : ℕ → Bool
isexit op = (op == op_end) || (op == op_exit0) || (op == op_exit1)

abbrev pub getjumpd : ℕ → ℕ
getjumpd op = if isjump op then 1 else if (op == op_inext) || (op == op_inexts) then 2 else 0

abbrev pub set_op : ℕ → Instr → Instr
set_op op' q = record q { op = op' }

-- `q->o1data.o = target` and `q->o2data.o = target`, by the number of the operand
abbrev pub set_target : ℕ → ℕ → Instr → Instr
set_target d target q = record q {
  o1data = if d == 1 then target else q.o1data;
  o2data = if d == 2 then target else q.o2data;
}

abbrev pub get_target : ℕ → Instr → Option ℕ
get_target d q = if d == 1 then some q.o1data else if d == 2 then some q.o2data else none

abbrev pub on_head : (Instr → Instr) → List Instr → List Instr
on_head f [] = []
on_head f (q ∷ qs) = f q ∷ qs

-- One turn of the loop of tailcalls, at the instruction before those that are done, with
-- `exited`
unfoldable pub tail_turn : Instr → List Instr × Bool → List Instr × Bool
tail_turn cd (rest, exited) =
    if exited && (cd.op == op_fcall) && (cd.o0type == type_stack)
    then (set_op op_ftail cd ∷ on_head (set_op op_delete) rest, false)
    else if exited && (cd.op == op_dcall) && (cd.o0type == type_stack)
    then (set_op op_dtail cd ∷ on_head (set_op op_delete) rest, false)
    else if cd.op == op_end
    then (cd ∷ rest, true)
    else (cd ∷ rest, false)

unfoldable pub tail_loop : List Instr → List Instr × Bool
tail_loop [] = ([], false)
tail_loop (cd ∷ code) = tail_turn cd (tail_loop code)

-- tailcalls, whose loop starts below the last of no instructions
unfoldable pub tailcalls : List Instr → Option (List Instr)
tailcalls [] = none
tailcalls (cd ∷ code) = some (tail_loop (cd ∷ code)).0

abbrev pub update : (Instr → Instr) → List Instr → ℕ → List Instr
update f [] i = []
update f (q ∷ qs) zero = f q ∷ qs
update f (q ∷ qs) (suc i) = q ∷ update f qs i

-- mergejmps_i: the fuel is 256 - rec, and `outer` tells rec = 0. It gives the code and the target
-- that it returns.
unfoldable pub mergejmps_i : ℕ → Bool → List Instr → ℕ → Option (List Instr × ℕ)
mergejmps_i zero outer qc qi = some (qc, qi)
mergejmps_i (suc fuel) outer qc qi = elim (get_elem? qc qi) [
  | none ↦ none
  | some q ↦ elim (if outer then isjump q.op else q.op == op_jmp) [
    | false ↦ some (qc, qi)
    | true ↦ elim (get_target (getjumpd q.op) q) [
      | none ↦ none
      | some t ↦ elim (mergejmps_i fuel false qc t) [
        | none ↦ none
        | some (qc', target) ↦ some (update (set_target (getjumpd q.op) target) qc' qi, target)
      ]
    ]
  ]
]

-- `for (i = 0; i < n; ++i)` with `count` turns left
unfoldable pub mergejmps_loop : ℕ → ℕ → List Instr → Option (List Instr)
mergejmps_loop zero i code = some code
mergejmps_loop (suc count) i code = elim (get_elem? code i) [
  | none ↦ none
  | some q ↦ elim (isjump q.op) [
    | false ↦ mergejmps_loop count (i + 1) code
    | true ↦ elim (mergejmps_i 256 true code i) [
      | none ↦ none
      | some (code', target) ↦ mergejmps_loop count (i + 1) code'
    ]
  ]
]

unfoldable pub mergejmps : List Instr → Option (List Instr)
mergejmps code = mergejmps_loop (length code) 0 code
