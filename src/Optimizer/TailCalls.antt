-- ===== src/Optimizer/TailCalls.antt =====
-- The tail calls of tailcalls in src/uoptim.c, by a description that reads forwards.
use uncil.Prelude.{
  ◌≡◌, inl, inr, refl, ap, arith, Bool, true, false, ◌&&◌, ◌||◌, List, [], ◌∷◌, some, Bool-cases,
  ◌==◌, if◌then◌else◌,
}
use uncil.Optimizer.{
  Instr, op_delete, op_fcall, op_dcall, op_ftail, op_dtail, op_end, type_stack, set_op, on_head,
  tail_turn, tail_loop, tailcalls,
}

abbrev pub is_end : Instr → Bool
is_end q = q.op == op_end

abbrev pub ends : List Instr → Bool
ends [] = false
ends (q ∷ qs) = is_end q

-- A call whose results go to the stack
abbrev pub is_call : Instr → Bool
is_call q = ((q.op == op_fcall) || (q.op == op_dcall)) && (q.o0type == type_stack)

abbrev pub as_tail : Instr → Instr
as_tail q = set_op (if q.op == op_fcall then op_ftail else op_dtail) q

-- A call directly before END is a tail call, and that END is deleted. `behind_call` tells that the
-- instruction before the list is a call.
abbrev pub with_tails : Bool → List Instr → List Instr
with_tails behind_call [] = []
with_tails behind_call (q ∷ qs) =
    (if is_call q && ends qs
      then as_tail q
      else if behind_call && is_end q
      then set_op op_delete q
      else q)
    ∷ with_tails (is_call q) qs

end_is_no_call : (q : Instr) → is_end q ≡ true → is_call q ≡ false
end_is_no_call q h = ground arith

behind_call :
    (qs : List Instr)
    → ends qs ≡ true
    → on_head (set_op op_delete) (with_tails false qs) ≡ with_tails true qs
behind_call [] h = refl
behind_call (q ∷ qs) h = rw (end_is_no_call q h, h) refl

not_before_end :
    (qs : List Instr) (b : Bool) → ends qs ≡ false → with_tails b qs ≡ with_tails false qs
not_before_end [] b h = refl
not_before_end (q ∷ qs) true h = rw h refl
not_before_end (q ∷ qs) false h = refl

-- The turns by whether the instruction is a call, and which
call_turn :
    (q : Instr) (qs : List Instr)
    → ends qs ≡ true
    → is_call q ≡ true
    → tail_turn q (with_tails false qs, ends qs) ≡ (with_tails false (q ∷ qs), is_end q)
unfolding tail_turn
call_turn q qs e c =
    let k : (q.o0type == type_stack) ≡ true = ground arith in
    let n : is_end q ≡ false = ground arith in
    elim (Bool-cases (q.op == op_fcall)) [
      | inl f ↦ rw (e, k, f, n, behind_call qs e) refl
      | inr f ↦
          let d : (q.op == op_dcall) ≡ true = ground arith in
          rw (e, k, f, d, n, behind_call qs e) refl
    ]

other_turn :
    (q : Instr) (qs : List Instr)
    → is_call q ≡ false
    → tail_turn q (with_tails false qs, ends qs) ≡ (with_tails false (q ∷ qs), is_end q)
unfolding tail_turn
other_turn q qs c =
    let f : (ends qs && (q.op == op_fcall) && (q.o0type == type_stack)) ≡ false = ground arith in
    let d : (ends qs && (q.op == op_dcall) && (q.o0type == type_stack)) ≡ false = ground arith in
    rw (f, d, c) (elim (Bool-cases (is_end q)) [ inl n ↦ rw n refl | inr n ↦ rw n refl ])

before_other :
    (q : Instr) (qs : List Instr)
    → ends qs ≡ false
    → tail_turn q (with_tails false qs, ends qs) ≡ (with_tails false (q ∷ qs), is_end q)
unfolding tail_turn
before_other q qs e =
    rw (e, not_before_end qs (is_call q) e)
      (elim (Bool-cases (is_end q)) [
        | inl n ↦ let c = end_is_no_call q n in rw (c, n) refl
        | inr n ↦ elim (Bool-cases (is_call q)) [ inl c ↦ rw (c, n) refl | inr c ↦ rw (c, n) refl ]
      ])

turn :
    (q : Instr) (qs : List Instr)
    → tail_turn q (with_tails false qs, ends qs) ≡ (with_tails false (q ∷ qs), is_end q)
turn q qs = elim (Bool-cases (ends qs)) [
  | inl e ↦ elim (Bool-cases (is_call q)) [ inl c ↦ call_turn q qs e c | inr c ↦ other_turn q qs c ]
  | inr e ↦ before_other q qs e
]

loop : (qs : List Instr) → tail_loop qs ≡ (with_tails false qs, ends qs)
unfolding tail_loop
loop [] = refl
loop (q ∷ qs) = rw (loop qs) (turn q qs)

-- In a code of at least one instruction, tailcalls turns each FCALL and DCALL to the stack
-- that stands directly before an END into FTAIL or DTAIL, deletes that END, and changes
-- nothing else.
pub tailcalls-with_tails :
    (q : Instr) (code : List Instr) → tailcalls (q ∷ code) ≡ some (with_tails false (q ∷ code))
unfolding tailcalls
tailcalls-with_tails q code = ap (λ r. some r.0) (loop (q ∷ code))
