-- ===== src/Optimizer/Tests.antt =====
-- The passes of the optimizer at small codes.
use uncil.Prelude.{ℕ, ◌≡◌, inl, inr, refl, arith, false, List, [], ◌∷◌, some, get_elem?, length}
use uncil.Optimizer.{
  Instr, op_delete, op_jmp, op_ift, op_fcall, op_ftail, op_inext, op_exit0, op_end, type_stack,
  tailcalls, tail_loop, tail_turn, mergejmps, mergejmps_loop, mergejmps_i,
}
use uncil.Optimizer.TailCalls.{with_tails, tailcalls-with_tails}
use uncil.Optimizer.Jumps.{last, more, InRange, AllRetarget}
use uncil.Optimizer.Jumps.Merge.{mergejmps-Leads}
use uncil.Optimizer.Jumps.Chain.{mergejmps-Ends}
use uncil.Optimizer.DeadCode.{
  nodeadcode, nodeadcode_loop, nodeadcode_i, scan, scan_pending, visit, visit_jump, visit_target,
  sweep,
}
use uncil.Optimizer.DeadCode.Exact.{Swept}
use uncil.Optimizer.DeadCode.Repeat.{nodeadcode-Reach}
use uncil.Optimizer.Passes.{optimize, optimize-InRange}

-- An instruction with its operation, the type of operand 0 and the data of operands 1 and 2
abbrev instr : ℕ → ℕ → ℕ → ℕ → Instr
instr o t a b = record {
  op = o;
  o0type = t;
  o1type = 0;
  o2type = 0;
  o0data = 0;
  o1data = a;
  o2data = b;
  lineno = 1;
}

abbrev call_code : List Instr
call_code = instr op_ift 0 2 0 ∷ instr op_fcall type_stack 0 0 ∷ instr op_end 0 0 0 ∷ []

tailcalls_call :
    tailcalls call_code
    ≡ some (instr op_ift 0 2 0 ∷ instr op_ftail type_stack 0 0 ∷ instr op_delete 0 0 0 ∷ [])
unfolding tailcalls tail_loop tail_turn
tailcalls_call = refl

tailcalls-with_tails_example : tailcalls call_code ≡ some (with_tails false call_code)
tailcalls-with_tails_example =
    tailcalls-with_tails (instr op_ift 0 2 0)
      (instr op_fcall type_stack 0 0 ∷ instr op_end 0 0 0 ∷ [])

-- 0: IFT 3, 1: MOV, 2: JMP 4, 3: JMP 2, 4: END
abbrev jump_code : List Instr
jump_code =
    instr op_ift 0 3 0
    ∷ instr 1 0 0 0
    ∷ instr op_jmp 0 4 0
    ∷ instr op_jmp 0 2 0
    ∷ instr op_end 0 0 0
    ∷ []

mergejmps_jumps :
    mergejmps jump_code
    ≡ some (
        instr op_ift 0 4 0
        ∷ instr 1 0 0 0
        ∷ instr op_jmp 0 4 0
        ∷ instr op_jmp 0 4 0
        ∷ instr op_end 0 0 0
        ∷ [])
unfolding mergejmps mergejmps_loop mergejmps_i
mergejmps_jumps = refl

jump_code-InRange : InRange jump_code
jump_code-InRange =
    (inr (omega arith), (inl refl, (inr (omega arith), (inr (omega arith), (inl refl, tt)))))

mergejmps-Leads_example :
    (code' : List Instr) × (mergejmps jump_code ≡ some code')
    × AllRetarget jump_code jump_code code'
mergejmps-Leads_example = mergejmps-Leads jump_code jump_code-InRange

mergejmps-Ends_example :
    (code' : List Instr) × (mergejmps jump_code ≡ some code')
    × (get_elem? code' 0 ≡ some (instr op_ift 0 4 0))
mergejmps-Ends_example =
    mergejmps-Ends jump_code 0 (instr op_ift 0 3 0) 2 4 jump_code-InRange refl refl
      (more 1 3 4 (instr op_jmp 0 2 0) refl refl
        (more 0 2 4 (instr op_jmp 0 4 0) refl refl (last 4 (instr op_end 0 0 0) refl refl)))
      (omega arith)

-- What stands behind the JMP is deleted.
nodeadcode_jumps :
    nodeadcode (instr op_jmp 0 2 0 ∷ instr 1 0 0 0 ∷ instr op_end 0 0 0 ∷ [])
    ≡ some (instr op_jmp 0 2 0 ∷ instr op_delete 0 0 0 ∷ instr op_end 0 0 0 ∷ [])
unfolding nodeadcode nodeadcode_loop nodeadcode_i scan scan_pending visit visit_jump visit_target
    sweep
nodeadcode_jumps = refl

-- INEXT goes to its operand 2 when the iterator has no more values, but the pass does not follow
-- it: of a loop whose body returns, the code behind the loop is deleted.
nodeadcode_inext :
    nodeadcode
      (instr op_inext 0 0 2 ∷ instr op_exit0 0 0 0 ∷ instr 1 0 0 0 ∷ instr op_end 0 0 0 ∷ [])
    ≡ some (
        instr op_inext 0 0 2
        ∷ instr op_exit0 0 0 0
        ∷ instr op_delete 0 0 0
        ∷ instr op_delete 0 0 0
        ∷ [])
unfolding nodeadcode nodeadcode_loop nodeadcode_i scan scan_pending visit visit_jump visit_target
    sweep
nodeadcode_inext = refl

-- 0: JMP 2, 1: END, 2: JMP 1, 3: END. The END at 1 is where the code ends.
nodeadcode_backward :
    nodeadcode
      (instr op_jmp 0 2 0 ∷ instr op_end 0 0 0 ∷ instr op_jmp 0 1 0 ∷ instr op_end 0 0 0 ∷ [])
    ≡ some
        (instr op_jmp 0 2 0 ∷ instr op_delete 0 0 0 ∷ instr op_jmp 0 1 0 ∷ instr op_end 0 0 0 ∷ [])
unfolding nodeadcode nodeadcode_loop nodeadcode_i scan scan_pending visit visit_jump visit_target
    sweep
nodeadcode_backward = refl

nodeadcode-Reach_example :
    (code' : List Instr) × (nodeadcode jump_code ≡ some code') × Swept jump_code 0 jump_code code'
nodeadcode-Reach_example = nodeadcode-Reach jump_code jump_code-InRange

optimize-InRange_example :
    (code' : List Instr) × (optimize jump_code ≡ some code')
    × (length code' ≡ length jump_code)
    × InRange code'
optimize-InRange_example =
    optimize-InRange (instr op_ift 0 3 0)
      (instr 1 0 0 0 ∷ instr op_jmp 0 4 0 ∷ instr op_jmp 0 2 0 ∷ instr op_end 0 0 0 ∷ [])
      jump_code-InRange
