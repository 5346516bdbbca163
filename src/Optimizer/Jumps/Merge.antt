-- ===== src/Optimizer/Jumps/Merge.antt =====
-- What mergejmps of src/uoptim.c does to the jumps of a code.
use uncil.Prelude.{
  ℕ, zero, suc, ◌+◌, ◌≤◌, ◌<◌, ◌≡◌, inl, inr, refl, ap, ◌∙◌, arith, Bool, true, false, List, [],
  ◌∷◌, some, Bool-cases, ◌==◌, if◌then◌else◌, length, get_elem?,
}
use uncil.Optimizer.{
  Instr, isjump, getjumpd, op_jmp, set_target, update, mergejmps_i, mergejmps_loop, mergejmps,
}
use uncil.Optimizer.Jumps.{Leads, here, jump, InRange, AllRetarget}
use uncil.Optimizer.Jumps.Retarget.{
  all_same, all-length, all_trans, all-update, Targets-get, jmp_isjump, all-InRange,
}

pub get-below :
    {A : Type 0} (xs : List A) (i : ℕ) → i < length xs → (x : A) × (get_elem? xs i ≡ some x)
get-below [] i h = absurd (omega arith)
get-below (x ∷ xs) zero h = (x, refl)
get-below (x ∷ xs) (suc i) h = get-below xs i (omega arith)

pub jump_turn :
    (fuel : ℕ) (outer : Bool) (c : List Instr) (i : ℕ) (q : Instr) (c' : List Instr) (t : ℕ)
    → get_elem? c i ≡ some q
    → (if outer then isjump q.op else q.op == op_jmp) ≡ true
    → isjump q.op ≡ true
    → mergejmps_i fuel false c q.o1data ≡ some (c', t)
    → mergejmps_i (suc fuel) outer c i ≡ some (update (set_target 1 t) c' i, t)
unfolding mergejmps_i
jump_turn fuel outer c i q c' t e f k r =
    let d : getjumpd q.op ≡ 1 = rw k refl in
    rw (mergejmps_i, e, f, d, r) (ap (λ o. some (update (set_target o t) c' i, t)) d)

pub other_turn :
    (fuel : ℕ) (outer : Bool) (c : List Instr) (i : ℕ) (q : Instr)
    → get_elem? c i ≡ some q
    → (if outer then isjump q.op else q.op == op_jmp) ≡ false
    → mergejmps_i (suc fuel) outer c i ≡ some (c, i)
unfolding mergejmps_i
other_turn fuel outer c i q e f = rw (mergejmps_i, e, f) refl

-- Behind the first instruction of a chain
pub inner :
    (fuel : ℕ) (c : List Instr) (i : ℕ)
    → InRange c
    → i < length c
    → (c' : List Instr) × (t : ℕ) × (mergejmps_i fuel false c i ≡ some (c', t))
      × AllRetarget c c c'
      × Leads c i t
unfolding mergejmps_i
inner zero c i h m = (c, i, refl, all_same c c, here i)
inner (suc fuel) c i h m =
    let (q, e) = get-below c i m in
    elim (Bool-cases (q.op == op_jmp)) [
      | inl o ↦
          let k = jmp_isjump q o in
          let (c', t, r, a, l) = inner fuel c q.o1data h (Targets-get (length c) c i q h e k) in
          (
            update (set_target 1 t) c' i,
            t,
            jump_turn fuel false c i q c' t e o k r,
            all-update c c c' i t q a e k l,
            jump i t q e o l,
          )
      | inr o ↦ (c, i, other_turn fuel false c i q e o, all_same c c, here i)
    ]

-- A turn of the loop of mergejmps at a jump
pub outer :
    (fuel : ℕ) (c : List Instr) (i : ℕ) (q : Instr)
    → InRange c
    → get_elem? c i ≡ some q
    → isjump q.op ≡ true
    → (c' : List Instr) × (t : ℕ) × (mergejmps_i (suc fuel) true c i ≡ some (c', t))
      × AllRetarget c c c'
outer fuel c i q h e k =
    let (c', t, r, a, l) = inner fuel c q.o1data h (Targets-get (length c) c i q h e k) in
    (
      update (set_target 1 t) c' i,
      t,
      jump_turn fuel true c i q c' t e k k r,
      all-update c c c' i t q a e k l,
    )

pub loop_jump :
    (count i : ℕ) (c : List Instr) (q : Instr) (c' : List Instr) (t : ℕ)
    → get_elem? c i ≡ some q
    → isjump q.op ≡ true
    → mergejmps_i 256 true c i ≡ some (c', t)
    → mergejmps_loop (suc count) i c ≡ mergejmps_loop count (i + 1) c'
unfolding mergejmps_loop
loop_jump count i c q c' t e k r = rw (mergejmps_loop, e, k, r) refl

pub loop_other :
    (count i : ℕ) (c : List Instr) (q : Instr)
    → get_elem? c i ≡ some q
    → isjump q.op ≡ false
    → mergejmps_loop (suc count) i c ≡ mergejmps_loop count (i + 1) c
unfolding mergejmps_loop
loop_other count i c q e k = rw (mergejmps_loop, e, k) refl

pub loop :
    (count i : ℕ) (c : List Instr)
    → InRange c
    → i + count ≤ length c
    → (c' : List Instr) × (mergejmps_loop count i c ≡ some c') × AllRetarget c c c'
unfolding mergejmps_loop
loop zero i c h m = (c, refl, all_same c c)
loop (suc count) i c h m =
    let (q, e) = get-below c i (omega arith) in
    elim (Bool-cases (isjump q.op)) [
      | inl k ↦
          let (c', t, r, a) = outer 255 c i q h e k in
          let f = all-length c c c' a in
          let (d, s, b) = loop count (i + 1) c' (all-InRange c c' a h) (omega (arith, f)) in
          (d, loop_jump count i c q c' t e k r ∙ s, all_trans c c' c c' d a a b)
      | inr k ↦
          let (d, s, b) = loop count (i + 1) c h (omega arith) in
          (d, loop_other count i c q e k ∙ s, b)
    ]

-- If the targets of all jumps are in the code, mergejmps reads and writes inside of it, and
-- each instruction stays as it is, but a jump may get another target, to which JMP
-- instructions lead from its old one.
pub mergejmps-Leads :
    (code : List Instr)
    → InRange code
    → (code' : List Instr) × (mergejmps code ≡ some code') × AllRetarget code code code'
unfolding mergejmps
mergejmps-Leads code h = loop (length code) 0 code h (omega arith)
