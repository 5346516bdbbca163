-- ===== src/Stack/Sound.antt =====
-- The calls of src/ustack.c whose arguments are in the stack.
use uncil.Prelude.{
  ℕ, ◌≤◌, ◌<◌, ◌^◌, ◌≡◌, refl, arith, Bool, true, false, ◌||◌, [], ◌∷◌, ◌++◌, ◌-◌, take, drop, none,
  some, ltb, leb, if◌then◌else◌, length,
}
use uncil.Stack.{
  Stack, StackResult, reserved, shorten, push, pushn, insertm, insertn, restoredepth, pullrug, pop,
  free, Op, op_push, op_pushn, op_insertm, op_insertn, op_restoredepth, op_pullrug, op_pop, op_free,
  run,
}
use uncil.Stack.Balance.{Balanced, run-Balanced}
use uncil.Stack.Fits.{Fits, brings, run-Fits}

-- The depths and indices of a call are in the stack.
abbrev pub Within : {V : Type 0} → Op V → Stack V → Type 0
Within (op_insertm i vs) s = i ≤ length s.values
Within (op_insertn i v) s = i ≤ length s.values
Within (op_restoredepth d) s = d ≤ length s.values
Within (op_pullrug d e) s = (d ≤ e) × (e ≤ length s.values)
Within (op_pop n) s = n ≤ length s.values
Within _ s = Unit {0}

below : (a b : ℕ) → a ≤ b → leb a b ≡ true
below a b h = ground arith

module _ {V : Type 0} (room : ℕ → Bool) (null : V) where
  defined :
      (b c : Bool) (r : StackResult V)
      → b ≡ true
      → (o : StackResult V) × ((if b || c then some r else none) ≡ some o)
  defined true c r h = (r, refl)
  defined false c r h = absurd (cc)

  run_inside :
      (op : Op V) (s : Stack V) → Within op s → (o : StackResult V) × (run room null op s ≡ some o)
  unfolding run insertm insertn restoredepth pullrug pop
  run_inside (op_push vs) s h = (push room vs s, refl)
  run_inside (op_pushn n) s h = (pushn room null n s, refl)
  run_inside (op_insertm i vs) s h =
      let r = reserved room (length vs) (take i s.values ++ vs ++ drop i s.values) vs s in
      defined (leb i (length s.values)) r.failed r (below i (length s.values) h)
  run_inside (op_insertn i v) s h =
      let d = length s.values - i in
      let r = reserved room 1 (take d s.values ++ (v ∷ []) ++ drop d s.values) (v ∷ []) s in
      defined (leb i (length s.values)) r.failed r (below i (length s.values) h)
  run_inside (op_restoredepth d) s h =
      (shorten (take d s.values) (drop d s.values) s, rw (below d (length s.values) h) refl)
  run_inside (op_pullrug d e) s h =
      let x : ltb (length s.values) e ≡ false = ground (arith, h.1) in
      let y : ltb e d ≡ false = ground (arith, h.0) in
      (shorten (take d s.values ++ drop e s.values) (drop d (take e s.values)) s, rw (x, y) refl)
  run_inside (op_pop n) s h =
      let d = length s.values - n in
      (shorten (take d s.values) (drop d s.values) s, rw (below n (length s.values) h) refl)
  run_inside op_free s h = (free s, refl)

-- For an allocator that gives less than 2 ^ 60 values at a time, a stack whose values fit into
-- its block and a call that brings less than 2 ^ 60 values and whose depths and indices are in
-- the stack, the call stays inside of the stack, its values fit into the block afterwards, and
-- what it releases and keeps is, under any weight that gives null none, what was held and what
-- it took.
pub run_sound :
    {V : Type 0} (f : V → ℕ) (room : ℕ → Bool) (null : V) (op : Op V) (s : Stack V)
    → ((nc : ℕ) → room nc ≡ true → nc < 2 ^ 60)
    → f null ≡ 0
    → brings op < 2 ^ 60
    → Fits s
    → Within op s
    → (o : StackResult V) × (run room null op s ≡ some o) × Fits o.stack × Balanced f s o
run_sound f room null op s small z m h w =
    let (o, e) = run_inside room null op s w in
    (o, e, run-Fits room small null op s o m h e, run-Balanced f room null op s o z e)
