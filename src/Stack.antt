-- ===== src/Stack.antt =====
-- The value stacks of src/ustack.c. A stack is the list of the values below `top`, from `base` on,
-- and its capacity `end - base`. `room` answers for the reallocation. What an operation does to
-- reference counts is the list of the values that get a reference (VIMPOSE) and the list of those
-- that lose one (VDECREF), in order. A move or a read outside of the stack is `none`.
pub mod Balance
pub mod Fits
pub mod Sound
mod Tests
use uncil.Prelude.{
  ℕ, zero, suc, ◌+◌, ◌-◌, ◌*◌, ◌%◌, ◌^◌, Bool, true, false, ◌||◌, List, [], ◌∷◌, ◌++◌, Option, none,
  some, ltb, leb, if◌then◌else◌, length, take, drop, get_elem?, replicate,
}

-- Unc_Stack
pub record Stack (V : Type 0) : Type 0 where
  pub values : List V
  pub capacity : ℕ

-- A stack with the references that were taken and released on the way; `failed` is
-- UNCIL_ERR_MEM.
pub record StackResult (V : Type 0) : Type 0 where
  pub stack : Stack V
  pub taken : List V
  pub released : List V
  pub failed : Bool

module _ {V : Type 0} where
  abbrev pub reverse : List V → List V
  reverse [] = []
  reverse (x ∷ xs) = reverse xs ++ x ∷ []

  -- unc0_stackreserve
  unfoldable pub stackreserve : (ℕ → Bool) → ℕ → Stack V → Option (Stack V)
  stackreserve room n s =
      let q = length s.values in
      let c = s.capacity in
      let wanted = (q + n) % 2 ^ 64 in
      let nc =
        if ltb ((c + 16) % 2 ^ 64) wanted then (wanted + 4) % 2 ^ 64 else (c + 16) % 2 ^ 64 in
      if ltb c wanted
      then (if room nc then some (record { values = s.values; capacity = nc }) else none)
      else some s

  -- What the writing operations share: the values that are there behind unc0_stackreserve
  unfoldable pub reserved : (ℕ → Bool) → ℕ → List V → List V → Stack V → StackResult V
  unfolding stackreserve
  reserved room n new taken s = elim (stackreserve room n s) [
    | none ↦ record { stack = s; taken = []; released = []; failed = true }
    | some s' ↦ record {
      stack = record { values = new; capacity = s'.capacity };
      taken = taken;
      released = [];
      failed = false;
    }
  ]

  -- unc0_stackpush, and unc0_stackpushv with one value
  unfoldable pub push : (ℕ → Bool) → List V → Stack V → StackResult V
  unfolding reserved
  push room vs s = reserved room (length vs) (s.values ++ vs) vs s

  -- unc0_stackpushn: VINITMANY writes values that hold no reference
  unfoldable pub pushn : (ℕ → Bool) → V → ℕ → Stack V → StackResult V
  unfolding reserved
  pushn room null n s = reserved room n (s.values ++ replicate n null) [] s

  -- unc0_stackinsertm, and unc0_stackinsert with one value
  unfoldable pub insertm : (ℕ → Bool) → ℕ → List V → Stack V → Option (StackResult V)
  unfolding reserved
  insertm room i vs s =
      let r = reserved room (length vs) (take i s.values ++ vs ++ drop i s.values) vs s in
      if leb i (length s.values) || r.failed then some r else none

  -- unc0_stackinsertn: i values from the top
  unfoldable pub insertn : (ℕ → Bool) → ℕ → V → Stack V → Option (StackResult V)
  unfolding reserved
  insertn room i v s =
      let d = length s.values - i in
      let r = reserved room 1 (take d s.values ++ (v ∷ []) ++ drop d s.values) (v ∷ []) s in
      if leb i (length s.values) || r.failed then some r else none

  -- unc0_stackat
  unfoldable pub at : ℕ → Stack V → Option V
  at offset s =
      if ltb offset (length s.values)
      then get_elem? s.values (length s.values - 1 - offset)
      else none

  abbrev pub shorten : List V → List V → Stack V → StackResult V
  shorten kept gone s = record {
    stack = record { values = kept; capacity = s.capacity };
    taken = [];
    released = reverse gone;
    failed = false;
  }

  -- unc0_restoredepth; a depth above that of the stack fails the assertion
  unfoldable pub restoredepth : ℕ → Stack V → Option (StackResult V)
  restoredepth d s =
      if leb d (length s.values) then some (shorten (take d s.values) (drop d s.values) s) else none

  -- unc0_stackpullrug
  unfoldable pub pullrug : ℕ → ℕ → Stack V → Option (StackResult V)
  pullrug d e s =
      if ltb (length s.values) e
      then none
      else if ltb e d
      then none
      else some (shorten (take d s.values ++ drop e s.values) (drop d (take e s.values)) s)

  -- unc0_stackpop
  unfoldable pub pop : ℕ → Stack V → Option (StackResult V)
  pop n s =
      if leb n (length s.values)
      then some
          (shorten (take (length s.values - n) s.values) (drop (length s.values - n) s.values) s)
      else none

  -- unc0_stackfree
  unfoldable pub free : Stack V → StackResult V
  free s = record {
    stack = record { values = []; capacity = 0 };
    taken = [];
    released = reverse s.values;
    failed = false;
  }

-- The calls of a stack
pub data Op (V : Type 0) : Type 0 where
  op_push : List V → Op V
  op_pushn : ℕ → Op V
  op_insertm : ℕ → List V → Op V
  op_insertn : ℕ → V → Op V
  op_restoredepth : ℕ → Op V
  op_pullrug : ℕ → ℕ → Op V
  op_pop : ℕ → Op V
  op_free : Op V

unfoldable pub run : {V : Type 0} → (ℕ → Bool) → V → Op V → Stack V → Option (StackResult V)
run room null (op_push vs) s = some (push room vs s)
run room null (op_pushn n) s = some (pushn room null n s)
run room null (op_insertm i vs) s = insertm room i vs s
run room null (op_insertn i v) s = insertn room i v s
run room null (op_restoredepth d) s = restoredepth d s
run room null (op_pullrug d e) s = pullrug d e s
run room null (op_pop n) s = pop n s
run room null op_free s = some (free s)
