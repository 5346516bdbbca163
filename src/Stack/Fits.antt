-- ===== src/Stack/Fits.antt =====
-- That the operations of src/ustack.c stay inside of the block.
use uncil.Prelude.{
  ℕ, ◌+◌, ◌-◌, ◌%◌, ◌^◌, ◌≤◌, ◌<◌, ◌≡◌, inl, inr, subst, arith, Bool, true, false, ◌||◌, List, [],
  ◌∷◌, ◌++◌, none, some, Bool-cases, Option-cases, ltb, leb, if◌then◌else◌, length, take, drop,
  replicate, length-append, length-take, length-drop, length-replicate,
}
use uncil.Stack.{
  Stack, StackResult, stackreserve, reserved, push, pushn, insertm, insertn, shorten, restoredepth,
  pullrug, pop, free, Op, op_push, op_pushn, op_insertm, op_insertn, op_restoredepth, op_pullrug,
  op_pop, op_free, run,
}

-- The values are in the block, whose brings is far from the end of Unc_Size.
abbrev pub Fits : {V : Type 0} → Stack V → Type 0
Fits s = (length s.values ≤ s.capacity) × (s.capacity < 2 ^ 60)

-- The number of values that a call brings
abbrev pub brings : {V : Type 0} → Op V → ℕ
brings (op_push vs) = length vs
brings (op_pushn n) = n
brings (op_insertm i vs) = length vs
brings _ = 1

module _ {V : Type 0} (room : ℕ → Bool) (small : (nc : ℕ) → room nc ≡ true → nc < 2 ^ 60) where
  reserve_room :
      (n : ℕ) (s s' : Stack V)
      → n < 2 ^ 60
      → Fits s
      → stackreserve room n s ≡ some s'
      → (length s.values + n ≤ s'.capacity) × (s'.capacity < 2 ^ 60)
  unfolding stackreserve
  reserve_room n s s' m h e =
      let q = length s.values in
      let w : (q + n) % 2 ^ 64 ≡ q + n = ground (arith, h.0, h.1) in
      let c = (s.capacity + 16) % 2 ^ 64 in
      let k : c ≡ s.capacity + 16 = ground (arith, h.1) in
      elim (Bool-cases (ltb s.capacity ((q + n) % 2 ^ 64))) [
        | inl x ↦
            let nc = if ltb c ((q + n) % 2 ^ 64) then ((q + n) % 2 ^ 64 + 4) % 2 ^ 64 else c in
            let b : q + n ≤ nc = ground (arith, w, k, h.0, h.1, m) in
            elim (Bool-cases (room nc)) [
              | inl r ↦
                  let z : some (record { values = s.values; capacity = nc }) ≡ some s' =
                    rw (x, r) at e in
                  let y : record { values = s.values; capacity = nc } ≡ s' = cc in
                  subst (λ t. (q + n ≤ t.capacity) × (t.capacity < 2 ^ 60)) y (b, small nc r)
              | inr r ↦ let z : none ≡ some s' = rw (x, r) at e in absurd (cc)
            ]
        | inr x ↦
            let z : some s ≡ some s' = rw x at e in
            let y : s ≡ s' = cc in
            subst (λ t. (q + n ≤ t.capacity) × (t.capacity < 2 ^ 60)) y (ground (arith, w, x), h.1)
      ]

  reserved-Fits :
      (n : ℕ) (new taken : List V) (s : Stack V)
      → n < 2 ^ 60
      → Fits s
      → length new ≡ length s.values + n
      → Fits (reserved room n new taken s).stack
  unfolding reserved
  reserved-Fits n new taken s m h l = elim (Option-cases (stackreserve room n s)) [
    | inl e ↦ rw (reserved, e) h
    | inr (s', e) ↦
        let (a, b) = reserve_room n s s' m h e in rw (reserved, e) (omega (arith, a, l), b)
  ]

  shorten-Fits :
      (kept gone : List V) (s : Stack V)
      → Fits s
      → length kept ≤ length s.values
      → Fits (shorten kept gone s).stack
  shorten-Fits kept gone s h l = (omega (arith, h.0), h.1)

  inserted :
      (i : ℕ) (vs xs : List V) → length (take i xs ++ vs ++ drop i xs) ≡ length xs + length vs
  inserted i vs xs = omega (
    arith,
    length-append (take i xs ++ vs) (drop i xs),
    length-append (take i xs) vs,
    length-take i xs,
    length-drop i xs,
  )

  guarded :
      (b : Bool) (r o : StackResult V)
      → Fits r.stack
      → (if b then some r else none) ≡ some o
      → Fits o.stack
  guarded true r o h e = let z : r ≡ o = cc in subst (λ w. Fits w.stack) z h
  guarded false r o h e = absurd (cc)

  -- fits
  pub run-Fits :
      (null : V) (op : Op V) (s : Stack V) (o : StackResult V)
      → brings op < 2 ^ 60
      → Fits s
      → run room null op s ≡ some o
      → Fits o.stack
  unfolding run push pushn insertm insertn restoredepth pullrug pop free
  run-Fits null (op_push vs) s o m h e =
      guarded true (push room vs s) o
        (reserved-Fits (length vs) (s.values ++ vs) vs s m h (length-append s.values vs)) e
  run-Fits null (op_pushn n) s o m h e =
      guarded true (pushn room null n s) o
        (reserved-Fits n (s.values ++ replicate n null) [] s m h
          (omega (arith, length-append s.values (replicate n null), length-replicate n null)))
        e
  run-Fits null (op_insertm i vs) s o m h e =
      let r = reserved room (length vs) (take i s.values ++ vs ++ drop i s.values) vs s in
      guarded (leb i (length s.values) || r.failed) r o
        (reserved-Fits (length vs) (take i s.values ++ vs ++ drop i s.values) vs s m h
          (inserted i vs s.values))
        e
  run-Fits null (op_insertn i v) s o m h e =
      let d = length s.values - i in
      let r = reserved room 1 (take d s.values ++ (v ∷ []) ++ drop d s.values) (v ∷ []) s in
      guarded (leb i (length s.values) || r.failed) r o
        (reserved-Fits 1 (take d s.values ++ (v ∷ []) ++ drop d s.values) (v ∷ []) s m h
          (inserted d (v ∷ []) s.values))
        e
  run-Fits null (op_restoredepth d) s o m h e =
      guarded (leb d (length s.values)) (shorten (take d s.values) (drop d s.values) s) o
        (shorten-Fits (take d s.values) (drop d s.values) s h
          (omega (arith, length-take d s.values)))
        e
  run-Fits null (op_pullrug d e') s o m h e = elim (Bool-cases (ltb (length s.values) e')) [
    | inl x ↦ let z : none ≡ some o = rw x at e in absurd (cc)
    | inr x ↦ elim (Bool-cases (ltb e' d)) [
      | inl y ↦ let z : none ≡ some o = rw (x, y) at e in absurd (cc)
      | inr y ↦
          let k = take d s.values ++ drop e' s.values in
          guarded true (shorten k (drop d (take e' s.values)) s) o
            (shorten-Fits k (drop d (take e' s.values)) s h (
              ground (
                arith,
                x,
                y,
                length-append (take d s.values) (drop e' s.values),
                length-take d s.values,
                length-drop e' s.values,
              )))
            (rw (x, y) at e)
    ]
  ]
  run-Fits null (op_pop n) s o m h e =
      let d = length s.values - n in
      guarded (leb n (length s.values)) (shorten (take d s.values) (drop d s.values) s) o
        (shorten-Fits (take d s.values) (drop d s.values) s h
          (omega (arith, length-take d s.values)))
        e
  run-Fits null op_free s o m h e = guarded true (free s) o (omega arith, omega arith) e
