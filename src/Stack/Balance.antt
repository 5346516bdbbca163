-- ===== src/Stack/Balance.antt =====
-- The references that the operations of src/ustack.c take and release.
use uncil.Prelude.{
  ℕ, zero, suc, ◌+◌, ◌-◌, ◌≤◌, ◌≡◌, inl, inr, refl, sym, ap, subst, ◌∙◌, arith, Bool, true, false,
  ◌||◌, List, [], ◌∷◌, ◌++◌, none, some, Bool-cases, Option-cases, ltb, leb, if◌then◌else◌, length,
  take, drop, replicate, take-append-drop, take-take,
}
use uncil.Stack.{
  Stack, StackResult, reverse, stackreserve, reserved, push, pushn, insertm, insertn, shorten,
  restoredepth, pullrug, pop, free, Op, op_push, op_pushn, op_insertm, op_insertn, op_restoredepth,
  op_pullrug, op_pop, op_free, run,
}

module _ {V : Type 0} (f : V → ℕ) where
  -- A weight of values, over a list
  unfoldable pub total : List V → ℕ
  total [] = 0
  total (x ∷ xs) = f x + total xs

  total-append : (xs ys : List V) → total (xs ++ ys) ≡ total xs + total ys
  unfolding total
  total-append [] ys = omega arith
  total-append (x ∷ xs) ys = omega (arith, total-append xs ys)

  total-reverse : (xs : List V) → total (reverse xs) ≡ total xs
  unfolding total
  total-reverse [] = refl
  total-reverse (x ∷ xs) = omega (arith, total-append (reverse xs) (x ∷ []), total-reverse xs)

  total-replicate : (n : ℕ) (x : V) → f x ≡ 0 → total (replicate n x) ≡ 0
  unfolding total
  total-replicate zero x h = refl
  total-replicate (suc n) x h = omega (arith, h, total-replicate n x h)

  split_at : (n : ℕ) (xs : List V) → total xs ≡ total (take n xs) + total (drop n xs)
  split_at n xs = ap total (sym (take-append-drop n xs)) ∙ total-append (take n xs) (drop n xs)

  -- What is held and taken is what is held then and released.
  unfoldable pub Balanced : Stack V → StackResult V → Type 0
  Balanced s o = total s.values + total o.taken ≡ total o.stack.values + total o.released

  reserved-Balanced :
      (room : ℕ → Bool) (n : ℕ) (new taken : List V) (s : Stack V)
      → total new ≡ total s.values + total taken
      → Balanced s (reserved room n new taken s)
  unfolding Balanced reserved total
  reserved-Balanced room n new taken s h = elim (Option-cases (stackreserve room n s)) [
    | inl e ↦ rw (reserved, e) refl
    | inr (s', e) ↦ rw (reserved, e) (omega (arith, h))
  ]

  shorten-Balanced :
      (kept gone : List V) (s : Stack V)
      → total s.values ≡ total kept + total gone
      → Balanced s (shorten kept gone s)
  unfolding Balanced total
  shorten-Balanced kept gone s h = omega (arith, h, total-reverse gone)

  inserted : (i : ℕ) (vs xs : List V) → total (take i xs ++ vs ++ drop i xs) ≡ total xs + total vs
  inserted i vs xs = omega (
    arith,
    split_at i xs,
    total-append (take i xs ++ vs) (drop i xs),
    total-append (take i xs) vs,
  )

  guarded :
      (s : Stack V) (b : Bool) (r o : StackResult V)
      → Balanced s r
      → (if b then some r else none) ≡ some o
      → Balanced s o
  guarded s true r o h e = let z : r ≡ o = cc in subst (λ w. Balanced s w) z h
  guarded s false r o h e = absurd (cc)

  rug :
      (d e : ℕ) (xs : List V)
      → d ≤ e
      → total xs ≡ total (take d xs ++ drop e xs) + total (drop d (take e xs))
  rug d e xs h = omega (
    arith,
    split_at e xs,
    split_at d (take e xs),
    ap total (take-take d e xs h),
    total-append (take d xs) (drop e xs),
  )

  pushed :
      (n : ℕ) (null : V) (xs : List V)
      → f null ≡ 0
      → total (xs ++ replicate n null) ≡ total xs + total []
  unfolding total
  pushed n null xs h = omega (arith, total-append xs (replicate n null), total-replicate n null h)

  freed : (s : Stack V) → Balanced s (free s)
  unfolding Balanced free total
  freed s = omega (arith, total-reverse s.values)

  -- balance
  pub run-Balanced :
      (room : ℕ → Bool) (null : V) (op : Op V) (s : Stack V) (o : StackResult V)
      → f null ≡ 0
      → run room null op s ≡ some o
      → Balanced s o
  unfolding run push pushn insertm insertn restoredepth pullrug pop
  run-Balanced room null (op_push vs) s o h e =
      guarded s true (push room vs s) o
        (reserved-Balanced room (length vs) (s.values ++ vs) vs s (total-append s.values vs)) e
  run-Balanced room null (op_pushn n) s o h e =
      guarded s true (pushn room null n s) o
        (reserved-Balanced room n (s.values ++ replicate n null) [] s (pushed n null s.values h)) e
  run-Balanced room null (op_insertm i vs) s o h e =
      let r = reserved room (length vs) (take i s.values ++ vs ++ drop i s.values) vs s in
      guarded s (leb i (length s.values) || r.failed) r o
        (reserved-Balanced room (length vs) (take i s.values ++ vs ++ drop i s.values) vs s
          (inserted i vs s.values))
        e
  run-Balanced room null (op_insertn i v) s o h e =
      let d = length s.values - i in
      let r = reserved room 1 (take d s.values ++ (v ∷ []) ++ drop d s.values) (v ∷ []) s in
      guarded s (leb i (length s.values) || r.failed) r o
        (reserved-Balanced room 1 (take d s.values ++ (v ∷ []) ++ drop d s.values) (v ∷ []) s
          (inserted d (v ∷ []) s.values))
        e
  run-Balanced room null (op_restoredepth d) s o h e =
      guarded s (leb d (length s.values)) (shorten (take d s.values) (drop d s.values) s) o
        (shorten-Balanced (take d s.values) (drop d s.values) s (split_at d s.values)) e
  run-Balanced room null (op_pullrug d e') s o h e = elim (Bool-cases (ltb (length s.values) e')) [
    | inl x ↦ let z : none ≡ some o = rw x at e in absurd (cc)
    | inr x ↦ elim (Bool-cases (ltb e' d)) [
      | inl y ↦ let z : none ≡ some o = rw (x, y) at e in absurd (cc)
      | inr y ↦
          let r = shorten (take d s.values ++ drop e' s.values) (drop d (take e' s.values)) s in
          guarded s true r o
            (shorten-Balanced (take d s.values ++ drop e' s.values) (drop d (take e' s.values)) s
              (rug d e' s.values (ground (arith, y))))
            (rw (x, y) at e)
    ]
  ]
  run-Balanced room null (op_pop n) s o h e =
      let d = length s.values - n in
      guarded s (leb n (length s.values)) (shorten (take d s.values) (drop d s.values) s) o
        (shorten-Balanced (take d s.values) (drop d s.values) s (split_at d s.values)) e
  run-Balanced room null op_free s o h e = guarded s true (free s) o (freed s) e
