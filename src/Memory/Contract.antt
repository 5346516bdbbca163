-- ===== src/Memory/Contract.antt =====
-- What docs/API.md promises of an allocation function, and what unc0_invokealloc makes of it.
use uncil.Prelude.{
  ℕ, zero, suc, ◌≤◌, ◌<◌, ◌≡◌, refl, arith, min, List, Option, none, some, ltb, ◌==◌, length, take,
  Option-cases, inl, inr, ◌⊎◌, false, sym, ◌∙◌, true,
}
use uncil.Memory.{Allocator, Host, held, grown, call_host, invokealloc}

-- A block that the host returns, for an old one of the size that it is told, has at least the new size and keeps the bytes that fit both sizes.
abbrev pub KeepsBytes : {σ : Type 0} → Host σ → Type 0
KeepsBytes {σ} host =
    (st : σ) (sz0 sz1 : ℕ) (p : Option (List ℕ)) (q : List ℕ)
    → sz0 ≤ length (held p)
    → (host st sz0 sz1 p).1 ≡ some q
    → (sz1 ≤ length q) × (take (min sz0 sz1) q ≡ take (min sz0 sz1) (held p))

grown-block :
    {σ : Type 0} (a : Allocator σ) (sz0 sz1 : ℕ) (r : Option (List ℕ)) → (grown a sz0 sz1 r).1 ≡ r
unfolding grown
grown-block a sz0 sz1 none = refl
grown-block a sz0 sz1 (some q) = refl

module _ {σ : Type 0} (host : Host σ) (collect : Allocator σ → Allocator σ) where
  grow_step :
      (a : Allocator σ) (p : Option (List ℕ)) (sz0 sz1 : ℕ)
      → sz0 < sz1
      → ((invokealloc host collect a p sz0 sz1).1 ≡ (host a.state sz0 sz1 p).1)
        ⊎ ((st : σ) × ((invokealloc host collect a p sz0 sz1).1 ≡ (host st sz0 sz1 p).1))
  unfolding invokealloc call_host
  grow_step a p sz0 sz1 h =
      let n : (sz0 == sz1) ≡ false = ground arith in
      let z : (sz1 == 0) ≡ false = ground arith in
      let l : ltb sz1 sz0 ≡ false = ground arith in
      elim (Option-cases (host a.state sz0 sz1 p).1) [
        | inl e ↦ inr (
          (collect (call_host host collect a p sz0 sz1).0).state,
          rw (n, z, e, l) (grown-block _ sz0 sz1 _),
        )
        | inr (q, e) ↦ inl (rw (n, z, e) (grown-block _ sz0 sz1 (some q)))
      ]

  -- A block that grows keeps all of its bytes, whichever of the two attempts gives it.
  pub invokealloc_keeps :
      (a : Allocator σ) (p : Option (List ℕ)) (sz0 sz1 : ℕ) (q : List ℕ)
      → KeepsBytes host
      → sz0 < sz1
      → sz0 ≤ length (held p)
      → (invokealloc host collect a p sz0 sz1).1 ≡ some q
      → (sz1 ≤ length q) × (take sz0 q ≡ take sz0 (held p))
  invokealloc_keeps a p sz0 sz1 q k h w e =
      let m : min sz0 sz1 ≡ sz0 = omega arith in
      elim (grow_step a p sz0 sz1 h) [
        | inl f ↦ rw m at (k a.state sz0 sz1 p q w (sym f ∙ e))
        | inr (st, f) ↦ rw m at (k st sz0 sz1 p q w (sym f ∙ e))
      ]

  -- A block that shrinks keeps the bytes that fit, also where the host fails and the old one stays.
  pub invokealloc_shrinks :
      (a : Allocator σ) (p : Option (List ℕ)) (sz0 sz1 : ℕ)
      → KeepsBytes host
      → sz1 < sz0
      → sz0 ≤ length (held p)
      → (sz1 ≤ length (held (invokealloc host collect a p sz0 sz1).1))
        × (take sz1 (held (invokealloc host collect a p sz0 sz1).1) ≡ take sz1 (held p))
  unfolding invokealloc call_host
  invokealloc_shrinks a p sz0 zero k h w =
      let n : (sz0 == 0) ≡ false = ground arith in rw n (omega arith, refl)
  invokealloc_shrinks a p sz0 (suc sz1) k h w =
      let n : (sz0 == suc sz1) ≡ false = ground arith in
      let z : (suc sz1 == 0) ≡ false = ground arith in
      let l : ltb (suc sz1) sz0 ≡ true = ground arith in
      let m : min sz0 (suc sz1) ≡ suc sz1 = omega arith in
      elim (Option-cases (host a.state sz0 (suc sz1) p).1) [
        | inl e ↦ rw (n, z, e, l) (omega arith, refl)
        | inr (q, e) ↦
            let keeps = rw m at (k a.state sz0 (suc sz1) p q w e) in
            rw (n, z, e, grown-block _ sz0 (suc sz1) (some q)) keeps
      ]
