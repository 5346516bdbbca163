-- ===== src/HashTable/Spare.antt =====
-- Room for one more entry in a hash table of src/uhash.c.
use uncil.Prelude.{
  ℕ, ◌*◌, ◌%◌, ◌^◌, ◌<◌, ◌≡◌, ◌≢◌, ◌⊎◌, inl, inr, refl, sym, arith, Bool, false, List, [], some,
  none, Bool-cases, get_or, replicate, ◌==◌, if◌then◌else◌,
}
use uncil.HashTable.{Keys, Table, lookup, grow}
use uncil.HashTable.Buckets.{get_or-replicate, get_or_out}
use uncil.HashTable.Invariant.{IsTable, Fits}
use uncil.HashTable.Growth.{doubled, IsTable-doubled, lookup-doubled}

module _ {K V : Type 0} (keys : Keys K) where
  open keys use {hash}

  -- A table that is ready for one more entry
  pub record Grown (h h' : Table K V) : Type 0 where
    pub table : IsTable keys h'
    pub unchanged : h'.entries ≡ h.entries
    pub spare : h.entries < h'.capacity
    pub finds : (k : K) → lookup keys h' k ≡ lookup keys h k

  abbrev pub four : Table K V → Table K V
  four h = record { entries = h.entries; capacity = 4; buckets = replicate 4 [] }

  pub Grown-four : (h : Table K V) → IsTable keys h → h.capacity ≡ 0 → Grown h (four h)
  unfolding lookup
  Grown-four h t e =
      let n : h.entries ≡ 0 = omega (arith, t.within) in
      let at : (i : ℕ) → get_or {A = List (K × V)} (replicate 4 []) i [] ≡ [] =
        get_or-replicate 4 [] in
      record {
        table = record {
          sized = refl;
          power = (omega arith, inr (2, refl));
          counted = sym n;
          within = omega arith;
          placed = λ i. rw (at i) tt;
          distinct = λ i. rw (at i) tt;
        };
        unchanged = refl;
        spare = omega arith;
        finds = λ k.
            rw
              (
                at (hash k % 4),
                get_or_out h.buckets (hash k % h.capacity) [] (omega (arith, t.sized)),
              )
              refl;
      }

  Grown-doubled :
      (h : Table K V)
      → IsTable keys h
      → h.capacity ≢ 0
      → h.entries ≡ h.capacity
      → h.capacity * 2 % 2 ^ 64 < 2 ^ 60
      → Grown h (doubled keys h)
  Grown-doubled h t n e b =
      let p : 0 < h.capacity = omega arith in
      let l : h.capacity * 2 < 2 ^ 60 = omega (arith, t.power.0) in
      record {
        table = IsTable-doubled keys h t p l;
        unchanged = refl;
        spare = omega arith;
        finds = lookup-doubled keys h t p l;
      }

  Grown-self : (h : Table K V) → IsTable keys h → h.entries ≢ h.capacity → Grown h h
  Grown-self h t n = record {
    table = t;
    unchanged = refl;
    spare = omega (arith, t.within);
    finds = λ k. refl;
  }

  -- The capacity that a full table asks for
  abbrev pub wanted : Table K V → ℕ
  wanted h = if h.capacity == 0 then 4 else h.capacity * 2 % 2 ^ 64

  pub grow-Grown :
      (room : ℕ → Bool) (h : Table K V)
      → IsTable keys h
      → Fits room
      → ((grow keys room h ≡ none) × (room (wanted h) ≡ false))
        ⊎ ((h' : Table K V) × (grow keys room h ≡ some h') × Grown h h')
  unfolding grow
  grow-Grown room h t f = elim (Bool-cases (h.capacity == 0)) [
    | inl z ↦ elim (Bool-cases (room 4)) [
      | inl r ↦ inr (four h, (rw (z, r) refl), Grown-four h t (ground arith))
      | inr r ↦ inl ((rw (z, r) refl), (rw (z, r) refl))
    ]
    | inr z ↦ elim (Bool-cases (h.entries == h.capacity)) [
      | inr e ↦ inr (h, (rw (z, e) refl), Grown-self h t (λ g. ground arith))
      | inl e ↦ elim (Bool-cases (room (h.capacity * 2 % 2 ^ 64))) [
        | inr r ↦ inl ((rw (z, e, r) refl), (rw (z, r) refl))
        | inl r ↦ inr (
          doubled keys h,
          (rw (z, e, r) refl),
          Grown-doubled h t (λ g. ground arith) (ground arith) (f (h.capacity * 2 % 2 ^ 64) r),
        )
      ]
    ]
  ]
