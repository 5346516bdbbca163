-- ===== src/HashTable/Put.antt =====
-- What a put makes of a hash table of src/uhash.c.
use uncil.Prelude.{
  ℕ, ◌+◌, ◌%◌, ◌^◌, ◌≤◌, ◌<◌, ◌≡◌, ◌⊎◌, inl, inr, refl, sym, ap, ◌∙◌, arith, Bool, true, false,
  List, [], ◌∷◌, ◌++◌, Option, some, none, Bool-cases, Option-cases, length-append, get_or,
  if◌then◌else◌,
}
use native.Mathlib.Nat.{mod-lt}
use uncil.HashTable.{Keys, Table, err_mem, find, lookup, append_entry, insert, put}
use uncil.HashTable.Chains.{
  or_else, or_else-none, AllAt-append, Distinct-append, find-append, find_same,
}
use uncil.HashTable.Invariant.{
  IsTable, IsTableWithin, Fits, IsTable-set, lookup-set_here, lookup-set_apart,
}
use uncil.HashTable.Spare.{wanted, Grown, grow-Grown}

module _ {K V : Type 0} (keys : Keys K) where
  open keys use {hash, same, same_refl, same_sym, same_trans, same_hash}

  find_one : (l k : K) (v : V) → find keys l ((k, v) ∷ []) ≡ (if same l k then some v else none)
  unfolding find
  find_one l k v = refl

  pub lookup_same : (l k : K) (h : Table K V) → same l k ≡ true → lookup keys h l ≡ lookup keys h k
  unfolding lookup
  lookup_same l k h s =
      rw (same_hash l k s) (find_same keys l k (get_or h.buckets (hash k % h.capacity) []) s)

  pub IsTable-append_entry :
      {slack : ℕ} (k : K) (v : V) (h : Table K V)
      → IsTableWithin slack keys h
      → slack ≤ 1
      → h.entries < h.capacity + slack
      → 0 < h.capacity
      → lookup keys h k ≡ none
      → IsTableWithin slack keys (append_entry keys k v h)
  unfolding append_entry lookup
  IsTable-append_entry k v h t o b p e =
      let i = hash k % h.capacity in
      let c : List (K × V) = get_or h.buckets i [] in
      IsTable-set keys h i ((h.entries + 1) % 2 ^ 64) (c ++ (k, v) ∷ []) t
        (mod-lt (hash k) (omega arith))
        (AllAt-append keys h.capacity i c ((k, v) ∷ []) (t.placed i) (refl, tt))
        (Distinct-append keys c ((k, v) ∷ []) (t.distinct i) ((unfold find in refl), tt)
          (λ l n. elim (Bool-cases (same l k)) [
            | inl s ↦ absurd (n (find_same keys l k c s ∙ e))
            | inr s ↦ rw (find_one l k v, s) refl
          ]))
        (omega (arith, length-append {0} c ((k, v) ∷ []), t.power.0)) (omega (arith, t.power.0))

  pub lookup-append_entry :
      {slack : ℕ} (k : K) (v : V) (h : Table K V) (l : K)
      → IsTableWithin slack keys h
      → 0 < h.capacity
      → lookup keys h k ≡ none
      → lookup keys (append_entry keys k v h) l ≡ (if same l k then some v else lookup keys h l)
  unfolding append_entry lookup
  lookup-append_entry k v h l t p e =
      let i = hash k % h.capacity in
      let c : List (K × V) = get_or h.buckets i [] in
      let n = (h.entries + 1) % 2 ^ 64 in
      elim (Bool-cases (same l k)) [
        | inl s ↦ rw s (
            lookup-set_here keys h n (c ++ (k, v) ∷ []) k l t (omega arith) (sym (same_hash l k s))
            ∙ find-append keys l c ((k, v) ∷ [])
            ∙ rw (find_same keys l k c s, e, find_one l k v, s) refl)
        | inr s ↦ rw s (
            lookup-set_apart keys h n (c ++ (k, v) ∷ []) k l t (omega arith) (
              find-append keys l c ((k, v) ∷ [])
              ∙ rw (find_one l k v, s) (or_else-none (find keys l c))))
      ]

  -- The three ways that a put can go
  abbrev Ways : (ℕ → Bool) → Bool → V → Table K V → K → Table K V × ℕ → Type 0
  Ways room entry null h k r =
      ((v : V) × (lookup keys h k ≡ some v) × (r ≡ (h, 0)))
      ⊎ ((lookup keys h k ≡ none)
          × (h' : Table K V) × ((Grown keys h h' × (r ≡ (append_entry keys k null h', 0)))
              ⊎ (IsTable keys h'
                  × ((l : K) → lookup keys h' l ≡ lookup keys h l)
                  × (r ≡ (h', err_mem))
                  × ((entry ≡ false) ⊎ (room (wanted keys h) ≡ false)))))

  put-Ways :
      (room : ℕ → Bool) (entry : Bool) (null : V) (h : Table K V) (k : K)
      → IsTable keys h
      → Fits room
      → Ways room entry null h k (put keys room entry null h k)
  unfolding put insert
  put-Ways room entry null h k t f = elim (Option-cases (lookup keys h k)) [
    | inr (v, e) ↦ inl (v, e, (rw (put, e) refl))
    | inl e ↦ elim (grow-Grown keys room h t f) [
      | inl (g, r) ↦ inr (e, h, inr (t, (λ l. refl), (rw (put, e, insert, g) refl), inr r))
      | inr (h', g, w) ↦ elim (Bool-cases entry) [
        | inl y ↦ inr (e, h', inl (w, (rw (put, e, insert, g, y) refl)))
        | inr y ↦ inr (e, h', inr (w.table, w.finds, (rw (put, e, insert, g, y) refl), inl y))
      ]
    ]
  ]

  Grown-lacks :
      (h h' : Table K V) (k : K)
      → Grown keys h h'
      → lookup keys h k ≡ none
      → lookup keys h' k ≡ none
  Grown-lacks h h' k w e = w.finds k ∙ e

  spare_again : (h h' : Table K V) → Grown keys h h' → h'.entries < h'.capacity + 0
  spare_again h h' w = omega (arith, w.unchanged, w.spare)

  some_buckets : (h h' : Table K V) → Grown keys h h' → 0 < h'.capacity
  some_buckets h h' w = omega (arith, w.spare)

  -- For a well-formed table and an allocator that gives less than 2 ^ 60 buckets at a time,
  -- unc0_puthtbls keeps the table well-formed, whether it finds the key, puts it, or runs out
  -- of memory: as many buckets as the capacity, which is 0 or a power of two, as many entries
  -- as are counted, no more than the capacity, and each key once and in the bucket of its
  -- hash.
  pub put-IsTable :
      (room : ℕ → Bool) (entry : Bool) (null : V) (h : Table K V) (k : K)
      → IsTable keys h
      → Fits room
      → IsTable keys (put keys room entry null h k).0
  put-IsTable room entry null h k t f = elim (put-Ways room entry null h k t f) [
    | inl (v, e, r) ↦ rw r t
    | inr (e, h', inl (w, r)) ↦ rw r (
        IsTable-append_entry k null h' w.table (omega arith) (spare_again h h' w)
          (some_buckets h h' w) (Grown-lacks h h' k w e))
    | inr (e, h', inr (t', m, r, q)) ↦ rw r t'
  ]

  -- For a well-formed table and an allocator that gives less than 2 ^ 60 buckets at a time,
  -- unc0_puthtbls either returns 0, and then `k` has its old value or else null while all
  -- other keys are found as before, also where the table has been doubled; or it returns
  -- UNCIL_ERR_MEM, and then `k` was not there, an allocation has failed, and all keys are
  -- found as before.
  pub lookup-put :
      (room : ℕ → Bool) (entry : Bool) (null : V) (h : Table K V) (k l : K)
      → IsTable keys h
      → Fits room
      → (((put keys room entry null h k).1 ≡ 0)
          × (lookup keys (put keys room entry null h k).0 l
              ≡ (if same l k then or_else (lookup keys h k) (some null) else lookup keys h l)))
        ⊎ (((put keys room entry null h k).1 ≡ err_mem)
            × (lookup keys (put keys room entry null h k).0 l ≡ lookup keys h l)
            × (lookup keys h k ≡ none)
            × ((entry ≡ false) ⊎ (room (wanted keys h) ≡ false)))
  lookup-put room entry null h k l t f = elim (put-Ways room entry null h k t f) [
    | inl (v, e, r) ↦ inl (
      (rw r refl),
      (elim (Bool-cases (same l k)) [
        | inl s ↦ rw (r, s, e) (lookup_same l k h s ∙ e)
        | inr s ↦ rw (r, s) refl
      ]),
    )
    | inr (e, h', inl (w, r)) ↦ inl (
      (rw r refl),
      (rw (r, e)
          (lookup-append_entry k null h' l w.table (some_buckets h h' w) (Grown-lacks h h' k w e)
            ∙ ap (λ (o : Option V). if same l k then some null else o) (w.finds l))),
    )
    | inr (e, h', inr (t', m, r, q)) ↦ inr ((rw r refl), (rw r (m l)), e, q)
  ]
