-- ===== src/HashTable/Sets.antt =====
-- The sets of strings of src/uhash.c (Unc_HSet), which give each string the index under which it
-- came first. Such a set grows when it has more entries than buckets, and so may have one more.
use uncil.Prelude.{
  ℕ, ◌+◌, ◌*◌, ◌%◌, ◌^◌, ◌≤◌, ◌<◌, ◌≡◌, ◌≢◌, ◌⊎◌, inl, inr, refl, sym, ap, ◌∙◌, arith, Bool, List,
  [], ◌∷◌, Option, some, none, Bool-cases, Option-cases, if◌then◌else◌, ltb, replicate, length,
  ◌==◌,
}
use uncil.HashTable.{Table, err_mem, lookup, rehash, append_entry}
use uncil.HashTable.Buckets.{total}
use uncil.HashTable.Invariant.{IsTableWithin, Fits}
use uncil.HashTable.Growth.{doubled, IsTable-doubled, lookup-doubled}
use uncil.HashTable.Spare.{Grown-four, four}
use uncil.HashTable.Put.{IsTable-append_entry, lookup-append_entry, lookup_same}
use uncil.HashTable.Strings.{strings, same_key}

-- The first four buckets
unfoldable pub first_buckets : (ℕ → Bool) → Table (List ℕ) ℕ → Option (Table (List ℕ) ℕ)
first_buckets room h =
    if length h.buckets == 0
    then (if room 4
        then some (record { entries = h.entries; capacity = 4; buckets = replicate 4 [] })
        else none)
    else some h

-- `if (hset->entries > hset->capacity) { ... }`
unfoldable pub expand : (ℕ → Bool) → Table (List ℕ) ℕ → Option (Table (List ℕ) ℕ)
expand room h =
    let nc = h.capacity * 2 % 2 ^ 64 in
    if ltb h.capacity h.entries
    then (if room nc
        then some (record {
          entries = h.entries;
          capacity = nc;
          buckets = rehash strings h.capacity h.buckets;
        })
        else none)
    else some h

-- unc0_puthset for a set with buckets: the set, what is written to `out` if anything is, and the
-- status
unfoldable pub put_in_buckets :
    (ℕ → Bool) → Bool → Table (List ℕ) ℕ → List ℕ → ℕ → Table (List ℕ) ℕ × Option ℕ × ℕ
put_in_buckets room entry h s submit = elim (lookup strings h s) [
  | some i ↦ (h, some i, 0)
  | none ↦ elim (expand room h) [
    | none ↦ (h, none, 1)
    | some h' ↦
        if entry then (append_entry strings s submit h', some submit, 0) else (h', none, err_mem)
  ]
]

-- unc0_puthset
unfoldable pub put_set :
    (ℕ → Bool) → Bool → Table (List ℕ) ℕ → List ℕ → ℕ → Table (List ℕ) ℕ × Option ℕ × ℕ
put_set room entry h s submit = elim (first_buckets room h) [
  | none ↦ (h, none, err_mem)
  | some h' ↦ put_in_buckets room entry h' s submit
]

-- A set is a table that may have one entry more than buckets.
abbrev pub IsIndex : Table (List ℕ) ℕ → Type 0
IsIndex h = IsTableWithin 1 strings h

-- A set with buckets that finds what `h` finds
record Ready (h h' : Table (List ℕ) ℕ) : Type 0 where
  table : IsIndex h'
  nonempty : 0 < h'.capacity
  finds : (l : List ℕ) → lookup strings h' l ≡ lookup strings h l

-- Only the bound on the entries differs.
rebound :
    (m n : ℕ) (h : Table (List ℕ) ℕ)
    → IsTableWithin m strings h
    → h.entries ≤ h.capacity + n
    → IsTableWithin n strings h
rebound m n h t b = record {
  sized = t.sized;
  power = t.power;
  counted = t.counted;
  within = b;
  placed = t.placed;
  distinct = t.distinct;
}

total_none : {A : Type 0} (bb : List (List A)) → length bb ≡ 0 → total bb ≡ 0
total_none [] h = refl
total_none (b ∷ bb) h = absurd (omega arith)

first_buckets-Ready :
    (room : ℕ → Bool) (h : Table (List ℕ) ℕ)
    → IsIndex h
    → (first_buckets room h ≡ none)
      ⊎ ((h' : Table (List ℕ) ℕ) × (first_buckets room h ≡ some h') × Ready h h')
unfolding first_buckets
first_buckets-Ready room h t = elim (Bool-cases (length h.buckets == 0)) [
  | inr e ↦
      let n : length h.buckets ≢ 0 = λ f. ground arith in
      let p : 0 < h.capacity = omega (arith, t.sized) in
      inr (h, (rw e refl), record { table = t; nonempty = p; finds = λ l. refl })
  | inl e ↦
      let z : h.capacity ≡ 0 = ground (arith, t.sized) in
      let n : h.entries ≡ 0 = omega (arith, t.counted, total_none h.buckets (ground arith)) in
      let g = Grown-four strings h (rebound 1 0 h t (omega arith)) z in
      elim (Bool-cases (room 4)) [
        | inr r ↦ inl (rw (e, r) refl)
        | inl r ↦ inr (
          four strings h,
          (rw (e, r) refl),
          record {
            table = rebound 0 1 (four strings h) g.table (omega arith);
            nonempty = omega arith;
            finds = g.finds;
          },
        )
      ]
]

expand-Ready :
    (room : ℕ → Bool) (h : Table (List ℕ) ℕ)
    → IsIndex h
    → 0 < h.capacity
    → Fits room
    → (expand room h ≡ none)
      ⊎ ((h' : Table (List ℕ) ℕ) × (expand room h ≡ some h')
          × Ready h h'
          × (h'.entries < h'.capacity + 1))
unfolding expand
expand-Ready room h t p f = elim (Bool-cases (ltb h.capacity h.entries)) [
  | inr e ↦
      inr (h, (rw e refl), record { table = t; nonempty = p; finds = λ l. refl }, ground arith)
  | inl e ↦ elim (Bool-cases (room (h.capacity * 2 % 2 ^ 64))) [
    | inr r ↦ inl (rw (e, r) refl)
    | inl r ↦
        let b = f (h.capacity * 2 % 2 ^ 64) r in
        let l : h.capacity * 2 < 2 ^ 60 = omega (arith, t.power.0) in
        inr (
          doubled strings h,
          (rw (e, r) refl),
          record {
            table = IsTable-doubled strings h t p l;
            nonempty = omega arith;
            finds = lookup-doubled strings h t p l;
          },
          omega (arith, t.within),
        )
  ]
]

-- What putting a string comes to: an index that the string has from then on, or no memory.
abbrev pub Interned :
    Table (List ℕ) ℕ → List ℕ → ℕ → List ℕ → Table (List ℕ) ℕ × Option ℕ × ℕ → Type 0
Interned h s i l (h', out, status) =
    ((status ≡ 0)
      × (out ≡ some i)
      × (lookup strings h' l ≡ (if same_key l s then some i else lookup strings h l)))
    ⊎ ((status ≢ 0) × (out ≡ none) × (lookup strings h' l ≡ lookup strings h l))

-- The index that the string has, or else the one that is offered
abbrev pub index_or : Option ℕ → ℕ → ℕ
index_or none submit = submit
index_or (some i) submit = i

Interned-put_in_buckets :
    (room : ℕ → Bool) (entry : Bool) (h : Table (List ℕ) ℕ) (s : List ℕ) (submit : ℕ) (l : List ℕ)
    → IsIndex h
    → 0 < h.capacity
    → Fits room
    → IsIndex (put_in_buckets room entry h s submit).0
      × Interned h s (index_or (lookup strings h s) submit) l (put_in_buckets room entry h s submit)
unfolding put_in_buckets
Interned-put_in_buckets room entry h s submit l t p f = elim (Option-cases (lookup strings h s)) [
  | inr (i, e) ↦
      rw (put_in_buckets, e)
        ((
          t,
          inl (
            refl,
            refl,
            elim (Bool-cases (same_key l s)) [
              | inl y ↦ rw y (lookup_same strings l s h y ∙ e)
              | inr y ↦ rw y refl
            ],
          ),
        ))
  | inl e ↦ elim (expand-Ready room h t p f) [
    | inl x ↦ rw (put_in_buckets, e, x) ((t, inr ((λ z. omega (arith, z)), refl, refl)))
    | inr (h', x, r, b) ↦ elim (Bool-cases entry) [
      | inr y ↦
          rw (put_in_buckets, e, x, y) ((r.table, inr ((λ z. omega (arith, z)), refl, r.finds l)))
      | inl y ↦
          let a = r.finds s ∙ e in
          rw (put_in_buckets, e, x, y)
            ((
              IsTable-append_entry strings s submit h' r.table (omega arith) b r.nonempty a,
              inl (
                refl,
                refl,
                lookup-append_entry strings s submit h' l r.table r.nonempty a
                    ∙ ap (λ (o : Option ℕ). if same_key l s then some submit else o) (r.finds l),
              ),
            ))
    ]
  ]
]

-- For a well-formed set and an allocator that gives less than 2 ^ 60 buckets at a time,
-- unc0_puthset leaves a well-formed set, and either returns 0 and the index that the string
-- already has, or else the one that is offered, which the string has from then on while all
-- others keep theirs; or it returns another status, and then no index, and all strings keep
-- theirs.
pub Interned-put_set :
    (room : ℕ → Bool) (entry : Bool) (h : Table (List ℕ) ℕ) (s : List ℕ) (submit : ℕ) (l : List ℕ)
    → IsIndex h
    → Fits room
    → IsIndex (put_set room entry h s submit).0
      × Interned h s (index_or (lookup strings h s) submit) l (put_set room entry h s submit)
unfolding put_set
Interned-put_set room entry h s submit l t f = elim (first_buckets-Ready room h t) [
  | inl e ↦ rw (put_set, e) ((t, inr ((λ z. omega (arith, z)), refl, refl)))
  | inr (h', e, r) ↦
      let i = Interned-put_in_buckets room entry h' s submit l r.table r.nonempty f in
      rw (put_set, e, sym (r.finds s), sym (r.finds l)) i
]
