-- ===== src/HashTable/Compact.antt =====
-- What compaction makes of a hash table of src/uhash.c.
use uncil.Prelude.{
  ℕ, zero, suc, ◌+◌, ◌-◌, ◌*◌, ◌%◌, ◌^◌, ◌≤◌, ◌<◌, ◌≡◌, ◌≢◌, inl, inr, refl, arith, false, some,
  none, Bool-cases, ltb,
}
use uncil.HashTable.{Keys, Table, shrink, compact_loop, compact}
use uncil.HashTable.Buckets.{total}
use uncil.HashTable.Invariant.{IsTable}

module _ {K V : Type 0} (keys : Keys K) where
  compact_ends : (fuel : ℕ) (h : Table K V) → h.capacity < fuel → compact_loop keys fuel h ≢ none
  unfolding compact_loop shrink
  compact_ends zero h b = absurd (omega arith)
  compact_ends (suc fuel) h b =
      let n = (h.entries + (2 ^ 64 - 1)) % 2 ^ 64 in
      let h' : Table K V = record { entries = n; capacity = h.capacity; buckets = h.buckets } in
      elim (Bool-cases (ltb (n * 2 % 2 ^ 64) h.capacity)) [
        | inr e ↦ rw (compact_loop, e) (λ f. cc)
        | inl e ↦
            rw (compact_loop, e)
              (compact_ends fuel (shrink keys h') (unfold shrink in ground arith))
      ]

  -- total
  pub compact_total : (h : Table K V) → compact keys h ≢ none
  unfolding compact
  compact_total h = compact_ends (suc h.capacity) h (omega arith)

  -- For a well-formed table whose entries are at least one more than half of the capacity,
  -- unc0_compacthtbls leaves the buckets as they are and counts one entry less than they have.
  pub compact_miscounts :
      (h : Table K V)
      → IsTable keys h
      → h.capacity + 2 ≤ h.entries * 2
      → (h' : Table K V) × (compact keys h ≡ some h')
        × (h'.buckets ≡ h.buckets)
        × (suc h'.entries ≡ total h'.buckets)
  unfolding compact compact_loop
  compact_miscounts h t b =
      let n = (h.entries + (2 ^ 64 - 1)) % 2 ^ 64 in
      let w = t.within in
      let l = t.power.0 in
      let e : ltb (n * 2 % 2 ^ 64) h.capacity ≡ false = ground arith in
      (
        record { entries = n; capacity = h.capacity; buckets = h.buckets },
        (rw (compact_loop, e) refl),
        refl,
        omega (arith, t.counted),
      )
