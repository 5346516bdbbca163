-- ===== src/HashTable/Delete.antt =====
-- What a deletion makes of a hash table of src/uhash.c.
use uncil.Prelude.{
  ◌+◌, ◌-◌, ◌*◌, ◌/◌, ◌%◌, ◌^◌, ◌<◌, ◌≡◌, ◌≢◌, inl, inr, refl, sym, ◌∙◌, arith, true, List, [],
  some, none, Bool-cases, Option-cases, get_or, if◌then◌else◌, ltb,
}
use native.Mathlib.Nat.{mod-lt}
use uncil.HashTable.{Keys, Table, lookup, shrink, unlink, delete, zip_append}
use uncil.HashTable.Buckets.{total_zero, total-set}
use uncil.HashTable.Chains.{find_same}
use uncil.HashTable.Edits.{
  find-unlink_self, find-unlink_ne, AllAt-unlink, Distinct-unlink, length-unlink,
}
use uncil.HashTable.Invariant.{
  IsTable, IsTable-nothing, IsTable-set, IsCapacity-half, lookup-set_here, lookup-set_apart,
  with_chain,
}
use uncil.HashTable.Shrink.{IsTable-halves, find-halves}
use uncil.HashTable.Put.{lookup_same}
use uncil.HashTable.Store.{found_capacity, same_ne}

module _ {K V : Type 0} (keys : Keys K) where
  open keys use {hash, same, same_refl, same_sym, same_trans, same_hash}

  -- A single bucket is given up when it is empty.
  IsTable-shrink :
      (h : Table K V) → IsTable keys h → h.entries * 4 < h.capacity → IsTable keys (shrink keys h)
  unfolding shrink zip_append
  IsTable-shrink h t b =
      let p = IsCapacity-half h.capacity t.power in
      elim p.1 [
        | inl e ↦ IsTable-halves keys h t (h.capacity / 2) e p.0 (omega arith)
        | inr e ↦
            let z : h.capacity / 2 ≡ 0 = omega arith in
            rw z (IsTable-nothing keys h.entries 0 (omega arith) refl)
      ]

  lookup-shrink :
      (h : Table K V) (k : K)
      → IsTable keys h
      → h.entries * 4 < h.capacity
      → lookup keys (shrink keys h) k ≡ lookup keys h k
  unfolding shrink zip_append lookup
  lookup-shrink h k t b =
      let p = IsCapacity-half h.capacity t.power in
      elim p.1 [
        | inl e ↦ find-halves keys h t (h.capacity / 2) e k (omega arith)
        | inr e ↦
            let z : h.capacity / 2 ≡ 0 = omega arith in
            rw (z, total_zero h.buckets (hash k % h.capacity) (omega (arith, t.counted))) refl
      ]

  -- Without the entry, and before the buckets are looked at
  abbrev unlinked : Table K V → K → Table K V
  unlinked h k =
      with_chain keys h ((h.entries + (2 ^ 64 - 1)) % 2 ^ 64) (hash k % h.capacity)
        (unlink keys k (get_or h.buckets (hash k % h.capacity) []))

  module _ (h : Table K V) (k : K) (t : IsTable keys h) (n : lookup keys h k ≢ none) where
    entries_positive : (h.entries + (2 ^ 64 - 1)) % 2 ^ 64 + 1 ≡ h.entries
    entries_positive =
        let i = hash k % h.capacity in
        let p = mod-lt (hash k) (found_capacity keys h k t n) in
        omega (
          arith,
          length-unlink keys k (get_or h.buckets i []) (unfold lookup in n),
          total-set h.buckets i [] (omega (arith, p, t.sized)),
          t.counted,
          t.within,
          t.power.0,
        )

    IsTable-unlinked : IsTable keys (unlinked h k)
    IsTable-unlinked =
        let i = hash k % h.capacity in
        let c : List (K × V) = get_or h.buckets i [] in
        IsTable-set keys h i ((h.entries + (2 ^ 64 - 1)) % 2 ^ 64) (unlink keys k c) t
          (mod-lt (hash k) (found_capacity keys h k t n))
          (AllAt-unlink keys h.capacity i k c (t.placed i))
          (Distinct-unlink keys k c (t.distinct i))
          (omega (arith, length-unlink keys k c (unfold lookup in n), entries_positive))
          (omega (arith, entries_positive, t.within))

    lookup-unlinked :
        (l : K) → lookup keys (unlinked h k) l ≡ (if same l k then none else lookup keys h l)
    lookup-unlinked l =
        let p = found_capacity keys h k t n in
        let i = hash k % h.capacity in
        let c : List (K × V) = get_or h.buckets i [] in
        let m = (h.entries + (2 ^ 64 - 1)) % 2 ^ 64 in
        elim (Bool-cases (same l k)) [
          | inl s ↦ rw s (
              lookup-set_here keys h m (unlink keys k c) k l t p (sym (same_hash l k s))
              ∙ find_same keys l k (unlink keys k c) s
              ∙ find-unlink_self keys k c (t.distinct i))
          | inr s ↦ rw s (
              lookup-set_apart keys h m (unlink keys k c) k l t p
                (find-unlink_ne keys k l c (same_ne keys l k s)))
        ]

  delete_absent : (h : Table K V) (k : K) → lookup keys h k ≡ none → delete keys h k ≡ h
  unfolding delete
  delete_absent h k e = rw (delete, e) refl

  -- A deletion that finds the key may give up half of the buckets.
  delete_present :
      (h : Table K V) (k : K) (v : V)
      → lookup keys h k ≡ some v
      → delete keys h k ≡ (
          if ltb ((unlinked h k).entries * 4 % 2 ^ 64) h.capacity
          then shrink keys (unlinked h k)
          else unlinked h k)
  unfolding delete
  delete_present h k v e = rw (delete, e) refl

  few_left :
      (h : Table K V) (k : K)
      → IsTable keys h
      → lookup keys h k ≢ none
      → ltb ((unlinked h k).entries * 4 % 2 ^ 64) h.capacity ≡ true
      → (unlinked h k).entries * 4 < h.capacity
  few_left h k t n b =
      let w = t.within in let p = t.power.0 in let e = entries_positive h k t n in ground arith

  -- For a well-formed table, unc0_delhtbls keeps it well-formed, whether or not it has the key
  -- and whether or not the buckets are halved.
  pub delete-IsTable : (h : Table K V) (k : K) → IsTable keys h → IsTable keys (delete keys h k)
  delete-IsTable h k t = elim (Option-cases (lookup keys h k)) [
    | inl e ↦ rw (delete_absent h k e) t
    | inr (v, e) ↦
        let n : lookup keys h k ≢ none = λ f. cc in
        elim (Bool-cases (ltb ((unlinked h k).entries * 4 % 2 ^ 64) h.capacity)) [
          | inl b ↦
              rw (delete_present h k v e, b)
                (IsTable-shrink (unlinked h k) (IsTable-unlinked h k t n) (few_left h k t n b))
          | inr b ↦ rw (delete_present h k v e, b) (IsTable-unlinked h k t n)
        ]
  ]

  -- For a well-formed table, after unc0_delhtbls the key `k` is not found and all other keys
  -- are found as before, whether or not the buckets are halved.
  pub lookup-delete :
      (h : Table K V) (k l : K)
      → IsTable keys h
      → lookup keys (delete keys h k) l ≡ (if same l k then none else lookup keys h l)
  lookup-delete h k l t = elim (Option-cases (lookup keys h k)) [
    | inl e ↦ rw (delete_absent h k e) (elim (Bool-cases (same l k)) [
      | inl s ↦ rw s (lookup_same keys l k h s ∙ e)
      | inr s ↦ rw s refl
    ])
    | inr (v, e) ↦
        let n : lookup keys h k ≢ none = λ f. cc in
        elim (Bool-cases (ltb ((unlinked h k).entries * 4 % 2 ^ 64) h.capacity)) [
          | inl b ↦
              rw (delete_present h k v e, b)
                (lookup-shrink (unlinked h k) l (IsTable-unlinked h k t n) (few_left h k t n b)
                  ∙ lookup-unlinked h k t n l)
          | inr b ↦ rw (delete_present h k v e, b) (lookup-unlinked h k t n l)
        ]
  ]
