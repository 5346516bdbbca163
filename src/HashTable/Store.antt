-- ===== src/HashTable/Store.antt =====
-- Writing through the pointer that a hash table of src/uhash.c hands out.
use uncil.Prelude.{
  ℕ, ◌%◌, ◌<◌, ◌≡◌, ◌≢◌, inl, inr, refl, sym, ◌∙◌, arith, Bool, false, List, [], some, none,
  Bool-cases, Option-cases, lt-cases, get_or, if◌then◌else◌,
}
use native.Mathlib.Nat.{mod-lt}
use uncil.HashTable.{Keys, Table, find, lookup, put, store_chain, store}
use uncil.HashTable.Buckets.{get_or_out}
use uncil.HashTable.Chains.{or_else, find_same}
use uncil.HashTable.Edits.{
  find-store_self, find-store_ne, AllAt-store, Distinct-store, length-store,
}
use uncil.HashTable.Invariant.{IsTable, Fits, IsTable-set, lookup-set_here, lookup-set_apart}
use uncil.HashTable.Put.{put-IsTable, lookup-put}

pub same_ne : {K : Type 0} (keys : Keys K) (l k : K) → keys.same l k ≡ false → keys.same k l ≡ false
same_ne keys l k h = elim (Bool-cases (keys.same k l)) [
  | inl e ↦ let t = keys.same_sym k l e in absurd (cc)
  | inr e ↦ e
]

module _ {K V : Type 0} (keys : Keys K) where
  open keys use {hash, same, same_refl, same_sym, same_trans, same_hash}

  -- A table without buckets has no keys.
  pub found_capacity :
      (h : Table K V) (k : K) → IsTable keys h → lookup keys h k ≢ none → 0 < h.capacity
  unfolding lookup find
  found_capacity h k t n = elim (lt-cases 0 h.capacity) [
    | inl b ↦ b
    | inr b ↦
        let e = get_or_out h.buckets (hash k % h.capacity) [] (omega (arith, t.sized)) in
        absurd (n (rw e refl))
  ]

  -- wf
  pub store-IsTable :
      (h : Table K V) (k : K) (v : V)
      → IsTable keys h
      → lookup keys h k ≢ none
      → IsTable keys (store keys h k v)
  unfolding store
  store-IsTable h k v t n =
      let i = hash k % h.capacity in
      let c : List (K × V) = get_or h.buckets i [] in
      IsTable-set keys h i h.entries (store_chain keys k v c) t
        (mod-lt (hash k) (found_capacity h k t n))
        (AllAt-store keys h.capacity i k v c (t.placed i))
        (Distinct-store keys k v c (t.distinct i)) (omega (arith, length-store keys k v c)) t.within

  pub lookup-store :
      (h : Table K V) (k l : K) (v : V)
      → IsTable keys h
      → lookup keys h k ≢ none
      → lookup keys (store keys h k v) l ≡ (if same l k then some v else lookup keys h l)
  unfolding store
  lookup-store h k l v t n =
      let p = found_capacity h k t n in
      let i = hash k % h.capacity in
      let c : List (K × V) = get_or h.buckets i [] in
      elim (Bool-cases (same l k)) [
        | inl s ↦ rw s (
            lookup-set_here keys h h.entries (store_chain keys k v c) k l t p
              (sym (same_hash l k s))
            ∙ find_same keys l k (store_chain keys k v c) s
            ∙ find-store_self keys k v c (unfold lookup in n))
        | inr s ↦ rw s (
            lookup-set_apart keys h h.entries (store_chain keys k v c) k l t p
              (find-store_ne keys k l v c (same_ne keys l k s)))
      ]

  put_found :
      (room : ℕ → Bool) (entry : Bool) (null : V) (h : Table K V) (k : K)
      → IsTable keys h
      → Fits room
      → (put keys room entry null h k).1 ≡ 0
      → lookup keys (put keys room entry null h k).0 k ≢ none
  put_found room entry null h k t f z = elim (lookup-put keys room entry null h k k t f) [
    | inr (e, a, b, c) ↦ absurd (omega (arith, e, z))
    | inl (e, g) ↦
        let g' : lookup keys (put keys room entry null h k).0 k
            ≡ or_else (lookup keys h k) (some null) =
          rw (same_refl k) at g in
        elim (Option-cases (lookup keys h k)) [
          | inl n ↦ rw g' (rw n (λ x. cc))
          | inr (v, n) ↦ rw g' (rw n (λ x. cc))
        ]
  ]

  -- For a well-formed table and an allocator that gives less than 2 ^ 60 buckets at a time,
  -- where unc0_puthtbls returns 0 and a value is written through its pointer, the table is
  -- well-formed, `k` has that value, and all other keys are found as before.
  pub lookup-store-put :
      (room : ℕ → Bool) (entry : Bool) (null v : V) (h : Table K V) (k l : K)
      → IsTable keys h
      → Fits room
      → (put keys room entry null h k).1 ≡ 0
      → IsTable keys (store keys (put keys room entry null h k).0 k v)
        × (lookup keys (store keys (put keys room entry null h k).0 k v) l
            ≡ (if same l k then some v else lookup keys h l))
  lookup-store-put room entry null v h k l t f z =
      let n = put_found room entry null h k t f z in
      let t' = put-IsTable keys room entry null h k t f in
      (
        store-IsTable (put keys room entry null h k).0 k v t' n,
        lookup-store (put keys room entry null h k).0 k l v t' n ∙ (elim (Bool-cases (same l k)) [
          | inl s ↦ rw s refl
          | inr s ↦ rw s (elim (lookup-put keys room entry null h k l t f) [
            | inr (e, a, b, c) ↦ absurd (omega (arith, e, z))
            | inl (e, g) ↦ (rw s at g)
          ])
        ]),
      )
