-- ===== src/HashTable.antt =====
-- The chained hash tables of src/uhash.c. The tables that are keyed by strings (Unc_HTblS) and by
-- values (Unc_HTblV) have the same code over their keys, which is written once here, for any keys
-- with a hash and an equality; Strings and Values have the keys.
--
-- A chain is the list of its keys and values from the bucket on, so `*p = o` at the end of the
-- walk appends. Null `buckets` are an empty list. Whether unc0_malloc gives a block of so many
-- pointers or one entry is a parameter. What a caller writes through the pointer that a put hands
-- out is `store`. `shrinks` asks for a smaller block and takes what it gets; here that is the block
-- with the lower half of the buckets.
pub mod Buckets
pub mod Chains
pub mod Edits
pub mod Invariant
pub mod Growth
pub mod Spare
pub mod Put
pub mod Store
pub mod Shrink
pub mod Strings
pub mod Names
pub mod Sets
pub mod Values
mod Tests
pub mod Compact
pub mod Delete
use uncil.Prelude.{
  ℕ, zero, suc, ◌+◌, ◌-◌, ◌*◌, ◌/◌, ◌%◌, ◌^◌, ◌<◌, ◌≡◌, Bool, true, false, not, ◌&&◌, ◌||◌, List,
  [], ◌∷◌, ◌++◌, map, Option, none, some, ltb, leb, ◌==◌, if◌then◌else◌, length, take, drop, get_or,
  set, replicate,
}

-- What a table needs of its keys: equal keys have equal hashes.
pub record Keys (K : Type 0) : Type 0 where
  pub hash : K → ℕ
  pub same : K → K → Bool
  pub same_refl : (a : K) → same a a ≡ true
  pub same_sym : (a b : K) → same a b ≡ true → same b a ≡ true
  pub same_trans : (a b c : K) → same a b ≡ true → same b c ≡ true → same a c ≡ true
  pub same_hash : (a b : K) → same a b ≡ true → hash a ≡ hash b

-- Unc_HTblS and Unc_HTblV
pub record Table (K V : Type 0) : Type 0 where
  pub entries : ℕ
  pub capacity : ℕ
  pub buckets : List (List (K × V))

-- UNCIL_ERR_MEM
abbrev pub err_mem : ℕ
err_mem = 0x0100

module _ {A : Type 0} where
  unfoldable pub keep : (A → Bool) → List A → List A
  keep p [] = []
  keep p (x ∷ xs) = let rest = keep p xs in if p x then x ∷ rest else rest

  unfoldable pub zip_append : List (List A) → List (List A) → List (List A)
  zip_append [] bs = []
  zip_append (a ∷ as') [] = a ∷ as'
  zip_append (a ∷ as') (b ∷ bs) = (a ++ b) ∷ zip_append as' bs

-- unc0_inithtbls and unc0_inithtblv
abbrev pub empty : {K V : Type 0} → Table K V
empty = record { entries = 0; capacity = 0; buckets = [] }

module _ {K V : Type 0} (keys : Keys K) where
  open keys use {hash, same}

  -- The walk along a chain in unc0_lookuphtbls and unc0_lookuphtblv
  unfoldable pub find : K → List (K × V) → Option V
  find k [] = none
  find k ((k', v) ∷ c) = let rest = find k c in if same k k' then some v else rest

  -- unc0_lookuphtbls
  unfoldable pub lookup : Table K V → K → Option V
  lookup h k = find k (get_or h.buckets (hash k % h.capacity) [])

  -- The loop that moves the chains of `z` buckets to `2 * z`, in their order
  unfoldable pub rehash : ℕ → List (List (K × V)) → List (List (K × V))
  unfolding keep
  rehash z bb =
      map (keep (λ e. not (leb z (hash e.0 % (z * 2 % 2 ^ 64))))) bb
      ++ map (keep (λ e. leb z (hash e.0 % (z * 2 % 2 ^ 64)))) bb

  -- `if (!h->capacity || h->entries == h->capacity) { ... }`; `none` is a failed allocation
  unfoldable pub grow : (ℕ → Bool) → Table K V → Option (Table K V)
  grow room h =
      let z = h.capacity in
      let nz = if z == 0 then 4 else z * 2 % 2 ^ 64 in
      if z == 0 || (h.entries == z)
      then (if room nz
          then some (record {
            entries = h.entries;
            capacity = nz;
            buckets = if z == 0 then replicate 4 [] else rehash z h.buckets;
          })
          else none)
      else some h

  -- The new entry at the end of its chain
  unfoldable pub append_entry : K → V → Table K V → Table K V
  append_entry k v h =
      let i = hash k % h.capacity in
      record {
        entries = (h.entries + 1) % 2 ^ 64;
        capacity = h.capacity;
        buckets = set h.buckets i (get_or h.buckets i [] ++ (k, v) ∷ []);
      }

  -- What unc0_puthtbls does for a key that is not there, and unc0_inserthtblv. `room` answers for
  -- the buckets and `entry` for the new entry.
  unfoldable pub insert : (ℕ → Bool) → Bool → V → Table K V → K → Table K V × ℕ
  unfolding append_entry
  insert room entry null h k = elim (grow room h) [
    | none ↦ (h, err_mem)
    | some h' ↦ if entry then (append_entry k null h', 0) else (h', err_mem)
  ]

  -- unc0_puthtbls
  unfoldable pub put : (ℕ → Bool) → Bool → V → Table K V → K → Table K V × ℕ
  put room entry null h k = elim (lookup h k) [
    | some v ↦ (h, 0)
    | none ↦ insert room entry null h k
  ]

  -- Writing through the pointer to the value of `k`
  unfoldable pub store_chain : K → V → List (K × V) → List (K × V)
  store_chain k v [] = []
  store_chain k v ((k', w) ∷ c) =
      let rest = store_chain k v c in if same k k' then (k', v) ∷ c else (k', w) ∷ rest

  unfoldable pub store : Table K V → K → V → Table K V
  unfolding store_chain
  store h k v =
      let i = hash k % h.capacity in
      record {
        entries = h.entries;
        capacity = h.capacity;
        buckets = set h.buckets i (store_chain k v (get_or h.buckets i []));
      }

  -- shrinks: the chains of the upper half behind those of the lower
  unfoldable pub shrink : Table K V → Table K V
  unfolding zip_append
  shrink h =
      let c = h.capacity / 2 in
      record {
        entries = h.entries;
        capacity = c;
        buckets = zip_append (take c h.buckets) (take c (drop c h.buckets));
      }

  unfoldable pub unlink : K → List (K × V) → List (K × V)
  unlink k [] = []
  unlink k ((k', v) ∷ c) = let rest = unlink k c in if same k k' then c else (k', v) ∷ rest

  -- unc0_delhtbls
  unfoldable pub delete : Table K V → K → Table K V
  unfolding unlink
  delete h k =
      let i = hash k % h.capacity in
      let n = (h.entries + (2 ^ 64 - 1)) % 2 ^ 64 in
      let h' : Table K V = record {
        entries = n;
        capacity = h.capacity;
        buckets = set h.buckets i (unlink k (get_or h.buckets i []));
      } in
      elim (lookup h k) [
        | none ↦ h
        | some v ↦ if ltb (n * 4 % 2 ^ 64) h.capacity then shrink h' else h'
      ]

  -- unc0_compacthtbls: `while (--h->entries * 2 < h->capacity) shrinks(w, h);`, `none` if the
  -- fuel is too little
  unfoldable pub compact_loop : ℕ → Table K V → Option (Table K V)
  compact_loop zero h = none
  compact_loop (suc fuel) h =
      let n = (h.entries + (2 ^ 64 - 1)) % 2 ^ 64 in
      let h' : Table K V = record { entries = n; capacity = h.capacity; buckets = h.buckets } in
      let next = compact_loop fuel (shrink h') in
      if ltb (n * 2 % 2 ^ 64) h.capacity then next else some h'

  -- Each round halves the capacity.
  unfoldable pub compact : Table K V → Option (Table K V)
  compact h = compact_loop (suc h.capacity) h
