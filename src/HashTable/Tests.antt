-- ===== src/HashTable/Tests.antt =====
-- Runs of the hash tables of src/uhash.c, and the theorems at concrete tables.
use uncil.Prelude.{
  ℕ, ◌+◌, ◌-◌, ◌*◌, ◌^◌, ◌≤◌, ◌≡◌, ◌≢◌, inl, ◌⊎◌, refl, arith, Bool, true, false, List, [], ◌∷◌,
  Option, some, none, ltb, if◌then◌else◌, suc, get_or, ap,
}
use uncil.Prelude.Int.{pos, negsuc}
use uncil.Blob.{memcmp}
use uncil.HashTable.{
  Table, err_mem, empty, keep, zip_append, find, lookup, rehash, grow, append_entry, insert, put,
  store_chain, store, shrink, unlink, delete, compact_loop, compact,
}
use uncil.HashTable.Buckets.{total}
use uncil.HashTable.Chains.{or_else}
use uncil.HashTable.Invariant.{IsTable, IsTable-nothing, Fits}
use uncil.HashTable.Spare.{wanted}
use uncil.HashTable.Put.{put-IsTable, lookup-put}
use uncil.HashTable.Store.{lookup-store-put}
use uncil.HashTable.Delete.{delete-IsTable, lookup-delete}
use uncil.HashTable.Compact.{compact_miscounts}
use uncil.HashTable.Strings.{same_key_equal, strings, hashstr, hashstr_loop, rotl_11, same_key}
use uncil.HashTable.Sets.{
  put_set, put_in_buckets, first_buckets, expand, IsIndex, Interned, index_or, Interned-put_set,
}
use uncil.HashTable.Values.{ValueKeys}
use uncil.HashTable.Names.{
  add_encoding, add_names, default_names, resolve_index, AllPut, resolve-default_names,
  add_encoding_silent,
}

abbrev room : ℕ → Bool
room n = ltb n 1000

room-Fits : Fits room
room-Fits n h = ground arith

abbrev no_names : Table (List ℕ) (Option ℕ)
no_names = empty

no_names-IsTable : IsTable strings no_names
no_names-IsTable = IsTable-nothing strings 0 0 refl refl

abbrev utf : List ℕ
utf = 0x75 ∷ 0x74 ∷ 0x66 ∷ []

hash_of_utf : hashstr utf ≡ 353048563
unfolding hashstr hashstr_loop rotl_11
hash_of_utf = refl

-- A table with one name
abbrev one : Table (List ℕ) (Option ℕ)
one = store strings (put strings room true none no_names utf).0 utf (some 7)

put_one : (put strings room true none no_names utf).1 ≡ 0
unfolding put lookup find insert grow append_entry
put_one = refl

one-IsTable : IsTable strings one
one-IsTable =
    (lookup-store-put strings room true none (some 7) no_names utf utf no_names-IsTable room-Fits
      put_one).0

all_put : AllPut (λ i. (room, true)) 0 default_names no_names
unfolding AllPut add_encoding put lookup find insert grow append_entry rehash keep store store_chain
    hashstr hashstr_loop rotl_11 same_key memcmp
all_put = (refl, (refl, (refl, (refl, (refl, (refl, (refl, tt)))))))

-- Deleting the name halves the four buckets.
two_buckets : (delete strings one utf).capacity ≡ 2
unfolding delete unlink shrink zip_append put lookup find insert grow append_entry store store_chain
    hashstr hashstr_loop rotl_11 same_key memcmp
two_buckets = refl

-- Compacting a single bucket with its one entry takes the entry.
abbrev single : Table (List ℕ) (Option ℕ)
single = record { entries = 1; capacity = 1; buckets = ((utf, some 7) ∷ []) ∷ [] }

single_lost :
    (lookup strings single utf ≡ some (some 7))
    × (compact strings single ≡ some (record { entries = 2 ^ 64 - 1; capacity = 0; buckets = [] }))
unfolding compact compact_loop shrink zip_append lookup find hashstr hashstr_loop rotl_11 same_key
    memcmp
single_lost = (refl, refl)

put-IsTable_example : IsTable strings (put strings room true none one (0x75 ∷ [])).0
put-IsTable_example = put-IsTable strings room true none one (0x75 ∷ []) one-IsTable room-Fits

lookup-put_example :
    (((put strings room false none one (0x75 ∷ [])).1 ≡ 0)
      × (lookup strings (put strings room false none one (0x75 ∷ [])).0 utf ≡ (
          if same_key utf (0x75 ∷ [])
          then or_else (lookup strings one (0x75 ∷ [])) (some none)
          else lookup strings one utf)))
    ⊎ (((put strings room false none one (0x75 ∷ [])).1 ≡ err_mem)
        × (lookup strings (put strings room false none one (0x75 ∷ [])).0 utf
            ≡ lookup strings one utf)
        × (lookup strings one (0x75 ∷ []) ≡ none)
        × ((false ≡ false) ⊎ (room (wanted strings one) ≡ false)))
lookup-put_example = lookup-put strings room false none one (0x75 ∷ []) utf one-IsTable room-Fits

delete-IsTable_example : IsTable strings (delete strings one utf)
delete-IsTable_example = delete-IsTable strings one utf one-IsTable

lookup-delete_example :
    lookup strings (delete strings one utf) utf
    ≡ (if same_key utf utf then none else lookup strings one utf)
lookup-delete_example = lookup-delete strings one utf utf one-IsTable

resolve-default_names_example :
    resolve_index
      (add_names (λ i. (room, true)) 0 default_names no_names)
      (get_or default_names 5 [])
    ≡ some (pos 5)
resolve-default_names_example =
    resolve-default_names (λ i. (room, true)) no_names 5 (λ j. room-Fits) no_names-IsTable all_put
      (omega arith)

put_fails : (put strings room false none no_names utf).1 ≢ 0
unfolding put lookup find insert grow
put_fails = λ e. omega (arith, e)

add_encoding_silent_example :
    ((add_encoding (room, false) no_names 3 utf).1 ≡ 0)
    × (resolve_index (add_encoding (room, false) no_names 3 utf).0 utf ≡ resolve_index no_names utf)
    × (resolve_index no_names utf ≡ some (negsuc 0))
add_encoding_silent_example =
    add_encoding_silent (room, false) no_names 3 utf utf no_names-IsTable room-Fits put_fails

-- Values with the strings' hash, of which the empty one is refused
abbrev refusing : ValueKeys (List ℕ)
refusing = record {
  keys = strings;
  status = λ k. elim k [ [] ↦ 0x0401 | _ ↦ 0 ];
  same_status = λ a b h.
      ap (λ (k : List ℕ). elim k as (λ _. ℕ) [ [] ↦ 0x0401 | _ ↦ 0 ]) (same_key_equal a b h);
}

-- A table with three names in its four buckets
abbrev three : Table (List ℕ) (Option ℕ)
three = (put strings room true none (put strings room true none one (0x75 ∷ [])).0 (0x76 ∷ [])).0

three-IsTable : IsTable strings three
three-IsTable =
    put-IsTable strings room true none (put strings room true none one (0x75 ∷ [])).0 (0x76 ∷ [])
      (put-IsTable strings room true none one (0x75 ∷ []) one-IsTable room-Fits) room-Fits

three_full : three.capacity + 2 ≤ three.entries * 2
unfolding put lookup find insert grow append_entry rehash keep store store_chain hashstr
    hashstr_loop rotl_11 same_key memcmp
three_full = omega arith

compact_miscounts_example :
    (h' : Table (List ℕ) (Option ℕ)) × (compact strings three ≡ some h')
    × (h'.buckets ≡ three.buckets)
    × (suc h'.entries ≡ total h'.buckets)
compact_miscounts_example = compact_miscounts strings three three-IsTable three_full

-- The second time, a string has its first index.
abbrev names : Table (List ℕ) ℕ
names = (put_set room true empty utf 0).0

abbrev nothing : Table (List ℕ) ℕ
nothing = empty

nothing-IsIndex : IsIndex nothing
nothing-IsIndex = record {
  sized = refl;
  power = (omega arith, inl refl);
  counted = refl;
  within = omega arith;
  placed = λ i. tt;
  distinct = λ i. tt;
}

Interned-put_set_example :
    IsIndex (put_set room true names utf 1).0
    × Interned names utf
        (index_or (lookup strings names utf) 1)
        (0x75 ∷ [])
        (put_set room true names utf 1)
Interned-put_set_example =
    Interned-put_set room true names utf 1 (0x75 ∷ [])
      (Interned-put_set room true empty utf 0 utf nothing-IsIndex room-Fits).0 room-Fits

first_index : (put_set room true names utf 1).1 ≡ some 0
unfolding put_set put_in_buckets first_buckets expand lookup find append_entry hashstr hashstr_loop
    rotl_11 same_key memcmp
first_index = refl
