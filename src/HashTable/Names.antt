-- ===== src/HashTable/Names.antt =====
-- The table of the names of encodings, of src/utxt.c, which is a hash table of src/uhash.c. A value
-- of it is an integer, or null where nothing has been written to it.
use uncil.Prelude.{
  ℕ, zero, suc, ◌+◌, ◌<◌, ◌≡◌, ◌≢◌, inl, inr, refl, ◌∙◌, arith, Bool, true, false, List, [], ◌∷◌,
  Option, some, none, if◌then◌else◌, length, get_or, ◌==◌,
}
use uncil.Prelude.Int.{ℤ, pos, negsuc}
use uncil.HashTable.{Table, lookup, put, store}
use uncil.Blob.{memcmp}
use uncil.HashTable.Put.{lookup-put}
use uncil.HashTable.Invariant.{IsTable, Fits}
use uncil.HashTable.Store.{lookup-store-put}
use uncil.HashTable.Strings.{strings, same_key, same_key_self}

-- What the allocator answers: for the buckets and for the new entry.
abbrev pub Grants : Type 0
Grants = (ℕ → Bool) × Bool

-- unc0_addencoding, which returns 0 whether or not the name could be put
unfoldable pub add_encoding :
    Grants → Table (List ℕ) (Option ℕ) → ℕ → List ℕ → Table (List ℕ) (Option ℕ) × ℕ
add_encoding g t ctr name =
    let r = put strings g.0 g.1 none t name in
    ((if r.1 == 0 then store strings r.0 name (some ctr) else r.0), 0)

-- unc0_resolveencindex; `none` is the integer of a null
unfoldable pub resolve_index : Table (List ℕ) (Option ℕ) → List ℕ → Option ℤ
resolve_index t name = elim (lookup strings t name) [
  | none ↦ some (negsuc 0)
  | some none ↦ none
  | some (some i) ↦ some (pos i)
]

-- The names in the order of unc0_adddefaultencs
abbrev pub default_names : List (List ℕ)
default_names =
    (0x75 ∷ 0x74 ∷ 0x66 ∷ 0x38 ∷ [])
    ∷ (0x75 ∷ 0x74 ∷ 0x66 ∷ 0x31 ∷ 0x36 ∷ 0x6c ∷ 0x65 ∷ [])
    ∷ (0x75 ∷ 0x74 ∷ 0x66 ∷ 0x31 ∷ 0x36 ∷ 0x62 ∷ 0x65 ∷ [])
    ∷ (0x75 ∷ 0x74 ∷ 0x66 ∷ 0x33 ∷ 0x32 ∷ 0x6c ∷ 0x65 ∷ [])
    ∷ (0x75 ∷ 0x74 ∷ 0x66 ∷ 0x33 ∷ 0x32 ∷ 0x62 ∷ 0x65 ∷ [])
    ∷ (0x61 ∷ 0x73 ∷ 0x63 ∷ 0x69 ∷ 0x69 ∷ [])
    ∷ (0x6c ∷ 0x61 ∷ 0x74 ∷ 0x69 ∷ 0x6e ∷ 0x31 ∷ [])
    ∷ []

-- The ADD_ENC of unc0_adddefaultencs
unfoldable pub add_names :
    (ℕ → Grants) → ℕ → List (List ℕ) → Table (List ℕ) (Option ℕ) → Table (List ℕ) (Option ℕ)
add_names g ctr [] t = t
add_names g ctr (name ∷ names) t = add_names g (suc ctr) names (add_encoding (g ctr) t ctr name).0

-- A name that is not among some, and names that differ from those behind them.
abbrev Absent : List ℕ → List (List ℕ) → Type 0
Absent l [] = Unit {0}
Absent l (name ∷ names) = (same_key l name ≡ false) × Absent l names

abbrev Apart : List (List ℕ) → Type 0
Apart [] = Unit {0}
Apart (name ∷ names) = Absent name names × Apart names

-- Everything that is put fits.
unfoldable pub AllPut : (ℕ → Grants) → ℕ → List (List ℕ) → Table (List ℕ) (Option ℕ) → Type 0
AllPut g ctr [] t = Unit {0}
AllPut g ctr (name ∷ names) t =
    ((put strings (g ctr).0 (g ctr).1 none t name).1 ≡ 0)
    × AllPut g (suc ctr) names (add_encoding (g ctr) t ctr name).0

module _ (g : ℕ → Grants) (fits : (i : ℕ) → Fits (g i).0) where
  add_step :
      (ctr : ℕ) (name : List ℕ) (t : Table (List ℕ) (Option ℕ)) (l : List ℕ)
      → IsTable strings t
      → (put strings (g ctr).0 (g ctr).1 none t name).1 ≡ 0
      → IsTable strings (add_encoding (g ctr) t ctr name).0
        × (lookup strings (add_encoding (g ctr) t ctr name).0 l
            ≡ (if same_key l name then some (some ctr) else lookup strings t l))
  unfolding add_encoding
  add_step ctr name t l w z =
      let y : ((put strings (g ctr).0 (g ctr).1 none t name).1 == 0) ≡ true = ground arith in
      rw y (lookup-store-put strings (g ctr).0 (g ctr).1 none (some ctr) t name l w (fits ctr) z)

  -- A name that is not among those that are added is found as before.
  add_others :
      (ctr : ℕ) (names : List (List ℕ)) (t : Table (List ℕ) (Option ℕ)) (l : List ℕ)
      → IsTable strings t
      → AllPut g ctr names t
      → Absent l names
      → lookup strings (add_names g ctr names t) l ≡ lookup strings t l
  unfolding add_names AllPut
  add_others ctr [] t l w p a = refl
  add_others ctr (name ∷ names) t l w p a =
      let s = add_step ctr name t l w p.0 in
      add_others (suc ctr) names (add_encoding (g ctr) t ctr name).0 l s.0 p.1 a.1
      ∙ (s.1 ∙ rw (a.0) refl)

  add_all :
      (ctr i : ℕ) (names : List (List ℕ)) (t : Table (List ℕ) (Option ℕ))
      → IsTable strings t
      → AllPut g ctr names t
      → Apart names
      → i < length names
      → lookup strings (add_names g ctr names t) (get_or names i []) ≡ some (some (ctr + i))
  unfolding add_names AllPut
  add_all ctr i [] t w p a h = absurd (omega arith)
  add_all ctr zero (name ∷ names) t w p a h =
      let s = add_step ctr name t name w p.0 in
      let e : ctr + 0 ≡ ctr = omega arith in
      rw e (
        add_others (suc ctr) names (add_encoding (g ctr) t ctr name).0 name s.0 p.1 a.0
        ∙ (s.1 ∙ rw (same_key_self name) refl))
  add_all ctr (suc i) (name ∷ names) t w p a h =
      let s = add_step ctr name t name w p.0 in
      let e : ctr + suc i ≡ suc ctr + i = omega arith in
      rw e (add_all (suc ctr) i names (add_encoding (g ctr) t ctr name).0 s.0 p.1 a.1 (omega arith))

default-Apart : Apart default_names
unfolding same_key memcmp
default-Apart = (
  (refl, (refl, (refl, (refl, (refl, (refl, tt)))))),
  (
    (refl, (refl, (refl, (refl, (refl, tt))))),
    (
      (refl, (refl, (refl, (refl, tt)))),
      ((refl, (refl, (refl, tt))), ((refl, (refl, tt)), ((refl, tt), (tt, tt)))),
    ),
  ),
)

-- For a well-formed table and allocators that give less than 2 ^ 60 buckets at a time, where
-- all the names of unc0_adddefaultencs are put, unc0_resolveencindex gives for each of the
-- seven names its place in their order.
pub resolve-default_names :
    (g : ℕ → Grants) (t : Table (List ℕ) (Option ℕ)) (i : ℕ)
    → ((j : ℕ) → Fits (g j).0)
    → IsTable strings t
    → AllPut g 0 default_names t
    → i < 7
    → resolve_index (add_names g 0 default_names t) (get_or default_names i []) ≡ some (pos i)
unfolding resolve_index
resolve-default_names g t i f w p h =
    let e : 0 + i ≡ i = omega arith in
    rw (resolve_index, add_all g f 0 i default_names t w p default-Apart h, e) refl

-- status
pub add_encoding_silent :
    (g : Grants) (t : Table (List ℕ) (Option ℕ)) (ctr : ℕ) (name l : List ℕ)
    → IsTable strings t
    → Fits g.0
    → (put strings g.0 g.1 none t name).1 ≢ 0
    → ((add_encoding g t ctr name).1 ≡ 0)
      × (resolve_index (add_encoding g t ctr name).0 l ≡ resolve_index t l)
      × (resolve_index t name ≡ some (negsuc 0))
unfolding add_encoding resolve_index
add_encoding_silent g t ctr name l w f n =
    let y : ((put strings g.0 g.1 none t name).1 == 0) ≡ false = ground arith in
    elim (lookup-put strings g.0 g.1 none t name l w f) [
      | inl (e, a) ↦ absurd (n e)
      | inr (e, a, b, c) ↦ (refl, (rw (y, resolve_index, a) refl), (rw (resolve_index, b) refl))
    ]
