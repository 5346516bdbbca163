-- ===== src/HashTable/Values.antt =====
-- The tables of src/uhash.c that are keyed by values, whose hash unc0_hashvalue may refuse. The
-- values, their hashes and unc0_vveq are a parameter.
use uncil.Prelude.{
  ℕ, ◌≡◌, refl, Bool, true, Option, some, none, if◌then◌else◌, ◌==◌, Bool-cases, inl, inr, arith,
  ◌∙◌,
}
use uncil.HashTable.{Keys, Table, lookup, put, delete, store}
use uncil.HashTable.Invariant.{IsTable, Fits}
use uncil.HashTable.Store.{lookup-store-put}
use uncil.HashTable.Delete.{lookup-delete}

-- Keys, and what unc0_hashvalue returns for each, the same for equal ones
pub record ValueKeys (K : Type 0) : Type 0 where
  pub keys : Keys K
  pub status : K → ℕ
  pub same_status : (a b : K) → keys.same a b ≡ true → status a ≡ status b

module _ {K V : Type 0} (values : ValueKeys K) where
  open values use {keys, status}

  -- unc0_gethtblv
  unfoldable pub get_value : Table K V → K → Option V
  get_value h k = if status k == 0 then lookup keys h k else none

  -- unc0_puthtblv
  unfoldable pub put_value : (ℕ → Bool) → Bool → V → Table K V → K → Table K V × ℕ
  put_value room entry null h k =
      if status k == 0 then put keys room entry null h k else (h, status k)

  -- unc0_delhtblv
  unfoldable pub delete_value : Table K V → K → Table K V × ℕ
  delete_value h k = if status k == 0 then (delete keys h k, 0) else (h, status k)

  -- For a well-formed table, after unc0_delhtblv, whether or not unc0_hashvalue refuses the
  -- key, unc0_gethtblv does not find `k` and finds all other keys as before.
  get_value-delete_value :
      (h : Table K V) (k l : K)
      → IsTable keys h
      → get_value (delete_value h k).0 l ≡ (if keys.same l k then none else get_value h l)
  unfolding get_value delete_value
  get_value-delete_value h k l t = elim (Bool-cases (keys.same l k)) [
    | inl s ↦
        let e = values.same_status l k s in
        elim (Bool-cases (status k == 0)) [
          | inl z ↦ rw (s, e, z) (lookup-delete keys h k l t ∙ rw s refl)
          | inr z ↦ rw (s, e, z) refl
        ]
    | inr s ↦ elim (Bool-cases (status l == 0)) [
      | inr z ↦ rw (s, z) refl
      | inl z ↦ elim (Bool-cases (status k == 0)) [
        | inl y ↦ rw (s, z, y) (lookup-delete keys h k l t ∙ rw s refl)
        | inr y ↦ rw (s, z, y) refl
      ]
    ]
  ]

  -- assign
  pub get_value-put_value :
      (room : ℕ → Bool) (entry : Bool) (null v : V) (h : Table K V) (k l : K)
      → IsTable keys h
      → Fits room
      → (put_value room entry null h k).1 ≡ 0
      → IsTable keys (store keys (put_value room entry null h k).0 k v)
        × (get_value (store keys (put_value room entry null h k).0 k v) l
            ≡ (if keys.same l k then some v else get_value h l))
  unfolding get_value put_value
  get_value-put_value room entry null v h k l t f z = elim (Bool-cases (status k == 0)) [
    | inr y ↦ let e : status k ≡ 0 = rw y at z in absurd (ground arith)
    | inl y ↦
        let r = lookup-store-put keys room entry null v h k l t f (rw y at z) in
        elim (Bool-cases (keys.same l k)) [
          | inl s ↦ let e = values.same_status l k s in rw (y, s, e, y) ((r.0, r.1 ∙ rw s refl))
          | inr s ↦ elim (Bool-cases (status l == 0)) [
            | inl x ↦ rw (y, s, x) ((r.0, r.1 ∙ rw s refl))
            | inr x ↦ rw (y, s, x) ((r.0, refl))
          ]
        ]
  ]
