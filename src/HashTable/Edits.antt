-- ===== src/HashTable/Edits.antt =====
-- Writing to an entry of a chain of a hash table, and taking one out.
use uncil.Prelude.{
  ℕ, suc, ◌≡◌, ◌≢◌, refl, ap, ◌∙◌, true, false, List, [], ◌∷◌, none, some, Bool-cases, inl, inr,
  length,
}
use uncil.HashTable.{Keys, find, store_chain, unlink}
use uncil.HashTable.Chains.{AllAt, Distinct, find_same}

same_apart :
    {K : Type 0} (keys : Keys K) (k k' l : K)
    → keys.same k k' ≡ true
    → keys.same k l ≡ false
    → keys.same l k' ≡ false
same_apart keys k k' l e h = elim (Bool-cases (keys.same l k')) [
  | inl g ↦ let t = keys.same_trans k k' l e (keys.same_sym l k' g) in absurd (cc)
  | inr g ↦ g
]

module _ {K V : Type 0} (keys : Keys K) where
  open keys use {hash, same, same_refl, same_sym, same_trans, same_hash}

  pub find-store_self :
      (k : K) (v : V) (c : List (K × V))
      → find keys k c ≢ none
      → find keys k (store_chain keys k v c) ≡ some v
  unfolding find store_chain
  find-store_self k v [] h = absurd (h refl)
  find-store_self k v ((k', w) ∷ c) h = elim (Bool-cases (same k k')) [
    | inl e ↦ rw (e, e) refl
    | inr e ↦ rw (e, e) (find-store_self k v c (λ f. h (rw e f)))
  ]

  pub find-store_ne :
      (k l : K) (v : V) (c : List (K × V))
      → same k l ≡ false
      → find keys l (store_chain keys k v c) ≡ find keys l c
  unfolding find store_chain
  find-store_ne k l v [] h = refl
  find-store_ne k l v ((k', w) ∷ c) h = elim (Bool-cases (same k k')) [
    | inl e ↦ let g = same_apart keys k k' l e h in rw (e, find, g) refl
    | inr e ↦ elim (Bool-cases (same l k')) [
      | inl g ↦ rw (e, find, g) refl
      | inr g ↦ rw (e, find, g) (find-store_ne k l v c h)
    ]
  ]

  pub find-unlink_ne :
      (k l : K) (c : List (K × V))
      → same k l ≡ false
      → find keys l (unlink keys k c) ≡ find keys l c
  unfolding find unlink
  find-unlink_ne k l [] h = refl
  find-unlink_ne k l ((k', w) ∷ c) h = elim (Bool-cases (same k k')) [
    | inl e ↦ let g = same_apart keys k k' l e h in rw (e, g) refl
    | inr e ↦ elim (Bool-cases (same l k')) [
      | inl g ↦ rw (e, find, g) refl
      | inr g ↦ rw (e, find, g) (find-unlink_ne k l c h)
    ]
  ]

  -- Nothing else turns up in a chain.
  pub find-store_gone :
      (k l : K) (v : V) (c : List (K × V))
      → find keys l c ≡ none
      → find keys l (store_chain keys k v c) ≡ none
  unfolding find store_chain
  find-store_gone k l v [] h = refl
  find-store_gone k l v ((k', w) ∷ c) h = elim (Bool-cases (same l k')) [
    | inl g ↦ let f : some w ≡ none = rw g at h in absurd (cc)
    | inr g ↦
        let f : find keys l c ≡ none = rw g at h in
        elim (Bool-cases (same k k')) [
          | inl e ↦ rw (e, find, g) f
          | inr e ↦ rw (e, find, g) (find-store_gone k l v c f)
        ]
  ]

  pub find-unlink_gone :
      (k l : K) (c : List (K × V)) → find keys l c ≡ none → find keys l (unlink keys k c) ≡ none
  unfolding find unlink
  find-unlink_gone k l [] h = refl
  find-unlink_gone k l ((k', w) ∷ c) h = elim (Bool-cases (same l k')) [
    | inl g ↦ let f : some w ≡ none = rw g at h in absurd (cc)
    | inr g ↦
        let f : find keys l c ≡ none = rw g at h in
        elim (Bool-cases (same k k')) [
          | inl e ↦ rw e f
          | inr e ↦ rw (e, find, g) (find-unlink_gone k l c f)
        ]
  ]

  pub find-unlink_self :
      (k : K) (c : List (K × V)) → Distinct keys c → find keys k (unlink keys k c) ≡ none
  unfolding find unlink
  find-unlink_self k [] h = refl
  find-unlink_self k ((k', w) ∷ c) h = elim (Bool-cases (same k k')) [
    | inl e ↦ rw e (find_same keys k k' c e ∙ h.0)
    | inr e ↦ rw (e, find, e) (find-unlink_self k c h.1)
  ]

  pub AllAt-store :
      (z i : ℕ) (k : K) (v : V) (c : List (K × V))
      → AllAt keys z i c
      → AllAt keys z i (store_chain keys k v c)
  unfolding store_chain
  AllAt-store z i k v [] h = tt
  AllAt-store z i k v ((k', w) ∷ c) h = elim (Bool-cases (same k k')) [
    | inl e ↦ rw e h
    | inr e ↦ rw e ((h.0, AllAt-store z i k v c h.1))
  ]

  pub AllAt-unlink :
      (z i : ℕ) (k : K) (c : List (K × V)) → AllAt keys z i c → AllAt keys z i (unlink keys k c)
  unfolding unlink
  AllAt-unlink z i k [] h = tt
  AllAt-unlink z i k ((k', w) ∷ c) h = elim (Bool-cases (same k k')) [
    | inl e ↦ rw e (h.1)
    | inr e ↦ rw e ((h.0, AllAt-unlink z i k c h.1))
  ]

  pub Distinct-store :
      (k : K) (v : V) (c : List (K × V)) → Distinct keys c → Distinct keys (store_chain keys k v c)
  unfolding store_chain
  Distinct-store k v [] h = tt
  Distinct-store k v ((k', w) ∷ c) h = elim (Bool-cases (same k k')) [
    | inl e ↦ rw e h
    | inr e ↦ rw e ((find-store_gone k k' v c h.0, Distinct-store k v c h.1))
  ]

  pub Distinct-unlink :
      (k : K) (c : List (K × V)) → Distinct keys c → Distinct keys (unlink keys k c)
  unfolding unlink
  Distinct-unlink k [] h = tt
  Distinct-unlink k ((k', w) ∷ c) h = elim (Bool-cases (same k k')) [
    | inl e ↦ rw e (h.1)
    | inr e ↦ rw e ((find-unlink_gone k k' c h.0, Distinct-unlink k c h.1))
  ]

  pub length-store : (k : K) (v : V) (c : List (K × V)) → length (store_chain keys k v c) ≡ length c
  unfolding store_chain
  length-store k v [] = refl
  length-store k v ((k', w) ∷ c) = elim (Bool-cases (same k k')) [
    | inl e ↦ rw e refl
    | inr e ↦ rw e (ap suc (length-store k v c))
  ]

  pub length-unlink :
      (k : K) (c : List (K × V)) → find keys k c ≢ none → suc (length (unlink keys k c)) ≡ length c
  unfolding unlink find
  length-unlink k [] h = absurd (h refl)
  length-unlink k ((k', w) ∷ c) h = elim (Bool-cases (same k k')) [
    | inl e ↦ rw e refl
    | inr e ↦ rw e (ap suc (length-unlink k c (λ f. h (rw e f))))
  ]
