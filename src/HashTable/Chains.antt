-- ===== src/HashTable/Chains.antt =====
-- The chains of a hash table: what a walk finds in them, and where their keys belong.
use uncil.Prelude.{
  ℕ, ◌%◌, ◌≡◌, ◌≢◌, refl, ap, ◌∙◌, Bool, true, false, List, [], ◌∷◌, ◌++◌, Option, none, some,
  Bool-cases, inl, inr, if◌then◌else◌,
}
use uncil.HashTable.{Keys, keep, find}

-- The first of two results that is there
abbrev pub or_else : {V : Type 0} → Option V → Option V → Option V
or_else none o = o
or_else (some v) o = some v

pub or_else-none : {V : Type 0} (o : Option V) → or_else o none ≡ o
or_else-none none = refl
or_else-none (some v) = refl

pub same_false :
    {K : Type 0} (keys : Keys K) (a b c : K)
    → keys.same a b ≡ true
    → keys.same a c ≡ false
    → keys.same b c ≡ false
same_false keys a b c h k = elim (Bool-cases (keys.same b c)) [
  | inl e ↦ let t = keys.same_trans a b c h e in absurd (cc)
  | inr e ↦ e
]

module _ {K V : Type 0} (keys : Keys K) where
  open keys use {hash, same, same_refl, same_sym, same_trans, same_hash}

  -- All keys of the chain `i` of `z`
  abbrev pub AllAt : ℕ → ℕ → List (K × V) → Type 0
  AllAt z i [] = Unit {0}
  AllAt z i ((k, v) ∷ c) = (hash k % z ≡ i) × AllAt z i c

  abbrev pub Distinct : List (K × V) → Type 0
  Distinct [] = Unit {0}
  Distinct ((k, v) ∷ c) = (find keys k c ≡ none) × Distinct c

  pub find-append :
      (k : K) (c d : List (K × V)) → find keys k (c ++ d) ≡ or_else (find keys k c) (find keys k d)
  unfolding find
  find-append k [] d = refl
  find-append k ((k', v) ∷ c) d = elim (Bool-cases (same k k')) [
    | inl e ↦ rw e refl
    | inr e ↦ rw e (find-append k c d)
  ]

  -- Equal keys find the same.
  pub find_same : (k l : K) (c : List (K × V)) → same k l ≡ true → find keys k c ≡ find keys l c
  unfolding find
  find_same k l [] h = refl
  find_same k l ((k', v) ∷ c) h = elim (Bool-cases (same k k')) [
    | inl e ↦ let f = same_trans l k k' (same_sym k l h) e in rw (e, f) refl
    | inr e ↦ let f = same_false keys k l k' h e in rw (e, f) (find_same k l c h)
  ]

  -- A walk in the part of a chain that depends on the hash
  pub find-keep :
      (p : ℕ → Bool) (k : K) (c : List (K × V))
      → find keys k (keep (λ e. p (hash e.0)) c) ≡ (if p (hash k) then find keys k c else none)
  unfolding find keep
  find-keep p k [] = elim (Bool-cases (p (hash k))) [ inl e ↦ rw e refl | inr e ↦ rw e refl ]
  find-keep p k ((k', v) ∷ c) = elim (Bool-cases (same k k')) [
    | inl f ↦
        let g = same_hash k k' f in
        elim (Bool-cases (p (hash k'))) [
          | inl e ↦ rw (g, e, find, f) refl
          | inr e ↦ rw (e, find-keep p k c, g, e) refl
        ]
    | inr f ↦ elim (Bool-cases (p (hash k'))) [
      | inl e ↦ rw (e, find, f, find-keep p k c) refl
      | inr e ↦ rw (e, f, find-keep p k c) refl
    ]
  ]

  -- A key is not in the chain of another.
  pub find_elsewhere :
      (z i : ℕ) (k : K) (c : List (K × V)) → AllAt z i c → hash k % z ≢ i → find keys k c ≡ none
  unfolding find
  find_elsewhere z i k [] h n = refl
  find_elsewhere z i k ((k', v) ∷ c) h n = elim (Bool-cases (same k k')) [
    | inl e ↦ absurd (n (ap (λ (t : ℕ). t % z) (same_hash k k' e) ∙ h.0))
    | inr e ↦ rw e (find_elsewhere z i k c h.1 n)
  ]

  pub AllAt-append : (z i : ℕ) (c d : List (K × V)) → AllAt z i c → AllAt z i d → AllAt z i (c ++ d)
  AllAt-append z i [] d h g = g
  AllAt-append z i ((k, v) ∷ c) d h g = (h.0, AllAt-append z i c d h.1 g)

  -- Chains with no key in common
  pub Distinct-append :
      (c d : List (K × V))
      → Distinct c
      → Distinct d
      → ((k : K) → find keys k c ≢ none → find keys k d ≡ none)
      → Distinct (c ++ d)
  unfolding find
  Distinct-append [] d h g f = g
  Distinct-append ((k, v) ∷ c) d h g f = (
    find-append k c d ∙ rw (h.0) (f k (rw (same_refl k) (λ e. cc))),
    Distinct-append c d h.1 g (λ l n.
        f l (elim (Bool-cases (same l k)) [
          | inl e ↦ rw (find, e) (λ t. cc)
          | inr e ↦ rw (find, e) n
        ])),
  )

  pub AllAt-keep :
      (z y i j : ℕ) (p : ℕ → Bool) (c : List (K × V))
      → ((n : ℕ) → n % z ≡ i → p n ≡ true → n % y ≡ j)
      → AllAt z i c
      → AllAt y j (keep (λ e. p (hash e.0)) c)
  unfolding keep
  AllAt-keep z y i j p [] f h = tt
  AllAt-keep z y i j p ((k, v) ∷ c) f h = elim (Bool-cases (p (hash k))) [
    | inl e ↦ rw e ((f (hash k) h.0 e, AllAt-keep z y i j p c f h.1))
    | inr e ↦ rw e (AllAt-keep z y i j p c f h.1)
  ]

  pub Distinct-keep :
      (p : ℕ → Bool) (c : List (K × V)) → Distinct c → Distinct (keep (λ e. p (hash e.0)) c)
  unfolding keep
  Distinct-keep p [] h = tt
  Distinct-keep p ((k, v) ∷ c) h = elim (Bool-cases (p (hash k))) [
    | inl e ↦ let f = find-keep p k c in rw e ((rw (f, e) (h.0), Distinct-keep p c h.1))
    | inr e ↦ rw e (Distinct-keep p c h.1)
  ]
