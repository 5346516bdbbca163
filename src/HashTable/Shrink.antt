-- ===== src/HashTable/Shrink.antt =====
-- Half as many buckets: every key is found as before.
use uncil.Prelude.{
  ℕ, ◌+◌, ◌-◌, ◌*◌, ◌%◌, ◌≤◌, ◌<◌, ◌≡◌, ◌≢◌, inl, inr, refl, sym, ap, ◌∙◌, arith, List, [], ◌∷◌,
  ◌++◌, none, eq-cases, lt-cases, length, length-take, length-drop, take, drop, take_all, get_or,
}
use native.Mathlib.Nat.{mod-lt}
use uncil.HashTable.{Keys, Table, find, zip_append}
use uncil.HashTable.Buckets.{
  total, total-zip_append, total-halves, get_or-zip_append, length-zip_append, get_or-take,
  get_or-drop, get_or_out,
}
use uncil.HashTable.Chains.{
  or_else-none, AllAt, Distinct, AllAt-append, Distinct-append, find-append, find_elsewhere,
}
use uncil.HashTable.Invariant.{IsTable, IsCapacity}
use uncil.HashTable.Growth.{low_rest, high_rest}

module _ {K V : Type 0} (keys : Keys K) where
  open keys use {hash, same, same_refl, same_sym, same_trans, same_hash}

  AllAt-lower :
      (z c i : ℕ) (d : List (K × V)) → z ≡ c * 2 → i < c → AllAt keys z i d → AllAt keys c i d
  AllAt-lower z c i [] e b h = tt
  AllAt-lower z c i ((k, v) ∷ d) e b h =
      (low_rest (hash k) c z e (omega (arith, h.0)) ∙ h.0, AllAt-lower z c i d e b h.1)

  AllAt-upper :
      (z c i : ℕ) (d : List (K × V)) → z ≡ c * 2 → i < c → AllAt keys z (c + i) d → AllAt keys c i d
  AllAt-upper z c i [] e b h = tt
  AllAt-upper z c i ((k, v) ∷ d) e b h =
      let r = high_rest (hash k) c z e (omega arith) (omega (arith, h.0)) in
      (omega (arith, h.0), AllAt-upper z c i d e b h.1)

  -- The chain `i` of a table with half as many buckets
  module _ (h : Table K V) (t : IsTable keys h) (c : ℕ) (e : h.capacity ≡ c * 2) where
    length_lower : length (take c h.buckets) ≡ c
    length_lower = omega (arith, length-take {0} c h.buckets, t.sized)

    length_upper : length (take c (drop c h.buckets)) ≡ c
    length_upper =
        omega (arith, length-take {0} c (drop c h.buckets), length-drop {0} c h.buckets, t.sized)

    halves_at :
        (i : ℕ)
        → i < c
        → get_or (zip_append (take c h.buckets) (take c (drop c h.buckets))) i []
          ≡ get_or h.buckets i [] ++ get_or h.buckets (c + i) []
    halves_at i b =
        get_or-zip_append (take c h.buckets) (take c (drop c h.buckets)) i
          (omega (arith, length_lower, length_upper))
        ∙ rw
            (
              get_or-take c h.buckets i [] b,
              get_or-take c (drop c h.buckets) i [] b,
              get_or-drop c h.buckets i [],
            )
            refl

    halves_out :
        (i : ℕ)
        → c ≤ i
        → get_or (zip_append (take c h.buckets) (take c (drop c h.buckets))) i [] ≡ []
    halves_out i b = get_or_out (zip_append (take c h.buckets) (take c (drop c h.buckets))) i [] (
        omega (
          arith,
          length-zip_append (take c h.buckets) (take c (drop c h.buckets))
              (omega (arith, length_lower, length_upper)),
          length_lower,
        ))

    halves_placed :
        (i : ℕ)
        → AllAt keys c i (get_or (zip_append (take c h.buckets) (take c (drop c h.buckets))) i [])
    halves_placed i = elim (lt-cases i c) [
      | inr b ↦ rw (halves_out i b) tt
      | inl b ↦ rw (halves_at i b) (
          AllAt-append keys c i (get_or h.buckets i []) (get_or h.buckets (c + i) [])
            (AllAt-lower h.capacity c i (get_or h.buckets i []) e b (t.placed i))
            (AllAt-upper h.capacity c i (get_or h.buckets (c + i) []) e b (t.placed (c + i))))
    ]

    -- A key of one half is not in the chain of the other.
    other_half :
        (i j : ℕ) (k : K)
        → i ≢ j
        → find keys k (get_or h.buckets i []) ≢ none
        → find keys k (get_or h.buckets j []) ≡ none
    other_half i j k b n = elim (eq-cases (hash k % h.capacity) j) [
      | inl y ↦ absurd (
          n (
            find_elsewhere keys h.capacity i k (get_or h.buckets i []) (t.placed i)
              (λ x. b (sym x ∙ y))))
      | inr y ↦ find_elsewhere keys h.capacity j k (get_or h.buckets j []) (t.placed j) y
    ]

    halves-Distinct :
        (i : ℕ)
        → Distinct keys (get_or (zip_append (take c h.buckets) (take c (drop c h.buckets))) i [])
    halves-Distinct i = elim (lt-cases i c) [
      | inr b ↦ rw (halves_out i b) tt
      | inl b ↦ rw (halves_at i b) (
          Distinct-append keys (get_or h.buckets i []) (get_or h.buckets (c + i) []) (t.distinct i)
            (t.distinct (c + i)) (λ k. other_half i (c + i) k (λ f. omega arith)))
    ]

    total-halves_all : total (zip_append (take c h.buckets) (take c (drop c h.buckets))) ≡ h.entries
    total-halves_all =
        let all : take c (drop c h.buckets) ≡ drop c h.buckets =
          take_all c (drop c h.buckets) (omega (arith, length-drop {0} c h.buckets, t.sized)) in
        omega (
          arith,
          total-zip_append (take c h.buckets) (take c (drop c h.buckets))
              (omega (arith, length_lower, length_upper)),
          ap total all,
          total-halves c h.buckets,
          t.counted,
        )

    pub IsTable-halves :
        IsCapacity c
        → h.entries ≤ c
        → IsTable keys (record {
          entries = h.entries;
          capacity = c;
          buckets = zip_append (take c h.buckets) (take c (drop c h.buckets));
        })
    IsTable-halves p b = record {
      sized =
          length-zip_append (take c h.buckets) (take c (drop c h.buckets))
            (omega (arith, length_lower, length_upper))
          ∙ length_lower;
      power = p;
      counted = total-halves_all;
      within = omega (arith, b);
      placed = halves_placed;
      distinct = halves-Distinct;
    }

    pub find-halves :
        (k : K)
        → 0 < c
        → find keys k
            (get_or (zip_append (take c h.buckets) (take c (drop c h.buckets))) (hash k % c) [])
          ≡ find keys k (get_or h.buckets (hash k % h.capacity) [])
    find-halves k p =
        let i = hash k % c in
        let j = hash k % h.capacity in
        let lower : List (K × V) = get_or h.buckets i [] in
        let upper : List (K × V) = get_or h.buckets (c + i) [] in
        ap (find keys k) (halves_at i (mod-lt (hash k) p))
        ∙ find-append keys k lower upper
        ∙ elim (lt-cases j c) [
          | inl b ↦
              let r : i ≡ j = low_rest (hash k) c h.capacity e b in
              let u : find keys k upper ≡ none =
                find_elsewhere keys h.capacity (c + i) k upper (t.placed (c + i))
                  (λ f. omega arith) in
              rw u (
                or_else-none (find keys k lower)
                ∙ ap (λ (m : ℕ). find keys k (get_or h.buckets m [])) r)
          | inr b ↦
              let r : i ≡ j - c = high_rest (hash k) c h.capacity e p b in
              let u : find keys k lower ≡ none =
                find_elsewhere keys h.capacity i k lower (t.placed i)
                  (λ f. omega (arith, mod-lt (hash k) p)) in
              rw u (ap (λ (m : ℕ). find keys k (get_or h.buckets m [])) (omega arith))
        ]
