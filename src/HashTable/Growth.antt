-- ===== src/HashTable/Growth.antt =====
-- Twice as many buckets: every key is found as before.
use uncil.Prelude.{
  ℕ, ◌-◌, ◌*◌, ◌%◌, ◌^◌, ◌≤◌, ◌<◌, ◌≡◌, inl, inr, refl, sym, ap, subst, ◌∙◌, arith, Bool, true, not,
  List, [], map, Bool-cases, lt-cases, length, length-append, length-map, get_or, leb,
}
use uncil.HashTable.{Keys, Table, keep, lookup, rehash}
use uncil.HashTable.Buckets.{
  total, total-append, total-keep, get_or-append_left, get_or-append_right, get_or-keep,
}
use uncil.HashTable.Chains.{AllAt, Distinct, AllAt-keep, Distinct-keep, find-keep}
use uncil.HashTable.Invariant.{IsCapacity, IsTableWithin, IsCapacity-double, mod_low, mod_high}

pub low_rest : (n z y : ℕ) → y ≡ z * 2 → n % y < z → n % z ≡ n % y
low_rest n z y e = subst (λ (t : ℕ). n % t < z → n % z ≡ n % t) (sym e) (mod_low n z)

pub high_rest : (n z y : ℕ) → y ≡ z * 2 → 0 < z → z ≤ n % y → n % z ≡ n % y - z
high_rest n z y e p = subst (λ (t : ℕ). z ≤ n % t → n % z ≡ n % t - z) (sym e) (mod_high n z p)

not-leb : (a b : ℕ) → not (leb a b) ≡ true → b < a
not-leb a b h = ground arith

leb_le : (a b : ℕ) → leb a b ≡ true → a ≤ b
leb_le a b h = ground arith

module _ {K V : Type 0} (keys : Keys K) where
  open keys use {hash}

  rehash_low :
      (z : ℕ) (bb : List (List (K × V))) (i : ℕ)
      → length bb ≡ z
      → i < z
      → get_or (rehash keys z bb) i []
        ≡ keep (λ e. not (leb z (hash e.0 % (z * 2 % 2 ^ 64)))) (get_or bb i [])
  unfolding rehash
  rehash_low z bb i s h =
      let lo : K × V → Bool = λ e. not (leb z (hash e.0 % (z * 2 % 2 ^ 64))) in
      let hi : K × V → Bool = λ e. leb z (hash e.0 % (z * 2 % 2 ^ 64)) in
      get_or-append_left (map (keep lo) bb) (map (keep hi) bb) i []
        (omega (arith, length-map {0, 0} bb (keep lo)))
      ∙ get_or-keep lo bb i

  rehash_high :
      (z : ℕ) (bb : List (List (K × V))) (i : ℕ)
      → length bb ≡ z
      → z ≤ i
      → get_or (rehash keys z bb) i []
        ≡ keep (λ e. leb z (hash e.0 % (z * 2 % 2 ^ 64))) (get_or bb (i - z) [])
  unfolding rehash
  rehash_high z bb i s h =
      let lo : K × V → Bool = λ e. not (leb z (hash e.0 % (z * 2 % 2 ^ 64))) in
      let hi : K × V → Bool = λ e. leb z (hash e.0 % (z * 2 % 2 ^ 64)) in
      let n : length (map (keep lo) bb) ≡ z = length-map bb (keep lo) ∙ s in
      get_or-append_right (map (keep lo) bb) (map (keep hi) bb) i [] (omega arith)
      ∙ ap (λ (t : ℕ). get_or (map (keep hi) bb) (i - t) []) n
      ∙ get_or-keep hi bb (i - z)

  abbrev pub doubled : Table K V → Table K V
  doubled h = record {
    entries = h.entries;
    capacity = h.capacity * 2 % 2 ^ 64;
    buckets = rehash keys h.capacity h.buckets;
  }

  module _ {slack : ℕ} (h : Table K V) (t : IsTableWithin slack keys h) (p : 0 < h.capacity)
      (l : h.capacity * 2 < 2 ^ 60) where
    doubled_placed :
        (i : ℕ)
        → AllAt keys (h.capacity * 2 % 2 ^ 64) i (get_or (rehash keys h.capacity h.buckets) i [])
    doubled_placed i =
        let z = h.capacity in
        let y : z * 2 % 2 ^ 64 ≡ z * 2 = omega arith in
        elim (lt-cases i z) [
          | inl g ↦ rw (rehash_low z h.buckets i t.sized g) (
              AllAt-keep keys z (z * 2 % 2 ^ 64) i i (λ n. not (leb z (n % (z * 2 % 2 ^ 64))))
                (get_or h.buckets i [])
                (λ n e f.
                  sym (low_rest n z (z * 2 % 2 ^ 64) y (not-leb z (n % (z * 2 % 2 ^ 64)) f)) ∙ e)
                (t.placed i))
          | inr g ↦ rw (rehash_high z h.buckets i t.sized g) (
              AllAt-keep keys z (z * 2 % 2 ^ 64) (i - z) i (λ n. leb z (n % (z * 2 % 2 ^ 64)))
                (get_or h.buckets (i - z) [])
                (λ n e f.
                  let m = leb_le z (n % (z * 2 % 2 ^ 64)) f in
                  let r = high_rest n z (z * 2 % 2 ^ 64) y p m in omega arith)
                (t.placed (i - z)))
        ]

    doubled-Distinct : (i : ℕ) → Distinct keys (get_or (rehash keys h.capacity h.buckets) i [])
    doubled-Distinct i =
        let z = h.capacity in
        elim (lt-cases i z) [
          | inl g ↦ rw (rehash_low z h.buckets i t.sized g) (
              Distinct-keep keys (λ n. not (leb z (n % (z * 2 % 2 ^ 64)))) (get_or h.buckets i [])
                (t.distinct i))
          | inr g ↦ rw (rehash_high z h.buckets i t.sized g) (
              Distinct-keep keys (λ n. leb z (n % (z * 2 % 2 ^ 64))) (get_or h.buckets (i - z) [])
                (t.distinct (i - z)))
        ]

    length-rehash : length (rehash keys h.capacity h.buckets) ≡ h.capacity * 2 % 2 ^ 64
    unfolding rehash
    length-rehash =
        let z = h.capacity in
        let lo : K × V → Bool = λ e. not (leb z (hash e.0 % (z * 2 % 2 ^ 64))) in
        let hi : K × V → Bool = λ e. leb z (hash e.0 % (z * 2 % 2 ^ 64)) in
        omega (
          arith,
          length-append {0} (map (keep lo) h.buckets) (map (keep hi) h.buckets),
          length-map {0, 0} h.buckets (keep lo),
          length-map {0, 0} h.buckets (keep hi),
          t.sized,
        )

    total-rehash : total (rehash keys h.capacity h.buckets) ≡ h.entries
    unfolding rehash
    total-rehash =
        let z = h.capacity in
        let lo : K × V → Bool = λ e. not (leb z (hash e.0 % (z * 2 % 2 ^ 64))) in
        let hi : K × V → Bool = λ e. leb z (hash e.0 % (z * 2 % 2 ^ 64)) in
        total-append (map (keep lo) h.buckets) (map (keep hi) h.buckets)
        ∙ total-keep hi h.buckets
        ∙ t.counted

    pub IsTable-doubled : IsTableWithin slack keys (doubled h)
    IsTable-doubled =
        let y : h.capacity * 2 % 2 ^ 64 ≡ h.capacity * 2 = omega arith in
        record {
          sized = length-rehash;
          power = subst IsCapacity (sym y) (IsCapacity-double h.capacity t.power p l);
          counted = total-rehash;
          within = omega (arith, t.within);
          placed = doubled_placed;
          distinct = doubled-Distinct;
        }

    pub lookup-doubled : (k : K) → lookup keys (doubled h) k ≡ lookup keys h k
    unfolding lookup
    lookup-doubled k =
        let z = h.capacity in
        let i = hash k % (z * 2 % 2 ^ 64) in
        let y : z * 2 % 2 ^ 64 ≡ z * 2 = omega arith in
        elim (Bool-cases (leb z i)) [
          | inl g ↦
              let m = leb_le z i g in
              rw
                (
                  rehash_high z h.buckets i t.sized m,
                  find-keep keys (λ n. leb z (n % (z * 2 % 2 ^ 64))) k
                      (get_or h.buckets (i - z) []),
                  g,
                  high_rest (hash k) z (z * 2 % 2 ^ 64) y p m,
                )
                refl
          | inr g ↦
              let m : i < z = ground arith in
              rw
                (
                  rehash_low z h.buckets i t.sized m,
                  find-keep keys (λ n. not (leb z (n % (z * 2 % 2 ^ 64)))) k
                      (get_or h.buckets i []),
                  g,
                  low_rest (hash k) z (z * 2 % 2 ^ 64) y m,
                )
                refl
        ]
