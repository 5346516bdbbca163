-- ===== src/HashTable/Invariant.antt =====
-- What holds of every table that the functions of src/uhash.c make.
use uncil.Prelude.{
  ℕ, zero, suc, ◌+◌, ◌-◌, ◌*◌, ◌/◌, ◌%◌, ◌^◌, ◌≤◌, ◌<◌, ◌≡◌, ◌≢◌, ◌⊎◌, inl, inr, refl, sym, ◌∙◌,
  arith, Bool, true, List, [], length, get_or, set, length-set, eq-cases, subst,
}
use uncil.Prelude.Bits.{mod_unique}
use native.Mathlib.Nat.{mod-lt, div-add-mod, two-pow-succ}
use uncil.HashTable.{Keys, Table, find, lookup}
use uncil.HashTable.Buckets.{total, total-set, get_or-set_self, get_or-set_ne}
use uncil.HashTable.Chains.{AllAt, Distinct}

-- No buckets, or a power of two
abbrev pub IsCapacity : ℕ → Type 0
IsCapacity z = (z < 2 ^ 60) × ((z ≡ 0) ⊎ ((k : ℕ) × (z ≡ 2 ^ k)))

-- The buckets of a table with `z` of them: every key is in the chain of its hash, once.
pub record IsTableWithin {K V : Type 0} (slack : ℕ) (keys : Keys K) (h : Table K V) : Type 0 where
  pub sized : length h.buckets ≡ h.capacity
  pub power : IsCapacity h.capacity
  pub counted : total h.buckets ≡ h.entries
  pub within : h.entries ≤ h.capacity + slack
  pub placed : (i : ℕ) → AllAt keys h.capacity i (get_or h.buckets i [])
  pub distinct : (i : ℕ) → Distinct keys (get_or h.buckets i [])

-- The tables have no more entries than buckets.
abbrev pub IsTable : {K V : Type 0} → Keys K → Table K V → Type 0
IsTable keys h = IsTableWithin 0 keys h

-- An allocation of fewer than 2 ^ 60 pointers is the most that can succeed.
abbrev pub Fits : (ℕ → Bool) → Type 0
Fits room = (n : ℕ) → room n ≡ true → n < 2 ^ 60

pub IsCapacity-double : (z : ℕ) → IsCapacity z → 0 < z → z * 2 < 2 ^ 60 → IsCapacity (z * 2)
IsCapacity-double z (b, inl e) h l = absurd (omega arith)
IsCapacity-double z (b, inr (k, e)) h l = (l, inr (suc k, omega (arith, two-pow-succ k)))

pub IsCapacity-half : (z : ℕ) → IsCapacity z → IsCapacity (z / 2) × ((z ≡ z / 2 * 2) ⊎ (z ≡ 1))
IsCapacity-half z (b, inl e) = ((omega arith, inl (omega arith)), inl (omega arith))
IsCapacity-half z (b, inr (zero, e)) = ((omega arith, inl (omega arith)), inr (omega arith))
IsCapacity-half z (b, inr (suc k, e)) =
    ((omega arith, inr (k, omega (arith, two-pow-succ k))), inl (omega (arith, two-pow-succ k)))

-- The bucket among `z` and among `2 * z`
pub mod_low : (n z : ℕ) → n % (z * 2) < z → n % z ≡ n % (z * 2)
mod_low n z h =
    mod_unique n z (n / (z * 2) * 2) (n % (z * 2)) (omega (arith, div-add-mod n (z * 2))) h

pub mod_high : (n z : ℕ) → 0 < z → z ≤ n % (z * 2) → n % z ≡ n % (z * 2) - z
mod_high n z p h =
    mod_unique n z (n / (z * 2) * 2 + 1) (n % (z * 2) - z) (omega (arith, div-add-mod n (z * 2)))
      (omega (arith, mod-lt n {m = z * 2} (omega arith)))

module _ {K V : Type 0} (keys : Keys K) where
  -- No buckets
  pub IsTable-nothing :
      (n z : ℕ)
      → n ≡ 0
      → z ≡ 0
      → IsTable {K = K} {V = V} keys (record { entries = n; capacity = z; buckets = [] })
  IsTable-nothing n z e f = record {
    sized = sym f;
    power = (omega arith, inl f);
    counted = sym e;
    within = omega arith;
    placed = λ i. tt;
    distinct = λ i. tt;
  }

  -- A chain may be replaced by one that is in order.
  pub IsTable-set :
      {slack : ℕ} (h : Table K V) (i n : ℕ) (c : List (K × V))
      → IsTableWithin slack keys h
      → i < h.capacity
      → AllAt keys h.capacity i c
      → Distinct keys c
      → n + length (get_or h.buckets i []) ≡ h.entries + length c
      → n ≤ h.capacity + slack
      → IsTableWithin slack keys
          (record { entries = n; capacity = h.capacity; buckets = set h.buckets i c })
  IsTable-set h i n c t l a d e b = record {
    sized = length-set h.buckets i c ∙ t.sized;
    power = t.power;
    counted = omega (arith, total-set h.buckets i c (omega (arith, t.sized)), t.counted);
    within = b;
    placed = λ j. elim (eq-cases i j) [
      | inl same_ij ↦
          subst (λ (m : ℕ). AllAt keys h.capacity m (get_or (set h.buckets i c) m [])) same_ij
            (rw (get_or-set_self h.buckets i c [] (omega (arith, t.sized))) a)
      | inr ne ↦ rw (get_or-set_ne h.buckets i j c [] ne) (t.placed j)
    ];
    distinct = λ j. elim (eq-cases i j) [
      | inl same_ij ↦
          subst (λ (m : ℕ). Distinct keys (get_or (set h.buckets i c) m [])) same_ij
            (rw (get_or-set_self h.buckets i c [] (omega (arith, t.sized))) d)
      | inr ne ↦ rw (get_or-set_ne h.buckets i j c [] ne) (t.distinct j)
    ];
  }

  -- What is found once a chain has been replaced
  abbrev pub with_chain : Table K V → ℕ → ℕ → List (K × V) → Table K V
  with_chain h n i c = record { entries = n; capacity = h.capacity; buckets = set h.buckets i c }

  pub lookup-set_here :
      {slack : ℕ} (h : Table K V) (n : ℕ) (c : List (K × V)) (k l : K)
      → IsTableWithin slack keys h
      → 0 < h.capacity
      → keys.hash k ≡ keys.hash l
      → lookup keys (with_chain h n (keys.hash k % h.capacity) c) l ≡ find keys l c
  unfolding lookup
  lookup-set_here h n c k l t p e =
      rw
        (
          e,
          get_or-set_self h.buckets (keys.hash l % h.capacity) c []
              (omega (arith, t.sized, mod-lt (keys.hash l) p)),
        )
        refl

  pub lookup-set_other :
      (h : Table K V) (n i : ℕ) (c : List (K × V)) (l : K)
      → i ≢ keys.hash l % h.capacity
      → lookup keys (with_chain h n i c) l ≡ lookup keys h l
  unfolding lookup
  lookup-set_other h n i c l e =
      rw (get_or-set_ne h.buckets i (keys.hash l % h.capacity) c [] e) refl

  -- In a chain that differs in what it has for the keys equal to `k` only
  pub lookup-set_apart :
      {slack : ℕ} (h : Table K V) (n : ℕ) (c : List (K × V)) (k l : K)
      → IsTableWithin slack keys h
      → 0 < h.capacity
      → find keys l c ≡ find keys l (get_or h.buckets (keys.hash k % h.capacity) [])
      → lookup keys (with_chain h n (keys.hash k % h.capacity) c) l ≡ lookup keys h l
  unfolding lookup
  lookup-set_apart h n c k l t p e =
      elim (eq-cases (keys.hash k % h.capacity) (keys.hash l % h.capacity)) [
        | inr ne ↦ lookup-set_other h n (keys.hash k % h.capacity) c l ne
        | inl y ↦
            rw
              (
                sym y,
                get_or-set_self h.buckets (keys.hash k % h.capacity) c []
                    (omega (arith, t.sized, mod-lt (keys.hash k) p)),
                e,
              )
              refl
      ]
