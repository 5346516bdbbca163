-- ===== src/HashTable/Strings.antt =====
-- The tables of src/uhash.c that are keyed by strings of bytes.
use uncil.Prelude.{
  ℕ, ◌+◌, ◌*◌, ◌/◌, ◌%◌, ◌^◌, ◌≡◌, refl, sym, ap, ◌∙◌, arith, Bool, true, false, List, [], ◌∷◌,
  some, none, Bool-cases, inl, inr, if◌then◌else◌, ltb, take, take_all, ◌⊎◌, ◌≢◌, ◌==◌, length,
  bit_or, bit_xor,
}
use uncil.Prelude.Int.{pos, eqb_ℤ}
use uncil.Blob.{memcmp}
use uncil.Blob.Compare.{memcmp_equal}
use uncil.HashTable.{Keys}

-- ROTL of a 32-bit unsigned number by 11
unfoldable pub rotl_11 : ℕ → ℕ
rotl_11 x = bit_or (x * 2 ^ 11 % 2 ^ 32) (x / 2 ^ 21)

-- The loop of unc0_hashstr: `i` advances by `z`, but the pointer by one.
unfoldable pub hashstr_loop : ℕ → ℕ → ℕ → ℕ → List ℕ → ℕ
hashstr_loop n z i x [] = x
hashstr_loop n z i x (b ∷ s) =
    let rest = hashstr_loop n z (i + z) (bit_xor (rotl_11 x) b) s in if ltb i n then rest else x

-- unc0_hashstr
unfoldable pub hashstr : List ℕ → ℕ
hashstr s =
    hashstr_loop (length s) (3 * length s % 2 ^ 64 / 2 ^ 6 + 1) 0 2857740885 s * 3690348479 % 2 ^ 32

-- `n == x->key_n && !unc0_memcmp(s, &x[1], n)`
unfoldable pub same_key : List ℕ → List ℕ → Bool
same_key s key =
    if length s == length key
    then elim (memcmp (length s) s key) [ none ↦ false | some r ↦ eqb_ℤ r (pos 0) ]
    else false

same_key-cases :
    (s t : List ℕ) → ((same_key s t ≡ true) × (s ≡ t)) ⊎ ((same_key s t ≡ false) × (s ≢ t))
unfolding same_key
same_key-cases s t = elim (Bool-cases (length s == length t)) [
  | inr d ↦ let n : length s ≢ length t = ground arith in inr ((rw d refl), (λ e. n (ap length e)))
  | inl d ↦
      let n : length s ≡ length t = ground arith in
      let a : take (length s) s ≡ s = take_all (length s) s (omega arith) in
      let b : take (length s) t ≡ t = take_all (length s) t (omega arith) in
      elim (memcmp_equal (length s) s t (omega arith) (omega arith)) [
        | inl (m, e) ↦ inl ((rw (d, m) refl), sym a ∙ e ∙ b)
        | inr (r, m, f, g) ↦ inr ((rw (d, m) f), (λ e. g (a ∙ e ∙ sym b)))
      ]
]

pub same_key_self : (s : List ℕ) → same_key s s ≡ true
same_key_self s = elim (same_key-cases s s) [ inl (e, f) ↦ e | inr (e, f) ↦ absurd (f refl) ]

pub same_key_equal : (s t : List ℕ) → same_key s t ≡ true → s ≡ t
same_key_equal s t h = elim (same_key-cases s t) [ inl (e, f) ↦ f | inr (e, f) ↦ absurd (cc) ]

-- The keys of an Unc_HTblS
abbrev pub strings : Keys (List ℕ)
strings = record {
  hash = hashstr;
  same = same_key;
  same_refl = same_key_self;
  same_sym = λ a b h. let e = same_key_equal a b h in rw e (same_key_self b);
  same_trans =
      λ a b c h g. let e = same_key_equal a b h ∙ same_key_equal b c g in rw e (same_key_self c);
  same_hash = λ a b h. ap hashstr (same_key_equal a b h);
}
