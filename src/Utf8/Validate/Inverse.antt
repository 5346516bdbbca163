-- ===== src/Utf8/Validate/Inverse.antt =====
-- What an accepting run of the parts of unc0_utf8validate says of the bytes that it read.
use uncil.Prelude.{
  ℕ, suc, ◌+◌, ◌-◌, ◌*◌, ◌/◌, ◌^◌, ◌≤◌, ◌<◌, ◌≡◌, ◌⊎◌, inl, inr, refl, sym, subst, ap, ◌∙◌, arith,
  List, [], ◌∷◌, ◌++◌, Option, none, some, bit_and, ltb, ◌==◌, Bool, true, false, Bool-cases,
  Option-cases, length,
}
use uncil.Prelude.Bits.{and_0x80, and_0xc0, and_0xe0, and_0xf0, and_0xf8}
use uncil.Utf8.{utf8_bytes}
use uncil.Utf8.Validate.{read_tails, check_tails, validate_loop, complement}
use uncil.Utf8.Validate.Accepts.{read_tail, check_value, mask_two, mask_three, mask_four}

abbrev pub AllBytes : List ℕ → Type 0
AllBytes [] = Unit {0}
AllBytes (b ∷ bs) = (b < 256) × AllBytes bs

-- A continuation byte that was read, and what came after it.
pub record Tail (j u : ℕ) (s : List ℕ) (r : ℕ × List ℕ) : Type 0 where
  pub low : ℕ
  pub rest : List ℕ
  pub small : low < 64
  pub split : s ≡ (128 + low) ∷ rest
  pub bytes : AllBytes rest
  pub more : read_tails j (u * 64 + low) rest ≡ some r

pub read_inv :
    (j u : ℕ) (s : List ℕ) (r : ℕ × List ℕ)
    → AllBytes s
    → read_tails (suc j) u s ≡ some r
    → Tail j u s r
read_inv j u [] r h e = let z : read_tails (suc j) u [] ≡ none = unfold read_tails in refl in cc
read_inv j u (b ∷ s) r h e = elim (Bool-cases (bit_and b 0xc0 == 0x80)) [
  | inl y ↦
      let k : b / 64 * 64 ≡ 128 = sym (and_0xc0 b h.0) ∙ ground arith in
      let v : b ≡ 128 + (b - 128) = omega arith in
      record {
        low = b - 128;
        rest = s;
        small = omega arith;
        split = ap (λ (t : ℕ). t ∷ s) v;
        bytes = h.1;
        more =
            sym (read_tail j u (b - 128) s (omega arith))
            ∙ subst (λ t. read_tails (suc j) u (t ∷ s) ≡ some r) v e;
      }
  | inr n ↦ let z : read_tails (suc j) u (b ∷ s) ≡ none = unfold read_tails in rw n in cc
]

pub record Checked (j m u : ℕ) (s : List ℕ) (go : List ℕ → Option Bool) : Type 0 where
  pub value : ℕ
  pub rest : List ℕ
  pub reads : read_tails j u s ≡ some (value, rest)
  pub long : (bit_and value m == 0) ≡ false
  pub goes : go rest ≡ some true

check_none :
    (j m u : ℕ) (s : List ℕ) (go : List ℕ → Option Bool)
    → read_tails j u s ≡ none
    → check_tails j m u s go ≡ some false
unfolding check_tails
check_none j m u s go e = ground arith

check_short :
    (j m u : ℕ) (s : List ℕ) (go : List ℕ → Option Bool)
    → length s < j
    → check_tails j m u s go ≡ some false
unfolding check_tails
check_short j m u s go h = ground arith

pub check_inv :
    (j m u : ℕ) (s : List ℕ) (go : List ℕ → Option Bool)
    → check_tails j m u s go ≡ some true
    → Checked j m u s go
check_inv j m u s go e = elim (Option-cases (read_tails j u s)) [
  | inl z ↦ cc (check_none j m u s go z)
  | inr ((u', s'), z) ↦ elim (Bool-cases (ltb (length s) j)) [
    | inl y ↦ cc (check_short j m u s go (ground arith))
    | inr n ↦
        let v = check_value j m u s go u' s' (ground arith) z in
        elim (Bool-cases (bit_and u' m == 0)) [
          | inl y ↦ cc (rw y at v)
          | inr k ↦ record {
            value = u';
            rest = s';
            reads = z;
            long = k;
            goes = sym (rw k at v) ∙ e;
          }
        ]
  ]
]

pub validate_bad :
    (f c : ℕ) (s : List ℕ)
    → c < 256
    → 128 ≤ c
    → (c < 192) ⊎ (248 ≤ c)
    → validate_loop (suc f) (c ∷ s) ≡ some false
unfolding validate_loop
validate_bad f c s h k w = ground (arith, and_0x80 c, and_0xe0 c, and_0xf0 c, and_0xf8 c)

-- One character at the front of what is accepted.
pub record Front (f : ℕ) (s : List ℕ) : Type 0 where
  pub point : ℕ
  pub rest : List ℕ
  pub wide : point < 0x200000
  pub split : s ≡ utf8_bytes point ++ rest
  pub bytes : AllBytes rest
  pub goes : validate_loop f rest ≡ some true

pub read_end :
    (u : ℕ) (s : List ℕ) (u' : ℕ) (s' : List ℕ)
    → read_tails 0 u s ≡ some (u', s')
    → (u' ≡ u) × (s' ≡ s)
unfolding read_tails
read_end u s u' s' e = (cc, cc)

pub above_two : (v : ℕ) → v < 2 ^ 32 → (bit_and v (complement 0x7f) == 0) ≡ false → 128 ≤ v
above_two v h e = let m = mask_two v h in ground arith

pub above_three : (v : ℕ) → v < 2 ^ 32 → (bit_and v (complement 0x7ff) == 0) ≡ false → 2048 ≤ v
above_three v h e = let m = mask_three v h in ground arith

pub above_four : (v : ℕ) → v < 2 ^ 32 → (bit_and v (complement 0xffff) == 0) ≡ false → 65536 ≤ v
above_four v h e = let m = mask_four v h in ground arith
