-- ===== src/Vlq/Unsigned.antt =====
-- The unsigned code of src/uvlq.c: unc0_vlqencz and unc0_vlqdecz are inverse.
use uncil.Prelude.{
  ℕ, zero, suc, ◌+◌, ◌*◌, ◌/◌, ◌%◌, ◌^◌, ◌≤◌, ◌<◌, ◌≡◌, ap, sym, ◌∙◌, arith, List, [], ◌∷◌, ◌++◌,
  some, bit_or, ltb, ◌==◌, Bool-cases, inl, inr,
}
use native.Mathlib.Nat.{div-div-eq-div-mul, mul_comm, div-one, div-le_self, div-eq_of_lt}
use uncil.Prelude.Bits.{two_pow_add, bit_or_fields, bit_and_low, and_0x80}
use uncil.Vlq.{byte_length, emit_bytes, vlqencz, read_bytes, vlqdecz}

eight_suc : (l : ℕ) → 2 ^ (8 * suc l) ≡ 256 * 2 ^ (8 * l)
eight_suc l =
    let e : 8 * suc l ≡ 8 + 8 * l = omega arith in ap (λ (t : ℕ). 2 ^ t) e ∙ two_pow_add 8 (8 * l)

pub byte_length_bounds :
    (f v : ℕ) → v < 2 ^ (8 * f) → (v < 2 ^ (8 * byte_length f v)) × (byte_length f v ≤ f)
unfolding byte_length
byte_length_bounds zero v h = (h, omega arith)
byte_length_bounds (suc f) v h = elim (Bool-cases (v == 0)) [
  | inl z ↦ rw z (ground arith, omega arith)
  | inr n ↦
      let ih = byte_length_bounds f (v / 2 ^ 8) (omega (arith, eight_suc f)) in
      rw n (omega (arith, eight_suc (byte_length f (v / 2 ^ 8)), ih), omega (arith, ih))
]

shift_step : (v l : ℕ) → v / 2 ^ (8 * l) ≡ v / 2 ^ (8 * suc l) * 256 + v / 2 ^ (8 * l) % 256
shift_step v l =
    let e : v / 2 ^ (8 * suc l) ≡ v / 2 ^ (8 * l) / 256 =
      ap (λ (t : ℕ). v / t) (eight_suc l ∙ mul_comm 256 (2 ^ (8 * l)))
      ∙ sym (div-div-eq-div-mul v (2 ^ (8 * l)) 256) in
    omega arith

push_byte : (s b : ℕ) → b < 256 → s * 256 + b < 2 ^ 64 → bit_or (s * 2 ^ 8 % 2 ^ 64) b ≡ s * 256 + b
push_byte s b h k =
    let e : s * 2 ^ 8 % 2 ^ 64 ≡ s * 2 ^ 8 = omega arith in rw e (bit_or_fields 8 s b h)

emit_step :
    (v n i l : ℕ)
    → i < n
    → emit_bytes v n i (suc l) ≡ v / 2 ^ (8 * l) % 256 ∷ emit_bytes v n (i + 1) l
unfolding emit_bytes
emit_step v n i l h = ground arith

read_step :
    (l s b : ℕ) (p : List ℕ)
    → b < 256
    → s * 256 + b < 2 ^ 64
    → read_bytes (suc l) s (b ∷ p) ≡ read_bytes l (s * 256 + b) p
unfolding read_bytes
read_step l s b p h k = rw (push_byte s b h k)

div_le : (v d : ℕ) → v / d ≤ v
div_le v d = div-le_self v d

read_emit :
    (l v n i : ℕ) (rest : List ℕ)
    → v < 2 ^ 64
    → i + l ≤ n
    → read_bytes l (v / 2 ^ (8 * l)) (emit_bytes v n i l ++ rest) ≡ some (v, rest)
read_emit zero v n i rest h k = unfold read_bytes emit_bytes in rw div-one
read_emit (suc l) v n i rest h k =
    let step = shift_step v l in
    let lt : v / 2 ^ (8 * suc l) * 256 + v / 2 ^ (8 * l) % 256 < 2 ^ 64 =
      omega (arith, div_le v (2 ^ (8 * l))) in
    rw (emit_step v n i l (omega arith)) (
      read_step l (v / 2 ^ (8 * suc l)) (v / 2 ^ (8 * l) % 256) _ (omega arith) lt
      ∙ rw (← step) (read_emit l v n (i + 1) rest h (omega arith)))

-- A number that does not fit seven bits: the marked count and the bytes, highest first.
pub long_code :
    (v n : ℕ)
    → 0x80 ≤ v
    → vlqencz v n ≡ bit_or (2 ^ 7) (byte_length 8 v) % 256 ∷ emit_bytes v n 1 (byte_length 8 v)
unfolding vlqencz
long_code v n h = ground arith

mark_count : (l : ℕ) → l < 128 → bit_or (2 ^ 7) l % 256 ≡ 128 + l
mark_count l h = rw (bit_or_fields 7 1 l h) (omega arith)

read_marked : (l : ℕ) (p : List ℕ) → l < 128 → vlqdecz ((128 + l) ∷ p) ≡ read_bytes l 0 p
unfolding vlqdecz
read_marked l p h =
    let e : (128 + l) % 2 ^ 7 ≡ l = omega arith in
    let f : (128 + l) / 128 * 128 ≡ 128 = omega arith in
    rw (and_0x80 (128 + l) (omega arith), bit_and_low 7 (128 + l), e, f)

read_short : (v : ℕ) (p : List ℕ) → v < 128 → vlqdecz (v ∷ p) ≡ some (v, p)
unfolding vlqdecz
read_short v p h = let f : v / 128 * 128 ≡ 0 = omega arith in rw (and_0x80 v (omega arith), f)

pub short_code : (v n : ℕ) → v < 128 → vlqencz v n ≡ v ∷ []
unfolding vlqencz
short_code v n h = ground arith

-- Every 64-bit unsigned number that unc0_vlqencz writes into a buffer of at least 9 bytes is
-- read back by unc0_vlqdecz, which stops right behind it, whatever follows.
pub vlqdecz-vlqencz :
    (v n : ℕ) (rest : List ℕ) → v < 2 ^ 64 → 9 ≤ n → vlqdecz (vlqencz v n ++ rest) ≡ some (v, rest)
vlqdecz-vlqencz v n rest h k = elim (Bool-cases (ltb v 0x80)) [
  | inl y ↦ let lt : v < 128 = ground arith in rw (short_code v n lt) (read_short v rest lt)
  | inr y ↦
      let b = byte_length_bounds 8 v h in
      let l : byte_length 8 v < 128 = omega (arith, b) in
      let z : v / 2 ^ (8 * byte_length 8 v) ≡ 0 = div-eq_of_lt b.0 in
      rw (long_code v n (ground arith), mark_count (byte_length 8 v) l)
        (read_marked (byte_length 8 v) _ l
          ∙ (rw z at (read_emit (byte_length 8 v) v n 1 rest h (omega (arith, b)))))
]
