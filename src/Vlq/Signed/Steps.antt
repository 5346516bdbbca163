-- ===== src/Vlq/Signed/Steps.antt =====
-- One round of each loop of the signed code, as arithmetic.
use uncil.Prelude.{
  ℕ, suc, ◌+◌, ◌-◌, ◌*◌, ◌/◌, ◌%◌, ◌^◌, ◌≤◌, ◌<◌, ◌≡◌, ◌∙◌, arith, List, [], ◌∷◌, some, bit_and,
  bit_or, ltb, lt→ltb, if◌then◌else◌,
}
use uncil.Prelude.Int.{pos, negsuc, bits, signed}
use uncil.Prelude.Bits.{bit_or_above, bit_and_low, and_0x80, and_0x40}
use uncil.Arithm.{asr}
use uncil.Vlq.{low7, lnot, vlqencip, vlqencin, vlqdeci_loop}

low7_pos : (n : ℕ) → n < 2 ^ 63 → low7 (pos n) ≡ n % 128
unfolding low7 bits
low7_pos n h = bit_and_low 7 (n % 2 ^ 64) ∙ omega arith

low7_negsuc : (n : ℕ) → n < 2 ^ 63 → low7 (negsuc n) ≡ 127 - n % 128
unfolding low7 bits
low7_negsuc n h = bit_and_low 7 (2 ^ 64 - 1 - n % 2 ^ 64) ∙ omega arith

or_0x80 : (g : ℕ) → g < 128 → bit_or g 0x80 ≡ g + 128
or_0x80 g h = bit_or_above 7 1 g h

bit6 : (g : ℕ) → g < 128 → bit_and g 0x40 ≡ (if ltb g 64 then 0 else 64)
bit6 g h = and_0x40 g (omega arith) ∙ ground arith

bit7 : (g : ℕ) → g < 128 → bit_and g 0x80 ≡ 0
bit7 g h = and_0x80 g (omega arith) ∙ omega arith

bit7_set : (g : ℕ) → g < 128 → bit_and (g + 128) 0x80 ≡ 128
bit7_set g h = and_0x80 (g + 128) (omega arith) ∙ omega arith

group : (g : ℕ) → g < 128 → bit_and g 0x7f ≡ g
group g h = bit_and_low 7 g ∙ omega arith

group_set : (g : ℕ) → g < 128 → bit_and (g + 128) 0x7f ≡ g
group_set g h = bit_and_low 7 (g + 128) ∙ omega arith

pub encode_more :
    (left n : ℕ)
    → 128 ≤ n
    → n < 2 ^ 63
    → vlqencip (suc left) (pos n) ≡ (n % 128 + 128) ∷ vlqencip left (pos (n / 128))
unfolding vlqencip asr
encode_more left n h k = rw (low7_pos n k, or_0x80 (n % 128) (omega arith)) (ground arith)

pub encode_last : (left n : ℕ) → n < 64 → vlqencip (suc left) (pos n) ≡ n ∷ []
unfolding vlqencip asr
encode_last left n h = ground (arith, low7_pos n, bit6 (n % 128))

pub encode_sign :
    (left n : ℕ) → 64 ≤ n → n < 128 → 0 < left → vlqencip (suc left) (pos n) ≡ (n + 128) ∷ 0 ∷ []
unfolding vlqencip asr
encode_sign left n h k l = ground (arith, low7_pos n, bit6 n, or_0x80 n)

-- At the last byte below the limit there is no room for the sign.
pub encode_full : (n : ℕ) → n < 128 → vlqencip 1 (pos n) ≡ n ∷ []
unfolding vlqencip asr
encode_full n h = ground (arith, low7_pos n)

pub encode_more_neg :
    (left n : ℕ)
    → 128 ≤ n
    → n < 2 ^ 63
    → vlqencin (suc left) (negsuc n) ≡ (127 - n % 128 + 128) ∷ vlqencin left (negsuc (n / 128))
unfolding vlqencin asr lnot
encode_more_neg left n h k = ground (arith, low7_negsuc n, or_0x80 (127 - n % 128))

pub encode_last_neg : (left n : ℕ) → n < 64 → vlqencin (suc left) (negsuc n) ≡ (127 - n) ∷ []
unfolding vlqencin asr lnot
encode_last_neg left n h = ground (arith, low7_negsuc n, bit6 (127 - n))

pub encode_sign_neg :
    (left n : ℕ)
    → 64 ≤ n
    → n < 128
    → 0 < left
    → vlqencin (suc left) (negsuc n) ≡ (127 - n + 128) ∷ 0x7f ∷ []
unfolding vlqencin asr lnot
encode_sign_neg left n h k l = ground (arith, low7_negsuc n, bit6 (127 - n), or_0x80 (127 - n))

pub encode_full_neg : (n : ℕ) → n < 128 → vlqencin 1 (negsuc n) ≡ (127 - n) ∷ []
unfolding vlqencin asr lnot
encode_full_neg n h = ground (arith, low7_negsuc n)

pub push_group :
    (s g j : ℕ) → s < 2 ^ j → g * 2 ^ j < 2 ^ 64 → bit_or s (g * 2 ^ j % 2 ^ 64) ≡ s + g * 2 ^ j
push_group s g j h k =
    let e : g * 2 ^ j % 2 ^ 64 ≡ g * 2 ^ j = omega arith in rw e (bit_or_above j g s h)

pub decode_more :
    (s m g j : ℕ) (p : List ℕ)
    → g < 128
    → j < 64
    → vlqdeci_loop s m j ((g + 128) ∷ p)
      ≡ vlqdeci_loop (bit_or s (g * 2 ^ j % 2 ^ 64)) (m * 2 ^ 7 % 2 ^ 64) (j + 7) p
unfolding vlqdeci_loop
decode_more s m g j p h k = rw (bit7_set g h, group_set g h) (ground arith)

pub decode_positive :
    (s m g j : ℕ) (p : List ℕ)
    → g < 64
    → j < 64
    → vlqdeci_loop s m j (g ∷ p) ≡ some (signed (bit_or s (g * 2 ^ j % 2 ^ 64)), p)
unfolding vlqdeci_loop
decode_positive s m g j p h k =
    rw (bit7 g (omega arith), group g (omega arith), bit6 g (omega arith), lt→ltb g 64 h)
      (ground arith)

pub decode_negative :
    (s m g j : ℕ) (p : List ℕ)
    → 64 ≤ g
    → g < 128
    → j < 64
    → vlqdeci_loop s m j (g ∷ p)
      ≡ some (signed (bit_or (bit_or s (g * 2 ^ j % 2 ^ 64)) (m * 2 ^ 7 % 2 ^ 64)), p)
unfolding vlqdeci_loop
decode_negative s m g j p l h k =
    let e : bit_and g 0x40 ≡ 64 = bit6 g h ∙ ground arith in
    rw (bit7 g h, group g h, e) (ground arith)
