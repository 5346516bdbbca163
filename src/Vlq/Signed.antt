-- ===== src/Vlq/Signed.antt =====
-- The signed code of src/uvlq.c: unc0_vlqdeci reads back every 64-bit integer that unc0_vlqenci
-- writes into a buffer of UNC_VLQ_UINT_MAXLEN bytes.
pub mod Steps
pub mod Positive
pub mod Negative
use uncil.Prelude.{ℕ, ◌+◌, ◌*◌, ◌^◌, ◌-◌, ◌∙◌, ◌≤◌, ◌≡◌, arith, List, ◌++◌, some}
use uncil.Prelude.Int.{ℤ, pos, negsuc, IsInt}
use uncil.Vlq.{vlqenci, vlqdeci, vlqencip, vlqencin}
use Positive.{decode_pos}
use Negative.{decode_neg}

pub encode_pos : (x n : ℕ) → vlqenci (pos x) n ≡ vlqencip n (pos x)
unfolding vlqenci
encode_pos x n = ground arith

pub encode_neg : (x n : ℕ) → vlqenci (negsuc x) n ≡ vlqencin n (negsuc x)
unfolding vlqenci
encode_neg x n = ground arith

-- Every 64-bit signed integer that unc0_vlqenci writes with a limit of at least 10 bytes is
-- read back by unc0_vlqdeci, which stops right behind it, whatever follows.
pub vlqdeci-vlqenci :
    (v : ℤ) (n : ℕ) (rest : List ℕ)
    → IsInt v
    → 10 ≤ n
    → vlqdeci (vlqenci v n ++ rest) ≡ some (v, rest)
unfolding vlqdeci
vlqdeci-vlqenci (pos x) n rest hv hn =
    let e : 0 + x * 2 ^ 0 ≡ x = omega arith in
    rw encode_pos (
      decode_pos n 0 0 x 0 (2 ^ 64 - 1) rest (omega arith) (omega arith) (omega arith) (omega arith)
        (omega arith)
      ∙ rw e)
vlqdeci-vlqenci (negsuc x) n rest hv hn =
    let e : 0 + x * 2 ^ 0 ≡ x = omega arith in
    rw encode_neg (
      decode_neg n 0 0 x 0 (2 ^ 64 - 1) 0 rest (omega arith) (omega arith) (omega arith)
        (omega arith) (omega arith) (omega arith)
      ∙ rw e)
