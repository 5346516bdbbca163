-- ===== src/Vlq/Tests.antt =====
-- Runs of the codes of src/uvlq.c, and the theorems at concrete numbers.
use uncil.Prelude.{◌≤◌, ◌≡◌, refl, arith, [], ◌∷◌, ◌++◌, some, length}
use uncil.Prelude.Int.{negsuc, bits, signed}
use uncil.Arithm.{asr}
use uncil.Vlq.{
  byte_length, emit_bytes, vlqencz, vlqdecz, lnot, low7, vlqencin, vlqenci, vlqdeci_loop, vlqdeci,
  clqencz, clqdecz,
}
use uncil.Vlq.Unsigned.{vlqdecz-vlqencz}
use uncil.Vlq.Signed.{vlqdeci-vlqenci}
use uncil.Vlq.Constant.{clqdecz-clqencz}
use uncil.Vlq.Length.{code_length, length-vlqenci}

code_of_300 : vlqencz 300 9 ≡ 0x82 ∷ 1 ∷ 44 ∷ []
unfolding vlqencz byte_length emit_bytes
code_of_300 = refl

-- A buffer that is too small gets the highest bytes only.
code_cut : vlqencz 300 2 ≡ 0x82 ∷ 1 ∷ []
unfolding vlqencz byte_length emit_bytes
code_cut = refl

code_of_minus_65 : vlqenci (negsuc 64) 10 ≡ 0xbf ∷ 0x7f ∷ []
unfolding vlqenci vlqencin asr lnot low7 bits
code_of_minus_65 = refl

read_minus_65 : vlqdeci (0xbf ∷ 0x7f ∷ 5 ∷ []) ≡ some (negsuc 64, 5 ∷ [])
unfolding vlqdeci vlqdeci_loop signed
read_minus_65 = refl

code_clq : clqencz 0x1234 2 ≡ 0x34 ∷ 0x12 ∷ []
unfolding clqencz
code_clq = refl

vlqdecz-vlqencz_example : vlqdecz (vlqencz 300 9 ++ 7 ∷ []) ≡ some (300, 7 ∷ [])
vlqdecz-vlqencz_example = vlqdecz-vlqencz 300 9 (7 ∷ []) (omega arith) (omega arith)

vlqdeci-vlqenci_example : vlqdeci (vlqenci (negsuc 64) 10 ++ 5 ∷ []) ≡ some (negsuc 64, 5 ∷ [])
vlqdeci-vlqenci_example = vlqdeci-vlqenci (negsuc 64) 10 (5 ∷ []) (omega arith) (omega arith)

clqdecz-clqencz_example : clqdecz 2 (clqencz 0x1234 2 ++ 9 ∷ []) ≡ some (0x1234, 9 ∷ [])
clqdecz-clqencz_example =
    clqdecz-clqencz 0x1234 2 (9 ∷ []) (omega arith) (omega arith) (omega arith)

length-vlqenci_example :
    (length (vlqenci (negsuc 300) 1) ≡ code_length 1 8 300) × (length (vlqenci (negsuc 300) 1) ≤ 10)
length-vlqenci_example = length-vlqenci (negsuc 300) 1 (omega arith, omega arith)

-- Two bytes with a limit of one
code_length_past_limit : code_length 1 8 300 ≡ 2
code_length_past_limit = refl
