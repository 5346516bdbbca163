-- ===== src/Arithm/Overflow.antt =====
-- The overflow tests of src/uarithm.c for sums, differences and negations.
use uncil.Prelude.{◌≡◌, ◌↔◌, ◌⊎◌, arith, true, not}
use uncil.Prelude.Int.{ℤ, pos, ◌+ℤ◌, ◌-ℤ◌, IsInt, int_min, in_range, wrap}
use uncil.Arithm.{negovf, addovf, subovf}

-- For all 64-bit integers a and b, `addovf` is true exactly where the exact sum a + b is
-- outside the range of Unc_Int.
pub addovf-exact : (a b : ℤ) → IsInt a → IsInt b → addovf a b ≡ not (in_range (a +ℤ b))
unfolding addovf ◌+ℤ◌ wrap
addovf-exact a b ha hb = ground arith

-- For all 64-bit integers a and b, `subovf` is true exactly where the exact difference a - b
-- is outside the range of Unc_Int.
subovf-exact : (a b : ℤ) → IsInt a → IsInt b → subovf a b ≡ not (in_range (a -ℤ b))
unfolding subovf ◌-ℤ◌ wrap
subovf-exact a b ha hb = ground arith

-- For every 64-bit integer a, `negovf` is true exactly where a is the least integer, whose
-- negation overflows, or zero, whose negation does not.
negovf-exact : (a : ℤ) → IsInt a → (negovf a ≡ true) ↔ ((a ≡ pos 0) ⊎ (a ≡ int_min))
unfolding negovf wrap
negovf-exact a ha = ground arith
