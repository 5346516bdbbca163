-- ===== src/Arithm/Tests.antt =====
-- Runs of the arithmetic of src/uarithm.c, and the theorems at concrete integers.
use uncil.Prelude.{ap, ◌-◌, ◌^◌, ◌≡◌, refl, arith, true, false, not, ◌&&◌}
use uncil.Prelude.Int.{pos, negsuc, neg_part, ◌+ℤ◌, ◌-ℤ◌, ◌*ℤ◌, in_range, wrap}
use uncil.Arithm.{addovf, mulovf, partial_products, magnitude, iidiv, imod, tdiv, tmod}
use uncil.Arithm.Overflow.{addovf-exact}
use uncil.Arithm.Product.{mulovf-exact, missed}
use uncil.Arithm.Division.{IsFloor, iidiv-IsFloor}
use uncil.Arithm.Remainder.{IsRemainder, imod-IsRemainder}

-- (-7) // 2 is -4, and 7 // -2 is -3 where rounding down gives -4.
minus_seven_by_two : iidiv (negsuc 6) (pos 2) ≡ negsuc 3
unfolding iidiv tdiv wrap ◌*ℤ◌ ◌-ℤ◌
minus_seven_by_two = refl

seven_by_minus_two : iidiv (pos 7) (negsuc 1) ≡ negsuc 2
unfolding iidiv tdiv wrap ◌*ℤ◌ ◌-ℤ◌
seven_by_minus_two = refl

minus_one_by_minus_two : iidiv (negsuc 0) (negsuc 1) ≡ negsuc 0
unfolding iidiv tdiv wrap ◌*ℤ◌ ◌-ℤ◌
minus_one_by_minus_two = refl

minus_seven_mod_three : imod (negsuc 6) (pos 3) ≡ pos 2
unfolding imod tmod wrap ◌+ℤ◌
minus_seven_mod_three = refl

-- 2 ^ 62 * 2 and -(2 ^ 32) * -(2 ^ 32) overflow and are not reported.
doubled_missed : mulovf (pos (2 ^ 62)) (pos 2) ≡ false
unfolding mulovf magnitude partial_products
doubled_missed = refl

negative_missed : mulovf (negsuc (2 ^ 32 - 1)) (negsuc (2 ^ 32 - 1)) ≡ false
unfolding mulovf magnitude partial_products
negative_missed = refl

-- 0x180000000 * 0xffffffff, which is above 2 ^ 64
positive_missed : mulovf (pos 0x180000000) (pos 0xffffffff) ≡ false
unfolding mulovf magnitude partial_products
positive_missed = refl

tripled : mulovf (pos (2 ^ 62)) (pos 3) ≡ true
unfolding mulovf magnitude partial_products
tripled = refl

addovf-exact_example : addovf (pos 5) (negsuc 9) ≡ not (in_range (pos 5 +ℤ negsuc 9))
addovf-exact_example = addovf-exact (pos 5) (negsuc 9) (omega arith) (omega arith)

mulovf-exact_example :
    mulovf (negsuc (2 ^ 32 - 1)) (negsuc (2 ^ 33))
    ≡ not (in_range (negsuc (2 ^ 32 - 1) *ℤ negsuc (2 ^ 33)))
      && not (missed (negsuc (2 ^ 32 - 1)) (negsuc (2 ^ 33)))
mulovf-exact_example =
    mulovf-exact (negsuc (2 ^ 32 - 1)) (negsuc (2 ^ 33)) (omega arith, omega arith)
      (omega arith, omega arith) (λ e. omega (arith, ap neg_part e))
      (λ e. omega (arith, ap neg_part e))

iidiv-IsFloor_example : IsFloor (negsuc 6) (pos 2) (iidiv (negsuc 6) (pos 2))
iidiv-IsFloor_example = iidiv-IsFloor (negsuc 6) 2 (omega arith) (omega arith)

imod-IsRemainder_example : IsRemainder (negsuc 6) 3 (imod (negsuc 6) (pos 3))
imod-IsRemainder_example =
    imod-IsRemainder (negsuc 6) 3 (omega arith) (omega arith) (omega arith) (omega arith)
