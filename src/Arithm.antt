-- ===== src/Arithm.antt =====
-- The integer arithmetic of src/uarithm.c, for a 64-bit `Unc_Int` whose sums, differences,
-- negations and products wrap around (two's complement), and an arithmetic `>>`.
-- The floating-point functions of that file are not modelled.
pub mod Overflow
pub mod Product
pub mod Shift
pub mod Division
pub mod Remainder
mod Tests
use uncil.Prelude.{ℕ, suc, ◌+◌, ◌-◌, ◌*◌, ◌/◌, ◌%◌, ◌^◌, Bool, true, false, not, ◌&&◌, ◌||◌}
use uncil.Prelude.{ltb, leb, ◌==◌, if◌then◌else◌}
use uncil.Prelude.Int.{
  ℤ, pos, negsuc, pos_part, neg_part, ◌+ℤ◌, ◌-ℤ◌, ◌*ℤ◌, neg, ltb_ℤ, eqb_ℤ, int_max, int_min, bits,
  signed, wrap,
}

-- BIT_WIDTH
abbrev pub bit_width : ℕ
bit_width = 64

-- `x << b` on the pattern of `x`, for b below 64
unfoldable pub shl_bits : ℤ → ℕ → ℤ
unfolding bits signed
shl_bits a b = signed (bits a * 2 ^ b % 2 ^ 64)

-- arithmetic `a >> b`: division by a power of two, rounded down
unfoldable pub asr : ℤ → ℕ → ℤ
asr (pos n) b = pos (n / 2 ^ b)
asr (negsuc n) b = negsuc (n / 2 ^ b)

-- unc0_shiftl2: the shift count is unsigned
unfoldable pub shiftl2 : ℤ → ℕ → ℤ
unfolding shl_bits
shiftl2 a b = if leb bit_width b then pos 0 else shl_bits a b

-- unc0_shiftr2, where `asr` of the source is true
unfoldable pub shiftr2 : ℤ → ℕ → ℤ
unfolding asr
shiftr2 a b = if leb bit_width b then (if ltb_ℤ a (pos 0) then negsuc 0 else pos 0) else asr a b

-- unc0_shiftl; `(Unc_UInt)-b` is the pattern of the negation
unfoldable pub shiftl : ℤ → ℤ → ℤ
shiftl a b = if ltb_ℤ b (pos 0) then shiftr2 a (bits (neg b)) else shiftl2 a (bits b)

-- unc0_shiftr
unfoldable pub shiftr : ℤ → ℤ → ℤ
shiftr a b = if ltb_ℤ b (pos 0) then shiftl2 a (bits (neg b)) else shiftr2 a (bits b)

abbrev xor : Bool → Bool → Bool
xor true b = not b
xor false b = b

-- unc0_negovf: `(a >= 0) != (-a < 0)`
unfoldable pub negovf : ℤ → Bool
unfolding wrap neg
negovf a = xor (not (ltb_ℤ a (pos 0))) (ltb_ℤ (wrap (neg a)) (pos 0))

-- unc0_addovf
unfoldable pub addovf : ℤ → ℤ → Bool
unfolding wrap ◌-ℤ◌
addovf a b =
    if ltb_ℤ b (pos 0) then ltb_ℤ a (wrap (int_min -ℤ b)) else ltb_ℤ (wrap (int_max -ℤ b)) a

-- unc0_subovf
unfoldable pub subovf : ℤ → ℤ → Bool
unfolding wrap ◌+ℤ◌
subovf a b =
    if ltb_ℤ b (pos 0) then ltb_ℤ (wrap (int_max +ℤ b)) a else ltb_ℤ a (wrap (int_min +ℤ b))

-- `(Unc_UInt)(a < 0 ? -a : a)`
unfoldable pub magnitude : ℤ → ℕ
unfolding wrap bits neg
magnitude a = bits (if ltb_ℤ a (pos 0) then wrap (neg a) else a)

-- the last tests of unc0_mulovf: the partial products and the full one, in unsigned words
unfoldable pub partial_products : Bool → ℕ → ℕ → Bool
partial_products negative x y =
    let q = (x / 2 ^ 32) * (y % 2 ^ 32) % 2 ^ 64 in
    let r = (x % 2 ^ 32) * (y / 2 ^ 32) % 2 ^ 64 in
    if not (q / 2 ^ 32 == 0) || not (r / 2 ^ 32 == 0)
    then true
    else ltb (if negative then 2 ^ 63 else 2 ^ 63 + 1) (x * y % 2 ^ 64)

-- unc0_mulovf, with BIT_WIDTH = 64; `-(Unc_UInt)UNC_INT_MIN` is 2 ^ 63 and
-- `(Unc_UInt)-UNC_INT_MAX` is 2 ^ 63 + 1
unfoldable pub mulovf : ℤ → ℤ → Bool
unfolding wrap neg magnitude
mulovf a b =
    if eqb_ℤ a (pos 0) || eqb_ℤ b (pos 0)
    then false
    else if eqb_ℤ a (wrap (neg a))
    then not (eqb_ℤ b (pos 1))
    else if eqb_ℤ b (wrap (neg b))
    then not (eqb_ℤ a (pos 1))
    else if not (ltb_ℤ a (pos (2 ^ 32))) && not (ltb_ℤ b (pos (2 ^ 32)))
    then true
    else partial_products (xor (ltb_ℤ a (pos 0)) (ltb_ℤ b (pos 0))) (magnitude a) (magnitude b)

-- unc0_cmpint
unfoldable pub cmpint : ℤ → ℤ → ℤ
cmpint a b = if eqb_ℤ a b then pos 0 else if ltb_ℤ a b then negsuc 0 else pos 1

-- C's `/` and `%`, which round toward zero, for a nonzero divisor
unfoldable pub tdiv : ℤ → ℤ → ℤ
unfolding neg
tdiv (pos a) (pos b) = pos (a / b)
tdiv (pos a) (negsuc b) = neg (pos (a / suc b))
tdiv (negsuc a) (pos b) = neg (pos (suc a / b))
tdiv (negsuc a) (negsuc b) = pos (suc a / suc b)

unfoldable pub tmod : ℤ → ℤ → ℤ
unfolding neg
tmod (pos a) (pos b) = pos (a % b)
tmod (pos a) (negsuc b) = pos (a % suc b)
tmod (negsuc a) (pos b) = neg (pos (suc a % b))
tmod (negsuc a) (negsuc b) = neg (pos (suc a % suc b))

-- unc0_iidiv
unfoldable pub iidiv : ℤ → ℤ → ℤ
unfolding ◌-ℤ◌
iidiv a b =
    let q = wrap (tdiv a b) in
    wrap (q -ℤ (if not (eqb_ℤ (wrap (q *ℤ b)) a) && ltb_ℤ a (pos 0) then pos 1 else pos 0))

-- unc0_imod
unfoldable pub imod : ℤ → ℤ → ℤ
unfolding ◌+ℤ◌
imod a b = tmod (wrap (tmod a b +ℤ b)) b
