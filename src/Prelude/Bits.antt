-- ===== src/Prelude/Bits.antt =====
-- Powers of two, and the bit operations as arithmetic: `|` of disjoint fields is a sum and `&`
-- with a low mask is a remainder.
use Prim.Native.Nat.{
  ℕ, zero, suc, ◌+◌, ◌-◌, ◌*◌, ◌/◌, ◌%◌, ◌^◌, ◌≤◌, ◌<◌, min, max, digits, bit_and, bit_or,
}
use Prim.Native.Nat.{bit_and-bitwise, bit_or-bitwise}
use mathlib.Core.Path.{◌≡◌, refl, sym, ap, ◌∙◌}
use native.Mathlib.Omega.{arith}
use native.Mathlib.Nat.{
  two-pow-succ, suc-add, zero-add, one-le-pow, mod-eq_of_lt, mul-add-mod_self_right, div-add-mod,
  div-eq_of_lt-le, le_refl, mod-lt, div-one, zero-div, div-div-eq-div-mul, pow-succ',
}

pub two_pow_add : (m n : ℕ) → 2 ^ (m + n) ≡ 2 ^ m * 2 ^ n
two_pow_add zero n = rw zero-add (omega arith)
two_pow_add (suc m) n =
    rw (suc-add, two-pow-succ (m + n), two-pow-succ m, two_pow_add m n) (omega arith)

pub two_pow_pos : (k : ℕ) → 0 < 2 ^ k
two_pow_pos k = one-le-pow k 2 (omega arith)

pub mod_unique : (x b q r : ℕ) → x ≡ q * b + r → r < b → x % b ≡ r
mod_unique x b q r e h = ap (λ (t : ℕ). t % b) e ∙ mul-add-mod_self_right q b r ∙ mod-eq_of_lt h

pub div_unique : (x b q r : ℕ) → x ≡ q * b + r → r < b → x / b ≡ q
div_unique x b q r e h = div-eq_of_lt-le b (omega arith) (omega arith)

mod_double : (a p : ℕ) → 0 < p → a % (p + p) ≡ a / 2 % p * 2 + a % 2
mod_double a p h =
    mod_unique a (p + p) (a / 2 / p) (a / 2 % p * 2 + a % 2) (omega (arith, div-add-mod (a / 2) p))
      (omega (arith, mod-lt (a / 2) h))

-- The digits of `a | 0`, then of `q * 2 ^ k | r`, by the recursion that `|` stands for.
or_zero : (n a : ℕ) → a ≤ n → digits (λ y. y) max n a 0 ≡ a
or_zero zero zero h = refl
or_zero zero (suc a) h = absurd (omega arith)
or_zero (suc n) zero h = refl
or_zero (suc n) (suc a) h = omega (arith, or_zero n (suc a / 2) (omega arith))

or_fields : (k n q r a : ℕ) → a ≡ q * 2 ^ k → a ≤ n → r < 2 ^ k → digits (λ y. y) max n a r ≡ a + r
or_fields zero n q zero a e h f = or_zero n a h ∙ omega arith
or_fields zero n q (suc r) a e h f = absurd (omega arith)
or_fields (suc k) zero q r zero e h f = omega arith
or_fields (suc k) zero q r (suc a) e h f = absurd (omega arith)
or_fields (suc k) (suc n) q r zero e h f = omega arith
or_fields (suc k) (suc n) q r (suc a) e h f =
    let d : q * 2 ^ suc k ≡ q * 2 ^ k + q * 2 ^ k =
      omega (arith, ap (λ (t : ℕ). q * t) (two-pow-succ k)) in
    let g : suc a / 2 ≡ q * 2 ^ k = omega arith in
    omega (
      arith,
      two-pow-succ k,
      or_fields k n q (r / 2) (suc a / 2) g (omega arith) (omega (arith, two-pow-succ k)),
    )

pub bit_or_fields : (k q r : ℕ) → r < 2 ^ k → bit_or (q * 2 ^ k) r ≡ q * 2 ^ k + r
bit_or_fields k q r h =
    bit_or-bitwise (q * 2 ^ k) r ∙ or_fields k (q * 2 ^ k) q r (q * 2 ^ k) refl (le_refl _) h

and_mask : (n k a : ℕ) → a ≤ n → digits (λ y. 0) min n a (2 ^ k - 1) ≡ a % 2 ^ k
and_mask zero k zero h = omega (arith, two_pow_pos k)
and_mask zero k (suc a) h = absurd (omega arith)
and_mask (suc n) k zero h = omega (arith, two_pow_pos k)
and_mask (suc n) zero (suc a) h = omega (arith, and_mask n 0 (suc a / 2) (omega arith))
and_mask (suc n) (suc k) (suc a) h =
    let e : 2 ^ suc k ≡ 2 ^ k + 2 ^ k = two-pow-succ k in
    let half : (2 ^ suc k - 1) / 2 ≡ 2 ^ k - 1 = omega (arith, two_pow_pos k) in
    let odd : (2 ^ suc k - 1) % 2 ≡ 1 = omega (arith, two_pow_pos k) in
    rw (half, odd, e, mod_double (suc a) (2 ^ k) (two_pow_pos k))
      (omega (arith, and_mask n k (suc a / 2) (omega arith)))

pub bit_and_low : (k a : ℕ) → bit_and a (2 ^ k - 1) ≡ a % 2 ^ k
bit_and_low k a = bit_and-bitwise a (2 ^ k - 1) ∙ and_mask a k a (le_refl _)

-- `&` with a mask of `w` ones above `k` zeros.
and_window :
    (k w n a : ℕ)
    → a ≤ n
    → digits (λ y. 0) min n a ((2 ^ w - 1) * 2 ^ k) ≡ a / 2 ^ k % 2 ^ w * 2 ^ k
and_window zero w n a h =
    let e : (2 ^ w - 1) * 2 ^ 0 ≡ 2 ^ w - 1 = omega arith in
    rw (e, and_mask n w a h, div-one) (omega arith)
and_window (suc k) w zero zero h =
    rw (zero-div, mod-eq_of_lt {n = 0} {m = 2 ^ w} (two_pow_pos w)) (omega arith)
and_window (suc k) w zero (suc a) h = absurd (omega arith)
and_window (suc k) w (suc n) zero h =
    rw (zero-div, mod-eq_of_lt {n = 0} {m = 2 ^ w} (two_pow_pos w)) (omega arith)
and_window (suc k) w (suc n) (suc a) h =
    let double : (2 ^ w - 1) * 2 ^ suc k ≡ (2 ^ w - 1) * 2 ^ k + (2 ^ w - 1) * 2 ^ k =
      omega (arith, ap (λ (t : ℕ). (2 ^ w - 1) * t) (two-pow-succ k)) in
    let half : (2 ^ w - 1) * 2 ^ suc k / 2 ≡ (2 ^ w - 1) * 2 ^ k = omega arith in
    let even : (2 ^ w - 1) * 2 ^ suc k % 2 ≡ 0 = omega arith in
    let quotient : suc a / 2 ^ suc k ≡ suc a / 2 / 2 ^ k =
      ap (λ (t : ℕ). suc a / t) (pow-succ' 2 k) ∙ sym (div-div-eq-div-mul (suc a) 2 (2 ^ k)) in
    let top : suc a / 2 / 2 ^ k % 2 ^ w * 2 ^ suc k
        ≡ suc a / 2 / 2 ^ k % 2 ^ w * 2 ^ k + suc a / 2 / 2 ^ k % 2 ^ w * 2 ^ k =
      omega (arith, ap (λ (t : ℕ). suc a / 2 / 2 ^ k % 2 ^ w * t) (two-pow-succ k)) in
    rw (half, even, quotient, top) (omega (arith, and_window k w n (suc a / 2) (omega arith)))

pub bit_and_window : (k w a : ℕ) → bit_and a ((2 ^ w - 1) * 2 ^ k) ≡ a / 2 ^ k % 2 ^ w * 2 ^ k
bit_and_window k w a = bit_and-bitwise a ((2 ^ w - 1) * 2 ^ k) ∙ and_window k w a a (le_refl _)

or_above : (k n q a b : ℕ) → b ≡ q * 2 ^ k → a ≤ n → a < 2 ^ k → digits (λ y. y) max n a b ≡ a + b
or_above zero zero q zero b e h f = omega arith
or_above zero (suc n) q zero b e h f = omega arith
or_above zero n q (suc a) b e h f = absurd (omega arith)
or_above (suc k) zero q zero b e h f = omega arith
or_above (suc k) zero q (suc a) b e h f = absurd (omega arith)
or_above (suc k) (suc n) q zero b e h f = omega arith
or_above (suc k) (suc n) q (suc a) b e h f =
    let d : q * 2 ^ suc k ≡ q * 2 ^ k + q * 2 ^ k =
      omega (arith, ap (λ (t : ℕ). q * t) (two-pow-succ k)) in
    let g : b / 2 ≡ q * 2 ^ k = omega arith in
    omega
      (arith, or_above k n q (suc a / 2) (b / 2) g (omega arith) (omega (arith, two-pow-succ k)))

pub bit_or_above : (k q r : ℕ) → r < 2 ^ k → bit_or r (q * 2 ^ k) ≡ r + q * 2 ^ k
bit_or_above k q r h =
    bit_or-bitwise r (q * 2 ^ k) ∙ or_above k r q r (q * 2 ^ k) refl (le_refl _) h

-- A field between two others: `w` bits of `p` above `k` bits, and `q` above them.
or_between :
    (w k n q r p a b : ℕ)
    → a ≡ q * 2 ^ w * 2 ^ k + r
    → b ≡ p * 2 ^ k
    → a ≤ n
    → r < 2 ^ k
    → p < 2 ^ w
    → digits (λ y. y) max n a b ≡ a + b
or_between w zero n q r p a b e f h s t = or_fields w n q b a (omega arith) h (omega arith)
or_between w (suc k) zero q r p zero b e f h s t = omega arith
or_between w (suc k) zero q r p (suc a) b e f h s t = absurd (omega arith)
or_between w (suc k) (suc n) q r p zero b e f h s t = omega arith
or_between w (suc k) (suc n) q r p (suc a) b e f h s t =
    let d : q * 2 ^ w * 2 ^ suc k ≡ q * 2 ^ w * 2 ^ k + q * 2 ^ w * 2 ^ k =
      omega (arith, ap (λ (t : ℕ). q * 2 ^ w * t) (two-pow-succ k)) in
    let c : p * 2 ^ suc k ≡ p * 2 ^ k + p * 2 ^ k =
      omega (arith, ap (λ (t : ℕ). p * t) (two-pow-succ k)) in
    let g : suc a / 2 ≡ q * 2 ^ w * 2 ^ k + r / 2 = omega arith in
    let i : b / 2 ≡ p * 2 ^ k = omega arith in
    let j : r / 2 < 2 ^ k = omega (arith, two-pow-succ k) in
    omega (arith, or_between w k n q (r / 2) p (suc a / 2) (b / 2) g i (omega arith) j t)

pub bit_or_between :
    (w k q r p : ℕ)
    → r < 2 ^ k
    → p < 2 ^ w
    → bit_or (q * 2 ^ w * 2 ^ k + r) (p * 2 ^ k) ≡ q * 2 ^ w * 2 ^ k + r + p * 2 ^ k
bit_or_between w k q r p s t =
    let a : ℕ = q * 2 ^ w * 2 ^ k + r in
    bit_or-bitwise a (p * 2 ^ k) ∙ or_between w k a q r p a (p * 2 ^ k) refl refl (le_refl _) s t

-- The masks that the sources put on a byte.
pub and_0x80 : (b : ℕ) → b < 256 → bit_and b 0x80 ≡ b / 128 * 128
and_0x80 b h = bit_and_window 7 1 b ∙ omega arith

pub and_0x40 : (b : ℕ) → b < 256 → bit_and b 0x40 ≡ b / 64 % 2 * 64
and_0x40 b h = bit_and_window 6 1 b ∙ omega arith

pub and_0xc0 : (b : ℕ) → b < 256 → bit_and b 0xc0 ≡ b / 64 * 64
and_0xc0 b h = bit_and_window 6 2 b ∙ omega arith

pub and_0xe0 : (b : ℕ) → b < 256 → bit_and b 0xe0 ≡ b / 32 * 32
and_0xe0 b h = bit_and_window 5 3 b ∙ omega arith

pub and_0xf0 : (b : ℕ) → b < 256 → bit_and b 0xf0 ≡ b / 16 * 16
and_0xf0 b h = bit_and_window 4 4 b ∙ omega arith

pub and_0xf8 : (b : ℕ) → b < 256 → bit_and b 0xf8 ≡ b / 8 * 8
and_0xf8 b h = bit_and_window 3 5 b ∙ omega arith
