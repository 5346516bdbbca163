-- ===== src/Lexer/Integers.antt =====
-- Integer literals: a numeral in one of the four bases, read by the digit loop of src/ulex.c.
use uncil.Prelude.{
  ℕ, suc, ◌+◌, ◌-◌, ◌*◌, ◌%◌, ◌^◌, ◌≤◌, ◌<◌, ◌≡◌, inl, inr, refl, sym, ap, ◌∙◌, arith, Bool, true,
  false, ◌||◌, List, [], ◌∷◌, ◌++◌, map, some, Bool-cases, ltb, ◌==◌, if◌then◌else◌, length,
}
use native.Mathlib.Nat.{mul-le-mul_left, add-mul, mul_assoc, pow-zero, pow-succ', one-le-pow}
use uncil.Prelude.Bits.{mod_unique}
use uncil.Prelude.Int.{pos, wrap, ◌+ℤ◌, ◌*ℤ◌, ltb_ℤ, wrap_id}
use uncil.Lexer.{char_at, isdigit, isdigitb, getdigitb, whole, read_digits, based, read_integer}

-- The bases of a literal
pub data Base : Type 0 where
  binary octal decimal hexadecimal : Base

abbrev pub radix : Base → ℕ
radix binary = 2
radix octal = 8
radix decimal = 10
radix hexadecimal = 16

abbrev pub prefix : Base → List ℕ
prefix binary = 0x30 ∷ 0x62 ∷ []
prefix octal = 0x30 ∷ 0x6f ∷ []
prefix decimal = []
prefix hexadecimal = 0x30 ∷ 0x78 ∷ []

-- A digit and whether it is written in upper case, its character, and the number that digits
-- stand for, the most significant first
abbrev pub letter : ℕ × Bool → ℕ
letter (d, upper) = if ltb d 10 then 0x30 + d else (if upper then 0x41 else 0x61) + (d - 10)

abbrev pub value : ℕ → List (ℕ × Bool) → ℕ
value b [] = 0
value b (d ∷ ds) = d.0 * b ^ length ds + value b ds

abbrev pub AllBelow : ℕ → List (ℕ × Bool) → Type 0
AllBelow b [] = Unit {0}
AllBelow b (d ∷ ds) = (d.0 < b) × AllBelow b ds

letter-isdigitb : (b : Base) (d : ℕ × Bool) → d.0 < radix b → isdigitb (letter d) (radix b) ≡ true
unfolding isdigitb
letter-isdigitb binary d h = ground arith
letter-isdigitb octal d h = ground arith
letter-isdigitb decimal d h = ground arith
letter-isdigitb hexadecimal (d, true) h = ground arith
letter-isdigitb hexadecimal (d, false) h = ground arith

getdigitb-letter : (b : Base) (d : ℕ × Bool) → d.0 < radix b → getdigitb (letter d) (radix b) ≡ d.0
unfolding getdigitb
getdigitb-letter binary d h = ground arith
getdigitb-letter octal d h = ground arith
getdigitb-letter decimal d h = ground arith
getdigitb-letter hexadecimal (d, true) h = ground arith
getdigitb-letter hexadecimal (d, false) h = ground arith

mul_pos : (u b : ℕ) → pos u *ℤ pos b ≡ pos (u * b)
unfolding ◌*ℤ◌
mul_pos u b = ground arith

add_pos : (a d : ℕ) → pos a +ℤ pos d ≡ pos (a + d)
unfolding ◌+ℤ◌
add_pos a d = ground arith

wrap_step : (u b d : ℕ) → u * b + d < 2 ^ 63 → wrap (pos u *ℤ pos b +ℤ pos d) ≡ pos (u * b + d)
wrap_step u b d h = rw (mul_pos u b, add_pos (u * b) d) (wrap_id (pos (u * b + d)) (h, omega arith))

radix_pos : (b : Base) → 0 < radix b
radix_pos binary = omega arith
radix_pos octal = omega arith
radix_pos decimal = omega arith
radix_pos hexadecimal = omega arith

grows : (n p : ℕ) → 0 < p → n ≤ n * p
grows n p h = omega (arith, mul-le-mul_left n h)

next_digit : (u b d p v : ℕ) → u * (b * p) + (d * p + v) ≡ (u * b + d) * p + v
next_digit u b d p v = omega (arith, add-mul (u * b) d p, mul_assoc u b p)

no_digits : (u b : ℕ) → u ≡ u * b ^ 0 + 0
no_digits u b = let e : u * b ^ 0 ≡ u * 1 = ap (λ (t : ℕ). u * t) (pow-zero b) in omega (arith, e)

-- One digit, of a number that does not pass the largest integer
digit_step :
    (b : Base) (u : ℕ) (d : ℕ × Bool) (s : List ℕ)
    → d.0 < radix b
    → u * radix b + d.0 < 2 ^ 63
    → read_digits (radix b) (pos u) (letter d ∷ s)
      ≡ read_digits (radix b) (pos (u * radix b + d.0)) s
unfolding read_digits
digit_step b u d s h m =
    let z : ltb_ℤ (pos (u * radix b + d.0)) (pos u) ≡ false =
      ground (arith, grows u (radix b) (radix_pos b)) in
    rw (getdigitb-letter b d h, wrap_step u (radix b) d.0 m, letter-isdigitb b d h) (rw z refl)

reads :
    (b : Base) (u : ℕ) (ds : List (ℕ × Bool)) (s : List ℕ)
    → AllBelow (radix b) ds
    → isdigitb (char_at s) (radix b) ≡ false
    → u * radix b ^ length ds + value (radix b) ds < 2 ^ 63
    → read_digits (radix b) (pos u) (map letter ds ++ s)
      ≡ whole (pos (u * radix b ^ length ds + value (radix b) ds)) s
unfolding read_digits
reads b u [] [] h e m = ap (λ n. whole (pos n) []) (no_digits u (radix b))
reads b u [] (c ∷ s) h e m = rw e (ap (λ n. whole (pos n) (c ∷ s)) (no_digits u (radix b)))
reads b u (d ∷ ds) s h e m =
    let p = radix b ^ length ds in
    let f : u * radix b ^ suc (length ds) + (d.0 * p + value (radix b) ds)
        ≡ (u * radix b + d.0) * p + value (radix b) ds =
      rw (pow-succ' (radix b) (length ds)) (next_digit u (radix b) d.0 p (value (radix b) ds)) in
    let k : (u * radix b + d.0) * p + value (radix b) ds < 2 ^ 63 = omega (arith, f, m) in
    let g = grows (u * radix b + d.0) p (one-le-pow (length ds) (radix b) (radix_pos b)) in
    digit_step b u d (map letter ds ++ s) h.0 (omega (arith, k, g))
    ∙ reads b (u * radix b + d.0) ds s h.1 e k
    ∙ ap (λ n. whole (pos n) s) (sym f)

from_zero :
    (b : Base) (ds : List (ℕ × Bool)) (s : List ℕ)
    → AllBelow (radix b) ds
    → isdigitb (char_at s) (radix b) ≡ false
    → value (radix b) ds < 2 ^ 63
    → read_digits (radix b) (pos 0) (map letter ds ++ s) ≡ whole (pos (value (radix b) ds)) s
from_zero b ds s h e m =
    let z : 0 * radix b ^ length ds + value (radix b) ds ≡ value (radix b) ds = omega arith in
    reads b 0 ds s h e (omega (arith, z, m)) ∙ ap (λ n. whole (pos n) s) z

based-value :
    (b : Base) (d : ℕ × Bool) (ds : List (ℕ × Bool)) (s : List ℕ)
    → AllBelow (radix b) (d ∷ ds)
    → isdigitb (char_at s) (radix b) ≡ false
    → value (radix b) (d ∷ ds) < 2 ^ 63
    → based (radix b) (map letter (d ∷ ds) ++ s) ≡ some (whole (pos (value (radix b) (d ∷ ds))) s)
unfolding based
based-value b d ds s h e m = rw (letter-isdigitb b d h.0) (ap some (from_zero b (d ∷ ds) s h e m))

-- What may stand behind the digits
abbrev pub Closes : Base → List ℕ → Type 0
Closes b s =
    (isdigitb (char_at s) (radix b) ≡ false)
    × (isdigit (char_at s) ≡ false)
    × (((char_at s == 0x78) || (char_at s == 0x6f) || (char_at s == 0x62)) ≡ false)

neither : (a b c : Bool) → a || b || c ≡ false → (a ≡ false) × (b ≡ false) × (c ≡ false)
neither false false false h = (refl, refl, refl)
neither false false true h = absurd (cc)
neither false true c h = absurd (cc)
neither true b c h = absurd (cc)

after_zero :
    (ds : List (ℕ × Bool)) (s : List ℕ)
    → AllBelow 10 ds
    → Closes decimal s
    → value 10 ds < 2 ^ 63
    → read_integer (0x30 ∷ (map letter ds ++ s)) ≡ some (whole (pos (value 10 ds)) s)
unfolding read_integer
after_zero [] s h e m =
    let f = neither (char_at s == 0x78) (char_at s == 0x6f) (char_at s == 0x62) e.2 in
    rw (f.0, f.1, f.2, e.1) refl
after_zero (d ∷ ds) s h e m =
    let x : (letter d == 0x78) ≡ false = ground (arith, h.0) in
    let o : (letter d == 0x6f) ≡ false = ground (arith, h.0) in
    let b : (letter d == 0x62) ≡ false = ground (arith, h.0) in
    let y : isdigit (letter d) ≡ true = ground (arith, h.0) in
    rw (x, o, b, y) (ap some (from_zero decimal (d ∷ ds) s h e.0 m))

-- In each of the four bases, the prefix of the base and one or more digits, those from ten on
-- as letters of either case, with what does not go on with the literal behind them, are read
-- as the integer that the digits stand for if it is below 2 ^ 63, and the input goes on behind
-- them.
pub read_integer-value :
    (b : Base) (d : ℕ × Bool) (ds : List (ℕ × Bool)) (s : List ℕ)
    → AllBelow (radix b) (d ∷ ds)
    → Closes b s
    → value (radix b) (d ∷ ds) < 2 ^ 63
    → read_integer (prefix b ++ map letter (d ∷ ds) ++ s)
      ≡ some (whole (pos (value (radix b) (d ∷ ds))) s)
unfolding read_integer based
read_integer-value binary d ds s h e m = based-value binary d ds s h e.0 m
read_integer-value octal d ds s h e m = based-value octal d ds s h e.0 m
read_integer-value decimal d ds s h e m = elim (Bool-cases (d.0 == 0)) [
  | inl z ↦
      let y : letter d ≡ 0x30 = ground arith in
      let w : d.0 ≡ 0 = ground arith in
      let v : value 10 ds ≡ d.0 * 10 ^ length ds + value 10 ds = rw w (omega arith) in
      rw y (after_zero ds s h.1 e (omega (arith, v, m)) ∙ ap (λ n. some (whole (pos n) s)) v)
  | inr z ↦
      let y : (letter d == 0x30) ≡ false = ground arith in
      rw y (ap some (from_zero decimal (d ∷ ds) s h e.0 m))
]
read_integer-value hexadecimal d ds s h e m = based-value hexadecimal d ds s h e.0 m

wrap_over : (n : ℕ) → 2 ^ 64 ≤ n → n < 2 ^ 64 + 2 ^ 63 → wrap (pos n) ≡ pos (n - 2 ^ 64)
unfolding wrap
wrap_over n h m =
    let r : n % 2 ^ 64 ≡ n - 2 ^ 64 =
      mod_unique n (2 ^ 64) 1 (n - 2 ^ 64) (omega arith) (omega arith) in
    let z : ltb (n - 2 ^ 64) (2 ^ 63) ≡ true = ground arith in rw (r, z) refl

-- Where an integer literal has the value `u` and a decimal digit follows with which it is
-- between 2 ^ 64 + u and 2 ^ 64 + 2 ^ 63, that digit is taken for one of an integer, whose
-- value is then too small by 2 ^ 64.
pub read_digits_wraps :
    (u c : ℕ) (s : List ℕ)
    → isdigit c ≡ true
    → 2 ^ 64 + u ≤ u * 10 + (c - 0x30)
    → u * 10 + (c - 0x30) < 2 ^ 64 + 2 ^ 63
    → read_digits 10 (pos u) (c ∷ s) ≡ read_digits 10 (pos (u * 10 + (c - 0x30) - 2 ^ 64)) s
unfolding read_digits isdigitb getdigitb
read_digits_wraps u c s h m l =
    let n = u * 10 + (c - 0x30) in
    let w : wrap (pos u *ℤ pos 10 +ℤ pos (c - 0x30)) ≡ pos (n - 2 ^ 64) =
      rw (mul_pos u 10, add_pos (u * 10) (c - 0x30)) (wrap_over n (omega arith) l) in
    let z : ltb_ℤ (pos (n - 2 ^ 64)) (pos u) ≡ false = ground arith in rw (h, w) (rw z refl)
