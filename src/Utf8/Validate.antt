-- ===== src/Utf8/Validate.antt =====
-- unc0_utf8validate of src/uutf.c. The tests look at the low eight bits of a `char` only, so a
-- byte stands for it whatever its sign.
pub mod Accepts
pub mod Sound
pub mod Inverse
pub mod Exact
use uncil.Prelude.{
  ℕ, zero, suc, ◌+◌, ◌-◌, ◌*◌, ◌^◌, Bool, true, false, List, [], ◌∷◌, Option, none, some, bit_and,
  bit_or, ltb, ◌==◌, if◌then◌else◌, length,
}

-- `do { c = *s++; if ((c & 0xC0) != 0x80) return 1; u = (u << 6) | (c & 0x3F); } while (--j)`
unfoldable pub read_tails : ℕ → ℕ → List ℕ → Option (ℕ × List ℕ)
read_tails zero u s = some (u, s)
read_tails (suc j) u [] = none
read_tails (suc j) u (c ∷ s) =
    let more = read_tails j (bit_or (u * 2 ^ 6) (bit_and c 0x3f)) s in
    if bit_and c 0xc0 == 0x80 then more else none

-- What follows a lead byte: `j` bytes, the mask `m` of the bits that a shorter form lacks, and
-- `go` for the rest of the loop.
unfoldable pub check_tails : ℕ → ℕ → ℕ → List ℕ → (List ℕ → Option Bool) → Option Bool
check_tails j m u s go = if ltb (length s) j then some false else elim (read_tails j u s) [
  | none ↦ some false
  | some (u', s') ↦ if bit_and u' m == 0 then some false else go s'
]

-- `~(Unc_UChar)x` for a 32-bit `Unc_UChar`
abbrev pub complement : ℕ → ℕ
complement x = 2 ^ 32 - 1 - x

-- The loop: true where the function goes on to return 0, false where it returns 1, and `none` if
-- the fuel is too little.
unfoldable pub validate_loop : ℕ → List ℕ → Option Bool
validate_loop zero s = none
validate_loop (suc fuel) [] = some true
validate_loop (suc fuel) (c ∷ s) =
    let rest = validate_loop fuel s in
    let two = check_tails 1 (complement 0x7f) (bit_and c 0x1f) s (validate_loop fuel) in
    let three = check_tails 2 (complement 0x7ff) (bit_and c 0x0f) s (validate_loop fuel) in
    let four = check_tails 3 (complement 0xffff) (bit_and c 0x07) s (validate_loop fuel) in
    if bit_and c 0x80 == 0
    then rest
    else if bit_and c 0xe0 == 0xc0
    then two
    else if bit_and c 0xf0 == 0xe0
    then three
    else if bit_and c 0xf8 == 0xf0
    then four
    else some false

-- Each round takes a byte.
unfoldable pub utf8validate : List ℕ → Option Bool
utf8validate s = validate_loop (suc (length s)) s
