-- ===== src/Encoding/Encode.antt =====
-- The encoders of src/utxt.c, which read UTF-8, and unc0_cconv_utf8ts of src/uutf.c.
use uncil.Prelude.{
  ℕ, zero, suc, ◌+◌, ◌-◌, ◌/◌, ◌^◌, Bool, true, false, not, ◌&&◌, List, [], ◌∷◌, ◌++◌, Option, none,
  some, bit_and, leb, ◌==◌, if◌then◌else◌, length,
}
use uncil.Prelude.Int.{pos, negsuc, ltb_ℤ, eqb_ℤ}
use uncil.Utf8.{utf8dec}
use uncil.Encoding.{Sink, Run, stop_status}

-- How many bytes a character has by its lead byte; `none` if there is no such lead byte.
unfoldable pub char_size : ℕ → Option ℕ
char_size c =
    if bit_and c 0x80 == 0
    then some 1
    else if bit_and c 0xe0 == 0xc0
    then some 2
    else if bit_and c 0xf0 == 0xe0
    then some 3
    else if bit_and c 0xf8 == 0xf0
    then some 4
    else none

-- Reading the rest of a character ends with the input, with a byte that does not continue it, or
-- with all of its bytes.
pub data Tails : Type 0 where
  ended : Tails
  broken : List ℕ → Tails
  whole : List ℕ → List ℕ → Tails

abbrev pub also : ℕ → Tails → Tails
also c ended = ended
also c (broken s) = broken s
also c (whole bs s) = whole (c ∷ bs) s

-- `for (i = 1; i < j; ++i) { ... buf[i] = c; }`
unfoldable pub read_tails : ℕ → List ℕ → Tails
read_tails zero s = whole [] s
read_tails (suc j) [] = ended
read_tails (suc j) (c ∷ s) =
    let rest = read_tails j s in if not (bit_and c 0xc0 == 0x80) then broken s else also c rest

-- What a character is to unc0_cconv_utf8read and unc0_cconv_utf8ts: the end of the input before
-- it or in it, no character, or its bytes.
pub data Char : Type 0 where
  at_end : Char
  cut : Char
  wrong : List ℕ → Char
  char : List ℕ → List ℕ → Char

abbrev pub with_lead : ℕ → Tails → Char
with_lead c ended = cut
with_lead c (broken s) = wrong s
with_lead c (whole bs s) = char (c ∷ bs) s

unfoldable pub read_char : List ℕ → Char
read_char [] = at_end
read_char (c ∷ s) = elim (char_size c) [
  | none ↦ wrong s
  | some j ↦ with_lead c (read_tails (j - 1) s)
]

module _ {σ : Type 0} (out : Sink σ) where
  -- The loop of the encoders: unc0_cconv_utf8read, then what `units` makes of the code point,
  -- `none` for those that the encoding does not have. unc0_cconv_utf8read reports an end within
  -- a character as an end. `none` is a loop that is still running after `fuel` rounds.
  unfoldable pub encode_loop : (ℕ → Option (List ℕ)) → ℕ → List ℕ → σ → Option (Run σ)
  encode_loop units zero s st = none
  encode_loop units (suc fuel) s st = elim (read_char s) [
    | at_end ↦ some (pos 0, [], st)
    | cut ↦ some (pos 0, [], st)
    | wrong s' ↦ some (negsuc 0, s', st)
    | char b s' ↦ elim (units (utf8dec b).0) [
      | none ↦ some (negsuc 0, s', st)
      | some w ↦ elim (eqb_ℤ (out st w).1 (pos 0)) [
        | true ↦ encode_loop units fuel s' (out st w).0
        | false ↦ some (stop_status (out st w).1, s', (out st w).0)
      ]
    ]
  ]

  -- Each round takes a byte, but for the last.
  unfoldable pub encode : (ℕ → Option (List ℕ)) → List ℕ → σ → Option (Run σ)
  encode units s st = encode_loop units (suc (length s)) s st

  -- The loop of unc0_cconv_utf8ts with `left` for `n - b`. An output that fails with a negative
  -- status is not counted, and the loop goes on.
  unfoldable pub utf8ts_loop : ℕ → ℕ → ℕ → List ℕ → σ → Option (Run σ)
  utf8ts_loop fuel b zero s st = some (pos 0, s, st)
  utf8ts_loop zero b (suc left) s st = none
  utf8ts_loop (suc fuel) b (suc left) s st = elim (read_char s) [
    | at_end ↦ some (pos 0, [], st)
    | cut ↦ some (pos b, [], st)
    | wrong s' ↦ some (pos 1, s', st)
    | char w s' ↦ elim (ltb_ℤ (pos 0) (out st w).1) [
      | true ↦ some (pos 0, s', (out st w).0)
      | false ↦ elim (eqb_ℤ (out st w).1 (pos 0)) [
        | true ↦ utf8ts_loop fuel (suc b) left s' (out st w).0
        | false ↦ utf8ts_loop fuel b (suc left) s' (out st w).0
      ]
    ]
  ]

  unfoldable pub utf8ts : ℕ → List ℕ → σ → Option (Run σ)
  utf8ts n s st = utf8ts_loop (suc (length s)) 0 n s st

  -- The loop of unc0_cconv_passthru with `buf` for what is in its buffer of 16 bytes.
  unfoldable pub passthru_loop : List ℕ → List ℕ → σ → Run σ
  passthru_loop [] [] st = (pos 0, [], st)
  passthru_loop (b ∷ buf) [] st = ((out st (b ∷ buf)).1, [], (out st (b ∷ buf)).0)
  passthru_loop buf (c ∷ s) st =
      let full = buf ++ c ∷ [] in
      let r = out st full in
      let next = passthru_loop [] s r.0 in
      let more = passthru_loop full s st in
      if length full == 16 then (if eqb_ℤ r.1 (pos 0) then next else (r.1, s, r.0)) else more

  unfoldable pub passthru : List ℕ → σ → Run σ
  passthru s st = passthru_loop [] s st

-- enc_u16le, enc_u16be, enc_u32le and enc_u32be
unfoldable pub u16le : ℕ → List ℕ
u16le u = bit_and u 0xff ∷ bit_and (u / 2 ^ 8) 0xff ∷ []

unfoldable pub u16be : ℕ → List ℕ
u16be u = bit_and (u / 2 ^ 8) 0xff ∷ bit_and u 0xff ∷ []

unfoldable pub u32le : ℕ → List ℕ
u32le u =
    bit_and u 0xff
    ∷ bit_and (u / 2 ^ 8) 0xff
    ∷ bit_and (u / 2 ^ 16) 0xff
    ∷ bit_and (u / 2 ^ 24) 0xff
    ∷ []

unfoldable pub u32be : ℕ → List ℕ
u32be u =
    bit_and (u / 2 ^ 24) 0xff
    ∷ bit_and (u / 2 ^ 16) 0xff
    ∷ bit_and (u / 2 ^ 8) 0xff
    ∷ bit_and u 0xff
    ∷ []

abbrev pub is_surrogate : ℕ → Bool
is_surrogate u = leb 0xd800 u && leb u 0xdfff

-- What unc0_cconv_utf16le_enc and unc0_cconv_utf16be_enc write for a code point.
unfoldable pub utf16_units : (ℕ → List ℕ) → ℕ → Option (List ℕ)
utf16_units u16 u =
    let v = u - 0x10000 in
    if is_surrogate u
    then none
    else if leb 0x10000 u
    then some (u16 (0xd800 + bit_and (v / 2 ^ 10) 0x3ff) ++ u16 (0xdc00 + bit_and v 0x3ff))
    else some (u16 u)

-- unc0_cconv_utf32le_enc and unc0_cconv_utf32be_enc
unfoldable pub utf32_units : (ℕ → List ℕ) → ℕ → Option (List ℕ)
utf32_units u32 u = if is_surrogate u then none else some (u32 u)

-- unc0_cconv_ascii_enc and unc0_cconv_latin1_enc
unfoldable pub byte_units : ℕ → ℕ → Option (List ℕ)
byte_units limit u = if leb limit u then none else some (u ∷ [])
