-- ===== src/Utf8/Validate/Accepts.antt =====
-- unc0_utf8validate returns on every input, and accepts what unc0_utf8enc writes.
use uncil.Prelude.{
  ℕ, zero, suc, ◌+◌, ◌*◌, ◌/◌, ◌%◌, ◌^◌, ◌≤◌, ◌<◌, ◌≡◌, inl, inr, refl, ap, ◌∙◌, arith, List, [],
  ◌∷◌, ◌++◌, Option, some, bit_and, ltb, ◌==◌, if◌then◌else◌, Bool, true, false, Bool-cases, length,
  length-append,
}
use uncil.Prelude.Bits.{
  bit_or_fields, bit_and_low, bit_and_window, and_0x80, and_0xe0, and_0xf0, and_0xf8,
}
use uncil.Utf8.{utf8_bytes}
use uncil.Utf8.Encode.{bytes_one, bytes_two, bytes_three, bytes_four}
use uncil.Utf8.Decode.{is_tail, tail_bits}
use uncil.Utf8.Shape.{shape}
use uncil.Utf8.Text.{text}
use uncil.Utf8.Validate.{read_tails, check_tails, validate_loop, utf8validate, complement}

pub read_tail :
    (j u c : ℕ) (s : List ℕ)
    → c < 64
    → read_tails (suc j) u ((128 + c) ∷ s) ≡ read_tails j (u * 64 + c) s
unfolding read_tails
read_tail j u c s h = rw (is_tail c h, tail_bits c h, bit_or_fields 6 u c h)

read_none : (u : ℕ) (s : List ℕ) → read_tails 0 u s ≡ some (u, s)
unfolding read_tails
read_none u s = refl

pub check_value :
    (j m u : ℕ) (s : List ℕ) (go : List ℕ → Option Bool) (u' : ℕ) (s' : List ℕ)
    → j ≤ length s
    → read_tails j u s ≡ some (u', s')
    → check_tails j m u s go ≡ (if bit_and u' m == 0 then some false else go s')
unfolding check_tails
check_value j m u s go u' s' h e =
    let l : ltb (length s) j ≡ false = ground arith in rw (l, e, check_tails)

-- The bits above those of a shorter form.
pub mask_two : (u : ℕ) → u < 2 ^ 32 → bit_and u (complement 0x7f) ≡ u / 128 * 128
mask_two u h = bit_and_window 7 25 u ∙ omega arith

pub mask_three : (u : ℕ) → u < 2 ^ 32 → bit_and u (complement 0x7ff) ≡ u / 2048 * 2048
mask_three u h = bit_and_window 11 21 u ∙ omega arith

pub mask_four : (u : ℕ) → u < 2 ^ 32 → bit_and u (complement 0xffff) ≡ u / 65536 * 65536
mask_four u h = bit_and_window 16 16 u ∙ omega arith

pub validate_one :
    (f c : ℕ) (s : List ℕ) → c < 128 → validate_loop (suc f) (c ∷ s) ≡ validate_loop f s
unfolding validate_loop
validate_one f c s h = let a : bit_and c 0x80 ≡ 0 = and_0x80 c (omega arith) ∙ omega arith in rw a

pub validate_two :
    (f x : ℕ) (s : List ℕ)
    → x < 32
    → validate_loop (suc f) ((192 + x) ∷ s) ≡ check_tails 1 (complement 0x7f) x s (validate_loop f)
unfolding validate_loop
validate_two f x s h =
    let a : bit_and (192 + x) 0x80 ≡ 128 = and_0x80 (192 + x) (omega arith) ∙ omega arith in
    let b : bit_and (192 + x) 0xe0 ≡ 192 = and_0xe0 (192 + x) (omega arith) ∙ omega arith in
    let c : bit_and (192 + x) 0x1f ≡ x = bit_and_low 5 (192 + x) ∙ omega arith in rw (a, b, c)

pub validate_three :
    (f x : ℕ) (s : List ℕ)
    → x < 16
    → validate_loop (suc f) ((224 + x) ∷ s) ≡ check_tails 2 (complement 0x7ff) x s (validate_loop f)
unfolding validate_loop
validate_three f x s h =
    let a : bit_and (224 + x) 0x80 ≡ 128 = and_0x80 (224 + x) (omega arith) ∙ omega arith in
    let b : bit_and (224 + x) 0xe0 ≡ 224 = and_0xe0 (224 + x) (omega arith) ∙ omega arith in
    let c : bit_and (224 + x) 0xf0 ≡ 224 = and_0xf0 (224 + x) (omega arith) ∙ omega arith in
    let d : bit_and (224 + x) 0x0f ≡ x = bit_and_low 4 (224 + x) ∙ omega arith in rw (a, b, c, d)

pub validate_four :
    (f x : ℕ) (s : List ℕ)
    → x < 8
    → validate_loop (suc f) ((240 + x) ∷ s)
      ≡ check_tails 3 (complement 0xffff) x s (validate_loop f)
unfolding validate_loop
validate_four f x s h =
    let a : bit_and (240 + x) 0x80 ≡ 128 = and_0x80 (240 + x) (omega arith) ∙ omega arith in
    let b : bit_and (240 + x) 0xe0 ≡ 224 = and_0xe0 (240 + x) (omega arith) ∙ omega arith in
    let c : bit_and (240 + x) 0xf0 ≡ 240 = and_0xf0 (240 + x) (omega arith) ∙ omega arith in
    let d : bit_and (240 + x) 0xf8 ≡ 240 = and_0xf8 (240 + x) (omega arith) ∙ omega arith in
    let e : bit_and (240 + x) 0x07 ≡ x = bit_and_low 3 (240 + x) ∙ omega arith in rw (a, b, c, d, e)

accept_two :
    (f u : ℕ) (s : List ℕ)
    → 0x80 ≤ u
    → u < 0x800
    → validate_loop (suc f) (utf8_bytes u ++ s) ≡ validate_loop f s
accept_two f u s h k =
    let v : u / 64 * 64 + u % 64 ≡ u = omega arith in
    let ok : (bit_and u (complement 0x7f) == 0) ≡ false =
      rw (mask_two u (omega arith)) (ground arith) in
    rw (bytes_two u h k, validate_two f (u / 64) _ (omega arith))
      (check_value 1 (complement 0x7f) (u / 64) _ (validate_loop f) u s (omega arith)
          (rw (read_tail 0 (u / 64) (u % 64) s (omega arith), v) (read_none u s))
        ∙ rw ok)

accept_three :
    (f u : ℕ) (s : List ℕ)
    → 0x800 ≤ u
    → u < 0x10000
    → validate_loop (suc f) (utf8_bytes u ++ s) ≡ validate_loop f s
accept_three f u s h k =
    let v : (u / 4096 * 64 + u / 64 % 64) * 64 + u % 64 ≡ u = omega arith in
    let ok : (bit_and u (complement 0x7ff) == 0) ≡ false =
      rw (mask_three u (omega arith)) (ground arith) in
    rw (bytes_three u h k, validate_three f (u / 4096) _ (omega arith))
      (check_value 2 (complement 0x7ff) (u / 4096) _ (validate_loop f) u s (omega arith) (
          rw
            (
              read_tail 1 (u / 4096) (u / 64 % 64) _ (omega arith),
              read_tail 0 _ (u % 64) s (omega arith),
              v,
            )
            (read_none u s))
        ∙ rw ok)

pub accept_four :
    (f u : ℕ) (s : List ℕ)
    → 0x10000 ≤ u
    → u < 0x200000
    → validate_loop (suc f) (utf8_bytes u ++ s) ≡ validate_loop f s
accept_four f u s h k =
    let v : ((u / 262144 * 64 + u / 4096 % 64) * 64 + u / 64 % 64) * 64 + u % 64 ≡ u =
      omega arith in
    let ok : (bit_and u (complement 0xffff) == 0) ≡ false =
      rw (mask_four u (omega arith)) (ground arith) in
    rw (bytes_four u h k, validate_four f (u / 262144) _ (omega arith))
      (check_value 3 (complement 0xffff) (u / 262144) _ (validate_loop f) u s (omega arith) (
          rw
            (
              read_tail 2 (u / 262144) (u / 4096 % 64) _ (omega arith),
              read_tail 1 _ (u / 64 % 64) _ (omega arith),
              read_tail 0 _ (u % 64) s (omega arith),
              v,
            )
            (read_none u s))
        ∙ rw ok)

accept :
    (f u : ℕ) (s : List ℕ)
    → u < 0x200000
    → validate_loop (suc f) (utf8_bytes u ++ s) ≡ validate_loop f s
accept f u s h = elim (Bool-cases (ltb u 0x80)) [
  | inl y ↦ rw (bytes_one u (ground arith)) (validate_one f u s (ground arith))
  | inr y ↦ elim (Bool-cases (ltb u 0x800)) [
    | inl z ↦ accept_two f u s (ground arith) (ground arith)
    | inr z ↦ elim (Bool-cases (ltb u 0x10000)) [
      | inl t ↦ accept_three f u s (ground arith) (ground arith)
      | inr t ↦ accept_four f u s (ground arith) h
    ]
  ]
]

-- The code points of 21 bits; unc0_utf8enc returns for those below 0x110000.
abbrev pub AllWide : List ℕ → Type 0
AllWide [] = Unit {0}
AllWide (u ∷ us) = (u < 0x200000) × AllWide us

accept_all :
    (us : List ℕ) (f : ℕ)
    → AllWide us
    → length (text us) < f
    → validate_loop f (text us) ≡ some true
unfolding text
accept_all us zero w h = absurd (omega arith)
accept_all [] (suc f) w h = unfold validate_loop in refl
accept_all (u ∷ us) (suc f) w h =
    let s = shape u w.0 in
    let n : length (utf8_bytes u) ≡ suc (length s.tails) = ap length s.split in
    accept f u (text us) w.0
    ∙ accept_all us f w.1 (omega (arith, length-append {0} (utf8_bytes u) (text us)))

-- The text of any code points below 0x200000, those from 0x110000 on included, passes
-- unc0_utf8validate.
pub validate-text : (us : List ℕ) → AllWide us → utf8validate (text us) ≡ some true
unfolding utf8validate
validate-text us w = accept_all us (suc (length (text us))) w (omega arith)
