-- ===== src/Utf8/Decode.antt =====
-- unc0_utf8dec on what unc0_utf8enc writes, and on any bytes.
use uncil.Prelude.{
  ℕ, suc, ◌+◌, ◌*◌, ◌/◌, ◌%◌, ◌≤◌, ◌<◌, ◌≡◌, inl, inr, refl, ◌∙◌, arith, List, ◌∷◌, ◌++◌, bit_and,
  ltb, Bool-cases,
}
use uncil.Prelude.Bits.{
  bit_or_fields, bit_and_low, and_0x80, and_0xc0, and_0xe0, and_0xf0, and_0xf8,
}
use uncil.Utf8.{utf8_bytes, utf8dec_loop, utf8dec_end, utf8dec}
use uncil.Utf8.Encode.{bytes_one, bytes_two, bytes_three, bytes_four}

pub is_tail : (c : ℕ) → c < 64 → bit_and (128 + c) 0xc0 ≡ 0x80
is_tail c h = and_0xc0 (128 + c) (omega arith) ∙ omega arith

pub tail_bits : (c : ℕ) → c < 64 → bit_and (128 + c) 0x3f ≡ c
tail_bits c h = bit_and_low 6 (128 + c) ∙ omega arith

dec_tail :
    (l u c : ℕ) (p : List ℕ)
    → c < 64
    → utf8dec_loop (suc l) u ((128 + c) ∷ p) ≡ utf8dec_loop l (u * 64 + c) p
unfolding utf8dec_loop
dec_tail l u c p h = rw (is_tail c h, tail_bits c h, bit_or_fields 6 u c h)

dec_done : (u : ℕ) (p : List ℕ) → utf8dec_loop 0 u p ≡ (u, 0, p)
unfolding utf8dec_loop
dec_done u p = refl

end_good : (u : ℕ) (p : List ℕ) → u < 0x110000 → utf8dec_end (u, 0, p) ≡ (u, p)
unfolding utf8dec_end
end_good u p h = ground arith

end_large : (u : ℕ) (p : List ℕ) → 0x110000 ≤ u → utf8dec_end (u, 0, p) ≡ (0xfffd, p)
unfolding utf8dec_end
end_large u p h = ground arith

dec_one : (b : ℕ) (p : List ℕ) → b < 128 → utf8dec (b ∷ p) ≡ (b, p)
unfolding utf8dec
dec_one b p h = ground (arith, and_0x80 b)

dec_two : (x : ℕ) (p : List ℕ) → x < 32 → utf8dec ((192 + x) ∷ p) ≡ utf8dec_end (utf8dec_loop 1 x p)
unfolding utf8dec
dec_two x p h =
    let a : bit_and (192 + x) 0x80 ≡ 128 = and_0x80 (192 + x) (omega arith) ∙ omega arith in
    let b : bit_and (192 + x) 0xe0 ≡ 192 = and_0xe0 (192 + x) (omega arith) ∙ omega arith in
    let c : bit_and (192 + x) 0x1f ≡ x = bit_and_low 5 (192 + x) ∙ omega arith in rw (a, b, c)

dec_three :
    (x : ℕ) (p : List ℕ) → x < 16 → utf8dec ((224 + x) ∷ p) ≡ utf8dec_end (utf8dec_loop 2 x p)
unfolding utf8dec
dec_three x p h =
    let a : bit_and (224 + x) 0x80 ≡ 128 = and_0x80 (224 + x) (omega arith) ∙ omega arith in
    let b : bit_and (224 + x) 0xe0 ≡ 224 = and_0xe0 (224 + x) (omega arith) ∙ omega arith in
    let c : bit_and (224 + x) 0xf0 ≡ 224 = and_0xf0 (224 + x) (omega arith) ∙ omega arith in
    let d : bit_and (224 + x) 0x0f ≡ x = bit_and_low 4 (224 + x) ∙ omega arith in rw (a, b, c, d)

dec_four : (x : ℕ) (p : List ℕ) → x < 8 → utf8dec ((240 + x) ∷ p) ≡ utf8dec_end (utf8dec_loop 3 x p)
unfolding utf8dec
dec_four x p h =
    let a : bit_and (240 + x) 0x80 ≡ 128 = and_0x80 (240 + x) (omega arith) ∙ omega arith in
    let b : bit_and (240 + x) 0xe0 ≡ 224 = and_0xe0 (240 + x) (omega arith) ∙ omega arith in
    let c : bit_and (240 + x) 0xf0 ≡ 240 = and_0xf0 (240 + x) (omega arith) ∙ omega arith in
    let d : bit_and (240 + x) 0xf8 ≡ 240 = and_0xf8 (240 + x) (omega arith) ∙ omega arith in
    let e : bit_and (240 + x) 0x07 ≡ x = bit_and_low 3 (240 + x) ∙ omega arith in rw (a, b, c, d, e)

-- Four bytes hold 21 bits; what is 0x110000 or more is replaced.
dec_bytes_four :
    (u : ℕ) (rest : List ℕ)
    → 0x10000 ≤ u
    → u < 0x200000
    → utf8dec (utf8_bytes u ++ rest) ≡ utf8dec_end (u, 0, rest)
dec_bytes_four u rest h k =
    let v : ((u / 262144 * 64 + u / 4096 % 64) * 64 + u / 64 % 64) * 64 + u % 64 ≡ u =
      omega arith in
    rw (bytes_four u h k, dec_four (u / 262144) _ (omega arith))
      (rw (
        dec_tail 2 _ (u / 4096 % 64) _ (omega arith),
        dec_tail 1 _ (u / 64 % 64) _ (omega arith),
        dec_tail 0 _ (u % 64) _ (omega arith),
        v,
        dec_done,
      ))

-- The code of every code point below 0x110000 is decoded to that code point, and the read
-- pointer stops right behind it, whatever follows.
pub utf8dec-utf8_bytes :
    (u : ℕ) (rest : List ℕ) → u < 0x110000 → utf8dec (utf8_bytes u ++ rest) ≡ (u, rest)
utf8dec-utf8_bytes u rest h = elim (Bool-cases (ltb u 0x80)) [
  | inl y ↦ rw (bytes_one u (ground arith)) (dec_one u rest (ground arith))
  | inr y ↦ elim (Bool-cases (ltb u 0x800)) [
    | inl z ↦
        let v : u / 64 * 64 + u % 64 ≡ u = omega arith in
        rw (bytes_two u (ground arith) (ground arith), dec_two (u / 64) _ (ground arith))
          (rw (dec_tail 0 _ (u % 64) _ (omega arith), v, dec_done) (end_good u rest h))
    | inr z ↦ elim (Bool-cases (ltb u 0x10000)) [
      | inl t ↦
          let v : (u / 4096 * 64 + u / 64 % 64) * 64 + u % 64 ≡ u = omega arith in
          rw (bytes_three u (ground arith) (ground arith), dec_three (u / 4096) _ (ground arith))
            (rw
              (
                dec_tail 1 _ (u / 64 % 64) _ (omega arith),
                dec_tail 0 _ (u % 64) _ (omega arith),
                v,
                dec_done,
              )
              (end_good u rest h))
      | inr t ↦ dec_bytes_four u rest (ground arith) (omega arith) ∙ end_good u rest h
    ]
  ]
]

-- The four bytes of a code point from 0x110000 to 0x1FFFFF are decoded to U+FFFD, and the read
-- pointer stops right behind them.
utf8dec_replaces :
    (u : ℕ) (rest : List ℕ)
    → 0x110000 ≤ u
    → u < 0x200000
    → utf8dec (utf8_bytes u ++ rest) ≡ (0xfffd, rest)
utf8dec_replaces u rest h k = dec_bytes_four u rest (omega arith) k ∙ end_large u rest h
