-- ===== src/Utf8/Validate/Exact.antt =====
-- What unc0_utf8validate accepts is the text of code points of 21 bits.
use uncil.Prelude.{
  ℕ, zero, suc, ◌+◌, ◌-◌, ◌*◌, ◌/◌, ◌%◌, ◌≤◌, ◌<◌, ◌≡◌, inl, inr, refl, sym, subst, ap, ◌∙◌, arith,
  List, [], ◌∷◌, ◌++◌, none, some, ltb, true, false, Bool-cases, length,
}
use uncil.Utf8.{utf8_bytes}
use uncil.Utf8.Encode.{bytes_one, bytes_two, bytes_three, bytes_four}
use uncil.Utf8.Text.{text}
use uncil.Utf8.Validate.{validate_loop, utf8validate, complement}
use uncil.Utf8.Validate.Accepts.{validate_one, validate_two, validate_three, validate_four, AllWide}
use uncil.Utf8.Validate.Inverse.{
  AllBytes, read_inv, Checked, check_inv, validate_bad, Front, read_end, above_two, above_three,
  above_four,
}

Front-two :
    (f x : ℕ) (s : List ℕ)
    → x < 32
    → AllBytes s
    → Checked 1 (complement 0x7f) x s (validate_loop f)
    → Front f ((192 + x) ∷ s)
Front-two f x s h b c =
    let t = read_inv 0 x s (c.value, c.rest) b c.reads in
    let ends = read_end (x * 64 + t.low) t.rest c.value c.rest t.more in
    let p : ℕ = x * 64 + t.low in
    let low = t.small in
    let lo : 0x80 ≤ p = above_two p (omega arith) (rw (ends.0) at c.long) in
    let q : p / 64 ≡ x = omega arith in
    let r : p % 64 ≡ t.low = omega arith in
    record {
      point = p;
      rest = t.rest;
      wide = omega arith;
      split = rw (bytes_two p lo (omega arith), q, r) (ap (λ (l : List ℕ). (192 + x) ∷ l) t.split);
      bytes = t.bytes;
      goes = rw (ends.1) at c.goes;
    }

Front-three :
    (f x : ℕ) (s : List ℕ)
    → x < 16
    → AllBytes s
    → Checked 2 (complement 0x7ff) x s (validate_loop f)
    → Front f ((224 + x) ∷ s)
Front-three f x s h b c =
    let t1 = read_inv 1 x s (c.value, c.rest) b c.reads in
    let t2 = read_inv 0 (x * 64 + t1.low) t1.rest (c.value, c.rest) t1.bytes t1.more in
    let p : ℕ = (x * 64 + t1.low) * 64 + t2.low in
    let ends = read_end p t2.rest c.value c.rest t2.more in
    let low1 = t1.small in
    let low2 = t2.small in
    let lo : 0x800 ≤ p = above_three p (omega arith) (rw (ends.0) at c.long) in
    let q : p / 4096 ≡ x = omega arith in
    let r : p / 64 % 64 ≡ t1.low = omega arith in
    let w : p % 64 ≡ t2.low = omega arith in
    record {
      point = p;
      rest = t2.rest;
      wide = omega arith;
      split =
          rw (bytes_three p lo (omega arith), q, r, w)
            (ap (λ (l : List ℕ). (224 + x) ∷ l)
              (t1.split ∙ ap (λ (l : List ℕ). (128 + t1.low) ∷ l) t2.split));
      bytes = t2.bytes;
      goes = rw (ends.1) at c.goes;
    }

Front-four :
    (f x : ℕ) (s : List ℕ)
    → x < 8
    → AllBytes s
    → Checked 3 (complement 0xffff) x s (validate_loop f)
    → Front f ((240 + x) ∷ s)
Front-four f x s h b c =
    let t1 = read_inv 2 x s (c.value, c.rest) b c.reads in
    let t2 = read_inv 1 (x * 64 + t1.low) t1.rest (c.value, c.rest) t1.bytes t1.more in
    let t3 =
      read_inv 0 ((x * 64 + t1.low) * 64 + t2.low) t2.rest (c.value, c.rest) t2.bytes t2.more in
    let p : ℕ = ((x * 64 + t1.low) * 64 + t2.low) * 64 + t3.low in
    let ends = read_end p t3.rest c.value c.rest t3.more in
    let low1 = t1.small in
    let low2 = t2.small in
    let low3 = t3.small in
    let lo : 0x10000 ≤ p = above_four p (omega arith) (rw (ends.0) at c.long) in
    let q : p / 262144 ≡ x = omega arith in
    let r : p / 4096 % 64 ≡ t1.low = omega arith in
    let w : p / 64 % 64 ≡ t2.low = omega arith in
    let z : p % 64 ≡ t3.low = omega arith in
    record {
      point = p;
      rest = t3.rest;
      wide = omega arith;
      split =
          rw (bytes_four p lo (omega arith), q, r, w, z)
            (ap (λ (l : List ℕ). (240 + x) ∷ l)
              (t1.split
                ∙ ap (λ (l : List ℕ). (128 + t1.low) ∷ l)
                    (t2.split ∙ ap (λ (l : List ℕ). (128 + t2.low) ∷ l) t3.split)));
      bytes = t3.bytes;
      goes = rw (ends.1) at c.goes;
    }

ltb-true : (a b : ℕ) → ltb a b ≡ true → a < b
ltb-true a b e = ground arith

ltb-false : (a b : ℕ) → ltb a b ≡ false → b ≤ a
ltb-false a b e = ground arith

front :
    (f c : ℕ) (s : List ℕ)
    → c < 256
    → AllBytes s
    → validate_loop (suc f) (c ∷ s) ≡ some true
    → Front f (c ∷ s)
front f c s h b e = elim (Bool-cases (ltb c 128)) [
  | inl y ↦ record {
    point = c;
    rest = s;
    wide = omega arith;
    split = rw (bytes_one c (ground arith));
    bytes = b;
    goes = sym (validate_one f c s (ground arith)) ∙ e;
  }
  | inr n1 ↦ elim (Bool-cases (ltb c 192)) [
    | inl y ↦ cc (validate_bad f c s h (ground arith) (inl (ground arith)))
    | inr n2 ↦ elim (Bool-cases (ltb c 224)) [
      | inl y ↦
          let lo = ltb-false c 192 n2 in
          let hi = ltb-true c 224 y in
          let v : c ≡ 192 + (c - 192) = omega arith in
          let e' : validate_loop (suc f) ((192 + (c - 192)) ∷ s) ≡ some true =
            subst (λ (t : ℕ). validate_loop (suc f) (t ∷ s) ≡ some true) v e in
          subst (λ (t : ℕ). Front f (t ∷ s)) (sym v)
            (Front-two f (c - 192) s (omega arith) b (
              check_inv 1 (complement 0x7f) (c - 192) s (validate_loop f)
                (sym (validate_two f (c - 192) s (omega arith)) ∙ e')))
      | inr n3 ↦ elim (Bool-cases (ltb c 240)) [
        | inl y ↦
            let lo = ltb-false c 224 n3 in
            let hi = ltb-true c 240 y in
            let v : c ≡ 224 + (c - 224) = omega arith in
            let e' : validate_loop (suc f) ((224 + (c - 224)) ∷ s) ≡ some true =
              subst (λ (t : ℕ). validate_loop (suc f) (t ∷ s) ≡ some true) v e in
            subst (λ (t : ℕ). Front f (t ∷ s)) (sym v)
              (Front-three f (c - 224) s (omega arith) b (
                check_inv 2 (complement 0x7ff) (c - 224) s (validate_loop f)
                  (sym (validate_three f (c - 224) s (omega arith)) ∙ e')))
        | inr n4 ↦ elim (Bool-cases (ltb c 248)) [
          | inl y ↦
              let lo = ltb-false c 240 n4 in
              let hi = ltb-true c 248 y in
              let v : c ≡ 240 + (c - 240) = omega arith in
              let e' : validate_loop (suc f) ((240 + (c - 240)) ∷ s) ≡ some true =
                subst (λ (t : ℕ). validate_loop (suc f) (t ∷ s) ≡ some true) v e in
              subst (λ (t : ℕ). Front f (t ∷ s)) (sym v)
                (Front-four f (c - 240) s (omega arith) b (
                  check_inv 3 (complement 0xffff) (c - 240) s (validate_loop f)
                    (sym (validate_four f (c - 240) s (omega arith)) ∙ e')))
          | inr n5 ↦ cc (validate_bad f c s h (ground arith) (inr (ground arith)))
        ]
      ]
    ]
  ]
]

text_cons : (u : ℕ) (us : List ℕ) → text (u ∷ us) ≡ utf8_bytes u ++ text us
unfolding text
text_cons u us = refl

exact_loop :
    (f : ℕ) (s : List ℕ)
    → AllBytes s
    → validate_loop f s ≡ some true
    → (us : List ℕ) × AllWide us × (s ≡ text us)
exact_loop zero s b e = let z : validate_loop 0 s ≡ none = unfold validate_loop in refl in cc
exact_loop (suc f) [] b e = ([], tt, unfold text in refl)
exact_loop (suc f) (c ∷ s) b e =
    let h = front f c s b.0 b.1 e in
    let (us, w, t) = exact_loop f h.rest h.bytes h.goes in
    (
      h.point ∷ us,
      (h.wide, w),
      h.split ∙ ap (λ l. utf8_bytes h.point ++ l) t ∙ sym (text_cons h.point us),
    )

-- Any bytes that unc0_utf8validate accepts are the text of some code points below 0x200000,
-- each in its shortest form.
pub validate-exact :
    (s : List ℕ)
    → AllBytes s
    → utf8validate s ≡ some true
    → (us : List ℕ) × AllWide us × (s ≡ text us)
unfolding utf8validate
validate-exact s b e = exact_loop (suc (length s)) s b e
