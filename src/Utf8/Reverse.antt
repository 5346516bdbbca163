-- ===== src/Utf8/Reverse.antt =====
-- unc0_utf8rev of src/uutf.c, which writes the characters of a text in the opposite order.
use uncil.Prelude.{
  ℕ, suc, ◌+◌, ◌-◌, ◌%◌, ◌^◌, ◌<◌, ◌≡◌, refl, sym, ap, ◌∙◌, arith, List, [], ◌∷◌, ◌++◌, Option,
  none, some, append_assoc, append-nil, length, length-append, take, drop, set, length-take,
  length-drop, take-append-drop, bit_and, ltb, ◌==◌, if◌then◌else◌, false, true,
}
use uncil.Prelude.Bits.{and_0x80, and_0xc0, and_0xe0, and_0xf0, and_0xf8}
use uncil.Utf8.{utf8_bytes, lead_size}
use uncil.Utf8.Shape.{shape, AllTails, AllBytes}
use uncil.Utf8.Text.{text, AllCodes, text-append, text-single}
use mathlib.Core.List.{reverse, reverse-cons}

-- What unc0_utf8rev takes from `z` at a byte: the size of the character that begins, or 0.
unfoldable pub rev_size : ℕ → ℕ
rev_size c =
    if bit_and c 0x80 == 0
    then 1
    else if bit_and c 0xe0 == 0xc0
    then 2
    else if bit_and c 0xf0 == 0xe0
    then 3
    else if bit_and c 0xf8 == 0xf0
    then 4
    else 0

-- The loop of unc0_utf8rev into the buffer `b`; `none` is a write past its end.
unfoldable pub rev_loop : ℕ → ℕ → List ℕ → List ℕ → Option (List ℕ)
rev_loop z k b [] = some b
rev_loop z k b (c ∷ s) =
    let z' = (z + (2 ^ 64 - rev_size c)) % 2 ^ 64 in
    let k' = if rev_size c == 0 then suc k else 0 in
    let i = (z' + k') % 2 ^ 64 in
    let rest = rev_loop z' k' (set b i c) s in if ltb i (length b) then rest else none

unfoldable pub utf8rev : List ℕ → List ℕ → Option (List ℕ)
utf8rev b s = rev_loop (length s) 0 b s

set-append :
    (pre post : List ℕ) (o c : ℕ) → set (pre ++ o ∷ post) (length pre) c ≡ (pre ++ c ∷ []) ++ post
set-append [] post o c = refl
set-append (p ∷ pre) post o c = ap (λ (xs : List ℕ). p ∷ xs) (set-append pre post o c)

rev_step :
    (z k z' k' c o : ℕ) (pre post s : List ℕ)
    → (z + (2 ^ 64 - rev_size c)) % 2 ^ 64 ≡ z'
    → (if rev_size c == 0 then suc k else 0) ≡ k'
    → z' + k' ≡ length pre
    → length pre < 2 ^ 64
    → rev_loop z k (pre ++ o ∷ post) (c ∷ s) ≡ rev_loop z' k' ((pre ++ c ∷ []) ++ post) s
unfolding rev_loop
rev_step z k z' k' c o pre post s e f g h =
    let i : (z' + k') % 2 ^ 64 ≡ length pre = omega arith in
    let l : ltb (length pre) (length (pre ++ o ∷ post)) ≡ true =
      ground (arith, length-append {0} pre (o ∷ post)) in
    rw (e, f, i, l, set-append pre post o c) refl

tail_size : (c : ℕ) → c < 256 → bit_and c 0xc0 ≡ 0x80 → rev_size c ≡ 0
unfolding rev_size
tail_size c h e = ground (arith, and_0x80 c, and_0xc0 c, and_0xe0 c, and_0xf0 c, and_0xf8 c)

start_size : (c : ℕ) → c < 248 → (bit_and c 0xc0 == 0x80) ≡ false → rev_size c ≡ lead_size c
unfolding rev_size lead_size
start_size c h e = ground (arith, and_0x80 c, and_0xc0 c, and_0xe0 c, and_0xf0 c, and_0xf8 c)

rev_tails :
    (ts old pre post s : List ℕ) (z k : ℕ)
    → AllTails ts
    → AllBytes ts
    → length old ≡ length ts
    → length pre ≡ z + suc k
    → length pre + length ts < 2 ^ 64
    → rev_loop z k (pre ++ (old ++ post)) (ts ++ s)
      ≡ rev_loop z (k + length ts) ((pre ++ ts) ++ post) s
rev_tails [] [] pre post s z k h b l e m =
    let f : k + 0 ≡ k = omega arith in rw (f, append-nil pre) refl
rev_tails [] (o ∷ old) pre post s z k h b l e m = absurd (omega arith)
rev_tails (t ∷ ts) [] pre post s z k h b l e m = absurd (omega arith)
rev_tails (t ∷ ts) (o ∷ old) pre post s z k h b l e m =
    let r = tail_size t b.0 h.0 in
    let f : k + suc (length ts) ≡ suc k + length ts = omega arith in
    let x = length-append {0} pre (t ∷ []) in
    rev_step z k z (suc k) t o pre (old ++ post) (ts ++ s) (rw r (omega arith)) (rw r refl)
      (omega arith) (omega arith)
    ∙ rev_tails ts old (pre ++ t ∷ []) post s z (suc k) h.1 b.1 (omega arith) (omega (arith, x))
        (omega (arith, x))
    ∙ rw (f, append_assoc pre (t ∷ []) ts) refl

rev_char :
    (u z k : ℕ) (pre old post s : List ℕ)
    → u < 0x110000
    → length old ≡ length (utf8_bytes u)
    → length pre ≡ z
    → z + length (utf8_bytes u) < 2 ^ 64
    → (n : ℕ) × (rev_loop (z + length (utf8_bytes u)) k (pre ++ (old ++ post)) (utf8_bytes u ++ s)
        ≡ rev_loop z n (pre ++ (utf8_bytes u ++ post)) s)
rev_char u z k pre [] post s h l e m =
    let b = shape u (omega arith) in absurd (omega (arith, ap length b.split))
rev_char u z k pre (o ∷ old) post s h l e m =
    let b = shape u (omega arith) in
    let r = start_size b.lead b.below b.starts ∙ b.size in
    let n : length (utf8_bytes u) ≡ suc (length b.tails) = ap length b.split in
    let x = length-append {0} pre (b.lead ∷ []) in
    (
      0 + length b.tails,
      rw b.split (
          rev_step (z + suc (length b.tails)) k z 0 b.lead o pre (old ++ post) (b.tails ++ s)
            (rw r (omega arith))
            (let q : (suc (length b.tails) == 0) ≡ false = ground arith in rw (r, q) refl)
            (omega arith) (omega arith)
          ∙ rev_tails b.tails old (pre ++ b.lead ∷ []) post s z 0 b.continues b.bytes (omega arith)
              (omega (arith, x)) (omega (arith, x))
          ∙ ap (λ (t : List ℕ). rev_loop z (0 + length b.tails) (t ++ post) s)
              (append_assoc pre (b.lead ∷ []) b.tails)
          ∙ ap (λ (t : List ℕ). rev_loop z (0 + length b.tails) t s)
              (append_assoc pre (b.lead ∷ b.tails) post)),
    )

no_front : (front back : List ℕ) → length front ≡ 0 → front ++ back ≡ back
no_front [] back h = refl
no_front (x ∷ front) back h = absurd (omega arith)

rev_text :
    (us front back : List ℕ) (k : ℕ)
    → AllCodes us
    → length front ≡ length (text us)
    → length (text us) < 2 ^ 64
    → rev_loop (length (text us)) k (front ++ back) (text us) ≡ some (text (reverse us) ++ back)
unfolding text
rev_text [] front back k h l m = unfold rev_loop in ap some (no_front front back l)
rev_text (u ∷ us) front back k h l m =
    let z = length (text us) in
    let a = length-append {0} (utf8_bytes u) (text us) in
    let first : List ℕ = take z front in
    let last : List ℕ = drop z front in
    let lf : length first ≡ z = omega (arith, a, length-take {0} z front) in
    let ll : length last ≡ length (utf8_bytes u) = omega (arith, a, length-drop {0} z front) in
    let e : length (utf8_bytes u ++ text us) ≡ z + length (utf8_bytes u) = omega (arith, a) in
    let c = rev_char u z k first last back (text us) h.0 ll lf (omega (arith, a)) in
    let split : front ++ back ≡ first ++ (last ++ back) =
      ap (λ (t : List ℕ). t ++ back) (sym (take-append-drop z front))
      ∙ append_assoc first last back in
    rw (e, split)
      (c.1
        ∙ rev_text us first (utf8_bytes u ++ back) c.0 h.1 lf (omega (arith, a))
        ∙ rw (reverse-cons u us, text-append (reverse us) (u ∷ []), text-single u)
            (ap some (sym (append_assoc (text (reverse us)) (utf8_bytes u) back))))

-- For a text of code points below 0x110000 that has less than 2 ^ 64 bytes, and a buffer of as
-- many bytes, unc0_utf8rev writes only into the buffer, and writes the text of the code points
-- in the opposite order.
pub utf8rev-text :
    (us b : List ℕ)
    → AllCodes us
    → length b ≡ length (text us)
    → length (text us) < 2 ^ 64
    → utf8rev b (text us) ≡ some (text (reverse us))
unfolding utf8rev
utf8rev-text us b h l m =
    ap (λ (t : List ℕ). rev_loop (length (text us)) 0 t (text us)) (sym (append-nil b))
    ∙ rev_text us b [] 0 h l m
    ∙ ap some (append-nil (text (reverse us)))
