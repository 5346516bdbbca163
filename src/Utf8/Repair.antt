-- ===== src/Utf8/Repair.antt =====
-- unc0_utf8patdown of src/uutf.c, which makes any bytes a text.
use uncil.Prelude.{
  ℕ, zero, suc, ◌≤◌, ◌<◌, ◌≡◌, refl, sym, ap, ◌∙◌, arith, List, [], ◌∷◌, ◌++◌, Option, none, some,
  length, length-append, bit_and, ltb, not, ◌||◌, ◌==◌, if◌then◌else◌, Bool-cases, Option-cases,
  inl, inr, false, true, lt-cases,
}
use uncil.Prelude.Bits.{and_0xc0}
use uncil.Utf8.{utf8_bytes, lead_size, utf8dec, utf8dec_end, utf8dec_loop}
use uncil.Utf8.Encode.{bytes_one, bytes_two, bytes_three, bytes_four}
use uncil.Utf8.Shape.{shape, AllTails}
use uncil.Utf8.Text.{text, AllCodes}
use uncil.Encoding.{utf8_buf}
use uncil.Encoding.Decode.{utf8_buf-bytes}
use uncil.Encoding.Text.{dec_whole}
use mathlib.Core.Option

-- The `j` bytes behind a lead byte: `none` at the end of the input, or before a byte that does not
-- continue the character; and the input that is left.
unfoldable pub pat_tails : ℕ → List ℕ → Option (List ℕ) × List ℕ
pat_tails zero s = (some [], s)
pat_tails (suc j) [] = (none, [])
pat_tails (suc j) (c ∷ s) =
    let r = pat_tails j s in
    if not (bit_and c 0xc0 == 0x80) then (none, c ∷ s) else (Option.map (λ bs. c ∷ bs) r.0, r.1)

unfoldable pub pat_count : ℕ → ℕ
pat_count c = if ltb c 0xe0 then 1 else if ltb c 0xf0 then 2 else 3

-- The loop of unc0_utf8patdown; `none` is a loop that is still running after `fuel` rounds.
unfoldable pub pat_loop : ℕ → List ℕ → Option (List ℕ)
pat_loop fuel [] = some []
pat_loop zero (c ∷ s) = none
pat_loop (suc fuel) (c ∷ s) =
    let skip = pat_loop fuel s in
    let r = pat_tails (pat_count c) s in
    let next = pat_loop fuel r.1 in
    if ltb c 0x80
    then Option.map (λ t. c ∷ t) skip
    else if ltb c 0xc0 || ltb 0xf4 c
    then skip
    else elim r.0 [
      | none ↦ next
      | some bs ↦ elim (utf8_buf (utf8dec (c ∷ bs)).0) [
        | none ↦ none
        | some w ↦ Option.map (λ t. w ++ t) next
      ]
    ]

-- Each round takes a byte.
unfoldable pub utf8patdown : List ℕ → Option (List ℕ)
utf8patdown s = pat_loop (length s) s

dec_end_below : (r : ℕ × ℕ × List ℕ) → (utf8dec_end r).0 < 0x110000
unfolding utf8dec_end
dec_end_below (u, left, p) = ground arith

dec_below : (b : ℕ) (p : List ℕ) → b < 256 → (utf8dec (b ∷ p)).0 < 0x110000
unfolding utf8dec
dec_below b p h = elim (Bool-cases (bit_and b 0x80 == 0)) [
  | inl e ↦ rw e (omega arith)
  | inr e ↦ elim (Bool-cases (bit_and b 0xe0 == 0xc0)) [
    | inl f ↦ rw (e, f) (dec_end_below (utf8dec_loop 1 (bit_and b 0x1f) p))
    | inr f ↦ elim (Bool-cases (bit_and b 0xf0 == 0xe0)) [
      | inl g ↦ rw (e, f, g) (dec_end_below (utf8dec_loop 2 (bit_and b 0x0f) p))
      | inr g ↦ elim (Bool-cases (bit_and b 0xf8 == 0xf0)) [
        | inl i ↦ rw (e, f, g, i) (dec_end_below (utf8dec_loop 3 (bit_and b 0x07) p))
        | inr i ↦ rw (e, f, g, i) (omega arith)
      ]
    ]
  ]
]

tails_rest : (j : ℕ) (s : List ℕ) → length (pat_tails j s).1 ≤ length s
unfolding pat_tails
tails_rest zero s = omega arith
tails_rest (suc j) [] = omega arith
tails_rest (suc j) (c ∷ s) = elim (Bool-cases (bit_and c 0xc0 == 0x80)) [
  | inl e ↦ rw e (omega (arith, tails_rest j s))
  | inr e ↦ rw e (omega arith)
]

IsText : Option (List ℕ) → Type 0
IsText o = (us : List ℕ) × AllCodes us × (o ≡ some (text us))

IsText-more :
    (u : ℕ) (o : Option (List ℕ))
    → u < 0x110000
    → IsText o
    → IsText (Option.map (λ t. utf8_bytes u ++ t) o)
unfolding IsText
IsText-more u o h (us, a, e) = (u ∷ us, (h, a), (rw e (unfold text in refl)))

IsText-pat_loop : (fuel : ℕ) (s : List ℕ) → length s ≤ fuel → IsText (pat_loop fuel s)
unfolding pat_loop
IsText-pat_loop zero [] h = unfold IsText text in ([], tt, refl)
IsText-pat_loop (suc fuel) [] h = unfold IsText text in ([], tt, refl)
IsText-pat_loop zero (c ∷ s) h = absurd (omega arith)
IsText-pat_loop (suc fuel) (c ∷ s) h =
    let skip = IsText-pat_loop fuel s (omega arith) in
    let r = pat_tails (pat_count c) s in
    let next = IsText-pat_loop fuel r.1 (omega (arith, tails_rest (pat_count c) s)) in
    elim (Bool-cases (ltb c 0x80)) [
      | inl e ↦
          let m = IsText-more c (pat_loop fuel s) (ground arith) skip in
          let b : utf8_bytes c ≡ c ∷ [] = bytes_one c (ground arith) in rw e (rw b at m)
      | inr e ↦ elim (Bool-cases (ltb c 0xc0 || ltb 0xf4 c)) [
        | inl f ↦ rw (e, f) skip
        | inr f ↦ elim (Option-cases r.0) [
          | inl g ↦ rw (e, f, g) next
          | inr (bs, g) ↦
              let u = (utf8dec (c ∷ bs)).0 in
              let b : u < 0x110000 = dec_below c bs (ground arith) in
              rw (e, f, g, utf8_buf-bytes u b) (IsText-more u (pat_loop fuel r.1) b next)
        ]
      ]
    ]

tails_all : (bs s : List ℕ) → AllTails bs → pat_tails (length bs) (bs ++ s) ≡ (some bs, s)
unfolding pat_tails
tails_all [] s h = refl
tails_all (b ∷ bs) s h = rw (h.0, tails_all bs s h.1) refl

head_same : {x y : ℕ} {a b : List ℕ} → x ∷ a ≡ y ∷ b → x ≡ y
head_same e = cc

-- No code point has a lead byte above 0xF4.
lead_below : (u l : ℕ) (bs : List ℕ) → u < 0x110000 → utf8_bytes u ≡ l ∷ bs → l ≤ 0xf4
lead_below u l bs h e = elim (lt-cases u 0x80) [
  | inl a ↦ let d = head_same (sym (bytes_one u a) ∙ e) in omega arith
  | inr a ↦ elim (lt-cases u 0x800) [
    | inl b ↦ let d = head_same (sym (bytes_two u a b) ∙ e) in omega arith
    | inr b ↦ elim (lt-cases u 0x10000) [
      | inl c ↦ let d = head_same (sym (bytes_three u b c) ∙ e) in omega arith
      | inr c ↦ let d = head_same (sym (bytes_four u c (omega arith)) ∙ e) in omega arith
    ]
  ]
]

not_between : (c : ℕ) → 0x80 ≤ c → c < 248 → (bit_and c 0xc0 == 0x80) ≡ false → 0xc0 ≤ c
not_between c h k e = ground (arith, and_0xc0 c)

count_lead : (c n : ℕ) → 0xc0 ≤ c → lead_size c ≡ suc n → pat_count c ≡ n
unfolding lead_size pat_count
count_lead c n h e = ground arith

one_lead : (c n : ℕ) → c < 0x80 → lead_size c ≡ suc n → n ≡ 0
unfolding lead_size
one_lead c n h e = ground arith

no_bytes : (bs : List ℕ) → length bs ≡ 0 → bs ≡ []
no_bytes [] h = refl
no_bytes (b ∷ bs) h = absurd (omega arith)

pat_step :
    (fuel u : ℕ) (s : List ℕ)
    → u < 0x110000
    → pat_loop (suc fuel) (utf8_bytes u ++ s)
      ≡ Option.map (λ t. utf8_bytes u ++ t) (pat_loop fuel s)
unfolding pat_loop
pat_step fuel u s h =
    let b = shape u (omega arith) in
    let k = lead_below u b.lead b.tails h b.split in
    elim (lt-cases b.lead 0x80) [
      | inl l ↦
          let e : ltb b.lead 0x80 ≡ true = ground arith in
          let n = one_lead b.lead (length b.tails) l b.size in
          rw (b.split, pat_loop, e, no_bytes b.tails n) refl
      | inr l ↦
          let m = not_between b.lead l b.below b.starts in
          let e : ltb b.lead 0x80 ≡ false = ground arith in
          let f : ltb b.lead 0xc0 || ltb 0xf4 b.lead ≡ false = ground arith in
          let n = count_lead b.lead (length b.tails) m b.size in
          let d : (utf8dec (b.lead ∷ b.tails)).0 ≡ u = rw b.split at (dec_whole u h) in
          let q : pat_tails (pat_count b.lead) (b.tails ++ s) ≡ (some b.tails, s) =
            rw n (tails_all b.tails s b.continues) in
          let q0 : (pat_tails (pat_count b.lead) (b.tails ++ s)).0 ≡ some b.tails =
            ap (λ r. r.0) q in
          let q1 : (pat_tails (pat_count b.lead) (b.tails ++ s)).1 ≡ s = ap (λ r. r.1) q in
          rw (b.split, pat_loop, e, f, q0, d, utf8_buf-bytes u h, q1, b.split) refl
    ]

pat_text :
    (us : List ℕ) (fuel : ℕ)
    → AllCodes us
    → length (text us) ≤ fuel
    → pat_loop fuel (text us) ≡ some (text us)
unfolding text
pat_text [] fuel h l = unfold pat_loop in refl
pat_text (u ∷ us) zero h l =
    let b = shape u (omega (arith, h.0)) in
    absurd (omega (arith, length-append {0} (utf8_bytes u) (text us), ap length b.split))
pat_text (u ∷ us) (suc fuel) h l =
    let b = shape u (omega (arith, h.0)) in
    pat_step fuel u (text us) h.0
    ∙ rw
        (pat_text us fuel h.1
          (omega (arith, length-append {0} (utf8_bytes u) (text us), ap length b.split)))
        refl

-- For any bytes, unc0_utf8patdown returns and writes the text of some code points below
-- 0x110000; and it writes a text of such code points as it is.
pub utf8patdown_repairs :
    (s : List ℕ) (vs : List ℕ)
    → AllCodes vs
    → ((us : List ℕ) × AllCodes us × (utf8patdown s ≡ some (text us)))
      × (utf8patdown (text vs) ≡ some (text vs))
unfolding utf8patdown
utf8patdown_repairs s vs h = (
  (unfold IsText in IsText-pat_loop (length s) s (omega arith)),
  pat_text vs (length (text vs)) h (omega arith),
)
