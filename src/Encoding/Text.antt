-- ===== src/Encoding/Text.antt =====
-- The encoders of src/utxt.c and the converter of src/uutf.c on a text, into an output that takes
-- everything.
use uncil.Prelude.{
  ℕ, zero, suc, ◌-◌, ◌≤◌, ◌<◌, ◌≡◌, ◌≢◌, refl, ap, ◌∙◌, arith, false, List, [], ◌∷◌, ◌++◌, Option,
  none, some, Option-cases, Bool-cases, inl, inr, append_assoc, append-nil, length, length-append,
  bit_and, ◌==◌, if◌then◌else◌,
}
use uncil.Prelude.Int.{pos}
use uncil.Prelude.Bits.{and_0x80, and_0xc0, and_0xe0, and_0xf0, and_0xf8}
use uncil.Utf8.{utf8_bytes, lead_size, utf8dec}
use uncil.Utf8.Shape.{shape, AllTails}
use uncil.Utf8.Decode.{utf8dec-utf8_bytes}
use uncil.Utf8.Text.{text, AllCodes}
use uncil.Encoding.{Sink}
use uncil.Encoding.Encode.{
  char_size, whole, read_tails, char, with_lead, read_char, encode_loop, encode, utf8ts_loop,
  utf8ts, passthru_loop, passthru,
}

-- An output that keeps all that it is given.
abbrev pub collect : Sink (List ℕ)
collect st b = (st ++ b, pos 0)

char_size-lead :
    (c : ℕ) → c < 248 → (bit_and c 0xc0 == 0x80) ≡ false → char_size c ≡ some (lead_size c)
unfolding char_size lead_size
char_size-lead c h e = ground (arith, and_0x80 c, and_0xc0 c, and_0xe0 c, and_0xf0 c, and_0xf8 c)

read_tails-all : (bs s : List ℕ) → AllTails bs → read_tails (length bs) (bs ++ s) ≡ whole bs s
unfolding read_tails
read_tails-all [] s h = refl
read_tails-all (b ∷ bs) s h = rw (h.0, read_tails-all bs s h.1) refl

read_cons :
    (c j : ℕ) (s : List ℕ)
    → char_size c ≡ some j
    → read_char (c ∷ s) ≡ with_lead c (read_tails (j - 1) s)
unfolding read_char
read_cons c j s e = rw (e, read_char)

pub read_char-utf8_bytes :
    (u : ℕ) (s : List ℕ) → u < 0x110000 → read_char (utf8_bytes u ++ s) ≡ char (utf8_bytes u) s
read_char-utf8_bytes u s h =
    let b = shape u (omega arith) in
    let e : suc (length b.tails) - 1 ≡ length b.tails = omega arith in
    rw b.split (
      read_cons b.lead (suc (length b.tails)) (b.tails ++ s)
        (char_size-lead b.lead b.below b.starts ∙ ap some b.size)
      ∙ rw (e, read_tails-all b.tails s b.continues) refl)

pub dec_whole : (u : ℕ) → u < 0x110000 → (utf8dec (utf8_bytes u)).0 ≡ u
dec_whole u h = let e = rw append-nil at (utf8dec-utf8_bytes u [] h) in rw e

-- The units that an encoding has for the code points.
unfoldable pub written : (ℕ → Option (List ℕ)) → List ℕ → List ℕ
written units [] = []
written units (u ∷ us) = elim (units u) [ none ↦ [] | some w ↦ w ] ++ written units us

abbrev pub AllHave : (ℕ → Option (List ℕ)) → List ℕ → Type 0
AllHave units [] = Unit {0}
AllHave units (u ∷ us) = (units u ≢ none) × AllHave units us

pub encode_step :
    (units : ℕ → Option (List ℕ)) (fuel u : ℕ) (s w st : List ℕ)
    → u < 0x110000
    → units u ≡ some w
    → encode_loop collect units (suc fuel) (utf8_bytes u ++ s) st
      ≡ encode_loop collect units fuel s (st ++ w)
unfolding encode_loop
encode_step units fuel u s w st h e =
    rw (encode_loop, read_char-utf8_bytes u s h, dec_whole u h, e) refl

encode_all :
    (units : ℕ → Option (List ℕ)) (us : List ℕ) (fuel : ℕ) (st : List ℕ)
    → AllCodes us
    → AllHave units us
    → length (text us) < fuel
    → encode_loop collect units fuel (text us) st ≡ some (pos 0, [], st ++ written units us)
unfolding text written
encode_all units us zero st h k l = absurd (omega arith)
encode_all units [] (suc fuel) st h k l = rw append-nil (unfold encode_loop read_char in refl)
encode_all units (u ∷ us) (suc fuel) st h k l =
    let b = shape u (omega (arith, h.0)) in
    let n : length (utf8_bytes u) ≡ suc (length b.tails) = ap length b.split in
    elim (Option-cases (units u)) [
      | inl e ↦ absurd (k.0 e)
      | inr (w, e) ↦ rw e (
          encode_step units fuel u (text us) w st h.0 e
          ∙ encode_all units us fuel (st ++ w) h.1 k.1
              (omega (arith, length-append {0} (utf8_bytes u) (text us)))
          ∙ rw append_assoc)
    ]

-- An encoder writes the units of the code points, one after the other.
pub encode-text :
    (units : ℕ → Option (List ℕ)) (us : List ℕ)
    → AllCodes us
    → AllHave units us
    → encode collect units (text us) [] ≡ some (pos 0, [], written units us)
unfolding encode
encode-text units us h k = encode_all units us (suc (length (text us))) [] h k (omega arith)

utf8ts_step :
    (fuel b left u : ℕ) (s st : List ℕ)
    → u < 0x110000
    → utf8ts_loop collect (suc fuel) b (suc left) (utf8_bytes u ++ s) st
      ≡ utf8ts_loop collect fuel (suc b) left s (st ++ utf8_bytes u)
unfolding utf8ts_loop
utf8ts_step fuel b left u s st h = rw (utf8ts_loop, read_char-utf8_bytes u s h) refl

utf8ts_all :
    (us : List ℕ) (fuel b left : ℕ) (st : List ℕ)
    → AllCodes us
    → length us ≤ left
    → length (text us) < fuel
    → utf8ts_loop collect fuel b left (text us) st ≡ some (pos 0, [], st ++ text us)
unfolding text
utf8ts_all us zero b left st h n l = absurd (omega arith)
utf8ts_all [] (suc fuel) b zero st h n l = rw append-nil (unfold utf8ts_loop in refl)
utf8ts_all [] (suc fuel) b (suc left) st h n l =
    rw append-nil (unfold utf8ts_loop read_char in refl)
utf8ts_all (u ∷ us) (suc fuel) b zero st h n l = absurd (omega arith)
utf8ts_all (u ∷ us) (suc fuel) b (suc left) st h n l =
    let c = shape u (omega (arith, h.0)) in
    let m : length (utf8_bytes u) ≡ suc (length c.tails) = ap length c.split in
    utf8ts_step fuel b left u (text us) st h.0
    ∙ utf8ts_all us fuel (suc b) left (st ++ utf8_bytes u) h.1 (omega arith)
        (omega (arith, length-append {0} (utf8_bytes u) (text us)))
    ∙ rw append_assoc

-- unc0_cconv_utf8ts passes a text of at most `n` characters on.
pub utf8ts-text :
    (us : List ℕ) (n : ℕ)
    → AllCodes us
    → length us ≤ n
    → utf8ts collect n (text us) [] ≡ some (pos 0, [], text us)
unfolding utf8ts
utf8ts-text us n h k = utf8ts_all us (suc (length (text us))) 0 n [] h k (omega arith)

passthru_cons :
    (buf s st : List ℕ) (c : ℕ)
    → passthru_loop collect buf (c ∷ s) st ≡ (
        if length (buf ++ c ∷ []) == 16
        then passthru_loop collect [] s (st ++ (buf ++ c ∷ []))
        else passthru_loop collect (buf ++ c ∷ []) s st)
unfolding passthru_loop
passthru_cons [] s st c = refl
passthru_cons (b ∷ buf) s st c = refl

passthru_all : (s buf st : List ℕ) → passthru_loop collect buf s st ≡ (pos 0, [], st ++ (buf ++ s))
passthru_all [] [] st = rw append-nil (unfold passthru_loop in refl)
passthru_all [] (b ∷ buf) st = rw append-nil (unfold passthru_loop in refl)
passthru_all (c ∷ s) buf st =
    let full = passthru_all s [] (st ++ (buf ++ c ∷ [])) in
    let more = passthru_all s (buf ++ c ∷ []) st in
    elim (Bool-cases (length (buf ++ c ∷ []) == 16)) [
      | inl e ↦ passthru_cons buf s st c ∙ rw e (full ∙ simp append_assoc)
      | inr e ↦ passthru_cons buf s st c ∙ rw e (more ∙ simp append_assoc)
    ]

-- unc0_cconv_passthru copies its input.
pub passthru-input : (s : List ℕ) → passthru collect s [] ≡ (pos 0, [], s)
unfolding passthru
passthru-input s = passthru_all s [] []
