-- ===== src/Utf8/Text/Backward.antt =====
-- The backward walks of src/uutf.c: unc0_utf8scanbackw, unc0_utf8shiftback and
-- unc0_utf8shiftaway.
use uncil.Prelude.{
  ℕ, zero, suc, ◌+◌, ◌-◌, ◌≡◌, refl, ◌∙◌, arith, List, [], ◌∷◌, ◌++◌, some, append_assoc,
  append-nil, length, length-append, take, take-append, get_or, bit_and, ◌==◌, if◌then◌else◌, false,
}
use uncil.Utf8.{utf8_bytes, shift_back, utf8shiftback, utf8shiftaway, scanback, utf8scanbackw}
use uncil.Utf8.Shape.{Shape, shape, AllTails}
use uncil.Utf8.Text.{text, AllCodes}

read_middle : (a b : List ℕ) (x d : ℕ) → get_or (a ++ x ∷ b) (length a) d ≡ x
read_middle [] b x d = refl
read_middle (y ∷ a) b x d = read_middle a b x d

back_step :
    (s : List ℕ) (i q : ℕ)
    → shift_back s (suc i) (suc q)
      ≡ shift_back s (if bit_and (get_or s q 0) 0xc0 == 0x80 then suc i else i) q
unfolding shift_back
back_step s i q = refl

-- Behind the bytes `a` stands `x`: the walk reads it from the offset after it.
step_tail :
    (a b : List ℕ) (x i : ℕ)
    → bit_and x 0xc0 ≡ 0x80
    → shift_back (a ++ x ∷ b) (suc i) (suc (length a)) ≡ shift_back (a ++ x ∷ b) (suc i) (length a)
step_tail a b x i h = back_step _ i (length a) ∙ rw (read_middle a b x 0, h)

step_lead :
    (a b : List ℕ) (x i : ℕ)
    → (bit_and x 0xc0 == 0x80) ≡ false
    → shift_back (a ++ x ∷ b) (suc i) (suc (length a)) ≡ shift_back (a ++ x ∷ b) i (length a)
step_lead a b x i h = back_step _ i (length a) ∙ rw (read_middle a b x 0, h)

length_snoc : (a : List ℕ) (x : ℕ) → length (a ++ x ∷ []) ≡ suc (length a)
length_snoc a x = omega (arith, length-append {0} a (x ∷ []))

step_tails :
    (ts a b : List ℕ) (i : ℕ)
    → AllTails ts
    → shift_back (a ++ (ts ++ b)) (suc i) (length a + length ts)
      ≡ shift_back (a ++ (ts ++ b)) (suc i) (length a)
step_tails [] a b i h = let e : length a + 0 ≡ length a = omega arith in rw e
step_tails (t ∷ ts) a b i h =
    let e : length a + suc (length ts) ≡ suc (length a) + length ts = omega arith in
    let ih = step_tails ts (a ++ t ∷ []) b i h.1 in
    rw e (
      (rw (append_assoc a (t ∷ []) (ts ++ b), length_snoc a t) at ih)
      ∙ step_tail a (ts ++ b) t i h.0)

step_parts :
    (l : ℕ) (ts a b : List ℕ) (i : ℕ)
    → (bit_and l 0xc0 == 0x80) ≡ false
    → AllTails ts
    → shift_back (a ++ l ∷ (ts ++ b)) (suc i) (suc (length a) + length ts)
      ≡ shift_back (a ++ l ∷ (ts ++ b)) i (length a)
step_parts l ts a b i h k =
    (rw (append_assoc a (l ∷ []) (ts ++ b), length_snoc a l) at (step_tails ts (a ++ l ∷ []) b i k))
    ∙ step_lead a (ts ++ b) l i h

step-Shape :
    (bs a b : List ℕ) (i : ℕ)
    → Shape bs
    → shift_back (a ++ (bs ++ b)) (suc i) (length a + length bs)
      ≡ shift_back (a ++ (bs ++ b)) i (length a)
step-Shape bs a b i s =
    let e : length a + suc (length s.tails) ≡ suc (length a) + length s.tails = omega arith in
    rw (s.split, e) (step_parts s.lead s.tails a b i s.starts s.continues)

back_text :
    (vs a b : List ℕ) (i : ℕ)
    → AllCodes vs
    → shift_back (a ++ (text vs ++ b)) (length vs + i) (length a + length (text vs))
      ≡ shift_back (a ++ (text vs ++ b)) i (length a)
unfolding text
back_text [] a b i h =
    let e : length a + 0 ≡ length a = omega arith in let f : 0 + i ≡ i = omega arith in rw (e, f)
back_text (v ∷ vs) a b i h =
    let e : suc (length vs) + i ≡ length vs + suc i = omega arith in
    let f : length a + length (utf8_bytes v ++ text vs)
        ≡ length a + length (utf8_bytes v) + length (text vs) =
      omega (arith, length-append {0} (utf8_bytes v) (text vs)) in
    let ih = back_text vs (a ++ utf8_bytes v) b (suc i) h.1 in
    rw (e, f, append_assoc (utf8_bytes v) (text vs) b)
      ((rw (append_assoc a (utf8_bytes v) (text vs ++ b), length-append {0} a (utf8_bytes v)) at ih)
        ∙ step-Shape (utf8_bytes v) a (text vs ++ b) i (shape v (omega (arith, h.0))))

back_all :
    (a : List ℕ) (vs : List ℕ)
    → AllCodes vs
    → shift_back (a ++ text vs) (length vs) (length (a ++ text vs)) ≡ some (length a)
back_all a vs h =
    let e : length vs + 0 ≡ length vs = omega arith in
    rw (length-append {0} a (text vs))
      ((rw (append-nil (text vs), e) at (back_text vs a [] 0 h)) ∙ unfold shift_back in refl)

shiftaway_value :
    (s : List ℕ) (i q : ℕ)
    → shift_back s i (length s) ≡ some q
    → utf8shiftaway s i ≡ some (take q s)
unfolding utf8shiftaway
shiftaway_value s i q e = rw (e, utf8shiftaway)

shiftback_value :
    (s : List ℕ) (i q : ℕ)
    → shift_back s i (length s) ≡ some q
    → utf8shiftback s i ≡ some (q, length s - q)
unfolding utf8shiftback
shiftback_value s i q e = rw (e, utf8shiftback)

-- From the end of any bytes followed by a text of code points below 0x110000,
-- unc0_utf8shiftaway by as many characters as the text has leaves exactly the bytes before it.
shiftaway-text : (a vs : List ℕ) → AllCodes vs → utf8shiftaway (a ++ text vs) (length vs) ≡ some a
shiftaway-text a vs h =
    shiftaway_value (a ++ text vs) (length vs) (length a) (back_all a vs h)
    ∙ rw (take-append a (text vs))

-- From the end of any bytes followed by a text of code points below 0x110000,
-- unc0_utf8shiftback by as many characters as the text has gives the start of the text and its
-- length.
pub shiftback-text :
    (a vs : List ℕ)
    → AllCodes vs
    → utf8shiftback (a ++ text vs) (length vs) ≡ some (length a, length (text vs))
shiftback-text a vs h =
    let e : length a + length (text vs) - length a ≡ length (text vs) = omega arith in
    shiftback_value (a ++ text vs) (length vs) (length a) (back_all a vs h)
    ∙ rw (length-append {0} a (text vs), e)

scanback-shift_back : (s : List ℕ) (e n : ℕ) → scanback s e n ≡ shift_back s n e
unfolding scanback shift_back
scanback-shift_back s e zero = refl
scanback-shift_back s zero (suc n) = refl
scanback-shift_back s (suc e) (suc n) =
    scanback-shift_back s e (if bit_and (get_or s e 0) 0xc0 == 0x80 then suc n else n)

-- From the end of any bytes followed by a text of at least one code point, all below 0x110000,
-- unc0_utf8scanbackw, which counts from zero, goes to the start of the text for a count that
-- is one less than its characters.
scanbackw-text :
    (a vs : List ℕ) (v : ℕ)
    → AllCodes (v ∷ vs)
    → utf8scanbackw (a ++ text (v ∷ vs)) (length vs) ≡ some (length a)
unfolding utf8scanbackw
scanbackw-text a vs v h =
    let e : length vs + 1 ≡ length (v ∷ vs) = omega arith in
    rw e (scanback-shift_back _ _ _ ∙ back_all a (v ∷ vs) h)
