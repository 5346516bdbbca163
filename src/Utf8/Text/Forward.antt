-- ===== src/Utf8/Text/Forward.antt =====
-- The forward walks of src/uutf.c: unc0_utf8nextchar, unc0_utf8shift, unc0_utf8reshift,
-- unc0_utf8scanforw and unc0_utf8unshift.
use uncil.Prelude.{
  ℕ, suc, ◌+◌, ◌-◌, ◌<◌, ◌≡◌, refl, ap, ◌∙◌, arith, List, [], ◌∷◌, ◌++◌, some, min, append_assoc,
  length, length-append, drop,
}
use uncil.Utf8.{
  utf8_bytes, lead_size, utf8nextchar, utf8shift, utf8reshift, utf8scanforw, utf8unshift,
}
use uncil.Utf8.Shape.{Shape, shape, AllTails}
use uncil.Utf8.Text.{text, AllCodes, text-append}

drop-append : (xs ys : List ℕ) → drop (length xs) (xs ++ ys) ≡ ys
drop-append [] ys = refl
drop-append (x ∷ xs) ys = drop-append xs ys

next-Shape : (bs rest : List ℕ) → Shape bs → utf8nextchar (bs ++ rest) ≡ some rest
unfolding utf8nextchar
next-Shape bs rest s =
    let e : min (suc (length s.tails)) (suc (length (s.tails ++ rest))) ≡ suc (length s.tails) =
      omega (arith, length-append {0} s.tails rest) in
    rw (s.split, s.size, e, drop-append)

-- From the first byte of the code of any code point below 0x110000, unc0_utf8nextchar steps
-- right behind it.
pub nextchar-char :
    (u : ℕ) (rest : List ℕ) → u < 0x110000 → utf8nextchar (utf8_bytes u ++ rest) ≡ some rest
nextchar-char u rest h = next-Shape (utf8_bytes u) rest (shape u (omega arith))

shift_step :
    (i : ℕ) (s s' : List ℕ) → utf8nextchar s ≡ some s' → utf8shift (suc i) s ≡ utf8shift i s'
unfolding utf8shift
shift_step i s s' e = rw (e, utf8shift)

-- On a text of code points below 0x110000 with anything behind it, unc0_utf8shift by as many
-- characters as the text has goes to its end.
shift-text : (us rest : List ℕ) → AllCodes us → utf8shift (length us) (text us ++ rest) ≡ some rest
unfolding text utf8shift
shift-text [] rest h = refl
shift-text (u ∷ us) rest h =
    rw (append_assoc (utf8_bytes u) (text us) rest)
      (shift_step (length us) _ _ (nextchar-char u (text us ++ rest) h.0) ∙ shift-text us rest h.1)

reshift_value :
    (n : ℕ) (s sp : List ℕ)
    → utf8shift n s ≡ some sp
    → utf8reshift n s ≡ some (length s - length sp)
unfolding utf8reshift
reshift_value n s sp e = rw (e, utf8reshift)

-- In a text of code points of which the first part has n characters, all below 0x110000,
-- unc0_utf8reshift turns the character index n into the length of the first part in bytes.
reshift-text :
    (us vs : List ℕ)
    → AllCodes us
    → utf8reshift (length us) (text (us ++ vs)) ≡ some (length (text us))
reshift-text us vs h =
    let e : length (text us ++ text vs) - length (text vs) ≡ length (text us) =
      omega (arith, length-append {0} (text us) (text vs)) in
    rw (text-append us vs) (reshift_value (length us) _ _ (shift-text us (text vs) h) ∙ ap some e)

tails_uncounted : (ts rest : List ℕ) → AllTails ts → utf8unshift (ts ++ rest) ≡ utf8unshift rest
unfolding utf8unshift
tails_uncounted [] rest h = refl
tails_uncounted (t ∷ ts) rest h = rw h.0 (tails_uncounted ts rest h.1)

count-Shape : (bs rest : List ℕ) → Shape bs → utf8unshift (bs ++ rest) ≡ suc (utf8unshift rest)
count-Shape bs rest s =
    rw (s.split) (unfold utf8unshift in rw (s.starts, tails_uncounted s.tails rest s.continues))

-- The character count of unc0_utf8unshift on a text of code points below 0x110000 with
-- anything behind it is the number of code points, plus the count of what follows.
unshift-text :
    (us rest : List ℕ) → AllCodes us → utf8unshift (text us ++ rest) ≡ length us + utf8unshift rest
unfolding text
unshift-text [] rest h = omega arith
unshift-text (u ∷ us) rest h =
    rw
      (
        append_assoc (utf8_bytes u) (text us) rest,
        count-Shape (utf8_bytes u) (text us ++ rest) (shape u (omega (arith, h.0))),
        unshift-text us rest h.1,
      )
      (omega arith)

scan_step :
    (n b : ℕ) (s : List ℕ)
    → utf8scanforw (suc n) (b ∷ s) ≡ utf8scanforw n (drop (lead_size b) (b ∷ s))
unfolding utf8scanforw
scan_step n b s = refl

scan-Shape :
    (n : ℕ) (bs rest : List ℕ) → Shape bs → utf8scanforw (suc n) (bs ++ rest) ≡ utf8scanforw n rest
scan-Shape n bs rest s =
    rw (s.split) (scan_step n s.lead (s.tails ++ rest) ∙ rw (s.size, drop-append))

-- On a text of code points below 0x110000 with at least one byte behind it, unc0_utf8scanforw
-- by as many characters as the text has goes to that byte.
scanforw-text :
    (us : List ℕ) (b : ℕ) (rest : List ℕ)
    → AllCodes us
    → utf8scanforw (length us) (text us ++ b ∷ rest) ≡ some (b ∷ rest)
unfolding text utf8scanforw
scanforw-text [] b rest h = refl
scanforw-text (u ∷ us) b rest h = rw (append_assoc (utf8_bytes u) (text us) (b ∷ rest)) (
    scan-Shape (length us) (utf8_bytes u) _ (shape u (omega (arith, h.0)))
    ∙ scanforw-text us b rest h.1)
