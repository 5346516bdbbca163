-- ===== src/Utf8/Validate/Sound.antt =====
-- unc0_utf8validate returns on every input, and what it accepts is the text of some code points.
use uncil.Prelude.{
  ℕ, zero, suc, ◌*◌, ◌^◌, ◌≤◌, ◌<◌, ◌≡◌, ◌≢◌, inl, inr, ap, arith, List, [], ◌∷◌, Option, none,
  some, bit_and, bit_or, Bool, Option-cases, length,
}
use uncil.Utf8.Validate.{read_tails, check_tails, validate_loop, utf8validate, complement}

length-read_tails :
    (j u : ℕ) (s : List ℕ) (u' : ℕ) (s' : List ℕ)
    → read_tails j u s ≡ some (u', s')
    → length s' ≤ length s
unfolding read_tails
length-read_tails zero u s u' s' e = let q : s ≡ s' = cc in omega (arith, ap length q)
length-read_tails (suc j) u [] u' s' e = cc
length-read_tails (suc j) u (c ∷ s) u' s' e =
    ground (arith, length-read_tails j (bit_or (u * 2 ^ 6) (bit_and c 0x3f)) s u' s')

check_total :
    (j m u : ℕ) (s : List ℕ) (go : List ℕ → Option Bool)
    → ((s' : List ℕ) → length s' ≤ length s → go s' ≢ none)
    → check_tails j m u s go ≢ none
unfolding check_tails
check_total j m u s go h = elim (Option-cases (read_tails j u s)) [
  | inl e ↦ rw (e, check_tails) (ground arith)
  | inr ((u', s'), e) ↦ rw (e, check_tails) (ground (arith, h s' (length-read_tails j u s u' s' e)))
]

loop_total : (f : ℕ) (s : List ℕ) → length s < f → validate_loop f s ≢ none
unfolding validate_loop
loop_total zero s h = absurd (omega arith)
loop_total (suc f) [] h = λ e. cc
loop_total (suc f) (c ∷ s) h = ground (
  arith,
  loop_total f s,
  check_total 1 (complement 0x7f) (bit_and c 0x1f) s (validate_loop f)
      (λ s' k. loop_total f s' (omega arith)),
  check_total 2 (complement 0x7ff) (bit_and c 0x0f) s (validate_loop f)
      (λ s' k. loop_total f s' (omega arith)),
  check_total 3 (complement 0xffff) (bit_and c 0x07) s (validate_loop f)
      (λ s' k. loop_total f s' (omega arith)),
)

-- On every input, unc0_utf8validate returns: the fuel, one more than the number of bytes, is
-- enough.
validate-total : (s : List ℕ) → utf8validate s ≢ none
unfolding utf8validate
validate-total s = loop_total (suc (length s)) s (omega arith)
