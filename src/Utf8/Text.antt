-- ===== src/Utf8/Text.antt =====
-- Walking over the UTF-8 text of a list of code points: characters and bytes correspond.
pub mod Forward
pub mod Backward
use uncil.Prelude.{
  ℕ, zero, suc, ◌+◌, ◌<◌, ◌≡◌, refl, arith, List, [], ◌∷◌, ◌++◌, append_assoc, append-nil, length,
}
use uncil.Utf8.{utf8_bytes}

-- The bytes of the code points, one after the other.
unfoldable pub text : List ℕ → List ℕ
text [] = []
text (u ∷ us) = utf8_bytes u ++ text us

abbrev pub AllCodes : List ℕ → Type 0
AllCodes [] = Unit {0}
AllCodes (u ∷ us) = (u < 0x110000) × AllCodes us

pub text-append : (us vs : List ℕ) → text (us ++ vs) ≡ text us ++ text vs
unfolding text
text-append [] vs = refl
text-append (u ∷ us) vs = rw (text-append us vs, append_assoc)

pub text-single : (u : ℕ) → text (u ∷ []) ≡ utf8_bytes u
unfolding text
text-single u = append-nil (utf8_bytes u)
