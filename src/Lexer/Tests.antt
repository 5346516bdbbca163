-- ===== src/Lexer/Tests.antt =====
-- The words and literals of the lexer at concrete inputs.
use uncil.Prelude.{true, false, ◌≡◌, ◌↔◌, refl, [], ◌∷◌, none, some, arith}
use uncil.Prelude.Int.{pos, wrap, ◌+ℤ◌, ◌*ℤ◌}
use uncil.Lexer.{
  kdo, kif, kwtrie, walk, kwmatch, whole, read_integer, based, read_digits, isdigitb, getdigitb,
}
use uncil.Lexer.Keywords.{keywords, In, kwtrie-keywords}
use uncil.Lexer.Integers.{hexadecimal, read_integer-value, read_digits_wraps}

-- "do", "dot" and "tr"
kwtrie_do : kwtrie (100 ∷ 111 ∷ []) ≡ some kdo
unfolding kwtrie walk kwmatch
kwtrie_do = refl

kwtrie_dot : kwtrie (100 ∷ 111 ∷ 116 ∷ []) ≡ none
unfolding kwtrie walk kwmatch
kwtrie_dot = refl

kwtrie_tr : kwtrie (116 ∷ 114 ∷ []) ≡ none
unfolding kwtrie walk kwmatch
kwtrie_tr = refl

kwtrie-keywords_example : (kwtrie (105 ∷ 102 ∷ []) ≡ some kif) ↔ In (105 ∷ 102 ∷ [], kif) keywords
kwtrie-keywords_example = kwtrie-keywords (105 ∷ 102 ∷ []) kif (omega arith, (omega arith, tt))

-- 0b102 stops at the 2; 0x without a digit is an error
read_integer_binary : read_integer (48 ∷ 98 ∷ 49 ∷ 48 ∷ 50 ∷ []) ≡ some (whole (pos 2) (50 ∷ []))
unfolding read_integer based read_digits isdigitb getdigitb wrap ◌+ℤ◌ ◌*ℤ◌
read_integer_binary = refl

read_integer_bare : read_integer (48 ∷ 120 ∷ 103 ∷ []) ≡ none
unfolding read_integer based read_digits isdigitb getdigitb
read_integer_bare = refl

-- 23000000000000000000
read_integer_wrapped :
    read_integer (
      50 ∷ 51 ∷ 48 ∷ 48 ∷ 48 ∷ 48 ∷ 48 ∷ 48 ∷ 48 ∷ 48 ∷ 48 ∷ 48 ∷ 48 ∷ 48 ∷ 48 ∷ 48 ∷ 48 ∷ 48 ∷ 48
      ∷ 48 ∷ [])
    ≡ some (whole (pos 4553255926290448384) [])
unfolding read_integer read_digits isdigitb getdigitb wrap ◌+ℤ◌ ◌*ℤ◌
read_integer_wrapped = refl

-- 0x1Fb;
read_integer-value_example :
    read_integer (48 ∷ 120 ∷ 49 ∷ 70 ∷ 98 ∷ 59 ∷ []) ≡ some (whole (pos 507) (59 ∷ []))
unfolding isdigitb
read_integer-value_example =
    read_integer-value hexadecimal (1, false) ((15, true) ∷ (11, false) ∷ []) (59 ∷ [])
      (omega arith, (omega arith, (omega arith, tt))) (refl, refl, refl) (omega arith)

read_digits_wraps_example :
    read_digits 10 (pos 2300000000000000000) (48 ∷ []) ≡ read_digits 10 (pos 4553255926290448384) []
read_digits_wraps_example =
    read_digits_wraps 2300000000000000000 48 [] refl (omega arith) (omega arith)
