-- ===== src/Lexer.antt =====
-- The words and the integer literals of src/ulex.c. A string is the list of its bytes before the
-- terminating zero.
pub mod Keywords
pub mod Integers
mod Tests
use uncil.Prelude.{
  ℕ, zero, suc, ◌+◌, ◌-◌, ◌*◌, ◌≤◌, Bool, true, false, not, ◌&&◌, ◌||◌, List, [], ◌∷◌, Option, none,
  some, ltb, leb, ◌==◌, if◌then◌else◌,
}
use uncil.Prelude.Int.{ℤ, pos, wrap, ◌+ℤ◌, ◌*ℤ◌, ltb_ℤ}

-- ULT_Kand and its kin
pub data Token : Type 0 where
  kand kbreak kcatch kcontinue kdelete kdo kelse kend kfalse kfor kfunction kif knot knull kor
        kpublic kreturn kthen ktrue ktry kwhile kwith :
      Token

-- `*s` and `s + 1`
abbrev pub char_at : List ℕ → ℕ
char_at [] = 0
char_at (c ∷ s) = c

abbrev pub behind : List ℕ → List ℕ
behind [] = []
behind (c ∷ s) = s

unfoldable pub kwmatch : List ℕ → List ℕ → Bool
kwmatch s [] = char_at s == 0
kwmatch s (k ∷ kw) = let rest = kwmatch (behind s) kw in if char_at s == k then rest else false

-- The nested switches of kwtrie: `case` is a case of the switch on `*s++`, with what it does and
-- the cases behind it; `leaf` compares the rest of the word; `stop` is the end of a switch.
pub data Trie : Type 0 where
  stop : Trie
  leaf : List ℕ → Token → Trie
  case : ℕ → Trie → Trie → Trie

abbrev pub keyword_trie : Trie
keyword_trie =
    (case 0x61 (leaf (110 ∷ 100 ∷ []) kand) (
      case 0x62 (leaf (114 ∷ 101 ∷ 97 ∷ 107 ∷ []) kbreak) (
        case 0x63
          (case 0x61 (leaf (116 ∷ 99 ∷ 104 ∷ []) kcatch)
            (case 0x6f (leaf (110 ∷ 116 ∷ 105 ∷ 110 ∷ 117 ∷ 101 ∷ []) kcontinue) stop))
          (case 0x64
            (case 0x65 (leaf (108 ∷ 101 ∷ 116 ∷ 101 ∷ []) kdelete) (case 0x6f (leaf ([]) kdo) stop))
            (case 0x65
              (case 0x6c (leaf (115 ∷ 101 ∷ []) kelse) (case 0x6e (leaf (100 ∷ []) kend) stop))
              (case 0x66
                (case 0x61 (leaf (108 ∷ 115 ∷ 101 ∷ []) kfalse) (
                  case 0x6f (leaf (114 ∷ []) kfor)
                    (case 0x75 (leaf (110 ∷ 99 ∷ 116 ∷ 105 ∷ 111 ∷ 110 ∷ []) kfunction) stop)))
                (case 0x69 (leaf (102 ∷ []) kif) (
                  case 0x6e
                    (case 0x6f (leaf (116 ∷ []) knot)
                      (case 0x75 (leaf (108 ∷ 108 ∷ []) knull) stop))
                    (case 0x6f (leaf (114 ∷ []) kor) (
                      case 0x70 (leaf (117 ∷ 98 ∷ 108 ∷ 105 ∷ 99 ∷ []) kpublic) (
                        case 0x72 (leaf (101 ∷ 116 ∷ 117 ∷ 114 ∷ 110 ∷ []) kreturn) (
                          case 0x74
                            (case 0x68 (leaf (101 ∷ 110 ∷ []) kthen) (
                              case 0x72
                                (case 0x75 (leaf (101 ∷ []) ktrue)
                                  (case 0x79 (leaf ([]) ktry) stop))
                                stop))
                            (case 0x77
                              (case 0x68 (leaf (105 ∷ 108 ∷ 101 ∷ []) kwhile)
                                (case 0x69 (leaf (116 ∷ 104 ∷ []) kwith) stop))
                              stop)))))))))))))

unfoldable pub walk : Trie → List ℕ → Option Token
walk stop s = none
walk (leaf kw t) s = if kwmatch s kw then some t else none
walk (case k sub others) s =
    let here = walk sub (behind s) in
    let other = walk others s in if char_at s == k then here else other

unfoldable pub kwtrie : List ℕ → Option Token
kwtrie s = walk keyword_trie s

-- unc0_isdigit, isbdigit_, isodigit_ and isxdigit_, and isdigitb_ over them
abbrev pub isdigit : ℕ → Bool
isdigit c = leb 0x30 c && leb c 0x39

unfoldable pub isdigitb : ℕ → ℕ → Bool
isdigitb c b =
    if b == 2
    then (c == 0x30) || (c == 0x31)
    else if b == 8
    then leb 0x30 c && leb c 0x37
    else if b == 16
    then isdigit c || (leb 0x41 c && leb c 0x46) || (leb 0x61 c && leb c 0x66)
    else isdigit c

unfoldable pub getdigitb : ℕ → ℕ → ℕ
getdigitb c b =
    if ltb 10 b
    then (if leb 0x61 c then 10 + (c - 0x61) else if leb 0x41 c then 10 + (c - 0x41) else c - 0x30)
    else c - 0x30

-- What the digits come to: an integer, or one that is found too large before a digit, from which
-- the literal goes on as a float; and the input that is left.
pub data Digits : Type 0 where
  whole : ℤ → List ℕ → Digits
  large : ℤ → List ℕ → Digits

-- `while (isdigitb_(c, base)) { ... }`, whose sum and product wrap around
unfoldable pub read_digits : ℕ → ℤ → List ℕ → Digits
read_digits base u [] = whole u []
read_digits base u (c ∷ s) =
    let ni = wrap (u *ℤ pos base +ℤ pos (getdigitb c base)) in
    let more = read_digits base ni s in
    if isdigitb c base then (if ltb_ℤ ni u then large u (c ∷ s) else more) else whole u (c ∷ s)

-- The letter behind a leading zero, which gives the base; `none` is UNCIL_ERR_SYNTAX.
unfoldable pub based : ℕ → List ℕ → Option Digits
based base s = if isdigitb (char_at s) base then some (read_digits base (pos 0) s) else none

-- A literal from its first digit on, up to what may follow its integer part
unfoldable pub read_integer : List ℕ → Option Digits
read_integer s =
    let next = char_at (behind s) in
    if char_at s == 0x30
    then (if next == 0x78
        then based 16 (behind (behind s))
        else if next == 0x6f
        then based 8 (behind (behind s))
        else if next == 0x62
        then based 2 (behind (behind s))
        else if not (isdigit next)
        then some (whole (pos 0) (behind s))
        else some (read_digits 10 (pos 0) (behind s)))
    else some (read_digits 10 (pos 0) s)
