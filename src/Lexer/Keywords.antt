-- ===== src/Lexer/Keywords.antt =====
-- The words that kwtrie of src/ulex.c knows.
use uncil.Prelude.{
  ℕ, ◌<◌, ◌≡◌, ◌≢◌, ◌⊎◌, ◌↔◌, inl, inr, refl, sym, ap, ◌∙◌, arith, Bool, true, false, ◌&&◌, List,
  [], ◌∷◌, ◌++◌, map, none, some, Bool-cases, ltb, ◌==◌,
}
use uncil.Lexer.{
  Token, kand, kbreak, kcatch, kcontinue, kdelete, kdo, kelse, kend, kfalse, kfor, kfunction, kif,
  knot, knull, kor, kpublic, kreturn, kthen, ktrue, ktry, kwhile, kwith, kwmatch, Trie, stop, leaf,
  case, keyword_trie, walk, kwtrie,
}

-- The keywords of the language, in alphabetical order
abbrev pub keywords : List (List ℕ × Token)
keywords =
    (97 ∷ 110 ∷ 100 ∷ [], kand)
    ∷ (98 ∷ 114 ∷ 101 ∷ 97 ∷ 107 ∷ [], kbreak)
    ∷ (99 ∷ 97 ∷ 116 ∷ 99 ∷ 104 ∷ [], kcatch)
    ∷ (99 ∷ 111 ∷ 110 ∷ 116 ∷ 105 ∷ 110 ∷ 117 ∷ 101 ∷ [], kcontinue)
    ∷ (100 ∷ 101 ∷ 108 ∷ 101 ∷ 116 ∷ 101 ∷ [], kdelete)
    ∷ (100 ∷ 111 ∷ [], kdo)
    ∷ (101 ∷ 108 ∷ 115 ∷ 101 ∷ [], kelse)
    ∷ (101 ∷ 110 ∷ 100 ∷ [], kend)
    ∷ (102 ∷ 97 ∷ 108 ∷ 115 ∷ 101 ∷ [], kfalse)
    ∷ (102 ∷ 111 ∷ 114 ∷ [], kfor)
    ∷ (102 ∷ 117 ∷ 110 ∷ 99 ∷ 116 ∷ 105 ∷ 111 ∷ 110 ∷ [], kfunction)
    ∷ (105 ∷ 102 ∷ [], kif)
    ∷ (110 ∷ 111 ∷ 116 ∷ [], knot)
    ∷ (110 ∷ 117 ∷ 108 ∷ 108 ∷ [], knull)
    ∷ (111 ∷ 114 ∷ [], kor)
    ∷ (112 ∷ 117 ∷ 98 ∷ 108 ∷ 105 ∷ 99 ∷ [], kpublic)
    ∷ (114 ∷ 101 ∷ 116 ∷ 117 ∷ 114 ∷ 110 ∷ [], kreturn)
    ∷ (116 ∷ 104 ∷ 101 ∷ 110 ∷ [], kthen)
    ∷ (116 ∷ 114 ∷ 117 ∷ 101 ∷ [], ktrue)
    ∷ (116 ∷ 114 ∷ 121 ∷ [], ktry)
    ∷ (119 ∷ 104 ∷ 105 ∷ 108 ∷ 101 ∷ [], kwhile)
    ∷ (119 ∷ 105 ∷ 116 ∷ 104 ∷ [], kwith)
    ∷ []

abbrev pub In : {A : Type 0} → A → List A → Type 0
In x [] = x ≢ x
In x (y ∷ ys) = (x ≡ y) ⊎ In x ys

abbrev pub NoZero : List ℕ → Type 0
NoZero [] = Unit {0}
NoZero (c ∷ s) = (0 < c) × NoZero s

In-append_left : {A : Type 0} (x : A) (xs ys : List A) → In x xs → In x (xs ++ ys)
In-append_left x [] ys h = absurd (h refl)
In-append_left x (y ∷ xs) ys (inl e) = inl e
In-append_left x (y ∷ xs) ys (inr h) = inr (In-append_left x xs ys h)

In-append_right : {A : Type 0} (x : A) (xs ys : List A) → In x ys → In x (xs ++ ys)
In-append_right x [] ys h = h
In-append_right x (y ∷ xs) ys h = inr (In-append_right x xs ys h)

In-map : {A B : Type 0} (f : A → B) (x : A) (xs : List A) → In x xs → In (f x) (map f xs)
In-map f x [] h = absurd (h refl)
In-map f x (y ∷ xs) (inl e) = inl (ap f e)
In-map f x (y ∷ xs) (inr h) = inr (In-map f x xs h)

-- What the switches can find
words : Trie → List (List ℕ × Token)
words stop = []
words (leaf kw t) = (kw, t) ∷ []
words (case k sub others) = map (λ e. (k ∷ e.0, e.1)) (words sub) ++ words others

without_zero : List ℕ → Bool
without_zero [] = true
without_zero (k ∷ kw) = ltb 0 k && without_zero kw

-- No case is for the terminating zero.
labelled : Trie → Bool
labelled stop = true
labelled (leaf kw t) = without_zero kw
labelled (case k sub others) = ltb 0 k && labelled sub && labelled others

both : (a b : Bool) → a && b ≡ true → (a ≡ true) × (b ≡ true)
both true true h = (refl, refl)
both true false h = absurd (cc)
both false b h = absurd (cc)

kwmatch_equal : (s kw : List ℕ) → NoZero s → without_zero kw ≡ true → kwmatch s kw ≡ true → s ≡ kw
unfolding kwmatch without_zero
kwmatch_equal [] [] h n e = refl
kwmatch_equal (c ∷ s) [] h n e = absurd (ground (arith, h.0))
kwmatch_equal [] (k ∷ kw) h n e =
    let p = both (ltb 0 k) (without_zero kw) n in
    let z : (0 == k) ≡ false = ground (arith, p.0) in
    let f : false ≡ true = rw z at e in absurd (cc)
kwmatch_equal (c ∷ s) (k ∷ kw) h n e = elim (Bool-cases (c == k)) [
  | inl z ↦
      let p = both (ltb 0 k) (without_zero kw) n in
      let y : c ≡ k = ground arith in rw (y, kwmatch_equal s kw h.1 p.1 (rw z at e)) refl
  | inr z ↦ let f : false ≡ true = rw z at e in absurd (cc)
]

walk_finds :
    (tr : Trie) (s : List ℕ) (t : Token)
    → NoZero s
    → labelled tr ≡ true
    → walk tr s ≡ some t
    → In (s, t) (words tr)
unfolding walk words labelled
walk_finds stop s t h l e = absurd (cc)
walk_finds (leaf kw u) s t h l e = elim (Bool-cases (kwmatch s kw)) [
  | inl m ↦
      let f : some u ≡ some t = rw m at e in
      let g : u ≡ t = cc in inl (rw (kwmatch_equal s kw h l m, g) refl)
  | inr m ↦ let f : none ≡ some t = rw m at e in absurd (cc)
]
walk_finds (case k sub others) [] t h l e =
    let p = both (ltb 0 k && labelled sub) (labelled others) l in
    let q = both (ltb 0 k) (labelled sub) p.0 in
    let z : (0 == k) ≡ false = ground (arith, q.0) in
    In-append_right ([], t) (map (λ w. (k ∷ w.0, w.1)) (words sub)) (words others)
      (walk_finds others [] t h p.1 (rw z at e))
walk_finds (case k sub others) (c ∷ s) t h l e =
    let p = both (ltb 0 k && labelled sub) (labelled others) l in
    let q = both (ltb 0 k) (labelled sub) p.0 in
    elim (Bool-cases (c == k)) [
      | inl z ↦
          let y : c ≡ k = ground arith in
          let m =
            In-map (λ w. (k ∷ w.0, w.1)) (s, t) (words sub)
              (walk_finds sub s t h.1 q.1 (rw z at e)) in
          rw y (In-append_left (k ∷ s, t) (map (λ w. (k ∷ w.0, w.1)) (words sub)) (words others) m)
      | inr z ↦
          In-append_right (c ∷ s, t) (map (λ w. (k ∷ w.0, w.1)) (words sub)) (words others)
            (walk_finds others (c ∷ s) t h p.1 (rw z at e))
    ]

Finds : List (List ℕ × Token) → Type 0
Finds [] = Unit {0}
Finds (e ∷ es) = (kwtrie e.0 ≡ some e.1) × Finds es

Finds-In :
    (es : List (List ℕ × Token)) (s : List ℕ) (t : Token)
    → Finds es
    → In (s, t) es
    → kwtrie s ≡ some t
unfolding Finds
Finds-In [] s t h i = absurd (i refl)
Finds-In (e ∷ es) s t h (inl f) = ap (λ w. kwtrie w.0) f ∙ h.0 ∙ ap (λ w. some w.1) (sym f)
Finds-In (e ∷ es) s t h (inr i) = Finds-In es s t h.1 i

keywords-Finds : Finds keywords
unfolding Finds kwtrie walk kwmatch
keywords-Finds = (
  refl,
  (
    refl,
    (
      refl,
      (
        refl,
        (
          refl,
          (
            refl,
            (
              refl,
              (
                refl,
                (
                  refl,
                  (
                    refl,
                    (
                      refl,
                      (
                        refl,
                        (
                          refl,
                          (
                            refl,
                            (refl, (refl, (refl, (refl, (refl, (refl, (refl, (refl, tt)))))))),
                          ),
                        ),
                      ),
                    ),
                  ),
                ),
              ),
            ),
          ),
        ),
      ),
    ),
  ),
)

-- For a word without a zero byte, kwtrie finds a token for it exactly if the list of the 22
-- keywords has the word with that token.
pub kwtrie-keywords : (s : List ℕ) (t : Token) → NoZero s → (kwtrie s ≡ some t) ↔ In (s, t) keywords
unfolding kwtrie words labelled without_zero
kwtrie-keywords s t h =
    (λ e. walk_finds keyword_trie s t h refl e, λ i. Finds-In keywords s t keywords-Finds i)
