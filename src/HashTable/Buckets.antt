-- ===== src/HashTable/Buckets.antt =====
-- Lists of buckets: what is at an index after the list functions of the hash tables, and how many
-- entries there are in all.
use uncil.Prelude.{
  ℕ, zero, suc, ◌+◌, ◌-◌, ◌≤◌, ◌<◌, ◌≡◌, ◌≢◌, refl, sym, ap, ◌∙◌, arith, Bool, not, List, [], ◌∷◌,
  ◌++◌, map, Bool-cases, inl, inr, append-nil, length, length-append, take, drop, get_or, set,
  replicate, take-append-drop,
}
use uncil.HashTable.{keep, zip_append}

module _ {A : Type 0} where
  pub get_or-append_left :
      (xs ys : List A) (i : ℕ) (d : A) → i < length xs → get_or (xs ++ ys) i d ≡ get_or xs i d
  get_or-append_left [] ys i d h = absurd (omega arith)
  get_or-append_left (x ∷ xs) ys zero d h = refl
  get_or-append_left (x ∷ xs) ys (suc i) d h = get_or-append_left xs ys i d (omega arith)

  pub get_or-append_right :
      (xs ys : List A) (i : ℕ) (d : A)
      → length xs ≤ i
      → get_or (xs ++ ys) i d ≡ get_or ys (i - length xs) d
  get_or-append_right [] ys i d h = ap (λ (t : ℕ). get_or ys t d) (omega arith)
  get_or-append_right (x ∷ xs) ys zero d h = absurd (omega arith)
  get_or-append_right (x ∷ xs) ys (suc i) d h =
      get_or-append_right xs ys i d (omega arith) ∙ ap (λ (t : ℕ). get_or ys t d) (omega arith)

  pub get_or-set_self :
      (xs : List A) (i : ℕ) (v d : A) → i < length xs → get_or (set xs i v) i d ≡ v
  get_or-set_self [] i v d h = absurd (omega arith)
  get_or-set_self (x ∷ xs) zero v d h = refl
  get_or-set_self (x ∷ xs) (suc i) v d h = get_or-set_self xs i v d (omega arith)

  pub get_or-set_ne :
      (xs : List A) (i j : ℕ) (v d : A) → i ≢ j → get_or (set xs i v) j d ≡ get_or xs j d
  get_or-set_ne [] i j v d h = refl
  get_or-set_ne (x ∷ xs) zero zero v d h = absurd (h refl)
  get_or-set_ne (x ∷ xs) zero (suc j) v d h = refl
  get_or-set_ne (x ∷ xs) (suc i) zero v d h = refl
  get_or-set_ne (x ∷ xs) (suc i) (suc j) v d h = get_or-set_ne xs i j v d (λ e. h (ap suc e))

  pub get_or_out : (xs : List A) (i : ℕ) (d : A) → length xs ≤ i → get_or xs i d ≡ d
  get_or_out [] i d h = refl
  get_or_out (x ∷ xs) zero d h = absurd (omega arith)
  get_or_out (x ∷ xs) (suc i) d h = get_or_out xs i d (omega arith)

  pub get_or-take :
      (n : ℕ) (xs : List A) (i : ℕ) (d : A) → i < n → get_or (take n xs) i d ≡ get_or xs i d
  get_or-take zero xs i d h = absurd (omega arith)
  get_or-take (suc n) [] i d h = refl
  get_or-take (suc n) (x ∷ xs) zero d h = refl
  get_or-take (suc n) (x ∷ xs) (suc i) d h = get_or-take n xs i d (omega arith)

  pub get_or-drop :
      (n : ℕ) (xs : List A) (i : ℕ) (d : A) → get_or (drop n xs) i d ≡ get_or xs (n + i) d
  get_or-drop zero xs i d = ap (λ (t : ℕ). get_or xs t d) (omega arith)
  get_or-drop (suc n) [] i d = refl
  get_or-drop (suc n) (x ∷ xs) i d =
      let e : suc n + i ≡ suc (n + i) = omega arith in rw e (get_or-drop n xs i d)

  pub get_or-replicate : (n : ℕ) (d : A) (i : ℕ) → get_or (replicate n d) i d ≡ d
  get_or-replicate zero d i = refl
  get_or-replicate (suc n) d zero = refl
  get_or-replicate (suc n) d (suc i) = get_or-replicate n d i

  pub get_or-keep :
      (p : A → Bool) (bb : List (List A)) (i : ℕ)
      → get_or (map (keep p) bb) i [] ≡ keep p (get_or bb i [])
  unfolding keep
  get_or-keep p [] i = refl
  get_or-keep p (b ∷ bb) zero = refl
  get_or-keep p (b ∷ bb) (suc i) = get_or-keep p bb i

  pub get_or-zip_append :
      (as' bs : List (List A)) (i : ℕ)
      → length bs ≤ length as'
      → get_or (zip_append as' bs) i [] ≡ get_or as' i [] ++ get_or bs i []
  unfolding zip_append
  get_or-zip_append [] [] i h = refl
  get_or-zip_append [] (b ∷ bs) i h = absurd (omega arith)
  get_or-zip_append (a ∷ as') [] i h = rw append-nil refl
  get_or-zip_append (a ∷ as') (b ∷ bs) zero h = refl
  get_or-zip_append (a ∷ as') (b ∷ bs) (suc i) h = get_or-zip_append as' bs i (omega arith)

  pub length-zip_append :
      (as' bs : List (List A)) → length bs ≤ length as' → length (zip_append as' bs) ≡ length as'
  unfolding zip_append
  length-zip_append [] bs h = refl
  length-zip_append (a ∷ as') [] h = refl
  length-zip_append (a ∷ as') (b ∷ bs) h = ap suc (length-zip_append as' bs (omega arith))

  -- The entries of all the buckets
  abbrev pub total : List (List A) → ℕ
  total [] = 0
  total (b ∷ bb) = length b + total bb

  pub total-append : (as' bs : List (List A)) → total (as' ++ bs) ≡ total as' + total bs
  total-append [] bs = omega arith
  total-append (a ∷ as') bs = omega (arith, total-append as' bs)

  length-keep :
      (p : A → Bool) (xs : List A)
      → length (keep (λ x. not (p x)) xs) + length (keep p xs) ≡ length xs
  unfolding keep
  length-keep p [] = refl
  length-keep p (x ∷ xs) = elim (Bool-cases (p x)) [
    | inl e ↦ rw e (omega (arith, length-keep p xs))
    | inr e ↦ rw e (omega (arith, length-keep p xs))
  ]

  pub total-keep :
      (p : A → Bool) (bb : List (List A))
      → total (map (keep (λ x. not (p x))) bb) + total (map (keep p) bb) ≡ total bb
  total-keep p [] = refl
  total-keep p (b ∷ bb) = omega (arith, length-keep p b, total-keep p bb)

  pub total-set :
      (bb : List (List A)) (i : ℕ) (c : List A)
      → i < length bb
      → total (set bb i c) + length (get_or bb i []) ≡ total bb + length c
  total-set [] i c h = absurd (omega arith)
  total-set (b ∷ bb) zero c h = omega arith
  total-set (b ∷ bb) (suc i) c h = omega (arith, total-set bb i c (omega arith))

  pub total-zip_append :
      (as' bs : List (List A))
      → length bs ≤ length as'
      → total (zip_append as' bs) ≡ total as' + total bs
  unfolding zip_append
  total-zip_append [] [] h = refl
  total-zip_append [] (b ∷ bs) h = absurd (omega arith)
  total-zip_append (a ∷ as') [] h = omega arith
  total-zip_append (a ∷ as') (b ∷ bs) h =
      omega (arith, total-zip_append as' bs (omega arith), length-append {0} a b)

  pub total-halves : (n : ℕ) (bb : List (List A)) → total (take n bb) + total (drop n bb) ≡ total bb
  total-halves n bb = sym (total-append (take n bb) (drop n bb)) ∙ ap total (take-append-drop n bb)

  pub total_zero : (bb : List (List A)) (i : ℕ) → total bb ≡ 0 → get_or bb i [] ≡ []
  total_zero [] i h = refl
  total_zero ([] ∷ bb) zero h = refl
  total_zero ([] ∷ bb) (suc i) h = total_zero bb i (omega arith)
  total_zero ((x ∷ xs) ∷ bb) i h = absurd (omega arith)
