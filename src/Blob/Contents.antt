-- ===== src/Blob/Contents.antt =====
-- The bytes that a blob of src/ublob.c stands for, and what its functions share.
use uncil.Prelude.{
  ℕ, ◌+◌, ◌-◌, ◌%◌, ◌^◌, ◌≤◌, ◌<◌, ◌≡◌, ◌⊎◌, inl, inr, refl, sym, ap, subst, ◌∙◌, arith, List, [],
  ◌∷◌, ◌++◌, Option, none, some, ltb, true, false, Bool-cases, Option-cases, length, take, drop,
  length-take, length-drop, length-append, take-append, take-take,
}
use uncil.Memory.{Allocator, Host, held, invokealloc}
use uncil.Memory.Contract.{KeepsBytes, invokealloc_keeps}
use uncil.Blob.{Blob, write, on_bytes, reserve, commit, err_mem, blob_buffer}

-- The size is within the capacity, and the capacity within the block.
abbrev pub IsBlob : Blob → Type 0
IsBlob q = (q.size ≤ q.capacity) × (q.capacity ≤ length (held q.bytes))

abbrev pub contents : Blob → List ℕ
contents q = take q.size (held q.bytes)

-- A function that makes the contents `new` of the blob `q` gives these or, if there is no room for
-- them, runs out of memory and leaves the blob as it is.
abbrev pub Outcome : {σ : Type 0} → Blob → List ℕ → Allocator σ × Blob × ℕ → Type 0
Outcome q new (a, q', status) =
    ((status ≡ err_mem) × (q' ≡ q) × (q.capacity < length new))
    ⊎ ((status ≡ 0) × IsBlob q' × (contents q' ≡ new))

pub length-contents : (q : Blob) → IsBlob q → length (contents q) ≡ q.size
length-contents q h = omega (arith, length-take {0} q.size (held q.bytes), h.0, h.1)

pub length-write :
    (i : ℕ) (b p : List ℕ) → i + length b ≤ length p → length (write i b p) ≡ length p
unfolding write
length-write i b p h =
    let e : length (take i p ++ b ++ drop (i + length b) p) ≡ length p = omega (
      arith,
      length-append {0} (take i p ++ b) (drop (i + length b) p),
      length-append {0} (take i p) b,
      length-take {0} i p,
      length-drop {0} (i + length b) p,
    ) in
    e

-- The bytes up to the end of what was written.
pub take-write :
    (i : ℕ) (b p : List ℕ)
    → i + length b ≤ length p
    → take (i + length b) (write i b p) ≡ take i p ++ b
unfolding write
take-write i b p h =
    let n : length (take i p ++ b) ≡ i + length b =
      omega (arith, length-append {0} (take i p) b, length-take {0} i p) in
    let tail : List ℕ = drop (i + length b) p in
    let e : take (length (take i p ++ b)) ((take i p ++ b) ++ tail) ≡ take i p ++ b =
      take-append (take i p ++ b) tail in
    rw n at e

round_up :
    (ns : ℕ)
    → ns + 64 ≤ 2 ^ 64
    → ns ≤ (ns + blob_buffer - 1) % 2 ^ 64 - (ns + blob_buffer - 1) % 2 ^ 64 % blob_buffer
round_up ns h = omega arith

pub record Reserved (q q' : Blob) (ns : ℕ) : Type 0 where
  pub room : ns ≤ q'.capacity
  pub block : q'.capacity ≤ length (held q'.bytes)
  pub kept : take q.size (held q'.bytes) ≡ contents q

take_nothing : (xs : List ℕ) → length xs ≤ 0 → take (length xs) [] ≡ xs
take_nothing [] h = refl
take_nothing (x ∷ xs) h = absurd (omega arith)

some_inj : {x y : Blob} → some x ≡ some y → x ≡ y
some_inj e = cc

module _ {σ : Type 0} (host : Host σ) (collect : Allocator σ → Allocator σ) where
  abbrev rounded : ℕ → ℕ
  rounded ns = (ns + blob_buffer - 1) % 2 ^ 64 - (ns + blob_buffer - 1) % 2 ^ 64 % blob_buffer

  reserve_same :
      (a : Allocator σ) (q : Blob) (ns : ℕ)
      → ltb q.capacity ns ≡ false
      → (reserve host collect a q ns).1 ≡ some q
  unfolding reserve
  reserve_same a q ns n = rw n

  -- A blob that has room is left as it is.
  pub reserve_enough :
      (a : Allocator σ) (q : Blob) (ns : ℕ)
      → ns ≤ q.capacity
      → reserve host collect a q ns ≡ (a, some q)
  unfolding reserve
  reserve_enough a q ns h = let n : ltb q.capacity ns ≡ false = ground arith in rw n

  reserve_fails :
      (a : Allocator σ) (q : Blob) (ns : ℕ)
      → ltb q.capacity ns ≡ true
      → (invokealloc host collect a q.bytes q.capacity (rounded ns)).1 ≡ none
      → (reserve host collect a q ns).1 ≡ none
  unfolding reserve
  reserve_fails a q ns y z = rw (y, z)

  reserve_grows :
      (a : Allocator σ) (q : Blob) (ns : ℕ) (p : List ℕ)
      → ltb q.capacity ns ≡ true
      → (invokealloc host collect a q.bytes q.capacity (rounded ns)).1 ≡ some p
      → (reserve host collect a q ns).1
        ≡ some (record { size = q.size; capacity = rounded ns; bytes = some p })
  unfolding reserve
  reserve_grows a q ns p y z = rw (y, z)

  pub reserve_full :
      (a : Allocator σ) (q : Blob) (ns : ℕ)
      → (reserve host collect a q ns).1 ≡ none
      → q.capacity < ns
  reserve_full a q ns e = elim (Bool-cases (ltb q.capacity ns)) [
    | inl y ↦ ground arith
    | inr n ↦ let f = reserve_same a q ns n in cc
  ]

  pub reserve_holds :
      (a : Allocator σ) (q q' : Blob) (ns : ℕ)
      → KeepsBytes host
      → IsBlob q
      → ns + 64 ≤ 2 ^ 64
      → (reserve host collect a q ns).1 ≡ some q'
      → Reserved q q' ns
  reserve_holds a q q' ns k w h e =
      let nc : ℕ = (ns + blob_buffer - 1) % 2 ^ 64 in
      let nc' : ℕ = nc - nc % blob_buffer in
      elim (Bool-cases (ltb q.capacity ns)) [
        | inl y ↦
            let up = round_up ns h in
            elim (Option-cases (invokealloc host collect a q.bytes q.capacity nc').1) [
              | inl z ↦ let f = reserve_fails a q ns y z in cc
              | inr (p, z) ↦
                  let (room, same) =
                    invokealloc_keeps host collect a q.bytes q.capacity nc' p k (ground arith) w.1
                      z in
                  subst (λ t. Reserved q t ns) (some_inj (sym (reserve_grows a q ns p y z) ∙ e))
                    (record {
                      room = up;
                      block = room;
                      kept =
                          sym (take-take q.size q.capacity p w.0)
                          ∙ ap (take q.size) same
                          ∙ take-take q.size q.capacity (held q.bytes) w.0;
                    })
            ]
        | inr n ↦
            subst (λ t. Reserved q t ns) (some_inj (sym (reserve_same a q ns n) ∙ e))
              (record { room = ground arith; block = w.1; kept = refl })
      ]

  -- What `f` has to do to the bytes of a block that has room.
  abbrev pub Makes : Blob → List ℕ → (List ℕ → List ℕ) → Type 0
  Makes q new f =
      (p : List ℕ)
      → length new ≤ length p
      → take q.size p ≡ contents q
      → (length p ≤ length (f p)) × (take (length new) (f p) ≡ new)

  Makes-held :
      (q : Blob) (new : List ℕ) (f : List ℕ → List ℕ) (c : ℕ) (d : Option (List ℕ))
      → Makes q new f
      → length new ≤ c
      → c ≤ length (held d)
      → take q.size (held d) ≡ contents q
      → (c ≤ length (held (on_bytes f d))) × (take (length new) (held (on_bytes f d)) ≡ new)
  unfolding on_bytes
  Makes-held q new f c none does h r s = (r, take_nothing new (omega arith))
  Makes-held q new f c (some p) does h r s = let (l, e) = does p (omega arith) s in (omega arith, e)

  pub commit-Outcome :
      (q : Blob) (new : List ℕ) (f : List ℕ → List ℕ) (r : Allocator σ × Option Blob)
      → Makes q new f
      → (r.1 ≡ none → q.capacity < length new)
      → ((q' : Blob) → r.1 ≡ some q' → Reserved q q' (length new))
      → Outcome q new (commit host collect f q (length new) r)
  unfolding commit
  commit-Outcome q new f (a, none) does full has = inl (refl, refl, full refl)
  commit-Outcome q new f (a, some q') does full has =
      let r = has q' refl in
      let (l, e) = Makes-held q new f q'.capacity q'.bytes does r.room r.block r.kept in
      inr (refl, (r.room, l), e)
