-- ===== src/Blob/Delete.antt =====
-- What unc0_blobdel makes of the contents of a blob.
use uncil.Prelude.{
  ℕ, ◌+◌, ◌-◌, ◌*◌, ◌/◌, ◌%◌, ◌^◌, ◌≤◌, ◌<◌, ◌≡◌, inl, inr, refl, sym, ap, ◌∙◌, arith, List, ◌++◌,
  Option, none, some, ltb, if◌then◌else◌, false, Bool-cases, length, take, drop, length-take,
  length-drop, take-take, drop-take, drop_all, append-nil,
}
use uncil.Memory.{Allocator, Host, held}
use uncil.Memory.Contract.{KeepsBytes, invokealloc_shrinks}
use uncil.Blob.{Blob, write, move, on_bytes, blobdel}
use uncil.Blob.Contents.{IsBlob, contents, length-contents, length-write, take-write}

-- `shut` is the block after the bytes behind the deleted ones have moved down.
move_down :
    (s i n : ℕ) (p : List ℕ)
    → i + n < s
    → s ≤ length p
    → (length (move i (i + n) (s - i - n) p) ≡ length p)
      × (take (s - n) (move i (i + n) (s - i - n) p) ≡ take i (take s p) ++ drop (i + n) (take s p))
unfolding move write
move_down s i n p h k =
    let b : List ℕ = take (s - i - n) (drop (i + n) p) in
    let l : length b ≡ s - i - n =
      omega (arith, length-take {0} (s - i - n) (drop (i + n) p), length-drop {0} (i + n) p) in
    let e : i + length b ≡ s - n = omega arith in
    let d : drop (i + n) (take s p) ≡ b =
      drop-take (i + n) s p ∙ ap (λ (t : ℕ). take t (drop (i + n) p)) (omega arith) in
    let w : take (i + length b) (write i b p) ≡ take i p ++ b = take-write i b p (omega arith) in
    (
      length-write i b p (omega arith),
      sym (ap (λ (t : ℕ). take t (write i b p)) e)
          ∙ w
          ∙ ap (λ t. t ++ b) (sym (take-take i s p (omega arith)))
          ∙ ap (λ t. take i (take s p) ++ t) (sym d),
    )

-- The block when the bytes have moved, if there are any behind.
abbrev shut : Blob → ℕ → ℕ → Option (List ℕ)
shut q i n =
    if ltb ((i + n) % 2 ^ 64) q.size
    then on_bytes (λ p. move i (i + n) (q.size - i - n) p) q.bytes
    else q.bytes

Shut : Blob → ℕ → ℕ → Option (List ℕ) → Type 0
Shut q i n d =
    (q.capacity ≤ length (held d))
    × (take (q.size - n) (held d) ≡ take i (contents q) ++ drop (i + n) (contents q))

shut_moved :
    (s c i n : ℕ) (d : Option (List ℕ))
    → i + n < s
    → s ≤ c
    → c ≤ length (held d)
    → (c ≤ length (held (on_bytes (λ p. move i (i + n) (s - i - n) p) d)))
      × (take (s - n) (held (on_bytes (λ p. move i (i + n) (s - i - n) p) d))
          ≡ take i (take s (held d)) ++ drop (i + n) (take s (held d)))
unfolding on_bytes
shut_moved s c i n none h k l = absurd (omega arith)
shut_moved s c i n (some p) h k l =
    let (m, e) = move_down s i n p h (omega arith) in (omega arith, e)

shut_holds :
    (q : Blob) (i n : ℕ) → IsBlob q → i + n ≤ q.size → q.size < 2 ^ 64 → Shut q i n (shut q i n)
unfolding Shut
shut_holds q i n w h k =
    let m : (i + n) % 2 ^ 64 ≡ i + n = omega arith in
    elim (Bool-cases (ltb (i + n) q.size)) [
      | inl y ↦ rw (m, y) (shut_moved q.size q.capacity i n q.bytes (ground arith) w.0 w.1)
      | inr y ↦
          let e : q.size - n ≡ i = ground arith in
          let z : length (contents q) ≤ i + n = ground (arith, length-contents q w) in
          rw (m, y, e)
            (
              w.1,
              sym (take-take i q.size (held q.bytes) (omega arith))
                  ∙ sym (append-nil _)
                  ∙ ap (λ t. take i (contents q) ++ t) (sym (drop_all (i + n) (contents q) z)),
            )
    ]

module _ {σ : Type 0} (host : Host σ) (collect : Allocator σ → Allocator σ) where
  -- For a well-formed blob of less than 2 ^ 63 bytes, an offset and a count within it, and a
  -- host that keeps the bytes of a block, unc0_blobdel always succeeds, whether or not it
  -- gives memory back: the blob is well-formed, and its contents are the old ones without
  -- these bytes.
  pub blobdel-drop :
      (a : Allocator σ) (q : Blob) (i n : ℕ)
      → KeepsBytes host
      → IsBlob q
      → q.size < 2 ^ 63
      → i + n ≤ q.size
      → let r = blobdel host collect a q i n in
        (r.2 ≡ 0) × IsBlob r.1 × (contents r.1 ≡ take i (contents q) ++ drop (i + n) (contents q))
  unfolding blobdel Shut
  blobdel-drop a q i n k w h b =
      let e : ltb q.size ((i + n) % 2 ^ 64) ≡ false = ground arith in
      let (m, t) = shut_holds q i n w b (omega arith) in
      let double : (q.size - n) * 2 % 2 ^ 64 ≡ (q.size - n) * 2 = omega arith in
      elim (Bool-cases (ltb ((q.size - n) * 2) q.capacity)) [
        | inl y ↦
            let c : (q.size - n) * 2 < q.capacity = ground arith in
            let (l, same) =
              invokealloc_shrinks host collect a (shut q i n) q.capacity (q.capacity / 2) k
                (omega arith) m in
            rw (e, double, y)
              (
                refl,
                (omega arith, l),
                sym (take-take (q.size - n) (q.capacity / 2) _ (omega arith))
                    ∙ ap (take (q.size - n)) same
                    ∙ take-take (q.size - n) (q.capacity / 2) _ (omega arith)
                    ∙ t,
              )
        | inr y ↦ rw (e, double, y) (refl, (omega arith, m), t)
      ]
