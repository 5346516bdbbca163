-- ===== src/Blob/Append.antt =====
-- What unc0_blobadd, unc0_blobaddn and unc0_initblob make of the contents of a blob.
use uncil.Prelude.{
  ℕ, ◌+◌, ◌%◌, ◌^◌, ◌≤◌, ◌≡◌, ap, ◌∙◌, arith, List, ◌++◌, length, take, replicate, length-append,
  length-replicate,
}
use uncil.Memory.{Allocator, Host}
use uncil.Memory.Contract.{KeepsBytes}
use uncil.Blob.{Blob, write, reserve, commit, blobadd, blobaddn}
use uncil.Blob.Contents.{
  IsBlob, contents, Outcome, length-contents, length-write, take-write, reserve_holds, reserve_full,
  commit-Outcome,
}

-- Writing behind the contents appends.
pub append_makes :
    (q : Blob) (b p : List ℕ)
    → IsBlob q
    → length (contents q ++ b) ≤ length p
    → take q.size p ≡ contents q
    → (length p ≤ length (write q.size b p))
      × (take (length (contents q ++ b)) (write q.size b p) ≡ contents q ++ b)
append_makes q b p w h s =
    let n : length (contents q ++ b) ≡ q.size + length b =
      omega (arith, length-append {0} (contents q) b, length-contents q w) in
    (
      omega (arith, length-write q.size b p (omega arith)),
      rw n (take-write q.size b p (omega arith) ∙ ap (λ (t : List ℕ). t ++ b) s),
    )

module _ {σ : Type 0} (host : Host σ) (collect : Allocator σ → Allocator σ) where
  add-Outcome :
      (a : Allocator σ) (q : Blob) (b : List ℕ) (ns : ℕ)
      → KeepsBytes host
      → IsBlob q
      → ns + 64 ≤ 2 ^ 64
      → ns ≡ length (contents q ++ b)
      → Outcome q
          (contents q ++ b)
          (commit host collect (λ p. write q.size b p) q ns (reserve host collect a q ns))
  add-Outcome a q b ns k w h e = rw e (
      commit-Outcome host collect q (contents q ++ b) (λ p. write q.size b p)
        (reserve host collect a q (length (contents q ++ b))) (λ p r s. append_makes q b p w r s)
        (reserve_full host collect a q (length (contents q ++ b)))
        (λ q' g. reserve_holds host collect a q q' (length (contents q ++ b)) k w (omega arith) g))

  -- For a well-formed blob and bytes whose joint size stays 64 below 2 ^ 64, and a host that
  -- keeps the bytes of a block, unc0_blobadd gives a well-formed blob whose contents are the
  -- old ones followed by these bytes; or, only where the capacity is too small, it runs out of
  -- memory and leaves the blob as it is.
  pub blobadd-append :
      (a : Allocator σ) (q : Blob) (b : List ℕ)
      → KeepsBytes host
      → IsBlob q
      → q.size + length b + 64 ≤ 2 ^ 64
      → Outcome q (contents q ++ b) (blobadd host collect a q b)
  unfolding blobadd
  blobadd-append a q b k w h =
      let l = length-append {0} (contents q) b in
      let m = length-contents q w in
      add-Outcome a q b ((q.size + length b) % 2 ^ 64) k w (omega arith) (omega arith)

  -- For a well-formed blob whose size and `n` together stay 64 below 2 ^ 64, and a host that
  -- keeps the bytes of a block, unc0_blobaddn gives a well-formed blob whose contents are the
  -- old ones followed by `n` zeros; or, only where the capacity is too small, it runs out of
  -- memory and leaves the blob as it is.
  blobaddn-append :
      (a : Allocator σ) (q : Blob) (n : ℕ)
      → KeepsBytes host
      → IsBlob q
      → q.size + n + 64 ≤ 2 ^ 64
      → Outcome q (contents q ++ replicate n 0) (blobaddn host collect a q n)
  unfolding blobaddn
  blobaddn-append a q n k w h =
      let l = length-append {0} (contents q) (replicate n 0) in
      let m = length-contents q w in
      let r = (let z : ℕ = 0 in length-replicate {0} n z) in
      add-Outcome a q (replicate n 0) ((q.size + n) % 2 ^ 64) k w (omega arith) (omega arith)
