-- ===== src/Blob/Insert.antt =====
-- What unc0_blobins makes of the contents of a blob: it inserts at their end only.
use uncil.Prelude.{
  ℕ, ◌+◌, ◌-◌, ◌%◌, ◌^◌, ◌≤◌, ◌<◌, ◌≡◌, refl, arith, List, ◌++◌, ltb, false, length, take, drop,
  length-append,
}
use uncil.Memory.{Allocator, Host}
use uncil.Memory.Contract.{KeepsBytes}
use uncil.Blob.{Blob, write, reserve, commit, blobins}
use uncil.Blob.Contents.{
  IsBlob, contents, Outcome, length-contents, reserve_holds, reserve_full, commit-Outcome,
}
use uncil.Blob.Append.{append_makes}

-- An insertion before the end, in a block with room: `k` of the bytes behind the place are moved.
module _ (s i : ℕ) (b p : List ℕ) (h : i + length b < s) (w : s + length b ≤ length p) where
  abbrev k : ℕ
  k = s - length b - i

  abbrev moved : List ℕ
  moved = take k (drop i p)

  abbrev block : List ℕ
  block = write (i + length b) moved p

module _ {σ : Type 0} (host : Host σ) (collect : Allocator σ → Allocator σ) where
  ins-Outcome :
      (a : Allocator σ) (q : Blob) (i : ℕ) (b : List ℕ) (ns : ℕ)
      → KeepsBytes host
      → IsBlob q
      → ns + 64 ≤ 2 ^ 64
      → ns ≡ length (contents q ++ b)
      → i ≡ q.size
      → Outcome q
          (contents q ++ b)
          (commit host collect (λ p. write i b p) q ns (reserve host collect a q ns))
  ins-Outcome a q i b ns k w h e f =
      rw (e, f)
        (commit-Outcome host collect q (contents q ++ b) (λ p. write q.size b p)
          (reserve host collect a q (length (contents q ++ b))) (λ p r s. append_makes q b p w r s)
          (reserve_full host collect a q (length (contents q ++ b)))
          (λ q' g.
            reserve_holds host collect a q q' (length (contents q ++ b)) k w (omega arith) g))

  -- For a well-formed blob and bytes whose joint size stays 64 below 2 ^ 64, and a host that
  -- keeps the bytes of a block, unc0_blobins at the end of the contents appends as
  -- unc0_blobadd does.
  blobins_at_end :
      (a : Allocator σ) (q : Blob) (b : List ℕ)
      → KeepsBytes host
      → IsBlob q
      → q.size + length b + 64 ≤ 2 ^ 64
      → Outcome q (contents q ++ b) (blobins host collect a q q.size b)
  unfolding blobins
  blobins_at_end a q b k w h =
      let l = length-append {0} (contents q) b in
      let m = length-contents q w in
      let no : ltb ((q.size + length b) % 2 ^ 64) q.size ≡ false = ground arith in
      rw no (
        ins-Outcome a q q.size b ((q.size + length b) % 2 ^ 64) k w (omega arith) (omega arith)
          refl)
