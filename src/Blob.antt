-- ===== src/Blob.antt =====
-- The byte buffers of src/ublob.c over the allocator of src/umem.c, without their locks. A
-- function that can fail returns the allocator, the blob and its status.
pub mod Contents
pub mod Append
pub mod Delete
pub mod Compare
pub mod Insert
pub mod Index
mod Tests
use uncil.Prelude.{
  ℕ, zero, suc, ◌+◌, ◌-◌, ◌*◌, ◌/◌, ◌%◌, ◌^◌, min, List, [], ◌∷◌, ◌++◌, Option, none, some, ltb,
  leb, ◌==◌, if◌then◌else◌, length, take, drop, replicate, Bool, true, false, not,
}
use uncil.Prelude.Int.{ℤ, pos, negsuc, ltb_ℤ, eqb_ℤ}
use uncil.Memory.{Allocator, Host, held, invokealloc}
use mathlib.Core.Option

-- Unc_Blob, with `bytes` for its `data`
pub record Blob : Type 0 where
  pub size : ℕ
  pub capacity : ℕ
  pub bytes : Option (List ℕ)

-- UNC_BLOB_BUFFER, UNCIL_ERR_MEM and UNCIL_ERR_ARG_OUTOFBOUNDS
abbrev pub blob_buffer : ℕ
blob_buffer = 64

abbrev pub err_mem : ℕ
err_mem = 0x0100

abbrev pub err_arg_outofbounds : ℕ
err_arg_outofbounds = 0x0403

-- unc0_memcpy of `b` to offset `i` of a block. Past the end of the block, where the C code does not
-- write in a well-formed blob, the list gets longer.
unfoldable pub write : ℕ → List ℕ → List ℕ → List ℕ
write i b p = take i p ++ b ++ drop (i + length b) p

-- unc0_memmove of `n` bytes from offset `from` to offset `to`
unfoldable pub move : ℕ → ℕ → ℕ → List ℕ → List ℕ
unfolding write
move to from n p = write to (take n (drop from p)) p

unfoldable pub on_bytes : (List ℕ → List ℕ) → Option (List ℕ) → Option (List ℕ)
on_bytes f none = none
on_bytes f (some p) = some (f p)

module _ {σ : Type 0} (host : Host σ) (collect : Allocator σ → Allocator σ) where
  -- `if (ns > c) { ... }`, with which the functions that add begin; `none` is a failed allocation
  unfoldable pub reserve : Allocator σ → Blob → ℕ → Allocator σ × Option Blob
  reserve a q ns =
      let nc = (ns + blob_buffer - 1) % 2 ^ 64 in
      let nc' = nc - nc % blob_buffer in
      let r = invokealloc host collect a q.bytes q.capacity nc' in
      if ltb q.capacity ns
      then elim r.1 [
        | none ↦ (r.0, none)
        | some p ↦ (r.0, some (record { size = q.size; capacity = nc'; bytes = some p }))
      ]
      else (a, some q)

  -- The rest of those functions: `f` is what they do to the bytes.
  unfoldable pub commit :
      (List ℕ → List ℕ) → Blob → ℕ → Allocator σ × Option Blob → Allocator σ × Blob × ℕ
  unfolding on_bytes
  commit f q ns (a, none) = (a, q, err_mem)
  commit f q ns (a, some q') =
      (a, record { size = ns; capacity = q'.capacity; bytes = on_bytes f q'.bytes }, 0)

  -- unc0_blobadd of the bytes `b`
  unfoldable pub blobadd : Allocator σ → Blob → List ℕ → Allocator σ × Blob × ℕ
  blobadd a q b =
      let ns = (q.size + length b) % 2 ^ 64 in commit (λ p. write q.size b p) q ns (reserve a q ns)

  -- unc0_blobaddn
  unfoldable pub blobaddn : Allocator σ → Blob → ℕ → Allocator σ × Blob × ℕ
  blobaddn a q n =
      let ns = (q.size + n) % 2 ^ 64 in
      commit (λ p. write q.size (replicate n 0) p) q ns (reserve a q ns)

  -- unc0_blobins of the bytes `b`
  unfoldable pub blobins : Allocator σ → Blob → ℕ → List ℕ → Allocator σ × Blob × ℕ
  unfolding move
  blobins a q i b =
      let n = length b in
      let ns = (q.size + n) % 2 ^ 64 in
      commit
        (λ p.
          write i b
            (if ltb ((i + n) % 2 ^ 64) q.size then move (i + n) i (q.size - n - i) p else p))
        q ns (reserve a q ns)

  -- unc0_blobinsn
  unfoldable pub blobinsn : Allocator σ → Blob → ℕ → ℕ → Allocator σ × Blob × ℕ
  blobinsn a q i n = blobins a q i (replicate n 0)

  -- unc0_blobdel
  unfoldable pub blobdel : Allocator σ → Blob → ℕ → ℕ → Allocator σ × Blob × ℕ
  unfolding on_bytes move
  blobdel a q i n =
      let shut =
        if ltb ((i + n) % 2 ^ 64) q.size
        then on_bytes (λ p. move i (i + n) (q.size - i - n) p) q.bytes
        else q.bytes in
      let size' = q.size - n in
      let nz = q.capacity / 2 in
      let r = invokealloc host collect a shut q.capacity nz in
      if ltb q.size ((i + n) % 2 ^ 64)
      then (a, q, err_arg_outofbounds)
      else if ltb (size' * 2 % 2 ^ 64) q.capacity
      then (r.0, record { size = size'; capacity = nz; bytes = r.1 }, 0)
      else (a, record { size = size'; capacity = q.capacity; bytes = shut }, 0)

  -- unc0_initblob of the bytes `b`; a blob without bytes has a null pointer
  unfoldable pub initblob : Allocator σ → List ℕ → Allocator σ × Blob × ℕ
  unfolding on_bytes
  initblob a b =
      let n = length b in
      let r = invokealloc host collect a none 0 n in
      let blank : Blob = record { size = n; capacity = n; bytes = none } in
      if n == 0 then (a, blank, 0) else elim r.1 [
        | none ↦ (r.0, blank, err_mem)
        | some p ↦ (r.0, record { size = n; capacity = n; bytes = some (write 0 b p) }, 0)
      ]

-- unc0_memcmp of src/umem.c; `none` is a read past the end
unfoldable pub memcmp : ℕ → List ℕ → List ℕ → Option ℤ
memcmp zero a b = some (pos 0)
memcmp (suc sz) [] b = none
memcmp (suc sz) (x ∷ a) [] = none
memcmp (suc sz) (x ∷ a) (y ∷ b) =
    let rest = memcmp sz a b in
    if x == y then rest else some (if ltb y x then pos (x - y) else negsuc (y - x - 1))

-- unc0_blobeq of two blobs at different addresses
unfoldable pub blobeq : Blob → Blob → Option Bool
blobeq a b =
    if not (a.size == b.size)
    then some false
    else if a.size == 0
    then some true
    else Option.map (λ r. eqb_ℤ r (pos 0)) (memcmp a.size (held a.bytes) (held b.bytes))

-- What unc0_cmpblob makes of the comparison of the bytes that both have.
unfoldable pub cmp_result : ℕ → ℕ → ℤ → ℤ
cmp_result m n r =
    if ltb_ℤ (pos 0) r
    then pos 1
    else if ltb_ℤ r (pos 0)
    then negsuc 0
    else if ltb n m
    then pos 1
    else if ltb m n
    then negsuc 0
    else pos 0

-- unc0_cmpblob
unfoldable pub cmpblob : Blob → Blob → Option ℤ
cmpblob a b =
    let ms = if ltb a.size b.size then a.size else b.size in
    Option.map (cmp_result a.size b.size) (memcmp ms (held a.bytes) (held b.bytes))
