-- ===== src/Blob/Tests.antt =====
-- A host that never runs out of memory, and the functions of src/ublob.c on it.
use uncil.Prelude.{set}
use uncil.Prelude.{
  ℕ, suc, ◌-◌, ◌≡◌, ◌≢◌, ◌⊎◌, refl, sym, ◌∙◌, arith, min, List, [], ◌∷◌, ◌++◌, none, some, ◌==◌,
  if◌then◌else◌, true, false, Bool-cases, inl, inr, length, take, drop, replicate, length-take,
  length-append, length-replicate, take-append_le, take-take,
}
use uncil.Prelude.Int.{negsuc, bits}
use uncil.Memory.{Allocator, Host, held, released, grown, call_host, invokealloc}
use uncil.Memory.Contract.{KeepsBytes}
use uncil.Blob.{
  Blob, write, move, on_bytes, reserve, commit, blobadd, blobins, blobdel, blobeq, cmpblob,
}
use uncil.Blob.Contents.{IsBlob, contents, Outcome}
use uncil.Blob.Append.{blobadd-append}
use uncil.Blob.Delete.{blobdel-drop}
use uncil.Blob.Index.{blsetbyte, blsetbyte-contents}
use uncil.Blob.Compare.{lex, cmpblob-lex, blobeq-contents}

-- It counts its calls, and a new block is filled up with zeros.
abbrev zeroing : Host ℕ
zeroing st sz0 sz1 p = (
  suc st,
  if sz1 == 0 then none else some (take sz1 (held p) ++ replicate (sz1 - length (held p)) 0),
)

some_inj : {x y : List ℕ} → some x ≡ some y → x ≡ y
some_inj e = cc

zeroing-KeepsBytes : KeepsBytes zeroing
zeroing-KeepsBytes st sz0 sz1 p q w e = elim (Bool-cases (sz1 == 0)) [
  | inl y ↦ cc (rw y at e)
  | inr n ↦
      let zeros : List ℕ = replicate (sz1 - length (held p)) 0 in
      let f : take sz1 (held p) ++ zeros ≡ q = some_inj (rw n at e) in
      let l : length (take sz1 (held p)) ≡ min sz1 (length (held p)) =
        length-take {0} sz1 (held p) in
      let z : ℕ = 0 in
      let m = length-append {0} (take sz1 (held p)) zeros in
      let r = length-replicate {0} (sz1 - length (held p)) z in
      rw (sym f) (
        omega arith,
        take-append_le (min sz0 sz1) (take sz1 (held p)) zeros (omega arith)
            ∙ take-take (min sz0 sz1) sz1 (held p) (omega arith),
      )
]

abbrev fresh : Allocator ℕ
fresh = record { state = 0; total = 4 }

abbrev idle : Allocator ℕ → Allocator ℕ
idle a = a

-- Five bytes of capacity of which four are in use.
abbrev four : Blob
four = record { size = 4; capacity = 5; bytes = some (1 ∷ 2 ∷ 3 ∷ 4 ∷ 9 ∷ []) }

four-IsBlob : IsBlob four
four-IsBlob = (omega arith, omega arith)

-- An insertion in the middle loses the last byte of the contents, and takes one from behind them.
loses_tail : contents (blobins zeroing idle fresh four 1 (7 ∷ [])).1 ≡ 1 ∷ 7 ∷ 2 ∷ 3 ∷ 9 ∷ []
unfolding blobins reserve commit on_bytes move write
loses_tail = refl

deletes : contents (blobdel zeroing idle fresh four 1 2).1 ≡ 1 ∷ 4 ∷ []
unfolding blobdel on_bytes move write invokealloc call_host grown released
deletes = refl

blobadd-append_example :
    Outcome four (contents four ++ 7 ∷ 8 ∷ []) (blobadd zeroing idle fresh four (7 ∷ 8 ∷ []))
blobadd-append_example =
    blobadd-append zeroing idle fresh four (7 ∷ 8 ∷ []) zeroing-KeepsBytes four-IsBlob (omega arith)

blobdel-drop_example :
    let r = blobdel zeroing idle fresh four 1 2 in
    (r.2 ≡ 0) × IsBlob r.1 × (contents r.1 ≡ take 1 (contents four) ++ drop 3 (contents four))
blobdel-drop_example =
    blobdel-drop zeroing idle fresh four 1 2 zeroing-KeepsBytes four-IsBlob (omega arith)
      (omega arith)

abbrev other : Blob
other = record { size = 2; capacity = 2; bytes = some (1 ∷ 3 ∷ []) }

other-IsBlob : IsBlob other
other-IsBlob = (omega arith, omega arith)

cmpblob-lex_example : cmpblob four other ≡ some (lex (contents four) (contents other))
cmpblob-lex_example = cmpblob-lex four other four-IsBlob other-IsBlob

blobeq-contents_example :
    ((blobeq four other ≡ some true) × (contents four ≡ contents other))
    ⊎ ((blobeq four other ≡ some false) × (contents four ≢ contents other))
blobeq-contents_example = blobeq-contents four other four-IsBlob other-IsBlob

blsetbyte-contents_example :
    let r = blsetbyte four (0, negsuc 3) (0, negsuc 0) in
    (r.1 ≡ 0) × IsBlob r.0 × (contents r.0 ≡ set (contents four) 0 255)
unfolding bits
blsetbyte-contents_example =
    blsetbyte-contents four (negsuc 3) (negsuc 0) four-IsBlob (omega arith) (omega arith)
      (omega arith)
