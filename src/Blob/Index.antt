-- ===== src/Blob/Index.antt =====
-- The index getter and setter of src/ublob.c. What unc0_vgetint of the virtual machine makes of
-- the index and of the value is an argument: its status and the integer.
use uncil.Prelude.{
  ℕ, zero, suc, ◌+◌, ◌-◌, ◌%◌, ◌^◌, ◌<◌, ◌≡◌, refl, ap, arith, Bool, false, not, ◌||◌, Option, none,
  some, List, [], ◌∷◌, leb, ◌==◌, if◌then◌else◌, length, take, get_or, set, length-set,
}
use uncil.Prelude.Int.{ℤ, pos, negsuc, ltb_ℤ, bits, signed}
use uncil.Memory.{held}
use uncil.Blob.{Blob, on_bytes}
use uncil.Blob.Contents.{IsBlob, contents}

-- UNCIL_ERR_ARG_INDEXOUTOFBOUNDS, UNCIL_ERR_ARG_INDEXNOTINTEGER and UNCIL_ERR_CONVERT_TOINT
abbrev err_arg_indexoutofbounds : ℕ
err_arg_indexoutofbounds = 0x0405

abbrev err_arg_indexnotinteger : ℕ
err_arg_indexnotinteger = 0x0406

abbrev err_convert_toint : ℕ
err_convert_toint = 0x0502

-- What is left in `out`: nothing, null or an integer
pub data Out : Type 0 where
  unset : Out
  null : Out
  int : ℕ → Out

-- `if (i < 0) i += a->size;` in unsigned arithmetic
unfoldable pub from_end : ℤ → ℕ → ℤ
from_end i n = if ltb_ℤ i (pos 0) then signed ((bits i + n) % 2 ^ 64) else i

-- `i < 0 || (Unc_UInt)i >= a->size`
unfoldable pub outside : ℤ → ℕ → Bool
outside i n = ltb_ℤ i (pos 0) || leb n (bits i)

unfoldable pub index_error : ℕ → ℕ
index_error e = if e == err_convert_toint then err_arg_indexnotinteger else e

-- unc0_blgetbyte
unfoldable pub blgetbyte : Blob → ℕ × ℤ → Bool → ℕ × Out
blgetbyte q (e, i) permissive =
    let j = from_end i q.size in
    if not (e == 0)
    then (index_error e, unset)
    else if outside j q.size
    then (if permissive then (0, null) else (err_arg_indexoutofbounds, unset))
    else (0, int (get_or (held q.bytes) (bits j) 0))

-- unc0_blsetbyte
unfoldable pub blsetbyte : Blob → ℕ × ℤ → ℕ × ℤ → Blob × ℕ
unfolding on_bytes
blsetbyte q (e, i) (e', v) =
    let j = from_end i q.size in
    if not (e == 0)
    then (q, index_error e)
    else if outside j q.size
    then (q, err_arg_indexoutofbounds)
    else if not (e' == 0)
    then (q, e')
    else if ltb_ℤ v (negsuc 127) || ltb_ℤ (pos 255) v
    then (q, err_convert_toint)
    else (
      record {
        size = q.size;
        capacity = q.capacity;
        bytes = on_bytes (λ p. set p (bits j) (bits v % 256)) q.bytes;
      },
      0,
    )

-- The offset of index `i`, which counts from the end where it is negative.
abbrev pub offset : ℤ → ℕ → ℕ
offset (pos i) n = i
offset (negsuc i) n = n - suc i

abbrev pub InRange : ℤ → ℕ → Type 0
InRange (pos i) n = i < n
InRange (negsuc i) n = i < n

from_end-offset : (i : ℤ) (n : ℕ) → n < 2 ^ 63 → InRange i n → from_end i n ≡ pos (offset i n)
unfolding from_end bits signed
from_end-offset (pos i) n h r = ground arith
from_end-offset (negsuc i) n h r = ground arith

outside-offset : (i : ℤ) (n : ℕ) → n < 2 ^ 63 → InRange i n → outside (pos (offset i n)) n ≡ false
unfolding outside bits
outside-offset (pos i) n h r = ground arith
outside-offset (negsuc i) n h r = ground arith

offset-lt : (i : ℤ) (n : ℕ) → InRange i n → offset i n < n
offset-lt (pos i) n r = r
offset-lt (negsuc i) n r = omega arith

take-set : (n i v : ℕ) (xs : List ℕ) → i < n → take n (set xs i v) ≡ set (take n xs) i v
take-set zero i v xs h = absurd (omega arith)
take-set (suc n) i v [] h = refl
take-set (suc n) zero v (x ∷ xs) h = refl
take-set (suc n) (suc i) v (x ∷ xs) h = ap (λ (t : List ℕ). x ∷ t) (take-set n i v xs (omega arith))

get_or-take : (n i d : ℕ) (xs : List ℕ) → i < n → get_or (take n xs) i d ≡ get_or xs i d
get_or-take zero i d xs h = absurd (omega arith)
get_or-take (suc n) i d [] h = refl
get_or-take (suc n) zero d (x ∷ xs) h = refl
get_or-take (suc n) (suc i) d (x ∷ xs) h = get_or-take n i d xs (omega arith)

bits_small : (n : ℕ) → n < 2 ^ 63 → bits (pos n) ≡ n
unfolding bits
bits_small n h = omega arith

abbrev byte_of : ℤ → ℕ
byte_of v = bits v % 256

-- A value from -128 to 255.
abbrev pub IsByte : ℤ → Type 0
IsByte (pos v) = v < 256
IsByte (negsuc v) = v < 128

not_outside : (v : ℤ) → IsByte v → ltb_ℤ v (negsuc 127) || ltb_ℤ (pos 255) v ≡ false
not_outside (pos v) h = ground arith
not_outside (negsuc v) h = ground arith

contents-set :
    (n i v : ℕ) (d : Option (List ℕ))
    → i < n
    → take n (held (on_bytes (λ p. set p i v) d)) ≡ set (take n (held d)) i v
unfolding on_bytes
contents-set zero i v d h = absurd (omega arith)
contents-set (suc n) i v none h = refl
contents-set (suc n) i v (some p) h = take-set (suc n) i v p h

length-on_bytes :
    (i v : ℕ) (d : Option (List ℕ)) → length (held (on_bytes (λ p. set p i v) d)) ≡ length (held d)
unfolding on_bytes
length-on_bytes i v none = refl
length-on_bytes i v (some p) = length-set p i v

-- For a blob of less than 2 ^ 63 bytes and an index from minus its size to one less than its
-- size, unc0_blgetbyte gives the byte of the contents at the index, or at the size plus the
-- index where that is negative.
blgetbyte-contents :
    (q : Blob) (i : ℤ) (permissive : Bool)
    → q.size < 2 ^ 63
    → InRange i q.size
    → blgetbyte q (0, i) permissive ≡ (0, int (get_or (contents q) (offset i q.size) 0))
unfolding blgetbyte
blgetbyte-contents q i permissive h r =
    let l = offset-lt i q.size r in
    rw
      (
        from_end-offset i q.size h r,
        outside-offset i q.size h r,
        bits_small (offset i q.size) (omega arith),
        get_or-take q.size (offset i q.size) 0 (held q.bytes) l,
      )
      refl

-- For a well-formed blob of less than 2 ^ 63 bytes, an index from minus its size to one less
-- than its size, and a value from -128 to 255, unc0_blsetbyte returns 0 and a well-formed blob
-- whose contents are the old ones with the value's low eight bits at that index, counted from
-- the end where it is negative.
pub blsetbyte-contents :
    (q : Blob) (i v : ℤ)
    → IsBlob q
    → q.size < 2 ^ 63
    → InRange i q.size
    → IsByte v
    → let r = blsetbyte q (0, i) (0, v) in
      (r.1 ≡ 0) × IsBlob r.0 × (contents r.0 ≡ set (contents q) (offset i q.size) (bits v % 256))
unfolding blsetbyte
blsetbyte-contents q i v w h r b =
    let l = offset-lt i q.size r in
    let n = length-on_bytes (offset i q.size) (bits v % 256) q.bytes in
    rw
      (
        from_end-offset i q.size h r,
        outside-offset i q.size h r,
        bits_small (offset i q.size) (omega arith),
        not_outside v b,
      )
      (
        refl,
        (w.0, omega (arith, n, w.1)),
        contents-set q.size (offset i q.size) (bits v % 256) q.bytes l,
      )
