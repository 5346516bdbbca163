-- ===== src/Memory.antt =====
-- The allocator of src/umem.c. The host's allocation function is a parameter with a state of its
-- own, and so is the garbage collector that is run when it fails; a block is the list of its
-- bytes, `none` a null pointer.
pub mod Contract
use uncil.Prelude.{ℕ, ◌+◌, ◌-◌, ◌%◌, ◌^◌, List, Option, none, some, [], ltb, ◌==◌, if◌then◌else◌}

-- Unc_Allocator: what the host keeps, and the bytes that are in use, an unsigned 64-bit count
pub record Allocator (σ : Type 0) : Type 0 where
  pub state : σ
  pub total : ℕ

abbrev pub Host : Type 0 → Type 0
Host σ = σ → ℕ → ℕ → Option (List ℕ) → σ × Option (List ℕ)

-- The bytes behind a pointer.
abbrev pub held : Option (List ℕ) → List ℕ
held none = []
held (some p) = p

-- `total -= n`
unfoldable pub released : {σ : Type 0} → Allocator σ → ℕ → Allocator σ
released a n = record { state = a.state; total = (a.total + (2 ^ 64 - n)) % 2 ^ 64 }

-- `if (ptr) total += sz1 - sz0;`
unfoldable pub grown :
    {σ : Type 0} → Allocator σ → ℕ → ℕ → Option (List ℕ) → Allocator σ × Option (List ℕ)
grown a sz0 sz1 none = (a, none)
grown a sz0 sz1 (some q) =
    (record { state = a.state; total = (a.total + (sz1 + (2 ^ 64 - sz0))) % 2 ^ 64 }, some q)

module _ {σ : Type 0} (host : Host σ) (collect : Allocator σ → Allocator σ) where
  -- `alloc->fn(alloc->data, purpose, sz0, sz1, optr)`
  unfoldable pub call_host : Allocator σ → Option (List ℕ) → ℕ → ℕ → Allocator σ × Option (List ℕ)
  call_host a p sz0 sz1 =
      let r = host a.state sz0 sz1 p in (record { state = r.0; total = a.total }, r.1)

  -- unc0_invokealloc, which unc0_malloc, unc0_mrealloc and unc0_mfree call
  unfoldable pub invokealloc : Allocator σ → Option (List ℕ) → ℕ → ℕ → Allocator σ × Option (List ℕ)
  invokealloc a p sz0 sz1 =
      let first = call_host a p sz0 sz1 in
      let again = call_host (collect first.0) p sz0 sz1 in
      if sz0 == sz1
      then (a, p)
      else if sz1 == 0
      then (released first.0 sz0, none)
      else elim first.1 [
        | some q ↦ grown first.0 sz0 sz1 (some q)
        | none ↦
            if ltb sz1 sz0 then (released first.0 (sz0 - sz1), p) else grown again.0 sz0 sz1 again.1
      ]
