-- ===== src/Slab/State.antt =====
-- `struct slab` and the constants of slab.h and mmu.h that slab.c uses.
use a3team_os.Base.{
  none, some, get_elem?, set, length, ltb, if◌then◌else◌, set, length, ltb, get_elem?,
  if◌then◌else◌, ℕ, ◌+◌, ◌-◌, ◌%◌, List,
}
use a3team_os.Slab.Bits.{int_mod}
use a3team_os.Kalloc.{Kmem}

abbrev pub pgsize : ℕ
pgsize = 4096

abbrev pub nslab : ℕ
nslab = 9

abbrev pub max_pages_per_slab : ℕ
max_pages_per_slab = 100

-- A counter is the bit pattern of its `int`. The bitmap is a page of bytes, and `page` the array of
-- `max_pages_per_slab` addresses; its entry 0 is not used.
pub record Slab : Type 0 where
  pub size : ℕ
  pub num_pages : ℕ
  pub num_free_objects : ℕ
  pub num_used_objects : ℕ
  pub num_objects_per_page : ℕ
  pub bitmap : List ℕ
  pub page : List ℕ

-- The table of the size classes, `stable`, and the page allocator under it.
pub record Kernel : Type 0 where
  pub kmem : Kmem
  pub slabs : List Slab

-- A read or a write outside an array of the allocator, or the panic of `kfree`, has no result.
pub data Outcome {ℓ} (A : Type ℓ) : Type ℓ where
  done : A → Outcome A
  fault : Outcome A

infixl 5 ◌>>=◌
abbrev pub ◌>>=◌ {ℓ κ} : {A : Type ℓ} {B : Type κ} → Outcome A → (A → Outcome B) → Outcome B
done a >>= f = f a
fault >>= f = fault

-- An element of an array, and the array after a write.
abbrev pub read {ℓ} : {A : Type ℓ} → List A → ℕ → Outcome A
read xs i = elim (get_elem? xs i) [ none ↦ fault | some x ↦ done x ]

abbrev pub write {ℓ} : {A : Type ℓ} → List A → ℕ → A → Outcome (List A)
write xs i v = if ltb i (length xs) then done (set xs i v) else fault

-- `x += 1` and `x -= 1` on an `int`
abbrev pub inc : ℕ → ℕ
inc x = (x + 1) % int_mod

abbrev pub dec : ℕ → ℕ
dec x = (x + (int_mod - 1)) % int_mod
