-- ===== src/Kalloc.antt =====
-- The physical page allocator, src/kalloc.c: a list of free pages, linked through the pages.
--
-- The lock is not modelled: each function runs to its end as one step. The address `end`, where the
-- loaded kernel stops, comes from the linker and is the parameter `kernel_end`.
pub mod FreeList
pub mod Range
mod Tests
use a3team_os.Base.{
  ℕ, zero, suc, ◌+◌, ◌-◌, ◌*◌, ◌/◌, ◌%◌, ◌^◌, Bool, true, false, not, ◌||◌, Option, none, some, ltb,
  leb, ◌==◌, if◌then◌else◌,
}
use a3team_os.Memory.{Mem, load32, store32, memset}

abbrev pub pgsize : ℕ
pgsize = 4096

abbrev pub kernbase : ℕ
kernbase = 0x80000000

abbrev pub phystop : ℕ
phystop = 0xE000000

-- `V2P`, a difference of two `uint`s.
abbrev pub v2p : ℕ → ℕ
v2p a = (a + (2 ^ 32 - kernbase)) % 2 ^ 32

-- `PGROUNDUP`: the mask `~(PGSIZE - 1)` clears the low twelve bits.
abbrev pub pg_round_up : ℕ → ℕ
pg_round_up a = (a + pgsize - 1) / pgsize * pgsize

pub record Kmem : Type 0 where
  pub freelist : ℕ
  pub mem : Mem

module _ (kernel_end : ℕ) where
  -- `none` is the panic.
  unfoldable pub kfree : Kmem → ℕ → Option Kmem
  kfree k v =
      if not (v % pgsize == 0) || (ltb v kernel_end || leb phystop (v2p v))
      then none
      else some (record { freelist = v; mem = store32 (memset k.mem v 1 pgsize) v k.freelist })

  -- `for (; p + PGSIZE <= vend; p += PGSIZE) kfree(p);`, on fuel, without which there is no result.
  unfoldable pub free_pages : (fuel : ℕ) → Kmem → (p vend : ℕ) → Option Kmem
  free_pages zero k p vend = none
  free_pages (suc n) k p vend =
      let next = (p + pgsize) % 2 ^ 32 in
      if leb next vend
      then (elim (kfree k p) [ none ↦ none | some k' ↦ free_pages n k' next vend ])
      else some k

  -- There are `2 ^ 20` pages.
  unfoldable pub freerange : Kmem → (vstart vend : ℕ) → Option Kmem
  freerange k vstart vend = free_pages (2 ^ 20) k (pg_round_up vstart % 2 ^ 32) vend

-- The address 0 when no page is left.
unfoldable pub kalloc : Kmem → Kmem × ℕ
kalloc k =
    let r = k.freelist in if r == 0 then (k, r) else (record k { freelist = load32 k.mem r }, r)
