-- ===== src/Vm/Grow.antt =====
-- `growproc` of src/proc.c and `sys_sbrk` of src/sysproc.c: the size of a process.
--
-- The size is that of the calling process, and `n` an `int` as its bit pattern. `none` is a panic.
pub mod Sizes
use a3team_os.Base.{
  ◌∙◌, ==_iff, ◌≢◌, ℕ, zero, suc, ◌+◌, ◌-◌, ◌/◌, ◌%◌, ◌^◌, ◌<◌, ◌≤◌, ◌≡◌, refl, subst, Bool, true,
  false, ◌⊎◌, inl, inr, Option, none, some, ltb, leb, ◌==◌, if◌then◌else◌, arith, Bool-cases,
  ltb→lt, le→ltb,
}
use a3team_os.Base.Maybe.{Each, Each-if, Each-weaken}
use a3team_os.Kalloc.{v2p, Kmem, pgsize, kernbase, pg_round_up, kalloc}
use a3team_os.Vm.{user_page, memset, mappages, deallocuvm, dealloc_loop, sized, Mapped}
use a3team_os.Vm.Space.{kernel_of, Answer, answer, grown, alloc_loop, allocuvm}

-- The new size, and whether the answer is 0.
abbrev pub Sized : Type 0
Sized = Option (Kmem × ℕ × Bool)

-- A size of 0 from the change of the address space is a failure.
abbrev pub resized : (sz : ℕ) → Answer → Sized
resized sz none = none
resized sz (some (k, n)) = if n == 0 then some (k, sz, false) else some (k, n, true)

module _ (kernel_end data_start : ℕ) where
  unfoldable pub growproc : Kmem → (pgdir sz n : ℕ) → Sized
  growproc k pgdir sz n =
      let newsz = (sz + n) % 2 ^ 32 in
      if n == 0
      then some (k, sz, true)
      else if ltb n (2 ^ 31)
      then resized sz (allocuvm kernel_end data_start k pgdir sz newsz)
      else resized sz (deallocuvm kernel_end k pgdir sz newsz)

  -- The answer is the old size, or -1.
  abbrev pub old_size : (sz : ℕ) → Sized → Option (Kmem × ℕ × ℕ)
  old_size sz none = none
  old_size sz (some (k, sz', true)) = some (k, sz', sz)
  old_size sz (some (k, sz', false)) = some (k, sz', 2 ^ 32 - 1)

  unfoldable pub sys_sbrk : Kmem → (pgdir sz : ℕ) → (arg : Option ℕ) → Option (Kmem × ℕ × ℕ)
  sys_sbrk k pgdir sz none = some (k, sz, 2 ^ 32 - 1)
  sys_sbrk k pgdir sz (some n) = old_size sz (growproc k pgdir sz n)
