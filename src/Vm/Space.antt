-- ===== src/Vm/Space.antt =====
-- Whole address spaces of src/vm.c: made, grown, copied and freed.
--
-- An answer is the address of a page directory or a size, and 0 when there is no memory.
use a3team_os.Base.{
  ℕ, zero, suc, ◌+◌, ◌-◌, ◌*◌, ◌/◌, ◌%◌, ◌^◌, true, false, not, Option, none, some, List, [], ◌∷◌,
  ltb, leb, ◌==◌, if◌then◌else◌,
}
use a3team_os.Memory.{load32, memset, memmove}
use a3team_os.Kalloc.{Kmem, pgsize, kernbase, phystop, v2p, pg_round_up, kalloc, kfree}
use a3team_os.Vm.{
  p2v, pte_addr, pte_flags, is_present, user_page, walkpgdir, Mapped, and_then, mappages,
  deallocuvm,
}

-- `struct kmap`
pub record Kmap : Type 0 where
  pub virt : ℕ
  pub phys_start : ℕ
  pub phys_end : ℕ
  pub perm : ℕ

abbrev pub extmem : ℕ
extmem = 0x100000

abbrev pub kernlink : ℕ
kernlink = kernbase + extmem

abbrev pub devspace : ℕ
devspace = 0xFE000000

-- The kernel's mappings; the second flag is `PTE_W`.
abbrev pub kmap : (data_start : ℕ) → List Kmap
kmap data_start =
    record { virt = kernbase; phys_start = 0; phys_end = extmem; perm = 2 }
    ∷ record { virt = kernlink; phys_start = v2p kernlink; phys_end = v2p data_start; perm = 0 }
    ∷ record { virt = data_start; phys_start = v2p data_start; phys_end = phystop; perm = 2 }
    ∷ record { virt = devspace; phys_start = devspace; phys_end = 0; perm = 2 }
    ∷ []

-- A kernel with an answer.
abbrev pub Answer : Type 0
Answer = Option (Kmem × ℕ)

abbrev pub answer : ℕ → Option Kmem → Answer
answer n none = none
answer n (some k) = some (k, n)

abbrev pub then_do : Option Kmem → (Kmem → Option Kmem) → Option Kmem
then_do none f = none
then_do (some k) f = f k

-- The loop of `setupkvm`.
unfoldable pub map_kernel : List Kmap → (pgdir : ℕ) → Kmem → Mapped
map_kernel [] pgdir k = some (k, true)
map_kernel (m ∷ ms) pgdir k =
    and_then
      (mappages k pgdir m.virt ((m.phys_end + (2 ^ 32 - m.phys_start)) % 2 ^ 32) m.phys_start
        m.perm)
      (map_kernel ms pgdir)

module _ (kernel_end data_start : ℕ) where
  abbrev pub kernel_of : Answer → Option Kmem
  kernel_of none = none
  kernel_of (some (k, n)) = some k

  -- The loop of `freevm`, with the rounds left, from entry `i` on.
  unfoldable pub free_tables : (n i : ℕ) → (pgdir : ℕ) → Kmem → Option Kmem
  free_tables zero i pgdir k = some k
  free_tables (suc n) i pgdir k =
      let e = load32 k.mem (pgdir + 4 * i) in
      let freed = then_do (kfree kernel_end k (p2v (pte_addr e))) (free_tables n (i + 1) pgdir) in
      let kept = free_tables n (i + 1) pgdir k in if is_present e then freed else kept

  unfoldable pub freevm : Kmem → (pgdir : ℕ) → Option Kmem
  freevm k pgdir =
      if pgdir == 0
      then none
      else then_do (kernel_of (deallocuvm kernel_end k pgdir kernbase 0))
          (λ k1. then_do (free_tables 1024 0 pgdir k1) (λ k2. kfree kernel_end k2 pgdir))

  abbrev pub setup_done : (pgdir : ℕ) → Mapped → Answer
  setup_done pgdir none = none
  setup_done pgdir (some (k, true)) = some (k, pgdir)
  setup_done pgdir (some (k, false)) = answer 0 (freevm k pgdir)

  abbrev pub setup_page : Kmem × ℕ → Answer
  setup_page (k, pgdir) =
      if pgdir == 0
      then some (k, 0)
      else if ltb devspace (p2v phystop)
      then none
      else setup_done pgdir
          (map_kernel (kmap data_start) pgdir (record k { mem = memset k.mem pgdir 0 pgsize }))

  unfoldable pub setupkvm : Kmem → Answer
  setupkvm k = setup_page (kalloc k)

  unfoldable pub inituvm : Kmem → (pgdir init sz : ℕ) → Option Kmem
  inituvm k pgdir init sz = if leb pgsize sz then none else start (kalloc k)
    where
      copy : ℕ → Mapped → Option Kmem
      copy mem none = none
      copy mem (some (k2, mapped)) = some (record k2 { mem = memmove k2.mem mem init sz })

      start : Kmem × ℕ → Option Kmem
      start (k1, mem) = copy mem (
          mappages (record k1 { mem = memset k1.mem mem 0 pgsize }) pgdir 0 pgsize (v2p mem)
            user_page)

  -- One page of `allocuvm`; `undo` is what it does when it cannot go on.
  abbrev pub grown : (mem : ℕ) → (undo : Kmem → Option Kmem) → (Kmem → Answer) → Mapped → Answer
  grown mem undo next none = none
  grown mem undo next (some (k, true)) = next k
  grown mem undo next (some (k, false)) =
      answer 0 (then_do (undo k) (λ k1. kfree kernel_end k1 mem))

  abbrev pub grow :
      (pgdir a : ℕ) → (undo : Kmem → Option Kmem) → (Kmem → Answer) → Kmem × ℕ → Answer
  grow pgdir a undo next (k, mem) =
      if mem == 0
      then answer 0 (undo k)
      else grown mem undo next (
          mappages (record k { mem = memset k.mem mem 0 pgsize }) pgdir a pgsize (v2p mem)
            user_page)

  -- The loop of `allocuvm`, with the rounds left.
  unfoldable pub alloc_loop : (n : ℕ) → (pgdir oldsz newsz a : ℕ) → Kmem → Answer
  alloc_loop zero pgdir oldsz newsz a k = some (k, newsz)
  alloc_loop (suc n) pgdir oldsz newsz a k =
      grow pgdir a (λ k1. kernel_of (deallocuvm kernel_end k1 pgdir newsz oldsz))
        (alloc_loop n pgdir oldsz newsz (a + pgsize)) (kalloc k)

  unfoldable pub allocuvm : Kmem → (pgdir oldsz newsz : ℕ) → Answer
  allocuvm k pgdir oldsz newsz =
      if leb kernbase newsz
      then some (k, 0)
      else if ltb newsz oldsz
      then some (k, oldsz)
      else alloc_loop ((newsz + (pgsize - 1) - pg_round_up oldsz) / pgsize) pgdir oldsz newsz
          (pg_round_up oldsz) k

  -- One page of `copyuvm`, at `i`, with entry `e` of the parent.
  abbrev pub copied : (d mem : ℕ) → (Kmem → Answer) → Mapped → Answer
  copied d mem next none = none
  copied d mem next (some (k, true)) = next k
  copied d mem next (some (k, false)) =
      answer 0 (then_do (kfree kernel_end k mem) (λ k1. freevm k1 d))

  abbrev pub copy_one : (d i e : ℕ) → (Kmem → Answer) → Kmem × ℕ → Answer
  copy_one d i e next (k, mem) =
      if mem == 0
      then answer 0 (freevm k d)
      else copied d mem next (
          mappages (record k { mem = memmove k.mem mem (p2v (pte_addr e)) pgsize }) d i pgsize
            (v2p mem) (pte_flags e))

  -- The loop of `copyuvm`, with the rounds left.
  unfoldable pub copy_pages : (n : ℕ) → (pgdir d i : ℕ) → Kmem → Answer
  copy_pages zero pgdir d i k = some (k, d)
  copy_pages (suc n) pgdir d i k =
      let pte = (walkpgdir false k pgdir i).1 in
      let e = load32 k.mem pte in
      let rest = copy_one d i e (copy_pages n pgdir d (i + pgsize)) (kalloc k) in
      if pte == 0 then none else if not (is_present e) then none else rest

  abbrev pub copy_into : (pgdir sz : ℕ) → Answer → Answer
  copy_into pgdir sz none = none
  copy_into pgdir sz (some (k, d)) =
      if d == 0 then some (k, 0) else copy_pages ((sz + (pgsize - 1)) / pgsize) pgdir d 0 k

  unfoldable pub copyuvm : Kmem → (pgdir sz : ℕ) → Answer
  copyuvm k pgdir sz = copy_into pgdir sz (setupkvm k)
