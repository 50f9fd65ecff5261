-- ===== src/Vm.antt =====
-- Page tables, src/vm.c, in the memory of the page allocator.
--
-- A page directory is the address of its page. `none` is a panic, or the fault of a null pointer that
-- is followed; the address 0 is a null pointer. The kernel's own mappings begin at addresses that the
-- linker gives: `kernel_end` is `end`, and `data` the start of the kernel's data.
pub mod Flags
pub mod Mapping
pub mod Unmap
pub mod Space
pub mod Grow
mod Tests
use a3team_os.Base.{
  ℕ, zero, suc, ◌+◌, ◌-◌, ◌*◌, ◌/◌, ◌%◌, ◌^◌, Bool, true, false, not, ◌||◌, Option, none, some,
  List, [], ◌∷◌, ltb, leb, ◌==◌, if◌then◌else◌, bit_or, min,
}
use a3team_os.Memory.{Mem, load32, store32, memset, memmove}
use a3team_os.Kalloc.{Kmem, pgsize, kernbase, phystop, v2p, pg_round_up, kalloc, kfree}

-- `P2V` on a `uint`
abbrev pub p2v : ℕ → ℕ
p2v a = (a + kernbase) % 2 ^ 32

-- `PDX`, `PTX` and `PGROUNDDOWN`
abbrev pub pdx : ℕ → ℕ
pdx va = va / 2 ^ 22 % 1024

abbrev pub ptx : ℕ → ℕ
ptx va = va / 2 ^ 12 % 1024

abbrev pub pg_round_down : ℕ → ℕ
pg_round_down a = a / pgsize * pgsize

-- `PTE_ADDR` and `PTE_FLAGS`, and the tests of `PTE_P` and `PTE_U`.
abbrev pub pte_addr : ℕ → ℕ
pte_addr e = e / pgsize * pgsize

abbrev pub pte_flags : ℕ → ℕ
pte_flags e = e % pgsize

abbrev pub is_present : ℕ → Bool
is_present e = e % 2 == 1

abbrev pub is_user : ℕ → Bool
is_user e = e / 4 % 2 == 1

-- `PTE_W|PTE_U`
abbrev pub user_page : ℕ
user_page = 6

-- The new page table of `walkpgdir`, with the flags `PTE_P|PTE_W|PTE_U`.
abbrev pub new_table : (pde va : ℕ) → Kmem × ℕ → Kmem × ℕ
new_table pde va (k, pgtab) = if pgtab == 0 then (k, 0) else (
  record k { mem = store32 (memset k.mem pgtab 0 pgsize) pde (bit_or 7 (v2p pgtab)) },
  pgtab + 4 * ptx va,
)

unfoldable pub walkpgdir : (alloc : Bool) → Kmem → (pgdir va : ℕ) → Kmem × ℕ
walkpgdir alloc k pgdir va =
    let pde = pgdir + 4 * pdx va in
    let e = load32 k.mem pde in
    if is_present e
    then (k, p2v (pte_addr e) + 4 * ptx va)
    else if not alloc
    then (k, 0)
    else new_table pde va (kalloc k)

-- A kernel with the answer whether there was memory.
abbrev pub Mapped : Type 0
Mapped = Option (Kmem × Bool)

-- `*pte = pa | perm | PTE_P;`
abbrev pub set_pte : (pa perm : ℕ) → Kmem × ℕ → Mapped
set_pte pa perm (k, pte) =
    if pte == 0
    then some (k, false)
    else if is_present (load32 k.mem pte)
    then none
    else some (record k { mem = store32 k.mem pte (bit_or 1 (bit_or perm pa)) }, true)

-- One round of the loop of `mappages`.
unfoldable pub map_page : Kmem → (pgdir a pa perm : ℕ) → Mapped
map_page k pgdir a pa perm = set_pte pa perm (walkpgdir true k pgdir a)

abbrev pub and_then : Mapped → (Kmem → Mapped) → Mapped
and_then none f = none
and_then (some (k, false)) f = some (k, false)
and_then (some (k, true)) f = f k

-- The loop of `mappages`, with the rounds left behind the first.
unfoldable pub map_loop : (n : ℕ) → (pgdir perm : ℕ) → (a pa : ℕ) → Kmem → Mapped
map_loop zero pgdir perm a pa k = map_page k pgdir a pa perm
map_loop (suc n) pgdir perm a pa k =
    and_then (map_page k pgdir a pa perm)
      (map_loop n pgdir perm ((a + pgsize) % 2 ^ 32) ((pa + pgsize) % 2 ^ 32))

unfoldable pub mappages : Kmem → (pgdir va size pa perm : ℕ) → Mapped
mappages k pgdir va size pa perm =
    let a = pg_round_down va in
    let last = pg_round_down ((va + size + (2 ^ 32 - 1)) % 2 ^ 32) in
    map_loop ((last + (2 ^ 32 - a)) % 2 ^ 32 / pgsize) pgdir perm a pa k

-- `*pte &= ~PTE_U;`
abbrev pub clear_user : ℕ → ℕ
clear_user e = e - e / 4 % 2 * 4

abbrev pub clear_pte : Kmem × ℕ → Option Kmem
clear_pte (k, pte) =
    if pte == 0
    then none
    else some (record k { mem = store32 k.mem pte (clear_user (load32 k.mem pte)) })

unfoldable pub clearpteu : Kmem → (pgdir uva : ℕ) → Option Kmem
clearpteu k pgdir uva = clear_pte (walkpgdir false k pgdir uva)

-- The test of `uva2ka`, which follows the pointer that `walkpgdir` gives without a test.
abbrev pub user_address : Kmem × ℕ → Option ℕ
user_address (k, pte) =
    let e = load32 k.mem pte in
    if pte == 0
    then none
    else if not (is_present e)
    then some 0
    else if not (is_user e)
    then some 0
    else some (p2v (pte_addr e))

unfoldable pub uva2ka : Kmem → (pgdir uva : ℕ) → Option ℕ
uva2ka k pgdir uva = user_address (walkpgdir false k pgdir uva)

-- The loop of `copyout` with the rounds that it may take: one for every byte.
abbrev pub copy_page : Kmem → (pa0 va buf n : ℕ) → Kmem
copy_page k pa0 va buf n = record k { mem = memmove k.mem (pa0 + (va - pg_round_down va)) buf n }

unfoldable pub copy_loop : (rounds : ℕ) → (pgdir va buf len : ℕ) → Kmem → Mapped
copy_loop zero pgdir va buf len k = some (k, true)
copy_loop (suc rounds) pgdir va buf len k =
    let n = min (pgsize - (va - pg_round_down va)) len in
    let rest = λ (pa0 : ℕ).
      copy_loop rounds pgdir ((pg_round_down va + pgsize) % 2 ^ 32) (buf + n) (len - n)
        (copy_page k pa0 va buf n) in
    if len == 0 then some (k, true) else copy_to (uva2ka k pgdir (pg_round_down va)) k rest
  where
    copy_to : Option ℕ → Kmem → (ℕ → Mapped) → Mapped
    copy_to none k f = none
    copy_to (some pa0) k f = if pa0 == 0 then some (k, false) else f pa0

-- The answer `false` is -1.
unfoldable pub copyout : Kmem → (pgdir va p len : ℕ) → Mapped
copyout k pgdir va p len = copy_loop len pgdir va p len k

module _ (kernel_end : ℕ) where
  -- `*pte` is given back when it is present; the address 0 is a panic.
  unfoldable pub drop_page : Kmem → (pte : ℕ) → Option Kmem
  drop_page k pte =
      let e = load32 k.mem pte in
      if not (is_present e)
      then some k
      else if pte_addr e == 0
      then none
      else clear (kfree kernel_end k (p2v (pte_addr e)))
    where
      clear : Option Kmem → Option Kmem
      clear none = none
      clear (some k') = some (record k' { mem = store32 k'.mem pte 0 })

  abbrev pub go_on : (Kmem → Option (Kmem × ℕ)) → Option Kmem → Option (Kmem × ℕ)
  go_on f none = none
  go_on f (some k') = f k'

  -- The loop of `deallocuvm`, with the rounds that it may take, and where it ends.
  unfoldable pub dealloc_loop : (rounds : ℕ) → (pgdir oldsz a : ℕ) → Kmem → Option (Kmem × ℕ)
  dealloc_loop zero pgdir oldsz a k = some (k, a)
  dealloc_loop (suc rounds) pgdir oldsz a k =
      let pte = (walkpgdir false k pgdir a).1 in
      let absent = dealloc_loop rounds pgdir oldsz ((pdx a + 1) * 2 ^ 22 % 2 ^ 32) k in
      let next =
        go_on (dealloc_loop rounds pgdir oldsz ((a + pgsize) % 2 ^ 32)) (drop_page k pte) in
      if not (ltb a oldsz) then some (k, a) else if pte == 0 then absent else next

  abbrev pub sized : ℕ → Option (Kmem × ℕ) → Option (Kmem × ℕ)
  sized newsz none = none
  sized newsz (some (k, a)) = some (k, newsz)

  -- One round for every page from `newsz` to `oldsz`.
  unfoldable pub deallocuvm : Kmem → (pgdir oldsz newsz : ℕ) → Option (Kmem × ℕ)
  deallocuvm k pgdir oldsz newsz =
      if leb oldsz newsz
      then some (k, oldsz)
      else sized newsz
          (dealloc_loop (oldsz / pgsize + 1) pgdir oldsz (pg_round_up newsz % 2 ^ 32) k)
