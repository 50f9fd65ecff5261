-- ===== src/Vm/Tests.antt =====
-- The theorems on src/vm.c, applied: the directory is the page below the first free one.
use a3team_os.Base.{
  ℕ, ◌+◌, ◌-◌, ◌*◌, ◌/◌, ◌%◌, ◌^◌, ◌≡◌, refl, arith, Bool, true, some, none, Option,
}
use a3team_os.Kalloc.{Kmem, pgsize, pg_round_up}
use a3team_os.Vm.{
  mappages, map_loop, map_page, walkpgdir, pdx, pte_addr, uva2ka, dealloc_loop, user_page, p2v,
}
use a3team_os.Memory.{load32, store32}
use a3team_os.Memory.Word.{load32-store32}
use a3team_os.Vm.Mapping.{IsDirectory, uva2ka-mappages}
use a3team_os.Base.Maybe.{Each}
use a3team_os.Vm.Grow.{growproc}
use a3team_os.Vm.Grow.Sizes.{Changes, growproc-Changes}
use a3team_os.Vm.Unmap.{Reaches, deallocuvm-Reaches}

abbrev directory : ℕ
directory = 0x80400000

-- The directory has the page table at 0x80402000.
abbrev memory : Kmem
memory = record { freelist = 0x80401000; mem = store32 (λ x. 0) directory 0x402007 }

table_word : load32 memory.mem (directory + 4 * pdx 8192) ≡ 0x402007
table_word = load32-store32 (λ x. 0) directory 0x402007 (omega arith)

memory-IsDirectory : IsDirectory 0x80300000 memory directory 8192
memory-IsDirectory = record {
  aligned = refl;
  free_page = λ h. record {
    aligned = refl;
    above_kernel = omega arith;
    above_base = omega arith;
    below_top = omega arith;
  };
  not_free = λ h. omega (arith, h);
  not_table = λ h.
      let table : p2v (pte_addr 0x402007) ≡ directory = rw table_word at h in omega (arith, table);
}

abbrev kernel_of : Option (Kmem × Bool) → Kmem
kernel_of none = memory
kernel_of (some (k, b)) = k

abbrev mapped : Kmem
mapped = kernel_of (mappages memory directory 8192 pgsize 0x5000 user_page)

mapped_lem : mappages memory directory 8192 pgsize 0x5000 user_page ≡ some (mapped, true)
unfolding mappages map_loop map_page walkpgdir load32 store32
mapped_lem = refl

uva2ka-mappages_example : uva2ka mapped directory 8192 ≡ some (p2v 0x5000)
uva2ka-mappages_example =
    uva2ka-mappages 0x80300000 directory 8192 0x5000 user_page memory mapped memory-IsDirectory refl
      (omega arith) refl (omega arith) (omega arith) refl mapped_lem

deallocuvm-Reaches_example : Reaches 0x500000 (
    dealloc_loop 0x80300000
      (0x500000 / pgsize + 1)
      directory
      0x500000
      (pg_round_up 4096 % 2 ^ 32)
      memory)
deallocuvm-Reaches_example =
    deallocuvm-Reaches 0x80300000 memory directory 0x500000 4096 (omega arith) (omega arith)

-- The kernel ends at 0x80300000, and its data begins at 0x80100000. A process of two pages gives one back.
growproc-Changes_example :
    Each
      (Changes 0x80300000 0x80100000 memory directory 8192 (2 ^ 32 - 4096))
      (growproc 0x80300000 0x80100000 memory directory 8192 (2 ^ 32 - 4096))
growproc-Changes_example =
    growproc-Changes 0x80300000 0x80100000 memory directory 8192 (2 ^ 32 - 4096) (omega arith)
      (omega arith) (omega arith)
