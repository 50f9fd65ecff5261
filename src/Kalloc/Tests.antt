-- ===== src/Kalloc/Tests.antt =====
-- The theorems on src/kalloc.c, applied to a kernel that ends at 0x80100010.
use a3team_os.Base.{ℕ, ◌≡◌, ◌≢◌, some, refl, arith, [], ◌∷◌}
use a3team_os.Kalloc.{load32, Kmem, pg_round_up, kfree, kalloc, freerange}
use a3team_os.Kalloc.FreeList.{IsPage, IsFree, SameOutside, kfree-push, kalloc-pop, kalloc-empty}
use a3team_os.Kalloc.Range.{onto, freerange-onto}

abbrev e : ℕ
e = 0x80100010

abbrev empty : Kmem
empty = record { freelist = 0; mem = λ a. 0 }

page : IsPage e 0x80200000
page = record {
  aligned = refl;
  above_kernel = omega arith;
  above_base = omega arith;
  below_top = omega arith;
}

kfree-push_example :
    (k' : Kmem) × (kfree e empty 0x80200000 ≡ some k')
    × IsFree e k' (0x80200000 ∷ [])
    × SameOutside 0x80200000 empty.mem k'.mem
kfree-push_example = kfree-push e empty 0x80200000 [] page tt refl

-- The memory is zero, so the only free page points to none.
abbrev one_free : Kmem
one_free = record { freelist = 0x80200000; mem = λ a. 0 }

kalloc-pop_example :
    let (k', r) = kalloc one_free in
    (r ≡ 0x80200000) × (r ≢ 0) × IsFree e k' [] × (k'.mem ≡ one_free.mem)
unfolding a3team_os.Memory.load32
kalloc-pop_example = kalloc-pop e one_free 0x80200000 [] (refl, page, tt, refl)

kalloc-empty_example : kalloc empty ≡ (empty, 0)
kalloc-empty_example = kalloc-empty e empty refl

freerange-onto_example :
    (k' : Kmem) × (freerange e empty 0x80100010 0x80105000 ≡ some k')
    × IsFree e k' (onto 4 (pg_round_up 0x80100010) [])
freerange-onto_example =
    freerange-onto e empty 0x80100010 0x80105000 4 [] (omega arith) (omega arith) (omega arith)
      (omega arith) (omega arith) tt refl
