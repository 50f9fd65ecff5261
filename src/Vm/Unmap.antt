-- ===== src/Vm/Unmap.antt =====
-- The loop of `deallocuvm` reaches the old size.
use a3team_os.Base.{
  ℕ, zero, suc, ◌+◌, ◌*◌, ◌/◌, ◌%◌, ◌^◌, ◌≤◌, ◌<◌, ◌≡◌, false, Option, none, some, arith, ltb, ◌==◌,
  Bool-cases, inl, inr,
}
use a3team_os.Kalloc.{Kmem, pgsize, kernbase, pg_round_up}
use a3team_os.Vm.{walkpgdir, pdx, drop_page, go_on, dealloc_loop}

-- A panic, or the end of the loop.
abbrev pub Reaches : (oldsz : ℕ) → Option (Kmem × ℕ) → Type 0
Reaches oldsz none = Unit
Reaches oldsz (some (k, a)) = oldsz ≤ a

module _ (e : ℕ) where
  dealloc_loop-Reaches :
      (rounds pgdir oldsz a : ℕ) (k : Kmem)
      → oldsz ≤ kernbase
      → a % pgsize ≡ 0
      → oldsz ≤ a + rounds * pgsize
      → Reaches oldsz (dealloc_loop e rounds pgdir oldsz a k)
  unfolding dealloc_loop
  dealloc_loop-Reaches zero pgdir oldsz a k low start enough = omega (arith, enough)
  dealloc_loop-Reaches (suc n) pgdir oldsz a k low start enough = elim (Bool-cases (ltb a oldsz)) [
    | inr past ↦ rw past (ground arith)
    | inl more ↦
        let inside : a < oldsz = ground arith in
        rw more (elim (Bool-cases ((walkpgdir false k pgdir a).1 == 0)) [
          | inl absent ↦ rw absent (
              dealloc_loop-Reaches n pgdir oldsz ((pdx a + 1) * 2 ^ 22 % 2 ^ 32) k low (omega arith)
                (omega (arith, inside, low, start, enough)))
          | inr table ↦
              rw table
                (elim (drop_page e k (walkpgdir false k pgdir a).1)
                  as (λ d.
                    Reaches oldsz
                      (go_on e (dealloc_loop e n pgdir oldsz ((a + pgsize) % 2 ^ 32)) d)) [
                        | none ↦ tt
                        | some k' ↦
                            dealloc_loop-Reaches n pgdir oldsz ((a + pgsize) % 2 ^ 32) k' low
                              (omega arith) (omega (arith, inside, low, start, enough))
                      ])
        ])
  ]

  -- For an old size up to the base of the kernel, above the new size, the loop of `deallocuvm`, in one round more than the old size has whole pages,
  -- goes on to the old size, also over page tables that are missing, unless it panics.
  pub deallocuvm-Reaches :
      (k : Kmem) (pgdir oldsz newsz : ℕ)
      → newsz < oldsz
      → oldsz ≤ kernbase
      → Reaches oldsz
          (dealloc_loop e (oldsz / pgsize + 1) pgdir oldsz (pg_round_up newsz % 2 ^ 32) k)
  deallocuvm-Reaches k pgdir oldsz newsz less low =
      dealloc_loop-Reaches (oldsz / pgsize + 1) pgdir oldsz (pg_round_up newsz % 2 ^ 32) k low
        (omega (arith, less, low)) (omega (arith, less, low))
