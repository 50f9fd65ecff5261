-- ===== src/Kalloc/Range.antt =====
-- `freerange` hands every whole page of a range to the allocator.
use a3team_os.Base.{
  true, false, ◌^◌, leb, ℕ, zero, suc, ◌+◌, ◌*◌, ◌%◌, ◌≤◌, ◌<◌, ◌≡◌, refl, some, List, [], ◌∷◌,
  arith, length,
}
use a3team_os.Kalloc.{Kmem, pgsize, kernbase, phystop, pg_round_up, free_pages, freerange}
use a3team_os.Kalloc.FreeList.{IsPage, Absent, IsFree, kfree-push}

-- `n` pages from `p` on, each pushed in front of the ones before.
abbrev pub onto : (n p : ℕ) → List ℕ → List ℕ
onto zero p ps = ps
onto (suc n) p ps = onto n (p + pgsize) (p ∷ ps)

abbrev pub Below : ℕ → List ℕ → Type 0
Below p [] = Unit
Below p (q ∷ ps) = (q < p) × Below p ps

Below-Absent : (p : ℕ) (ps : List ℕ) → Below p ps → Absent p ps
Below-Absent p [] b = tt
Below-Absent p (q ∷ ps) (h, b) = ((λ e. omega arith), Below-Absent p ps b)

Below-later : (p q : ℕ) (ps : List ℕ) → p ≤ q → Below p ps → Below q ps
Below-later p q [] h b = tt
Below-later p q (r ∷ ps) h (l, b) = (omega arith, Below-later p q ps h b)

length-onto : (n p : ℕ) (ps : List ℕ) → length (onto n p ps) ≡ n + length ps
length-onto zero p ps = omega arith
length-onto (suc n) p ps = omega (arith, length-onto n (p + pgsize) (p ∷ ps))

module _ (e : ℕ) where
  free_pages-onto :
      (fuel n : ℕ) (k : Kmem) (p vend : ℕ) (ps : List ℕ)
      → n < fuel
      → p % pgsize ≡ 0
      → e ≤ p
      → kernbase ≤ p
      → p + n * pgsize ≤ vend
      → vend < p + n * pgsize + pgsize
      → vend ≤ kernbase + phystop
      → Below p ps
      → IsFree e k ps
      → (k' : Kmem) × (free_pages e fuel k p vend ≡ some k') × IsFree e k' (onto n p ps)
  unfolding free_pages
  free_pages-onto zero n k p vend ps some_fuel al he hb fits last ht below c = absurd (omega arith)
  free_pages-onto (suc fuel) zero k p vend ps some_fuel al he hb fits last ht below c =
      let stop : leb ((p + pgsize) % 2 ^ 32) vend ≡ false = ground (arith, fits, last, ht) in
      rw stop (k, refl, c)
  free_pages-onto (suc fuel) (suc n) k p vend ps some_fuel al he hb fits last ht below c =
      let page : IsPage e p = record {
        aligned = al;
        above_kernel = he;
        above_base = hb;
        below_top = omega arith;
      } in
      let (k1, eq, c1, same) = kfree-push e k p ps page (Below-Absent p ps below) c in
      let next : (p + pgsize) % 2 ^ 32 ≡ p + pgsize = omega arith in
      let go : leb (p + pgsize) vend ≡ true = ground (arith, fits) in
      rw (next, go, eq, next)
        (free_pages-onto fuel n k1 (p + pgsize) vend (p ∷ ps) (omega arith) (omega arith)
          (omega arith) (omega arith) (omega arith) (omega arith) ht
          (omega arith, Below-later p (p + pgsize) ps (omega arith) below) c1)

  -- From a list of free pages below it, `freerange` of a range of physical memory above the kernel,
  -- from `vstart` rounded up to a page, ends and does not panic, and frees exactly the `n` whole
  -- pages of the range, lowest first.
  pub freerange-onto :
      (k : Kmem) (vstart vend n : ℕ) (ps : List ℕ)
      → e ≤ vstart
      → kernbase ≤ vstart
      → vend ≤ kernbase + phystop
      → pg_round_up vstart + n * pgsize ≤ vend
      → vend < pg_round_up vstart + n * pgsize + pgsize
      → Below (pg_round_up vstart) ps
      → IsFree e k ps
      → (k' : Kmem) × (freerange e k vstart vend ≡ some k')
        × IsFree e k' (onto n (pg_round_up vstart) ps)
  unfolding freerange
  freerange-onto k vstart vend n ps he hb ht fits last below c =
      let low : pg_round_up vstart % 2 ^ 32 ≡ pg_round_up vstart = omega arith in
      rw low (
        free_pages-onto (2 ^ 20) n k (pg_round_up vstart) vend ps (omega arith) (omega arith)
          (omega arith) (omega arith) fits last ht below c)
