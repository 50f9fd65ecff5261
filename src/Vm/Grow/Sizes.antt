-- ===== src/Vm/Grow/Sizes.antt =====
-- How the size of a process changes.
use a3team_os.Base.{
  ◌∙◌, ==_iff, ◌≢◌, ℕ, zero, suc, ◌+◌, ◌-◌, ◌/◌, ◌%◌, ◌^◌, ◌<◌, ◌≤◌, ◌≡◌, refl, subst, Bool, true,
  false, ◌⊎◌, inl, inr, Option, none, some, ltb, leb, ◌==◌, arith, Bool-cases, ltb→lt, le→ltb,
}
use a3team_os.Base.Maybe.{Each, Each-if, Each-weaken}
use a3team_os.Kalloc.{v2p, Kmem, pgsize, kernbase, pg_round_up, kalloc}
use a3team_os.Vm.{user_page, memset, mappages, deallocuvm, dealloc_loop, sized, Mapped}
use a3team_os.Vm.Space.{kernel_of, Answer, answer, grown, alloc_loop, allocuvm}
use a3team_os.Vm.Grow.{resized, growproc}

module _ (kernel_end data_start : ℕ) where
  -- What `allocuvm` answers when it has a loop to run.
  abbrev Ends : (newsz : ℕ) → Kmem × ℕ → Type 0
  Ends newsz r = (r.1 ≡ 0) ⊎ (r.1 ≡ newsz)

  answer_0-Ends : (newsz : ℕ) (o : Option Kmem) → Each (Ends newsz) (answer 0 o)
  answer_0-Ends newsz none = tt
  answer_0-Ends newsz (some k) = inl refl

  grown-Ends :
      (newsz mem : ℕ) (undo : Kmem → Option Kmem) (next : Kmem → Answer)
      → ((k : Kmem) → Each (Ends newsz) (next k))
      → (m : Mapped) → Each (Ends newsz) (grown kernel_end data_start mem undo next m)
  grown-Ends newsz mem undo next h none = tt
  grown-Ends newsz mem undo next h (some (k, true)) = h k
  grown-Ends newsz mem undo next h (some (k, false)) = answer_0-Ends newsz _

  alloc_loop-Ends :
      (n pgdir oldsz newsz a : ℕ) (k : Kmem)
      → Each (Ends newsz) (alloc_loop kernel_end data_start n pgdir oldsz newsz a k)
  unfolding alloc_loop
  alloc_loop-Ends zero pgdir oldsz newsz a k = inr refl
  alloc_loop-Ends (suc n) pgdir oldsz newsz a k =
      let (k1, mem) = kalloc k in
      Each-if (Ends newsz) (mem == 0) _ _ (answer_0-Ends newsz _) (
        grown-Ends newsz mem
          (λ k2. kernel_of kernel_end data_start (deallocuvm kernel_end k2 pgdir newsz oldsz))
          (alloc_loop kernel_end data_start n pgdir oldsz newsz (a + pgsize))
          (alloc_loop-Ends n pgdir oldsz newsz (a + pgsize))
          (mappages (record k1 { mem = memset k1.mem mem 0 pgsize }) pgdir a pgsize (v2p mem)
            user_page))

  -- What becomes of a size `sz`, with `n` an `int`: it grows; it shrinks; nothing was free, or the process was to
  -- lose all that it has; or it was to lose more than that.
  abbrev pub Changes : (k : Kmem) → (pgdir sz n : ℕ) → Kmem × ℕ × Bool → Type 0
  Changes k pgdir sz n (k', sz', ok) =
      ((ok ≡ true) × (sz' ≡ sz + n) × (n < 2 ^ 31) × (sz' < kernbase))
      ⊎ ((ok ≡ true) × (sz' + 2 ^ 32 ≡ sz + n) × (0 < sz'))
      ⊎ ((ok ≡ false)
          × (sz' ≡ sz)
          × ((n < 2 ^ 31)
              ⊎ ((sz + n ≡ 2 ^ 32) × (deallocuvm kernel_end k pgdir sz 0 ≡ some (k', 0)))))
      ⊎ ((ok ≡ true) × (sz' ≡ sz) × (k' ≡ k) × (2 ^ 31 ≤ n) × (sz + n < 2 ^ 32))

  resized-Each :
      (Q : Kmem × ℕ × Bool → Type 0) (sz : ℕ) (o : Answer)
      → Each (λ r. (r.1 ≡ 0 → Q (r.0, sz, false)) × (r.1 ≢ 0 → Q (r.0, r.1, true))) o
      → Each Q (resized sz o)
  resized-Each Q sz none h = tt
  resized-Each Q sz (some (k, n)) h = elim (Bool-cases (n == 0)) [
    | inl e ↦ rw e (h.0 ((==_iff n 0).0 e))
    | inr e ↦ rw e (h.1 (λ z. ground (arith, e, z)))
  ]

  allocuvm-Changes :
      (k : Kmem) (pgdir sz n newsz : ℕ)
      → 0 < sz
      → newsz ≡ sz + n
      → n < 2 ^ 31
      → Each (Changes k pgdir sz n) (resized sz (allocuvm kernel_end data_start k pgdir sz newsz))
  unfolding allocuvm
  allocuvm-Changes k pgdir sz n newsz some_size sum small =
      resized-Each (Changes k pgdir sz n) sz (allocuvm kernel_end data_start k pgdir sz newsz)
        (elim (Bool-cases (leb kernbase newsz)) [
          | inl e ↦ rw e ((λ z. inr (inr (inl (refl, refl, inl small)))), (λ ne. absurd (ne refl)))
          | inr e ↦
              let wide : ltb newsz sz ≡ false = le→ltb newsz sz (omega (arith, sum)) in
              rw (e, wide)
                (Each-weaken (Ends newsz) _ _ (λ r. settled r.0 r.1 (ground (arith, e)))
                  (alloc_loop-Ends ((newsz + (pgsize - 1) - pg_round_up sz) / pgsize) pgdir sz newsz
                    (pg_round_up sz) k))
        ])
    where
      settled :
          (k' : Kmem) (r : ℕ)
          → newsz < kernbase
          → (r ≡ 0) ⊎ (r ≡ newsz)
          → (r ≡ 0 → Changes k pgdir sz n (k', sz, false))
            × (r ≢ 0 → Changes k pgdir sz n (k', r, true))
      settled k' r low (inl z) =
          ((λ u. inr (inr (inl (refl, refl, inl small)))), (λ ne. absurd (ne z)))
      settled k' r low (inr full) = (
        (λ z. inr (inr (inl (refl, refl, inl small)))),
        (λ ne. inl (refl, full ∙ sum, small, omega (arith, full, low))),
      )

  deallocuvm-Changes :
      (k : Kmem) (pgdir sz n : ℕ)
      → 0 < sz
      → sz < kernbase
      → 2 ^ 31 ≤ n
      → n < 2 ^ 32
      → Each
          (Changes k pgdir sz n)
          (resized sz (deallocuvm kernel_end k pgdir sz ((sz + n) % 2 ^ 32)))
  unfolding deallocuvm
  deallocuvm-Changes k pgdir sz n some_size low negative word =
      let newsz = (sz + n) % 2 ^ 32 in
      resized-Each (Changes k pgdir sz n) sz (deallocuvm kernel_end k pgdir sz newsz)
        (elim (Bool-cases (leb sz newsz)) [
          | inl e ↦
              let above : sz ≤ newsz = ground (arith, e) in
              rw e (
                (λ z. absurd (omega (arith, z, some_size))),
                (λ ne. inr (inr (inr (refl, refl, refl, negative, omega (arith, above, word))))),
              )
          | inr e ↦
              let below : newsz < sz = ground (arith, e) in
              rw e (
                loop
                  (dealloc_loop kernel_end (sz / pgsize + 1) pgdir sz (pg_round_up newsz % 2 ^ 32)
                    k)
                  newsz (omega (arith, below, word, negative, low)) (rw e refl))
        ])
    where
      loop :
          (o : Option (Kmem × ℕ)) (newsz : ℕ)
          → newsz + 2 ^ 32 ≡ sz + n
          → deallocuvm kernel_end k pgdir sz newsz ≡ sized kernel_end newsz o
          → Each
              (λ r.
                (r.1 ≡ 0 → Changes k pgdir sz n (r.0, sz, false))
                × (r.1 ≢ 0 → Changes k pgdir sz n (r.0, r.1, true)))
              (sized kernel_end newsz o)
      loop none newsz sum deal = tt
      loop (some (k', a)) newsz sum deal = (
        (λ z. inr (
            inr (
              inl (
                refl,
                refl,
                inr (
                  omega (arith, z, sum),
                  subst (λ m. deallocuvm kernel_end k pgdir sz m ≡ some (k', m)) z deal,
                ),
              )))),
        (λ ne. inr (inl (refl, sum, ground (arith, ne)))),
      )

  -- For a process with a size below the kernel that is not 0 and an `int` n, `growproc`, unless it panics: with a positive n or 0 it
  -- grows the size by it to one below the kernel, or fails and leaves the size; with a negative n the size
  -- shrinks by it, and stays above 0. When that would leave nothing, it gives back
  -- the pages as `deallocuvm` does, fails and leaves the size, and when there is less than that, it says 0 and changes nothing.
  pub growproc-Changes :
      (k : Kmem) (pgdir sz n : ℕ)
      → 0 < sz
      → sz < kernbase
      → n < 2 ^ 32
      → Each (Changes k pgdir sz n) (growproc kernel_end data_start k pgdir sz n)
  unfolding growproc
  growproc-Changes k pgdir sz n some_size low word = elim (Bool-cases (n == 0)) [
    | inl e ↦
        rw e (inl (refl, omega (arith, (==_iff n 0).0 e), omega (arith, (==_iff n 0).0 e), low))
    | inr e ↦ elim (Bool-cases (ltb n (2 ^ 31))) [
      | inl small ↦
          let below : n < 2 ^ 31 = ltb→lt n (2 ^ 31) small in
          rw (e, small)
            (allocuvm-Changes k pgdir sz n ((sz + n) % 2 ^ 32) some_size (omega (arith, below, low))
              below)
      | inr large ↦
          let above : 2 ^ 31 ≤ n = ground (arith, large) in
          rw (e, large) (deallocuvm-Changes k pgdir sz n some_size low above word)
    ]
  ]
