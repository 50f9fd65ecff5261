-- ===== src/Vm/Mapping.antt =====
-- What `mappages` maps is what `uva2ka` finds.
use a3team_os.Base.{
  ℕ, ◌+◌, ◌-◌, ◌*◌, ◌/◌, ◌%◌, ◌^◌, ◌≤◌, ◌<◌, ◌≡◌, ◌≢◌, ◌⊎◌, refl, sym, ◌∙◌, ap, subst, Bool, true,
  false, none, some, arith, bit_or, ◌==◌, Bool-cases, inl, inr, dec_lt,
}
use a3team_os.Memory.{load32, store32, memset}
use a3team_os.Memory.Word.{load32-store32, store32-other, load32-eq}
use a3team_os.Kalloc.{Kmem, pgsize, v2p, kalloc}
use a3team_os.Kalloc.FreeList.{IsPage}
use a3team_os.Vm.{
  pg_round_down, map_loop, mappages, p2v, pdx, ptx, pte_addr, is_present, is_user, new_table,
  walkpgdir, Mapped, set_pte, map_page, user_address, uva2ka,
}
use a3team_os.Vm.Flags.{or_page, or_present}

-- The directory is a page of its own: neither the next free page nor the page table for `va`.
pub record IsDirectory (kernel_end : ℕ) (k : Kmem) (pgdir va : ℕ) : Type 0 where
  pub aligned : pgdir % pgsize ≡ 0
  pub free_page : k.freelist ≢ 0 → IsPage kernel_end k.freelist
  pub not_free : k.freelist ≢ pgdir
  pub not_table : p2v (pte_addr (load32 k.mem (pgdir + 4 * pdx va))) ≢ pgdir

-- The directory has the table in which entry `pte` for `va` stands.
abbrev pub Found : Kmem → (pgdir va pte : ℕ) → Type 0
Found k pgdir va pte =
    (is_present (load32 k.mem (pgdir + 4 * pdx va)) ≡ true)
    × (pte ≡ p2v (pte_addr (load32 k.mem (pgdir + 4 * pdx va))) + 4 * ptx va)
    × (p2v (pte_addr (load32 k.mem (pgdir + 4 * pdx va))) ≢ pgdir)

-- The entry of the directory for a new table in page `r`.
table_entry :
    (e r : ℕ)
    → IsPage e r
    → (bit_or 7 (v2p r) ≡ v2p r + 7)
      × (is_present (v2p r + 7) ≡ true)
      × (p2v (pte_addr (v2p r + 7)) ≡ r)
      × (v2p r + 7 < 2 ^ 32)
table_entry e r page =
    let whole : v2p r ≡ v2p r / 4096 * 4096 =
      omega (arith, page.aligned, page.above_base, page.below_top) in
    (
      subst (λ z. bit_or 7 z ≡ z + 7) (sym whole)
          (or_page 7 (v2p r / 4096) (omega arith) ∙ omega arith),
      ground (arith, page.aligned, page.above_base, page.below_top),
      omega (arith, page.aligned, page.above_base, page.below_top),
      omega (arith, page.aligned, page.above_base, page.below_top),
    )

kalloc_pair : (k : Kmem) → kalloc k ≡ ((kalloc k).0, k.freelist)
unfolding kalloc
kalloc_pair k = elim (Bool-cases (k.freelist == 0)) [
  | inl none_left ↦ rw none_left refl
  | inr busy ↦ rw busy refl
]

module _ (e pgdir va : ℕ) where
  new_table-Found :
      (k : Kmem) (r : ℕ)
      → (r ≢ 0 → IsPage e r)
      → r ≢ pgdir
      → let (k1, pte) = new_table (pgdir + 4 * pdx va) va (k, r) in pte ≢ 0 → Found k1 pgdir va pte
  new_table-Found k r page apart some_table = elim (Bool-cases (r == 0)) [
    | inl none_left ↦ absurd (some_table (rw none_left refl))
    | inr busy ↦
        let (value, present, address, low) =
          table_entry e r (page (λ z. ground (arith, z, busy))) in
        let word : load32
              (store32 (memset k.mem r 0 pgsize) (pgdir + 4 * pdx va) (bit_or 7 (v2p r)))
              (pgdir + 4 * pdx va)
            ≡ v2p r + 7 =
          load32-store32 _ (pgdir + 4 * pdx va) (bit_or 7 (v2p r)) (omega (arith, value, low))
          ∙ value in
        rw (busy, word)
          (present, ap (λ z. z + 4 * ptx va) (sym address), (λ z. apart (sym address ∙ z)))
  ]

  walkpgdir-Found :
      (k : Kmem)
      → IsDirectory e k pgdir va
      → let (k1, pte) = walkpgdir true k pgdir va in pte ≢ 0 → Found k1 pgdir va pte
  unfolding walkpgdir
  walkpgdir-Found k v = elim (Bool-cases (is_present (load32 k.mem (pgdir + 4 * pdx va)))) [
    | inl present ↦ rw present (λ some_table. (present, refl, v.not_table))
    | inr absent ↦
        rw (absent, kalloc_pair k) (new_table-Found (kalloc k).0 k.freelist v.free_page v.not_free)
  ]

-- A table that is there is found, and nothing changes.
Found-walkpgdir :
    (alloc : Bool) (k : Kmem) (pgdir va pte : ℕ)
    → Found k pgdir va pte
    → walkpgdir alloc k pgdir va ≡ (k, pte)
unfolding walkpgdir
Found-walkpgdir alloc k pgdir va pte (present, at, apart) = rw present (ap (λ p. (k, p)) (sym at))

-- Writing the entry leaves the directory alone.
module _ (k : Kmem) (pgdir va pte w : ℕ) (aligned : pgdir % pgsize ≡ 0)
    (found : Found k pgdir va pte) where
  directory-same :
      load32 (store32 k.mem pte w) (pgdir + 4 * pdx va) ≡ load32 k.mem (pgdir + 4 * pdx va)
  directory-same =
      load32-eq k.mem (store32 k.mem pte w) (pgdir + 4 * pdx va)
        (λ x lo hi. store32-other k.mem pte w x (apart x lo hi))
    where
      apart :
          (x : ℕ) → pgdir + 4 * pdx va ≤ x → x < pgdir + 4 * pdx va + 4 → (x < pte) ⊎ (pte + 4 ≤ x)
      apart x lo hi = elim (dec_lt x pte) [
        | yes b ↦ inl b
        | no b ↦ inr (omega (arith, aligned, found.1, found.2))
      ]

  Found-write : Found (record k { mem = store32 k.mem pte w }) pgdir va pte
  Found-write = rw directory-same found

pair_injective : {k k' : Kmem} {b c : Bool} → ◌≡◌ {A = Mapped} (some (k, b)) (some (k', c)) → k ≡ k'
pair_injective e = cc

-- The entry for a page of the user.
page_entry :
    (pa perm : ℕ)
    → pa % pgsize ≡ 0
    → pa < 2 ^ 32
    → perm < pgsize
    → is_user perm ≡ true
    → (bit_or 1 (bit_or perm pa) ≡ (perm + pa) / 2 * 2 + 1)
      × (is_present ((perm + pa) / 2 * 2 + 1) ≡ true)
      × (is_user ((perm + pa) / 2 * 2 + 1) ≡ true)
      × (pte_addr ((perm + pa) / 2 * 2 + 1) ≡ pa)
      × ((perm + pa) / 2 * 2 + 1 < 2 ^ 32)
page_entry pa perm page low small user =
    let whole : pa ≡ pa / 4096 * 4096 = omega (arith, page) in
    (
      ap (bit_or 1)
            (subst (λ z. bit_or perm z ≡ perm + z) (sym whole) (or_page perm (pa / 4096) small))
          ∙ or_present (perm + pa),
      ground (arith, page),
      ground (arith, page, user),
      omega (arith, page, small),
      omega (arith, page, small, low),
    )

module _ (e pgdir a pa perm : ℕ) where
  set_pte-user_address :
      (k : Kmem) (pte : ℕ) (k' : Kmem)
      → pgdir % pgsize ≡ 0
      → pa % pgsize ≡ 0
      → pa < 2 ^ 32
      → perm < pgsize
      → is_user perm ≡ true
      → (pte ≢ 0 → Found k pgdir a pte)
      → set_pte pa perm (k, pte) ≡ some (k', true)
      → user_address (walkpgdir false k' pgdir a) ≡ some (p2v pa)
  set_pte-user_address k pte k' aligned page low small user found done =
      elim (Bool-cases (pte == 0)) [
        | inl none_left ↦ absurd (
            let stuck : ◌≡◌ {A = Mapped} (some (k, false)) (some (k', true)) =
              rw none_left at done in
            cc)
        | inr busy ↦ elim (Bool-cases (is_present (load32 k.mem pte))) [
          | inl again ↦
              absurd (
                let stuck : ◌≡◌ {A = Mapped} none (some (k', true)) = rw (busy, again) at done in
                cc)
          | inr new ↦
              let (value, present, mine, address, word) = page_entry pa perm page low small user in
              let there = found (λ z. ground (arith, z, busy)) in
              let is : some (record k { mem = store32 k.mem pte (bit_or 1 (bit_or perm pa)) }, true)
                  ≡ some (k', true) =
                rw (busy, new) at done in
              let same : record k { mem = store32 k.mem pte (bit_or 1 (bit_or perm pa)) } ≡ k' =
                pair_injective is in
              let stored : load32 (store32 k.mem pte (bit_or 1 (bit_or perm pa))) pte
                  ≡ (perm + pa) / 2 * 2 + 1 =
                load32-store32 k.mem pte (bit_or 1 (bit_or perm pa)) (omega (arith, value, word))
                ∙ value in
              subst (λ q. user_address (walkpgdir false q pgdir a) ≡ some (p2v pa)) same
                (ap user_address (
                    Found-walkpgdir false _ pgdir a pte
                      (Found-write k pgdir a pte (bit_or 1 (bit_or perm pa)) aligned there))
                  ∙ rw (busy, stored, present, mine, address) refl)
        ]
      ]

  uva2ka-map_page :
      (k k' : Kmem)
      → IsDirectory e k pgdir a
      → pa % pgsize ≡ 0
      → pa < 2 ^ 32
      → perm < pgsize
      → is_user perm ≡ true
      → map_page k pgdir a pa perm ≡ some (k', true)
      → uva2ka k' pgdir a ≡ some (p2v pa)
  unfolding map_page uva2ka
  uva2ka-map_page k k' v page low small user done =
      set_pte-user_address (walkpgdir true k pgdir a).0 (walkpgdir true k pgdir a).1 k' v.aligned
        page low small user (walkpgdir-Found e pgdir a k v) done

  one_page :
      (k : Kmem)
      → a % pgsize ≡ 0
      → a < 2 ^ 32
      → mappages k pgdir a pgsize pa perm ≡ map_page k pgdir a pa perm
  unfolding mappages map_loop
  one_page k start word =
      let whole : pg_round_down a ≡ a = omega (arith, start) in
      let last : pg_round_down ((a + pgsize + (2 ^ 32 - 1)) % 2 ^ 32) ≡ a =
        omega (arith, start, word) in
      let once : (a + (2 ^ 32 - a)) % 2 ^ 32 / pgsize ≡ 0 = omega (arith, word) in
      rw (whole, last, once)

  -- When `mappages` has mapped the page at `a` for the user, `uva2ka` finds it there, at the address in
  -- the kernel of its physical address. The directory is a page of its own: not the next free page,
  -- which is one of physical memory above the kernel if there is one, and not the page table for `a`.
  -- Both `a` and `pa` are 32-bit starts of pages, and the flags fit below a page.
  pub uva2ka-mappages :
      (k k' : Kmem)
      → IsDirectory e k pgdir a
      → a % pgsize ≡ 0
      → a < 2 ^ 32
      → pa % pgsize ≡ 0
      → pa < 2 ^ 32
      → perm < pgsize
      → is_user perm ≡ true
      → mappages k pgdir a pgsize pa perm ≡ some (k', true)
      → uva2ka k' pgdir a ≡ some (p2v pa)
  uva2ka-mappages k k' v start word page low small user done =
      uva2ka-map_page k k' v page low small user (sym (one_page k start word) ∙ done)
