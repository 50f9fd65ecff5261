-- ===== src/Slab/Alloc/Opening.antt =====
-- When `kmalloc` asks the page allocator for a page, slab.c.
use a3team_os.Base.{
  ℕ, ◌+◌, ◌/◌, ◌%◌, ◌≤◌, ◌<◌, ◌≡◌, ◌≢◌, ◌⊎◌, refl, sym, ◌∙◌, not, ◌&&◌, some, arith, ◌==◌,
  Bool-cases, inl, inr, length, set, lt→ltb,
}
use a3team_os.Kalloc.{Kmem, kalloc}
use a3team_os.Slab.Bits.{first_false}
use a3team_os.Slab.State.{Slab, done, max_pages_per_slab}
use a3team_os.Slab.Bitmap.View.{Bytes, bits}
use a3team_os.Slab.Bitmap.Pages.{IsPerPage, Unused}
use a3team_os.Slab.Bitmap.NewPage.{check_newpage-opens, check_newpage-cases}
use a3team_os.Slab.Alloc.{new_page}

-- Object `k` is the first of a page that is not the first page, and no object of that page is in use.
abbrev pub Opens : Slab → (k : ℕ) → Type 0
Opens s k = (k ≢ 0) × (k % s.num_objects_per_page ≡ 0) × Unused s.bitmap k s.num_objects_per_page

-- What the step that may add a page does, when object `k` is taken next: for an object that opens a
-- page the entry of that page is a page of the page allocator, for others nothing changes.
abbrev pub Paged : Kmem → Slab → (k : ℕ) → Kmem × Slab → Type 0
Paged m s k (m', s') =
    (Opens s k
      × (m' ≡ (kalloc m).0)
      × (s' ≡ record s { page = set s.page (k / s.num_objects_per_page + 1) (kalloc m).1 }))
    ⊎ ((¬ Opens s k) × (m' ≡ m) × (s' ≡ s))

module _ (m : Kmem) (s : Slab) {k : ℕ} (small : Bytes s.bitmap)
    (first : first_false (bits s.bitmap) ≡ some k) (in_use : k ≤ s.num_used_objects)
    (sized : (length s.page ≡ max_pages_per_slab) × IsPerPage s.num_objects_per_page)
    (low : k / s.num_objects_per_page < 99) where
  pub new_page-Paged : (r : Kmem × Slab) × (new_page m s ≡ done r) × Paged m s k r
  unfolding new_page
  new_page-Paged = elim (check_newpage-cases s small first sized.1) [
    | inl z ↦ rw z (
      _,
      refl,
      inr ((λ o. o.0 (sym (check_newpage-opens s small first sized.1 o.1 o.2) ∙ z)), refl, refl),
    )
    | inr (e, at_start, empty) ↦ elim (Bool-cases (not (k == 0) && not (s.num_used_objects == 0))) [
      | inr no_page ↦
          rw (e, no_page)
            (_, refl, inr ((λ o. absurd (ground (arith, o.0, no_page, in_use))), refl, refl))
      | inl a_page ↦
          let pos : k ≢ 0 = λ z. absurd (ground (arith, a_page, z)) in
          rw
            (
              e,
              a_page,
              lt→ltb (k / s.num_objects_per_page + 1) (length s.page) (omega (arith, sized.0)),
            )
            (_, refl, inl ((pos, at_start, empty), refl, refl))
    ]
  ]
