-- ===== src/Slab/Alloc/Kmalloc.antt =====
-- `kmalloc`: what it does when there is room, and when there is none.
use a3team_os.Base.{
  ◌≢◌, Bool, ==-ne, get_or-set_self, get_elem?-lt, ap, ℕ, ◌+◌, ◌*◌, ◌/◌, ◌≤◌, ◌<◌, ◌≡◌, ◌⊎◌, ◌∙◌,
  true, false, ◌||◌, some, List, arith, ◌==◌, ltb, inl, inr, length, get_or, set, get_elem?,
}
use a3team_os.Kalloc.{Kmem, kalloc}
use a3team_os.Slab.SizeClass.{get_slab_idx, next_power_of_2}
use a3team_os.Slab.Bits.{first_false}
use a3team_os.Slab.State.{Slab, Kernel, Outcome, done}
use a3team_os.Slab.Bitmap.View.{bits}
use a3team_os.Slab.Alloc.Placing.{
  IsValid, total, Placed, IsValid-page, place_object-Placed, read-some,
}
use a3team_os.Slab.Alloc.Opening.{Opens, Paged, new_page-Paged}
use a3team_os.Slab.Alloc.{place_object, kmalloc_locked, is_full, kmalloc}
use a3team_os.Slab.Alloc.Class.{first_free}
use a3team_os.Slab.Alloc.Layout.{row-lt}

-- What `kmalloc` of `size` bytes leaves behind when it gives out an object of class `idx`, which was
-- `s` before: the object is the first free one. If it opens a page, the entry of the page is the page
-- that the page allocator gives up, otherwise neither the table of pages nor the allocator's list
-- changes; and the page is there.
pub record Allocated (k : Kernel) (idx : ℕ) (s : Slab) (size : ℕ) (k' : Kernel) (addr : ℕ)
    : Type 0 where
  pub object : Placed k idx s size k' addr
  pub first : first_false (bits s.bitmap) ≡ some object.offset
  pub page :
      (Opens s object.offset
        × (object.after.page
            ≡ set s.page (object.offset / s.num_objects_per_page + 1) (kalloc k.kmem).1)
        × (k'.kmem.freelist ≡ (kalloc k.kmem).0.freelist))
      ⊎ ((¬ Opens s object.offset)
          × (object.after.page ≡ s.page)
          × (k'.kmem.freelist ≡ k.kmem.freelist))
  pub there : get_or object.after.page (object.offset / s.num_objects_per_page + 1) 0 ≢ 0

-- The page of the first free object is there: the entry of a page in use is not 0, and for a page that
-- the object opens the page allocator has one.
abbrev pub HasPage : Kmem → Slab → Type 0
HasPage m s =
    (o : ℕ)
    → first_false (bits s.bitmap) ≡ some o
    → (Opens s o → m.freelist ≢ 0)
      × ((¬ Opens s o) → get_or s.page (o / s.num_objects_per_page + 1) 0 ≢ 0)

kalloc-there : (m : Kmem) → m.freelist ≢ 0 → (kalloc m).1 ≢ 0
unfolding kalloc
kalloc-there m h = rw (==-ne m.freelist 0 h) h

pub first_false_unique :
    {o p : ℕ} (bs : List Bool) → first_false bs ≡ some o → first_false bs ≡ some p → o ≡ p
first_false_unique bs a b = cc

module _ (k : Kernel) (idx : ℕ) (size : ℕ) (s : Slab) (inside : idx < length k.slabs)
    (v : IsValid idx s) (room : s.num_used_objects < total idx s)
    (low : s.num_used_objects < 99 * s.num_objects_per_page) (has : HasPage k.kmem s) where
  abbrev Gives : Outcome (Kernel × ℕ) → Type 0
  Gives r = (k' : Kernel) × (addr : ℕ) × (r ≡ done (k', addr)) × Allocated k idx s size k' addr

  with_page :
      (o : ℕ) (r : Kmem × Slab)
      → first_false (bits s.bitmap) ≡ some o
      → Paged k.kmem s o r
      → Gives (place_object k idx r.0 r.1 size)
  with_page o (m, s1) first (inr (closed, em, es)) =
      let (k', addr, eq, p, at, page, rest) =
        place_object-Placed k idx size k.kmem s inside v room low in
      let same : o ≡ p.offset = first_false_unique (bits s.bitmap) first at in
      rw (em, es)
        (
          k',
          addr,
          eq,
          record {
            object = p;
            first = at;
            page = inr (rw same at closed, page, rest);
            there = rw page ((has p.offset at).1 (rw same at closed));
          },
        )
  with_page o (m, s1) first (inl (opens, em, es)) =
      let i = o / s.num_objects_per_page + 1 in
      let a = (kalloc k.kmem).1 in
      let (k', addr, eq, p, at, page, rest) =
        place_object-Placed k idx size (kalloc k.kmem).0 (record s { page = set s.page i a }) inside
          (IsValid-page idx s i a v) room low in
      let same : o ≡ p.offset = first_false_unique (bits s.bitmap) first at in
      let row : o / s.num_objects_per_page < 99 =
        row-lt s.num_objects_per_page s.size v.0.full 99 o (
          omega (
            arith,
            (first_free v.1 room).2,
            first_false_unique (bits s.bitmap) first (first_free v.1 room).1,
            low,
          )) in
      rw (em, es)
        (
          k',
          addr,
          eq,
          record {
            object = record {
              offset = p.offset;
              after = p.after;
              was_free = p.was_free;
              taken = p.taken;
              counted = p.counted;
              valid = p.valid;
              slabs = p.slabs;
              address = p.address;
              in_page = p.in_page;
              zeroed = p.zeroed;
            };
            first = at;
            page = inl (
              rw same at opens,
              page ∙ ap (λ x. set s.page (x / s.num_objects_per_page + 1) a) same,
              rest,
            );
            there =
                rw (page, ← same, get_or-set_self s.page i a 0 (omega (arith, v.0.pages, row)))
                  (kalloc-there k.kmem ((has o first).0 opens));
          },
        )

  kmalloc_locked-Allocated : Gives (kmalloc_locked k idx s size)
  unfolding kmalloc_locked
  kmalloc_locked-Allocated =
      let (o, first, le) = first_free v.1 room in
      let row : o / s.num_objects_per_page < 99 =
        row-lt s.num_objects_per_page s.size v.0.full 99 o (omega (arith, le, low)) in
      let (r, eq, paged) = new_page-Paged k.kmem s v.1.bytes first le (v.0.pages, v.0.shape) row in
      rw eq (with_page o r first paged)

-- What `kmalloc` looks at: the class for the size, and class 0.
pub record Request (k : Kernel) (size : ℕ) (s s0 : Slab) : Type 0 where
  pub positive : 0 < size
  pub small : size ≤ 2048
  pub class : get_elem? k.slabs (get_slab_idx (next_power_of_2 size)) ≡ some s
  pub class0 : get_elem? k.slabs 0 ≡ some s0

module _ (k : Kernel) (size : ℕ) (s s0 : Slab) (r : Request k size s s0) where
  size_ok : (ltb 2048 size || (size == 0)) ≡ false
  size_ok = ground (arith, r.positive, r.small)

  -- A request of 1 to 2048 bytes whose class is valid, that the class and class 0 have room for, in a
  -- class that uses fewer objects than 99 pages hold, is served, when the page of the first free object
  -- is there or, for an object that opens a page, the page allocator has a page. The object is the first
  -- free one. A page is taken from the page allocator exactly when the object is the first of a page
  -- other than the first, and no object of that page is in use: its address is the new entry of the
  -- table of pages. Otherwise the table and the allocator's list stay. The address is the object's
  -- place in its page, which is not 0, and the object ends within one page. No access is out of bounds,
  -- the bit and the counters follow, the class stays valid, no other class changes, and the first
  -- `size` bytes of the object are cleared.
  pub kmalloc-Allocated :
      IsValid (get_slab_idx (next_power_of_2 size)) s
      → is_full s s0 ≡ false
      → s.num_used_objects < total (get_slab_idx (next_power_of_2 size)) s
      → s.num_used_objects < 99 * s.num_objects_per_page
      → HasPage k.kmem s
      → (k' : Kernel) × (addr : ℕ) × (kmalloc k size ≡ done (k', addr))
        × Allocated k (get_slab_idx (next_power_of_2 size)) s size k' addr
  unfolding kmalloc
  kmalloc-Allocated v free room low has =
      rw (size_ok, read-some k.slabs _ r.class, read-some k.slabs 0 r.class0, free)
        (kmalloc_locked-Allocated k _ size s (get_elem?-lt k.slabs _ r.class) v room low has)

  -- When the class of a request of 1 to 2048 bytes has used the objects of its 100 pages, or class
  -- 0 those of 64, the request is refused: the address is 0 and nothing changes.
  pub kmalloc-full : is_full s s0 ≡ true → kmalloc k size ≡ done (k, 0)
  unfolding kmalloc
  kmalloc-full full = rw (size_ok, read-some k.slabs _ r.class, read-some k.slabs 0 r.class0, full)

-- A size that is not positive as an `int`, or above 2048, is refused, whatever the state.
pub kmalloc-bad_size :
    (k : Kernel) (size : ℕ) → (size ≡ 0) ⊎ (2048 < size) → kmalloc k size ≡ done (k, 0)
unfolding kmalloc
kmalloc-bad_size k size h = ground arith
