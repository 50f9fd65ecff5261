-- ===== src/Slab/Alloc.antt =====
-- `slabinit`, `kmalloc` and `kmfree` of src/slab.c.
--
-- `stable.lock` is not modelled: each function runs to its end as one step.
pub mod Class
pub mod Layout
pub mod Opening
pub mod Placing
pub mod Kmalloc
pub mod Init
mod Tests
use a3team_os.Base.{
  ℕ, zero, suc, ◌+◌, ◌-◌, ◌*◌, ◌/◌, ◌%◌, ◌^◌, Bool, true, false, not, ◌&&◌, ◌||◌, Option, none,
  some, List, [], ◌∷◌, ltb, leb, ◌==◌, if◌then◌else◌, get_elem?, set, length, replicate,
}
use a3team_os.Memory.{memset}
use a3team_os.Kalloc.{Kmem, kalloc, kfree}
use a3team_os.Slab.SizeClass.{get_slab_idx, next_power_of_2}
use a3team_os.Slab.State.{
  pgsize, nslab, max_pages_per_slab, Slab, Kernel, Outcome, done, fault, ◌>>=◌, read, write, inc,
  dec,
}
use a3team_os.Slab.Bits.{int_mod}
use a3team_os.Slab.Bitmap.{
  set_bitmap, clear_bitmap, check_empty, check_newpage, get_page_num, get_row,
}

-- One class of `slabinit`: two pages from the page allocator, one of them for the bitmap. `total`
-- is the number of pages that the free objects are counted over. The result of `kalloc` is not
-- tested; `memset` of the bitmap is what the list of zeros stands for.
unfoldable pub init_class : Kmem → (size total : ℕ) → Kmem × Slab
init_class m size total =
    let (m1, bitmap) = kalloc m in
    let (m2, first) = kalloc (record m1 { mem = memset m1.mem bitmap 0 pgsize }) in
    (
      m2,
      record {
        size = size;
        num_pages = 1;
        num_free_objects = pgsize / size * total;
        num_used_objects = 0;
        num_objects_per_page = pgsize / size;
        bitmap = replicate pgsize 0;
        page = set (replicate max_pages_per_slab 0) 1 first;
      },
    )

-- `for (i = 1; i < NSLAB; i++)`, with the rounds left and the size of the class before.
unfoldable pub init_classes : ℕ → Kmem → (size : ℕ) → Kmem × List Slab
init_classes zero m size = (m, [])
init_classes (suc n) m size =
    let (m1, s) = init_class m (size * 2) max_pages_per_slab in
    let (m2, rest) = init_classes n m1 (size * 2) in (m2, s ∷ rest)

unfoldable pub slabinit : Kmem → Kernel
slabinit m =
    let (m1, s) = init_class m 8 64 in
    let (m2, rest) = init_classes (nslab - 1) m1 8 in record { kmem = m2; slabs = s ∷ rest }

-- The page that `checkNewpage` asks for, taken from the page allocator. As in the code, the address
-- 0 is stored when there is none.
unfoldable pub new_page : Kmem → Slab → Outcome (Kmem × Slab)
new_page m s =
    let start_offset = check_newpage s in
    let taken = kalloc m in
    if not (start_offset == 0) && not (s.num_used_objects == 0)
    then (do
      page ← write s.page (start_offset / s.num_objects_per_page + 1) taken.1
      done (taken.0, record s { page = page }))
    else done (m, s)

-- The bitmap, the count of pages and the counters after an object is taken, and its offset.
unfoldable pub take_object : (slab_idx : ℕ) → Slab → Slab × ℕ
take_object slab_idx s =
    let (bitmap, bit_offset) = set_bitmap s.bitmap in
    let marked = record s { bitmap = bitmap } in
    (
      record marked {
        num_pages = get_page_num slab_idx marked;
        num_free_objects = dec s.num_free_objects;
        num_used_objects = inc s.num_used_objects;
      },
      bit_offset,
    )

-- The address of object `bit_offset`.
unfoldable pub object_address : (slab_idx : ℕ) → Slab → (bit_offset : ℕ) → Outcome ℕ
object_address slab_idx s bit_offset = do
  page ← read s.page (bit_offset / s.num_objects_per_page + 1)
  done (page + bit_offset % s.num_objects_per_page * 2 ^ (slab_idx + 3))

-- The rest of `kmalloc` under the lock: it takes the object, and clears its memory.
unfoldable pub place_object :
    Kernel → (slab_idx : ℕ) → Kmem → Slab → (size : ℕ) → Outcome (Kernel × ℕ)
place_object k slab_idx m s size = do
  let taken = take_object slab_idx s
  addr ← object_address slab_idx taken.0 taken.1
  slabs ← write k.slabs slab_idx taken.0
  done (record { kmem = record m { mem = memset m.mem addr 0 size }; slabs = slabs }, addr)

-- The part of `kmalloc` under the lock.
unfoldable pub kmalloc_locked : Kernel → (slab_idx : ℕ) → Slab → (size : ℕ) → Outcome (Kernel × ℕ)
kmalloc_locked k slab_idx s size = do (m, s1) ← new_page k.kmem s; place_object k slab_idx m s1 size

-- A class is full when its pages are; no class gives out an object when class 0 has used 64 pages.
abbrev pub is_full : (s s0 : Slab) → Bool
is_full s s0 =
    (s.num_used_objects == s.num_objects_per_page * max_pages_per_slab)
    || (s0.num_used_objects == s0.num_objects_per_page * 64)

-- `size` is the bit pattern of an `int`: a negative one is above 2048 too. The address 0 says that
-- nothing was allocated.
unfoldable pub kmalloc : Kernel → (size : ℕ) → Outcome (Kernel × ℕ)
kmalloc k size = if ltb 2048 size || (size == 0) then done (k, 0) else (do
  let slab_idx = get_slab_idx (next_power_of_2 size)
  s ← read k.slabs slab_idx
  s0 ← read k.slabs 0
  if is_full s s0 then done (k, 0) else kmalloc_locked k slab_idx s size)

-- `addr - page` as a difference of pointers lies in a page.
abbrev pub in_page : (addr page : ℕ) → Bool
in_page addr page = ltb ((addr + int_mod - page) % int_mod) pgsize

-- `for (i = 1; i <= 100; i++)`, with the rounds left: entry 100 is behind the end of the array.
unfoldable pub find_page : ℕ → (i addr : ℕ) → List ℕ → Outcome ℕ
find_page zero i addr pages = done 0
find_page (suc n) i addr pages =
    let rest = find_page n (i + 1) addr pages in
    (do page ← read pages i; if in_page addr page then done i else rest)

-- `clearBitmap` and the counters.
unfoldable pub return_object : Slab → (offset : ℕ) → Outcome Slab
return_object s offset =
    if ltb (get_row offset) pgsize
    then (let (bitmap, was_set) = clear_bitmap s.bitmap offset in
        let cleared = record s { bitmap = bitmap } in
        done (
          if was_set
          then record cleared {
            num_free_objects = inc s.num_free_objects;
            num_used_objects = dec s.num_used_objects;
          }
          else cleared))
    else fault

-- A page other than the first is given back when its last object is. The entry of `page` stays.
unfoldable pub release_page :
    (kernel_end : ℕ) → Kmem → Slab → (page_num page : ℕ) → Outcome (Kmem × Slab)
release_page kernel_end m s page_num page =
    let start_offset = (page_num - 1) * s.num_objects_per_page in
    let end_offset = start_offset + s.num_objects_per_page - 1 in
    if not (page_num == 1) && check_empty start_offset end_offset s.bitmap
    then (elim (kfree kernel_end m page) [
      | none ↦ fault
      | some m' ↦ done (m', record s { num_pages = dec s.num_pages })
    ])
    else done (m, s)

-- Nothing is returned. The size is not rounded up to the size of a class, and an `addr` in no page
-- is not refused before entry 100 is read.
unfoldable pub kmfree : (kernel_end : ℕ) → Kernel → (addr size : ℕ) → Outcome Kernel
kmfree kernel_end k addr size = do
  let slab_idx = get_slab_idx size
  s ← read k.slabs slab_idx
  if s.num_used_objects == 0 then done k else (do
    let m = record k.kmem { mem = memset k.kmem.mem addr 1 size }
    page_num ← find_page 100 1 addr s.page
    page ← read s.page page_num
    let offset =
        (page_num - 1) * s.num_objects_per_page + (addr + int_mod - page) % int_mod / s.size
    s1 ← return_object s offset
    (m', s2) ← release_page kernel_end m s1 page_num page
    slabs ← write k.slabs slab_idx s2
    done (record { kmem = m'; slabs = slabs }))

unfoldable pub numobj_slab : Kernel → (slabid : ℕ) → Outcome ℕ
numobj_slab k slabid = do s ← read k.slabs slabid; done s.num_used_objects
