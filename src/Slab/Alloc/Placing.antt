-- ===== src/Slab/Alloc/Placing.antt =====
-- The object that `kmalloc` of src/slab.c takes, and its bookkeeping.
use a3team_os.Base.{
  ap, get_or-some, ℕ, ◌+◌, ◌*◌, ◌/◌, ◌%◌, ◌^◌, ◌≤◌, ◌<◌, ◌≡◌, refl, sym, ◌∙◌, true, false, some,
  List, arith, ◌==◌, if◌then◌else◌, length, get_or, set, get_elem?, length-set, lt→ltb,
}
use a3team_os.Memory.Block.{memset_lem}
use a3team_os.Kalloc.{Kmem}
use a3team_os.Slab.Bits.{first_false}
use a3team_os.Slab.State.{Slab, Kernel, done, read, write, max_pages_per_slab}
use a3team_os.Slab.Bitmap.View.{bits}
use a3team_os.Slab.Bitmap.Pages.{IsPerPage}
use a3team_os.Slab.Alloc.{place_object, take_object, object_address}
use a3team_os.Slab.Alloc.Class.{IsClass, take_object-Takes}
use a3team_os.Slab.Alloc.Layout.{Fills, row-lt, slot-le}

-- Class `idx` as `slabinit` lays it out. It offers the objects of 100 pages, class 0 those of 64.
pub record IsSized (idx : ℕ) (s : Slab) : Type 0 where
  pub size_eq : s.size ≡ 2 ^ (idx + 3)
  pub full : Fills s.num_objects_per_page s.size
  pub shape : IsPerPage s.num_objects_per_page
  pub pages : length s.page ≡ max_pages_per_slab

abbrev pub total : ℕ → Slab → ℕ
total idx s = s.num_objects_per_page * (if idx == 0 then 64 else max_pages_per_slab)

abbrev pub IsValid : ℕ → Slab → Type 0
IsValid idx s = IsSized idx s × IsClass (total idx s) s

pub read-some {ℓ} :
    {A : Type ℓ} (xs : List A) (i : ℕ) {x : A} → get_elem? xs i ≡ some x → read xs i ≡ done x
read-some xs i e = rw (e, read)

write-done {ℓ} :
    {A : Type ℓ} (xs : List A) (i : ℕ) (v : A) → i < length xs → write xs i v ≡ done (set xs i v)
write-done xs i v h = rw (lt→ltb _ _ h)

-- What the bookkeeping leaves behind for an object of class `idx`, which was `s` before.
pub record Placed (k : Kernel) (idx : ℕ) (s : Slab) (size : ℕ) (k' : Kernel) (addr : ℕ)
    : Type 0 where
  pub offset : ℕ
  pub after : Slab
  pub was_free : get_or (bits s.bitmap) offset false ≡ false
  pub taken : bits after.bitmap ≡ set (bits s.bitmap) offset true
  pub counted : after.num_used_objects ≡ s.num_used_objects + 1
  pub valid : IsValid idx after
  pub slabs : k'.slabs ≡ set k.slabs idx after
  pub address :
      addr
      ≡ get_or after.page (offset / s.num_objects_per_page + 1) 0
        + offset % s.num_objects_per_page * s.size
  pub in_page : offset % s.num_objects_per_page * s.size + s.size ≤ 4096
  pub zeroed : (i : ℕ) → i < size → k'.kmem.mem (addr + i) ≡ 0

-- A new entry of `page` keeps the class valid.
pub IsValid-page :
    (idx : ℕ) (s : Slab) (i a : ℕ)
    → IsValid idx s
    → IsValid idx (record s { page = set s.page i a })
IsValid-page idx s i a (sized, counts) = (
  record {
    size_eq = sized.size_eq;
    full = sized.full;
    shape = sized.shape;
    pages = length-set s.page i a ∙ sized.pages;
  },
  record {
    bytes = counts.bytes;
    rows = counts.rows;
    used = counts.used;
    free = counts.free;
    fits = counts.fits;
  },
)

module _ (k : Kernel) (idx : ℕ) (size : ℕ) (m : Kmem) (s : Slab) (inside : idx < length k.slabs)
    (v : IsValid idx s) (room : s.num_used_objects < total idx s)
    (low : s.num_used_objects < 99 * s.num_objects_per_page) where
  pub place_object-Placed :
      (k' : Kernel) × (addr : ℕ) × (place_object k idx m s size ≡ done (k', addr))
      × (p : Placed k idx s size k' addr) × (first_false (bits s.bitmap) ≡ some p.offset)
      × (p.after.page ≡ s.page)
      × (k'.kmem.freelist ≡ m.freelist)
  unfolding place_object object_address
  place_object-Placed =
      let (o, le, first, (at, off, on, more, page, same_size, per, ok)) =
        take_object-Takes idx v.1 room in
      let after = (take_object idx s).0 in
      let row : o / s.num_objects_per_page < 99 =
        row-lt s.num_objects_per_page s.size v.0.full 99 o (omega (arith, le, low)) in
      let entry : get_elem? after.page (o / s.num_objects_per_page + 1)
          ≡ some (get_or after.page (o / s.num_objects_per_page + 1) 0) =
        get_or-some after.page (o / s.num_objects_per_page + 1) 0
          (rw (page, v.0.pages) (omega (arith, row))) in
      rw (at, per, read-some after.page _ entry, write-done k.slabs idx after inside)
        (
          _,
          _,
          refl,
          record {
            offset = o;
            after = after;
            was_free = off;
            taken = on;
            counted = more;
            valid = (
              record {
                size_eq = same_size ∙ v.0.size_eq;
                full = rw (per, same_size) v.0.full;
                shape = rw per v.0.shape;
                pages = ap length page ∙ v.0.pages;
              },
              rw per ok,
            );
            slabs = refl;
            address =
                ap
                  (λ t.
                    get_or after.page (o / s.num_objects_per_page + 1) 0
                    + o % s.num_objects_per_page * t)
                  (sym v.0.size_eq);
            in_page = slot-le s.num_objects_per_page s.size v.0.full o;
            zeroed = λ i h. memset_lem m.mem _ 0 size _ ∙ ground arith;
          },
          first,
          page,
          refl,
        )
