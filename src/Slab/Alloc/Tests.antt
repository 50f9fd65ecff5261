-- ===== src/Slab/Alloc/Tests.antt =====
-- The theorems on `slabinit`, `kmalloc` and the counters of src/slab.c, applied.
use a3team_os.Base.{
  ◌+◌, ◌/◌, ◌≢◌, set, get_or, get_or-set_self, replicate, [], ◌∷◌, length-replicate, ℕ, suc, ◌*◌,
  ◌<◌, ◌≡◌, refl, sym, arith, inr, false, ap,
}
use a3team_os.Kalloc.{Kmem}
use a3team_os.Slab.Bits.{byte_bit}
use a3team_os.Slab.SizeClass.{get_slab_idx, next_power_of_2}
use a3team_os.Slab.State.{Slab, Kernel, done}
use a3team_os.Slab.Alloc.{slabinit, kmalloc, is_full}
use a3team_os.Slab.Alloc.Class.{IsClass, first_free}
use a3team_os.Slab.Alloc.Init.{count_true-zeros, Bytes-zeros, Fresh, slabinit-Fresh}
use a3team_os.Slab.Alloc.Layout.{per-pos}
use a3team_os.Slab.Alloc.Kmalloc.{
  HasPage, first_false_unique, Request, Allocated, kmalloc-Allocated, kmalloc-bad_size,
}
use a3team_os.Slab.Alloc.Placing.{IsValid, IsValid-page, total}

abbrev no_memory : Kmem
no_memory = record { freelist = 0; mem = λ a. 0 }

abbrev booted : Kernel
booted = slabinit no_memory

abbrev class4 : Slab
class4 = (slabinit-Fresh no_memory 4 (omega arith)).0

abbrev class0 : Slab
class0 = (slabinit-Fresh no_memory 0 (omega arith)).0

class4-Fresh : Fresh 4 class4
class4-Fresh = (slabinit-Fresh no_memory 4 (omega arith)).2

class0-Fresh : Fresh 0 class0
class0-Fresh = (slabinit-Fresh no_memory 0 (omega arith)).2

class_of_100 : get_slab_idx (next_power_of_2 100) ≡ 4
unfolding get_slab_idx next_power_of_2
class_of_100 = refl

room4 : class4.num_used_objects < total 4 class4
room4 = omega (arith, class4-Fresh.1, per-pos _ _ class4-Fresh.0.0.full)

-- A class of 128 bytes whose first page is there, and a page allocator with one page.
abbrev paged4 : Slab
paged4 = record class4 { page = set class4.page 1 0x80400000 }

abbrev kernel : Kernel
kernel = record {
  kmem = record { freelist = 0x80200000; mem = λ a. 0 };
  slabs = class0 ∷ class0 ∷ class0 ∷ class0 ∷ paged4 ∷ [];
}

request : Request kernel 100 paged4 class0
unfolding get_slab_idx next_power_of_2
request = record { positive = omega arith; small = omega arith; class = refl; class0 = refl }

not_full : is_full paged4 class0 ≡ false
not_full = ground (
  arith,
  class4-Fresh.1,
  class0-Fresh.1,
  per-pos _ _ class4-Fresh.0.0.full,
  per-pos _ _ class0-Fresh.0.0.full,
)

paged4-IsValid : IsValid 4 paged4
paged4-IsValid = IsValid-page 4 class4 1 0x80400000 class4-Fresh.0

-- The first free object is object 0, in page 1.
paged4-HasPage : HasPage kernel.kmem paged4
paged4-HasPage o first =
    let (o', first', le) = first_free paged4-IsValid.1 room4 in
    let zero_th : o ≡ 0 = omega (arith, le, first_false_unique _ first first', class4-Fresh.1) in
    (
      (λ opens. absurd (opens.0 zero_th)),
      (λ closed.
          rw zero_th (there class4.num_objects_per_page (per-pos _ _ class4-Fresh.0.0.full))),
    )
  where
    there : (per : ℕ) → 0 < per → get_or (set class4.page 1 0x80400000) (0 / per + 1) 0 ≢ 0
    there per h =
        let first_page : 0 / per + 1 ≡ 1 = omega arith in
        rw
          (
            first_page,
            get_or-set_self class4.page 1 0x80400000 0 (rw class4-Fresh.0.0.pages (omega arith)),
          )
          (λ e. absurd (omega arith))

kmalloc-Allocated_example :
    (k' : Kernel) × (addr : ℕ) × (kmalloc kernel 100 ≡ done (k', addr))
    × Allocated kernel (get_slab_idx (next_power_of_2 100)) paged4 100 k' addr
kmalloc-Allocated_example =
    kmalloc-Allocated kernel 100 paged4 class0 request (rw class_of_100 paged4-IsValid) not_full
      (rw class_of_100 room4) (omega (arith, class4-Fresh.1, per-pos _ _ class4-Fresh.0.0.full))
      paged4-HasPage

abbrev full0 : Slab
full0 = record class0 { num_used_objects = class0.num_objects_per_page * 64 }

abbrev exhausted : Kernel
exhausted = record { kmem = no_memory; slabs = full0 ∷ [] }

request5 : Request exhausted 5 full0 full0
unfolding get_slab_idx next_power_of_2
request5 = record { positive = omega arith; small = omega arith; class = refl; class0 = refl }

kmalloc-bad_size_example : kmalloc booted 2049 ≡ done (booted, 0)
kmalloc-bad_size_example = kmalloc-bad_size booted 2049 (inr (omega arith))

-- A class with object 1 in use.
abbrev one_used : Slab
one_used = record class4 {
  bitmap = 2 ∷ replicate 4095 0;
  num_used_objects = 1;
  num_free_objects = 9;
}

one_used-IsClass : IsClass 10 one_used
unfolding byte_bit
one_used-IsClass = record {
  bytes = (omega arith, Bytes-zeros 4095);
  rows = ap suc (length-replicate {A = ℕ} 4095 0);
  used = ap suc (sym (count_true-zeros 4095));
  free = refl;
  fits = omega arith;
}
