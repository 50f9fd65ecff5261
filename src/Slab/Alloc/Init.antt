-- ===== src/Slab/Alloc/Init.antt =====
-- `slabinit`: every class starts valid and unused.
use a3team_os.Base.{
  ℕ, zero, suc, ◌+◌, ◌*◌, ◌/◌, ◌^◌, ◌≤◌, ◌<◌, ◌≡◌, refl, sym, some, arith, inl, inr, get_elem?,
  replicate, length-replicate, ==-ne, ◌==◌, if◌then◌else◌,
}
use native.Mathlib.Nat.{pow-suc}
use a3team_os.Kalloc.{Kmem}
use a3team_os.Slab.State.{Slab, pgsize, nslab, max_pages_per_slab}
use a3team_os.Slab.Bits.{byte_bit}
use a3team_os.Slab.Bitmap.View.{Bytes, bits}
use a3team_os.Slab.Bitmap.Count.{count_true}
use a3team_os.Slab.Bitmap.Pages.{IsPerPage}
use a3team_os.Slab.Alloc.{init_class, init_classes, slabinit}
use a3team_os.Slab.Alloc.Class.{IsClass}
use a3team_os.Slab.Alloc.Layout.{Fills}
use a3team_os.Slab.Alloc.Placing.{IsSized, IsValid}

pub Bytes-zeros : (n : ℕ) → Bytes (replicate n 0)
Bytes-zeros zero = tt
Bytes-zeros (suc n) = (omega arith, Bytes-zeros n)

pub count_true-zeros : (n : ℕ) → count_true (bits (replicate n 0)) ≡ 0
unfolding byte_bit
count_true-zeros zero = refl
count_true-zeros (suc n) = count_true-zeros n

-- What `slabinit` puts into class `idx`.
abbrev pub Fresh : (idx : ℕ) → Slab → Type 0
Fresh idx s = IsValid idx s × (s.num_used_objects ≡ 0) × (s.num_pages ≡ 1)

init_class-counts :
    (m : Kmem) (size t : ℕ)
    → 4096 / size * t ≤ 8 * pgsize
    → IsClass (4096 / size * t) (init_class m size t).1
unfolding init_class
init_class-counts m size t h = record {
  bytes = Bytes-zeros pgsize;
  rows = length-replicate {A = ℕ} pgsize 0;
  used = sym (count_true-zeros pgsize);
  free = omega arith;
  fits = h;
}

init_class-IsSized :
    (m : Kmem) (idx size t : ℕ)
    → size ≡ 2 ^ (idx + 3)
    → Fills (4096 / size) size
    → IsPerPage (4096 / size)
    → IsSized idx (init_class m size t).1
unfolding init_class
init_class-IsSized m idx size t e full shape = record {
  size_eq = e;
  full = full;
  shape = shape;
  pages = refl;
}

-- The sizes of the nine classes.
shapes :
    (idx : ℕ)
    → idx < 9
    → IsPerPage (4096 / (8 * 2 ^ idx))
      × Fills (4096 / (8 * 2 ^ idx)) (8 * 2 ^ idx)
      × (8 * 2 ^ idx ≡ 2 ^ (idx + 3))
      × (4096 / (8 * 2 ^ idx) * (if idx == 0 then 64 else 100) ≤ 32768)
shapes zero h = (inl (64, omega arith, refl), refl, refl, omega arith)
shapes (suc zero) h = (inl (32, omega arith, refl), refl, refl, omega arith)
shapes (suc (suc zero)) h = (inl (16, omega arith, refl), refl, refl, omega arith)
shapes (suc (suc (suc zero))) h = (inl (8, omega arith, refl), refl, refl, omega arith)
shapes (suc (suc (suc (suc zero)))) h = (inl (4, omega arith, refl), refl, refl, omega arith)
shapes (suc (suc (suc (suc (suc zero))))) h = (inl (2, omega arith, refl), refl, refl, omega arith)
shapes (suc (suc (suc (suc (suc (suc zero)))))) h =
    (inl (1, omega arith, refl), refl, refl, omega arith)
shapes (suc (suc (suc (suc (suc (suc (suc zero))))))) h = (inr (inl refl), refl, refl, omega arith)
shapes (suc (suc (suc (suc (suc (suc (suc (suc zero)))))))) h =
    (inr (inr refl), refl, refl, omega arith)
shapes (suc (suc (suc (suc (suc (suc (suc (suc (suc idx))))))))) h = absurd (omega arith)

init_class-Fresh :
    (m : Kmem) (idx t : ℕ)
    → idx < 9
    → (if idx == 0 then 64 else max_pages_per_slab) ≡ t
    → Fresh idx (init_class m (8 * 2 ^ idx) t).1
unfolding init_class
init_class-Fresh m idx t h e =
    let (shape, full, size, le) = shapes idx h in
    rw (← e) (
      (
        init_class-IsSized m idx (8 * 2 ^ idx) _ size full shape,
        init_class-counts m (8 * 2 ^ idx) _ le,
      ),
      refl,
      refl,
    )

twice : (j k : ℕ) → k ≡ suc j → 8 * 2 ^ j * 2 ≡ 8 * 2 ^ k
twice j k e = rw e (omega (arith, pow-suc 2 j))

-- The classes behind class `j`.
init_classes-Fresh :
    (n j i : ℕ) (m : Kmem)
    → i < n
    → j + n < 9
    → (s : Slab) × (get_elem? (init_classes n m (8 * 2 ^ j)).1 i ≡ some s) × Fresh (j + 1 + i) s
unfolding init_classes
init_classes-Fresh zero j i m h k = absurd (omega arith)
init_classes-Fresh (suc n) j zero m h k =
    let e : 8 * 2 ^ j * 2 ≡ 8 * 2 ^ (j + 1 + 0) = twice j _ (omega arith) in
    rw e (
      _,
      refl,
      init_class-Fresh m (j + 1 + 0) max_pages_per_slab (omega arith)
          (rw (==-ne (j + 1 + 0) 0 (λ z. omega arith))),
    )
init_classes-Fresh (suc n) j (suc i) m h k =
    let e : 8 * 2 ^ j * 2 ≡ 8 * 2 ^ (j + 1) = twice j _ (omega arith) in
    let k' : j + 1 + 1 + i ≡ j + 1 + suc i = omega arith in
    rw (e, ← k') (init_classes-Fresh n (j + 1) i _ (omega arith) (omega arith))

-- After `slabinit` each of the nine classes is valid, with the size, the number of objects per page
-- and the counters of an empty class, and holds one page.
pub slabinit-Fresh :
    (m : Kmem) (idx : ℕ)
    → idx < nslab
    → (s : Slab) × (get_elem? (slabinit m).slabs idx ≡ some s) × Fresh idx s
unfolding slabinit
slabinit-Fresh m zero h = (_, refl, init_class-Fresh m 0 64 (omega arith) refl)
slabinit-Fresh m (suc idx) h =
    let e : 0 + 1 + idx ≡ suc idx = omega arith in
    rw e at (init_classes-Fresh 8 0 idx (init_class m 8 64).0 (omega arith) (omega arith))
