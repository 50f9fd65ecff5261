-- ===== src/Slab/Alloc/Class.antt =====
-- The invariant of one size class, and what taking and returning an object do to it.
use a3team_os.Base.{
  ap, set-get_or, subst, ℕ, suc, ◌+◌, ◌*◌, ◌/◌, ◌≤◌, ◌<◌, ◌≡◌, refl, sym, ◌∙◌, true, false, some,
  arith, length, get_or, set, ltb, lt→ltb,
}
use a3team_os.Slab.Bits.{first_false}
use a3team_os.Slab.State.{Slab, Outcome, done, pgsize}
use a3team_os.Slab.Bitmap.{set_bitmap, clear_bitmap}
use a3team_os.Slab.Bitmap.View.{Bytes, bits, length-bits}
use a3team_os.Slab.Bitmap.Claim.{set_bitmap-some, clear_bitmap_lem, first_false-lt}
use a3team_os.Slab.Bitmap.Count.{
  count_true, count_true-le, first_false-exists, first_false-clear, count_true-set,
  count_true-unset,
}
use a3team_os.Slab.Alloc.{take_object, return_object}

-- The counters agree with the bitmap, and with the `total` number of objects of the class.
pub record IsClass (total : ℕ) (s : Slab) : Type 0 where
  pub bytes : Bytes s.bitmap
  pub rows : length s.bitmap ≡ pgsize
  pub used : s.num_used_objects ≡ count_true (bits s.bitmap)
  pub free : s.num_used_objects + s.num_free_objects ≡ total
  pub fits : total ≤ 8 * pgsize

-- The first free object, where one is left.
pub first_free :
    {total : ℕ} {s : Slab}
    → IsClass total s
    → s.num_used_objects < total
    → (k : ℕ) × (first_false (bits s.bitmap) ≡ some k) × (k ≤ s.num_used_objects)
first_free {s = s} v room =
    let (k, e, le) =
      first_false-exists (bits s.bitmap)
        (omega (arith, length-bits s.bitmap, v.used, v.rows, v.fits)) in
    (k, e, omega (arith, v.used))

-- Object `k` was free, is in use now, and nothing else has changed.
abbrev pub Takes : (total : ℕ) → Slab → (k : ℕ) → Slab × ℕ → Type 0
Takes total s k (s', offset) =
    (offset ≡ k)
    × (get_or (bits s.bitmap) k false ≡ false)
    × (bits s'.bitmap ≡ set (bits s.bitmap) k true)
    × (s'.num_used_objects ≡ s.num_used_objects + 1)
    × (s'.page ≡ s.page)
    × (s'.size ≡ s.size)
    × (s'.num_objects_per_page ≡ s.num_objects_per_page)
    × IsClass total s'

-- With an object left, the bookkeeping of `kmalloc` takes the first free one, whose number is at
-- most the number of objects in use, and keeps the counters in step with the bitmap.
pub take_object-Takes :
    {total : ℕ} (idx : ℕ) {s : Slab}
    → IsClass total s
    → s.num_used_objects < total
    → (k : ℕ) × (k ≤ s.num_used_objects)
      × (first_false (bits s.bitmap) ≡ some k)
      × Takes total s k (take_object idx s)
unfolding take_object
take_object-Takes {total} idx {s} v room =
    let (k, e, le) = first_free v room in
    let (at, new, small, len) = set_bitmap-some s.bitmap v.bytes e in
    let off : get_or (bits s.bitmap) k false ≡ false = first_false-clear (bits s.bitmap) k e in
    let low : k < length (bits s.bitmap) = first_false-lt (bits s.bitmap) e in
    let more : count_true (bits (set_bitmap s.bitmap).0) ≡ suc (count_true (bits s.bitmap)) =
      rw new (count_true-set (bits s.bitmap) k low off) in
    (
      k,
      le,
      e,
      (
        omega (arith, at),
        off,
        new,
        omega (arith, v.free, v.fits),
        refl,
        refl,
        refl,
        record {
          bytes = small;
          rows = len ∙ v.rows;
          used = omega (arith, v.used, v.free, v.fits, more);
          free = omega (arith, v.free, v.fits);
          fits = v.fits;
        },
      ),
    )

-- Object `o` is not in use, no other object has changed, and the counters agree.
abbrev pub Returns : (total : ℕ) → Slab → (o freed : ℕ) → Outcome Slab → Type 0
Returns total s o freed r =
    (s' : Slab) × (r ≡ done s')
    × (bits s'.bitmap ≡ set (bits s.bitmap) o false)
    × (s'.num_used_objects + freed ≡ s.num_used_objects)
    × (s'.page ≡ s.page)
    × (s'.size ≡ s.size)
    × (s'.num_objects_per_page ≡ s.num_objects_per_page)
    × IsClass total s'

module _ {total : ℕ} {s : Slab} (o : ℕ) (v : IsClass total s) (inside : o < 8 * pgsize) where
  in_bitmap : ltb (o / 8) pgsize ≡ true
  in_bitmap = lt→ltb _ _ (omega arith)

  -- Of a class that is valid, `kmfree` clears the bit of an object in use, changes no other bit,
  -- counts one object less in use, and keeps the counters in step.
  pub return_object-used :
      get_or (bits s.bitmap) o false ≡ true → Returns total s o 1 (return_object s o)
  unfolding return_object
  return_object-used on =
      let (was, new, small, len) = clear_bitmap_lem s.bitmap o v.bytes (omega (arith, v.rows)) in
      let less : suc (count_true (bits (clear_bitmap s.bitmap o).0)) ≡ count_true (bits s.bitmap) =
        rw new (count_true-unset (bits s.bitmap) o on) in
      let enough = count_true-le (bits s.bitmap) in
      rw (in_bitmap, was, on)
        (
          _,
          refl,
          new,
          omega (arith, v.used, v.free, v.fits, less),
          refl,
          refl,
          refl,
          record {
            bytes = small;
            rows = len ∙ v.rows;
            used = omega (arith, v.used, v.free, v.fits, less);
            free = omega (arith, v.used, v.free, v.fits, less);
            fits = v.fits;
          },
        )

  -- Of a class that is valid, an object that is free already is left alone, and so are the counters.
  pub return_object-free :
      get_or (bits s.bitmap) o false ≡ false → Returns total s o 0 (return_object s o)
  unfolding return_object
  return_object-free off =
      let (was, new, small, len) = clear_bitmap_lem s.bitmap o v.bytes (omega (arith, v.rows)) in
      let same : bits (clear_bitmap s.bitmap o).0 ≡ bits s.bitmap =
        new
        ∙ subst (λ b. set (bits s.bitmap) o b ≡ bits s.bitmap) off
            (set-get_or (bits s.bitmap) o false) in
      rw (in_bitmap, was, off)
        (
          _,
          refl,
          new,
          omega arith,
          refl,
          refl,
          refl,
          record {
            bytes = small;
            rows = len ∙ v.rows;
            used = v.used ∙ ap count_true (sym same);
            free = v.free;
            fits = v.fits;
          },
        )
