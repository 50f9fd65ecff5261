-- ===== src/Slab/Bitmap/NewPage.antt =====
-- `checkNewpage`: does the next object open a page?
use a3team_os.Base.{
  ℕ, ◌+◌, ◌-◌, ◌*◌, ◌/◌, ◌%◌, ◌≡◌, ◌≢◌, ◌⊎◌, refl, true, some, arith, ◌==◌, Bool-cases, inl, inr,
}
use a3team_os.Slab.Bits.{first_false}
use a3team_os.Slab.State.{Slab}
use a3team_os.Slab.Bitmap.{count_rows, check_empty, check_newpage}
use a3team_os.Slab.Bitmap.View.{Bytes, bits}
use a3team_os.Slab.Bitmap.Count.{count_rows-first}
use a3team_os.Slab.Bitmap.Pages.{IsPerPage, Unused, check_empty_iff}
use native.Mathlib.Nat.{div-add-mod'}

module _ (s : Slab) {k : ℕ} (small : Bytes s.bitmap) (first : first_false (bits s.bitmap) ≡ some k)
    (shape : IsPerPage s.num_objects_per_page) where
  -- The first free object opens a page: its offset is the answer.
  pub check_newpage-opens :
      k % s.num_objects_per_page ≡ 0
      → Unused s.bitmap k s.num_objects_per_page
      → check_newpage s ≡ k
  unfolding check_newpage
  check_newpage-opens at_start empty =
      let per = s.num_objects_per_page in
      let cnt : count_rows s.bitmap ≡ k = count_rows-first s.bitmap small first in
      let whole : k / per * per ≡ k = omega (arith, div-add-mod' k per, at_start) in
      let clean : check_empty (k / per * per) (k / per * per + per - 1) s.bitmap ≡ true =
        (check_empty_iff (k / per) per s.bitmap shape).1 (rw whole empty) in
      rw (cnt, clean, at_start) whole

  -- In every other case the answer is 0.
  pub check_newpage-inside :
      (k % s.num_objects_per_page ≢ 0) ⊎ (¬ Unused s.bitmap k s.num_objects_per_page)
      → check_newpage s ≡ 0
  unfolding check_newpage
  check_newpage-inside why =
      let per = s.num_objects_per_page in
      let cnt : count_rows s.bitmap ≡ k = count_rows-first s.bitmap small first in
      rw cnt (elim (Bool-cases (k % per == 0)) [
        | inr n ↦ rw n
        | inl e ↦
            elim (Bool-cases (check_empty (k / per * per) (k / per * per + per - 1) s.bitmap)) [
              | inr n ↦ rw (e, n)
              | inl clean ↦
                  let at_start : k % per ≡ 0 = ground arith in
                  let whole : k / per * per ≡ k = omega (arith, div-add-mod' k per, at_start) in
                  let empty : Unused s.bitmap (k / per * per) per =
                    (check_empty_iff (k / per) per s.bitmap shape).0 clean in
                  absurd (elim why [ inl ne ↦ ne at_start | inr used ↦ used (rw whole at empty) ])
            ]
      ])

  -- Whatever the answer, it is 0 or the offset of the first free object, which opens a page then.
  pub check_newpage-cases :
      (check_newpage s ≡ 0)
      ⊎ ((check_newpage s ≡ k)
          × (k % s.num_objects_per_page ≡ 0)
          × Unused s.bitmap k s.num_objects_per_page)
  unfolding check_newpage
  check_newpage-cases =
      let per = s.num_objects_per_page in
      let cnt : count_rows s.bitmap ≡ k = count_rows-first s.bitmap small first in
      rw cnt (elim (Bool-cases (k % per == 0)) [
        | inr n ↦ rw n (inl refl)
        | inl e ↦
            elim (Bool-cases (check_empty (k / per * per) (k / per * per + per - 1) s.bitmap)) [
              | inr n ↦ rw (e, n) (inl refl)
              | inl clean ↦
                  let at_start : k % per ≡ 0 = ground arith in
                  let whole : k / per * per ≡ k = omega (arith, div-add-mod' k per, at_start) in
                  let empty : Unused s.bitmap (k / per * per) per =
                    (check_empty_iff (k / per) per s.bitmap shape).0 clean in
                  rw (e, clean) (inr (whole, at_start, rw whole at empty))
            ]
      ])
