-- ===== src/Slab/Bitmap/Tests.antt =====
-- The theorems on the bitmap of src/slab.c, applied.
use a3team_os.Base.{ℕ, ◌≡◌, refl, arith, inl, true, some, List, [], ◌∷◌}
use a3team_os.Slab.Bits.{byte_bit, first_false}
use a3team_os.Slab.State.{Slab}
use a3team_os.Slab.Bitmap.{clear_columns, clear_rows, set_bitmap, check_empty}
use a3team_os.Slab.Bitmap.View.{Bytes, bits}
use a3team_os.Slab.Bitmap.Claim.{Claims, set_bitmap-some}
use a3team_os.Slab.Bitmap.Pages.{Unused, check_empty_iff}

-- Nine objects in use, the next two free, and one behind them in use.
abbrev rows : List ℕ
rows = 255 ∷ 9 ∷ []

rows-Bytes : Bytes rows
rows-Bytes = (omega arith, (omega arith, tt))

rows-first : first_false (bits rows) ≡ some 9
unfolding first_false byte_bit
rows-first = refl

set_bitmap-some_example : Claims 0 rows 9 (set_bitmap rows)
set_bitmap-some_example = set_bitmap-some rows rows-Bytes rows-first

-- A class with eight objects to a page, whose second page is not opened.
abbrev one_page : Slab
one_page = record {
  size = 512;
  num_pages = 1;
  num_free_objects = 792;
  num_used_objects = 8;
  num_objects_per_page = 8;
  bitmap = 255 ∷ 0 ∷ [];
  page = [];
}

one_page-Bytes : Bytes one_page.bitmap
one_page-Bytes = (omega arith, (omega arith, tt))

one_page-first : first_false (bits one_page.bitmap) ≡ some 8
unfolding first_false byte_bit
one_page-first = refl

second_page_clear : check_empty 8 15 one_page.bitmap ≡ true
unfolding check_empty clear_rows clear_columns byte_bit
second_page_clear = refl

one_page-Unused : Unused one_page.bitmap 8 8
one_page-Unused =
    (check_empty_iff 1 8 one_page.bitmap (inl (1, omega arith, refl))).0 second_page_clear

-- The next object lies inside a page.
abbrev half_page : Slab
half_page = record one_page { bitmap = 15 ∷ 0 ∷ [] }

half_page-first : first_false (bits half_page.bitmap) ≡ some 4
unfolding first_false byte_bit
half_page-first = refl
