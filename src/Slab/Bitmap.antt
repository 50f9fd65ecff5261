-- ===== src/Slab/Bitmap.antt =====
-- The bitmap operations of src/slab.c: which objects of a size class are in use.
--
-- The C functions take the index of the size class and work on its bitmap; here they take the
-- bitmap. A loop `for (i = a; i < PGSIZE; i++)` over the rows is a recursion on the list of bytes.
pub mod View
pub mod NewPage
pub mod Count
pub mod Pages
pub mod Claim
mod Tests
use a3team_os.Base.{
  ℕ, zero, suc, ◌+◌, ◌-◌, ◌*◌, ◌/◌, ◌%◌, ◌<◌, Bool, true, false, Option, none, some, List, [], ◌∷◌,
  ◌==◌, ltb, if◌then◌else◌, get_or, set,
}
use a3team_os.Slab.Bits.{extend, byte_bit, byte_set, byte_clear, free_column, count_columns}
use a3team_os.Slab.State.{Slab, pgsize}

abbrev pub return_offset : ℕ → ℕ → ℕ
return_offset row column = 8 * row + column

abbrev pub get_row : ℕ → ℕ
get_row offset = offset / 8

abbrev pub get_column : ℕ → ℕ
get_column offset = offset % 8

-- `setBitmap` from row `j` on, over the rows that are left: the new rows and the offset.
unfoldable pub set_rows : ℕ → List ℕ → List ℕ × ℕ
set_rows j [] = ([], 0)
set_rows j (b ∷ bm) =
    let rest : List ℕ × ℕ = (let (bm', o) = set_rows (j + 1) bm in (b ∷ bm', o)) in
    if extend b == 255 then rest else (elim (free_column 8 0 b) [
      | none ↦ rest
      | some k ↦ (byte_set b k ∷ bm, return_offset j k)
    ])

unfoldable pub set_bitmap : List ℕ → List ℕ × ℕ
set_bitmap bm = set_rows 0 bm

-- Bit `offset` of the bitmap, by row and column.
unfoldable pub bit_at : List ℕ → ℕ → Bool
bit_at bm offset = byte_bit (get_or bm (get_row offset) 0) (get_column offset)

unfoldable pub clear_bitmap : List ℕ → ℕ → List ℕ × Bool
clear_bitmap bm offset =
    let row = get_row offset in
    let column = get_column offset in
    let b = get_or bm row 0 in
    if byte_bit b column then (set bm row (byte_clear b column), true) else (bm, false)

-- The inner loop of `checkEmpty`: `n` columns from `j` on hold no set bit.
unfoldable pub clear_columns : ℕ → ℕ → ℕ → Bool
clear_columns zero j b = true
clear_columns (suc n) j b =
    let rest = clear_columns n (j + 1) b in if byte_bit b j then false else rest

-- Its outer loop, over `n` rows from `i` on.
unfoldable pub clear_rows : ℕ → ℕ → (start columns : ℕ) → List ℕ → Bool
clear_rows zero i start columns bm = true
clear_rows (suc n) i start columns bm =
    let rest = clear_rows n (i + 1) start columns bm in
    if clear_columns columns start (get_or bm i 0) then rest else false

unfoldable pub check_empty : (start_offset end_offset : ℕ) → List ℕ → Bool
check_empty start_offset end_offset bm =
    clear_rows (get_row end_offset + 1 - get_row start_offset) (get_row start_offset)
      (get_column start_offset) (get_column end_offset + 1 - get_column start_offset) bm

-- `checkNewpage` counts the bits that are set before the first clear one.
unfoldable pub count_rows : List ℕ → ℕ
count_rows [] = 0
count_rows (b ∷ bm) =
    let (c, found) = count_columns 8 0 b in
    let rest = c + count_rows bm in if found then c else rest

unfoldable pub check_newpage : Slab → ℕ
check_newpage s =
    let cnt = count_rows s.bitmap in
    let per = s.num_objects_per_page in
    let start_offset = cnt / per * per in
    let end_offset = start_offset + per - 1 in
    if cnt % per == 0
    then (if check_empty start_offset end_offset s.bitmap then start_offset else 0)
    else 0

-- `getpageNum`, classes 1024 and 2048: the pages of one row, `per` columns to a page.
unfoldable pub pages_of_row : ℕ → ℕ → (per : ℕ) → ℕ → ℕ
pages_of_row zero j per b = 0
pages_of_row (suc n) j per b =
    let rest = pages_of_row n (j + per) per b in if clear_columns per j b then rest else rest + 1

unfoldable pub pages_by_column : (per : ℕ) → List ℕ → ℕ
pages_by_column per [] = 0
pages_by_column per (b ∷ bm) = pages_of_row ((8 + per - 1) / per) 0 per b + pages_by_column per bm

-- The other classes: `rows` rows to a page. The inner loop looks for a row that is not zero.
unfoldable pub zero_rows : ℕ → ℕ → List ℕ → Bool
zero_rows zero j bm = true
zero_rows (suc n) j bm =
    let rest = zero_rows n (j + 1) bm in if get_or bm j 0 == 0 then rest else false

unfoldable pub pages_by_row : ℕ → ℕ → (rows : ℕ) → List ℕ → ℕ
pages_by_row zero i rows bm = 0
pages_by_row (suc n) i rows bm =
    let rest = pages_by_row n (i + rows) rows bm in if zero_rows rows i bm then rest else rest + 1

unfoldable pub get_page_num : (slab_idx : ℕ) → Slab → ℕ
get_page_num slab_idx s =
    if ltb slab_idx 7
    then pages_by_row ((pgsize + 512 / s.size - 1) / (512 / s.size)) 0 (512 / s.size) s.bitmap
    else pages_by_column (pgsize / s.size) s.bitmap
