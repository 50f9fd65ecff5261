-- ===== src/Fs/Path.antt =====
-- Directories and paths, src/fs.c.
--
-- A path is its bytes without the terminating 0. The name buffer has 14 bytes.
pub mod Name
pub mod Elements
use a3team_os.Base.{
  ℕ, zero, suc, ◌+◌, ◌-◌, ◌*◌, ◌/◌, ◌%◌, ◌^◌, ◌<◌, Bool, true, false, not, ◌&&◌, ◌||◌, Option, none,
  some, List, [], ◌∷◌, ◌++◌, ◌==◌, ltb, leb, if◌then◌else◌, get_or, get_elem?, set, take, drop,
  length,
}
use a3team_os.Base.Maybe.{◌>>=◌}
use a3team_os.Fs.{Super, Disk, get16, put16}
use a3team_os.Fs.Inode.{Inode, iget}
use a3team_os.Fs.Content.{readi, writei, iput}

abbrev pub dirsiz : ℕ
dirsiz = 14

-- The size of `struct dirent`.
abbrev pub dirent_size : ℕ
dirent_size = 16

abbrev pub slash : ℕ
slash = 47

abbrev pub t_dir : ℕ
t_dir = 1

-- `while (*path == '/') path++;`
unfoldable pub skip_slashes : List ℕ → List ℕ
skip_slashes [] = []
skip_slashes (c ∷ path) = let rest = skip_slashes path in if c == slash then rest else c ∷ path

-- `while (*path != '/' && *path != 0) path++;`: what is passed over, and what is left.
unfoldable pub split_elem : List ℕ → List ℕ × List ℕ
split_elem [] = ([], [])
split_elem (c ∷ path) =
    let (elem_, rest) = split_elem path in if c == slash then ([], c ∷ path) else (c ∷ elem_, rest)

-- The name buffer with the element: cut at 14 bytes, or ended by a 0.
abbrev pub put_name : (elem_ name : List ℕ) → List ℕ
put_name elem_ name =
    if leb dirsiz (length elem_)
    then take dirsiz elem_
    else elem_ ++ (0 ∷ drop (length elem_ + 1) name)

-- The first element of a path without slashes at its front.
abbrev pub next_elem : (path name : List ℕ) → Option (List ℕ × List ℕ)
next_elem [] name = none
next_elem (c ∷ cs) name =
    let (elem_, rest) = split_elem (c ∷ cs) in some (skip_slashes rest, put_name elem_ name)

-- The rest of the path and the name; `none` is the result 0.
unfoldable pub skipelem : (path name : List ℕ) → Option (List ℕ × List ℕ)
skipelem path name = next_elem (skip_slashes path) name

-- `namecmp(s, t) == 0`, with the rounds left of `strncmp`; behind the end of a list stands a 0.
unfoldable pub same_name : ℕ → List ℕ → List ℕ → Bool
same_name zero s t = true
same_name (suc n) s t =
    let rest = same_name n (drop 1 s) (drop 1 t) in
    if get_or s 0 0 == get_or t 0 0 then (if get_or s 0 0 == 0 then true else rest) else false

-- The loop of `dirlookup` at offset `off`, with the rounds left: the number and the offset of the
-- entry. A short read is a panic.
unfoldable pub find_entry :
    ℕ → (off : ℕ) → (name : List ℕ) → Super → Disk → Inode → Option (Inode × Disk × Option (ℕ × ℕ))
find_entry zero off name sb d dp = some (dp, d, none)
find_entry (suc n) off name sb d dp =
    let look = (do
      (dp1, d1, got) ← readi sb d dp off dirent_size
      de ← got
      let inum = get16 de 0
      let rest = find_entry n (off + dirent_size) name sb d1 dp1
      (if not (length de == dirent_size)
          then none
          else if inum == 0
          then rest
          else if same_name dirsiz name (drop 2 de)
          then some (dp1, d1, some (inum, off))
          else rest)) in
    if ltb off dp.size then look else some (dp, d, none)

-- The entries of a directory of `size` bytes, the last one perhaps cut.
abbrev pub entries : ℕ → ℕ
entries size = (size + dirent_size - 1) / dirent_size

-- The answer of `dirlookup`: the entry that `iget` gives, and the offset.
abbrev pub looked_up :
    Disk → List Inode → (dev : ℕ) → Option (ℕ × ℕ) → Option (Disk × List Inode × Option (ℕ × ℕ))
looked_up d ips dev none = some (d, ips, none)
looked_up d ips dev (some (inum, off)) = do
  (ips', i) ← iget ips dev inum
  some (d, ips', some (i, off))

-- The directory is entry `dp` of the cache; the result has the entry of the inode that is found.
unfoldable pub dirlookup :
    Super
    → Disk
    → List Inode
    → (dp : ℕ) → (name : List ℕ) → Option (Disk × List Inode × Option (ℕ × ℕ))
dirlookup sb d ips dp name = do
  dir ← get_elem? ips dp
  (if not (dir.kind == t_dir) then none else (do
    (dir1, d1, found) ← find_entry (entries dir.size) 0 name sb d dir
    looked_up d1 (set ips dp dir1) dir.dev found))

-- The second loop of `dirlink`: the offset of the first empty entry, or of the end.
unfoldable pub find_empty : ℕ → (off : ℕ) → Super → Disk → Inode → Option (Inode × Disk × ℕ)
find_empty zero off sb d dp = some (dp, d, off)
find_empty (suc n) off sb d dp =
    let look = (do
      (dp1, d1, got) ← readi sb d dp off dirent_size
      de ← got
      let rest = find_empty n (off + dirent_size) sb d1 dp1
      (if not (length de == dirent_size)
          then none
          else if get16 de 0 == 0
          then some (dp1, d1, off)
          else rest)) in
    if ltb off dp.size then look else some (dp, d, off)

-- `strncpy` of a name into the fourteen bytes of an entry: zeros behind the first 0.
abbrev pub pad_name : (n : ℕ) → List ℕ → List ℕ
pad_name zero name = []
pad_name (suc n) [] = 0 ∷ pad_name n []
pad_name (suc n) (c ∷ name) =
    let rest = pad_name n name in if c == 0 then 0 ∷ pad_name n [] else c ∷ rest

-- A new entry is written; the inner Boolean is false for -1.
unfoldable pub add_entry :
    Super
    → Disk
    → List Inode
    → (dp : ℕ) → (name : List ℕ) → (inum : ℕ) → Option (Disk × List Inode × Bool)
add_entry sb d ips dp name inum = do
  dir ← get_elem? ips dp
  (dir1, d1, off) ← find_empty (entries dir.size) 0 sb d dir
  (dir2, d2, written) ← writei sb d1 dir1 off (put16 (0 ∷ 0 ∷ pad_name dirsiz name) 0 inum)
  (if written then some (d2, set ips dp dir2, true) else none)
