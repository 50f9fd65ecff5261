-- ===== src/Fs/Tests.antt =====
-- The theorems on src/fs.c, applied.
use a3team_os.Base.{
  zero, suc, ◌/◌, ◌<◌, get_or, arith, ℕ, ◌≡◌, refl, some, List, [], ◌∷◌, replicate,
}
use a3team_os.Fs.{Super, Disk, find_bit, find_block, balloc, take_block}
use a3team_os.Fs.Bitmap.{IsMap, Allocates, balloc-Allocates}
use a3team_os.Fs.Path.{skip_slashes, split_elem, skipelem}
use a3team_os.Fs.Path.Name.{IsNamed}
use a3team_os.Fs.Path.Elements.{Elements, skipelem-Elements}

-- Sixteen blocks, of which the first three are in use; block 2 is the map.
abbrev small : Super
small = record {
  size = 16;
  nblocks = 12;
  ninodes = 8;
  nlog = 0;
  logstart = 2;
  inodestart = 3;
  bmapstart = 2;
}

abbrev disk : Disk
disk = record { block = λ b. 7 ∷ replicate 511 0; logged = [] }

gives_third : balloc small disk ≡ some (take_block small disk 0 3)
unfolding balloc find_block find_bit
gives_third = refl

zeros_small : (n i : ℕ) → get_or (replicate n 0) i 0 < 256
zeros_small zero i = omega arith
zeros_small (suc n) zero = omega arith
zeros_small (suc n) (suc i) = zeros_small n i

disk-IsMap : IsMap small disk
disk-IsMap = record {
  bytes = λ b i. byte i;
  full = λ b. refl;
  in_use = λ b h. let first : b / 4096 ≡ 0 = omega arith in rw first refl;
}
  where
    byte : (i : ℕ) → get_or (7 ∷ replicate 511 0) i 0 < 256
    byte zero = omega arith
    byte (suc i) = zeros_small 511 i

balloc-Allocates_example : Allocates small disk (take_block small disk 0 3)
balloc-Allocates_example = balloc-Allocates small disk disk-IsMap gives_third

-- The path "/a//b" and a name buffer of fourteen zeros.
abbrev path : List ℕ
path = 47 ∷ 97 ∷ 47 ∷ 47 ∷ 98 ∷ []

abbrev name : List ℕ
name = replicate 14 0

first_element : skipelem path name ≡ some (98 ∷ [], 97 ∷ 0 ∷ replicate 12 0)
unfolding skipelem skip_slashes split_elem
first_element = refl

skipelem-Elements_example :
    (elem_ : List ℕ) × Elements elem_ path (98 ∷ []) × IsNamed elem_ name (97 ∷ 0 ∷ replicate 12 0)
skipelem-Elements_example = skipelem-Elements path name refl first_element
