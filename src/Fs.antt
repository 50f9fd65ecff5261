-- ===== src/Fs.antt =====
-- The layers of blocks and inodes of the file system, src/fs.c.
--
-- Blocks are 512 bytes. The buffer cache is what src/bio.c and src/log.c promise to fs.c: `bread`
-- gives the current contents of a block; a change of a block followed by `log_write` makes it the
-- current contents in the transaction, and the numbers of the logged blocks are kept in order.
-- There is one device. `none` is a panic. Locks of inodes and counts of transactions are those of `Inodes`.
pub mod Inode
pub mod Content
pub mod Path
pub mod Bitmap
mod Tests
use a3team_os.Base.{
  ℕ, zero, suc, ◌+◌, ◌-◌, ◌*◌, ◌/◌, ◌%◌, ◌^◌, ◌<◌, Bool, true, false, not, ◌&&◌, ◌||◌, Option, none,
  some, List, [], ◌∷◌, ◌++◌, ◌==◌, ltb, leb, if◌then◌else◌, get_or, set, replicate, bit_and, bit_or,
}
use a3team_os.Base.Maybe.{◌>>=◌}

abbrev pub bsize : ℕ
bsize = 512

-- Bits of the free map in a block.
abbrev pub bpb : ℕ
bpb = bsize * 8

-- `struct superblock`
pub record Super : Type 0 where
  pub size : ℕ
  pub nblocks : ℕ
  pub ninodes : ℕ
  pub nlog : ℕ
  pub logstart : ℕ
  pub inodestart : ℕ
  pub bmapstart : ℕ

-- The blocks as the buffer cache has them, and the numbers given to `log_write`.
pub record Disk : Type 0 where
  pub block : ℕ → List ℕ
  pub logged : List ℕ

-- A changed block, logged.
abbrev pub log_block : Disk → (blockno : ℕ) → List ℕ → Disk
log_block d blockno bytes = record {
  block = λ b. if b == blockno then bytes else d.block b;
  logged = d.logged ++ (blockno ∷ []);
}

-- A little-endian `uint` and `short` in the bytes of a block.
abbrev pub get16 : List ℕ → ℕ → ℕ
get16 bytes i = get_or bytes i 0 + 2 ^ 8 * get_or bytes (i + 1) 0

abbrev pub get32 : List ℕ → ℕ → ℕ
get32 bytes i = get16 bytes i + 2 ^ 16 * get16 bytes (i + 2)

abbrev pub put16 : List ℕ → ℕ → ℕ → List ℕ
put16 bytes i v = set (set bytes i (v % 2 ^ 8)) (i + 1) (v / 2 ^ 8 % 2 ^ 8)

abbrev pub put32 : List ℕ → ℕ → ℕ → List ℕ
put32 bytes i v = put16 (put16 bytes i (v % 2 ^ 16)) (i + 2) (v / 2 ^ 16 % 2 ^ 16)

abbrev pub bblock : Super → ℕ → ℕ
bblock sb b = b / bpb + sb.bmapstart

unfoldable pub bzero : Disk → (bno : ℕ) → Disk
bzero d bno = log_block d bno (replicate bsize 0)

abbrev pub mask : ℕ → ℕ
mask bi = 2 ^ (bi % 8)

abbrev pub is_free : List ℕ → (bi : ℕ) → Bool
is_free bytes bi = bit_and (get_or bytes (bi / 8) 0) (mask bi) == 0

abbrev pub mark_used : List ℕ → (bi : ℕ) → List ℕ
mark_used bytes bi = set bytes (bi / 8) (bit_or (get_or bytes (bi / 8) 0) (mask bi))

abbrev pub mark_free : List ℕ → (bi : ℕ) → List ℕ
mark_free bytes bi = set bytes (bi / 8) (bit_and (get_or bytes (bi / 8) 0) (255 - mask bi))

-- The inner loop of `balloc` at bit `bi` of the map that starts at block `b`, with the rounds left.
unfoldable pub find_bit : ℕ → (bi b size : ℕ) → List ℕ → Option ℕ
find_bit zero bi b size bytes = none
find_bit (suc n) bi b size bytes =
    let rest = find_bit n (bi + 1) b size bytes in
    if ltb (b + bi) size then (if is_free bytes bi then some bi else rest) else none

-- A free block of the map at `b`, marked and zeroed.
abbrev pub take_block : Super → Disk → (b bi : ℕ) → Disk × ℕ
take_block sb d b bi =
    (bzero (log_block d (bblock sb b) (mark_used (d.block (bblock sb b)) bi)) (b + bi), b + bi)

-- The free bit of a block of the map is taken, or the loop goes on.
abbrev pub take_or :
    Super → Disk → (b : ℕ) → Option ℕ → (rest : Option (Disk × ℕ)) → Option (Disk × ℕ)
take_or sb d b none rest = rest
take_or sb d b (some bi) rest = some (take_block sb d b bi)

-- The outer loop, with the blocks of the map left.
unfoldable pub find_block : ℕ → (b : ℕ) → Super → Disk → Option (Disk × ℕ)
find_block zero b sb d = none
find_block (suc n) b sb d =
    take_or sb d b (find_bit bpb 0 b sb.size (d.block (bblock sb b))) (find_block n (b + bpb) sb d)

unfoldable pub balloc : Super → Disk → Option (Disk × ℕ)
balloc sb d = find_block ((sb.size + bpb - 1) / bpb) 0 sb d

unfoldable pub bfree : Super → Disk → (b : ℕ) → Option Disk
bfree sb d b =
    let bytes = d.block (bblock sb b) in
    if is_free bytes (b % bpb)
    then none
    else some (log_block d (bblock sb b) (mark_free bytes (b % bpb)))
