-- ===== src/Fs/Content.antt =====
-- The content of an inode: `bmap`, `itrunc`, `iput`, `readi` and `writei` of src/fs.c.
--
-- `readi` and `writei` of a device go to the device; here the inode is a file or a directory, and
-- the content is a list of bytes.
use a3team_os.Base.{
  ℕ, zero, suc, ◌+◌, ◌-◌, ◌*◌, ◌/◌, ◌%◌, ◌^◌, Bool, true, false, ◌&&◌, ◌||◌, Option, none, some,
  List, [], ◌∷◌, ◌++◌, ◌==◌, ltb, if◌then◌else◌, get_or, set, take, drop, length, min,
}
use a3team_os.Base.Maybe.{◌>>=◌}
use a3team_os.Fs.{bsize, Super, Disk, log_block, get32, put32, balloc, bfree}
use a3team_os.Fs.Inode.{Inode, ndirect, nindirect, iupdate}

-- The inode, the disk and the block of address `i` of the inode, which is allocated if it is 0.
unfoldable pub direct : Super → Disk → Inode → (i : ℕ) → Option (Inode × Disk × ℕ)
direct sb d ip i =
    let addr = get_or ip.addrs i 0 in
    let made = (do (d1, b) ← balloc sb d; some (record ip { addrs = set ip.addrs i b }, d1, b)) in
    if addr == 0 then made else some (ip, d, addr)

-- Entry `i` of the indirect block `addr`. The block is changed and logged after the allocation.
unfoldable pub indirect : Super → Disk → (addr i : ℕ) → Option (Disk × ℕ)
indirect sb d addr i =
    let found = get32 (d.block addr) (4 * i) in
    let made = (do
      (d1, b) ← balloc sb d
      some (log_block d1 addr (put32 (d1.block addr) (4 * i) b), b)) in
    if found == 0 then made else some (d, found)

-- `none` is a panic: out of range, or no block left.
unfoldable pub bmap : Super → Disk → Inode → (bn : ℕ) → Option (Inode × Disk × ℕ)
bmap sb d ip bn =
    if ltb bn ndirect
    then direct sb d ip bn
    else if ltb (bn - ndirect) nindirect
    then (do
      (ip1, d1, addr) ← direct sb d ip ndirect
      (d2, b) ← indirect sb d1 addr (bn - ndirect)
      some (ip1, d2, b))
    else none

-- The loop of `itrunc` over the direct blocks: those that are not 0 are freed.
unfoldable pub free_direct : Super → Disk → List ℕ → Option Disk
free_direct sb d [] = some d
free_direct sb d (a ∷ addrs) =
    let freed = (do d1 ← bfree sb d a; free_direct sb d1 addrs) in
    let rest = free_direct sb d addrs in if a == 0 then rest else freed

-- The loop over the entries of the indirect block, whose bytes were read before, from entry `j` on.
unfoldable pub free_indirect : ℕ → (j : ℕ) → Super → Disk → List ℕ → Option Disk
free_indirect zero j sb d bytes = some d
free_indirect (suc n) j sb d bytes =
    let a = get32 bytes (4 * j) in
    let freed = (do d1 ← bfree sb d a; free_indirect n (j + 1) sb d1 bytes) in
    let rest = free_indirect n (j + 1) sb d bytes in if a == 0 then rest else freed

abbrev pub zeros : List ℕ → List ℕ
zeros [] = []
zeros (a ∷ addrs) = 0 ∷ zeros addrs

unfoldable pub itrunc : Super → Disk → Inode → Option (Inode × Disk)
itrunc sb d ip = do
  let last = get_or ip.addrs ndirect 0
  let emptied = record ip { addrs = zeros ip.addrs; size = 0 }
  d1 ← free_direct sb d (take ndirect ip.addrs)
  d2 ←
      (if last == 0
        then some d1
        else (do d2 ← free_indirect nindirect 0 sb d1 (d1.block last); bfree sb d2 last))
  some (emptied, iupdate sb d2 emptied)

-- The last reference to an inode without links frees it on the disk.
unfoldable pub iput : Super → Disk → Inode → Option (Inode × Disk)
iput sb d ip = do
  (ip1, d1) ←
      (if ip.valid && (ip.nlink == 0) && (ip.ref == 1)
        then (do
          (ip1, d1) ← itrunc sb d ip
          let unlinked = record ip1 { kind = 0 }
          some (record unlinked { valid = false }, iupdate sb d1 unlinked))
        else some (ip, d))
  some (record ip1 { ref = (ip1.ref + (2 ^ 32 - 1)) % 2 ^ 32 }, d1)

-- The bytes of a chunk at `off`, in the block that holds it.
abbrev pub chunk : (left off : ℕ) → ℕ
chunk left off = min left (bsize - off % bsize)

-- The loop of `readi` with `left` bytes to go; each round copies one byte at least, so that the
-- rounds do not run out when there are as many as bytes.
unfoldable pub read_chunks :
    ℕ → (off left : ℕ) → Super → Disk → Inode → Option (Inode × Disk × List ℕ)
read_chunks zero off left sb d ip = some (ip, d, [])
read_chunks (suc n) off left sb d ip =
    let m = chunk left off in
    let more = (do
      (ip1, d1, b) ← bmap sb d ip (off / bsize)
      (ip2, d2, bytes) ← read_chunks n (off + m) (left - m) sb d1 ip1
      some (ip2, d2, take m (drop (off % bsize) (d1.block b)) ++ bytes)) in
    if left == 0 then some (ip, d, []) else more

-- The bytes, or -1 as the inner `none`.
unfoldable pub readi : Super → Disk → Inode → (off n : ℕ) → Option (Inode × Disk × Option (List ℕ))
readi sb d ip off n =
    if ltb ip.size off || ltb ((off + n) % 2 ^ 32) off then some (ip, d, none) else (do
      let n1 = if ltb ip.size ((off + n) % 2 ^ 32) then ip.size - off else n
      (ip1, d1, bytes) ← read_chunks n1 off n1 sb d ip
      some (ip1, d1, some bytes))

-- The loop of `writei` over the bytes that are left.
unfoldable pub write_chunks : ℕ → (off : ℕ) → List ℕ → Super → Disk → Inode → Option (Inode × Disk)
write_chunks zero off src sb d ip = some (ip, d)
write_chunks (suc n) off src sb d ip =
    let m = chunk (length src) off in
    let at = off % bsize in
    let more = (do
      (ip1, d1, b) ← bmap sb d ip (off / bsize)
      let bytes = d1.block b
      write_chunks n (off + m) (drop m src) sb
          (log_block d1 b (take at bytes ++ (take m src ++ drop (at + m) bytes))) ip1) in
    if length src == 0 then some (ip, d) else more

-- Whether the bytes were written; otherwise -1.
unfoldable pub writei :
    Super → Disk → Inode → (off : ℕ) → (src : List ℕ) → Option (Inode × Disk × Bool)
writei sb d ip off src =
    let n = length src in
    let end = (off + n) % 2 ^ 32 in
    if (ltb ip.size off || ltb end off) || ltb ((ndirect + nindirect) * bsize) end
    then some (ip, d, false)
    else (do
      (ip1, d1) ← write_chunks n off src sb d ip
      let grown = record ip1 { size = end }
      some (
          if ltb 0 n && ltb ip1.size end
          then (grown, iupdate sb d1 grown, true)
          else (ip1, d1, true)))
