-- ===== src/Fs/Inode.antt =====
-- Inodes on the disk, and the cache of inodes, src/fs.c.
use a3team_os.Base.{
  ℕ, zero, suc, ◌+◌, ◌-◌, ◌*◌, ◌/◌, ◌%◌, Bool, true, false, ◌&&◌, Option, none, some, List, [], ◌∷◌,
  ◌==◌, ltb, if◌then◌else◌, get_elem?, set,
}
use a3team_os.Base.Maybe.{◌>>=◌}
use a3team_os.Fs.{bsize, Super, Disk, log_block, get16, get32, put16, put32}

abbrev pub ndirect : ℕ
ndirect = 12

abbrev pub nindirect : ℕ
nindirect = bsize / 4

-- The size of `struct dinode`, and inodes per block.
abbrev pub dinode_size : ℕ
dinode_size = 64

abbrev pub ipb : ℕ
ipb = bsize / dinode_size

abbrev pub iblock : Super → ℕ → ℕ
iblock sb inum = inum / ipb + sb.inodestart

-- `struct inode`, without its lock. The shorts and `ref` are bit patterns.
pub record Inode : Type 0 where
  pub dev : ℕ
  pub inum : ℕ
  pub ref : ℕ
  pub valid : Bool
  pub kind : ℕ
  pub major : ℕ
  pub minor : ℕ
  pub nlink : ℕ
  pub size : ℕ
  pub addrs : List ℕ

-- The thirteen addresses of an inode on the disk, from address `i` on.
unfoldable pub put_addrs : (i : ℕ) → List ℕ → (at : ℕ) → List ℕ → List ℕ
put_addrs i [] at bytes = bytes
put_addrs i (a ∷ addrs) at bytes = put_addrs (i + 1) addrs at (put32 bytes (at + 12 + 4 * i) a)

unfoldable pub get_addrs : ℕ → (i at : ℕ) → List ℕ → List ℕ
get_addrs zero i at bytes = []
get_addrs (suc n) i at bytes = get32 bytes (at + 12 + 4 * i) ∷ get_addrs n (i + 1) at bytes

unfoldable pub iupdate : Super → Disk → Inode → Disk
iupdate sb d ip =
    let at = ip.inum % ipb * dinode_size in
    let bytes = d.block (iblock sb ip.inum) in
    log_block d (iblock sb ip.inum) (
      put_addrs 0 ip.addrs at (
        put32
          (put16 (put16 (put16 (put16 bytes at ip.kind) (at + 2) ip.major) (at + 4) ip.minor)
            (at + 6) ip.nlink)
          (at + 8) ip.size))

-- `ilock` up to the lock: `none` is a panic.
unfoldable pub ilock : Super → Disk → Inode → Option Inode
ilock sb d ip =
    let at = ip.inum % ipb * dinode_size in
    let bytes = d.block (iblock sb ip.inum) in
    let kind = get16 bytes at in
    if ltb ip.ref 1
    then none
    else if ip.valid
    then some ip
    else if kind == 0
    then none
    else some (record ip {
      kind = kind;
      major = get16 bytes (at + 2);
      minor = get16 bytes (at + 4);
      nlink = get16 bytes (at + 6);
      size = get32 bytes (at + 8);
      addrs = get_addrs 13 0 at bytes;
      valid = true;
    })

-- The loop of `ialloc` at inode `inum`, with the rounds left: the number that is given `kind`.
unfoldable pub find_inode : ℕ → (inum kind : ℕ) → Super → Disk → Option (Disk × ℕ)
find_inode zero inum kind sb d = none
find_inode (suc n) inum kind sb d =
    let rest = find_inode n (inum + 1) kind sb d in
    let at = inum % ipb * dinode_size in
    let bytes = d.block (iblock sb inum) in
    if get16 bytes at == 0
    then some (log_block d (iblock sb inum) (put16 (zero_from dinode_size at bytes) at kind), inum)
    else rest
  where
    zero_from : ℕ → ℕ → List ℕ → List ℕ
    zero_from zero i bs = bs
    zero_from (suc k) i bs = zero_from k (i + 1) (set bs i 0)

-- The empty entry that the scan of `iget` remembers, behind entry `i`.
abbrev pub remember : Option ℕ → (i ref : ℕ) → Option ℕ
remember none i ref = if ref == 0 then some i else none
remember (some e) i ref = some e

-- The scan of `iget` from entry `i` on, with the empty entry that it remembers: the entry of the
-- inode, or else the empty one.
unfoldable pub find_cached : (i dev inum : ℕ) → (empty : Option ℕ) → List Inode → Bool × Option ℕ
find_cached i dev inum empty [] = (false, empty)
find_cached i dev inum empty (ip ∷ ips) =
    let rest = find_cached (i + 1) dev inum (remember empty i ip.ref) ips in
    if ltb 0 ip.ref && (ip.dev == dev) && (ip.inum == inum) then (true, some i) else rest

unfoldable pub iget : List Inode → (dev inum : ℕ) → Option (List Inode × ℕ)
iget ips dev inum =
    let (cached, o) = find_cached 0 dev inum none ips in
    (do
      i ← o
      ip ← get_elem? ips i
      if cached
          then some (set ips i (record ip { ref = ip.ref + 1 }), i)
          else some (set ips i (record ip { dev = dev; inum = inum; ref = 1; valid = false }), i))

unfoldable pub ialloc : Super → Disk → List Inode → (dev kind : ℕ) → Option (Disk × List Inode × ℕ)
ialloc sb d ips dev kind = do
  (d1, inum) ← find_inode (sb.ninodes - 1) 1 kind sb d
  (ips1, i) ← iget ips dev inum
  some (d1, ips1, i)

unfoldable pub idup : List Inode → (i : ℕ) → Option (List Inode)
idup ips i = do ip ← get_elem? ips i; some (set ips i (record ip { ref = ip.ref + 1 }))
