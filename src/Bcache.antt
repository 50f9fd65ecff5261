-- ===== src/Bcache.antt =====
-- The buffer cache src/bio.c over the memory disk src/memide.c.
--
-- The buffers are listed from the most recently used one on, as the links of the C list have them.
-- A `struct buf *` is the place of the buffer in the array, `slot`. Each function is one step; the
-- sleep lock of a buffer that is held makes `bget` end with a sleep.
pub mod View
pub mod Scan
pub mod Fits
pub mod Read
pub mod Write
mod Tests
use a3team_os.Base.{
  ◌^◌, ◌%◌, ℕ, zero, suc, ◌+◌, ◌-◌, ◌<◌, Bool, true, false, not, ◌&&◌, ◌||◌, Option, none, some,
  List, [], ◌∷◌, ◌++◌, ◌==◌, ltb, leb, if◌then◌else◌,
}
use a3team_os.Lock.{Sleeplock, initsleeplock, acquiresleep, releasesleep, holdingsleep}

-- `struct buf`. `B_VALID` and `B_DIRTY` are the two bits of `flags`.
pub record Buf : Type 0 where
  pub slot : ℕ
  pub valid : Bool
  pub dirty : Bool
  pub dev : ℕ
  pub blockno : ℕ
  pub lock : Sleeplock
  pub refcnt : ℕ
  pub bytes : List ℕ

-- `bcache`, and the disk with the number of its blocks.
pub record Bcache : Type 0 where
  pub bufs : List Buf
  pub disk : ℕ → List ℕ
  pub disksize : ℕ

-- `binit` puts the buffers in front of each other.
unfoldable pub binit_loop : ℕ → (i : ℕ) → List Buf → List Buf
binit_loop zero i bs = bs
binit_loop (suc n) i bs = binit_loop n (i + 1) (
    record {
      slot = i;
      valid = false;
      dirty = false;
      dev = 0;
      blockno = 0;
      lock = initsleeplock;
      refcnt = 0;
      bytes = [];
    }
    ∷ bs)

unfoldable pub binit : (nbuf : ℕ) → List Buf
binit nbuf = binit_loop nbuf 0 []

abbrev pub is_block : (dev blockno : ℕ) → Buf → Bool
is_block dev blockno b = (b.dev == dev) && (b.blockno == blockno)

abbrev pub is_unused : Buf → Bool
is_unused b = (b.refcnt == 0) && not b.dirty

-- A buffer, and the list with it changed.
abbrev pub Pick : Type 0
Pick = Option (List Buf × Buf)

abbrev pub behind : Buf → Pick → Pick
behind b none = none
behind b (some (bs, c)) = some (b ∷ bs, c)

abbrev pub take : (Buf → Buf) → Buf → List Buf → Pick
take f b bs = some (f b ∷ bs, f b)

-- The first loop of `bget`, from the most recently used buffer on.
unfoldable pub find_cached : (dev blockno : ℕ) → List Buf → Pick
find_cached dev blockno [] = none
find_cached dev blockno (b ∷ bs) =
    let rest = behind b (find_cached dev blockno bs) in
    if is_block dev blockno b
    then take (λ b. record b { refcnt = (b.refcnt + 1) % 2 ^ 32 }) b bs
    else rest

abbrev pub recycled : (dev blockno : ℕ) → Buf → Buf
recycled dev blockno b = record b {
  dev = dev;
  blockno = blockno;
  valid = false;
  dirty = false;
  refcnt = 1;
}

-- What the second loop does with a buffer, when it has found none further back.
abbrev pub or_recycle : (dev blockno : ℕ) → Buf → List Buf → Pick → Pick
or_recycle dev blockno b bs (some (bs', c)) = some (b ∷ bs', c)
or_recycle dev blockno b bs none = if is_unused b then take (recycled dev blockno) b bs else none

-- The second loop, from the least recently used buffer on.
unfoldable pub find_unused : (dev blockno : ℕ) → List Buf → Pick
find_unused dev blockno [] = none
find_unused dev blockno (b ∷ bs) = or_recycle dev blockno b bs (find_unused dev blockno bs)

abbrev pub or_else : Pick → Pick → Pick
or_else (some r) s = some r
or_else none s = s

-- `bget` up to the sleep lock. `none` is the panic: no buffers.
unfoldable pub bget : (dev blockno : ℕ) → List Buf → Pick
bget dev blockno bs = or_else (find_cached dev blockno bs) (find_unused dev blockno bs)

-- `--` on a `uint`
abbrev pub dec : ℕ → ℕ
dec n = (n + (2 ^ 32 - 1)) % 2 ^ 32

-- The buffer in a slot, and the list with it changed.
abbrev pub find_slot : ℕ → List Buf → Option Buf
find_slot i [] = none
find_slot i (b ∷ bs) = if b.slot == i then some b else find_slot i bs

abbrev pub modify : ℕ → (Buf → Buf) → List Buf → List Buf
modify i f [] = []
modify i f (b ∷ bs) = if b.slot == i then f b ∷ bs else b ∷ modify i f bs

abbrev pub write_disk : (ℕ → List ℕ) → ℕ → List ℕ → ℕ → List ℕ
write_disk disk blockno bytes x = if x == blockno then bytes else disk x

-- `iderw` of a buffer that process `pid` uses: the buffer and the disk after it; `none` is a panic.
unfoldable pub iderw :
    (pid : ℕ) → Buf → (disk : ℕ → List ℕ) → (disksize : ℕ) → Option (Buf × (ℕ → List ℕ))
iderw pid b disk disksize =
    if not (holdingsleep pid b.lock)
    then none
    else if b.valid && not b.dirty
    then none
    else if not (b.dev == 1)
    then none
    else if leb disksize b.blockno
    then none
    else if b.dirty
    then some (record b { dirty = false; valid = true }, write_disk disk b.blockno b.bytes)
    else some (record b { bytes = disk b.blockno; valid = true }, disk)

-- How `bread` ends: a panic, asleep on the lock of a buffer that it has counted, or the slot.
pub data Got : Type 0 where
  panics : Got
  sleeps : Bcache → (slot : ℕ) → Got
  got : Bcache → (slot : ℕ) → Got

abbrev pub put_back : Bcache → List Buf → (slot : ℕ) → Option (Buf × (ℕ → List ℕ)) → Got
put_back c bs i none = panics
put_back c bs i (some (b, disk)) = got (record c { bufs = modify i (λ _. b) bs; disk = disk }) i

-- `bread` when it has the lock of the buffer.
abbrev pub read_locked : (pid : ℕ) → Bcache → List Buf → Buf → Got
read_locked pid c bs b =
    if not b.valid
    then put_back c bs b.slot (iderw pid b c.disk c.disksize)
    else got (record c { bufs = modify b.slot (λ _. b) bs }) b.slot

abbrev pub after_lock : (pid : ℕ) → Bcache → List Buf → Buf → Option Sleeplock → Got
after_lock pid c bs b none = sleeps (record c { bufs = bs }) b.slot
after_lock pid c bs b (some l) = read_locked pid c bs (record b { lock = l })

abbrev pub after_bget : (pid : ℕ) → Bcache → Pick → Got
after_bget pid c none = panics
after_bget pid c (some (bs, b)) = after_lock pid c bs b (acquiresleep pid b.lock)

unfoldable pub bread : (pid : ℕ) → Bcache → (dev blockno : ℕ) → Got
bread pid c dev blockno = after_bget pid c (bget dev blockno c.bufs)

abbrev pub written : Bcache → (slot : ℕ) → Option (Buf × (ℕ → List ℕ)) → Option Bcache
written c i none = none
written c i (some (b, disk)) = some (record c { bufs = modify i (λ _. b) c.bufs; disk = disk })

abbrev pub write_buf : (pid : ℕ) → Bcache → Option Buf → Option Bcache
write_buf pid c none = none
write_buf pid c (some b) =
    if holdingsleep pid b.lock
    then written c b.slot (iderw pid (record b { dirty = true }) c.disk c.disksize)
    else none

unfoldable pub bwrite : (pid : ℕ) → Bcache → (slot : ℕ) → Option Bcache
bwrite pid c i = write_buf pid c (find_slot i c.bufs)

abbrev pub without : ℕ → List Buf → List Buf
without i [] = []
without i (b ∷ bs) = if b.slot == i then bs else b ∷ without i bs

-- A buffer that no one waits for goes to the front.
abbrev pub release_buf : (pid : ℕ) → List Buf → Option Buf → Option (List Buf)
release_buf pid bs none = none
release_buf pid bs (some b) =
    let b' = record b { lock = releasesleep b.lock; refcnt = dec b.refcnt } in
    if holdingsleep pid b.lock
    then (if dec b.refcnt == 0
        then some (b' ∷ without b.slot bs)
        else some (modify b.slot (λ _. b') bs))
    else none

unfoldable pub brelse : (pid : ℕ) → List Buf → (slot : ℕ) → Option (List Buf)
brelse pid bs i = release_buf pid bs (find_slot i bs)
