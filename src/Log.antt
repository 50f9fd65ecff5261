-- ===== src/Log.antt =====
-- The write-ahead log of the file system, src/log.c.
--
-- A block is its 128 words. The buffer cache is what src/bio.c promises to log.c: `bread` gives the
-- current contents of a block, `bwrite` changes them and writes them to the disk. The writes are
-- kept in order, so that a crash is a prefix of them.
pub mod Disk
pub mod Head
pub mod Trace
pub mod Crash
pub mod Absorb
pub mod Recover
pub mod Atomic
pub mod Ops
mod Tests
use a3team_os.Base.{
  ◌&&◌, ◌^◌, ◌%◌, ℕ, zero, suc, ◌+◌, ◌-◌, ◌*◌, ◌<◌, Bool, true, false, ◌||◌, Option, none, some,
  List, [], ◌∷◌, ◌++◌, ltb, leb, ◌==◌, if◌then◌else◌, get_or, set,
}
use a3team_os.Log.Disk.{Block, Image, Store, bwrite}

abbrev pub maxopblocks : ℕ
maxopblocks = 10

abbrev pub logsize : ℕ
logsize = maxopblocks * 3

-- The order of `int`s given by their bit patterns, where the left one is not negative: a > b.
abbrev pub exceeded : (a b : ℕ) → Bool
exceeded a b = ltb a b && ltb b (2 ^ 31)

-- `struct log` with its `struct logheader`: `n` and `block` are `lh.n` and `lh.block`.
pub record Log : Type 0 where
  pub start : ℕ
  pub size : ℕ
  pub outstanding : ℕ
  pub committing : Bool
  pub n : ℕ
  pub block : List ℕ

-- `for (tail = 0; tail < log.lh.n; tail++)` of `install_trans`, with the rounds left.
unfoldable pub install_loop : ℕ → (tail : ℕ) → Log → Store → Store
install_loop zero tail l st = st
install_loop (suc r) tail l st =
    let lbuf = st.cache (l.start + tail + 1) in
    install_loop r (tail + 1) l (bwrite st (get_or l.block tail 0) lbuf)

unfoldable pub install_trans : Log → Store → Store
install_trans l st = install_loop l.n 0 l st

-- The loops of `read_head` and `write_head`, with the rounds left.
unfoldable pub read_words : ℕ → (i : ℕ) → Block → List ℕ → List ℕ
read_words zero i words block = block
read_words (suc r) i words block = read_words r (i + 1) words (set block i (get_or words (i + 1) 0))

unfoldable pub write_words : ℕ → (i : ℕ) → List ℕ → Block → Block
write_words zero i block words = words
write_words (suc r) i block words =
    write_words r (i + 1) block (set words (i + 1) (get_or block i 0))

unfoldable pub read_head : Log → Store → Log
read_head l st =
    let words = st.cache l.start in
    record l { n = get_or words 0 0; block = read_words (get_or words 0 0) 0 words l.block }

unfoldable pub write_head : Log → Store → Store
write_head l st = bwrite st l.start (write_words l.n 0 l.block (set (st.cache l.start) 0 l.n))

unfoldable pub recover_from_log : Log → Store → Log × Store
recover_from_log l st =
    let l1 = read_head l st in
    let st1 = install_trans l1 st in let l2 = record l1 { n = 0 } in (l2, write_head l2 st1)

-- `initlog`, with the two numbers that it takes from the super block.
unfoldable pub initlog : (logstart nlog : ℕ) → Log → Store → Log × Store
initlog logstart nlog l st = recover_from_log (record l { start = logstart; size = nlog }) st

unfoldable pub write_log_loop : ℕ → (tail : ℕ) → Log → Store → Store
write_log_loop zero tail l st = st
write_log_loop (suc r) tail l st =
    let from = st.cache (get_or l.block tail 0) in
    write_log_loop r (tail + 1) l (bwrite st (l.start + tail + 1) from)

unfoldable pub write_log : Log → Store → Store
write_log l st = write_log_loop l.n 0 l st

unfoldable pub commit : Log → Store → Log × Store
commit l st =
    if ltb 0 l.n
    then (let st1 = write_log l st in
        let st2 = write_head l st1 in
        let st3 = install_trans l st2 in let l1 = record l { n = 0 } in (l1, write_head l1 st3))
    else (l, st)

-- One pass of the loop of `begin_op`: `none` is a sleep, after which the loop starts again.
-- `outstanding` is the bit pattern of an `int`.
unfoldable pub begin_op : Log → Option Log
begin_op l =
    if l.committing || exceeded logsize ((l.n + (l.outstanding + 1) * maxopblocks) % 2 ^ 32)
    then none
    else some (record l { outstanding = (l.outstanding + 1) % 2 ^ 32 })

-- `none` is a panic. The commit runs when the last operation ends; no other operation runs between
-- its two critical sections, since `committing` is set.
unfoldable pub end_op : Log → Store → Option (Log × Store)
end_op l st =
    let outstanding = (l.outstanding + (2 ^ 32 - 1)) % 2 ^ 32 in
    if l.committing
    then none
    else if outstanding == 0
    then (let (l1, st1) = commit (record l { outstanding = outstanding; committing = true }) st in
        some (record l1 { committing = false }, st1))
    else some (record l { outstanding = outstanding }, st)

-- The place of a block in the header, `n` if it is not there, with the rounds left.
unfoldable pub find_block : ℕ → (i : ℕ) → List ℕ → (blockno : ℕ) → ℕ
find_block zero i block blockno = i
find_block (suc r) i block blockno =
    let rest = find_block r (i + 1) block blockno in if get_or block i 0 == blockno then i else rest

-- `none` is a panic. `B_DIRTY`, which keeps the buffer in the cache, is not modelled: the store of the log
-- keeps every block.
unfoldable pub log_write : Log → (blockno : ℕ) → Option Log
log_write l blockno =
    if leb logsize l.n || leb (l.size - 1) l.n
    then none
    else (if ltb l.outstanding 1
        then none
        else (let i = find_block l.n 0 l.block blockno in
            some
              (record l { block = set l.block i blockno; n = if i == l.n then l.n + 1 else l.n })))
