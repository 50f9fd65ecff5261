-- ===== src/Bcache/Read.antt =====
-- `bread` gives what the disk with the cache before it holds.
use a3team_os.Base.{
  leb, ℕ, ◌<◌, ◌≡◌, refl, sym, ◌∙◌, ap, true, false, not, Option, none, some, List, ◌==◌,
  if◌then◌else◌, arith, Bool-cases, subst, inl, inr, ==-refl,
}
use a3team_os.Lock.{Sleeplock, acquiresleep, holdingsleep}
use a3team_os.Bcache.{
  Buf, Bcache, is_block, bget, modify, find_slot, iderw, Got, panics, sleeps, got, Pick, put_back,
  read_locked, after_lock, after_bget, bread,
}
use a3team_os.Bcache.View.{view, Absent, IsCache, Change, Source, both, find_slot-Change}
use a3team_os.Bcache.Scan.{Counts, Fetched, bget-Fetched, Busy}
use a3team_os.Bcache.Fits.{Kept, Fits, Kept-Change, Fetched-Fits, placed, locked-Fits, filled-Fits}

-- The buffer in the slot has the block and what the block holds, and the process has its lock.
abbrev pub Holds : (pid : ℕ) → Bcache → (x slot : ℕ) → Bcache → Type 0
Holds pid c x i c' =
    (b : Buf) × (find_slot i c'.bufs ≡ some b)
    × (is_block 1 x b ≡ true)
    × (b.valid ≡ true)
    × (b.bytes ≡ view c x)
    × (holdingsleep pid b.lock ≡ true)

-- How `bread` may end. It panics only when every buffer is in use and none has the block.
abbrev pub Reads : (pid : ℕ) → Bcache → (x : ℕ) → Got → Type 0
Reads pid c x panics = Absent x c.bufs × Busy c.bufs
Reads pid c x (sleeps c' i) = Kept c c'
Reads pid c x (got c' i) = Kept c c' × Holds pid c x i c'

iderw-reads :
    (pid x : ℕ) (b : Buf) (disk : ℕ → List ℕ) (n : ℕ)
    → x < n
    → holdingsleep pid b.lock ≡ true
    → is_block 1 x b ≡ true
    → b.valid ≡ false
    → b.dirty ≡ false
    → iderw pid b disk n ≡ some (record b { bytes = disk x; valid = true }, disk)
unfolding iderw
iderw-reads pid x b disk n inside mine key empty clean =
    let (device, number) = both (b.dev == 1) (b.blockno == x) key in
    let found : b.blockno ≡ x = ground (arith, number) in
    let low : leb n x ≡ false = ground arith in rw (mine, empty, device, found, low, clean)

abbrev with_lock : Sleeplock → Buf → Buf
with_lock l b = record b { lock = l }

acquiresleep-holds :
    (pid : ℕ) (l l' : Sleeplock) → acquiresleep pid l ≡ some l' → holdingsleep pid l' ≡ true
unfolding acquiresleep holdingsleep
acquiresleep-holds pid l l' e = ground (arith, ==-refl pid)

module _ (pid : ℕ) (c : Bcache) (x : ℕ) (good : IsCache c) where
  -- The buffer `e`, in the place of the one that `bget` has put in the list, is what `bread` gives.
  placed-Reads :
      {b d : Buf} {bs : List Buf} (e : Buf)
      → Change b d c.bufs bs
      → Source x b c.bufs
      → Fits c x good b d
      → Fits c x good b e
      → e.valid ≡ true
      → holdingsleep pid e.lock ≡ true
      → Reads pid c x (got (record c { bufs = modify d.slot (λ _. e) bs }) d.slot)
  placed-Reads {b} {d} {bs} e ch src fits fits' ok mine =
      let (ch', kept) = placed c x good e ch src fits fits' in
      (
        kept,
        (
          e,
          subst (λ i. find_slot i (modify d.slot (λ _. e) bs) ≡ some e) (sym fits.same)
              (find_slot-Change fits'.same ch' good.slots),
          fits'.key,
          ok,
          (rw ok at fits'.right),
          mine,
        ),
      )

  read_locked-Reads :
      {b d : Buf} {bs : List Buf}
      → x < c.disksize
      → Change b d c.bufs bs
      → Source x b c.bufs
      → Fits c x good b d
      → (l : Sleeplock) → holdingsleep pid l ≡ true
      → Reads pid c x (read_locked pid c bs (record d { lock = l }))
  read_locked-Reads {b} {d} {bs} inside ch src fits l mine = elim (Bool-cases d.valid) [
    | inl ok ↦
        subst (Reads pid c x) (sym (hit ok))
          (placed-Reads (with_lock l d) ch src fits fits' ok mine)
    | inr empty ↦
        subst (Reads pid c x) (sym (miss empty))
          (placed-Reads _ ch src fits (filled-Fits c x good empty fits') refl mine)
  ]
    where
      fits' : Fits c x good b (with_lock l d)
      fits' = locked-Fits c x good l fits

      hit :
          d.valid ≡ true
          → read_locked pid c bs (with_lock l d)
            ≡ got (record c { bufs = modify d.slot (λ _. with_lock l d) bs }) d.slot
      hit ok = simp ok

      miss :
          d.valid ≡ false
          → read_locked pid c bs (with_lock l d)
            ≡ got
                (record c {
                  bufs =
                      modify d.slot
                        (λ _. record (with_lock l d) { bytes = c.disk x; valid = true })
                        bs;
                })
                d.slot
      miss empty =
          ap
            (λ v.
              if not v
              then put_back c bs d.slot (iderw pid (with_lock l d) c.disk c.disksize)
              else got (record c { bufs = modify d.slot (λ _. with_lock l d) bs }) d.slot)
            empty
          ∙ ap (put_back c bs d.slot) (
              iderw-reads pid x (with_lock l d) c.disk c.disksize inside mine fits'.key empty
                (fits'.tidy empty))

  after_lock-Reads :
      {b d : Buf} {bs : List Buf}
      → x < c.disksize
      → Change b d c.bufs bs
      → Source x b c.bufs
      → Fits c x good b d
      → (r : Option Sleeplock) → ((l : Sleeplock) → r ≡ some l → holdingsleep pid l ≡ true)
      → Reads pid c x (after_lock pid c bs d r)
  after_lock-Reads inside ch src fits none mine = Kept-Change c x good ch src fits
  after_lock-Reads inside ch src fits (some l) mine =
      read_locked-Reads inside ch src fits l (mine l refl)

  after_bget-Reads :
      x < c.disksize → (r : Pick) → Fetched x c.bufs r → Reads pid c x (after_bget pid c r)
  after_bget-Reads inside none h = h
  after_bget-Reads inside (some (bs, d)) (b, ch, how) =
      let (src, fits) = Fetched-Fits c x good ch how in
      after_lock-Reads inside ch src fits (acquiresleep pid d.lock) (acquiresleep-holds pid d.lock)

  -- With a consistent cache and no count about to wrap, reading a block inside the disk keeps the
  -- cache consistent and what it shows of every block. The buffer that comes back holds the block,
  -- with what the cache shows of it, locked by the process, which may also sleep on the lock; the
  -- only panic is that no buffer has the block and every one is in use or dirty.
  pub bread-Reads : Counts c.bufs → x < c.disksize → Reads pid c x (bread pid c 1 x)
  unfolding bread
  bread-Reads few inside = after_bget-Reads inside (bget 1 x c.bufs) (bget-Fetched x c.bufs few)
