-- ===== src/Bcache/Fits.antt =====
-- The buffer that `bget` gives fits into the cache, and so does what becomes of it.
use a3team_os.Base.{
  ℕ_discrete, ℕ, ◌+◌, ◌^◌, ◌<◌, ◌≡◌, ◌⊎◌, refl, sym, ◌∙◌, true, false, List, if◌then◌else◌, arith,
  inl, inr, ==-refl,
}
use a3team_os.Lock.{Sleeplock}
use a3team_os.Bcache.{Buf, Bcache, is_block, is_unused, modify, recycled}
use a3team_os.Bcache.View.{
  Change-back, look, view, Absent, Lone, IsCache, Change, Source, look-other, Lone-Change,
  Clean-Change, look-mine, look-Absent, not_dirty, Slots-Change,
}
use a3team_os.Bcache.Scan.{counted, modify-Change}

-- The cache is consistent and still shows the same blocks.
abbrev pub Kept : Bcache → Bcache → Type 0
Kept c c' = IsCache c' × ((y : ℕ) → view c' y ≡ view c y)

-- The change of a buffer to one in use that has block `x`.
module _ (c : Bcache) (x : ℕ) (good : IsCache c) where
  -- What the new buffer `d` must be when buffer `b` becomes it.
  pub record Fits (b d : Buf) : Type 0 where
    pub key : is_block 1 x d ≡ true
    pub busy : is_unused d ≡ false
    pub same : d.slot ≡ b.slot
    pub tidy : d.valid ≡ false → d.dirty ≡ false
    pub right : (if d.valid then d.bytes else c.disk x) ≡ view c x

  pub Kept-Change :
      {b d : Buf} {bs : List Buf}
      → Change b d c.bufs bs
      → Source x b c.bufs
      → Fits b d
      → Kept c (record c { bufs = bs })
  Kept-Change {b} {d} {bs} ch src fits = (
    record {
      lone = lone';
      clean =
          Clean-Change c.disk x b d fits.key
            (λ u v. absurd (let no : is_unused d ≡ false = fits.busy in cc)) fits.tidy ch
            good.clean;
      slots = Slots-Change fits.same ch good.slots;
    },
    same,
  )
    where
      lone' : Lone bs
      lone' = Lone-Change c.disk x b d fits.key ch good.lone src

      same : (y : ℕ) → look bs c.disk y ≡ view c y
      same y = elim (ℕ_discrete y x) [
        | yes e ↦ rw e (look-mine c.disk x (Change-back ch) lone' fits.key ∙ fits.right)
        | no ne ↦ look-other c.disk x b d fits.key y ne ch good.lone good.clean src
      ]

  -- The buffer of `bget` fits.
  counted-Fits :
      {b d : Buf} {bs : List Buf}
      → Change b d c.bufs bs
      → is_block 1 x b ≡ true
      → b.refcnt + 1 < 2 ^ 32
      → Fits b (counted b)
  counted-Fits {b} ch mine low = record {
    key = mine;
    busy = ground arith;
    same = refl;
    tidy = λ e. not_dirty c.disk ch good.clean e;
    right = sym (look-mine c.disk x ch good.lone mine);
  }

  recycled-Fits : (b : Buf) → Absent x c.bufs → Fits b (recycled 1 x b)
  recycled-Fits b absent = record {
    key = rw (==-refl x);
    busy = refl;
    same = refl;
    tidy = λ e. refl;
    right = sym (look-Absent c.bufs c.disk x absent);
  }

  pub Fetched-Fits :
      {b d : Buf} {bs : List Buf}
      → Change b d c.bufs bs
      → (((is_block 1 x b ≡ true) × (b.refcnt + 1 < 2 ^ 32) × (d ≡ counted b))
          ⊎ ((is_unused b ≡ true) × Absent x c.bufs × (d ≡ recycled 1 x b)))
      → Source x b c.bufs × Fits b d
  Fetched-Fits {b} ch (inl (mine, low, e)) = (inl mine, rw e (counted-Fits ch mine low))
  Fetched-Fits {b} ch (inr (free, absent, e)) = (inr (free, absent), rw e (recycled-Fits b absent))

  -- The buffer `e` takes the place of the one that `bget` has put in the list.
  pub placed :
      {b d : Buf} {bs : List Buf} (e : Buf)
      → Change b d c.bufs bs
      → Source x b c.bufs
      → Fits b d
      → Fits b e
      → Change b e c.bufs (modify d.slot (λ _. e) bs)
        × Kept c (record c { bufs = modify d.slot (λ _. e) bs })
  placed e ch src fits fits' =
      let ch' = modify-Change e ch good.slots fits.same in (ch', Kept-Change ch' src fits')

  pub locked-Fits : {b d : Buf} (l : Sleeplock) → Fits b d → Fits b (record d { lock = l })
  locked-Fits l fits = record {
    key = fits.key;
    busy = fits.busy;
    same = fits.same;
    tidy = fits.tidy;
    right = fits.right;
  }

  pub filled-Fits :
      {b d : Buf}
      → d.valid ≡ false
      → Fits b d
      → Fits b (record d { bytes = c.disk x; valid = true })
  filled-Fits {b} {d} empty fits = record {
    key = fits.key;
    busy = fits.busy;
    same = fits.same;
    tidy = λ e. cc;
    right = from fits.right;
  }
    where
      from : (if d.valid then d.bytes else c.disk x) ≡ view c x → c.disk x ≡ view c x
      from e = rw empty at e
