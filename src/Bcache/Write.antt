-- ===== src/Bcache/Write.antt =====
-- `bwrite` puts the contents of a buffer on the disk.
use a3team_os.Base.{
  ℕ_discrete, leb, ℕ, ◌<◌, ◌≡◌, ◌≢◌, refl, sym, ◌∙◌, ap, true, false, ◌&&◌, none, some, List, [],
  ◌∷◌, ◌==◌, if◌then◌else◌, arith, Bool-cases, subst, inl, inr, ==-refl,
}
use a3team_os.Lock.{holdingsleep}
use a3team_os.Bcache.{
  Buf, Bcache, is_block, is_unused, modify, find_slot, iderw, write_disk, bwrite, written,
  write_buf,
}
use a3team_os.Bcache.View.{
  look, view, Absent, Lone, Clean, IsCache, Change, here, there, look-other, Lone-Change,
  Clean-Change, look-mine, Slots-Change, Change-back, other-Source,
}

some_injective : {b c : Buf} → some b ≡ some c → b ≡ c
some_injective e = cc

find_slot-modify :
    (i : ℕ) (bs : List Buf) {b : Buf} (d : Buf)
    → find_slot i bs ≡ some b
    → Change b d bs (modify i (λ _. d) bs) × (b.slot ≡ i)
find_slot-modify i [] d e = cc
find_slot-modify i (c ∷ bs) {b} d e = elim (Bool-cases (c.slot == i)) [
  | inl found ↦
      let same : c ≡ b = some_injective (rw found at e) in
      (rw (found, same) here, ground (arith, ap (λ z. z.slot) same))
  | inr other ↦
      let rest = find_slot-modify i bs d (rw other at e) in (rw other (there rest.0), rest.1)
]

module _ (disk : ℕ → List ℕ) (x : ℕ) (v : List ℕ) where
  abbrev disk' : ℕ → List ℕ
  disk' = write_disk disk x v

  elsewhere : (y : ℕ) → y ≢ x → disk' y ≡ disk y
  elsewhere y ne = let apart : (y == x) ≡ false = ground arith in rw apart

  look-elsewhere : (bs : List Buf) (y : ℕ) → y ≢ x → look bs disk' y ≡ look bs disk y
  look-elsewhere [] y ne = elsewhere y ne
  look-elsewhere (b ∷ bs) y ne =
      ap (λ l. if is_block 1 y b && b.valid then b.bytes else l) (look-elsewhere bs y ne)

  -- A buffer without the block has as much to do with the disk as before.
  still :
      (b : Buf)
      → is_block 1 x b ≡ false
      → ((y : ℕ) → is_block 1 y b ≡ true → is_unused b ≡ true → b.valid ≡ true → b.bytes ≡ disk y)
      → (y : ℕ) → is_block 1 y b ≡ true
      → is_unused b ≡ true
      → b.valid ≡ true
      → b.bytes ≡ disk' y
  still b no_key h y k u ok =
      h y k u ok
      ∙ sym (
          elsewhere y
            (λ e. let k' : is_block 1 x b ≡ true = subst (λ z. is_block 1 z b ≡ true) e k in cc))

  Clean-Absent : (bs : List Buf) → Absent x bs → Clean disk bs → Clean disk' bs
  Clean-Absent [] absent clean = tt
  Clean-Absent (b ∷ bs) absent clean =
      (still b absent.0 clean.0, clean.1, Clean-Absent bs absent.1 clean.2)

  -- The one buffer that has the block is in use.
  Clean-written :
      {b d : Buf} {bs bs' : List Buf}
      → Change b d bs bs'
      → is_block 1 x d ≡ true
      → is_unused d ≡ false
      → Lone bs'
      → Clean disk bs'
      → Clean disk' bs'
  Clean-written here key busy lone clean =
      ((λ y k u ok. cc), clean.1, Clean-Absent _ (lone.0 x key) clean.2)
  Clean-written (there {c = c} ch) key busy lone clean =
      let (no_key, src) = other-Source c x (Change-back ch) lone (inl key) in
      (still c no_key clean.0, clean.1, Clean-written ch key busy lone.1 clean.2)

-- The buffer as `bwrite` leaves it.
abbrev pub clean_buf : Buf → Buf
clean_buf b = record b { dirty = false; valid = true }

iderw-writes :
    (pid : ℕ) (b : Buf) (disk : ℕ → List ℕ) (n : ℕ)
    → b.dev ≡ 1
    → b.blockno < n
    → holdingsleep pid b.lock ≡ true
    → iderw pid (record b { dirty = true }) disk n
      ≡ some (clean_buf b, write_disk disk b.blockno b.bytes)
unfolding iderw
iderw-writes pid b disk n device inside mine =
    let low : leb n b.blockno ≡ false = ground arith in
    let wanted : b.valid && false ≡ false = elim (Bool-cases b.valid) [
      | inl e ↦ rw e
      | inr e ↦ rw e
    ] in
    simp (mine, wanted, device, low)

-- What a write does: the disk gets the contents of the buffer, and nothing else changes.
pub record Writes (c : Bcache) (b : Buf) (c' : Bcache) : Type 0 where
  pub good : IsCache c'
  pub shows : (y : ℕ) → view c' y ≡ view c y
  pub stored : c'.disk b.blockno ≡ b.bytes
  pub others : (y : ℕ) → y ≢ b.blockno → c'.disk y ≡ c.disk y

Writes-Change :
    (c : Bcache) (b : Buf) {bs : List Buf}
    → IsCache c
    → Change b (clean_buf b) c.bufs bs
    → is_block 1 b.blockno b ≡ true
    → b.valid ≡ true
    → 0 < b.refcnt
    → Writes c b (record c { bufs = bs; disk = write_disk c.disk b.blockno b.bytes })
Writes-Change c b {bs} v ch key ok used = record {
  good = record {
    lone = lone';
    clean = Clean-written c.disk x b.bytes ch key busy lone' clean';
    slots = Slots-Change refl ch v.slots;
  };
  shows = shows;
  stored = rw (==-refl x);
  others = elsewhere c.disk x b.bytes;
}
  where
    x : ℕ
    x = b.blockno

    busy : is_unused (clean_buf b) ≡ false
    busy = ground arith

    lone' : Lone bs
    lone' = Lone-Change c.disk x b (clean_buf b) key ch v.lone (inl key)

    clean' : Clean c.disk bs
    clean' =
        Clean-Change c.disk x b (clean_buf b) key
          (λ u w. absurd (let no : is_unused (clean_buf b) ≡ false = busy in cc)) (λ w. refl) ch
          v.clean

    old : look c.bufs c.disk x ≡ b.bytes
    old = rw ok at (look-mine c.disk x ch v.lone key)

    shows : (y : ℕ) → look bs (write_disk c.disk x b.bytes) y ≡ look c.bufs c.disk y
    shows y = elim (ℕ_discrete y x) [
      | yes e ↦
          rw e (look-mine (write_disk c.disk x b.bytes) x (Change-back ch) lone' key ∙ sym old)
      | no ne ↦
          look-elsewhere c.disk x b.bytes bs y ne
          ∙ look-other c.disk x b (clean_buf b) key y ne ch v.lone v.clean (inl key)
    ]

-- With a consistent cache, a process that holds the lock of a valid buffer in use writes it, when its
-- block is inside the disk: the disk then has the contents of the buffer in that block, no other
-- block of it changes, the cache is consistent and shows every block as before.
pub bwrite-Writes :
    (pid i : ℕ) (c : Bcache) (b : Buf)
    → IsCache c
    → find_slot i c.bufs ≡ some b
    → b.dev ≡ 1
    → b.blockno < c.disksize
    → b.valid ≡ true
    → 0 < b.refcnt
    → holdingsleep pid b.lock ≡ true
    → (c' : Bcache) × (bwrite pid c i ≡ some c') × Writes c b c'
unfolding bwrite
bwrite-Writes pid i c b v at_slot device inside ok used mine =
    let (ch, same) = find_slot-modify i c.bufs (clean_buf b) at_slot in
    let key : is_block 1 b.blockno b ≡ true = rw (device, ==-refl b.blockno) in
    (
      after i,
      ap (write_buf pid c) at_slot
          ∙ ap
              (λ h.
                if h
                then written c b.slot (iderw pid (record b { dirty = true }) c.disk c.disksize)
                else none)
              mine
          ∙ ap (written c b.slot) (iderw-writes pid b c.disk c.disksize device inside mine)
          ∙ ap (λ j. some (after j)) same,
      Writes-Change c b v ch key ok used,
    )
  where
    after : ℕ → Bcache
    after j = record c {
      bufs = modify j (λ _. clean_buf b) c.bufs;
      disk = write_disk c.disk b.blockno b.bytes;
    }
