-- ===== src/Bcache/View.antt =====
-- What the cache and the disk hold together, and what the change of one buffer does to it.
use a3team_os.Base.{
  ℕ, ◌≡◌, ◌≢◌, ◌⊎◌, refl, sym, ◌∙◌, ap, Bool, true, false, ◌&&◌, some, List, [], ◌∷◌, ◌==◌,
  if◌then◌else◌, arith, ==-refl, Bool-cases, inl, inr,
}
use a3team_os.Bcache.{Buf, Bcache, is_block, is_unused, find_slot}

-- The contents of block `x` of the disk that has the cache before it.
abbrev pub look : List Buf → (ℕ → List ℕ) → ℕ → List ℕ
look [] disk x = disk x
look (b ∷ bs) disk x = if is_block 1 x b && b.valid then b.bytes else look bs disk x

abbrev pub view : Bcache → ℕ → List ℕ
view c x = look c.bufs c.disk x

-- No buffer has block `x` of the disk.
abbrev pub Absent : ℕ → List Buf → Type 0
Absent x [] = Unit
Absent x (b ∷ bs) = (is_block 1 x b ≡ false) × Absent x bs

-- No block of the disk has two buffers.
abbrev pub Lone : List Buf → Type 0
Lone [] = Unit
Lone (b ∷ bs) = ((x : ℕ) → is_block 1 x b ≡ true → Absent x bs) × Lone bs

-- A buffer that may be recycled has what the disk has, and a buffer without contents is not dirty.
abbrev pub Clean : (ℕ → List ℕ) → List Buf → Type 0
Clean disk [] = Unit
Clean disk (b ∷ bs) =
    ((x : ℕ) → is_block 1 x b ≡ true → is_unused b ≡ true → b.valid ≡ true → b.bytes ≡ disk x)
    × (b.valid ≡ false → b.dirty ≡ false)
    × Clean disk bs

abbrev pub NoSlot : ℕ → List Buf → Type 0
NoSlot i [] = Unit
NoSlot i (b ∷ bs) = ((b.slot == i) ≡ false) × NoSlot i bs

-- No two buffers are in the same slot.
abbrev pub Slots : List Buf → Type 0
Slots [] = Unit
Slots (b ∷ bs) = NoSlot b.slot bs × Slots bs

pub record IsCache (c : Bcache) : Type 0 where
  pub lone : Lone c.bufs
  pub clean : Clean c.disk c.bufs
  pub slots : Slots c.bufs

-- One buffer changes, in its place in the list.
pub data Change (b b' : Buf) : List Buf → List Buf → Type 0 where
  here : {bs : List Buf} → Change b b' (b ∷ bs) (b' ∷ bs)
  there : {c : Buf} {bs bs' : List Buf} → Change b b' bs bs' → Change b b' (c ∷ bs) (c ∷ bs')

-- A block without a buffer is read from the disk.
pub look-Absent :
    (bs : List Buf) (disk : ℕ → List ℕ) (x : ℕ) → Absent x bs → look bs disk x ≡ disk x
look-Absent [] disk x h = refl
look-Absent (b ∷ bs) disk x h = rw (h.0) (look-Absent bs disk x h.1)

not_Absent :
    {b b' : Buf} {bs bs' : List Buf} (x : ℕ)
    → Change b b' bs bs'
    → is_block 1 x b ≡ true
    → ¬ Absent x bs
not_Absent x here key h = cc
not_Absent x (there ch) key h = not_Absent x ch key h.1

-- The buffer that gets block `x`: it had the block, or it is recycled when no buffer has it.
abbrev pub Source : (x : ℕ) → Buf → List Buf → Type 0
Source x b bs = (is_block 1 x b ≡ true) ⊎ ((is_unused b ≡ true) × Absent x bs)

-- A buffer other than the one that changes does not have the block.
pub other-Source :
    {b b' : Buf} {bs bs' : List Buf} (c : Buf) (x : ℕ)
    → Change b b' bs bs'
    → Lone (c ∷ bs)
    → Source x b (c ∷ bs)
    → (is_block 1 x c ≡ false) × Source x b bs
other-Source c x ch lone (inr (free, h)) = (h.0, inr (free, h.1))
other-Source c x ch lone (inl key) = elim (Bool-cases (is_block 1 x c)) [
  | inr no_key ↦ (no_key, inl key)
  | inl both ↦ absurd (not_Absent x ch key (lone.0 x both))
]

pub both : (p q : Bool) → (p && q) ≡ true → (p ≡ true) × (q ≡ true)
both true true h = (refl, refl)
both true false h = cc
both false q h = cc

other_block : (x y : ℕ) (b : Buf) → is_block 1 x b ≡ true → y ≢ x → is_block 1 y b ≡ false
other_block x y b h ne = ground arith

pub same_block : (x y : ℕ) (b : Buf) → is_block 1 x b ≡ true → is_block 1 y b ≡ true → y ≡ x
same_block x y b h k = ground arith

module _ (disk : ℕ → List ℕ) (x : ℕ) (b b' : Buf) (key : is_block 1 x b' ≡ true) where
  -- The other blocks keep their contents: a recycled buffer held what the disk holds.
  pub look-other :
      {bs bs' : List Buf} (y : ℕ)
      → y ≢ x
      → Change b b' bs bs'
      → Lone bs
      → Clean disk bs
      → Source x b bs
      → look bs' disk y ≡ look bs disk y
  look-other {bs} y ne here lone clean src =
      rw (other_block x y b' key ne) (elim (Bool-cases (is_block 1 y b && b.valid)) [
        | inr out ↦ rw out
        | inl had ↦
            let (has, ok) = both (is_block 1 y b) b.valid had in
            rw had (elim src [
              | inl mine ↦ absurd (ne (same_block x y b mine has))
              | inr (free, h) ↦ look-Absent _ disk y (lone.0 y has) ∙ sym (clean.0 y has free ok)
            ])
      ])
  look-other y ne (there {c = c} ch) lone clean src =
      let (no_key, src') = other-Source c x ch lone src in
      ap (λ l. if is_block 1 y c && c.valid then c.bytes else l)
        (look-other y ne ch lone.1 clean.2 src')

  Absent-Change :
      {bs bs' : List Buf} (y : ℕ) → y ≢ x → Change b b' bs bs' → Absent y bs → Absent y bs'
  Absent-Change y ne here h = (other_block x y b' key ne, h.1)
  Absent-Change y ne (there ch) h = (h.0, Absent-Change y ne ch h.1)

  first : (bs : List Buf) → Lone (b ∷ bs) → Source x b (b ∷ bs) → Absent x bs
  first bs lone (inl mine) = lone.0 x mine
  first bs lone (inr (free, h)) = h.1

  pub Lone-Change : {bs bs' : List Buf} → Change b b' bs bs' → Lone bs → Source x b bs → Lone bs'
  Lone-Change here lone src = ((λ y k. rw (same_block x y b' key k) (first _ lone src)), lone.1)
  Lone-Change (there {c = c} ch) lone src =
      let (no_key, src') = other-Source c x ch lone src in
      ((λ y k. Absent-Change y (λ e. cc) ch (lone.0 y k)), Lone-Change ch lone.1 src')

  pub Clean-Change :
      {bs bs' : List Buf}
      → (is_unused b' ≡ true → b'.valid ≡ true → b'.bytes ≡ disk x)
      → (b'.valid ≡ false → b'.dirty ≡ false)
      → Change b b' bs bs'
      → Clean disk bs
      → Clean disk bs'
  Clean-Change held ok here clean =
      ((λ y k u v. rw (same_block x y b' key k) (held u v)), ok, clean.2)
  Clean-Change held ok (there ch) clean = (clean.0, clean.1, Clean-Change held ok ch clean.2)

pub Change-back : {b b' : Buf} {bs bs' : List Buf} → Change b b' bs bs' → Change b' b bs' bs
Change-back here = here
Change-back (there ch) = there (Change-back ch)

-- What block `x` holds when a buffer has it.
pub look-mine :
    (disk : ℕ → List ℕ) (x : ℕ) {b b' : Buf} {bs bs' : List Buf}
    → Change b b' bs bs'
    → Lone bs
    → is_block 1 x b ≡ true
    → look bs disk x ≡ (if b.valid then b.bytes else disk x)
look-mine disk x {b} here lone mine = rw mine (elim (Bool-cases b.valid) [
  | inl ok ↦ rw ok
  | inr no_contents ↦ rw no_contents (look-Absent _ disk x (lone.0 x mine))
])
look-mine disk x (there {c = c} ch) lone mine =
    let (no_key, src) = other-Source c x ch lone (inl mine) in
    rw no_key (look-mine disk x ch lone.1 mine)

pub not_dirty :
    (disk : ℕ → List ℕ) {b b' : Buf} {bs bs' : List Buf}
    → Change b b' bs bs'
    → Clean disk bs
    → b.valid ≡ false
    → b.dirty ≡ false
not_dirty disk here clean e = clean.1 e
not_dirty disk (there ch) clean e = not_dirty disk ch clean.2 e

module _ {b b' : Buf} (same : b'.slot ≡ b.slot) where
  NoSlot-Change : {bs bs' : List Buf} (i : ℕ) → Change b b' bs bs' → NoSlot i bs → NoSlot i bs'
  NoSlot-Change i here h = rw same h
  NoSlot-Change i (there ch) h = (h.0, NoSlot-Change i ch h.1)

  pub Slots-Change : {bs bs' : List Buf} → Change b b' bs bs' → Slots bs → Slots bs'
  Slots-Change here h = rw same h
  Slots-Change (there {c = c} ch) h = (NoSlot-Change c.slot ch h.0, Slots-Change ch h.1)

pub slot_apart :
    {b b' : Buf} {bs bs' : List Buf} (i : ℕ)
    → Change b b' bs bs'
    → NoSlot i bs
    → (b.slot == i) ≡ false
slot_apart i here h = h.0
slot_apart i (there ch) h = slot_apart i ch h.1

pub find_slot-Change :
    {b b' : Buf} {bs bs' : List Buf}
    → b'.slot ≡ b.slot
    → Change b b' bs bs'
    → Slots bs
    → find_slot b.slot bs' ≡ some b'
find_slot-Change {b} e here slots = rw (e, ==-refl b.slot)
find_slot-Change {b} e (there {c = c} ch) slots =
    let apart : (c.slot == b.slot) ≡ false = ground (arith, slot_apart c.slot ch slots.0) in
    rw apart (find_slot-Change e ch slots.1)
