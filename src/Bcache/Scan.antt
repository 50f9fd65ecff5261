-- ===== src/Bcache/Scan.antt =====
-- What the two loops of `bget` find.
use a3team_os.Base.{
  ℕ, ◌+◌, ◌%◌, ◌^◌, ◌<◌, ◌≡◌, ◌⊎◌, refl, true, false, none, some, List, [], ◌∷◌, ◌==◌, arith,
  Bool-cases, inl, inr, ==-refl,
}
use a3team_os.Bcache.{
  Buf, is_block, is_unused, Pick, behind, find_cached, recycled, or_recycle, find_unused, or_else,
  bget, modify,
}
use a3team_os.Bcache.View.{Absent, Change, here, there, Slots, slot_apart}

-- No count is about to wrap.
abbrev pub Counts : List Buf → Type 0
Counts [] = Unit
Counts (b ∷ bs) = (b.refcnt + 1 < 2 ^ 32) × Counts bs

abbrev pub counted : Buf → Buf
counted b = record b { refcnt = (b.refcnt + 1) % 2 ^ 32 }

-- The buffer that the first loop finds has the block, and is counted once more.
abbrev Cached : (x : ℕ) → List Buf → Pick → Type 0
Cached x bs none = Absent x bs
Cached x bs (some (bs', c)) =
    (b : Buf) × Change b c bs bs'
    × (is_block 1 x b ≡ true)
    × (b.refcnt + 1 < 2 ^ 32)
    × (c ≡ counted b)

find_cached-Cached : (x : ℕ) (bs : List Buf) → Counts bs → Cached x bs (find_cached 1 x bs)
unfolding find_cached
find_cached-Cached x [] few = tt
find_cached-Cached x (b ∷ bs) few = elim (Bool-cases (is_block 1 x b)) [
  | inl mine ↦ rw mine (b, here, mine, few.0, refl)
  | inr other ↦ rw other (later other (find_cached 1 x bs) (find_cached-Cached x bs few.1))
]
  where
    later : is_block 1 x b ≡ false → (r : Pick) → Cached x bs r → Cached x (b ∷ bs) (behind b r)
    later other none h = (other, h)
    later other (some (bs', c)) (d, ch, mine, low, e) = (d, there ch, mine, low, e)

-- Every buffer is in use or dirty.
abbrev pub Busy : List Buf → Type 0
Busy [] = Unit
Busy (b ∷ bs) = (is_unused b ≡ false) × Busy bs

-- The buffer that the second loop finds was not in use.
abbrev Recycled : (x : ℕ) → List Buf → Pick → Type 0
Recycled x bs none = Busy bs
Recycled x bs (some (bs', c)) =
    (b : Buf) × Change b c bs bs' × (is_unused b ≡ true) × (c ≡ recycled 1 x b)

find_unused-Recycled : (x : ℕ) (bs : List Buf) → Recycled x bs (find_unused 1 x bs)
unfolding find_unused
find_unused-Recycled x [] = tt
find_unused-Recycled x (b ∷ bs) = choose (find_unused 1 x bs) (find_unused-Recycled x bs)
  where
    choose : (r : Pick) → Recycled x bs r → Recycled x (b ∷ bs) (or_recycle 1 x b bs r)
    choose (some (bs', c)) (d, ch, free, e) = (d, there ch, free, e)
    choose none h = elim (Bool-cases (is_unused b)) [
      | inl free ↦ rw free (b, here, free, refl)
      | inr busy ↦ rw busy (busy, h)
    ]

-- What `bget` does: buffer `b` becomes `c`, in its slot, and has the block now.
abbrev pub Fetched : (x : ℕ) → List Buf → Pick → Type 0
Fetched x bs none = Absent x bs × Busy bs
Fetched x bs (some (bs', c)) =
    (b : Buf) × Change b c bs bs'
    × (((is_block 1 x b ≡ true) × (b.refcnt + 1 < 2 ^ 32) × (c ≡ counted b))
        ⊎ ((is_unused b ≡ true) × Absent x bs × (c ≡ recycled 1 x b)))

pub bget-Fetched : (x : ℕ) (bs : List Buf) → Counts bs → Fetched x bs (bget 1 x bs)
unfolding bget
bget-Fetched x bs few =
    choose (find_cached 1 x bs) (find_cached-Cached x bs few) (find_unused 1 x bs)
      (find_unused-Recycled x bs)
  where
    choose : (p : Pick) → Cached x bs p → (q : Pick) → Recycled x bs q → Fetched x bs (or_else p q)
    choose (some (bs', c)) (b, ch, mine, low, eq) q h = (b, ch, inl (mine, low, eq))
    choose none absent (some (bs', c)) (b, ch, free, eq) = (b, ch, inr (free, absent, eq))
    choose none absent none busy = (absent, busy)

-- A further change of the buffer that has changed goes to the same place.
pub modify-Change :
    {b c : Buf} {bs bs' : List Buf} (d : Buf)
    → Change b c bs bs'
    → Slots bs
    → c.slot ≡ b.slot
    → Change b d bs (modify c.slot (λ _. d) bs')
modify-Change {c} d here slots e = rw (==-refl c.slot) here
modify-Change {b} {c} d (there {c = other} ch) slots e =
    let apart : (other.slot == c.slot) ≡ false = ground (arith, slot_apart other.slot ch slots.0) in
    rw apart (there (modify-Change d ch slots.1 e))
