-- ===== src/Log/Absorb.antt =====
-- `log_write` and the list of logged blocks.
use a3team_os.Base.{
  ap₂, ==-ne, ==-refl, ℕ, zero, suc, ◌+◌, ◌<◌, ◌≡◌, ◌⊎◌, refl, ◌∙◌, ap, true, false, some, List, [],
  ◌∷◌, ◌++◌, arith, ◌==◌, if◌then◌else◌, length, get_or, set, inl, inr, set-get_or, get_or-set_self,
  get_or-set_ne,
}
use a3team_os.Log.{Log, log_write, find_block}
use a3team_os.Log.Head.{numbers, numbers-eq}
use a3team_os.Log.Crash.{member}

-- The search stops at the block, or at the end of the numbers, which then do not hold it.
abbrev Finds : List ℕ → (b i r j : ℕ) → Type 0
Finds block b i r j =
    ((member b (numbers block i r) ≡ true) × (j < i + r) × (get_or block j 0 ≡ b))
    ⊎ ((member b (numbers block i r) ≡ false) × (j ≡ i + r))

find_block-Finds : (block : List ℕ) (b r i : ℕ) → Finds block b i r (find_block r i block b)
unfolding find_block
find_block-Finds block b zero i = inr (refl, omega arith)
find_block-Finds block b (suc r) i = ground (arith, find_block-Finds block b r (i + 1))

numbers-snoc :
    (block : List ℕ) (i r : ℕ)
    → numbers block i (suc r) ≡ numbers block i r ++ (get_or block (i + r) 0 ∷ [])
numbers-snoc block i zero = let e : i + 0 ≡ i = omega arith in rw e
numbers-snoc block i (suc r) =
    let e : i + 1 + r ≡ i + suc r = omega arith in
    ap (λ l. get_or block i 0 ∷ l) (rw e at (numbers-snoc block (i + 1) r))

-- The header behind a write of block `b`.
abbrev pub Logged : Log → (b : ℕ) → Log → Type 0
Logged l b l' = numbers l'.block 0 l'.n ≡ (
    if member b (numbers l.block 0 l.n)
    then numbers l.block 0 l.n
    else numbers l.block 0 l.n ++ (b ∷ []))

-- The log after the block at place `j` of the header is set.
abbrev placed : Log → (b j : ℕ) → Log
placed l b j = record l { block = set l.block j b; n = if j == l.n then l.n + 1 else l.n }

log_write-placed :
    (l l' : Log) (b : ℕ) → log_write l b ≡ some l' → l' ≡ placed l b (find_block l.n 0 l.block b)
unfolding log_write
log_write-placed l l' b e = ground arith

placed-Logged :
    (l : Log) (b j : ℕ) → l.n < length l.block → Finds l.block b 0 l.n j → Logged l b (placed l b j)
placed-Logged l b j room (inl (m, low, at)) =
    rw (m, ==-ne j l.n (λ e. omega arith), ← at, set-get_or)
placed-Logged l b j room (inr (m, e)) =
    let j_eq : j ≡ l.n = omega arith in
    rw (m, j_eq, ==-refl l.n, one_more)
      (numbers-snoc (set l.block l.n b) 0 l.n
        ∙ ap₂ (λ xs x. xs ++ (x ∷ []))
            (numbers-eq (set l.block l.n b) l.block 0 l.n
              (λ x lo hi. get_or-set_ne l.block l.n x b 0 (λ p. omega arith)))
            (rw zero_plus (get_or-set_self l.block l.n b 0 room)))
  where
    one_more : l.n + 1 ≡ suc l.n
    one_more = omega arith

    zero_plus : 0 + l.n ≡ l.n
    zero_plus = omega arith

-- When `log_write` does not panic, and the header has a place left, a block that the transaction
-- holds already changes nothing (absorption), and a new block goes to the end of the transaction.
pub log_write-Logged :
    (l l' : Log) (b : ℕ) → l.n < length l.block → log_write l b ≡ some l' → Logged l b l'
log_write-Logged l l' b room e =
    rw (log_write-placed l l' b e)
      (placed-Logged l b (find_block l.n 0 l.block b) room (find_block-Finds l.block b l.n 0))
