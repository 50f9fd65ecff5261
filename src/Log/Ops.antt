-- ===== src/Log/Ops.antt =====
-- `begin_op`, `log_write` and `end_op`: how the log keeps room for the operations under way.
use a3team_os.Base.{
  ◌^◌, ◌%◌, ℕ, zero, suc, ◌+◌, ◌-◌, ◌*◌, ◌≤◌, ◌<◌, ◌≡◌, refl, true, false, some, List, [], ◌∷◌,
  arith, length, set, get_elem?, length-set,
}
use a3team_os.Log.Disk.{Store}
use a3team_os.Log.{Log, logsize, maxopblocks, begin_op, log_write, end_op, commit}

-- The log, and for each operation under way the number of blocks that it may still log.
pub record Sys : Type 0 where
  pub log : Log
  pub left : List ℕ

abbrev pub sum : List ℕ → ℕ
sum [] = 0
sum (x ∷ xs) = x + sum xs

abbrev pub remove_at : List ℕ → ℕ → List ℕ
remove_at [] i = []
remove_at (x ∷ xs) zero = xs
remove_at (x ∷ xs) (suc i) = x ∷ remove_at xs i

-- What the operations of the file system do, in any order: each logs at most `maxopblocks` blocks
-- between its `begin_op` and its `end_op`.
pub data Step : Sys → Sys → Type 0 where
  begins :
      {l l' : Log} {left : List ℕ}
      → begin_op l ≡ some l'
      → Step (record { log = l; left = left }) (record { log = l'; left = maxopblocks ∷ left })
  logs :
      {l l' : Log} {left : List ℕ} (i k b : ℕ)
      → get_elem? left i ≡ some (suc k)
      → log_write l b ≡ some l'
      → Step (record { log = l; left = left }) (record { log = l'; left = set left i k })
  ends :
      {l l' : Log} {left : List ℕ} (st st' : Store) (i : ℕ)
      → i < length left
      → end_op l st ≡ some (l', st')
      → Step (record { log = l; left = left }) (record { log = l'; left = remove_at left i })

pub data Reach (s : Sys) : Sys → Type 0 where
  here : Reach s s
  next : {t u : Sys} → Reach s t → Step t u → Reach s u

-- No operation logs more than `maxopblocks` blocks.
abbrev pub Each : List ℕ → Type 0
Each [] = Unit
Each (x ∷ xs) = (x ≤ maxopblocks) × Each xs

-- Room for what the operations under way may still log.
pub record HasRoom (s : Sys) : Type 0 where
  pub reserved : s.log.n + sum s.left ≤ logsize
  pub counted : s.log.outstanding ≡ length s.left
  pub small : Each s.left
  pub bound : length s.left ≤ logsize
  pub size : logsize < s.log.size
  pub idle : s.log.committing ≡ false

sum-set :
    (xs : List ℕ) (i : ℕ) {k : ℕ} → get_elem? xs i ≡ some (suc k) → suc (sum (set xs i k)) ≡ sum xs
sum-set [] i e = cc
sum-set (x ∷ xs) zero {k} e = let p : x ≡ suc k = ground arith in omega arith
sum-set (x ∷ xs) (suc i) e = omega (arith, sum-set xs i e)

sum-remove : (xs : List ℕ) (i : ℕ) → sum (remove_at xs i) ≤ sum xs
sum-remove [] i = omega arith
sum-remove (x ∷ xs) zero = omega arith
sum-remove (x ∷ xs) (suc i) = omega (arith, sum-remove xs i)

length-remove : (xs : List ℕ) (i : ℕ) → i < length xs → suc (length (remove_at xs i)) ≡ length xs
length-remove [] i h = elim h [ ]
length-remove (x ∷ xs) zero h = refl
length-remove (x ∷ xs) (suc i) h = omega (arith, length-remove xs i (omega arith))

sum-le : (xs : List ℕ) → Each xs → sum xs ≤ maxopblocks * length xs
sum-le [] h = omega arith
sum-le (x ∷ xs) h = omega (arith, sum-le xs h.1)

Each-set : (xs : List ℕ) (i k : ℕ) → k ≤ maxopblocks → Each xs → Each (set xs i k)
Each-set [] i k le h = tt
Each-set (x ∷ xs) zero k le h = (le, h.1)
Each-set (x ∷ xs) (suc i) k le h = (h.0, Each-set xs i k le h.1)

Each-at : (xs : List ℕ) (i : ℕ) {k : ℕ} → get_elem? xs i ≡ some (suc k) → Each xs → k ≤ maxopblocks
Each-at [] i e h = cc
Each-at (x ∷ xs) zero {k} e h = let p : x ≡ suc k = ground arith in omega arith
Each-at (x ∷ xs) (suc i) e h = Each-at xs i e h.1

Each-remove : (xs : List ℕ) (i : ℕ) → Each xs → Each (remove_at xs i)
Each-remove [] i h = tt
Each-remove (x ∷ xs) zero h = h.1
Each-remove (x ∷ xs) (suc i) h = (h.0, Each-remove xs i h.1)

commit-idle :
    (l : Log) (st : Store)
    → ((commit l st).0.n ≡ 0)
      × ((commit l st).0.outstanding ≡ l.outstanding)
      × ((commit l st).0.size ≡ l.size)
unfolding commit
commit-idle l st = ground arith

begins-HasRoom :
    {l l' : Log} {left : List ℕ}
    → begin_op l ≡ some l'
    → HasRoom (record { log = l; left = left })
    → HasRoom (record { log = l'; left = maxopblocks ∷ left })
unfolding begin_op
begins-HasRoom {left} e v = ground (arith, sum-le left v.small)

logs-HasRoom :
    {l l' : Log} {left : List ℕ} (i k b : ℕ)
    → get_elem? left i ≡ some (suc k)
    → log_write l b ≡ some l'
    → HasRoom (record { log = l; left = left })
    → HasRoom (record { log = l'; left = set left i k })
unfolding log_write
logs-HasRoom {left} i k b at e v = ground (
  arith,
  sum-set left i at,
  length-set left i k,
  Each-set left i k (Each-at left i at v.small) v.small,
)

ends-HasRoom :
    {l l' : Log} {left : List ℕ} (st st' : Store) (i : ℕ)
    → i < length left
    → end_op l st ≡ some (l', st')
    → HasRoom (record { log = l; left = left })
    → HasRoom (record { log = l'; left = remove_at left i })
unfolding end_op
ends-HasRoom {l} {left} st st' i at e v = ground (
  arith,
  sum-remove left i,
  length-remove left i at,
  Each-remove left i v.small,
  commit-idle
      (record l { outstanding = (l.outstanding + (2 ^ 32 - 1)) % 2 ^ 32; committing = true }) st,
)

Step-HasRoom : {s t : Sys} → Step s t → HasRoom s → HasRoom t
Step-HasRoom (begins e) v = begins-HasRoom e v
Step-HasRoom (logs i k b at e) v = logs-HasRoom i k b at e v
Step-HasRoom (ends st st' i at e) v = ends-HasRoom st st' i at e v

-- An empty log with room for more than `logsize` blocks on the disk, and no operation under way.
pub record IsStart (s : Sys) : Type 0 where
  pub none_logged : s.log.n ≡ 0
  pub none_under_way : s.left ≡ []
  pub count_zero : s.log.outstanding ≡ 0
  pub size_ok : logsize < s.log.size
  pub no_commit : s.log.committing ≡ false

IsStart-HasRoom : {s : Sys} → IsStart s → HasRoom s
IsStart-HasRoom {s} v = record {
  reserved = rw (v.none_logged, v.none_under_way) (omega arith);
  counted = rw (v.none_under_way) v.count_zero;
  small = rw v.none_under_way tt;
  bound = rw v.none_under_way (omega arith);
  size = v.size_ok;
  idle = v.no_commit;
}

pub Reach-HasRoom : {s t : Sys} → IsStart s → Reach s t → HasRoom t
Reach-HasRoom v here = IsStart-HasRoom v
Reach-HasRoom v (next r st) = Step-HasRoom st (Reach-HasRoom v r)

-- The transaction of a reachable state never holds more than `logsize` blocks.
pub reserved_bound : {s t : Sys} → IsStart s → Reach s t → t.log.n ≤ logsize
reserved_bound start r = omega (arith, (Reach-HasRoom start r).reserved)
