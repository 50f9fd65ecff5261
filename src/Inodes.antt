-- ===== src/Inodes.antt =====
-- Inodes as the system calls use them: references, locks and transactions, of src/fs.c and src/log.c.
--
-- An inode is the place of its entry in the cache. The operations are written as the C code calls
-- them, on the disk, the cache, the locks of inodes that the process holds and the transactions that it
-- has begun. No result is a panic, or a process that waits for a lock that it holds itself.
pub mod Rules
pub mod Keep
pub mod Counts
pub mod Cache
pub mod Moves
pub mod Entries
pub mod Walk
pub mod Gives
mod Tests
use a3team_os.Base.{
  ℕ, zero, suc, ◌+◌, ◌-◌, ◌^◌, Bool, true, false, not, ◌&&◌, ◌||◌, Option, none, some, List, [],
  ◌∷◌, ◌==◌, ltb, leb, if◌then◌else◌, get_elem?, set, length, drop,
}
use a3team_os.Fs.{Super, Disk}
use a3team_os.Fs.Inode.{
  Inode, ilock as read_inode, iget as get_entry, idup as dup_entry, ialloc as alloc_entry,
  iupdate as write_inode,
}
use a3team_os.Fs.Content.{readi as read_content, writei as write_content, iput as put_entry}
use a3team_os.Fs.Path.{dirlookup as look_up, add_entry, t_dir, skipelem}

pub record State : Type 0 where
  pub disk : Disk
  pub inodes : List Inode
  pub held : List ℕ
  pub ops : ℕ

abbrev pub Action : Type 0 → Type 0
Action A = State → Option (A × State)

module _ {A : Type 0} where
  abbrev pub pure : A → Action A
  pure a s = some (a, s)

  abbrev pub panic : Action A
  panic s = none

module _ {A B : Type 0} where
  abbrev pub chain : (A → Action B) → Option (A × State) → Option (B × State)
  chain f none = none
  chain f (some (a, s)) = f a s

  infixl 5 ◌>>=◌
  unfoldable pub ◌>>=◌ : Action A → (A → Action B) → Action B
  ◌>>=◌ m f s = chain f (m s)

  -- A test for the address 0.
  abbrev pub if_null : Option A → Action B → (A → Action B) → Action B
  if_null none m f = m
  if_null (some a) m f = f a

-- A step that has no answer.
abbrev pub Done : Type 0
Done = Unit {0}

abbrev pub member : ℕ → List ℕ → Bool
member i [] = false
member i (j ∷ js) = (j == i) || member i js

abbrev pub remove : ℕ → List ℕ → List ℕ
remove i [] = []
remove i (j ∷ js) = if j == i then js else j ∷ remove i js

abbrev pub put_back : {A : Type 0} → ℕ → State → Option (Inode × Disk × A) → Option (A × State)
put_back i s none = none
put_back i s (some (ip, d, a)) = some (a, record s { disk = d; inodes = set s.inodes i ip })

abbrev pub on_entry :
    {A : Type 0}
    → (Disk → Inode → Option (Inode × Disk × A))
    → Disk
    → Option Inode
    → Option (Inode × Disk × A)
on_entry f d none = none
on_entry f d (some ip) = f d ip

-- A step on entry `i`.
abbrev pub on_inode : {A : Type 0} → (i : ℕ) → (Disk → Inode → Option (Inode × Disk × A)) → Action A
on_inode i f s = put_back i s (on_entry f s.disk (get_elem? s.inodes i))

abbrev pub without : Disk → Option Inode → Option (Inode × Disk × Done)
without d none = none
without d (some ip) = some (ip, d, tt)

-- The fields of an entry.
abbrev pub inode : (i : ℕ) → Action Inode
inode i = on_inode i (λ d ip. some (ip, d, ip))

-- A change of fields other than the count of references.
abbrev pub change : (i : ℕ) → (Inode → Inode) → Action Done
change i f = on_inode i (λ d ip. some (record (f ip) { ref = ip.ref }, d, tt))

abbrev pub hold : (i : ℕ) → Action Done
hold i s = if member i s.held then none else some (tt, record s { held = i ∷ s.held })

abbrev pub drop_lock : (i : ℕ) → Action Done
drop_lock i s = if member i s.held then some (tt, record s { held = remove i s.held }) else none

abbrev pub with_cache : {A : Type 0} → State → Option (List Inode × A) → Option (A × State)
with_cache s none = none
with_cache s (some (ips, a)) = some (a, record s { inodes = ips })

abbrev pub begin_op : Action Done
begin_op s = some (tt, record s { ops = s.ops + 1 })

-- Without a transaction the count would go below 0.
abbrev pub end_op : Action Done
end_op s = if s.ops == 0 then none else some (tt, record s { ops = s.ops - 1 })

abbrev pub iget : (dev inum : ℕ) → Action ℕ
iget dev inum s = with_cache s (get_entry s.inodes dev inum)

abbrev pub no_answer : Option (List Inode) → Option (List Inode × Done)
no_answer none = none
no_answer (some ips) = some (ips, tt)

abbrev pub idup : (i : ℕ) → Action Done
idup i s = with_cache s (no_answer (dup_entry s.inodes i))

-- `iunlock` tests for the lock and for a reference.
abbrev pub iunlock : (i : ℕ) → Action Done
iunlock i = do ip ← inode i; if ltb ip.ref 1 then panic else drop_lock i

abbrev pub gone : Option (Inode × Disk) → Option (Inode × Disk × Done)
gone none = none
gone (some (ip, d)) = some (ip, d, tt)

abbrev pub found :
    State → Option (Disk × List Inode × Option (ℕ × ℕ)) → Option (Option (ℕ × ℕ) × State)
found s none = none
found s (some (d, ips, a)) = some (a, record s { disk = d; inodes = ips })

abbrev pub added : State → Option (Disk × List Inode × Bool) → Option (Bool × State)
added s none = none
added s (some (d, ips, a)) = some (a, record s { disk = d; inodes = ips })

abbrev pub allocated : State → Option (Disk × List Inode × ℕ) → Option (ℕ × State)
allocated s none = none
allocated s (some (d, ips, a)) = some (a, record s { disk = d; inodes = ips })

-- `ROOTDEV` and `ROOTINO`
abbrev pub rootdev : ℕ
rootdev = 1

abbrev pub rootino : ℕ
rootino = 1

-- An inode that has been found, and the name buffer.
abbrev pub Target : Type 0
Target = Option (ℕ × List ℕ)

abbrev pub is_absolute : List ℕ → Bool
is_absolute [] = false
is_absolute (c ∷ cs) = c == 47

module _ (sb : Super) where
  unfoldable pub ilock : (i : ℕ) → Action Done
  ilock i = do u ← hold i; on_inode i (λ d ip. without d (read_inode sb d ip))

  -- The lock is taken and released inside.
  unfoldable pub iput : (i : ℕ) → Action Done
  iput i = do u ← hold i; v ← on_inode i (λ d ip. gone (put_entry sb d ip)); drop_lock i

  unfoldable pub iunlockput : (i : ℕ) → Action Done
  iunlockput i = do u ← iunlock i; iput i

  unfoldable pub iupdate : (i : ℕ) → Action Done
  iupdate i = on_inode i (λ d ip. some (ip, write_inode sb d ip, tt))

  -- The entry of the inode with the name, which gets a reference, and the offset.
  unfoldable pub dirlookup : (dp : ℕ) → (name : List ℕ) → Action (Option (ℕ × ℕ))
  dirlookup dp name s = found s (look_up sb s.disk s.inodes dp name)

  unfoldable pub write_entry : (dp : ℕ) → (name : List ℕ) → (inum : ℕ) → Action Bool
  write_entry dp name inum s = added s (add_entry sb s.disk s.inodes dp name inum)

  -- The answer is false for -1: the name is there, and the inode that was found is put back.
  unfoldable pub dirlink : (dp : ℕ) → (name : List ℕ) → (inum : ℕ) → Action Bool
  dirlink dp name inum = do
    present ← dirlookup dp name
    if_null present (write_entry dp name inum) (λ e. do u ← iput e.0; pure false)

  unfoldable pub ialloc : (dev kind : ℕ) → Action ℕ
  ialloc dev kind s = allocated s (alloc_entry sb s.disk s.inodes dev kind)

  -- `readi` of a file or a directory; -1 is `none`.
  unfoldable pub readi : (i off n : ℕ) → Action (Option (List ℕ))
  readi i off n = on_inode i (λ d ip. read_content sb d ip off n)

  unfoldable pub writei : (i off : ℕ) → List ℕ → Action Bool
  writei i off src = on_inode i (λ d ip. write_content sb d ip off src)

  -- One round of the loop of `namex` at inode `i`, with what follows at the next inode.
  unfoldable pub visit :
      (parent : Bool)
      → (next : List ℕ × List ℕ) → (i : ℕ) → (go_on : ℕ → Action Target) → Action Target
  visit parent next i go_on = do
    u ← ilock i
    ip ← inode i
    (if not (ip.kind == t_dir)
        then (do v ← iunlockput i; pure none)
        else if parent && (length next.0 == 0)
        then (do v ← iunlock i; pure (some (i, next.1)))
        else (do
          entry ← dirlookup i next.1
          if_null entry (do v ← iunlockput i; pure none) (λ e. do v ← iunlockput i; go_on e.0)))

  -- The loop, with the elements of the path that it may take. The inode is not locked.
  unfoldable pub walk : (n : ℕ) → (parent : Bool) → (path name : List ℕ) → (i : ℕ) → Action Target
  walk zero parent path name i = panic
  walk (suc n) parent path name i =
      if_null (skipelem path name)
        (if parent then (do u ← iput i; pure none) else pure (some (i, name)))
        (λ next. visit parent next i (walk n parent next.0 next.1))

  -- One round more than the path has characters is enough.
  unfoldable pub namex :
      (cwd : ℕ) → (path : List ℕ) → (parent : Bool) → (name : List ℕ) → Action Target
  namex cwd path parent name = do
    i ← (if is_absolute path then iget rootdev rootino else (do u ← idup cwd; pure cwd))
    walk (suc (length path)) parent path name i
