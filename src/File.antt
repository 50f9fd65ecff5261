-- ===== src/File.antt =====
-- The table of open files, src/file.c: which entries are in use is counted by their references.
--
-- Each function runs its critical section as one step. What `fileclose` does behind it, with a pipe
-- or an inode, is part of its result.
pub mod Refs
mod Tests
use a3team_os.Base.{
  ℕ, zero, suc, ◌+◌, ◌-◌, ◌*◌, ◌%◌, ◌^◌, ◌<◌, Bool, true, false, Option, none, some, List, [], ◌∷◌,
  ◌==◌, ltb, if◌then◌else◌, get_elem?, set,
}
use a3team_os.Base.Maybe.{◌>>=◌}

abbrev pub nfile : ℕ
nfile = 100

pub data Kind : Type 0 where
  fd_none : Kind
  fd_pipe : Kind
  fd_inode : Kind

-- `struct file`. A pipe and an inode are given by their addresses.
pub record File : Type 0 where
  pub kind : Kind
  pub ref : ℕ
  pub readable : Bool
  pub writable : Bool
  pub pipe : ℕ
  pub ip : ℕ
  pub off : ℕ

-- The first entry without references, from entry `i` on.
unfoldable pub find_free : (i : ℕ) → List File → Option ℕ
find_free i [] = none
find_free i (f ∷ fs) = let rest = find_free (i + 1) fs in if f.ref == 0 then some i else rest

-- `f->ref = ref`
abbrev pub set_ref : List File → ℕ → (ref : ℕ) → List File
set_ref [] i ref = []
set_ref (f ∷ fs) zero ref = record f { ref = ref } ∷ fs
set_ref (f ∷ fs) (suc i) ref = f ∷ set_ref fs i ref

-- `found:` of `filealloc`, and its end when no entry is found.
abbrev pub opened : List File → Option ℕ → List File × Option ℕ
opened fs none = (fs, none)
opened fs (some i) = (set_ref fs i 1, some i)

-- The other fields of the entry stay as they were; `none` is the address 0.
unfoldable pub filealloc : List File → List File × Option ℕ
filealloc fs = opened fs (find_free 0 fs)

-- `none` is the panic, and an index that is no entry.
unfoldable pub filedup : List File → ℕ → Option (List File)
filedup fs i = do
  f ← get_elem? fs i
  if ltb f.ref 1 then none else some (set fs i (record f { ref = f.ref + 1 }))

-- What `fileclose` goes on to: nothing, `pipeclose`, or `iput` in a transaction.
pub data Behind : Type 0 where
  nothing : Behind
  closes_pipe : (pipe : ℕ) → (writable : Bool) → Behind
  puts_inode : (ip : ℕ) → Behind

abbrev pub behind : File → Behind
behind f = elim f.kind [
  | fd_none ↦ nothing
  | fd_pipe ↦ closes_pipe f.pipe f.writable
  | fd_inode ↦ puts_inode f.ip
]

unfoldable pub fileclose : List File → ℕ → Option (List File × Behind)
fileclose fs i = do
  f ← get_elem? fs i
  if ltb f.ref 1
      then none
      else (if ltb 0 (f.ref - 1)
          then some (set fs i (record f { ref = f.ref - 1 }), nothing)
          else some (set fs i (record f { ref = 0; kind = fd_none }), behind f))
