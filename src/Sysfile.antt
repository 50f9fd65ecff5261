-- ===== src/Sysfile.antt =====
-- The system calls on file descriptors in src/sysfile.c.
--
-- `ofile` has the index of the open file of every descriptor of the calling process, and `files` is the
-- table of open files. The argument is what `argint` gives, `none` when it fails.
pub mod Descriptors
mod Tests
use a3team_os.Base.{
  ℕ, zero, suc, ◌+◌, ◌-◌, ◌^◌, Bool, true, false, not, ◌&&◌, ◌||◌, Option, none, some, List, [],
  ◌∷◌, ◌==◌, ltb, leb, if◌then◌else◌, get_elem?, set,
}
use a3team_os.Base.Maybe.{◌>>=◌}
use a3team_os.File.{File, filedup, fileclose, Behind, nothing}

abbrev pub nofile : ℕ
nofile = 16

-- The open files of a process.
abbrev pub Ofile : Type 0
Ofile = List (Option ℕ)

abbrev pub join : Option (Option ℕ) → Option ℕ
join none = none
join (some o) = o

abbrev pub with_fd : (fd : ℕ) → Option ℕ → Option (ℕ × ℕ)
with_fd fd none = none
with_fd fd (some f) = some (fd, f)

-- The descriptor and its file. A negative `int` is a number from 2 ^ 31 on.
unfoldable pub argfd : (arg : Option ℕ) → Ofile → Option (ℕ × ℕ)
argfd none ofile = none
argfd (some fd) ofile =
    if leb (2 ^ 31) fd || leb nofile fd then none else with_fd fd (join (get_elem? ofile fd))

abbrev pub shift : Option ℕ → Option (ℕ × Ofile) → Option (ℕ × Ofile)
shift o none = none
shift o (some (fd, ofile)) = some (suc fd, o ∷ ofile)

-- The first descriptor that is free gets the file.
unfoldable pub fdalloc : (f : ℕ) → Ofile → Option (ℕ × Ofile)
fdalloc f [] = none
fdalloc f (none ∷ os) = some (0, some f ∷ os)
fdalloc f (some g ∷ os) = shift (some g) (fdalloc f os)

-- What a call returns, -1 as its bit pattern, with the open files of the process, the table of files,
-- and what a close goes on to.
pub record Call : Type 0 where
  pub answer : ℕ
  pub ofile : Ofile
  pub files : List File
  pub closes : Behind

abbrev pub fails : Ofile → List File → Call
fails ofile files = record { answer = 2 ^ 32 - 1; ofile = ofile; files = files; closes = nothing }

abbrev pub dup_done : List File → (f : ℕ) → Ofile → Option (ℕ × Ofile) → Option Call
dup_done files f ofile none = some (fails ofile files)
dup_done files f ofile (some (fd, ofile')) = do
  files' ← filedup files f
  some (record { answer = fd; ofile = ofile'; files = files'; closes = nothing })

abbrev pub dup_file : Ofile → List File → Option (ℕ × ℕ) → Option Call
dup_file ofile files none = some (fails ofile files)
dup_file ofile files (some (fd, f)) = dup_done files f ofile (fdalloc f ofile)

-- `none` is a panic.
unfoldable pub sys_dup : (arg : Option ℕ) → Ofile → List File → Option Call
sys_dup arg ofile files = dup_file ofile files (argfd arg ofile)

abbrev pub close_file : Ofile → List File → Option (ℕ × ℕ) → Option Call
close_file ofile files none = some (fails ofile files)
close_file ofile files (some (fd, f)) = do
  (files', behind) ← fileclose files f
  some (record { answer = 0; ofile = set ofile fd none; files = files'; closes = behind })

unfoldable pub sys_close : (arg : Option ℕ) → Ofile → List File → Option Call
sys_close arg ofile files = close_file ofile files (argfd arg ofile)
