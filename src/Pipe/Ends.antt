-- ===== src/Pipe/Ends.antt =====
-- `pipealloc` of src/pipe.c and `sys_pipe` of src/sysfile.c: two files on a new page.
--
-- `none` is a panic. What `fileclose` goes on to is kept in a list. The content of the page is the pipe
-- of the model; here it is an address.
pub mod Made
pub mod Fds
mod Tests
use a3team_os.Base.{
  ℕ, zero, suc, ◌+◌, Bool, true, false, Option, none, some, List, [], ◌∷◌, ◌++◌, ◌==◌,
  if◌then◌else◌, get_elem?, set,
}
use a3team_os.Base.Maybe.{◌>>=◌}
use a3team_os.Kalloc.{Kmem, kalloc}
use a3team_os.File.{File, fd_pipe, filealloc, fileclose, Behind}
use a3team_os.Sysfile.{Ofile, fdalloc}

-- The page allocator, the table of files, and what was closed.
pub record Parts : Type 0 where
  pub kmem : Kmem
  pub files : List File
  pub closed : List Behind

abbrev pub file_closed : Parts → Option (List File × Behind) → Option Parts
file_closed p none = none
file_closed p (some (files, b)) = some (record p { files = files; closed = p.closed ++ (b ∷ []) })

abbrev pub close : Parts → (i : ℕ) → Option Parts
close p i = file_closed p (fileclose p.files i)

-- The indices of the two files, and the page.
pub record Ends : Type 0 where
  pub reader : ℕ
  pub writer : ℕ
  pub page : ℕ

-- `(*f0)->type = FD_PIPE` and the lines that follow.
abbrev pub end_of : (page : ℕ) → (writes : Bool) → File → File
end_of page false f = record f { kind = fd_pipe; readable = true; writable = false; pipe = page }
end_of page true f = record f { kind = fd_pipe; readable = false; writable = true; pipe = page }

abbrev pub put_end : List File → (i page : ℕ) → (writes : Bool) → Option File → List File
put_end files i page writes none = files
put_end files i page writes (some f) = set files i (end_of page writes f)

abbrev pub make_end : (i page : ℕ) → (writes : Bool) → List File → List File
make_end i page writes files = put_end files i page writes (get_elem? files i)

abbrev pub close_both : Parts → (f0 f1 : ℕ) → Option Parts
close_both p f0 f1 = do p1 ← close p f0; close p1 f1

-- With two files: a page for the pipe, or `bad:`.
unfoldable pub with_pipe : Parts → (f0 f1 : ℕ) → Kmem × ℕ → Option (Parts × Option Ends)
with_pipe p f0 f1 (kmem, page) =
    if page == 0
    then (do p1 ← close_both p f0 f1; some (p1, none))
    else some (
      record p { kmem = kmem; files = make_end f1 page true (make_end f0 page false p.files) },
      some (record { reader = f0; writer = f1; page = page }),
    )

-- With one file: another one, or `bad:`.
unfoldable pub with_second : Parts → (f0 : ℕ) → List File × Option ℕ → Option (Parts × Option Ends)
with_second p f0 (files, none) = do p1 ← close (record p { files = files }) f0; some (p1, none)
with_second p f0 (files, some f1) = with_pipe (record p { files = files }) f0 f1 (kalloc p.kmem)

unfoldable pub with_first : Parts → List File × Option ℕ → Option (Parts × Option Ends)
with_first p (files, none) = some (record p { files = files }, none)
with_first p (files, some f0) = with_second (record p { files = files }) f0 (filealloc files)

unfoldable pub pipealloc : Parts → Option (Parts × Option Ends)
pipealloc p = with_first p (filealloc p.files)

-- The parts, the open files of the process, and the two descriptors; without them the answer is -1.
abbrev pub Piped : Type 0
Piped = Parts × Ofile × Option (ℕ × ℕ)

abbrev pub no_descriptors : Parts → Ofile → Ends → Option Piped
no_descriptors p ofile e = do p1 ← close_both p e.reader e.writer; some (p1, ofile, none)

-- With a descriptor for the first file: one for the second, or the first one is taken back.
unfoldable pub second_fd : Parts → Ends → (fd0 : ℕ) → Ofile → Option (ℕ × Ofile) → Option Piped
second_fd p e fd0 ofile none = no_descriptors p (set ofile fd0 none) e
second_fd p e fd0 ofile (some (fd1, ofile')) = some (p, ofile', some (fd0, fd1))

unfoldable pub first_fd : Parts → Ends → Ofile → Option (ℕ × Ofile) → Option Piped
first_fd p e ofile none = no_descriptors p ofile e
first_fd p e ofile (some (fd0, ofile')) = second_fd p e fd0 ofile' (fdalloc e.writer ofile')

unfoldable pub with_ends : Ofile → Parts → Option Ends → Option Piped
with_ends ofile p none = some (p, ofile, none)
with_ends ofile p (some e) = first_fd p e ofile (fdalloc e.reader ofile)

-- The pointer that `argptr` gives is valid.
unfoldable pub sys_pipe : (fds : Option ℕ) → Ofile → Parts → Option Piped
sys_pipe none ofile p = some (p, ofile, none)
sys_pipe (some fds) ofile p = do (p1, ends) ← pipealloc p; with_ends ofile p1 ends
