-- ===== src/Pipe/Ends/Tests.antt =====
-- Pipes on a small table of files.
use a3team_os.Base.{false, none, some, [], ◌∷◌}
use a3team_os.File.{File, fd_none}
use a3team_os.Sysfile.{Ofile}
use a3team_os.Pipe.Ends.{Parts, sys_pipe}
use a3team_os.Pipe.Ends.Fds.{Pipes, sys_pipe-Pipes}

abbrev free_file : File
free_file = record {
  kind = fd_none;
  ref = 0;
  readable = false;
  writable = false;
  pipe = 0;
  ip = 0;
  off = 0;
}

-- Three free files, and one page.
abbrev parts : Parts
parts = record {
  kmem = record { freelist = 0x80400000; mem = λ a. 0 };
  files = free_file ∷ free_file ∷ free_file ∷ [];
  closed = [];
}

abbrev ofile : Ofile
ofile = some 9 ∷ none ∷ some 9 ∷ none ∷ []

sys_pipe-Pipes_example : Pipes ofile parts (sys_pipe (some 4096) ofile parts)
sys_pipe-Pipes_example = sys_pipe-Pipes (some 4096) ofile parts
