-- ===== src/File/Tests.antt =====
-- The theorems on src/file.c, applied.
use a3team_os.Base.{true, false, List, [], ◌∷◌}
use a3team_os.File.{File, fd_inode, fd_none}

abbrev opened_file : File
opened_file = record {
  kind = fd_inode;
  ref = 1;
  readable = true;
  writable = false;
  pipe = 0;
  ip = 4096;
  off = 0;
}

abbrev files : List File
files = opened_file ∷ record opened_file { kind = fd_none; ref = 0 } ∷ []
