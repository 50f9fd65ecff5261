-- ===== src/Sysfile/Tests.antt =====
-- The theorem on src/sysfile.c, applied: descriptor 1 is open, descriptor 0 is the first free one.
use a3team_os.Base.{ℕ, zero, suc, refl, arith, true, none, some, [], ◌∷◌}
use a3team_os.File.{File, fd_inode}
use a3team_os.Sysfile.{Ofile, sys_dup}
use a3team_os.Sysfile.Descriptors.{Dups, sys_close-sys_dup}

abbrev closed : ℕ → Ofile
closed zero = []
closed (suc n) = none ∷ closed n

abbrev file : File
file = record {
  kind = fd_inode;
  ref = 1;
  readable = true;
  writable = true;
  pipe = 0;
  ip = 8;
  off = 0;
}

abbrev descriptors : Ofile
descriptors = none ∷ some 0 ∷ closed 14

sys_close-sys_dup_example :
    Dups 1 0 descriptors (file ∷ []) (sys_dup (some 1) descriptors (file ∷ []))
sys_close-sys_dup_example =
    sys_close-sys_dup 1 0 descriptors (file ∷ []) file refl (omega arith) refl refl (omega arith)
