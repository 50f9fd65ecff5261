-- ===== src/Transfers/Tests.antt =====
-- The theorems on open files, applied to the file system of `Opens`.
use a3team_os.Base.{false, ℕ, true, Option, some, List, [], ◌∷◌, length, replicate, arith}
use a3team_os.Base.Maybe.{Each}
use a3team_os.Fs.{Super}
use a3team_os.Fs.Inode.{Inode}
use a3team_os.Inodes.{State, Action, pure}
use a3team_os.File.{File, fd_inode}
use a3team_os.Opens.Restoring.{Balanced}
use a3team_os.Transfers.{Device, filewrite, sys_read, sys_write, sys_fstat}
use a3team_os.Console.{Input}
use a3team_os.Transfers.Devices.{devices}
use a3team_os.Transfers.Reading.{transfers-Balanced}
use a3team_os.Transfers.Writing.{Advanced, filewrite-Advanced}

abbrev small : Super
small = record {
  size = 16;
  nblocks = 12;
  ninodes = 8;
  nlog = 0;
  logstart = 2;
  inodestart = 3;
  bmapstart = 2;
}

-- A device that gives a letter and takes everything.
abbrev gives_letter : (ip n : ℕ) → Action (Option (List ℕ))
gives_letter ip n = pure (some (97 ∷ []))

abbrev takes_all : (ip : ℕ) → List ℕ → Action (Option ℕ)
takes_all ip src = pure (some (length src))

abbrev device : Device
device = record { read = some gives_letter; write = some takes_all }

-- The line "a" has come.
abbrev keys : Input
keys = record { buf = 97 ∷ 10 ∷ replicate 126 0; r = 0; w = 2; e = 2 }

-- An empty file, and the console.
abbrev entry : (inum kind : ℕ) → Inode
entry inum kind = record {
  dev = 1;
  inum = inum;
  ref = 1;
  valid = true;
  kind = kind;
  major = 1;
  minor = 0;
  nlink = 1;
  size = 0;
  addrs = 11 ∷ replicate 12 0;
}

abbrev start : State
start = record {
  disk = record { block = λ b. replicate 512 0; logged = [] };
  inodes = entry 2 2 ∷ entry 3 3 ∷ [];
  held = [];
  ops = 0;
}

abbrev file : (ip : ℕ) → File
file ip = record {
  kind = fd_inode;
  ref = 1;
  readable = true;
  writable = true;
  pipe = 0;
  ip = ip;
  off = 0;
}

transfers-Balanced_example :
    Each
      (λ r. Balanced [] [] start r.1)
      (sys_read small
        (devices small false keys)
        (some 0)
        (some 5)
        (some 4096)
        (some 1 ∷ [])
        (file 0 ∷ file 1 ∷ [])
        start)
    × Each
        (λ r. Balanced [] [] start r.1)
        (sys_write small
          (devices small false keys)
          (some 0)
          (some (1 ∷ 2 ∷ []))
          (some 1 ∷ [])
          (file 0 ∷ file 1 ∷ [])
          start)
    × Each
        (λ r. Balanced [] [] start r.1)
        (sys_fstat small
          (devices small false keys)
          (some 0)
          (some 4096)
          (some 1 ∷ [])
          (file 0 ∷ file 1 ∷ [])
          start)
transfers-Balanced_example =
    transfers-Balanced small false keys start (some 0) (some 5) (some 4096) (some (1 ∷ 2 ∷ []))
      (some 1 ∷ []) (file 0 ∷ file 1 ∷ [])

filewrite-Advanced_example :
    Each
      (λ r. Advanced small (λ major. device) (file 0) (1 ∷ 2 ∷ []) r.0)
      (filewrite small (λ major. device) (file 0) (1 ∷ 2 ∷ []) start)
filewrite-Advanced_example =
    filewrite-Advanced small (λ major. device) (file 0) (1 ∷ 2 ∷ []) start (omega arith)
