-- ===== src/Opens/Tests.antt =====
-- The system calls on paths, run on a small file system.
use a3team_os.Base.{
  ℕ, zero, suc, ◌≡◌, refl, sym, ap, true, false, Option, none, some, List, [], ◌∷◌, ◌++◌, replicate,
  if◌then◌else◌, ◌==◌, map, arith,
}
use a3team_os.Base.Maybe.{Each}
use a3team_os.Fs.{Super, balloc, find_block, find_bit, bzero, bfree}
use a3team_os.Fs.Inode.{
  Inode, ilock as read_inode, iget as get_entry, idup as dup_entry, ialloc as alloc_entry,
  iupdate as write_inode, find_cached, get_addrs, put_addrs, find_inode,
}
use a3team_os.Fs.Content.{
  readi as read_content, writei as write_content, iput as put_entry, read_chunks, write_chunks,
  bmap, direct, itrunc, free_direct,
}
use a3team_os.Fs.Path.{
  dirlookup as look_up, add_entry, find_entry, find_empty, same_name, skipelem, skip_slashes,
  split_elem,
}
use a3team_os.Inodes.{
  State, namex, walk, visit, ilock, iput, iunlockput, iupdate, dirlookup, readi, writei, dirlink,
  write_entry, ialloc, ◌>>=◌,
}
use a3team_os.Inodes.Walk.{walk-enough}
use a3team_os.File.{File, Kind, fd_none}
use a3team_os.Sysfile.{Ofile}
use a3team_os.Paths.{
  namei, nameiparent, link_to, link_in, unlink_again, give_up, sys_link, sys_unlink, unlink_in,
  unlink_entry, clear_entry, isdirempty, empty_from, leave_parent,
}
use a3team_os.Opens.{
  create, create_in, create_new, create_old, make_dots, created, sys_mkdir, sys_mknod, sys_chdir,
  enter_dir, sys_open,
}
use a3team_os.Opens.Opening.{Clean, opened_inode}
use a3team_os.Opens.Restoring.{
  Balanced, at_end, if_any, namex-Balanced, calls-Balanced, sys_open-Balanced,
}

abbrev small : Super
small = record {
  size = 16;
  nblocks = 12;
  ninodes = 8;
  nlog = 0;
  logstart = 2;
  inodestart = 3;
  bmapstart = 2;
}

-- The root directory has the entries "." and "..", and "f" for inode 2.
abbrev root_bytes : List ℕ
root_bytes =
    (1 ∷ 0 ∷ 46 ∷ replicate 13 0)
    ++ (1 ∷ 0 ∷ 46 ∷ 46 ∷ replicate 12 0)
    ++ (2 ∷ 0 ∷ 102 ∷ replicate 13 0)
    ++ replicate 464 0

-- The types of inodes 1 and 2; block 2 is the map, in which blocks 0 to 11 are in use.
abbrev inode_bytes : List ℕ
inode_bytes = replicate 64 0 ++ (1 ∷ replicate 63 0) ++ (2 ∷ replicate 383 0)

abbrev entry : (inum ref kind size block : ℕ) → Inode
entry inum ref kind size block = record {
  dev = 1;
  inum = inum;
  ref = ref;
  valid = true;
  kind = kind;
  major = 0;
  minor = 0;
  nlink = 1;
  size = size;
  addrs = block ∷ replicate 12 0;
}

abbrev start : State
start = record {
  disk = record {
    block = λ b.
        if b == 10
        then root_bytes
        else if b == 3
        then inode_bytes
        else if b == 2
        then 255 ∷ 15 ∷ replicate 510 0
        else replicate 512 0;
    logged = [];
  };
  inodes = entry 1 1 1 48 10 ∷ entry 2 1 2 0 11 ∷ entry 0 0 0 0 0 ∷ [];
  held = [];
  ops = 0;
}

-- "/f"
abbrev path : List ℕ
path = 47 ∷ 102 ∷ []

abbrev file : File
file = record {
  kind = fd_none;
  ref = 0;
  readable = false;
  writable = false;
  pipe = 0;
  ip = 0;
  off = 0;
}

abbrev buf : List ℕ
buf = replicate 14 0

-- The answer, the counts of references, the locks that are held and the transactions.
abbrev summary : {A : Type 0} → Option (A × State) → Option (A × List ℕ × List ℕ × ℕ)
summary none = none
summary (some (a, s)) = some (a, map (λ ip. ip.ref) s.inodes, s.held, s.ops)

-- "/g" and "/."; a link with the second name waits for the lock of the root directory.
abbrev other : List ℕ
other = 47 ∷ 103 ∷ []

abbrev itself : List ℕ
itself = 47 ∷ 46 ∷ []

runs :
    (summary (sys_link small 0 buf (some path) (some other) start)
      ≡ some (0, 1 ∷ 1 ∷ 0 ∷ [], [], 0))
    × (summary (sys_link small 0 buf (some path) (some itself) start) ≡ none)
    × (summary (sys_unlink small 0 buf (some path) start) ≡ some (0, 1 ∷ 1 ∷ 0 ∷ [], [], 0))
    × (summary (sys_mkdir small 0 buf (some other) start) ≡ some (0, 1 ∷ 1 ∷ 0 ∷ [], [], 0))
    × (summary (sys_chdir small 0 buf (some (46 ∷ [])) start)
        ≡ some ((0, 0), 1 ∷ 1 ∷ 0 ∷ [], [], 0))
unfolding namex visit get_entry find_cached dup_entry ilock read_inode iput put_entry iunlockput
    iupdate write_inode put_addrs dirlookup look_up find_entry readi read_content writei
    write_content write_chunks dirlink write_entry add_entry find_empty ialloc alloc_entry
    find_inode balloc find_block find_bit bzero itrunc free_direct bfree read_chunks bmap direct
    same_name skipelem skip_slashes split_elem ◌>>=◌ walk namei nameiparent link_to link_in
    unlink_again give_up sys_link sys_unlink unlink_in unlink_entry clear_entry isdirempty
    empty_from leave_parent create create_in create_new create_old make_dots created sys_mkdir
    sys_chdir enter_dir get_addrs
runs = (refl, refl, refl, refl, refl)

namex-Balanced_example :
    Each (λ r. Balanced (at_end r.0) [] start r.1) (namex small 0 path false buf start)
namex-Balanced_example = namex-Balanced small 0 buf start path false

calls-Balanced_example :
    Each (λ r. Balanced [] [] start r.1) (sys_link small 0 buf (some path) (some other) start)
    × Each (λ r. Balanced [] [] start r.1) (sys_unlink small 0 buf (some path) start)
    × Each (λ r. Balanced [] [] start r.1) (sys_mkdir small 0 buf (some path) start)
    × Each
        (λ r. Balanced [] [] start r.1)
        (sys_mknod small 0 buf (some path) (some 1) (some 1) start)
    × Each (λ r. Balanced (r.0.1 ∷ []) (0 ∷ []) start r.1) (sys_chdir small 0 buf (some path) start)
calls-Balanced_example = calls-Balanced small 0 buf start (some path) (some other) (some 1) (some 1)

-- A process with two descriptors, of which the first is in use, and a table of one file.
abbrev ofile : Ofile
ofile = some 7 ∷ none ∷ []

clean : Clean (file ∷ [])
clean zero f at free = ap (λ (o : Option File). kind_of o) (sym at)
  where
    kind_of : Option File → Kind
    kind_of none = fd_none
    kind_of (some g) = g.kind
clean (suc i) f at free = cc

sys_open-Balanced_example :
    Each
      (λ r. Balanced (if_any (opened_inode r.0)) [] start r.1)
      (sys_open small 0 buf (some path) (some 0) ofile (file ∷ []) start)
sys_open-Balanced_example =
    sys_open-Balanced small 0 buf start (some path) (some 0) ofile (file ∷ []) (omega arith) clean

walk-enough_example : walk small 3 false path buf 0 ≡ walk small 9 false path buf 0
walk-enough_example = walk-enough small 3 9 false path buf 0 (omega arith) (omega arith)
