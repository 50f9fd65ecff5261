-- ===== src/Opens.antt =====
-- The system calls that create and open files and change the directory, src/sysfile.c.
--
-- The conventions are those of `Paths`. `files` is the table of open files and `ofile` has the open files
-- of the process.
pub mod Creating
pub mod Opening
pub mod Changing
pub mod Restoring
mod Tests
use a3team_os.Base.{
  ℕ, zero, suc, ◌+◌, ◌-◌, ◌*◌, ◌%◌, ◌^◌, Bool, true, false, not, ◌&&◌, ◌||◌, Option, none, some,
  List, [], ◌∷◌, ◌==◌, ltb, leb, if◌then◌else◌, get_elem?, set, bit_and,
}
use a3team_os.Fs.{Super}
use a3team_os.Fs.Inode.{Inode}
use a3team_os.Fs.Path.{t_dir}
use a3team_os.Inodes.{
  State, Action, Done, pure, panic, ◌>>=◌, if_null, inode, change, begin_op, end_op, ilock, iput,
  iunlock, iunlockput, iupdate, dirlookup, dirlink, ialloc,
}
use a3team_os.File.{File, fd_inode, filealloc, fileclose, puts_inode, Behind, nothing}
use a3team_os.Sysfile.{Ofile, Call, fails, fdalloc}
use a3team_os.Paths.{
  t_file, t_dev, failed, one_link_more, dot, dot_dot, give_up, namei, nameiparent,
}

abbrev pub o_wronly : ℕ
o_wronly = 1

abbrev pub o_rdwr : ℕ
o_rdwr = 2

abbrev pub o_create : ℕ
o_create = 512

abbrev pub has : (omode flag : ℕ) → Bool
has omode flag = not (bit_and omode flag == 0)

-- A new inode has one link.
abbrev pub fresh : (major minor : ℕ) → Inode → Inode
fresh major minor ip = record ip { major = major; minor = minor; nlink = 1 }

-- `f->type = FD_INODE` and what follows in `sys_open`.
abbrev pub file_opened : (omode ip : ℕ) → File → File
file_opened omode ip f = record f {
  kind = fd_inode;
  ip = ip;
  off = 0;
  readable = not (has omode o_wronly);
  writable = has omode o_wronly || has omode o_rdwr;
}

abbrev pub set_file : (omode ip : ℕ) → List File → ℕ → Option File → List File
set_file omode ip files k none = files
set_file omode ip files k (some f) = set files k (file_opened omode ip f)

abbrev pub open_answer : (omode ip fd k : ℕ) → Ofile → List File → Call
open_answer omode ip fd k ofile files = record {
  answer = fd;
  ofile = ofile;
  files = set_file omode ip files k (get_elem? files k);
  closes = nothing;
}

-- What is left of it with a pipe.
abbrev pub without_inode : Behind → Behind
without_inode behind = elim behind [ puts_inode j ↦ nothing | other ↦ other ]

module _ (sb : Super) (cwd : ℕ) (buf : List ℕ) where
  -- The entries "." and ".." of a new directory.
  unfoldable pub make_dots : (dp ip : ℕ) → Action Done
  make_dots dp ip = do
    u ← change dp one_link_more
    u ← iupdate sb dp
    i ← inode ip
    own ← dirlink sb ip dot i.inum
    (if not own then panic else (do
      d ← inode dp
      up ← dirlink sb ip dot_dot d.inum
      if not up then panic else pure tt))

  -- `create` with a directory in which the name is not there.
  unfoldable pub create_new : (kind major minor dp : ℕ) → (name : List ℕ) → Action (Option ℕ)
  create_new kind major minor dp name = do
    d ← inode dp
    ip ← ialloc sb d.dev kind
    u ← ilock sb ip
    u ← change ip (fresh major minor)
    u ← iupdate sb ip
    u ← (if kind == t_dir then make_dots dp ip else pure tt)
    i ← inode ip
    linked ← dirlink sb dp name i.inum
    (if not linked then panic else (do u ← iunlockput sb dp; pure (some ip)))

  -- `create` with an inode that has the name.
  unfoldable pub create_old : (kind dp : ℕ) → (entry : ℕ × ℕ) → Action (Option ℕ)
  create_old kind dp entry = do
    u ← iunlockput sb dp
    u ← ilock sb entry.0
    f ← inode entry.0
    (if (kind == t_file) && (f.kind == t_file)
        then pure (some entry.0)
        else (do u ← iunlockput sb entry.0; pure none))

  unfoldable pub create_in : (kind major minor : ℕ) → (parent : ℕ × List ℕ) → Action (Option ℕ)
  create_in kind major minor parent = do
    u ← ilock sb parent.0
    entry ← dirlookup sb parent.0 parent.1
    if_null entry (create_new kind major minor parent.0 parent.1) (create_old kind parent.0)

  -- The inode is locked.
  unfoldable pub create : (path : List ℕ) → (kind major minor : ℕ) → Action (Option ℕ)
  create path kind major minor = do
    parent ← nameiparent sb cwd buf path
    if_null parent (pure none) (create_in kind major minor)

  -- The inode of a path that is not created. It is locked.
  unfoldable pub open_old : (path : List ℕ) → (omode : ℕ) → Action (Option ℕ)
  open_old path omode = do
    found ← namei sb cwd buf path
    if_null found (pure none) (λ ip. do
      u ← ilock sb ip
      f ← inode ip
      (if (f.kind == t_dir) && not (omode == 0)
          then (do u ← iunlockput sb ip; pure none)
          else pure (some ip)))

  -- What `fileclose` goes on to with an inode.
  unfoldable pub close_behind : Behind → Action Done
  close_behind behind = elim behind [
    | puts_inode j ↦ (do u ← begin_op; u ← iput sb j; end_op)
    | other ↦ pure tt
  ]

  unfoldable pub open_failed : (ip : ℕ) → Call → Action Call
  open_failed ip answer = do u ← iunlockput sb ip; u ← end_op; pure answer

  -- There is no descriptor left for the new file.
  unfoldable pub close_again : (ip : ℕ) → Ofile → Option (List File × Behind) → Action Call
  close_again ip ofile closed = if_null closed panic (λ c. do
    u ← close_behind c.1
    open_failed ip (record (fails ofile c.0) { closes = without_inode c.1 }))

  unfoldable pub open_as : (omode ip k : ℕ) → Ofile → List File → Action Call
  open_as omode ip k ofile files =
      if_null (fdalloc k ofile) (close_again ip ofile (fileclose files k))
        (λ a. do u ← iunlock ip; u ← end_op; pure (open_answer omode ip a.0 k a.1 files))

  -- A file and a descriptor for the inode.
  unfoldable pub open_file : (omode : ℕ) → Ofile → List File → (ip : ℕ) → Action Call
  open_file omode ofile files ip =
      let a = filealloc files in
      if_null a.1 (open_failed ip (fails ofile a.0)) (λ k. open_as omode ip k ofile a.0)

  unfoldable pub sys_open :
      (path : Option (List ℕ)) → (omode : Option ℕ) → Ofile → List File → Action Call
  sys_open path omode ofile files = if_null path (pure (fails ofile files)) (λ p.
      if_null omode (pure (fails ofile files)) (λ m. do
        u ← begin_op
        found ← (if has m o_create then create p t_file 0 0 else open_old p m)
        if_null found (do u ← end_op; pure (fails ofile files)) (open_file m ofile files)))

  -- The inode that was created is left.
  unfoldable pub created : Option ℕ → Action ℕ
  created made = if_null made give_up (λ ip. do u ← iunlockput sb ip; u ← end_op; pure 0)

  unfoldable pub sys_mkdir : (path : Option (List ℕ)) → Action ℕ
  sys_mkdir path = do
    u ← begin_op
    made ← if_null path (pure none) (λ p. create p t_dir 0 0)
    created made

  unfoldable pub sys_mknod : (path : Option (List ℕ)) → (major minor : Option ℕ) → Action ℕ
  sys_mknod path major minor = do
    u ← begin_op
    made ← if_null path (pure none) (λ p.
        if_null major (pure none)
          (λ ma. if_null minor (pure none) (λ mi. create p t_dev (ma % 2 ^ 16) (mi % 2 ^ 16))))
    created made

  -- The answer and the current directory.
  unfoldable pub enter_dir : (ip : ℕ) → Action (ℕ × ℕ)
  enter_dir ip = do
    u ← ilock sb ip
    f ← inode ip
    (if not (f.kind == t_dir)
        then (do u ← iunlockput sb ip; a ← give_up; pure (a, cwd))
        else (do u ← iunlock ip; u ← iput sb cwd; u ← end_op; pure (0, ip)))

  unfoldable pub sys_chdir : (path : Option (List ℕ)) → Action (ℕ × ℕ)
  sys_chdir path = do
    u ← begin_op
    found ← if_null path (pure none) (namei sb cwd buf)
    if_null found (do a ← give_up; pure (a, cwd)) enter_dir
