-- ===== src/Transfers.antt =====
-- Reading and writing open files, src/file.c, with the devices of `readi` and `writei` in src/fs.c.
--
-- The table of devices, `devsw`, is a parameter here; Transfers.Devices fills it. A file is given by its
-- value; what is done with a pipe is left to the pipe. An answer of `none` is -1.
pub mod Devices
pub mod Reading
pub mod Writing
mod Tests
use a3team_os.Base.{
  ℕ, zero, suc, ◌+◌, ◌*◌, ◌/◌, ◌-◌, ◌%◌, ◌^◌, Bool, true, false, not, ◌||◌, Option, none, some,
  List, [], ◌∷◌, ◌==◌, leb, ltb, if◌then◌else◌, take, drop, length, get_elem?, set,
}
use a3team_os.Fs.{Super, bsize}
use a3team_os.Fs.Inode.{Inode}
use a3team_os.Inodes.{
  Action, pure, panic, ◌>>=◌, if_null, inode, begin_op, end_op, ilock, iunlock, readi, writei,
}
use a3team_os.File.{File, Kind, fd_none, fd_pipe, fd_inode}
use a3team_os.Log.{maxopblocks}
use a3team_os.Sysfile.{Ofile, argfd}
use a3team_os.Paths.{t_dev}

abbrev pub ndev : ℕ
ndev = 10

-- The functions of a device, which may be missing.
pub record Device : Type 0 where
  pub read : Option ((ip n : ℕ) → Action (Option (List ℕ)))
  pub write : Option ((ip : ℕ) → List ℕ → Action (Option ℕ))

-- A major number that has no place in the table. It is a short.
abbrev pub no_device : Inode → Bool
no_device ip = leb (2 ^ 15) ip.major || leb ndev ip.major

-- `struct stat`
pub record Stat : Type 0 where
  pub kind : ℕ
  pub dev : ℕ
  pub ino : ℕ
  pub nlink : ℕ
  pub size : ℕ

abbrev pub stati : Inode → Stat
stati ip = record { kind = ip.kind; dev = ip.dev; ino = ip.inum; nlink = ip.nlink; size = ip.size }

-- A call on a file ends with an answer, or goes on with the pipe of the file.
pub data Outcome (A : Type 0) : Type 0 where
  answers : A → Outcome A
  to_pipe : (pipe : ℕ) → Outcome A

-- `f->off += r`
abbrev pub move_on : ℕ → File → File
move_on r f = record f { off = (f.off + r) % 2 ^ 32 }

abbrev pub after_read : File → Option (List ℕ) → File
after_read f none = f
after_read f (some bytes) = move_on (length bytes) f

-- The bytes of a transaction of `filewrite`: room for the inode, the indirect block, two blocks of slop,
-- and the blocks of the map.
abbrev pub write_max : ℕ
write_max = (maxopblocks - 1 - 1 - 2) / 2 * 512

module _ (sb : Super) (devsw : ℕ → Device) where
  -- `readi` and `writei`, of a device too.
  unfoldable pub read_inode : (i off n : ℕ) → Action (Option (List ℕ))
  read_inode i off n = do
    ip ← inode i
    (if ip.kind == t_dev
        then (if no_device ip
            then pure none
            else if_null (devsw ip.major).read (pure none) (λ read. read i n))
        else readi sb i off n)

  unfoldable pub write_file : (i off : ℕ) → List ℕ → Action (Option ℕ)
  write_file i off src = do
    written ← writei sb i off src
    pure (if written then some (length src) else none)

  unfoldable pub write_inode : (i off : ℕ) → List ℕ → Action (Option ℕ)
  write_inode i off src = do
    ip ← inode i
    (if ip.kind == t_dev
        then (if no_device ip
            then pure none
            else if_null (devsw ip.major).write (pure none) (λ write. write i src))
        else write_file i off src)

  unfoldable pub stat_at : (ip : ℕ) → Action (Option Stat)
  stat_at i = do u ← ilock sb i; ip ← inode i; u ← iunlock i; pure (some (stati ip))

  -- By the type of the file.
  unfoldable pub stat_as : Kind → (ip : ℕ) → Action (Option Stat)
  stat_as fd_inode i = stat_at i
  stat_as fd_pipe i = pure none
  stat_as fd_none i = pure none

  unfoldable pub filestat : File → Action (Option Stat)
  filestat f = stat_as f.kind f.ip

  unfoldable pub read_at : File → (n : ℕ) → Action (File × Outcome (Option (List ℕ)))
  read_at f n = do
    u ← ilock sb f.ip
    got ← read_inode f.ip f.off n
    u ← iunlock f.ip
    pure (after_read f got, answers got)

  -- By the type of the file.
  unfoldable pub read_as : Kind → (f : File) → (n : ℕ) → Action (File × Outcome (Option (List ℕ)))
  read_as fd_pipe f n = pure (f, to_pipe f.pipe)
  read_as fd_inode f n = read_at f n
  read_as fd_none f n = panic

  unfoldable pub fileread : File → (n : ℕ) → Action (File × Outcome (Option (List ℕ)))
  fileread f n = if not f.readable then pure (f, answers none) else read_as f.kind f n

  -- One transaction of `filewrite`. The result of `writei` may be -1.
  unfoldable pub write_chunk : File → List ℕ → Action (Option ℕ)
  write_chunk f src = do
    u ← begin_op
    u ← ilock sb f.ip
    r ← write_inode f.ip f.off src
    u ← iunlock f.ip
    u ← end_op
    pure r

  -- The loop of `filewrite` over the bytes that are left: whether all were written. Each round takes one
  -- byte at least, so that the rounds do not run out when there are as many as bytes.
  unfoldable pub write_chunks : (rounds : ℕ) → File → (left : List ℕ) → Action (File × Bool)
  write_chunks zero f left = pure (f, length left == 0)
  write_chunks (suc n) f left = if length left == 0 then pure (f, true) else (do
    r ← write_chunk f (take write_max left)
    if_null r (pure (f, false)) (λ r.
        if not (r == length (take write_max left))
        then panic
        else write_chunks n (move_on r f) (drop write_max left)))

  unfoldable pub write_at : File → List ℕ → Action (File × Outcome (Option ℕ))
  write_at f src = do
    done ← write_chunks (length src) f src
    pure (done.0, answers (if done.1 then some (length src) else none))

  -- By the type of the file.
  unfoldable pub write_as : Kind → (f : File) → (src : List ℕ) → Action (File × Outcome (Option ℕ))
  write_as fd_pipe f src = pure (f, to_pipe f.pipe)
  write_as fd_inode f src = write_at f src
  write_as fd_none f src = panic

  unfoldable pub filewrite : File → List ℕ → Action (File × Outcome (Option ℕ))
  filewrite f src = if not f.writable then pure (f, answers none) else write_as f.kind f src

  -- The call of a file of the table, with the file as it is afterwards.
  unfoldable pub on_file :
      {A : Type 0} → (File → Action (File × A)) → (k : ℕ) → List File → Action (List File × A)
  on_file call k files =
      if_null (get_elem? files k) panic (λ f. do r ← call f; pure (set files k r.0, r.1))

  -- The arguments are a descriptor, and what `argint` and `argptr` give for the length and the buffer.
  unfoldable pub sys_read :
      (fd n buffer : Option ℕ) → Ofile → List File → Action (List File × Outcome (Option (List ℕ)))
  sys_read fd n buffer ofile files =
      let fails = pure (files, answers none) in
      if_null (argfd fd ofile) fails (λ d.
        if_null n fails (λ n. if_null buffer fails (λ b. on_file (λ f. fileread f n) d.1 files)))

  -- The bytes are those of the buffer.
  unfoldable pub sys_write :
      (fd : Option ℕ)
      → (src : Option (List ℕ)) → Ofile
      → List File
      → Action (List File × Outcome (Option ℕ))
  sys_write fd src ofile files =
      let fails = pure (files, answers none) in
      if_null (argfd fd ofile) fails
        (λ d. if_null src fails (λ bytes. on_file (λ f. filewrite f bytes) d.1 files))

  unfoldable pub sys_fstat : (fd st : Option ℕ) → Ofile → List File → Action (Option Stat)
  sys_fstat fd st ofile files =
      if_null (argfd fd ofile) (pure none)
        (λ d. if_null st (pure none) (λ p. if_null (get_elem? files d.1) panic filestat))
