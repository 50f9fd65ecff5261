-- ===== src/Paths.antt =====
-- The system calls on paths, src/sysfile.c.
--
-- An argument is what `argstr` or `argint` gives, `none` when it fails. `cwd` is the current directory
-- of the process, and `buf` what the name buffer on the stack has in it. An answer is 0, or -1 as its
-- bit pattern. No result is a panic, or a process that waits for a lock that it holds itself.
pub mod Linking
pub mod Unlinking
mod Tests
use a3team_os.Base.{
  ℕ, zero, suc, ◌+◌, ◌-◌, ◌*◌, ◌%◌, ◌^◌, Bool, true, false, not, ◌&&◌, ◌||◌, Option, none, some,
  List, [], ◌∷◌, ◌==◌, ltb, leb, if◌then◌else◌, get_elem?, set, length, replicate, bit_and,
}
use a3team_os.Fs.{Super, get16}
use a3team_os.Fs.Inode.{Inode}
use a3team_os.Fs.Path.{t_dir, dirsiz, dirent_size, same_name, entries}
use a3team_os.Inodes.{
  State, Action, Done, pure, panic, ◌>>=◌, if_null, inode, change, begin_op, end_op, ilock, iput,
  iunlock, iunlockput, iupdate, dirlookup, dirlink, ialloc, readi, writei, Target, namex,
}
use a3team_os.File.{File, fd_inode, filealloc, fileclose, puts_inode, Behind, nothing}
use a3team_os.Sysfile.{Ofile, Call, fails, fdalloc}

abbrev pub t_file : ℕ
t_file = 2

abbrev pub t_dev : ℕ
t_dev = 3

abbrev pub failed : ℕ
failed = 2 ^ 32 - 1

-- The counts of links are shorts.
abbrev pub one_link_more : Inode → Inode
one_link_more ip = record ip { nlink = (ip.nlink + 1) % 2 ^ 16 }

abbrev pub one_link_less : Inode → Inode
one_link_less ip = record ip { nlink = (ip.nlink + (2 ^ 16 - 1)) % 2 ^ 16 }

-- `nlink < 1`, of a short.
abbrev pub no_links : Inode → Bool
no_links ip = (ip.nlink == 0) || leb (2 ^ 15) ip.nlink

abbrev pub only_inode : Target → Option ℕ
only_inode none = none
only_inode (some (i, name)) = some i

abbrev pub dot : List ℕ
dot = 46 ∷ []

abbrev pub dot_dot : List ℕ
dot_dot = 46 ∷ 46 ∷ []

-- The end of a transaction that fails.
unfoldable pub give_up : Action ℕ
give_up = do u ← end_op; pure failed

module _ (sb : Super) (cwd : ℕ) (buf : List ℕ) where
  unfoldable pub namei : (path : List ℕ) → Action (Option ℕ)
  namei path = do t ← namex sb cwd path false buf; pure (only_inode t)

  unfoldable pub nameiparent : (path : List ℕ) → Action Target
  nameiparent path = namex sb cwd path true buf

  -- `bad:` of `sys_link`
  unfoldable pub unlink_again : (ip : ℕ) → Action ℕ
  unlink_again ip = do
    u ← ilock sb ip
    u ← change ip one_link_less
    u ← iupdate sb ip
    u ← iunlockput sb ip
    give_up

  -- The new name, in the directory that was found.
  unfoldable pub link_in : (ip : ℕ) → (parent : ℕ × List ℕ) → Action ℕ
  link_in ip parent = do
    u ← ilock sb parent.0
    d ← inode parent.0
    i ← inode ip
    linked ← (if d.dev == i.dev then dirlink sb parent.0 parent.1 i.inum else pure false)
    u ← iunlockput sb parent.0
    (if linked then (do u ← iput sb ip; u ← end_op; pure 0) else unlink_again ip)

  -- The inode that was found gets a link.
  unfoldable pub link_to : (new : List ℕ) → (ip : ℕ) → Action ℕ
  link_to new ip = do
    u ← ilock sb ip
    f ← inode ip
    (if f.kind == t_dir then (do u ← iunlockput sb ip; give_up) else (do
      u ← change ip one_link_more
      u ← iupdate sb ip
      u ← iunlock ip
      parent ← nameiparent new
      if_null parent (unlink_again ip) (link_in ip)))

  unfoldable pub sys_link : (old new : Option (List ℕ)) → Action ℕ
  sys_link old new = if_null old (pure failed) (λ o.
      if_null new (pure failed)
        (λ n. do u ← begin_op; found ← namei o; if_null found give_up (link_to n)))

  -- The loop of `isdirempty` at offset `off`, with the rounds left.
  unfoldable pub empty_from : (n off dp : ℕ) → Action Bool
  empty_from zero off dp = pure true
  empty_from (suc n) off dp = do
    d ← inode dp
    (if ltb off d.size
        then (do
          got ← readi sb dp off dirent_size
          if_null got panic (λ de.
              if not (length de == dirent_size)
              then panic
              else if get16 de 0 == 0
              then empty_from n (off + dirent_size) dp
              else pure false))
        else pure true)

  -- Whether the directory has no entries but the first two.
  unfoldable pub isdirempty : (dp : ℕ) → Action Bool
  isdirempty dp = do d ← inode dp; empty_from (entries d.size) (2 * dirent_size) dp

  -- `bad:` of `sys_unlink`
  unfoldable pub leave_parent : (dp : ℕ) → Action ℕ
  leave_parent dp = do u ← iunlockput sb dp; give_up

  -- The entry of inode `ip` in the directory `dp`, at `off`, is cleared.
  unfoldable pub clear_entry : (dp ip off : ℕ) → Action ℕ
  clear_entry dp ip off = do
    written ← writei sb dp off (replicate dirent_size 0)
    (if not written then panic else (do
      f ← inode ip
      u ← (if f.kind == t_dir then (do u ← change dp one_link_less; iupdate sb dp) else pure tt)
      u ← iunlockput sb dp
      u ← change ip one_link_less
      u ← iupdate sb ip
      u ← iunlockput sb ip
      u ← end_op
      pure 0))

  unfoldable pub unlink_entry : (dp : ℕ) → (entry : ℕ × ℕ) → Action ℕ
  unlink_entry dp entry = do
    u ← ilock sb entry.0
    f ← inode entry.0
    (if no_links f then panic else (do
      empty ← (if f.kind == t_dir then isdirempty entry.0 else pure true)
      (if empty
          then clear_entry dp entry.0 entry.1
          else (do u ← iunlockput sb entry.0; leave_parent dp))))

  unfoldable pub unlink_in : (parent : ℕ × List ℕ) → Action ℕ
  unlink_in parent = do
    u ← ilock sb parent.0
    (if same_name dirsiz parent.1 dot || same_name dirsiz parent.1 dot_dot
        then leave_parent parent.0
        else (do
          entry ← dirlookup sb parent.0 parent.1
          if_null entry (leave_parent parent.0) (unlink_entry parent.0)))

  unfoldable pub sys_unlink : (path : Option (List ℕ)) → Action ℕ
  sys_unlink path =
      if_null path (pure failed)
        (λ p. do u ← begin_op; parent ← nameiparent p; if_null parent give_up unlink_in)
