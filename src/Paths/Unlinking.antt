-- ===== src/Paths/Unlinking.antt =====
-- `sys_unlink` gives back what it takes, on every path through it.
use a3team_os.Base.{
  ℕ, zero, suc, ◌+◌, ◌*◌, true, false, not, ◌||◌, Option, none, some, List, ◌==◌, ltb, length,
  replicate, arith,
}
use a3team_os.Fs.{Super, get16}
use a3team_os.Fs.Path.{t_dir, dirsiz, dirent_size, same_name, entries}
use a3team_os.Inodes.{if_null, Target}
use a3team_os.Inodes.Rules.{
  Tally, gets, locks, begins, even, Does, by-pure, by-if, by-null, by-panic, Does-bind, by-Same,
  Does-Same,
}
use a3team_os.Inodes.Moves.{
  inode-Does, change-Does, ilock-Does, iupdate-Does, readi-Does, writei-Does, begin_op-Does,
  end_op-Does,
}
use a3team_os.Inodes.Entries.{iunlockput-Does, dirlookup-Does, gets_found}
use a3team_os.Inodes.Walk.{reached}
use a3team_os.Paths.{
  give_up, empty_from, isdirempty, leave_parent, clear_entry, unlink_entry, unlink_in, sys_unlink,
  no_links, dot, dot_dot, failed, one_link_less,
}
use a3team_os.Paths.Linking.{give_up-Does, nameiparent-Does}

module _ (sb : Super) (cwd : ℕ) (buf : List ℕ) where
  empty_from-Does : {t : Tally} (n off dp : ℕ) → Does t (empty_from sb cwd buf n off dp) (λ b. t)
  unfolding empty_from
  empty_from-Does zero off dp = by-pure true (even (λ j. omega arith))
  empty_from-Does {t} (suc n) off dp = Does-bind (inode-Does dp) (λ d.
      by-if (ltb off d.size)
        (Does-bind (readi-Does sb dp off dirent_size) (λ got. by-null got by-panic (λ de.
          by-if (not (length de == dirent_size)) by-panic (
            by-if (get16 de 0 == 0) (empty_from-Does {t = t} n (off + dirent_size) dp)
              (by-pure false (even (λ j. omega arith)))))))
        (by-pure true (even (λ j. omega arith))))

  isdirempty-Does : {t : Tally} (dp : ℕ) → Does t (isdirempty sb cwd buf dp) (λ b. t)
  unfolding isdirempty
  isdirempty-Does dp =
      Does-bind (inode-Does dp) (λ d. empty_from-Does (entries d.size) (2 * dirent_size) dp)

  leave_parent-Does :
      {t : Tally} (dp : ℕ)
      → Does (locks dp (gets dp (begins t))) (leave_parent sb cwd buf dp) (λ a. t)
  unfolding leave_parent
  leave_parent-Does dp =
      Does-Same (λ a. even (λ j. omega arith))
        (Does-bind (iunlockput-Does sb dp) (λ u. give_up-Does))

  clear_entry-Does :
      {t : Tally} (dp ip off : ℕ)
      → Does
          (locks ip (gets ip (locks dp (gets dp (begins t)))))
          (clear_entry sb cwd buf dp ip off)
          (λ a. t)
  unfolding clear_entry
  clear_entry-Does dp ip off =
      Does-bind (writei-Does sb dp off (replicate dirent_size 0)) (λ written.
        by-if (not written) by-panic (
          Does-bind (inode-Does ip) (λ f.
            Does-bind
              (by-if (f.kind == t_dir)
                (Does-bind (change-Does dp one_link_less) (λ u. iupdate-Does sb dp))
                (by-pure tt (even (λ j. omega arith))))
              (λ u. Does-bind (iunlockput-Does sb dp) (λ u.
                Does-bind (change-Does ip one_link_less) (λ u. Does-bind (iupdate-Does sb ip) (λ u.
                  Does-bind (iunlockput-Does sb ip)
                    (λ u. Does-bind end_op-Does (λ u. by-pure 0 (even (λ j. omega arith)))))))))))

  unlink_entry-Does :
      {t : Tally} (dp : ℕ) (entry : ℕ × ℕ)
      → Does
          (gets entry.0 (locks dp (gets dp (begins t))))
          (unlink_entry sb cwd buf dp entry)
          (λ a. t)
  unfolding unlink_entry
  unlink_entry-Does dp entry = Does-bind (ilock-Does sb entry.0) (λ u.
      Does-bind (inode-Does entry.0) (λ f. by-if (no_links f) by-panic (
        Does-bind
          (by-if (f.kind == t_dir) (isdirempty-Does entry.0)
            (by-pure true (even (λ j. omega arith))))
          (λ empty. by-if empty (clear_entry-Does dp entry.0 entry.1) (
            Does-bind (iunlockput-Does sb entry.0)
              (λ u. by-Same (even (λ j. omega arith)) (leave_parent-Does dp)))))))

  unlink_in-Does :
      {t : Tally} (parent : ℕ × List ℕ)
      → Does (gets parent.0 (begins t)) (unlink_in sb cwd buf parent) (λ a. t)
  unfolding unlink_in
  unlink_in-Does {t} parent = Does-bind (ilock-Does sb parent.0) (λ u.
      by-if (same_name dirsiz parent.1 dot || same_name dirsiz parent.1 dot_dot)
        (leave_parent-Does parent.0) (Does-bind (dirlookup-Does sb parent.0 parent.1) entered))
    where
      entered :
          (entry : Option (ℕ × ℕ))
          → Does
              (gets_found (locks parent.0 (gets parent.0 (begins t))) entry)
              (if_null entry (leave_parent sb cwd buf parent.0) (unlink_entry sb cwd buf parent.0))
              (λ a. t)
      entered none = leave_parent-Does parent.0
      entered (some e) = unlink_entry-Does parent.0 e

  pub sys_unlink-Does :
      {t : Tally} (path : Option (List ℕ)) → Does t (sys_unlink sb cwd buf path) (λ a. t)
  unfolding sys_unlink
  sys_unlink-Does {t} path =
      by-null path (by-pure failed (even (λ j. omega arith)))
        (λ p. Does-bind begin_op-Does (λ u. Does-bind (nameiparent-Does sb cwd buf p) entered))
    where
      entered :
          (parent : Target)
          → Does
              (reached (begins t) parent)
              (if_null parent give_up (unlink_in sb cwd buf))
              (λ a. t)
      entered none = Does-Same (λ a. even (λ j. omega arith)) give_up-Does
      entered (some parent) = unlink_in-Does parent
