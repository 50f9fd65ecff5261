-- ===== src/Opens/Changing.antt =====
-- `sys_mkdir` and `sys_mknod` give back what they take; `sys_chdir` moves one reference.
use a3team_os.Base.{ℕ, ◌^◌, ◌%◌, not, Option, none, some, List, ◌==◌, arith}
use a3team_os.Fs.{Super}
use a3team_os.Fs.Path.{t_dir}
use a3team_os.Inodes.{pure, ◌>>=◌, if_null}
use a3team_os.Inodes.Rules.{
  Tally, gets, puts, begins, even, Does, by-pure, by-if, by-null, Does-bind, Does-Same,
}
use a3team_os.Inodes.Moves.{inode-Does, ilock-Does, iunlock-Does, begin_op-Does, end_op-Does}
use a3team_os.Inodes.Entries.{iunlockput-Does, iput-Does}
use a3team_os.Paths.{t_dev, give_up}
use a3team_os.Paths.Linking.{namei-Does, give_up-Does, gets_one}
use a3team_os.Opens.{created, sys_mkdir, sys_mknod, enter_dir, sys_chdir}
use a3team_os.Opens.Creating.{holds_one, create-Does}

module _ (sb : Super) (cwd : ℕ) (buf : List ℕ) where
  created-Does :
      {t : Tally} (made : Option ℕ)
      → Does (holds_one (begins t) made) (created sb cwd buf made) (λ a. t)
  unfolding created
  created-Does none = Does-Same (λ a. even (λ j. omega arith)) give_up-Does
  created-Does (some ip) =
      Does-bind (iunlockput-Does sb ip)
        (λ u. Does-bind end_op-Does (λ u. by-pure 0 (even (λ j. omega arith))))

  pub sys_mkdir-Does :
      {t : Tally} (path : Option (List ℕ)) → Does t (sys_mkdir sb cwd buf path) (λ a. t)
  unfolding sys_mkdir
  sys_mkdir-Does path = Does-bind begin_op-Does (λ u.
      Does-bind
        (by-null path (by-pure none (even (λ j. omega arith)))
          (λ p. create-Does sb cwd buf p t_dir 0 0))
        created-Does)

  pub sys_mknod-Does :
      {t : Tally} (path : Option (List ℕ)) (major minor : Option ℕ)
      → Does t (sys_mknod sb cwd buf path major minor) (λ a. t)
  unfolding sys_mknod
  sys_mknod-Does path major minor =
      let missing =
        λ (u : Tally). by-pure {t = u} {Q = holds_one u} none (even (λ j. omega arith)) in
      Does-bind begin_op-Does (λ u.
        Does-bind
          (by-null path (missing _) (λ p. by-null major (missing _) (λ ma.
            by-null minor (missing _)
              (λ mi. create-Does sb cwd buf p t_dev (ma % 2 ^ 16) (mi % 2 ^ 16)))))
          created-Does)

  -- The reference to the current directory moves to the one that the call ends with.
  abbrev pub moves_to : Tally → ℕ × ℕ → Tally
  moves_to t r = puts cwd (gets r.1 t)

  enter_dir-Does :
      {t : Tally} (ip : ℕ) → Does (gets ip (begins t)) (enter_dir sb cwd buf ip) (moves_to t)
  unfolding enter_dir
  enter_dir-Does ip = Does-bind (ilock-Does sb ip) (λ u. Does-bind (inode-Does ip) (λ f.
      by-if (not (f.kind == t_dir))
        (Does-bind (iunlockput-Does sb ip)
          (λ u. Does-bind give_up-Does (λ a. by-pure (a, cwd) (even (λ j. omega arith)))))
        (Does-bind (iunlock-Does ip) (λ u.
          Does-bind (iput-Does sb cwd)
            (λ u. Does-bind end_op-Does (λ u. by-pure (0, ip) (even (λ j. omega arith))))))))

  pub sys_chdir-Does :
      {t : Tally} (path : Option (List ℕ)) → Does t (sys_chdir sb cwd buf path) (moves_to t)
  unfolding sys_chdir
  sys_chdir-Does {t} path = Does-bind begin_op-Does (λ u.
      Does-bind (by-null path (by-pure none (even (λ j. omega arith))) (namei-Does sb cwd buf))
        entered)
    where
      entered :
          (found : Option ℕ)
          → Does
              (gets_one (begins t) found)
              (if_null found (give_up >>= λ a. pure (a, cwd)) (enter_dir sb cwd buf))
              (moves_to t)
      entered none = Does-bind give_up-Does (λ a. by-pure (a, cwd) (even (λ j. omega arith)))
      entered (some ip) = enter_dir-Does ip
