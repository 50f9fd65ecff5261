-- ===== src/Paths/Linking.antt =====
-- `sys_link` gives back what it takes, on every path through it.
use a3team_os.Base.{ℕ, true, false, Option, none, some, List, ◌==◌, arith}
use a3team_os.Fs.{Super}
use a3team_os.Fs.Path.{t_dir}
use a3team_os.Inodes.{pure, if_null, Target}
use a3team_os.Inodes.Rules.{
  Tally, gets, begins, ends, even, Does, by-pure, by-if, by-null, Does-bind, by-Same, Does-Same,
}
use a3team_os.Inodes.Moves.{
  iunlock-Does, inode-Does, change-Does, ilock-Does, iupdate-Does, begin_op-Does, end_op-Does,
}
use a3team_os.Inodes.Entries.{iput-Does, iunlockput-Does, dirlink-Does}
use a3team_os.Inodes.Walk.{namex-Does, reached}
use a3team_os.Paths.{
  only_inode, give_up, namei, nameiparent, unlink_again, link_in, link_to, sys_link, failed,
  one_link_less, one_link_more,
}

-- One reference more at an inode, if there is one.
abbrev pub gets_one : Tally → Option ℕ → Tally
gets_one t none = t
gets_one t (some i) = gets i t

pub give_up-Does : {t : Tally} → Does t give_up (λ a. ends t)
unfolding give_up
give_up-Does = Does-bind end_op-Does (λ u. by-pure failed (even (λ j. omega arith)))

module _ (sb : Super) (cwd : ℕ) (buf : List ℕ) where
  pub namei-Does : {t : Tally} (path : List ℕ) → Does t (namei sb cwd buf path) (gets_one t)
  unfolding namei
  namei-Does {t} path = Does-bind (namex-Does sb cwd path false buf) ended
    where
      ended : (o : Target) → Does (reached t o) (pure (only_inode o)) (gets_one t)
      ended none = by-pure none (even (λ j. omega arith))
      ended (some (i, name)) = by-pure (some i) (even (λ j. omega arith))

  pub nameiparent-Does :
      {t : Tally} (path : List ℕ) → Does t (nameiparent sb cwd buf path) (reached t)
  unfolding nameiparent
  nameiparent-Does path = namex-Does sb cwd path true buf

  unlink_again-Does :
      {t : Tally} (ip : ℕ) → Does (gets ip (begins t)) (unlink_again sb cwd buf ip) (λ a. t)
  unfolding unlink_again
  unlink_again-Does ip =
      Does-Same (λ a. even (λ j. omega arith))
        (Does-bind (ilock-Does sb ip) (λ u. Does-bind (change-Does ip one_link_less) (λ u.
          Does-bind (iupdate-Does sb ip)
            (λ u. Does-bind (iunlockput-Does sb ip) (λ u. give_up-Does)))))

  link_in-Does :
      {t : Tally} (ip : ℕ) (parent : ℕ × List ℕ)
      → Does (gets parent.0 (gets ip (begins t))) (link_in sb cwd buf ip parent) (λ a. t)
  unfolding link_in
  link_in-Does ip parent = Does-bind (ilock-Does sb parent.0) (λ u.
      Does-bind (inode-Does parent.0) (λ d. Does-bind (inode-Does ip) (λ i.
        Does-bind
          (by-if (d.dev == i.dev) (dirlink-Does sb parent.0 parent.1 i.inum)
            (by-pure false (even (λ j. omega arith))))
          (λ linked. Does-bind (iunlockput-Does sb parent.0) (λ u.
            by-if linked
              (Does-bind (iput-Does sb ip)
                (λ u. Does-bind end_op-Does (λ u. by-pure 0 (even (λ j. omega arith)))))
              (by-Same (even (λ j. omega arith)) (unlink_again-Does ip)))))))

  link_to-Does :
      {t : Tally} (new : List ℕ) (ip : ℕ)
      → Does (gets ip (begins t)) (link_to sb cwd buf new ip) (λ a. t)
  unfolding link_to
  link_to-Does {t} new ip = Does-bind (ilock-Does sb ip) (λ u. Does-bind (inode-Does ip) (λ f.
      by-if (f.kind == t_dir)
        (Does-Same (λ a. even (λ j. omega arith))
          (Does-bind (iunlockput-Does sb ip) (λ u. give_up-Does)))
        (Does-bind (change-Does ip one_link_more) (λ u. Does-bind (iupdate-Does sb ip) (λ u.
          Does-bind (iunlock-Does ip) (λ u.
            Does-bind
              (by-Same {u = gets ip (begins t)} (even (λ j. omega arith)) (nameiparent-Does new))
              entered))))))
    where
      entered :
          (parent : Target)
          → Does
              (reached (gets ip (begins t)) parent)
              (if_null parent (unlink_again sb cwd buf ip) (link_in sb cwd buf ip))
              (λ a. t)
      entered none = unlink_again-Does ip
      entered (some parent) = link_in-Does ip parent

  pub sys_link-Does :
      {t : Tally} (old new : Option (List ℕ)) → Does t (sys_link sb cwd buf old new) (λ a. t)
  unfolding sys_link
  sys_link-Does {t} old new = by-null old (by-pure failed (even (λ j. omega arith))) (λ o.
      by-null new (by-pure failed (even (λ j. omega arith)))
        (λ n. Does-bind begin_op-Does (λ u. Does-bind (namei-Does o) (entered n))))
    where
      entered :
          (n : List ℕ) (found : Option ℕ)
          → Does (gets_one (begins t) found) (if_null found give_up (link_to sb cwd buf n)) (λ a. t)
      entered n none = Does-Same (λ a. even (λ j. omega arith)) give_up-Does
      entered n (some ip) = link_to-Does n ip
