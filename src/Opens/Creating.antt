-- ===== src/Opens/Creating.antt =====
-- `create` keeps the inode that it gives, with its lock, and nothing else.
use a3team_os.Base.{ℕ, not, ◌&&◌, Option, none, some, List, ◌==◌, arith}
use a3team_os.Fs.{Super}
use a3team_os.Fs.Path.{t_dir}
use a3team_os.Inodes.{pure, if_null, Target}
use a3team_os.Inodes.Rules.{Tally, gets, locks, even, Does, by-pure, by-if, by-panic, Does-bind}
use a3team_os.Inodes.Moves.{inode-Does, change-Does, ilock-Does, iupdate-Does}
use a3team_os.Inodes.Entries.{
  iunlockput-Does, dirlookup-Does, dirlink-Does, ialloc-Does, gets_found,
}
use a3team_os.Inodes.Walk.{reached}
use a3team_os.Paths.{t_file, one_link_more, dot, dot_dot}
use a3team_os.Paths.Linking.{nameiparent-Does}
use a3team_os.Opens.{fresh, make_dots, create_new, create_old, create_in, create}

-- An inode with a reference more, and locked.
abbrev pub holds_one : Tally → Option ℕ → Tally
holds_one t none = t
holds_one t (some i) = locks i (gets i t)

module _ (sb : Super) (cwd : ℕ) (buf : List ℕ) where
  make_dots-Does : {t : Tally} (dp ip : ℕ) → Does t (make_dots sb cwd buf dp ip) (λ u. t)
  unfolding make_dots
  make_dots-Does dp ip = Does-bind (change-Does dp one_link_more) (λ u.
      Does-bind (iupdate-Does sb dp) (λ u. Does-bind (inode-Does ip) (λ i.
        Does-bind (dirlink-Does sb ip dot i.inum) (λ own. by-if (not own) by-panic (
          Does-bind (inode-Does dp) (λ d.
            Does-bind (dirlink-Does sb ip dot_dot d.inum)
              (λ up. by-if (not up) by-panic (by-pure tt (even (λ j. omega arith))))))))))

  create_new-Does :
      {t : Tally} (kind major minor dp : ℕ) (name : List ℕ)
      → Does (locks dp (gets dp t)) (create_new sb cwd buf kind major minor dp name) (holds_one t)
  unfolding create_new
  create_new-Does kind major minor dp name = Does-bind (inode-Does dp) (λ d.
      Does-bind (ialloc-Does sb d.dev kind) (λ ip. Does-bind (ilock-Does sb ip) (λ u.
        Does-bind (change-Does ip (fresh major minor)) (λ u. Does-bind (iupdate-Does sb ip) (λ u.
          Does-bind
            (by-if (kind == t_dir) (make_dots-Does dp ip) (by-pure tt (even (λ j. omega arith))))
            (λ u. Does-bind (inode-Does ip) (λ i.
              Does-bind (dirlink-Does sb dp name i.inum) (λ linked. by-if (not linked) by-panic (
                Does-bind (iunlockput-Does sb dp)
                  (λ u. by-pure (some ip) (even (λ j. omega arith))))))))))))

  create_old-Does :
      {t : Tally} (kind dp : ℕ) (entry : ℕ × ℕ)
      → Does
          (gets entry.0 (locks dp (gets dp t)))
          (create_old sb cwd buf kind dp entry)
          (holds_one t)
  unfolding create_old
  create_old-Does kind dp entry = Does-bind (iunlockput-Does sb dp) (λ u.
      Does-bind (ilock-Does sb entry.0) (λ u. Does-bind (inode-Does entry.0) (λ f.
        by-if ((kind == t_file) && (f.kind == t_file))
          (by-pure (some entry.0) (even (λ j. omega arith)))
          (Does-bind (iunlockput-Does sb entry.0) (λ u. by-pure none (even (λ j. omega arith)))))))

  create_in-Does :
      {t : Tally} (kind major minor : ℕ) (parent : ℕ × List ℕ)
      → Does (gets parent.0 t) (create_in sb cwd buf kind major minor parent) (holds_one t)
  unfolding create_in
  create_in-Does {t} kind major minor parent =
      Does-bind (ilock-Does sb parent.0)
        (λ u. Does-bind (dirlookup-Does sb parent.0 parent.1) entered)
    where
      entered :
          (entry : Option (ℕ × ℕ))
          → Does
              (gets_found (locks parent.0 (gets parent.0 t)) entry)
              (if_null entry
                (create_new sb cwd buf kind major minor parent.0 parent.1)
                (create_old sb cwd buf kind parent.0))
              (holds_one t)
      entered none = create_new-Does kind major minor parent.0 parent.1
      entered (some e) = create_old-Does kind parent.0 e

  pub create-Does :
      {t : Tally} (path : List ℕ) (kind major minor : ℕ)
      → Does t (create sb cwd buf path kind major minor) (holds_one t)
  unfolding create
  create-Does {t} path kind major minor = Does-bind (nameiparent-Does sb cwd buf path) entered
    where
      entered :
          (parent : Target)
          → Does
              (reached t parent)
              (if_null parent (pure none) (create_in sb cwd buf kind major minor))
              (holds_one t)
      entered none = by-pure none (even (λ j. omega arith))
      entered (some parent) = create_in-Does kind major minor parent
