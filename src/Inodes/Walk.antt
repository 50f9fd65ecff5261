-- ===== src/Inodes/Walk.antt =====
-- A walk along a path gives back what it takes, but for the inode that it ends with.
use a3team_os.Base.{
  ℕ, zero, suc, ◌<◌, ◌≡◌, refl, Bool, not, ◌&&◌, Option, none, some, List, ◌==◌, length, arith,
  Option-cases, inl, inr, ap,
}
use a3team_os.Fs.{Super}
use mathlib.Core.Path.{fun_ext}
use a3team_os.Fs.Path.Elements.{skipelem_shorter}
use a3team_os.Fs.Path.{skipelem, t_dir}
use a3team_os.Inodes.{
  Action, pure, ◌>>=◌, if_null, iunlockput, Target, visit, walk, is_absolute, namex, rootdev,
  rootino,
}
use a3team_os.Inodes.Rules.{
  Tally, gets, locks, Does, by-pure, by-if, by-null, by-panic, Does-bind, by-Same,
}
use a3team_os.Inodes.Moves.{iunlock-Does, inode-Does, ilock-Does, iget-Does, idup-Does}
use a3team_os.Inodes.Entries.{iput-Does, iunlockput-Does, dirlookup-Does, gets_found}

-- One reference more, at the inode that is found.
abbrev pub reached : Tally → Target → Tally
reached t none = t
reached t (some (i, name)) = gets i t

module _ (sb : Super) where
  visit-Does :
      {t : Tally} (parent : Bool) (next : List ℕ × List ℕ) (i : ℕ) (go_on : ℕ → Action Target)
      → ((k : ℕ) → Does (gets k t) (go_on k) (reached t))
      → Does (gets i t) (visit sb parent next i go_on) (reached t)
  unfolding visit
  visit-Does {t} parent next i go_on more = Does-bind (ilock-Does sb i) (λ u.
      Does-bind (inode-Does i) (λ ip. by-if (not (ip.kind == t_dir)) leave (
        by-if (parent && (length next.0 == 0))
          (Does-bind (iunlock-Does i) (λ v.
            by-pure (some (i, next.1))
              (record { refs = λ j. refl; held = λ j. omega arith; ops = refl })))
          (Does-bind (dirlookup-Does sb i next.1) enter))))
    where
      leave : Does (locks i (gets i t)) (iunlockput sb i >>= λ v. pure none) (reached t)
      leave = Does-bind (iunlockput-Does sb i) (λ v.
          by-pure none (record { refs = λ j. omega arith; held = λ j. omega arith; ops = refl }))

      enter :
          (entry : Option (ℕ × ℕ))
          → Does
              (gets_found (locks i (gets i t)) entry)
              (if_null entry
                (iunlockput sb i >>= λ v. pure none)
                (λ e. iunlockput sb i >>= λ v. go_on e.0))
              (reached t)
      enter none = leave
      enter (some e) = Does-bind (iunlockput-Does sb i) (λ v.
          by-Same (record { refs = λ j. omega arith; held = λ j. omega arith; ops = refl })
            (more e.0))

  walk-Does :
      {t : Tally} (n : ℕ) (parent : Bool) (path name : List ℕ) (i : ℕ)
      → Does (gets i t) (walk sb n parent path name i) (reached t)
  unfolding walk
  walk-Does zero parent path name i = by-panic
  walk-Does {t} (suc n) parent path name i =
      by-null (skipelem path name)
        (by-if parent
          (Does-bind (iput-Does sb i)
            (λ u. by-pure none (record { refs = λ j. omega arith; held = λ j. refl; ops = refl })))
          (by-pure (some (i, name)) (record { refs = λ j. refl; held = λ j. refl; ops = refl })))
        (λ next.
          visit-Does parent next i (walk sb n parent next.0 next.1)
            (λ k. walk-Does {t = t} n parent next.0 next.1 k))

  pub namex-Does :
      {t : Tally} (cwd : ℕ) (path : List ℕ) (parent : Bool) (name : List ℕ)
      → Does t (namex sb cwd path parent name) (reached t)
  unfolding namex
  namex-Does cwd path parent name =
      Does-bind
        (by-if (is_absolute path) (iget-Does rootdev rootino) (
          Does-bind (idup-Does cwd)
            (λ u. by-pure cwd (record { refs = λ j. refl; held = λ j. refl; ops = refl }))))
        (λ i. walk-Does (suc (length path)) parent path name i)

  -- A number of rounds above the length of the path is enough: more of them change nothing.
  pub walk-enough :
      (n m : ℕ) (parent : Bool) (path name : List ℕ) (i : ℕ)
      → length path < n
      → length path < m
      → walk sb n parent path name i ≡ walk sb m parent path name i
  unfolding walk
  walk-enough zero m parent path name i hn hm = absurd (omega arith)
  walk-enough (suc n) zero parent path name i hn hm = absurd (omega arith)
  walk-enough (suc n) (suc m) parent path name i hn hm = elim (Option-cases (skipelem path name)) [
    | inl e ↦ rw e refl
    | inr (next, e) ↦ rw e (
        let shorter : length next.0 < length path = skipelem_shorter path name e in
        ap (visit sb parent next i) (
          fun_ext (λ k.
            walk-enough n m parent next.0 next.1 k (omega (arith, hn, shorter))
              (omega (arith, hm, shorter)))))
  ]
