-- ===== src/Opens/Opening.antt =====
-- What the system calls that create and open files keep.
use a3team_os.Base.{
  inr, inl, sym, Option-cases, ℕ, ◌-◌, ◌^◌, ◌≤◌, ◌≡◌, refl, subst, not, ◌&&◌, Option, none, some,
  List, ◌==◌, if◌then◌else◌, arith, get_elem?, set, length, get_elem?-lt,
}
use a3team_os.Fs.{Super}
use a3team_os.Fs.Path.{t_dir}
use a3team_os.Inodes.{iunlockput, inode, iunlock, ilock, pure, ◌>>=◌, if_null, end_op}
use a3team_os.Inodes.Rules.{
  Tally, gets, locks, unlocks, begins, ends, Same, even, Does, by-pure, by-if, by-null, Does-bind,
}
use a3team_os.Inodes.Moves.{inode-Does, ilock-Does, iunlock-Does, begin_op-Does, end_op-Does}
use a3team_os.Inodes.Entries.{iunlockput-Does}
use a3team_os.File.{File, fd_none, Behind, nothing, filealloc, fileclose}
use a3team_os.File.Refs.{filealloc-Allocates, Allocates, get_elem?-set_self}
use a3team_os.Sysfile.{Ofile, Call, fails, fdalloc, nofile, join}
use a3team_os.Sysfile.Descriptors.{fdalloc-Allocated, Allocated}
use a3team_os.Paths.{t_file}
use a3team_os.Paths.Linking.{namei-Does, gets_one}
use a3team_os.Opens.{
  open_old, has, o_create, file_opened, open_answer, close_behind, open_failed, close_again,
  open_as, open_file, sys_open,
}
use a3team_os.Opens.Creating.{holds_one, create-Does}

-- An entry of the table without references has no kind.
abbrev pub Clean : List File → Type 0
Clean files = (i : ℕ) (f : File) → get_elem? files i ≡ some f → f.ref ≡ 0 → f.kind ≡ fd_none

abbrev ip_at : List File → Option ℕ → Option ℕ
ip_at files none = none
ip_at files (some k) = ip_of (get_elem? files k)
  where
    ip_of : Option File → Option ℕ
    ip_of none = none
    ip_of (some f) = some f.ip

-- The inode of the file that the answer of `sys_open` refers to.
abbrev pub opened_inode : Call → Option ℕ
opened_inode c = ip_at c.files (join (get_elem? c.ofile c.answer))

-- A file as `filealloc` gives it.
abbrev New : List File × Option ℕ → Type 0
New (files, none) = Unit
New (files, some k) = (f : File) × (get_elem? files k ≡ some f) × (f.ref ≡ 1) × (f.kind ≡ fd_none)

filealloc-New : (files : List File) → Clean files → New (filealloc files)
filealloc-New files clean = named (filealloc files) (filealloc-Allocates files)
  where
    named : (r : List File × Option ℕ) → Allocates files r → New r
    named (files', none) h = tt
    named (files', some k) (f, at, free, new, total) = (
      record f { ref = 1 },
      subst (λ (l : List File). get_elem? l k ≡ some (record f { ref = 1 })) (sym new)
          (get_elem?-set_self files k (record f { ref = 1 }) (get_elem?-lt files k at)),
      refl,
      clean k f at free,
    )

fileclose-New :
    (files : List File) (k : ℕ)
    → New (files, some k)
    → (files' : List File) × (fileclose files k ≡ some (files', nothing))
unfolding fileclose
fileclose-New files k (f, at, one, kind) =
    (set files k (record f { ref = 0; kind = fd_none }), rw at (ground (arith, one, kind)))

none_at : (ofile : Ofile) → length ofile ≤ nofile → get_elem? ofile (2 ^ 32 - 1) ≡ none
none_at ofile h = elim (Option-cases (get_elem? ofile (2 ^ 32 - 1))) [
  | inl e ↦ e
  | inr (o, e) ↦ absurd (omega (arith, get_elem?-lt ofile (2 ^ 32 - 1) e, h))
]

-- The inode of the file of a new descriptor.
opened_inode-open_answer :
    (omode ip fd k : ℕ) (ofile : Ofile) (files : List File)
    → New (files, some k)
    → get_elem? ofile fd ≡ some (some k)
    → opened_inode (open_answer omode ip fd k ofile files) ≡ some ip
opened_inode-open_answer omode ip fd k ofile files (f, at, one, kind) here =
    rw (here, at, get_elem?-set_self files k (file_opened omode ip f) (get_elem?-lt files k at))
      refl

module _ (sb : Super) (cwd : ℕ) (buf : List ℕ) where
  -- An answer without a descriptor.
  pure_failed :
      {t u : Tally} (ofile : Ofile) (files : List File) (b : Behind)
      → length ofile ≤ nofile
      → Same u t
      → Does u (pure (record (fails ofile files) { closes = b })) (λ c. gets_one t (opened_inode c))
  pure_failed {t} {u} ofile files b len same =
      by-pure (record (fails ofile files) { closes = b })
        (subst (λ (o : Option (Option ℕ)). Same u (gets_one t (ip_at files (join o))))
          (sym (none_at ofile len)) same)

  open_failed-Does :
      {t : Tally} (ip : ℕ) (ofile : Ofile) (files : List File) (b : Behind)
      → length ofile ≤ nofile
      → Does
          (locks ip (gets ip (begins t)))
          (open_failed sb cwd buf ip (record (fails ofile files) { closes = b }))
          (λ c. gets_one t (opened_inode c))
  unfolding open_failed
  open_failed-Does ip ofile files b len =
      Does-bind (iunlockput-Does sb ip)
        (λ u. Does-bind end_op-Does (λ u. pure_failed ofile files b len (even (λ j. omega arith))))

  open_as-Does :
      {t : Tally} (omode ip k : ℕ) (ofile : Ofile) (files : List File)
      → length ofile ≤ nofile
      → New (files, some k)
      → Does
          (locks ip (gets ip (begins t)))
          (open_as sb cwd buf omode ip k ofile files)
          (λ c. gets_one t (opened_inode c))
  unfolding open_as close_again close_behind
  open_as-Does {t} omode ip k ofile files len new =
      described (fdalloc k ofile) (fdalloc-Allocated k ofile) (fileclose-New files k new)
    where
      described :
          (o : Option (ℕ × Ofile))
          → Allocated k ofile o
          → (files' : List File) × (fileclose files k ≡ some (files', nothing))
          → Does
              (locks ip (gets ip (begins t)))
              (if_null o (close_again sb cwd buf ip ofile (fileclose files k)) (λ a.
                iunlock ip >>= λ u. end_op >>= λ u. pure (open_answer omode ip a.0 k a.1 files)))
              (λ c. gets_one t (opened_inode c))
      described none full (files', e) = rw e (
          Does-bind (by-pure tt (even (λ j. omega arith)))
            (λ u. open_failed-Does ip ofile files' nothing len))
      described (some (fd, ofile')) (free, below, at, rest, low) closed =
          Does-bind (iunlock-Does ip) (λ u. Does-bind end_op-Does (λ u.
            by-pure (open_answer omode ip fd k ofile' files) (
              subst
                (λ (o : Option ℕ).
                  Same (ends (unlocks ip (locks ip (gets ip (begins t))))) (gets_one t o))
                (sym (opened_inode-open_answer omode ip fd k ofile' files new at))
                (even (λ j. omega arith)))))

  open_file-Does :
      {t : Tally} (omode : ℕ) (ofile : Ofile) (files : List File) (ip : ℕ)
      → length ofile ≤ nofile
      → Clean files
      → Does
          (locks ip (gets ip (begins t)))
          (open_file sb cwd buf omode ofile files ip)
          (λ c. gets_one t (opened_inode c))
  unfolding open_file
  open_file-Does {t} omode ofile files ip len clean =
      given (filealloc files) (filealloc-New files clean)
    where
      given :
          (a : List File × Option ℕ)
          → New a
          → Does
              (locks ip (gets ip (begins t)))
              (if_null a.1
                (open_failed sb cwd buf ip (fails ofile a.0))
                (λ k. open_as sb cwd buf omode ip k ofile a.0))
              (λ c. gets_one t (opened_inode c))
      given (files', none) new = open_failed-Does ip ofile files' nothing len
      given (files', some k) new = open_as-Does omode ip k ofile files' len new

  open_old-Does :
      {t : Tally} (path : List ℕ) (omode : ℕ)
      → Does t (open_old sb cwd buf path omode) (holds_one t)
  unfolding open_old
  open_old-Does {t} path omode = Does-bind (namei-Does sb cwd buf path) entered
    where
      entered :
          (found : Option ℕ)
          → Does
              (gets_one t found)
              (if_null found (pure none) (λ ip. ilock sb ip >>= λ u. inode ip >>= λ f.
                if (f.kind == t_dir) && not (omode == 0)
                then (iunlockput sb ip >>= λ u. pure none)
                else pure (some ip)))
              (holds_one t)
      entered none = by-pure none (even (λ j. omega arith))
      entered (some ip) = Does-bind (ilock-Does sb ip) (λ u. Does-bind (inode-Does ip) (λ f.
          by-if ((f.kind == t_dir) && not (omode == 0))
            (Does-bind (iunlockput-Does sb ip) (λ u. by-pure none (even (λ j. omega arith))))
            (by-pure (some ip) (even (λ j. omega arith)))))

  pub sys_open-Does :
      {t : Tally} (path : Option (List ℕ)) (omode : Option ℕ) (ofile : Ofile) (files : List File)
      → length ofile ≤ nofile
      → Clean files
      → Does t (sys_open sb cwd buf path omode ofile files) (λ c. gets_one t (opened_inode c))
  unfolding sys_open
  sys_open-Does {t} path omode ofile files len clean =
      by-null path (pure_failed ofile files nothing len (even (λ j. omega arith))) (λ p.
        by-null omode (pure_failed ofile files nothing len (even (λ j. omega arith))) (λ m.
          Does-bind begin_op-Does (λ u.
            Does-bind
              (by-if (has m o_create) (create-Does sb cwd buf p t_file 0 0) (open_old-Does p m))
              (entered m))))
    where
      entered :
          (m : ℕ) (found : Option ℕ)
          → Does
              (holds_one (begins t) found)
              (if_null found
                (end_op >>= λ u. pure (fails ofile files))
                (open_file sb cwd buf m ofile files))
              (λ c. gets_one t (opened_inode c))
      entered m none =
          Does-bind end_op-Does (λ u. pure_failed ofile files nothing len (even (λ j. omega arith)))
      entered m (some ip) = open_file-Does m ofile files ip len clean
