-- ===== src/Opens/Restoring.antt =====
-- The system calls on paths, as changes of the state.
use a3team_os.Base.{
  ℕ, ◌+◌, ◌%◌, ◌^◌, ◌≤◌, ◌≡◌, refl, Bool, Option, none, some, List, [], ◌∷◌, length, arith,
}
use a3team_os.Base.Maybe.{Each, Each-weaken}
use a3team_os.Fs.{Super}
use a3team_os.Inodes.{State, Action, Target, namex}
use a3team_os.Inodes.Rules.{count, ref_at, Tally, untouched, After, After-Same, Same, even, Does}
use a3team_os.Inodes.Walk.{namex-Does, reached}
use a3team_os.File.{File}
use a3team_os.Sysfile.{Ofile, nofile}
use a3team_os.Paths.{sys_link, sys_unlink}
use a3team_os.Paths.Linking.{sys_link-Does, gets_one}
use a3team_os.Paths.Unlinking.{sys_unlink-Does}
use a3team_os.Opens.{sys_open, sys_mkdir, sys_mknod, sys_chdir}
use a3team_os.Opens.Opening.{Clean, opened_inode, sys_open-Does}
use a3team_os.Opens.Changing.{sys_mkdir-Does, sys_mknod-Does, sys_chdir-Does}

-- The references to inodes have changed by those gained and lost, as numbers of 32 bits; the locks held
-- and the number of transactions have not changed.
abbrev pub Balanced : (gained lost : List ℕ) → State → State → Type 0
Balanced gained lost s s' =
    ((j : ℕ)
      → (ref_at s'.inodes j + count j lost) % 2 ^ 32
        ≡ (ref_at s.inodes j + count j gained) % 2 ^ 32)
    × ((j : ℕ) → count j s'.held ≡ count j s.held)
    × (s'.ops ≡ s.ops)

-- What was begun comes to gains and losses of references.
abbrev pub came_to : (gained lost : List ℕ) → Tally
came_to gained lost = record untouched { gets = gained; puts = lost }

pub settle :
    {A : Type 0} {m : Action A} {Q : A → Tally} (gained lost : A → List ℕ) (s : State)
    → Does untouched m Q
    → ((a : A) → Same (Q a) (came_to (gained a) (lost a)))
    → Each (λ r. Balanced (gained r.0) (lost r.0) s r.1) (m s)
settle {m} {Q} gained lost s does same =
    Each-weaken (λ r. After s (Q r.0) r.1) (λ r. Balanced (gained r.0) (lost r.0) s r.1) (m s)
      (λ r after. exact r.1 (After-Same (same r.0) after))
      (does.leads s s (record { refs = λ j. refl; held = λ j. refl; ops = refl }))
  where
    exact : {g l : List ℕ} (s' : State) → After s (came_to g l) s' → Balanced g l s s'
    exact s' h = (h.refs, (λ j. omega (arith, h.held j)), omega (arith, h.ops))

abbrev pub at_end : Target → List ℕ
at_end none = []
at_end (some (i, name)) = i ∷ []

abbrev pub if_any : Option ℕ → List ℕ
if_any none = []
if_any (some i) = i ∷ []

module _ (sb : Super) (cwd : ℕ) (buf : List ℕ) (s : State) where
  -- `namex`, when it does not panic or wait for a lock of its own process, adds one reference, to the
  -- inode that it gives, and adds none when it gives none; the locks of inodes that the process holds and
  -- the transactions that it has begun are as before.
  pub namex-Balanced :
      (path : List ℕ) (parent : Bool)
      → Each (λ r. Balanced (at_end r.0) [] s r.1) (namex sb cwd path parent buf s)
  namex-Balanced path parent = settle at_end (λ r. []) s (namex-Does sb cwd path parent buf) ended
    where
      ended : (o : Target) → Same (reached untouched o) (came_to (at_end o) [])
      ended none = even (λ j. omega arith)
      ended (some (i, name)) = even (λ j. omega arith)

  -- `sys_link`, `sys_unlink`, `sys_mkdir`, `sys_mknod` and `sys_chdir`, when they do not panic or wait for a
  -- lock of their own process, on success and on failure leave every reference count of an inode, the
  -- locks that the process holds and the number of transactions as they were; but `sys_chdir` moves one
  -- reference from the current directory to the one that the process has afterwards.
  pub calls-Balanced :
      (path path' : Option (List ℕ)) (major minor : Option ℕ)
      → Each (λ r. Balanced [] [] s r.1) (sys_link sb cwd buf path path' s)
        × Each (λ r. Balanced [] [] s r.1) (sys_unlink sb cwd buf path s)
        × Each (λ r. Balanced [] [] s r.1) (sys_mkdir sb cwd buf path s)
        × Each (λ r. Balanced [] [] s r.1) (sys_mknod sb cwd buf path major minor s)
        × Each (λ r. Balanced (r.0.1 ∷ []) (cwd ∷ []) s r.1) (sys_chdir sb cwd buf path s)
  calls-Balanced path path' major minor =
      let none_left = λ (a : ℕ). even {t = untouched} {u = untouched} (λ j. omega arith) in
      let settled = λ (m : Action ℕ) (does : Does untouched m (λ a. untouched)).
        settle (λ a. []) (λ a. []) s does none_left in
      (
        settled _ (sys_link-Does sb cwd buf path path'),
        settled _ (sys_unlink-Does sb cwd buf path),
        settled _ (sys_mkdir-Does sb cwd buf path),
        settled _ (sys_mknod-Does sb cwd buf path major minor),
        settle (λ r. r.1 ∷ []) (λ r. cwd ∷ []) s (sys_chdir-Does sb cwd buf path)
            (λ r. even (λ j. omega arith)),
      )

  -- In a process with at most `nofile` descriptors, and with a table of files whose entries without
  -- references have no kind: `sys_open`, when it does not panic or wait for a lock of its own process, adds one
  -- reference, to the inode of the file that the new descriptor refers to, and adds none when it returns
  -- no descriptor; the locks and the transactions are as before.
  pub sys_open-Balanced :
      (path : Option (List ℕ)) (omode : Option ℕ) (ofile : Ofile) (files : List File)
      → length ofile ≤ nofile
      → Clean files
      → Each
          (λ r. Balanced (if_any (opened_inode r.0)) [] s r.1)
          (sys_open sb cwd buf path omode ofile files s)
  sys_open-Balanced path omode ofile files len clean =
      settle (λ c. if_any (opened_inode c)) (λ c. []) s
        (sys_open-Does sb cwd buf path omode ofile files len clean) (λ c. ended (opened_inode c))
    where
      ended : (o : Option ℕ) → Same (gets_one untouched o) (came_to (if_any o) [])
      ended none = even (λ j. omega arith)
      ended (some i) = even (λ j. omega arith)
