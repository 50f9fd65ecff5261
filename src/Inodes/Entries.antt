-- ===== src/Inodes/Entries.antt =====
-- What `iput` and the operations on directory entries do to references, locks and transactions.
use a3team_os.Base.{
  ℕ, ◌+◌, ◌-◌, ◌%◌, ◌^◌, ◌≡◌, refl, Bool, false, Option, none, some, List, ◌∷◌, ◌==◌, if◌then◌else◌,
  get_elem?, set, arith, inl, inr, not, ◌&&◌, Option-cases,
}
use a3team_os.Base.Maybe.{◌>>=◌ as ◌>>=?◌, Each, Each-if, Each-bind, Each-then}
use a3team_os.Fs.{Super, Disk}
use a3team_os.Fs.Inode.{
  Inode, iget as get_entry, ialloc as alloc_entry, iupdate as write_inode, find_inode,
}
use a3team_os.Fs.Content.{iput as put_entry, itrunc, writei as write_content}
use a3team_os.Fs.Path.{
  dirlookup as look_up, looked_up, add_entry, find_entry, find_empty, t_dir, entries, pad_name,
  dirsiz,
}
use a3team_os.Fs.{put16}
use a3team_os.Inodes.{
  State, pure, ◌>>=◌, if_null, on_inode, iput, iunlockput, dirlookup, found, dirlink, write_entry,
  added, ialloc, allocated, gone,
}
use a3team_os.Inodes.Rules.{Tally, gets, puts, unlocks, After, Does, by-pure, Does-bind, Does-Same}
use a3team_os.Inodes.Counts.{ref_at-set, After-moved, on_inode-After, Shifts}
use a3team_os.Inodes.Keep.{writei-Keeps, find_entry-Keeps, find_empty-Keeps, itrunc-Keeps}
use a3team_os.Inodes.Cache.{iget-Counts, Counts}
use a3team_os.Inodes.Moves.{hold-Does, drop_lock-Does, iunlock-Does}

-- The change of counts that goes with the answer of `dirlookup`.
abbrev Looks : List Inode → Disk × List Inode × Option (ℕ × ℕ) → Type 0
Looks ips (d, ips', none) = Shifts 0 0 0 ips ips'
Looks ips (d, ips', some (i, off)) = Shifts i 0 1 ips ips'

abbrev pub gets_found : Tally → Option (ℕ × ℕ) → Tally
gets_found t none = t
gets_found t (some (i, off)) = gets i t

module _ (sb : Super) where
  iput-loses :
      (d : Disk) (ip : Inode)
      → Each (λ r. (r.0.ref + 1) % 2 ^ 32 ≡ (ip.ref + 0) % 2 ^ 32) (gone (put_entry sb d ip))
  unfolding put_entry
  iput-loses d ip = ended (put_entry sb d ip) (
      Each-bind (λ a. a.0.ref ≡ ip.ref) (λ a. (a.0.ref + 1) % 2 ^ 32 ≡ (ip.ref + 0) % 2 ^ 32)
        (if ip.valid && (ip.nlink == 0) && (ip.ref == 1) then freed else some (ip, d)) _
        (Each-if (λ a. a.0.ref ≡ ip.ref) (ip.valid && (ip.nlink == 0) && (ip.ref == 1)) freed
          (some (ip, d))
          (Each-bind (λ a. a.0.ref ≡ ip.ref) (λ a. a.0.ref ≡ ip.ref) (itrunc sb d ip) _
            (itrunc-Keeps sb d ip) (λ p kept. kept))
          refl)
        (λ p kept. omega (arith, kept)))
    where
      freed : Option (Inode × Disk)
      freed = itrunc sb d ip >>=? λ p.
          some
            (record p.0 { kind = 0; valid = false }, write_inode sb p.1 (record p.0 { kind = 0 }))

      ended :
          (o : Option (Inode × Disk))
          → Each (λ a. (a.0.ref + 1) % 2 ^ 32 ≡ (ip.ref + 0) % 2 ^ 32) o
          → Each (λ r. (r.0.ref + 1) % 2 ^ 32 ≡ (ip.ref + 0) % 2 ^ 32) (gone o)
      ended none e = tt
      ended (some a) e = e

  put-Does :
      {t : Tally} (i : ℕ) → Does t (on_inode i (λ d ip. gone (put_entry sb d ip))) (λ u. puts i t)
  put-Does i = record { leads = λ s s' h. on_inode-After i 1 0 _ iput-loses h }

  pub iput-Does : {t : Tally} (i : ℕ) → Does t (iput sb i) (λ u. puts i t)
  unfolding iput
  iput-Does i =
      Does-Same (λ u. record { refs = λ j. refl; held = λ j. omega arith; ops = refl })
        (Does-bind (hold-Does i) (λ u. Does-bind (put-Does i) (λ v. drop_lock-Does i)))

  pub iunlockput-Does : {t : Tally} (i : ℕ) → Does t (iunlockput sb i) (λ u. puts i (unlocks i t))
  unfolding iunlockput
  iunlockput-Does i = Does-bind (iunlock-Does i) (λ u. iput-Does i)

  looked_up-Looks :
      (ips : List Inode) (dp : ℕ) (dir dir' : Inode) (d : Disk) (o : Option (ℕ × ℕ))
      → get_elem? ips dp ≡ some dir
      → dir'.ref ≡ dir.ref
      → Each (Looks ips) (looked_up d (set ips dp dir') dir.dev o)
  looked_up-Looks ips dp dir dir' d none at kept =
      λ j. omega (arith, ref_at-set ips dp j 0 0 dir dir' at (omega (arith, kept)))
  looked_up-Looks ips dp dir dir' d (some (inum, off)) at kept =
      Each-bind (Counts (set ips dp dir')) (Looks ips) (get_entry (set ips dp dir') dir.dev inum) _
        (iget-Counts (set ips dp dir') dir.dev inum)
        (λ p counts j.
          omega (arith, counts j, ref_at-set ips dp j 0 0 dir dir' at (omega (arith, kept))))

  dirlookup-Looks :
      (d : Disk) (ips : List Inode) (dp : ℕ) (name : List ℕ)
      → Each (Looks ips) (look_up sb d ips dp name)
  unfolding look_up
  dirlookup-Looks d ips dp name = elim (Option-cases (get_elem? ips dp)) [
    | inl e ↦ rw e tt
    | inr (dir, e) ↦ rw e (
        Each-if (Looks ips) (not (dir.kind == t_dir)) _ _ tt (
          Each-bind (λ p. p.0.ref ≡ dir.ref) (Looks ips)
            (find_entry (entries dir.size) 0 name sb d dir) _
            (find_entry-Keeps sb (entries dir.size) 0 name d dir)
            (λ p kept. looked_up-Looks ips dp dir p.0 p.1 p.2 e kept)))
  ]

  pub dirlookup-Does :
      {t : Tally} (dp : ℕ) (name : List ℕ) → Does t (dirlookup sb dp name) (gets_found t)
  unfolding dirlookup
  dirlookup-Does {t} dp name = record {
    leads = λ s s' h.
        step s s' h (look_up sb s'.disk s'.inodes dp name)
          (dirlookup-Looks s'.disk s'.inodes dp name);
  }
    where
      step :
          (s s' : State)
          → After s t s'
          → (o : Option (Disk × List Inode × Option (ℕ × ℕ))) → Each (Looks s'.inodes) o
          → Each (λ r. After s (gets_found t r.0) r.1) (found s' o)
      step s s' h none e = tt
      step s s' h (some (d, ips, none)) e = After-moved 0 0 0 d ips e h
      step s s' h (some (d, ips, some (i, off))) e = After-moved i 0 1 d ips e h

  write_entry-Shifts :
      (d : Disk) (ips : List Inode) (dp : ℕ) (name : List ℕ) (inum : ℕ)
      → Each (λ r. Shifts 0 0 0 ips r.1) (add_entry sb d ips dp name inum)
  unfolding add_entry
  write_entry-Shifts d ips dp name inum = elim (Option-cases (get_elem? ips dp)) [
    | inl e ↦ rw e tt
    | inr (dir, e) ↦ rw e (
        Each-bind (λ p. p.0.ref ≡ dir.ref) (λ r. Shifts 0 0 0 ips r.1)
          (find_empty (entries dir.size) 0 sb d dir) _
          (find_empty-Keeps sb (entries dir.size) 0 d dir)
          (λ p kept.
            Each-bind (λ q. q.0.ref ≡ p.0.ref) (λ r. Shifts 0 0 0 ips r.1)
              (write_content sb p.1 p.0 p.2 (put16 (0 ∷ 0 ∷ pad_name dirsiz name) 0 inum)) _
              (writei-Keeps sb p.1 p.0 p.2 (put16 (0 ∷ 0 ∷ pad_name dirsiz name) 0 inum))
              (λ q kept'.
                Each-if (λ r. Shifts 0 0 0 ips r.1) q.2 _ _
                  (λ j.
                    omega (arith, ref_at-set ips dp j 0 0 dir q.0 e (omega (arith, kept, kept'))))
                  tt)))
  ]

  write_entry-Does :
      {t : Tally} (dp : ℕ) (name : List ℕ) (inum : ℕ)
      → Does t (write_entry sb dp name inum) (λ u. t)
  unfolding write_entry
  write_entry-Does {t} dp name inum = record {
    leads = λ s s' h.
        step s s' h (add_entry sb s'.disk s'.inodes dp name inum)
          (write_entry-Shifts s'.disk s'.inodes dp name inum);
  }
    where
      step :
          (s s' : State)
          → After s t s'
          → (o : Option (Disk × List Inode × Bool)) → Each (λ r. Shifts 0 0 0 s'.inodes r.1) o
          → Each (λ r. After s t r.1) (added s' o)
      step s s' h none e = tt
      step s s' h (some (d, ips, b)) e = After-moved 0 0 0 d ips e h

  pub dirlink-Does :
      {t : Tally} (dp : ℕ) (name : List ℕ) (inum : ℕ) → Does t (dirlink sb dp name inum) (λ u. t)
  unfolding dirlink
  dirlink-Does {t} dp name inum = Does-bind (dirlookup-Does dp name) after
    where
      after :
          (present : Option (ℕ × ℕ))
          → Does
              (gets_found t present)
              (if_null present (write_entry sb dp name inum) (λ e. iput sb e.0 >>= λ u. pure false))
              (λ u. t)
      after none = write_entry-Does dp name inum
      after (some e) =
          Does-bind (iput-Does e.0)
            (λ u. by-pure false (record { refs = λ j. omega arith; held = λ j. refl; ops = refl }))

  ialloc-Shifts :
      (d : Disk) (ips : List Inode) (dev kind : ℕ)
      → Each (λ r. Shifts r.2 0 1 ips r.1) (alloc_entry sb d ips dev kind)
  unfolding alloc_entry
  ialloc-Shifts d ips dev kind =
      Each-then (λ r. Shifts r.2 0 1 ips r.1) (find_inode (sb.ninodes - 1) 1 kind sb d) _
        (λ p.
          Each-bind (Counts ips) (λ r. Shifts r.2 0 1 ips r.1) (get_entry ips dev p.1) _
            (iget-Counts ips dev p.1) (λ q counts. counts))

  pub ialloc-Does : {t : Tally} (dev kind : ℕ) → Does t (ialloc sb dev kind) (λ i. gets i t)
  unfolding ialloc
  ialloc-Does {t} dev kind = record {
    leads = λ s s' h.
        step s s' h (alloc_entry sb s'.disk s'.inodes dev kind)
          (ialloc-Shifts s'.disk s'.inodes dev kind);
  }
    where
      step :
          (s s' : State)
          → After s t s'
          → (o : Option (Disk × List Inode × ℕ)) → Each (λ r. Shifts r.2 0 1 s'.inodes r.1) o
          → Each (λ r. After s (gets r.0 t) r.1) (allocated s' o)
      step s s' h none e = tt
      step s s' h (some (d, ips, i)) e = After-moved i 0 1 d ips e h
