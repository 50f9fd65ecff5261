-- ===== src/Inodes/Moves.antt =====
-- What each operation on an inode does to references, locks and transactions.
use a3team_os.Base.{
  ℕ, ◌+◌, ◌%◌, ◌^◌, ◌≡◌, refl, true, false, Option, none, some, List, ◌==◌, ltb, get_elem?, set,
  arith, Bool-cases, inl, inr, ◌⊎◌,
}
use a3team_os.Base.Maybe.{◌>>=◌ as ◌>>=?◌, Each, Each-weaken}
use a3team_os.Fs.{Super, Disk}
use a3team_os.Fs.Inode.{Inode, ilock as read_inode, iget as get_entry, idup as dup_entry}
use a3team_os.Inodes.{
  State, member, on_inode, hold, drop_lock, inode, change, begin_op, end_op, idup, iget, with_cache,
  no_answer, iunlock, ilock, iupdate, readi, writei, without,
}
use a3team_os.Inodes.Rules.{
  Tally, gets, locks, unlocks, begins, ends, After, Does, by-if, by-panic, Does-bind,
}
use a3team_os.Inodes.Counts.{ref_at-set, count-remove, After-moved, on_inode-After}
use a3team_os.Inodes.Keep.{readi-Keeps, writei-Keeps}
use a3team_os.Inodes.Cache.{iget-Counts, Counts}

module _ {t : Tally} (i : ℕ) where
  pub hold-Does : Does t (hold i) (λ u. locks i t)
  hold-Does = record { leads = λ s s' h. step s s' h (Bool-cases (member i s'.held)) }
    where
      step :
          (s s' : State)
          → After s t s'
          → (member i s'.held ≡ true) ⊎ (member i s'.held ≡ false)
          → Each (λ r. After s (locks i t) r.1) (hold i s')
      step s s' h (inl e) = rw e tt
      step s s' h (inr e) =
          rw e (record { refs = h.refs; held = λ j. omega (arith, h.held j); ops = h.ops })

  pub drop_lock-Does : Does t (drop_lock i) (λ u. unlocks i t)
  drop_lock-Does = record { leads = λ s s' h. step s s' h (Bool-cases (member i s'.held)) }
    where
      step :
          (s s' : State)
          → After s t s'
          → (member i s'.held ≡ true) ⊎ (member i s'.held ≡ false)
          → Each (λ r. After s (unlocks i t) r.1) (drop_lock i s')
      step s s' h (inr e) = rw e tt
      step s s' h (inl e) = rw e (record {
        refs = h.refs;
        held = λ j. omega (arith, h.held j, count-remove i j s'.held e);
        ops = h.ops;
      })

  -- An operation on an entry that keeps its count.
  pub on_inode-Does :
      {A : Type 0} (f : Disk → Inode → Option (Inode × Disk × A))
      → ((d : Disk) (ip : Inode) → Each (λ r. r.0.ref ≡ ip.ref) (f d ip))
      → Does t (on_inode i f) (λ r. t)
  on_inode-Does f keeps = record {
    leads = λ s s' h.
        on_inode-After i 0 0 f
          (λ d ip.
            Each-weaken (λ r. r.0.ref ≡ ip.ref)
              (λ r. (r.0.ref + 0) % 2 ^ 32 ≡ (ip.ref + 0) % 2 ^ 32) (f d ip)
              (λ r same. omega (arith, same)) (keeps d ip))
          h;
  }

pub begin_op-Does : {t : Tally} → Does t begin_op (λ u. begins t)
begin_op-Does = record {
  leads = λ s s' h. record { refs = h.refs; held = h.held; ops = omega (arith, h.ops) };
}

pub end_op-Does : {t : Tally} → Does t end_op (λ u. ends t)
end_op-Does {t} = record { leads = λ s s' h. step s s' h (Bool-cases (s'.ops == 0)) }
  where
    step :
        (s s' : State)
        → After s t s'
        → ((s'.ops == 0) ≡ true) ⊎ ((s'.ops == 0) ≡ false)
        → Each (λ r. After s (ends t) r.1) (end_op s')
    step s s' h (inl e) = rw e tt
    step s s' h (inr e) =
        simp e (record { refs = h.refs; held = h.held; ops = ground (arith, h.ops, e) })

pub inode-Does : {t : Tally} (i : ℕ) → Does t (inode i) (λ ip. t)
inode-Does i = on_inode-Does i (λ d ip. some (ip, d, ip)) (λ d ip. refl)

pub change-Does : {t : Tally} (i : ℕ) (f : Inode → Inode) → Does t (change i f) (λ u. t)
change-Does i f =
    on_inode-Does i (λ d ip. some (record (f ip) { ref = ip.ref }, d, tt)) (λ d ip. refl)

pub iunlock-Does : {t : Tally} (i : ℕ) → Does t (iunlock i) (λ u. unlocks i t)
iunlock-Does i = Does-bind (inode-Does i) (λ ip. by-if (ltb ip.ref 1) by-panic (drop_lock-Does i))

pub iget-Does : {t : Tally} (dev inum : ℕ) → Does t (iget dev inum) (λ i. gets i t)
iget-Does {t} dev inum = record {
  leads = λ s s' h. step s s' h (get_entry s'.inodes dev inum) (iget-Counts s'.inodes dev inum);
}
  where
    step :
        (s s' : State)
        → After s t s'
        → (o : Option (List Inode × ℕ)) → Each (Counts s'.inodes) o
        → Each (λ r. After s (gets r.0 t) r.1) (with_cache s' o)
    step s s' h none e = tt
    step s s' h (some (ips, i)) e = After-moved i 0 1 s'.disk ips e h

pub idup-Does : {t : Tally} (i : ℕ) → Does t (idup i) (λ u. gets i t)
unfolding dup_entry
idup-Does {t} i = record { leads = λ s s' h. step s s' h (get_elem? s'.inodes i) refl }
  where
    step :
        (s s' : State)
        → After s t s'
        → (o : Option Inode) → get_elem? s'.inodes i ≡ o
        → Each
            (λ r. After s (gets i t) r.1)
            (with_cache s'
              (no_answer (o >>=? λ ip. some (set s'.inodes i (record ip { ref = ip.ref + 1 })))))
    step s s' h none at = tt
    step s s' h (some ip) at =
        After-moved i 0 1 s'.disk (set s'.inodes i (record ip { ref = ip.ref + 1 }))
          (λ j. ref_at-set s'.inodes i j 0 1 ip (record ip { ref = ip.ref + 1 }) at (omega arith)) h

module _ (sb : Super) where
  ilock-keeps :
      (d : Disk) (ip : Inode) → Each (λ r. r.0.ref ≡ ip.ref) (without d (read_inode sb d ip))
  unfolding read_inode
  ilock-keeps d ip = ground arith

  pub ilock-Does : {t : Tally} (i : ℕ) → Does t (ilock sb i) (λ u. locks i t)
  unfolding ilock
  ilock-Does i = Does-bind (hold-Does i) (λ u. on_inode-Does i _ ilock-keeps)

  pub iupdate-Does : {t : Tally} (i : ℕ) → Does t (iupdate sb i) (λ u. t)
  unfolding iupdate
  iupdate-Does i = on_inode-Does i _ (λ d ip. refl)

  pub readi-Does : {t : Tally} (i off n : ℕ) → Does t (readi sb i off n) (λ u. t)
  unfolding readi
  readi-Does i off n = on_inode-Does i _ (λ d ip. readi-Keeps sb d ip off n)

  pub writei-Does : {t : Tally} (i off : ℕ) (src : List ℕ) → Does t (writei sb i off src) (λ u. t)
  unfolding writei
  writei-Does i off src = on_inode-Does i _ (λ d ip. writei-Keeps sb d ip off src)
