-- ===== src/Inodes/Cache.antt =====
-- The entry that `iget` gives has one reference more.
use a3team_os.Base.{
  ℕ, suc, ◌+◌, ◌≡◌, refl, ap, Bool, true, false, Option, none, some, List, [], ◌∷◌, ◌==◌, ltb,
  if◌then◌else◌, get_elem?, set, arith, Bool-cases, inl, inr, ◌&&◌, subst,
}
use a3team_os.Base.Maybe.{◌>>=◌, Each}
use a3team_os.Fs.Inode.{Inode, iget, remember, find_cached}
use a3team_os.Inodes.Counts.{ref_at-set, Shifts}

abbrev Unused : List Inode → ℕ → Type 0
Unused ips e = (ip : Inode) → get_elem? ips e ≡ some ip → ip.ref ≡ 0

module _ (all : List Inode) (dev inum : ℕ) where
  remember-Unused :
      (o : Option ℕ) (i : ℕ) (x : Inode)
      → get_elem? all i ≡ some x
      → ((e : ℕ) → o ≡ some e → Unused all e)
      → (e : ℕ) → remember o i x.ref ≡ some e
      → Unused all e
  remember-Unused none i x at h e eq = λ ip got. ground (arith, at, eq, got)
  remember-Unused (some k) i x at h e eq = h e eq

  -- The empty entry that the scan ends with.
  find_cached-Unused :
      (i : ℕ) (o : Option ℕ) (ips : List Inode)
      → ((m : ℕ) → get_elem? all (i + m) ≡ get_elem? ips m)
      → ((e : ℕ) → o ≡ some e → Unused all e)
      → (e : ℕ) → find_cached i dev inum o ips ≡ (false, some e)
      → Unused all e
  unfolding find_cached
  find_cached-Unused i o [] rest h e eq = h e (ap (λ p. p.1) eq)
  find_cached-Unused i o (x ∷ ips) rest h e eq =
      let more = find_cached (i + 1) dev inum (remember o i x.ref) ips in
      let P = λ (c : Bool). (if c then (true, some i) else more) ≡ (false, some e) in
      let at : get_elem? all i ≡ some x =
        subst (λ n. get_elem? all n ≡ some x) (omega arith) (rest 0) in
      elim (Bool-cases (ltb 0 x.ref && (x.dev == dev) && (x.inum == inum))) [
        | inl b ↦ (let no : true ≡ false = ap (λ p. p.0) (subst P b eq) in cc)
        | inr b ↦
            find_cached-Unused (i + 1) (remember o i x.ref) ips
              (λ m. subst (λ n. get_elem? all n ≡ get_elem? ips m) (omega arith) (rest (suc m)))
              (remember-Unused o i x at h) e (subst P b eq)
      ]

-- One reference more at the entry, and no other change of a count.
abbrev pub Counts : List Inode → List Inode × ℕ → Type 0
Counts ips r = Shifts r.1 0 1 ips r.0

pub iget-Counts : (ips : List Inode) (dev inum : ℕ) → Each (Counts ips) (iget ips dev inum)
unfolding iget
iget-Counts ips dev inum = by_scan (find_cached 0 dev inum none ips) (
    find_cached-Unused ips dev inum 0 none ips (λ m. ap (λ n. get_elem? ips n) (omega arith))
      (λ e no. cc))
  where
    new : Inode → Inode
    new ip = record ip { dev = dev; inum = inum; ref = 1; valid = false }

    by_entry :
        (c : Bool) (i : ℕ) (o : Option Inode)
        → get_elem? ips i ≡ o
        → (c ≡ false → Unused ips i)
        → Each (Counts ips) (
            o >>= λ ip.
            if c
            then some (set ips i (record ip { ref = ip.ref + 1 }), i)
            else some (set ips i (new ip), i))
    by_entry c i none at unused = tt
    by_entry true i (some ip) at unused =
        λ j. ref_at-set ips i j 0 1 ip (record ip { ref = ip.ref + 1 }) at (omega arith)
    by_entry false i (some ip) at unused =
        λ j. ref_at-set ips i j 0 1 ip (new ip) at (rw (unused refl ip at) refl)

    by_scan :
        (p : Bool × Option ℕ)
        → ((e : ℕ) → p ≡ (false, some e) → Unused ips e)
        → Each (Counts ips) (
            p.1 >>= λ i. get_elem? ips i >>= λ ip.
            if p.0
            then some (set ips i (record ip { ref = ip.ref + 1 }), i)
            else some (set ips i (new ip), i))
    by_scan (c, none) h = tt
    by_scan (c, some i) h = by_entry c i (get_elem? ips i) refl (λ e. h i (ap (λ b. (b, some i)) e))
