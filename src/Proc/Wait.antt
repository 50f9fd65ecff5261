-- ===== src/Proc/Wait.antt =====
-- `wait`: which child it reaps, and when it does not.
use a3team_os.Base.{
  zero, set, sym, ◌≢◌, Option-cases, ℕ, suc, ◌+◌, ◌≡◌, ◌⊎◌, refl, Bool, true, false, ◌&&◌, Option,
  none, some, List, [], ◌∷◌, arith, get_elem?, Bool-cases, inl, inr,
}
use a3team_os.Proc.Scheduler.{get_elem?-modify_ne}
use a3team_os.Kalloc.{kfree, Kmem}
use a3team_os.Proc.{unused, sleeping, on_proc, Proc, Ptable, is_zombie, is_child, modify}
use a3team_os.Proc.Lifecycle.{
  zero_first, clear_proc, reaped, scan, wait, wait_scanned, reap, Waited, no_children, asleep,
}

-- No process of the list is a child of `cur`, or a zombie among its children.
abbrev pub Childless : (cur : ℕ) → List Proc → Type 0
Childless cur [] = Unit
Childless cur (p ∷ ps) = (is_child cur p ≡ false) × Childless cur ps

abbrev pub NoZombie : (cur : ℕ) → List Proc → Type 0
NoZombie cur [] = Unit
NoZombie cur (p ∷ ps) = ((is_child cur p && is_zombie p.state) ≡ false) × NoZombie cur ps

-- What the scan from entry `i` on says.
abbrev Scanned : (i cur : ℕ) → List Proc → Bool × Option ℕ → Type 0
Scanned i cur ps (kids, some j) =
    (k : ℕ) × (p : Proc) × (j ≡ i + k)
    × (get_elem? ps k ≡ some p)
    × (is_child cur p ≡ true)
    × (is_zombie p.state ≡ true)
Scanned i cur ps (true, none) = NoZombie cur ps × ¬ Childless cur ps
Scanned i cur ps (false, none) = NoZombie cur ps × Childless cur ps

scan-Scanned : (i cur : ℕ) (ps : List Proc) → Scanned i cur ps (scan i cur ps)
unfolding scan
scan-Scanned i cur [] = (tt, tt)
scan-Scanned i cur (p ∷ ps) = elim (Bool-cases (is_child cur p)) [
  | inr other ↦ rw other (skip other (scan (i + 1) cur ps) (scan-Scanned (i + 1) cur ps))
  | inl child ↦ elim (Bool-cases (is_zombie p.state)) [
    | inl dead ↦ rw (child, dead) (0, p, omega arith, refl, child, dead)
    | inr alive ↦
        rw (child, alive) (keep child alive (scan (i + 1) cur ps) (scan-Scanned (i + 1) cur ps))
  ]
]
  where
    skip :
        is_child cur p ≡ false
        → (r : Bool × Option ℕ) → Scanned (i + 1) cur ps r
        → Scanned i cur (p ∷ ps) r
    skip other (kids, some j) (k, q, e, at, child, dead) = (suc k, q, omega arith, at, child, dead)
    skip other (true, none) (z, kids) = ((rw other refl, z), (λ c. kids c.1))
    skip other (false, none) (z, kids) = ((rw other refl, z), (other, kids))

    keep :
        is_child cur p ≡ true
        → is_zombie p.state ≡ false
        → (r : Bool × Option ℕ) → Scanned (i + 1) cur ps r
        → Scanned i cur (p ∷ ps) (true, r.1)
    keep child alive (kids, some j) (k, q, e, at, c, dead) = (suc k, q, omega arith, at, c, dead)
    keep child alive (true, none) (z, kids) =
        ((rw (child, alive) refl, z), (λ c. ground (arith, c.0)))
    keep child alive (false, none) (z, kids) =
        ((rw (child, alive) refl, z), (λ c. ground (arith, c.0)))

-- Entry `k`, which held `p`, is unused now: it has no pid, parent, name or kernel stack and is not
-- killed. The other entries and the next pid are as before.
abbrev pub Cleared : (t t' : Ptable) (k : ℕ) → Proc → Type 0
Cleared t t' k p =
    (get_elem? t'.proc k
      ≡ some (record p {
        kstack = 0;
        pid = 0;
        parent = none;
        name = set p.name 0 0;
        killed = false;
        state = unused;
      }))
    × ((j : ℕ) → j ≢ k → get_elem? t'.proc j ≡ get_elem? t.proc j)
    × (t'.nextpid ≡ t.nextpid)

zero_first_lem : (name : List ℕ) → zero_first name ≡ set name 0 0
zero_first_lem [] = refl
zero_first_lem (c ∷ cs) = refl

get_elem?-modify :
    (f : Proc → Proc) (k : ℕ) (ps : List Proc) {p : Proc}
    → get_elem? ps k ≡ some p
    → get_elem? (modify f k ps) k ≡ some (f p)
get_elem?-modify f k [] e = cc
get_elem?-modify f zero (q ∷ ps) {p} e = let same : q ≡ p = cc in rw same refl
get_elem?-modify f (suc k) (q ∷ ps) e = get_elem?-modify f k ps e

module _ (kernel_end : ℕ) (freevm : Kmem → (pgdir : ℕ) → Option Kmem) where
  -- What becomes of the zombie `p` at entry `k`: its kernel stack and its memory are given back, its
  -- entry is cleared, and its pid is the result. It is a panic when `kfree` or `freevm` panics.
  abbrev pub Reaps : Ptable → (k : ℕ) → Proc → Option (Ptable × Waited) → Type 0
  Reaps t k p r =
      ((m : Kmem) × (t' : Ptable) × (kfree kernel_end t.kmem p.kstack ≡ some m)
        × (freevm m p.pgdir ≡ some t'.kmem)
        × (r ≡ some (t', reaped p.pid))
        × Cleared t t' k p)
      ⊎ ((kfree kernel_end t.kmem p.kstack ≡ none) × (r ≡ none))
      ⊎ ((m : Kmem) × (kfree kernel_end t.kmem p.kstack ≡ some m)
          × (freevm m p.pgdir ≡ none)
          × (r ≡ none))

  reap-Reaps :
      (t : Ptable) (k : ℕ) (p : Proc)
      → get_elem? t.proc k ≡ some p
      → Reaps t k p (reap kernel_end freevm t k)
  reap-Reaps t k p at = elim (Option-cases (kfree kernel_end t.kmem p.kstack)) [
    | inl panics ↦ inr (inl (panics, rw (at, panics) refl))
    | inr (m, freed) ↦ elim (Option-cases (freevm m p.pgdir)) [
      | inl panics ↦ inr (inr (m, freed, panics, rw (at, freed, panics) refl))
      | inr (m', gone) ↦ inl (
        m,
        record t { proc = modify clear_proc k t.proc; kmem = m' },
        freed,
        gone,
        rw (at, freed, gone) refl,
        (
          rw (← zero_first_lem p.name) (get_elem?-modify clear_proc k t.proc at),
          (λ j ne. get_elem?-modify_ne clear_proc k j t.proc (λ e. ne (sym e))),
          refl,
        ),
      )
    ]
  ]

  -- How one pass of `wait` of process `cur` may end, and when.
  abbrev pub Waits : Ptable → (cur : ℕ) → Proc → Option (Ptable × Waited) → Type 0
  Waits t cur me r =
      ((k : ℕ) × (p : Proc) × (get_elem? t.proc k ≡ some p)
        × (is_child cur p ≡ true)
        × (is_zombie p.state ≡ true)
        × Reaps t k p r)
      ⊎ (NoZombie cur t.proc
          × (Childless cur t.proc ⊎ (me.killed ≡ true))
          × (r ≡ some (t, no_children)))
      ⊎ (NoZombie cur t.proc
          × (¬ Childless cur t.proc)
          × (me.killed ≡ false)
          × (r
              ≡ some (
                record t {
                  proc = modify (λ p. record p { chan = on_proc cur; state = sleeping }) cur t.proc;
                },
                asleep,
              )))

  wait_scanned-Waits :
      (t : Ptable) (cur : ℕ) (me : Proc) (s : Bool × Option ℕ)
      → Scanned 0 cur t.proc s
      → Waits t cur me (wait_scanned kernel_end freevm t cur me.killed s)
  wait_scanned-Waits t cur me (kids, some j) (k, p, e, at, child, dead) =
      let same : j ≡ k = omega arith in inl (k, p, at, child, dead, rw same (reap-Reaps t k p at))
  wait_scanned-Waits t cur me (true, none) (z, kids) = elim (Bool-cases me.killed) [
    | inl k ↦ inr (inl (z, inr k, rw k refl))
    | inr k ↦ inr (inr (z, kids, k, rw k refl))
  ]
  wait_scanned-Waits t cur me (false, none) (z, kids) = inr (inl (z, inl kids, refl))

  -- `wait` reaps a child that is a zombie if there is one: it gives back the kernel stack of the child
  -- and then its memory, clears its entry, changes no other entry, and returns its pid; it panics when
  -- `kfree` or `freevm` does. It returns -1 exactly when there is no such child and the process has no
  -- child or is killed, and changes nothing; otherwise it sleeps on itself.
  pub wait-Waits :
      (t : Ptable) (cur : ℕ) (me : Proc)
      → get_elem? t.proc cur ≡ some me
      → Waits t cur me (wait kernel_end freevm t cur)
  unfolding wait
  wait-Waits t cur me at =
      rw at (wait_scanned-Waits t cur me (scan 0 cur t.proc) (scan-Scanned 0 cur t.proc))
