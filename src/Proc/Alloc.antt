-- ===== src/Proc/Alloc.antt =====
-- `allocproc`: which entry it takes, and how it fails.
use a3team_os.Base.{
  ℕ, zero, suc, ◌+◌, ◌-◌, ◌%◌, ◌^◌, ◌≡◌, ◌≢◌, ◌⊎◌, refl, ap, true, false, Option, none, some, List,
  [], ◌∷◌, arith, ◌==◌, get_elem?, set, Bool-cases, inl, inr,
}
use a3team_os.Kalloc.{kalloc}
use a3team_os.Proc.{
  unused, embryo, Proc, Ptable, is_unused, find_unused, modify, take_proc, allocproc, kstacksize,
  trapframe_size, context_size,
}

abbrev pub NoneUnused : List Proc → Type 0
NoneUnused [] = Unit
NoneUnused (p ∷ ps) = (is_unused p.state ≡ false) × NoneUnused ps

abbrev Finds : ℕ → List Proc → Option ℕ → Type 0
Finds i ps none = NoneUnused ps
Finds i ps (some j) =
    (k : ℕ) × (p : Proc) × (j ≡ i + k) × (get_elem? ps k ≡ some p) × (is_unused p.state ≡ true)

find_unused-Finds : (i : ℕ) (ps : List Proc) → Finds i ps (find_unused i ps)
unfolding find_unused
find_unused-Finds i [] = tt
find_unused-Finds i (p ∷ ps) = elim (Bool-cases (is_unused p.state)) [
  | inl free ↦ rw free (0, p, omega arith, refl, free)
  | inr used ↦ rw used (later used (find_unused (i + 1) ps) (find_unused-Finds (i + 1) ps))
]
  where
    later : is_unused p.state ≡ false → (o : Option ℕ) → Finds (i + 1) ps o → Finds i (p ∷ ps) o
    later used none h = (used, h)
    later used (some j) (k, q, e, at, free) = (suc k, q, omega arith, at, free)

modify-set :
    (f : Proc → Proc) (i : ℕ) (ps : List Proc) {p : Proc}
    → get_elem? ps i ≡ some p
    → modify f i ps ≡ set ps i (f p)
modify-set f i [] e = cc
modify-set f zero (q ∷ ps) {p} e = let same : q ≡ p = cc in rw same
modify-set f (suc i) (q ∷ ps) e = ap (λ l. q ∷ l) (modify-set f i ps e)

-- The entry `p` when it has its kernel stack.
abbrev pub started : Ptable → Proc → Proc
started t p =
    let kstack = (kalloc t.kmem).1 in
    record p {
      state = embryo;
      pid = t.nextpid;
      kstack = kstack;
      tf = kstack + kstacksize - trapframe_size;
      context = kstack + kstacksize - trapframe_size - 4 - context_size;
    }

-- How `allocproc` may end.
abbrev pub Takes : Ptable → Ptable × Option ℕ → Type 0
Takes t (t', some i) =
    (p : Proc) × (get_elem? t.proc i ≡ some p)
    × (is_unused p.state ≡ true)
    × ((kalloc t.kmem).1 ≢ 0)
    × (t'.proc ≡ set t.proc i (started t p))
    × (t'.nextpid ≡ (t.nextpid + 1) % 2 ^ 32)
    × (t'.kmem.freelist ≡ (kalloc t.kmem).0.freelist)
Takes t (t', none) =
    (NoneUnused t.proc × (t' ≡ t))
    ⊎ ((i : ℕ) × (p : Proc) × (get_elem? t.proc i ≡ some p)
        × (is_unused p.state ≡ true)
        × ((kalloc t.kmem).1 ≡ 0)
        × (t'.proc ≡ set t.proc i (record p { pid = t.nextpid; kstack = 0; state = unused }))
        × (t'.kmem ≡ (kalloc t.kmem).0))

module _ (trapret forkret : ℕ) where
  take_proc-Takes :
      (t : Ptable) (o : Option ℕ) → Finds 0 t.proc o → Takes t (take_proc trapret forkret t o)
  take_proc-Takes t none h = inl (h, refl)
  take_proc-Takes t (some i) (k, p, e, at, free) =
      let same : k ≡ i = omega arith in
      let at' : get_elem? t.proc i ≡ some p = rw same at at in
      elim (Bool-cases ((kalloc t.kmem).1 == 0)) [
        | inl none_left ↦
            let zero_page : (kalloc t.kmem).1 ≡ 0 = ground arith in
            rw none_left
              (inr (i, p, at', free, zero_page, rw zero_page (modify-set _ i t.proc at'), refl))
        | inr page ↦
            rw page (p, at', free, (λ z. ground arith), modify-set _ i t.proc at', refl, refl)
      ]

  -- `allocproc` takes an unused entry, gives it the next pid and a page of the page allocator for its
  -- kernel stack, and changes no other entry. It fails, leaving no entry in use that was not, exactly
  -- when no entry is unused or no page is left.
  pub allocproc-Takes : (t : Ptable) → Takes t (allocproc trapret forkret t)
  unfolding allocproc
  allocproc-Takes t = take_proc-Takes t (find_unused 0 t.proc) (find_unused-Finds 0 t.proc)
