-- ===== src/Proc/Lifecycle.antt =====
-- `fork`, `exit`, `wait`, and the changes of state of a process, src/proc.c.
--
-- The inode of the current directory belongs to the inode cache: what `idup` and `iput` do to it is
-- left to the caller of these functions, `iput` as one of the things that `exit` goes on to.
use a3team_os.Base.{
  ℕ, zero, suc, ◌+◌, Bool, true, false, not, ◌||◌, Option, none, some, List, [], ◌∷◌, ◌++◌, ◌==◌,
  if◌then◌else◌, get_elem?,
}
use a3team_os.Base.Maybe.{◌>>=◌}
use a3team_os.Memory.{store32, memmove}
use a3team_os.Kalloc.{Kmem, kfree}
use a3team_os.File.{File, filedup, fileclose, Behind, puts_inode}
use a3team_os.Proc.{
  ProcState, unused, sleeping, runnable, running, zombie, Channel, no_channel, on_proc, Proc,
  Ptable, is_zombie, is_child, proc_channel, wakeup1, modify, allocproc, trapframe_size,
}

-- `safestrcpy` of a name over another: after the terminating 0 one more 0 is written.
abbrev pub zero_first : List ℕ → List ℕ
zero_first [] = []
zero_first (d ∷ ds) = 0 ∷ ds

abbrev pub copy_name : (rounds : ℕ) → List ℕ → List ℕ → List ℕ
copy_name zero ds cs = zero_first ds
copy_name (suc n) [] cs = []
copy_name (suc n) (d ∷ ds) [] = d ∷ ds
copy_name (suc n) (d ∷ ds) (c ∷ cs) =
    let rest = copy_name n ds cs in if c == 0 then 0 ∷ zero_first ds else c ∷ rest

-- The loop of `fork` over the open files: `none` is the panic of `filedup`.
unfoldable pub dup_files : List (Option ℕ) → List File → Option (List File)
dup_files [] fs = some fs
dup_files (none ∷ os) fs = dup_files os fs
dup_files (some i ∷ os) fs = do fs1 ← filedup fs i; dup_files os fs1

-- The loop of `exit` over the open files: the table of files, and what the closes go on to.
unfoldable pub close_files : List (Option ℕ) → List File → Option (List File × List Behind)
close_files [] fs = some (fs, [])
close_files (none ∷ os) fs = close_files os fs
close_files (some i ∷ os) fs = do
  (fs1, b) ← fileclose fs i
  (fs2, bs) ← close_files os fs1
  some (fs2, b ∷ bs)

-- The entries of the child that the parent gives: the open files of the parent where it has one.
abbrev pub inherit : (parent child : List (Option ℕ)) → List (Option ℕ)
inherit [] os = os
inherit (p ∷ ps) [] = []
inherit (none ∷ ps) (o ∷ os) = o ∷ inherit ps os
inherit (some i ∷ ps) (o ∷ os) = some i ∷ inherit ps os

module _ (kernel_end trapret forkret : ℕ) (copyuvm : Kmem → (pgdir sz : ℕ) → Kmem × ℕ) where
  -- The child when the page table is copied. Word 7 of the trap frame is `eax`.
  abbrev pub start_child :
      Ptable
      → List File
      → (cur np : ℕ) → Proc
      → Proc
      → (pgdir : ℕ) → Kmem
      → Option (Ptable × List File × Option ℕ)
  start_child t fs cur np parent child pgdir m = do
    fs1 ← dup_files parent.ofile fs
    let mem = store32 (memmove m.mem child.tf parent.tf trapframe_size) (child.tf + 28) 0
    some (
      record t {
        proc =
            modify
              (λ p. record p {
                pgdir = pgdir;
                sz = parent.sz;
                parent = some cur;
                ofile = inherit parent.ofile p.ofile;
                cwd = parent.cwd;
                name = copy_name 15 p.name parent.name;
                state = runnable;
              })
              np t.proc;
        kmem = record m { mem = mem };
      },
      fs1,
      some child.pid,
    )

  -- The child gives its entry and its stack back when there is no memory for the page table.
  abbrev pub drop_child :
      Ptable → List File → (np : ℕ) → Proc → Kmem → Option (Ptable × List File × Option ℕ)
  drop_child t fs np child m = do
    m1 ← kfree kernel_end m child.kstack
    some (
      record t {
        proc = modify (λ p. record p { pgdir = 0; kstack = 0; state = unused }) np t.proc;
        kmem = m1;
      },
      fs,
      none,
    )

  -- `fork` of process `cur`: outer `none` is a panic, and inner `none` is -1.
  unfoldable pub fork : Ptable → List File → (cur : ℕ) → Option (Ptable × List File × Option ℕ)
  fork t fs cur =
      let (t1, o) = allocproc trapret forkret t in
      elim o [
        | none ↦ some (t1, fs, none)
        | some np ↦ (do
          parent ← get_elem? t1.proc cur
          child ← get_elem? t1.proc np
          let copied = copyuvm t1.kmem parent.pgdir parent.sz
          (if copied.1 == 0
              then drop_child t1 fs np child copied.0
              else start_child t1 fs cur np parent child copied.1 copied.0))
      ]

-- The body of the second loop of `exit` at entry `i`, if there is one: a child of `cur` goes to
-- `init`, which is woken for a zombie.
abbrev pub abandon_one : (i cur init : ℕ) → Option Proc → List Proc → List Proc
abandon_one i cur init none ps = ps
abandon_one i cur init (some p) ps =
    let moved = modify (λ q. record q { parent = some init }) i ps in
    if is_child cur p
    then (if is_zombie p.state then wakeup1 (on_proc init) moved else moved)
    else ps

-- The loop at entry `i`, with the rounds left.
unfoldable pub abandon : ℕ → (i cur init : ℕ) → List Proc → List Proc
abandon zero i cur init ps = ps
abandon (suc n) i cur init ps =
    abandon n (i + 1) cur init (abandon_one i cur init (get_elem? ps i) ps)

abbrev pub cleared : List (Option ℕ) → List (Option ℕ)
cleared [] = []
cleared (o ∷ os) = none ∷ cleared os

-- What `exit` of process `cur`, which is `p`, makes of the table.
abbrev pub exit_table : (nproc init : ℕ) → List Proc → (cur : ℕ) → Proc → List Proc
exit_table nproc init ps cur p =
    let closed = modify (λ q. record q { ofile = cleared q.ofile; cwd = 0 }) cur ps in
    let woken = wakeup1 (proc_channel p.parent) closed in
    modify (λ q. record q { state = zombie }) cur (abandon nproc 0 cur init woken)

-- `exit` of process `cur`, up to `sched`: `none` is a panic. The rest of the result is what the
-- closes of the files, and then the one of the current directory, go on to.
unfoldable pub exit :
    (nproc init : ℕ)
    → List Proc
    → List File
    → (cur : ℕ) → Option (List Proc × List File × List Behind)
exit nproc init ps fs cur = if cur == init then none else (do
  p ← get_elem? ps cur
  (fs1, bs) ← close_files p.ofile fs
  some (exit_table nproc init ps cur p, fs1, bs ++ (puts_inode p.cwd ∷ [])))

-- The scan of `wait`: whether there are children before the first zombie among them, and its
-- place.
unfoldable pub scan : (i cur : ℕ) → List Proc → Bool × Option ℕ
scan i cur [] = (false, none)
scan i cur (p ∷ ps) =
    let (kids, found) = scan (i + 1) cur ps in
    if is_child cur p
    then (if is_zombie p.state then (true, some i) else (true, found))
    else (kids, found)

-- How `wait` ends: the pid of the child that is reaped, -1, or asleep.
pub data Waited : Type 0 where
  reaped : (pid : ℕ) → Waited
  no_children : Waited
  asleep : Waited

abbrev pub clear_proc : Proc → Proc
clear_proc p = record p {
  kstack = 0;
  pid = 0;
  parent = none;
  name = zero_first p.name;
  killed = false;
  state = unused;
}

module _ (kernel_end : ℕ) (freevm : Kmem → (pgdir : ℕ) → Option Kmem) where
  -- The child at entry `i` gives back its kernel stack and its memory; `none` is a panic.
  abbrev pub reap : Ptable → (i : ℕ) → Option (Ptable × Waited)
  reap t i = do
    p ← get_elem? t.proc i
    m1 ← kfree kernel_end t.kmem p.kstack
    m2 ← freevm m1 p.pgdir
    some (record t { proc = modify clear_proc i t.proc; kmem = m2 }, reaped p.pid)

  abbrev pub wait_scanned :
      Ptable → (cur : ℕ) → (killed : Bool) → Bool × Option ℕ → Option (Ptable × Waited)
  wait_scanned t cur killed (kids, some i) = reap t i
  wait_scanned t cur killed (kids, none) =
      if not kids || killed
      then some (t, no_children)
      else some (
        record t {
          proc = modify (λ p. record p { chan = on_proc cur; state = sleeping }) cur t.proc;
        },
        asleep,
      )

  -- One pass of the loop of `wait` of process `cur`.
  unfoldable pub wait : Ptable → (cur : ℕ) → Option (Ptable × Waited)
  wait t cur = do p ← get_elem? t.proc cur; wait_scanned t cur p.killed (scan 0 cur t.proc)

-- `yield` of process `cur`, up to `sched`.
unfoldable pub yield : List Proc → (cur : ℕ) → List Proc
yield ps cur = modify (λ p. record p { state = runnable }) cur ps

-- `sleep` of process `cur`, up to `sched`, and what it does when it runs again.
unfoldable pub sleep : Channel → List Proc → (cur : ℕ) → List Proc
sleep chan ps cur = modify (λ p. record p { chan = chan; state = sleeping }) cur ps

unfoldable pub after_sleep : List Proc → (cur : ℕ) → List Proc
after_sleep ps cur = modify (λ p. record p { chan = no_channel }) cur ps

abbrev pub is_runnable : ProcState → Bool
is_runnable runnable = true
is_runnable s = false

abbrev pub dispatch_at : List Proc → (i : ℕ) → Option Proc → List Proc × Option ℕ
dispatch_at ps i none = (ps, none)
dispatch_at ps i (some p) =
    if is_runnable p.state
    then (modify (λ q. record q { state = running }) i ps, some i)
    else (ps, none)

-- The round of `scheduler` at entry `i`: the entry runs if it can.
unfoldable pub dispatch : List Proc → (i : ℕ) → List Proc × Option ℕ
dispatch ps i = dispatch_at ps i (get_elem? ps i)
