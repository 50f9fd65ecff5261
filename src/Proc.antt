-- ===== src/Proc.antt =====
-- The process table, src/proc.c.
--
-- A `struct proc *` is the index of its entry, and the address 0 is `none`. Each function runs under
-- `ptable.lock` as one step; where it ends in `sched` or in `sleep`, the process has left the
-- processor with the state given. The trap frame and the context of a process lie in its kernel
-- stack, in the memory of the page allocator. `trapret`, `forkret` are the addresses of assembly
-- code, `kernel_end` comes from the linker.
pub mod Lifecycle
pub mod Alloc
pub mod Wait
pub mod Parents
pub mod Exit
pub mod Scheduler
mod Tests
use a3team_os.Base.{
  ℕ, zero, suc, ◌+◌, ◌-◌, ◌*◌, ◌%◌, ◌^◌, ◌<◌, Bool, true, false, not, ◌&&◌, ◌||◌, Option, none,
  some, List, [], ◌∷◌, ◌==◌, ltb, if◌then◌else◌, get_elem?, set,
}
use a3team_os.Base.Maybe.{◌>>=◌}
use a3team_os.Memory.{Mem, store32, memset, memmove}
use a3team_os.Kalloc.{Kmem, kalloc, kfree}
use a3team_os.File.{File, filedup, fileclose, Behind, puts_inode, nothing}

pub data ProcState : Type 0 where
  unused : ProcState
  embryo : ProcState
  sleeping : ProcState
  runnable : ProcState
  running : ProcState
  zombie : ProcState

-- What a process sleeps on: an address, here the entry of a process, or another one.
pub data Channel : Type 0 where
  no_channel : Channel
  on_proc : ℕ → Channel
  on_address : ℕ → Channel

-- `struct proc`. `ofile` has the indices of the open files.
pub record Proc : Type 0 where
  pub sz : ℕ
  pub pgdir : ℕ
  pub kstack : ℕ
  pub state : ProcState
  pub pid : ℕ
  pub parent : Option ℕ
  pub tf : ℕ
  pub context : ℕ
  pub chan : Channel
  pub killed : Bool
  pub ofile : List (Option ℕ)
  pub cwd : ℕ
  pub name : List ℕ

-- `ptable` and `nextpid`, with the page allocator.
pub record Ptable : Type 0 where
  pub proc : List Proc
  pub nextpid : ℕ
  pub kmem : Kmem

abbrev pub is_unused : ProcState → Bool
is_unused unused = true
is_unused s = false

abbrev pub is_sleeping : ProcState → Bool
is_sleeping sleeping = true
is_sleeping s = false

abbrev pub is_zombie : ProcState → Bool
is_zombie zombie = true
is_zombie s = false

abbrev pub same_channel : Channel → Channel → Bool
same_channel no_channel no_channel = true
same_channel (on_proc p) (on_proc q) = p == q
same_channel (on_address a) (on_address b) = a == b
same_channel c d = false

abbrev pub is_index : (i : ℕ) → Option ℕ → Bool
is_index i none = false
is_index i (some j) = j == i

abbrev pub is_child : (parent : ℕ) → Proc → Bool
is_child i p = is_index i p.parent

abbrev pub proc_channel : Option ℕ → Channel
proc_channel none = no_channel
proc_channel (some p) = on_proc p

unfoldable pub wakeup1 : Channel → List Proc → List Proc
wakeup1 chan [] = []
wakeup1 chan (p ∷ ps) =
    (if is_sleeping p.state && same_channel p.chan chan then record p { state = runnable } else p)
    ∷ wakeup1 chan ps

-- `kill`: the entries after it, and whether there is a process with the pid.
unfoldable pub kill : (pid : ℕ) → List Proc → List Proc × Bool
kill pid [] = ([], false)
kill pid (p ∷ ps) =
    let (ps', found) = kill pid ps in
    if p.pid == pid
    then (
      record p { killed = true; state = if is_sleeping p.state then runnable else p.state } ∷ ps,
      true,
    )
    else (p ∷ ps', found)

-- The first unused entry, from entry `i` on.
unfoldable pub find_unused : (i : ℕ) → List Proc → Option ℕ
find_unused i [] = none
find_unused i (p ∷ ps) =
    let rest = find_unused (i + 1) ps in if is_unused p.state then some i else rest

abbrev pub modify : (Proc → Proc) → ℕ → List Proc → List Proc
modify f i [] = []
modify f zero (p ∷ ps) = f p ∷ ps
modify f (suc i) (p ∷ ps) = p ∷ modify f i ps

abbrev pub kstacksize : ℕ
kstacksize = 4096

-- The sizes of `struct trapframe` and `struct context`.
abbrev pub trapframe_size : ℕ
trapframe_size = 76

abbrev pub context_size : ℕ
context_size = 20

module _ (trapret forkret : ℕ) where
  -- The kernel stack from `sp` down: the trap frame, the address to return to, and the context,
  -- whose last word is `eip`.
  abbrev pub stack_words : Mem → (kstack : ℕ) → Mem
  stack_words m kstack =
      let tf = kstack + kstacksize - trapframe_size in
      let context = tf - 4 - context_size in
      store32 (memset (store32 m (tf - 4) trapret) context 0 context_size) (context + 16) forkret

  -- Entry `i` is taken, and gives its place back when there is no page for its kernel stack.
  abbrev pub take_proc : Ptable → Option ℕ → Ptable × Option ℕ
  take_proc t none = (t, none)
  take_proc t (some i) =
      let (kmem, kstack) = kalloc t.kmem in
      let pid = t.nextpid in
      let tf = kstack + kstacksize - trapframe_size in
      if kstack == 0
      then (
        record {
          proc = modify (λ p. record p { state = unused; pid = pid; kstack = kstack }) i t.proc;
          nextpid = (pid + 1) % 2 ^ 32;
          kmem = kmem;
        },
        none,
      )
      else (
        record {
          proc =
              modify
                (λ p. record p {
                  state = embryo;
                  pid = pid;
                  kstack = kstack;
                  tf = tf;
                  context = tf - 4 - context_size;
                })
                i t.proc;
          nextpid = (pid + 1) % 2 ^ 32;
          kmem = record kmem { mem = stack_words kmem.mem kstack };
        },
        some i,
      )

  unfoldable pub allocproc : Ptable → Ptable × Option ℕ
  allocproc t = take_proc t (find_unused 0 t.proc)
