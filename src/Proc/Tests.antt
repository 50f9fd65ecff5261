-- ===== src/Proc/Tests.antt =====
-- The theorems on src/proc.c, applied to a table with an initial process, a parent and a zombie.
use a3team_os.Base.{◌≡◌, refl, arith, false, none, some, List, [], ◌∷◌}
use a3team_os.File.{puts_inode}
use a3team_os.Proc.Alloc.{Takes, allocproc-Takes}
use a3team_os.Proc.{
  unused, allocproc, Proc, Ptable, runnable, running, zombie, no_channel, is_index,
}
use a3team_os.Proc.Lifecycle.{yield, exit, exit_table, close_files, wait}
use a3team_os.Proc.Parents.{state_at, parent_at, adopt}
use a3team_os.Proc.Exit.{exit-adopt}
use a3team_os.Proc.Scheduler.{scheduler_pass, Runs, yield-Leaves, scheduler_pass-dispatches}
use a3team_os.Proc.Wait.{Waits, wait-Waits}

abbrev init_proc : Proc
init_proc = record {
  sz = 4096;
  pgdir = 0;
  kstack = 0;
  state = runnable;
  pid = 1;
  parent = none;
  tf = 0;
  context = 0;
  chan = no_channel;
  killed = false;
  ofile = [];
  cwd = 8;
  name = [];
}

abbrev parent_proc : Proc
parent_proc = record init_proc { state = running; pid = 2; parent = some 0 }

abbrev dead_proc : Proc
dead_proc = record init_proc { state = zombie; pid = 3; parent = some 1; kstack = 0x80200000 }

abbrev procs : List Proc
procs = init_proc ∷ parent_proc ∷ dead_proc ∷ []

abbrev after_exit : List Proc
after_exit = exit_table 16 0 procs 1 parent_proc

exits : exit 16 0 procs [] 1 ≡ some (after_exit, [], puts_inode 8 ∷ [])
unfolding exit close_files
exits = refl

exit-adopt_example :
    (state_at after_exit 1 ≡ some zombie)
    × (parent_at after_exit 2 ≡ adopt 1 0 (parent_at procs 2))
    × (is_index 1 (parent_at after_exit 2) ≡ false)
exit-adopt_example = exit-adopt 16 0 1 procs [] 2 (omega arith) exits

abbrev processes : Ptable
processes = record { proc = procs; nextpid = 4; kmem = record { freelist = 0; mem = λ a. 0 } }

wait-Waits_example :
    Waits 0x80100000
      (λ m pgdir. some m)
      processes
      1
      parent_proc
      (wait 0x80100000 (λ m pgdir. some m) processes 1)
wait-Waits_example = wait-Waits 0x80100000 (λ m pgdir. some m) processes 1 parent_proc refl

-- A table with an unused entry, and one free page.
abbrev with_room : Ptable
with_room = record {
  proc = init_proc ∷ record init_proc { state = unused } ∷ [];
  nextpid = 2;
  kmem = record { freelist = 0x80200000; mem = λ a. 0 };
}

allocproc-Takes_example : Takes with_room (allocproc 0x80105000 0x80104000 with_room)
allocproc-Takes_example = allocproc-Takes 0x80105000 0x80104000 with_room

scheduler_pass-dispatches_example : Runs 0 (scheduler_pass yield 3 0 procs).0
scheduler_pass-dispatches_example =
    scheduler_pass-dispatches yield 0 3 procs (yield-Leaves 0) (omega arith) (init_proc, refl, refl)
