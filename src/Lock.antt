-- ===== src/Lock.antt =====
-- Locks: src/spinlock.c with the nesting of interrupts, and src/sleeplock.c.
--
-- A processor and a lock are records; `none` is a panic. Taking a lock that is held is waiting, which
-- is a result of its own.
pub mod Nesting
mod Tests
use a3team_os.Base.{
  ℕ, zero, suc, ◌+◌, ◌-◌, Bool, true, false, not, ◌&&◌, Option, none, some, ◌==◌, if◌then◌else◌,
}

-- The part of `struct cpu` that the locks use, with the interrupt flag of the processor.
pub record Cpu : Type 0 where
  pub id : ℕ
  pub ncli : ℕ
  pub intena : Bool
  pub interrupts : Bool

-- `struct spinlock`, without what is for debugging only: `cpu` is read by `holding`.
pub record Spinlock : Type 0 where
  pub locked : Bool
  pub cpu : Option ℕ

abbrev pub initlock : Spinlock
initlock = record { locked = false; cpu = none }

unfoldable pub pushcli : Cpu → Cpu
pushcli c = record c {
  interrupts = false;
  intena = if c.ncli == 0 then c.interrupts else c.intena;
  ncli = c.ncli + 1;
}

-- A count that would go below 0 is a panic.
unfoldable pub popcli : Cpu → Option Cpu
popcli c =
    if c.interrupts
    then none
    else if c.ncli == 0
    then none
    else some (record c { ncli = c.ncli - 1; interrupts = (c.ncli - 1 == 0) && c.intena })

abbrev pub is_cpu : Option ℕ → ℕ → Bool
is_cpu none i = false
is_cpu (some j) i = j == i

-- The test of `holding`, between its `pushcli` and its `popcli`.
abbrev pub held_by : Spinlock → Cpu → Bool
held_by l c = l.locked && is_cpu l.cpu c.id

abbrev pub answer : Bool → Option Cpu → Option (Bool × Cpu)
answer b none = none
answer b (some c) = some (b, c)

unfoldable pub holding : Spinlock → Cpu → Option (Bool × Cpu)
holding l c = let c1 = pushcli c in answer (held_by l c1) (popcli c1)

-- How `acquire` goes on after `holding`: it panics, spins, or has the lock.
pub data Acquired : Type 0 where
  panics : Acquired
  spins : Cpu → Acquired
  got : Spinlock → Cpu → Acquired

abbrev pub exchange : Spinlock → Option (Bool × Cpu) → Acquired
exchange l none = panics
exchange l (some (true, c)) = panics
exchange l (some (false, c)) =
    if l.locked then spins c else got (record { locked = true; cpu = some c.id }) c

-- `acquire`, with one round of its loop.
unfoldable pub acquire : Spinlock → Cpu → Acquired
acquire l c = let c1 = pushcli c in exchange l (holding l c1)

abbrev pub free : Option Cpu → Option (Spinlock × Cpu)
free none = none
free (some c) = some (record { locked = false; cpu = none }, c)

abbrev pub let_go : Option (Bool × Cpu) → Option (Spinlock × Cpu)
let_go none = none
let_go (some (false, c)) = none
let_go (some (true, c)) = free (popcli c)

unfoldable pub release : Spinlock → Cpu → Option (Spinlock × Cpu)
release l c = let_go (holding l c)

-- `struct sleeplock`: the process that holds it.
pub record Sleeplock : Type 0 where
  pub locked : Bool
  pub pid : ℕ

abbrev pub initsleeplock : Sleeplock
initsleeplock = record { locked = false; pid = 0 }

-- One pass of the loop of `acquiresleep`: `none` is a sleep, after which the loop starts again.
unfoldable pub acquiresleep : (pid : ℕ) → Sleeplock → Option Sleeplock
acquiresleep pid l = if l.locked then none else some (record { locked = true; pid = pid })

-- The sleepers on the lock are woken.
unfoldable pub releasesleep : Sleeplock → Sleeplock
releasesleep l = record { locked = false; pid = 0 }

unfoldable pub holdingsleep : (pid : ℕ) → Sleeplock → Bool
holdingsleep pid l = l.locked && (l.pid == pid)
