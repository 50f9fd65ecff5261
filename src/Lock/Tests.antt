-- ===== src/Lock/Tests.antt =====
-- The theorems on src/spinlock.c, applied.
use a3team_os.Base.{◌≡◌, arith, true, false, some}
use a3team_os.Lock.{Cpu, Spinlock, initlock, held_by, acquire, release, got}
use a3team_os.Lock.Nesting.{IsCpu, Same, release-acquire}

-- A processor with interrupts on, outside every nest.
abbrev awake : Cpu
awake = record { id = 1; ncli = 0; intena = false; interrupts = true }

awake-IsCpu : IsCpu awake
awake-IsCpu = record { off = λ h. absurd (omega arith) }

release-acquire_example :
    (l : Spinlock) × (d : Cpu) × (e : Cpu) × (acquire initlock awake ≡ got l d)
    × (d.interrupts ≡ false)
    × (held_by l d ≡ true)
    × (release l d ≡ some (initlock, e))
    × Same awake e
release-acquire_example = release-acquire awake awake-IsCpu
