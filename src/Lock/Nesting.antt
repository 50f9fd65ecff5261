-- ===== src/Lock/Nesting.antt =====
-- Interrupts stay off while a spin lock is held, and come back as they were.
use a3team_os.Base.{
  ◌+◌, ◌-◌, ◌<◌, ◌≡◌, refl, true, false, some, arith, ◌==◌, if◌then◌else◌, ==-refl, ap, Bool-cases,
  inl, inr,
}
use a3team_os.Lock.{
  Cpu, Spinlock, initlock, pushcli, popcli, held_by, holding, panics, got, acquire, release,
}

-- Interrupts are off inside a nest, and on or off as wanted outside.
pub record IsCpu (c : Cpu) : Type 0 where
  pub off : 0 < c.ncli → c.interrupts ≡ false

-- The flag that `popcli` restores is a variable of its own only inside a nest.
abbrev pub Same : Cpu → Cpu → Type 0
Same c d =
    (d.id ≡ c.id)
    × (d.ncli ≡ c.ncli)
    × (d.interrupts ≡ c.interrupts)
    × (0 < c.ncli → d.intena ≡ c.intena)

-- One `popcli` undoes one `pushcli`.
abbrev inner : Cpu → Cpu
inner c = record c { intena = if c.ncli == 0 then c.interrupts else c.intena }

popcli-pushcli : (c : Cpu) → IsCpu c → popcli (pushcli c) ≡ some (inner c)
unfolding popcli pushcli
popcli-pushcli c v =
    let deep : (c.ncli + 1 == 0) ≡ false = ground arith in
    let back : c.ncli + 1 - 1 ≡ c.ncli = omega arith in
    rw (deep, back)
      (ap some (elim (Bool-cases (c.ncli == 0)) [
        | inl zero_deep ↦ rw zero_deep
        | inr nested ↦ let dark : c.interrupts ≡ false = v.off (ground arith) in rw (nested, dark)
      ]))

pushcli-IsCpu : (c : Cpu) → IsCpu (pushcli c)
unfolding pushcli
pushcli-IsCpu c = record { off = λ h. refl }

inner-pushcli : (c : Cpu) → inner (pushcli c) ≡ pushcli c
unfolding pushcli
inner-pushcli c = let deep : (c.ncli + 1 == 0) ≡ false = ground arith in rw deep

holding_lem :
    (l : Spinlock) (c : Cpu) → IsCpu c → holding l c ≡ some (held_by l (pushcli c), inner c)
unfolding holding
holding_lem l c v = rw (popcli-pushcli c v)

-- The lock that a processor has taken.
abbrev taken : Cpu → Spinlock
taken c = record { locked = true; cpu = some (pushcli c).id }

pushcli-off : (c : Cpu) → (pushcli c).interrupts ≡ false
unfolding pushcli
pushcli-off c = refl

taken-held : (c : Cpu) → held_by (taken c) (pushcli c) ≡ true
taken-held c = rw (==-refl (pushcli c).id)

release-taken : (c : Cpu) → IsCpu c → release (taken c) (pushcli c) ≡ some (initlock, inner c)
unfolding release pushcli
release-taken c v =
    let held : held_by (taken c) (pushcli (pushcli c)) ≡ true = taken-held (pushcli c) in
    rw (
      holding_lem (taken c) (pushcli c) (pushcli-IsCpu c),
      held,
      inner-pushcli c,
      popcli-pushcli c v,
    )

Same-inner : (c : Cpu) → Same c (inner c)
Same-inner c = (refl, refl, refl, (λ h. ground arith))

-- On a processor whose interrupts are off whenever it is in the nest (`IsCpu`), a free lock is taken,
-- with interrupts off. `release` then frees it, and leaves the processor as it
-- was: as deep in the nest, with the same interrupts, and the same ones to restore.
pub release-acquire :
    (c : Cpu)
    → IsCpu c
    → (l : Spinlock) × (d : Cpu) × (e : Cpu) × (acquire initlock c ≡ got l d)
      × (d.interrupts ≡ false)
      × (held_by l d ≡ true)
      × (release l d ≡ some (initlock, e))
      × Same c e
unfolding acquire
release-acquire c v =
    let ask = holding_lem initlock (pushcli c) (pushcli-IsCpu c) in
    rw (ask, inner-pushcli c)
      (
        taken c,
        pushcli c,
        inner c,
        refl,
        pushcli-off c,
        taken-held c,
        release-taken c v,
        Same-inner c,
      )

-- The processor that holds a lock panics when it takes it again, instead of waiting for ever.
pub acquire_twice : (l : Spinlock) (c : Cpu) → IsCpu c → held_by l c ≡ true → acquire l c ≡ panics
unfolding acquire pushcli
acquire_twice l c v held = rw (holding_lem l (pushcli c) (pushcli-IsCpu c)) (rw still_held)
  where
    still_held : held_by l (pushcli (pushcli c)) ≡ true
    still_held = held
