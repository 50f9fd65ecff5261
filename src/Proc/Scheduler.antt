-- ===== src/Proc/Scheduler.antt =====
-- The loops of `scheduler`, and the tests of `sched`, in src/proc.c.
--
-- What a process does from `swtch` on until it is back in the scheduler, with all that happens while
-- it does not hold the lock, is the parameter `run`.
use a3team_os.Base.{
  ◌∙◌, ℕ, zero, suc, ◌+◌, ◌≤◌, ◌<◌, ◌≡◌, ◌≢◌, ◌⊎◌, refl, sym, ap, Bool, true, false, not, Option,
  none, some, List, [], ◌∷◌, ◌==◌, arith, get_elem?, if◌then◌else◌, Bool-cases, inl, inr,
  ℕ_discrete, subst,
}
use a3team_os.Lock.{Cpu, Spinlock, holding}
use a3team_os.Proc.{Proc, ProcState, running, modify}
use a3team_os.Proc.Lifecycle.{is_runnable, dispatch, dispatch_at, yield}

module _ (run : List Proc → (i : ℕ) → List Proc) where
  -- The entries that have run, in order, and the table.
  abbrev pub Pass : Type 0
  Pass = List ℕ × List Proc

  abbrev pub ran : ℕ → Pass → Pass
  ran i (is, ps) = (i ∷ is, ps)

  abbrev pub go_on : (List Proc → Pass) → List Proc × Option ℕ → Pass
  go_on next (ps, none) = next ps
  go_on next (ps, some i) = ran i (next (run ps i))

  -- `for (p = ptable.proc; p < &ptable.proc[NPROC]; p++)` from entry `i` on, with the rounds left.
  unfoldable pub scheduler_pass : (rounds i : ℕ) → List Proc → Pass
  scheduler_pass zero i ps = ([], ps)
  scheduler_pass (suc n) i ps = go_on (scheduler_pass n (i + 1)) (dispatch ps i)

abbrev pub is_running : ProcState → Bool
is_running running = true
is_running s = false

-- `sched` up to `swtch`: the interrupts to restore afterwards, or `none` for a panic. `lk` is the lock
-- of the table.
abbrev pub may_switch : Proc → Option (Bool × Cpu) → Option Bool
may_switch p none = none
may_switch p (some (held, c)) =
    if not held
    then none
    else if not (c.ncli == 1)
    then none
    else if is_running p.state
    then none
    else if c.interrupts
    then none
    else some c.intena

unfoldable pub sched : Spinlock → Cpu → Proc → Option Bool
sched lk c p = may_switch p (holding lk c)

-- Entry `j` can run.
abbrev pub Ready : ℕ → List Proc → Type 0
Ready j ps = (p : Proc) × (get_elem? ps j ≡ some p) × (is_runnable p.state ≡ true)

abbrev pub Runs : ℕ → List ℕ → Type 0
Runs j [] = ⊥
Runs j (i ∷ is) = (i ≡ j) ⊎ Runs j is

-- A process that runs does not keep entry `j` from running.
abbrev pub Leaves : (List Proc → ℕ → List Proc) → ℕ → Type 0
Leaves run j = (ps : List Proc) (i : ℕ) → i ≢ j → Ready j ps → Ready j (run ps i)

pub get_elem?-modify_ne :
    (f : Proc → Proc) (i j : ℕ) (ps : List Proc)
    → i ≢ j
    → get_elem? (modify f i ps) j ≡ get_elem? ps j
get_elem?-modify_ne f i j [] ne = refl
get_elem?-modify_ne f zero zero (p ∷ ps) ne = absurd (ne refl)
get_elem?-modify_ne f zero (suc j) (p ∷ ps) ne = refl
get_elem?-modify_ne f (suc i) zero (p ∷ ps) ne = refl
get_elem?-modify_ne f (suc i) (suc j) (p ∷ ps) ne =
    get_elem?-modify_ne f i j ps (λ e. ne (ap suc e))

modify-Leaves : (f : Proc → Proc) (j : ℕ) → Leaves (λ ps i. modify f i ps) j
modify-Leaves f j ps i ne (p, at, can) = (p, get_elem?-modify_ne f i j ps ne ∙ at, can)

pub yield-Leaves : (j : ℕ) → Leaves yield j
unfolding yield
yield-Leaves j = modify-Leaves _ j

some_injective : {i j : ℕ} → some i ≡ some j → i ≡ j
some_injective e = cc

-- At its own entry the loop runs it.
dispatch-own : (j : ℕ) (ps : List Proc) → Ready j ps → (dispatch ps j).1 ≡ some j
unfolding dispatch
dispatch-own j ps (p, at, can) = rw (at, can) refl

module _ (run : List Proc → (i : ℕ) → List Proc) (j : ℕ) (leaves : Leaves run j) where
  go_on-Runs :
      (next : List Proc → Pass run) (d : List Proc × Option ℕ)
      → d.1 ≡ some j
      → Runs j (go_on run next d).0
  go_on-Runs next (ps, none) e = cc
  go_on-Runs next (ps, some i) e = inl (some_injective e)

  -- Entry `j` can still run behind another entry.
  go_on-Ready :
      (i : ℕ) (next : List Proc → Pass run) (ps : List Proc)
      → i ≢ j
      → Ready j ps
      → ((qs : List Proc) → Ready j qs → Runs j (next qs).0)
      → Runs j (go_on run next (dispatch ps i)).0
  unfolding dispatch
  go_on-Ready i next ps ne can later = go_at (get_elem? ps i)
    where
      go_at : (o : Option Proc) → Runs j (go_on run next (dispatch_at ps i o)).0
      go_at none = later ps can
      go_at (some q) = elim (Bool-cases (is_runnable q.state)) [
        | inr waits ↦ rw waits (later ps can)
        | inl runs ↦ rw runs (
            inr (
              later _
                (leaves _ i ne (modify-Leaves (λ q. record q { state = running }) j ps i ne can))))
      ]

  scheduler_pass-Runs :
      (n i : ℕ) (ps : List Proc)
      → i ≤ j
      → j < i + n
      → Ready j ps
      → Runs j (scheduler_pass run n i ps).0
  unfolding scheduler_pass
  scheduler_pass-Runs zero i ps low high can = absurd (omega (arith, low, high))
  scheduler_pass-Runs (suc n) i ps low high can = elim (ℕ_discrete i j) [
    | yes same ↦
        go_on-Runs (scheduler_pass run n (i + 1)) (dispatch ps i)
          (subst (λ z. (dispatch ps z).1 ≡ some j) (sym same) (dispatch-own j ps can))
    | no other ↦ go_on-Ready i (scheduler_pass run n (i + 1)) ps other can (λ qs can'.
        scheduler_pass-Runs n (i + 1) qs (omega (arith, low, other)) (omega (arith, high)) can')
  ]

-- An entry below `nproc` that can run when a processor begins a pass of its scheduler over `nproc`
-- entries runs in that pass, if no other process that runs in the meantime keeps it from running.
pub scheduler_pass-dispatches :
    (run : List Proc → (i : ℕ) → List Proc) (j nproc : ℕ) (ps : List Proc)
    → Leaves run j
    → j < nproc
    → Ready j ps
    → Runs j (scheduler_pass run nproc 0 ps).0
scheduler_pass-dispatches run j nproc ps leaves low can =
    scheduler_pass-Runs run j leaves nproc 0 ps (omega arith) (omega (arith, low)) can
