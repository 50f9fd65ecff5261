-- ===== src/Proc/Parents.antt =====
-- The parents of the processes through the steps of `exit`.
use a3team_os.Base.{
  ℕ, zero, suc, ◌+◌, ◌≤◌, ◌<◌, ◌≡◌, ◌≢◌, refl, sym, ◌∙◌, ap, Bool, true, false, ◌&&◌, Option, none,
  some, List, [], ◌∷◌, arith, ◌==◌, ltb, leb, dec_lt, ℕ_discrete, ==-ne, ==-refl, if◌then◌else◌,
  length, get_elem?, Bool-cases, Option-cases, inl, inr,
}
use a3team_os.Proc.{
  ProcState, Channel, on_proc, Proc, zombie, Proc, is_zombie, is_child, is_index, wakeup1, modify,
  runnable,
}
use a3team_os.Proc.Lifecycle.{abandon, abandon_one}

-- The parent of entry `i`.
abbrev pub parent_at : List Proc → ℕ → Option ℕ
parent_at [] i = none
parent_at (p ∷ ps) zero = p.parent
parent_at (p ∷ ps) (suc i) = parent_at ps i

pub wake-parent :
    (b : Bool) (p : Proc) → (if b then record p { state = runnable } else p).parent ≡ p.parent
wake-parent true p = refl
wake-parent false p = refl

pub parent_at-wakeup1 :
    (c : Channel) (ps : List Proc) (i : ℕ) → parent_at (wakeup1 c ps) i ≡ parent_at ps i
unfolding wakeup1
parent_at-wakeup1 c [] i = refl
parent_at-wakeup1 c (p ∷ ps) zero = wake-parent _ p
parent_at-wakeup1 c (p ∷ ps) (suc i) = parent_at-wakeup1 c ps i

-- A change of entry `j` that leaves its parent alone.
pub parent_at-modify :
    (f : Proc → Proc) (j : ℕ) (ps : List Proc) (i : ℕ)
    → ((p : Proc) → (f p).parent ≡ p.parent)
    → parent_at (modify f j ps) i ≡ parent_at ps i
parent_at-modify f j [] i same = refl
parent_at-modify f zero (p ∷ ps) zero same = same p
parent_at-modify f zero (p ∷ ps) (suc i) same = refl
parent_at-modify f (suc j) (p ∷ ps) zero same = refl
parent_at-modify f (suc j) (p ∷ ps) (suc i) same = parent_at-modify f j ps i same

pub parent_at-moved :
    (a : ℕ) (ps : List Proc) (j i : ℕ) {p : Proc}
    → get_elem? ps j ≡ some p
    → parent_at (modify (λ q. record q { parent = some a }) j ps) i
      ≡ (if i == j then some a else parent_at ps i)
parent_at-moved a [] j i e = cc
parent_at-moved a (q ∷ ps) zero zero e = refl
parent_at-moved a (q ∷ ps) zero (suc i) e = ground arith
parent_at-moved a (q ∷ ps) (suc j) zero e = ground arith
parent_at-moved a (q ∷ ps) (suc j) (suc i) e = ground (arith, parent_at-moved a ps j i e)

pub get_elem?-parent_at :
    (ps : List Proc) (j : ℕ) {p : Proc} → get_elem? ps j ≡ some p → p.parent ≡ parent_at ps j
get_elem?-parent_at [] j e = cc
get_elem?-parent_at (q ∷ ps) zero {p} e =
    let same : q ≡ p = cc in ap (λ (r : Proc). r.parent) (sym same)
get_elem?-parent_at (q ∷ ps) (suc j) e = get_elem?-parent_at ps j e

pub no_elem-parent_at :
    (ps : List Proc) (i j : ℕ) → get_elem? ps i ≡ none → i ≤ j → parent_at ps j ≡ none
no_elem-parent_at [] i j e h = refl
no_elem-parent_at (q ∷ ps) zero j e h = cc
no_elem-parent_at (q ∷ ps) (suc i) zero e h = absurd (omega arith)
no_elem-parent_at (q ∷ ps) (suc i) (suc j) e h = no_elem-parent_at ps i j e (omega arith)

-- The parent of a process when `cur` has left its children to `init`.
abbrev pub adopt : (cur init : ℕ) → Option ℕ → Option ℕ
adopt cur init none = none
adopt cur init (some p) = if p == cur then some init else some p

pub child-adopt :
    (cur init : ℕ) (o : Option ℕ) → is_index cur o ≡ true → adopt cur init o ≡ some init
child-adopt cur init none e = cc
child-adopt cur init (some q) e = rw e

pub other-adopt : (cur init : ℕ) (o : Option ℕ) → is_index cur o ≡ false → adopt cur init o ≡ o
other-adopt cur init none e = refl
other-adopt cur init (some q) e = rw e

pub abandon_one-parent :
    (cur init i j : ℕ) (p : Proc) (ps : List Proc)
    → get_elem? ps i ≡ some p
    → parent_at (abandon_one i cur init (some p) ps) j
      ≡ (if j == i then adopt cur init (parent_at ps j) else parent_at ps j)
abandon_one-parent cur init i j p ps at = elim (Bool-cases (is_child cur p)) [
  | inr other ↦ rw other (elim (ℕ_discrete j i) [
    | yes e ↦
        rw (e, ==-refl i, ← get_elem?-parent_at ps i at) (sym (other-adopt cur init p.parent other))
    | no ne ↦ rw (==-ne j i ne)
  ])
  | inl child ↦ rw child (
      woken-parent (is_zombie p.state) (modify (λ q. record q { parent = some init }) i ps)
      ∙ parent_at-moved init ps i j at
      ∙ elim (ℕ_discrete j i) [
        | yes e ↦
            rw (e, ==-refl i, ← get_elem?-parent_at ps i at)
              (sym (child-adopt cur init p.parent child))
        | no ne ↦ rw (==-ne j i ne)
      ])
]
  where
    woken-parent :
        (b : Bool) (qs : List Proc)
        → parent_at (if b then wakeup1 (on_proc init) qs else qs) j ≡ parent_at qs j
    woken-parent true qs = parent_at-wakeup1 (on_proc init) qs j
    woken-parent false qs = refl

pub abandon-parent :
    (n i cur init : ℕ) (ps : List Proc) (j : ℕ)
    → parent_at (abandon n i cur init ps) j
      ≡ (if leb i j && ltb j (i + n) then adopt cur init (parent_at ps j) else parent_at ps j)
unfolding abandon
abandon-parent zero i cur init ps j = ground arith
abandon-parent (suc n) i cur init ps j =
    abandon-parent n (i + 1) cur init (abandon_one i cur init (get_elem? ps i) ps) j
    ∙ elim (Option-cases (get_elem? ps i)) [
      | inl out ↦ rw out (past (no_elem-parent_at ps i j out))
      | inr (p, at) ↦ rw (at, abandon_one-parent cur init i j p ps at) (step (parent_at ps j))
    ]
  where
    past :
        (i ≤ j → parent_at ps j ≡ none)
        → (if leb (i + 1) j && ltb j (i + 1 + n)
            then adopt cur init (parent_at ps j)
            else parent_at ps j)
          ≡ (if leb i j && ltb j (i + suc n)
              then adopt cur init (parent_at ps j)
              else parent_at ps j)
    past h = elim (dec_lt j i) [
      | yes low ↦ ground arith
      | no high ↦ rw (h (omega arith)) (ground arith)
    ]

    step :
        (o : Option ℕ)
        → (if leb (i + 1) j && ltb j (i + 1 + n)
            then adopt cur init (if j == i then adopt cur init o else o)
            else (if j == i then adopt cur init o else o))
          ≡ (if leb i j && ltb j (i + suc n) then adopt cur init o else o)
    step o = ground arith

abbrev pub state_at : List Proc → ℕ → Option ProcState
state_at [] i = none
state_at (p ∷ ps) zero = some p.state
state_at (p ∷ ps) (suc i) = state_at ps i

pub adopt-no_child :
    (cur init : ℕ) (o : Option ℕ) → cur ≢ init → is_index cur (adopt cur init o) ≡ false
adopt-no_child cur init none ne = refl
adopt-no_child cur init (some p) ne = ground arith

pub length-modify : (f : Proc → Proc) (j : ℕ) (ps : List Proc) → length (modify f j ps) ≡ length ps
length-modify f j [] = refl
length-modify f zero (p ∷ ps) = refl
length-modify f (suc j) (p ∷ ps) = ap suc (length-modify f j ps)

pub length-wakeup1 : (c : Channel) (ps : List Proc) → length (wakeup1 c ps) ≡ length ps
unfolding wakeup1
length-wakeup1 c [] = refl
length-wakeup1 c (p ∷ ps) = ap suc (length-wakeup1 c ps)

pub length-abandon_one :
    (i cur init : ℕ) (o : Option Proc) (ps : List Proc)
    → length (abandon_one i cur init o ps) ≡ length ps
length-abandon_one i cur init none ps = refl
length-abandon_one i cur init (some p) ps = choose (is_child cur p) (is_zombie p.state)
  where
    moved : List Proc
    moved = modify (λ q. record q { parent = some init }) i ps

    choose :
        (b z : Bool)
        → length (if b then (if z then wakeup1 (on_proc init) moved else moved) else ps) ≡ length ps
    choose false z = refl
    choose true true = length-wakeup1 (on_proc init) moved ∙ length-modify _ i ps
    choose true false = length-modify _ i ps

pub length-abandon :
    (n i cur init : ℕ) (ps : List Proc) → length (abandon n i cur init ps) ≡ length ps
unfolding abandon
length-abandon zero i cur init ps = refl
length-abandon (suc n) i cur init ps =
    length-abandon n (i + 1) cur init _ ∙ length-abandon_one i cur init (get_elem? ps i) ps

pub state_at-zombie :
    (i : ℕ) (ps : List Proc)
    → i < length ps
    → state_at (modify (λ q. record q { state = zombie }) i ps) i ≡ some zombie
state_at-zombie i [] h = absurd (omega arith)
state_at-zombie zero (p ∷ ps) h = refl
state_at-zombie (suc i) (p ∷ ps) h = state_at-zombie i ps (omega arith)

pub parent_at-far : (ps : List Proc) (j : ℕ) → length ps ≤ j → parent_at ps j ≡ none
parent_at-far [] j h = refl
parent_at-far (p ∷ ps) zero h = absurd (omega arith)
parent_at-far (p ∷ ps) (suc j) h = parent_at-far ps j (omega arith)
