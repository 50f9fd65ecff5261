-- ===== src/Base/Maybe.antt =====
-- Chains of results that may be missing, and what holds of a result if there is one.
use mathlib.Core.Bool.{Bool, true, false}
use mathlib.Core.Option.{Option, none, some}
use a3team_os.Base.Tests.{if◌then◌else◌}

infixl 5 ◌>>=◌
abbrev pub ◌>>=◌ {ℓ κ} : {A : Type ℓ} {B : Type κ} → Option A → (A → Option B) → Option B
none >>= f = none
some a >>= f = f a

abbrev pub Each {ℓ κ} : {A : Type ℓ} → (A → Type κ) → Option A → Type κ
Each P none = Unit
Each P (some a) = P a

pub Each-bind {ℓ κ ℓ' κ'} :
    {A : Type ℓ} {B : Type κ} (P : A → Type ℓ') (Q : B → Type κ') (o : Option A) (f : A → Option B)
    → Each P o
    → ((a : A) → P a → Each Q (f a))
    → Each Q (o >>= f)
Each-bind P Q none f h next = tt
Each-bind P Q (some a) f h next = next a h

pub Each-if {ℓ κ} :
    {A : Type ℓ} (P : A → Type κ) (b : Bool) (o p : Option A)
    → Each P o
    → Each P p
    → Each P (if b then o else p)
Each-if P true o p ho hp = ho
Each-if P false o p ho hp = hp

-- Whatever the first result was.
pub Each-then {ℓ κ ℓ'} :
    {A : Type ℓ} {B : Type κ} (Q : B → Type ℓ') (o : Option A) (f : A → Option B)
    → ((a : A) → Each Q (f a))
    → Each Q (o >>= f)
Each-then Q none f next = tt
Each-then Q (some a) f next = next a

pub Each-weaken {ℓ κ κ'} :
    {A : Type ℓ} (P : A → Type κ) (Q : A → Type κ') (o : Option A)
    → ((a : A) → P a → Q a)
    → Each P o
    → Each Q o
Each-weaken P Q none implies h = tt
Each-weaken P Q (some a) implies h = implies a h
