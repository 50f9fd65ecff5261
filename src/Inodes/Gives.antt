-- ===== src/Inodes/Gives.antt =====
-- What holds of the result of a step, whatever the state is.
use a3team_os.Base.{Bool, true, false, Option, none, some, if◌then◌else◌, ◌≡◌, refl}
use a3team_os.Base.Maybe.{Each, Each-weaken}
use a3team_os.Inodes.{State, Action, pure, panic, chain, ◌>>=◌, if_null}

pub record Gives {A : Type 0} (m : Action A) (P : A → Type 0) : Type 0 where
  pub each : (s : State) → Each (λ r. P r.0) (m s)

module _ {A : Type 0} {P : A → Type 0} where
  pub pure-Gives : (a : A) → P a → Gives (pure a) P
  pure-Gives a p = record { each = λ s. p }

  pub panic-Gives : Gives panic P
  panic-Gives = record { each = λ s. tt }

  pub Gives-weaken : {Q : A → Type 0} {m : Action A} → ((a : A) → P a → Q a) → Gives m P → Gives m Q
  Gives-weaken {Q} {m} implies h = record {
    each = λ s. Each-weaken (λ r. P r.0) (λ r. Q r.0) (m s) (λ r. implies r.0) (h.each s);
  }

  -- The branch knows its test.
  pub if-Gives :
      (b : Bool) {m n : Action A}
      → (b ≡ true → Gives m P)
      → (b ≡ false → Gives n P)
      → Gives (if b then m else n) P
  if-Gives true hm hn = hm refl
  if-Gives false hm hn = hn refl

module _ {A B : Type 0} {P : B → Type 0} where
  pub null-Gives :
      (o : Option A) {m : Action B} {f : A → Action B}
      → Gives m P
      → ((a : A) → Gives (f a) P)
      → Gives (if_null o m f) P
  null-Gives none hm hf = hm
  null-Gives (some a) hm hf = hf a

  -- What holds of the first result is known of the second.
  pub bind-Gives :
      {Q : A → Type 0} {m : Action A} {f : A → Action B}
      → Gives m Q
      → ((a : A) → Q a → Gives (f a) P)
      → Gives (m >>= f) P
  unfolding ◌>>=◌
  bind-Gives {Q} {m} {f} hm hf = record { each = λ s. next (m s) (hm.each s) }
    where
      next : (o : Option (A × State)) → Each (λ r. Q r.0) o → Each (λ r. P r.0) (chain f o)
      next none h = tt
      next (some (a, s)) h = (hf a h).each s

pub any-Gives : {A : Type 0} (m : Action A) → Gives m (λ a. Unit {0})
any-Gives {A} m = record { each = λ s. always (m s) }
  where
    always : (o : Option (A × State)) → Each (λ r. Unit {0}) o
    always none = tt
    always (some r) = tt
