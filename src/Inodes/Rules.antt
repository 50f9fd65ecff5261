-- ===== src/Inodes/Rules.antt =====
-- What a step does to references, locks and transactions, as a tally; and the rules for chains.
use a3team_os.Base.{
  ℕ, zero, suc, ◌+◌, ◌%◌, ◌^◌, ◌≡◌, Bool, true, false, Option, none, some, List, [], ◌∷◌,
  if◌then◌else◌, arith,
}
use a3team_os.Base.Maybe.{Each, Each-weaken}
use a3team_os.Fs.Inode.{Inode}
use a3team_os.Inodes.{State, Action, pure, panic, chain, ◌>>=◌, if_null}

unfoldable pub hit : ℕ → ℕ → ℕ
hit zero zero = 1
hit zero (suc j) = 0
hit (suc i) zero = 0
hit (suc i) (suc j) = hit i j

abbrev pub count : (j : ℕ) → List ℕ → ℕ
count j [] = 0
count j (i ∷ is) = hit i j + count j is

abbrev pub ref_at : List Inode → ℕ → ℕ
ref_at [] j = 0
ref_at (ip ∷ ips) zero = ip.ref
ref_at (ip ∷ ips) (suc j) = ref_at ips j

-- What has been taken and given back so far.
pub record Tally : Type 0 where
  pub gets : List ℕ
  pub puts : List ℕ
  pub locks : List ℕ
  pub unlocks : List ℕ
  pub begins : ℕ
  pub ends : ℕ

abbrev pub untouched : Tally
untouched = record { gets = []; puts = []; locks = []; unlocks = []; begins = 0; ends = 0 }

abbrev pub gets : ℕ → Tally → Tally
gets i t = record t { gets = i ∷ t.gets }

abbrev pub puts : ℕ → Tally → Tally
puts i t = record t { puts = i ∷ t.puts }

abbrev pub locks : ℕ → Tally → Tally
locks i t = record t { locks = i ∷ t.locks }

abbrev pub unlocks : ℕ → Tally → Tally
unlocks i t = record t { unlocks = i ∷ t.unlocks }

abbrev pub begins : Tally → Tally
begins t = record t { begins = t.begins + 1 }

abbrev pub ends : Tally → Tally
ends t = record t { ends = t.ends + 1 }

-- The counts of references are 32 bits wide.
pub record After (s : State) (t : Tally) (s' : State) : Type 0 where
  pub refs :
      (j : ℕ)
      → (ref_at s'.inodes j + count j t.puts) % 2 ^ 32
        ≡ (ref_at s.inodes j + count j t.gets) % 2 ^ 32
  pub held : (j : ℕ) → count j s'.held + count j t.unlocks ≡ count j s.held + count j t.locks
  pub ops : s'.ops + t.ends ≡ s.ops + t.begins

-- Two tallies with the same balance.
pub record Same (t u : Tally) : Type 0 where
  pub refs : (j : ℕ) → count j t.gets + count j u.puts ≡ count j u.gets + count j t.puts
  pub held : (j : ℕ) → count j t.locks + count j u.unlocks ≡ count j u.locks + count j t.unlocks
  pub ops : t.begins + u.ends ≡ u.begins + t.ends

-- The three balances at every number.
pub even :
    {t u : Tally}
    → ((j : ℕ)
        → (count j t.gets + count j u.puts ≡ count j u.gets + count j t.puts)
          × (count j t.locks + count j u.unlocks ≡ count j u.locks + count j t.unlocks)
          × (t.begins + u.ends ≡ u.begins + t.ends))
    → Same t u
even h = record { refs = λ j. (h j).0; held = λ j. (h j).1; ops = (h 0).2 }

pub After-Same : {s s' : State} {t u : Tally} → Same t u → After s t s' → After s u s'
After-Same same h = record {
  refs = λ j. omega (arith, same.refs j, h.refs j);
  held = λ j. omega (arith, same.held j, h.held j);
  ops = omega (arith, same.ops, h.ops);
}

-- From every state after `t`, the step leads to a state after `Q a`, or has no result.
pub record Does {A : Type 0} (t : Tally) (m : Action A) (Q : A → Tally) : Type 0 where
  pub leads : (s s' : State) → After s t s' → Each (λ r. After s (Q r.0) r.1) (m s')

module _ {A : Type 0} {t : Tally} {Q : A → Tally} where
  pub by-pure : (a : A) → Same t (Q a) → Does t (pure a) Q
  by-pure a same = record { leads = λ s s' h. After-Same same h }

  pub by-panic : Does t panic Q
  by-panic = record { leads = λ s s' h. tt }

  pub by-if : (b : Bool) {m n : Action A} → Does t m Q → Does t n Q → Does t (if b then m else n) Q
  by-if true hm hn = hm
  by-if false hm hn = hn

  pub Does-Same :
      {R : A → Tally} {m : Action A} → ((a : A) → Same (Q a) (R a)) → Does t m Q → Does t m R
  Does-Same {R} {m} same h = record {
    leads = λ s s' after.
        Each-weaken (λ r. After s (Q r.0) r.1) (λ r. After s (R r.0) r.1) (m s')
          (λ r. After-Same (same r.0)) (h.leads s s' after);
  }

  pub by-Same : {u : Tally} {m : Action A} → Same t u → Does u m Q → Does t m Q
  by-Same same h = record { leads = λ s s' after. h.leads s s' (After-Same same after) }

module _ {A B : Type 0} {t : Tally} {R : B → Tally} where
  pub by-null :
      (o : Option A) {m : Action B} {f : A → Action B}
      → Does t m R
      → ((a : A) → Does t (f a) R)
      → Does t (if_null o m f) R
  by-null none hm hf = hm
  by-null (some a) hm hf = hf a

  pub Does-bind :
      {Q : A → Tally} {m : Action A} {f : A → Action B}
      → Does t m Q
      → ((a : A) → Does (Q a) (f a) R)
      → Does t (m >>= f) R
  unfolding ◌>>=◌
  Does-bind {Q} {m} {f} hm hf = record { leads = λ s s' h. next s (m s') (hm.leads s s' h) }
    where
      next :
          (s : State) (o : Option (A × State))
          → Each (λ r. After s (Q r.0) r.1) o
          → Each (λ r. After s (R r.0) r.1) (chain f o)
      next s none h = tt
      next s (some (a, s')) h = (hf a).leads s s' h
