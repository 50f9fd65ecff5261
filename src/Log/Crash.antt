-- ===== src/Log/Crash.antt =====
-- A crash in the middle of a commit, and the recovery after it.
use a3team_os.Base.{
  Bool-cases, ℕ, zero, suc, ◌+◌, ◌≤◌, ◌≡◌, refl, ap, Bool, true, false, ◌||◌, List, [], ◌∷◌, ◌++◌,
  arith, ◌==◌, if◌then◌else◌, length, take, inl, inr,
}
use a3team_os.Log.Disk.{Image, update, Store, apply, Within, Within-take, apply-elsewhere}
use a3team_os.Log.{Log, recover_from_log}
use a3team_os.Log.Head.{numbers}
use a3team_os.Log.Trace.{log_writes, home_writes, All, home_writes-Within}

abbrev pub member : ℕ → List ℕ → Bool
member b [] = false
member b (x ∷ xs) = (b == x) || member b xs

pub home_writes_lem :
    (c m : Image) (bs : List ℕ) (b : ℕ)
    → apply m (home_writes c bs) b ≡ (if member b bs then c b else m b)
home_writes_lem c m [] b = refl
home_writes_lem c m (x ∷ bs) b = ground (arith, home_writes_lem c (update m x (c x)) bs b)

pub home_writes-Member :
    (c : Image) (bs all : List ℕ)
    → All (λ b. member b all ≡ true) bs
    → Within (λ b. member b all ≡ true) (home_writes c bs)
home_writes-Member c bs all h = home_writes-Within (λ b. member b all ≡ true) c bs h

member-later :
    (x : ℕ) (bs all : List ℕ)
    → All (λ b. member b all ≡ true) bs
    → All (λ b. member b (x ∷ all) ≡ true) bs
member-later x [] all h = tt
member-later x (b ∷ bs) all h = (ground (arith, h.0), member-later x bs all h.1)

pub members : (bs : List ℕ) → All (λ b. member b bs ≡ true) bs
members [] = tt
members (b ∷ bs) = (ground arith, member-later b bs bs (members bs))

-- Whether or not an installation ran to its end, another one completes it.
pub install_again :
    (c m : Image) (bs : List ℕ) (i b : ℕ)
    → (if member b bs then c b else apply m (take i (home_writes c bs)) b)
      ≡ (if member b bs then c b else m b)
install_again c m bs i b = elim (Bool-cases (member b bs)) [
  | inl y ↦ rw y
  | inr n ↦ rw n (
      apply-elsewhere (λ x. member x bs ≡ true) m _ b
        (Within-take _ i _ (home_writes-Member c bs bs (members bs))) (λ y. cc))
]

pub take-before {ℓ} :
    {A : Type ℓ} (j : ℕ) (xs ys : List A) → j ≤ length xs → take j (xs ++ ys) ≡ take j xs
take-before zero xs ys h = refl
take-before (suc j) [] ys h = absurd (omega arith)
take-before (suc j) (x ∷ xs) ys h = ap (λ l. x ∷ l) (take-before j xs ys (omega arith))

pub take-behind {ℓ} :
    {A : Type ℓ} (i : ℕ) (xs : List A) (y : A) (ys : List A)
    → take (length xs + suc i) (xs ++ (y ∷ ys)) ≡ xs ++ (y ∷ take i ys)
take-behind i [] y ys = let e : 0 + suc i ≡ suc i = omega arith in rw e
take-behind i (x ∷ xs) y ys =
    let e : suc (length xs) + suc i ≡ suc (length xs + suc i) = omega arith in
    rw e (ap (λ l. x ∷ l) (take-behind i xs y ys))

pub length-log_writes : (c : Image) (a : ℕ) (bs : List ℕ) → length (log_writes c a bs) ≡ length bs
length-log_writes c a [] = refl
length-log_writes c a (b ∷ bs) = ap suc (length-log_writes c (a + 1) bs)

pub length-numbers : (block : List ℕ) (i r : ℕ) → length (numbers block i r) ≡ r
length-numbers block i zero = refl
length-numbers block i (suc r) = ap suc (length-numbers block (i + 1) r)

-- The disk after the machine has started again on an image and `recover_from_log` has run.
abbrev pub reboot : Image → Store
reboot m = record { cache = m; written = [] }

abbrev pub after_recovery : Log → Image → Image
after_recovery l m = apply m (recover_from_log l (reboot m)).1.written
