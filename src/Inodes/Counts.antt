-- ===== src/Inodes/Counts.antt =====
-- Counts of references and of locks, before and after a change.
use a3team_os.Base.{
  ℕ, zero, suc, ◌+◌, ◌*◌, ◌%◌, ◌^◌, ◌≡◌, refl, ap, true, false, Option, none, some, List, [], ◌∷◌,
  ◌==◌, get_elem?, set, arith, Bool-cases, inl, inr, ==_iff, subst, ◌||◌,
}
use a3team_os.Base.Maybe.{Each}
use a3team_os.Fs.{Disk}
use a3team_os.Fs.Inode.{Inode}
use a3team_os.Inodes.{State, member, remove, put_back, on_entry, on_inode}
use a3team_os.Inodes.Rules.{hit, count, ref_at, Tally, After}

pub hit_self : (i : ℕ) → hit i i ≡ 1
unfolding hit
hit_self zero = refl
hit_self (suc i) = hit_self i

-- A change of the count of entry `i` is a change of the counts at `i`.
pub ref_at-set :
    (ips : List Inode) (i j a b : ℕ) (ip ip' : Inode)
    → get_elem? ips i ≡ some ip
    → (ip'.ref + a) % 2 ^ 32 ≡ (ip.ref + b) % 2 ^ 32
    → (ref_at (set ips i ip') j + hit i j * a) % 2 ^ 32 ≡ (ref_at ips j + hit i j * b) % 2 ^ 32
unfolding hit
ref_at-set [] i j a b ip ip' at e = cc
ref_at-set (x ∷ ips) zero zero a b ip ip' at e =
    let same : x.ref ≡ ip.ref = ap ref_of at in omega (arith, e, same)
  where
    ref_of : Option Inode → ℕ
    ref_of none = 0
    ref_of (some y) = y.ref
ref_at-set (x ∷ ips) zero (suc j) a b ip ip' at e = omega arith
ref_at-set (x ∷ ips) (suc i) zero a b ip ip' at e = omega arith
ref_at-set (x ∷ ips) (suc i) (suc j) a b ip ip' at e = ref_at-set ips i j a b ip ip' at e

pub count-remove :
    (i j : ℕ) (is : List ℕ) → member i is ≡ true → count j (remove i is) + hit i j ≡ count j is
count-remove i j [] m = cc
count-remove i j (k ∷ is) m = elim (Bool-cases (k == i)) [
  | inl e ↦ rw (e, (==_iff k i).0 e) (omega arith)
  | inr e ↦ rw e (let ih = count-remove i j is (later k e m) in omega (arith, ih))
]
  where
    later : (k : ℕ) → (k == i) ≡ false → member i (k ∷ is) ≡ true → member i is ≡ true
    later k e m = subst (λ b. (b || member i is) ≡ true) e m

abbrev pub again : (n i : ℕ) → List ℕ → List ℕ
again zero i is = is
again (suc n) i is = i ∷ again n i is

count-again : (n i j : ℕ) (is : List ℕ) → count j (again n i is) ≡ hit i j * n + count j is
count-again zero i j is = omega arith
count-again (suc n) i j is = grind (arith, count-again n i j is)

-- Entry `i` gets `b` references and loses `a`.
abbrev pub moved : (i a b : ℕ) → Tally → Tally
moved i a b t = record t { gets = again b i t.gets; puts = again a i t.puts }

module _ (i a b : ℕ) {s s' : State} {t : Tally} where
  pub After-moved :
      (d : Disk) (ips : List Inode)
      → ((j : ℕ)
          → (ref_at ips j + hit i j * a) % 2 ^ 32 ≡ (ref_at s'.inodes j + hit i j * b) % 2 ^ 32)
      → After s t s'
      → After s (moved i a b t) (record s' { disk = d; inodes = ips })
  After-moved d ips e h = record {
    refs = λ j. omega (arith, e j, h.refs j, count-again a i j t.puts, count-again b i j t.gets);
    held = h.held;
    ops = h.ops;
  }

  pub on_inode-After :
      {A : Type 0} (f : Disk → Inode → Option (Inode × Disk × A))
      → ((d : Disk) (ip : Inode)
          → Each (λ r. (r.0.ref + a) % 2 ^ 32 ≡ (ip.ref + b) % 2 ^ 32) (f d ip))
      → After s t s'
      → Each (λ r. After s (moved i a b t) r.1) (on_inode i f s')
  on_inode-After {A} f changes h = entry (get_elem? s'.inodes i) refl
    where
      back :
          (o : Option (Inode × Disk × A)) (ip : Inode)
          → get_elem? s'.inodes i ≡ some ip
          → Each (λ r. (r.0.ref + a) % 2 ^ 32 ≡ (ip.ref + b) % 2 ^ 32) o
          → Each (λ r. After s (moved i a b t) r.1) (put_back i s' o)
      back none ip at e = tt
      back (some r) ip at e =
          After-moved r.1 (set s'.inodes i r.0) (λ j. ref_at-set s'.inodes i j a b ip r.0 at e) h

      entry :
          (o : Option Inode)
          → get_elem? s'.inodes i ≡ o
          → Each (λ r. After s (moved i a b t) r.1) (put_back i s' (on_entry f s'.disk o))
      entry none at = tt
      entry (some ip) at = back (f s'.disk ip) ip at (changes s'.disk ip)

-- The counts at entry `i` changed by `a` and `b`, and no other one.
abbrev pub Shifts : (i a b : ℕ) → List Inode → List Inode → Type 0
Shifts i a b ips ips' =
    (j : ℕ) → (ref_at ips' j + hit i j * a) % 2 ^ 32 ≡ (ref_at ips j + hit i j * b) % 2 ^ 32
