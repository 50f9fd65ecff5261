-- ===== src/Syscall/Arguments.antt =====
-- What the kernel takes from a process lies inside the process.
use a3team_os.Base.{
  ℕ, zero, suc, ◌+◌, ◌-◌, ◌%◌, ◌^◌, ◌≤◌, ◌<◌, ◌≡◌, ◌≢◌, refl, subst, ◌||◌, Option, none, some, ◌==◌,
  ltb, leb, arith, Bool-cases, inl, inr,
}
use a3team_os.Memory.{Mem}
use a3team_os.Kalloc.{kernbase}
use a3team_os.Syscall.{
  find_nul, farther, fetchstr, argint, check_block, argptr, with_length, string_at, argstr,
}

-- A string at `s` whose 0 is `n` bytes further, below `top`.
abbrev pub IsString : Mem → (top s n : ℕ) → Type 0
IsString m top s n = (s + n < top) × (m (s + n) ≡ 0) × ((j : ℕ) → j < n → m (s + j) ≢ 0)

-- What the search for the end of a string finds.
abbrev pub Finds : Mem → (rounds s : ℕ) → Option ℕ → Type 0
Finds m rounds s none = (j : ℕ) → j < rounds → m (s + j) ≢ 0
Finds m rounds s (some n) = IsString m (s + rounds) s n

find_nul-Finds : (rounds : ℕ) (m : Mem) (s : ℕ) → Finds m rounds s (find_nul rounds m s)
unfolding find_nul
find_nul-Finds zero m s = λ j low. absurd (omega (arith, low))
find_nul-Finds (suc n) m s = elim (Bool-cases (m s == 0)) [
  | inl end ↦
      rw end (omega arith, at_zero (ground (arith, end)), (λ j low. absurd (omega (arith, low))))
  | inr more ↦
      rw more
        (behind (find_nul n m (s + 1)) (find_nul-Finds n m (s + 1)) (λ z. ground (arith, z, more)))
]
  where
    at_zero : m s ≡ 0 → m (s + 0) ≡ 0
    at_zero z = let same : s + 0 ≡ s = omega arith in rw same z

    -- The first character is not a 0 either.
    all :
        (k : ℕ)
        → m s ≢ 0
        → ((j : ℕ) → j < k → m (s + 1 + j) ≢ 0)
        → (j : ℕ) → j < suc k
        → m (s + j) ≢ 0
    all k first h zero low = let same : s + 0 ≡ s = omega arith in rw same first
    all k first h (suc j) low =
        let same : s + suc j ≡ s + 1 + j = omega arith in rw same (h j (omega (arith, low)))

    behind : (r : Option ℕ) → Finds m n (s + 1) r → m s ≢ 0 → Finds m (suc n) s (farther r)
    behind none h first = all n first h
    behind (some k) (low, end, before) first =
        let same : s + suc k ≡ s + 1 + k = omega arith in
        (omega (arith, low), rw same end, all k first before)

fetchstr-IsString :
    (sz : ℕ) (m : Mem) (addr n : ℕ) → fetchstr sz m addr ≡ some n → IsString m sz addr n
unfolding fetchstr
fetchstr-IsString sz m addr n e = elim (Bool-cases (leb sz addr)) [
  | inl outside ↦ absurd (let stuck : none ≡ some n = rw outside at e in cc)
  | inr inside ↦
      let top : addr + (sz - addr) ≡ sz = ground arith in
      let found : find_nul (sz - addr) m addr ≡ some n = rw inside at e in
      rw top at (rw found at (find_nul-Finds (sz - addr) m addr))
]

some_injective : {p q : ℕ × ℕ} → some p ≡ some q → p ≡ q
some_injective e = cc

-- A string that `argstr` accepts ends with its first 0, which lies inside the process.
pub argstr-IsString :
    (sz : ℕ) (m : Mem) (esp n addr len : ℕ)
    → argstr sz m esp n ≡ some (addr, len)
    → IsString m sz addr len
unfolding argstr
argstr-IsString sz m esp n addr len e = found (argint sz m esp n) e
  where
    ends :
        (a : ℕ) (r : Option ℕ)
        → fetchstr sz m a ≡ r
        → with_length a r ≡ some (addr, len)
        → IsString m sz addr len
    ends a none f e = cc
    ends a (some l) f e =
        let same : (a, l) ≡ (addr, len) = some_injective e in
        subst (λ p. IsString m sz p.0 p.1) same (fetchstr-IsString sz m a l f)

    found : (o : Option ℕ) → string_at sz m o ≡ some (addr, len) → IsString m sz addr len
    found none e = cc
    found (some a) e = ends a (fetchstr sz m a) refl e

-- A block that `argptr` accepts lies inside the process, when the process ends below the kernel: the
-- sum of the address and the size does not wrap.
pub argptr-inside :
    (sz : ℕ) (m : Mem) (esp n size p : ℕ)
    → sz ≤ kernbase
    → argptr sz m esp n size ≡ some p
    → (size < 2 ^ 31) × (p < sz) × (p + size ≤ sz)
unfolding argptr
argptr-inside sz m esp n size p low e = inside (argint sz m esp n) e
  where
    inside :
        (o : Option ℕ)
        → check_block sz size o ≡ some p
        → (size < 2 ^ 31) × (p < sz) × (p + size ≤ sz)
    inside none e = cc
    inside (some i) e =
        elim (Bool-cases (leb (2 ^ 31) size || leb sz i || ltb sz ((i + size) % 2 ^ 32))) [
          | inl refused ↦ absurd (let stuck : none ≡ some p = rw refused at e in cc)
          | inr accepted ↦
              let same : i ≡ p = (let there : some i ≡ some p = rw accepted at e in cc) in
              rw (← same) (
                ground (arith, accepted, low),
                ground (arith, accepted, low),
                ground (arith, accepted, low),
              )
        ]
