-- ===== src/Shell/Ending.antt =====
-- The parser ends: the fuel that `parsecmd` gives is enough for every line.
use a3team_os.Base.{
  ℕ, zero, suc, ◌≤◌, ◌<◌, ◌≡◌, ◌⊎◌, refl, List, [], ◌∷◌, arith, length, Bool-cases, inl, inr,
}
use a3team_os.Shell.{
  Cmd, pipe, list, back, Result, ok, panics, out_of_fuel, after, peek, parse_args, close_block,
  parseblock, parseexec, pipe_rest, parsepipe, parse_backs, parse_rest, parseline, leftovers,
  finish, parsecmd, Panic,
}
use a3team_os.Shell.Progress.{
  Ends, Ends-after, Ends-near, peek-near, peek-progress, parseredirs-Ends, parse_args-Ends,
  close_block-Ends,
}

-- The parser of what is nested ends on every part of the line shorter than `m`.
abbrev Nested : (List ℕ → Result Cmd) → ℕ → Type 0
Nested line m = (s : List ℕ) → length s < m → Ends s (line s)

module _ (line : List ℕ → Result Cmd) where
  parseblock-Ends : (s : List ℕ) → Nested line (length s) → Ends s (parseblock line s)
  unfolding parseblock
  parseblock-Ends s nested = elim (Bool-cases (peek (40 ∷ []) s).0) [
    | inr no_block ↦ rw no_block tt
    | inl opens ↦
        let shorter = peek-progress (40 ∷ []) s opens in
        rw opens (
          Ends-after s _ _ close_block (nested _ shorter) (omega (arith, shorter))
            (λ c rest near. close_block-Ends c rest))
  ]

  parseexec-Ends : (s : List ℕ) → Nested line (length s) → Ends s (parseexec line s)
  unfolding parseexec
  parseexec-Ends s nested = elim (Bool-cases (peek (40 ∷ []) s).0) [
    | inl block ↦ rw block (
        Ends-near s _ _ near
          (parseblock-Ends (peek (40 ∷ []) s).1 (λ s' low. nested s' (omega (arith, low, near)))))
    | inr plain ↦ rw plain (
        Ends-after s (peek (40 ∷ []) s).1 _ (λ rs s2. parse_args (suc (length s2)) [] rs s2)
          (parseredirs-Ends _ [] (peek (40 ∷ []) s).1 (omega arith)) near
          (λ rs s2 close. parse_args-Ends (suc (length s2)) [] rs s2 (omega arith)))
  ]
    where
      near : length (peek (40 ∷ []) s).1 ≤ length s
      near = peek-near (40 ∷ []) s

  pipe_rest-Ends :
      (pipeline : List ℕ → Result Cmd) (c : Cmd) (s : List ℕ)
      → Nested pipeline (length s)
      → Ends s (pipe_rest pipeline c s)
  pipe_rest-Ends pipeline c s nested = elim (Bool-cases (peek (124 ∷ []) s).0) [
    | inr last ↦ rw last (peek-near (124 ∷ []) s)
    | inl more ↦
        let shorter = peek-progress (124 ∷ []) s more in
        rw more (
          Ends-after s _ _ (λ d s3. ok (pipe c d) s3) (nested _ shorter) (omega (arith, shorter))
            (λ d s3 close. omega arith))
  ]

  parsepipe-Ends :
      (n : ℕ) (s : List ℕ) → length s < n → Nested line (length s) → Ends s (parsepipe line n s)
  unfolding parsepipe
  parsepipe-Ends zero s low nested = absurd (omega (arith, low))
  parsepipe-Ends (suc n) s low nested =
      Ends-after s s _ (pipe_rest (parsepipe line n)) (parseexec-Ends s nested) (omega arith)
        (λ c rest near. pipe_rest-Ends (parsepipe line n) c rest (λ s' low'.
          parsepipe-Ends n s' (omega (arith, low', near, low))
            (λ s2 low2. nested s2 (omega (arith, low2, low', near)))))

  parse_rest-Ends : (c : Cmd) (s : List ℕ) → Nested line (length s) → Ends s (parse_rest line c s)
  parse_rest-Ends c s nested = elim (Bool-cases (peek (59 ∷ []) s).0) [
    | inr last ↦ rw last (peek-near (59 ∷ []) s)
    | inl more ↦
        let shorter = peek-progress (59 ∷ []) s more in
        rw more (
          Ends-after s _ _ (λ d s2. ok (list c d) s2) (nested _ shorter) (omega (arith, shorter))
            (λ d s2 close. omega arith))
  ]

parse_backs-Ends : (n : ℕ) (c : Cmd) (s : List ℕ) → length s < n → Ends s (parse_backs n c s)
unfolding parse_backs
parse_backs-Ends zero c s low = absurd (omega (arith, low))
parse_backs-Ends (suc n) c s low = elim (Bool-cases (peek (38 ∷ []) s).0) [
  | inr last ↦ rw last (peek-near (38 ∷ []) s)
  | inl more ↦
      let shorter = peek-progress (38 ∷ []) s more in
      rw more (
        Ends-near s _ _ (omega (arith, shorter))
          (parse_backs-Ends n (back c) _ (omega (arith, shorter, low))))
]

parseline-Ends : (n : ℕ) (s : List ℕ) → length s < n → Ends s (parseline n s)
unfolding parseline
parseline-Ends zero s low = absurd (omega (arith, low))
parseline-Ends (suc n) s low =
    let nested : Nested (parseline n) (length s) =
      λ s' low'. parseline-Ends n s' (omega (arith, low, low')) in
    Ends-after s s _ (parse_rest (parseline n))
      (Ends-after s s _ (λ c s1. parse_backs (suc (length s1)) c s1)
        (parsepipe-Ends (parseline n) (suc (length s)) s (omega arith) nested) (omega arith)
        (λ c s1 near. parse_backs-Ends (suc (length s1)) c s1 (omega arith)))
      (omega arith)
      (λ c rest near.
        parse_rest-Ends (parseline n) c rest (λ s' low'. nested s' (omega (arith, low', near))))

-- Whatever is typed, the parser ends, with a command and nothing left over or with one of its panics.
pub parsecmd-ends :
    (s : List ℕ) → ((c : Cmd) × (parsecmd s ≡ ok c [])) ⊎ ((p : Panic) × (parsecmd s ≡ panics p))
unfolding parsecmd
parsecmd-ends s =
    end (parseline (suc (length s)) s) (parseline-Ends (suc (length s)) s (omega arith))
  where
    close :
        (c : Cmd) (rest : List ℕ)
        → ((d : Cmd) × (leftovers c rest ≡ ok d [])) ⊎ ((p : Panic) × (leftovers c rest ≡ panics p))
    close c [] = inl (c, refl)
    close c (x ∷ xs) = inr (_, refl)

    end :
        (r : Result Cmd)
        → Ends s r
        → ((c : Cmd) × (after r finish ≡ ok c [])) ⊎ ((p : Panic) × (after r finish ≡ panics p))
    end (ok c rest) h = close c (peek [] rest).1
    end (panics p) h = inr (p, refl)
    end out_of_fuel h = absurd h
