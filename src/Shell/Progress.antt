-- ===== src/Shell/Progress.antt =====
-- The loops of the parser go forward.
use a3team_os.Base.{
  ℕ, zero, suc, ◌≤◌, ◌<◌, ◌≡◌, ◌≢◌, true, false, List, [], ◌∷◌, ◌++◌, ◌==◌, leb, arith, length,
  subst, Bool-cases, inl, inr,
}
use a3team_os.Shell.{
  Cmd, Result, ok, panics, out_of_fuel, after, Redir, Word, Token, skip_space, gettoken, starts,
  peek, parseredirs, wrap, parse_args, close_block,
}
use a3team_os.Shell.Tokens.{skip_space-Trimmed, length-skip_space, gettoken-progress, gettoken-near}

-- A result, and not behind the place `s`.
abbrev pub Ends {ℓ} : {A : Type ℓ} → List ℕ → Result A → Type 0
Ends s (ok a rest) = length rest ≤ length s
Ends s (panics p) = Unit
Ends s out_of_fuel = ⊥

pub Ends-near {ℓ} :
    {A : Type ℓ} (s s' : List ℕ) (r : Result A) → length s' ≤ length s → Ends s' r → Ends s r
Ends-near s s' (ok a rest) near h = omega (arith, near, h)
Ends-near s s' (panics p) near h = tt
Ends-near s s' out_of_fuel near h = h

pub Ends-after {ℓ ℓ'} :
    {A : Type ℓ} {B : Type ℓ'} (s s' : List ℕ) (r : Result A) (k : A → List ℕ → Result B)
    → Ends s' r
    → length s' ≤ length s
    → ((a : A) (rest : List ℕ) → length rest ≤ length s' → Ends rest (k a rest))
    → Ends s (after r k)
Ends-after s s' (ok a rest) k h near next =
    Ends-near s rest (k a rest) (omega (arith, near, h)) (next a rest h)
Ends-after s s' (panics p) k h near next = tt
Ends-after s s' out_of_fuel k h near next = h

-- Behind a `peek` that has found something `gettoken` goes forward.
starts-some : (toks s : List ℕ) → starts toks s ≡ true → s ≢ []
starts-some toks [] h e = cc
starts-some toks (c ∷ cs) h e = cc

pub peek-near : (toks s : List ℕ) → length (peek toks s).1 ≤ length s
unfolding peek
peek-near toks s = length-skip_space s

pub peek-progress :
    (toks s : List ℕ) → (peek toks s).0 ≡ true → length (gettoken (peek toks s).1).rest < length s
unfolding peek
peek-progress toks s found = omega (
  arith,
  length-skip_space s,
  gettoken-progress (skip_space s) (skip_space-Trimmed s) (starts-some toks (skip_space s) found),
)

-- A token other than the end goes forward.
token-progress :
    (toks s : List ℕ)
    → ((gettoken (peek toks s).1).tok == 0) ≡ false
    → length (gettoken (peek toks s).1).rest < length s
unfolding peek gettoken
token-progress toks s some_left = omega (
  arith,
  length-skip_space s,
  gettoken-progress (skip_space s) (skip_space-Trimmed s) (λ e. at_end e),
)
  where
    at_end : skip_space s ≢ []
    at_end e =
        let none_left : ((gettoken []).tok == 0) ≡ false =
          subst (λ z. ((gettoken z).tok == 0) ≡ false) e some_left in
        cc

pub parseredirs-Ends :
    (n : ℕ) (rs : List Redir) (s : List ℕ) → length s < n → Ends s (parseredirs n rs s)
unfolding parseredirs
parseredirs-Ends zero rs s low = absurd (omega (arith, low))
parseredirs-Ends (suc n) rs s low = elim (Bool-cases (peek (60 ∷ 62 ∷ []) s).0) [
  | inr no_more ↦ rw no_more (peek-near (60 ∷ 62 ∷ []) s)
  | inl more ↦
      rw more (elim (Bool-cases ((gettoken (gettoken (peek (60 ∷ 62 ∷ []) s).1).rest).tok == 97)) [
        | inr no_word ↦ rw no_word tt
        | inl word ↦
            let shorter = peek-progress (60 ∷ 62 ∷ []) s more in
            let near = gettoken-near (gettoken (peek (60 ∷ 62 ∷ []) s).1).rest in
            rw word (
              Ends-near s _ _ (omega (arith, shorter, near))
                (parseredirs-Ends n _ _ (omega (arith, shorter, near, low))))
      ])
]

pub parse_args-Ends :
    (n : ℕ) (argv : List Word) (rs : List Redir) (s : List ℕ)
    → length s < n
    → Ends s (parse_args n argv rs s)
unfolding parse_args
parse_args-Ends zero argv rs s low = absurd (omega (arith, low))
parse_args-Ends (suc n) argv rs s low = elim (Bool-cases (peek stops s).0) [
  | inl stop ↦ rw stop (peek-near stops s)
  | inr go ↦ rw go (elim (Bool-cases (t.tok == 0)) [
    | inl last ↦ rw last (omega (arith, peek-near stops s, gettoken-near (peek stops s).1))
    | inr some_left ↦ rw some_left (elim (Bool-cases (t.tok == 97)) [
      | inr no_word ↦ rw no_word tt
      | inl word ↦ rw word (elim (Bool-cases (leb 10 (length (argv ++ (t.word ∷ []))))) [
        | inl many ↦ rw many tt
        | inr few ↦
            let shorter = token-progress stops s some_left in
            rw few (
              Ends-after s t.rest _ (parse_args n (argv ++ (t.word ∷ [])))
                (parseredirs-Ends (suc (length t.rest)) rs t.rest (omega arith))
                (omega (arith, shorter))
                (λ rs' s' near.
                  parse_args-Ends n (argv ++ (t.word ∷ [])) rs' s'
                    (omega (arith, near, shorter, low))))
      ])
    ])
  ])
]
  where
    stops : List ℕ
    stops = 124 ∷ 41 ∷ 38 ∷ 59 ∷ []

    t : Token
    t = gettoken (peek stops s).1

pub close_block-Ends : (c : Cmd) (s : List ℕ) → Ends s (close_block c s)
close_block-Ends c s = elim (Bool-cases (peek (41 ∷ []) s).0) [
  | inr open_still ↦ rw open_still tt
  | inl closed ↦
      let s2 : List ℕ = (gettoken (peek (41 ∷ []) s).1).rest in
      rw closed (
        Ends-after s s2 _ (λ rs s3. ok (wrap c rs) s3)
          (parseredirs-Ends (suc (length s2)) [] s2 (omega arith))
          (omega (arith, peek-progress (41 ∷ []) s closed)) (λ rs s3 near. omega arith))
]
