-- ===== src/Shell/Tokens.antt =====
-- The scanner goes forward.
use a3team_os.Base.{
  ℕ, ◌≤◌, ◌<◌, ◌≡◌, ◌≢◌, refl, false, not, ◌&&◌, List, [], ◌∷◌, ◌==◌, arith, length, Bool-cases,
  inl, inr,
}
use a3team_os.Shell.{
  strchr, whitespace, symbols, skip_space, skip_word, after_greater, scan, gettoken,
}

pub length-skip_space : (s : List ℕ) → length (skip_space s) ≤ length s
length-skip_space [] = omega arith
length-skip_space (c ∷ cs) = elim (Bool-cases (strchr whitespace c)) [
  | inl blank ↦ rw blank (omega (arith, length-skip_space cs))
  | inr ink ↦ rw ink (omega arith)
]

length-skip_word : (s : List ℕ) → length (skip_word s) ≤ length s
length-skip_word [] = omega arith
length-skip_word (c ∷ cs) =
    elim (Bool-cases (not (strchr whitespace c) && not (strchr symbols c))) [
      | inl letter ↦ rw letter (omega (arith, length-skip_word cs))
      | inr other ↦ rw other (omega arith)
    ]

length-after_greater : (s : List ℕ) → length (after_greater s).1 ≤ length s
length-after_greater [] = omega arith
length-after_greater (c ∷ cs) = ground arith

-- No blank is at the front.
abbrev pub Trimmed : List ℕ → Type 0
Trimmed [] = Unit
Trimmed (c ∷ cs) = strchr whitespace c ≡ false

pub skip_space-Trimmed : (s : List ℕ) → Trimmed (skip_space s)
skip_space-Trimmed [] = tt
skip_space-Trimmed (c ∷ cs) = elim (Bool-cases (strchr whitespace c)) [
  | inl blank ↦ rw blank (skip_space-Trimmed cs)
  | inr ink ↦ rw ink ink
]

pub skip_space-stays : (s : List ℕ) → Trimmed s → skip_space s ≡ s
skip_space-stays [] h = refl
skip_space-stays (c ∷ cs) h = rw h

-- A token that is not the end is at least one character.
scan-progress :
    (c : ℕ) (cs : List ℕ) → Trimmed (c ∷ cs) → length (scan (c ∷ cs)).1 < length (c ∷ cs)
scan-progress c cs h = elim (Bool-cases (strchr (124 ∷ 40 ∷ 41 ∷ 59 ∷ 38 ∷ 60 ∷ []) c)) [
  | inl single ↦ rw single (omega arith)
  | inr a ↦ rw a (elim (Bool-cases (c == 62)) [
    | inl greater ↦ rw greater (omega (arith, length-after_greater cs))
    | inr b ↦
        let letter : strchr symbols c ≡ false = ground (arith, a, b) in
        rw (b, h, letter) (omega (arith, length-skip_word cs))
  ])
]

pub gettoken-progress : (s : List ℕ) → Trimmed s → s ≢ [] → length (gettoken s).rest < length s
unfolding gettoken
gettoken-progress [] h some_left = absurd (some_left refl)
gettoken-progress (c ∷ cs) h some_left =
    rw h (omega (arith, scan-progress c cs h, length-skip_space (scan (c ∷ cs)).1))

scan-near : (s : List ℕ) → Trimmed s → length (scan s).1 ≤ length s
scan-near [] h = omega arith
scan-near (c ∷ cs) h = omega (arith, scan-progress c cs h)

pub gettoken-near : (s : List ℕ) → length (gettoken s).rest ≤ length s
unfolding gettoken
gettoken-near s = omega (
  arith,
  length-skip_space s,
  scan-near (skip_space s) (skip_space-Trimmed s),
  length-skip_space (scan (skip_space s)).1,
)
