-- ===== src/Shell/Words.antt =====
-- A command of plain words is parsed into these words.
use a3team_os.Base.{
  ℕ, zero, suc, ◌+◌, ◌-◌, ◌≤◌, ◌<◌, ◌≡◌, refl, sym, ap, ap₂, false, List, [], ◌∷◌, ◌++◌, ◌==◌, leb,
  arith, length, length-append, append-nil, append_assoc, take, map,
}
use a3team_os.Shell.{
  strchr, whitespace, symbols, skip_word, Word, gettoken, starts, peek, Cmd, exec, Result, ok,
  parseredirs, parse_args, parseexec, parsepipe, parse_backs, parseline, parsecmd, Redir,
}
use a3team_os.Shell.Tokens.{Trimmed, skip_space-stays}

-- A character of a word.
abbrev pub Ordinary : ℕ → Type 0
Ordinary c = (strchr whitespace c ≡ false) × (strchr symbols c ≡ false)

abbrev pub AllOrdinary : List ℕ → Type 0
AllOrdinary [] = Unit
AllOrdinary (c ∷ cs) = Ordinary c × AllOrdinary cs

abbrev pub IsWord : List ℕ → Type 0
IsWord [] = ⊥
IsWord (c ∷ cs) = Ordinary c × AllOrdinary cs

abbrev pub AllWords : List (List ℕ) → Type 0
AllWords [] = Unit
AllWords (w ∷ ws) = IsWord w × AllWords ws

-- The words with a blank behind each.
abbrev pub spell : List (List ℕ) → List ℕ
spell [] = []
spell (w ∷ ws) = w ++ (32 ∷ spell ws)

-- The characters from the beginning of a word to its end.
abbrev pub text : Word → List ℕ
text w = take (length w.q - length w.eq) w.q

abbrev pub places : List (List ℕ) → List Word
places [] = []
places (w ∷ ws) = record { q = w ++ (32 ∷ spell ws); eq = 32 ∷ spell ws } ∷ places ws

take-append : (w r : List ℕ) (n : ℕ) → n ≡ length w → take n (w ++ r) ≡ w
take-append [] r zero e = refl
take-append [] r (suc n) e = absurd (omega (arith, e))
take-append (x ∷ w) r zero e = absurd (omega (arith, e))
take-append (x ∷ w) r (suc n) e = ap (λ l. x ∷ l) (take-append w r n (omega (arith, e)))

pub text-places : (ws : List (List ℕ)) → map text (places ws) ≡ ws
text-places [] = refl
text-places (w ∷ ws) =
    let long = length-append w (32 ∷ spell ws) in
    ap₂ (λ x xs. x ∷ xs)
      (take-append w (32 ∷ spell ws) (length (w ++ (32 ∷ spell ws)) - length (32 ∷ spell ws))
        (omega (arith, long)))
      (text-places ws)

skip_word-stops : (w r : List ℕ) → AllOrdinary w → skip_word (w ++ (32 ∷ r)) ≡ 32 ∷ r
skip_word-stops [] r h = refl
skip_word-stops (c ∷ cs) r h = rw (h.0.0, h.0.1) (skip_word-stops cs r h.1)

spell-Trimmed : (ws : List (List ℕ)) → AllWords ws → Trimmed (spell ws)
spell-Trimmed [] h = tt
spell-Trimmed ([] ∷ ws) h = absurd h.0
spell-Trimmed ((c ∷ cs) ∷ ws) h = h.0.0.0

-- None of the symbols begins a word.
not_symbol :
    (toks : List ℕ) (ws : List (List ℕ))
    → ((c : ℕ) → strchr symbols c ≡ false → strchr toks c ≡ false)
    → AllWords ws
    → starts toks (spell ws) ≡ false
not_symbol toks [] h fine = refl
not_symbol toks ([] ∷ ws) h fine = absurd fine.0
not_symbol toks ((c ∷ cs) ∷ ws) h fine = h c fine.0.0.1

peek-spell :
    (toks : List ℕ) (ws : List (List ℕ))
    → ((c : ℕ) → strchr symbols c ≡ false → strchr toks c ≡ false)
    → AllWords ws
    → peek toks (spell ws) ≡ (false, spell ws)
unfolding peek
peek-spell toks ws h fine =
    rw (skip_space-stays (spell ws) (spell-Trimmed ws fine))
      (ap (λ b. (b, spell ws)) (not_symbol toks ws h fine))

gettoken-spell :
    (w : List ℕ) (ws : List (List ℕ))
    → IsWord w
    → AllWords ws
    → gettoken (spell (w ∷ ws)) ≡ record {
      tok = 97;
      word = record { q = spell (w ∷ ws); eq = 32 ∷ spell ws };
      rest = spell ws;
    }
unfolding gettoken
gettoken-spell [] ws h fine = absurd h
gettoken-spell (c ∷ cs) ws h fine =
    let single : strchr (124 ∷ 40 ∷ 41 ∷ 59 ∷ 38 ∷ 60 ∷ []) c ≡ false = ground (arith, h.0.1) in
    let no_greater : (c == 62) ≡ false = ground (arith, h.0.1) in
    rw (
      h.0.0,
      single,
      no_greater,
      h.0.0,
      h.0.1,
      skip_word-stops cs (spell ws) h.1,
      skip_space-stays (spell ws) (spell-Trimmed ws fine),
    )

-- No redirection begins a word.
parseredirs-spell :
    (n : ℕ) (rs : List Redir) (ws : List (List ℕ))
    → AllWords ws
    → parseredirs (suc n) rs (spell ws) ≡ ok rs (spell ws)
unfolding parseredirs
parseredirs-spell n rs ws fine = rw (peek-spell (60 ∷ 62 ∷ []) ws (λ c h. ground (arith, h)) fine)

peek-end : (toks : List ℕ) → peek toks [] ≡ (false, [])
unfolding peek
peek-end toks = refl

gettoken-end : gettoken [] ≡ record { tok = 0; word = record { q = []; eq = [] }; rest = [] }
unfolding gettoken
gettoken-end = refl

-- Up to nine arguments.
parse_args-spell :
    (n : ℕ) (argv : List Word) (ws : List (List ℕ))
    → AllWords ws
    → length ws < n
    → length argv + length ws < 10
    → parse_args n argv [] (spell ws) ≡ ok (exec (argv ++ places ws)) []
unfolding parse_args
parse_args-spell zero argv ws fine low few = absurd (omega (arith, low))
parse_args-spell (suc n) argv [] fine low few =
    rw (peek-end (124 ∷ 41 ∷ 38 ∷ 59 ∷ []), gettoken-end)
      (ap (λ l. ok (exec l) []) (sym (append-nil argv)))
parse_args-spell (suc n) argv (w ∷ ws) fine low few =
    let place : Word = record { q = w ++ (32 ∷ spell ws); eq = 32 ∷ spell ws } in
    let long = length-append argv (place ∷ []) in
    let room : leb 10 (length (argv ++ (place ∷ []))) ≡ false = ground (arith, long, few) in
    rw
      (
        peek-spell (124 ∷ 41 ∷ 38 ∷ 59 ∷ []) (w ∷ ws) (λ c h. ground (arith, h)) fine,
        gettoken-spell w ws fine.0 fine.1,
        room,
        parseredirs-spell (length (spell ws)) [] ws fine.1,
        parse_args-spell n (argv ++ (place ∷ [])) ws fine.1 (omega (arith, low))
            (omega (arith, long, few)),
      )
      (ap (λ l. ok (exec l) []) (append_assoc argv (place ∷ []) (places ws)))

length-spell : (ws : List (List ℕ)) → length ws ≤ length (spell ws)
length-spell [] = omega arith
length-spell (w ∷ ws) = omega (arith, length-append w (32 ∷ spell ws), length-spell ws)

module _ (line : List ℕ → Result Cmd) (ws : List (List ℕ)) (fine : AllWords ws)
    (few : length ws < 10) where
  parseexec-spell : parseexec line (spell ws) ≡ ok (exec (places ws)) []
  unfolding parseexec
  parseexec-spell =
      rw
        (
          peek-spell (40 ∷ []) ws (λ c h. ground (arith, h)) fine,
          parseredirs-spell (length (spell ws)) [] ws fine,
        )
        (parse_args-spell (suc (length (spell ws))) [] ws fine (omega (arith, length-spell ws))
          (omega (arith, few)))

  parsepipe-spell : (n : ℕ) → parsepipe line (suc n) (spell ws) ≡ ok (exec (places ws)) []
  unfolding parsepipe
  parsepipe-spell n = rw (parseexec-spell, peek-end (124 ∷ []))

-- A command line of up to nine words, each with a blank behind it, is parsed into the execution of
-- exactly these words, whatever characters that are neither blanks nor symbols they have.
pub parsecmd-spell :
    (ws : List (List ℕ))
    → AllWords ws
    → length ws < 10
    → (argv : List Word) × (parsecmd (spell ws) ≡ ok (exec argv) []) × (map text argv ≡ ws)
unfolding parsecmd parseline parse_backs
parsecmd-spell ws fine few = (
  places ws,
  rw
      (
        parsepipe-spell (parseline (length (spell ws))) ws fine few (length (spell ws)),
        peek-end (38 ∷ []),
        peek-end (59 ∷ []),
        peek-end [],
      )
      refl,
  text-places ws,
)
