-- ===== src/Shell/Tests.antt =====
-- The theorems on src/user/sh.c, applied.
use a3team_os.Base.{arith, map, ℕ, ◌≡◌, ◌⊎◌, refl, List, [], ◌∷◌}
use a3team_os.Shell.{exec, Word, Cmd, Panic, ok, panics, parsecmd}
use a3team_os.Shell.Words.{spell, text, parsecmd-spell}
use a3team_os.Shell.Ending.{parsecmd-ends}

-- "(ls; a > b) | c &"
abbrev command_line : List ℕ
command_line =
    40 ∷ 108 ∷ 115 ∷ 59 ∷ 32 ∷ 97 ∷ 32 ∷ 62 ∷ 32 ∷ 98 ∷ 41 ∷ 32 ∷ 124 ∷ 32 ∷ 99 ∷ 32 ∷ 38 ∷ []

parsecmd-ends_example :
    ((c : Cmd) × (parsecmd command_line ≡ ok c []))
    ⊎ ((p : Panic) × (parsecmd command_line ≡ panics p))
parsecmd-ends_example = parsecmd-ends command_line

-- "ls", "-l"
abbrev listing : List (List ℕ)
listing = (108 ∷ 115 ∷ []) ∷ (45 ∷ 108 ∷ []) ∷ []

parsecmd-spell_example :
    (argv : List Word) × (parsecmd (spell listing) ≡ ok (exec argv) []) × (map text argv ≡ listing)
parsecmd-spell_example =
    parsecmd-spell listing
      (((refl, refl), ((refl, refl), tt)), (((refl, refl), ((refl, refl), tt)), tt)) (omega arith)
