-- ===== src/Console/Tests.antt =====
-- The theorems on src/console.c, applied. The places in the ring are about to wrap.
use a3team_os.Base.{ℕ, zero, suc, ◌-◌, ◌^◌, ◌≡◌, refl, arith, false, List, [], ◌∷◌, ◌++◌}
use a3team_os.Console.{Input, newline, consoleintr, consoleread, finished}
use a3team_os.Console.Ring.{IsInput}
use a3team_os.Console.Edit.{Shows}
use a3team_os.Console.Read.{consoleread-consoleintr}

abbrev blanks : ℕ → List ℕ
blanks zero = []
blanks (suc n) = 0 ∷ blanks n

abbrev empty : Input
empty = record { buf = blanks 128; r = 2 ^ 32 - 1; w = 2 ^ 32 - 1; e = 2 ^ 32 - 1 }

empty-IsInput : IsInput empty
empty-IsInput = record {
  size = refl;
  read_word = omega arith;
  write_word = omega arith;
  edit_word = omega arith;
  bound = omega arith;
  plain = tt;
}

-- "ls"
consoleread-consoleintr_example :
    let (i1, echo, woken) = consoleintr ((108 ∷ 115 ∷ []) ++ (13 ∷ [])) empty in
    let (i2, out, end) = consoleread false 100 i1 in
    Shows i2 (record { ready = []; line = [] })
    × (out ≡ (108 ∷ 115 ∷ []) ++ (newline ∷ []))
    × (end ≡ finished)
consoleread-consoleintr_example =
    consoleread-consoleintr false empty (108 ∷ 115 ∷ []) 100 empty-IsInput refl
      (omega arith, omega arith, (omega arith, omega arith, tt)) (omega arith) (omega arith)
