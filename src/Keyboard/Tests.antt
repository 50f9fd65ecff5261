-- ===== src/Keyboard/Tests.antt =====
-- The keyboard, tried and applied.
use a3team_os.Base.{◌≡◌, refl, arith, false, [], ◌∷◌, ◌++◌, replicate}
use a3team_os.Console.{Input, newline, consoleread, finished}
use a3team_os.Console.Ring.{IsInput}
use a3team_os.Console.Edit.{Shows}
use a3team_os.Keyboard.{
  kbdgetc, scan_codes, press, charcode, normalmap, shiftmap, ctlmap, shiftcode, togglecode, kbdintr,
}
use a3team_os.Keyboard.Typing.{strokes, all_strokes, consoleread-kbdintr}

abbrev empty : Input
empty = record { buf = replicate 128 0; r = 0; w = 0; e = 0 }

empty-IsInput : IsInput empty
empty-IsInput = record {
  size = refl;
  read_word = omega arith;
  write_word = omega arith;
  edit_word = omega arith;
  bound = omega arith;
  plain = tt;
}

-- The caps lock key, the key of the letter a, and the same under the shift key.
locked :
    scan_codes 0 (0x3A ∷ 0xBA ∷ 0x1E ∷ 0x9E ∷ 0x2A ∷ 0x1E ∷ []) ≡ (9, 0 ∷ 0 ∷ 65 ∷ 0 ∷ 0 ∷ 97 ∷ [])
unfolding scan_codes kbdgetc press charcode normalmap shiftmap ctlmap shiftcode togglecode
locked = refl

-- The key up, behind its escape code.
arrow : scan_codes 0 (0xE0 ∷ 0x48 ∷ 0xE0 ∷ 0xC8 ∷ []) ≡ (0, 0 ∷ 0xE2 ∷ 0 ∷ 0 ∷ [])
unfolding scan_codes kbdgetc press charcode normalmap shiftmap ctlmap shiftcode togglecode
arrow = refl

-- "L$"
consoleread-kbdintr_example :
    let r = kbdintr 0 (all_strokes (76 ∷ 36 ∷ []) ++ strokes 10) empty in
    let (i2, out, end) = consoleread false 100 r.1.0 in
    (r.0 ≡ 0)
    × Shows i2 (record { ready = []; line = [] })
    × (out ≡ (76 ∷ 36 ∷ []) ++ (newline ∷ []))
    × (end ≡ finished)
consoleread-kbdintr_example =
    consoleread-kbdintr false empty (76 ∷ 36 ∷ []) 100 empty-IsInput refl
      (omega arith, omega arith, (omega arith, omega arith, tt)) (omega arith) (omega arith)
