-- ===== src/Console/Keys.antt =====
-- `consoleintr` as the editing of a line, key by key.
use a3team_os.Base.{ℕ, ◌<◌, refl, ◌||◌, ◌==◌, Bool-cases, inl, inr}
use a3team_os.Console.{Input, key}
use a3team_os.Console.Ring.{IsInput}
use a3team_os.Console.Edit.{tty, edit, Shows, kill_line-Shows, erase-Shows}
use a3team_os.Console.Insert.{insert-Shows}

-- On a ring that is well formed every key, a number below 256, does what the editor of a line does: characters go to the end of the line,
-- backspace takes the last one, C('U') all, and the end of a line, C('D') and a full input hand the
-- line to the readers. The ring stays well formed.
pub key-Shows : (c : ℕ) (i : Input) → IsInput i → c < 256 → Shows (key c i).0 (edit c (tty i))
unfolding key
key-Shows c i v byte = elim (Bool-cases (c == 16)) [
  | inl listing ↦ rw listing (v, refl)
  | inr a ↦ rw a (elim (Bool-cases (c == 21)) [
    | inl kill ↦ rw kill (kill_line-Shows _ i v refl)
    | inr b ↦ rw b (elim (Bool-cases ((c == 8) || (c == 127))) [
      | inl bs ↦ rw bs (erase-Shows i v)
      | inr d ↦ rw d (insert-Shows c i v byte)
    ])
  ])
]
