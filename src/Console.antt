-- ===== src/Console.antt =====
-- The console, src/console.c: the line that is typed, the screen, and the printing of numbers.
--
-- What goes to `consputc` is a list of the arguments in order. A character is a number below 256.
pub mod Ring
pub mod Edit
pub mod Insert
pub mod Keys
pub mod Read
pub mod Cursor
mod Tests
use a3team_os.Base.{
  ℕ, zero, suc, ◌+◌, ◌-◌, ◌*◌, ◌/◌, ◌%◌, ◌^◌, Bool, true, false, not, ◌&&◌, ◌||◌, Option, none,
  some, List, [], ◌∷◌, ◌++◌, ◌==◌, ltb, leb, if◌then◌else◌, get_or, set,
}

abbrev pub input_buf : ℕ
input_buf = 128

-- `input`: the ring `buf` with the places to read, to write up to and to edit, which are `uint`s.
pub record Input : Type 0 where
  pub buf : List ℕ
  pub r : ℕ
  pub w : ℕ
  pub e : ℕ

abbrev pub backspace : ℕ
backspace = 256

abbrev pub newline : ℕ
newline = 10

-- `C('D')`
abbrev pub ctrl_d : ℕ
ctrl_d = 4

-- `input.e--`
abbrev pub step_back : Input → Input
step_back i = record i { e = (i.e + (2 ^ 32 - 1)) % 2 ^ 32 }

-- The input, what is echoed, and whether the readers are woken.
abbrev pub Echo : Type 0
Echo = Input × List ℕ × Bool

abbrev pub also : ℕ → Echo → Echo
also c (i, out, woken) = (i, c ∷ out, woken)

-- The loop of C('U'), with the number of characters up to `w`, over which it goes at most.
unfoldable pub kill_line : (n : ℕ) → Input → Echo
kill_line zero i = (i, [], false)
kill_line (suc n) i =
    let rest = also backspace (kill_line n (step_back i)) in
    if not (i.e == i.w) && not (get_or i.buf ((step_back i).e % input_buf) 0 == newline)
    then rest
    else (i, [], false)

unfoldable pub erase : Input → Echo
erase i = if i.e == i.w then (i, [], false) else (step_back i, backspace ∷ [], false)

-- `input.buf[input.e++ % INPUT_BUF] = c`
abbrev pub put_char : ℕ → Input → Input
put_char c i = record i { buf = set i.buf (i.e % input_buf) (c % 256); e = (i.e + 1) % 2 ^ 32 }

-- The input is handed to the readers at the end of a line, at an end of file, and when it is full.
abbrev pub hand_over : ℕ → Input → Echo
hand_over c i =
    if (c == newline) || (c == ctrl_d) || (i.e == (i.r + input_buf) % 2 ^ 32)
    then (record i { w = i.e }, c ∷ [], true)
    else (i, c ∷ [], false)

abbrev pub typed : ℕ → ℕ
typed c = if c == 13 then newline else c

unfoldable pub insert : ℕ → Input → Echo
insert c i =
    if not (c == 0) && ltb ((i.e + (2 ^ 32 - i.r)) % 2 ^ 32) input_buf
    then hand_over (typed c) (put_char (typed c) i)
    else (i, [], false)

-- One round of the loop of `consoleintr`. C('P') only asks for a list of processes.
unfoldable pub key : ℕ → Input → Echo
key c i =
    if c == 16
    then (i, [], false)
    else if c == 21
    then kill_line ((i.e + (2 ^ 32 - i.w)) % 2 ^ 32) i
    else if (c == 8) || (c == 127)
    then erase i
    else insert c i

abbrev pub followed : List ℕ → Bool → Echo → Echo
followed out woken (i, out', woken') = (i, out ++ out', woken || woken')

-- `consoleintr` over the characters that `getc` gives before it gives none.
unfoldable pub consoleintr : List ℕ → Input → Echo
consoleintr [] i = (i, [], false)
consoleintr (c ∷ cs) i = let (i1, out, woken) = key c i in followed out woken (consoleintr cs i1)

-- How `consoleread` ends: with what is read, with -1, or asleep with what it still may read.
pub data Ended : Type 0 where
  finished : Ended
  refused : Ended
  sleeps : (n : ℕ) → Ended

abbrev pub Line : Type 0
Line = Input × List ℕ × Ended

abbrev pub then_read : ℕ → Line → Line
then_read c (i, cs, end) = (i, c ∷ cs, end)

-- The loop of `consoleread` with `n` characters left; `started` says whether some have been read.
unfoldable pub read_loop : (killed started : Bool) → (n : ℕ) → Input → Line
read_loop killed started zero i = (i, [], finished)
read_loop killed started (suc n) i =
    let c = get_or i.buf (i.r % input_buf) 0 in
    let i' = record i { r = (i.r + 1) % 2 ^ 32 } in
    let rest = then_read c (read_loop killed true n i') in
    if i.r == i.w
    then (if killed then (i, [], refused) else (i, [], sleeps (suc n)))
    else if c == ctrl_d
    then (if started then (i, [], finished) else (i', [], finished))
    else if c == newline
    then (i', c ∷ [], finished)
    else rest

unfoldable pub consoleread : (killed : Bool) → (n : ℕ) → Input → Line
consoleread killed n i = read_loop killed false n i

-- The screen: the place of the cursor, and a character with its colour in every cell.
pub record Screen : Type 0 where
  pub pos : ℕ
  pub crt : ℕ → ℕ

abbrev pub put_cell : ℕ → ℕ → (ℕ → ℕ) → ℕ → ℕ
put_cell p v crt x = if x == p then v else crt x

abbrev pub advance : ℕ → Screen → Screen
advance c s =
    if c == newline
    then record s { pos = s.pos + (80 - s.pos % 80) }
    else if c == backspace
    then (if s.pos == 0 then s else record s { pos = s.pos - 1 })
    else record s { pos = s.pos + 1; crt = put_cell s.pos (c % 256 + 1792) s.crt }

-- `memmove` of 23 rows, and `memset` of what is behind them.
abbrev pub scroll : Screen → Screen
scroll s =
    if leb 24 (s.pos / 80)
    then record {
      pos = s.pos - 80;
      crt = λ x.
          if leb (s.pos - 80) x && ltb x (24 * 80)
          then 0
          else if ltb x (23 * 80)
          then s.crt (x + 80)
          else s.crt x;
    }
    else s

-- The cursor's cell gets a blank.
abbrev pub show_cursor : Screen → Screen
show_cursor s = record s { crt = put_cell s.pos 1824 s.crt }

-- `cgaputc`; `none` is the panic.
unfoldable pub cgaputc : ℕ → Screen → Option Screen
cgaputc c s =
    let s1 = advance c s in if ltb (25 * 80) s1.pos then none else some (show_cursor (scroll s1))
