-- ===== src/Console/Read.antt =====
-- A line that is typed is the line that is read.
use a3team_os.Base.{
  append_assoc, lt→ltb, length-append, ==-ne, ℕ, zero, suc, ◌+◌, ◌-◌, ◌%◌, ◌^◌, ◌<◌, ◌≡◌, refl, ◌∙◌,
  ap, Bool, true, false, List, [], ◌∷◌, ◌++◌, arith, ◌==◌, ltb, if◌then◌else◌, length, get_or,
  Bool-cases, inl, inr, subst,
}
use a3team_os.Console.{
  Input, input_buf, newline, ctrl_d, key, consoleintr, Ended, finished, refused, sleeps, read_loop,
  consoleread, Line,
}
use a3team_os.Console.Ring.{distance, ready, line, IsInput, slice-mod}
use a3team_os.Console.Keys.{key-Shows}
use a3team_os.Console.Edit.{Tty, tty, edit, Shows}

-- Reading from the characters that are handed over: those that are left, those that are read.
abbrev pub Taken : Type 0
Taken = List ℕ × List ℕ × Ended

abbrev pub one_more : ℕ → Taken → Taken
one_more c (rest, cs, end) = (rest, c ∷ cs, end)

abbrev pub take_line : (killed started : Bool) → (n : ℕ) → List ℕ → Taken
take_line killed started zero cs = (cs, [], finished)
take_line killed started (suc n) [] = ([], [], (if killed then refused else sleeps (suc n)))
take_line killed started (suc n) (c ∷ cs) =
    let rest = one_more c (take_line killed true n cs) in
    if c == ctrl_d
    then (if started then (c ∷ cs, [], finished) else (cs, [], finished))
    else if c == newline
    then (cs, c ∷ [], finished)
    else rest

-- `consoleread` takes the characters from the front, and leaves the line that is typed alone.
abbrev pub Reads : Input → Line → Taken → Type 0
Reads i (i', cs, end) (rest, cs', end') =
    Shows i' (record { ready = rest; line = line i }) × (cs ≡ cs') × (end ≡ end')

-- The first character leaves the ring.
next : Input → Input
next i = record i { r = (i.r + 1) % 2 ^ 32 }

next-Shows :
    (i : Input) (n : ℕ)
    → IsInput i
    → distance i.r i.w ≡ suc n
    → IsInput (record i { r = (i.r + 1) % 2 ^ 32 })
      × (ready i ≡ get_or i.buf (i.r % input_buf) 0 ∷ ready (record i { r = (i.r + 1) % 2 ^ 32 }))
next-Shows i n v more = (
  record {
    size = v.size;
    read_word = omega arith;
    write_word = v.write_word;
    edit_word = v.edit_word;
    bound = omega (arith, less, more, v.bound);
    plain = v.plain;
  },
  rw (more, less)
      (ap (λ l. get_or i.buf (i.r % input_buf) 0 ∷ l)
        (slice-mod i.buf (i.r + 1) ((i.r + 1) % 2 ^ 32) n (omega arith))),
)
  where
    less : distance ((i.r + 1) % 2 ^ 32) i.w ≡ n
    less = omega (arith, v.read_word, v.write_word, more)

read_loop-Reads :
    (killed started : Bool) (n : ℕ) (i : Input)
    → IsInput i
    → Reads i (read_loop killed started n i) (take_line killed started n (ready i))
unfolding read_loop
read_loop-Reads killed started zero i v = ((v, refl), refl, refl)
read_loop-Reads killed started (suc n) i v = elim (Bool-cases (i.r == i.w)) [
  | inl none_left ↦
      (let zero_far : distance i.r i.w ≡ 0 = ground (arith, v.read_word, v.write_word) in
        let empty : ready i ≡ [] = rw zero_far refl in
        rw (none_left, empty)
          (elim (Bool-cases killed) [
            | inl k ↦ rw k ((v, ap (λ l. record { ready = l; line = line i }) empty), refl, refl)
            | inr k ↦ rw k ((v, ap (λ l. record { ready = l; line = line i }) empty), refl, refl)
          ]))
  | inr some_left ↦
      let far : distance i.r i.w ≡ suc (distance i.r i.w - 1) =
        ground (arith, v.read_word, v.write_word) in
      let (v', first) = next-Shows i (distance i.r i.w - 1) v far in
      let rest = read_loop-Reads killed true n (record i { r = (i.r + 1) % 2 ^ 32 }) v' in
      rw (some_left, first)
        (elim (Bool-cases (get_or i.buf (i.r % input_buf) 0 == ctrl_d)) [
          | inl eof ↦ rw eof (elim (Bool-cases started) [
            | inl later ↦
                rw later ((v, ap (λ l. record { ready = l; line = line i }) first), refl, refl)
            | inr at_once ↦ rw at_once ((v', refl), refl, refl)
          ])
          | inr more ↦ rw more (elim (Bool-cases (get_or i.buf (i.r % input_buf) 0 == newline)) [
            | inl last ↦ rw last ((v', refl), refl, refl)
            | inr inside ↦
                rw inside (rest.0, ap (λ l. get_or i.buf (i.r % input_buf) 0 ∷ l) rest.1, rest.2)
          ])
        ])
]

-- The keys one after the other.
abbrev pub edits : List ℕ → Tty → Tty
edits [] t = t
edits (c ∷ cs) t = edits cs (edit c t)

abbrev pub Bytes : List ℕ → Type 0
Bytes [] = Unit
Bytes (c ∷ cs) = (c < 256) × Bytes cs

consoleintr-Shows :
    (cs : List ℕ) (i : Input) → IsInput i → Bytes cs → Shows (consoleintr cs i).0 (edits cs (tty i))
unfolding consoleintr
consoleintr-Shows [] i v low = (v, refl)
consoleintr-Shows (c ∷ cs) i v low =
    let (v', same) = key-Shows c i v low.0 in
    rw (← same) (consoleintr-Shows cs (key c i).0 v' low.1)

-- A character that stands for itself.
abbrev pub Printable : List ℕ → Type 0
Printable [] = Unit
Printable (c ∷ cs) = (31 < c) × (c < 127) × Printable cs

edit-Printable :
    (c : ℕ) (t : Tty)
    → 31 < c
    → c < 127
    → length t.ready + length t.line + 1 < input_buf
    → edit c t ≡ record t { line = t.line ++ (c ∷ []) }
edit-Printable c t low high room =
    let free : ltb (length t.ready + length t.line) input_buf ≡ true = ground arith in
    rw (
      ==-ne c 16 (λ e. omega arith),
      ==-ne c 21 (λ e. omega arith),
      ==-ne c 8 (λ e. omega arith),
      ==-ne c 127 (λ e. omega arith),
      ==-ne c 0 (λ e. omega arith),
      ==-ne c 13 (λ e. omega arith),
      ==-ne c 10 (λ e. omega arith),
      ==-ne c 4 (λ e. omega arith),
      free,
      ==-ne (length t.ready + length t.line + 1) input_buf (λ e. omega (arith, e, room)),
    )

edit-Enter :
    (t : Tty)
    → length t.ready + length t.line < input_buf
    → edit 13 t ≡ record { ready = t.ready ++ (t.line ++ (newline ∷ [])); line = [] }
edit-Enter t room = rw (lt→ltb (length t.ready + length t.line) input_buf room)

edits-Line :
    (cs : List ℕ) (t : Tty)
    → Printable cs
    → length t.ready + length t.line + length cs < input_buf
    → edits (cs ++ (13 ∷ [])) t
      ≡ record { ready = t.ready ++ (t.line ++ (cs ++ (newline ∷ []))); line = [] }
edits-Line [] t fine room = edit-Enter t (omega (arith, room))
edits-Line (c ∷ cs) t fine room =
    let longer = length-append t.line (c ∷ []) in
    ap (edits (cs ++ (13 ∷ []))) (edit-Printable c t fine.0 fine.1 (omega (arith, room)))
    ∙ edits-Line cs (record t { line = t.line ++ (c ∷ []) }) fine.2
        (rw longer (omega (arith, room)))
    ∙ ap (λ l. record { ready = t.ready ++ l; line = [] })
        (append_assoc t.line (c ∷ []) (cs ++ (newline ∷ [])))

take_line-Line :
    (killed started : Bool) (n : ℕ) (cs : List ℕ)
    → Printable cs
    → length cs < n
    → take_line killed started n (cs ++ (newline ∷ [])) ≡ ([], cs ++ (newline ∷ []), finished)
take_line-Line killed started zero cs fine low = absurd (omega (arith, low))
take_line-Line killed started (suc n) [] fine low = refl
take_line-Line killed started (suc n) (c ∷ cs) fine low =
    rw (==-ne c 4 (λ e. omega (arith, e, fine.0)), ==-ne c 10 (λ e. omega (arith, e, fine.0)))
      (ap (one_more c) (take_line-Line killed true n cs fine.2 (omega (arith, low))))

Bytes-Line : (cs : List ℕ) → Printable cs → Bytes (cs ++ (13 ∷ []))
Bytes-Line [] fine = (omega arith, tt)
Bytes-Line (c ∷ cs) fine = (omega (arith, fine.1), Bytes-Line cs fine.2)

-- On a well-formed and empty input, a line of up to 127 printable characters that is typed with the
-- return key is what `consoleread` returns, with a line feed at its end, when it may return that
-- much. Nothing of it stays behind, and the ring is well formed, wherever its places stand.
pub consoleread-consoleintr :
    (killed : Bool) (i : Input) (cs : List ℕ) (n : ℕ)
    → IsInput i
    → tty i ≡ record { ready = []; line = [] }
    → Printable cs
    → length cs < input_buf
    → length cs < n
    → let (i1, echo, woken) = consoleintr (cs ++ (13 ∷ [])) i in
      let (i2, out, end) = consoleread killed n i1 in
      Shows i2 (record { ready = []; line = [] }) × (out ≡ cs ++ (newline ∷ [])) × (end ≡ finished)
unfolding consoleread
consoleread-consoleintr killed i cs n v empty fine short low =
    let (v1, typed_in) = consoleintr-Shows (cs ++ (13 ∷ [])) i v (Bytes-Line cs fine) in
    read (consoleintr (cs ++ (13 ∷ [])) i).0 v1 (
      typed_in
      ∙ ap (edits (cs ++ (13 ∷ []))) empty
      ∙ edits-Line cs (record { ready = []; line = [] }) fine (omega (arith, short)))
  where
    read :
        (i1 : Input)
        → IsInput i1
        → tty i1 ≡ record { ready = cs ++ (newline ∷ []); line = [] }
        → let (i2, out, end) = read_loop killed false n i1 in
          Shows i2 (record { ready = []; line = [] })
          × (out ≡ cs ++ (newline ∷ []))
          × (end ≡ finished)
    read i1 v1 shown =
        let took : take_line killed false n (ready i1) ≡ ([], cs ++ (newline ∷ []), finished) =
          ap (λ t. take_line killed false n t.ready) shown
          ∙ take_line-Line killed false n cs fine low in
        let (v2, out, end) =
          subst (Reads i1 (read_loop killed false n i1)) took
            (read_loop-Reads killed false n i1 v1) in
        ((v2.0, v2.1 ∙ ap (λ t. record { ready = []; line = t.line }) shown), out, end)
