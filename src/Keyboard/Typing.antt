-- ===== src/Keyboard/Typing.antt =====
-- A line that is typed on the keyboard is the line that the console reads.
use a3team_os.Base.{
  ◌||◌, ℕ, ◌+◌, ◌<◌, ◌≡◌, refl, ap, ap₂, sym, ◌∙◌, subst, Bool, true, false, ◌&&◌, Option, none,
  some, List, [], ◌∷◌, ◌++◌, ◌==◌, leb, if◌then◌else◌, length, arith, Bool-cases, inl, inr, ==_iff,
}
use a3team_os.Base.Table.{all_below, all_below_sound}
use a3team_os.Console.{
  Input, Echo, consoleintr, consoleread, finished, newline, followed, key, insert, input_buf,
}
use a3team_os.Console.Edit.{tty, Shows}
use a3team_os.Console.Ring.{IsInput}
use a3team_os.Console.Read.{Printable, consoleread-consoleintr}
use a3team_os.Keyboard.{
  normalmap_rows, shiftmap_rows, normalmap, shiftmap, ctlmap, charcode, shiftcode, togglecode,
  press, kbdgetc, scan_codes, kbdintr,
}

-- The first place of a character behind place `d`.
abbrev find_from : (d c : ℕ) → List ℕ → Option ℕ
find_from d c [] = none
find_from d c (x ∷ xs) = if x == c then some d else find_from (d + 1) c xs

abbrev with_shift : Option ℕ → List ℕ
with_shift none = []
with_shift (some d) = 0x2A ∷ d ∷ (d + 128) ∷ 0xAA ∷ []

abbrev plain_or : (c : ℕ) → Option ℕ → List ℕ
plain_or c none = with_shift (find_from 0 c shiftmap_rows)
plain_or c (some d) = d ∷ (d + 128) ∷ []

-- The scan codes of the keys for a character: its key is pressed and released, under the left shift
-- key when it needs it.
pub strokes : ℕ → List ℕ
strokes c = plain_or c (find_from 0 c normalmap_rows)

pub all_strokes : List ℕ → List ℕ
all_strokes [] = []
all_strokes (c ∷ cs) = strokes c ++ all_strokes cs

abbrev nonzero : List ℕ → List ℕ
nonzero [] = []
nonzero (c ∷ cs) = if c == 0 then nonzero cs else c ∷ nonzero cs

abbrev is_single : ℕ → List ℕ → Bool
is_single c [] = false
is_single c (d ∷ []) = d == c
is_single c (d ∷ e ∷ es) = false

abbrev gives_only : ℕ → ℕ × List ℕ → Bool
gives_only c (shift, cs) = (shift == 0) && is_single c (nonzero cs)

is_single_sound : (c : ℕ) (cs : List ℕ) → is_single c cs ≡ true → cs ≡ c ∷ []
is_single_sound c [] h = cc
is_single_sound c (d ∷ []) h = ap (λ x. x ∷ []) ((==_iff d c).0 h)
is_single_sound c (d ∷ e ∷ es) h = cc

-- Every character from the blank to the tilde, and the line feed.
strokes_table :
    all_below 127
      (λ c. if leb 32 c || (c == 10) then gives_only c (scan_codes 0 (strokes c)) else true)
    ≡ true
unfolding all_below scan_codes kbdgetc press charcode normalmap shiftmap ctlmap shiftcode togglecode
    strokes
strokes_table = refl

gives_only_sound :
    (c : ℕ) (r : ℕ × List ℕ) → gives_only c r ≡ true → (r.0 ≡ 0) × (nonzero r.1 ≡ c ∷ [])
gives_only_sound c (shift, cs) h = elim (Bool-cases (shift == 0)) [
  | inl e ↦ (
    (==_iff shift 0).0 e,
    is_single_sound c (nonzero cs) (subst (λ b. (b && is_single c (nonzero cs)) ≡ true) e h),
  )
  | inr e ↦
      (let no : false ≡ true = subst (λ b. (b && is_single c (nonzero cs)) ≡ true) e h in (cc, cc))
]

strokes-gives :
    (c : ℕ)
    → (leb 32 c || (c == 10)) ≡ true
    → c < 127
    → ((scan_codes 0 (strokes c)).0 ≡ 0) × (nonzero (scan_codes 0 (strokes c)).1 ≡ c ∷ [])
strokes-gives c key low = gives_only_sound c (scan_codes 0 (strokes c)) (
    subst (λ b. (if b then gives_only c (scan_codes 0 (strokes c)) else true) ≡ true) key
      (all_below_sound
        (λ c. if leb 32 c || (c == 10) then gives_only c (scan_codes 0 (strokes c)) else true) c low
        strokes_table))

nonzero-append : (xs ys : List ℕ) → nonzero (xs ++ ys) ≡ nonzero xs ++ nonzero ys
nonzero-append [] ys = refl
nonzero-append (x ∷ xs) ys = elim (Bool-cases (x == 0)) [
  | inl e ↦ rw e (nonzero-append xs ys)
  | inr e ↦ rw e (ap (λ l. x ∷ l) (nonzero-append xs ys))
]

-- Scan codes in two parts.
scan_codes-append :
    (shift : ℕ) (xs ys : List ℕ)
    → ((scan_codes shift (xs ++ ys)).0 ≡ (scan_codes (scan_codes shift xs).0 ys).0)
      × ((scan_codes shift (xs ++ ys)).1
          ≡ (scan_codes shift xs).1 ++ (scan_codes (scan_codes shift xs).0 ys).1)
unfolding scan_codes
scan_codes-append shift [] ys = (refl, refl)
scan_codes-append shift (x ∷ xs) ys =
    let ih = scan_codes-append (kbdgetc shift x).0 xs ys in
    (ih.0, ap (λ l. (kbdgetc shift x).1 ∷ l) ih.1)

-- Two parts of which the first one leaves no key down.
scan_codes-two :
    (xs ys us vs : List ℕ)
    → ((scan_codes 0 xs).0 ≡ 0) × (nonzero (scan_codes 0 xs).1 ≡ us)
    → ((scan_codes 0 ys).0 ≡ 0) × (nonzero (scan_codes 0 ys).1 ≡ vs)
    → ((scan_codes 0 (xs ++ ys)).0 ≡ 0) × (nonzero (scan_codes 0 (xs ++ ys)).1 ≡ us ++ vs)
scan_codes-two xs ys us vs (x0, xn) (y0, yn) =
    let two = scan_codes-append 0 xs ys in
    let after : scan_codes (scan_codes 0 xs).0 ys ≡ scan_codes 0 ys =
      ap (λ s. scan_codes s ys) x0 in
    (
      two.0 ∙ ap (λ r. r.0) after ∙ y0,
      ap nonzero two.1
          ∙ nonzero-append (scan_codes 0 xs).1 (scan_codes (scan_codes 0 xs).0 ys).1
          ∙ ap₂ (λ l m. l ++ m) xn (ap (λ r. nonzero r.1) after ∙ yn),
    )

printable_key : (c : ℕ) → 31 < c → (leb 32 c || (c == 10)) ≡ true
printable_key c h = ground arith

all_strokes-gives :
    (cs : List ℕ)
    → Printable cs
    → ((scan_codes 0 (all_strokes cs)).0 ≡ 0) × (nonzero (scan_codes 0 (all_strokes cs)).1 ≡ cs)
unfolding all_strokes scan_codes
all_strokes-gives [] fine = (refl, refl)
all_strokes-gives (c ∷ cs) (above, below, fine) =
    unfold all_strokes in
    scan_codes-two (strokes c) (all_strokes cs) (c ∷ []) cs
      (strokes-gives c (printable_key c above) below) (all_strokes-gives cs fine)

-- A character 0 does nothing.
key_zero : (i : Input) → key 0 i ≡ (i, [], false)
unfolding key insert
key_zero i = refl

consoleintr-nonzero : (cs : List ℕ) (i : Input) → consoleintr cs i ≡ consoleintr (nonzero cs) i
unfolding consoleintr
consoleintr-nonzero [] i = refl
consoleintr-nonzero (c ∷ cs) i = elim (Bool-cases (c == 0)) [
  | inl e ↦ rw (e, (==_iff c 0).0 e, key_zero i) (consoleintr-nonzero cs i)
  | inr e ↦ rw e (ap (λ r. followed (key c i).1 (key c i).2 r) (consoleintr-nonzero cs (key c i).0))
]

key_enter : (i : Input) → key 10 i ≡ key 13 i
unfolding key insert
key_enter i = refl

-- The return key gives a line feed, and the console takes it for a carriage return.
consoleintr_enter :
    (cs : List ℕ) (i : Input) → consoleintr (cs ++ (10 ∷ [])) i ≡ consoleintr (cs ++ (13 ∷ [])) i
unfolding consoleintr
consoleintr_enter [] i = ap (λ r. followed r.1 r.2 (r.0, [], false)) (key_enter i)
consoleintr_enter (c ∷ cs) i =
    ap (λ r. followed (key c i).1 (key c i).2 r) (consoleintr_enter cs (key c i).0)

-- On a well-formed and empty input, with no shift, ctrl or alt key down, none of the three locks on and
-- no escape code begun: when the keys of a line of up to 127 printable
-- characters are pressed and released, under the shift key where it is needed, and then the return key,
-- `consoleread` returns the line with a line feed at its end, when it may return that much. Nothing of
-- it stays behind, the ring is well formed, and no key is down, no lock on and no escape code begun.
pub consoleread-kbdintr :
    (killed : Bool) (i : Input) (cs : List ℕ) (n : ℕ)
    → IsInput i
    → tty i ≡ record { ready = []; line = [] }
    → Printable cs
    → length cs < input_buf
    → length cs < n
    → let r = kbdintr 0 (all_strokes cs ++ strokes 10) i in
      let (i2, out, end) = consoleread killed n r.1.0 in
      (r.0 ≡ 0)
      × Shows i2 (record { ready = []; line = [] })
      × (out ≡ cs ++ (newline ∷ []))
      × (end ≡ finished)
unfolding kbdintr
consoleread-kbdintr killed i cs n v empty fine short low =
    let line =
      scan_codes-two (all_strokes cs) (strokes 10) cs (10 ∷ []) (all_strokes-gives cs fine)
        (strokes-gives 10 refl (omega arith)) in
    let chars = (scan_codes 0 (all_strokes cs ++ strokes 10)).1 in
    let same : consoleintr chars i ≡ consoleintr (cs ++ (13 ∷ [])) i =
      consoleintr-nonzero chars i ∙ ap (λ l. consoleintr l i) line.1 ∙ consoleintr_enter cs i in
    let read =
      subst
        (λ (e : Echo).
          let (i2, out, end) = consoleread killed n e.0 in
          Shows i2 (record { ready = []; line = [] })
          × (out ≡ cs ++ (newline ∷ []))
          × (end ≡ finished))
        (sym same) (consoleread-consoleintr killed i cs n v empty fine short low) in
    (line.0, read.0, read.1, read.2)
