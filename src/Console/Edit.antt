-- ===== src/Console/Edit.antt =====
-- `consoleintr` as the editing of a line.
use a3team_os.Base.{
  ℕ, zero, suc, ◌+◌, ◌-◌, ◌%◌, ◌≡◌, refl, sym, ap, false, not, ◌&&◌, ◌||◌, List, [], ◌∷◌, ◌++◌,
  arith, ◌==◌, ltb, if◌then◌else◌, length, get_or, Bool-cases, subst, inl, inr,
}
use a3team_os.Console.{Input, input_buf, newline, ctrl_d, step_back, kill_line, erase, typed}
use a3team_os.Console.Ring.{
  distance, ready, line, Plain, IsInput, slice-last, Plain-append, drop_last, drop_last-append,
}

-- What the readers may take, and the line that may be edited.
pub record Tty : Type 0 where
  pub ready : List ℕ
  pub line : List ℕ

abbrev pub tty : Input → Tty
tty i = record { ready = ready i; line = line i }

abbrev pub accept : ℕ → Tty → Tty
accept c t =
    if (c == newline) || (c == ctrl_d) || (length t.ready + length t.line + 1 == input_buf)
    then record { ready = t.ready ++ (t.line ++ (c ∷ [])); line = [] }
    else record t { line = t.line ++ (c ∷ []) }

-- What a key does to the line.
abbrev pub edit : ℕ → Tty → Tty
edit c t =
    if c == 16
    then t
    else if c == 21
    then record t { line = [] }
    else if (c == 8) || (c == 127)
    then record t { line = drop_last t.line }
    else if not (c == 0) && ltb (length t.ready + length t.line) input_buf
    then accept (typed c) t
    else t

-- One character of the line less.
step_back-line :
    (i : Input) (n : ℕ)
    → IsInput i
    → distance i.w i.e ≡ suc n
    → IsInput (step_back i)
      × (distance i.w (step_back i).e ≡ n)
      × (line i ≡ line (step_back i) ++ (get_or i.buf ((step_back i).e % input_buf) 0 ∷ []))
step_back-line i n v more = (
  record {
    size = v.size;
    read_word = v.read_word;
    write_word = v.write_word;
    edit_word = omega arith;
    bound = omega (arith, v.bound, less);
    plain = (Plain-append (line (step_back i)) _ (subst Plain split v.plain)).0;
  },
  less,
  split,
)
  where
    less : distance i.w (step_back i).e ≡ n
    less = omega (arith, v.write_word, v.edit_word, more)

    place : (i.w + n) % input_buf ≡ (step_back i).e % input_buf
    place = omega (arith, v.write_word, v.edit_word, more)

    split : line i ≡ line (step_back i) ++ (get_or i.buf ((step_back i).e % input_buf) 0 ∷ [])
    split = rw (more, less, ← place) (slice-last i.buf i.w n)

-- The invariant, and what the input is as lines.
abbrev pub Shows : Input → Tty → Type 0
Shows i t = IsInput i × (tty i ≡ t)

pub kill_line-Shows :
    (n : ℕ) (i : Input)
    → IsInput i
    → distance i.w i.e ≡ n
    → Shows (kill_line n i).0 (record { ready = ready i; line = [] })
unfolding kill_line
kill_line-Shows zero i v e = (v, rw e)
kill_line-Shows (suc n) i v e =
    let (v', less, split) = step_back-line i n v e in
    let busy : (i.e == i.w) ≡ false = ground (arith, e) in
    let other : (get_or i.buf ((step_back i).e % input_buf) 0 == newline) ≡ false =
      (Plain-append (line (step_back i)) _ (subst Plain split v.plain)).1.0 in
    rw (busy, other) (kill_line-Shows n (step_back i) v' less)

pub erase-Shows :
    (i : Input)
    → IsInput i
    → Shows (erase i).0 (record { ready = ready i; line = drop_last (line i) })
unfolding erase
erase-Shows i v = elim (Bool-cases (i.e == i.w)) [
  | inl none_left ↦
      let zero_far : distance i.w i.e ≡ 0 = ground (arith, v.edit_word) in
      rw (none_left, zero_far) (v, refl)
  | inr some_left ↦
      let far : distance i.w i.e ≡ suc (distance i.w i.e - 1) =
        ground (arith, v.edit_word, v.write_word) in
      let (v', less, split) = step_back-line i (distance i.w i.e - 1) v far in
      rw some_left (
        v',
        ap (λ l. record { ready = ready i; line = l })
            (sym (rw split (drop_last-append (line (step_back i)) _))),
      )
]
