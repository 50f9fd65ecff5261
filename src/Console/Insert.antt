-- ===== src/Console/Insert.antt =====
-- A character that is typed goes to the end of the line.
use a3team_os.Base.{
  ℕ, ◌+◌, ◌-◌, ◌%◌, ◌^◌, ◌<◌, ◌≡◌, refl, sym, ◌∙◌, ap, ap₂, Bool, true, false, not, ◌&&◌, ◌||◌, [],
  ◌∷◌, ◌++◌, arith, ◌==◌, ltb, if◌then◌else◌, length, get_or-set_self, length-set, Bool-cases,
  subst, inl, inr,
}
use a3team_os.Console.{Input, input_buf, newline, ctrl_d, put_char, hand_over, typed, insert}
use a3team_os.Console.Ring.{
  slice, distance, ready, line, Plain, IsInput, slice-split, slice-set_ne, length-slice,
  append-Plain,
}
use a3team_os.Console.Edit.{tty, accept, Shows}

-- A further character of the line.
module _ (c : ℕ) (i : Input) (v : IsInput i) (byte : c < 256)
    (room : distance i.r i.w + distance i.w i.e < input_buf) where
  longer : distance i.w (put_char c i).e ≡ distance i.w i.e + 1
  longer = omega (arith, v.write_word, v.edit_word, room)

  put_char-line : line (put_char c i) ≡ line i ++ (c ∷ [])
  put_char-line =
      ap (slice (put_char c i).buf i.w) longer
      ∙ slice-split (put_char c i).buf i.w i.e (distance i.w i.e) 1
          (omega (arith, v.write_word, v.edit_word, room))
      ∙ ap₂ (λ xs ys. xs ++ ys) before here
    where
      before : slice (put_char c i).buf i.w (distance i.w i.e) ≡ line i
      before =
          slice-set_ne i.buf (i.e % input_buf) (c % 256) i.w (distance i.w i.e)
            (λ j low q. omega (arith, v.write_word, v.edit_word, room, low, q))

      here : slice (put_char c i).buf i.e 1 ≡ c ∷ []
      here =
          let low : c % 256 ≡ c = omega (arith, byte) in
          ap (λ x. x ∷ [])
            (get_or-set_self i.buf (i.e % input_buf) (c % 256) 0 (omega (arith, v.size)) ∙ low)

  put_char-ready : ready (put_char c i) ≡ ready i
  put_char-ready =
      slice-set_ne i.buf (i.e % input_buf) (c % 256) i.r (distance i.r i.w)
        (λ j low q. omega (arith, v.read_word, v.write_word, v.edit_word, room, low, q))

  put_char-IsInput : (c == newline) ≡ false → IsInput (put_char c i)
  put_char-IsInput inside = record {
    size = length-set i.buf (i.e % input_buf) (c % 256) ∙ v.size;
    read_word = v.read_word;
    write_word = v.write_word;
    edit_word = omega arith;
    bound = omega (arith, longer, room);
    plain = subst Plain (sym put_char-line) (append-Plain (line i) (c ∷ []) v.plain (inside, tt));
  }

  -- The line is handed over.
  given-Shows :
      Shows
        (record (put_char c i) { w = (put_char c i).e })
        (record { ready = ready i ++ (line i ++ (c ∷ [])); line = [] })
  given-Shows = (
    record {
      size = length-set i.buf (i.e % input_buf) (c % 256) ∙ v.size;
      read_word = v.read_word;
      write_word = omega arith;
      edit_word = omega arith;
      bound = omega (arith, v.read_word, v.write_word, v.edit_word, room);
      plain = subst Plain (sym no_line) tt;
    },
    ap₂ (λ x y. record { ready = x; line = y }) all no_line,
  )
    where
      i' : Input
      i' = put_char c i

      no_line : slice i'.buf i'.e (distance i'.e i'.e) ≡ []
      no_line = let none_left : distance i'.e i'.e ≡ 0 = omega arith in rw none_left

      sum : distance i.r i'.e ≡ distance i.r i.w + distance i.w i'.e
      sum = omega (arith, v.read_word, v.write_word, v.edit_word, room)

      all : slice i'.buf i.r (distance i.r i'.e) ≡ ready i ++ (line i ++ (c ∷ []))
      all =
          ap (slice i'.buf i.r) sum
          ∙ slice-split i'.buf i.r i.w (distance i.r i.w) (distance i.w i'.e)
              (omega (arith, v.read_word, v.write_word))
          ∙ ap₂ (λ xs ys. xs ++ ys) put_char-ready put_char-line

-- The test for a full input, on the lists.
full_test :
    (i : Input)
    → IsInput i
    → distance i.r i.w + distance i.w i.e < input_buf
    → ((i.e + 1) % 2 ^ 32 == (i.r + input_buf) % 2 ^ 32)
      ≡ (length (ready i) + length (line i) + 1 == input_buf)
full_test i v room =
    rw (length-slice i.buf i.r (distance i.r i.w), length-slice i.buf i.w (distance i.w i.e))
      (ground (arith, v.read_word, v.write_word, v.edit_word, room))

hand_over-Shows :
    (c : ℕ) (i : Input)
    → IsInput i
    → c < 256
    → distance i.r i.w + distance i.w i.e < input_buf
    → Shows (hand_over c (put_char c i)).0 (accept c (tty i))
hand_over-Shows c i v byte room = rw (← full_test i v room) (elim (Bool-cases ends) [
  | inl last ↦ rw last (given-Shows c i v byte room)
  | inr more ↦ rw more (
    put_char-IsInput c i v byte room
        (neither (c == newline) _ (neither ((c == newline) || (c == ctrl_d)) _ more)),
    ap₂ (λ x y. record { ready = x; line = y }) (put_char-ready c i v byte room)
        (put_char-line c i v byte room),
  )
])
  where
    ends : Bool
    ends = (c == newline) || (c == ctrl_d) || ((i.e + 1) % 2 ^ 32 == (i.r + input_buf) % 2 ^ 32)

    neither : (p q : Bool) → (p || q) ≡ false → p ≡ false
    neither true q e = cc
    neither false q e = refl

-- The test for room, on the lists.
room_test :
    (i : Input)
    → IsInput i
    → ltb ((i.e + (2 ^ 32 - i.r)) % 2 ^ 32) input_buf
      ≡ ltb (length (ready i) + length (line i)) input_buf
room_test i v =
    let sum : distance i.r i.e ≡ distance i.r i.w + distance i.w i.e =
      omega (arith, v.read_word, v.write_word, v.edit_word, v.bound) in
    rw (length-slice i.buf i.r (distance i.r i.w), length-slice i.buf i.w (distance i.w i.e))
      (ap (λ n. ltb n input_buf) sum)

pub insert-Shows :
    (c : ℕ) (i : Input)
    → IsInput i
    → c < 256
    → Shows (insert c i).0 (
        if not (c == 0) && ltb (length (ready i) + length (line i)) input_buf
        then accept (typed c) (tty i)
        else tty i)
unfolding insert
insert-Shows c i v byte = rw (← room_test i v) (elim (Bool-cases takes) [
  | inl yes_takes ↦ rw yes_takes (hand_over-Shows (typed c) i v (ground arith) (room yes_takes))
  | inr no_takes ↦ rw no_takes (v, refl)
])
  where
    takes : Bool
    takes = not (c == 0) && ltb ((i.e + (2 ^ 32 - i.r)) % 2 ^ 32) input_buf

    room : takes ≡ true → distance i.r i.w + distance i.w i.e < input_buf
    room h = ground (arith, v.read_word, v.write_word, v.edit_word, v.bound)
