-- ===== src/Pipe/Flow.antt =====
-- `pipewrite` and `piperead` as operations on the queue of bytes.
use a3team_os.Base.{
  ℕ, zero, suc, ◌<◌, ◌≡◌, ◌≢◌, refl, sym, ◌∙◌, ap, Bool, true, false, not, ◌&&◌, ◌||◌, List, [],
  ◌∷◌, ◌++◌, arith, length, Bool-cases, inl, inr, append_assoc, append-nil, take, drop,
}
use a3team_os.Pipe.{
  Pipe, pipesize, put, get, is_full, is_empty, write_loop, read_loop, pipewrite, piperead, Written,
  finished, refused, sleeps, wakes, Got, bytes,
}
use a3team_os.Pipe.Queue.{IsPipe, queue, count, put-queue, get-queue, length-slice}

full→ : (p : Pipe) → IsPipe p → is_full p ≡ true → count p ≡ pipesize
full→ p v e = ground (arith, v.read_word, v.write_word)

not_full→ : (p : Pipe) → IsPipe p → is_full p ≡ false → count p < pipesize
not_full→ p v e = ground (arith, v.read_word, v.write_word, v.bound)

-- How the loop of `pipewrite` may end with the bytes `rest` not written.
abbrev pub Ends : (killed : Bool) → Pipe → (rest : List ℕ) → Written → Type 0
Ends killed p rest finished = rest ≡ []
Ends killed p rest refused = (length (queue p) ≡ pipesize) × ((not p.readopen || killed) ≡ true)
Ends killed p rest (sleeps left) =
    (left ≡ rest)
    × (rest ≢ [])
    × (length (queue p) ≡ pipesize)
    × ((not p.readopen || killed) ≡ false)

-- The bytes `cs` are split in what is behind the queue now, and the rest.
abbrev pub Flows : (killed : Bool) → Pipe → (cs : List ℕ) → Pipe → Written → Type 0
Flows killed p cs p' w =
    (gone : List ℕ) × (rest : List ℕ) × (cs ≡ gone ++ rest)
    × IsPipe p'
    × (queue p' ≡ queue p ++ gone)
    × Ends killed p' rest w

module _ (killed : Bool) where
  write_loop-Flows :
      (cs : List ℕ) (p : Pipe)
      → IsPipe p
      → let (p', w) = write_loop killed cs p in Flows killed p cs p' w
  unfolding write_loop
  write_loop-Flows [] p v = ([], [], refl, v, sym (append-nil (queue p)), refl)
  write_loop-Flows (c ∷ cs) p v = elim (Bool-cases (is_full p)) [
    | inl full ↦
        let len : length (queue p) ≡ pipesize =
          length-slice p.ring p.nread (count p) ∙ full→ p v full in
        elim (Bool-cases (not p.readopen || killed)) [
          | inl stop ↦
              rw (full, stop) ([], c ∷ cs, refl, v, sym (append-nil (queue p)), (len, stop))
          | inr wait ↦
              rw (full, wait)
                ([], c ∷ cs, refl, v, sym (append-nil (queue p)), (refl, (λ e. cc), len, wait))
        ]
    | inr room ↦
        let (v1, q1) = put-queue p c v (not_full→ p v room) in
        let (gone, rest, split, v2, q2, ends) = write_loop-Flows cs (put p c) v1 in
        rw room (
          c ∷ gone,
          rest,
          ap (λ l. c ∷ l) split,
          v2,
          q2 ∙ ap (λ q. q ++ gone) q1 ∙ append_assoc (queue p) (c ∷ []) gone,
          ends,
        )
  ]

  -- From a pipe with a ring of 512 bytes and at most as many written and not read, whatever
  -- `pipewrite` does, the bytes that it has written stand behind those that were in the pipe, in
  -- order, and the pipe is never over-full. It ends when every byte is written; else the pipe is
  -- full, and it returns -1 if there is no reader or the process is killed, and otherwise sleeps,
  -- with exactly the bytes that are not written left.
  pub pipewrite-Flows :
      (p : Pipe) (cs : List ℕ)
      → IsPipe p
      → let (p', w, woken) = pipewrite killed p cs in Flows killed p cs p' w × (woken ≡ wakes w)
  unfolding pipewrite
  pipewrite-Flows p cs v = (write_loop-Flows cs p v, refl)

-- The loop of `piperead` takes bytes off the front.
abbrev pub Takes : Pipe → (n : ℕ) → (cs : List ℕ) → Pipe → Type 0
Takes p n cs p' =
    IsPipe p' × (cs ≡ take n (queue p)) × (queue p' ≡ drop n (queue p)) × (queue p ≡ cs ++ queue p')

empty→ : (p : Pipe) → IsPipe p → is_empty p ≡ true → queue p ≡ []
empty→ p v e =
    let none_left : count p ≡ 0 = ground (arith, v.read_word, v.write_word) in rw none_left

read_loop-Takes : (n : ℕ) (p : Pipe) → IsPipe p → let (cs, p') = read_loop n p in Takes p n cs p'
unfolding read_loop
read_loop-Takes zero p v = (v, refl, refl, refl)
read_loop-Takes (suc n) p v = elim (Bool-cases (is_empty p)) [
  | inl none_left ↦ rw (none_left, empty→ p v none_left) (v, refl, refl, refl)
  | inr more ↦
      let (v1, q1) = get-queue p v (λ e. ground arith) in
      let (v2, took, left, whole) = read_loop-Takes n (get p).1 v1 in
      rw (more, q1) (v2, ap (λ l. (get p).0 ∷ l) took, left, ap (λ l. (get p).0 ∷ l) whole)
]

-- How `piperead` may end.
abbrev pub Reads : (killed : Bool) → Pipe → ℕ → Pipe → Got → Type 0
Reads killed p n p' (bytes cs) = (is_empty p && p.writeopen ≡ false) × Takes p n cs p'
Reads killed p n p' Got.refused = (is_empty p && p.writeopen ≡ true) × (p' ≡ p) × (killed ≡ true)
Reads killed p n p' Got.sleeps = (is_empty p && p.writeopen ≡ true) × (p' ≡ p) × (killed ≡ false)

-- From a pipe with a ring of 512 bytes and at most as many not read, with a byte in it, or no writer left, `piperead` takes the oldest bytes of the
-- pipe, in order and up to `n` of them, and leaves the others; with an empty pipe and a writer it
-- takes nothing, and returns -1 if the process is killed and sleeps otherwise.
pub piperead-Reads :
    (killed : Bool) (p : Pipe) (n : ℕ)
    → IsPipe p
    → let (p', got, woken) = piperead killed p n in Reads killed p n p' got
unfolding piperead
piperead-Reads killed p n v = elim (Bool-cases (is_empty p && p.writeopen)) [
  | inr go ↦ rw go (go, read_loop-Takes n p v)
  | inl wait ↦ elim (Bool-cases killed) [
    | inl k ↦ rw (wait, k) (wait, refl, refl)
    | inr k ↦ rw (wait, k) (wait, refl, refl)
  ]
]
