-- ===== src/Transfers/Writing.antt =====
-- How much of a write is done.
use a3team_os.Base.{
  ℕ, zero, suc, ◌+◌, ◌%◌, ◌^◌, ◌<◌, ◌≤◌, ◌≡◌, refl, ap, ◌∙◌, Bool, true, false, not, Option, none,
  some, List, [], ◌∷◌, ◌==◌, if◌then◌else◌, take, drop, length, arith,
}
use a3team_os.Base.Maybe.{Each}
use a3team_os.Fs.{Super}
use a3team_os.Inodes.{State}
use a3team_os.Inodes.Gives.{
  Gives, pure-Gives, panic-Gives, if-Gives, null-Gives, bind-Gives, any-Gives, Gives-weaken,
}
use a3team_os.File.{File, Kind, fd_none, fd_pipe, fd_inode}
use a3team_os.Transfers.{
  Device, Outcome, answers, to_pipe, move_on, write_chunk, write_chunks, write_at, write_as,
  filewrite, write_max,
}

-- The offset has gone forward over `m` of the bytes, and over all of them when the loop says so.
abbrev Done : File → List ℕ → File × Bool → Type 0
Done f left (f', b) =
    (m : ℕ) × (m ≤ length left) × (f' ≡ move_on m f) × (b ≡ true → m ≡ length left)

length-take-drop : (m : ℕ) (xs : List ℕ) → length (take m xs) + length (drop m xs) ≡ length xs
length-take-drop zero xs = omega arith
length-take-drop (suc m) [] = refl
length-take-drop (suc m) (x ∷ xs) = omega (arith, length-take-drop m xs)

length-take_pos : (m : ℕ) (xs : List ℕ) → 0 < m → 0 < length xs → 0 < length (take m xs)
length-take_pos zero xs h k = absurd (omega arith)
length-take_pos (suc m) [] h k = absurd (omega arith)
length-take_pos (suc m) (x ∷ xs) h k = omega arith

move_on_twice : (a b : ℕ) (f : File) → move_on b (move_on a f) ≡ move_on (a + b) f
move_on_twice a b f = ap (λ o. record f { off = o }) (omega arith)

move_on_none : (f : File) → f.off < 2 ^ 32 → f ≡ move_on 0 f
move_on_none f h = ap (λ o. record f { off = o }) (omega (arith, h))

same_of : (a b : ℕ) → not (a == b) ≡ false → a ≡ b
same_of a b e = ground (arith, e)

pos_of : (n : ℕ) → (n == 0) ≡ false → 0 < n
pos_of n e = ground (arith, e)

-- A round that writes `r` bytes leaves fewer of them.
fewer :
    (m r n : ℕ) (left : List ℕ)
    → 0 < m
    → 0 < length left
    → r ≡ length (take m left)
    → length left ≤ suc n
    → length (drop m left) ≤ n
fewer m r n left pos some_left full k =
    omega (arith, length-take-drop m left, length-take_pos m left pos some_left)

-- What is done of the rest is done of the whole.
whole :
    (m r : ℕ) (f : File) (left : List ℕ)
    → r ≡ length (take m left)
    → (a : File × Bool) → Done (move_on r f) (drop m left) a
    → Done f left a
whole m r f left full (f', b) (k, low, same, all) =
    let parts = length-take-drop m left in
    (
      r + k,
      omega (arith, low, full, parts),
      same ∙ move_on_twice r k f,
      λ e. omega (arith, all e, full, parts),
    )

module _ (sb : Super) (devsw : ℕ → Device) where
  write_chunks-Done :
      (n : ℕ) (f : File) (left : List ℕ)
      → f.off < 2 ^ 32
      → length left ≤ n
      → Gives (write_chunks sb devsw n f left) (Done f left)
  unfolding write_chunks
  write_chunks-Done zero f left h k =
      pure-Gives (f, length left == 0) (0, omega arith, move_on_none f h, λ e. omega (arith, k))
  write_chunks-Done (suc n) f left h k =
      if-Gives (length left == 0)
        (λ e. pure-Gives (f, true) (0, omega arith, move_on_none f h, λ e'. ground (arith, e)))
        (λ some_left. bind-Gives (any-Gives (write_chunk sb devsw f (take write_max left))) (λ r u.
          null-Gives r (pure-Gives (f, false) (0, omega arith, move_on_none f h, λ e. cc)) (λ r.
            if-Gives (not (r == length (take write_max left))) (λ e. panic-Gives)
              (λ e.
                let full = same_of r (length (take write_max left)) e in
                Gives-weaken (whole write_max r f left full) (
                  write_chunks-Done n (move_on r f) (drop write_max left) (small (f.off + r)) (
                    fewer write_max r n left (omega arith) (pos_of (length left) some_left) full
                      k))))))
    where
      small : (k : ℕ) → k % 2 ^ 32 < 2 ^ 32
      small k = omega arith

  -- The offset of a file that `filewrite` has written to, and what it returns.
  abbrev pub Advanced : File → List ℕ → File × Outcome (Option ℕ) → Type 0
  Advanced f src (f', answers (some n)) = (n ≡ length src) × (f' ≡ move_on n f)
  Advanced f src (f', answers none) = (m : ℕ) × (m ≤ length src) × (f' ≡ move_on m f)
  Advanced f src (f', to_pipe p) = (p ≡ f.pipe) × (f.kind ≡ fd_pipe) × (f' ≡ f)

  -- When `filewrite` of a file with an offset of 32 bits returns the number of bytes, it is all of
  -- them, and the offset has gone forward by it; when it returns -1 the offset has gone forward by
  -- at most the number of bytes. Nothing else of the file changes, and only a pipe is handed on.
  pub filewrite-Advanced :
      (f : File) (src : List ℕ) (s : State)
      → f.off < 2 ^ 32
      → Each (λ r. Advanced f src r.0) (filewrite sb devsw f src s)
  unfolding filewrite write_as write_at
  filewrite-Advanced f src s h =
      (if-Gives (not f.writable)
          (λ e. pure-Gives (f, answers none) (0, omega arith, move_on_none f h))
          (λ e. of_kind f.kind refl)).each
        s
    where
      told :
          (d : File × Bool)
          → Done f src d
          → Advanced f src (d.0, answers (if d.1 then some (length src) else none))
      told (f', true) (m, low, same, all) = (refl, same ∙ ap (λ k. move_on k f) (all refl))
      told (f', false) (m, low, same, all) = (m, low, same)

      of_kind : (k : Kind) → f.kind ≡ k → Gives (write_as sb devsw k f src) (Advanced f src)
      of_kind fd_pipe e = pure-Gives (f, to_pipe f.pipe) (refl, e, refl)
      of_kind fd_none e = panic-Gives
      of_kind fd_inode e =
          bind-Gives (write_chunks-Done (length src) f src h (omega arith))
            (λ d done. pure-Gives _ (told d done))
