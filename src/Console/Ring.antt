-- ===== src/Console/Ring.antt =====
-- The ring of the console as two lists: the characters for the readers, and the line that is typed.
use a3team_os.Base.{
  ℕ, zero, suc, ◌+◌, ◌-◌, ◌%◌, ◌^◌, ◌≤◌, ◌<◌, ◌≡◌, ◌≢◌, refl, ◌∙◌, ap, false, List, [], ◌∷◌, ◌++◌,
  arith, ◌==◌, length, get_or, set, get_or-set_ne,
}
use a3team_os.Console.{Input, input_buf}

-- `n` characters of the ring from place `r` on.
abbrev pub slice : List ℕ → (r n : ℕ) → List ℕ
slice d r zero = []
slice d r (suc n) = get_or d (r % input_buf) 0 ∷ slice d (r + 1) n

-- How far `uint` place `w` is behind place `r`.
abbrev pub distance : (r w : ℕ) → ℕ
distance r w = (w + (2 ^ 32 - r)) % 2 ^ 32

abbrev pub ready : Input → List ℕ
ready i = slice i.buf i.r (distance i.r i.w)

abbrev pub line : Input → List ℕ
line i = slice i.buf i.w (distance i.w i.e)

-- No end of a line is inside.
abbrev pub Plain : List ℕ → Type 0
Plain [] = Unit
Plain (c ∷ cs) = ((c == 10) ≡ false) × Plain cs

pub record IsInput (i : Input) : Type 0 where
  pub size : length i.buf ≡ input_buf
  pub read_word : i.r < 2 ^ 32
  pub write_word : i.w < 2 ^ 32
  pub edit_word : i.e < 2 ^ 32
  pub bound : distance i.r i.w + distance i.w i.e ≤ input_buf
  pub plain : Plain (line i)

pub length-slice : (d : List ℕ) (r n : ℕ) → length (slice d r n) ≡ n
length-slice d r zero = refl
length-slice d r (suc n) = ap suc (length-slice d (r + 1) n)

-- Places that agree modulo the size of the ring.
pub slice-mod : (d : List ℕ) (r s n : ℕ) → r % input_buf ≡ s % input_buf → slice d r n ≡ slice d s n
slice-mod d r s zero e = refl
slice-mod d r s (suc n) e = rw (e, slice-mod d (r + 1) (s + 1) n (omega arith))

pub slice-split :
    (d : List ℕ) (r s m n : ℕ)
    → (r + m) % input_buf ≡ s % input_buf
    → slice d r (m + n) ≡ slice d r m ++ slice d s n
slice-split d r s zero n e =
    let none_left : 0 + n ≡ n = omega arith in rw none_left (slice-mod d r s n (omega (arith, e)))
slice-split d r s (suc m) n e =
    let one_more : suc m + n ≡ suc (m + n) = omega arith in
    rw one_more
      (ap (λ l. get_or d (r % input_buf) 0 ∷ l) (slice-split d (r + 1) s m n (omega (arith, e))))

-- The last character.
pub slice-last :
    (d : List ℕ) (r n : ℕ)
    → slice d r (suc n) ≡ slice d r n ++ (get_or d ((r + n) % input_buf) 0 ∷ [])
slice-last d r n =
    let more : suc n ≡ n + 1 = omega arith in ap (slice d r) more ∙ slice-split d r (r + n) n 1 refl

-- A write elsewhere.
pub slice-set_ne :
    (d : List ℕ) (w c r n : ℕ)
    → ((j : ℕ) → j < n → (r + j) % input_buf ≢ w)
    → slice (set d w c) r n ≡ slice d r n
slice-set_ne d w c r zero h = refl
slice-set_ne d w c r (suc n) h = rw (
  get_or-set_ne d w (r % input_buf) c 0 (λ q. h 0 (omega arith) (omega (arith, q))),
  slice-set_ne d w c (r + 1) n (λ j low q. h (j + 1) (omega arith) (omega (arith, q))),
)

pub Plain-append : (xs ys : List ℕ) → Plain (xs ++ ys) → Plain xs × Plain ys
Plain-append [] ys h = (tt, h)
Plain-append (x ∷ xs) ys h = let (p, q) = Plain-append xs ys h.1 in ((h.0, p), q)

pub append-Plain : (xs ys : List ℕ) → Plain xs → Plain ys → Plain (xs ++ ys)
append-Plain [] ys p q = q
append-Plain (x ∷ xs) ys p q = (p.0, append-Plain xs ys p.1 q)

abbrev pub drop_last : List ℕ → List ℕ
drop_last [] = []
drop_last (x ∷ []) = []
drop_last (x ∷ y ∷ ys) = x ∷ drop_last (y ∷ ys)

pub drop_last-append : (xs : List ℕ) (c : ℕ) → drop_last (xs ++ (c ∷ [])) ≡ xs
drop_last-append [] c = refl
drop_last-append (x ∷ []) c = refl
drop_last-append (x ∷ y ∷ ys) c = ap (λ l. x ∷ l) (drop_last-append (y ∷ ys) c)
