-- ===== src/Print/Numbers.antt =====
-- `atoi` reads back what `printint` prints, and `printint` stays inside its buffer.
use a3team_os.Base.{
  ℕ, zero, suc, ◌+◌, ◌-◌, ◌*◌, ◌/◌, ◌%◌, ◌^◌, ◌≤◌, ◌<◌, ◌≡◌, ◌⊎◌, refl, ◌∙◌, ap, Bool, true, false,
  ◌&&◌, List, [], ◌∷◌, ◌++◌, ◌==◌, ltb, arith, length, length-append, Bool-cases, inl, inr,
}
use a3team_os.Print.{
  digit, fill_digits, is_negative, digits_buf, backwards, printint, is_digit, atoi_loop, atoi,
}

-- The numbers that `n` decimal digits can write.
abbrev pub cap : ℕ → ℕ
cap zero = 1
cap (suc n) = 10 * cap n

-- What follows does not go on with a digit.
abbrev pub Stops : List ℕ → Type 0
Stops [] = Unit
Stops (c ∷ cs) = is_digit c ≡ false

one_digit :
    (letters x : ℕ) (rest : List ℕ) (n : ℕ)
    → n * 10 + x % 10 < 2 ^ 32
    → atoi_loop n (digit letters (x % 10) ∷ rest) ≡ atoi_loop (n * 10 + x % 10) rest
unfolding atoi_loop
one_digit letters x rest n low =
    let small : ltb (x % 10) 10 ≡ true = ground arith in
    let is : is_digit (48 + x % 10) ≡ true = ground arith in
    let value : (n * 10 + (48 + x % 10) + (2 ^ 32 - 48)) % 2 ^ 32 ≡ n * 10 + x % 10 =
      omega (arith, low) in
    rw (small, is, value)

further : (n x : ℕ) → x < cap (suc n) → (x / 10 == 0) ≡ false → 0 < n
further zero x few more = absurd (ground arith)
further (suc n) x few more = omega arith

-- The digits of `x` behind each other are read as `x`.
atoi_loop-digits :
    (n letters x : ℕ) (rest : List ℕ)
    → x < cap n
    → x < 2 ^ 32
    → 0 < n
    → atoi_loop 0 (backwards (fill_digits n letters 10 x) rest) ≡ atoi_loop x rest
unfolding fill_digits
atoi_loop-digits zero letters x rest few low some_left = absurd (omega (arith, some_left))
atoi_loop-digits (suc n) letters x rest few low some_left = elim (Bool-cases (x / 10 == 0)) [
  | inl last ↦
      let whole : 0 * 10 + x % 10 ≡ x = ground (arith, last) in
      rw last (one_digit letters x rest 0 (omega (arith, low)) ∙ ap (λ m. atoi_loop m rest) whole)
  | inr more ↦
      let whole : (x / 10) * 10 + x % 10 ≡ x = omega arith in
      rw more (
        atoi_loop-digits n letters (x / 10) (digit letters (x % 10) ∷ rest) (omega (arith, few))
          (omega (arith, low)) (further n x few more)
        ∙ one_digit letters x rest (x / 10) (omega (arith, low))
        ∙ ap (λ m. atoi_loop m rest) whole)
]

backwards-append : (xs ys zs : List ℕ) → backwards xs ys ++ zs ≡ backwards xs (ys ++ zs)
backwards-append [] ys zs = refl
backwards-append (x ∷ xs) ys zs = backwards-append xs (x ∷ ys) zs

backwards-last :
    (xs : List ℕ) (c : ℕ) (out : List ℕ) → backwards (xs ++ (c ∷ [])) out ≡ c ∷ backwards xs out
backwards-last [] c out = refl
backwards-last (x ∷ xs) c out = backwards-last xs c (x ∷ out)

atoi_loop-Stops : (n : ℕ) (rest : List ℕ) → Stops rest → atoi_loop n rest ≡ n
unfolding atoi_loop
atoi_loop-Stops n [] stop = refl
atoi_loop-Stops n (c ∷ cs) stop = rw stop

atoi-digits :
    (letters x : ℕ) (rest : List ℕ)
    → x < 2 ^ 32
    → Stops rest
    → atoi (backwards (fill_digits 32 letters 10 x) [] ++ rest) ≡ x
unfolding atoi
atoi-digits letters x rest low stop =
    ap (atoi_loop 0) (backwards-append (fill_digits 32 letters 10 x) [] rest)
    ∙ atoi_loop-digits 32 letters x rest (omega (arith, low)) low (omega arith)
    ∙ atoi_loop-Stops x rest stop

-- What is read back: a signed number below 0 has a minus sign in front of its absolute value.
abbrev pub Reads : (letters x : ℕ) → (sign : Bool) → List ℕ → (below : Bool) → Type 0
Reads letters x sign rest false = atoi (printint letters x 10 sign ++ rest) ≡ x
Reads letters x sign rest true =
    (out : List ℕ) × (printint letters x 10 sign ≡ 45 ∷ out) × (atoi (out ++ rest) ≡ 2 ^ 32 - x)

-- `atoi` reads the word that `printint` prints in base 10 back, in front of anything but a digit. A
-- negative `int` is a minus sign and its absolute value, also the smallest one.
pub atoi-printint :
    (letters x : ℕ) (sign : Bool) (rest : List ℕ)
    → x < 2 ^ 32
    → Stops rest
    → Reads letters x sign rest (sign && is_negative x)
unfolding printint digits_buf
atoi-printint letters x sign rest low stop = elim (Bool-cases (sign && is_negative x)) [
  | inr natural ↦ rw natural (rw natural (atoi-digits letters x rest low stop))
  | inl below ↦ rw below (
    backwards (fill_digits 32 letters 10 (2 ^ 32 - x)) [],
    (rw below (backwards-last (fill_digits 32 letters 10 (2 ^ 32 - x)) 45 [])),
    atoi-digits letters (2 ^ 32 - x) rest (below_word sign below) stop,
  )
]
  where
    below_word : (s : Bool) → (s && is_negative x) ≡ true → 2 ^ 32 - x < 2 ^ 32
    below_word true h = ground arith
    below_word false h = cc

-- A base in which `base ^ n` numbers have at most `n` digits.
module _ (letters base : ℕ) (wide : (base ≡ 10) ⊎ (base ≡ 16)) where
  shrinks : (x : ℕ) → x / base ≤ x / 10
  shrinks x = elim wide [ inl e ↦ rw e (omega arith) | inr e ↦ rw e (omega arith) ]

  deeper : (m x : ℕ) → x < cap (suc m) → (x / base == 0) ≡ false → 0 < m
  deeper zero x few more =
      let none_left : x / base ≡ 0 = omega (arith, shrinks x, few) in
      ground (arith, none_left, more)
  deeper (suc m) x few more = omega arith

  length-fill_digits : (n m x : ℕ) → x < cap m → 0 < m → length (fill_digits n letters base x) ≤ m
  unfolding fill_digits
  length-fill_digits zero m x few some_left = omega arith
  length-fill_digits (suc n) zero x few some_left = absurd (omega (arith, some_left))
  length-fill_digits (suc n) (suc m) x few some_left = elim (Bool-cases (x / base == 0)) [
    | inl last ↦ rw last (omega arith)
    | inr more ↦
        let small : x / base < cap m = omega (arith, shrinks x, few) in
        rw more (omega (arith, length-fill_digits n m (x / base) small (deeper m x few more)))
  ]

-- The sign and the digits of a word in base 10 or 16 fill at most 11 of the 16 places of `buf`.
pub length-digits_buf :
    (letters base : ℕ)
    → (base ≡ 10) ⊎ (base ≡ 16)
    → (x : ℕ) (sign : Bool) → x < 2 ^ 32
    → length (digits_buf letters x base sign) ≤ 11
unfolding digits_buf
length-digits_buf letters base wide x sign low = elim (Bool-cases (sign && is_negative x)) [
  | inr natural ↦ rw natural (
      omega
        (arith, length-fill_digits letters base wide 32 10 x (omega (arith, low)) (omega arith)))
  | inl below ↦
      rw (below, length-append (fill_digits 32 letters base (2 ^ 32 - x)) (45 ∷ []))
        (omega (
          arith,
          length-fill_digits letters base wide 32 10 (2 ^ 32 - x) (omega arith) (omega arith),
        ))
]
