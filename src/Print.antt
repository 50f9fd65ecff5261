-- ===== src/Print.antt =====
-- The printing of numbers and formats in the kernel, src/console.c, and in user programs, src/printf.c,
-- with `atoi` of src/ulib.c.
--
-- What is printed is the list of the characters in order. The arguments of a format are the words of
-- the stack, `args`, from the `k`th on, and `string_at` gives the characters at an address.
pub mod Numbers
mod Tests
use a3team_os.Base.{
  ℕ, zero, suc, ◌+◌, ◌-◌, ◌*◌, ◌/◌, ◌%◌, ◌^◌, Bool, true, false, not, ◌&&◌, ◌||◌, List, [], ◌∷◌,
  ◌++◌, ◌==◌, ltb, leb, if◌then◌else◌,
}

-- `digits[x]`, where the digits from 10 on are `letters` and what follows it.
abbrev pub digit : (letters : ℕ) → ℕ → ℕ
digit letters x = if ltb x 10 then 48 + x else letters + (x - 10)

-- The loop that fills `buf`, with the rounds left: the digits, the lowest one first.
unfoldable pub fill_digits : (n letters base : ℕ) → ℕ → List ℕ
fill_digits zero letters base x = []
fill_digits (suc n) letters base x =
    let rest = fill_digits n letters base (x / base) in
    digit letters (x % base) ∷ (if x / base == 0 then [] else rest)

abbrev pub is_negative : ℕ → Bool
is_negative xx = leb (2 ^ 31) xx

-- `buf`, with the sign at its end. A number has at most 32 digits.
unfoldable pub digits_buf : (letters xx base : ℕ) → (sign : Bool) → List ℕ
digits_buf letters xx base sign =
    if sign && is_negative xx
    then fill_digits 32 letters base (2 ^ 32 - xx) ++ (45 ∷ [])
    else fill_digits 32 letters base xx

-- `while (--i >= 0)`: from the end of `buf` on.
abbrev pub backwards : List ℕ → List ℕ → List ℕ
backwards [] out = out
backwards (c ∷ cs) out = backwards cs (c ∷ out)

-- `printint` of the kernel, whose letters begin with 'a', and of user programs, with 'A'.
unfoldable pub printint : (letters xx base : ℕ) → (sign : Bool) → List ℕ
printint letters xx base sign = backwards (digits_buf letters xx base sign) []

-- A null pointer prints as "(null)".
abbrev pub string_or_null : (string_at : ℕ → List ℕ) → ℕ → List ℕ
string_or_null string_at p = if p == 0 then 40 ∷ 110 ∷ 117 ∷ 108 ∷ 108 ∷ 41 ∷ [] else string_at p

-- What is printed for a character behind a '%', and whether it takes an argument.
abbrev pub directive : (string_at : ℕ → List ℕ) → (c arg : ℕ) → List ℕ × Bool
directive string_at c arg =
    if c == 100
    then (printint 97 arg 10 true, true)
    else if (c == 120) || (c == 112)
    then (printint 97 arg 16 false, true)
    else if c == 115
    then (string_or_null string_at arg, true)
    else if c == 37
    then (37 ∷ [], false)
    else (37 ∷ c ∷ [], false)

-- The format of `cprintf`; `percent` says that the last character was a '%'.
unfoldable pub cprintf :
    (string_at : ℕ → List ℕ) (args : ℕ → ℕ) → (percent : Bool) → (k : ℕ) → List ℕ → List ℕ
cprintf string_at args percent k [] = []
cprintf string_at args false k (c ∷ cs) =
    let rest = c ∷ cprintf string_at args false k cs in
    let start = cprintf string_at args true k cs in if not (c == 37) then rest else start
cprintf string_at args true k (c ∷ cs) =
    let (out, taken) = directive string_at c (args k) in
    let next = cprintf string_at args false (k + 1) cs in
    let same = cprintf string_at args false k cs in out ++ (if taken then next else same)

-- The directives of `printf`, which has '%c' too.
abbrev pub user_directive : (string_at : ℕ → List ℕ) → (c arg : ℕ) → List ℕ × Bool
user_directive string_at c arg =
    if c == 100
    then (printint 65 arg 10 true, true)
    else if (c == 120) || (c == 112)
    then (printint 65 arg 16 false, true)
    else if c == 115
    then (string_or_null string_at arg, true)
    else if c == 99
    then ((arg % 256) ∷ [], true)
    else if c == 37
    then (37 ∷ [], false)
    else (37 ∷ c ∷ [], false)

-- `printf`, with its `state`.
unfoldable pub printf :
    (string_at : ℕ → List ℕ) (args : ℕ → ℕ) → (percent : Bool) → (k : ℕ) → List ℕ → List ℕ
printf string_at args percent k [] = []
printf string_at args false k (c ∷ cs) =
    let rest = c ∷ printf string_at args false k cs in
    let start = printf string_at args true k cs in if c == 37 then start else rest
printf string_at args true k (c ∷ cs) =
    let (out, taken) = user_directive string_at c (args k) in
    let next = printf string_at args false (k + 1) cs in
    let same = printf string_at args false k cs in out ++ (if taken then next else same)

abbrev pub is_digit : ℕ → Bool
is_digit c = leb 48 c && leb c 57

-- The loop of `atoi`.
unfoldable pub atoi_loop : (n : ℕ) → List ℕ → ℕ
atoi_loop n [] = n
atoi_loop n (c ∷ cs) =
    let rest = atoi_loop ((n * 10 + c + (2 ^ 32 - 48)) % 2 ^ 32) cs in
    if is_digit c then rest else n

unfoldable pub atoi : List ℕ → ℕ
atoi s = atoi_loop 0 s
