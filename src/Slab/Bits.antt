-- ===== src/Slab/Bits.antt =====
-- The bit operations of src/slab.c on an `int`, and what they do to a byte of the bitmap.
--
-- An `int` is its bit pattern, a number below 2 ^ 32. A byte of the bitmap is a number below 256;
-- `char` is signed on this machine, so reading it into an `int` extends its sign, and storing an
-- `int` into it keeps the low eight bits.
use a3team_os.Base.{
  ℕ, zero, suc, ◌+◌, ◌-◌, ◌%◌, ◌^◌, ◌<◌, ◌≡◌, refl, ap₂, Bool, true, false, not, ◌&&◌, ◌||◌, Option,
  none, some, List, [], ◌∷◌, bit_and, bit_or, bit_xor, arith, ltb, ◌==◌, if◌then◌else◌, set,
}
use a3team_os.Base.Table.{all_below, all_below_sound}

abbrev pub int_mod : ℕ
int_mod = 2 ^ 32

unfoldable pub set_bit : ℕ → ℕ → ℕ
set_bit num i = bit_or num (2 ^ i)

unfoldable pub get_bit : ℕ → ℕ → Bool
get_bit num i = not (bit_and num (2 ^ i) == 0)

-- `~x` on an `int` flips all 32 bits.
unfoldable pub clear_bit : ℕ → ℕ → ℕ
clear_bit num i = bit_and num (bit_xor (2 ^ i) (int_mod - 1))

-- `char` to `int`
unfoldable pub extend : ℕ → ℕ
extend b = if ltb b 128 then b else b + (int_mod - 256)

-- `int` to `char`
unfoldable pub truncate : ℕ → ℕ
truncate n = n % 256

-- Bit `k` of a byte, as the code reads it.
unfoldable pub byte_bit : ℕ → ℕ → Bool
unfolding get_bit extend
byte_bit b k = get_bit (extend b) k

-- The byte after `bitmap[j] = set_bit(bitmap[j], k)`, and after `clear_bit`.
unfoldable pub byte_set : ℕ → ℕ → ℕ
unfolding set_bit extend truncate
byte_set b k = truncate (set_bit (extend b) k)

unfoldable pub byte_clear : ℕ → ℕ → ℕ
unfolding clear_bit extend truncate
byte_clear b k = truncate (clear_bit (extend b) k)

-- The inner loop of `setBitmap`: the first clear bit of a byte from column `k` on.
unfoldable pub free_column : ℕ → ℕ → ℕ → Option ℕ
free_column zero k b = none
free_column (suc n) k b =
    let rest = free_column n (k + 1) b in if byte_bit b k then rest else some k

-- The eight bits of a byte, lowest first.
abbrev pub byte_bits : ℕ → List Bool
byte_bits b =
    byte_bit b 0
    ∷ byte_bit b 1
    ∷ byte_bit b 2
    ∷ byte_bit b 3
    ∷ byte_bit b 4
    ∷ byte_bit b 5
    ∷ byte_bit b 6
    ∷ byte_bit b 7
    ∷ []

-- The position of the first `false`.
unfoldable pub first_false : List Bool → Option ℕ
first_false [] = none
first_false (false ∷ bs) = some 0
first_false (true ∷ bs) = elim (first_false bs) [ none ↦ none | some o ↦ some (suc o) ]

unfoldable pub any_true : List Bool → Bool
any_true [] = false
any_true (b ∷ bs) = b || any_true bs

-- The inner loop of `checkNewpage`: how many bits are set from column `j` on before the first clear
-- one, and whether there is a clear one.
unfoldable pub count_columns : ℕ → ℕ → ℕ → ℕ × Bool
count_columns zero j b = (0, false)
count_columns (suc n) j b =
    let rest : ℕ × Bool = (let (c, found) = count_columns n (j + 1) b in (c + 1, found)) in
    if byte_bit b j then rest else (0, true)

-- What it finds, told from the first clear bit.
abbrev pub counted : Option ℕ → ℕ × Bool
counted none = (8, false)
counted (some k) = (k, true)

bool_eq : Bool → Bool → Bool
bool_eq true b = b
bool_eq false b = not b

bits_eq : List Bool → List Bool → Bool
bits_eq [] [] = true
bits_eq [] (y ∷ ys) = false
bits_eq (x ∷ xs) [] = false
bits_eq (x ∷ xs) (y ∷ ys) = bool_eq x y && bits_eq xs ys

bool_eq_sound : (a b : Bool) → bool_eq a b ≡ true → a ≡ b
unfolding bool_eq
bool_eq_sound true b h = ground arith
bool_eq_sound false true h = cc
bool_eq_sound false false h = refl

bits_eq_sound : (xs ys : List Bool) → bits_eq xs ys ≡ true → xs ≡ ys
unfolding bits_eq
bits_eq_sound [] [] h = refl
bits_eq_sound [] (y ∷ ys) h = cc
bits_eq_sound (x ∷ xs) [] h = cc
bits_eq_sound (x ∷ xs) (y ∷ ys) h =
    ap₂ ◌∷◌ (bool_eq_sound x y (ground arith)) (bits_eq_sound xs ys (ground arith))

option_eq : Option ℕ → Option ℕ → Bool
option_eq none none = true
option_eq none (some b) = false
option_eq (some a) none = false
option_eq (some a) (some b) = a == b

option_eq_sound : (a b : Option ℕ) → option_eq a b ≡ true → a ≡ b
unfolding option_eq
option_eq_sound none none h = refl
option_eq_sound none (some b) h = cc
option_eq_sound (some a) none h = cc
option_eq_sound (some a) (some b) h = ground arith

pair_eq : ℕ × Bool → ℕ × Bool → Bool
pair_eq p q = (p.0 == q.0) && bool_eq p.1 q.1

pair_eq_sound : (p q : ℕ × Bool) → pair_eq p q ≡ true → p ≡ q
unfolding pair_eq
pair_eq_sound p q h = ground (arith, bool_eq_sound p.1 q.1)

set_table :
    all_below 256
      (λ b. all_below 8 (λ k. bits_eq (byte_bits (byte_set b k)) (set (byte_bits b) k true)))
    ≡ true
unfolding all_below byte_bit byte_set bits_eq bool_eq
set_table = refl

clear_table :
    all_below 256
      (λ b. all_below 8 (λ k. bits_eq (byte_bits (byte_clear b k)) (set (byte_bits b) k false)))
    ≡ true
unfolding all_below byte_bit byte_clear bits_eq bool_eq
clear_table = refl

column_table : all_below 256 (λ b. option_eq (free_column 8 0 b) (first_false (byte_bits b))) ≡ true
unfolding all_below byte_bit free_column first_false option_eq
column_table = refl

count_table :
    all_below 256 (λ b. pair_eq (count_columns 8 0 b) (counted (first_false (byte_bits b)))) ≡ true
unfolding all_below byte_bit count_columns first_false pair_eq bool_eq
count_table = refl

extend_table : all_below 256 (λ b. not (extend b == 255)) ≡ true
unfolding all_below extend
extend_table = refl

zero_table : all_below 256 (λ b. bool_eq (b == 0) (not (any_true (byte_bits b)))) ≡ true
unfolding all_below byte_bit any_true bool_eq
zero_table = refl

-- Setting bit `k` of a byte sets that bit and no other.
pub byte_bits-byte_set :
    (b k : ℕ) → b < 256 → k < 8 → byte_bits (byte_set b k) ≡ set (byte_bits b) k true
byte_bits-byte_set b k hb hk =
    bits_eq_sound _ _ (all_below_sound _ k hk (all_below_sound _ b hb set_table))

-- Clearing bit `k` of a byte clears that bit and no other.
pub byte_bits-byte_clear :
    (b k : ℕ) → b < 256 → k < 8 → byte_bits (byte_clear b k) ≡ set (byte_bits b) k false
byte_bits-byte_clear b k hb hk =
    bits_eq_sound _ _ (all_below_sound _ k hk (all_below_sound _ b hb clear_table))

pub free_column-first_false : (b : ℕ) → b < 256 → free_column 8 0 b ≡ first_false (byte_bits b)
free_column-first_false b hb = option_eq_sound _ _ (all_below_sound _ b hb column_table)

pub count_columns-counted :
    (b : ℕ) → b < 256 → count_columns 8 0 b ≡ counted (first_false (byte_bits b))
count_columns-counted b hb = pair_eq_sound _ _ (all_below_sound _ b hb count_table)

-- A sign-extended byte is never 0xFF: the first test of `setBitmap` does not fire.
pub extend-ne : (b : ℕ) → b < 256 → (extend b == 255) ≡ false
extend-ne b hb = flip (extend b == 255) (all_below_sound _ b hb extend_table)
  where
    flip : (x : Bool) → not x ≡ true → x ≡ false
    flip true h = cc
    flip false h = refl

pub byte_set-lt : (b k : ℕ) → byte_set b k < 256
unfolding byte_set
byte_set-lt b k = omega arith

pub byte_clear-lt : (b k : ℕ) → byte_clear b k < 256
unfolding byte_clear
byte_clear-lt b k = omega arith

-- A byte is zero exactly when none of its eight bits is set.
pub zero-any_true : (b : ℕ) → b < 256 → (b == 0) ≡ not (any_true (byte_bits b))
zero-any_true b hb = bool_eq_sound _ _ (all_below_sound _ b hb zero_table)
