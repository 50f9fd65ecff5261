-- ===== src/Vm/Flags.antt =====
-- The entry of a page table: an address with flags in its low bits.
use a3team_os.Base.{
  ℕ, zero, suc, ◌+◌, ◌*◌, ◌/◌, ◌%◌, ◌≤◌, ◌<◌, ◌≡◌, refl, sym, ◌∙◌, ap, arith, bit_or,
}
use Prim.Native.Nat.{digits, bit_or-bitwise, max}

-- The digits to go may be any number that is large enough.
digits-enough :
    (n m a b : ℕ) → a ≤ n → a ≤ m → digits (λ z. z) max n a b ≡ digits (λ z. z) max m a b
digits-enough zero zero a b h k = refl
digits-enough zero (suc m) zero b h k = refl
digits-enough (suc n) zero zero b h k = refl
digits-enough (suc n) (suc m) zero b h k = refl
digits-enough zero (suc m) (suc a) b h k = absurd (omega (arith, h))
digits-enough (suc n) zero (suc a) b h k = absurd (omega (arith, k))
digits-enough (suc n) (suc m) (suc a) b h k =
    ap (λ z. z * 2 + max (suc a % 2) (b % 2))
      (digits-enough n m (suc a / 2) (b / 2) (omega (arith, h)) (omega (arith, k)))

bit_or-digits : (a b : ℕ) → bit_or a b ≡ digits (λ z. z) max a a b
bit_or-digits a b = λ i. bit_or-bitwise a b i

-- The lowest bit, and the others.
bit_or-step : (a b : ℕ) → bit_or a b ≡ bit_or (a / 2) (b / 2) * 2 + max (a % 2) (b % 2)
bit_or-step zero b = rw (bit_or-digits 0 b, bit_or-digits 0 (b / 2)) (omega arith)
bit_or-step (suc a) b =
    bit_or-digits (suc a) b
    ∙ ap (λ z. z * 2 + max (suc a % 2) (b % 2))
        (digits-enough a (suc a / 2) (suc a / 2) (b / 2) (omega arith) (omega arith)
          ∙ sym (bit_or-digits (suc a / 2) (b / 2)))

abbrev pub doubled : (k c : ℕ) → ℕ
doubled zero c = c
doubled (suc k) c = 2 * doubled k c

-- Flags below a power of two do not meet a multiple of it.
or_low : (k f c : ℕ) → f < doubled k 1 → bit_or f (doubled k c) ≡ f + doubled k c
or_low zero f c h =
    let zero_add : c ≡ 0 + c = omega arith in
    let none_left : f ≡ 0 = omega (arith, h) in rw none_left (bit_or-digits 0 c ∙ zero_add)
or_low (suc k) f c h =
    let half : 2 * doubled k c / 2 ≡ doubled k c = omega arith in
    let even : 2 * doubled k c % 2 ≡ 0 = omega arith in
    let rest = or_low k (f / 2) c (omega (arith, h)) in
    bit_or-step f (2 * doubled k c) ∙ rw (half, even, rest) (omega arith)

pub or_page : (f c : ℕ) → f < 4096 → bit_or f (c * 4096) ≡ f + c * 4096
or_page f c h =
    let whole : doubled 12 c ≡ c * 4096 = omega arith in
    rw whole at (or_low 12 f c (omega (arith, h)))

-- The present bit.
pub or_present : (x : ℕ) → bit_or 1 x ≡ x / 2 * 2 + 1
or_present x = bit_or-step 1 x ∙ rw (bit_or-digits 0 (x / 2)) (omega arith)
