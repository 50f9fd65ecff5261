-- ===== src/Slab/SizeClass.antt =====
-- Which size class serves a request: `getnumofBits`, `nextPowerOf2` and `getslabIdx` of src/slab.c.
use a3team_os.Base.{
  ◌≢◌, ==_iff, ℕ, zero, suc, ◌+◌, ◌-◌, ◌*◌, ◌/◌, ◌%◌, ◌^◌, ◌≤◌, ◌<◌, ◌≡◌, ◌⊎◌, refl, Bool, true,
  ◌&&◌, ◌||◌, bit_and, arith, ltb, leb, ◌==◌, if◌then◌else◌, Bool-cases, inl, inr,
}
use a3team_os.Base.Table.{all_below, all_below_sound}
use a3team_os.Slab.Bits.{int_mod}
use native.Mathlib.Nat.{pow-suc}

-- `while (n != 0) { n >>= 1; count += 1; }`. Thirty-two rounds do for an `unsigned int`.
unfoldable pub num_bits_loop : ℕ → (n count : ℕ) → ℕ
num_bits_loop zero n count = count
num_bits_loop (suc fuel) n count =
    let rest = num_bits_loop fuel (n / 2) (count + 1) in if n == 0 then count else rest

unfoldable pub get_num_of_bits : ℕ → ℕ
unfolding num_bits_loop
get_num_of_bits n = num_bits_loop 32 n 0

-- The shift is by at most 32; by 32 the processor shifts by 0, and C says nothing.
unfoldable pub next_power_of_2 : ℕ → ℕ
unfolding get_num_of_bits
next_power_of_2 n =
    if ltb n 8 then 8 else if bit_and n (n - 1) == 0 then n else 2 ^ (get_num_of_bits n % 32)

-- The difference of two `unsigned int`s wraps.
unfoldable pub get_slab_idx : ℕ → ℕ
unfolding get_num_of_bits
get_slab_idx n = (get_num_of_bits n + (int_mod - 4)) % int_mod

-- `k` is the number of binary digits of `n`.
abbrev pub Digits : ℕ → ℕ → Type 0
Digits n k = (n < 2 ^ k) × ((n ≡ 0) × (k ≡ 0) ⊎ (2 ^ k ≤ 2 * n))

Digits-half : (n k : ℕ) → n ≢ 0 → Digits (n / 2) k → Digits n (suc k)
Digits-half n k pos (below, inl (e, k_eq)) =
    let one : 2 ^ suc k ≡ 2 = rw k_eq in (omega arith, inr (omega arith))
Digits-half n k pos (below, inr above) =
    (omega (arith, pow-suc 2 k), inr (omega (arith, pow-suc 2 k)))

num_bits_loop-Digits :
    (fuel n count : ℕ)
    → n < 2 ^ fuel
    → (k : ℕ) × (num_bits_loop fuel n count ≡ count + k) × Digits n k
unfolding num_bits_loop
num_bits_loop-Digits zero n count h = (0, omega arith, (h, inl (omega arith)))
num_bits_loop-Digits (suc fuel) n count h = elim (Bool-cases (n == 0)) [
  | inl stop ↦ (0, rw stop (omega arith), (ground arith, inl (ground arith)))
  | inr go ↦
      let (k, e, digits) =
        num_bits_loop-Digits fuel (n / 2) (count + 1) (omega (arith, pow-suc 2 fuel)) in
      (suc k, rw go (omega arith), Digits-half n k (λ z. absurd (ground arith)) digits)
]

-- `getnumofBits` counts the binary digits of every `unsigned int`: its loop ends within the fuel.
pub get_num_of_bits-Digits : (n : ℕ) → n < int_mod → Digits n (get_num_of_bits n)
unfolding get_num_of_bits
get_num_of_bits-Digits n h =
    let (k, e, digits) = num_bits_loop-Digits 32 n 0 h in
    let e' : num_bits_loop 32 n 0 ≡ k = omega arith in rw e' digits

fits : ℕ → Bool
fits n =
    let idx = get_slab_idx (next_power_of_2 (n + 1)) in
    let bytes = 8 * 2 ^ idx in
    ltb idx 9 && (leb (n + 1) bytes && ((idx == 0) || ltb bytes (2 * (n + 1))))

fits_table : all_below 2048 fits ≡ true
unfolding all_below fits get_slab_idx next_power_of_2
fits_table = refl

-- The class that `kmalloc` chooses is the smallest one whose objects hold the request.
pub get_slab_idx-fits :
    (size : ℕ)
    → 0 < size
    → size ≤ 2048
    → let idx = get_slab_idx (next_power_of_2 size) in
      (idx < 9) × (size ≤ 8 * 2 ^ idx) × ((idx ≡ 0) ⊎ (8 * 2 ^ idx < 2 * size))
unfolding fits
get_slab_idx-fits zero pos h = elim pos [ ]
get_slab_idx-fits (suc n) pos h =
    let ok : fits n ≡ true = all_below_sound fits n (omega arith) fits_table in
    let e : n + 1 ≡ suc n = omega arith in ground (arith, rw e at ok)

power : ℕ → Bool
power idx = get_slab_idx (8 * 2 ^ idx) == idx

power_table : all_below 9 power ≡ true
unfolding all_below power get_slab_idx
power_table = refl

-- `kmfree` takes the class from the size itself: for the size of a class it is that class.
pub get_slab_idx-power : (idx : ℕ) → idx < 9 → get_slab_idx (8 * 2 ^ idx) ≡ idx
unfolding power
get_slab_idx-power idx h = (==_iff _ idx).0 (all_below_sound power idx h power_table)
