-- ===== src/Slab/Alloc/Layout.antt =====
-- Where the objects of a class lie.
use native.Mathlib.Nat.{mod-lt, mul-div_cancel, div-add-mod}
use a3team_os.Base.{ap, dec_lt, ℕ, ◌+◌, ◌*◌, ◌/◌, ◌%◌, ◌≤◌, ◌<◌, ◌≡◌, ◌⊎◌, ◌≢◌, arith, inl, inr}

-- A page holds `per` objects of `size` bytes, and nothing is left over.
abbrev pub Fills : (per size : ℕ) → Type 0
Fills per size = per * size ≡ 4096

room : (r n k : ℕ) → r < n → r * k + k ≤ n * k
room r n k h = grind arith

module _ (per size : ℕ) (full : Fills per size) where
  pub per-pos : 0 < per
  per-pos = grind arith

  pub slot-le : (o : ℕ) → o % per * size + size ≤ 4096
  slot-le o = rw (← full) (room (o % per) per size (mod-lt o per-pos))

  pub row-lt : (n o : ℕ) → o < n * per → o / per < n
  row-lt n o h = grind arith

  pub row-start : (q : ℕ) → q * per / per ≡ q
  row-start q = mul-div_cancel q per-pos

  size-pos : 0 < size
  size-pos = grind arith

  -- The number of an object, from its page and its place there.
  pub offset-eq : (o : ℕ) → o / per * per + o % per * size / size ≡ o
  offset-eq o = rw (mul-div_cancel (o % per) size-pos) (omega (arith, div-add-mod o per))

  -- Two objects of one page do not overlap.
  pub slots_apart :
      (o p : ℕ)
      → o / per ≡ p / per
      → o ≢ p
      → (o % per * size + size ≤ p % per * size) ⊎ (p % per * size + size ≤ o % per * size)
  slots_apart o p same ne = elim (dec_lt (o % per) (p % per)) [
    | yes lt ↦ inl (room (o % per) (p % per) size lt)
    | no ge ↦ inr (
        room (p % per) (o % per) size (omega (arith, (λ (e : o % per ≡ p % per). ne (back e)), ge)))
  ]
    where
      back : o % per ≡ p % per → o ≡ p
      back e = omega (arith, div-add-mod o per, div-add-mod p per, ap (λ t. t * per) same)
