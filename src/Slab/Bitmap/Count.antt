-- ===== src/Slab/Bitmap/Count.antt =====
-- How many objects are in use, and where the first free one is.
use a3team_os.Base.{
  ap, ℕ, zero, suc, ◌≤◌, ◌<◌, ◌≡◌, refl, sym, ◌∙◌, Bool, true, false, some, List, [], ◌∷◌, arith,
  length, get_or, set, Option-cases, inl, inr,
}
use a3team_os.Slab.Bits.{byte_bits, first_false, count_columns, counted, count_columns-counted}
use a3team_os.Slab.Bitmap.{count_rows}
use a3team_os.Slab.Bitmap.View.{Bytes, bits}
use a3team_os.Slab.Bitmap.Claim.{
  first_false-append_some, first_false-append_none, shift-eq_some, some_inj,
}

abbrev pub count_true : List Bool → ℕ
count_true [] = 0
count_true (true ∷ bs) = suc (count_true bs)
count_true (false ∷ bs) = count_true bs

pub count_true-le : (bs : List Bool) → count_true bs ≤ length bs
count_true-le [] = omega arith
count_true-le (true ∷ bs) = omega (arith, count_true-le bs)
count_true-le (false ∷ bs) = omega (arith, count_true-le bs)

-- Where not all bits are set there is a first clear one, and all before it are set.
pub first_false-exists :
    (bs : List Bool)
    → count_true bs < length bs
    → (k : ℕ) × (first_false bs ≡ some k) × (k ≤ count_true bs)
unfolding first_false
first_false-exists [] h = absurd (omega arith)
first_false-exists (false ∷ bs) h = (0, refl, omega arith)
first_false-exists (true ∷ bs) h =
    let (k, e, le) = first_false-exists bs (omega arith) in (suc k, rw e, omega arith)

pub first_false-clear :
    (bs : List Bool) (k : ℕ) → first_false bs ≡ some k → get_or bs k false ≡ false
unfolding first_false
first_false-clear [] k h = cc
first_false-clear (false ∷ bs) k h = rw (← some_inj h)
first_false-clear (true ∷ bs) zero h = elim (Option-cases (first_false bs)) [
  | inl n ↦ ground arith
  | inr (j, e) ↦ ground (arith, e)
]
first_false-clear (true ∷ bs) (suc k) h = elim (Option-cases (first_false bs)) [
  | inl n ↦ ground arith
  | inr (j, e) ↦ first_false-clear bs k (ground (arith, e))
]

pub count_true-set :
    (bs : List Bool) (k : ℕ)
    → k < length bs
    → get_or bs k false ≡ false
    → count_true (set bs k true) ≡ suc (count_true bs)
count_true-set [] k h off = absurd (omega arith)
count_true-set (true ∷ bs) zero h off = cc
count_true-set (false ∷ bs) zero h off = refl
count_true-set (true ∷ bs) (suc k) h off = omega (arith, count_true-set bs k (omega arith) off)
count_true-set (false ∷ bs) (suc k) h off = count_true-set bs k (omega arith) off

pub count_true-unset :
    (bs : List Bool) (k : ℕ)
    → get_or bs k false ≡ true
    → suc (count_true (set bs k false)) ≡ count_true bs
count_true-unset [] k on = cc
count_true-unset (true ∷ bs) zero on = refl
count_true-unset (false ∷ bs) zero on = cc
count_true-unset (true ∷ bs) (suc k) on = omega (arith, count_true-unset bs k on)
count_true-unset (false ∷ bs) (suc k) on = count_true-unset bs k on

-- The loops of `checkNewpage` find the first clear bit.
pub count_rows-first :
    (bm : List ℕ) {k : ℕ} → Bytes bm → first_false (bits bm) ≡ some k → count_rows bm ≡ k
unfolding count_rows first_false
count_rows-first [] small h = cc
count_rows-first (b ∷ bm) {k} small h = elim (Option-cases (first_false (byte_bits b))) [
  | inr (c, e) ↦
      let col : count_columns 8 0 b ≡ (c, true) = count_columns-counted b small.0 ∙ ap counted e in
      rw col (some_inj (sym (first_false-append_some (byte_bits b) (bits bm) e) ∙ h))
  | inl n ↦
      let (i, e, k_eq) =
        shift-eq_some 8 (first_false (bits bm))
          (sym (first_false-append_none (byte_bits b) (bits bm) n) ∙ h) in
      let col : count_columns 8 0 b ≡ (8, false) = count_columns-counted b small.0 ∙ ap counted n in
      rw col (omega (arith, count_rows-first bm small.1 e, k_eq))
]
