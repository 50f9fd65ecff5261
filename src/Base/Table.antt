-- ===== src/Base/Table.antt =====
-- Facts over a small range, by evaluation of every value.
use Prim.Native.Nat.{ℕ, zero, suc, ◌<◌}
use mathlib.Core.Path.{◌≡◌}
use mathlib.Core.Bool.{Bool, true, false}
use native.Mathlib.Omega.{arith}
use a3team_os.Base.Tests.{if◌then◌else◌}

-- The test `p` on the numbers below `bound`, from the highest down.
unfoldable pub all_below : (bound : ℕ) → (ℕ → Bool) → Bool
all_below zero p = true
all_below (suc k) p = let lower = all_below k p in if p k then lower else false

module _ (p : ℕ → Bool) (n : ℕ) where
  pub all_below_sound : {bound : ℕ} → n < bound → all_below bound p ≡ true → p n ≡ true
  unfolding all_below
  all_below_sound {bound = zero} inside checked = absurd (omega arith)
  all_below_sound {bound = suc k} inside checked = ground (arith, all_below_sound {bound = k})
