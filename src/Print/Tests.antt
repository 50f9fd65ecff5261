-- ===== src/Print/Tests.antt =====
-- The theorems on the printing of numbers, applied.
use a3team_os.Base.{◌-◌, ◌^◌, refl, arith, true, [], ◌∷◌}
use a3team_os.Print.Numbers.{Reads, atoi-printint}

-- -120, in front of a blank
atoi-printint_example : Reads 65 (2 ^ 32 - 120) true (32 ∷ []) true
atoi-printint_example = atoi-printint 65 (2 ^ 32 - 120) true (32 ∷ []) (omega arith) refl
