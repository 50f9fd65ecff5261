-- ===== src/Inodes/Tests.antt =====
-- Locks that are taken and released.
use a3team_os.Base.{◌≡◌, refl, true, [], ◌∷◌}
use a3team_os.Inodes.{member, remove}

removed : remove 2 (1 ∷ 2 ∷ 3 ∷ 2 ∷ []) ≡ 1 ∷ 3 ∷ 2 ∷ []
removed = refl

is_held : member 2 (1 ∷ 2 ∷ []) ≡ true
is_held = refl
