-- ===== src/Memory/Word.antt =====
-- Words in memory.
use a3team_os.Base.{ℕ, ◌+◌, ◌^◌, ◌≤◌, ◌<◌, ◌≡◌, ◌⊎◌, arith}
use a3team_os.Memory.{Mem, load32, store32}

-- A stored word is read back.
pub load32-store32 : (m : Mem) (a v : ℕ) → v < 2 ^ 32 → load32 (store32 m a v) a ≡ v
unfolding load32 store32
load32-store32 m a v h = ground arith

-- A word stored elsewhere does not matter.
pub store32-other : (m : Mem) (a v x : ℕ) → (x < a) ⊎ (a + 4 ≤ x) → store32 m a v x ≡ m x
unfolding store32
store32-other m a v x h = ground arith

pub load32-eq :
    (m n : Mem) (a : ℕ) → ((x : ℕ) → a ≤ x → x < a + 4 → n x ≡ m x) → load32 n a ≡ load32 m a
unfolding load32
load32-eq m n a h = ground (arith, h a, h (a + 1), h (a + 2), h (a + 3))
