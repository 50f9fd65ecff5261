-- ===== src/Syscall.antt =====
-- The arguments of system calls, src/syscall.c.
--
-- A process is its size `sz`, its memory and its stack pointer `esp` in the trap frame. An answer is
-- `none` where the code returns -1.
pub mod Arguments
mod Tests
use a3team_os.Base.{
  ℕ, zero, suc, ◌+◌, ◌-◌, ◌*◌, ◌%◌, ◌^◌, Bool, true, false, ◌||◌, Option, none, some, ◌==◌, ltb,
  leb, if◌then◌else◌,
}
use a3team_os.Memory.{Mem, load32}

unfoldable pub fetchint : (sz : ℕ) → Mem → (addr : ℕ) → Option ℕ
fetchint sz m addr =
    if leb sz addr || ltb sz ((addr + 4) % 2 ^ 32) then none else some (load32 m addr)

abbrev pub farther : Option ℕ → Option ℕ
farther none = none
farther (some i) = some (suc i)

-- The loop of `fetchstr` at `s`, with the rounds left: how far the 0 is.
unfoldable pub find_nul : (n : ℕ) → Mem → (s : ℕ) → Option ℕ
find_nul zero m s = none
find_nul (suc n) m s =
    let rest = farther (find_nul n m (s + 1)) in if m s == 0 then some 0 else rest

-- The length of the string at `addr`.
unfoldable pub fetchstr : (sz : ℕ) → Mem → (addr : ℕ) → Option ℕ
fetchstr sz m addr = if leb sz addr then none else find_nul (sz - addr) m addr

unfoldable pub argint : (sz : ℕ) → Mem → (esp n : ℕ) → Option ℕ
argint sz m esp n = fetchint sz m ((esp + 4 + 4 * n) % 2 ^ 32)

-- A negative `size` is a number from 2 ^ 31 on.
abbrev pub check_block : (sz size : ℕ) → Option ℕ → Option ℕ
check_block sz size none = none
check_block sz size (some i) =
    if leb (2 ^ 31) size || leb sz i || ltb sz ((i + size) % 2 ^ 32) then none else some i

unfoldable pub argptr : (sz : ℕ) → Mem → (esp n size : ℕ) → Option ℕ
argptr sz m esp n size = check_block sz size (argint sz m esp n)

-- The address and the length of a string.
abbrev pub with_length : (addr : ℕ) → Option ℕ → Option (ℕ × ℕ)
with_length addr none = none
with_length addr (some n) = some (addr, n)

abbrev pub string_at : (sz : ℕ) → Mem → Option ℕ → Option (ℕ × ℕ)
string_at sz m none = none
string_at sz m (some addr) = with_length addr (fetchstr sz m addr)

unfoldable pub argstr : (sz : ℕ) → Mem → (esp n : ℕ) → Option (ℕ × ℕ)
argstr sz m esp n = string_at sz m (argint sz m esp n)
