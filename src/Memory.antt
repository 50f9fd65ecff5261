-- ===== src/Memory.antt =====
-- Memory as bytes at addresses, and the block operations of src/string.c and src/x86.h on it.
--
-- Addresses are numbers; a range of addresses does not wrap round the end of the address space.
pub mod Block
pub mod Word
mod Tests
use a3team_os.Base.{
  ℕ, zero, suc, ◌+◌, ◌-◌, ◌*◌, ◌/◌, ◌%◌, ◌^◌, Bool, true, false, ◌&&◌, ltb, leb, ◌==◌,
  if◌then◌else◌,
}

abbrev pub Mem : Type 0
Mem = ℕ → ℕ

abbrev pub store : Mem → ℕ → ℕ → Mem
store m a v x = if x == a then v else m x

-- A 32-bit word, lowest byte first.
unfoldable pub load32 : Mem → ℕ → ℕ
load32 m a = m a + 2 ^ 8 * m (a + 1) + 2 ^ 16 * m (a + 2) + 2 ^ 24 * m (a + 3)

unfoldable pub store32 : Mem → ℕ → ℕ → Mem
store32 m a v =
    store
      (store (store (store m a (v % 2 ^ 8)) (a + 1) (v / 2 ^ 8 % 2 ^ 8)) (a + 2)
        (v / 2 ^ 16 % 2 ^ 8))
      (a + 3) (v / 2 ^ 24 % 2 ^ 8)

-- `rep stosb`: `cnt` bytes.
unfoldable pub stosb : Mem → (addr byte cnt : ℕ) → Mem
stosb m addr byte zero = m
stosb m addr byte (suc cnt) = stosb (store m addr (byte % 2 ^ 8)) (addr + 1) byte cnt

-- `rep stosl`: `cnt` words.
unfoldable pub stosl : Mem → (addr word cnt : ℕ) → Mem
stosl m addr word zero = m
stosl m addr word (suc cnt) = stosl (store32 m addr word) (addr + 4) word cnt

-- `c &= 0xFF` has the low byte of `c`, which the four places of the word repeat.
unfoldable pub memset : Mem → (dst c n : ℕ) → Mem
memset m dst c n =
    if (dst % 4 == 0) && (n % 4 == 0)
    then (let b = c % 2 ^ 8 in stosl m dst (b * 2 ^ 24 + b * 2 ^ 16 + b * 2 ^ 8 + b) (n / 4))
    else stosb m dst c n

-- `while (n-- > 0) *d++ = *s++;`
unfoldable pub copy_up : Mem → (d s n : ℕ) → Mem
copy_up m d s zero = m
copy_up m d s (suc n) = copy_up (store m d (m s)) (d + 1) (s + 1) n

-- `while (n-- > 0) *--d = *--s;` from `d + n` and `s + n`.
unfoldable pub copy_down : Mem → (d s n : ℕ) → Mem
copy_down m d s zero = m
copy_down m d s (suc n) = copy_down (store m (d + n) (m (s + n))) d s n

unfoldable pub memmove : Mem → (dst src n : ℕ) → Mem
memmove m dst src n =
    if ltb src dst && ltb dst (src + n) then copy_down m dst src n else copy_up m dst src n

-- The difference of the first two bytes that differ, as the bit pattern of an `int`.
unfoldable pub memcmp : Mem → (v1 v2 n : ℕ) → ℕ
memcmp m v1 v2 zero = 0
memcmp m v1 v2 (suc n) =
    let rest = memcmp m (v1 + 1) (v2 + 1) n in
    if m v1 == m v2 then rest else (m v1 + 2 ^ 32 - m v2) % 2 ^ 32

unfoldable pub strncmp : Mem → (p q n : ℕ) → ℕ
strncmp m p q zero = 0
strncmp m p q (suc n) =
    let rest = strncmp m (p + 1) (q + 1) n in
    let differ = (m p + 2 ^ 32 - m q) % 2 ^ 32 in
    if m p == 0 then differ else (if m p == m q then rest else differ)

-- The second loop of `strncpy`.
unfoldable pub fill_zero : Mem → (s n : ℕ) → Mem
fill_zero m s zero = m
fill_zero m s (suc n) = fill_zero (store m s 0) (s + 1) n

unfoldable pub strncpy : Mem → (s t n : ℕ) → Mem
strncpy m s t zero = m
strncpy m s t (suc n) =
    let copied = store m s (m t) in
    let rest = strncpy copied (s + 1) (t + 1) n in
    let padded = fill_zero copied (s + 1) n in if m t == 0 then padded else rest

-- `while (--n > 0 && (*s++ = *t++) != 0); *s = 0;` with `n - 1` rounds left.
unfoldable pub safe_copy : Mem → (s t n : ℕ) → Mem
safe_copy m s t zero = store m s 0
safe_copy m s t (suc n) =
    let copied = store m s (m t) in
    let rest = safe_copy copied (s + 1) (t + 1) n in
    if m t == 0 then store copied (s + 1) 0 else rest

-- `n` is the bit pattern of an `int`: from 2 ^ 31 on it is negative.
unfoldable pub safestrcpy : Mem → (s t n : ℕ) → Mem
safestrcpy m s t zero = m
safestrcpy m s t (suc n) = if ltb n (2 ^ 31 - 1) then safe_copy m s t n else m
