-- ===== src/Memory/Block.antt =====
-- `memset` and `memmove`: which bytes they leave where.
use a3team_os.Base.{
  ℕ, zero, suc, ◌+◌, ◌-◌, ◌*◌, ◌/◌, ◌%◌, ◌^◌, ◌≤◌, ◌<◌, ◌≡◌, ◌⊎◌, Bool, ◌&&◌, arith, ltb, leb, ◌==◌,
  if◌then◌else◌, Bool-cases, inl, inr,
}
use a3team_os.Memory.{Mem, store, store32, stosb, stosl, memset, copy_up, copy_down, memmove}

abbrev pub within : (a n x : ℕ) → Bool
within a n x = leb a x && ltb x (a + n)

stosb_lem : (m : Mem) (a c n x : ℕ) → stosb m a c n x ≡ (if within a n x then c % 2 ^ 8 else m x)
unfolding stosb
stosb_lem m a c zero x = ground arith
stosb_lem m a c (suc n) x = ground (arith, stosb_lem (store m a (c % 2 ^ 8)) (a + 1) c n x)

store32-repeat :
    (m : Mem) (a b x : ℕ)
    → b < 2 ^ 8
    → store32 m a (b * 2 ^ 24 + b * 2 ^ 16 + b * 2 ^ 8 + b) x ≡ (if within a 4 x then b else m x)
unfolding store32
store32-repeat m a b x h = ground arith

stosl_lem :
    (m : Mem) (a b n x : ℕ)
    → b < 2 ^ 8
    → stosl m a (b * 2 ^ 24 + b * 2 ^ 16 + b * 2 ^ 8 + b) n x
      ≡ (if within a (n * 4) x then b else m x)
unfolding stosl
stosl_lem m a b zero x h = ground arith
stosl_lem m a b (suc n) x h = ground (
  arith,
  stosl_lem (store32 m a (b * 2 ^ 24 + b * 2 ^ 16 + b * 2 ^ 8 + b)) (a + 4) b n x h,
  store32-repeat m a b x h,
)

-- `memset` fills the `n` bytes from `dst` on with the low byte of `c`, and writes nowhere else,
-- whether it goes by words or by bytes.
pub memset_lem :
    (m : Mem) (dst c n x : ℕ) → memset m dst c n x ≡ (if within dst n x then c % 2 ^ 8 else m x)
unfolding memset
memset_lem m dst c n x = elim (Bool-cases ((dst % 4 == 0) && (n % 4 == 0))) [
  | inl words ↦ rw words (ground (arith, stosl_lem m dst (c % 2 ^ 8) (n / 4) x (omega arith)))
  | inr bytes ↦ rw bytes (stosb_lem m dst c n x)
]

copy_up_lem :
    (m : Mem) (d s n x : ℕ)
    → (d ≤ s) ⊎ (s + n ≤ d)
    → copy_up m d s n x ≡ (if within d n x then m (s + (x - d)) else m x)
unfolding copy_up
copy_up_lem m d s zero x h = ground arith
copy_up_lem m d s (suc n) x h =
    ground (arith, copy_up_lem (store m d (m s)) (d + 1) (s + 1) n x, step)
  where
    step : d < x → s + 1 + (x - (d + 1)) ≡ s + (x - d)
    step p = omega arith

copy_down_lem :
    (m : Mem) (d s n x : ℕ)
    → s < d
    → copy_down m d s n x ≡ (if within d n x then m (s + (x - d)) else m x)
unfolding copy_down
copy_down_lem m d s zero x h = ground arith
copy_down_lem m d s (suc n) x h =
    ground (arith, copy_down_lem (store m (d + n) (m (s + n))) d s n x, last)
  where
    last : x ≡ d + n → s + (x - d) ≡ s + n
    last p = omega arith

-- `memmove` leaves at `dst` what stood at `src` before, also where the two ranges overlap, and
-- writes nowhere else.
pub memmove_lem :
    (m : Mem) (dst src n x : ℕ)
    → memmove m dst src n x ≡ (if within dst n x then m (src + (x - dst)) else m x)
unfolding memmove
memmove_lem m dst src n x = elim (Bool-cases (ltb src dst && ltb dst (src + n))) [
  | inl overlap ↦ rw overlap (copy_down_lem m dst src n x (ground arith))
  | inr apart ↦ rw apart (copy_up_lem m dst src n x (ground arith))
]
