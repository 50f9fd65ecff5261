-- ===== src/Fs/Bitmap.antt =====
-- `balloc` gives out a block that was free.
use a3team_os.Base.{
  ◌/◌, ◌*◌, ◌^◌, ◌&&◌, not, if◌then◌else◌, Bool, false, bit_or, bit_and, get_or, length, ◌==◌, refl,
  sym, ◌∙◌, get_or-set_self, get_or-set_ne, length-set, length, bit_or, get_or, bit_and, false,
  Bool, ℕ, zero, suc, ◌+◌, ◌%◌, ◌≤◌, ◌<◌, ◌≡◌, ◌≢◌, true, some, List, arith, ltb, replicate,
  Bool-cases, Option-cases, inl, inr, subst, ==-ne, ==-refl,
}
use mathlib.Core.Bool.{true≢false, and-true, and-false}
use a3team_os.Base.Table.{all_below, all_below_sound}
use a3team_os.Fs.{
  mark_used, bsize, bpb, Super, Disk, bblock, bzero, is_free, find_bit, take_block, find_block,
  balloc,
}

-- Bit `j`, from `bi` on, is clear, and its block lies below `size`.
abbrev IsFreeBit : (bi b size : ℕ) → List ℕ → (j : ℕ) → Type 0
IsFreeBit bi b size bytes j = (bi ≤ j) × (b + j < size) × (is_free bytes j ≡ true)

find_bit-IsFreeBit :
    (n bi b size : ℕ) (bytes : List ℕ) {j : ℕ}
    → find_bit n bi b size bytes ≡ some j
    → IsFreeBit bi b size bytes j × (j < bi + n)
unfolding find_bit
find_bit-IsFreeBit zero bi b size bytes e = cc
find_bit-IsFreeBit (suc n) bi b size bytes {j} e = elim (Bool-cases (ltb (b + bi) size)) [
  | inr out ↦ absurd (ground (arith, out))
  | inl inside ↦ elim (Bool-cases (is_free bytes bi)) [
    | inl free ↦
        let same : bi ≡ j = some_inj (rw (inside, free) at e) in
        rw (← same) ((omega arith, ground arith, free), omega arith)
    | inr used ↦
        let (first, low) = find_bit-IsFreeBit n (bi + 1) b size bytes (rw (inside, used) at e) in
        ((omega (arith, first.0), first.1, first.2), omega (arith, low))
  ]
]
  where
    some_inj : {x y : ℕ} → some x ≡ some y → x ≡ y
    some_inj h = ground arith

-- Bit `j` of a byte after bit `i` of it is set, for the byte and the bit `i` in one number.
only_bit : (j n : ℕ) → Bool
only_bit j n =
    let after = (bit_and (n / 8) (2 ^ j) == 0) && not (j == n % 8) in
    if bit_and (bit_or (n / 8) (2 ^ (n % 8))) (2 ^ j) == 0 then after else not after

only_bit_table : (j : ℕ) → j < 8 → all_below 2048 (only_bit j) ≡ true
unfolding all_below only_bit
only_bit_table zero h = refl
only_bit_table (suc zero) h = refl
only_bit_table (suc (suc zero)) h = refl
only_bit_table (suc (suc (suc zero))) h = refl
only_bit_table (suc (suc (suc (suc zero)))) h = refl
only_bit_table (suc (suc (suc (suc (suc zero))))) h = refl
only_bit_table (suc (suc (suc (suc (suc (suc zero)))))) h = refl
only_bit_table (suc (suc (suc (suc (suc (suc (suc zero))))))) h = refl
only_bit_table (suc (suc (suc (suc (suc (suc (suc (suc j)))))))) h = absurd (omega arith)

agrees→eq : (a b : Bool) → (if a then b else not b) ≡ true → a ≡ b
agrees→eq true b h = sym h
agrees→eq false true h = cc
agrees→eq false false h = refl

bit_or-bit :
    (x i j : ℕ)
    → x < 256
    → i < 8
    → j < 8
    → (bit_and (bit_or x (2 ^ i)) (2 ^ j) == 0) ≡ ((bit_and x (2 ^ j) == 0) && not (j == i))
unfolding only_bit
bit_or-bit x i j hx hi hj =
    let byte : (x * 8 + i) / 8 ≡ x = omega arith in
    let bit : (x * 8 + i) % 8 ≡ i = omega arith in
    let ok : only_bit j (x * 8 + i) ≡ true =
      all_below_sound (only_bit j) (x * 8 + i) (omega arith) (only_bit_table j hj) in
    agrees→eq _ _ (rw (byte, bit) at ok)

-- After a bit is marked it is not free, and every other bit is as free as before.
is_free-mark_used :
    (bytes : List ℕ) (bi j : ℕ)
    → ((i : ℕ) → get_or bytes i 0 < 256)
    → bi / 8 < length bytes
    → is_free (mark_used bytes bi) j ≡ (is_free bytes j && not (j == bi))
is_free-mark_used bytes bi j small inside = elim (Bool-cases (j / 8 == bi / 8)) [
  | inl same ↦
      let e : j / 8 ≡ bi / 8 = ground arith in
      let bit : (j % 8 == bi % 8) ≡ (j == bi) = ground (arith, e) in
      rw (e, get_or-set_self bytes (bi / 8) _ 0 inside, ← bit)
        (bit_or-bit (get_or bytes (bi / 8) 0) (bi % 8) (j % 8) (small (bi / 8)) (omega arith)
          (omega arith))
  | inr other ↦
      let ne : bi / 8 ≢ j / 8 = λ e. ground arith in
      let off : (j == bi) ≡ false = ground arith in
      rw (off, get_or-set_ne bytes (bi / 8) (j / 8) _ 0 ne) (sym (and-true _))
]

-- The blocks of the map hold `bsize` bytes, and are in use themselves.
pub record IsMap (sb : Super) (d : Disk) : Type 0 where
  pub bytes : (b i : ℕ) → get_or (d.block (bblock sb b)) i 0 < 256
  pub full : (b : ℕ) → length (d.block (bblock sb b)) ≡ bsize
  pub in_use :
      (b : ℕ)
      → b < sb.size
      → is_free (d.block (bblock sb (bblock sb b))) (bblock sb b % bpb) ≡ false

-- What a block that `balloc` gives is: free before, in use and zero now. No other block of the same
-- block of the map is more or less free, and nothing else has changed.
abbrev pub Allocates : Super → Disk → Disk × ℕ → Type 0
Allocates sb d (d', b) =
    (b < sb.size)
    × (is_free (d.block (bblock sb b)) (b % bpb) ≡ true)
    × (is_free (d'.block (bblock sb b)) (b % bpb) ≡ false)
    × ((j : ℕ)
        → is_free (d'.block (bblock sb b)) j
          ≡ (is_free (d.block (bblock sb b)) j && not (j == b % bpb)))
    × (length (d'.block (bblock sb b)) ≡ bsize)
    × (d'.block b ≡ replicate bsize 0)
    × ((x : ℕ) → x ≢ b → x ≢ bblock sb b → d'.block x ≡ d.block x)

module _ (sb : Super) (d : Disk) (v : IsMap sb d) where
  take_block-Allocates :
      (b bi : ℕ)
      → b % bpb ≡ 0
      → bi < bpb
      → IsFreeBit 0 b sb.size (d.block (bblock sb b)) bi
      → Allocates sb d (take_block sb d b bi)
  unfolding bzero
  take_block-Allocates b bi start low (above, inside, free) =
      let map : bblock sb (b + bi) ≡ bblock sb b = omega arith in
      let bit : (b + bi) % bpb ≡ bi = omega arith in
      let apart : bblock sb b ≢ b + bi = λ e.
        let used : is_free (d.block (bblock sb b)) bi ≡ false =
          rw (map, e, map, bit) at (v.in_use (b + bi) inside) in
        true≢false (sym free ∙ used) in
      let marked = λ (j : ℕ).
        is_free-mark_used (d.block (bblock sb b)) bi j (v.bytes b)
          (rw (v.full b) (omega (arith, low))) in
      rw (map, bit, ==-ne (bblock sb b) (b + bi) apart, ==-refl (bblock sb b))
        (
          inside,
          free,
          marked bi ∙ rw (==-refl bi) (and-false _),
          marked,
          length-set (d.block (bblock sb b)) (bi / 8) _ ∙ v.full b,
          rw (==-refl (b + bi)) refl,
          (λ x ne ne'. rw (==-ne x (b + bi) ne, ==-ne x (bblock sb b) ne') refl),
        )

  find_block-Allocates :
      (n b : ℕ) {r : Disk × ℕ} → b % bpb ≡ 0 → find_block n b sb d ≡ some r → Allocates sb d r
  unfolding find_block
  find_block-Allocates zero b start e = cc
  find_block-Allocates (suc n) b {r} start e =
      elim (Option-cases (find_bit bpb 0 b sb.size (d.block (bblock sb b)))) [
        | inl full ↦ find_block-Allocates n (b + bpb) (omega arith) (rw full at e)
        | inr (bi, found) ↦
            let (first, low) = find_bit-IsFreeBit bpb 0 b sb.size (d.block (bblock sb b)) found in
            let same : take_block sb d b bi ≡ r = some_inj (rw found at e) in
            subst (Allocates sb d) same (take_block-Allocates b bi start low first)
      ]
    where
      some_inj : {x y : Disk × ℕ} → some x ≡ some y → x ≡ y
      some_inj h = cc

-- When the blocks of the map hold 512 bytes each and are marked as used themselves: a block that
-- `balloc` returns lies below the size of the file system, was free in the map and is not free now,
-- every other bit of its block of the map is as before, the block is zero now, and no block but it and
-- its block of the map has changed.
pub balloc-Allocates :
    (sb : Super) (d : Disk) → IsMap sb d → {r : Disk × ℕ} → balloc sb d ≡ some r → Allocates sb d r
unfolding balloc
balloc-Allocates sb d v e = find_block-Allocates sb d v _ 0 (omega arith) e
