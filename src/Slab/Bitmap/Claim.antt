-- ===== src/Slab/Bitmap/Claim.antt =====
-- `setBitmap` and `clearBitmap` on the sequence of bits.
use a3team_os.Base.{
  ℕ, suc, ◌+◌, ◌*◌, ◌/◌, ◌%◌, ◌<◌, ◌≡◌, refl, sym, ap, ◌∙◌, Bool, true, false, Option, none, some,
  List, [], ◌∷◌, ◌++◌, arith, length, get_or, set, Option-cases, inl, inr, Bool-cases, length-set,
  subst, set-get_or,
}
use a3team_os.Slab.Bits.{
  byte_bit, byte_set, byte_clear, byte_bits, free_column, first_false, byte_bits-byte_set,
  byte_bits-byte_clear, free_column-first_false, extend-ne, byte_set-lt, byte_clear-lt,
}
use a3team_os.Slab.Bitmap.{set_rows, set_bitmap, clear_bitmap, bit_at}
use a3team_os.Slab.Bitmap.View.{Bytes, bits, bits-set, bit_at-bits, Bytes-set, Bytes-get_or}

pub first_false-append_some :
    (xs ys : List Bool) {k : ℕ} → first_false xs ≡ some k → first_false (xs ++ ys) ≡ some k
unfolding first_false
first_false-append_some [] ys h = cc
first_false-append_some (false ∷ xs) ys h = h
first_false-append_some (true ∷ xs) ys {k} h = elim (Option-cases (first_false xs)) [
  | inl n ↦ ground arith
  | inr (j, e) ↦ ground (arith, first_false-append_some xs ys e)
]

abbrev pub shift : ℕ → Option ℕ → Option ℕ
shift n none = none
shift n (some o) = some (n + o)

shift-zero : (o : Option ℕ) → o ≡ shift 0 o
shift-zero none = refl
shift-zero (some o) = ap some (omega arith)

-- Behind bits that are all set.
pub first_false-append_none :
    (xs ys : List Bool)
    → first_false xs ≡ none
    → first_false (xs ++ ys) ≡ shift (length xs) (first_false ys)
unfolding first_false
first_false-append_none [] ys h = shift-zero (first_false ys)
first_false-append_none (false ∷ xs) ys h = cc
first_false-append_none (true ∷ xs) ys h = ground (arith, first_false-append_none xs ys)

pub first_false-lt : (xs : List Bool) {k : ℕ} → first_false xs ≡ some k → k < length xs
unfolding first_false
first_false-lt [] h = cc
first_false-lt (false ∷ xs) h = ground arith
first_false-lt (true ∷ xs) h = elim (Option-cases (first_false xs)) [
  | inl n ↦ ground arith
  | inr (j, e) ↦ ground (arith, first_false-lt xs e)
]

pub shift-eq_some :
    (n : ℕ) (o : Option ℕ) {k : ℕ} → shift n o ≡ some k → (i : ℕ) × (o ≡ some i) × (k ≡ n + i)
shift-eq_some n none h = cc
shift-eq_some n (some i) h = (i, refl, ground arith)

shift-eq_none : (n : ℕ) (o : Option ℕ) → shift n o ≡ none → o ≡ none
shift-eq_none n none h = refl
shift-eq_none n (some i) h = cc

pub some_inj : {a b : ℕ} → some a ≡ some b → a ≡ b
some_inj h = ground arith

-- What the outer loop does from row `j` on when bit `k` of the rows left is the first clear one.
abbrev pub Claims : ℕ → List ℕ → ℕ → List ℕ × ℕ → Type 0
Claims j bm k r =
    (r.1 ≡ 8 * j + k) × (bits r.0 ≡ set (bits bm) k true) × Bytes r.0 × (length r.0 ≡ length bm)

module _ (j b : ℕ) (bm : List ℕ) (small : Bytes (b ∷ bm)) where
  set_rows-here :
      {c : ℕ} → first_false (byte_bits b) ≡ some c → Claims j (b ∷ bm) c (set_rows j (b ∷ bm))
  unfolding set_rows
  set_rows-here {c} e =
      let col : free_column 8 0 b ≡ some c = free_column-first_false b small.0 ∙ e in
      let low : c < 8 = first_false-lt (byte_bits b) e in
      rw (extend-ne b small.0, col)
        (
          refl,
          sym (
              rw first_row at (
                sym (
                  bits-set (b ∷ bm) 0 c (byte_set b c) true (omega arith) low
                    (byte_bits-byte_set b c small.0 low)))),
          (byte_set-lt b c, small.1),
          refl,
        )
    where
      first_row : 8 * 0 + c ≡ c
      first_row = omega arith

  set_rows-skip :
      first_false (byte_bits b) ≡ none
      → set_rows j (b ∷ bm) ≡ (b ∷ (set_rows (j + 1) bm).0, (set_rows (j + 1) bm).1)
  unfolding set_rows
  set_rows-skip e =
      let col : free_column 8 0 b ≡ none = free_column-first_false b small.0 ∙ e in
      rw (extend-ne b small.0, col)

set_rows-some :
    (j : ℕ) (bm : List ℕ) {k : ℕ}
    → Bytes bm
    → first_false (bits bm) ≡ some k
    → Claims j bm k (set_rows j bm)
unfolding first_false
set_rows-some j [] small h = cc
set_rows-some j (b ∷ bm) {k} small h = elim (Option-cases (first_false (byte_bits b))) [
  | inr (c, e) ↦
      let here : some c ≡ some k = sym (first_false-append_some (byte_bits b) (bits bm) e) ∙ h in
      subst (λ i. Claims j (b ∷ bm) i (set_rows j (b ∷ bm))) (some_inj here)
        (set_rows-here j b bm small e)
  | inl n ↦
      let (i, e, k_eq) =
        shift-eq_some 8 (first_false (bits bm))
          (sym (first_false-append_none (byte_bits b) (bits bm) n) ∙ h) in
      let (at, new, ok, len) = set_rows-some (j + 1) bm small.1 e in
      rw (set_rows-skip j b bm small n) (
        omega arith,
        rw (k_eq, eight i) (ap (λ l. byte_bits b ++ l) new),
        (small.0, ok),
        ap suc len,
      )
]
  where
    eight : (i : ℕ) → 8 + i ≡ suc (suc (suc (suc (suc (suc (suc (suc i)))))))
    eight i = omega arith

set_rows-none :
    (j : ℕ) (bm : List ℕ) → Bytes bm → first_false (bits bm) ≡ none → set_rows j bm ≡ (bm, 0)
unfolding set_rows
set_rows-none j [] small h = refl
set_rows-none j (b ∷ bm) small h = elim (Option-cases (first_false (byte_bits b))) [
  | inr (c, e) ↦ cc (first_false-append_some (byte_bits b) (bits bm) e)
  | inl n ↦
      let rest : first_false (bits bm) ≡ none =
        shift-eq_none 8 _ (sym (first_false-append_none (byte_bits b) (bits bm) n) ∙ h) in
      rw (set_rows-skip j b bm small n, set_rows-none (j + 1) bm small.1 rest)
]

-- On a bitmap of bytes with a clear bit, `setBitmap` sets the first clear bit, and no other, and
-- returns its offset.
pub set_bitmap-some :
    (bm : List ℕ) {k : ℕ}
    → Bytes bm
    → first_false (bits bm) ≡ some k
    → Claims 0 bm k (set_bitmap bm)
unfolding set_bitmap
set_bitmap-some bm small h = set_rows-some 0 bm small h

-- On a full bitmap it changes nothing and returns 0, which is also the offset of the first object.
pub set_bitmap-none :
    (bm : List ℕ) → Bytes bm → first_false (bits bm) ≡ none → set_bitmap bm ≡ (bm, 0)
unfolding set_bitmap
set_bitmap-none bm small h = set_rows-none 0 bm small h

-- `clearBitmap` clears a bit that is set, and says so; a clear bit it leaves alone.
pub clear_bitmap_lem :
    (bm : List ℕ) (o : ℕ)
    → Bytes bm
    → o < 8 * length bm
    → let (bm', was) = clear_bitmap bm o in
      (was ≡ get_or (bits bm) o false)
      × (bits bm' ≡ set (bits bm) o false)
      × Bytes bm'
      × (length bm' ≡ length bm)
unfolding clear_bitmap bit_at
clear_bitmap_lem bm o small h = elim (Bool-cases (byte_bit (get_or bm (o / 8) 0) (o % 8))) [
  | inl on ↦ rw on (
    sym on ∙ bit_at-bits bm o,
    subst (λ i. bits (set bm (o / 8) new) ≡ set (bits bm) i false) whole
        (bits-set bm (o / 8) (o % 8) new false (omega arith) (omega arith)
          (byte_bits-byte_clear _ (o % 8) (Bytes-get_or bm (o / 8) small) (omega arith))),
    Bytes-set bm (o / 8) new small (byte_clear-lt (get_or bm (o / 8) 0) (o % 8)),
    length-set bm (o / 8) new,
  )
  | inr off ↦ rw off (
    sym off ∙ bit_at-bits bm o,
    sym (
        subst (λ v. set (bits bm) o v ≡ bits bm) (sym (bit_at-bits bm o) ∙ off)
          (set-get_or (bits bm) o false)),
    small,
    refl,
  )
]
  where
    new : ℕ
    new = byte_clear (get_or bm (o / 8) 0) (o % 8)

    whole : 8 * (o / 8) + o % 8 ≡ o
    whole = omega arith
