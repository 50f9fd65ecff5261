-- ===== src/Slab/Bitmap/View.antt =====
-- The bitmap as one sequence of bits.
use a3team_os.Base.{
  ℕ, zero, suc, ◌+◌, ◌*◌, ◌/◌, ◌%◌, ◌<◌, ◌≡◌, refl, sym, ap, Bool, false, List, [], ◌∷◌, ◌++◌,
  arith, length, get_or, set,
}
use a3team_os.Slab.Bits.{byte_bit, byte_bits}
use a3team_os.Slab.Bitmap.{bit_at}

abbrev pub Bytes : List ℕ → Type 0
Bytes [] = Unit
Bytes (b ∷ bm) = (b < 256) × Bytes bm

abbrev pub bits : List ℕ → List Bool
bits [] = []
bits (b ∷ bm) = byte_bits b ++ bits bm

pub length-bits : (bm : List ℕ) → length (bits bm) ≡ 8 * length bm
length-bits [] = refl
length-bits (b ∷ bm) = omega (arith, length-bits bm)

-- The bits of one byte in front of others, by column.
get_or-byte_bits :
    (b c : ℕ) (rest : List Bool) → c < 8 → get_or (byte_bits b ++ rest) c false ≡ byte_bit b c
get_or-byte_bits b zero rest h = refl
get_or-byte_bits b (suc zero) rest h = refl
get_or-byte_bits b (suc (suc zero)) rest h = refl
get_or-byte_bits b (suc (suc (suc zero))) rest h = refl
get_or-byte_bits b (suc (suc (suc (suc zero)))) rest h = refl
get_or-byte_bits b (suc (suc (suc (suc (suc zero))))) rest h = refl
get_or-byte_bits b (suc (suc (suc (suc (suc (suc zero)))))) rest h = refl
get_or-byte_bits b (suc (suc (suc (suc (suc (suc (suc zero))))))) rest h = refl
get_or-byte_bits b (suc (suc (suc (suc (suc (suc (suc (suc c)))))))) rest h = absurd (omega arith)

byte_bit-zero : (c : ℕ) → c < 8 → byte_bit 0 c ≡ false
unfolding byte_bit
byte_bit-zero zero h = refl
byte_bit-zero (suc zero) h = refl
byte_bit-zero (suc (suc zero)) h = refl
byte_bit-zero (suc (suc (suc zero))) h = refl
byte_bit-zero (suc (suc (suc (suc zero)))) h = refl
byte_bit-zero (suc (suc (suc (suc (suc zero))))) h = refl
byte_bit-zero (suc (suc (suc (suc (suc (suc zero)))))) h = refl
byte_bit-zero (suc (suc (suc (suc (suc (suc (suc zero))))))) h = refl
byte_bit-zero (suc (suc (suc (suc (suc (suc (suc (suc c)))))))) h = absurd (omega arith)

abbrev next_row :
    (r c : ℕ) → 8 * suc r + c ≡ suc (suc (suc (suc (suc (suc (suc (suc (8 * r + c))))))))
next_row r c = omega arith

abbrev first_row : (c : ℕ) → 8 * 0 + c ≡ c
first_row c = omega arith

pub get_or-bits :
    (bm : List ℕ) (r c : ℕ)
    → c < 8
    → get_or (bits bm) (8 * r + c) false ≡ byte_bit (get_or bm r 0) c
get_or-bits [] r c h = sym (byte_bit-zero c h)
get_or-bits (b ∷ bm) zero c h = rw (first_row c) (get_or-byte_bits b c (bits bm) h)
get_or-bits (b ∷ bm) (suc r) c h = rw (next_row r c) (get_or-bits bm r c h)

-- The code's view of a bit, by row and column, is the bit of the sequence.
pub bit_at-bits : (bm : List ℕ) (o : ℕ) → bit_at bm o ≡ get_or (bits bm) o false
unfolding bit_at
bit_at-bits bm o =
    let e : 8 * (o / 8) + o % 8 ≡ o = omega arith in
    let p : get_or (bits bm) (8 * (o / 8) + o % 8) false ≡ byte_bit (get_or bm (o / 8) 0) (o % 8) =
      get_or-bits bm (o / 8) (o % 8) (omega arith) in
    sym (rw e at p)

set-append :
    (xs ys : List Bool) (c : ℕ) (v : Bool) → c < length xs → set (xs ++ ys) c v ≡ set xs c v ++ ys
set-append [] ys c v h = elim h [ ]
set-append (x ∷ xs) ys zero v h = refl
set-append (x ∷ xs) ys (suc c) v h = ap (λ r. x ∷ r) (set-append xs ys c v (omega arith))

-- A write of one byte that changes the bit of one column is a write of that bit.
pub bits-set :
    (bm : List ℕ) (r c b : ℕ) (v : Bool)
    → r < length bm
    → c < 8
    → byte_bits b ≡ set (byte_bits (get_or bm r 0)) c v
    → bits (set bm r b) ≡ set (bits bm) (8 * r + c) v
bits-set [] r c b v hr hc e = elim hr [ ]
bits-set (x ∷ bm) zero c b v hr hc e =
    rw (first_row c, set-append (byte_bits x) (bits bm) c v hc) (ap (λ l. l ++ bits bm) e)
bits-set (x ∷ bm) (suc r) c b v hr hc e =
    rw (next_row r c) (ap (λ l. byte_bits x ++ l) (bits-set bm r c b v (omega arith) hc e))

pub Bytes-set : (bm : List ℕ) (r b : ℕ) → Bytes bm → b < 256 → Bytes (set bm r b)
Bytes-set [] r b h hb = tt
Bytes-set (x ∷ bm) zero b h hb = (hb, h.1)
Bytes-set (x ∷ bm) (suc r) b h hb = (h.0, Bytes-set bm r b h.1 hb)

pub Bytes-get_or : (bm : List ℕ) (r : ℕ) → Bytes bm → get_or bm r 0 < 256
Bytes-get_or [] r h = omega arith
Bytes-get_or (x ∷ bm) zero h = h.0
Bytes-get_or (x ∷ bm) (suc r) h = Bytes-get_or bm r h.1
