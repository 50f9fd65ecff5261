-- ===== src/Pipe/Queue.antt =====
-- A pipe as a queue of bytes.
use a3team_os.Base.{
  ℕ, zero, suc, ◌+◌, ◌-◌, ◌%◌, ◌^◌, ◌≤◌, ◌<◌, ◌≡◌, ◌≢◌, refl, ◌∙◌, ap, List, [], ◌∷◌, ◌++◌, arith,
  length, get_or, set, get_or-set_self, get_or-set_ne, length-set,
}
use a3team_os.Pipe.{Pipe, pipesize, put, get}

-- `n` bytes of the ring from place `r` on.
abbrev pub slice : List ℕ → (r n : ℕ) → List ℕ
slice d r zero = []
slice d r (suc n) = get_or d (r % pipesize) 0 ∷ slice d (r + 1) n

abbrev pub count : Pipe → ℕ
count p = (p.nwrite + 2 ^ 32 - p.nread) % 2 ^ 32

-- The bytes that are written and not read, oldest first.
abbrev pub queue : Pipe → List ℕ
queue p = slice p.ring p.nread (count p)

pub record IsPipe (p : Pipe) : Type 0 where
  pub size : length p.ring ≡ pipesize
  pub read_word : p.nread < 2 ^ 32
  pub write_word : p.nwrite < 2 ^ 32
  pub bound : count p ≤ pipesize

pub length-slice : (d : List ℕ) (r n : ℕ) → length (slice d r n) ≡ n
length-slice d r zero = refl
length-slice d r (suc n) = ap suc (length-slice d (r + 1) n)

-- Places that agree modulo the size of the ring.
slice-mod : (d : List ℕ) (r s n : ℕ) → r % pipesize ≡ s % pipesize → slice d r n ≡ slice d s n
slice-mod d r s zero e = refl
slice-mod d r s (suc n) e = rw (e, slice-mod d (r + 1) (s + 1) n (omega arith))

-- A write behind the slice leaves the slice alone and extends it.
slice-set :
    (d : List ℕ) (w c r n : ℕ)
    → length d ≡ pipesize
    → w < pipesize
    → n < pipesize
    → (r + n) % pipesize ≡ w
    → slice (set d w c) r (suc n) ≡ slice d r n ++ (c ∷ [])
slice-set d w c r zero len hw h e =
    let at : r % pipesize ≡ w = omega arith in
    ap (λ x. x ∷ []) (rw at (get_or-set_self d w c 0 (omega arith)))
slice-set d w c r (suc n) len hw h e =
    rw (get_or-set_ne d w (r % pipesize) c 0 (λ q. omega arith)) (
      ap (λ l. get_or d (r % pipesize) 0 ∷ l)
        (slice-set d w c (r + 1) n len hw (omega arith) (omega arith)))

pub count-put : (p : Pipe) → IsPipe p → count p < pipesize → count (put p 0) ≡ suc (count p)
unfolding put
count-put p v h = omega (arith, v.read_word, v.write_word)

pub put-queue :
    (p : Pipe) (c : ℕ)
    → IsPipe p
    → count p < pipesize
    → IsPipe (put p c) × (queue (put p c) ≡ queue p ++ (c ∷ []))
unfolding put
put-queue p c v h =
    let more : count (put p c) ≡ suc (count p) = omega (arith, v.read_word, v.write_word) in
    (
      record {
        size = length-set p.ring (p.nwrite % pipesize) c ∙ v.size;
        read_word = v.read_word;
        write_word = omega arith;
        bound = omega (arith, more, h);
      },
      rw more (
          slice-set p.ring (p.nwrite % pipesize) c p.nread (count p) v.size (omega arith) h
            (omega (arith, v.read_word, v.write_word))),
    )

pub get-queue :
    (p : Pipe)
    → IsPipe p
    → p.nread ≢ p.nwrite
    → IsPipe (get p).1 × (queue p ≡ (get p).0 ∷ queue (get p).1)
unfolding get
get-queue p v ne =
    let one : count p ≡ suc (count (get p).1) = omega (arith, v.read_word, v.write_word, ne) in
    (
      record {
        size = v.size;
        read_word = omega arith;
        write_word = v.write_word;
        bound = omega (arith, one, v.bound);
      },
      rw one (
          ap (λ l. get_or p.ring (p.nread % pipesize) 0 ∷ l)
            (slice-mod p.ring (p.nread + 1) ((p.nread + 1) % 2 ^ 32) (count (get p).1)
              (omega arith))),
    )
