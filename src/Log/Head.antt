-- ===== src/Log/Head.antt =====
-- The header block: what `write_head` writes, `read_head` reads back.
use a3team_os.Base.{
  ℕ, zero, suc, ◌+◌, ◌≤◌, ◌<◌, ◌≡◌, refl, ◌∙◌, ap₂, List, [], ◌∷◌, arith, length, get_or, set,
  length-set, get_or-set_self, get_or-set_ne, ℕ_discrete,
}
use a3team_os.Log.Disk.{Block}
use a3team_os.Log.{read_words, write_words}

-- The `r` block numbers from position `i` on.
abbrev pub numbers : List ℕ → (i r : ℕ) → List ℕ
numbers block i zero = []
numbers block i (suc r) = get_or block i 0 ∷ numbers block (i + 1) r

write_words_below :
    (r i : ℕ) (block : List ℕ) (words : Block) (x : ℕ)
    → x ≤ i
    → get_or (write_words r i block words) x 0 ≡ get_or words x 0
unfolding write_words
write_words_below zero i block words x h = refl
write_words_below (suc r) i block words x h =
    write_words_below r (i + 1) block (set words (i + 1) (get_or block i 0)) x (omega arith)
    ∙ get_or-set_ne words (i + 1) x _ 0 (λ e. omega arith)

write_words_lem :
    (r i : ℕ) (block : List ℕ) (words : Block) (x : ℕ)
    → i + r < length words
    → i ≤ x
    → x < i + r
    → get_or (write_words r i block words) (x + 1) 0 ≡ get_or block x 0
unfolding write_words
write_words_lem zero i block words x h lo hi = absurd (omega arith)
write_words_lem (suc r) i block words x h lo hi =
    let words' = set words (i + 1) (get_or block i 0) in
    elim (ℕ_discrete i x) [
      | yes e ↦ rw (← e) (
          write_words_below r (i + 1) block words' (i + 1) (omega arith)
          ∙ get_or-set_self words (i + 1) (get_or block i 0) 0 (omega arith))
      | no ne ↦
          write_words_lem r (i + 1) block words' x
            (omega (arith, length-set words (i + 1) (get_or block i 0))) (omega arith) (omega arith)
    ]

read_words_below :
    (r i : ℕ) (words : Block) (block : List ℕ) (x : ℕ)
    → x < i
    → get_or (read_words r i words block) x 0 ≡ get_or block x 0
unfolding read_words
read_words_below zero i words block x h = refl
read_words_below (suc r) i words block x h =
    read_words_below r (i + 1) words (set block i (get_or words (i + 1) 0)) x (omega arith)
    ∙ get_or-set_ne block i x _ 0 (λ e. omega arith)

read_words_lem :
    (r i : ℕ) (words : Block) (block : List ℕ) (x : ℕ)
    → i + r ≤ length block
    → i ≤ x
    → x < i + r
    → get_or (read_words r i words block) x 0 ≡ get_or words (x + 1) 0
unfolding read_words
read_words_lem zero i words block x h lo hi = absurd (omega arith)
read_words_lem (suc r) i words block x h lo hi =
    let v = get_or words (i + 1) 0 in
    let block' = set block i v in
    elim (ℕ_discrete i x) [
      | yes e ↦ rw (← e) (
          read_words_below r (i + 1) words block' i (omega arith)
          ∙ get_or-set_self block i v 0 (omega arith))
      | no ne ↦
          read_words_lem r (i + 1) words block' x (omega (arith, length-set block i v))
            (omega arith) (omega arith)
    ]

pub numbers-eq :
    (a b : List ℕ) (i r : ℕ)
    → ((x : ℕ) → i ≤ x → x < i + r → get_or a x 0 ≡ get_or b x 0)
    → numbers a i r ≡ numbers b i r
numbers-eq a b i zero h = refl
numbers-eq a b i (suc r) h =
    ap₂ ◌∷◌ (h i (omega arith) (omega arith))
      (numbers-eq a b (i + 1) r (λ x lo hi. h x (omega arith) (omega arith)))

-- The block that `write_head` writes.
abbrev pub head_block : (n : ℕ) → List ℕ → Block → Block
head_block n block words = write_words n 0 block (set words 0 n)

module _ (n : ℕ) (block : List ℕ) (words : Block) (fits : n < length words) where
  pub head_block-count : get_or (head_block n block words) 0 0 ≡ n
  head_block-count =
      write_words_below n 0 block (set words 0 n) 0 (omega arith)
      ∙ get_or-set_self words 0 n 0 (omega arith)

  -- The block numbers that are read back from a header are those that were written.
  pub number-head_block :
      (old : List ℕ) (x : ℕ)
      → n ≤ length old
      → x < n
      → get_or (read_words n 0 (head_block n block words) old) x 0 ≡ get_or block x 0
  number-head_block old x room hi =
      read_words_lem n 0 (head_block n block words) old x (omega arith) (omega arith) (omega arith)
      ∙ write_words_lem n 0 block (set words 0 n) x (omega (arith, length-set words 0 n))
          (omega arith) (omega arith)

  pub numbers-head_block :
      (old : List ℕ)
      → n ≤ length old
      → numbers (read_words n 0 (head_block n block words) old) 0 n ≡ numbers block 0 n
  numbers-head_block old room =
      numbers-eq _ block 0 n (λ x lo hi. number-head_block old x room (omega arith))
