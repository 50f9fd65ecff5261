-- ===== src/Slab/Bitmap/Pages.antt =====
-- `checkEmpty` on the objects of one page.
use a3team_os.Base.{
  ℕ_discrete, ap, ℕ, zero, suc, ◌+◌, ◌-◌, ◌*◌, ◌/◌, ◌%◌, ◌≤◌, ◌<◌, ◌≡◌, ◌↔◌, ◌⊎◌, refl, true, false,
  List, arith, get_or, Bool-cases, inl, inr,
}
use a3team_os.Slab.Bits.{byte_bit}
use a3team_os.Slab.Bitmap.{bit_at, clear_columns, clear_rows, check_empty}

-- The inner loop looks at `n` columns from `j` on.
clear_columns→ :
    (n j b : ℕ) → clear_columns n j b ≡ true → (c : ℕ) → j ≤ c → c < j + n → byte_bit b c ≡ false
unfolding clear_columns
clear_columns→ zero j b h c lo hi = absurd (omega arith)
clear_columns→ (suc n) j b h c lo hi = elim (Bool-cases (byte_bit b j)) [
  | inl on ↦ absurd (ground arith)
  | inr off ↦ elim (ℕ_discrete j c) [
    | yes e ↦ rw (← e) off
    | no ne ↦ clear_columns→ n (j + 1) b (rw off at h) c (omega arith) (omega arith)
  ]
]

→clear_columns :
    (n j b : ℕ) → ((c : ℕ) → j ≤ c → c < j + n → byte_bit b c ≡ false) → clear_columns n j b ≡ true
unfolding clear_columns
→clear_columns zero j b h = refl
→clear_columns (suc n) j b h =
    rw (h j (omega arith) (omega arith))
      (→clear_columns n (j + 1) b (λ c lo hi. h c (omega arith) (omega arith)))

module _ (start columns : ℕ) (bm : List ℕ) where
  -- The rectangle of `n` rows from `i` on and of the columns `start` to `start + columns`.
  abbrev Blank : (i n : ℕ) → Type 0
  Blank i n =
      (r c : ℕ)
      → i ≤ r
      → r < i + n
      → start ≤ c
      → c < start + columns
      → byte_bit (get_or bm r 0) c ≡ false

  clear_rows→ : (n i : ℕ) → clear_rows n i start columns bm ≡ true → Blank i n
  unfolding clear_rows
  clear_rows→ zero i h r c lo hi left right = absurd (omega arith)
  clear_rows→ (suc n) i h r c lo hi left right =
      elim (Bool-cases (clear_columns columns start (get_or bm i 0))) [
        | inr some_set ↦ absurd (ground arith)
        | inl none_set ↦ elim (ℕ_discrete i r) [
          | yes e ↦ clear_columns→ columns start _ (rw e at none_set) c left right
          | no ne ↦
              clear_rows→ n (i + 1) (rw none_set at h) r c (omega arith) (omega arith) left right
        ]
      ]

  →clear_rows : (n i : ℕ) → Blank i n → clear_rows n i start columns bm ≡ true
  unfolding clear_rows
  →clear_rows zero i h = refl
  →clear_rows (suc n) i h =
      rw (→clear_columns columns start _ (λ c. h i c (omega arith) (omega arith)))
        (→clear_rows n (i + 1) (λ r c lo hi. h r c (omega arith) (omega arith)))

-- The sizes of a page in objects, class by class: whole rows of the bitmap, or half or a quarter of
-- one.
abbrev pub IsPerPage : ℕ → Type 0
IsPerPage per = ((m : ℕ) × (0 < m) × (per ≡ 8 * m)) ⊎ (per ≡ 4) ⊎ (per ≡ 2)

-- None of the `n` objects from `a` on is in use.
abbrev pub Unused : List ℕ → ℕ → ℕ → Type 0
Unused bm a n = (o : ℕ) → a ≤ o → o < a + n → bit_at bm o ≡ false

-- The rows and columns that `checkEmpty` visits for page `p`.
abbrev Visits : (p per r c : ℕ) → Type 0
Visits p per r c =
    (p * per / 8 ≤ r)
    × (r < p * per / 8 + ((p * per + per - 1) / 8 + 1 - p * per / 8))
    × (p * per % 8 ≤ c)
    × (c < p * per % 8 + ((p * per + per - 1) % 8 + 1 - p * per % 8))

page→Visits :
    (p per o : ℕ) → IsPerPage per → p * per ≤ o → o < p * per + per → Visits p per (o / 8) (o % 8)
page→Visits p per o (inl (m, pos, e)) lo hi = omega (arith, ap (λ t. p * t) e)
page→Visits p per o (inr (inl e)) lo hi = omega (arith, ap (λ t. p * t) e)
page→Visits p per o (inr (inr e)) lo hi = omega (arith, ap (λ t. p * t) e)

Visits→page :
    (p per r c : ℕ)
    → IsPerPage per
    → Visits p per r c
    → (p * per ≤ 8 * r + c) × (8 * r + c < p * per + per) × (c < 8)
Visits→page p per r c (inl (m, pos, e)) v = omega (arith, ap (λ t. p * t) e)
Visits→page p per r c (inr (inl e)) v = omega (arith, ap (λ t. p * t) e)
Visits→page p per r c (inr (inr e)) v = omega (arith, ap (λ t. p * t) e)

module _ (p per : ℕ) (bm : List ℕ) (shape : IsPerPage per) where
  check_empty→ : check_empty (p * per) (p * per + per - 1) bm ≡ true → Unused bm (p * per) per
  unfolding check_empty bit_at
  check_empty→ h o lo hi =
      let (top, bottom, left, right) = page→Visits p per o shape lo hi in
      clear_rows→ _ _ bm _ _ h (o / 8) (o % 8) top bottom left right

  →check_empty : Unused bm (p * per) per → check_empty (p * per) (p * per + per - 1) bm ≡ true
  unfolding check_empty bit_at
  →check_empty h = →clear_rows _ _ bm _ _ (λ r c lo hi left right.
      let (low, high, narrow) = Visits→page p per r c shape (lo, hi, left, right) in
      let row : (8 * r + c) / 8 ≡ r = omega arith in
      let column : (8 * r + c) % 8 ≡ c = omega arith in
      rw (row, column) at (h (8 * r + c) low high))

  -- On the objects of one page the scan by rows and columns sees exactly those objects.
  pub check_empty_iff :
      (check_empty (p * per) (p * per + per - 1) bm ≡ true) ↔ Unused bm (p * per) per
  check_empty_iff = (check_empty→, →check_empty)
