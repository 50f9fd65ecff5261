-- ===== src/Fs/Path/Name.antt =====
-- The buffer of fourteen bytes into which `skipelem` of src/fs.c copies an element.
use a3team_os.Base.{
  ℕ, zero, suc, ◌+◌, ◌≤◌, ◌<◌, ◌≡◌, refl, ◌∙◌, List, [], ◌∷◌, ◌++◌, arith, leb, length, take, drop,
  get_or, Bool-cases, inl, inr, length-append, length-take,
}
use a3team_os.Fs.Path.{dirsiz, put_name}

-- The buffer holds the first fourteen bytes of the element; behind a shorter element stands a 0, and
-- behind that what stood there before.
abbrev pub IsNamed : (elem_ name name' : List ℕ) → Type 0
IsNamed elem_ name name' =
    (length name' ≡ dirsiz)
    × ((i : ℕ) → i < dirsiz → i < length elem_ → get_or name' i 0 ≡ get_or elem_ i 0)
    × (length elem_ < dirsiz → get_or name' (length elem_) 1 ≡ 0)
    × ((i : ℕ) → length elem_ < i → i < dirsiz → get_or name' i 0 ≡ get_or name i 0)

get_or-take : (n : ℕ) (xs : List ℕ) (i d : ℕ) → i < n → get_or (take n xs) i d ≡ get_or xs i d
get_or-take zero xs i d h = absurd (omega arith)
get_or-take (suc n) [] i d h = refl
get_or-take (suc n) (x ∷ xs) zero d h = refl
get_or-take (suc n) (x ∷ xs) (suc i) d h = get_or-take n xs i d (omega arith)

get_or-append_left :
    (xs ys : List ℕ) (i d : ℕ) → i < length xs → get_or (xs ++ ys) i d ≡ get_or xs i d
get_or-append_left [] ys i d h = absurd (omega arith)
get_or-append_left (x ∷ xs) ys zero d h = refl
get_or-append_left (x ∷ xs) ys (suc i) d h = get_or-append_left xs ys i d (omega arith)

get_or-append_at : (xs ys : List ℕ) (y d : ℕ) → get_or (xs ++ (y ∷ ys)) (length xs) d ≡ y
get_or-append_at [] ys y d = refl
get_or-append_at (x ∷ xs) ys y d = get_or-append_at xs ys y d

-- Behind as many entries as `xs` has and one more stand the entries of `zs`.
get_or-append_right :
    (xs zs : List ℕ) (y i d : ℕ)
    → length xs < i
    → i < length zs
    → get_or (xs ++ (y ∷ drop (length xs + 1) zs)) i d ≡ get_or zs i d
get_or-append_right xs [] y i d h low = absurd (omega arith)
get_or-append_right [] (z ∷ zs) y zero d h low = absurd (omega arith)
get_or-append_right [] (z ∷ zs) y (suc i) d h low = refl
get_or-append_right (x ∷ xs) (z ∷ zs) y zero d h low = absurd (omega arith)
get_or-append_right (x ∷ xs) (z ∷ zs) y (suc i) d h low =
    let e : suc (length xs) + 1 ≡ suc (length xs + 1) = omega arith in
    rw e (get_or-append_right xs zs y i d (omega arith) (omega arith))

length-drop : (n : ℕ) (xs : List ℕ) → n ≤ length xs → n + length (drop n xs) ≡ length xs
length-drop zero xs h = omega arith
length-drop (suc n) [] h = absurd (omega arith)
length-drop (suc n) (x ∷ xs) h = omega (arith, length-drop n xs (omega arith))

-- `skipelem` copies an element into a buffer of fourteen bytes.
pub put_name-IsNamed :
    (elem_ name : List ℕ) → length name ≡ dirsiz → IsNamed elem_ name (put_name elem_ name)
put_name-IsNamed elem_ name full = elim (Bool-cases (leb dirsiz (length elem_))) [
  | inl long ↦ rw long (
    length-take dirsiz elem_ ∙ ground (arith, long),
    (λ i h l. get_or-take dirsiz elem_ i 0 h),
    (λ h. absurd (ground (arith, long, h))),
    (λ i l h. absurd (ground (arith, long, l, h))),
  )
  | inr short ↦
      let low : length elem_ < dirsiz = ground (arith, short) in
      rw short (
        length-append elem_ (0 ∷ drop (length elem_ + 1) name)
            ∙ omega (arith, length-drop (length elem_ + 1) name (omega arith)),
        (λ i h l. get_or-append_left elem_ _ i 0 l),
        (λ h. get_or-append_at elem_ _ 0 1),
        (λ i l h. get_or-append_right elem_ name 0 i 0 l (omega arith)),
      )
]
