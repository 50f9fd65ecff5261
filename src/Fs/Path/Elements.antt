-- ===== src/Fs/Path/Elements.antt =====
-- `skipelem` on paths: what it takes off, and that the loop of `namex` ends.
use a3team_os.Base.{
  ◌⊎◌, ℕ, ◌<◌, ◌≡◌, refl, sym, ◌∙◌, ap, true, false, some, List, [], ◌∷◌, ◌++◌, arith, ◌==◌, length,
  Bool-cases, inl, inr, length-append, subst, append_assoc,
}
use mathlib.Core.Bool.{true≢false}
use a3team_os.Fs.Path.Name.{IsNamed, put_name-IsNamed}
use a3team_os.Fs.Path.{dirsiz, slash, skip_slashes, split_elem, put_name, next_elem, skipelem}

abbrev pub NoSlash : List ℕ → Type 0
NoSlash [] = Unit
NoSlash (c ∷ cs) = ((c == slash) ≡ false) × NoSlash cs

abbrev pub IsSlashes : List ℕ → Type 0
IsSlashes [] = Unit
IsSlashes (c ∷ cs) = ((c == slash) ≡ true) × IsSlashes cs

-- The list starts with no slash.
abbrev pub Stripped : List ℕ → Type 0
Stripped [] = Unit
Stripped (c ∷ cs) = (c == slash) ≡ false

skip_slashes_lem :
    (path : List ℕ)
    → (front : List ℕ) × (path ≡ front ++ skip_slashes path)
      × IsSlashes front
      × Stripped (skip_slashes path)
unfolding skip_slashes
skip_slashes_lem [] = ([], refl, tt, tt)
skip_slashes_lem (c ∷ path) = elim (Bool-cases (c == slash)) [
  | inr other ↦ rw other ([], refl, tt, other)
  | inl here ↦
      let (front, e, slashes, rest) = skip_slashes_lem path in
      rw here (c ∷ front, ap (λ l. c ∷ l) e, (here, slashes), rest)
]

-- The list is empty or starts with a slash.
abbrev Ends : List ℕ → Type 0
Ends [] = Unit
Ends (c ∷ cs) = (c == slash) ≡ true

split_elem_lem :
    (path : List ℕ)
    → let (elem_, rest) = split_elem path in (path ≡ elem_ ++ rest) × NoSlash elem_ × Ends rest
unfolding split_elem
split_elem_lem [] = (refl, tt, tt)
split_elem_lem (c ∷ path) = elim (Bool-cases (c == slash)) [
  | inl here ↦ rw here (refl, tt, here)
  | inr other ↦
      let (e, clean, stop) = split_elem_lem path in
      rw other (ap (λ l. c ∷ l) e, (other, clean), stop)
]

Ends-Stripped :
    (between rest : List ℕ)
    → Ends (between ++ rest)
    → Stripped rest
    → (between ++ rest ≡ []) ⊎ (0 < length between)
Ends-Stripped [] [] stop clean = inl refl
Ends-Stripped [] (c ∷ cs) stop clean = absurd (true≢false (sym stop ∙ clean))
Ends-Stripped (b ∷ bs) rest stop clean = inr (omega arith)

-- How `skipelem` takes a path apart: slashes, one element up to the next slash or the end, slashes, and
-- the rest.
abbrev pub Elements : (elem_ path rest : List ℕ) → Type 0
Elements elem_ path rest =
    (front : List ℕ) × (between : List ℕ) × (path ≡ front ++ (elem_ ++ (between ++ rest)))
    × IsSlashes front
    × NoSlash elem_
    × (0 < length elem_)
    × ((between ++ rest ≡ []) ⊎ (0 < length between))
    × IsSlashes between
    × Stripped rest

-- The name as the model writes it.
abbrev Parts : (path name rest name' : List ℕ) → Type 0
Parts path name rest name' =
    (elem_ : List ℕ) × Elements elem_ path rest × (name' ≡ put_name elem_ name)

IsSlashes-append : (xs ys : List ℕ) → IsSlashes xs → IsSlashes ys → IsSlashes (xs ++ ys)
IsSlashes-append [] ys a b = b
IsSlashes-append (x ∷ xs) ys (h, a) b = (h, IsSlashes-append xs ys a b)

split_first : (c : ℕ) (cs : List ℕ) → (c == slash) ≡ false → 0 < length (split_elem (c ∷ cs)).0
unfolding split_elem
split_first c cs e = rw e (omega arith)

next_elem-Parts :
    (path name : List ℕ) {rest name' : List ℕ}
    → Stripped path
    → next_elem path name ≡ some (rest, name')
    → Parts path name rest name'
next_elem-Parts [] name clean e = cc
next_elem-Parts (c ∷ cs) name {rest} {name'} clean e =
    let (split, no_slash, stop) = split_elem_lem (c ∷ cs) in
    let (between, left, slashes, stripped) = skip_slashes_lem (split_elem (c ∷ cs)).1 in
    let whole : c ∷ cs
        ≡ (split_elem (c ∷ cs)).0 ++ (between ++ skip_slashes (split_elem (c ∷ cs)).1) =
      split ∙ ap (λ l. (split_elem (c ∷ cs)).0 ++ l) left in
    let same : (skip_slashes (split_elem (c ∷ cs)).1, put_name (split_elem (c ∷ cs)).0 name)
        ≡ (rest, name') =
      some_inj e in
    subst (λ (r : List ℕ × List ℕ). Parts (c ∷ cs) name r.0 r.1) same
      (
        (split_elem (c ∷ cs)).0,
        (
          [],
          between,
          whole,
          tt,
          no_slash,
          split_first c cs clean,
          Ends-Stripped between _ (subst Ends left stop) stripped,
          slashes,
          stripped,
        ),
        refl,
      )
  where
    some_inj : {x y : List ℕ × List ℕ} → some x ≡ some y → x ≡ y
    some_inj h = cc

skipelem-Parts :
    (path name : List ℕ) {rest name' : List ℕ}
    → skipelem path name ≡ some (rest, name')
    → Parts path name rest name'
unfolding skipelem
skipelem-Parts path name e =
    let (front, split, slashes, clean) = skip_slashes_lem path in
    let (elem_, (f, between, whole, fs, ne, pos, stop, bs, st), nm) =
      next_elem-Parts (skip_slashes path) name clean e in
    (
      elem_,
      (
        front ++ f,
        between,
        split ∙ ap (λ l. front ++ l) whole ∙ sym (append_assoc front f _),
        IsSlashes-append front f slashes fs,
        ne,
        pos,
        stop,
        bs,
        st,
      ),
      nm,
    )

-- With a name buffer of 14 bytes: when `skipelem` gives a rest and a name, the path is slashes, one
-- element without a slash that is not empty and goes on to the next slash or to the end, all the slashes
-- behind it, and the rest. The name holds the first 14 bytes of the element; behind a shorter element
-- stands a 0, and behind that what the buffer held before.
pub skipelem-Elements :
    (path name : List ℕ) {rest name' : List ℕ}
    → length name ≡ dirsiz
    → skipelem path name ≡ some (rest, name')
    → (elem_ : List ℕ) × Elements elem_ path rest × IsNamed elem_ name name'
skipelem-Elements path name full e =
    let (elem_, parts, named) = skipelem-Parts path name e in
    (elem_, parts, subst (IsNamed elem_ name) (sym named) (put_name-IsNamed elem_ name full))

-- What `skipelem` leaves of a path is shorter than the path: the loop of `namex` ends.
pub skipelem_shorter :
    (path name : List ℕ) {rest name' : List ℕ}
    → skipelem path name ≡ some (rest, name')
    → length rest < length path
skipelem_shorter path name {rest} e =
    let (elem_, (front, between, whole, fs, ne, pos, stop, bs, st), nm) =
      skipelem-Parts path name e in
    omega (
      arith,
      ap length whole,
      length-append front (elem_ ++ (between ++ rest)),
      length-append elem_ (between ++ rest),
      length-append between rest,
    )
