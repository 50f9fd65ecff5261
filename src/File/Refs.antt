-- ===== src/File/Refs.antt =====
-- The reference counts of the file table.
use a3team_os.Base.{
  get_elem?-lt, ℕ, zero, suc, ◌+◌, ◌-◌, ◌<◌, ◌≡◌, ◌⊎◌, refl, ap, true, false, Option, none, some,
  List, [], ◌∷◌, arith, ◌==◌, ltb, length, get_elem?, set, set-set, Bool-cases, inl, inr,
}
use a3team_os.File.{
  set_ref, opened, File, fd_none, find_free, filealloc, filedup, fileclose, nothing, behind,
}

abbrev pub total_refs : List File → ℕ
total_refs [] = 0
total_refs (f ∷ fs) = f.ref + total_refs fs

abbrev pub AllUsed : List File → Type 0
AllUsed [] = Unit
AllUsed (f ∷ fs) = (0 < f.ref) × AllUsed fs

-- What the scan for a free entry finds, as the table is from entry `i` on.
abbrev Finds : ℕ → List File → Option ℕ → Type 0
Finds i fs none = AllUsed fs
Finds i fs (some j) = (k : ℕ) × (f : File) × (j ≡ i + k) × (get_elem? fs k ≡ some f) × (f.ref ≡ 0)

pub get_elem?-set_self {ℓ} :
    {A : Type ℓ} (xs : List A) (i : ℕ) (v : A) → i < length xs → get_elem? (set xs i v) i ≡ some v
get_elem?-set_self [] i v h = absurd (omega arith)
get_elem?-set_self (x ∷ xs) zero v h = refl
get_elem?-set_self (x ∷ xs) (suc i) v h = get_elem?-set_self xs i v (omega arith)

set-get_elem? {ℓ} :
    {A : Type ℓ} (xs : List A) (i : ℕ) (v : A) → get_elem? xs i ≡ some v → set xs i v ≡ xs
set-get_elem? [] i v e = refl
set-get_elem? (x ∷ xs) zero v e = cc
set-get_elem? (x ∷ xs) (suc i) v e = ap (λ l. x ∷ l) (set-get_elem? xs i v e)

find_free-Finds : (i : ℕ) (fs : List File) → Finds i fs (find_free i fs)
unfolding find_free
find_free-Finds i [] = tt
find_free-Finds i (f ∷ fs) = elim (Bool-cases (f.ref == 0)) [
  | inl free ↦ rw free (0, f, omega arith, refl, ground arith)
  | inr used ↦ rw used (later (find_free (i + 1) fs) (ground arith) (find_free-Finds (i + 1) fs))
]
  where
    later : (o : Option ℕ) → 0 < f.ref → Finds (i + 1) fs o → Finds i (f ∷ fs) o
    later none u h = (u, h)
    later (some j) u (k, g, e, at, free) = (suc k, g, omega arith, at, free)

pub total_refs-set :
    (fs : List File) (i : ℕ) {f : File} (g : File)
    → get_elem? fs i ≡ some f
    → total_refs (set fs i g) + f.ref ≡ total_refs fs + g.ref
total_refs-set [] i g e = cc
total_refs-set (h ∷ fs) zero {f} g e =
    let same : h ≡ f = cc in let p : h.ref ≡ f.ref = ap (λ (r : File). r.ref) same in omega arith
total_refs-set (h ∷ fs) (suc i) g e = omega (arith, total_refs-set fs i g e)

-- How `filealloc` ends: with an entry that had no reference and has one now, which nothing else of
-- the table follows, or with no entry free and the table as it was.
abbrev pub Allocates : List File → List File × Option ℕ → Type 0
Allocates fs (fs', none) = AllUsed fs × (fs' ≡ fs)
Allocates fs (fs', some i) =
    (f : File) × (get_elem? fs i ≡ some f)
    × (f.ref ≡ 0)
    × (fs' ≡ set fs i (record f { ref = 1 }))
    × (total_refs fs' ≡ suc (total_refs fs))

set_ref-eq :
    (fs : List File) (i ref : ℕ) {f : File}
    → get_elem? fs i ≡ some f
    → set_ref fs i ref ≡ set fs i (record f { ref = ref })
set_ref-eq [] i ref e = cc
set_ref-eq (h ∷ fs) zero ref {f} e = let same : h ≡ f = cc in rw same
set_ref-eq (h ∷ fs) (suc i) ref e = ap (λ l. h ∷ l) (set_ref-eq fs i ref e)

opened-Allocates : (fs : List File) (o : Option ℕ) → Finds 0 fs o → Allocates fs (opened fs o)
opened-Allocates fs none h = (h, refl)
opened-Allocates fs (some i) (k, f, j, at, free) =
    let same : k ≡ i = omega arith in
    let at' : get_elem? fs i ≡ some f = rw same at at in
    let new = set_ref-eq fs i 1 at' in
    (f, at', free, new, rw new (omega (arith, total_refs-set fs i (record f { ref = 1 }) at')))

-- `filealloc` takes an entry without references, makes its count 1 and changes nothing else; it
-- fails exactly when every entry has a reference, and then changes nothing.
pub filealloc-Allocates : (fs : List File) → Allocates fs (filealloc fs)
unfolding filealloc
filealloc-Allocates fs = opened-Allocates fs (find_free 0 fs) (find_free-Finds 0 fs)

-- `filedup` of an entry in use adds one reference, and `fileclose` then drops it again: the table is
-- as before, and nothing is closed.
pub fileclose-filedup :
    (fs : List File) (i : ℕ) (f : File)
    → get_elem? fs i ≡ some f
    → 0 < f.ref
    → (fs' : List File) × (filedup fs i ≡ some fs')
      × (total_refs fs' ≡ suc (total_refs fs))
      × (fileclose fs' i ≡ some (fs, nothing))
unfolding filedup fileclose
fileclose-filedup fs i f at used =
    let low : ltb f.ref 1 ≡ false = ground arith in
    let low' : ltb (f.ref + 1) 1 ≡ false = ground arith in
    let pos : ltb 0 (f.ref + 1 - 1) ≡ true = ground arith in
    let back : f.ref + 1 - 1 ≡ f.ref = omega arith in
    rw (at, low)
      (
        _,
        refl,
        omega (arith, total_refs-set fs i (record f { ref = f.ref + 1 }) at),
        rw
            (
              get_elem?-set_self fs i (record f { ref = f.ref + 1 }) (get_elem?-lt fs i at),
              low',
              pos,
              back,
              set-set,
            )
            (ap (λ l. some (l, nothing)) (set-get_elem? fs i f at)),
      )

-- Of an entry of the table, dropping the last reference frees the entry, and hands the pipe or the
-- inode on to be closed; dropping another one closes nothing; and without references it is a
-- panic.
pub fileclose_lem :
    (fs : List File) (i : ℕ) (f : File)
    → get_elem? fs i ≡ some f
    → ((f.ref ≡ 0) × (fileclose fs i ≡ none))
      ⊎ ((f.ref ≡ 1)
          × (fileclose fs i ≡ some (set fs i (record f { ref = 0; kind = fd_none }), behind f)))
      ⊎ ((1 < f.ref) × (fileclose fs i ≡ some (set fs i (record f { ref = f.ref - 1 }), nothing)))
unfolding fileclose
fileclose_lem fs i f at = rw at (ground arith)
