-- ===== src/Pipe/Ends/Made.antt =====
-- A pipe is made whole or not at all.
use a3team_os.Base.{
  ℕ, zero, suc, ◌≡◌, ◌≢◌, refl, ap, sym, ◌∙◌, subst, Bool, true, false, not, inl, inr, Option, none,
  some, List, [], ◌∷◌, ◌++◌, ◌==◌, get_elem?, get_elem?-lt, set, arith, Bool-cases,
}
use a3team_os.Base.Maybe.{◌>>=◌}
use a3team_os.Kalloc.{kalloc}
use a3team_os.File.{File, fd_none, filealloc, fileclose, behind, closes_pipe}
use a3team_os.File.Refs.{
  total_refs, total_refs-set, Allocates, filealloc-Allocates, get_elem?-set_self,
}
use a3team_os.Pipe.Ends.{
  Parts, put_end, close, close_both, Ends, end_of, make_end, with_pipe, with_second, with_first,
  pipealloc,
}

pub get_elem?-set_ne {ℓ} :
    {A : Type ℓ} (files : List A) (i j : ℕ) (f : A)
    → i ≢ j
    → get_elem? (set files i f) j ≡ get_elem? files j
get_elem?-set_ne [] i j f ne = refl
get_elem?-set_ne (x ∷ files) zero zero f ne = absurd (ne refl)
get_elem?-set_ne (x ∷ files) zero (suc j) f ne = refl
get_elem?-set_ne (x ∷ files) (suc i) zero f ne = refl
get_elem?-set_ne (x ∷ files) (suc i) (suc j) f ne =
    get_elem?-set_ne files i j f (λ e. ne (ap suc e))

abbrev pub idle : File → File
idle f = record f { ref = 0; kind = fd_none }

-- The last reference to a file is dropped.
close_last :
    (p : Parts) (i : ℕ) (f : File)
    → get_elem? p.files i ≡ some f
    → f.ref ≡ 1
    → close p i
      ≡ some (record p { files = set p.files i (idle f); closed = p.closed ++ (behind f ∷ []) })
unfolding fileclose
close_last p i f at one = rw at (ground (arith, one))

-- Two files, of one reference each, are closed.
abbrev pub Closes : Parts → (f g : File) → Option Parts → Type 0
Closes p f g none = ⊥
Closes p f g (some p') =
    (suc (suc (total_refs p'.files)) ≡ total_refs p.files)
    × (p'.kmem ≡ p.kmem)
    × (p'.closed ≡ (p.closed ++ (behind f ∷ [])) ++ (behind g ∷ []))

pub close_both-Closes :
    (p : Parts) (i j : ℕ) (f g : File)
    → get_elem? p.files i ≡ some f
    → get_elem? p.files j ≡ some g
    → f.ref ≡ 1
    → g.ref ≡ 1
    → i ≢ j
    → Closes p f g (close_both p i j)
close_both-Closes p i j f g at_i at_j one_f one_g ne =
    let files1 = set p.files i (idle f) in
    let p1 : Parts = record p { files = files1; closed = p.closed ++ (behind f ∷ []) } in
    let at_j1 : get_elem? files1 j ≡ some g = get_elem?-set_ne p.files i j (idle f) ne ∙ at_j in
    rw (close_last p i f at_i one_f, close_last p1 j g at_j1 one_g)
      (
        omega (
          arith,
          total_refs-set p.files i (idle f) at_i,
          total_refs-set files1 j (idle g) at_j1,
          one_f,
          one_g,
        ),
        refl,
        refl,
      )

-- One end of a pipe, with one reference.
abbrev pub IsEnd : List File → (i page : ℕ) → (writes : Bool) → Type 0
IsEnd files i page writes =
    (f : File) × (get_elem? files i ≡ some f)
    × (f.ref ≡ 1)
    × (behind f ≡ closes_pipe page writes)
    × (f.readable ≡ not writes)
    × (f.writable ≡ writes)

-- How `pipealloc` ends.
abbrev pub Makes : Parts → Option (Parts × Option Ends) → Type 0
Makes p none = ⊥
Makes p (some (p', none)) = (total_refs p'.files ≡ total_refs p.files) × (p'.kmem ≡ p.kmem)
Makes p (some (p', some e)) =
    IsEnd p'.files e.reader e.page false
    × IsEnd p'.files e.writer e.page true
    × (e.reader ≢ e.writer)
    × (total_refs p'.files ≡ suc (suc (total_refs p.files)))
    × (e.page ≢ 0)
    × (e.page ≡ (kalloc p.kmem).1)
    × (p'.closed ≡ p.closed)

-- The two ends, made of two files.
abbrev Both : List File → (files : List File) → (f0 f1 page : ℕ) → Type 0
Both files made f0 f1 page =
    IsEnd made f0 page false × IsEnd made f1 page true × (total_refs made ≡ total_refs files)

make_end-Both :
    (files : List File) (f0 f1 page : ℕ) (f g : File)
    → get_elem? files f0 ≡ some f
    → get_elem? files f1 ≡ some g
    → f.ref ≡ 1
    → g.ref ≡ 1
    → f0 ≢ f1
    → Both files (make_end f1 page true (make_end f0 page false files)) f0 f1 page
make_end-Both files f0 f1 page f g at0 at1 one_f one_g ne =
    let f' = end_of page false f in
    let g' = end_of page true g in
    let files1 = set files f0 f' in
    let files2 = set files1 f1 g' in
    let at1' : get_elem? files1 f1 ≡ some g = get_elem?-set_ne files f0 f1 f' ne ∙ at1 in
    let made : make_end f1 page true (make_end f0 page false files) ≡ files2 =
      ap (make_end f1 page true) (ap (put_end files f0 page false) at0)
      ∙ ap (put_end files1 f1 page true) at1' in
    let here : get_elem? files2 f0 ≡ some f' =
      get_elem?-set_ne files1 f1 f0 g' (λ e. ne (sym e))
      ∙ get_elem?-set_self files f0 f' (get_elem?-lt files f0 at0) in
    let there : get_elem? files2 f1 ≡ some g' =
      get_elem?-set_self files1 f1 g' (get_elem?-lt files1 f1 at1') in
    subst (λ (l : List File). Both files l f0 f1 page) (sym made)
      (
        (f', here, one_f, refl, refl, refl),
        (g', there, one_g, refl, refl, refl),
        omega (arith, total_refs-set files f0 f' at0, total_refs-set files1 f1 g' at1'),
      )

-- With two files of one reference each, which have just been taken.
with_pipe-Makes :
    (p : Parts) (files : List File) (f0 f1 : ℕ) (f g : File)
    → get_elem? files f0 ≡ some f
    → get_elem? files f1 ≡ some g
    → f.ref ≡ 1
    → g.ref ≡ 1
    → f0 ≢ f1
    → total_refs files ≡ suc (suc (total_refs p.files))
    → Makes p (with_pipe (record p { files = files }) f0 f1 (kalloc p.kmem))
unfolding with_pipe
with_pipe-Makes p files f0 f1 f g at0 at1 one_f one_g ne total =
    elim (Bool-cases ((kalloc p.kmem).1 == 0)) [
      | inl e ↦
          rw e (failed (close_both q f0 f1) (close_both-Closes q f0 f1 f g at0 at1 one_f one_g ne))
      | inr e ↦ rw e (
          let both = make_end-Both files f0 f1 (kalloc p.kmem).1 f g at0 at1 one_f one_g ne in
          (both.0, both.1, ne, both.2 ∙ total, nonzero (kalloc p.kmem).1 e, refl, refl))
    ]
  where
    q : Parts
    q = record p { files = files }

    nonzero : (n : ℕ) → (n == 0) ≡ false → n ≢ 0
    nonzero n e z = ground (arith, e, z)

    failed : (o : Option Parts) → Closes q f g o → Makes p (o >>= λ p1. some (p1, none))
    failed none h = elim h [ ]
    failed (some p') (sum, same, closed) = (omega (arith, sum, total), same)

with_second-Makes :
    (p : Parts) (files : List File) (f0 : ℕ) (f : File)
    → get_elem? files f0 ≡ some f
    → f.ref ≡ 1
    → total_refs files ≡ suc (total_refs p.files)
    → (r : List File × Option ℕ) → Allocates files r
    → Makes p (with_second (record p { files = files }) f0 r)
unfolding with_second
with_second-Makes p files f0 f at one total (files', none) (used, same) =
    rw (same, close_last (record p { files = files }) f0 f at one)
      (omega (arith, total, total_refs-set files f0 (idle f) at, one), refl)
with_second-Makes p files f0 f at one total (files', some f1) (g, at_g, free, new, sum) =
    let g' = record g { ref = 1 } in
    let ne : f0 ≢ f1 = λ e. other e in
    with_pipe-Makes p files' f0 f1 f g'
      (subst (λ (l : List File). get_elem? l f0 ≡ some f) (sym new)
        (get_elem?-set_ne files f1 f0 g' (λ e. ne (sym e)) ∙ at))
      (subst (λ (l : List File). get_elem? l f1 ≡ some g') (sym new)
        (get_elem?-set_self files f1 g' (get_elem?-lt files f1 at_g)))
      one refl ne (omega (arith, sum, total))
  where
    ref_of : Option File → ℕ
    ref_of none = 0
    ref_of (some h) = h.ref

    other : f0 ≡ f1 → ⊥
    other e =
        let same : f.ref ≡ g.ref = ap ref_of (sym at ∙ ap (λ i. get_elem? files i) e ∙ at_g) in
        absurd (omega (arith, same, one, free))

pub pipealloc-Makes : (p : Parts) → Makes p (pipealloc p)
unfolding pipealloc with_first
pipealloc-Makes p = given (filealloc p.files) (filealloc-Allocates p.files)
  where
    given : (r : List File × Option ℕ) → Allocates p.files r → Makes p (with_first p r)
    given (files, none) (used, same) = (ap total_refs same, refl)
    given (files, some f0) (f, at, free, new, sum) =
        with_second-Makes p files f0 (record f { ref = 1 })
          (subst (λ (l : List File). get_elem? l f0 ≡ some (record f { ref = 1 })) (sym new)
            (get_elem?-set_self p.files f0 (record f { ref = 1 }) (get_elem?-lt p.files f0 at)))
          refl sum (filealloc files) (filealloc-Allocates files)
