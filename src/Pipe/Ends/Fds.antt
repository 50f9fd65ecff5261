-- ===== src/Pipe/Ends/Fds.antt =====
-- The descriptors of a pipe.
use a3team_os.Base.{
  ℕ, suc, ◌≡◌, ◌≢◌, refl, ap, ap₂, sym, ◌∙◌, true, false, ◌⊎◌, inl, inr, Option, none, some, [],
  ◌∷◌, ◌++◌, get_elem?, set, arith,
}
use a3team_os.Base.Maybe.{◌>>=◌}
use a3team_os.Kalloc.{kalloc}
use a3team_os.File.{File, behind, closes_pipe}
use a3team_os.File.Refs.{total_refs}
use a3team_os.Sysfile.{Ofile, fdalloc}
use a3team_os.Sysfile.Descriptors.{Allocated, FullBelow, fdalloc-Allocated}
use a3team_os.Pipe.Ends.{
  Parts, close_both, Ends, pipealloc, Piped, no_descriptors, second_fd, first_fd, with_ends,
  sys_pipe,
}
use a3team_os.Pipe.Ends.Made.{
  get_elem?-set_ne, Closes, close_both-Closes, IsEnd, Makes, pipealloc-Makes,
}

-- A failure: what was taken is given back, or both ends of the new pipe are closed.
abbrev pub Undone : Ofile → Parts → Parts × Ofile → Type 0
Undone ofile p (p', ofile') =
    (ofile' ≡ ofile)
    × (total_refs p'.files ≡ total_refs p.files)
    × ((p'.kmem ≡ p.kmem)
        ⊎ (p'.closed
            ≡ (p.closed ++ (closes_pipe (kalloc p.kmem).1 false ∷ []))
              ++ (closes_pipe (kalloc p.kmem).1 true ∷ [])))

-- A success, with the two descriptors.
abbrev pub Opened : Ofile → Parts → Parts × Ofile → (fd0 fd1 : ℕ) → Type 0
Opened ofile p (p', ofile') fd0 fd1 =
    (e : Ends) × FullBelow fd0 ofile
    × (get_elem? ofile fd0 ≡ some none)
    × (get_elem? ofile' fd0 ≡ some (some e.reader))
    × (get_elem? ofile' fd1 ≡ some (some e.writer))
    × IsEnd p'.files e.reader e.page false
    × IsEnd p'.files e.writer e.page true
    × (e.reader ≢ e.writer)
    × (total_refs p'.files ≡ suc (suc (total_refs p.files)))
    × (e.page ≢ 0)
    × (e.page ≡ (kalloc p.kmem).1)

abbrev pub Pipes : Ofile → Parts → Option Piped → Type 0
Pipes ofile p none = ⊥
Pipes ofile p (some (p', ofile', none)) = Undone ofile p (p', ofile')
Pipes ofile p (some (p', ofile', some (fd0, fd1))) = Opened ofile p (p', ofile') fd0 fd1

module _ (ofile : Ofile) (p p1 : Parts) (e : Ends) (made : Makes p (some (p1, some e))) where
  no_descriptors-Pipes :
      (ofile' : Ofile) → ofile' ≡ ofile → Pipes ofile p (no_descriptors p1 ofile' e)
  no_descriptors-Pipes ofile' same =
      let (
        (f, at_f, one_f, behind_f, rf, wf),
        (g, at_g, one_g, behind_g, rg, wg),
        ne,
        total,
        full,
        page,
        closed0,
      ) =
        made in
      closed f g behind_f behind_g (close_both p1 e.reader e.writer)
        (close_both-Closes p1 e.reader e.writer f g at_f at_g one_f one_g ne)
    where
      closed :
          (f g : File)
          → behind f ≡ closes_pipe e.page false
          → behind g ≡ closes_pipe e.page true
          → (o : Option Parts) → Closes p1 f g o
          → Pipes ofile p (o >>= λ p2. some (p2, ofile', none))
      closed f g bf bg none h = elim h [ ]
      closed f g bf bg (some p2) (sum, kmem, all) = (
        same,
        omega (arith, sum, made.3),
        inr (
            all
            ∙ ap₂ (λ l b. (l ++ (b ∷ [])) ++ (behind g ∷ [])) made.6
                (bf ∙ ap (λ n. closes_pipe n false) made.5)
            ∙ ap (λ c. (p.closed ++ (closes_pipe (kalloc p.kmem).1 false ∷ [])) ++ (c ∷ []))
                (bg ∙ ap (λ n. closes_pipe n true) made.5)),
      )

  -- With the first descriptor.
  second_fd-Pipes :
      (fd0 : ℕ) (ofile1 : Ofile)
      → Allocated e.reader ofile (some (fd0, ofile1))
      → (o : Option (ℕ × Ofile)) → Allocated e.writer ofile1 o
      → Pipes ofile p (second_fd p1 e fd0 ofile1 o)
  unfolding second_fd
  second_fd-Pipes fd0 ofile1 (free, below, at, back, low) none full =
      no_descriptors-Pipes (set ofile1 fd0 none) back
  second_fd-Pipes fd0 ofile1 (free, below, at, back, low) (some (fd1, ofile2))
        (free1, below1, at1, back1, low1) =
      let ne : fd1 ≢ fd0 = λ same.
        (let clash : some none ≡ some (some e.reader) =
            sym free1 ∙ ap (get_elem? ofile1) same ∙ at in
          cc) in
      let kept : get_elem? ofile2 fd0 ≡ some (some e.reader) =
        sym (get_elem?-set_ne ofile2 fd1 fd0 none ne) ∙ ap (λ l. get_elem? l fd0) back1 ∙ at in
      (e, below, free, kept, at1, made.0, made.1, made.2, made.3, made.4, made.5)

  first_fd-Pipes :
      (o : Option (ℕ × Ofile)) → Allocated e.reader ofile o → Pipes ofile p (first_fd p1 e ofile o)
  unfolding first_fd
  first_fd-Pipes none full = no_descriptors-Pipes ofile refl
  first_fd-Pipes (some (fd0, ofile1)) given =
      second_fd-Pipes fd0 ofile1 given (fdalloc e.writer ofile1) (fdalloc-Allocated e.writer ofile1)

-- `sys_pipe` does not panic. When it returns two descriptors, the first is the lowest free one; they refer to
-- the two ends of a new page, two different files of one reference each, of which the first can
-- only be read and the second only be written, and the references of the table are two more. When
-- it fails, the descriptors and the number of references are as before, and no page has been taken, or
-- both ends of the new pipe have been closed.
pub sys_pipe-Pipes :
    (fds : Option ℕ) (ofile : Ofile) (p : Parts) → Pipes ofile p (sys_pipe fds ofile p)
unfolding sys_pipe with_ends
sys_pipe-Pipes none ofile p = (refl, refl, inl refl)
sys_pipe-Pipes (some fds) ofile p = given (pipealloc p) (pipealloc-Makes p)
  where
    given :
        (o : Option (Parts × Option Ends))
        → Makes p o
        → Pipes ofile p (o >>= λ r. with_ends ofile r.0 r.1)
    given none h = elim h [ ]
    given (some (p1, none)) (total, kmem) = (refl, total, inl kmem)
    given (some (p1, some e)) made =
        first_fd-Pipes ofile p p1 e made (fdalloc e.reader ofile) (fdalloc-Allocated e.reader ofile)
