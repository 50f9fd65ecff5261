-- ===== src/Proc/Exit.antt =====
-- Which parent each process has after `exit`.
use a3team_os.Base.{
  ℕ, ◌≤◌, ◌≡◌, ◌≢◌, refl, sym, ◌∙◌, ap, false, none, some, List, arith, ltb, dec_lt, lt→ltb, le→ltb,
  get_elem?-lt, ℕ_discrete, ==-ne, if◌then◌else◌, length, get_elem?, Option-cases, inl, inr,
}
use a3team_os.File.{File, Behind}
use a3team_os.Proc.{Proc, zombie, Proc, proc_channel, is_index, modify}
use a3team_os.Proc.Lifecycle.{exit_table, exit, cleared, close_files}
use a3team_os.Proc.Parents.{
  parent_at, parent_at-wakeup1, parent_at-modify, adopt, abandon-parent, state_at, adopt-no_child,
  length-modify, length-wakeup1, length-abandon, state_at-zombie, parent_at-far,
}

exit_table-parent :
    (nproc init cur : ℕ) (ps : List Proc) (p : Proc) (j : ℕ)
    → parent_at (exit_table nproc init ps cur p) j
      ≡ (if ltb j nproc then adopt cur init (parent_at ps j) else parent_at ps j)
exit_table-parent nproc init cur ps p j =
    parent_at-modify (λ q. record q { state = zombie }) cur _ j (λ q. refl)
    ∙ abandon-parent nproc 0 cur init _ j
    ∙ rw
        (
          parent_at-wakeup1 (proc_channel p.parent)
              (modify (λ q. record q { ofile = cleared q.ofile; cwd = 0 }) cur ps) j,
          parent_at-modify (λ q. record q { ofile = cleared q.ofile; cwd = 0 }) cur ps j
              (λ q. refl),
        )
        (ground arith)

exit-table :
    (nproc init cur : ℕ) (ps : List Proc) (fs : List File) {ps' : List Proc} {fs' : List File}
    {bs : List Behind}
    → exit nproc init ps fs cur ≡ some (ps', fs', bs)
    → (cur ≢ init)
      × (p : Proc) × (get_elem? ps cur ≡ some p)
      × (ps' ≡ exit_table nproc init ps cur p)
unfolding exit
exit-table nproc init cur ps fs {ps'} {fs'} {bs} e = elim (ℕ_discrete cur init) [
  | yes q ↦ absurd (ground (arith, q))
  | no ne ↦ elim (Option-cases (get_elem? ps cur)) [
    | inl out ↦ absurd (no_result (rw (==-ne cur init ne, out) at e))
    | inr (p, at) ↦ elim (Option-cases (close_files p.ofile fs)) [
      | inl panics ↦ absurd (no_result (rw (==-ne cur init ne, at, panics) at e))
      | inr ((f, b), c) ↦ (
        ne,
        p,
        at,
        ap (λ (r : List Proc × List File × List Behind). r.0)
            (some_inj (sym (rw (==-ne cur init ne, at, c) at e))),
      )
    ]
  ]
]
  where
    no_result : {r : List Proc × List File × List Behind} → ¬ (none ≡ some r)
    no_result h = cc

    some_inj : {a b : List Proc × List File × List Behind} → some a ≡ some b → a ≡ b
    some_inj h = cc

module _ (nproc init cur : ℕ) (ps : List Proc) (p : Proc) (room : length ps ≤ nproc)
    (at : get_elem? ps cur ≡ some p) where
  table-zombie : state_at (exit_table nproc init ps cur p) cur ≡ some zombie
  table-zombie =
      state_at-zombie cur _
        (rw (length-abandon, length-wakeup1, length-modify) (get_elem?-lt ps cur at))

  table-parent :
      (j : ℕ) → parent_at (exit_table nproc init ps cur p) j ≡ adopt cur init (parent_at ps j)
  table-parent j = exit_table-parent nproc init cur ps p j ∙ elim (dec_lt j nproc) [
    | yes low ↦ rw (lt→ltb j nproc low)
    | no high ↦ rw (le→ltb j nproc (omega arith), parent_at-far ps j (omega arith))
  ]

-- When a process that is not `init` has left with `exit`, it is a zombie, every child of it has
-- `init` for its parent, every other process keeps its parent, and so no process has it for its
-- parent any more. The table has at most `nproc` entries.
pub exit-adopt :
    (nproc init cur : ℕ) (ps : List Proc) (fs : List File) {ps' : List Proc} {fs' : List File}
    {bs : List Behind} (j : ℕ)
    → length ps ≤ nproc
    → exit nproc init ps fs cur ≡ some (ps', fs', bs)
    → (state_at ps' cur ≡ some zombie)
      × (parent_at ps' j ≡ adopt cur init (parent_at ps j))
      × (is_index cur (parent_at ps' j) ≡ false)
exit-adopt nproc init cur ps fs j room e =
    let (ne, p, at, t) = exit-table nproc init cur ps fs e in
    rw t (
      table-zombie nproc init cur ps p room at,
      table-parent nproc init cur ps p room at j,
      ap (is_index cur) (table-parent nproc init cur ps p room at j)
          ∙ adopt-no_child cur init (parent_at ps j) ne,
    )
