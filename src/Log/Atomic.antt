-- ===== src/Log/Atomic.antt =====
-- Commits are atomic: whatever the crash, recovery gives the blocks of before or of after.
use a3team_os.Base.{
  le→ltb, lt→ltb, ◌&&◌, length-append, dec_lt, ltb, ℕ, suc, ◌+◌, ◌-◌, ◌≤◌, ◌<◌, ◌≡◌, ◌∙◌, ap, List,
  [], ◌∷◌, ◌++◌, append_assoc, arith, if◌then◌else◌, length, get_or, set, take, ==-ne, ==-refl,
  take_all,
}
use a3team_os.Log.Recover.{Ready, Restarted, recovered_none, recovered_all, cleared}
use a3team_os.Log.Disk.{Block, Image, update, apply, Within-take, apply-elsewhere, apply-append}
use a3team_os.Log.{Log, commit}
use a3team_os.Log.Head.{numbers, head_block}
use a3team_os.Log.Trace.{
  log_writes, home_writes, IsHome, home_writes-Within, IsCopy, log_writes-Within, commit-trace,
  log_block,
}
use a3team_os.Log.Crash.{
  member, home_writes_lem, install_again, take-before, take-behind, length-log_writes,
  length-numbers, after_recovery,
}

module _ (l l' : Log) (d c : Image) (ready : Ready l d c) (again : Restarted l l') where
  abbrev head : Block
  head = head_block l.n l.block (c l.start)

  abbrev bs : List ℕ
  bs = numbers l.block 0 l.n

  -- The writes of the commit.
  abbrev pub written : List (ℕ × Block)
  written = (commit l (record { cache = c; written = [] })).1.written

  abbrev copies : List (ℕ × Block)
  copies = log_writes c (l.start + 1) bs

  abbrev homes : List (ℕ × Block)
  homes = home_writes c bs

  written-eq : written ≡ copies ++ ((l.start, head) ∷ (homes ++ ((l.start, set head 0 0) ∷ [])))
  written-eq =
      ap (λ r. r.1.written)
        (commit-trace l (record { cache = c; written = [] }) ready.busy ready.home)
      ∙ append_assoc copies ((l.start, head) ∷ homes) ((l.start, set head 0 0) ∷ [])

  length-copies : length copies ≡ l.n
  length-copies = length-log_writes c (l.start + 1) bs ∙ length-numbers l.block 0 l.n

  first_copy : l.start + 0 + 1 ≡ l.start + 1
  first_copy = omega arith

  -- The first `j` writes, up to `n` of them, go to the log.
  quiet : (j x : ℕ) → (¬ IsCopy l c x) → apply d (take j copies) x ≡ d x
  quiet j x out =
      apply-elsewhere (IsCopy l c) d (take j copies) x
        (Within-take (IsCopy l c) j copies
          (rw first_copy at (log_writes-Within l c 0 l.n (omega arith))))
        out

  -- A crash before the header is written: as if the transaction had not been.
  pub before_commit :
      (j b : ℕ)
      → j ≤ l.n
      → IsHome l.start l.n b
      → after_recovery l' (apply d (take j written)) b ≡ d b
  before_commit j b early out =
      rw (written-eq, take-before j copies _ (omega (arith, length-copies)))
        (recovered_none l' (apply d (take j copies)) b
            (ap (λ a. get_or (apply d (take j copies) a) 0 0) again.start
              ∙ ap (λ w. get_or w 0 0) (quiet j l.start (λ h. omega arith))
              ∙ ready.clean)
            (λ e. omega (arith, again.start))
          ∙ quiet j b (λ h. omega arith))

  -- The disk when the header has just been written.
  abbrev committed : Image
  committed = update (apply d copies) l.start head

  committed-home : (b : ℕ) → IsHome l.start l.n b → committed b ≡ d b
  committed-home b out = rw (==-ne b l.start (λ e. omega arith)) (
      apply-elsewhere (IsCopy l c) d copies b
        (rw first_copy at (log_writes-Within l c 0 l.n (omega arith))) (λ h. omega arith))

  committed-copy : (t : ℕ) → t < l.n → committed (l.start + t + 1) ≡ c (get_or l.block t 0)
  committed-copy t hi =
      rw (==-ne (l.start + t + 1) l.start (λ e. omega arith))
        (rw first_copy at (log_block l c d 0 l.n t (omega arith) (omega arith)))

  -- A part of the installation leaves the log alone.
  part-log : (i x : ℕ) → (¬ IsHome l.start l.n x) → apply committed (take i homes) x ≡ committed x
  part-log i x inside =
      apply-elsewhere (IsHome l.start l.n) committed (take i homes) x
        (Within-take (IsHome l.start l.n) i homes
          (home_writes-Within (IsHome l.start l.n) c bs ready.home))
        inside

  after_part :
      (i b : ℕ)
      → IsHome l.start l.n b
      → after_recovery l' (apply committed (take i homes)) b ≡ (if member b bs then c b else d b)
  after_part i b out =
      recovered_all l l' d c ready again (apply committed (take i homes)) b
        (part-log i l.start (λ h. omega arith) ∙ rw (==-refl l.start))
        (λ t hi. part-log i (l.start + t + 1) (λ h. omega arith) ∙ committed-copy t hi) out
      ∙ install_again c committed bs i b
      ∙ ap (λ v. if member b bs then c b else v) (committed-home b out)

  after_end :
      (ws : List (ℕ × Block)) (b : ℕ)
      → ws ≡ homes ++ ((l.start, set head 0 0) ∷ [])
      → IsHome l.start l.n b
      → after_recovery l' (apply committed ws) b ≡ (if member b bs then c b else d b)
  after_end ws b e out =
      rw (e, apply-append)
        (recovered_none l' (update (apply committed homes) l.start (set head 0 0)) b
            (ap (λ a. get_or (update (apply committed homes) l.start (set head 0 0) a) 0 0)
                again.start
              ∙ rw (==-refl l.start) (cleared head))
            (λ e. omega (arith, again.start))
          ∙ rw (==-ne b l.start (λ e. omega arith)) (
              home_writes_lem c committed bs b
              ∙ ap (λ v. if member b bs then c b else v) (committed-home b out)))

  -- The writes behind the header, cut anywhere.
  after_header :
      (i b : ℕ)
      → IsHome l.start l.n b
      → after_recovery l' (apply committed (take i (homes ++ ((l.start, set head 0 0) ∷ [])))) b
        ≡ (if member b bs then c b else d b)
  after_header i b out = elim (dec_lt (length homes) i) [
    | no early ↦ rw (take-before i homes _ (omega (arith, early))) (after_part i b out)
    | yes late ↦
        after_end (take i (homes ++ ((l.start, set head 0 0) ∷ []))) b
          (take_all i (homes ++ ((l.start, set head 0 0) ∷ []))
            (omega (arith, length-append homes ((l.start, set head 0 0) ∷ []), late)))
          out
  ]

  -- A crash after the header is written: as if the transaction had run to its end.
  pub after_commit :
      (j b : ℕ)
      → l.n < j
      → IsHome l.start l.n b
      → after_recovery l' (apply d (take j written)) b ≡ (if member b bs then c b else d b)
  after_commit j b late out =
      let split : j ≡ length copies + suc (j - l.n - 1) = omega (arith, length-copies) in
      let cut : take j written
          ≡ copies
            ++ ((l.start, head) ∷ take (j - l.n - 1) (homes ++ ((l.start, set head 0 0) ∷ []))) =
        ap (take j) written-eq
        ∙ ap (λ k. take k (copies ++ ((l.start, head) ∷ (homes ++ ((l.start, set head 0 0) ∷ [])))))
            split
        ∙ take-behind (j - l.n - 1) copies (l.start, head)
            (homes ++ ((l.start, set head 0 0) ∷ [])) in
      rw (cut, apply-append) (after_header (j - l.n - 1) b out)

  -- Take a commit of at least one and at most `logsize` blocks, all outside the log, from a disk
  -- whose header says 0 and with the header in the cache, and a machine that starts again with the
  -- same log. Then the header is the write that decides: after a crash behind any prefix of the
  -- writes of the commit and the recovery that follows, every block outside the log is as before
  -- the transaction if the header is not yet written, and otherwise as the transaction left it in
  -- the cache.
  pub commit_atomic :
      (j b : ℕ)
      → IsHome l.start l.n b
      → after_recovery l' (apply d (take j written)) b
        ≡ (if ltb l.n j && member b bs then c b else d b)
  commit_atomic j b out = elim (dec_lt l.n j) [
    | yes late ↦ rw (lt→ltb l.n j late) (after_commit j b late out)
    | no early ↦
        rw (le→ltb l.n j (omega (arith, early))) (before_commit j b (omega (arith, early)) out)
  ]
