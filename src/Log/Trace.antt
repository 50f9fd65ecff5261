-- ===== src/Log/Trace.antt =====
-- The writes of `write_log`, `install_trans` and `commit`, in order.
use a3team_os.Base.{
  append-nil, ℕ, zero, suc, ◌+◌, ◌≤◌, ◌<◌, ◌≡◌, ◌≢◌, ◌⊎◌, refl, sym, ◌∙◌, ap, ap₂, List, [], ◌∷◌,
  ◌++◌, append_assoc, arith, get_or, set, ==-ne, ==-refl, ℕ_discrete, lt→ltb,
}
use a3team_os.Log.Disk.{
  Block, Image, update, Store, bwrite, apply, extend, extend-bwrite, Within, apply-elsewhere,
  apply-append,
}
use a3team_os.Log.{
  write_words, Log, install_loop, install_trans, write_log_loop, write_log, write_head, commit,
}
use a3team_os.Log.Head.{numbers, head_block}

-- The copies of the blocks `bs` in the log, from block `a` on.
abbrev pub log_writes : Image → (a : ℕ) → List ℕ → List (ℕ × Block)
log_writes c a [] = []
log_writes c a (b ∷ bs) = (a, c b) ∷ log_writes c (a + 1) bs

-- The writes of the blocks `bs` to their places.
abbrev pub home_writes : Image → List ℕ → List (ℕ × Block)
home_writes c [] = []
home_writes c (b ∷ bs) = (b, c b) ∷ home_writes c bs

-- A block that is neither the header nor one of the `n` log blocks behind it.
abbrev pub IsHome : (start n : ℕ) → ℕ → Type 0
IsHome start n b = (b < start) ⊎ (start + n < b)

abbrev pub All : (ℕ → Type 0) → List ℕ → Type 0
All P [] = Unit
All P (b ∷ bs) = P b × All P bs

pub extend-extend :
    (st : Store) (xs ys : List (ℕ × Block)) → extend (extend st xs) ys ≡ extend st (xs ++ ys)
extend-extend st xs ys =
    ap₂ (λ c w. record { cache = c; written = w }) (sym (apply-append st.cache xs ys))
      (append_assoc st.written xs ys)

pub home_writes-Within :
    (P : ℕ → Type 0) (c : Image) (bs : List ℕ) → All P bs → Within P (home_writes c bs)
home_writes-Within P c [] h = tt
home_writes-Within P c (b ∷ bs) h = (h.0, home_writes-Within P c bs h.1)

log_writes-above :
    (c : Image) (a low : ℕ) (bs : List ℕ) → low ≤ a → Within (λ b. low ≤ b) (log_writes c a bs)
log_writes-above c a low [] h = tt
log_writes-above c a low (b ∷ bs) h = (h, log_writes-above c (a + 1) low bs (omega arith))

extend-nil : (st : Store) → extend st [] ≡ st
extend-nil st = ap (λ w. record { cache = st.cache; written = w }) (append-nil st.written)

bwrite-other :
    (st : Store) (b : ℕ) (v : Block) (x : ℕ) → x ≢ b → (bwrite st b v).cache x ≡ st.cache x
unfolding bwrite
bwrite-other st b v x ne = rw (==-ne x b ne)

module _ (l : Log) (c : Image) where
  -- The blocks from `a` to `a + r` are log blocks.
  abbrev pub IsCopy : ℕ → Type 0
  IsCopy b = (l.start < b) × (b ≤ l.start + l.n)

  next : (tail : ℕ) → l.start + tail + 1 + 1 ≡ l.start + (tail + 1) + 1
  next tail = omega arith

  pub log_writes-Within :
      (tail r : ℕ)
      → tail + r ≤ l.n
      → Within IsCopy (log_writes c (l.start + tail + 1) (numbers l.block tail r))
  log_writes-Within tail zero h = tt
  log_writes-Within tail (suc r) h =
      ((omega arith, omega arith), rw (next tail) (log_writes-Within (tail + 1) r (omega arith)))

  -- The cache holds `c` outside the log.
  abbrev Agrees : Store → Type 0
  Agrees st = (b : ℕ) → IsHome l.start l.n b → st.cache b ≡ c b

  -- The loop of `write_log` copies the blocks, as they stand in the cache, to the log.
  write_log_loop-trace :
      (r tail : ℕ) (st : Store)
      → tail + r ≤ l.n
      → Agrees st
      → All (IsHome l.start l.n) (numbers l.block tail r)
      → write_log_loop r tail l st
        ≡ extend st (log_writes c (l.start + tail + 1) (numbers l.block tail r))
  unfolding write_log_loop
  write_log_loop-trace zero tail st h agrees home = sym (extend-nil st)
  write_log_loop-trace (suc r) tail st h agrees home =
      rw (agrees (get_or l.block tail 0) home.0, next tail)
        (write_log_loop-trace r (tail + 1) _ (omega arith)
            (λ b hb. bwrite-other st (l.start + tail + 1) _ b (λ e. omega arith) ∙ agrees b hb)
            home.1
          ∙ extend-bwrite st _ _ _)

  -- The log block of each number holds the copy.
  pub log_block :
      (m : Image) (tail r t : ℕ)
      → tail ≤ t
      → t < tail + r
      → apply m (log_writes c (l.start + tail + 1) (numbers l.block tail r)) (l.start + t + 1)
        ≡ c (get_or l.block t 0)
  log_block m tail zero t lo hi = absurd (omega arith)
  log_block m tail (suc r) t lo hi = elim (ℕ_discrete tail t) [
    | yes e ↦ rw (← e) (
        apply-elsewhere (λ b. l.start + tail + 1 + 1 ≤ b)
          (update m (l.start + tail + 1) (c (get_or l.block tail 0)))
          (log_writes c (l.start + tail + 1 + 1) (numbers l.block (tail + 1) r))
          (l.start + tail + 1)
          (log_writes-above c (l.start + tail + 1 + 1) (l.start + tail + 1 + 1)
            (numbers l.block (tail + 1) r) (omega arith))
          (λ h. omega arith)
        ∙ rw (==-refl (l.start + tail + 1)))
    | no ne ↦ rw (next tail) (
        log_block (update m (l.start + tail + 1) (c (get_or l.block tail 0))) (tail + 1) r t
          (omega arith) (omega arith))
  ]

  -- From the log the loop of `install_trans` copies each block to its place.
  pub install_loop-trace :
      (r tail : ℕ) (st : Store)
      → tail + r ≤ l.n
      → ((t : ℕ) → tail ≤ t → t < tail + r → st.cache (l.start + t + 1) ≡ c (get_or l.block t 0))
      → All (IsHome l.start l.n) (numbers l.block tail r)
      → install_loop r tail l st ≡ extend st (home_writes c (numbers l.block tail r))
  unfolding install_loop
  install_loop-trace zero tail st h copies home = sym (extend-nil st)
  install_loop-trace (suc r) tail st h copies home = rw (copies tail (omega arith) (omega arith)) (
      install_loop-trace r (tail + 1) _ (omega arith)
        (λ t lo hi.
          bwrite-other st (get_or l.block tail 0) _ (l.start + t + 1)
            (λ e. outside t hi (rw (← e) at home.0))
          ∙ copies t (omega arith) (omega arith))
        home.1
      ∙ extend-bwrite st _ _ _)
    where
      outside : (t : ℕ) → t < tail + 1 + r → IsHome l.start l.n (l.start + t + 1) → ⊥
      outside t hi home = omega arith

-- The writes of a commit: the log, the header, the blocks, and the header again with a count of 0.
abbrev pub commit_writes : Log → Image → List (ℕ × Block)
commit_writes l c =
    let bs = numbers l.block 0 l.n in
    let head = head_block l.n l.block (c l.start) in
    log_writes c (l.start + 1) bs
    ++ (l.start, head) ∷ home_writes c bs
    ++ (l.start, set head 0 0) ∷ []

bwrite-extend : (st : Store) (b : ℕ) (v : Block) → bwrite st b v ≡ extend st ((b, v) ∷ [])
unfolding bwrite
bwrite-extend st b v = refl

module _ (l : Log) (st : Store) (busy : 0 < l.n)
    (home : All (IsHome l.start l.n) (numbers l.block 0 l.n)) where
  abbrev copies : List (ℕ × Block)
  copies = log_writes st.cache (l.start + 1) (numbers l.block 0 l.n)

  abbrev head : Block
  head = head_block l.n l.block (st.cache l.start)

  abbrev homes : List (ℕ × Block)
  homes = home_writes st.cache (numbers l.block 0 l.n)

  first_copy : l.start + 0 + 1 ≡ l.start + 1
  first_copy = omega arith

  write_log-trace : write_log l st ≡ extend st copies
  unfolding write_log
  write_log-trace =
      rw first_copy at (write_log_loop-trace l st.cache l.n 0 st (omega arith) (λ b h. refl) home)

  -- The header block is not among the copies, nor among the blocks that are installed.
  header-after_copies : apply st.cache copies l.start ≡ st.cache l.start
  header-after_copies =
      apply-elsewhere (IsCopy l st.cache) st.cache copies l.start
        (rw first_copy at (log_writes-Within l st.cache 0 l.n (omega arith))) (λ h. omega arith)

  header-after_homes : (m : Image) → apply m homes l.start ≡ m l.start
  header-after_homes m =
      apply-elsewhere (IsHome l.start l.n) m homes l.start
        (home_writes-Within (IsHome l.start l.n) st.cache (numbers l.block 0 l.n) home)
        (λ h. omega arith)

  write_head-trace : write_head l (extend st copies) ≡ extend st (copies ++ (l.start, head) ∷ [])
  unfolding write_head
  write_head-trace =
      rw (header-after_copies, bwrite-extend) (extend-extend st copies ((l.start, head) ∷ []))

  copied :
      (t : ℕ)
      → t < l.n
      → apply st.cache (copies ++ (l.start, head) ∷ []) (l.start + t + 1)
        ≡ st.cache (get_or l.block t 0)
  copied t hi =
      rw (apply-append, ==-ne (l.start + t + 1) l.start (λ e. omega arith))
        (rw first_copy at (log_block l st.cache st.cache 0 l.n t (omega arith) (omega arith)))

  header-at_end : apply st.cache (copies ++ (l.start, head) ∷ homes) l.start ≡ head
  header-at_end = rw apply-append (header-after_homes _ ∙ rw (==-refl l.start))

  clear_head-trace :
      write_head (record l { n = 0 }) (extend st (copies ++ (l.start, head) ∷ homes))
      ≡ extend st (commit_writes l st.cache)
  unfolding write_head write_words
  clear_head-trace =
      rw (header-at_end, bwrite-extend)
        (extend-extend st (copies ++ (l.start, head) ∷ homes) ((l.start, set head 0 0) ∷ []))

  install-trace :
      install_trans l (extend st (copies ++ (l.start, head) ∷ []))
      ≡ extend st (copies ++ (l.start, head) ∷ homes)
  unfolding install_trans
  install-trace =
      install_loop-trace l st.cache l.n 0 _ (omega arith) (λ t lo hi. copied t (omega arith)) home
      ∙ extend-extend st _ homes
      ∙ ap (extend st) (append_assoc copies ((l.start, head) ∷ []) homes)

  -- `commit` writes the copies, the header, the blocks and the cleared header, in this order, and
  -- counts no block in the log afterwards.
  pub commit-trace : commit l st ≡ (record l { n = 0 }, extend st (commit_writes l st.cache))
  unfolding commit
  commit-trace =
      rw (lt→ltb 0 l.n busy, write_log-trace, write_head-trace, install-trace, clear_head-trace)
