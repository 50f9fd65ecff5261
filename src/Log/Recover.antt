-- ===== src/Log/Recover.antt =====
-- What `recover_from_log` makes of an image with a clear header, and of one with a full header.
use a3team_os.Base.{
  ℕ, ◌+◌, ◌≤◌, ◌<◌, ◌≡◌, ◌≢◌, refl, sym, ◌∙◌, ap, List, [], ◌∷◌, arith, if◌then◌else◌, length,
  get_or, set, ==-ne,
}
use a3team_os.Log.Disk.{Block, Image, bwrite, extend, apply-append}
use a3team_os.Log.{
  Log, logsize, install_trans, install_loop, read_head, read_words, write_head, recover_from_log,
}
use a3team_os.Log.Head.{
  numbers, head_block, head_block-count, number-head_block, numbers-head_block,
}
use a3team_os.Log.Trace.{home_writes, IsHome, All, install_loop-trace}
use a3team_os.Log.Crash.{member, home_writes_lem, reboot, after_recovery}

-- With a count of 0 in the header recovery changes the header at most.
pub recovered_none :
    (l : Log) (m : Image) (b : ℕ)
    → get_or (m l.start) 0 0 ≡ 0
    → b ≢ l.start
    → after_recovery l m b ≡ m b
unfolding recover_from_log read_head install_trans install_loop write_head bwrite
recovered_none l m b e ne = rw (e, ==-ne b l.start ne)

pub cleared : (words : Block) → get_or (set words 0 0) 0 0 ≡ 0
cleared [] = refl
cleared (w ∷ words) = refl

-- The log that a commit starts from, and the disk and cache under it.
pub record Ready (l : Log) (d c : Image) : Type 0 where
  pub cached : c l.start ≡ d l.start
  pub words : length (c l.start) ≡ 128
  pub clean : get_or (d l.start) 0 0 ≡ 0
  pub busy : 0 < l.n
  pub fits : l.n ≤ logsize
  pub home : All (IsHome l.start l.n) (numbers l.block 0 l.n)

-- The log record of the machine that starts again: the same place, and an array for the header.
pub record Restarted (l l' : Log) : Type 0 where
  pub start : l'.start ≡ l.start
  pub room : length l'.block ≡ logsize

module _ (l l' : Log) (d c : Image) (ready : Ready l d c) (again : Restarted l l') where
  abbrev head : Block
  head = head_block l.n l.block (c l.start)

  abbrev bs : List ℕ
  bs = numbers l.block 0 l.n

  abbrev restored : Log
  restored = record l' { n = l.n; block = read_words l.n 0 head l'.block }

  in_block : l.n < length (c l.start)
  in_block = omega (arith, ready.words, ready.fits)

  in_array : l.n ≤ length l'.block
  in_array = omega (arith, again.room, ready.fits)

  read_head-restored : (m : Image) → m l.start ≡ head → read_head l' (reboot m) ≡ restored
  unfolding read_head
  read_head-restored m at_head =
      ap (λ w. record l' { n = get_or w 0 0; block = read_words (get_or w 0 0) 0 w l'.block })
        (ap m again.start ∙ at_head)
      ∙ ap (λ k. record l' { n = k; block = read_words k 0 head l'.block })
          (head_block-count l.n l.block (c l.start) in_block)

  install-restored :
      (m : Image)
      → ((t : ℕ) → t < l.n → m (l.start + t + 1) ≡ c (get_or l.block t 0))
      → install_trans restored (reboot m) ≡ extend (reboot m) (home_writes c bs)
  unfolding install_trans
  install-restored m copies =
      install_loop-trace restored c l.n 0 (reboot m) (omega arith)
        (λ t lo hi.
          ap (λ a. m (a + t + 1)) again.start
          ∙ copies t (omega arith)
          ∙ ap c (
              sym (
                number-head_block l.n l.block (c l.start) in_block l'.block t in_array
                  (omega arith))))
        (rw (again.start, same) ready.home)
      ∙ ap (λ xs. extend (reboot m) (home_writes c xs)) same
    where
      same : numbers (read_words l.n 0 head l'.block) 0 l.n ≡ bs
      same = numbers-head_block l.n l.block (c l.start) in_block l'.block in_array

  -- With the header of the commit, and the copies behind it, recovery installs every block.
  pub recovered_all :
      (m : Image) (b : ℕ)
      → m l.start ≡ head
      → ((t : ℕ) → t < l.n → m (l.start + t + 1) ≡ c (get_or l.block t 0))
      → IsHome l.start l.n b
      → after_recovery l' m b ≡ (if member b bs then c b else m b)
  unfolding recover_from_log write_head bwrite
  recovered_all m b at_head copies out =
      rw
        (
          read_head-restored m at_head,
          install-restored m copies,
          apply-append,
          ==-ne b l'.start (λ e. omega (arith, again.start)),
        )
        (home_writes_lem c m bs b)
