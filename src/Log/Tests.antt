-- ===== src/Log/Tests.antt =====
-- The theorems on src/log.c, applied.
use a3team_os.Base.{
  take, ◌≡◌, ◌&&◌, ◌≤◌, true, false, if◌then◌else◌, ltb, refl, arith, inr, [], ◌∷◌, replicate,
}
use a3team_os.Log.{find_block, Log, begin_op, log_write}
use a3team_os.Log.Disk.{Image, apply, update}
use a3team_os.Log.Crash.{after_recovery, member}
use a3team_os.Log.Head.{numbers}
use a3team_os.Log.Recover.{Ready, Restarted}
use a3team_os.Log.Atomic.{written, commit_atomic}
use a3team_os.Log.Ops.{Sys, Reach, begins, next, here, IsStart, reserved_bound}
use a3team_os.Log.Absorb.{Logged, log_write-Logged}

-- The log from block 2 on, with a transaction of the blocks 40 and 41.
abbrev two_blocks : Log
two_blocks = record {
  start = 2;
  size = 32;
  outstanding = 0;
  committing = true;
  n = 2;
  block = 40 ∷ 41 ∷ replicate 28 0;
}

abbrev restarted : Log
restarted = record {
  start = 2;
  size = 32;
  outstanding = 0;
  committing = false;
  n = 0;
  block = replicate 30 0;
}

abbrev old : Image
old = λ b. replicate 128 0

abbrev cache : Image
cache = update (update old 40 (replicate 128 7)) 41 (replicate 128 8)

ready : Ready two_blocks old cache
ready = record {
  cached = refl;
  words = refl;
  clean = refl;
  busy = omega arith;
  fits = omega arith;
  home = (inr (omega arith), (inr (omega arith), tt));
}

again : Restarted two_blocks restarted
again = record { start = refl; room = refl }

-- A crash behind the third write, the header.
commit_atomic_example :
    after_recovery restarted
      (apply old (take 3 (written two_blocks restarted old cache ready again)))
      40
    ≡ (if ltb 2 3 && member 40 (numbers two_blocks.block 0 2) then cache 40 else old 40)
commit_atomic_example =
    commit_atomic two_blocks restarted old cache ready again 3 40 (inr (omega arith))

abbrev quiet : Sys
quiet = record { log = restarted; left = [] }

quiet-IsStart : IsStart quiet
quiet-IsStart = record {
  none_under_way = refl;
  count_zero = refl;
  size_ok = omega arith;
  no_commit = refl;
  none_logged = refl;
}

abbrev one_op : Sys
one_op = record { log = record restarted { outstanding = 1 }; left = 10 ∷ [] }

one_begins : Reach quiet one_op
unfolding begin_op
one_begins = next here (begins refl)

reserved_bound_example : one_op.log.n ≤ 30
reserved_bound_example = reserved_bound quiet-IsStart one_begins

log_write-Logged_example :
    Logged one_op.log 40 (record one_op.log { n = 1; block = 40 ∷ replicate 29 0 })
unfolding log_write find_block
log_write-Logged_example =
    log_write-Logged one_op.log (record one_op.log { n = 1; block = 40 ∷ replicate 29 0 }) 40
      (omega arith) refl
