-- ===== src/Transfers/Devices.antt =====
-- The table of devices as `consoleinit` of src/console.c fills it: the console is the only device.
--
-- The keys that have come and whether the process is killed are parameters. What a read leaves of the keys
-- is in Console. A read that sleeps has no result.
use a3team_os.Base.{ℕ, Bool, Option, none, some, List, ◌==◌, if◌then◌else◌, length}
use a3team_os.Fs.{Super}
use a3team_os.Inodes.{Action, pure, panic, ◌>>=◌, ilock, iunlock}
use a3team_os.Console.{Input, Ended, finished, refused, sleeps, consoleread}
use a3team_os.Transfers.{Device}

-- `CONSOLE`
abbrev pub console : ℕ
console = 1

module _ (sb : Super) where
  -- The end of `consoleread`, which locks the inode again.
  unfoldable pub after_line : (i : ℕ) → List ℕ → Ended → Action (Option (List ℕ))
  after_line i out finished = do u ← ilock sb i; pure (some out)
  after_line i out refused = do u ← ilock sb i; pure none
  after_line i out (sleeps n) = panic

  unfoldable pub console_read : (killed : Bool) → Input → (i n : ℕ) → Action (Option (List ℕ))
  console_read killed input i n = do
    u ← iunlock i
    let line = consoleread killed n input
    after_line i line.1 line.2

  -- What appears on the screen is in Console.
  unfoldable pub console_write : (i : ℕ) → List ℕ → Action (Option ℕ)
  console_write i src = do u ← iunlock i; u ← ilock sb i; pure (some (length src))

  abbrev pub console_device : (killed : Bool) → Input → Device
  console_device killed input = record {
    read = some (console_read killed input);
    write = some console_write;
  }

  unfoldable pub devices : (killed : Bool) → Input → (major : ℕ) → Device
  devices killed input major =
      if major == console then console_device killed input else record { read = none; write = none }
