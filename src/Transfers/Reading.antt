-- ===== src/Transfers/Reading.antt =====
-- Reading and writing keep references, locks and transactions.
use a3team_os.Base.{
  Bool, Bool-cases, inl, inr, ap, subst, set, get_elem?, ℕ, zero, suc, ◌≡◌, refl, true, false, not,
  Option, none, some, List, [], ◌==◌, if◌then◌else◌, take, drop, length, arith,
}
use a3team_os.Base.Maybe.{Each}
use a3team_os.Fs.{Super}
use a3team_os.Inodes.{State, Action, pure, if_null}
use a3team_os.Inodes.Rules.{
  unlocks, Tally, untouched, Same, even, Does, by-pure, by-if, by-null, by-panic, Does-bind,
}
use a3team_os.Inodes.Moves.{
  inode-Does, ilock-Does, iunlock-Does, readi-Does, writei-Does, begin_op-Does, end_op-Does,
}
use a3team_os.File.{File, Kind, fd_none, fd_pipe, fd_inode}
use a3team_os.Paths.{t_dev}
use a3team_os.Opens.Restoring.{Balanced, settle}
use a3team_os.Console.{Input, Ended, finished, refused, sleeps}
use a3team_os.Transfers.Devices.{console, after_line, console_read, console_write, devices}
use a3team_os.Transfers.{
  argfd, Ofile, write_as, Device, no_device, answers, to_pipe, after_read, move_on, read_inode,
  write_file, write_inode, filestat, stat_as, stat_at, on_file, sys_read, sys_write, sys_fstat,
  read_at, read_as, fileread, write_chunk, write_chunks, write_at, filewrite, write_max,
}

-- The functions of a device keep references, locks and transactions.
record IsQuiet (d : Device) : Type 0 where
  reads :
      (read : (ip n : ℕ) → Action (Option (List ℕ)))
      → d.read ≡ some read
      → (t : Tally) (i n : ℕ) → Does t (read i n) (λ r. t)
  writes :
      (write : (ip : ℕ) → List ℕ → Action (Option ℕ))
      → d.write ≡ some write
      → (t : Tally) (i : ℕ) (src : List ℕ) → Does t (write i src) (λ r. t)

module _ (sb : Super) (devsw : ℕ → Device) (quiet : (major : ℕ) → IsQuiet (devsw major)) where
  read_inode-Does : {t : Tally} (i off n : ℕ) → Does t (read_inode sb devsw i off n) (λ r. t)
  unfolding read_inode
  read_inode-Does {t} i off n = Does-bind (inode-Does i) (λ ip.
      by-if (ip.kind == t_dev)
        (by-if (no_device ip) (by-pure none (even (λ j. omega arith)))
          (of_device (devsw ip.major).read (quiet ip.major).reads))
        (readi-Does sb i off n))
    where
      of_device :
          (o : Option ((ip n : ℕ) → Action (Option (List ℕ))))
          → ((read : (ip n : ℕ) → Action (Option (List ℕ)))
              → o ≡ some read
              → (t : Tally) (i n : ℕ) → Does t (read i n) (λ r. t))
          → Does t (if_null o (pure none) (λ read. read i n)) (λ r. t)
      of_device none h = by-pure none (even (λ j. omega arith))
      of_device (some read) h = h read refl t i n

  write_inode-Does :
      {t : Tally} (i off : ℕ) (src : List ℕ) → Does t (write_inode sb devsw i off src) (λ r. t)
  unfolding write_inode write_file
  write_inode-Does {t} i off src = Does-bind (inode-Does i) (λ ip.
      by-if (ip.kind == t_dev)
        (by-if (no_device ip) (by-pure none (even (λ j. omega arith)))
          (of_device (devsw ip.major).write (quiet ip.major).writes))
        (Does-bind (writei-Does sb i off src) (λ written. by-pure _ (even (λ j. omega arith)))))
    where
      of_device :
          (o : Option ((ip : ℕ) → List ℕ → Action (Option ℕ)))
          → ((write : (ip : ℕ) → List ℕ → Action (Option ℕ))
              → o ≡ some write
              → (t : Tally) (i : ℕ) (src : List ℕ) → Does t (write i src) (λ r. t))
          → Does t (if_null o (pure none) (λ write. write i src)) (λ r. t)
      of_device none h = by-pure none (even (λ j. omega arith))
      of_device (some write) h = h write refl t i src

  fileread-Does : {t : Tally} (f : File) (n : ℕ) → Does t (fileread sb devsw f n) (λ r. t)
  unfolding fileread read_as read_at
  fileread-Does {t} f n =
      by-if (not f.readable) (by-pure (f, answers none) (even (λ j. omega arith))) (of_kind f.kind)
    where
      of_kind : (k : Kind) → Does t (read_as sb devsw k f n) (λ r. t)
      of_kind fd_pipe = by-pure (f, to_pipe f.pipe) (even (λ j. omega arith))
      of_kind fd_none = by-panic
      of_kind fd_inode = Does-bind (ilock-Does sb f.ip) (λ u.
          Does-bind (read_inode-Does f.ip f.off n) (λ got.
            Does-bind (iunlock-Does f.ip)
              (λ u. by-pure (after_read f got, answers got) (even (λ j. omega arith)))))

  write_chunk-Does :
      {t : Tally} (f : File) (src : List ℕ) → Does t (write_chunk sb devsw f src) (λ r. t)
  unfolding write_chunk
  write_chunk-Does f src = Does-bind begin_op-Does (λ u. Does-bind (ilock-Does sb f.ip) (λ u.
      Does-bind (write_inode-Does f.ip f.off src) (λ r.
        Does-bind (iunlock-Does f.ip)
          (λ u. Does-bind end_op-Does (λ u. by-pure r (even (λ j. omega arith)))))))

  write_chunks-Does :
      {t : Tally} (n : ℕ) (f : File) (left : List ℕ)
      → Does t (write_chunks sb devsw n f left) (λ r. t)
  unfolding write_chunks
  write_chunks-Does zero f left = by-pure (f, length left == 0) (even (λ j. omega arith))
  write_chunks-Does {t} (suc n) f left =
      by-if (length left == 0) (by-pure (f, true) (even (λ j. omega arith))) (
        Does-bind (write_chunk-Does f (take write_max left)) (λ r.
          by-null r (by-pure (f, false) (even (λ j. omega arith))) (λ r.
            by-if (not (r == length (take write_max left))) by-panic
              (write_chunks-Does {t = t} n (move_on r f) (drop write_max left)))))

  filewrite-Does :
      {t : Tally} (f : File) (src : List ℕ) → Does t (filewrite sb devsw f src) (λ r. t)
  unfolding filewrite write_as write_at
  filewrite-Does {t} f src =
      by-if (not f.writable) (by-pure (f, answers none) (even (λ j. omega arith))) (of_kind f.kind)
    where
      of_kind : (k : Kind) → Does t (write_as sb devsw k f src) (λ r. t)
      of_kind fd_pipe = by-pure (f, to_pipe f.pipe) (even (λ j. omega arith))
      of_kind fd_none = by-panic
      of_kind fd_inode = Does-bind (write_chunks-Does (length src) f src) (λ done.
          by-pure (done.0, answers (if done.1 then some (length src) else none))
            (even (λ j. omega arith)))

  filestat-Does : {t : Tally} (f : File) → Does t (filestat sb devsw f) (λ r. t)
  unfolding filestat stat_as stat_at
  filestat-Does {t} f = of_kind f.kind
    where
      of_kind : (k : Kind) → Does t (stat_as sb devsw k f.ip) (λ r. t)
      of_kind fd_pipe = by-pure none (even (λ j. omega arith))
      of_kind fd_none = by-pure none (even (λ j. omega arith))
      of_kind fd_inode = Does-bind (ilock-Does sb f.ip) (λ u.
          Does-bind (inode-Does f.ip)
            (λ ip. Does-bind (iunlock-Does f.ip) (λ u. by-pure _ (even (λ j. omega arith)))))

  on_file-Does :
      {A : Type 0} {t : Tally} (call : File → Action (File × A)) (k : ℕ) (files : List File)
      → ((f : File) → Does t (call f) (λ r. t))
      → Does t (on_file sb devsw call k files) (λ r. t)
  unfolding on_file
  on_file-Does call k files does =
      by-null (get_elem? files k) by-panic
        (λ f. Does-bind (does f) (λ r. by-pure (set files k r.0, r.1) (even (λ j. omega arith))))

abbrev Reader : Type 0
Reader = (ip n : ℕ) → Action (Option (List ℕ))

abbrev Writer : Type 0
Writer = (ip : ℕ) → List ℕ → Action (Option ℕ)

abbrev reader_or : Reader → Option Reader → Reader
reader_or other none = other
reader_or other (some read) = read

abbrev writer_or : Writer → Option Writer → Writer
writer_or other none = other
writer_or other (some write) = write

module _ (sb : Super) (killed : Bool) (input : Input) where
  after_line-Does :
      {t : Tally} (i : ℕ) (out : List ℕ) (end : Ended)
      → Does (unlocks i t) (after_line sb i out end) (λ r. t)
  unfolding after_line
  after_line-Does i out finished =
      Does-bind (ilock-Does sb i) (λ u. by-pure _ (even (λ j. omega arith)))
  after_line-Does i out refused =
      Does-bind (ilock-Does sb i) (λ u. by-pure _ (even (λ j. omega arith)))
  after_line-Does i out (sleeps n) = by-panic

  console_read-Does : {t : Tally} (i n : ℕ) → Does t (console_read sb killed input i n) (λ r. t)
  unfolding console_read
  console_read-Does i n = Does-bind (iunlock-Does i) (λ u. after_line-Does i _ _)

  console_write-Does : {t : Tally} (i : ℕ) (src : List ℕ) → Does t (console_write sb i src) (λ r. t)
  unfolding console_write
  console_write-Does i src =
      Does-bind (iunlock-Does i)
        (λ u. Does-bind (ilock-Does sb i) (λ u. by-pure _ (even (λ j. omega arith))))

  devices-IsQuiet : (major : ℕ) → IsQuiet (devices sb killed input major)
  unfolding devices
  devices-IsQuiet major = elim (Bool-cases (major == console)) [
    | inl here ↦ rw here (record {
      reads = λ read e t i n.
          subst (λ m. Does t (m i n) (λ r. t)) (ap (reader_or read) e) (console_read-Does i n);
      writes = λ write e t i src.
          subst (λ m. Does t (m i src) (λ r. t)) (ap (writer_or write) e)
            (console_write-Does i src);
    })
    | inr other ↦ rw other (record { reads = λ read e. absurd cc; writes = λ write e. absurd cc })
  ]

  -- With the console as the only device, for all keys that have come: `sys_read`, `sys_write` and
  -- `sys_fstat`, when they do not panic, wait for a lock of their own process or sleep for keys, leave
  -- every reference count of an inode, the locks that the process holds and the number of transactions
  -- as they were, whatever they return.
  pub transfers-Balanced :
      (s : State) (fd n buffer : Option ℕ) (src : Option (List ℕ)) (ofile : Ofile)
      (files : List File)
      → Each
          (λ r. Balanced [] [] s r.1)
          (sys_read sb (devices sb killed input) fd n buffer ofile files s)
        × Each
            (λ r. Balanced [] [] s r.1)
            (sys_write sb (devices sb killed input) fd src ofile files s)
        × Each
            (λ r. Balanced [] [] s r.1)
            (sys_fstat sb (devices sb killed input) fd buffer ofile files s)
  unfolding sys_read sys_write sys_fstat
  transfers-Balanced s fd n buffer src ofile files = (
    settle (λ r. []) (λ r. []) s
        (by-null (argfd fd ofile) (by-pure _ at_rest) (λ d. by-null n (by-pure _ at_rest) (λ n.
          by-null buffer (by-pure _ at_rest) (λ b.
            on_file-Does sb (devices sb killed input) devices-IsQuiet _ d.1 files
              (λ f. fileread-Does sb (devices sb killed input) devices-IsQuiet f n)))))
        (λ r. at_rest),
    settle (λ r. []) (λ r. []) s
        (by-null (argfd fd ofile) (by-pure _ at_rest) (λ d.
          by-null src (by-pure _ at_rest) (λ bytes.
            on_file-Does sb (devices sb killed input) devices-IsQuiet _ d.1 files
              (λ f. filewrite-Does sb (devices sb killed input) devices-IsQuiet f bytes))))
        (λ r. at_rest),
    settle (λ r. []) (λ r. []) s
        (by-null (argfd fd ofile) (by-pure none at_rest) (λ d.
          by-null buffer (by-pure none at_rest) (λ p.
            by-null (get_elem? files d.1) by-panic
              (filestat-Does sb (devices sb killed input) devices-IsQuiet))))
        (λ r. at_rest),
  )
    where
      at_rest : Same untouched untouched
      at_rest = even (λ j. omega arith)
