-- ===== src/Pipe.antt =====
-- Pipes, src/pipe.c: a ring of 512 bytes between writers and readers.
--
-- Each function runs under the lock of the pipe. Where the code sleeps, the function ends here with
-- what is left to do, and the caller goes on from the pipe that it finds when it is woken; `killed`
-- is the flag of the calling process. A wakeup of a channel is kept in the result.
pub mod Queue
pub mod Flow
pub mod Ends
mod Tests
use a3team_os.Base.{
  ℕ, zero, suc, ◌+◌, ◌-◌, ◌*◌, ◌%◌, ◌^◌, Bool, true, false, not, ◌&&◌, ◌||◌, List, [], ◌∷◌, ◌==◌,
  if◌then◌else◌, get_or, set,
}

abbrev pub pipesize : ℕ
pipesize = 512

-- `struct pipe`, whose `data` is `ring`. The two counts are `uint`s.
pub record Pipe : Type 0 where
  pub ring : List ℕ
  pub nread : ℕ
  pub nwrite : ℕ
  pub readopen : Bool
  pub writeopen : Bool

-- `&p->nread` and `&p->nwrite`, which the processes sleep on.
pub data Channel : Type 0 where
  readers : Channel
  writers : Channel

-- How `pipewrite` ends: all bytes written, -1, or asleep with the bytes that are left.
pub data Written : Type 0 where
  finished : Written
  refused : Written
  sleeps : List ℕ → Written

abbrev pub is_full : Pipe → Bool
is_full p = p.nwrite == (p.nread + pipesize) % 2 ^ 32

abbrev pub is_empty : Pipe → Bool
is_empty p = p.nread == p.nwrite

-- `p->data[p->nwrite++ % PIPESIZE] = addr[i];`
unfoldable pub put : Pipe → ℕ → Pipe
put p c = record p { ring = set p.ring (p.nwrite % pipesize) c; nwrite = (p.nwrite + 1) % 2 ^ 32 }

-- The loop of `pipewrite` over the bytes that are left.
unfoldable pub write_loop : (killed : Bool) → List ℕ → Pipe → Pipe × Written
write_loop killed [] p = (p, finished)
write_loop killed (c ∷ cs) p =
    let rest = write_loop killed cs (put p c) in
    if is_full p
    then (if not p.readopen || killed then (p, refused) else (p, sleeps (c ∷ cs)))
    else rest

-- The readers are woken when the writer sleeps and when it has finished.
abbrev pub wakes : Written → List Channel
wakes finished = readers ∷ []
wakes refused = []
wakes (sleeps cs) = readers ∷ []

unfoldable pub pipewrite : (killed : Bool) → Pipe → List ℕ → Pipe × Written × List Channel
pipewrite killed p addr = let (p', w) = write_loop killed addr p in (p', w, wakes w)

-- `p->data[p->nread++ % PIPESIZE]`
unfoldable pub get : Pipe → ℕ × Pipe
get p = (get_or p.ring (p.nread % pipesize) 0, record p { nread = (p.nread + 1) % 2 ^ 32 })

-- `for (i = 0; i < n; i++)` of `piperead`, with the rounds left: the bytes that it copies.
unfoldable pub read_loop : (n : ℕ) → Pipe → List ℕ × Pipe
read_loop zero p = ([], p)
read_loop (suc n) p =
    let (c, p1) = get p in
    let (cs, p2) = read_loop n p1 in if is_empty p then ([], p) else (c ∷ cs, p2)

-- How `piperead` ends: the bytes, -1, or asleep with nothing done.
pub data Got : Type 0 where
  bytes : List ℕ → Got
  refused : Got
  sleeps : Got

unfoldable pub piperead : (killed : Bool) → Pipe → (n : ℕ) → Pipe × Got × List Channel
piperead killed p n =
    if is_empty p && p.writeopen
    then (if killed then (p, Got.refused, []) else (p, Got.sleeps, []))
    else (let (cs, p') = read_loop n p in (p', bytes cs, writers ∷ []))

-- The pipe, the channel that is woken, and whether its page is given back.
unfoldable pub pipeclose : Pipe → (writable : Bool) → Pipe × Channel × Bool
pipeclose p writable =
    let p' = if writable then record p { writeopen = false } else record p { readopen = false } in
    (p', (if writable then readers else writers), not p'.readopen && not p'.writeopen)
