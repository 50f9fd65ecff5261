-- ===== src/Pipe/Tests.antt =====
-- The theorems on src/pipe.c, applied to a pipe whose counts are about to wrap.
use a3team_os.Base.{ℕ, ◌≡◌, arith, true, false, [], ◌∷◌, replicate, length-replicate}
use a3team_os.Pipe.{Pipe, pipewrite, piperead, wakes}
use a3team_os.Pipe.Queue.{IsPipe}
use a3team_os.Pipe.Flow.{Flows, Reads, pipewrite-Flows, piperead-Reads}

abbrev near_wrap : Pipe
near_wrap = record {
  ring = replicate 512 65;
  nread = 4294967293;
  nwrite = 4294967295;
  readopen = true;
  writeopen = true;
}

near_wrap-IsPipe : IsPipe near_wrap
near_wrap-IsPipe = record {
  size = length-replicate {A = ℕ} 512 65;
  read_word = omega arith;
  write_word = omega arith;
  bound = omega arith;
}

pipewrite-Flows_example :
    let (p', w, woken) = pipewrite false near_wrap (1 ∷ 2 ∷ 3 ∷ []) in
    Flows false near_wrap (1 ∷ 2 ∷ 3 ∷ []) p' w × (woken ≡ wakes w)
pipewrite-Flows_example = pipewrite-Flows false near_wrap (1 ∷ 2 ∷ 3 ∷ []) near_wrap-IsPipe

piperead-Reads_example :
    let (p', got, woken) = piperead false near_wrap 5 in Reads false near_wrap 5 p' got
piperead-Reads_example = piperead-Reads false near_wrap 5 near_wrap-IsPipe
