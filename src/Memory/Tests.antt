-- ===== src/Memory/Tests.antt =====
-- The theorems on src/string.c, applied.
use a3team_os.Base.{◌+◌, ◌-◌, ◌%◌, ◌^◌, ◌≡◌, if◌then◌else◌}
use a3team_os.Memory.{Mem, memmove}
use a3team_os.Memory.Block.{within, memmove_lem}

abbrev bytes : Mem
bytes = λ a. a % 2 ^ 8

memmove_lem_example :
    memmove bytes 12 10 8 15 ≡ (if within 12 8 15 then bytes (10 + (15 - 12)) else bytes 15)
memmove_lem_example = memmove_lem bytes 12 10 8 15
