-- ===== src/Syscall/Tests.antt =====
-- The theorems on src/syscall.c, applied to a process of one page: its first argument is the address 100
-- of the empty string.
use a3team_os.Base.{◌+◌, ◌^◌, ◌≤◌, ◌<◌, ◌≡◌, refl, arith, some, ◌==◌, if◌then◌else◌}
use a3team_os.Memory.{Mem, load32}
use a3team_os.Syscall.{fetchint, find_nul, fetchstr, argint, argptr, argstr}
use a3team_os.Syscall.Arguments.{IsString, argstr-IsString, argptr-inside}

abbrev page : Mem
page x = if x == 4004 then 100 else 0

takes_string : argstr 4096 page 4000 0 ≡ some (100, 0)
unfolding argstr argint fetchint fetchstr find_nul load32
takes_string = refl

takes_block : argptr 4096 page 4000 0 512 ≡ some 100
unfolding argptr argint fetchint load32
takes_block = refl

argstr-IsString_example : IsString page 4096 100 0
argstr-IsString_example = argstr-IsString 4096 page 4000 0 100 0 takes_string

argptr-inside_example : (512 < 2 ^ 31) × (100 < 4096) × (100 + 512 ≤ 4096)
argptr-inside_example = argptr-inside 4096 page 4000 0 512 100 (omega arith) takes_block
