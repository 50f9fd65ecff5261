-- ===== src/Slab/Tests.antt =====
-- The theorems on the size classes of src/slab.c, applied.
use a3team_os.Base.{◌*◌, ◌^◌, ◌≡◌, arith}
use a3team_os.Slab.SizeClass.{get_slab_idx, get_slab_idx-power}

get_slab_idx-power_example : get_slab_idx (8 * 2 ^ 5) ≡ 5
get_slab_idx-power_example = get_slab_idx-power 5 (omega arith)
