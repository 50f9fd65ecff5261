-- ===== src/Bcache/Tests.antt =====
-- The theorems on src/bio.c, applied to a cache of two buffers, one of which holds block 5.
use a3team_os.Base.{◌≡◌, refl, arith, true, false, some, [], ◌∷◌}
use a3team_os.Lock.{initsleeplock, holdingsleep}
use a3team_os.Bcache.{Buf, Bcache, bread, bwrite}
use a3team_os.Bcache.View.{IsCache}
use a3team_os.Bcache.Read.{Reads, bread-Reads}
use a3team_os.Bcache.Write.{Writes, bwrite-Writes}

abbrev block5 : Buf
block5 = record {
  slot = 1;
  valid = true;
  dirty = false;
  dev = 1;
  blockno = 5;
  lock = record { locked = true; pid = 7 };
  refcnt = 1;
  bytes = 50 ∷ [];
}

abbrev empty : Buf
empty = record {
  slot = 0;
  valid = false;
  dirty = false;
  dev = 0;
  blockno = 0;
  lock = initsleeplock;
  refcnt = 0;
  bytes = [];
}

abbrev cache : Bcache
cache = record { bufs = block5 ∷ empty ∷ []; disk = λ x. x ∷ []; disksize = 100 }

cache-IsCache : IsCache cache
cache-IsCache = record {
  lone = ((λ x k. (refl, tt)), ((λ x k. tt), tt));
  clean = ((λ x k u ok. cc), (λ e. refl), ((λ x k u ok. cc), (λ e. refl), tt));
  slots = ((refl, tt), (tt, tt));
}

block5-held : holdingsleep 7 block5.lock ≡ true
unfolding holdingsleep
block5-held = refl

bread-Reads_example : Reads 9 cache 6 (bread 9 cache 1 6)
bread-Reads_example =
    bread-Reads 9 cache 6 cache-IsCache (omega arith, (omega arith, tt)) (omega arith)

bwrite-Writes_example : (c' : Bcache) × (bwrite 7 cache 1 ≡ some c') × Writes cache block5 c'
bwrite-Writes_example =
    bwrite-Writes 7 1 cache block5 cache-IsCache refl refl (omega arith) refl (omega arith)
      block5-held
