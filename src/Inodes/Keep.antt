-- ===== src/Inodes/Keep.antt =====
-- The operations on the content of an inode keep its count of references.
use a3team_os.Base.{
  ℕ, zero, suc, ◌+◌, ◌-◌, ◌*◌, ◌/◌, ◌%◌, ◌^◌, ◌≡◌, refl, ◌∙◌, Bool, true, false, not, ◌&&◌, ◌||◌,
  Option, some, List, ◌++◌, ◌==◌, ltb, if◌then◌else◌, get_or, take, drop, length,
}
use a3team_os.Base.Maybe.{◌>>=◌, Each, Each-bind, Each-if, Each-then, Each-weaken}
use a3team_os.Fs.{bsize, Super, Disk, log_block, get16, balloc, bfree}
use a3team_os.Fs.Inode.{Inode, ndirect, nindirect, iupdate}
use a3team_os.Fs.Content.{
  direct, indirect, bmap, free_direct, free_indirect, itrunc, chunk, read_chunks, readi,
  write_chunks, writei,
}
use a3team_os.Fs.Path.{dirent_size, dirsiz, find_entry, find_empty, same_name}

-- An inode with `r` references, in a result.
abbrev pub Kept : (A : Type 0) → (r : ℕ) → Inode × Disk × A → Type 0
Kept A r a = a.0.ref ≡ r

abbrev pub Keeps : (A : Type 0) → (r : ℕ) → Option (Inode × Disk × A) → Type 0
Keeps A r o = Each (Kept A r) o

module _ (sb : Super) where
  direct-Keeps : (d : Disk) (ip : Inode) (i : ℕ) → Keeps ℕ ip.ref (direct sb d ip i)
  unfolding direct
  direct-Keeps d ip i =
      Each-if (Kept ℕ ip.ref) (get_or ip.addrs i 0 == 0) _ _
        (Each-then (Kept ℕ ip.ref) (balloc sb d) _ (λ p. refl)) refl

  bmap-Keeps : (d : Disk) (ip : Inode) (bn : ℕ) → Keeps ℕ ip.ref (bmap sb d ip bn)
  unfolding bmap
  bmap-Keeps d ip bn = Each-if (Kept ℕ ip.ref) (ltb bn ndirect) _ _ (direct-Keeps d ip bn) (
      Each-if (Kept ℕ ip.ref) (ltb (bn - ndirect) nindirect) _ _
        (Each-bind (Kept ℕ ip.ref) (Kept ℕ ip.ref) (direct sb d ip ndirect) _
          (direct-Keeps d ip ndirect)
          (λ p kept. Each-then (Kept ℕ ip.ref) (indirect sb p.1 p.2 (bn - ndirect)) _ (λ q. kept)))
        tt)

  read_chunks-Keeps :
      (n off left : ℕ) (d : Disk) (ip : Inode)
      → Keeps (List ℕ) ip.ref (read_chunks n off left sb d ip)
  unfolding read_chunks
  read_chunks-Keeps zero off left d ip = refl
  read_chunks-Keeps (suc n) off left d ip = Each-if (Kept (List ℕ) ip.ref) (left == 0) _ _ refl (
      Each-bind (Kept ℕ ip.ref) (Kept (List ℕ) ip.ref) (bmap sb d ip (off / bsize)) _
        (bmap-Keeps d ip (off / bsize))
        (λ p kept.
          Each-bind (Kept (List ℕ) p.0.ref) (Kept (List ℕ) ip.ref)
            (read_chunks n (off + chunk left off) (left - chunk left off) sb p.1 p.0) _
            (read_chunks-Keeps n (off + chunk left off) (left - chunk left off) p.1 p.0)
            (λ q kept'. kept' ∙ kept)))

  pub readi-Keeps :
      (d : Disk) (ip : Inode) (off n : ℕ) → Keeps (Option (List ℕ)) ip.ref (readi sb d ip off n)
  unfolding readi
  readi-Keeps d ip off n =
      let n1 = if ltb ip.size ((off + n) % 2 ^ 32) then ip.size - off else n in
      Each-if (Kept (Option (List ℕ)) ip.ref) (ltb ip.size off || ltb ((off + n) % 2 ^ 32) off) _ _
        refl
        (Each-bind (Kept (List ℕ) ip.ref) (Kept (Option (List ℕ)) ip.ref)
          (read_chunks n1 off n1 sb d ip) _ (read_chunks-Keeps n1 off n1 d ip) (λ p kept. kept))

  write_chunks-Keeps :
      (n off : ℕ) (src : List ℕ) (d : Disk) (ip : Inode)
      → Each (λ a. a.0.ref ≡ ip.ref) (write_chunks n off src sb d ip)
  unfolding write_chunks
  write_chunks-Keeps zero off src d ip = refl
  write_chunks-Keeps (suc n) off src d ip =
      Each-if (λ a. a.0.ref ≡ ip.ref) (length src == 0) _ _ refl
        (Each-bind (Kept ℕ ip.ref) (λ a. a.0.ref ≡ ip.ref) (bmap sb d ip (off / bsize)) _
          (bmap-Keeps d ip (off / bsize))
          (λ p kept.
            let at = off % bsize in
            let bytes = p.1.block p.2 in
            let m = chunk (length src) off in
            let d2 = log_block p.1 p.2 (take at bytes ++ (take m src ++ drop (at + m) bytes)) in
            Each-weaken (λ a. a.0.ref ≡ p.0.ref) (λ a. a.0.ref ≡ ip.ref)
              (write_chunks n (off + m) (drop m src) sb d2 p.0) (λ a kept'. kept' ∙ kept)
              (write_chunks-Keeps n (off + m) (drop m src) d2 p.0)))

  pub writei-Keeps :
      (d : Disk) (ip : Inode) (off : ℕ) (src : List ℕ) → Keeps Bool ip.ref (writei sb d ip off src)
  unfolding writei
  writei-Keeps d ip off src =
      let end = (off + length src) % 2 ^ 32 in
      Each-if (Kept Bool ip.ref)
        ((ltb ip.size off || ltb end off) || ltb ((ndirect + nindirect) * bsize) end) _ _ refl
        (Each-bind (λ a. a.0.ref ≡ ip.ref) (Kept Bool ip.ref)
          (write_chunks (length src) off src sb d ip) _
          (write_chunks-Keeps (length src) off src d ip)
          (λ p kept. grown_or_not p.0 p.1 end (ltb 0 (length src) && ltb p.0.size end) kept))
    where
      grown_or_not :
          {r : ℕ} (ip1 : Inode) (d1 : Disk) (end : ℕ) (b : Bool)
          → ip1.ref ≡ r
          → Kept Bool r (
              if b
              then (record ip1 { size = end }, iupdate sb d1 (record ip1 { size = end }), true)
              else (ip1, d1, true))
      grown_or_not ip1 d1 end true kept = kept
      grown_or_not ip1 d1 end false kept = kept

  pub find_entry-Keeps :
      (n off : ℕ) (name : List ℕ) (d : Disk) (dp : Inode)
      → Keeps (Option (ℕ × ℕ)) dp.ref (find_entry n off name sb d dp)
  unfolding find_entry
  find_entry-Keeps zero off name d dp = refl
  find_entry-Keeps (suc n) off name d dp =
      let K = Kept (Option (ℕ × ℕ)) dp.ref in
      Each-if K (ltb off dp.size) _ _
        (Each-bind (Kept (Option (List ℕ)) dp.ref) K (readi sb d dp off dirent_size) _
          (readi-Keeps d dp off dirent_size)
          (λ p kept. Each-then K p.2 _ (λ de. Each-if K (not (length de == dirent_size)) _ _ tt (
            let rest =
              Each-weaken (Kept (Option (ℕ × ℕ)) p.0.ref) K
                (find_entry n (off + dirent_size) name sb p.1 p.0) (λ a kept'. kept' ∙ kept)
                (find_entry-Keeps n (off + dirent_size) name p.1 p.0) in
            Each-if K (get16 de 0 == 0) _ _ rest
              (Each-if K (same_name dirsiz name (drop 2 de)) _ _ kept rest)))))
        refl

  pub find_empty-Keeps :
      (n off : ℕ) (d : Disk) (dp : Inode) → Keeps ℕ dp.ref (find_empty n off sb d dp)
  unfolding find_empty
  find_empty-Keeps zero off d dp = refl
  find_empty-Keeps (suc n) off d dp =
      let K = Kept ℕ dp.ref in
      Each-if K (ltb off dp.size) _ _
        (Each-bind (Kept (Option (List ℕ)) dp.ref) K (readi sb d dp off dirent_size) _
          (readi-Keeps d dp off dirent_size)
          (λ p kept. Each-then K p.2 _ (λ de. Each-if K (not (length de == dirent_size)) _ _ tt (
            Each-if K (get16 de 0 == 0) _ _ kept (
              Each-weaken (Kept ℕ p.0.ref) K (find_empty n (off + dirent_size) sb p.1 p.0)
                (λ a kept'. kept' ∙ kept) (find_empty-Keeps n (off + dirent_size) p.1 p.0))))))
        refl

  pub itrunc-Keeps : (d : Disk) (ip : Inode) → Each (λ a. a.0.ref ≡ ip.ref) (itrunc sb d ip)
  unfolding itrunc
  itrunc-Keeps d ip =
      let K = λ (a : Inode × Disk). a.0.ref ≡ ip.ref in
      Each-then K (free_direct sb d (take ndirect ip.addrs)) _ (λ d1.
        Each-then K
          (if get_or ip.addrs ndirect 0 == 0
            then some d1
            else (free_indirect nindirect 0 sb d1 (d1.block (get_or ip.addrs ndirect 0)) >>= λ d2.
                bfree sb d2 (get_or ip.addrs ndirect 0)))
          _ (λ d2. refl))
