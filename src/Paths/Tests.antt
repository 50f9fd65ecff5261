-- ===== src/Paths/Tests.antt =====
-- Names and counts of links.
use a3team_os.Base.{◌^◌, ◌≡◌, refl, true, ◌<◌, arith, [], ◌∷◌}
use a3team_os.Fs.Path.{dirsiz, same_name}
use a3team_os.Fs.Inode.{Inode}
use a3team_os.Paths.{one_link_more, one_link_less, dot}

same_dot : same_name dirsiz (46 ∷ 0 ∷ 7 ∷ []) dot ≡ true
unfolding same_name
same_dot = refl

-- A count of links that went up goes back down.
back : (ip : Inode) → ip.nlink < 2 ^ 16 → (one_link_less (one_link_more ip)).nlink ≡ ip.nlink
back ip h = omega (arith, h)
