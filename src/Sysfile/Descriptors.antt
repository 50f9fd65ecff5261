-- ===== src/Sysfile/Descriptors.antt =====
-- Descriptors come and go.
use a3team_os.Base.{
  inr, inl, ℕ, zero, suc, ◌^◌, ◌<◌, ◌≡◌, ◌≢◌, ◌⊎◌, refl, ap, false, Option, none, some, List, [],
  ◌∷◌, leb, get_elem?, set, arith, length,
}
use a3team_os.File.{File, nothing}
use a3team_os.File.Refs.{fileclose-filedup}
use a3team_os.Sysfile.{
  nofile, Ofile, argfd, shift, fdalloc, Call, fails, dup_done, sys_dup, sys_close,
}

-- Every descriptor is in use.
abbrev pub Full : Ofile → Type 0
Full [] = Unit
Full (o ∷ os) = (o ≢ none) × Full os

-- The descriptors below `fd` are in use.
abbrev pub FullBelow : (fd : ℕ) → Ofile → Type 0
FullBelow zero os = Unit
FullBelow (suc n) [] = ⊥
FullBelow (suc n) (o ∷ os) = (o ≢ none) × FullBelow n os

-- The descriptor that a file gets is the lowest one that is free, and no other one changes.
abbrev pub Allocated : (f : ℕ) → Ofile → Option (ℕ × Ofile) → Type 0
Allocated f os none = Full os
Allocated f os (some (fd, os')) =
    (get_elem? os fd ≡ some none)
    × FullBelow fd os
    × (get_elem? os' fd ≡ some (some f))
    × (set os' fd none ≡ os)
    × (fd < length os)

pub fdalloc-Allocated : (f : ℕ) (os : Ofile) → Allocated f os (fdalloc f os)
unfolding fdalloc
fdalloc-Allocated f [] = tt
fdalloc-Allocated f (none ∷ os) = (refl, tt, refl, refl, omega arith)
fdalloc-Allocated f (some g ∷ os) = behind (fdalloc f os) (fdalloc-Allocated f os)
  where
    behind :
        (r : Option (ℕ × Ofile)) → Allocated f os r → Allocated f (some g ∷ os) (shift (some g) r)
    behind none full = ((λ e. cc), full)
    behind (some (fd, os')) (free, below, at, back, low) =
        (free, ((λ e. cc), below), at, ap (λ l. some g ∷ l) back, omega (arith, low))

argfd-at :
    (fd f : ℕ) (os : Ofile)
    → fd < nofile
    → get_elem? os fd ≡ some (some f)
    → argfd (some fd) os ≡ some (fd, f)
unfolding argfd
argfd-at fd f os low at =
    let small : leb nofile fd ≡ false = ground arith in
    let natural : leb (2 ^ 31) fd ≡ false = ground arith in rw (natural, small, at) refl

-- How `sys_dup` ends.
abbrev pub Dups : (fd f : ℕ) → Ofile → List File → Option Call → Type 0
Dups fd f os fs none = ⊥
Dups fd f os fs (some c) =
    (Full os × (c ≡ fails os fs))
    ⊎ (FullBelow c.answer os
        × (get_elem? os c.answer ≡ some none)
        × (get_elem? c.ofile c.answer ≡ some (some f))
        × (sys_close (some c.answer) c.ofile c.files
            ≡ some (record { answer = 0; ofile = os; files = fs; closes = nothing })))

-- In a process with `nofile` descriptors, for an open one whose file has a reference: the lowest free
-- descriptor, which `sys_dup` gives, refers to the same file, and `sys_close`
-- of it restores the descriptors and the table of files, and closes nothing. When all
-- are in use, `sys_dup` returns -1 and changes nothing.
pub sys_close-sys_dup :
    (fd f : ℕ) (os : Ofile) (fs : List File) (file : File)
    → length os ≡ nofile
    → fd < nofile
    → get_elem? os fd ≡ some (some f)
    → get_elem? fs f ≡ some file
    → 0 < file.ref
    → Dups fd f os fs (sys_dup (some fd) os fs)
unfolding sys_dup sys_close
sys_close-sys_dup fd f os fs file len low at used_at used =
    rw (argfd-at fd f os low at) (done (fdalloc f os) (fdalloc-Allocated f os))
  where
    done : (r : Option (ℕ × Ofile)) → Allocated f os r → Dups fd f os fs (dup_done fs f os r)
    done none full = inl (full, refl)
    done (some (fd', os')) (free, below, there, back, small) =
        let (fs', duped, more, closed) = fileclose-filedup fs f file used_at used in
        rw duped (
          inr (
            below,
            free,
            there,
            rw (argfd-at fd' f os' (omega (arith, small, len)) there, closed, back) refl,
          ))
