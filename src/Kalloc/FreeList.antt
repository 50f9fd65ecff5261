-- ===== src/Kalloc/FreeList.antt =====
-- `kfree` and `kalloc` as push and pop of the list of free pages.
use a3team_os.Base.{
  ◌∙◌, dec_lt, ℕ, ◌+◌, ◌%◌, ◌^◌, ◌≤◌, ◌<◌, ◌≡◌, ◌≢◌, ◌↔◌, ◌⊎◌, refl, false, not, ◌||◌, none, some,
  List, [], ◌∷◌, arith, ltb, leb, ◌==◌, Bool-cases, inl, inr,
}
use a3team_os.Memory.{Mem, load32, store32, memset}
use a3team_os.Memory.Word.{load32-store32, store32-other, load32-eq}
use a3team_os.Memory.Block.{memset_lem}
use a3team_os.Kalloc.{Kmem, pgsize, kernbase, phystop, v2p, kfree, kalloc}

-- The start of a page of physical memory above the kernel.
pub record IsPage (kernel_end v : ℕ) : Type 0 where
  pub aligned : v % pgsize ≡ 0
  pub above_kernel : kernel_end ≤ v
  pub above_base : kernbase ≤ v
  pub below_top : v < kernbase + phystop

abbrev pub Absent : ℕ → List ℕ → Type 0
Absent v [] = Unit
Absent v (p ∷ ps) = (v ≢ p) × Absent v ps

-- From `head` the pages `ps` are linked, in order, and the last one points to 0.
abbrev pub Chain : (kernel_end : ℕ) → Mem → (head : ℕ) → List ℕ → Type 0
Chain e m head [] = head ≡ 0
Chain e m head (p ∷ ps) = (head ≡ p) × IsPage e p × Absent p ps × Chain e m (load32 m p) ps

abbrev pub IsFree : (kernel_end : ℕ) → Kmem → List ℕ → Type 0
IsFree e k ps = Chain e k.mem k.freelist ps

abbrev pub SameOutside : (v : ℕ) → Mem → Mem → Type 0
SameOutside v m n = (x : ℕ) → (x < v) ⊎ (v + pgsize ≤ x) → n x ≡ m x

module _ (e : ℕ) where
  -- A write to a page that is not in the list leaves the list alone.
  pub Chain-frame :
      (v : ℕ) (m n : Mem) (head : ℕ) (ps : List ℕ)
      → v % pgsize ≡ 0
      → SameOutside v m n
      → Absent v ps
      → Chain e m head ps
      → Chain e n head ps
  Chain-frame v m n head [] al same out c = c
  Chain-frame v m n head (p ∷ ps) al same (ne, out) (at, page, distinct, rest) =
      let word : load32 n p ≡ load32 m p =
        load32-eq m n p (λ x lo hi. same x (apart p page ne x lo hi)) in
      (at, page, distinct, rw word (Chain-frame v m n (load32 m p) ps al same out rest))
    where
      apart :
          (p : ℕ) → IsPage e p → v ≢ p → (x : ℕ) → p ≤ x → x < p + 4 → (x < v) ⊎ (v + pgsize ≤ x)
      apart p page ne x lo hi = elim (dec_lt x v) [
        | yes b ↦ inl b
        | no b ↦ inr (omega (arith, page.aligned))
      ]

  kfree-ok :
      (k : Kmem) (v : ℕ)
      → IsPage e v
      → kfree e k v
        ≡ some (record { freelist = v; mem = store32 (memset k.mem v 1 pgsize) v k.freelist })
  unfolding kfree
  kfree-ok k v page = ground arith

  kfree-refuses : (k : Kmem) (v : ℕ) → v < 2 ^ 32 → kernbase ≤ e → ¬ IsPage e v → kfree e k v ≡ none
  unfolding kfree
  kfree-refuses k v h above bad =
      elim (Bool-cases (not (v % pgsize == 0) || (ltb v e || leb phystop (v2p v)))) [
        | inl t ↦ rw t
        | inr f ↦ absurd (
            bad (record {
              aligned = ground arith;
              above_kernel = ground arith;
              above_base = ground arith;
              below_top = ground arith;
            }))
      ]

  head-lt : (m : Mem) (head : ℕ) (ps : List ℕ) → Chain e m head ps → head < 2 ^ 32
  head-lt m head [] c = omega arith
  head-lt m head (p ∷ ps) (at, page, distinct, rest) = omega (arith, page.below_top)

  same-junk : (m : Mem) (v w : ℕ) → SameOutside v m (store32 (memset m v 1 pgsize) v w)
  same-junk m v w x h =
      store32-other (memset m v 1 pgsize) v w x (omega arith)
      ∙ memset_lem m v 1 pgsize x
      ∙ ground arith

  -- `kfree` of a page of physical memory above the kernel that is not free puts it in front of the
  -- free pages, and writes to that page alone.
  pub kfree-push :
      (k : Kmem) (v : ℕ) (ps : List ℕ)
      → IsPage e v
      → Absent v ps
      → IsFree e k ps
      → (k' : Kmem) × (kfree e k v ≡ some k') × IsFree e k' (v ∷ ps) × SameOutside v k.mem k'.mem
  kfree-push k v ps page out c =
      let m : Mem = store32 (memset k.mem v 1 pgsize) v k.freelist in
      let same : SameOutside v k.mem m = same-junk k.mem v k.freelist in
      let link : load32 m v ≡ k.freelist =
        load32-store32 (memset k.mem v 1 pgsize) v k.freelist (head-lt k.mem k.freelist ps c) in
      (
        record { freelist = v; mem = m },
        kfree-ok k v page,
        (refl, page, out, rw link (Chain-frame v k.mem m k.freelist ps page.aligned same out c)),
        same,
      )

  -- With a kernel that ends above the base of kernel memory, `kfree` panics on every 32-bit
  -- address that is not the start of a page above the kernel, and on no other.
  pub kfree-panics :
      (k : Kmem) (v : ℕ) → v < 2 ^ 32 → kernbase ≤ e → (kfree e k v ≡ none) ↔ (¬ IsPage e v)
  kfree-panics k v h above = (to, from)
    where
      to : kfree e k v ≡ none → ¬ IsPage e v
      to q page = cc (q, kfree-ok k v page)

      from : ¬ IsPage e v → kfree e k v ≡ none
      from bad = kfree-refuses k v h above bad

  -- With a free page, `kalloc` takes the first one, does not say 0, and writes nowhere.
  pub kalloc-pop :
      (k : Kmem) (p : ℕ) (ps : List ℕ)
      → IsFree e k (p ∷ ps)
      → let (k', r) = kalloc k in (r ≡ p) × (r ≢ 0) × IsFree e k' ps × (k'.mem ≡ k.mem)
  unfolding kalloc
  kalloc-pop k p ps (at, page, distinct, rest) =
      let busy : (k.freelist == 0) ≡ false = ground (arith, page.above_base) in
      rw busy (at, (λ z. omega (arith, page.above_base)), rw (← at) at rest, refl)

  -- With no free page `kalloc` says 0 and changes nothing.
  pub kalloc-empty : (k : Kmem) → IsFree e k [] → kalloc k ≡ (k, 0)
  unfolding kalloc
  kalloc-empty k c = rw c
