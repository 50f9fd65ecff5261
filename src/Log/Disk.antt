-- ===== src/Log/Disk.antt =====
-- Blocks, disk images, and sequences of writes.
use a3team_os.Base.{
  ◌∙◌, sym, subst, ==-ne, false, ℕ, zero, suc, ◌≡◌, refl, ap, List, [], ◌∷◌, ◌++◌, append_assoc,
  ◌==◌, if◌then◌else◌, take,
}

abbrev pub Block : Type 0
Block = List ℕ

abbrev pub Image : Type 0
Image = ℕ → Block

abbrev pub update : Image → ℕ → Block → Image
update m b v x = if x == b then v else m x

-- What the cache holds, and what has been written to the disk, oldest first.
pub record Store : Type 0 where
  pub cache : Image
  pub written : List (ℕ × Block)

unfoldable pub bwrite : Store → ℕ → Block → Store
bwrite st b v = record { cache = update st.cache b v; written = st.written ++ ((b, v) ∷ []) }

-- An image after writes.
abbrev pub apply : Image → List (ℕ × Block) → Image
apply m [] = m
apply m ((b, v) ∷ ws) = apply (update m b v) ws

-- A store after writes.
abbrev pub extend : Store → List (ℕ × Block) → Store
extend st ws = record { cache = apply st.cache ws; written = st.written ++ ws }

pub apply-append :
    (m : Image) (xs ys : List (ℕ × Block)) → apply m (xs ++ ys) ≡ apply (apply m xs) ys
apply-append m [] ys = refl
apply-append m ((b, v) ∷ xs) ys = apply-append (update m b v) xs ys

pub extend-bwrite :
    (st : Store) (b : ℕ) (v : Block) (ws : List (ℕ × Block))
    → extend (bwrite st b v) ws ≡ extend st ((b, v) ∷ ws)
unfolding bwrite
extend-bwrite st b v ws =
    ap (λ l. record { cache = apply (update st.cache b v) ws; written = l })
      (append_assoc st.written ((b, v) ∷ []) ws)

-- Every write goes to a block that satisfies `P`.
abbrev pub Within : (ℕ → Type 0) → List (ℕ × Block) → Type 0
Within P [] = Unit
Within P ((b, v) ∷ ws) = P b × Within P ws

pub Within-take :
    (P : ℕ → Type 0) (j : ℕ) (ws : List (ℕ × Block)) → Within P ws → Within P (take j ws)
Within-take P zero ws h = tt
Within-take P (suc j) [] h = tt
Within-take P (suc j) ((b, v) ∷ ws) h = (h.0, Within-take P j ws h.1)

pub Within-append :
    (P : ℕ → Type 0) (xs ys : List (ℕ × Block)) → Within P xs → Within P ys → Within P (xs ++ ys)
Within-append P [] ys h k = k
Within-append P ((b, v) ∷ xs) ys h k = (h.0, Within-append P xs ys h.1 k)

-- Writes elsewhere leave a block alone.
pub apply-elsewhere :
    (P : ℕ → Type 0) (m : Image) (ws : List (ℕ × Block)) (x : ℕ)
    → Within P ws
    → (¬ P x)
    → apply m ws x ≡ m x
apply-elsewhere P m [] x h out = refl
apply-elsewhere P m ((b, v) ∷ ws) x h out = apply-elsewhere P (update m b v) ws x h.1 out ∙ rw other
  where
    other : (x == b) ≡ false
    other = ==-ne x b (λ e. out (subst P (sym e) h.0))
