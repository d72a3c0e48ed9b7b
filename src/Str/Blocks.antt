-- ===== src/Str/Blocks.antt =====
-- What the functions on blocks of memory do.
use dreamos_cversion.Base.{
  ℕ, zero, suc, ◌<◌, ◌≤◌, ◌≡◌, ◌↔◌, refl, ap, ◌∙◌, inl, inr, Bool, true, false, ◌&&◌, some, List,
  [], ◌∷◌, ◌++◌, arith, ◌==◌, Bool-cases, length, take, drop, replicate,
}
use dreamos_cversion.Str.{Sign, sign, same, strlen, memcmp, is_same, memset, memcpy, strcpy}

-- Within two blocks of memory, os_memcmp gives 0 exactly when their first `len` bytes are equal.
pub memcmp-same :
    (xs ys : List ℕ) (len : ℕ)
    → len ≤ length xs
    → len ≤ length ys
    → (memcmp xs ys len ≡ some same) ↔ (take len xs ≡ take len ys)
unfolding memcmp
memcmp-same xs ys zero h k = (λ e. refl, λ e. refl)
memcmp-same [] ys (suc len) h k = absurd (omega arith)
memcmp-same (x ∷ xs) [] (suc len) h k = absurd (omega arith)
memcmp-same (x ∷ xs) (y ∷ ys) (suc len) h k =
    let (to, from) = memcmp-same xs ys len (omega arith) (omega arith) in
    (
      λ e.
          let head : x ≡ y = ground arith in
          let tail : take len xs ≡ take len ys = to (ground arith) in
          ap (λ z. z ∷ take len xs) head ∙ ap (λ r. y ∷ r) tail,
      λ e.
          let head : x ≡ y = cc in
          let tail : take len xs ≡ take len ys = cc in ground (arith, from tail),
    )

pub memset-eq :
    (block : List ℕ) (value size : ℕ)
    → size ≤ length block
    → memset block value size ≡ some (replicate size value ++ drop size block)
unfolding memset
memset-eq block value zero h = refl
memset-eq [] value (suc size) h = absurd (omega arith)
memset-eq (x ∷ block) value (suc size) h = rw (memset-eq block value size (omega arith)) refl

-- os_memcpy of `size` bytes within two blocks that do not overlap puts the first bytes of the
-- source in front of what stays of the destination.
pub memcpy-eq :
    (dst src : List ℕ) (size : ℕ)
    → size ≤ length dst
    → size ≤ length src
    → memcpy dst src size ≡ some (take size src ++ drop size dst)
unfolding memcpy
memcpy-eq dst src zero h k = refl
memcpy-eq [] src (suc size) h k = absurd (omega arith)
memcpy-eq (x ∷ dst) [] (suc size) h k = absurd (omega arith)
memcpy-eq (x ∷ dst) (y ∷ src) (suc size) h k =
    rw (memcpy-eq dst src size (omega arith) (omega arith)) refl

-- os_strcpy to a block with room for the string and its terminating 0 writes these and leaves the
-- rest of the block.
pub strcpy-eq :
    (dst src : List ℕ)
    → strlen src < length dst
    → strcpy dst src ≡ some (src ++ 0 ∷ drop (suc (strlen src)) dst)
unfolding strcpy strlen
strcpy-eq [] src h = absurd (omega arith)
strcpy-eq (x ∷ dst) [] h = refl
strcpy-eq (x ∷ dst) (y ∷ src) h = rw (strcpy-eq dst src (omega arith)) refl

-- `path` begins with `p`.
abbrev pub starts : List ℕ → List ℕ → Bool
starts [] path = true
starts (x ∷ p) [] = false
starts (x ∷ p) (y ∷ path) = (x == y) && starts p path

pub memcmp-starts :
    (p path : List ℕ)
    → strlen p ≤ strlen path
    → (d : Sign) × (memcmp p path (strlen p) ≡ some d) × (is_same d ≡ starts p path)
unfolding memcmp strlen
memcmp-starts [] path h = (same, refl, refl)
memcmp-starts (x ∷ p) [] h = absurd (omega arith)
memcmp-starts (x ∷ p) (y ∷ path) h = elim (Bool-cases (x == y)) [
  | inl e ↦ let (d, e', s) = memcmp-starts p path (omega arith) in (d, rw e e', rw e s)
  | inr e ↦ (sign x y, rw e refl, ground arith)
]

pub starts-le : (p path : List ℕ) → starts p path ≡ true → strlen p ≤ strlen path
unfolding strlen
starts-le [] path h = omega arith
starts-le (x ∷ p) [] h = cc
starts-le (x ∷ p) (y ∷ path) h = ground (arith, starts-le p path)
