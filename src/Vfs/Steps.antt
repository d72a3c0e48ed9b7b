-- ===== src/Vfs/Steps.antt =====
-- The rounds of the loop of os_vfs_normalize_path, a byte at a time.
use dreamos_cversion.Base.{
  ℕ, zero, suc, ◌+◌, ◌-◌, ◌<◌, ◌≤◌, ◌≡◌, ◌≢◌, refl, ap, subst, ◌∙◌, Bool, true, false, ◌&&◌, ◌||◌,
  not, some, List, [], ◌∷◌, ◌++◌, arith, ltb, ◌==◌, if◌then◌else◌, length, drop,
}
use dreamos_cversion.Vfs.{
  slash, dot, backslash, byte, at_double_slash, at_dot, ends_at, normal, einval, parent, finish,
  string_of, onto, normalize_loop,
}

-- The bytes of a component.
abbrev pub plain : List ℕ → Bool
plain [] = true
plain (x ∷ c) = not (x == 0) && not (x == slash) && plain c

abbrev pub has_backslash : List ℕ → Bool
has_backslash [] = false
has_backslash (x ∷ c) = (x == backslash) || has_backslash c

-- A dot that is a component, or starts the component of two dots.
abbrev pub dotted : List ℕ → ℕ → Bool
dotted path i =
    at_dot path i && (ends_at path (i + 1) || ((byte path (i + 1) == dot) && ends_at path (i + 2)))

drop-suc : (xs ys : List ℕ) (i x : ℕ) → drop i xs ≡ x ∷ ys → drop (suc i) xs ≡ ys
drop-suc [] ys zero x h = cc
drop-suc (z ∷ xs) ys zero x h = cc
drop-suc [] ys (suc i) x h = cc
drop-suc (z ∷ xs) ys (suc i) x h = drop-suc xs ys i x h

-- What the rest of a string from `i` on says of reading there.
pub byte-drop : (xs ys : List ℕ) (i x : ℕ) → drop i xs ≡ x ∷ ys → (byte xs i ≡ x) × (i < length xs)
byte-drop [] ys zero x h = cc
byte-drop (z ∷ xs) ys zero x h = (cc, omega arith)
byte-drop [] ys (suc i) x h = cc
byte-drop (z ∷ xs) ys (suc i) x h = let (e, lt) = byte-drop xs ys i x h in (e, omega arith)

pub end-drop : (xs : List ℕ) (i : ℕ) → drop i xs ≡ [] → (byte xs i ≡ 0) × (length xs ≤ i)
end-drop [] zero h = (refl, omega arith)
end-drop (z ∷ xs) zero h = cc
end-drop [] (suc i) h = (refl, omega arith)
end-drop (z ∷ xs) (suc i) h = let (e, le) = end-drop xs i h in (e, omega arith)

pub drop-next : (xs ys : List ℕ) (i x : ℕ) → drop i xs ≡ x ∷ ys → drop (i + 1) xs ≡ ys
drop-next xs ys i x h = subst (λ k. drop k xs ≡ ys) {x = suc i} (omega arith) (drop-suc xs ys i x h)

pub back : (i : ℕ) → i + 1 - 1 ≡ i
back i = omega arith

module _ (path : List ℕ) where
  -- A round that copies a byte.
  pub copy_lem :
      (fuel i x : ℕ) (ys buf : List ℕ)
      → drop i path ≡ x ∷ ys
      → at_double_slash path i ≡ false
      → dotted path i ≡ false
      → normalize_loop path (suc fuel) i buf
        ≡ (if x == backslash then some einval else normalize_loop path fuel (i + 1) (x ∷ buf))
  unfolding normalize_loop
  copy_lem fuel i x ys buf h single undotted =
      let (e, lt) = byte-drop path ys i x h in
      let inside : ltb i (length path) ≡ true = ground arith in
      let no_current : at_dot path i && ends_at path (i + 1) ≡ false = ground arith in
      let no_up : at_dot path i && (byte path (i + 1) == dot) && ends_at path (i + 2) ≡ false =
        ground arith in
      rw (inside, single, no_current, no_up, e) refl

  pub double_lem :
      (fuel i : ℕ) (buf : List ℕ)
      → i < length path
      → at_double_slash path i ≡ true
      → normalize_loop path (suc fuel) i buf ≡ some einval
  unfolding normalize_loop
  double_lem fuel i buf lt double =
      let inside : ltb i (length path) ≡ true = ground arith in rw (inside, double) refl

  pub current_lem :
      (fuel i : ℕ) (buf : List ℕ)
      → i < length path
      → at_dot path i && ends_at path (i + 1) ≡ true
      → normalize_loop path (suc fuel) i buf ≡ normalize_loop path fuel (i + 2) buf
  unfolding normalize_loop
  current_lem fuel i buf lt here =
      let inside : ltb i (length path) ≡ true = ground arith in
      let single : at_double_slash path i ≡ false = ground arith in rw (inside, single, here) refl

  pub parent_lem :
      (fuel i : ℕ) (buf buf' : List ℕ)
      → i < length path
      → at_dot path i && (byte path (i + 1) == dot) && ends_at path (i + 2) ≡ true
      → parent buf ≡ some buf'
      → normalize_loop path (suc fuel) i buf ≡ normalize_loop path fuel (i + 3) buf'
  unfolding normalize_loop
  parent_lem fuel i buf buf' lt here e =
      let inside : ltb i (length path) ≡ true = ground arith in
      let single : at_double_slash path i ≡ false = ground arith in
      let no_current : at_dot path i && ends_at path (i + 1) ≡ false = ground arith in
      rw (inside, single, no_current, here, e) refl

  pub done_lem :
      (fuel i : ℕ) (buf buf' : List ℕ)
      → length path ≤ i
      → finish buf ≡ some buf'
      → normalize_loop path (suc fuel) i buf ≡ some (normal (string_of buf'))
  unfolding normalize_loop
  done_lem fuel i buf buf' le e =
      let over : ltb i (length path) ≡ false = ground arith in rw (over, e) refl

  -- The rest of a component, after its first byte, is copied up to a backslash.
  pub tail_lem :
      (c rest : List ℕ) (fuel fuel' i : ℕ) (buf : List ℕ)
      → fuel' ≡ length c + fuel
      → drop i path ≡ c ++ rest
      → plain c ≡ true
      → 0 < i
      → byte path (i - 1) ≢ slash
      → normalize_loop path fuel' i buf ≡ (
          if has_backslash c
          then some einval
          else normalize_loop path fuel (i + length c) (onto c buf))
  unfolding onto
  tail_lem [] rest fuel fuel' i buf f h p pos ne =
      let f' : fuel' ≡ fuel = omega arith in
      let i' : i ≡ i + 0 = omega arith in
      ap (λ n. normalize_loop path n i buf) f' ∙ ap (λ k. normalize_loop path fuel k buf) i'
  tail_lem (x ∷ c) rest fuel zero i buf f h p pos ne = absurd (omega arith)
  tail_lem (x ∷ c) rest fuel (suc fuel') i buf f h p pos ne =
      let (e, lt) = byte-drop path (c ++ rest) i x h in
      let single : at_double_slash path i ≡ false = ground arith in
      let undotted : dotted path i ≡ false = ground arith in
      let step = copy_lem fuel' i x (c ++ rest) buf h single undotted in
      let later =
        tail_lem c rest fuel fuel' (i + 1) (x ∷ buf) (omega arith)
          (drop-next path (c ++ rest) i x h) (ground arith) (omega arith)
          (λ z. absurd (ground (arith, ap (byte path) (back i)))) in
      let i' : i + 1 + length c ≡ i + suc (length c) = omega arith in
      step ∙ ground (arith, later, ap (λ k. normalize_loop path fuel k (onto c (x ∷ buf))) i')

  -- The last byte of a component is not a slash.
  pub last_lem :
      (c rest : List ℕ) (i : ℕ)
      → drop i path ≡ c ++ rest
      → plain c ≡ true
      → 0 < length c
      → byte path (i + length c - 1) ≢ slash
  last_lem [] rest i h p pos = absurd (omega arith)
  last_lem (x ∷ []) rest i h p pos =
      let (e, lt) = byte-drop path rest i x h in
      λ z. absurd (ground (arith, ap (byte path) (back i)))
  last_lem (x ∷ y ∷ c) rest i h p pos =
      let i' : i + 1 + suc (length c) - 1 ≡ i + suc (suc (length c)) - 1 = omega arith in
      let ne =
        last_lem (y ∷ c) rest (i + 1) (drop-next path (y ∷ c ++ rest) i x h) (ground arith)
          (omega arith) in
      λ z. ne (ap (byte path) i' ∙ z)
