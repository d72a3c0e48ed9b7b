-- ===== src/Vfs/Meaning.antt =====
-- What os_vfs_normalize_path returns for every string.
use dreamos_cversion.Base.{
  ℕ, suc, ◌≤◌, ◌≡◌, refl, sym, ap, subst, ◌∙◌, inl, inr, Bool, true, false, ◌||◌, not, some, List,
  [], ◌∷◌, arith, ltb, ◌==◌, if◌then◌else◌, Bool-cases, length,
}
use dreamos_cversion.Str.Order.{is_string}
use dreamos_cversion.Vfs.{slash, path_max, byte, Normalized, einval, normalize_path}
use dreamos_cversion.Vfs.Dirs.{join, all_plain, resolve}
use dreamos_cversion.Vfs.Normalize.{normalize_path-resolve}

-- The bytes before the first slash, and the components behind it.
abbrev pub components_of : List ℕ → List ℕ × List (List ℕ)
components_of [] = ([], [])
components_of (x ∷ xs) =
    let rest = components_of xs in
    if x == slash then ([], rest.0 ∷ rest.1) else (x ∷ rest.0, rest.1)

-- A path starts with a slash and is not too long; it means what its components do.
abbrev pub meaning : List ℕ → Normalized
meaning [] = einval
meaning (x ∷ xs) =
    let result = resolve [] (components_of xs).0 (components_of xs).1 in
    if not (x == slash) || ltb path_max (suc (length xs)) then einval else result

join_cons : (x : ℕ) (c : List ℕ) (cs : List (List ℕ)) → join (x ∷ c) cs ≡ x ∷ join c cs
join_cons x c [] = refl
join_cons x c (d ∷ cs) = refl

all_plain_cons :
    (x : ℕ) (c : List ℕ) (cs : List (List ℕ))
    → (x == 0) ≡ false
    → (x == slash) ≡ false
    → all_plain (x ∷ c) cs ≡ all_plain c cs
all_plain_cons x c [] h h' = ground arith
all_plain_cons x c (d ∷ cs) h h' = ground arith

join-components_of : (xs : List ℕ) → join (components_of xs).0 (components_of xs).1 ≡ xs
join-components_of [] = refl
join-components_of (x ∷ xs) = elim (Bool-cases (x == slash)) [
  | inl e ↦
      let same : slash ≡ x = ground arith in
      rw e (ap (λ r. slash ∷ r) (join-components_of xs) ∙ ap (λ z. z ∷ xs) same)
  | inr e ↦ rw e (
      join_cons x (components_of xs).0 (components_of xs).1
      ∙ ap (λ r. x ∷ r) (join-components_of xs))
]

all_plain-components_of :
    (xs : List ℕ) → is_string xs ≡ true → all_plain (components_of xs).0 (components_of xs).1 ≡ true
all_plain-components_of [] h = refl
all_plain-components_of (x ∷ xs) h = elim (Bool-cases (x == slash)) [
  | inl e ↦ rw e (all_plain-components_of xs (ground arith))
  | inr e ↦ rw e (
      all_plain_cons x (components_of xs).0 (components_of xs).1 (ground arith) e
      ∙ all_plain-components_of xs (ground arith))
]

refused_lem :
    (path : List ℕ)
    → not (byte path 0 == slash) || ltb path_max (length path) ≡ true
    → normalize_path path ≡ some einval
unfolding normalize_path
refused_lem path h = ground arith

accepted_lem :
    (x : ℕ) (xs : List ℕ)
    → not (x == slash) || ltb path_max (suc (length xs)) ≡ false
    → is_string xs ≡ true
    → normalize_path (x ∷ xs) ≡ some (resolve [] (components_of xs).0 (components_of xs).1)
accepted_lem x xs h str =
    let same : x ≡ slash = ground arith in
    let whole : slash ∷ join (components_of xs).0 (components_of xs).1 ≡ x ∷ xs =
      ap (λ r. slash ∷ r) (join-components_of xs) ∙ ap (λ z. z ∷ xs) (sym same) in
    let short : length (slash ∷ join (components_of xs).0 (components_of xs).1) ≤ path_max =
      subst (λ p. length p ≤ path_max) (sym whole) (ground arith) in
    ap normalize_path (sym whole)
    ∙ normalize_path-resolve (components_of xs).0 (components_of xs).1
        (all_plain-components_of xs str) short

chosen : {b : Bool} (r : Normalized) → b ≡ true → (if b then einval else r) ≡ einval
chosen r e = ground arith

left_over : {b : Bool} {r : Normalized} → b ≡ false → (if b then einval else r) ≡ r
left_over e = ground arith

-- For every string, os_vfs_normalize_path returns, reads nothing before its buffer, and gives
-- what the path means: -OS_ERR_EINVAL if the path is longer than OS_VFS_PATH_MAX or does not
-- start with a slash, if a component before the last is empty, or if one has a backslash; and
-- otherwise the absolute path of the directory that its components lead to, where a dot stays,
-- two dots go to the parent or stay in the root, and any other component enters a directory.
pub normalize_path-meaning :
    (path : List ℕ) → is_string path ≡ true → normalize_path path ≡ some (meaning path)
unfolding normalize_path
normalize_path-meaning [] h = refl
normalize_path-meaning (x ∷ xs) h =
    elim (Bool-cases (not (x == slash) || ltb path_max (suc (length xs)))) [
      | inl bad ↦ refused_lem (x ∷ xs) bad ∙ ap (λ r. some r) (sym (chosen _ bad))
      | inr good ↦ accepted_lem x xs good (ground arith) ∙ ap (λ r. some r) (sym (left_over good))
    ]
