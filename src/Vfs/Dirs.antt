-- ===== src/Vfs/Dirs.antt =====
-- What a path means, and the buffer of os_vfs_normalize_path as a list of directories.
use dreamos_cversion.Base.{
  ℕ, ◌≡◌, refl, sym, subst, ◌∙◌, Bool, true, false, ◌&&◌, ◌||◌, not, some, List, [], ◌∷◌, ◌++◌,
  arith, ◌==◌, if◌then◌else◌,
}
use dreamos_cversion.Vfs.{
  slash, dot, Normalized, normal, einval, back_to_slash, strip_slashes, parent, finish, string_of,
  onto,
}
use dreamos_cversion.Vfs.Steps.{plain, has_backslash}

-- The string of a component and the components after it, with a slash between any two.
abbrev pub join : List ℕ → List (List ℕ) → List ℕ
join c [] = c
join c (d ∷ cs) = c ++ slash ∷ join d cs

abbrev pub all_plain : List ℕ → List (List ℕ) → Bool
all_plain c [] = plain c
all_plain c (d ∷ cs) = plain c && all_plain d cs

abbrev pub is_empty : List ℕ → Bool
is_empty [] = true
is_empty (x ∷ c) = false

-- "." and ".."
abbrev pub is_current : List ℕ → Bool
is_current [] = false
is_current (x ∷ []) = x == dot
is_current (x ∷ y ∷ c) = false

abbrev pub is_parent : List ℕ → Bool
is_parent [] = false
is_parent (x ∷ []) = false
is_parent (x ∷ y ∷ []) = (x == dot) && (y == dot)
is_parent (x ∷ y ∷ z ∷ c) = false

abbrev pub up : List (List ℕ) → List (List ℕ)
up [] = []
up (d ∷ dirs) = dirs

-- The directories on the way, the last one first, after one more component.
abbrev pub enter : List (List ℕ) → List ℕ → List (List ℕ)
enter dirs c =
    if is_empty c || is_current c then dirs else if is_parent c then up dirs else c ∷ dirs

-- A slash before each, and `acc` behind them.
abbrev pub spell : List (List ℕ) → List ℕ → List ℕ
spell [] acc = acc
spell (d ∷ dirs) acc = spell dirs (slash ∷ d ++ acc)

abbrev pub absolute : List (List ℕ) → List ℕ
absolute [] = slash ∷ []
absolute (d ∷ dirs) = spell (d ∷ dirs) []

-- What a path means: only its last component may be empty, and none has a backslash.
abbrev pub resolve : List (List ℕ) → List ℕ → List (List ℕ) → Normalized
resolve dirs c [] = if has_backslash c then einval else normal (absolute (enter dirs c))
resolve dirs c (d ∷ cs) =
    let rest = resolve (enter dirs c) d cs in
    if is_empty c then einval else if has_backslash c then einval else rest

-- The buffer at the start of a component, and after one.
abbrev pub opened : List (List ℕ) → List ℕ
opened [] = slash ∷ []
opened (d ∷ dirs) = slash ∷ onto d (opened dirs)

abbrev pub closed : List (List ℕ) → List ℕ
closed [] = slash ∷ []
closed (d ∷ dirs) = onto d (opened dirs)

-- The directories are neither empty nor have a slash.
abbrev pub named : List (List ℕ) → Bool
named [] = true
named (d ∷ dirs) = not (is_empty d) && plain d && named dirs

onto-onto : (c ys zs : List ℕ) → onto (onto c ys) zs ≡ onto ys (c ++ zs)
unfolding onto
onto-onto [] ys zs = refl
onto-onto (x ∷ c) ys zs = onto-onto c (x ∷ ys) zs

onto-opened : (dirs : List (List ℕ)) (zs : List ℕ) → onto (opened dirs) zs ≡ spell dirs (slash ∷ zs)
unfolding onto
onto-opened [] zs = refl
onto-opened (d ∷ dirs) zs =
    onto-onto d (opened dirs) (slash ∷ zs) ∙ onto-opened dirs (d ++ slash ∷ zs)

pub string_of-closed : (dirs : List (List ℕ)) → string_of (closed dirs) ≡ absolute dirs
unfolding string_of onto
string_of-closed [] = refl
string_of-closed (d ∷ dirs) = onto-onto d (opened dirs) [] ∙ onto-opened dirs (d ++ [])

back_to_slash-onto :
    (d buf : List ℕ) → plain d ≡ true → back_to_slash (onto d buf) ≡ back_to_slash buf
unfolding back_to_slash onto
back_to_slash-onto [] buf p = refl
back_to_slash-onto (x ∷ d) buf p = back_to_slash-onto d (x ∷ buf) (ground arith) ∙ ground arith

back_to_slash-opened : (dirs : List (List ℕ)) → back_to_slash (opened dirs) ≡ some (opened dirs)
unfolding back_to_slash
back_to_slash-opened [] = refl
back_to_slash-opened (d ∷ dirs) = refl

-- The buffer has a byte at least, and one more in front of it.
IsFilled : List ℕ → Type 0
IsFilled ys = (y : ℕ) × (zs : List ℕ) × (ys ≡ y ∷ zs)

opened-slash : (dirs : List (List ℕ)) → (zs : List ℕ) × (opened dirs ≡ slash ∷ zs)
opened-slash [] = ([], refl)
opened-slash (d ∷ dirs) = (onto d (opened dirs), refl)

onto-IsFilled : (d ys : List ℕ) → IsFilled ys → IsFilled (onto d ys)
unfolding onto IsFilled
onto-IsFilled [] ys f = f
onto-IsFilled (z ∷ d) ys f = onto-IsFilled d (z ∷ ys) (z, ys, refl)

onto-opened-IsFilled : (d : List ℕ) (dirs : List (List ℕ)) → IsFilled (onto d (opened dirs))
unfolding IsFilled
onto-opened-IsFilled d dirs =
    let (zs, e) = opened-slash dirs in onto-IsFilled d (opened dirs) (slash, zs, e)

parent-back_to_slash : (c : ℕ) (ys : List ℕ) → IsFilled ys → parent (c ∷ ys) ≡ back_to_slash ys
unfolding parent IsFilled
parent-back_to_slash c [] (y, zs, e) = cc
parent-back_to_slash c (y ∷ ys) f = refl

finish-strip_slashes : (ys : List ℕ) → IsFilled ys → finish (slash ∷ ys) ≡ strip_slashes ys
unfolding finish strip_slashes IsFilled
finish-strip_slashes [] (y, zs, e) = cc
finish-strip_slashes (y ∷ ys) f = refl

pub parent-opened :
    (dirs : List (List ℕ)) → named dirs ≡ true → parent (opened dirs) ≡ some (opened (up dirs))
unfolding parent
parent-opened [] n = refl
parent-opened (d ∷ dirs) n =
    parent-back_to_slash slash (onto d (opened dirs)) (onto-opened-IsFilled d dirs)
    ∙ back_to_slash-onto d (opened dirs) (ground arith)
    ∙ back_to_slash-opened dirs

-- A buffer whose last byte is no slash stays.
strip_slashes-onto :
    (c buf : List ℕ) (x : ℕ)
    → plain (x ∷ c) ≡ true
    → strip_slashes (onto c (x ∷ buf)) ≡ some (onto c (x ∷ buf))
unfolding strip_slashes onto
strip_slashes-onto [] buf x p = ground arith
strip_slashes-onto (z ∷ c) buf x p = strip_slashes-onto c (x ∷ buf) z (ground arith)

finish-onto :
    (c buf : List ℕ) (x y : ℕ)
    → plain (x ∷ c) ≡ true
    → finish (onto c (x ∷ y ∷ buf)) ≡ some (onto c (x ∷ y ∷ buf))
unfolding finish strip_slashes onto
finish-onto [] buf x y p = ground arith
finish-onto (z ∷ c) buf x y p = finish-onto c (y ∷ buf) z x (ground arith)

pub finish-closed :
    (dirs : List (List ℕ)) → named dirs ≡ true → finish (closed dirs) ≡ some (closed dirs)
unfolding finish onto
finish-closed [] n = refl
finish-closed ([] ∷ dirs) n = cc
finish-closed ((x ∷ d) ∷ dirs) n =
    let (zs, e) = opened-slash dirs in
    subst (λ ys. finish (onto d (x ∷ ys)) ≡ some (onto d (x ∷ ys))) (sym e)
      (finish-onto d zs x slash (ground arith))

pub finish-opened :
    (dirs : List (List ℕ)) → named dirs ≡ true → finish (opened dirs) ≡ some (closed dirs)
unfolding finish onto
finish-opened [] n = refl
finish-opened ([] ∷ dirs) n = cc
finish-opened ((x ∷ d) ∷ dirs) n =
    finish-strip_slashes (onto (x ∷ d) (opened dirs)) (onto-opened-IsFilled (x ∷ d) dirs)
    ∙ strip_slashes-onto d (opened dirs) x (ground arith)
