-- ===== src/Romfs/Walk.antt =====
-- The entry that the components of a path lead to.
use dreamos_cversion.Base.{
  ℕ, suc, ◌≡◌, refl, Bool, true, false, ◌&&◌, not, Option, none, some, List, [], ◌∷◌, ◌++◌, arith,
  ◌==◌, if◌then◌else◌, length, has, ◌>>=◌,
}
use dreamos_cversion.Vfs.{slash}
use dreamos_cversion.Romfs.{
  type_regular, type_directory, Dirent, Data, Dirents, type_of, name_of, content_of, scan,
  component, dirent, null, bytes, entries, nil, cons,
}

abbrev pub same_list : List ℕ → List ℕ → Bool
same_list [] [] = true
same_list [] (y ∷ ys) = false
same_list (x ∷ xs) [] = false
same_list (x ∷ xs) (y ∷ ys) = (x == y) && same_list xs ys

-- The first entry with the name.
abbrev pub named : Dirents → (name : List ℕ) → Option Dirent
named nil name = none
named (cons d ds) name = if same_list (name_of d) name then some d else named ds name

abbrev pub children : Data → Dirents
children (entries ds) = ds
children _ = nil

-- The entry that a list of components leads to.
unfoldable pub walk : Dirent → List (List ℕ) → Option Dirent
walk d [] = some d
walk d (name ∷ names) =
    if type_of d == type_directory
    then (named (children (content_of d)) name >>= λ child. walk child names)
    else none

abbrev pub count : Dirents → ℕ
count nil = 0
count (cons d ds) = suc (count ds)

-- A directory has entries, as many as its size says, and a file has bytes.
abbrev mutual
  pub IsTree : Dirent → Type 0
  IsTree (dirent type name content size) = IsContent type content size

  pub IsContent : (type : ℕ) → Data → (size : ℕ) → Type 0
  IsContent type null size = ⊥
  IsContent type (bytes b) size = (type ≡ type_regular) × (size ≡ length b)
  IsContent type (entries ds) size = (type ≡ type_directory) × (size ≡ count ds) × AreTrees ds

  pub AreTrees : Dirents → Type 0
  AreTrees nil = Unit
  AreTrees (cons d ds) = IsTree d × AreTrees ds

-- A component has a byte and no slash.
abbrev pub is_component : List ℕ → Bool
is_component [] = false
is_component (c ∷ cs) = not (has slash (c ∷ cs))

abbrev pub all_components : List (List ℕ) → Bool
all_components [] = true
all_components (name ∷ names) = is_component name && all_components names

abbrev pub joined : List (List ℕ) → List ℕ
joined [] = []
joined (name ∷ names) = slash ∷ (name ++ joined names)

-- The path of the components.
abbrev pub path_of : List (List ℕ) → List ℕ
path_of [] = slash ∷ []
path_of (name ∷ names) = joined (name ∷ names)

scan-joined :
    (cs : List ℕ) (names : List (List ℕ))
    → has slash cs ≡ false
    → scan (cs ++ joined names) ≡ (cs, joined names)
scan-joined [] [] h = refl
scan-joined [] (name ∷ names) h = refl
scan-joined (c ∷ cs) names h =
    let rest = scan-joined cs names (ground arith) in rw rest (ground arith)

pub component-joined :
    (name : List ℕ) (names : List (List ℕ))
    → is_component name ≡ true
    → component (name ++ joined names) ≡ some (name, joined names)
component-joined [] names h = absurd (ground arith)
component-joined (c ∷ cs) names h = rw (scan-joined cs names (ground arith)) refl
