-- ===== src/Romfs/Lookup.antt =====
-- romfs_lookup against the walk along the components.
use dreamos_cversion.Base.{
  ℕ, ◌≡◌, ◌≢◌, refl, sym, ap, subst, ◌∙◌, inl, inr, true, false, Option, none, some, List, [], ◌∷◌,
  ◌++◌, arith, ◌==◌, if◌then◌else◌, Bool-cases, Option-cases, ℕ_discrete, ◌>>=◌,
}
use dreamos_cversion.Vfs.{slash}
use dreamos_cversion.Str.Order.{is_string, is_same-eq}
use dreamos_cversion.Str.{is_same, strlen, strcmp, memcmp}
use dreamos_cversion.Romfs.Walk.{
  same_list, named, walk, count, IsTree, AreTrees, all_components, joined, path_of,
  component-joined,
}
use dreamos_cversion.Romfs.{
  type_directory, Dirent, Data, Dirents, type_of, name_of, check_dirent, component, same_name,
  lookup_entries, lookup_found, lookup_data, romfs_lookup, dirent, null, bytes, entries, nil, cons,
}

compared :
    (xs ys : List ℕ)
    → strlen xs ≡ strlen ys
    → (memcmp xs ys (strlen ys) >>= λ s. some (is_same s)) ≡ some (same_list xs ys)
unfolding memcmp strlen
compared [] [] h = refl
compared [] (y ∷ ys) h = absurd (omega arith)
compared (x ∷ xs) [] h = absurd (omega arith)
compared (x ∷ xs) (y ∷ ys) h = ground (arith, compared xs ys (omega arith))

unequal : (xs ys : List ℕ) → strlen xs ≢ strlen ys → same_list xs ys ≡ false
unfolding strlen
unequal [] [] h = absurd (h refl)
unequal [] (y ∷ ys) h = refl
unequal (x ∷ xs) [] h = refl
unequal (x ∷ xs) (y ∷ ys) h = ground (arith, unequal xs ys (omega arith))

same_name_lem : (xs ys : List ℕ) → same_name xs ys ≡ some (same_list xs ys)
same_name_lem xs ys = elim (ℕ_discrete (strlen xs) (strlen ys)) [
  | yes e ↦ ground (arith, compared xs ys e)
  | no ne ↦ ground (arith, unequal xs ys ne)
]

-- What is found goes on.
abbrev go_on : Option Dirent → (after : List ℕ) → Option (Option Dirent)
go_on none after = some none
go_on (some d) after = lookup_found d after

pub checked : (d : Dirent) → IsTree d → check_dirent d ≡ true
checked (dirent type name null size) h = absurd h
checked (dirent type name (bytes b) size) h = ground (arith, h.0)
checked (dirent type name (entries ds) size) h = ground (arith, h.0)

lookup_entries-named :
    (ds : Dirents) (name after : List ℕ)
    → AreTrees ds
    → lookup_entries ds (count ds) name after ≡ go_on (named ds name) after
unfolding lookup_entries
lookup_entries-named nil name after h = refl
lookup_entries-named (cons d ds) name after h =
    let rest = lookup_entries-named ds name after h.1 in
    rw (checked d h.0, same_name_lem (name_of d) name) (ground (arith, rest))

named-IsTree :
    (ds : Dirents) (name : List ℕ) (d : Dirent) → AreTrees ds → named ds name ≡ some d → IsTree d
named-IsTree nil name d h e = absurd (ground arith)
named-IsTree (cons c ds) name d h e = elim (Bool-cases (same_list (name_of c) name)) [
  | inl found ↦ subst IsTree (let both : some c ≡ some d = ground (arith, e) in cc) h.0
  | inr other ↦ named-IsTree ds name d h.1 (ground (arith, e))
]

found_step :
    (type : ℕ) (name : List ℕ) (content : Data) (size c : ℕ) (cs : List ℕ) (r : List ℕ × List ℕ)
    → component cs ≡ some r
    → lookup_found (dirent type name content size) (c ∷ cs)
      ≡ (if type == type_directory then lookup_data content size r.0 r.1 else some none)
unfolding lookup_entries
found_step type name content size c cs r e =
    ap
      (λ o. o >>= λ (q : List ℕ × List ℕ).
        if type == type_directory then lookup_data content size q.0 q.1 else some none)
      e

-- The rest of the names, from the entry that has the first.
rest_lem :
    (o : Option Dirent) (names : List (List ℕ))
    → ((d : Dirent) → o ≡ some d → lookup_found d (joined names) ≡ some (walk d names))
    → go_on o (joined names) ≡ some (o >>= λ d. walk d names)
rest_lem none names h = refl
rest_lem (some d) names h = h d refl

lookup_found-walk :
    (names : List (List ℕ)) (d : Dirent)
    → IsTree d
    → all_components names ≡ true
    → lookup_found d (joined names) ≡ some (walk d names)
unfolding lookup_entries walk
lookup_found-walk [] (dirent type name content size) h ok = refl
lookup_found-walk (x ∷ names) (dirent type name null size) h ok = absurd h
lookup_found-walk (x ∷ names) (dirent type name (bytes b) size) h ok =
    found_step type name (bytes b) size slash (x ++ joined names) (x, joined names)
      (component-joined x names (ground arith))
    ∙ ground (arith, h.0)
lookup_found-walk (x ∷ names) (dirent type name (entries ds) size) h ok =
    let (isdir, counted, trees) = h in
    let goes =
      found_step type name (entries ds) size slash (x ++ joined names) (x, joined names)
        (component-joined x names (ground arith)) in
    let looked : lookup_entries ds size x (joined names) ≡ go_on (named ds x) (joined names) =
      rw counted (lookup_entries-named ds x (joined names) trees) in
    let rest =
      rest_lem (named ds x) names
        (λ d e. lookup_found-walk names d (named-IsTree ds x d trees e) (ground arith)) in
    goes ∙ ground (arith, looked, rest)

-- Below the root, romfs_lookup does what it does below every directory.
lookup_root :
    (name : List ℕ) (content : Data) (size : ℕ) (cs : List ℕ)
    → is_same (strcmp (slash ∷ cs) (slash ∷ [])) ≡ false
    → romfs_lookup 0 (dirent type_directory name content size) (slash ∷ cs)
      ≡ lookup_found (dirent type_directory name content size) (slash ∷ cs)
unfolding romfs_lookup lookup_entries
lookup_root name content size cs other = rw other (ground arith)

not_slash : (c : ℕ) (cs : List ℕ) → slash ∷ c ∷ cs ≢ slash ∷ []
not_slash c cs = λ e. cc

is_same_root : is_same (strcmp (slash ∷ []) (slash ∷ [])) ≡ true
is_same_root = (is_same-eq (slash ∷ []) (slash ∷ []) refl refl).1 refl

-- In a tree in which every directory has as many entries as its size says and every file has
-- bytes, on a root that is a directory, and for a path of components that each have a byte and no
-- slash, without 0 bytes, romfs_lookup with subpath_offset 0 reads nothing outside the path and
-- the directories and finds the entry that one gets to by taking, in every directory, the first
-- entry with the next component as its name, or none if there is none or a file is in the way;
-- for the path `/` this is the root.
pub romfs_lookup-walk :
    (root : Dirent) (names : List (List ℕ))
    → IsTree root
    → type_of root ≡ type_directory
    → all_components names ≡ true
    → is_string (path_of names) ≡ true
    → romfs_lookup 0 root (path_of names) ≡ some (walk root names)
unfolding romfs_lookup walk
romfs_lookup-walk root [] tree isdir ok str = rw (checked root tree, is_same_root) refl
romfs_lookup-walk root ([] ∷ names) tree isdir ok str = absurd (ground arith)
romfs_lookup-walk (dirent type n content size) ((c ∷ cs) ∷ names) tree isdir ok str =
    let path = slash ∷ c ∷ (cs ++ joined names) in
    let other : is_same (strcmp path (slash ∷ [])) ≡ false =
      elim (Bool-cases (is_same (strcmp path (slash ∷ [])))) [
        | inl yes_same ↦
            absurd (
              not_slash c (cs ++ joined names) ((is_same-eq path (slash ∷ []) str refl).0 yes_same))
        | inr no_same ↦ no_same
      ] in
    let below = lookup_root n content size (c ∷ (cs ++ joined names)) other in
    let at_type =
      subst
        (λ t.
          romfs_lookup 0 (dirent t n content size) path
          ≡ lookup_found (dirent t n content size) path)
        (sym isdir) below in
    at_type ∙ lookup_found-walk ((c ∷ cs) ∷ names) (dirent type n content size) tree ok

pub walk-IsTree :
    (names : List (List ℕ)) (d d' : Dirent) → IsTree d → walk d names ≡ some d' → IsTree d'
unfolding walk
walk-IsTree [] d d' h e = subst IsTree (let both : some d ≡ some d' = e in cc) h
walk-IsTree (x ∷ names) (dirent type name null size) d' h e = absurd h
walk-IsTree (x ∷ names) (dirent type name (bytes b) size) d' h e = absurd (ground (arith, h.0))
walk-IsTree (x ∷ names) (dirent type name (entries ds) size) d' h e =
    let (isdir, counted, trees) = h in
    elim (Option-cases (named ds x)) [
      | inl no_entry ↦ absurd (ground (arith, no_entry))
      | inr (c, found) ↦
          walk-IsTree names c d' (named-IsTree ds x c trees found) (ground (arith, found))
    ]
