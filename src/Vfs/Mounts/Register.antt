-- ===== src/Vfs/Mounts/Register.antt =====
-- The names of the registered file systems.
use dreamos_cversion.Base.{
  ℕ, suc, ◌+◌, ◌≡◌, ◌≢◌, refl, ap, ◌∙◌, ◌⊎◌, inl, inr, Bool, true, false, ◌&&◌, none, some, List,
  [], ◌∷◌, ◌++◌, arith, if◌then◌else◌, Bool-cases, Option-cases, is_some, length, get_elem?,
}
use dreamos_cversion.Str.{is_same, strcmp}
use dreamos_cversion.Str.Order.{is_string, is_same-eq}
use dreamos_cversion.Vfs.Mounts.{FileSystem, find_fs_by_name, register}

-- Every name is a string.
abbrev pub all_strings : List FileSystem → Bool
all_strings [] = true
all_strings (fs ∷ fs_list) = is_string fs.name && all_strings fs_list

next_place : (i j : ℕ) → i + 1 + j ≡ i + suc j
next_place i j = omega arith

-- With one more entry at the end.
find_fs_by_name-append :
    (fs_list : List FileSystem) (fs : FileSystem) (i : ℕ) (fs_name : List ℕ)
    → find_fs_by_name (fs_list ++ fs ∷ []) i fs_name ≡ (
        if is_some (find_fs_by_name fs_list i fs_name)
        then find_fs_by_name fs_list i fs_name
        else if is_same (strcmp fs.name fs_name)
        then some (i + length fs_list)
        else none)
unfolding find_fs_by_name
find_fs_by_name-append [] fs i fs_name =
    ap (λ k. if is_same (strcmp fs.name fs_name) then some k else none) (omega arith)
find_fs_by_name-append (entry ∷ entries) fs i fs_name =
    elim (Bool-cases (is_same (strcmp entry.name fs_name))) [
      | inl e ↦ rw e refl
      | inr e ↦ rw e (
          find_fs_by_name-append entries fs (i + 1) fs_name
          ∙ ap
              (λ k.
                if is_some (find_fs_by_name entries (i + 1) fs_name)
                then find_fs_by_name entries (i + 1) fs_name
                else if is_same (strcmp fs.name fs_name)
                then some k
                else none)
              (next_place i (length entries)))
    ]

-- A name that is found is that of the entry.
find_fs_by_name_lem :
    (fs_list : List FileSystem) (i j : ℕ) (fs_name : List ℕ)
    → all_strings fs_list ≡ true
    → is_string fs_name ≡ true
    → find_fs_by_name fs_list i fs_name ≡ some j
    → (k : ℕ) × (fs : FileSystem) × (j ≡ i + k)
      × (get_elem? fs_list k ≡ some fs)
      × (fs.name ≡ fs_name)
unfolding find_fs_by_name
find_fs_by_name_lem [] i j fs_name h s e = cc
find_fs_by_name_lem (entry ∷ entries) i j fs_name h s e =
    elim (Bool-cases (is_same (strcmp entry.name fs_name))) [
      | inl hit ↦
          (0, entry, ground arith, refl, (is_same-eq entry.name fs_name (ground arith) s).0 hit)
      | inr miss ↦
          let (k, fs, at, g, n) =
            find_fs_by_name_lem entries (i + 1) j fs_name (ground arith) s (ground arith) in
          (suc k, fs, omega arith, g, n)
    ]

-- For names that are strings, os_vfs_register gives -OS_ERR_EINVAL, and some registered file
-- system has the name; or it gives a list in which os_vfs_find_fs_by_name finds the name, which
-- it did not find before, at the end, and finds any other name as before.
pub register_lem :
    (fs_list : List FileSystem) (fs : FileSystem)
    → all_strings fs_list ≡ true
    → is_string fs.name ≡ true
    → ((register fs_list fs ≡ none)
        × ((k : ℕ) × (entry : FileSystem) × (get_elem? fs_list k ≡ some entry)
            × (entry.name ≡ fs.name)))
      ⊎ ((fs_list' : List FileSystem) × (register fs_list fs ≡ some fs_list')
          × (find_fs_by_name fs_list 0 fs.name ≡ none)
          × (find_fs_by_name fs_list' 0 fs.name ≡ some (length fs_list))
          × ((other : List ℕ)
              → is_string other ≡ true
              → fs.name ≢ other
              → find_fs_by_name fs_list' 0 other ≡ find_fs_by_name fs_list 0 other))
unfolding register
register_lem fs_list fs h s =
    let added = record fs { mount_refcnt = 0 } in
    let self : is_same (strcmp fs.name fs.name) ≡ true = (is_same-eq fs.name fs.name s s).1 refl in
    elim (Option-cases (find_fs_by_name fs_list 0 fs.name)) [
      | inl absent ↦ inr (
        fs_list ++ added ∷ [],
        rw absent refl,
        absent,
        find_fs_by_name-append fs_list added 0 fs.name
            ∙ rw (absent, self) (ap (λ k. some k) (omega arith)),
        λ other s' ne.
            let miss : is_same (strcmp fs.name other) ≡ false =
              elim (Bool-cases (is_same (strcmp fs.name other))) [
                | inl hit ↦ absurd (ne ((is_same-eq fs.name other s s').0 hit))
                | inr no' ↦ no'
              ] in
            find_fs_by_name-append fs_list added 0 other ∙ ground (arith, miss),
      )
      | inr (j, there) ↦
          let (k, entry, _, g, n) = find_fs_by_name_lem fs_list 0 j fs.name h s there in
          inl (rw there refl, (k, entry, g, n))
    ]
