-- ===== src/Romfs.antt =====
-- src/vfs/os_vfs_romfs.c: a file system in read-only memory, a tree of directory entries.
--
-- A string is the list of its bytes before the terminating 0; a pointer into one is the list from
-- there on. `none` stands for an access outside an object: past the 0 of a string or past the array
-- of a directory, or of bytes as a directory and the other way round; and for a failed OS_ASSERT.
pub mod Walk
pub mod Lookup
pub mod Files
pub mod Reads
mod Tests
use dreamos_cversion.Base.{
  ℕ, zero, suc, ◌+◌, ◌-◌, ◌*◌, ◌/◌, ◌%◌, ◌^◌, ◌<◌, ◌≤◌, ◌≡◌, ◌≢◌, ◌↔◌, refl, sym, ap, subst, ◌∙◌,
  ◌⊎◌, inl, inr, min, max, bit_and, bit_or, bit_xor, Bool, true, false, ◌&&◌, ◌||◌, not, Option,
  none, some, List, [], ◌∷◌, ◌++◌, arith, ltb, leb, ◌==◌, if◌then◌else◌, Bool-cases, Option-cases,
  is_some, dec_lt, ℕ_discrete, length, get_or, get_elem?, take, drop, replicate, length-append,
  length-set, get_or-set_self, get_or-set_ne, length-replicate, get_or-replicate, set-set_self,
  ==_iff, has, distinct, without, has-append, distinct-append, has-without, distinct-without,
  without_absent, ◌>>=◌, distinct-join, length-drop, take_all, take_add, drop_add, take_front,
  length-take,
}
use dreamos_cversion.Vfs.{slash, path_max}
use dreamos_cversion.Word.{sub_size, add_size}
use dreamos_cversion.Str.Blocks.{memcmp-same, memcpy-eq}
use dreamos_cversion.Str.Order.{is_string, is_same-eq}
use dreamos_cversion.Str.{is_same, same, less, greater, strlen, strcmp, memcmp, memcpy}

-- OS_FILE_TYPE_REGULAR and OS_FILE_TYPE_DIRECTORY
abbrev pub type_regular : ℕ
type_regular = 0

abbrev pub type_directory : ℕ
type_directory = 2

-- os_vfs_romfs_dirent_t, whose data is the content: it points to bytes or to an array of entries, or is OS_NULL.
mutual
  pub data Dirent : Type 0 where
    dirent : (type : ℕ) (name : List ℕ) (content : Data) (size : ℕ) → Dirent

  pub data Data : Type 0 where
    null : Data
    bytes : List ℕ → Data
    entries : Dirents → Data

  pub data Dirents : Type 0 where
    nil : Dirents
    cons : Dirent → Dirents → Dirents

abbrev pub type_of : Dirent → ℕ
type_of (dirent type name content size) = type

abbrev pub name_of : Dirent → List ℕ
name_of (dirent type name content size) = name

abbrev pub content_of : Dirent → Data
content_of (dirent type name content size) = content

abbrev pub size_of : Dirent → ℕ
size_of (dirent type name content size) = size

-- romfs_check_dirent
abbrev pub check_dirent : Dirent → Bool
check_dirent d = (type_of d == type_regular) || (type_of d == type_directory)

-- The bytes before the next slash or the end, and what follows.
abbrev pub scan : List ℕ → List ℕ × List ℕ
scan [] = ([], [])
scan (c ∷ cs) = let r = scan cs in if c == slash then ([], c ∷ cs) else (c ∷ r.0, r.1)

-- subpath and subpath_end: the component that starts at `subpath`, its first byte whatever it is, and
-- what follows it.
abbrev pub component : List ℕ → Option (List ℕ × List ℕ)
component [] = none
component (c ∷ cs) = some (c ∷ (scan cs).0, (scan cs).1)

-- The comparison of the name of an entry with the component.
abbrev pub same_name : (name subpath : List ℕ) → Option Bool
same_name name subpath =
    if strlen name == strlen subpath
    then (memcmp name subpath (strlen subpath) >>= λ s. some (is_same s))
    else some false

-- The two loops of romfs_lookup, for the entries that are left of a directory, the entry that has the
-- name, and the directory that is entered.
unfoldable mutual
  pub lookup_entries : Dirents → (count : ℕ) → (subpath after : List ℕ) → Option (Option Dirent)
  lookup_entries ds zero subpath after = some none
  lookup_entries nil (suc count) subpath after = none
  lookup_entries (cons d ds) (suc count) subpath after =
      let later = lookup_entries ds count subpath after in
      let found = lookup_found d after in
      if not (check_dirent d)
      then some none
      else (same_name (name_of d) subpath >>= λ same. if same then found else later)

  pub lookup_found : Dirent → (after : List ℕ) → Option (Option Dirent)
  lookup_found (dirent type name content size) [] = some (some (dirent type name content size))
  lookup_found (dirent type name content size) (c ∷ cs) = component cs >>= λ r.
      let next = lookup_data content size r.0 r.1 in
      if type == type_directory then next else some none

  pub lookup_data : Data → (count : ℕ) → (subpath after : List ℕ) → Option (Option Dirent)
  lookup_data null count subpath after = some none
  lookup_data (bytes b) count subpath after = none
  lookup_data (entries ds) count subpath after = lookup_entries ds count subpath after

-- romfs_lookup; the mount point's subpath_offset may skip no more than the path and its 0.
unfoldable pub romfs_lookup :
    (subpath_offset : ℕ) → (root_dirent : Dirent) → (path : List ℕ) → Option (Option Dirent)
romfs_lookup subpath_offset root_dirent path =
    let at = drop subpath_offset path in
    let descend : Option (Option Dirent) = elim at [
      | [] ↦ none
      | c ∷ cs ↦
          (component cs >>= λ r. lookup_data (content_of root_dirent) (size_of root_dirent) r.0 r.1)
    ] in
    if not (check_dirent root_dirent)
    then some none
    else if ltb (length path) subpath_offset
    then none
    else if is_same (strcmp at (slash ∷ []))
    then some (some root_dirent)
    else descend
