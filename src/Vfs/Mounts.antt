-- ===== src/Vfs/Mounts.antt =====
-- src/os_vfs.c: the registered file systems and the mount table. An entry of a list is named by its
-- place in the list.
pub mod Lookup
pub mod Register
pub mod Change
pub mod Places
pub mod RoundTrip
mod Tests
use dreamos_cversion.Base.{
  ℕ, zero, suc, ◌+◌, ◌-◌, ◌*◌, ◌/◌, ◌%◌, ◌^◌, ◌<◌, ◌≤◌, ◌≡◌, ◌≢◌, ◌↔◌, refl, sym, ap, subst, ◌∙◌,
  ◌⊎◌, inl, inr, min, max, bit_and, bit_or, bit_xor, Bool, true, false, ◌&&◌, ◌||◌, not, Option,
  none, some, List, [], ◌∷◌, ◌++◌, map, arith, ltb, leb, ◌==◌, if◌then◌else◌, Bool-cases,
  Option-cases, is_some, dec_lt, ℕ_discrete, length, get_or, get_elem?, set, take, drop, replicate,
  length-append, length-set, get_or-set_self, get_or-set_ne, length-replicate, get_or-replicate,
  set-set_self, ==_iff,
}
use dreamos_cversion.Str.{is_same, strlen, strcmp, memcmp}

-- os_vfs_t and os_vfs_mp_t, without the operations, the locks and what the operations keep there
pub record FileSystem : Type 0 where
  pub name : List ℕ
  pub mount_refcnt : ℕ

pub record Mount : Type 0 where
  pub path : List ℕ
  pub fs : ℕ
  pub subpath_offset : ℕ
  pub mp_cnt : ℕ
  pub open_file_cnt : ℕ

-- os_vfs_find_fs_by_name, from place `i` on
pub find_fs_by_name : List FileSystem → (i : ℕ) → (fs_name : List ℕ) → Option ℕ
find_fs_by_name [] i fs_name = none
find_fs_by_name (entry ∷ entries) i fs_name =
    let later = find_fs_by_name entries (i + 1) fs_name in
    if is_same (strcmp entry.name fs_name) then some i else later

-- os_vfs_register: the list afterwards, or `none` for -OS_ERR_EINVAL.
pub register : List FileSystem → FileSystem → Option (List FileSystem)
unfolding find_fs_by_name
register fs_list fs =
    if is_some (find_fs_by_name fs_list 0 fs.name)
    then none
    else some (fs_list ++ record fs { mount_refcnt = 0 } ∷ [])

-- The loop of os_vfs_find_mp_by_path, from place `i` on. `none` stands for a read past the end of a
-- path.
unfoldable pub find_mp_loop :
    List Mount → (path : List ℕ) → (i : ℕ) → (ret : Option ℕ) → (match_len : ℕ) → Option (Option ℕ)
find_mp_loop [] path i ret match_len = some ret
find_mp_loop (entry ∷ entries) path i ret match_len =
    let len = strlen entry.path in
    let later = find_mp_loop entries path (i + 1) ret match_len in
    let longer = find_mp_loop entries path (i + 1) (some i) len in
    let compared : Option (Option ℕ) = elim (memcmp entry.path path len) [
      | none ↦ none
      | some d ↦ if is_same d then longer else later
    ] in
    if ltb match_len len && leb len (strlen path) then compared else later

-- os_vfs_find_mp_by_path
unfoldable pub find_mp_by_path : List Mount → (path : List ℕ) → Option (Option ℕ)
unfolding find_mp_loop
find_mp_by_path mount_list path = find_mp_loop mount_list path 0 none 0
