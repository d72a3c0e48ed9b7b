-- ===== src/Vfs/Mounts/Tests.antt =====
-- A file system is mounted at `/b` below the root, and unmounted.
use dreamos_cversion.Base.{ℕ, ◌-◌, ◌≡◌, sym, ap, true, Option, none, some, List, [], ◌∷◌, map}
use dreamos_cversion.Word.{size_mod}
use dreamos_cversion.Vfs.Mounts.{Mount, find_mp_by_path, find_mp_loop}
use dreamos_cversion.Vfs.{normalize_path, normalize_loop, parent, finish, string_of}
use dreamos_cversion.Str.{strcmp, strlen, memcmp}
use dreamos_cversion.Vfs.Mounts.Change.{Vfs, VfsErr, mounted, vfs_unmount, ok}

-- The operations succeed, and every path is a directory.
abbrev is_directory : ℕ → List ℕ → ℕ × ℕ
is_directory mp path = (0, 2)

abbrev succeeds : Mount → ℕ
succeeds mp = 0

abbrev root_only : Vfs
root_only = record {
  fs_list = record { name = 102 ∷ []; mount_refcnt = 1 } ∷ [];
  mount_list =
      record { path = 47 ∷ []; fs = 0; subpath_offset = 0; mp_cnt = 0; open_file_cnt = 0 } ∷ [];
}

abbrev with_b : Vfs
with_b = mounted root_only 0 (47 ∷ 98 ∷ []) (some 0)

-- `/b/c` is mounted below the root, then `/b` over its parent; when `/b/c` goes, the count of `/b`, which
-- was not raised, falls below 0.
abbrev nested : Vfs
nested = mounted (mounted root_only 0 (47 ∷ 98 ∷ 47 ∷ 99 ∷ []) (some 0)) 0 (47 ∷ 98 ∷ []) (some 0)

wrong_parent :
    (s : Vfs)
    → vfs_unmount succeeds nested (47 ∷ 98 ∷ 47 ∷ 99 ∷ []) true ≡ some (ok, s)
    → map (λ (m : Mount). m.mp_cnt) s.mount_list ≡ 2 ∷ (size_mod - 1) ∷ []
unfolding vfs_unmount strcmp normalize_path normalize_loop find_mp_by_path find_mp_loop memcmp
    strlen parent finish string_of
wrong_parent s e =
    ap
      (λ (o : Option (VfsErr × Vfs)). elim o as (λ q. List ℕ) [
        | none ↦ []
        | some r ↦ map (λ (m : Mount). m.mp_cnt) r.1.mount_list
      ])
      (sym e)
