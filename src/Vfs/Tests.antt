-- ===== src/Vfs/Tests.antt =====
-- The paths on concrete inputs.
use dreamos_cversion.Base.{
  ℕ, ◌<◌, ◌≡◌, ◌≢◌, refl, ◌⊎◌, true, Option, none, some, List, [], ◌∷◌, get_elem?,
}
use dreamos_cversion.Str.{strlen, memcmp}
use dreamos_cversion.Str.Order.{is_string}
use dreamos_cversion.Str.Blocks.{starts}
use dreamos_cversion.Vfs.Meaning.{meaning, normalize_path-meaning}
use dreamos_cversion.Vfs.Mounts.{Mount, FileSystem, find_mp_by_path, find_fs_by_name, register}
use dreamos_cversion.Vfs.Mounts.Lookup.{IsLongest, find_mp_by_path-IsLongest}
use dreamos_cversion.Vfs.Mounts.Register.{register_lem}
use dreamos_cversion.Vfs.{normal, einval, normalize_path}

-- "/a/../b/", "/a//b"
runs :
    (normalize_path (47 ∷ 97 ∷ 47 ∷ 46 ∷ 46 ∷ 47 ∷ 98 ∷ 47 ∷ []) ≡ some (normal (47 ∷ 98 ∷ [])))
    × (normalize_path (47 ∷ 97 ∷ 47 ∷ 47 ∷ 98 ∷ []) ≡ some einval)
unfolding normalize_path
runs = (refl, refl)

normalize_path-meaning_example :
    normalize_path (47 ∷ 97 ∷ 47 ∷ 46 ∷ 46 ∷ 47 ∷ 98 ∷ [])
    ≡ some (meaning (47 ∷ 97 ∷ 47 ∷ 46 ∷ 46 ∷ 47 ∷ 98 ∷ []))
normalize_path-meaning_example = normalize_path-meaning (47 ∷ 97 ∷ 47 ∷ 46 ∷ 46 ∷ 47 ∷ 98 ∷ []) refl

abbrev mounted : List ℕ → Mount
mounted path = record { path = path; fs = 0; subpath_offset = 0; mp_cnt = 0; open_file_cnt = 0 }

-- "/" and "/dev"
abbrev mounts : List Mount
mounts = mounted (47 ∷ []) ∷ mounted (47 ∷ 100 ∷ 101 ∷ 118 ∷ []) ∷ []

-- "/dev/tty" is on the second; so is "/device", which has another first component.
finds :
    (find_mp_by_path mounts (47 ∷ 100 ∷ 101 ∷ 118 ∷ 47 ∷ 116 ∷ 116 ∷ 121 ∷ []) ≡ some (some 1))
    × (find_mp_by_path mounts (47 ∷ 100 ∷ 101 ∷ 118 ∷ 105 ∷ 99 ∷ 101 ∷ []) ≡ some (some 1))
    × (find_mp_by_path mounts (47 ∷ 97 ∷ []) ≡ some (some 0))
unfolding find_mp_by_path strlen memcmp
finds = (refl, refl, refl)

find_mp_by_path-IsLongest_example :
    (r : Option ℕ) × (find_mp_by_path mounts (47 ∷ 97 ∷ []) ≡ some r)
    × (((r ≡ none)
          × ((k : ℕ) (other : Mount)
              → get_elem? mounts k ≡ some other
              → starts other.path (47 ∷ 97 ∷ []) ≡ true
              → strlen other.path ≡ 0))
        ⊎ ((j : ℕ) × (entry : Mount) × (r ≡ some j)
            × (0 < strlen entry.path)
            × IsLongest mounts (47 ∷ 97 ∷ []) j entry))
find_mp_by_path-IsLongest_example = find_mp_by_path-IsLongest mounts (47 ∷ 97 ∷ [])

-- A file system named "a", and one named "b".
abbrev fs_a : FileSystem
fs_a = record { name = 97 ∷ []; mount_refcnt = 2 }

abbrev fs_b : FileSystem
fs_b = record { name = 98 ∷ []; mount_refcnt = 5 }

register_lem_example :
    ((register (fs_a ∷ []) fs_b ≡ none)
      × ((k : ℕ) × (entry : FileSystem) × (get_elem? (fs_a ∷ []) k ≡ some entry)
          × (entry.name ≡ fs_b.name)))
    ⊎ ((fs_list' : List FileSystem) × (register (fs_a ∷ []) fs_b ≡ some fs_list')
        × (find_fs_by_name (fs_a ∷ []) 0 fs_b.name ≡ none)
        × (find_fs_by_name fs_list' 0 fs_b.name ≡ some 1)
        × ((other : List ℕ)
            → is_string other ≡ true
            → fs_b.name ≢ other
            → find_fs_by_name fs_list' 0 other ≡ find_fs_by_name (fs_a ∷ []) 0 other))
register_lem_example = register_lem (fs_a ∷ []) fs_b refl refl
