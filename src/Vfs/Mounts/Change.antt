-- ===== src/Vfs/Mounts/Change.antt =====
-- os_vfs_mount and os_vfs_unmount. The operations of the file systems, the search for a device and the
-- allocations are arguments: the code that an operation returns, 0 for OS_ERR_OK, and whether there is
-- memory. `none` stands for a failed assertion.
use dreamos_cversion.Base.{
  ℕ, zero, suc, ◌+◌, Bool, ◌||◌, not, Option, none, some, List, [], ◌∷◌, ◌++◌, ltb, ◌==◌,
  if◌then◌else◌, get_elem?, ◌>>=◌,
}
use dreamos_cversion.Romfs.{type_directory}
use dreamos_cversion.Word.{sub_size, add_size}
use dreamos_cversion.Vfs.Mounts.{Mount, FileSystem, find_mp_by_path, find_fs_by_name}
use dreamos_cversion.Vfs.{normal, einval, normalize_path, slash}
use dreamos_cversion.Str.{is_same, strcmp, strlen}

-- fs_list and mount_list
pub record Vfs : Type 0 where
  pub fs_list : List FileSystem
  pub mount_list : List Mount

-- OS_ERR_OK, -OS_ERR_EINVAL, -OS_ERR_ENOMEM, -OS_ERR_ENOTDIR, -OS_ERR_EPERM, or the code of an
-- operation
pub data VfsErr : Type 0 where
  ok invalid no_memory not_directory not_permitted : VfsErr
  from_op : (code : ℕ) → VfsErr

module _ {ℓ} {A : Type ℓ} where
  abbrev pub change_at : List A → ℕ → (A → A) → List A
  change_at [] i f = []
  change_at (x ∷ xs) zero f = f x ∷ xs
  change_at (x ∷ xs) (suc i) f = x ∷ change_at xs i f

  abbrev pub remove_at : List A → ℕ → List A
  remove_at [] i = []
  remove_at (x ∷ xs) zero = xs
  remove_at (x ∷ xs) (suc i) = x ∷ remove_at xs i

abbrev pub count_up : Mount → Mount
count_up mp = record mp { mp_cnt = add_size mp.mp_cnt 1 }

abbrev pub count_down : Mount → Mount
count_down mp = record mp { mp_cnt = sub_size mp.mp_cnt 1 }

abbrev pub use_fs : FileSystem → FileSystem
use_fs fs = record fs { mount_refcnt = add_size fs.mount_refcnt 1 }

abbrev pub drop_fs : FileSystem → FileSystem
drop_fs fs = record fs { mount_refcnt = sub_size fs.mount_refcnt 1 }

-- The new mount point.
abbrev pub new_mp : (fs : ℕ) → (path_buf : List ℕ) → Mount
new_mp fs path_buf = record {
  path = path_buf;
  fs = fs;
  subpath_offset = if strlen path_buf == 1 then 0 else strlen path_buf + 1;
  mp_cnt = 0;
  open_file_cnt = 0;
}

-- The lists when the mount point is in, below `mount_mp` or as the root.
abbrev pub mounted : Vfs → (fs : ℕ) → (path_buf : List ℕ) → (mount_mp : Option ℕ) → Vfs
mounted s fs path_buf mount_mp =
    let parents : List Mount = elim mount_mp [
      | none ↦ s.mount_list
      | some m ↦ change_at s.mount_list m count_up
    ] in
    record {
      fs_list = change_at s.fs_list fs use_fs;
      mount_list = parents ++ new_mp fs path_buf ∷ [];
    }

module _ (no_device room_mp : Bool) (stat : ℕ → List ℕ → ℕ × ℕ) (mount_op : Mount → ℕ) where
  -- os_vfs_mount from the device on.
  abbrev pub mount_at : Vfs → (fs : ℕ) → (path_buf : List ℕ) → (mount_mp : Option ℕ) → VfsErr × Vfs
  mount_at s fs path_buf mount_mp =
      let code = mount_op (new_mp fs path_buf) in
      if no_device
      then (invalid, s)
      else if not room_mp
      then (no_memory, s)
      else if not (code == 0)
      then (from_op code, s)
      else (ok, mounted s fs path_buf mount_mp)

  -- os_vfs_mount below another mount point.
  abbrev pub mount_below : Vfs → (fs : ℕ) → (path_buf : List ℕ) → (mount_mp : ℕ) → VfsErr × Vfs
  mount_below s fs path_buf mount_mp =
      let state = stat mount_mp path_buf in
      if not (state.0 == 0)
      then (from_op state.0, s)
      else if not (state.1 == type_directory)
      then (not_directory, s)
      else mount_at s fs path_buf (some mount_mp)

  -- os_vfs_mount with what the search for the file system gives.
  abbrev pub mount_fs :
      Vfs → (mount_path : List ℕ) → (room : Bool) → (fs : Option ℕ) → Option (VfsErr × Vfs)
  mount_fs s mount_path room none = some (invalid, s)
  mount_fs s mount_path room (some fs) =
      if not room
      then some (no_memory, s)
      else (normalize_path mount_path >>= λ n. elim n [
        | einval ↦ some (invalid, s)
        | normal path_buf ↦
            if is_same (strcmp mount_path (slash ∷ []))
            then some (mount_at s fs path_buf none)
            else (find_mp_by_path s.mount_list path_buf >>= λ found. elim found [
              | none ↦ none
              | some mp ↦ some (mount_below s fs path_buf mp)
            ])
      ])

  -- os_vfs_mount
  unfoldable pub vfs_mount :
      Vfs → (mount_path fs_name : List ℕ) → (room : Bool) → Option (VfsErr × Vfs)
  vfs_mount s mount_path fs_name room =
      mount_fs s mount_path room (find_fs_by_name s.fs_list 0 fs_name)

-- os_vfs_unmount when the mount point may go.
abbrev pub unmount_at : Vfs → (path_buf : List ℕ) → (i : ℕ) → (mp : Mount) → Option (VfsErr × Vfs)
unmount_at s path_buf i mp =
    let mounts = remove_at s.mount_list i in
    find_mp_by_path mounts path_buf >>= λ found. elim found [
      | none ↦ none
      | some m ↦ some (
        ok,
        record {
          fs_list = change_at s.fs_list mp.fs drop_fs;
          mount_list = change_at mounts m count_down;
        },
      )
    ]

-- os_vfs_unmount of the mount point that is found.
abbrev pub unmount_found :
    (unmount_op : Mount → ℕ) → Vfs → (path_buf : List ℕ) → (i : ℕ) → Mount → Option (VfsErr × Vfs)
unmount_found unmount_op s path_buf i mp =
    if ltb 0 mp.mp_cnt || ltb 0 mp.open_file_cnt
    then some (not_permitted, s)
    else if not (unmount_op mp == 0)
    then some (from_op (unmount_op mp), s)
    else unmount_at s path_buf i mp

-- os_vfs_unmount
unfoldable pub vfs_unmount :
    (unmount_op : Mount → ℕ) → Vfs → (mount_path : List ℕ) → (room : Bool) → Option (VfsErr × Vfs)
vfs_unmount unmount_op s mount_path room =
    if not room
    then some (no_memory, s)
    else (normalize_path mount_path >>= λ n. elim n [
      | einval ↦ some (invalid, s)
      | normal path_buf ↦
          (find_mp_by_path s.mount_list path_buf >>= λ found. elim found [
            | none ↦ some (invalid, s)
            | some i ↦ (get_elem? s.mount_list i >>= unmount_found unmount_op s path_buf i)
          ])
    ])
