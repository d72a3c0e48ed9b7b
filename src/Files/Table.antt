-- ===== src/Files/Table.antt =====
-- src/os_file.c: the table of the file descriptors of a task, over a bitmap of the ids that are free
-- and a hash map from ids to descriptors.
--
-- A descriptor is its address, 0 is OS_NULL. The table is that of the current task; its mutex is
-- recursive, and is here the number of times the task holds it. `none` stands for a failed
-- assertion, or a write past a block.
pub mod Create
pub mod Fill
mod Tests
use dreamos_cversion.Base.{ℕ, ◌+◌, ◌≡◌, Bool, Option, none, some, List, ◌==◌, if◌then◌else◌, ◌>>=◌}
use dreamos_cversion.Word.{number_max, add_size, sub_size}
use dreamos_cversion.Bitmap.{Bitmap, created, find_some_ones, set_bit}
use dreamos_cversion.Hashmap.{Hashmap, Outcome, done, einval, enomem, set_item, get}

-- os_file_fd_table_t; its fd_list is left out, it stays empty since nothing is put into it.
pub record FdTable : Type 0 where
  pub fd_bitmap : Bitmap
  pub fd_hashmap : Hashmap
  pub refcnt : ℕ
  pub lock : ℕ

-- OS_ERR_OK with *fdid, -OS_ERR_EPERM, -OS_ERR_ENOMEM
pub data FdCreated : Type 0 where
  given : (fdid : ℕ) → FdCreated
  not_permitted no_memory : FdCreated

-- OS_MAX_OPEN_FILES
abbrev pub max_open_files : ℕ
max_open_files = 128

-- os_file_fd_table_create with the bitmap and what os_hashmap_create returns: `none` for OS_NULL.
abbrev pub table_with : Bitmap → Outcome → Option FdTable
table_with fd_bitmap (done fd_hashmap) =
    some (record { fd_bitmap = fd_bitmap; fd_hashmap = fd_hashmap; refcnt = 1; lock = 0 })
table_with fd_bitmap einval = none
table_with fd_bitmap enomem = none

-- os_file_fd_table_create. `fd_table` is what os_memory_alloc gives for the table, where OS_NULL fails
-- the assertion of os_bitmap_create, since the bitmap stands first in it; `alloc` is os_memory_alloc for
-- the bitmap, `room` whether there is memory for the buckets.
pub fd_table_create :
    (fd_table : ℕ) → (alloc : ℕ → Option (List ℕ)) → (room : Bool) → Option (Option FdTable)
fd_table_create fd_table alloc room =
    let made = dreamos_cversion.Bitmap.create alloc max_open_files none 1 >>= λ b. elim b [
      | created fd_bitmap ↦
          (dreamos_cversion.Hashmap.create room max_open_files none >>= λ o.
          some (table_with fd_bitmap o))
      | _ ↦ some none
    ] in
    if fd_table == 0 then none else made

-- os_file_fd_table_soft_copy
abbrev pub fd_table_soft_copy : FdTable → FdTable
fd_table_soft_copy t = record t { refcnt = add_size t.refcnt 1 }

-- os_file_fd_table_remove when no one else holds the mutex: `none` if the table has no user left, and is
-- given back with its bitmap and its hash map. Then os_mutex_unlock, which comes last, uses the table
-- after it is given back, if the scheduler is initialised. The loop over fd_list has nothing to do, since
-- fd_list is empty.
abbrev pub fd_table_remove : FdTable → Option FdTable
fd_table_remove t =
    let refcnt = sub_size t.refcnt 1 in
    if refcnt == 0 then none else some (record t { refcnt = refcnt })

-- os_file_get_new_fdid; without an id it returns with the mutex.
pub get_new_fdid : FdTable → Option (Option ℕ × FdTable)
get_new_fdid t = find_some_ones t.fd_bitmap 0 1 >>= λ ret.
    if ret == number_max
    then some (none, record t { lock = t.lock + 1 })
    else (set_bit t.fd_bitmap ret 0 >>= λ b. some (some ret, record t { fd_bitmap = b }))

-- os_file_release_fdid
pub release_fdid : FdTable → (fdid : ℕ) → Option FdTable
release_fdid t fdid = set_bit t.fd_bitmap fdid 1 >>= λ b. some (record t { fd_bitmap = b })

-- os_file_get_fd_by_fdid
pub get_fd_by_fdid : FdTable → (fdid : ℕ) → Option ℕ
get_fd_by_fdid t fdid = get t.fd_hashmap fdid >>= λ found. some found.1

-- The map after os_hashmap_set, what it returns not being looked at.
abbrev pub left_map : Hashmap → Outcome → Hashmap
left_map map (done map') = map'
left_map map einval = map
left_map map enomem = map

-- os_file_fdid_create. `fd` is what os_memory_alloc gives for the descriptor, `room` whether there is
-- memory for an item of the hash map.
pub fdid_create : FdTable → (fd : ℕ) → (room : Bool) → Option (FdCreated × FdTable)
unfolding get_new_fdid release_fdid
fdid_create t fd room = get_new_fdid t >>= λ p. elim p.0 [
  | none ↦ some (not_permitted, p.1)
  | some fdid ↦
      let entered = set_item p.1.fd_hashmap room fdid fd >>= λ o.
      some (given fdid, record p.1 { fd_hashmap = left_map p.1.fd_hashmap o }) in
      if fd == 0 then (release_fdid p.1 fdid >>= λ t'. some (no_memory, t')) else entered
]
