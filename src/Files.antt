-- ===== src/Files.antt =====
-- src/os_file.c: file nodes shared by file descriptors, opening and closing, and the access checks.
--
-- A node and a descriptor are their addresses, 0 is OS_NULL; a mount point is its place in the mount
-- list. The operations of a file system are called through pointers: they are a parameter of each call.
-- What they write elsewhere, such as the buffer of the caller, is left out. A mutex is recursive, and is
-- here the number of times it is held. `none` stands for what os_vfs_normalize_path and
-- os_vfs_find_mp_by_path have no meaning for.
pub mod Count
pub mod Open
pub mod Ops
pub mod Close
pub mod Session
pub mod Settle
pub mod Uses
pub mod Reach
pub mod Table
mod Tests
use dreamos_cversion.Romfs.Files.{has_flag, flag_wronly, flag_rdwr, flag_directory}
use dreamos_cversion.Base.{
  ℕ, zero, suc, ◌+◌, ◌-◌, ◌*◌, ◌/◌, ◌%◌, ◌^◌, ◌<◌, ◌≤◌, ◌≡◌, ◌≢◌, ◌↔◌, refl, sym, ap, subst, ◌∙◌,
  ◌⊎◌, inl, inr, min, max, bit_and, bit_or, bit_xor, Bool, true, false, ◌&&◌, ◌||◌, not, Option,
  none, some, List, [], ◌∷◌, ◌++◌, arith, ltb, leb, ◌==◌, if◌then◌else◌, Bool-cases, Option-cases,
  is_some, dec_lt, ℕ_discrete, length, get_or, get_elem?, take, drop, replicate, length-append,
  length-set, get_or-set_self, get_or-set_ne, length-replicate, get_or-replicate, set-set_self,
  ==_iff, has, distinct, without, has-append, distinct-append, has-without, distinct-without,
  without_absent, ◌>>=◌, distinct-join, length-drop, take_all, take_add, drop_add, take_front,
  length-take,
}
use dreamos_cversion.Word.{sub_size, add_size}
use dreamos_cversion.Str.{is_same, strcmp}
use dreamos_cversion.Vfs.{normal, einval, normalize_path}
use dreamos_cversion.Vfs.Mounts.{Mount, find_mp_by_path}

-- os_file_node_t and os_file_fd_t
pub record FileNode : Type 0 where
  pub path : List ℕ
  pub type : ℕ
  pub size : ℕ
  pub mp : ℕ
  pub refcnt : ℕ
  pub priv_data : ℕ

pub record Descriptor : Type 0 where
  pub fnode : ℕ
  pub open_flag : ℕ
  pub pos : ℕ

-- What an operation of a file system returns and may write: the code, 0 for OS_ERR_OK, and fields of
-- the node and the descriptor.
pub record Effect : Type 0 where
  pub code : ℕ
  pub type : ℕ
  pub size : ℕ
  pub priv_data : ℕ
  pub pos : ℕ

-- os_file_ops_t: what the operations do in one call, by their arguments, the node and the descriptor.
-- Another call may find other ones, since it depends on what the file system and its device hold.
pub record FileOps : Type 0 where
  pub open_op : FileNode → Descriptor → Effect
  pub close_op : FileNode → Descriptor → Effect
  pub ioctl_op : (cmd arg : ℕ) → FileNode → Descriptor → Effect
  pub read_op : (buf size : ℕ) → FileNode → Descriptor → Effect
  pub write_op : (buf size : ℕ) → FileNode → Descriptor → Effect
  pub flush_op : FileNode → Descriptor → Effect
  pub lseek_op : (offset : ℕ) → FileNode → Descriptor → Effect
  pub readdir_op : (entry count : ℕ) → FileNode → Descriptor → Effect

-- The store of nodes and descriptors, os_file_list, the mount points with the number of open files of
-- each, and the mutexes.
pub record Files : Type 0 where
  pub nodes : ℕ → FileNode
  pub fds : ℕ → Descriptor
  pub file_list : List ℕ
  pub mount_list : List Mount
  pub open_file_cnt : ℕ → ℕ
  pub file_lock : ℕ
  pub vfs_lock : ℕ
  pub mp_lock : ℕ → ℕ
  pub node_lock : ℕ → ℕ
  pub fd_lock : ℕ → ℕ

-- OS_ERR_OK, -OS_ERR_ENOMEM, -OS_ERR_EINVAL, -OS_ERR_ENOENT, -OS_ERR_EACCES, -OS_ERR_EPERM, or the
-- code of the file system
pub data FileErr : Type 0 where
  ok no_memory invalid no_entry no_access not_permitted : FileErr
  from_fs : (code : ℕ) → FileErr

abbrev pub put {ℓ} : {A : Type ℓ} → (ℕ → A) → ℕ → A → ℕ → A
put f k v n = if n == k then v else f n

-- os_file_fnode_find, 0 if there is none
unfoldable pub fnode_find : (ℕ → FileNode) → List ℕ → (path : List ℕ) → ℕ
fnode_find nodes [] path = 0
fnode_find nodes (entry ∷ file_list) path =
    let later = fnode_find nodes file_list path in
    if is_same (strcmp (nodes entry).path path) then entry else later

-- The two global mutexes are held.
abbrev pub enter : Files → Files
enter s = record s { file_lock = s.file_lock + 1; vfs_lock = s.vfs_lock + 1 }

abbrev pub leave : Files → Files
leave s = record s { file_lock = s.file_lock - 1; vfs_lock = s.vfs_lock - 1 }

-- A new node at the end of the list.
abbrev pub attach : Files → (fnode : ℕ) → (path_buf : List ℕ) → (mp : ℕ) → Files
attach s fnode path_buf mp = record s {
  nodes =
      put s.nodes fnode
        (record { path = path_buf; type = 0; size = 0; mp = mp; refcnt = 0; priv_data = 0 });
  file_list = s.file_list ++ fnode ∷ [];
  node_lock = put s.node_lock fnode 0;
}

-- The descriptor is filled in, and the mutexes are exchanged for those of the mount point and the node.
abbrev pub describe : Files → (fd fnode open_flag mp : ℕ) → Files
describe s fd fnode open_flag mp = record s {
  fds = put s.fds fd (record { fnode = fnode; open_flag = open_flag; pos = 0 });
  fd_lock = put s.fd_lock fd 0;
  mp_lock = put s.mp_lock mp (s.mp_lock mp + 1);
  vfs_lock = s.vfs_lock - 1;
  node_lock = put s.node_lock fnode (s.node_lock fnode + 1);
  file_lock = s.file_lock - 1;
}

-- What the operation writes.
abbrev pub affect : Files → (fd fnode : ℕ) → Effect → Files
affect s fd fnode e = record s {
  nodes =
      put s.nodes fnode
        (record (s.nodes fnode) { type = e.type; size = e.size; priv_data = e.priv_data });
  fds = put s.fds fd (record (s.fds fd) { pos = e.pos });
}

abbrev pub detach : Files → (fnode : ℕ) → Files
detach s fnode = record s { file_list = without fnode s.file_list }

abbrev pub set_refcnt : Files → (fnode refcnt : ℕ) → Files
set_refcnt s fnode refcnt = record s {
  nodes = put s.nodes fnode (record (s.nodes fnode) { refcnt = refcnt });
}

abbrev pub unlock_node : Files → (fnode : ℕ) → Files
unlock_node s fnode = record s { node_lock = put s.node_lock fnode (s.node_lock fnode - 1) }

abbrev pub unlock_mp : Files → (mp : ℕ) → Files
unlock_mp s mp = record s { mp_lock = put s.mp_lock mp (s.mp_lock mp - 1) }

-- os_file_open when the operation has succeeded, and when it has failed.
abbrev pub opened : Files → (fnode mp : ℕ) → (fnode_allocated : Bool) → Files
opened s fnode mp fnode_allocated =
    let cnt = add_size (s.open_file_cnt mp) 1 in
    unlock_node
      (set_refcnt
        (record s {
          open_file_cnt = if fnode_allocated then put s.open_file_cnt mp cnt else s.open_file_cnt;
        })
        fnode (add_size (s.nodes fnode).refcnt 1))
      fnode

abbrev pub not_opened : Files → (fnode : ℕ) → (fnode_allocated : Bool) → Files
not_opened s fnode fnode_allocated = if fnode_allocated then detach s fnode else unlock_node s fnode

-- os_file_close when the operation has succeeded: the counts and the list.
abbrev pub closed : Files → (fd : ℕ) → Files
closed s fd =
    let fnode = (s.fds fd).fnode in
    let mp = (s.nodes fnode).mp in
    let refcnt = sub_size (s.nodes fnode).refcnt 1 in
    let counted : Files = set_refcnt s fnode refcnt in
    if refcnt == 0
    then detach
        (record counted {
          open_file_cnt = put s.open_file_cnt mp (sub_size (s.open_file_cnt mp) 1);
        })
        fnode
    else counted

-- The mutexes of os_file_close: that of the file manager and of the descriptor, and those of the mount
-- point and the node.
abbrev pub lock_fd : Files → (fd : ℕ) → Files
lock_fd s fd = record s {
  file_lock = s.file_lock + 1;
  fd_lock = put s.fd_lock fd (s.fd_lock fd + 1);
}

abbrev pub unlock_fd : Files → (fd : ℕ) → Files
unlock_fd s fd = record s {
  file_lock = s.file_lock - 1;
  fd_lock = put s.fd_lock fd (s.fd_lock fd - 1);
}

abbrev pub lock_both : Files → (fnode mp : ℕ) → Files
lock_both s fnode mp = record s {
  mp_lock = put s.mp_lock mp (s.mp_lock mp + 1);
  node_lock = put s.node_lock fnode (s.node_lock fnode + 1);
}

-- The node keeps its mutex if it has no descriptor left and is given back.
abbrev pub unlock_closed : Files → (fd mp_read : ℕ) → Files
unlock_closed s fd mp_read =
    let fnode = (s.fds fd).fnode in
    let freed = (s.nodes fnode).refcnt == 0 in
    let mp = if freed then mp_read else (s.nodes fnode).mp in
    record s {
      node_lock = if freed then s.node_lock else put s.node_lock fnode (s.node_lock fnode - 1);
      mp_lock = put s.mp_lock mp (s.mp_lock mp - 1);
    }

module _ (ops : (mp : ℕ) → FileOps) where
  -- os_file_open from the filling in of the descriptor on.
  abbrev pub open_node :
      Files → (fd fnode open_flag mp : ℕ) → (fnode_allocated : Bool) → FileErr × Files
  open_node s fd fnode open_flag mp fnode_allocated =
      let ready = describe s fd fnode open_flag mp in
      let e = (ops mp).open_op (ready.nodes fnode) (ready.fds fd) in
      let done = affect ready fd fnode e in
      if e.code == 0
      then (ok, unlock_mp (opened done fnode mp fnode_allocated) mp)
      else (from_fs e.code, unlock_mp (not_opened done fnode fnode_allocated) mp)

  -- os_file_open with the mount point; `new_node` is what os_memory_alloc gives for a node.
  abbrev pub open_at :
      Files
      → (fd : ℕ) → (path : List ℕ) → (open_flag new_node : ℕ) → (path_buf : List ℕ) → (mp : ℕ)
      → FileErr × Files
  open_at s fd path open_flag new_node path_buf mp =
      let fnode = fnode_find s.nodes s.file_list path in
      if not (fnode == 0)
      then open_node s fd fnode open_flag mp false
      else if new_node == 0
      then (no_memory, record s { vfs_lock = s.vfs_lock - 1 })
      else open_node (attach s new_node path_buf mp) fd new_node open_flag mp true

  -- os_file_open; `room` is whether there is memory for the path.
  unfoldable pub file_open :
      Files
      → (fd : ℕ) → (path : List ℕ) → (open_flag : ℕ) → (room : Bool) → (new_node : ℕ)
      → Option (FileErr × Files)
  file_open s fd path open_flag room new_node =
      if not room
      then some (no_memory, leave (enter s))
      else (normalize_path path >>= λ n. elim n [
        | einval ↦ some (invalid, leave (enter s))
        | normal path_buf ↦
            (find_mp_by_path s.mount_list path_buf >>= λ found. elim found [
              | none ↦ some (no_entry, leave (enter s))
              | some mp ↦ some (open_at (enter s) fd path open_flag new_node path_buf mp)
            ])
      ])

  -- os_file_close. `mp_read` is what the last use of the node reads as its mount point when the node
  -- has been given back to os_memory_free.
  unfoldable pub file_close : Files → (fd mp_read : ℕ) → FileErr × Files
  file_close s fd mp_read =
      let fnode = (s.fds fd).fnode in
      let mp = (s.nodes fnode).mp in
      let start = lock_fd s fd in
      let e = (ops mp).close_op (start.nodes fnode) (start.fds fd) in
      let done = affect start fd fnode e in
      let left = closed (lock_both done fnode mp) fd in
      if e.code == 0
      then (ok, unlock_fd (unlock_closed left fd mp_read) fd)
      else (from_fs e.code, unlock_fd done fd)
