-- ===== src/Files/Ops.antt =====
-- os_file_ioctl, os_file_read, os_file_write, os_file_flush, os_file_lseek and os_file_readdir.
use dreamos_cversion.Base.{ℕ, ◌+◌, ◌-◌, bit_or, not, if◌then◌else◌}
use dreamos_cversion.Romfs.Files.{has_flag, flag_wronly, flag_rdwr, flag_directory}
use dreamos_cversion.Files.{
  FileNode, Descriptor, Effect, FileOps, Files, FileErr, put, affect, no_access, not_permitted,
  from_fs,
}

-- A call with the mutexes of the descriptor and the node held.
abbrev pub hold : Files → (fd fnode : ℕ) → Files
hold s fd fnode = record s {
  fd_lock = put s.fd_lock fd (s.fd_lock fd + 1);
  node_lock = put s.node_lock fnode (s.node_lock fnode + 1);
}

abbrev pub let_go : Files → (fd fnode : ℕ) → Files
let_go s fd fnode = record s {
  fd_lock = put s.fd_lock fd (s.fd_lock fd - 1);
  node_lock = put s.node_lock fnode (s.node_lock fnode - 1);
}

abbrev pub locked : Files → (fd : ℕ) → (Files → FileErr × Files) → FileErr × Files
locked s fd body =
    let fnode = (s.fds fd).fnode in let r = body (hold s fd fnode) in (r.0, let_go r.1 fd fnode)

module _ (ops : (mp : ℕ) → FileOps) where
  -- An operation that is called through the descriptor.
  abbrev pub through :
      Files → (fd : ℕ) → (FileOps → FileNode → Descriptor → Effect) → FileErr × Files
  through s fd op =
      let fnode = (s.fds fd).fnode in
      let e = op (ops (s.nodes fnode).mp) (s.nodes fnode) (s.fds fd) in
      (from_fs e.code, affect s fd fnode e)

  -- os_file_ioctl, os_file_lseek
  abbrev pub file_ioctl : Files → (fd cmd arg : ℕ) → FileErr × Files
  file_ioctl s fd cmd arg = locked s fd (λ h. through h fd (λ o. o.ioctl_op cmd arg))

  abbrev pub file_lseek : Files → (fd offset : ℕ) → FileErr × Files
  file_lseek s fd offset = locked s fd (λ h. through h fd (λ o. o.lseek_op offset))

  -- os_file_read
  abbrev pub file_read : Files → (fd buf size : ℕ) → FileErr × Files
  file_read s fd buf size = locked s fd (λ h.
      if has_flag (h.fds fd).open_flag flag_wronly
      then (no_access, h)
      else through h fd (λ o. o.read_op buf size))

  -- os_file_write, os_file_flush
  abbrev pub file_write : Files → (fd buf size : ℕ) → FileErr × Files
  file_write s fd buf size = locked s fd (λ h.
      if not (has_flag (h.fds fd).open_flag (bit_or flag_wronly flag_rdwr))
      then (no_access, h)
      else through h fd (λ o. o.write_op buf size))

  abbrev pub file_flush : Files → (fd : ℕ) → FileErr × Files
  file_flush s fd = locked s fd (λ h.
      if not (has_flag (h.fds fd).open_flag (bit_or flag_wronly flag_rdwr))
      then (no_access, h)
      else through h fd (λ o. o.flush_op))

  -- os_file_readdir
  abbrev pub file_readdir : Files → (fd entry count : ℕ) → FileErr × Files
  file_readdir s fd entry count = locked s fd (λ h.
      if has_flag (h.fds fd).open_flag flag_wronly
      then (no_access, h)
      else if not (has_flag (h.fds fd).open_flag flag_directory)
      then (not_permitted, h)
      else through h fd (λ o. o.readdir_op entry count))
