-- ===== src/Romfs/Files.antt =====
-- src/vfs/os_vfs_romfs.c: mounting, opening, reading, seeking and listing.
use dreamos_cversion.Base.{
  ℕ, zero, suc, bit_and, bit_or, Bool, ◌&&◌, not, Option, none, some, List, [], ◌∷◌, ltb, leb, ◌==◌,
  if◌then◌else◌, drop, ◌>>=◌,
}
use dreamos_cversion.Vfs.{path_max}
use dreamos_cversion.Word.{sub_size, add_size}
use dreamos_cversion.Str.{strlen, memcpy}
use dreamos_cversion.Romfs.{
  type_regular, type_directory, Dirent, Data, Dirents, type_of, name_of, content_of, size_of,
  check_dirent, romfs_lookup, null, bytes, entries, nil, cons,
}

-- os_file_node_t, with what romfs uses of its mount point, and os_file_fd_t
pub record Fnode : Type 0 where
  pub path : List ℕ
  pub type : ℕ
  pub size : ℕ
  pub subpath_offset : ℕ
  pub root_dirent : Dirent
  pub refcnt : ℕ
  pub priv_data : Option Dirent

pub record Fd : Type 0 where
  pub fnode : Fnode
  pub open_flag : ℕ
  pub pos : ℕ

-- -OS_ERR_EIO and so on
pub data RomfsErr : Type 0 where
  eio enoent einval eisdir enotdir : RomfsErr

-- What a call returns: a value that is not negative, or an error code.
pub data Reply (A : Type 0) : Type 0 where
  done : A → Reply A
  failed : RomfsErr → Reply A

-- OS_FILE_FLAG_WRONLY, _RDWR, _CREAT, _TRUNC, _APPEND and _DIRECTORY
abbrev pub flag_wronly : ℕ
flag_wronly = 1

abbrev pub flag_rdwr : ℕ
flag_rdwr = 2

abbrev pub flag_creat : ℕ
flag_creat = 64

abbrev pub flag_trunc : ℕ
flag_trunc = 512

abbrev pub flag_append : ℕ
flag_append = 1024

abbrev pub flag_directory : ℕ
flag_directory = 65536

abbrev pub writing_flags : ℕ
writing_flags =
    bit_or (bit_or (bit_or (bit_or flag_creat flag_wronly) flag_append) flag_trunc) flag_rdwr

abbrev pub has_flag : ℕ → ℕ → Bool
has_flag open_flag flag = not (bit_and open_flag flag == 0)

-- romfs_mount: what mp -> priv_data is set to.
abbrev pub romfs_mount : (priv_data : Option Dirent) → Reply Dirent
romfs_mount none = failed eio
romfs_mount (some d) = done d

-- romfs_stat: the type and the size.
unfoldable pub romfs_stat :
    (subpath_offset : ℕ) → (root_dirent : Dirent) → (path : List ℕ) → Option (Reply (ℕ × ℕ))
romfs_stat subpath_offset root_dirent path =
    if not (check_dirent root_dirent)
    then some (failed eio)
    else (romfs_lookup subpath_offset root_dirent path >>= λ found. elim found [
      | none ↦ some (failed enoent)
      | some d ↦ some (done (type_of d, size_of d))
    ])

-- romfs_open when it has found the entry.
abbrev pub open_dirent : Fd → Dirent → Reply Fd
open_dirent fd d =
    let isdir = type_of d == type_directory in
    let fnode : Fnode = record (fd.fnode) {
      type = if isdir then type_directory else type_regular;
      size = size_of d;
      priv_data = some d;
    } in
    if isdir && not (has_flag fd.open_flag flag_directory)
    then failed eisdir
    else if not isdir && has_flag fd.open_flag flag_directory
    then failed enotdir
    else done (record fd { fnode = fnode; pos = 0 })

-- romfs_open of a node that is open already.
abbrev pub reopen : Fd → Reply Fd
reopen fd =
    let isdir = fd.fnode.type == type_directory in
    if isdir && not (has_flag fd.open_flag flag_directory)
    then failed eisdir
    else if not isdir && has_flag fd.open_flag flag_directory
    then failed enotdir
    else done (record fd { pos = 0 })

-- romfs_open
unfoldable pub romfs_open : Fd → Option (Reply Fd)
romfs_open fd =
    if has_flag fd.open_flag writing_flags
    then some (failed einval)
    else if leb 1 fd.fnode.refcnt
    then some (reopen fd)
    else if not (check_dirent fd.fnode.root_dirent)
    then some (failed eio)
    else (romfs_lookup fd.fnode.subpath_offset fd.fnode.root_dirent fd.fnode.path >>= λ found.
        elim found [ none ↦ some (failed enoent) | some d ↦ some (open_dirent fd d) ])

abbrev pub bytes_of : Data → Option (List ℕ)
bytes_of (bytes b) = some b
bytes_of _ = none

-- romfs_read: the number of bytes, the descriptor and the buffer. The number is returned as an os_err_t,
-- which is what it is for files below 2 ^ 63 bytes.
unfoldable pub romfs_read : Fd → (buf : List ℕ) → (size : ℕ) → Option (Reply (ℕ × Fd × List ℕ))
romfs_read fd buf size =
    let left = sub_size fd.fnode.size fd.pos in
    let n = if ltb left size then left else size in
    fd.fnode.priv_data >>= λ d.
    if not (check_dirent d)
    then some (failed eio)
    else ((if ltb 0 n
          then (bytes_of (content_of d) >>= λ b. memcpy buf (drop fd.pos b) n)
          else some buf)
        >>= λ buf'. some (done (n, record fd { pos = add_size fd.pos n }, buf')))

-- romfs_lseek
unfoldable pub romfs_lseek : Fd → (offset : ℕ) → Reply Fd
romfs_lseek fd offset =
    if leb offset fd.fnode.size then done (record fd { pos = offset }) else failed eio

abbrev pub entry_at : Dirents → ℕ → Option Dirent
entry_at nil i = none
entry_at (cons d ds) zero = some d
entry_at (cons d ds) (suc i) = entry_at ds i

-- The loop of romfs_readdir, for the entries that are still asked for; a name that does not fit
-- os_dirent_t gives `none`.
unfoldable pub readdir_loop : Dirents → Fd → (count : ℕ) → Option (List (ℕ × List ℕ) × Fd)
readdir_loop ds fd zero = some ([], fd)
readdir_loop ds fd (suc count) =
    let next = readdir_loop ds (record fd { pos = add_size fd.pos 1 }) count in
    if ltb fd.pos fd.fnode.size
    then (entry_at ds fd.pos >>= λ d.
        if ltb path_max (strlen (name_of d))
        then none
        else (next >>= λ r. some ((type_of d, name_of d) ∷ r.0, r.1)))
    else some ([], fd)

-- romfs_readdir: the entries that are written, and the descriptor.
unfoldable pub romfs_readdir : Fd → (count : ℕ) → Option (Reply (List (ℕ × List ℕ) × Fd))
romfs_readdir fd count = fd.fnode.priv_data >>= λ d.
    if not (check_dirent d)
    then some (failed eio)
    else if not (type_of d == type_directory)
    then none
    else if count == 0
    then some (failed einval)
    else elim (content_of d) [
      | null ↦ none
      | bytes b ↦ none
      | entries ds ↦ (readdir_loop ds fd count >>= λ r. some (done r))
    ]
