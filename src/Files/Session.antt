-- ===== src/Files/Session.antt =====
-- Sequences of openings and closings.
use dreamos_cversion.Base.{
  ℕ, suc, ◌<◌, ◌≡◌, Bool, true, false, ◌||◌, some, List, [], ◌∷◌, if◌then◌else◌, length, has,
  without,
}
use dreamos_cversion.Word.{size_mod}
use dreamos_cversion.Vfs.Mounts.{Mount}
use dreamos_cversion.Files.Count.{Counted}
use dreamos_cversion.Files.Ops.{
  file_ioctl, file_lseek, file_read, file_write, file_flush, file_readdir,
}
use dreamos_cversion.Files.{FileOps, Files, FileErr, file_open, file_close, ok, no_memory}

abbrev pub is_ok : FileErr → Bool
is_ok ok = true
is_ok _ = false

abbrev pub is_no_memory : FileErr → Bool
is_no_memory no_memory = true
is_no_memory _ = false

-- None of the mutexes that all share is held.
pub record Unlocked (s : Files) : Type 0 where
  pub file_free : s.file_lock ≡ 0
  pub vfs_free : s.vfs_lock ≡ 0
  pub mp_free : (m : ℕ) → s.mp_lock m ≡ 0

-- The file manager, the descriptors that are open, and whether an opening ran out of memory.
pub record Session : Type 0 where
  pub files : Files
  pub open_fds : List ℕ
  pub starved : Bool

abbrev pub after_open : Session → (fd : ℕ) → FileErr × Files → Session
after_open t fd r = record {
  files = r.1;
  open_fds = if is_ok r.0 then fd ∷ t.open_fds else t.open_fds;
  starved = t.starved || is_no_memory r.0;
}

abbrev pub after_close : Session → (fd : ℕ) → FileErr × Files → Session
after_close t fd r = record {
  files = r.1;
  open_fds = if is_ok r.0 then without fd t.open_fds else t.open_fds;
  starved = t.starved;
}

pub record InCount (t : Session) : Type 0 where
  pub counted : Counted t.files t.open_fds
  pub unlocked : t.starved ≡ false → Unlocked t.files

-- A call on a descriptor other than opening and closing.
pub data Calls (ops : (mp : ℕ) → FileOps) (s : Files) (fd : ℕ) (r : FileErr × Files) : Type 0 where
  ioctls : (cmd arg : ℕ) → r ≡ file_ioctl ops s fd cmd arg → Calls ops s fd r
  seeks : (offset : ℕ) → r ≡ file_lseek ops s fd offset → Calls ops s fd r
  reads : (buf size : ℕ) → r ≡ file_read ops s fd buf size → Calls ops s fd r
  writes : (buf size : ℕ) → r ≡ file_write ops s fd buf size → Calls ops s fd r
  flushes : r ≡ file_flush ops s fd → Calls ops s fd r
  lists : (entry count : ℕ) → r ≡ file_readdir ops s fd entry count → Calls ops s fd r

-- A call that returns, in which the operations of the file systems do what `ops` says: a descriptor that
-- is not open is opened, os_memory_alloc giving an address that no node has; or one that is open is
-- closed, a node that is given back still having its mount point when that is unlocked; or it is used.
pub data Step (t : Session) : Session → Type 0 where
  opens :
      (ops : (mp : ℕ) → FileOps) (fd : ℕ) (path : List ℕ) (open_flag : ℕ) (room : Bool)
      (new_node : ℕ) (r : FileErr × Files)
      → has fd t.open_fds ≡ false
      → has new_node t.files.file_list ≡ false
      → suc (length t.open_fds) < size_mod
      → suc (length t.files.file_list) < size_mod
      → file_open ops t.files fd path open_flag room new_node ≡ some r
      → Step t (after_open t fd r)
  closes :
      (ops : (mp : ℕ) → FileOps) (fd mp_read : ℕ)
      → has fd t.open_fds ≡ true
      → mp_read ≡ (t.files.nodes (t.files.fds fd).fnode).mp
      → Step t (after_close t fd (file_close ops t.files fd mp_read))
  calls :
      (ops : (mp : ℕ) → FileOps) (fd : ℕ) (r : FileErr × Files)
      → has fd t.open_fds ≡ true
      → Calls ops t.files fd r
      → Step t (record t { files = r.1 })

pub data Reachable (mount_list : List Mount) : Session → Type 0 where
  begins :
      (s : Files)
      → s.mount_list ≡ mount_list
      → s.file_list ≡ []
      → ((m : ℕ) → s.open_file_cnt m ≡ 0)
      → Unlocked s
      → Reachable mount_list (record { files = s; open_fds = []; starved = false })
  steps : {t t' : Session} → Reachable mount_list t → Step t t' → Reachable mount_list t'
