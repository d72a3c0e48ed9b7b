-- ===== src/Files/Uses.antt =====
-- os_file_close and the calls on an open descriptor, with their mutexes and the counts.
use dreamos_cversion.Base.{
  ℕ, ◌≡◌, inl, inr, bit_or, Bool, true, not, List, arith, ◌==◌, if◌then◌else◌, Bool-cases, has,
  without,
}
use dreamos_cversion.Romfs.Files.{has_flag, flag_wronly, flag_rdwr, flag_directory}
use dreamos_cversion.Files.Settle.{locks-Counted}
use dreamos_cversion.Files.Session.{
  Unlocked, Session, after_close, InCount, Calls, ioctls, seeks, reads, writes, flushes, lists,
}
use dreamos_cversion.Files.Close.{after-Counted, shut-Counted}
use dreamos_cversion.Files.Count.{Counted}
use dreamos_cversion.Files.Ops.{locked, hold, through}
use dreamos_cversion.Files.{
  FileNode, Descriptor, Effect, FileOps, Files, FileErr, affect, closed, lock_fd, lock_both,
  file_close, no_access, not_permitted,
}

-- os_file_close on its two branches.
pub file_close-InCount :
    (ops : (mp : ℕ) → FileOps) (t : Session) (i : InCount t) (fd mp_read : ℕ)
    → has fd t.open_fds ≡ true
    → mp_read ≡ (t.files.nodes (t.files.fds fd).fnode).mp
    → InCount (after_close t fd (file_close ops t.files fd mp_read))
unfolding file_close
file_close-InCount ops t i fd mp_read inside kept =
    let s = t.files in
    let fnode = (s.fds fd).fnode in
    let mp = (s.nodes fnode).mp in
    let e = (ops mp).close_op (s.nodes fnode) (s.fds fd) in
    let both : Files = lock_both (lock_fd s fd) fnode mp in
    let c : Counted both t.open_fds = locks-Counted s t.open_fds _ _ _ _ _ i.counted in
    let c1 : Counted (lock_fd s fd) t.open_fds = locks-Counted s t.open_fds _ _ _ _ _ i.counted in
    elim (Bool-cases (e.code == 0)) [
      | inl good ↦ rw good (record {
        counted =
            locks-Counted (closed (affect both fd fnode e) fd) (without fd t.open_fds) _ _ _ _ _
              (shut-Counted both t.open_fds fd e c inside);
        unlocked = λ h.
            let u = i.unlocked h in
            record {
              file_free = ground (arith, u.file_free);
              vfs_free = ground (arith, u.vfs_free);
              mp_free = λ m. ground (arith, u.mp_free m, kept);
            };
      })
      | inr bad ↦ rw bad (record {
        counted =
            locks-Counted (affect (lock_fd s fd) fd fnode e) t.open_fds _ _ _ _ _
              (after-Counted (lock_fd s fd) t.open_fds fd e c1 inside);
        unlocked = λ h.
            let u = i.unlocked h in
            record {
              file_free = omega (arith, u.file_free);
              vfs_free = u.vfs_free;
              mp_free = u.mp_free;
            };
      })
    ]

-- What a call does with the mutexes of its descriptor and node held keeps the counts and the others.
abbrev Keeps : List ℕ → (Files → FileErr × Files) → Type 0
Keeps open_fds body =
    (h : Files)
    → Counted h open_fds
    → Counted (body h).1 open_fds × (Unlocked h → Unlocked (body h).1)

locked-InCount :
    (t : Session) (i : InCount t) (fd : ℕ) (body : Files → FileErr × Files)
    → Keeps t.open_fds body
    → InCount (record t { files = (locked t.files fd body).1 })
locked-InCount t i fd body keeps =
    let held = hold t.files fd (t.files.fds fd).fnode in
    let (c, unlocks) = keeps held (locks-Counted t.files t.open_fds _ _ _ _ _ i.counted) in
    record {
      counted = locks-Counted (body held).1 t.open_fds _ _ _ _ _ c;
      unlocked = λ h.
          let u = i.unlocked h in
          let w =
            unlocks
              (record { file_free = u.file_free; vfs_free = u.vfs_free; mp_free = u.mp_free }) in
          record { file_free = w.file_free; vfs_free = w.vfs_free; mp_free = w.mp_free };
    }

through-Keeps :
    (ops : (mp : ℕ) → FileOps) (open_fds : List ℕ) (fd : ℕ)
    (op : FileOps → FileNode → Descriptor → Effect)
    → has fd open_fds ≡ true
    → Keeps open_fds (λ h. through ops h fd op)
through-Keeps ops open_fds fd op inside h c =
    let e = op (ops (h.nodes (h.fds fd).fnode).mp) (h.nodes (h.fds fd).fnode) (h.fds fd) in
    (
      after-Counted h open_fds fd e c inside,
      λ u. record { file_free = u.file_free; vfs_free = u.vfs_free; mp_free = u.mp_free },
    )

-- A call that is refused, or goes through.
checked-Keeps :
    (open_fds : List ℕ) (refuses : Files → Bool) (err : FileErr) (body : Files → FileErr × Files)
    → Keeps open_fds body
    → Keeps open_fds (λ h. if refuses h then (err, h) else body h)
checked-Keeps open_fds refuses err body keeps h c = elim (Bool-cases (refuses h)) [
  | inl e ↦ rw e (c, λ u. u)
  | inr e ↦ rw e (keeps h c)
]

abbrev no_reading : Descriptor → Bool
no_reading d = has_flag d.open_flag flag_wronly

abbrev no_writing : Descriptor → Bool
no_writing d = not (has_flag d.open_flag (bit_or flag_wronly flag_rdwr))

abbrev no_listing : Descriptor → Bool
no_listing d = not (has_flag d.open_flag flag_directory)

module _ (ops : (mp : ℕ) → FileOps) (t : Session) (i : InCount t) (fd : ℕ)
    (inside : has fd t.open_fds ≡ true) where
  through-InCount :
      (op : FileOps → FileNode → Descriptor → Effect)
      → InCount (record t { files = (locked t.files fd (λ h. through ops h fd op)).1 })
  through-InCount op =
      locked-InCount t i fd (λ h. through ops h fd op) (through-Keeps ops t.open_fds fd op inside)

  checked-InCount :
      (refuses : Descriptor → Bool) (err : FileErr) (op : FileOps → FileNode → Descriptor → Effect)
      → InCount (record t {
        files =
            (locked t.files fd
              (λ h. if refuses (h.fds fd) then (err, h) else through ops h fd op)).1;
      })
  checked-InCount refuses err op =
      locked-InCount t i fd (λ h. if refuses (h.fds fd) then (err, h) else through ops h fd op)
        (checked-Keeps t.open_fds (λ h. refuses (h.fds fd)) err (λ h. through ops h fd op)
          (through-Keeps ops t.open_fds fd op inside))

pub Calls-InCount :
    (ops : (mp : ℕ) → FileOps) (t : Session) (i : InCount t) (fd : ℕ) (r : FileErr × Files)
    → has fd t.open_fds ≡ true
    → Calls ops t.files fd r
    → InCount (record t { files = r.1 })
Calls-InCount ops t i fd r inside (ioctls cmd arg e) =
    rw e (through-InCount ops t i fd inside (λ o. o.ioctl_op cmd arg))
Calls-InCount ops t i fd r inside (seeks offset e) =
    rw e (through-InCount ops t i fd inside (λ o. o.lseek_op offset))
Calls-InCount ops t i fd r inside (reads buf size e) =
    rw e (checked-InCount ops t i fd inside no_reading no_access (λ o. o.read_op buf size))
Calls-InCount ops t i fd r inside (writes buf size e) =
    rw e (checked-InCount ops t i fd inside no_writing no_access (λ o. o.write_op buf size))
Calls-InCount ops t i fd r inside (flushes e) =
    rw e (checked-InCount ops t i fd inside no_writing no_access (λ o. o.flush_op))
Calls-InCount ops t i fd r inside (lists entry count e) =
    let op : FileOps → FileNode → Descriptor → Effect = λ o. o.readdir_op entry count in
    let listing : Files → FileErr × Files =
      λ h. if no_listing (h.fds fd) then (not_permitted, h) else through ops h fd op in
    rw e (
      locked-InCount t i fd (λ h. if no_reading (h.fds fd) then (no_access, h) else listing h)
        (checked-Keeps t.open_fds (λ h. no_reading (h.fds fd)) no_access listing
          (checked-Keeps t.open_fds (λ h. no_listing (h.fds fd)) not_permitted
            (λ h. through ops h fd op) (through-Keeps ops t.open_fds fd op inside))))
