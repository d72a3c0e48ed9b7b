-- ===== src/Files/Reach.antt =====
-- The file manager under any sequence of openings and closings.
use dreamos_cversion.Base.{
  ℕ, suc, ◌-◌, ◌<◌, ◌≡◌, refl, sym, subst, ◌∙◌, inl, inr, Bool, true, false, none, some, List, [],
  arith, Option-cases, ℕ_discrete, length, has,
}
use dreamos_cversion.Word.{size_mod}
use dreamos_cversion.Vfs.Mounts.{Mount, find_mp_by_path}
use dreamos_cversion.Vfs.{normal, einval, normalize_path}
use dreamos_cversion.Files.Uses.{file_close-InCount, Calls-InCount}
use dreamos_cversion.Files.Settle.{refused, no_node, shared-InCount, fresh-InCount}
use dreamos_cversion.Files.Session.{
  Unlocked, Session, after_open, InCount, Step, Reachable, opens, closes, calls, begins, steps,
}
use dreamos_cversion.Files.Count.{fnode_find_lem}
use dreamos_cversion.Files.{
  FileOps, Files, FileErr, fnode_find, enter, leave, attach, open_node, open_at, file_open,
  no_memory, invalid, no_entry,
}

begins-InCount :
    (s : Files)
    → s.file_list ≡ []
    → ((m : ℕ) → s.open_file_cnt m ≡ 0)
    → Unlocked s
    → InCount (record { files = s; open_fds = []; starved = false })
begins-InCount s empty none_open u = record {
  counted = record {
    refs = λ n h. absurd (ground (arith, empty));
    used = λ n h. absurd (ground (arith, empty));
    points = λ f h. absurd (ground arith);
    listed_once = rw empty refl;
    open_once = refl;
    files_on = λ m. rw (empty, none_open m) refl;
    few = omega arith;
    few_files = rw empty (omega arith);
  };
  unlocked = λ h. u;
}

module _ (ops : (mp : ℕ) → FileOps) where
  module _ (t : Session) (i : InCount t) (fd : ℕ) (path : List ℕ) (open_flag new_node : ℕ)
      (out : has fd t.open_fds ≡ false) (unused : has new_node t.files.file_list ≡ false)
      (few : suc (length t.open_fds) < size_mod)
      (few_files : suc (length t.files.file_list) < size_mod) where
    open_at-InCount :
        (path_buf : List ℕ) (mp : ℕ)
        → InCount
            (after_open t fd (open_at ops (enter t.files) fd path open_flag new_node path_buf mp))
    open_at-InCount path_buf mp =
        let n = fnode_find t.files.nodes t.files.file_list path in
        elim (ℕ_discrete n 0) [
          | no found ↦
              let goes : open_at ops (enter t.files) fd path open_flag new_node path_buf mp
                  ≡ open_node ops (enter t.files) fd n open_flag mp false =
                ground arith in
              subst (λ r. InCount (after_open t fd r)) (sym goes)
                (shared-InCount ops t i fd out few few_files n open_flag mp
                  (fnode_find_lem t.files.nodes t.files.file_list path found))
          | yes z ↦ elim (ℕ_discrete new_node 0) [
            | yes no_room ↦
                let goes : open_at ops (enter t.files) fd path open_flag new_node path_buf mp ≡ (
                  no_memory,
                  record (enter t.files) { vfs_lock = (enter t.files).vfs_lock - 1 },
                ) =
                  ground arith in
                subst (λ r. InCount (after_open t fd r)) (sym goes)
                  (no_node ops t i fd out few few_files)
            | no there ↦
                let goes : open_at ops (enter t.files) fd path open_flag new_node path_buf mp
                    ≡ open_node ops (attach (enter t.files) new_node path_buf mp) fd new_node
                        open_flag mp true =
                  ground arith in
                subst (λ r. InCount (after_open t fd r)) (sym goes)
                  (fresh-InCount ops t i fd out few few_files new_node open_flag mp path_buf unused)
          ]
        ]

    some_eq :
        (r : FileErr × Files) {r' : FileErr × Files}
        → some r ≡ some r'
        → InCount (after_open t fd r)
        → InCount (after_open t fd r')
    some_eq r {r'} e h =
        subst (λ k. InCount (after_open t fd k)) (let both : some r ≡ some r' = e in cc) h

    -- os_file_open when it has normalised the path.
    found-InCount :
        (path_buf : List ℕ) (r : FileErr × Files)
        → normalize_path path ≡ some (normal path_buf)
        → file_open ops t.files fd path open_flag true new_node ≡ some r
        → InCount (after_open t fd r)
    unfolding file_open
    found-InCount path_buf r norm e =
        elim (Option-cases (find_mp_by_path t.files.mount_list path_buf)) [
          | inl lost ↦ absurd (let bad : none ≡ some r = sym (rw (norm, lost) refl) ∙ e in cc)
          | inr (found, f) ↦
              elim found
                  as (λ o.
                    find_mp_by_path t.files.mount_list path_buf ≡ some o
                    → InCount (after_open t fd r)) [
                      | none ↦ λ g.
                          some_eq (no_entry, leave (enter t.files)) (sym (rw (norm, g) refl) ∙ e)
                            (refused ops t i fd out few few_files no_entry refl)
                      | some mp ↦ λ g.
                          some_eq
                            (open_at ops (enter t.files) fd path open_flag new_node path_buf mp)
                            (sym (rw (norm, g) refl) ∙ e) (open_at-InCount path_buf mp)
                    ]
                f
        ]

    file_open-InCount :
        (room : Bool) (r : FileErr × Files)
        → file_open ops t.files fd path open_flag room new_node ≡ some r
        → InCount (after_open t fd r)
    unfolding file_open
    file_open-InCount false r e =
        some_eq (no_memory, leave (enter t.files)) e
          (refused ops t i fd out few few_files no_memory refl)
    file_open-InCount true r e = elim (Option-cases (normalize_path path)) [
      | inl lost ↦ absurd (let bad : none ≡ some r = sym (rw lost refl) ∙ e in cc)
      | inr (n, norm) ↦
          elim n as (λ k. normalize_path path ≡ some k → InCount (after_open t fd r)) [
            | einval ↦ λ g.
                some_eq (invalid, leave (enter t.files)) (sym (rw g refl) ∙ e)
                  (refused ops t i fd out few few_files invalid refl)
            | normal path_buf ↦ λ g. found-InCount path_buf r g e
          ]
            norm
    ]

Step-InCount : {t t' : Session} → Step t t' → InCount t → InCount t'
Step-InCount {t} (opens ops fd path open_flag room new_node r out unused few few_files e) i =
    file_open-InCount ops t i fd path open_flag new_node out unused few few_files room r e
Step-InCount {t} (closes ops fd mp_read inside kept) i =
    file_close-InCount ops t i fd mp_read inside kept
Step-InCount {t} (calls ops fd r inside c) i = Calls-InCount ops t i fd r inside c

-- In every state that is reached from a file manager without files by calls of os_file_open of a
-- descriptor that is not open, os_memory_alloc giving OS_NULL or an address no node has, and of
-- os_file_close and the other operations on open descriptors, each returning, whatever the
-- operations of the file systems do in each call to the type, the size and the private data of
-- the node and to the position of the descriptor, with fewer than 2 ^ 64 files and open
-- descriptors, and a node that os_file_close has given back still having its mount point when the
-- mutex of that is given back: the reference count of a node in os_file_list is the number of
-- open descriptors on it and not 0; every open descriptor is on a node in the list; no node
-- stands in the list twice; the number of open files of a mount point is the number of its nodes
-- in the list; and the mutexes of the file manager, the VFS and the mount points are free, unless
-- an os_file_open has returned -OS_ERR_ENOMEM.
pub Reachable-InCount : {mount_list : List Mount} {t : Session} → Reachable mount_list t → InCount t
Reachable-InCount (begins s mounts empty none_open u) = begins-InCount s empty none_open u
Reachable-InCount (steps r st) = Step-InCount st (Reachable-InCount r)
