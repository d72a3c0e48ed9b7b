-- ===== src/Files/Tests.antt =====
-- A file is opened twice and closed once, on a root file system whose operations succeed.
use dreamos_cversion.Base.{ℕ, ◌≡◌, refl, true, false, some, List, [], ◌∷◌, arith}
use dreamos_cversion.Vfs.Mounts.{Mount, find_mp_by_path, find_mp_loop}
use dreamos_cversion.Vfs.{normalize_path, normalize_loop, parent, finish, string_of}
use dreamos_cversion.Str.{strcmp, memcmp, strlen}
use dreamos_cversion.Files.Reach.{Reachable-InCount}
use dreamos_cversion.Files.Session.{
  Session, after_open, after_close, InCount, Reachable, opens, closes, begins, steps,
}
use dreamos_cversion.Files.{
  FileNode, Descriptor, Effect, FileOps, Files, FileErr, fnode_find, enter, open_at, file_open,
  file_close, no_memory,
}

abbrev succeeds : FileNode → Descriptor → Effect
succeeds n d = record { code = 0; type = 0; size = 3; priv_data = 7; pos = 0 }

abbrev some_ops : (mp : ℕ) → FileOps
some_ops mp = record {
  open_op = succeeds;
  close_op = succeeds;
  read_op = λ buf size. succeeds;
  write_op = λ buf size. succeeds;
  flush_op = succeeds;
  readdir_op = λ entry count. succeeds;
  lseek_op = λ offset. succeeds;
  ioctl_op = λ cmd arg. succeeds;
}

abbrev some_mounts : List Mount
some_mounts =
    record { path = 47 ∷ []; fs = 0; subpath_offset = 0; mp_cnt = 0; open_file_cnt = 0 } ∷ []

abbrev some_files : Files
some_files = record {
  nodes = λ n. record { path = []; type = 0; size = 0; mp = 0; refcnt = 0; priv_data = 0 };
  fds = λ f. record { fnode = 0; open_flag = 0; pos = 0 };
  file_list = [];
  mount_list = some_mounts;
  open_file_cnt = λ m. 0;
  file_lock = 0;
  vfs_lock = 0;
  mp_lock = λ m. 0;
  node_lock = λ n. 0;
  fd_lock = λ f. 0;
}

-- `/a`
abbrev path_a : List ℕ
path_a = 47 ∷ 97 ∷ []

abbrev session0 : Session
session0 = record { files = some_files; open_fds = []; starved = false }

abbrev result1 : FileErr × Files
result1 = open_at some_ops (enter some_files) 1 path_a 0 100 path_a 0

abbrev session1 : Session
unfolding fnode_find
session1 = after_open session0 1 result1

opens1 : file_open some_ops some_files 1 path_a 0 true 100 ≡ some result1
unfolding file_open fnode_find normalize_path normalize_loop find_mp_by_path find_mp_loop memcmp
    strlen
opens1 = refl

abbrev result2 : FileErr × Files
unfolding session1 fnode_find strcmp
result2 = open_at some_ops (enter session1.files) 2 path_a 0 200 path_a 0

abbrev session2 : Session
unfolding result2
session2 = after_open session1 2 result2

-- The second opening shares the node of the first.
shared_node : (session2.files.file_list ≡ 100 ∷ []) × ((session2.files.nodes 100).refcnt ≡ 2)
unfolding session2 result2 session1 fnode_find strcmp
shared_node = (refl, refl)

abbrev session3 : Session
unfolding session2 file_close
session3 = after_close session2 1 (file_close some_ops session2.files 1 0)

reach3 : Reachable some_mounts session3
unfolding session3 session2 result2 session1 fnode_find strcmp file_close file_open normalize_path
    normalize_loop find_mp_by_path find_mp_loop memcmp strlen
reach3 =
    steps
      (steps
        (steps
          (begins some_files refl refl (λ m. refl)
            (record { file_free = refl; vfs_free = refl; mp_free = λ m. refl }))
          (opens some_ops 1 path_a 0 true 100 result1 refl refl (omega arith) (omega arith) opens1))
        (opens some_ops 2 path_a 0 true 200 result2 refl refl (omega arith) (omega arith) refl))
      (closes some_ops 1 0 refl refl)

Reachable-InCount_example : InCount session3
Reachable-InCount_example = Reachable-InCount reach3

-- Under another spelling of the path, the file gets a second node with the same path.
abbrev spelt : FileErr × Files
unfolding session1 fnode_find strcmp
spelt = open_at some_ops (enter session1.files) 2 (47 ∷ 97 ∷ 47 ∷ []) 0 200 path_a 0

second_node :
    (file_open some_ops session1.files 2 (47 ∷ 97 ∷ 47 ∷ []) 0 true 200 ≡ some spelt)
    × (spelt.1.file_list ≡ 100 ∷ 200 ∷ [])
    × ((spelt.1.nodes 200).path ≡ (spelt.1.nodes 100).path)
unfolding spelt session1 fnode_find strcmp file_open normalize_path normalize_loop find_mp_by_path
    find_mp_loop memcmp strlen parent finish string_of
second_node = (refl, refl, refl)

-- Without memory for a node, os_file_open leaves the mutex of the file manager held.
left_locked :
    (s : Files)
    → file_open some_ops some_files 1 path_a 0 true 0 ≡ some (no_memory, s)
    → s.file_lock ≡ 1
unfolding fnode_find file_open normalize_path normalize_loop find_mp_by_path find_mp_loop memcmp
    strlen
left_locked s e = cc
