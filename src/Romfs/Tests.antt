-- ===== src/Romfs/Tests.antt =====
-- A tree with a directory `a`, in which there is a file `bc`.
use dreamos_cversion.Base.{ℕ, ◌≤◌, ◌≡◌, refl, none, some, List, [], ◌∷◌, arith, take, drop}
use dreamos_cversion.Romfs.Reads.{total, seek_and_read, romfs_open-seek_and_read}
use dreamos_cversion.Romfs.Lookup.{romfs_lookup-walk}
use dreamos_cversion.Romfs.Files.{Fd, romfs_open, done}
use dreamos_cversion.Romfs.Walk.{walk, IsTree}
use dreamos_cversion.Romfs.{
  type_regular, type_directory, Dirent, romfs_lookup, dirent, bytes, entries, nil, cons,
}

abbrev file_bc : Dirent
file_bc = dirent type_regular (98 ∷ 99 ∷ []) (bytes (10 ∷ 20 ∷ 30 ∷ [])) 3

abbrev some_root : Dirent
some_root =
    dirent type_directory []
      (entries (cons (dirent type_directory (97 ∷ []) (entries (cons file_bc nil)) 1) nil)) 1

some_root-IsTree : IsTree some_root
some_root-IsTree = (refl, refl, ((refl, refl, ((refl, refl), tt)), tt))

abbrev names_bc : List (List ℕ)
names_bc = (97 ∷ []) ∷ (98 ∷ 99 ∷ []) ∷ []

romfs_lookup-walk_example :
    romfs_lookup 0 some_root (47 ∷ 97 ∷ 47 ∷ 98 ∷ 99 ∷ []) ≡ some (some file_bc)
unfolding walk
romfs_lookup-walk_example = romfs_lookup-walk some_root names_bc some_root-IsTree refl refl refl

abbrev some_fd : Fd
some_fd = record {
  fnode = record {
    path = 47 ∷ 97 ∷ 47 ∷ 98 ∷ 99 ∷ [];
    type = 0;
    size = 0;
    subpath_offset = 0;
    root_dirent = some_root;
    refcnt = 0;
    priv_data = none;
  };
  open_flag = 0;
  pos = 0;
}

romfs_open-seek_and_read_example :
    (fd' : Fd) × (romfs_open some_fd ≡ some (done fd'))
    × ((offset : ℕ) (sizes : List ℕ)
        → offset ≤ 3
        → seek_and_read fd' offset sizes
          ≡ some (take (total sizes) (drop offset (10 ∷ 20 ∷ 30 ∷ []))))
unfolding walk
romfs_open-seek_and_read_example =
    romfs_open-seek_and_read some_fd names_bc (98 ∷ 99 ∷ []) (10 ∷ 20 ∷ 30 ∷ []) 3 some_root-IsTree
      refl refl refl refl (omega arith) refl refl refl refl refl
