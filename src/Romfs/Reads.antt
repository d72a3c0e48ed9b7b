-- ===== src/Romfs/Reads.antt =====
-- Reading a file of a romfs.
use dreamos_cversion.Base.{
  ℕ, zero, suc, ◌+◌, ◌-◌, ◌<◌, ◌≤◌, ◌≡◌, refl, sym, ap, subst, ◌∙◌, inl, inr, true, false, Option,
  none, some, List, [], ◌∷◌, ◌++◌, arith, ltb, if◌then◌else◌, Bool-cases, length, take, drop,
  replicate, length-replicate, ◌>>=◌, length-drop, take_all, take_add, drop_add, take_front,
  length-take,
}
use dreamos_cversion.Word.{sub_size, add_size, size_mod}
use dreamos_cversion.Str.Blocks.{memcpy-eq}
use dreamos_cversion.Str.Order.{is_string}
use dreamos_cversion.Str.{memcpy}
use dreamos_cversion.Romfs.Lookup.{checked, romfs_lookup-walk, walk-IsTree}
use dreamos_cversion.Romfs.Files.{
  Fd, Reply, flag_directory, writing_flags, has_flag, romfs_open, romfs_read, romfs_lseek, done,
  failed,
}
use dreamos_cversion.Romfs.Walk.{walk, IsTree, all_components, path_of}
use dreamos_cversion.Romfs.{
  type_regular, type_directory, Dirent, type_of, size_of, check_dirent, romfs_lookup, dirent, bytes,
}

-- The descriptor is on a file with these bytes, at a position up to their end.
pub record IsOpen (b : List ℕ) (fd : Fd) : Type 0 where
  pub name : List ℕ
  pub has_bytes : fd.fnode.priv_data ≡ some (dirent type_regular name (bytes b) (length b))
  pub sized : fd.fnode.size ≡ length b
  pub inside : fd.pos ≤ length b
  pub small : length b < size_mod

-- What a call of romfs_read with a buffer of `size` bytes puts there, and the descriptor.
abbrev read_one : Fd → (size : ℕ) → Option (List ℕ × Fd)
read_one fd size = romfs_read fd (replicate size 0) size >>= λ r. elim r [
  | failed e ↦ none
  | done (n, fd', buf) ↦ some (take n buf, fd')
]

-- Calls of romfs_read one after the other, and what they read together.
unfoldable pub reads : Fd → (sizes : List ℕ) → Option (List ℕ × Fd)
unfolding romfs_read
reads fd [] = some ([], fd)
reads fd (size ∷ sizes) =
    read_one fd size >>= λ r. reads r.1 sizes >>= λ rest. some (r.0 ++ rest.0, rest.1)

abbrev pub total : List ℕ → ℕ
total [] = 0
total (size ∷ sizes) = size + total sizes

module _ (b : List ℕ) (fd : Fd) (opened : IsOpen b fd) where
  abbrev got : ℕ → ℕ
  got size = if ltb (length b - fd.pos) size then length b - fd.pos else size

  abbrev moved : ℕ → Fd
  moved n = record fd { pos = fd.pos + n }

  -- Copying is what memcpy does, also when nothing is copied.
  copied :
      (buf : List ℕ) (n : ℕ)
      → n ≤ length buf
      → n ≤ length b - fd.pos
      → (if ltb 0 n then memcpy buf (drop fd.pos b) n else some buf)
        ≡ some (take n (drop fd.pos b) ++ drop n buf)
  copied buf zero h k = refl
  copied buf (suc n) h k =
      ground (arith, memcpy-eq buf (drop fd.pos b) (suc n) h, length-drop fd.pos b)

  romfs_read-take :
      (buf : List ℕ) (size : ℕ)
      → size ≤ length buf
      → romfs_read fd buf size
        ≡ some (
            done
              (got size, moved (got size), take (got size) (drop fd.pos b) ++ drop (got size) buf))
  unfolding romfs_read
  romfs_read-take buf size h =
      let left : sub_size fd.fnode.size fd.pos ≡ length b - fd.pos =
        omega (arith, opened.sized, opened.inside, opened.small) in
      let next : add_size fd.pos (got size) ≡ fd.pos + got size =
        ground (arith, opened.inside, opened.small) in
      rw (opened.has_bytes, left, next)
        (rw (copied buf (got size) (ground arith) (ground arith)) refl)

  moved-IsOpen : (size : ℕ) → IsOpen b (moved (got size))
  moved-IsOpen size = record {
    name = opened.name;
    has_bytes = opened.has_bytes;
    sized = opened.sized;
    inside = ground (arith, opened.inside);
    small = opened.small;
  }

  read_one_lem :
      (size : ℕ) → read_one fd size ≡ some (take (got size) (drop fd.pos b), moved (got size))
  read_one_lem size =
      let source = length-take (got size) (drop fd.pos b) (ground (arith, length-drop fd.pos b)) in
      rw
        (
          romfs_read-take (replicate size 0) size (omega (arith, length-replicate {A = ℕ} size 0)),
          take_front (got size) (take (got size) (drop fd.pos b))
              (drop (got size) (replicate size 0)) source,
        )
        refl

  -- Past the end there is nothing to take.
  got_all :
      (size more : ℕ) → take (got size + more) (drop fd.pos b) ≡ take (size + more) (drop fd.pos b)
  got_all size more = elim (Bool-cases (ltb (length b - fd.pos) size)) [
    | inl past ↦
        let len = length-drop fd.pos b in
        take_all (got size + more) (drop fd.pos b) (ground (arith, len))
        ∙ sym (take_all (size + more) (drop fd.pos b) (ground (arith, len)))
    | inr within ↦ rw within refl
  ]

  got_more :
      (size more : ℕ)
      → take (got size) (drop fd.pos b) ++ take more (drop (fd.pos + got size) b)
        ≡ take (size + more) (drop fd.pos b)
  got_more size more =
      let later = drop_add fd.pos (got size) (fd.pos + got size) b refl in
      ap (λ r. take (got size) (drop fd.pos b) ++ take more r) (sym later)
      ∙ sym (take_add (got size) more (got size + more) (drop fd.pos b) refl)
      ∙ got_all size more

-- Calls of romfs_read return what they would return together.
pub reads-take :
    (sizes : List ℕ) (b : List ℕ) (fd : Fd)
    → IsOpen b fd
    → (fd' : Fd) × (reads fd sizes ≡ some (take (total sizes) (drop fd.pos b), fd')) × IsOpen b fd'
unfolding reads
reads-take [] b fd opened = (fd, refl, opened)
reads-take (size ∷ sizes) b fd opened =
    let (fd', e, ok) =
      reads-take sizes b (moved b fd opened (got b fd opened size))
        (moved-IsOpen b fd opened size) in
    (fd', rw (read_one_lem b fd opened size, e, got_more b fd opened size (total sizes)) refl, ok)

abbrev pub read_from : Reply Fd → (sizes : List ℕ) → Option (List ℕ)
read_from (failed e) sizes = none
read_from (done fd) sizes = reads fd sizes >>= λ r. some r.0

-- Seeking, then reading.
abbrev pub seek_and_read : Fd → (offset : ℕ) → (sizes : List ℕ) → Option (List ℕ)
seek_and_read fd offset sizes = read_from (romfs_lseek fd offset) sizes

seeks :
    (b : List ℕ) (fd : Fd) (offset : ℕ)
    → IsOpen b fd
    → offset ≤ length b
    → romfs_lseek fd offset ≡ done (record fd { pos = offset })
unfolding romfs_lseek
seeks b fd offset o h = ground (arith, o.sized)

seek_and_read-take :
    (b : List ℕ) (fd : Fd) (offset : ℕ) (sizes : List ℕ)
    → IsOpen b fd
    → offset ≤ length b
    → seek_and_read fd offset sizes ≡ some (take (total sizes) (drop offset b))
seek_and_read-take b fd offset sizes o h =
    let at : Fd = record fd { pos = offset } in
    let at_open : IsOpen b at = record {
      name = o.name;
      has_bytes = o.has_bytes;
      sized = o.sized;
      inside = h;
      small = o.small;
    } in
    let (fd', e, _) = reads-take sizes b at at_open in
    ap (λ r. read_from r sizes) (seeks b fd offset o h)
    ∙ ap (λ r. r >>= λ (q : List ℕ × Fd). some q.0) e

-- The descriptor that romfs_open leaves for a file.
abbrev on_file : Fd → Dirent → Fd
on_file fd d = record fd {
  fnode = record (fd.fnode) { type = type_regular; size = size_of d; priv_data = some d };
  pos = 0;
}

opens :
    (fd : Fd) (d : Dirent)
    → romfs_lookup fd.fnode.subpath_offset fd.fnode.root_dirent fd.fnode.path ≡ some (some d)
    → check_dirent fd.fnode.root_dirent ≡ true
    → type_of d ≡ type_regular
    → fd.fnode.refcnt ≡ 0
    → has_flag fd.open_flag writing_flags ≡ false
    → has_flag fd.open_flag flag_directory ≡ false
    → romfs_open fd ≡ some (done (on_file fd d))
unfolding romfs_open
opens fd d found c t r w f = rw (w, r, c, found) (ground arith)

-- If such a tree has a regular file, of less than 2 ^ 64 bytes, at the path of a node that is not
-- open yet, with subpath_offset 0, and the flags ask neither for writing nor for a directory,
-- then romfs_open succeeds, and from then on romfs_lseek to any position up to the end of the
-- file and any calls of romfs_read, with buffers of the sizes asked for, give together the bytes
-- of the file from that position on, as many as asked for or up to the end.
pub romfs_open-seek_and_read :
    (fd : Fd) (names : List (List ℕ)) (name b : List ℕ) (size : ℕ)
    → IsTree fd.fnode.root_dirent
    → type_of fd.fnode.root_dirent ≡ type_directory
    → all_components names ≡ true
    → is_string (path_of names) ≡ true
    → walk fd.fnode.root_dirent names ≡ some (dirent type_regular name (bytes b) size)
    → length b < size_mod
    → fd.fnode.path ≡ path_of names
    → fd.fnode.subpath_offset ≡ 0
    → fd.fnode.refcnt ≡ 0
    → has_flag fd.open_flag writing_flags ≡ false
    → has_flag fd.open_flag flag_directory ≡ false
    → (fd' : Fd) × (romfs_open fd ≡ some (done fd'))
      × ((offset : ℕ) (sizes : List ℕ)
          → offset ≤ length b
          → seek_and_read fd' offset sizes ≡ some (take (total sizes) (drop offset b)))
romfs_open-seek_and_read fd names name b size tree isdir ok str found small p o r w f =
    let d = dirent type_regular name (bytes b) size in
    let (_, sized) = walk-IsTree names fd.fnode.root_dirent d tree found in
    let looked =
      subst (λ k. romfs_lookup k fd.fnode.root_dirent fd.fnode.path ≡ some (some d)) (sym o)
        (subst (λ q. romfs_lookup 0 fd.fnode.root_dirent q ≡ some (some d)) (sym p)
          (romfs_lookup-walk fd.fnode.root_dirent names tree isdir ok str
            ∙ ap (λ q. some q) found)) in
    let is_open : IsOpen b (on_file fd d) = record {
      name = name;
      has_bytes = ap (λ n. some (dirent type_regular name (bytes b) n)) sized;
      sized = sized;
      inside = omega arith;
      small = small;
    } in
    (
      on_file fd d,
      opens fd d looked (checked fd.fnode.root_dirent tree) refl r w f,
      λ offset sizes h. seek_and_read-take b (on_file fd d) offset sizes is_open h,
    )
