-- ===== src/Files/Table/Fill.antt =====
-- os_file_fdid_create called again and again.
use dreamos_cversion.Base.{
  ℕ, zero, suc, ◌+◌, ◌<◌, ◌≤◌, ◌≡◌, ◌≢◌, refl, ap, ◌∙◌, true, not, Option, none, some, List, [],
  ◌∷◌, arith, ltb, Bool, ◌>>=◌, get_elem?, length,
}
use dreamos_cversion.Bitmap.{create_request}
use dreamos_cversion.Bitmap.Create.{create_overrun}
use dreamos_cversion.Files.Table.{
  FdTable, FdCreated, given, get_fd_by_fdid, fd_table_create, fdid_create, max_open_files,
}
use dreamos_cversion.Files.Table.Create.{
  InTable, Creates, full, failed, entered, is_free, fdid_create-Creates,
}

-- A call of os_file_fdid_create for each descriptor, with room in the hash map.
unfoldable pub create_fds : FdTable → (fds : List ℕ) → Option (List FdCreated × FdTable)
create_fds t [] = some ([], t)
create_fds t (fd ∷ fds) =
    fdid_create t fd true >>= λ p. create_fds p.1 fds >>= λ q. some (p.0 ∷ q.0, q.1)

-- The ids from `k` on, one for each descriptor.
abbrev pub given_from : (k : ℕ) → (fds : List ℕ) → List FdCreated
given_from k [] = []
given_from k (fd ∷ fds) = given k ∷ given_from (suc k) fds

-- The ids below `k` are taken, the others are free.
abbrev pub TakenBelow : FdTable → ℕ → Type 0
TakenBelow t k = (j : ℕ) → j < t.fd_bitmap.size → is_free t j ≡ not (ltb j k)

-- A descriptor takes the id `k`.
pub record Next (t : FdTable) (fd k : ℕ) (r : FdCreated) (t' : FdTable) : Type 0 where
  pub id : r ≡ given k
  pub same_size : t'.fd_bitmap.size ≡ t.fd_bitmap.size
  pub taken : TakenBelow t' (suc k)
  pub there : get_fd_by_fdid t' k ≡ some fd
  pub others : (j : ℕ) → j < k → get_fd_by_fdid t' j ≡ get_fd_by_fdid t j

Creates-Next :
    (t : FdTable) (fd k : ℕ) (r : FdCreated) (t' : FdTable)
    → TakenBelow t k
    → k < t.fd_bitmap.size
    → fd ≢ 0
    → Creates t fd true r t'
    → Next t fd k r t'
Creates-Next t fd k r t' below lt nz (full no_bit) =
    let taken = no_bit k lt in let free = below k lt in absurd (ground arith)
Creates-Next t fd k r t' below lt nz (failed fdid one z a b c d) = absurd (nz z)
Creates-Next t fd k r t' below lt nz (entered fdid inside one before some_fd frees gets l size) =
    let e : fdid ≡ k = ground (arith, below fdid inside, below k lt, before k) in
    record {
      id = ap given e;
      same_size = size;
      taken = λ j h. ground (arith, frees j, below j (omega arith));
      there = ground (arith, gets k);
      others = λ j h. ground (arith, gets j);
    }

-- After descriptors have taken the ids from `k` on.
pub record Filled (t : FdTable) (k : ℕ) (fds : List ℕ) (t' : FdTable) : Type 0 where
  pub inside : InTable t'
  pub same_size : t'.fd_bitmap.size ≡ t.fd_bitmap.size
  pub taken : TakenBelow t' (k + length fds)
  pub there : (i fd : ℕ) → get_elem? fds i ≡ some fd → get_fd_by_fdid t' (k + i) ≡ some fd
  pub others : (j : ℕ) → j < k → get_fd_by_fdid t' j ≡ get_fd_by_fdid t j

-- No address in a list is OS_NULL.
abbrev pub NoNull : List ℕ → Type 0
NoNull fds = (i fd : ℕ) → get_elem? fds i ≡ some fd → fd ≢ 0

no_elem : {P : Type 0} {fd : ℕ} (i : ℕ) → ◌≡◌ {A = Option ℕ} (get_elem? [] i) (some fd) → P
no_elem zero e = cc
no_elem (suc i) e = cc

there_lem :
    (t' : FdTable) (k fd : ℕ) (fds : List ℕ)
    → get_fd_by_fdid t' k ≡ some fd
    → ((i x : ℕ) → get_elem? fds i ≡ some x → get_fd_by_fdid t' (suc k + i) ≡ some x)
    → (i x : ℕ) → get_elem? (fd ∷ fds) i ≡ some x
    → get_fd_by_fdid t' (k + i) ≡ some x
there_lem t' k fd fds first later zero x e = ap (get_fd_by_fdid t') (omega arith) ∙ first ∙ e
there_lem t' k fd fds first later (suc i) x e = ap (get_fd_by_fdid t') (omega arith) ∙ later i x e

-- On a valid table in which a free id has no descriptor and exactly the ids below k are taken:
-- calls of os_file_fdid_create, each with an address for the descriptor that is not OS_NULL and
-- with room for an item of the hash map, and no more of them than ids are free, get the ids k, k
-- + 1 and so on in this order; after them exactly the ids below k and these are taken,
-- os_file_get_fd_by_fdid gives for each new id the descriptor that was made with it and for each
-- id below k what it gave before, and the table is such a table again.
pub create_fds-Filled :
    (t : FdTable) (k : ℕ) (fds : List ℕ)
    → InTable t
    → TakenBelow t k
    → NoNull fds
    → k + length fds ≤ t.fd_bitmap.size
    → (t' : FdTable) × (create_fds t fds ≡ some (given_from k fds, t')) × Filled t k fds t'
unfolding create_fds
create_fds-Filled t k [] v below nz fits = (
  t,
  refl,
  record {
    inside = v;
    same_size = refl;
    taken = λ j h. ground (arith, below j h);
    there = λ i fd e. no_elem i e;
    others = λ j h. refl;
  },
)
create_fds-Filled t k (fd ∷ fds) v below nz fits =
    let (r, t1, e, v1, c) = fdid_create-Creates t fd true v in
    let n : Next t fd k r t1 = Creates-Next t fd k r t1 below (omega arith) (nz 0 fd refl) c in
    let (t', e', f) =
      create_fds-Filled t1 (suc k) fds v1 n.taken (λ i x h. nz (suc i) x h)
        (omega (arith, n.same_size)) in
    (
      t',
      rw (e, e') (ap (λ z. some (z ∷ given_from (suc k) fds, t')) n.id),
      record {
        inside = f.inside;
        same_size = f.same_size ∙ n.same_size;
        taken = λ j h. ground (arith, f.taken j h);
        there = there_lem t' k fd fds (f.others k (omega arith) ∙ n.there) f.there;
        others = λ j h. f.others j (omega arith) ∙ n.others j h;
      },
    )

-- With a block for the bitmap that is too short, as os_memory_alloc gives for the 2 bytes asked for, no
-- table is made: os_bitmap_create writes past the block.
fd_table_create_overrun :
    (fd_table : ℕ) (alloc : ℕ → Option (List ℕ)) (room : Bool) {block : List ℕ}
    → alloc (create_request max_open_files) ≡ some block
    → length block < 2
    → fd_table_create fd_table alloc room ≡ none
unfolding fd_table_create
fd_table_create_overrun fd_table alloc room e short =
    let fails = create_overrun alloc max_open_files 1 (omega arith) e (omega arith) in
    rw fails (ground arith)
