-- ===== src/Files/Table/Create.antt =====
-- os_file_fdid_create and os_file_get_fd_by_fdid.
use dreamos_cversion.Base.{
  ℕ, ◌+◌, ◌<◌, ◌≡◌, ◌≢◌, refl, sym, ap, ◌∙◌, inl, inr, Bool, true, false, ◌&&◌, not, Option, none,
  some, arith, ◌==◌, if◌then◌else◌, Bool-cases, ℕ_discrete,
}
use dreamos_cversion.Word.{number_max}
use dreamos_cversion.Bitmap.{Bitmap, find_some_ones, set_bit, is_one}
use dreamos_cversion.Bitmap.View.{bit_at}
use dreamos_cversion.Bitmap.Access.{Rewritten, set_bit-Rewritten}
use dreamos_cversion.Bitmap.Find.{Run, FindResult, found, missing, find_some_ones-FindResult}
use dreamos_cversion.Hashmap.{Hashmap, done, enomem, set_item, get}
use dreamos_cversion.Hashmap.Laws.{lookup, Updated, set_item-Updated, set_item_full, get-lookup}
use dreamos_cversion.Files.Table.{
  FdTable, FdCreated, given, not_permitted, no_memory, get_new_fdid, release_fdid, get_fd_by_fdid,
  left_map, fdid_create,
}

-- Whether an id is free.
abbrev pub is_free : FdTable → ℕ → Bool
is_free t fdid = is_one (bit_at t.fd_bitmap fdid)

-- The bitmap and the hash map are valid, and an id that is free has no descriptor.
pub record InTable (t : FdTable) : Type 0 where
  pub bitmap : dreamos_cversion.Bitmap.View.IsValid t.fd_bitmap
  pub hashmap : dreamos_cversion.Hashmap.Laws.IsValid t.fd_hashmap
  pub absent : (fdid : ℕ) → is_free t fdid ≡ true → lookup t.fd_hashmap fdid ≡ none

-- What os_file_fdid_create does. Without a free id the mutex is kept; without memory for the descriptor
-- nothing is changed; else the least free id is taken, for the descriptor if there is room for an item.
pub data Creates (t : FdTable) (fd : ℕ) (room : Bool) : FdCreated → FdTable → Type 0 where
  full :
      ((j : ℕ) → j < t.fd_bitmap.size → is_free t j ≡ false)
      → Creates t fd room not_permitted (record t { lock = t.lock + 1 })
  failed :
      {t' : FdTable} (fdid : ℕ)
      → is_free t fdid ≡ true
      → fd ≡ 0
      → ((j : ℕ) → is_free t' j ≡ is_free t j)
      → ((j : ℕ) → get_fd_by_fdid t' j ≡ get_fd_by_fdid t j)
      → t'.lock ≡ t.lock
      → t'.fd_bitmap.size ≡ t.fd_bitmap.size
      → Creates t fd room no_memory t'
  entered :
      {t' : FdTable} (fdid : ℕ)
      → fdid < t.fd_bitmap.size
      → is_free t fdid ≡ true
      → ((j : ℕ) → j < fdid → is_free t j ≡ false)
      → fd ≢ 0
      → ((j : ℕ) → is_free t' j ≡ (is_free t j && not (fdid == j)))
      → ((j : ℕ)
          → get_fd_by_fdid t' j ≡ (if room && (fdid == j) then some fd else get_fd_by_fdid t j))
      → t'.lock ≡ t.lock
      → t'.fd_bitmap.size ≡ t.fd_bitmap.size
      → Creates t fd room (given fdid) t'

-- What os_hashmap_get writes, OS_NULL for none.
abbrev pub held : Option ℕ → Option ℕ
held o = some (elim o [ none ↦ 0 | some value ↦ value ])

pub get_fd_by_fdid-lookup :
    (t : FdTable) (j : ℕ) → InTable t → get_fd_by_fdid t j ≡ held (lookup t.fd_hashmap j)
unfolding get_fd_by_fdid
get_fd_by_fdid-lookup t j v = rw (get-lookup t.fd_hashmap j v.hashmap) refl

no_bit_lem : (b : Bitmap) (j : ℕ) → ¬ (Run is_one b j 1) → is_one (bit_at b j) ≡ false
no_bit_lem b j h = elim (Bool-cases (is_one (bit_at b j))) [
  | inl one ↦ absurd (h λ k lo hi. ap (λ i. is_one (bit_at b i)) (omega arith) ∙ one)
  | inr zero ↦ zero
]

module _ (t : FdTable) (fd : ℕ) (room : Bool) (v : InTable t) where
  abbrev Outcome : Type 0
  Outcome =
      (r : FdCreated) × (t' : FdTable) × (fdid_create t fd room ≡ some (r, t'))
      × InTable t'
      × Creates t fd room r t'

  -- The table with the id taken.
  taken : Bitmap → FdTable
  taken b = record t { fd_bitmap = b }

  module _ (fdid : ℕ) (lt : fdid < t.fd_bitmap.size)
      (find : find_some_ones t.fd_bitmap 0 1 ≡ some fdid) (one : is_free t fdid ≡ true)
      (before : (j : ℕ) → j < fdid → is_free t j ≡ false) (b : Bitmap)
      (set : set_bit t.fd_bitmap fdid 0 ≡ some b)
      (w : Rewritten t.fd_bitmap b (λ j. if fdid == j then 0 else bit_at t.fd_bitmap j)) where
    new_lem : get_new_fdid t ≡ some (some fdid, record t { fd_bitmap = b })
    unfolding get_new_fdid
    new_lem =
        let low : (fdid == number_max) ≡ false = ground (arith, v.bitmap.sized, v.bitmap.small) in
        rw (find, low, set) refl

    free_lem : (j : ℕ) → is_one (bit_at b j) ≡ (is_free t j && not (fdid == j))
    free_lem j = rw (w.at j) (ground arith)

    no_descriptor : fd ≡ 0 → Outcome
    unfolding fdid_create release_fdid get_fd_by_fdid
    no_descriptor z =
        let (b', again, w') = set_bit-Rewritten fdid 1 w.valid (omega (arith, w.same_size)) in
        let same : (j : ℕ) → is_one (bit_at b' j) ≡ is_free t j = λ j. elim (ℕ_discrete fdid j) [
          | yes e ↦ rw (w'.at j) (ground (arith, ap (is_free t) e, one))
          | no ne ↦ rw (w'.at j) (ground (arith, w.at j))
        ] in
        (
          no_memory,
          record t { fd_bitmap = b' },
          rw (new_lem, z, again) refl,
          record {
            bitmap = w'.valid;
            hashmap = v.hashmap;
            absent = λ j h. v.absent j (sym (same j) ∙ h);
          },
          failed fdid one z same (λ j. refl) refl (w'.same_size ∙ w.same_size),
        )

    put_lem :
        (r : Bool)
        → (map' : Hashmap) × (o : dreamos_cversion.Hashmap.Outcome) × (set_item t.fd_hashmap r fdid
              fd
            ≡ some o)
          × (left_map t.fd_hashmap o ≡ map')
          × Updated t.fd_hashmap fdid (if r then some fd else none) map'
    put_lem true = elim (set_item-Updated t.fd_hashmap true fdid fd v.hashmap) [
      | inl (map', e, u) ↦ (map', done map', e, refl, u)
      | inr (e, no_room, l) ↦ cc
    ]
    put_lem false =
        let gone = v.absent fdid one in
        (
          t.fd_hashmap,
          enomem,
          set_item_full t.fd_hashmap fdid fd v.hashmap gone,
          refl,
          (
            v.hashmap,
            λ j. elim (ℕ_discrete fdid j) [
              | yes e ↦ ground (arith, sym (ap (lookup t.fd_hashmap) e) ∙ gone)
              | no ne ↦ ground arith
            ],
          ),
        )

    descriptor : fd ≢ 0 → Outcome
    unfolding fdid_create
    descriptor nz =
        let (map', o, e, l, u) = put_lem room in
        let t' : FdTable = record t { fd_bitmap = b; fd_hashmap = map' } in
        let some_fd : (fd == 0) ≡ false = ground arith in
        let inside : InTable t' = record {
          bitmap = w.valid;
          hashmap = u.0;
          absent = λ j h. elim (ℕ_discrete fdid j) [
            | yes e ↦ ground (arith, free_lem j)
            | no ne ↦ u.1 j ∙ ground (arith, free_lem j, v.absent j)
          ];
        } in
        (
          given fdid,
          t',
          rw (new_lem, some_fd, e, l) refl,
          inside,
          entered fdid lt one before nz free_lem
              (λ j. get_fd_by_fdid-lookup t' j inside ∙ ap held (u.1 j) ∙ after_lem j) refl
              w.same_size,
        )
      where
        after_lem :
            (j : ℕ)
            → held (if fdid == j then (if room then some fd else none) else lookup t.fd_hashmap j)
              ≡ (if room && (fdid == j) then some fd else get_fd_by_fdid t j)
        after_lem j = elim (ℕ_discrete fdid j) [
          | yes e ↦
              let here : (fdid == j) ≡ true = ground arith in
              let gone : lookup t.fd_hashmap j ≡ none =
                sym (ap (lookup t.fd_hashmap) e) ∙ v.absent fdid one in
              elim (Bool-cases room) [
                | inl r ↦ rw (here, r) refl
                | inr r ↦ rw (here, r) (sym (get_fd_by_fdid-lookup t j v ∙ ap held gone))
              ]
          | no ne ↦
              let away : (fdid == j) ≡ false = ground arith in
              let before = sym (get_fd_by_fdid-lookup t j v) in
              elim (Bool-cases room) [ inl r ↦ rw (away, r) before | inr r ↦ rw (away, r) before ]
        ]

  by_result :
      (ret : ℕ)
      → find_some_ones t.fd_bitmap 0 1 ≡ some ret
      → FindResult is_one t.fd_bitmap 0 1 ret
      → Outcome
  unfolding fdid_create get_new_fdid
  by_result ret e (missing m never) =
      let over : (ret == number_max) ≡ true = ground arith in
      (
        not_permitted,
        record t { lock = t.lock + 1 },
        rw (e, over) refl,
        record { bitmap = v.bitmap; hashmap = v.hashmap; absent = v.absent },
        full λ j lt. no_bit_lem t.fd_bitmap j (never j (omega arith) (omega arith)),
      )
  by_result ret e (found lo lt fits run none_before) =
      let (b, s, w) = set_bit-Rewritten ret 0 v.bitmap lt in
      let one = run ret (omega arith) (omega arith) in
      let before : (j : ℕ) → j < ret → is_free t j ≡ false =
        λ j h. no_bit_lem t.fd_bitmap j (none_before j (omega arith) h) in
      elim (ℕ_discrete fd 0) [
        | yes z ↦ no_descriptor ret lt e one before b s w z
        | no nz ↦ descriptor ret lt e one before b s w nz
      ]

-- On a table whose bitmap and hash map are valid and in which a free id has no descriptor,
-- os_file_fdid_create returns, and leaves such a table. If no id is free, it gives -OS_ERR_EPERM,
-- and the mutex is held once more and nothing else changed. If there is a free id but no memory
-- for the descriptor, it gives -OS_ERR_ENOMEM, and every id is free or taken and has the
-- descriptor as before. Else it gives OS_ERR_OK with the least free id, which is then the one id
-- that is taken anew; os_file_get_fd_by_fdid gives the new descriptor for it if there was room
-- for an item of the hash map, and what it gave before for every other id, or for every id if
-- there was no room. In these two cases the mutex is held as before.
pub fdid_create-Creates :
    (t : FdTable) (fd : ℕ) (room : Bool)
    → InTable t
    → (r : FdCreated) × (t' : FdTable) × (fdid_create t fd room ≡ some (r, t'))
      × InTable t'
      × Creates t fd room r t'
fdid_create-Creates t fd room v =
    let (ret, e, f) = find_some_ones-FindResult 0 1 v.bitmap (omega arith) (omega arith) in
    by_result t fd room v ret e f
