-- ===== src/Vfs/Mounts/Lookup.antt =====
-- os_vfs_find_mp_by_path and the prefixes in the mount table.
use dreamos_cversion.Base.{
  ℕ, zero, suc, ◌+◌, ◌<◌, ◌≤◌, ◌≡◌, refl, ap, subst, ◌∙◌, ◌⊎◌, inl, inr, true, false, ◌&&◌, Option,
  none, some, List, [], ◌∷◌, arith, ltb, leb, if◌then◌else◌, Bool-cases, get_elem?,
}
use dreamos_cversion.Str.{is_same, Sign, strlen, memcmp}
use dreamos_cversion.Str.Blocks.{starts, memcmp-starts, starts-le}
use dreamos_cversion.Vfs.Mounts.{Mount, find_mp_loop, find_mp_by_path}

-- A mount that the search takes: its path starts `path`, no longer one does, and none before it that
-- is as long.
abbrev pub IsLongest : List Mount → (path : List ℕ) → (j : ℕ) → Mount → Type 0
IsLongest mounts path j entry =
    (get_elem? mounts j ≡ some entry)
    × (starts entry.path path ≡ true)
    × ((k : ℕ) (other : Mount)
        → get_elem? mounts k ≡ some other
        → starts other.path path ≡ true
        → (strlen other.path ≤ strlen entry.path) × (k < j → strlen other.path < strlen entry.path))

-- The search from place `i` on with what was found before.
abbrev Searched :
    List Mount → (path : List ℕ) → (i : ℕ) → (ret : Option ℕ) → (match_len : ℕ) → Option ℕ → Type 0
Searched mounts path i ret match_len r =
    ((r ≡ ret)
      × ((k : ℕ) (other : Mount)
          → get_elem? mounts k ≡ some other
          → starts other.path path ≡ true
          → strlen other.path ≤ match_len))
    ⊎ ((j : ℕ) × (entry : Mount) × (r ≡ some (i + j))
        × (match_len < strlen entry.path)
        × IsLongest mounts path j entry)

-- What holds of a place holds of the list if it holds of the first and of the others.
for_cons :
    {entry : Mount} (entries : List Mount) (P : ℕ → Mount → Type 0)
    → P 0 entry
    → ((k : ℕ) (other : Mount) → get_elem? entries k ≡ some other → P (suc k) other)
    → (k : ℕ) (other : Mount) → get_elem? (entry ∷ entries) k ≡ some other
    → P k other
for_cons {entry} entries P here there zero other g =
    subst (P 0) (ap (λ o. elim o [ none ↦ entry | some x ↦ x ]) g) here
for_cons entries P here there (suc k) other g = there k other g

next_place : (i j : ℕ) → i + 1 + j ≡ i + suc j
next_place i j = omega arith

module _ (entry : Mount) (entries : List Mount) (path : List ℕ) (i : ℕ) where
  -- The first entry is passed over.
  later_lem :
      (ret : Option ℕ) (m : ℕ) (r : Option ℕ)
      → (starts entry.path path ≡ true → strlen entry.path ≤ m)
      → Searched entries path (i + 1) ret m r
      → Searched (entry ∷ entries) path i ret m r
  later_lem ret m r low (inl (e, all)) =
      inl (e, for_cons entries (λ k o. starts o.path path ≡ true → strlen o.path ≤ m) low all)
  later_lem ret m r low (inr (j, found, e, lt, (g, s, all))) = inr (
    suc j,
    found,
    e ∙ ap (λ k. some k) (next_place i j),
    lt,
    (
      g,
      s,
      for_cons entries
          (λ k o.
            starts o.path path ≡ true
            → (strlen o.path ≤ strlen found.path) × (k < suc j → strlen o.path < strlen found.path))
          (λ s'. (omega (arith, low s'), λ h. omega (arith, low s')))
          (λ k o g' s'. let (le, below) = all k o g' s' in (le, λ h. below (omega arith))),
    ),
  )

  -- The first entry is the longest so far.
  longer_lem :
      (ret : Option ℕ) (m : ℕ) (r : Option ℕ)
      → starts entry.path path ≡ true
      → m < strlen entry.path
      → Searched entries path (i + 1) (some i) (strlen entry.path) r
      → Searched (entry ∷ entries) path i ret m r
  longer_lem ret m r s lt (inl (e, all)) = inr (
    0,
    entry,
    e ∙ ap (λ k. some k) (omega arith),
    lt,
    (
      refl,
      s,
      for_cons entries
          (λ k o.
            starts o.path path ≡ true
            → (strlen o.path ≤ strlen entry.path) × (k < 0 → strlen o.path < strlen entry.path))
          (λ s'. (omega arith, λ h. elim h [ ]))
          (λ k o g' s'. (all k o g' s', λ h. absurd (omega arith))),
    ),
  )
  longer_lem ret m r s lt (inr (j, found, e, lt', (g, s', all))) = inr (
    suc j,
    found,
    e ∙ ap (λ k. some k) (next_place i j),
    omega arith,
    (
      g,
      s',
      for_cons entries
          (λ k o.
            starts o.path path ≡ true
            → (strlen o.path ≤ strlen found.path) × (k < suc j → strlen o.path < strlen found.path))
          (λ s''. (omega arith, λ h. lt'))
          (λ k o g' s''. let (le, below) = all k o g' s'' in (le, λ h. below (omega arith))),
    ),
  )

-- The three ways of a round.
module _ (entry : Mount) (entries : List Mount) (path : List ℕ) (i : ℕ) (ret : Option ℕ)
    (m : ℕ) where
  skipped_lem :
      ltb m (strlen entry.path) && leb (strlen entry.path) (strlen path) ≡ false
      → find_mp_loop (entry ∷ entries) path i ret m ≡ find_mp_loop entries path (i + 1) ret m
  unfolding find_mp_loop
  skipped_lem h = rw h refl

  compared_lem :
      (d : Sign)
      → ltb m (strlen entry.path) && leb (strlen entry.path) (strlen path) ≡ true
      → memcmp entry.path path (strlen entry.path) ≡ some d
      → find_mp_loop (entry ∷ entries) path i ret m ≡ (
          if is_same d
          then find_mp_loop entries path (i + 1) (some i) (strlen entry.path)
          else find_mp_loop entries path (i + 1) ret m)
  unfolding find_mp_loop
  compared_lem d h e = rw (h, e) refl

find_mp_loop-Searched :
    (mounts : List Mount) (path : List ℕ) (i : ℕ) (ret : Option ℕ) (m : ℕ)
    → (r : Option ℕ) × (find_mp_loop mounts path i ret m ≡ some r) × Searched mounts path i ret m r
unfolding find_mp_loop
find_mp_loop-Searched [] path i ret m = (ret, refl, inl (refl, λ k o g. cc))
find_mp_loop-Searched (entry ∷ entries) path i ret m =
    let (r, e, found) = find_mp_loop-Searched entries path (i + 1) ret m in
    elim (Bool-cases (ltb m (strlen entry.path) && leb (strlen entry.path) (strlen path))) [
      | inr out ↦ (
        r,
        skipped_lem entry entries path i ret m out ∙ e,
        later_lem entry entries path i ret m r (λ s. ground (arith, starts-le entry.path path s))
            found,
      )
      | inl in' ↦
          let (d, e', s) = memcmp-starts entry.path path (ground arith) in
          let step = compared_lem entry entries path i ret m d in' e' in
          elim (Bool-cases (starts entry.path path)) [
            | inl yes' ↦
                let (r', e'', found') =
                  find_mp_loop-Searched entries path (i + 1) (some i) (strlen entry.path) in
                (
                  r',
                  step ∙ ground (arith, e''),
                  longer_lem entry entries path i ret m r' yes' (ground arith) found',
                )
            | inr no' ↦ (
              r,
              step ∙ ground (arith, e),
              later_lem entry entries path i ret m r (λ s'. absurd (ground arith)) found,
            )
          ]
    ]

-- os_vfs_find_mp_by_path reads no path past its end. It gives a mount whose path is not empty and
-- starts the given path byte by byte, such that no longer path of a mount starts it, and none
-- before it that is as long; or OS_NULL, if no path of a mount that is not empty starts it.
pub find_mp_by_path-IsLongest :
    (mounts : List Mount) (path : List ℕ)
    → (r : Option ℕ) × (find_mp_by_path mounts path ≡ some r)
      × (((r ≡ none)
            × ((k : ℕ) (other : Mount)
                → get_elem? mounts k ≡ some other
                → starts other.path path ≡ true
                → strlen other.path ≡ 0))
          ⊎ ((j : ℕ) × (entry : Mount) × (r ≡ some j)
              × (0 < strlen entry.path)
              × IsLongest mounts path j entry))
unfolding find_mp_by_path
find_mp_by_path-IsLongest mounts path =
    let (r, e, found) = find_mp_loop-Searched mounts path 0 none 0 in
    (
      r,
      e,
      elim found [
        | inl (e', all) ↦ inl (e', λ k o g s. omega (arith, all k o g s))
        | inr (j, entry, e', lt, longest) ↦
            inr (j, entry, e' ∙ ap (λ k. some k) (omega arith), lt, longest)
      ],
    )
