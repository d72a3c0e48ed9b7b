-- ===== src/Vfs/Rounds.antt =====
-- The rounds of the loop of os_vfs_normalize_path, a component at a time.
use dreamos_cversion.Base.{
  ℕ, zero, suc, ◌+◌, ◌-◌, ◌<◌, ◌≤◌, ◌≡◌, ap, subst, ◌∙◌, ◌⊎◌, inl, inr, true, false, some, List, [],
  ◌∷◌, ◌++◌, arith, if◌then◌else◌, length, drop,
}
use dreamos_cversion.Vfs.{
  slash, byte, at_double_slash, ends_at, normal, einval, onto, normalize_loop,
}
use dreamos_cversion.Vfs.Steps.{
  plain, has_backslash, dotted, byte-drop, end-drop, drop-next, back, copy_lem, current_lem,
  parent_lem, done_lem, tail_lem,
}
use dreamos_cversion.Vfs.Dirs.{
  is_empty, is_current, is_parent, up, absolute, opened, closed, named, string_of-closed,
  parent-opened, finish-opened,
}

pub twice : (i : ℕ) → i + 1 + 1 ≡ i + 2
twice i = omega arith

-- A component ends with the string, or before a slash.
abbrev pub Closes : List ℕ → Type 0
Closes rest = (rest ≡ []) ⊎ ((r : List ℕ) × (rest ≡ slash ∷ r))

module _ (path : List ℕ) where
  -- The first byte of a component that is neither "." nor "..".
  undotted_lem :
      (x : ℕ) (c rest : List ℕ) (i : ℕ)
      → drop i path ≡ x ∷ c ++ rest
      → plain (x ∷ c) ≡ true
      → is_current (x ∷ c) ≡ false
      → is_parent (x ∷ c) ≡ false
      → dotted path i ≡ false
  undotted_lem x [] rest i h p n n' = let (e, lt) = byte-drop path rest i x h in ground arith
  undotted_lem x (y ∷ []) rest i h p n n' =
      let (e, lt) = byte-drop path (y ∷ rest) i x h in
      let (e', lt') = byte-drop path rest (i + 1) y (drop-next path (y ∷ rest) i x h) in
      ground arith
  undotted_lem x (y ∷ z ∷ c) rest i h p n n' =
      let (e, lt) = byte-drop path (y ∷ z ∷ c ++ rest) i x h in
      let h' = drop-next path (y ∷ z ∷ c ++ rest) i x h in
      let (e', lt') = byte-drop path (z ∷ c ++ rest) (i + 1) y h' in
      let (e'', lt'') =
        byte-drop path (c ++ rest) (i + 1 + 1) z (drop-next path (z ∷ c ++ rest) (i + 1) y h') in
      ground (arith, ap (byte path) (twice i))

  -- A component that is neither is copied.
  pub name_lem :
      (c rest : List ℕ) (fuel fuel' i : ℕ) (buf : List ℕ)
      → fuel' ≡ length c + fuel
      → drop i path ≡ c ++ rest
      → plain c ≡ true
      → is_empty c ≡ false
      → is_current c ≡ false
      → is_parent c ≡ false
      → normalize_loop path fuel' i buf ≡ (
          if has_backslash c
          then some einval
          else normalize_loop path fuel (i + length c) (onto c buf))
  unfolding onto
  name_lem [] rest fuel fuel' i buf f h p e n n' = cc
  name_lem (x ∷ c) rest fuel zero i buf f h p e n n' = absurd (omega arith)
  name_lem (x ∷ c) rest fuel (suc fuel') i buf f h p e n n' =
      let (at, lt) = byte-drop path (c ++ rest) i x h in
      let single : at_double_slash path i ≡ false = ground arith in
      let step =
        copy_lem path fuel' i x (c ++ rest) buf h single (undotted_lem x c rest i h p n n') in
      let later =
        tail_lem path c rest fuel fuel' (i + 1) (x ∷ buf) (omega arith)
          (drop-next path (c ++ rest) i x h) (ground arith) (omega arith)
          (λ z. absurd (ground (arith, ap (byte path) (back i)))) in
      let i' : i + 1 + length c ≡ i + suc (length c) = omega arith in
      step ∙ ground (arith, later, ap (λ k. normalize_loop path fuel k (onto c (x ∷ buf))) i')

  pub drop-append :
      (c rest : List ℕ) (i : ℕ) → drop i path ≡ c ++ rest → drop (i + length c) path ≡ rest
  drop-append [] rest i h = subst (λ k. drop k path ≡ rest) {x = i} (omega arith) h
  drop-append (x ∷ c) rest i h =
      subst (λ k. drop k path ≡ rest) {x = i + 1 + length c} (omega arith)
        (drop-append c rest (i + 1) (drop-next path (c ++ rest) i x h))

  closes_lem : (rest : List ℕ) (i : ℕ) → drop i path ≡ rest → Closes rest → ends_at path i ≡ true
  closes_lem rest i h (inl e) = let (z, le) = end-drop path i (h ∙ e) in ground arith
  closes_lem rest i h (inr (r, e)) = let (z, lt) = byte-drop path r i slash (h ∙ e) in ground arith

  pub current_round :
      (c rest : List ℕ) (fuel i : ℕ) (buf : List ℕ)
      → is_current c ≡ true
      → drop i path ≡ c ++ rest
      → Closes rest
      → byte path (i - 1) ≡ slash
      → normalize_loop path (suc fuel) i buf ≡ normalize_loop path fuel (i + 2) buf
  current_round [] rest fuel i buf n h cl prev = cc
  current_round (x ∷ []) rest fuel i buf n h cl prev =
      let (e, lt) = byte-drop path rest i x h in
      let e' = closes_lem rest (i + 1) (drop-next path rest i x h) cl in
      current_lem path fuel i buf lt (ground arith)
  current_round (x ∷ y ∷ c) rest fuel i buf n h cl prev = cc

  pub parent_round :
      (c rest : List ℕ) (fuel i : ℕ) (dirs : List (List ℕ))
      → named dirs ≡ true
      → is_parent c ≡ true
      → drop i path ≡ c ++ rest
      → Closes rest
      → byte path (i - 1) ≡ slash
      → normalize_loop path (suc fuel) i (opened dirs)
        ≡ normalize_loop path fuel (i + 3) (opened (up dirs))
  parent_round [] rest fuel i dirs nd n h cl prev = cc
  parent_round (x ∷ []) rest fuel i dirs nd n h cl prev = cc
  parent_round (x ∷ y ∷ []) rest fuel i dirs nd n h cl prev =
      let (e, lt) = byte-drop path (y ∷ rest) i x h in
      let h' = drop-next path (y ∷ rest) i x h in
      let (e', lt') = byte-drop path rest (i + 1) y h' in
      let e'' = closes_lem rest (i + 1 + 1) (drop-next path rest (i + 1) y h') cl in
      parent_lem path fuel i (opened dirs) (opened (up dirs)) lt
        (ground (arith, ap (byte path) (twice i))) (parent-opened dirs nd)
  parent_round (x ∷ y ∷ z ∷ c) rest fuel i dirs nd n h cl prev = cc

  pub ends_lem :
      (fuel i : ℕ) (dirs : List (List ℕ))
      → 0 < fuel
      → length path ≤ i
      → named dirs ≡ true
      → normalize_loop path fuel i (opened dirs) ≡ some (normal (absolute dirs))
  ends_lem zero i dirs pos le n = absurd (omega arith)
  ends_lem (suc fuel) i dirs pos le n =
      done_lem path fuel i (opened dirs) (closed dirs) le (finish-opened dirs n)
      ∙ ap (λ r. some (normal r)) (string_of-closed dirs)
