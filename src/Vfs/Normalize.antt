-- ===== src/Vfs/Normalize.antt =====
-- os_vfs_normalize_path against what a path means.
use dreamos_cversion.Base.{
  ℕ, zero, suc, ◌+◌, ◌-◌, ◌<◌, ◌≤◌, ◌≡◌, refl, sym, ap, subst, ◌∙◌, inl, inr, Bool, true, false,
  Option, some, List, [], ◌∷◌, ◌++◌, arith, ltb, ◌==◌, if◌then◌else◌, Bool-cases, length, drop,
  length-append,
}
use dreamos_cversion.Vfs.{
  slash, path_max, byte, at_double_slash, Normalized, normal, einval, onto, normalize_loop,
  normalize_path,
}
use dreamos_cversion.Vfs.Steps.{
  plain, has_backslash, dotted, byte-drop, end-drop, drop-next, back, copy_lem, double_lem,
  done_lem, last_lem,
}
use dreamos_cversion.Vfs.Dirs.{
  join, all_plain, is_empty, is_current, is_parent, up, enter, absolute, resolve, opened, closed,
  named, string_of-closed, finish-closed,
}
use dreamos_cversion.Vfs.Rounds.{current_round, parent_round, ends_lem, name_lem, drop-append}

append_nil : (c : List ℕ) → c ≡ c ++ []
append_nil [] = refl
append_nil (x ∷ c) = ap (λ r. x ∷ r) (append_nil c)

named-up : (dirs : List (List ℕ)) → named dirs ≡ true → named (up dirs) ≡ true
named-up [] n = refl
named-up (d ∷ dirs) n = ground arith

-- What a component is: nothing, one dot, two dots, or a name.
data Kind (c : List ℕ) : Type 0 where
  empty : c ≡ [] → Kind c
  current : is_current c ≡ true → Kind c
  parent : is_current c ≡ false → is_parent c ≡ true → Kind c
  name : is_empty c ≡ false → is_current c ≡ false → is_parent c ≡ false → Kind c

kind_of : (c : List ℕ) → Kind c
kind_of [] = empty refl
kind_of (x ∷ c) = elim (Bool-cases (is_current (x ∷ c))) [
  | inl yes' ↦ current yes'
  | inr no' ↦ elim (Bool-cases (is_parent (x ∷ c))) [
    | inl yes' ↦ parent no' yes'
    | inr no'' ↦ name refl no' no''
  ]
]

-- Neither "." nor ".." has a backslash, or is empty.
current_lem' :
    (c : List ℕ)
    → is_current c ≡ true
    → (has_backslash c ≡ false) × (is_empty c ≡ false) × (length c ≡ 1)
current_lem' [] h = cc
current_lem' (x ∷ []) h = (ground arith, refl, refl)
current_lem' (x ∷ y ∷ c) h = cc

parent_lem' :
    (c : List ℕ)
    → is_parent c ≡ true
    → (has_backslash c ≡ false) × (is_empty c ≡ false) × (length c ≡ 2)
parent_lem' [] h = cc
parent_lem' (x ∷ []) h = cc
parent_lem' (x ∷ y ∷ []) h = (ground arith, refl, refl)
parent_lem' (x ∷ y ∷ z ∷ c) h = cc

-- The two branches of a test.
picked :
    {b : Bool} {x : Option Normalized} (y : Option Normalized) → b ≡ true → (if b then x else y) ≡ x
picked y e = ground arith

passed :
    {b : Bool} (x : Option Normalized) {y : Option Normalized}
    → b ≡ false
    → (if b then x else y) ≡ y
passed x e = ground arith

passed_twice :
    {b c : Bool} (x : Normalized) {y : Normalized}
    → b ≡ false
    → c ≡ false
    → y ≡ (if b then x else if c then x else y)
passed_twice x e e' = ground arith

-- resolve for a component of each kind.
module _ (dirs : List (List ℕ)) (c : List ℕ) where
  enter-current : is_current c ≡ true → enter dirs c ≡ dirs
  enter-current k = ground arith

  enter-parent : is_current c ≡ false → is_parent c ≡ true → enter dirs c ≡ up dirs
  enter-parent k k' = ground (arith, parent_lem' c k')

  enter-name :
      is_empty c ≡ false → is_current c ≡ false → is_parent c ≡ false → enter dirs c ≡ c ∷ dirs
  enter-name k k' k'' = ground arith

  resolve-last :
      (dirs' : List (List ℕ))
      → has_backslash c ≡ false
      → enter dirs c ≡ dirs'
      → some (normal (absolute dirs')) ≡ some (resolve dirs c [])
  resolve-last dirs' b e = rw b (ap (λ ds. some (normal (absolute ds))) (sym e))

  resolve-more :
      (d : List ℕ) (cs : List (List ℕ)) (dirs' : List (List ℕ))
      → is_empty c ≡ false
      → has_backslash c ≡ false
      → enter dirs c ≡ dirs'
      → some (resolve dirs' d cs) ≡ some (resolve dirs c (d ∷ cs))
  resolve-more d cs dirs' k b e =
      ap (λ ds. some (resolve ds d cs)) (sym e) ∙ ap (λ r. some r) (passed_twice einval k b)

  resolve-empty :
      (d : List ℕ) (cs : List (List ℕ))
      → is_empty c ≡ true
      → some einval ≡ some (resolve dirs c (d ∷ cs))
  resolve-empty d cs k = rw k refl

  resolve-backslash :
      (cs : List (List ℕ)) → has_backslash c ≡ true → some einval ≡ some (resolve dirs c cs)
  resolve-backslash [] b = rw b refl
  resolve-backslash (d ∷ cs) b = ground (arith, b)

has_length : (c : List ℕ) → is_empty c ≡ false → 0 < length c
has_length [] k = cc
has_length (x ∷ c) k = omega arith

module _ (path : List ℕ) where
  -- The last component.
  last_component :
      (c : List ℕ) (dirs : List (List ℕ)) (i fuel : ℕ)
      → 0 < i
      → byte path (i - 1) ≡ slash
      → drop i path ≡ c
      → plain c ≡ true
      → named dirs ≡ true
      → length c < fuel
      → normalize_loop path fuel i (opened dirs) ≡ some (resolve dirs c [])
  last_component c dirs i zero pos prev h p n f = absurd (omega arith)
  last_component c dirs i (suc fuel) pos prev h p n f =
      let h' : drop i path ≡ c ++ [] = h ∙ append_nil c in
      let (z, le) = end-drop path (i + length c) (drop-append path c [] i h') in
      elim (kind_of c) [
        | empty e ↦
            let (_, le') = end-drop path i (h ∙ e) in
            ends_lem path (suc fuel) i dirs (omega arith) le' n
            ∙ ap (λ r. some (resolve dirs r [])) (sym e)
        | current k ↦
            let (b, _, l) = current_lem' c k in
            current_round path c [] fuel i (opened dirs) k h' (inl refl) prev
            ∙ ends_lem path fuel (i + 2) dirs (omega arith) (omega arith) n
            ∙ resolve-last dirs c dirs b (enter-current dirs c k)
        | parent k k' ↦
            let (b, _, l) = parent_lem' c k' in
            parent_round path c [] fuel i dirs n k' h' (inl refl) prev
            ∙ ends_lem path fuel (i + 3) (up dirs) (omega arith) (omega arith) (named-up dirs n)
            ∙ resolve-last dirs c (up dirs) b (enter-parent dirs c k k')
        | name k k' k'' ↦
            let rest = fuel - length c in
            let step =
              name_lem path c [] (suc rest) (suc fuel) i (opened dirs) (omega arith) h' p k k'
                k'' in
            elim (Bool-cases (has_backslash c)) [
              | inl b ↦ step ∙ picked _ b ∙ resolve-backslash dirs c [] b
              | inr b ↦
                  step
                  ∙ passed _ b
                  ∙ done_lem path rest (i + length c) (onto c (opened dirs)) (closed (c ∷ dirs)) le
                      (finish-closed (c ∷ dirs) (ground arith))
                  ∙ ap (λ r. some (normal r)) (string_of-closed (c ∷ dirs))
                  ∙ resolve-last dirs c (c ∷ dirs) b (enter-name dirs c k k' k'')
            ]
      ]

  components :
      (cs : List (List ℕ)) (c : List ℕ) (dirs : List (List ℕ)) (i fuel : ℕ)
      → 0 < i
      → byte path (i - 1) ≡ slash
      → drop i path ≡ join c cs
      → all_plain c cs ≡ true
      → named dirs ≡ true
      → length (join c cs) < fuel
      → normalize_loop path fuel i (opened dirs) ≡ some (resolve dirs c cs)
  components [] c dirs i fuel pos prev h p n f = last_component c dirs i fuel pos prev h p n f
  components (d ∷ cs) c dirs i zero pos prev h p n f = absurd (omega arith)
  components (d ∷ cs) c dirs i (suc fuel) pos prev h p n f =
      let r = join d cs in
      let l : length (c ++ slash ∷ r) ≡ length c + suc (length r) = length-append c (slash ∷ r) in
      let after = drop-append path c (slash ∷ r) i h in
      let (e, lt) = byte-drop path r (i + length c) slash after in
      let next = drop-next path r (i + length c) slash after in
      elim (kind_of c) [
        | empty k ↦
            let zero' : length c ≡ 0 = ap length k in
            let i' : i + length c ≡ i = omega arith in
            double_lem path fuel i (opened dirs) (omega arith) (ground (arith, ap (byte path) i'))
            ∙ resolve-empty dirs c d cs (ap is_empty k)
        | current k ↦
            let (b, ne, one) = current_lem' c k in
            current_round path c (slash ∷ r) fuel i (opened dirs) k h (inr (r, refl)) prev
            ∙ components cs d dirs (i + 2) fuel (omega arith)
                (subst (λ k. byte path k ≡ slash) {x = i + length c} (omega arith) e)
                (subst (λ k. drop k path ≡ r) {x = i + length c + 1} (omega arith) next)
                (ground arith) n (omega arith)
            ∙ resolve-more dirs c d cs dirs ne b (enter-current dirs c k)
        | parent k k' ↦
            let (b, ne, two) = parent_lem' c k' in
            parent_round path c (slash ∷ r) fuel i dirs n k' h (inr (r, refl)) prev
            ∙ components cs d (up dirs) (i + 3) fuel (omega arith)
                (subst (λ k. byte path k ≡ slash) {x = i + length c} (omega arith) e)
                (subst (λ k. drop k path ≡ r) {x = i + length c + 1} (omega arith) next)
                (ground arith) (named-up dirs n) (omega arith)
            ∙ resolve-more dirs c d cs (up dirs) ne b (enter-parent dirs c k k')
        | name k k' k'' ↦
            let rest = fuel - length c in
            let step =
              name_lem path c (slash ∷ r) (suc rest) (suc fuel) i (opened dirs) (omega arith) h
                (ground arith) k k' k'' in
            elim (Bool-cases (has_backslash c)) [
              | inl b ↦ step ∙ picked _ b ∙ resolve-backslash dirs c (d ∷ cs) b
              | inr b ↦
                  let ne = last_lem path c (slash ∷ r) i h (ground arith) (has_length c k) in
                  let single : at_double_slash path (i + length c) ≡ false = ground arith in
                  let undotted : dotted path (i + length c) ≡ false = ground arith in
                  step
                  ∙ passed _ b
                  ∙ copy_lem path rest (i + length c) slash r (onto c (opened dirs)) after single
                      undotted
                  ∙ components cs d (c ∷ dirs) (i + length c + 1) rest (omega arith)
                      (ap (byte path) (back (i + length c)) ∙ e) next (ground arith) (ground arith)
                      (omega arith)
                  ∙ resolve-more dirs c d cs (c ∷ dirs) k b (enter-name dirs c k k' k'')
            ]
      ]

start_lem :
    (path : List ℕ)
    → 0 < length path
    → length path ≤ path_max
    → byte path 0 ≡ slash
    → normalize_path path ≡ normalize_loop path (suc (length path)) 0 []
unfolding normalize_path
start_lem path pos small first =
    let nonempty : (length path == 0) ≡ false = ground arith in
    let short : ltb path_max (length path) ≡ false = ground arith in
    rw (nonempty, short, first) refl

-- A path is a slash, and components with a slash between any two.
pub normalize_path-resolve :
    (c : List ℕ) (cs : List (List ℕ))
    → all_plain c cs ≡ true
    → length (slash ∷ join c cs) ≤ path_max
    → normalize_path (slash ∷ join c cs) ≡ some (resolve [] c cs)
unfolding normalize_path
normalize_path-resolve c cs p small =
    let path = slash ∷ join c cs in
    start_lem path (omega arith) small refl
    ∙ copy_lem path (length path) 0 slash (join c cs) [] refl refl refl
    ∙ components path cs c [] 1 (length path) (omega arith) refl refl p refl (omega arith)
