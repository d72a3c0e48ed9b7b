-- ===== src/Files/Count.antt =====
-- The counts of a file manager: the descriptors of a node, and the nodes of a mount point.
use dreamos_cversion.Base.{
  ℕ, suc, ◌+◌, ◌<◌, ◌≤◌, ◌≡◌, ◌≢◌, refl, sym, subst, inl, inr, Bool, true, false, ◌||◌, List, [],
  ◌∷◌, ◌++◌, arith, ◌==◌, Bool-cases, length, has, distinct, without,
}
use dreamos_cversion.Word.{size_mod}
use dreamos_cversion.Str.{is_same, strcmp}
use dreamos_cversion.Files.{FileNode, Descriptor, Files, fnode_find}

abbrev pub as_one : Bool → ℕ
as_one true = 1
as_one false = 0

-- How many of the descriptors are on the node.
abbrev pub users : (ℕ → Descriptor) → List ℕ → (fnode : ℕ) → ℕ
users fds [] n = 0
users fds (f ∷ fs) n = as_one ((fds f).fnode == n) + users fds fs n

-- How many of the nodes are on the mount point.
abbrev pub on_mp : (ℕ → FileNode) → List ℕ → (mp : ℕ) → ℕ
on_mp nodes [] m = 0
on_mp nodes (n ∷ ns) m = as_one ((nodes n).mp == m) + on_mp nodes ns m

-- The descriptors `open_fds` are open.
pub record Counted (s : Files) (open_fds : List ℕ) : Type 0 where
  pub refs : (n : ℕ) → has n s.file_list ≡ true → (s.nodes n).refcnt ≡ users s.fds open_fds n
  pub used : (n : ℕ) → has n s.file_list ≡ true → 0 < (s.nodes n).refcnt
  pub points : (f : ℕ) → has f open_fds ≡ true → has (s.fds f).fnode s.file_list ≡ true
  pub listed_once : distinct s.file_list ≡ true
  pub open_once : distinct open_fds ≡ true
  pub files_on : (m : ℕ) → s.open_file_cnt m ≡ on_mp s.nodes s.file_list m
  pub few : length open_fds < size_mod
  pub few_files : length s.file_list < size_mod

pub users-le : (fds : ℕ → Descriptor) (fs : List ℕ) (n : ℕ) → users fds fs n ≤ length fs
users-le fds [] n = omega arith
users-le fds (f ∷ fs) n = ground (arith, users-le fds fs n)

-- Descriptors that are on the same nodes.
pub users_same :
    (fds fds' : ℕ → Descriptor) (fs : List ℕ) (n : ℕ)
    → ((f : ℕ) → has f fs ≡ true → (fds' f).fnode ≡ (fds f).fnode)
    → users fds' fs n ≡ users fds fs n
users_same fds fds' [] n h = refl
users_same fds fds' (f ∷ fs) n h =
    ground (arith, h f, users_same fds fds' fs n (λ g m. h g (ground arith)))

pub users-without :
    (fds : ℕ → Descriptor) (fs : List ℕ) (f n : ℕ)
    → has f fs ≡ true
    → users fds fs n ≡ as_one ((fds f).fnode == n) + users fds (without f fs) n
users-without fds [] f n h = absurd (ground arith)
users-without fds (g ∷ fs) f n h = ground (arith, users-without fds fs f n)

pub on_mp_same :
    (nodes nodes' : ℕ → FileNode) (ns : List ℕ) (m : ℕ)
    → ((n : ℕ) → has n ns ≡ true → (nodes' n).mp ≡ (nodes n).mp)
    → on_mp nodes' ns m ≡ on_mp nodes ns m
on_mp_same nodes nodes' [] m h = refl
on_mp_same nodes nodes' (n ∷ ns) m h =
    ground (arith, h n, on_mp_same nodes nodes' ns m (λ g k. h g (ground arith)))

pub on_mp-without :
    (nodes : ℕ → FileNode) (ns : List ℕ) (n m : ℕ)
    → has n ns ≡ true
    → on_mp nodes ns m ≡ as_one ((nodes n).mp == m) + on_mp nodes (without n ns) m
on_mp-without nodes [] n m h = absurd (ground arith)
on_mp-without nodes (k ∷ ns) n m h = ground (arith, on_mp-without nodes ns n m)

pub on_mp-append :
    (nodes : ℕ → FileNode) (ns : List ℕ) (n m : ℕ)
    → on_mp nodes (ns ++ n ∷ []) m ≡ on_mp nodes ns m + as_one ((nodes n).mp == m)
on_mp-append nodes [] n m = omega arith
on_mp-append nodes (k ∷ ns) n m = omega (arith, on_mp-append nodes ns n m)

pub on_mp-le : (nodes : ℕ → FileNode) (ns : List ℕ) (m : ℕ) → on_mp nodes ns m ≤ length ns
on_mp-le nodes [] m = omega arith
on_mp-le nodes (n ∷ ns) m = ground (arith, on_mp-le nodes ns m)

pub without-append : (n : ℕ) (ns : List ℕ) → has n ns ≡ false → without n (ns ++ n ∷ []) ≡ ns
without-append n [] h = ground arith
without-append n (k ∷ ns) h = ground (arith, without-append n ns)

pub length-without :
    (n : ℕ) (ns : List ℕ) → has n ns ≡ true → suc (length (without n ns)) ≡ length ns
length-without n [] h = absurd (ground arith)
length-without n (k ∷ ns) h = ground (arith, length-without n ns)

-- What is found is in the list, and has the path.
pub fnode_find_lem :
    (nodes : ℕ → FileNode) (ns : List ℕ) (path : List ℕ)
    → fnode_find nodes ns path ≢ 0
    → has (fnode_find nodes ns path) ns ≡ true
unfolding fnode_find
fnode_find_lem nodes [] path h = absurd (h refl)
fnode_find_lem nodes (n ∷ ns) path h = elim (Bool-cases (is_same (strcmp (nodes n).path path))) [
  | inl found ↦
      let here : fnode_find nodes (n ∷ ns) path ≡ n = rw found refl in
      subst (λ k. has k (n ∷ ns) ≡ true) (sym here) (ground arith)
  | inr other ↦
      let later : fnode_find nodes (n ∷ ns) path ≡ fnode_find nodes ns path = rw other refl in
      let rest = fnode_find_lem nodes ns path (subst (λ k. k ≢ 0) later h) in
      subst (λ k. has k (n ∷ ns) ≡ true) (sym later)
        (or_true (fnode_find nodes ns path == n) (has (fnode_find nodes ns path) ns) rest)
]
  where
    or_true : (a b : Bool) → b ≡ true → (a || b) ≡ true
    or_true a b h = ground arith

pub users_none :
    (fds : ℕ → Descriptor) (fs : List ℕ) (n : ℕ)
    → ((f : ℕ) → has f fs ≡ true → (fds f).fnode ≢ n)
    → users fds fs n ≡ 0
users_none fds [] n h = refl
users_none fds (f ∷ fs) n h =
    let other = h f (ground arith) in
    ground (arith, users_none fds fs n (λ g k. h g (ground arith)))

pub users_some :
    (fds : ℕ → Descriptor) (fs : List ℕ) (f : ℕ) → has f fs ≡ true → 0 < users fds fs (fds f).fnode
users_some fds [] f h = absurd (ground arith)
users_some fds (g ∷ fs) f h = ground (arith, users_some fds fs f)

pub length-without-le : (n : ℕ) (ns : List ℕ) → length (without n ns) ≤ length ns
length-without-le n [] = omega arith
length-without-le n (k ∷ ns) = ground (arith, length-without-le n ns)
