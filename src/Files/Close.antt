-- ===== src/Files/Close.antt =====
-- os_file_close and the counts.
use dreamos_cversion.Base.{
  ℕ, ◌+◌, ◌-◌, ◌≡◌, ◌≢◌, sym, ap, ◌∙◌, true, ◌&&◌, List, arith, ◌==◌, if◌then◌else◌, has, without,
  has-without, distinct-without,
}
use dreamos_cversion.Word.{sub_size}
use dreamos_cversion.Files.Count.{
  as_one, users, on_mp, Counted, users-le, users_same, users-without, on_mp_same, on_mp-without,
  on_mp-le, length-without, users_some, length-without-le,
}
use dreamos_cversion.Files.{Effect, Files, affect, closed}

module _ (s : Files) (open_fds : List ℕ) (fd : ℕ) (e : Effect) (c : Counted s open_fds)
    (inside : has fd open_fds ≡ true) where
  abbrev node_of : ℕ
  node_of = (s.fds fd).fnode

  abbrev after : Files
  after = affect s fd (s.fds fd).fnode e

  abbrev shut : Files
  shut = closed after fd

  node_in : has (s.fds fd).fnode s.file_list ≡ true
  node_in = c.points fd inside

  after_users : (k : ℕ) → users after.fds open_fds k ≡ users s.fds open_fds k
  after_users k = users_same s.fds after.fds open_fds k (λ f h. ground arith)

  -- The operation has failed.
  pub after-Counted : Counted after open_fds
  after-Counted = record {
    refs = λ k h. ground (arith, c.refs k h, after_users k);
    used = λ k h. ground (arith, c.used k h);
    points = λ f h. ground (arith, c.points f);
    listed_once = c.listed_once;
    open_once = c.open_once;
    files_on = λ m.
        c.files_on m ∙ sym (on_mp_same s.nodes after.nodes s.file_list m (λ k h. ground arith));
    few = c.few;
    few_files = c.few_files;
  }

  left_users :
      (k : ℕ)
      → users s.fds open_fds k
        ≡ as_one ((s.fds fd).fnode == k) + users shut.fds (without fd open_fds) k
  left_users k =
      users-without s.fds open_fds fd k inside
      ∙ ap (λ u. as_one ((s.fds fd).fnode == k) + u)
          (sym (users_same s.fds shut.fds (without fd open_fds) k (λ f h. ground arith)))

  same_fnode : (f : ℕ) → (shut.fds f).fnode ≡ (s.fds f).fnode
  same_fnode f = ground arith

  -- The last descriptor of the node leaves no other.
  last_user :
      (f : ℕ)
      → has f (without fd open_fds) ≡ true
      → (s.nodes (s.fds fd).fnode).refcnt ≡ 1
      → (s.fds f).fnode ≢ (s.fds fd).fnode
  last_user f h one same =
      let some_user = users_some shut.fds (without fd open_fds) f h in
      ground (arith, left_users (s.fds fd).fnode, c.refs (s.fds fd).fnode node_in, same_fnode f)

  counted_down :
      sub_size (s.nodes (s.fds fd).fnode).refcnt 1 ≡ (s.nodes (s.fds fd).fnode).refcnt - 1
  counted_down = omega (
    arith,
    c.refs (s.fds fd).fnode node_in,
    users-le s.fds open_fds (s.fds fd).fnode,
    c.few,
    c.used (s.fds fd).fnode node_in,
  )

  same_mps : (ns : List ℕ) (m : ℕ) → on_mp shut.nodes ns m ≡ on_mp s.nodes ns m
  same_mps ns m = on_mp_same s.nodes shut.nodes ns m (λ k h. ground arith)

  shut_lists :
      (shut.file_list ≡ (
        if (s.nodes (s.fds fd).fnode).refcnt == 1
        then without (s.fds fd).fnode s.file_list
        else s.file_list))
      × ((m : ℕ)
          → shut.open_file_cnt m ≡ (
              if ((s.nodes (s.fds fd).fnode).refcnt == 1) && ((s.nodes (s.fds fd).fnode).mp == m)
              then s.open_file_cnt m - 1
              else s.open_file_cnt m))
  shut_lists =
      let mp = (s.nodes (s.fds fd).fnode).mp in
      let some_node = on_mp-without s.nodes s.file_list (s.fds fd).fnode mp node_in in
      let cnt : sub_size (s.open_file_cnt mp) 1 ≡ s.open_file_cnt mp - 1 =
        ground (arith, c.files_on mp, some_node, on_mp-le s.nodes s.file_list mp, c.few_files) in
      (
        ground (arith, counted_down, c.used (s.fds fd).fnode node_in),
        λ m. ground (arith, counted_down, c.used (s.fds fd).fnode node_in, cnt),
      )

  pub shut-Counted : Counted shut (without fd open_fds)
  shut-Counted = record {
    refs = λ k h. ground (
      arith,
      c.refs k,
      left_users k,
      has-without (s.fds fd).fnode k s.file_list,
      c.listed_once,
      counted_down,
    );
    used = λ k h.
        ground (
          arith,
          c.used k,
          has-without (s.fds fd).fnode k s.file_list,
          c.listed_once,
          counted_down,
        );
    points = λ f h. ground (
      arith,
      c.points f,
      same_fnode f,
      last_user f h,
      has-without (s.fds fd).fnode (s.fds f).fnode s.file_list,
      c.listed_once,
      counted_down,
      has-without fd f open_fds,
      c.open_once,
    );
    listed_once = ground (arith, c.listed_once, distinct-without (s.fds fd).fnode s.file_list);
    open_once = distinct-without fd open_fds c.open_once;
    files_on = λ m.
        rw (shut_lists.0, shut_lists.1 m, same_mps)
          (ground
            (arith, c.files_on m, on_mp-without s.nodes s.file_list (s.fds fd).fnode m node_in));
    few = omega (arith, length-without fd open_fds inside, c.few);
    few_files = ground (arith, c.few_files, length-without-le (s.fds fd).fnode s.file_list);
  }
