-- ===== src/Files/Open.antt =====
-- os_file_open and the counts.
use dreamos_cversion.Base.{
  ℕ, suc, ◌<◌, ◌≡◌, sym, subst, ◌∙◌, Bool, true, false, List, [], ◌∷◌, arith, length, length-append,
  has, has-append, distinct-append,
}
use dreamos_cversion.Word.{size_mod}
use dreamos_cversion.Files.Count.{
  users, on_mp, Counted, users-le, users_same, on_mp_same, on_mp-append, on_mp-le, without-append,
  users_none,
}
use dreamos_cversion.Files.{Effect, Files, attach, describe, affect, unlock_mp, opened, not_opened}

-- The state when the operation of the file system has done `e`, and it has succeeded or failed.
abbrev pub ok_state : Files → (fd fnode open_flag mp : ℕ) → (fresh : Bool) → Effect → Files
ok_state s fd fnode open_flag mp fresh e =
    unlock_mp (opened (affect (describe s fd fnode open_flag mp) fd fnode e) fnode mp fresh) mp

abbrev pub bad_state : Files → (fd fnode open_flag mp : ℕ) → (fresh : Bool) → Effect → Files
bad_state s fd fnode open_flag mp fresh e =
    unlock_mp (not_opened (affect (describe s fd fnode open_flag mp) fd fnode e) fnode fresh) mp

module _ (s : Files) (open_fds : List ℕ) (fd n open_flag mp : ℕ) (e : Effect)
    (c : Counted s open_fds) (out : has fd open_fds ≡ false) where
  -- The other descriptors stay on their nodes.
  others_ok :
      (fresh : Bool) (k : ℕ)
      → users (ok_state s fd n open_flag mp fresh e).fds open_fds k ≡ users s.fds open_fds k
  others_ok fresh k =
      users_same s.fds (ok_state s fd n open_flag mp fresh e).fds open_fds k (λ f h. ground arith)

  others_bad :
      (fresh : Bool) (k : ℕ)
      → users (bad_state s fd n open_flag mp fresh e).fds open_fds k ≡ users s.fds open_fds k
  others_bad fresh k =
      users_same s.fds (bad_state s fd n open_flag mp fresh e).fds open_fds k (λ f h. ground arith)

  module _ (inside : has n s.file_list ≡ true) (few : suc (length open_fds) < size_mod) where
    pub shared_ok : Counted (ok_state s fd n open_flag mp false e) (fd ∷ open_fds)
    shared_ok = record {
      refs = λ k h. ground (arith, c.refs k h, others_ok false k, users-le s.fds open_fds k);
      used = λ k h. ground (arith, c.used k h, c.refs n inside, users-le s.fds open_fds n);
      points = λ f h. ground (arith, c.points f);
      listed_once = c.listed_once;
      open_once = ground (arith, c.open_once);
      files_on = λ m.
          c.files_on m
          ∙ sym (
              on_mp_same s.nodes (ok_state s fd n open_flag mp false e).nodes s.file_list m
                (λ k h. ground arith));
      few = few;
      few_files = c.few_files;
    }

    pub shared_bad : Counted (bad_state s fd n open_flag mp false e) open_fds
    shared_bad = record {
      refs = λ k h. ground (arith, c.refs k h, others_bad false k);
      used = λ k h. ground (arith, c.used k h);
      points = λ f h. ground (arith, c.points f);
      listed_once = c.listed_once;
      open_once = c.open_once;
      files_on = λ m.
          c.files_on m
          ∙ sym (
              on_mp_same s.nodes (bad_state s fd n open_flag mp false e).nodes s.file_list m
                (λ k h. ground arith));
      few = c.few;
      few_files = c.few_files;
    }

module _ (s : Files) (open_fds : List ℕ) (fd n open_flag mp : ℕ) (path_buf : List ℕ) (e : Effect)
    (c : Counted s open_fds) (out : has fd open_fds ≡ false)
    (unused : has n s.file_list ≡ false) where
  abbrev fresh_ok : Files
  fresh_ok = ok_state (attach s n path_buf mp) fd n open_flag mp true e

  abbrev fresh_bad : Files
  fresh_bad = bad_state (attach s n path_buf mp) fd n open_flag mp true e

  same_users : (k : ℕ) → users fresh_ok.fds open_fds k ≡ users s.fds open_fds k
  same_users k = users_same s.fds fresh_ok.fds open_fds k (λ f h. ground arith)

  no_user : users s.fds open_fds n ≡ 0
  no_user =
      users_none s.fds open_fds n
        (λ f h same. cc (subst (λ k. has k s.file_list ≡ true) same (c.points f h), unused))

  same_mps : (m : ℕ) → on_mp fresh_ok.nodes s.file_list m ≡ on_mp s.nodes s.file_list m
  same_mps m = on_mp_same s.nodes fresh_ok.nodes s.file_list m (λ k h. ground arith)

  pub fresh_ok-Counted :
      suc (length open_fds) < size_mod
      → suc (length s.file_list) < size_mod
      → Counted fresh_ok (fd ∷ open_fds)
  fresh_ok-Counted few few_files = record {
    refs =
        λ k h. ground (arith, c.refs k, same_users k, no_user, has-append k s.file_list (n ∷ []));
    used = λ k h.
        ground
          (arith, c.used k, c.refs k, users-le s.fds open_fds k, has-append k s.file_list (n ∷ []));
    points = λ f h. ground (
      arith,
      c.points f,
      has-append n s.file_list (n ∷ []),
      has-append (s.fds f).fnode s.file_list (n ∷ []),
    );
    listed_once = distinct-append n s.file_list c.listed_once unused;
    open_once = ground (arith, c.open_once);
    files_on = λ m. ground (
      arith,
      c.files_on m,
      same_mps m,
      on_mp-append fresh_ok.nodes s.file_list n m,
      on_mp-le s.nodes s.file_list m,
    );
    few = few;
    few_files = omega (arith, length-append s.file_list (n ∷ []));
  }

  bad_users : (k : ℕ) → users fresh_bad.fds open_fds k ≡ users s.fds open_fds k
  bad_users k = users_same s.fds fresh_bad.fds open_fds k (λ f h. ground arith)

  pub fresh_bad-Counted : Counted fresh_bad open_fds
  fresh_bad-Counted =
      let gone = without-append n s.file_list unused in
      record {
        refs = λ k h. ground (arith, c.refs k, bad_users k, gone);
        used = λ k h. ground (arith, c.used k, gone);
        points = λ f h. ground (arith, c.points f, gone);
        listed_once = rw gone c.listed_once;
        open_once = c.open_once;
        files_on = λ m. rw gone (
            c.files_on m
            ∙ sym (on_mp_same s.nodes fresh_bad.nodes s.file_list m (λ k h. ground arith)));
        few = c.few;
        few_files = rw gone c.few_files;
      }
