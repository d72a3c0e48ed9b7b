-- ===== src/Files/Settle.antt =====
-- os_file_open on every branch, once it has the mount point.
use dreamos_cversion.Base.{
  ℕ, suc, ◌-◌, ◌<◌, ◌≡◌, refl, sym, subst, inl, inr, Bool, true, false, List, ◌∷◌, arith, ◌==◌,
  if◌then◌else◌, Bool-cases, length, has,
}
use dreamos_cversion.Word.{size_mod}
use dreamos_cversion.Files.Session.{is_ok, Unlocked, Session, after_open, InCount}
use dreamos_cversion.Files.Open.{
  ok_state, bad_state, shared_ok, shared_bad, fresh_ok-Counted, fresh_bad-Counted,
}
use dreamos_cversion.Files.Count.{Counted}
use dreamos_cversion.Files.{
  Effect, FileOps, Files, FileErr, enter, leave, attach, describe, open_node, ok, no_memory,
  from_fs,
}

-- The mutexes are no part of the counts.
pub locks-Counted :
    (s : Files) (open_fds : List ℕ) (a b : ℕ) (m n f : ℕ → ℕ)
    → Counted s open_fds
    → Counted
        (record s { file_lock = a; vfs_lock = b; mp_lock = m; node_lock = n; fd_lock = f })
        open_fds
locks-Counted s open_fds a b m n f c = record {
  refs = c.refs;
  used = c.used;
  points = c.points;
  listed_once = c.listed_once;
  open_once = c.open_once;
  files_on = c.files_on;
  few = c.few;
  few_files = c.few_files;
}

module _ (ops : (mp : ℕ) → FileOps) where
  module _ (t : Session) (i : InCount t) (fd : ℕ) (out : has fd t.open_fds ≡ false)
      (few : suc (length t.open_fds) < size_mod)
      (few_files : suc (length t.files.file_list) < size_mod) where
    entered-Counted : Counted (enter t.files) t.open_fds
    entered-Counted = locks-Counted t.files t.open_fds _ _ _ _ _ i.counted

    -- The openings that stop before there is a node.
    pub refused :
        (err : FileErr) → is_ok err ≡ false → InCount (after_open t fd (err, leave (enter t.files)))
    refused err bad = record {
      counted = rw bad (locks-Counted t.files t.open_fds _ _ _ _ _ i.counted);
      unlocked = λ h.
          let u = i.unlocked (ground arith) in
          record {
            file_free = omega (arith, u.file_free);
            vfs_free = omega (arith, u.vfs_free);
            mp_free = u.mp_free;
          };
    }

    pub no_node : InCount (
        after_open t fd
          (no_memory, record (enter t.files) { vfs_lock = (enter t.files).vfs_lock - 1 }))
    no_node = record {
      counted = locks-Counted t.files t.open_fds _ _ _ _ _ i.counted;
      unlocked = λ h. absurd (ground arith);
    }

    pub settled :
        (err : FileErr) (s' : Files)
        → Counted s' (if is_ok err then fd ∷ t.open_fds else t.open_fds)
        → (Unlocked t.files → Unlocked s')
        → InCount (after_open t fd (err, s'))
    settled err s' c u = record { counted = c; unlocked = λ h. u (i.unlocked (ground arith)) }

    -- All that is held is given back.
    ok_state-Unlocked :
        (s : Files) (n open_flag mp : ℕ) (fresh : Bool) (e : Effect)
        → s.file_lock ≡ 1
        → s.vfs_lock ≡ 1
        → ((m : ℕ) → s.mp_lock m ≡ 0)
        → Unlocked (ok_state s fd n open_flag mp fresh e)
          × Unlocked (bad_state s fd n open_flag mp fresh e)
    ok_state-Unlocked s n open_flag mp fresh e f v ml = (
      record {
        file_free = ground arith;
        vfs_free = ground arith;
        mp_free = λ m. ground (arith, ml m);
      },
      record {
        file_free = ground arith;
        vfs_free = ground arith;
        mp_free = λ m. ground (arith, ml m);
      },
    )

    module _ (n open_flag mp : ℕ) where
      abbrev effect_on : Files → Effect
      effect_on s =
          (ops mp).open_op ((describe s fd n open_flag mp).nodes n)
            ((describe s fd n open_flag mp).fds fd)

      pub shared-InCount :
          has n t.files.file_list ≡ true
          → InCount (after_open t fd (open_node ops (enter t.files) fd n open_flag mp false))
      shared-InCount inside =
          let s = enter t.files in
          let e = effect_on s in
          elim (Bool-cases (e.code == 0)) [
            | inl good ↦
                let goes : open_node ops s fd n open_flag mp false
                    ≡ (ok, ok_state s fd n open_flag mp false e) =
                  rw good refl in
                subst (λ r. InCount (after_open t fd r)) (sym goes)
                  (settled ok (ok_state s fd n open_flag mp false e)
                    (shared_ok s t.open_fds fd n open_flag mp e entered-Counted out inside few)
                    (λ u.
                      (ok_state-Unlocked s n open_flag mp false e (omega (arith, u.file_free))
                        (omega (arith, u.vfs_free)) u.mp_free).0))
            | inr bad ↦
                let goes : open_node ops s fd n open_flag mp false
                    ≡ (from_fs e.code, bad_state s fd n open_flag mp false e) =
                  rw bad refl in
                subst (λ r. InCount (after_open t fd r)) (sym goes)
                  (settled (from_fs e.code) (bad_state s fd n open_flag mp false e)
                    (shared_bad s t.open_fds fd n open_flag mp e entered-Counted out inside few)
                    (λ u.
                      (ok_state-Unlocked s n open_flag mp false e (omega (arith, u.file_free))
                        (omega (arith, u.vfs_free)) u.mp_free).1))
          ]

      pub fresh-InCount :
          (path_buf : List ℕ)
          → has n t.files.file_list ≡ false
          → InCount (
              after_open t fd
                (open_node ops (attach (enter t.files) n path_buf mp) fd n open_flag mp true))
      fresh-InCount path_buf unused =
          let s = attach (enter t.files) n path_buf mp in
          let e = effect_on s in
          elim (Bool-cases (e.code == 0)) [
            | inl good ↦
                let goes : open_node ops s fd n open_flag mp true
                    ≡ (ok, ok_state s fd n open_flag mp true e) =
                  rw good refl in
                subst (λ r. InCount (after_open t fd r)) (sym goes)
                  (settled ok (ok_state s fd n open_flag mp true e)
                    (fresh_ok-Counted (enter t.files) t.open_fds fd n open_flag mp path_buf e
                      entered-Counted out unused few few_files)
                    (λ u.
                      (ok_state-Unlocked s n open_flag mp true e (omega (arith, u.file_free))
                        (omega (arith, u.vfs_free)) u.mp_free).0))
            | inr bad ↦
                let goes : open_node ops s fd n open_flag mp true
                    ≡ (from_fs e.code, bad_state s fd n open_flag mp true e) =
                  rw bad refl in
                subst (λ r. InCount (after_open t fd r)) (sym goes)
                  (settled (from_fs e.code) (bad_state s fd n open_flag mp true e)
                    (fresh_bad-Counted (enter t.files) t.open_fds fd n open_flag mp path_buf e
                      entered-Counted out unused)
                    (λ u.
                      (ok_state-Unlocked s n open_flag mp true e (omega (arith, u.file_free))
                        (omega (arith, u.vfs_free)) u.mp_free).1))
          ]
