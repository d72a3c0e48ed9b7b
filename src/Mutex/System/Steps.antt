-- ===== src/Mutex/System/Steps.antt =====
-- What one call of os_mutex_lock or os_mutex_unlock does to the invariant.
use dreamos_cversion.Base.{
  ℕ, ◌+◌, ◌<◌, ◌≡◌, ◌≢◌, refl, sym, ap, ◌∙◌, ◌⊎◌, inl, inr, true, false, ◌||◌, not, some, List, [],
  ◌∷◌, arith, ◌==◌, Bool-cases, ℕ_discrete,
}
use dreamos_cversion.Word.{size_mod, sub_size}
use dreamos_cversion.Mutex.{add, lock, unlock}
use dreamos_cversion.Mutex.System.{System, after_lock, after_unlock, waits, once, Inv}

waits-add : (t task : ℕ) (xs : List ℕ) → waits t (add xs task) ≡ (waits t xs || (t == task))
waits-add t task [] = ground arith
waits-add t task (x ∷ xs) = ground (arith, waits-add t task xs)

once-add :
    (task : ℕ) (xs : List ℕ)
    → task ≢ 0
    → waits task xs ≡ false
    → once xs ≡ true
    → once (add xs task) ≡ true
once-add task [] ne w o = ground arith
once-add task (x ∷ xs) ne w o = ground (arith, once-add task xs, waits-add x task xs)

pub lock-Inv :
    (s : System) (task : ℕ)
    → Inv s
    → task ≢ 0
    → s.asleep task ≡ false
    → s.depth task + 1 < size_mod
    → Inv (after_lock s task)
unfolding after_lock lock
lock-Inv s task inv ne awake small = elim (Bool-cases s.mutex.locked) [
  | inr free ↦
      let (owner, zero', empty) = inv.idle free in
      let queued : (t : ℕ) → s.asleep t ≡ false = λ t. inv.queued t ∙ ap (waits t) empty in
      rw free (record {
        queued = λ t. ground (arith, inv.queued t, queued t);
        once = inv.once;
        others =
            λ t other. ground (arith, inv.others t, inv.counted, other, owner, ap s.depth owner);
        counted = ground (arith, inv.others task, inv.counted, ap s.depth owner);
        bounded = omega arith;
        held = λ h. (omega arith, ne, ground arith);
        idle = λ h. cc;
      })
  | inl held ↦ elim (ℕ_discrete s.mutex.owner task) [
    | yes mine ↦
        let o : (s.mutex.owner == task) ≡ true = ground arith in
        rw (held, o)
          (record {
            queued = λ t. ground (arith, inv.queued t);
            once = inv.once;
            others = λ t other. ground (arith, inv.others t other);
            counted = ground (arith, inv.counted, ap s.depth mine);
            bounded = omega arith;
            held = λ h.
                let (p, own, up) = inv.held held in
                (omega (arith, inv.counted, ap s.depth mine), own, ground arith);
            idle = λ h. cc;
          })
    | no theirs ↦
        let o : (s.mutex.owner == task) ≡ false = ground arith in
        rw (held, o)
          (record {
            queued = λ t. ground (arith, inv.queued t, waits-add t task s.mutex.waiting_list);
            once = once-add task s.mutex.waiting_list ne (sym (inv.queued task) ∙ awake) inv.once;
            others = λ t other. ground (arith, inv.others t other);
            counted = ground (arith, inv.counted);
            bounded = inv.bounded;
            held = λ h. let (p, own, up) = inv.held held in (p, own, ground arith);
            idle = λ h. cc;
          })
  ]
]

pub list_cases : (xs : List ℕ) → (xs ≡ []) ⊎ ((x : ℕ) × (ys : List ℕ) × (xs ≡ x ∷ ys))
list_cases [] = inl refl
list_cases (x ∷ ys) = inr (x, ys, refl)

-- The task that unlocks has locked.
module _ (s : System) (task : ℕ) (inv : Inv s) (mine : s.mutex.owner ≡ task)
    (held : s.mutex.locked ≡ true) (some_left : 0 < s.mutex.refcnt) where
  allowed : not (s.mutex.owner == task) || not s.mutex.locked || (s.mutex.refcnt == 0) ≡ false
  allowed = ground arith

  depth_lem : s.depth task ≡ s.mutex.refcnt
  depth_lem = ap s.depth (sym mine) ∙ inv.counted

  -- It keeps the mutex.
  pub keeps_lem :
      1 < s.mutex.refcnt
      → (unlock s.mutex task ≡ some (record s.mutex { refcnt = sub_size s.mutex.refcnt 1 }, 0))
        × Inv (after_unlock s task (record s.mutex { refcnt = sub_size s.mutex.refcnt 1 }) 0)
  unfolding unlock after_unlock
  keeps_lem more =
      let left : (sub_size s.mutex.refcnt 1 == 0) ≡ false = ground (arith, inv.bounded) in
      (
        rw (allowed, left) refl,
        record {
          queued = inv.queued;
          once = inv.once;
          others = λ t other. ground (arith, inv.others t other);
          counted = ground (arith, inv.counted, inv.bounded, depth_lem);
          bounded = omega arith;
          held = λ h. let (p, own, up) = inv.held held in (omega (arith, inv.bounded), own, up);
          idle = λ h. cc;
        },
      )

  -- It hands the mutex to the first task that waits.
  pub hands_lem :
      (x : ℕ) (ys : List ℕ)
      → s.mutex.refcnt ≡ 1
      → s.mutex.waiting_list ≡ x ∷ ys
      → (unlock s.mutex task
          ≡ some (record { locked = s.mutex.locked; owner = x; refcnt = 1; waiting_list = ys }, x))
        × Inv (
            after_unlock s task
              (record { locked = s.mutex.locked; owner = x; refcnt = 1; waiting_list = ys })
              x)
  unfolding unlock after_unlock
  hands_lem x ys last queue =
      let o : once (x ∷ ys) ≡ true = ap once (sym queue) ∙ inv.once in
      let nonzero : (x == 0) ≡ false = ground arith in
      let queued : (t : ℕ) → s.asleep t ≡ ((t == x) || waits t ys) =
        λ t. inv.queued t ∙ ap (waits t) queue in
      let (_, own, up) = inv.held held in
      let other : s.mutex.owner ≢ x = λ e. absurd (ground (arith, queued x, ap s.asleep e)) in
      (
        rw (allowed, last, queue, nonzero) refl,
        record {
          queued = λ t. ground (arith, queued t);
          once = ground arith;
          others = λ t ne. ground (arith, inv.others t, depth_lem);
          counted = ground (arith, inv.others x other);
          bounded = omega arith;
          held = λ h. (omega arith, ground arith, ground arith);
          idle = λ h. cc;
        },
      )

  -- Nobody waits.
  pub frees_lem :
      s.mutex.refcnt ≡ 1
      → s.mutex.waiting_list ≡ []
      → (unlock s.mutex task
          ≡ some (record { locked = false; owner = 0; refcnt = 0; waiting_list = [] }, 0))
        × Inv (
            after_unlock s task
              (record { locked = false; owner = 0; refcnt = 0; waiting_list = [] })
              0)
  unfolding unlock after_unlock
  frees_lem last queue =
      let (_, own, up) = inv.held held in
      (
        rw (allowed, last, queue) refl,
        record {
          queued = λ t. inv.queued t ∙ ap (waits t) queue;
          once = refl;
          others = λ t ne. ground (arith, inv.others t, depth_lem);
          counted = ground (arith, inv.others 0, depth_lem);
          bounded = omega arith;
          held = λ h. cc;
          idle = λ h. (refl, refl, refl);
        },
      )
