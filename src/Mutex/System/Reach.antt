-- ===== src/Mutex/System/Reach.antt =====
-- What holds in every state that tasks can reach.
use dreamos_cversion.Base.{
  ℕ, ◌<◌, ◌≡◌, refl, sym, ap, subst, ◌∙◌, inl, inr, true, false, ◌||◌, not, Option, none, some, [],
  arith, ◌==◌, Bool-cases, ℕ_discrete,
}
use dreamos_cversion.Word.{sub_size}
use dreamos_cversion.Mutex.{Mutex, unlock}
use dreamos_cversion.Mutex.System.Steps.{lock-Inv, list_cases, keeps_lem, hands_lem, frees_lem}
use dreamos_cversion.Mutex.System.{
  System, after_unlock, locks, unlocks, Reachable, begins, steps, waits, Inv, start-Inv,
}

-- os_mutex_unlock fails an assertion, or the task has locked the mutex.
unlocked_lem :
    (s : System) (task : ℕ) (r : Mutex × ℕ)
    → unlock s.mutex task ≡ some r
    → (s.mutex.owner ≡ task) × (s.mutex.locked ≡ true) × (0 < s.mutex.refcnt)
unfolding unlock
unlocked_lem s task r e =
    elim (Bool-cases (not (s.mutex.owner == task) || not s.mutex.locked || (s.mutex.refcnt == 0))) [
      | inl refused ↦ absurd (none-ne-some (sym (rw refused refl) ∙ e))
      | inr fine ↦ (ground arith, ground arith, ground arith)
    ]
  where
    none-ne-some : {r : Mutex × ℕ} → none ≡ some r → ⊥
    none-ne-some h = cc

-- The result of a call is the one that is known.
settled_lem :
    (s : System) (task : ℕ) {o : Option (Mutex × ℕ)} (r r' : Mutex × ℕ)
    → o ≡ some r
    → o ≡ some r'
    → Inv (after_unlock s task r'.0 r'.1)
    → Inv (after_unlock s task r.0 r.1)
settled_lem s task r r' e e' inv =
    subst (λ (q : Mutex × ℕ). Inv (after_unlock s task q.0 q.1))
      (ap (λ o. elim o [ none ↦ r | some x ↦ x ]) (sym e' ∙ e)) inv

-- A task that has a lock to give back is the owner.
owner_lem : (s : System) → Inv s → (t : ℕ) → 0 < s.depth t → s.mutex.owner ≡ t
owner_lem s inv t h = elim (ℕ_discrete s.mutex.owner t) [
  | yes e ↦ e
  | no ne ↦ absurd (omega (arith, inv.others t ne))
]

locked_lem : (s : System) → Inv s → 0 < s.mutex.refcnt → s.mutex.locked ≡ true
locked_lem s inv h = elim (Bool-cases s.mutex.locked) [
  | inl held ↦ held
  | inr free ↦ let (_, e, _) = inv.idle free in absurd (omega arith)
]

sleeper_lem :
    (s : System)
    → Inv s
    → (t : ℕ) → s.asleep t ≡ true
    → (0 < s.depth s.mutex.owner) × (s.asleep s.mutex.owner ≡ false) × (s.depth t ≡ 0)
sleeper_lem s inv t sleeps = elim (Bool-cases s.mutex.locked) [
  | inr free ↦
      let (_, _, e) = inv.idle free in absurd (ground (arith, inv.queued t, ap (waits t) e))
  | inl held ↦
      let (p, own, up) = inv.held held in
      (omega (arith, inv.counted), up, inv.others t (λ e. absurd (ground (arith, ap s.asleep e))))
]

-- The owner may unlock.
unlocks_lem :
    (s : System) (task : ℕ)
    → Inv s
    → s.mutex.owner ≡ task
    → 0 < s.depth task
    → (r : Mutex × ℕ) × (unlock s.mutex task ≡ some r) × Inv (after_unlock s task r.0 r.1)
unlocks_lem s task inv mine h =
    let left : 0 < s.mutex.refcnt = omega (arith, inv.counted, ap s.depth mine) in
    let held = locked_lem s inv left in
    elim (ℕ_discrete s.mutex.refcnt 1) [
      | no more ↦
          let (e', inv') = keeps_lem s task inv mine held left (omega arith) in
          ((record s.mutex { refcnt = sub_size s.mutex.refcnt 1 }, 0), e', inv')
      | yes last ↦ elim (list_cases s.mutex.waiting_list) [
        | inl queue ↦
            let (e', inv') = frees_lem s task inv mine held left last queue in
            ((record { locked = false; owner = 0; refcnt = 0; waiting_list = [] }, 0), e', inv')
        | inr (x, ys, queue) ↦
            let (e', inv') = hands_lem s task inv mine held left x ys last queue in
            (
              (record { locked = s.mutex.locked; owner = x; refcnt = 1; waiting_list = ys }, x),
              e',
              inv',
            )
      ]
    ]

unlock-Inv :
    (s : System) (task : ℕ) (r : Mutex × ℕ)
    → Inv s
    → unlock s.mutex task ≡ some r
    → Inv (after_unlock s task r.0 r.1)
unlock-Inv s task r inv e =
    let (mine, held, left) = unlocked_lem s task r e in
    let (r', e', inv') =
      unlocks_lem s task inv mine (omega (arith, inv.counted, ap s.depth mine)) in
    settled_lem s task r r' e e' inv'

-- In every state that tasks reach by locking and unlocking the mutex in any order, each having
-- locked it less than 2 ^ 64 - 1 times when it locks again: the tasks that sleep are those in the
-- waiting list, none twice; only the owner has locks to give back, refcnt is their number, and it
-- fits os_size_t; a locked mutex has an owner that does not sleep and a refcnt that is not 0, and
-- one that is not locked has no owner, no refcnt and nobody waiting.
pub Reachable-Inv : {s : System} → Reachable s → Inv s
Reachable-Inv begins = start-Inv
Reachable-Inv (steps r (locks {s} task ne awake small)) =
    lock-Inv s task (Reachable-Inv r) ne awake small
Reachable-Inv (steps r (unlocks {s} task {mutex} {woken} awake e)) =
    unlock-Inv s task (mutex, woken) (Reachable-Inv r) e

-- In every state that tasks reach by locking and unlocking the mutex in any order, each having
-- locked it less than 2 ^ 64 - 1 times when it locks again: two tasks that have locks to give
-- back are the same; while a task sleeps in os_mutex_lock, it has none to give back, and the
-- owner has one and does not sleep; and every task that has one can unlock, no assertion fails.
pub Reachable-exclusive :
    {s : System}
    → Reachable s
    → ((t u : ℕ) → 0 < s.depth t → 0 < s.depth u → t ≡ u)
      × ((t : ℕ)
          → s.asleep t ≡ true
          → (0 < s.depth s.mutex.owner) × (s.asleep s.mutex.owner ≡ false) × (s.depth t ≡ 0))
      × ((t : ℕ) → 0 < s.depth t → (r : Mutex × ℕ) × (unlock s.mutex t ≡ some r))
Reachable-exclusive {s} reach =
    let inv = Reachable-Inv reach in
    (
      λ t u ht hu. sym (owner_lem s inv t ht) ∙ owner_lem s inv u hu,
      λ t sleeps. sleeper_lem s inv t sleeps,
      λ t ht. let (r, e, _) = unlocks_lem s t inv (owner_lem s inv t ht) ht in (r, e),
    )
