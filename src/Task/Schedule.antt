-- ===== src/Task/Schedule.antt =====
-- os_task_schedule on every branch.
use dreamos_cversion.Base.{
  ℕ, ◌<◌, ◌≤◌, ◌≡◌, ◌≢◌, ap, inl, inr, true, false, ◌&&◌, arith, ltb, Bool-cases, has,
}
use dreamos_cversion.Task.Inv.{Placed, IsNext, NoneReady, get_next_task-IsNext}
use dreamos_cversion.Task.{
  is_running, is_ready, Kernel, Outcome, get_next_task, stack_overflows, switch_task, schedule,
  runs, assertion_failed, stack_overflowed,
}

-- What os_task_schedule does: nothing is ready and it stops; the stack pointer of the current task is
-- outside its stack; the current task goes on, since those that are ready have lower priorities; or
-- a ready task of the highest priority is entered.
pub data Scheduled (s : Kernel) (o : Outcome) : Type 0 where
  stops : o ≡ assertion_failed → NoneReady s → Scheduled s o
  overflows : o ≡ stack_overflowed → stack_overflows (s.tasks s.current_task) ≡ true → Scheduled s o
  stays :
      o ≡ runs s
      → is_running (s.tasks s.current_task).task_state ≡ true
      → ((t : ℕ)
          → has t s.task_list ≡ true
          → is_ready (s.tasks t).task_state ≡ true
          → (s.tasks s.current_task).priority < (s.tasks t).priority)
      → Scheduled s o
  enters :
      (n : ℕ)
      → o ≡ runs (switch_task s n)
      → IsNext s n
      → (is_running (s.tasks s.current_task).task_state ≡ true
          → (s.tasks n).priority ≤ (s.tasks s.current_task).priority)
      → Scheduled s o

module _ (idle : ℕ) (s : Kernel) (inv : Placed idle s) where
  schedule_next :
      is_ready (s.tasks s.current_task).task_state ≡ false
      → IsNext s (get_next_task s)
      → stack_overflows (s.tasks s.current_task) ≡ false
      → Scheduled s (schedule s)
  unfolding schedule
  schedule_next nr next fits =
      let nonzero = (inv.bounded (get_next_task s) next.listed).0 in
      let other : get_next_task s ≢ s.current_task =
        λ e. ground (arith, ap (λ t. is_ready (s.tasks t).task_state) e, next.able) in
      elim (Bool-cases (
        is_running (s.tasks s.current_task).task_state
        && ltb (s.tasks s.current_task).priority (s.tasks (get_next_task s)).priority)) [
          | inl keeps ↦
              stays (ground arith) (ground arith) (λ t l a. ground (arith, next.best t l a))
          | inr leaves ↦ enters (get_next_task s) (ground arith) next (λ r. ground arith)
        ]

  pub schedule-Scheduled :
      is_ready (s.tasks s.current_task).task_state ≡ false → Scheduled s (schedule s)
  unfolding schedule
  schedule-Scheduled nr = elim (get_next_task-IsNext idle s inv) [
    | inl (z, none_ready) ↦ stops (ground arith) none_ready
    | inr next ↦ elim (Bool-cases (stack_overflows (s.tasks s.current_task))) [
      | inl o ↦ overflows (ground (arith, inv.bounded (get_next_task s) next.listed)) o
      | inr fits ↦ schedule_next nr next fits
    ]
  ]
