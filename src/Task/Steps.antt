-- ===== src/Task/Steps.antt =====
-- Each operation of the scheduler and its invariant.
use dreamos_cversion.Base.{
  ℕ, ◌<◌, ◌≤◌, ◌≡◌, ◌≢◌, sym, subst, ◌∙◌, true, false, [], ◌∷◌, ◌++◌, arith, has, has-append,
  distinct-append,
}
use dreamos_cversion.Task.Schedule.{schedule-Scheduled, stops, overflows, stays, enters}
use dreamos_cversion.Task.Switch.{
  switch_task-task_list, switch_task-current_task, switch_task-priority, switch_task-state,
  switch_task-InOrder,
}
use dreamos_cversion.Task.Inv.{Placed, InOrder, IsNext}
use dreamos_cversion.Task.{
  is_running, is_ready, is_sleeping, Task, Kernel, priority_uplimit, write, insert_tail,
  switch_task, schedule, set_current_task_state, ready, sleeping, runs, assertion_failed,
  stack_overflowed,
}

-- No ready task has a higher priority than the current one.
abbrev pub IsTop : Kernel → Type 0
IsTop s =
    (t : ℕ)
    → has t s.task_list ≡ true
    → is_ready (s.tasks t).task_state ≡ true
    → (s.tasks s.current_task).priority ≤ (s.tasks t).priority

module _ (idle : ℕ) (s s' : Kernel) where
  entered-IsTop :
      (n : ℕ)
      → IsNext s n
      → (is_running (s.tasks s.current_task).task_state ≡ true
          → (s.tasks n).priority ≤ (s.tasks s.current_task).priority)
      → IsTop (switch_task s n)
  entered-IsTop n next h t l r =
      let listed = subst (λ xs. has t xs ≡ true) (switch_task-task_list s n) l in
      let state = subst (λ x. is_ready x ≡ true) (switch_task-state s n t) r in
      rw (switch_task-current_task s n, switch_task-priority s n n, switch_task-priority s n t)
        (ground (arith, next.best t listed))

  -- os_task_schedule keeps the scheduler in order, and afterwards no ready task is passed over.
  pub schedule-InOrder :
      Placed idle s
      → is_ready (s.tasks s.current_task).task_state ≡ false
      → (s.current_task ≡ idle → is_running (s.tasks idle).task_state ≡ true)
      → schedule s ≡ runs s'
      → InOrder idle s' × IsTop s'
  schedule-InOrder inv nr i e = elim (schedule-Scheduled idle s inv nr) [
    | stops o h ↦ absurd (let bad : assertion_failed ≡ runs s' = sym o ∙ e in cc)
    | overflows o h ↦ absurd (let bad : stack_overflowed ≡ runs s' = sym o ∙ e in cc)
    | stays o r top ↦
        let same : s ≡ s' = (let both : runs s ≡ runs s' = sym o ∙ e in cc) in
        subst (λ k. InOrder idle k × IsTop k) same
          (record { placed = inv; runs = r }, λ t l a. omega (arith, top t l a))
    | enters n o next h ↦
        let same : switch_task s n ≡ s' =
          (let both : runs (switch_task s n) ≡ runs s' = sym o ∙ e in cc) in
        subst (λ k. InOrder idle k × IsTop k) same
          (switch_task-InOrder idle s n inv next.able next.listed nr i, entered-IsTop n next h)
  ]

-- A change of the structure of a task that leaves its priority and its state.
pub write-Placed :
    (idle : ℕ) (s : Kernel) (t : ℕ) (task : Task)
    → Placed idle s
    → task.priority ≡ (s.tasks t).priority
    → task.task_state ≡ (s.tasks t).task_state
    → Placed idle (write s t task)
write-Placed idle s t task inv p st = record {
  queued = λ q u. ground (arith, inv.queued q u);
  once = inv.once;
  alone = λ u l r. inv.alone u l (ground arith);
  listed = inv.listed;
  bounded = λ u l. ground (arith, inv.bounded u l);
  idle_listed = inv.idle_listed;
  idle_last = ground (arith, inv.idle_last);
  idle_able = ground (arith, inv.idle_able);
}

-- The structure of a task that is not started is nobody's concern.
pub unlisted-Placed :
    (idle : ℕ) (s : Kernel) (t : ℕ) (task : Task)
    → Placed idle s
    → has t s.task_list ≡ false
    → Placed idle (write s t task)
unlisted-Placed idle s t task inv h = record {
  queued = λ q u. ground (arith, inv.queued q u);
  once = inv.once;
  alone = λ u l r. inv.alone u l (ground arith);
  listed = inv.listed;
  bounded = λ u l. ground (arith, inv.bounded u l);
  idle_listed = inv.idle_listed;
  idle_last = ground (arith, inv.idle_last, inv.idle_listed);
  idle_able = ground (arith, inv.idle_able, inv.idle_listed);
}

-- The current task, which is not the idle one, falls asleep.
pub sleeping-Placed :
    (idle : ℕ) (s : Kernel)
    → InOrder idle s
    → s.current_task ≢ idle
    → Placed idle (set_current_task_state s sleeping)
sleeping-Placed idle s inv ne = record {
  queued = λ q u. ground (arith, inv.placed.queued q u, inv.runs);
  once = inv.placed.once;
  alone = λ u l r. inv.placed.alone u l (ground arith);
  listed = inv.placed.listed;
  bounded = λ u l. ground (arith, inv.placed.bounded u l);
  idle_listed = inv.placed.idle_listed;
  idle_last = ground (arith, inv.placed.idle_last);
  idle_able = ground (arith, inv.placed.idle_able);
}

-- A task that sleeps is made ready.
pub woken-Placed :
    (idle : ℕ) (s : Kernel) (t : ℕ)
    → Placed idle s
    → has t s.task_list ≡ true
    → is_sleeping (s.tasks t).task_state ≡ true
    → Placed idle (insert_tail (write s t (record (s.tasks t) { task_state = ready })) t)
woken-Placed idle s t inv l z = record {
  queued = λ q u. ground (arith, inv.queued q u, has-append u (s.priority_ready_list q) (t ∷ []));
  once =
      λ q. ground (arith, inv.once q, inv.queued q t, distinct-append t (s.priority_ready_list q));
  alone = λ u lu r. inv.alone u lu (ground arith);
  listed = inv.listed;
  bounded = λ u lu. ground (arith, inv.bounded u lu);
  idle_listed = inv.idle_listed;
  idle_last = ground (arith, inv.idle_last);
  idle_able = ground (arith, inv.idle_able);
}

-- A task that is filled in and not started is started.
pub started-Placed :
    (idle : ℕ) (s : Kernel) (t : ℕ)
    → Placed idle s
    → has t s.task_list ≡ false
    → is_ready (s.tasks t).task_state ≡ true
    → 0 < t
    → (s.tasks t).priority < priority_uplimit
    → Placed idle (insert_tail (record s { task_list = s.task_list ++ t ∷ [] }) t)
started-Placed idle s t inv l r z b = record {
  queued = λ q u. ground (
    arith,
    inv.queued q u,
    has-append u (s.priority_ready_list q) (t ∷ []),
    has-append u s.task_list (t ∷ []),
  );
  once =
      λ q. ground (arith, inv.once q, inv.queued q t, distinct-append t (s.priority_ready_list q));
  alone = λ u lu ru. inv.alone u (ground (arith, has-append u s.task_list (t ∷ []))) ru;
  listed = ground (arith, has-append s.current_task s.task_list (t ∷ []), inv.listed);
  bounded = λ u lu. ground (arith, inv.bounded u, has-append u s.task_list (t ∷ []));
  idle_listed = ground (arith, has-append idle s.task_list (t ∷ []), inv.idle_listed);
  idle_last = inv.idle_last;
  idle_able = inv.idle_able;
}
