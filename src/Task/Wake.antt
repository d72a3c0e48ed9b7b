-- ===== src/Task/Wake.antt =====
-- What waking a task leads to, and when the scheduler finds no task.
use dreamos_cversion.Base.{
  ℕ, ◌<◌, ◌≡◌, ◌↔◌, sym, subst, ◌∙◌, inl, inr, true, false, arith, ℕ_discrete, has,
}
use dreamos_cversion.Task.Switch.{switch_task-InOrder}
use dreamos_cversion.Task.Reach.{Reachable, Reachable-InOrder}
use dreamos_cversion.Task.Steps.{IsTop, woken-Placed}
use dreamos_cversion.Task.Schedule.{schedule-Scheduled, stops, overflows, stays, enters}
use dreamos_cversion.Task.Inv.{InOrder, IsNext, NoneReady, get_next_task-IsNext}
use dreamos_cversion.Task.{
  is_sleeping, Kernel, get_next_task, stack_overflows, switch_task, schedule, in_task_context,
  woken, wake_up, runs, assertion_failed, stack_overflowed,
}

module _ (idle : ℕ) (s : Kernel) (t : ℕ) (inv : InOrder idle s) where
  -- A sleeping task of a higher priority than every other is the one to enter.
  woken_next :
      IsTop s
      → is_sleeping (s.tasks t).task_state ≡ true
      → (s.tasks t).priority < (s.tasks s.current_task).priority
      → has t s.task_list ≡ true
      → (n : ℕ) → IsNext (woken s t) n
      → n ≡ t
  woken_next top z lt l n next = elim (ℕ_discrete n t) [
    | yes same ↦ same
    | no other ↦ absurd (ground (arith, next.able, next.listed, next.best t, top n))
  ]

  -- If the scheduler is in order and no ready task has a higher priority than the current one,
  -- then os_task_wakeup, in a task whose stack pointer is inside its stack, of a started task
  -- that sleeps and has a higher priority than the current one, switches to the woken task at
  -- once and leaves the scheduler in order.
  pub wake_up-Preempts :
      IsTop s
      → in_task_context s ≡ true
      → stack_overflows (s.tasks s.current_task) ≡ false
      → has t s.task_list ≡ true
      → is_sleeping (s.tasks t).task_state ≡ true
      → (s.tasks t).priority < (s.tasks s.current_task).priority
      → (wake_up s t ≡ runs (switch_task (woken s t) t)) × InOrder idle (switch_task (woken s t) t)
  unfolding wake_up
  wake_up-Preempts top c fits l z lt =
      let placed = woken-Placed idle s t inv.placed l z in
      let called : wake_up s t ≡ schedule (woken s t) = ground arith in
      let goes : schedule (woken s t) ≡ runs (switch_task (woken s t) t) =
        elim (schedule-Scheduled idle (woken s t) placed (ground (arith, inv.runs))) [
          | stops o none_ready ↦ absurd (ground (arith, none_ready t l))
          | overflows o over ↦ absurd (ground (arith, inv.runs))
          | stays o r above ↦ absurd (ground (arith, above t l))
          | enters n o next h ↦
              subst (λ k. schedule (woken s t) ≡ runs (switch_task (woken s t) k))
                (woken_next top z lt l n next) o
        ] in
      (
        called ∙ goes,
        switch_task-InOrder idle (woken s t) t placed (ground arith) l (ground (arith, inv.runs))
            (λ i. ground (arith, inv.runs)),
      )

module _ (idle : ℕ) (s : Kernel) (inv : InOrder idle s) where
  stops_none : schedule s ≡ assertion_failed → NoneReady s
  stops_none e = elim (schedule-Scheduled idle s inv.placed (ground (arith, inv.runs))) [
    | stops o none_ready ↦ none_ready
    | overflows o over ↦ absurd (let bad : stack_overflowed ≡ assertion_failed = sym o ∙ e in cc)
    | stays o r above ↦ absurd (let bad : runs s ≡ assertion_failed = sym o ∙ e in cc)
    | enters n o next h ↦
        absurd (let bad : runs (switch_task s n) ≡ assertion_failed = sym o ∙ e in cc)
  ]

  none_stops : NoneReady s → schedule s ≡ assertion_failed
  unfolding schedule
  none_stops none_ready = elim (get_next_task-IsNext idle s inv.placed) [
    | inl (z, _) ↦ ground arith
    | inr next ↦ absurd (ground (arith, none_ready (get_next_task s) next.listed, next.able))
  ]

  none_idle : NoneReady s → s.current_task ≡ idle
  none_idle none_ready = sym (
      inv.placed.alone idle inv.placed.idle_listed
        (ground (arith, inv.placed.idle_able, none_ready idle inv.placed.idle_listed)))

-- In every state that the scheduler reaches, os_task_schedule fails its assertion if and only if
-- no started task is ready, and then the current task is the idle task.
pub Reachable-Stops :
    {idle : ℕ} {s : Kernel}
    → Reachable idle s
    → ((schedule s ≡ assertion_failed) ↔ NoneReady s) × (NoneReady s → s.current_task ≡ idle)
Reachable-Stops {idle} {s} r =
    let inv = Reachable-InOrder r in
    ((stops_none idle s inv, none_stops idle s inv), none_idle idle s inv)
