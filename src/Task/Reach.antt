-- ===== src/Task/Reach.antt =====
-- The scheduler under any sequence of calls.
use dreamos_cversion.Base.{
  ℕ, ◌<◌, ◌≤◌, ◌≡◌, ◌≢◌, refl, subst, true, false, [], ◌∷◌, arith, ◌==◌, if◌then◌else◌, ℕ_discrete,
  has,
}
use dreamos_cversion.Task.Calls.{
  yield_now-InOrder, sleep-InOrder, wake_up-InOrder, write-InOrder, frame-InOrder, unlisted-InOrder,
  startup-InOrder, tick_handler-InOrder,
}
use dreamos_cversion.Task.Schedule.{Scheduled, schedule-Scheduled}
use dreamos_cversion.Task.Inv.{InOrder}
use dreamos_cversion.Task.{
  is_ready, Task, Kernel, priority_max, write, schedule, yield_now, sleep, wake_up, startup,
  tick_handler, enter_interrupt, leave_interrupt, scheduler_start, scheduler_init, runs,
}

-- A call that returns, or what the rest of the system does: it fills in the structure of a task that
-- is not started, saves the stack pointer of a task, enters and leaves interrupts, and carries out
-- the switch that was put off.
pub data Step (idle : ℕ) (s : Kernel) : Kernel → Type 0 where
  fills : (t : ℕ) (task : Task) → has t s.task_list ≡ false → Step idle s (write s t task)
  saves : (t sp : ℕ) → Step idle s (write s t (record (s.tasks t) { sp = sp }))
  starts :
      {s' : Kernel} (t : ℕ)
      → has t s.task_list ≡ false
      → is_ready (s.tasks t).task_state ≡ true
      → (s.tasks t).priority ≤ priority_max
      → startup s t ≡ runs s'
      → Step idle s s'
  yields : {s' : Kernel} → yield_now s ≡ runs s' → Step idle s s'
  sleeps : {s' : Kernel} → s.current_task ≢ idle → sleep s ≡ runs s' → Step idle s s'
  wakes : {s' : Kernel} (t : ℕ) → has t s.task_list ≡ true → wake_up s t ≡ runs s' → Step idle s s'
  ticks : {s' : Kernel} → tick_handler s ≡ runs s' → Step idle s s'
  enters_interrupt : Step idle s (enter_interrupt s)
  leaves_interrupt : Step idle s (leave_interrupt s)
  switches : Step idle s (record s { need_lazy_task_switch = false })

-- The idle task is filled in, started and entered; then any steps follow.
pub data Reachable (idle : ℕ) : Kernel → Type 0 where
  begins :
      {s : Kernel} (tasks : ℕ → Task)
      → is_ready (tasks idle).task_state ≡ true
      → (tasks idle).priority ≡ priority_max
      → scheduler_init tasks idle ≡ runs s
      → Reachable idle (scheduler_start s idle)
  steps : {s s' : Kernel} → Reachable idle s → Step idle s s' → Reachable idle s'

-- The lists as os_task_scheduler_init leaves them.
abbrev booted : (ℕ → Task) → ℕ → Kernel
booted tasks idle = record {
  tasks = tasks;
  task_list = idle ∷ [];
  priority_ready_list = λ p. if p == (tasks idle).priority then idle ∷ [] else [];
  current_task = 0;
  need_lazy_task_switch = false;
  lazy_old_task = 0;
  lazy_next_task = 0;
  interrupt_nest = 0;
  global_tick = 0;
  switches = [];
}

booted_lem :
    (idle : ℕ) (s : Kernel) (tasks : ℕ → Task)
    → scheduler_init tasks idle ≡ runs s
    → (0 < idle) × (booted tasks idle ≡ s)
unfolding scheduler_init startup
booted_lem idle s tasks e = elim (ℕ_discrete idle 0) [
  | yes z ↦ absurd (ground arith)
  | no nz ↦ (omega arith, let both : runs (booted tasks idle) ≡ runs s = ground (arith, e) in cc)
]

begins-InOrder :
    (idle : ℕ) (s : Kernel) (tasks : ℕ → Task)
    → is_ready (tasks idle).task_state ≡ true
    → (tasks idle).priority ≡ priority_max
    → scheduler_init tasks idle ≡ runs s
    → InOrder idle (scheduler_start s idle)
unfolding scheduler_start
begins-InOrder idle s tasks r p e =
    let (z, same) = booted_lem idle s tasks e in
    subst (λ k. InOrder idle (scheduler_start k idle)) same
      (record {
        placed = record {
          queued = λ q u. ground arith;
          once = λ q. ground arith;
          alone = λ u l ru. ground arith;
          listed = ground arith;
          bounded = λ u l. ground arith;
          idle_listed = ground arith;
          idle_last = ground arith;
          idle_able = ground arith;
        };
        runs = ground arith;
      })

pub Step-InOrder : {idle : ℕ} {s s' : Kernel} → Step idle s s' → InOrder idle s → InOrder idle s'
Step-InOrder {idle} {s} (fills t task h) inv = unlisted-InOrder idle s t task inv h
Step-InOrder {idle} {s} (saves t sp) inv = write-InOrder idle s t _ inv refl refl
Step-InOrder {idle} {s} {s'} (starts t l r b e) inv = startup-InOrder idle s s' t inv l r b e
Step-InOrder {idle} {s} {s'} (yields e) inv = (yield_now-InOrder idle s s' inv e).0
Step-InOrder {idle} {s} {s'} (sleeps ne e) inv = (sleep-InOrder idle s s' inv ne e).0
Step-InOrder {idle} {s} {s'} (wakes t l e) inv = wake_up-InOrder idle s s' t inv l e
Step-InOrder {idle} {s} {s'} (ticks e) inv = tick_handler-InOrder idle s s' inv e
Step-InOrder {idle} {s} enters_interrupt inv =
    frame-InOrder idle s s.need_lazy_task_switch _ s.global_tick inv
Step-InOrder {idle} {s} leaves_interrupt inv =
    frame-InOrder idle s s.need_lazy_task_switch _ s.global_tick inv
Step-InOrder {idle} {s} switches inv = frame-InOrder idle s false s.interrupt_nest s.global_tick inv

-- In every state that the scheduler reaches when the idle task, ready and of the lowest priority,
-- is filled in, started and entered, and any calls of os_task_startup for a task that is filled
-- in, os_task_yield, os_task_sleep by a task other than the idle one, os_task_wakeup of a started
-- task and os_tick_handler follow, each of which returns, with interrupts and changes of saved
-- stack pointers between them: the ready lists hold exactly the started tasks that are ready,
-- each once and in the list of its priority; the current task runs, no other does; every started
-- task has a priority below TASK_PRIORITY_UPLIMIT; and the idle task is ready or running.
pub Reachable-InOrder : {idle : ℕ} {s : Kernel} → Reachable idle s → InOrder idle s
Reachable-InOrder {idle} (begins {s} tasks r p e) = begins-InOrder idle s tasks r p e
Reachable-InOrder (steps r st) = Step-InOrder st (Reachable-InOrder r)

-- In every state that the scheduler reaches, os_task_schedule fails its assertion, and no started
-- task is ready; or stops at a stack pointer outside the current task's stack; or lets the
-- current task go on, when it runs and every ready task has a lower priority; or enters a ready
-- task than which no ready task has a higher priority, and whose priority is not lower than that
-- of a current task that runs.
pub Reachable-Scheduled : {idle : ℕ} {s : Kernel} → Reachable idle s → Scheduled s (schedule s)
Reachable-Scheduled {idle} {s} r =
    let inv = Reachable-InOrder r in schedule-Scheduled idle s inv.placed (ground (arith, inv.runs))
