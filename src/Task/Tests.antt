-- ===== src/Task/Tests.antt =====
-- Runs of the scheduler on a few tasks.
use dreamos_cversion.Base.{ℕ, ◌+◌, ◌≡◌, ◌↔◌, refl, false, [], ◌∷◌, arith, ◌==◌, if◌then◌else◌}
use dreamos_cversion.Task.Calls.{sleep-InOrder}
use dreamos_cversion.Task.Wake.{wake_up-Preempts, Reachable-Stops}
use dreamos_cversion.Task.Slice.{tick_times, Spent, renewed, tick_times-Slice}
use dreamos_cversion.Task.Turns.{yield_times, Calm, Line, yield_times-Turn}
use dreamos_cversion.Task.Reach.{
  Reachable, Reachable-InOrder, Reachable-Scheduled, starts, yields, sleeps, begins, steps,
}
use dreamos_cversion.Task.Steps.{IsTop}
use dreamos_cversion.Task.Schedule.{Scheduled}
use dreamos_cversion.Task.Inv.{InOrder, NoneReady}
use dreamos_cversion.Task.{
  Task, Kernel, Outcome, first_ready, switch_task, schedule, yield_now, sleep, woken, wake_up,
  startup, scheduler_start, scheduler_init, ready, runs, assertion_failed,
}

abbrev some_task : (priority : ℕ) → Task
some_task priority = record {
  sp = 5000;
  stack_addr = 4096;
  stack_size = 4096;
  priority = priority;
  tick_init = 3;
  tick_remaining = 3;
  task_state = ready;
}

-- Task 1 is the idle task; tasks 2 and 3 have priority 10.
abbrev some_tasks : ℕ → Task
some_tasks t = if t == 1 then some_task 31 else some_task 10

abbrev kernel_of : Outcome → Kernel
kernel_of (runs s) = s
kernel_of _ = record {
  tasks = some_tasks;
  task_list = [];
  priority_ready_list = λ p. [];
  current_task = 0;
  need_lazy_task_switch = false;
  lazy_old_task = 0;
  lazy_next_task = 0;
  interrupt_nest = 0;
  global_tick = 0;
  switches = [];
}

abbrev state0 : Kernel
unfolding scheduler_init startup scheduler_start
state0 = scheduler_start (kernel_of (scheduler_init some_tasks 1)) 1

reach0 : Reachable 1 state0
unfolding scheduler_init startup scheduler_start
reach0 = begins some_tasks refl refl refl

abbrev state1 : Kernel
unfolding state0 startup
state1 = kernel_of (startup state0 2)

abbrev state2 : Kernel
unfolding state1 startup
state2 = kernel_of (startup state1 3)

abbrev state3 : Kernel
unfolding state2 yield_now schedule switch_task first_ready
state3 = kernel_of (yield_now state2)

reach2 : Reachable 1 state2
unfolding state2 state1 state0 startup scheduler_start scheduler_init
reach2 =
    steps (steps reach0 (starts 2 refl refl (omega arith) refl))
      (starts 3 refl refl (omega arith) refl)

-- Task 2 runs, and 3 is in line.
reach3 : Reachable 1 state3
unfolding state3 state2 yield_now schedule switch_task first_ready state1 state0 startup
    scheduler_start scheduler_init
reach3 = steps reach2 (yields refl)

state3_runs : state3.switches ≡ (1, 2) ∷ (0, 1) ∷ []
unfolding state3 state2 yield_now schedule switch_task first_ready state1 state0 startup
    scheduler_start scheduler_init
state3_runs = refl

Reachable-InOrder_example : InOrder 1 state3
Reachable-InOrder_example = Reachable-InOrder reach3

Reachable-Scheduled_example : Scheduled state3 (schedule state3)
Reachable-Scheduled_example = Reachable-Scheduled reach3

Reachable-Stops_example :
    ((schedule state0 ≡ assertion_failed) ↔ NoneReady state0)
    × (NoneReady state0 → state0.current_task ≡ 1)
Reachable-Stops_example = Reachable-Stops reach0

idle_alone : yield_now state0 ≡ assertion_failed
unfolding state0 yield_now schedule first_ready startup scheduler_start scheduler_init
idle_alone = refl

calm3 : Calm state3
unfolding state3 state2 yield_now schedule switch_task first_ready state1 state0 startup
    scheduler_start scheduler_init
calm3 = record { fits = λ t. ground arith; outside = refl }

line3 : Line state3 (3 ∷ [])
unfolding state3 state2 yield_now schedule switch_task first_ready state1 state0 startup
    scheduler_start scheduler_init
line3 = record { at = refl; above = λ q lt. ground arith }

yield_times-Turn_example : (s' : Kernel) × (yield_times 1 state3 ≡ runs s') × (s'.current_task ≡ 3)
yield_times-Turn_example = yield_times-Turn 1 [] [] 3 state3 (Reachable-InOrder reach3) calm3 line3

tick_times-Slice_example :
    ((n b : ℕ)
      → 3 ≡ n + b
      → (s' : Kernel) × (tick_times n state3 ≡ runs s') × Spent state3 s' (n + b) b)
    × ((s' : Kernel) × (tick_times 4 state3 ≡ schedule (renewed s')) × Spent state3 s' 3 0)
unfolding state3 state2 yield_now schedule switch_task first_ready state1 state0 startup
    scheduler_start scheduler_init
tick_times-Slice_example = tick_times-Slice state3

-- Both sleep, and the idle task runs.
abbrev state4 : Kernel
unfolding state3 sleep schedule switch_task first_ready
state4 = kernel_of (sleep state3)

abbrev state5 : Kernel
unfolding state4 sleep schedule switch_task first_ready
state5 = kernel_of (sleep state4)

reach4 : Reachable 1 state4
unfolding state4 sleep state3 state2 yield_now schedule switch_task first_ready state1 state0
    startup scheduler_start scheduler_init
reach4 = steps reach3 (sleeps (omega arith) refl)

reach5 : Reachable 1 state5
unfolding state5 state4 sleep state3 state2 yield_now schedule switch_task first_ready state1 state0
    startup scheduler_start scheduler_init
reach5 = steps reach4 (sleeps (omega arith) refl)

state5-IsTop : IsTop state5
unfolding state5 state4 sleep state3 state2 yield_now schedule switch_task first_ready state1 state0
    startup scheduler_start scheduler_init
state5-IsTop = (sleep-InOrder 1 state4 state5 (Reachable-InOrder reach4) (omega arith) refl).1

wake_up-Preempts_example :
    (wake_up state5 2 ≡ runs (switch_task (woken state5 2) 2))
    × InOrder 1 (switch_task (woken state5 2) 2)
unfolding state5 state4 sleep state3 state2 yield_now schedule switch_task first_ready state1 state0
    startup scheduler_start scheduler_init
wake_up-Preempts_example =
    wake_up-Preempts 1 state5 2 (Reachable-InOrder reach5) state5-IsTop refl refl refl refl
      (omega arith)
