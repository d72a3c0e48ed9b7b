-- ===== src/Task.antt =====
-- src/os_task.c and src/os_tick.c: tasks, the lists of ready tasks by priority, and the scheduler.
--
-- A task is its address, 0 is OS_NULL; the store gives the structure at an address, and a list of
-- nodes is the list of the tasks they stand in. A function runs in a critical area, so a call is one
-- step. arch_task_switch, which is written in assembly, is recorded with its arguments.
pub mod Ready
mod Tests
pub mod Inv
pub mod Switch
pub mod Schedule
pub mod Steps
pub mod Calls
pub mod Reach
pub mod Turns
pub mod Slice
pub mod Wake
pub mod Create
use dreamos_cversion.Base.{
  ℕ, zero, suc, ◌+◌, ◌-◌, ◌*◌, ◌/◌, ◌%◌, ◌^◌, ◌<◌, ◌≤◌, ◌≡◌, ◌≢◌, ◌↔◌, refl, sym, ap, subst, ◌∙◌,
  ◌⊎◌, inl, inr, min, max, bit_and, bit_or, bit_xor, Bool, true, false, ◌&&◌, ◌||◌, not, Option,
  none, some, List, [], ◌∷◌, ◌++◌, map, arith, ltb, leb, ◌==◌, if◌then◌else◌, Bool-cases,
  Option-cases, is_some, dec_lt, ℕ_discrete, length, get_or, get_elem?, set, take, drop, replicate,
  length-append, length-set, get_or-set_self, get_or-set_ne, length-replicate, get_or-replicate,
  set-set_self, ==_iff, has, distinct, without, has-append, distinct-append, has-without,
  distinct-without, without_absent, ◌>>=◌, distinct-join,
}
use dreamos_cversion.Word.{add_size, sub_size}

-- os_task_state_t
pub data TaskState : Type 0 where
  running ready blocking sleeping stopped : TaskState

abbrev pub is_running : TaskState → Bool
is_running running = true
is_running _ = false

abbrev pub is_ready : TaskState → Bool
is_ready ready = true
is_ready _ = false

abbrev pub is_sleeping : TaskState → Bool
is_sleeping sleeping = true
is_sleeping _ = false

-- os_task_t: the fields that the scheduler uses.
pub record Task : Type 0 where
  pub sp : ℕ
  pub stack_addr : ℕ
  pub stack_size : ℕ
  pub priority : ℕ
  pub tick_init : ℕ
  pub tick_remaining : ℕ
  pub task_state : TaskState

-- The variables of os_task.c and os_tick.c, interrupt_nest of os_interrupt.c, the store, and the
-- calls of arch_task_switch, the last one first.
pub record Kernel : Type 0 where
  pub tasks : ℕ → Task
  pub task_list : List ℕ
  pub priority_ready_list : ℕ → List ℕ
  pub current_task : ℕ
  pub need_lazy_task_switch : Bool
  pub lazy_old_task : ℕ
  pub lazy_next_task : ℕ
  pub interrupt_nest : ℕ
  pub global_tick : ℕ
  pub switches : List (ℕ × ℕ)

-- What a call ends in: a failed OS_ASSERT or annotation, the endless loop after a stack overflow, or
-- the kernel as it leaves it.
pub data Outcome : Type 0 where
  runs : Kernel → Outcome
  assertion_failed stack_overflowed : Outcome

-- One call after another.
abbrev pub and_then : Outcome → (Kernel → Outcome) → Outcome
and_then (runs s) call = call s
and_then assertion_failed call = assertion_failed
and_then stack_overflowed call = stack_overflowed

-- TASK_PRIORITY_MAX and TASK_PRIORITY_UPLIMIT
abbrev pub priority_max : ℕ
priority_max = 31

abbrev pub priority_uplimit : ℕ
priority_uplimit = priority_max + 1

abbrev pub write : Kernel → (address : ℕ) → Task → Kernel
write s address task = record s { tasks = λ t. if t == address then task else s.tasks t }

abbrev pub insert_tail : Kernel → (task : ℕ) → Kernel
insert_tail s task = record s {
  priority_ready_list = λ p.
      if p == (s.tasks task).priority
      then s.priority_ready_list p ++ task ∷ []
      else s.priority_ready_list p;
}

-- os_list_node_remove: a schedule_node stands in one list at most.
abbrev pub node_remove : Kernel → (task : ℕ) → Kernel
node_remove s task = record s { priority_ready_list = λ p. without task (s.priority_ready_list p) }

abbrev pub head_or : List ℕ → ℕ → ℕ
head_or [] rest = rest
head_or (task ∷ tasks) rest = task

-- The loop of get_next_task, from priority i on.
unfoldable pub first_ready : (ℕ → List ℕ) → (i count : ℕ) → ℕ
first_ready lists i zero = 0
first_ready lists i (suc count) = head_or (lists i) (first_ready lists (i + 1) count)

abbrev pub get_next_task : Kernel → ℕ
get_next_task s = first_ready s.priority_ready_list 0 priority_uplimit

abbrev pub stack_overflows : Task → Bool
stack_overflows task =
    ltb task.sp task.stack_addr || ltb (add_size task.stack_addr task.stack_size) task.sp

abbrev pub is_in_interrupt : Kernel → Bool
is_in_interrupt s = ltb 0 s.interrupt_nest

-- The task goes on if it runs and the next one has a lower priority.
abbrev pub choose : Kernel → (next_task : ℕ) → ℕ
choose s next_task =
    if is_running (s.tasks s.current_task).task_state
      && ltb (s.tasks s.current_task).priority (s.tasks next_task).priority
    then s.current_task
    else next_task

-- The task gives up the processor: it is ready if it was running.
abbrev pub give_up : Kernel → (task : ℕ) → Kernel
give_up s task =
    if is_running (s.tasks task).task_state
    then write (insert_tail s task) task (record (s.tasks task) { task_state = ready })
    else s

abbrev pub reset_tick : Task → Task
reset_tick task =
    if task.tick_remaining == 0 then record task { tick_remaining = task.tick_init } else task

-- os_task_schedule from the removal of next_task on.
unfoldable pub switch_task : Kernel → (next_task : ℕ) → Kernel
switch_task s next_task =
    let old_task = s.current_task in
    let left : Kernel = give_up (node_remove s next_task) old_task in
    let timed : Kernel = write left old_task (reset_tick (left.tasks old_task)) in
    let entered : Kernel =
      write (record timed { current_task = next_task }) next_task
        (record (timed.tasks next_task) { task_state = running }) in
    if is_in_interrupt s
    then record entered {
      need_lazy_task_switch = true;
      lazy_old_task = old_task;
      lazy_next_task = next_task;
    }
    else record entered { switches = (old_task, next_task) ∷ s.switches }

unfoldable pub schedule : Kernel → Outcome
schedule s =
    let next_task = get_next_task s in
    let chosen = choose s next_task in
    if next_task == 0
    then assertion_failed
    else if stack_overflows (s.tasks s.current_task)
    then stack_overflowed
    else if chosen == s.current_task
    then runs s
    else runs (switch_task s chosen)

abbrev pub set_current_task_state : Kernel → TaskState → Kernel
set_current_task_state s state =
    write s s.current_task (record (s.tasks s.current_task) { task_state = state })

-- OS_ANNOTATION_NEED_TASK_CONTEXT, where the scheduler is initialised.
abbrev pub in_task_context : Kernel → Bool
in_task_context s = not (is_in_interrupt s) && not (s.current_task == 0)

-- os_task_yield
unfoldable pub yield_now : Kernel → Outcome
yield_now s = if in_task_context s then schedule s else assertion_failed

-- os_task_sleep
unfoldable pub sleep : Kernel → Outcome
sleep s =
    if in_task_context s then schedule (set_current_task_state s sleeping) else assertion_failed

-- The task is made ready, at the end of its list.
abbrev pub woken : Kernel → (task : ℕ) → Kernel
woken s task = insert_tail (write s task (record (s.tasks task) { task_state = ready })) task

-- os_task_wakeup
unfoldable pub wake_up : Kernel → (task : ℕ) → Outcome
wake_up s task =
    if not (in_task_context s)
    then assertion_failed
    else if is_sleeping (s.tasks task).task_state
    then schedule (woken s task)
    else runs s

-- os_task_startup
unfoldable pub startup : Kernel → (task : ℕ) → Outcome
startup s task =
    if is_in_interrupt s || (task == 0)
    then assertion_failed
    else runs (insert_tail (record s { task_list = s.task_list ++ task ∷ [] }) task)

-- os_tick_handler
unfoldable pub tick_handler : Kernel → Outcome
tick_handler s =
    let cur_task = s.tasks s.current_task in
    let counted : Kernel = record s { global_tick = add_size s.global_tick 1 } in
    if ltb 0 cur_task.tick_remaining
    then runs (
        write counted s.current_task
          (record cur_task { tick_remaining = cur_task.tick_remaining - 1 }))
    else schedule
        (write counted s.current_task (record cur_task { tick_remaining = cur_task.tick_init }))

-- os_enter_interrupt and os_leave_interrupt
abbrev pub enter_interrupt : Kernel → Kernel
enter_interrupt s = record s { interrupt_nest = add_size s.interrupt_nest 1 }

abbrev pub leave_interrupt : Kernel → Kernel
leave_interrupt s = record s { interrupt_nest = sub_size s.interrupt_nest 1 }

-- os_task_scheduler_start, for the idle task
unfoldable pub scheduler_start : Kernel → (task_idle : ℕ) → Kernel
scheduler_start s task_idle =
    let current : Kernel = record s { current_task = task_idle } in
    let marked : Kernel = set_current_task_state current running in
    record (node_remove marked task_idle) { switches = (0, task_idle) ∷ s.switches }

-- os_task_scheduler_init, for an idle task that os_task_init has filled in: the two loops that empty
-- the lists, and os_task_startup.
unfoldable pub scheduler_init : (tasks : ℕ → Task) → (task_idle : ℕ) → Outcome
scheduler_init tasks task_idle =
    startup
      (record {
        tasks = tasks;
        task_list = [];
        priority_ready_list = λ p. [];
        current_task = 0;
        need_lazy_task_switch = false;
        lazy_old_task = 0;
        lazy_next_task = 0;
        interrupt_nest = 0;
        global_tick = 0;
        switches = [];
      })
      task_idle
