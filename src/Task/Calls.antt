-- ===== src/Task/Calls.antt =====
-- os_task_yield, os_task_sleep, os_task_wakeup, os_task_startup and os_tick_handler, when they return.
use dreamos_cversion.Word.{add_size}
use dreamos_cversion.Base.{
  ℕ, ◌-◌, ◌≤◌, ◌≡◌, ◌≢◌, refl, subst, inl, inr, Bool, true, false, ◌||◌, [], ◌∷◌, ◌++◌, arith, ltb,
  ◌==◌, Bool-cases, has,
}
use dreamos_cversion.Task.Steps.{
  IsTop, schedule-InOrder, write-Placed, unlisted-Placed, sleeping-Placed, woken-Placed,
  started-Placed,
}
use dreamos_cversion.Task.Inv.{InOrder}
use dreamos_cversion.Task.{
  is_running, is_ready, is_sleeping, Task, Kernel, priority_max, write, insert_tail,
  is_in_interrupt, schedule, set_current_task_state, in_task_context, yield_now, sleep, wake_up,
  startup, tick_handler, ready, sleeping, runs, assertion_failed,
}

-- os_task_schedule while the current task runs.
scheduled-InOrder :
    (idle : ℕ) (s s' : Kernel) → InOrder idle s → schedule s ≡ runs s' → InOrder idle s' × IsTop s'
scheduled-InOrder idle s s' inv e =
    schedule-InOrder idle s s' inv.placed (ground (arith, inv.runs))
      (λ i. subst (λ t. is_running (s.tasks t).task_state ≡ true) i inv.runs) e

pub yield_now-InOrder :
    (idle : ℕ) (s s' : Kernel) → InOrder idle s → yield_now s ≡ runs s' → InOrder idle s' × IsTop s'
unfolding yield_now
yield_now-InOrder idle s s' inv e = scheduled-InOrder idle s s' inv (ground (arith, e))

pub sleep-InOrder :
    (idle : ℕ) (s s' : Kernel)
    → InOrder idle s
    → s.current_task ≢ idle
    → sleep s ≡ runs s'
    → InOrder idle s' × IsTop s'
unfolding sleep
sleep-InOrder idle s s' inv ne e =
    schedule-InOrder idle (set_current_task_state s sleeping) s' (sleeping-Placed idle s inv ne)
      (ground arith) (λ i. absurd (ne i)) (ground (arith, e))

pub wake_up-InOrder :
    (idle : ℕ) (s s' : Kernel) (t : ℕ)
    → InOrder idle s
    → has t s.task_list ≡ true
    → wake_up s t ≡ runs s'
    → InOrder idle s'
unfolding wake_up
wake_up-InOrder idle s s' t inv l e = elim (Bool-cases (in_task_context s)) [
  | inl c ↦ elim (Bool-cases (is_sleeping (s.tasks t).task_state)) [
    | inl z ↦
        let woken : Kernel =
          insert_tail (write s t (record (s.tasks t) { task_state = ready })) t in
        (schedule-InOrder idle woken s' (woken-Placed idle s t inv.placed l z)
          (ground (arith, inv.runs)) (λ i. ground (arith, inv.runs)) (ground (arith, e))).0
    | inr n ↦ subst (InOrder idle) (let both : runs s ≡ runs s' = ground (arith, e) in cc) inv
  ]
  | inr n ↦ absurd (let bad : assertion_failed ≡ runs s' = ground (arith, e) in cc)
]

pub write-InOrder :
    (idle : ℕ) (s : Kernel) (t : ℕ) (task : Task)
    → InOrder idle s
    → task.priority ≡ (s.tasks t).priority
    → task.task_state ≡ (s.tasks t).task_state
    → InOrder idle (write s t task)
write-InOrder idle s t task inv p st = record {
  placed = write-Placed idle s t task inv.placed p st;
  runs = ground (arith, inv.runs);
}

-- Fields that the invariant does not name.
pub frame-InOrder :
    (idle : ℕ) (s : Kernel) (lazy : Bool) (nest tick : ℕ)
    → InOrder idle s
    → InOrder idle
        (record s { need_lazy_task_switch = lazy; interrupt_nest = nest; global_tick = tick })
frame-InOrder idle s lazy nest tick inv = record {
  placed = record {
    queued = inv.placed.queued;
    once = inv.placed.once;
    alone = inv.placed.alone;
    listed = inv.placed.listed;
    bounded = inv.placed.bounded;
    idle_listed = inv.placed.idle_listed;
    idle_last = inv.placed.idle_last;
    idle_able = inv.placed.idle_able;
  };
  runs = inv.runs;
}

pub unlisted-InOrder :
    (idle : ℕ) (s : Kernel) (t : ℕ) (task : Task)
    → InOrder idle s
    → has t s.task_list ≡ false
    → InOrder idle (write s t task)
unlisted-InOrder idle s t task inv h = record {
  placed = unlisted-Placed idle s t task inv.placed h;
  runs = ground (arith, inv.runs, inv.placed.listed);
}

pub startup-InOrder :
    (idle : ℕ) (s s' : Kernel) (t : ℕ)
    → InOrder idle s
    → has t s.task_list ≡ false
    → is_ready (s.tasks t).task_state ≡ true
    → (s.tasks t).priority ≤ priority_max
    → startup s t ≡ runs s'
    → InOrder idle s'
unfolding startup
startup-InOrder idle s s' t inv l r b e =
    let started : Kernel = insert_tail (record s { task_list = s.task_list ++ t ∷ [] }) t in
    elim (Bool-cases (is_in_interrupt s || (t == 0))) [
      | inl bad ↦ absurd (let no : assertion_failed ≡ runs s' = ground (arith, e) in cc)
      | inr ok ↦
          let same : started ≡ s' = (let both : runs started ≡ runs s' = ground (arith, e) in cc) in
          subst (InOrder idle) same (record {
            placed = started-Placed idle s t inv.placed l r (ground arith) (omega arith);
            runs = inv.runs;
          })
    ]

pub tick_handler-InOrder :
    (idle : ℕ) (s s' : Kernel) → InOrder idle s → tick_handler s ≡ runs s' → InOrder idle s'
unfolding tick_handler
tick_handler-InOrder idle s s' inv e =
    let counted : Kernel = record s { global_tick = add_size s.global_tick 1 } in
    let counted_inv : InOrder idle counted =
      frame-InOrder idle s s.need_lazy_task_switch s.interrupt_nest (add_size s.global_tick 1)
        inv in
    let cur : Task = s.tasks s.current_task in
    let less : Kernel =
      write counted s.current_task (record cur { tick_remaining = cur.tick_remaining - 1 }) in
    let full : Kernel =
      write counted s.current_task (record cur { tick_remaining = cur.tick_init }) in
    elim (Bool-cases (ltb 0 cur.tick_remaining)) [
      | inl left ↦
          let same : less ≡ s' = (let both : runs less ≡ runs s' = ground (arith, e) in cc) in
          subst (InOrder idle) same
            (write-InOrder idle counted s.current_task _ counted_inv refl refl)
      | inr none_left ↦
          let full_inv : InOrder idle full =
            write-InOrder idle counted s.current_task _ counted_inv refl refl in
          (scheduled-InOrder idle full s' full_inv (ground (arith, e))).0
    ]
