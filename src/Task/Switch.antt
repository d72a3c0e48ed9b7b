-- ===== src/Task/Switch.antt =====
-- os_task_schedule and the invariant of the scheduler.
use dreamos_cversion.Base.{
  ℕ, ◌≡◌, subst, true, false, ◌&&◌, [], ◌∷◌, ◌++◌, arith, ◌==◌, if◌then◌else◌, has, distinct,
  without, has-append, distinct-append, has-without, distinct-without,
}
use dreamos_cversion.Task.Inv.{queues, Placed, InOrder}
use dreamos_cversion.Task.{
  is_running, is_ready, Kernel, stack_overflows, is_in_interrupt, switch_task, running, ready,
}

module _ (s : Kernel) (next : ℕ) where
  pub switch_task-lists :
      (p : ℕ)
      → (switch_task s next).priority_ready_list p ≡ (
          if is_running (s.tasks s.current_task).task_state
            && (p == (s.tasks s.current_task).priority)
          then without next (s.priority_ready_list p) ++ s.current_task ∷ []
          else without next (s.priority_ready_list p))
  unfolding switch_task
  switch_task-lists p = ground arith

  pub switch_task-task_list : (switch_task s next).task_list ≡ s.task_list
  unfolding switch_task
  switch_task-task_list = ground arith

  pub switch_task-current_task : (switch_task s next).current_task ≡ next
  unfolding switch_task
  switch_task-current_task = ground arith

  pub switch_task-priority :
      (t : ℕ) → ((switch_task s next).tasks t).priority ≡ (s.tasks t).priority
  unfolding switch_task
  switch_task-priority t = ground arith

  pub switch_task-state :
      (t : ℕ)
      → ((switch_task s next).tasks t).task_state ≡ (
          if t == next
          then running
          else if (t == s.current_task) && is_running (s.tasks t).task_state
          then ready
          else (s.tasks t).task_state)
  unfolding switch_task
  switch_task-state t = ground arith

  pub switch_task-stack :
      (t : ℕ) → stack_overflows ((switch_task s next).tasks t) ≡ stack_overflows (s.tasks t)
  unfolding switch_task
  switch_task-stack t = ground arith

  pub switch_task-interrupt : is_in_interrupt (switch_task s next) ≡ is_in_interrupt s
  unfolding switch_task
  switch_task-interrupt = ground arith

module _ (idle : ℕ) (s : Kernel) (next : ℕ) where
  -- A task that is ready is entered. The current one leaves, which is not in a list.
  switched_queued :
      Placed idle s
      → is_ready (s.tasks next).task_state ≡ true
      → has next s.task_list ≡ true
      → is_ready (s.tasks s.current_task).task_state ≡ false
      → (p t : ℕ)
      → has t ((switch_task s next).priority_ready_list p) ≡ queues (switch_task s next) p t
  switched_queued inv r l nr p t =
      rw
        (
          switch_task-lists s next p,
          switch_task-task_list s next,
          switch_task-priority s next t,
          switch_task-state s next t,
        )
        (ground (
          arith,
          has-append t (without next (s.priority_ready_list p)) (s.current_task ∷ []),
          has-without next t (s.priority_ready_list p),
          inv.once p,
          inv.queued p t,
          inv.listed,
        ))

  switched_once :
      Placed idle s
      → is_ready (s.tasks s.current_task).task_state ≡ false
      → (p : ℕ) → distinct ((switch_task s next).priority_ready_list p) ≡ true
  switched_once inv nr p =
      let kept = has-without next s.current_task (s.priority_ready_list p) (inv.once p) in
      rw (switch_task-lists s next p) (
        ground (
          arith,
          distinct-without next (s.priority_ready_list p) (inv.once p),
          kept,
          inv.queued p s.current_task,
          distinct-append s.current_task (without next (s.priority_ready_list p)),
        ))

  switched_alone :
      Placed idle s
      → (t : ℕ) → has t (switch_task s next).task_list ≡ true
      → is_running ((switch_task s next).tasks t).task_state ≡ true
      → t ≡ (switch_task s next).current_task
  switched_alone inv t l r =
      let listed : has t s.task_list ≡ true =
        subst (λ xs. has t xs ≡ true) (switch_task-task_list s next) l in
      let state = subst (λ x. is_running x ≡ true) (switch_task-state s next t) r in
      rw (switch_task-current_task s next) (ground (arith, inv.alone t listed))

  pub switch_task-InOrder :
      Placed idle s
      → is_ready (s.tasks next).task_state ≡ true
      → has next s.task_list ≡ true
      → is_ready (s.tasks s.current_task).task_state ≡ false
      → (s.current_task ≡ idle → is_running (s.tasks idle).task_state ≡ true)
      → InOrder idle (switch_task s next)
  switch_task-InOrder inv r l nr i = record {
    placed = record {
      queued = switched_queued inv r l nr;
      once = switched_once inv nr;
      alone = switched_alone inv;
      listed = rw (switch_task-task_list s next, switch_task-current_task s next) l;
      bounded = λ t lt.
          rw (switch_task-priority s next t)
            (inv.bounded t (subst (λ xs. has t xs ≡ true) (switch_task-task_list s next) lt));
      idle_listed = rw (switch_task-task_list s next) inv.idle_listed;
      idle_last = rw (switch_task-priority s next idle) inv.idle_last;
      idle_able = rw (switch_task-state s next idle) (ground (arith, inv.idle_able));
    };
    runs = rw (switch_task-current_task s next, switch_task-state s next next) (ground arith);
  }
