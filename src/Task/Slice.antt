-- ===== src/Task/Slice.antt =====
-- How long a task keeps the processor, when only the timer calls the scheduler.
use dreamos_cversion.Word.{add_size}
use dreamos_cversion.Base.{
  ℕ, zero, suc, ◌+◌, ◌-◌, ◌<◌, ◌≡◌, refl, sym, ap, ◌∙◌, ◌⊎◌, inl, inr, arith,
}
use dreamos_cversion.Task.{
  Task, Kernel, Outcome, and_then, write, schedule, tick_handler, runs, assertion_failed,
  stack_overflowed,
}

abbrev current : Kernel → Task
current s = s.tasks s.current_task

-- n calls of os_tick_handler.
unfoldable pub tick_times : ℕ → Kernel → Outcome
tick_times zero s = runs s
tick_times (suc n) s = and_then (tick_handler s) (λ s'. tick_times n s')

tick_times-suc :
    (n : ℕ) (s s' : Kernel) → tick_handler s ≡ runs s' → tick_times (suc n) s ≡ tick_times n s'
unfolding tick_times
tick_times-suc n s s' e = ap (λ o. and_then o (λ k. tick_times n k)) e

-- The same task is current and the lists are the same; its time has gone from a ticks to b.
pub record Spent (s s' : Kernel) (a b : ℕ) : Type 0 where
  pub same_current : s'.current_task ≡ s.current_task
  pub same_lists : s'.priority_ready_list ≡ s.priority_ready_list
  pub same_init : (current s').tick_init ≡ (current s).tick_init
  pub before : (current s).tick_remaining ≡ a
  pub after : (current s').tick_remaining ≡ b

abbrev ticked : Kernel → Kernel
ticked s =
    write (record s { global_tick = add_size s.global_tick 1 }) s.current_task
      (record (current s) { tick_remaining = (current s).tick_remaining - 1 })

-- The time of the task is up, and its next slice is full.
abbrev pub renewed : Kernel → Kernel
renewed s =
    write (record s { global_tick = add_size s.global_tick 1 }) s.current_task
      (record (current s) { tick_remaining = (current s).tick_init })

tick_handler_left : (s : Kernel) → 0 < (current s).tick_remaining → tick_handler s ≡ runs (ticked s)
unfolding tick_handler
tick_handler_left s h = ground arith

tick_handler_up :
    (s : Kernel) → (current s).tick_remaining ≡ 0 → tick_handler s ≡ schedule (renewed s)
unfolding tick_handler
tick_handler_up s h = ground arith

ticked_lem :
    (s : Kernel)
    → ((current (ticked s)).tick_remaining ≡ (current s).tick_remaining - 1)
      × ((current (ticked s)).tick_init ≡ (current s).tick_init)
ticked_lem s = (ground arith, ground arith)

tick_times-Spent :
    (n b : ℕ) (s : Kernel)
    → (current s).tick_remaining ≡ n + b
    → (s' : Kernel) × (tick_times n s ≡ runs s') × Spent s s' (n + b) b
unfolding tick_times
tick_times-Spent zero b s h = (
  s,
  refl,
  record {
    same_current = refl;
    same_lists = refl;
    same_init = refl;
    before = h;
    after = omega (arith, h);
  },
)
tick_times-Spent (suc n) b s h =
    let (left, init) = ticked_lem s in
    let (s', e, spent) = tick_times-Spent n b (ticked s) (omega (arith, left, h)) in
    (
      s',
      tick_times-suc n s _ (tick_handler_left s (omega (arith, h))) ∙ e,
      record {
        same_current = spent.same_current;
        same_lists = spent.same_lists;
        same_init = spent.same_init ∙ init;
        before = h;
        after = spent.after;
      },
    )

and_then-runs : (o : Outcome) → and_then o runs ≡ o
and_then-runs (runs s) = refl
and_then-runs assertion_failed = refl
and_then-runs stack_overflowed = refl

-- Only a call that returns is followed by another.
Outcome-cases :
    (o : Outcome)
    → ((k : Kernel) × (o ≡ runs k))
      ⊎ ((call : Kernel → Outcome) (s : Kernel) → and_then o call ≡ runs s → ⊥)
Outcome-cases (runs k) = inl (k, refl)
Outcome-cases assertion_failed = inr (λ call s e. cc)
Outcome-cases stack_overflowed = inr (λ call s e. cc)

tick_times-last :
    (n : ℕ) (s s' : Kernel) → tick_times n s ≡ runs s' → tick_times (suc n) s ≡ tick_handler s'
unfolding tick_times
tick_times-last zero s s' e =
    let same : s ≡ s' = cc in and_then-runs (tick_handler s) ∙ ap tick_handler same
tick_times-last (suc n) s s' e = elim (Outcome-cases (tick_handler s)) [
  | inl (k, h) ↦
      tick_times-suc (suc n) s k h ∙ tick_times-last n k s' (sym (tick_times-suc n s k h) ∙ e)
  | inr h ↦ absurd (h (λ k. tick_times n k) s' e)
]

-- While only the timer calls the scheduler, a task with a ticks left stays the current one for a
-- calls of os_tick_handler, n of which leave it a - n ticks and the ready lists as they are; and
-- the call after these renews its ticks and calls os_task_schedule.
pub tick_times-Slice :
    (s : Kernel)
    → ((n b : ℕ)
        → (current s).tick_remaining ≡ n + b
        → (s' : Kernel) × (tick_times n s ≡ runs s') × Spent s s' (n + b) b)
      × ((s' : Kernel) × (tick_times (suc (current s).tick_remaining) s ≡ schedule (renewed s'))
          × Spent s s' (current s).tick_remaining 0)
tick_times-Slice s =
    let (s', e, spent) = tick_times-Spent (current s).tick_remaining 0 s (omega arith) in
    (
      λ n b h. tick_times-Spent n b s h,
      (
        s',
        tick_times-last _ s s' e ∙ tick_handler_up s' spent.after,
        record {
          same_current = spent.same_current;
          same_lists = spent.same_lists;
          same_init = spent.same_init;
          before = refl;
          after = spent.after;
        },
      ),
    )
