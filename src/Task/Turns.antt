-- ===== src/Task/Turns.antt =====
-- os_task_yield among tasks of one priority.
use dreamos_cversion.Base.{
  ℕ, zero, suc, ◌<◌, ◌≡◌, ◌≢◌, refl, ap, subst, ◌∙◌, true, false, List, [], ◌∷◌, ◌++◌, arith,
  length,
}
use dreamos_cversion.Task.Switch.{
  switch_task-lists, switch_task-current_task, switch_task-priority, switch_task-stack,
  switch_task-interrupt, switch_task-InOrder,
}
use dreamos_cversion.Task.Inv.{InOrder, IsNext, head_queued, head-IsNext}
use dreamos_cversion.Task.Ready.{first_ready_at}
use dreamos_cversion.Task.{
  is_running, is_ready, Kernel, Outcome, and_then, priority_uplimit, get_next_task, stack_overflows,
  is_in_interrupt, switch_task, schedule, yield_now, runs,
}

-- The running tasks call os_task_yield, n times in all.
unfoldable pub yield_times : ℕ → Kernel → Outcome
yield_times zero s = runs s
yield_times (suc n) s = and_then (yield_now s) (λ s'. yield_times n s')

yield_times-suc :
    (n : ℕ) (s s' : Kernel) → yield_now s ≡ runs s' → yield_times (suc n) s ≡ yield_times n s'
unfolding yield_times
yield_times-suc n s s' e = ap (λ o. and_then o (λ k. yield_times n k)) e

-- No stack pointer is outside its stack, and no interrupt is served.
pub record Calm (s : Kernel) : Type 0 where
  pub fits : (t : ℕ) → stack_overflows (s.tasks t) ≡ false
  pub outside : is_in_interrupt s ≡ false

-- No task of a higher priority than the current one is ready, and those of its priority are in line.
pub record Line (s : Kernel) (line : List ℕ) : Type 0 where
  pub at : s.priority_ready_list (s.tasks s.current_task).priority ≡ line
  pub above : (q : ℕ) → q < (s.tasks s.current_task).priority → s.priority_ready_list q ≡ []

module _ (idle : ℕ) (s : Kernel) (u : ℕ) (rest : List ℕ) (inv : InOrder idle s)
    (l : Line s (u ∷ rest)) where
  front-IsNext : IsNext s u
  front-IsNext = head-IsNext idle s inv.placed (s.tasks s.current_task).priority u rest l.at l.above

  front-priority : (s.tasks u).priority ≡ (s.tasks s.current_task).priority
  front-priority =
      ground (arith, head_queued idle s inv.placed (s.tasks s.current_task).priority u rest l.at)

  -- The first in line is entered.
  yield_front : Calm s → yield_now s ≡ runs (switch_task s u)
  unfolding yield_now schedule
  yield_front calm =
      let next : get_next_task s ≡ u =
        first_ready_at s.priority_ready_list 0 priority_uplimit _ u rest (omega arith)
          ((inv.placed.bounded s.current_task inv.placed.listed).1) l.at (λ q a b. l.above q b) in
      let other : u ≢ s.current_task = λ e.
        ground (arith, ap (λ t. is_ready (s.tasks t).task_state) e, front-IsNext.able, inv.runs) in
      rw next (
        ground (
          arith,
          front-priority,
          calm.outside,
          calm.fits s.current_task,
          inv.placed.bounded s.current_task inv.placed.listed,
          inv.placed.bounded u front-IsNext.listed,
        ))

  front-InOrder : InOrder idle (switch_task s u)
  front-InOrder =
      switch_task-InOrder idle s u inv.placed front-IsNext.able front-IsNext.listed
        (ground (arith, inv.runs))
        (λ i. subst (λ t. is_running (s.tasks t).task_state ≡ true) i inv.runs)

  front-Calm : Calm s → Calm (switch_task s u)
  front-Calm calm = record {
    fits = λ t. switch_task-stack s u t ∙ calm.fits t;
    outside = switch_task-interrupt s u ∙ calm.outside;
  }

  front-same :
      ((switch_task s u).tasks (switch_task s u).current_task).priority
      ≡ (s.tasks s.current_task).priority
  front-same = rw (switch_task-current_task s u, switch_task-priority s u u) front-priority

  -- The task that yields goes to the end of the line.
  front-Line : Line (switch_task s u) (rest ++ s.current_task ∷ [])
  front-Line = record {
    at =
        rw (front-same, switch_task-lists s u (s.tasks s.current_task).priority, l.at)
          (ground (arith, inv.runs));
    above = λ q lt.
        let empty : s.priority_ready_list q ≡ [] = l.above q (omega (arith, front-same)) in
        rw (switch_task-lists s u q, empty) (ground (arith, front-same));
  }

line_moves : (xs ys : List ℕ) (t c : ℕ) → (xs ++ t ∷ ys) ++ c ∷ [] ≡ xs ++ t ∷ (ys ++ c ∷ [])
line_moves [] ys t c = refl
line_moves (x ∷ xs) ys t c = ap (λ l. x ∷ l) (line_moves xs ys t c)

-- If the scheduler is in order, no interrupt is served and no stack pointer is outside its stack,
-- no task of a higher priority than the current one is ready, and a task stands behind n others
-- in the ready list of that priority, then n + 1 calls of os_task_yield, by whichever tasks run,
-- return, and that task is the current one.
pub yield_times-Turn :
    (idle : ℕ) (xs ys : List ℕ) (t : ℕ) (s : Kernel)
    → InOrder idle s
    → Calm s
    → Line s (xs ++ t ∷ ys)
    → (s' : Kernel) × (yield_times (suc (length xs)) s ≡ runs s') × (s'.current_task ≡ t)
unfolding yield_times
yield_times-Turn idle [] ys t s inv calm l = (
  switch_task s t,
  yield_times-suc 0 s _ (yield_front idle s t ys inv l calm),
  switch_task-current_task s t,
)
yield_times-Turn idle (x ∷ xs) ys t s inv calm l =
    let line =
      subst (Line (switch_task s x)) (line_moves xs ys t s.current_task)
        (front-Line idle s x _ inv l) in
    let (s', e, c) =
      yield_times-Turn idle xs (ys ++ s.current_task ∷ []) t (switch_task s x)
        (front-InOrder idle s x _ inv l) (front-Calm idle s x _ inv l calm) line in
    (s', yield_times-suc (suc (length xs)) s _ (yield_front idle s x _ inv l calm) ∙ e, c)
