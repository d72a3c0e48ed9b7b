-- ===== src/Task/Inv.antt =====
-- What holds of the scheduler between two calls.
use dreamos_cversion.Base.{
  ℕ, ◌<◌, ◌≤◌, ◌≡◌, sym, subst, ◌∙◌, ◌⊎◌, inl, inr, Bool, true, false, ◌&&◌, ◌||◌, List, [], ◌∷◌,
  arith, ◌==◌, Bool-cases, dec_lt, has, distinct,
}
use dreamos_cversion.Task.Ready.{first_ready-IsFirst, nothing, first}
use dreamos_cversion.Task.{
  is_running, is_ready, Kernel, priority_max, priority_uplimit, get_next_task,
}

-- Whether a task stands in the ready list of priority p.
abbrev pub queues : Kernel → (p t : ℕ) → Bool
queues s p t = has t s.task_list && is_ready (s.tasks t).task_state && ((s.tasks t).priority == p)

-- The ready lists hold the started tasks that are ready, each once, in the list of its priority. No
-- task runs but the current one. The idle task has the lowest priority and is ready or running.
pub record Placed (idle : ℕ) (s : Kernel) : Type 0 where
  pub queued : (p t : ℕ) → has t (s.priority_ready_list p) ≡ queues s p t
  pub once : (p : ℕ) → distinct (s.priority_ready_list p) ≡ true
  pub alone :
      (t : ℕ)
      → has t s.task_list ≡ true
      → is_running (s.tasks t).task_state ≡ true
      → t ≡ s.current_task
  pub listed : has s.current_task s.task_list ≡ true
  pub bounded :
      (t : ℕ) → has t s.task_list ≡ true → (0 < t) × ((s.tasks t).priority < priority_uplimit)
  pub idle_listed : has idle s.task_list ≡ true
  pub idle_last : (s.tasks idle).priority ≡ priority_max
  pub idle_able :
      (is_running (s.tasks idle).task_state || is_ready (s.tasks idle).task_state) ≡ true

pub record InOrder (idle : ℕ) (s : Kernel) : Type 0 where
  pub placed : Placed idle s
  pub runs : is_running (s.tasks s.current_task).task_state ≡ true

-- A started task that is ready, and none that is ready has a higher priority.
pub record IsNext (s : Kernel) (r : ℕ) : Type 0 where
  pub listed : has r s.task_list ≡ true
  pub able : is_ready (s.tasks r).task_state ≡ true
  pub best :
      (t : ℕ)
      → has t s.task_list ≡ true
      → is_ready (s.tasks t).task_state ≡ true
      → (s.tasks r).priority ≤ (s.tasks t).priority

-- No started task is ready.
abbrev pub NoneReady : Kernel → Type 0
NoneReady s = (t : ℕ) → has t s.task_list ≡ true → is_ready (s.tasks t).task_state ≡ false

in_list :
    (idle : ℕ) (s : Kernel)
    → Placed idle s
    → (t : ℕ) → has t s.task_list ≡ true
    → is_ready (s.tasks t).task_state ≡ true
    → has t (s.priority_ready_list (s.tasks t).priority) ≡ true
in_list idle s inv t l r = ground (arith, inv.queued (s.tasks t).priority t)

not_in_empty :
    (idle : ℕ) (s : Kernel)
    → Placed idle s
    → (t : ℕ) → has t s.task_list ≡ true
    → s.priority_ready_list (s.tasks t).priority ≡ []
    → is_ready (s.tasks t).task_state ≡ false
not_in_empty idle s inv t l e = elim (Bool-cases (is_ready (s.tasks t).task_state)) [
  | inl r ↦ absurd (no_member (subst (λ xs. has t xs ≡ true) e (in_list idle s inv t l r)))
  | inr n ↦ n
]
  where
    no_member : false ≡ true → ⊥
    no_member e = cc

pub head_queued :
    (idle : ℕ) (s : Kernel)
    → Placed idle s
    → (p r : ℕ) (rest : List ℕ) → s.priority_ready_list p ≡ r ∷ rest
    → queues s p r ≡ true
head_queued idle s inv p r rest at = sym (inv.queued p r) ∙ rw at (ground arith)

pub head-IsNext :
    (idle : ℕ) (s : Kernel)
    → Placed idle s
    → (p r : ℕ) (rest : List ℕ) → s.priority_ready_list p ≡ r ∷ rest
    → ((q : ℕ) → q < p → s.priority_ready_list q ≡ [])
    → IsNext s r
head-IsNext idle s inv p r rest at lower =
    let q = head_queued idle s inv p r rest at in
    record {
      listed = ground (arith, q);
      able = ground (arith, q);
      best = λ t l a. elim (dec_lt (s.tasks t).priority p) [
        | yes lt ↦ absurd (ground (arith, not_in_empty idle s inv t l (lower _ lt)))
        | no ge ↦ ground (arith, q)
      ];
    }

pub get_next_task-IsNext :
    (idle : ℕ) (s : Kernel)
    → Placed idle s
    → ((get_next_task s ≡ 0) × NoneReady s) ⊎ IsNext s (get_next_task s)
get_next_task-IsNext idle s inv =
    elim (first_ready-IsFirst s.priority_ready_list 0 priority_uplimit) [
      | nothing z h ↦
          inl (z, λ t l. not_in_empty idle s inv t l (h _ (omega arith) (inv.bounded t l).1))
      | first p rest a b at h ↦
          inr (head-IsNext idle s inv p _ rest at (λ q lt. h q (omega arith) lt))
    ]
