-- ===== src/Mutex.antt =====
-- src/os_mutex.c and src/os_waitqueue.c: a recursive mutex that is handed to the first waiting task.
--
-- A task is its number, 0 is OS_NULL; the waiting list is the list of its tasks. A call runs in a
-- critical area, so it is one step; os_task_sleep at its end stops the task, and os_task_wakeup lets
-- it go on.
pub mod System
use dreamos_cversion.Base.{
  ℕ, zero, suc, ◌+◌, ◌-◌, ◌*◌, ◌/◌, ◌%◌, ◌^◌, ◌<◌, ◌≤◌, ◌≡◌, ◌≢◌, ◌↔◌, refl, sym, ap, subst, ◌∙◌,
  ◌⊎◌, inl, inr, min, max, bit_and, bit_or, bit_xor, Bool, true, false, ◌&&◌, ◌||◌, not, Option,
  none, some, List, [], ◌∷◌, ◌++◌, map, arith, ltb, leb, ◌==◌, if◌then◌else◌, Bool-cases,
  Option-cases, is_some, dec_lt, ℕ_discrete, length, get_or, get_elem?, set, take, drop, replicate,
  length-append, length-set, get_or-set_self, get_or-set_ne, length-replicate, get_or-replicate,
  set-set_self, ==_iff,
}
use dreamos_cversion.Word.{add_size, sub_size}

-- os_mutex_t with its os_waitqueue_t
pub record Mutex : Type 0 where
  pub locked : Bool
  pub owner : ℕ
  pub refcnt : ℕ
  pub waiting_list : List ℕ

-- os_mutex_init, os_waitqueue_init
abbrev pub init : Mutex
init = record { locked = false; owner = 0; refcnt = 0; waiting_list = [] }

-- os_waitqueue_add, os_waitqueue_get_head, and what os_waitqueue_wakeup leaves
abbrev pub add : List ℕ → (task : ℕ) → List ℕ
add waiting_list task = waiting_list ++ task ∷ []

abbrev pub get_head : List ℕ → ℕ
get_head [] = 0
get_head (task ∷ waiting_list) = task

abbrev pub wakeup : List ℕ → List ℕ
wakeup [] = []
wakeup (task ∷ waiting_list) = waiting_list

-- os_mutex_lock by the task `current`, in task context: the mutex, and whether the task waits.
pub lock : Mutex → (current : ℕ) → Mutex × Bool
lock mutex current =
    if mutex.locked
    then (if mutex.owner == current
        then (record mutex { refcnt = add_size mutex.refcnt 1 }, false)
        else (record mutex { waiting_list = add mutex.waiting_list current }, true))
    else (record mutex { refcnt = 1; owner = current; locked = true }, false)

-- os_mutex_unlock: the mutex, and the task that is woken, 0 for none. `none` is a failed assertion.
pub unlock : Mutex → (current : ℕ) → Option (Mutex × ℕ)
unlock mutex current =
    let refcnt = sub_size mutex.refcnt 1 in
    let next_task = get_head mutex.waiting_list in
    if not (mutex.owner == current) || not mutex.locked || (mutex.refcnt == 0)
    then none
    else if not (refcnt == 0)
    then some (record mutex { refcnt = refcnt }, 0)
    else if not (next_task == 0)
    then some (
      record {
        locked = mutex.locked;
        owner = next_task;
        refcnt = 1;
        waiting_list = wakeup mutex.waiting_list;
      },
      next_task,
    )
    else some (record mutex { refcnt = refcnt; owner = 0; locked = false }, 0)
