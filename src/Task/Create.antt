-- ===== src/Task/Create.antt =====
-- src/os_task.c: os_task_init and os_task_remove, with process ids and the tree of tasks.
--
-- What os_memory_alloc gives for the stack and for the table of descriptors, 0 for OS_NULL, and for its
-- bitmap, and whether there is room for an item and for buckets of a hash map, are arguments.
pub mod Tree
mod Tests
pub mod Pids
pub mod Init
use dreamos_cversion.Base.{
  ℕ, zero, suc, ◌+◌, ◌-◌, ◌*◌, ◌/◌, ◌%◌, ◌^◌, ◌<◌, ◌≤◌, ◌≡◌, ◌≢◌, ◌↔◌, refl, sym, ap, subst, ◌∙◌,
  ◌⊎◌, inl, inr, min, max, bit_and, bit_or, bit_xor, Bool, true, false, ◌&&◌, ◌||◌, not, Option,
  none, some, List, [], ◌∷◌, ◌++◌, arith, ltb, leb, ◌==◌, if◌then◌else◌, Bool-cases, Option-cases,
  is_some, dec_lt, ℕ_discrete, length, get_or, get_elem?, take, drop, replicate, length-append,
  length-set, get_or-set_self, get_or-set_ne, length-replicate, get_or-replicate, set-set_self,
  ==_iff, has, distinct, without, has-append, distinct-append, has-without, distinct-without,
  without_absent, ◌>>=◌, distinct-join,
}
use mathlib.Core.List.{append-nil, append_assoc}
use dreamos_cversion.Bitmap.Access.{Rewritten, set_bit-Rewritten}
use dreamos_cversion.Bitmap.View.{bit_at}
use dreamos_cversion.Bitmap.View
use dreamos_cversion.Bitmap.{Bitmap, find_some_ones, set_bit, is_one}
use dreamos_cversion.Hashmap.Laws.{lookup, Updated, IsValid, remove_item-Updated, set_item-Updated}
use dreamos_cversion.Hashmap.{Hashmap, get, set_item, remove_item, done, einval, enomem}
use dreamos_cversion.Files.Table.{FdTable, fd_table_create, fd_table_remove}
use dreamos_cversion.Word.{add_size, sub_size, number_max}
use dreamos_cversion.Task.{
  TaskState, is_running, is_ready, is_sleeping, Task, Kernel, Outcome, and_then, priority_max,
  priority_uplimit, write, insert_tail, node_remove, head_or, first_ready, get_next_task,
  stack_overflows, is_in_interrupt, choose, give_up, reset_tick, switch_task, schedule,
  set_current_task_state, in_task_context, yield_now, sleep, wake_up, startup, tick_handler,
  enter_interrupt, leave_interrupt, scheduler_start, scheduler_init, running, ready, blocking,
  sleeping, stopped, runs, stack_overflowed,
}

-- The scheduler; the map of free process ids, 1 for free, and the hash map from them to tasks; the
-- stacks that are allocated; the fields of the tasks that the scheduler does not use; the page
-- tables, those whose count fell to 0 being dropped; the tables of descriptors; and the tasks and tables
-- of descriptors that are given back.
pub record System : Type 0 where
  pub kernel : Kernel
  pub pid_bitmap : Bitmap
  pub pid_map : Hashmap
  pub stacks : List ℕ
  pub pid : ℕ → ℕ
  pub parent : ℕ → ℕ
  pub child_list : ℕ → List ℕ
  pub vtable : ℕ → ℕ
  pub refcnt : ℕ → ℕ
  pub dropped : List ℕ
  pub fd_table : ℕ → ℕ
  pub fd_tables : ℕ → FdTable
  pub freed : List ℕ

-- OS_ERR_OK, OS_ERR_EPERM, -OS_ERR_EPERM, -OS_ERR_ENOMEM and -OS_ERR_EINVAL
pub data Err : Type 0 where
  ok eperm minus_eperm minus_enomem minus_einval : Err

abbrev pub put {ℓ} : {A : Type ℓ} → (ℕ → A) → ℕ → A → ℕ → A
put f k v n = if n == k then v else f n

-- os_task_get_new_pid; `none` is a failed assertion.
unfoldable pub get_new_pid : Bitmap → Option (Option (ℕ × Bitmap))
get_new_pid bitmap = do
  ret ← find_some_ones bitmap 0 1
  if ret == number_max
      then some none
      else (do bitmap' ← set_bit bitmap ret 0; some (some (ret, bitmap')))

-- os_task_release_pid
abbrev pub release_pid : Bitmap → (pid : ℕ) → Option Bitmap
release_pid bitmap pid = set_bit bitmap pid 1

-- os_task_get_task_by_pid
abbrev pub get_task_by_pid : System → (pid : ℕ) → Option ℕ
get_task_by_pid s pid = get s.pid_map pid >>= λ (r : Bool × ℕ). some r.1

-- os_memory_free of the stack
abbrev pub free_stack : System → (stack_addr : ℕ) → System
free_stack s stack_addr = record s { stacks = without stack_addr s.stacks }

-- The end of os_task_init, where nothing can fail.
abbrev pub fill_in :
    System → (task stack_addr stack_size priority tick_init kernel_pagetable : ℕ) → System
fill_in s task stack_addr stack_size priority tick_init kernel_pagetable =
    let parent = s.kernel.current_task in
    let cleared = put s.child_list task [] in
    record s {
      kernel = write s.kernel task (record {
        sp = add_size stack_addr stack_size;
        stack_addr = stack_addr;
        stack_size = stack_size;
        priority = priority;
        tick_init = tick_init;
        tick_remaining = tick_init;
        task_state = ready;
      });
      vtable = put s.vtable task kernel_pagetable;
      refcnt = put s.refcnt kernel_pagetable (add_size (s.refcnt kernel_pagetable) 1);
      parent = put s.parent task parent;
      child_list =
          if parent == 0 then cleared else put cleared parent (cleared parent ++ task ∷ []);
    }

-- The task has the table.
abbrev pub with_table : System → (task fd_table : ℕ) → FdTable → System
with_table s task fd_table table = record s {
  fd_table = put s.fd_table task fd_table;
  fd_tables = put s.fd_tables fd_table table;
}

-- The rest of os_task_init when it has a stack and a process id.
abbrev pub register :
    System
    → (task stack_addr stack_size priority tick_init : ℕ) → (room : Bool) → (fd_table : ℕ)
    → (alloc : ℕ → Option (List ℕ)) → (buckets : Bool) → (kernel_pagetable : ℕ)
    → Option (Err × System)
register s task stack_addr stack_size priority tick_init room fd_table alloc buckets
      kernel_pagetable =
    do
      set ← set_item s.pid_map room (s.pid task) task
      elim set [
        | done map ↦ (do
          made ← fd_table_create fd_table alloc buckets
          elim made [
            | none ↦ (do
              map' ← remove_item map (s.pid task)
              bitmap ← release_pid s.pid_bitmap (s.pid task)
              some (
                ok,
                free_stack
                    (record s {
                      pid_map = map';
                      pid_bitmap = bitmap;
                      fd_table = put s.fd_table task 0;
                    })
                    stack_addr,
              ))
            | some table ↦ some (
              ok,
              fill_in (with_table (record s { pid_map = map }) task fd_table table) task stack_addr
                  stack_size priority tick_init kernel_pagetable,
            )
          ])
        | enomem ↦ (do
          bitmap ← release_pid s.pid_bitmap (s.pid task)
          some (minus_enomem, free_stack (record s { pid_bitmap = bitmap }) stack_addr))
        | einval ↦ (do
          bitmap ← release_pid s.pid_bitmap (s.pid task)
          some (minus_einval, free_stack (record s { pid_bitmap = bitmap }) stack_addr))
      ]

-- os_task_init so far: the stack is asked for, it is there, and there is a process id.
abbrev pub tried : System → (task stack_addr : ℕ) → System
tried s task stack_addr = record s {
  kernel = write s.kernel task (record (s.kernel.tasks task) { stack_addr = stack_addr });
}

abbrev pub stacked : System → (task stack_addr : ℕ) → System
stacked s task stack_addr = record (tried s task stack_addr) { stacks = stack_addr ∷ s.stacks }

abbrev pub numbered : System → (task stack_addr pid : ℕ) → Bitmap → System
numbered s task stack_addr pid bitmap = record (stacked s task stack_addr) {
  pid_bitmap = bitmap;
  pid = put s.pid task pid;
}

-- os_task_init
unfoldable pub task_init :
    System
    → (task stack_size priority tick_init : ℕ) → (stack_addr : ℕ) → (room : Bool) → (fd_table : ℕ)
    → (alloc : ℕ → Option (List ℕ)) → (buckets : Bool) → (kernel_pagetable : ℕ)
    → Option (Err × System)
task_init s task stack_size priority tick_init stack_addr room fd_table alloc buckets
      kernel_pagetable =
    if is_in_interrupt s.kernel || (task == 0)
    then none
    else if ltb priority_max priority
    then some (minus_eperm, s)
    else if stack_addr == 0
    then some (minus_enomem, tried s task stack_addr)
    else (do
      new ← get_new_pid s.pid_bitmap
      elim new [
        | none ↦ some (eperm, free_stack (stacked s task stack_addr) stack_addr)
        | some (pid, bitmap) ↦
            register (numbered s task stack_addr pid bitmap) task stack_addr stack_size priority
              tick_init room fd_table alloc buckets kernel_pagetable
      ])

-- The loop of os_task_remove: the children go to the parent of their parent.
abbrev pub hand_over : System → (task : ℕ) → (children : List ℕ) → System
hand_over s task [] = s
hand_over s task (entry ∷ children) =
    let parent = s.parent task in
    let unlinked = put s.child_list task (without entry (s.child_list task)) in
    let linked = put unlinked parent (unlinked parent ++ entry ∷ []) in
    hand_over (record s { child_list = linked; parent = put s.parent entry parent }) task children

-- The page table of a task loses a user.
abbrev pub drop_vtable : System → (table : ℕ) → System
drop_vtable s table =
    let refcnt = sub_size (s.refcnt table) 1 in
    record s {
      refcnt = put s.refcnt table refcnt;
      dropped = if refcnt == 0 then table ∷ s.dropped else s.dropped;
    }

-- os_task_remove before the children are handed over, and before os_file_fd_table_remove.
abbrev pub unlinked : System → (task : ℕ) → System
unlinked s task =
    let parent = s.parent task in
    let kernel : Kernel =
      node_remove (record (s.kernel) { task_list = without task s.kernel.task_list }) task in
    free_stack
      (record s {
        kernel = kernel;
        child_list = put s.child_list parent (without task (s.child_list parent));
      })
      (s.kernel.tasks task).stack_addr

abbrev pub removed : System → (task : ℕ) → System
removed s task = drop_vtable (hand_over (unlinked s task) task (s.child_list task)) (s.vtable task)

-- What os_task_remove does: it returns; an assertion fails; or the mutex of the table of descriptors is
-- unlocked after the table has been given back, which has no meaning, with the state before it.
pub data Removing : Type 0 where
  returns : System → Removing
  fails : Removing
  uses_freed : System → Removing

-- os_memory_free of the task
abbrev pub free_task : System → (task : ℕ) → System
free_task s task = record s { freed = task ∷ s.freed }

-- os_task_remove from os_file_fd_table_remove on, by what that leaves of the table; `initialised` is
-- os_task_scheduler_is_initialized.
abbrev pub remove_with :
    (initialised : Bool) → (left : Option FdTable) → System → (task : ℕ) → Removing
remove_with initialised (some table) s task =
    returns (free_task (record s { fd_tables = put s.fd_tables (s.fd_table task) table }) task)
remove_with true none s task = uses_freed (record s { freed = s.fd_table task ∷ s.freed })
remove_with false none s task =
    returns (free_task (record s { freed = s.fd_table task ∷ s.freed }) task)

abbrev pub remove_table : (initialised : Bool) → System → (task : ℕ) → Removing
remove_table initialised s task =
    remove_with initialised (fd_table_remove (s.fd_tables (s.fd_table task))) s task

-- os_task_remove, where the file systems are initialised
unfoldable pub task_remove :
    (initialised : Bool) → System → (task_idle task_main task : ℕ) → Removing
task_remove initialised s task_idle task_main task =
    if (task == task_idle) || (task == task_main) || (s.parent task == 0)
    then fails
    else if initialised && not (in_task_context s.kernel)
    then fails
    else remove_table initialised (removed s task) task
