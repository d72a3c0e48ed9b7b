-- ===== src/Task/Create/Tests.antt =====
-- Tasks that are made and removed in a small system.
use dreamos_cversion.Base.{
  ℕ, zero, suc, ◌*◌, ◌<◌, ◌≡◌, refl, true, false, Option, List, some, [], ◌∷◌, arith, ◌==◌,
  if◌then◌else◌, get_or,
}
use dreamos_cversion.Word.{size_mod}
use dreamos_cversion.Task.Create.Init.{Initialised, task_init-Initialised}
use dreamos_cversion.Task.Create.Tree.{Family, Removed, task_remove-Removed}
use dreamos_cversion.Task.Create.Pids.{Pids}
use dreamos_cversion.Task.Create.{System, returns, task_init, task_remove}
use dreamos_cversion.Files.Table.{FdTable, fd_table_create}
use dreamos_cversion.Task.{ready}

one_word : (a g : ℕ) → a < size_mod → get_or (a ∷ []) g 0 < size_mod
one_word a zero h = h
one_word a (suc g) h = omega arith

-- A table of descriptors with two users.
abbrev some_table : FdTable
some_table = record {
  fd_bitmap = record { memory = 0xff ∷ []; capacity = 64; size = 8; allocated = true };
  fd_hashmap = record { list = [] ∷ []; count = 1; count_bit = 0; hash_function = λ bits key. 0 };
  refcnt = 2;
  lock = 0;
}

-- os_memory_alloc gives two groups.
abbrev two_groups : ℕ → Option (List ℕ)
two_groups n = some (7 ∷ 9 ∷ [])

-- Task 1 runs, with the children 2 and 4; task 2 has the child 3. The ids from 8 to 15 are free.
abbrev some_system : System
some_system = record {
  kernel = record {
    tasks = λ t. record {
      sp = 0;
      stack_addr = 100 * t;
      stack_size = 50;
      priority = 10;
      tick_init = 3;
      tick_remaining = 3;
      task_state = ready;
    };
    task_list = 1 ∷ 2 ∷ 3 ∷ 4 ∷ [];
    priority_ready_list = λ p. [];
    current_task = 1;
    need_lazy_task_switch = false;
    lazy_old_task = 0;
    lazy_next_task = 0;
    interrupt_nest = 0;
    global_tick = 0;
    switches = [];
  };
  pid_bitmap = record { memory = 0xff00 ∷ []; capacity = 64; size = 64; allocated = false };
  pid_map = record { list = [] ∷ []; count = 1; count_bit = 0; hash_function = λ bits key. 0 };
  stacks = 100 ∷ 200 ∷ 300 ∷ 400 ∷ [];
  pid = λ t. 0;
  parent = λ t. if t == 3 then 2 else if t == 1 then 0 else 1;
  child_list = λ t. if t == 1 then 2 ∷ 4 ∷ [] else if t == 2 then 3 ∷ [] else [];
  vtable = λ t. 7;
  refcnt = λ v. 4;
  dropped = [];
  fd_table = λ t. 900;
  fd_tables = λ a. some_table;
  freed = [];
}

some_system-Pids : Pids some_system
some_system-Pids = record {
  bits = record {
    sized = omega arith;
    tight = omega arith;
    aligned = refl;
    grouped = omega arith;
    small = omega arith;
    words = λ g. one_word 0xff00 g (omega arith);
  };
  map = record { sized = refl; hashed = λ key. omega arith; distinct = λ key. refl };
  free = λ j f. refl;
}

task_init-Initialised_example :
    Initialised some_system 5 500
      (fd_table_create 800 two_groups true)
      (task_init some_system 5 64 10 3 500 true 800 two_groups true 7)
task_init-Initialised_example =
    task_init-Initialised some_system 5 64 10 3 500 true 800 two_groups true 7 some_system-Pids refl
      (omega arith)

some_system-Family : Family some_system
some_system-Family = record { own = λ p u h. ground arith; once = λ p. ground arith }

task_remove-Removed_example :
    (s' : System) × (task_remove true some_system 1 9 2 ≡ returns s')
    × Removed some_system s' 2
    × Family s'
task_remove-Removed_example =
    task_remove-Removed true some_system 1 9 2 some_system-Family (omega arith) (omega arith)
      (omega arith) (omega arith) refl
