-- ===== src/Task/Create/Init.antt =====
-- os_task_init and the process ids, on each of its branches.
use dreamos_cversion.Base.{
  ℕ, ◌<◌, ◌≤◌, ◌≡◌, ◌≢◌, refl, sym, ap, subst, ◌∙◌, inl, inr, Bool, false, Option, none, some, List,
  ◌∷◌, Option-cases, arith, ◌==◌, if◌then◌else◌, dec_lt, ℕ_discrete,
}
use dreamos_cversion.Bitmap.Access.{set_bit-Rewritten}
use dreamos_cversion.Bitmap.View.{bit_at}
use dreamos_cversion.Bitmap.View
use dreamos_cversion.Bitmap.{Bitmap}
use dreamos_cversion.Hashmap.Laws.{lookup, Updated, IsValid, remove_item-Updated, set_item-Updated}
use dreamos_cversion.Hashmap.{Hashmap, set_item, done, enomem}
use dreamos_cversion.Task.Create.Pids.{Pids, SamePids, Taken, get_new_pid-Taken}
use dreamos_cversion.Task.Create.{
  System, Err, put, with_table, release_pid, free_stack, fill_in, register, tried, numbered,
  task_init, ok, eperm, minus_eperm, minus_enomem,
}
use dreamos_cversion.Files.Table.{FdTable, fd_table_create}
use dreamos_cversion.Task.{Kernel, priority_max, write, is_in_interrupt}

-- The task has the id pid, which was free, and nothing else changes for the ids and the stacks.
pub record Created (s : System) (task stack_addr pid : ℕ) (s' : System) : Type 0 where
  pub inside : pid < s.pid_bitmap.size
  pub was_free : bit_at s.pid_bitmap pid ≡ 1
  pub bits : (j : ℕ) → bit_at s'.pid_bitmap j ≡ (if pid == j then 0 else bit_at s.pid_bitmap j)
  pub tasks : (j : ℕ) → lookup s'.pid_map j ≡ (if pid == j then some task else lookup s.pid_map j)
  pub own : s'.pid task ≡ pid
  pub stack : s'.stacks ≡ stack_addr ∷ s.stacks

-- Process ids, stacks and the tree are as before.
pub record Undone (s s' : System) : Type 0 where
  pub pids : SamePids s s'
  pub stacks : s'.stacks ≡ s.stacks
  pub tree : s'.child_list ≡ s.child_list

-- What os_task_init does, where `made` is what os_file_fd_table_create does: `none` if it does not return.
pub data Initialised (s : System) (task stack_addr : ℕ) (made : Option (Option FdTable))
    (o : Option (Err × System)) : Type 0 where
  created :
      (pid : ℕ) (s' : System)
      → o ≡ some (ok, s')
      → (table : FdTable) → made ≡ some (some table)
      → Created s task stack_addr pid s'
      → Pids s'
      → Initialised s task stack_addr made o
  undone :
      (err : Err) (s' : System)
      → o ≡ some (err, s')
      → (err ≡ ok → made ≡ some none)
      → Undone s s'
      → Pids s'
      → Initialised s task stack_addr made o
  stopped : o ≡ none → made ≡ none → Initialised s task stack_addr made o

-- A system s2 in which the id pid is taken and the stack is allocated.
module _ (s s2 : System) (task stack_addr pid : ℕ) (valid : Pids s)
    (taken : Taken s.pid_bitmap pid s2.pid_bitmap) (own : s2.pid task ≡ pid)
    (stacked : s2.stacks ≡ stack_addr ∷ s.stacks) (same_map : s2.pid_map ≡ s.pid_map)
    (same_tree : s2.child_list ≡ s.child_list) where
  -- Releasing the id makes the bitmap what it was.
  released :
      (b : Bitmap) × (release_pid s2.pid_bitmap pid ≡ some b)
      × View.IsValid b
      × ((j : ℕ) → bit_at b j ≡ bit_at s.pid_bitmap j)
  released =
      let re = taken.rewritten in
      let (b, w, back) =
        set_bit-Rewritten pid 1 re.valid (omega (arith, re.same_size, taken.inside)) in
      (b, w, back.valid, λ j. ground (arith, back.at j, re.at j, taken.was_free))

  -- What is left when the map has the same tasks and the id is released.
  back-Undone :
      (map : Hashmap) (b : Bitmap) (tables : ℕ → ℕ)
      → IsValid map
      → View.IsValid b
      → ((j : ℕ) → lookup map j ≡ lookup s.pid_map j)
      → ((j : ℕ) → bit_at b j ≡ bit_at s.pid_bitmap j)
      → Undone s
          (free_stack (record s2 { pid_map = map; pid_bitmap = b; fd_table = tables }) stack_addr)
        × Pids
            (free_stack (record s2 { pid_map = map; pid_bitmap = b; fd_table = tables }) stack_addr)
  back-Undone map b tables vm vb same_tasks same_bits = (
    record {
      pids = record { same_bits = same_bits; same_tasks = same_tasks };
      stacks = rw stacked (ground arith);
      tree = same_tree;
    },
    record {
      bits = vb;
      map = vm;
      free = λ j f. same_tasks j ∙ valid.free j (sym (same_bits j) ∙ f);
    },
  )

  -- An id that is free has no task, whichever way the map says so.
  restored :
      (map map' : Hashmap) (j : ℕ)
      → lookup map j ≡ (if pid == j then some task else lookup s2.pid_map j)
      → lookup map' j ≡ (if pid == j then none else lookup map j)
      → lookup map' j ≡ lookup s.pid_map j
  restored map map' j set removed =
      let free = valid.free pid taken.was_free in
      elim (ℕ_discrete pid j) [
        | yes same ↦ removed ∙ ground (arith, subst (λ k. lookup s.pid_map k ≡ none) same free)
        | no other ↦ removed ∙ ground (arith, set, ap (λ m. lookup m j) same_map)
      ]

  module _ (stack_size priority tick_init : ℕ) (room : Bool) (fd_table : ℕ)
      (alloc : ℕ → Option (List ℕ)) (buckets : Bool) (pagetable : ℕ) where
    abbrev registered : Option (Err × System)
    registered =
        register s2 task stack_addr stack_size priority tick_init room fd_table alloc buckets
          pagetable

    abbrev made : Option (Option FdTable)
    made = fd_table_create fd_table alloc buckets

    no_table :
        (map : Hashmap)
        → made ≡ some none
        → set_item s2.pid_map room pid task ≡ some (done map)
        → Updated s2.pid_map pid (some task) map
        → Initialised s task stack_addr made registered
    no_table map z e (vm, at) =
        let (map', em, (vm', at')) = remove_item-Updated map pid vm in
        let (b, w, vb, sb) = released in
        let (un, ps) =
          back-Undone map' b (put s2.fd_table task 0) vm' vb
            (λ j. restored map map' j (at j) (at' j)) sb in
        undone ok
          (free_stack
            (record s2 { pid_map = map'; pid_bitmap = b; fd_table = put s2.fd_table task 0 })
            stack_addr)
          (rw (own, e, z, own, em, w) refl) (λ _. z) un ps

    no_room :
        set_item s2.pid_map room pid task ≡ some enomem
        → Initialised s task stack_addr made registered
    no_room e =
        let (b, w, vb, sb) = released in
        let (un, ps) =
          back-Undone s2.pid_map b s2.fd_table (subst IsValid (sym same_map) valid.map) vb
            (λ j. ap (λ m. lookup m j) same_map) sb in
        undone minus_enomem
          (free_stack (record s2 { pid_map = s2.pid_map; pid_bitmap = b }) stack_addr)
          (rw (own, e) (ground (arith, w))) (λ bad. cc) un ps

    has_table :
        (map : Hashmap) (table : FdTable)
        → made ≡ some (some table)
        → set_item s2.pid_map room pid task ≡ some (done map)
        → Updated s2.pid_map pid (some task) map
        → Initialised s task stack_addr made registered
    has_table map table z e (vm, at) =
        let re = taken.rewritten in
        let s' =
          fill_in (with_table (record s2 { pid_map = map }) task fd_table table) task stack_addr
            stack_size priority tick_init pagetable in
        created pid s' (rw (own, e, z) refl) table z
          (record {
            inside = taken.inside;
            was_free = taken.was_free;
            bits = re.at;
            tasks = λ j. at j ∙ ap (λ m. if pid == j then some task else lookup m j) same_map;
            own = own;
            stack = stacked;
          })
          (record {
            bits = re.valid;
            map = vm;
            free =
                λ j f. ground (arith, at j, re.at j, valid.free j, ap (λ m. lookup m j) same_map);
          })

    registered-Initialised : Initialised s task stack_addr made registered
    registered-Initialised =
        elim (set_item-Updated s2.pid_map room pid task (subst IsValid (sym same_map) valid.map)) [
          | inl (map, e, up) ↦ elim (Option-cases made) [
            | inl fails ↦ stopped (rw (own, e, fails) refl) fails
            | inr (some table, z) ↦ has_table map table z e up
            | inr (none, z) ↦ no_table map z e up
          ]
          | inr (e, _, _) ↦ no_room e
        ]

module _ (s : System) (task stack_size priority tick_init stack_addr : ℕ) (room : Bool)
    (fd_table : ℕ) (alloc : ℕ → Option (List ℕ)) (buckets : Bool) (pagetable : ℕ) (valid : Pids s)
    (outside : is_in_interrupt s.kernel ≡ false) (nonzero : task ≢ 0) where
  abbrev called : Option (Err × System)
  unfolding task_init
  called =
      task_init s task stack_size priority tick_init stack_addr room fd_table alloc buckets
        pagetable

  abbrev table_made : Option (Option FdTable)
  table_made = fd_table_create fd_table alloc buckets

  -- The failures before there is a process id.
  early :
      (err : Err) (kernel : Kernel)
      → called ≡ some (err, record s { kernel = kernel })
      → (err ≡ ok → ⊥)
      → Initialised s task stack_addr table_made called
  early err kernel e bad =
      undone err (record s { kernel = kernel }) e (λ k. absurd (bad k))
        (record {
          pids = record { same_bits = λ j. refl; same_tasks = λ j. refl };
          stacks = refl;
          tree = refl;
        })
        (record { bits = valid.bits; map = valid.map; free = valid.free })

  late :
      (priority ≤ priority_max) → stack_addr ≢ 0 → Initialised s task stack_addr table_made called
  unfolding task_init
  late low there = elim (get_new_pid-Taken s.pid_bitmap valid.bits) [
    | inl full ↦
        early eperm (write s.kernel task (record (s.kernel.tasks task) { stack_addr = stack_addr }))
          (rw full (ground arith)) (λ k. cc)
    | inr (pid, b, e, taken) ↦
        let goes : called
            ≡ register (numbered s task stack_addr pid b) task stack_addr stack_size priority
                tick_init room fd_table alloc buckets pagetable =
          rw e (ground arith) in
        subst (Initialised s task stack_addr table_made) (sym goes) (
          registered-Initialised s (numbered s task stack_addr pid b) task stack_addr pid valid
            taken (ground arith) refl refl refl stack_size priority tick_init room fd_table alloc
            buckets pagetable)
  ]

  -- If the map of process ids and the hash map are valid and no free id has a task, then for
  -- os_task_init of a task that is not OS_NULL, outside an interrupt: it gives OS_ERR_OK and
  -- os_file_fd_table_create has made a table, and the task has an id that was free, is not free
  -- now and stands for the task, every other id is as it was, and the stack is allocated; or it
  -- returns, the same ids are free and have the same tasks, the stacks and the lists of children
  -- are as they were, and the code is OS_ERR_OK only if os_file_fd_table_create has given
  -- OS_NULL; or it does not return, and neither does os_file_fd_table_create. When it returns, no
  -- free id has a task.
  pub task_init-Initialised :
      Initialised s task stack_addr (fd_table_create fd_table alloc buckets) (
        task_init s task stack_size priority tick_init stack_addr room fd_table alloc buckets
          pagetable)
  unfolding task_init
  task_init-Initialised = elim (dec_lt priority_max priority) [
    | yes high ↦ early minus_eperm s.kernel (ground arith) (λ k. cc)
    | no low ↦ elim (ℕ_discrete stack_addr 0) [
      | yes z ↦ early minus_enomem (tried s task stack_addr).kernel (ground arith) (λ k. cc)
      | no there ↦ late (omega arith) there
    ]
  ]
