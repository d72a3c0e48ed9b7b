-- ===== src/Task/Create/Tree.antt =====
-- The tree of tasks under os_task_remove.
use dreamos_cversion.Base.{
  ℕ, ◌≡◌, ◌≢◌, refl, ap, ◌∙◌, inl, inr, Bool, true, false, ◌&&◌, ◌||◌, not, Option, is_some, some,
  none, List, [], ◌∷◌, ◌++◌, arith, ◌==◌, if◌then◌else◌, Bool-cases, ℕ_discrete, has, distinct,
  without, has-append, has-without, distinct-without, distinct-join,
}
use mathlib.Core.List.{append-nil, append_assoc}
use dreamos_cversion.Task.Create.{
  System, Removing, returns, uses_freed, hand_over, unlinked, removed, remove_table, remove_with,
  task_remove,
}
use dreamos_cversion.Files.Table.{FdTable, fd_table_remove}
use dreamos_cversion.Task.{in_task_context}
use dreamos_cversion.Word.{sub_size}

-- A task stands once in a list of children at most, in that of its parent.
pub record Family (s : System) : Type 0 where
  pub own : (p u : ℕ) → has u (s.child_list p) ≡ true → s.parent u ≡ p
  pub once : (p : ℕ) → distinct (s.child_list p) ≡ true

-- The lists of children after the loop.
hand_over_lists :
    (children : List ℕ) (s : System) (task : ℕ)
    → s.child_list task ≡ children
    → s.parent task ≢ task
    → (has task children ≡ false)
    → (p : ℕ)
    → (hand_over s task children).child_list p ≡ (
        if p == task
        then []
        else if p == s.parent task
        then s.child_list p ++ children
        else s.child_list p)
hand_over_lists [] s task e ne out p = ground (arith, append-nil (s.child_list p))
hand_over_lists (c ∷ children) s task e ne out p =
    let s1 = hand_over s task (c ∷ []) in
    let parent : s1.parent task ≡ s.parent task = ground arith in
    let rest : s1.child_list task ≡ children = ground arith in
    let end = hand_over_lists children s1 task rest (ground arith) (ground arith) p in
    ground (arith, end, append_assoc (s.child_list p) (c ∷ []) children)

hand_over_parents :
    (children : List ℕ) (s : System) (task : ℕ)
    → has task children ≡ false
    → (u : ℕ)
    → (hand_over s task children).parent u ≡ (if has u children then s.parent task else s.parent u)
hand_over_parents [] s task out u = refl
hand_over_parents (c ∷ children) s task out u =
    let rest = hand_over_parents children (hand_over s task (c ∷ [])) task (ground arith) u in
    ground (arith, rest)

-- What removing the task makes of the tree, and of the ids: nothing, the id of the task stays taken.
pub record Removed (s s' : System) (task : ℕ) : Type 0 where
  pub lists :
      (p : ℕ)
      → s'.child_list p ≡ (
          if p == task
          then []
          else if p == s.parent task
          then without task (s.child_list p) ++ s.child_list task
          else s.child_list p)
  pub parents :
      (u : ℕ) → s'.parent u ≡ (if has u (s.child_list task) then s.parent task else s.parent u)
  pub same_pids : (s'.pid_bitmap ≡ s.pid_bitmap) × (s'.pid_map ≡ s.pid_map)

hand_over_pids :
    (children : List ℕ) (s : System) (task : ℕ)
    → ((hand_over s task children).pid_bitmap ≡ s.pid_bitmap)
      × ((hand_over s task children).pid_map ≡ s.pid_map)
hand_over_pids [] s task = (refl, refl)
hand_over_pids (c ∷ children) s task = hand_over_pids children (hand_over s task (c ∷ [])) task

module _ (s : System) (task : ℕ) (f : Family s) (ne : s.parent task ≢ task) where
  no_own_child : has task (s.child_list task) ≡ false
  no_own_child = elim (Bool-cases (has task (s.child_list task))) [
    | inl h ↦ absurd (ne (f.own task task h))
    | inr h ↦ h
  ]

  removed-Removed : Removed s (removed s task) task
  removed-Removed = record {
    lists = λ p. ground (
      arith,
      no_own_child,
      hand_over_lists (s.child_list task) (unlinked s task) task (ground arith) ne no_own_child p,
    );
    parents = λ u. hand_over_parents (s.child_list task) (unlinked s task) task no_own_child u;
    same_pids = hand_over_pids (s.child_list task) (unlinked s task) task;
  }

  Removed-own :
      (s' : System)
      → Removed s s' task
      → (p u : ℕ) → has u (s'.child_list p) ≡ true
      → s'.parent u ≡ p
  Removed-own s' r p u h = ground (
    arith,
    r.lists p,
    r.parents u,
    f.own p u,
    f.own task u,
    f.once p,
    has-without task u (s.child_list p),
    has-append u (without task (s.child_list p)) (s.child_list task),
  )

  Removed-once : (s' : System) → Removed s s' task → (p : ℕ) → distinct (s'.child_list p) ≡ true
  Removed-once s' r p = elim (ℕ_discrete p (s.parent task)) [
    | yes same ↦
        let apart : (t : ℕ)
            → has t (without task (s.child_list p)) ≡ true
            → has t (s.child_list task) ≡ false =
          λ t h.
            ground
              (arith, f.own p t, f.own task t, f.once p, has-without task t (s.child_list p)) in
        let joined =
          distinct-join (without task (s.child_list p)) (s.child_list task)
            (distinct-without task (s.child_list p) (f.once p)) (f.once task) apart in
        ground (arith, r.lists p, joined)
    | no other ↦ ground (arith, r.lists p, f.once p)
  ]

hand_over_tables :
    (children : List ℕ) (s : System) (task : ℕ)
    → ((hand_over s task children).fd_table ≡ s.fd_table)
      × ((hand_over s task children).fd_tables ≡ s.fd_tables)
hand_over_tables [] s task = (refl, refl)
hand_over_tables (c ∷ children) s task = hand_over_tables children (hand_over s task (c ∷ [])) task

-- How os_task_remove ends: with a use of the table of descriptors after it was given back, or well.
abbrev pub ends : (uses : Bool) → System → Removing
ends true s = uses_freed s
ends false s = returns s

-- Whether the task is the last user of its table of descriptors.
abbrev pub is_last_user : System → (task : ℕ) → Bool
is_last_user s task = sub_size (s.fd_tables (s.fd_table task)).refcnt 1 == 0

-- Removing the table of descriptors leaves the tree and the ids.
remove_with-ends :
    (initialised : Bool) (o : Option FdTable) (s : System) (task : ℕ)
    → (s' : System) × (remove_with initialised o s task ≡ ends (initialised && not (is_some o)) s')
      × (s'.child_list ≡ s.child_list)
      × (s'.parent ≡ s.parent)
      × (s'.pid_bitmap ≡ s.pid_bitmap)
      × (s'.pid_map ≡ s.pid_map)
remove_with-ends true (some table) s task = (_, refl, refl, refl, refl, refl)
remove_with-ends false (some table) s task = (_, refl, refl, refl, refl, refl)
remove_with-ends true none s task = (_, refl, refl, refl, refl, refl)
remove_with-ends false none s task = (_, refl, refl, refl, refl, refl)

last_user_lem : (t : FdTable) → not (is_some (fd_table_remove t)) ≡ (sub_size t.refcnt 1 == 0)
last_user_lem t = elim (Bool-cases (sub_size t.refcnt 1 == 0)) [
  | inl e ↦ rw e refl
  | inr e ↦ rw e refl
]

same_last_user : (s : System) (task : ℕ) → is_last_user (removed s task) task ≡ is_last_user s task
same_last_user s task =
    let (tables, stores) = hand_over_tables (s.child_list task) (unlinked s task) task in
    ap (λ t. sub_size ((removed s task).fd_tables (t task)).refcnt 1 == 0) tables
    ∙ ap (λ f. sub_size (f (s.fd_table task)).refcnt 1 == 0) stores

removes_lem :
    (initialised : Bool) (s : System) (idle main task : ℕ)
    → task ≢ idle
    → task ≢ main
    → s.parent task ≢ 0
    → (initialised && not (in_task_context s.kernel)) ≡ false
    → task_remove initialised s idle main task ≡ remove_table initialised (removed s task) task
unfolding task_remove
removes_lem initialised s idle main task ni nm np context =
    let holds : ((task == idle) || (task == main) || (s.parent task == 0)) ≡ false = ground arith in
    rw (holds, context) refl

-- If every task stands at most once in the lists of children and only in that of its parent, then
-- os_task_remove of a task other than the idle and the main task, whose parent is not OS_NULL and
-- not the task itself, in the context of a task if the scheduler is initialised: if the scheduler
-- is initialised and the task is the last user of its table of descriptors, it unlocks the mutex
-- of the table after the table was given back; else it returns. In the state of then, the
-- children of the task have come behind the other children of its parent, in their order, which
-- is their parent now; every other task keeps its parent; the tree is in order again; and the
-- free process ids and the hash map are unchanged.
pub task_remove-Removed :
    (initialised : Bool) (s : System) (idle main task : ℕ)
    → Family s
    → task ≢ idle
    → task ≢ main
    → s.parent task ≢ 0
    → s.parent task ≢ task
    → (initialised && not (in_task_context s.kernel)) ≡ false
    → (s' : System) × (task_remove initialised s idle main task
        ≡ ends (initialised && is_last_user s task) s')
      × Removed s s' task
      × Family s'
unfolding task_remove
task_remove-Removed initialised s idle main task f ni nm np ne context =
    let r = removed-Removed s task f ne in
    let s1 = removed s task in
    let table = s1.fd_tables (s1.fd_table task) in
    let (s', e, lists, parents, bits, map) =
      remove_with-ends initialised (fd_table_remove table) s1 task in
    let goes : task_remove initialised s idle main task
        ≡ remove_table initialised (removed s task) task =
      removes_lem initialised s idle main task ni nm np context in
    let r' : Removed s s' task = record {
      lists = λ p. ap (λ l. l p) lists ∙ r.lists p;
      parents = λ u. ap (λ l. l u) parents ∙ r.parents u;
      same_pids = (bits ∙ r.same_pids.0, map ∙ r.same_pids.1);
    } in
    (
      s',
      goes ∙ e ∙ ap (λ b. ends (initialised && b) s') (last_user_lem table ∙ same_last_user s task),
      r',
      record { own = Removed-own s task f ne s' r'; once = Removed-once s task f ne s' r' },
    )
