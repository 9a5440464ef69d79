-- ===== src/Tasks/Invariant.antt =====
-- task_store.rs: no pending task is lost, whatever the order of the calls.
use hyverk_distributed_llm.Common.{
  ℕ, String, true, false, ◌≡◌, sym, subst, none, some, inl, inr, List, [], ◌∷◌, ◌++◌, arith, all,
  filter, contains, contains-append, is_some, if◌then◌else◌, str_eq, eq_iff, eq_refl, Bool-cases,
  Option-cases,
}
use hyverk_distributed_llm.Common.HashMap
use hyverk_distributed_llm.Common.HashMap.{
  HashMap, IsMap, keys, get-insert, insert-IsMap, get-modify, keys-modify, get-map_values,
  keys-map_values, get-retain, retain-IsMap,
}
use hyverk_distributed_llm.Tasks.Assignment.{
  is_elsewhere, is_take, NoneFor, waiting, assign_pending_task-none, assign_pending_task-some,
  queue_cases,
}
use hyverk_distributed_llm.Tasks.{
  TaskStore, TaskInfo, TaskStatus, is_pending, elsewhere, take, judge, judge_task, assign_to,
  assign_pending_task, new_task, create_task, set_status, is_overdue, reset_overdue, overdue_ids,
  reassign_stale_tasks, keeps_task, cleanup_old_tasks,
}

-- Each task stands under its own id, and the id of each pending one is in the queue.
pub record Queued (s : TaskStore) : Type 0 where
  pub is_map : IsMap s.tasks
  pub keyed : (k : String) (t : TaskInfo) → HashMap.get k s.tasks ≡ some t → t.task_id ≡ k
  pub queued :
      (k : String) (t : TaskInfo)
      → HashMap.get k s.tasks ≡ some t
      → is_pending t.status ≡ true
      → contains s.pending_queue k ≡ true

pub create_task-Queued :
    (s : TaskStore) (task_id model prompt : String) (temperature max_tokens now : ℕ)
    → Queued s
    → Queued (create_task s task_id model prompt temperature max_tokens now).0
unfolding create_task contains
create_task-Queued s i model prompt temperature max_tokens now v =
    let t = new_task i model prompt temperature max_tokens now in
    record {
      is_map = insert-IsMap i t s.tasks v.is_map;
      keyed = λ k u e. ground (arith, get-insert i k t s.tasks, eq_iff i k, v.keyed k u);
      queued = λ k u e p. ground (
        arith,
        get-insert i k t s.tasks,
        eq_iff i k,
        v.queued k u,
        contains-append s.pending_queue (i ∷ []) k,
      );
    }

pub set_status-Queued :
    (st : TaskStatus) (s : TaskStore) (i : String)
    → is_pending st ≡ false
    → Queued s
    → Queued (set_status st s i).0
unfolding set_status
set_status-Queued st s i h v =
    let f = λ (t : TaskInfo). record t { status = st } in
    elim (Bool-cases (is_some (HashMap.get i s.tasks))) [
      | inl e ↦ rw e (record {
        is_map = rw (keys-modify i f s.tasks) v.is_map;
        keyed = λ k u e. elim (Option-cases (HashMap.get k s.tasks)) [
          | inl n ↦ absurd (ground (arith, get-modify i k f s.tasks))
          | inr (t, n) ↦ ground (arith, get-modify i k f s.tasks, v.keyed k t)
        ];
        queued = λ k u e p. elim (Option-cases (HashMap.get k s.tasks)) [
          | inl n ↦ absurd (ground (arith, get-modify i k f s.tasks))
          | inr (t, n) ↦ ground (arith, get-modify i k f s.tasks, v.queued k t)
        ];
      })
      | inr e ↦ rw e v
    ]

-- The ids that stay in the queue.
contains-waiting :
    (node_id : String) (models : List String) (now : ℕ) (tasks : HashMap TaskInfo) (q : List String)
    (k : String)
    → contains q k ≡ true
    → is_elsewhere (judge models tasks k) ≡ true
    → contains (waiting node_id models now tasks q) k ≡ true
unfolding contains filter
contains-waiting node_id models now tasks [] k h e = h
contains-waiting node_id models now tasks (i ∷ q) k h e =
    ground (arith, eq_iff i k, contains-waiting node_id models now tasks q k)

pub NoneFor-contains :
    (node_id : String) (models : List String) (now : ℕ) (tasks : HashMap TaskInfo) (q : List String)
    (k : String)
    → NoneFor node_id models now tasks q
    → contains q k ≡ true
    → is_take (judge models tasks k) ≡ false
unfolding contains all
NoneFor-contains node_id models now tasks [] k h e = cc
NoneFor-contains node_id models now tasks (i ∷ q) k h e =
    ground (arith, eq_iff i k, NoneFor-contains node_id models now tasks q k)

pub judge_pending :
    (models : List String) (tasks : HashMap TaskInfo) (k : String) (t : TaskInfo)
    → HashMap.get k tasks ≡ some t
    → is_pending t.status ≡ true
    → judge models tasks k ≡ (if contains models t.model then take t else elsewhere)
unfolding judge judge_task
judge_pending models tasks k t e p = ground arith

pub contains-overdue_ids :
    (timeout now : ℕ) (m : HashMap TaskInfo) (k : String) (t : TaskInfo)
    → HashMap.get k m ≡ some t
    → is_overdue timeout now t.status ≡ true
    → contains (overdue_ids timeout now m) t.task_id ≡ true
unfolding contains overdue_ids HashMap.get
contains-overdue_ids timeout now [] k t e h = cc
contains-overdue_ids timeout now ((j, u) ∷ m) k t e h =
    ground (arith, contains-overdue_ids timeout now m k t, eq_refl t.task_id)

pub reassign_stale_tasks-Queued :
    (s : TaskStore) (timeout now : ℕ) → Queued s → Queued (reassign_stale_tasks s timeout now)
unfolding reassign_stale_tasks
reassign_stale_tasks-Queued s timeout now v =
    let f = reset_overdue timeout now in
    let at = λ (k : String). get-map_values k f s.tasks in
    record {
      is_map = rw (keys-map_values f s.tasks) v.is_map;
      keyed = λ k u e. elim (Option-cases (HashMap.get k s.tasks)) [
        | inl n ↦ absurd (ground (arith, at k))
        | inr (t, n) ↦ ground (arith, at k, v.keyed k t)
      ];
      queued = λ k u e p. elim (Option-cases (HashMap.get k s.tasks)) [
        | inl n ↦ absurd (ground (arith, at k))
        | inr (t, n) ↦ ground (
          arith,
          at k,
          v.keyed k t,
          v.queued k t,
          contains-overdue_ids timeout now s.tasks k t,
          contains-append s.pending_queue (overdue_ids timeout now s.tasks) k,
        )
      ];
    }

pub cleanup_old_tasks-Queued :
    (s : TaskStore) (now : ℕ) → Queued s → Queued (cleanup_old_tasks s now)
unfolding cleanup_old_tasks
cleanup_old_tasks-Queued s now v =
    let at = λ (k : String). get-retain (keeps_task now) k s.tasks v.is_map in
    record {
      is_map = retain-IsMap (keeps_task now) s.tasks v.is_map;
      keyed = λ k u e. ground (arith, at k, v.keyed k u);
      queued = λ k u e p. ground (arith, at k, v.queued k u);
    }

-- The two outcomes of `assign_pending_task`.
none-Queued :
    (s : TaskStore) (node_id : String) (models : List String) (now : ℕ)
    → NoneFor node_id models now s.tasks s.pending_queue
    → Queued s
    → Queued (record s { pending_queue = waiting node_id models now s.tasks s.pending_queue })
none-Queued s node_id models now h v = record {
  is_map = v.is_map;
  keyed = v.keyed;
  queued = λ k t e p. ground (
    arith,
    v.queued k t,
    judge_pending models s.tasks k t e p,
    NoneFor-contains node_id models now s.tasks s.pending_queue k,
    contains-waiting node_id models now s.tasks s.pending_queue k,
  );
}

some-Queued :
    (s : TaskStore) (node_id : String) (models : List String) (now : ℕ) (before after : List String)
    (i : String)
    → s.pending_queue ≡ before ++ i ∷ after
    → NoneFor node_id models now s.tasks before
    → Queued s
    → Queued (record {
      tasks = HashMap.modify i (assign_to node_id now) s.tasks;
      pending_queue = after ++ waiting node_id models now s.tasks before;
    })
unfolding contains
some-Queued s node_id models now before after i q h v =
    let f = assign_to node_id now in
    let at = λ (k : String). get-modify i k f s.tasks in
    record {
      is_map = rw (keys-modify i f s.tasks) v.is_map;
      keyed = λ k u e. elim (Option-cases (HashMap.get k s.tasks)) [
        | inl n ↦ absurd (ground (arith, at k))
        | inr (t, n) ↦ ground (arith, at k, v.keyed k t)
      ];
      queued = λ k u e p.
          let old = kept k u (at k) e p in
          ground (
            arith,
            old,
            subst (λ r. contains r k ≡ true) q (v.queued k u old.1 p),
            contains-append before (i ∷ after) k,
            contains-append after (waiting node_id models now s.tasks before) k,
            judge_pending models s.tasks k u old.1 p,
            NoneFor-contains node_id models now s.tasks before k,
            contains-waiting node_id models now s.tasks before k,
          );
    }
  where
    kept :
        (k : String) (u : TaskInfo)
        → HashMap.get k (HashMap.modify i (assign_to node_id now) s.tasks) ≡ (
            if str_eq i k
            then elim (HashMap.get k s.tasks) [
              | none ↦ none
              | some t ↦ some (assign_to node_id now t)
            ]
            else HashMap.get k s.tasks)
        → HashMap.get k (HashMap.modify i (assign_to node_id now) s.tasks) ≡ some u
        → is_pending u.status ≡ true
        → (str_eq i k ≡ false) × (HashMap.get k s.tasks ≡ some u)
    kept k u a e p = ground arith

pub assign_pending_task-Queued :
    (s : TaskStore) (node_id : String) (models : List String) (now : ℕ)
    → Queued s
    → Queued (assign_pending_task s node_id models now).0
assign_pending_task-Queued s node_id models now v =
    elim (queue_cases node_id models now s.tasks s.pending_queue) [
      | inl h ↦
          subst (λ r. Queued r.0) (sym (assign_pending_task-none s node_id models now h))
            (none-Queued s node_id models now h v)
      | inr (before, i, after, t, q, h, e) ↦
          subst (λ r. Queued r.0)
            (sym (assign_pending_task-some s node_id models now before after i t q h e))
            (some-Queued s node_id models now before after i q h v)
    ]
