-- ===== src/Tasks/Runs.antt =====
-- task_store.rs: the store through any sequence of calls, and what a polling node gets from it.
use hyverk_distributed_llm.Common.{
  ℕ, ◌-◌, ◌&&◌, contains-append, String, true, false, not, ◌≡◌, refl, none, some, inl, inr, List,
  arith, distinct, contains, is_some, if◌then◌else◌, str_eq, eq_iff, Option-cases, leb,
}
use mathlib.Core.Option
use hyverk_distributed_llm.Common.HashMap
use hyverk_distributed_llm.Common.HashMap.{HashMap, get-modify, get-map_values, get-retain}
use hyverk_distributed_llm.Tasks.Assignment.{
  assign_pending_task-none, assign_pending_task-some, queue_cases,
}
use hyverk_distributed_llm.Tasks.Invariant.{
  Queued, create_task-Queued, set_status-Queued, reassign_stale_tasks-Queued,
  cleanup_old_tasks-Queued, assign_pending_task-Queued, judge_pending, NoneFor-contains,
  contains-overdue_ids,
}
use hyverk_distributed_llm.Tasks.{
  TaskStore, TaskInfo, TaskStatus, pending, assigned, completed, failed, InferenceTask, is_pending,
  take, judge, judge_task, assign_to, to_inference, assign_pending_task, new, create_task,
  set_status, complete_task, fail_task, get_task, is_overdue, reset_overdue, overdue_ids,
  reassign_stale_tasks, keeps_task, cleanup_old_tasks, completed_task_ttl,
}

pub data Step (s : TaskStore) : TaskStore → Type 0 where
  creates :
      (task_id model prompt : String) (temperature max_tokens now : ℕ)
      → Step s (create_task s task_id model prompt temperature max_tokens now).0
  assigns :
      (node_id : String) (models : List String) (now : ℕ)
      → Step s (assign_pending_task s node_id models now).0
  completes :
      (task_id response_text : String) (duration_ms : ℕ)
      → Step s (complete_task s task_id response_text duration_ms).0
  fails : (task_id error : String) → Step s (fail_task s task_id error).0
  reassigns : (timeout now : ℕ) → Step s (reassign_stale_tasks s timeout now)
  cleans : (now : ℕ) → Step s (cleanup_old_tasks s now)

pub data Reach : TaskStore → Type 0 where
  here : Reach new
  next : {s t : TaskStore} → Reach s → Step s t → Reach t

Step-Queued : {s t : TaskStore} → Queued s → Step s t → Queued t
unfolding complete_task fail_task
Step-Queued {s} v (creates i model prompt temperature max_tokens now) =
    create_task-Queued s i model prompt temperature max_tokens now v
Step-Queued {s} v (assigns node_id models now) = assign_pending_task-Queued s node_id models now v
Step-Queued {s} v (completes i response_text duration_ms) = set_status-Queued _ s i refl v
Step-Queued {s} v (fails i error) = set_status-Queued _ s i refl v
Step-Queued {s} v (reassigns timeout now) = reassign_stale_tasks-Queued s timeout now v
Step-Queued {s} v (cleans now) = cleanup_old_tasks-Queued s now v

-- After any calls, no id stands twice in the map, each task is kept under its own id, and the id of
-- every pending task is in the queue.
pub Reach-Queued : (s : TaskStore) → Reach s → Queued s
unfolding new HashMap.get distinct
Reach-Queued s here = record { is_map = refl; keyed = λ k t e. cc; queued = λ k t e p. cc }
Reach-Queued t (next r st) = Step-Queued (Reach-Queued _ r) st

-- After any calls, a node that polls gets a task if any task is pending for one of its models.
pub assign_pending_task_finds :
    (s : TaskStore) (node_id : String) (models : List String) (now : ℕ) (k : String) (t : TaskInfo)
    → Reach s
    → get_task s k ≡ some t
    → is_pending t.status ≡ true
    → contains models t.model ≡ true
    → is_some (assign_pending_task s node_id models now).1 ≡ true
unfolding get_task
assign_pending_task_finds s node_id models now k t r e p c =
    elim (queue_cases node_id models now s.tasks s.pending_queue) [
      | inl h ↦
          let q = (Reach-Queued s r).queued k t e p in
          absurd (
            ground (
              arith,
              judge_pending models s.tasks k t e p,
              NoneFor-contains node_id models now s.tasks s.pending_queue k h q,
            ))
      | inr (before, i, after, u, q, h, f) ↦
          rw (assign_pending_task-some s node_id models now before after i u q h f)
    ]

judge-take :
    (models : List String) (tasks : HashMap TaskInfo) (i : String) (t : TaskInfo)
    → judge models tasks i ≡ take t
    → (HashMap.get i tasks ≡ some t)
      × (is_pending t.status ≡ true)
      × (contains models t.model ≡ true)
unfolding judge judge_task
judge-take models tasks i t e = elim (Option-cases (HashMap.get i tasks)) [
  | inl n ↦ absurd (ground arith)
  | inr (u, n) ↦ (ground arith, ground arith, ground arith)
]

-- After any calls, a task that a node gets was pending, and for one of the node's models; from then
-- on it is assigned to that node, with all else that is kept of it unchanged, and no other task is
-- touched.
pub assign_pending_task_exclusive :
    (s : TaskStore) (node_id : String) (models : List String) (now : ℕ) (given : InferenceTask)
    → Reach s
    → (assign_pending_task s node_id models now).1 ≡ some given
    → let s' = (assign_pending_task s node_id models now).0 in
      (t : TaskInfo) × (given ≡ to_inference t)
      × (get_task s given.task_id ≡ some t)
      × (is_pending t.status ≡ true)
      × (contains models t.model ≡ true)
      × ((k : String)
          → get_task s' k ≡ (
              if str_eq given.task_id k
              then some (record t { status = assigned node_id now })
              else get_task s k))
unfolding get_task
assign_pending_task_exclusive s node_id models now given r e =
    elim (queue_cases node_id models now s.tasks s.pending_queue) [
      | inl h ↦ absurd (ground (arith, assign_pending_task-none s node_id models now h))
      | inr (before, i, after, t, q, h, f) ↦
          let a = assign_pending_task-some s node_id models now before after i t q h f in
          let (found, waits, fits) = judge-take models s.tasks i t f in
          let id = (Reach-Queued s r).keyed i t found in
          (
            t,
            ground (arith, a),
            ground (arith, a),
            waits,
            fits,
            λ k. ground (arith, a, get-modify i k (assign_to node_id now) s.tasks, eq_iff i k),
          )
    ]

-- After any calls, `reassign_stale_tasks` puts back every task that is assigned for longer than the
-- timeout: it is pending and queued again. All other tasks stay as they are.
pub reassign_stale_tasks_lem :
    (s : TaskStore) (timeout now : ℕ) (k : String) (t : TaskInfo)
    → Reach s
    → get_task s k ≡ some t
    → let s' = reassign_stale_tasks s timeout now in
      (get_task s' k
        ≡ some (if is_overdue timeout now t.status then record t { status = pending } else t))
      × (is_overdue timeout now t.status && not (contains s'.pending_queue k) ≡ false)
unfolding get_task reassign_stale_tasks
reassign_stale_tasks_lem s timeout now k t r e =
    let v = Reach-Queued s r in
    (
      ground (arith, get-map_values k (reset_overdue timeout now) s.tasks),
      ground (
        arith,
        v.keyed k t e,
        contains-overdue_ids timeout now s.tasks k t e,
        contains-append s.pending_queue (overdue_ids timeout now s.tasks) k,
      ),
    )

-- After any calls, `cleanup_old_tasks` drops just the completed and failed tasks that were created
-- an hour ago or earlier.
pub cleanup_old_tasks_lem :
    (s : TaskStore) (now : ℕ) (k : String)
    → Reach s
    → get_task (cleanup_old_tasks s now) k ≡ elim (get_task s k) [
      | none ↦ none
      | some t ↦ elim t.status [
        | pending ↦ some t
        | assigned _ _ ↦ some t
        | _ ↦ if leb completed_task_ttl (now - t.created_at) then none else some t
      ]
    ]
unfolding get_task cleanup_old_tasks
cleanup_old_tasks_lem s now k r =
    ground (arith, get-retain (keeps_task now) k s.tasks (Reach-Queued s r).is_map)

-- What setting a status does, read at any id.
set_status_lem :
    (st : TaskStatus) (s : TaskStore) (task_id k : String)
    → let (s', done) = set_status st s task_id in
      (done ≡ is_some (get_task s task_id))
      × (get_task s' k ≡ (
          if str_eq task_id k
          then Option.map {A = TaskInfo} (λ t. record t { status = st }) (get_task s k)
          else get_task s k))
      × (s'.pending_queue ≡ s.pending_queue)
unfolding set_status get_task
set_status_lem st s i k =
    let m = get-modify i k (λ t. record t { status = st }) s.tasks in
    (ground arith, ground (arith, m, eq_iff i k), ground arith)

-- Completing a task succeeds exactly if its id is known, whatever its status. It sets the status of
-- that task, and touches no other task and not the queue.
pub complete_task_lem :
    (s : TaskStore) (task_id response_text : String) (duration_ms : ℕ) (k : String)
    → let (s', done) = complete_task s task_id response_text duration_ms in
      (done ≡ is_some (get_task s task_id))
      × (get_task s' k ≡ (
          if str_eq task_id k
          then Option.map {A = TaskInfo}
              (λ t. record t { status = completed response_text duration_ms })
              (get_task s k)
          else get_task s k))
      × (s'.pending_queue ≡ s.pending_queue)
unfolding complete_task
complete_task_lem s i response_text duration_ms k =
    set_status_lem (completed response_text duration_ms) s i k

-- Failing a task does the same with a failed status.
pub fail_task_lem :
    (s : TaskStore) (task_id error : String) (k : String)
    → let (s', done) = fail_task s task_id error in
      (done ≡ is_some (get_task s task_id))
      × (get_task s' k ≡ (
          if str_eq task_id k
          then Option.map {A = TaskInfo} (λ t. record t { status = failed error }) (get_task s k)
          else get_task s k))
      × (s'.pending_queue ≡ s.pending_queue)
unfolding fail_task
fail_task_lem s i error k = set_status_lem (failed error) s i k
