-- ===== src/Tasks.antt =====
-- server/coordinator/src/task_store.rs: the inference tasks and the queue of pending ones. Instants
-- are nanoseconds on one clock, `now` is the clock's value at the call, and a task's id is the UUID
-- that the caller's random source gives. An `f64` is carried as its bit pattern. `create_task` is one
-- step, although the source takes the lock of the queue after it has let that of the tasks go.
pub mod Assignment
pub mod Invariant
pub mod Runs
mod Examples
use hyverk_distributed_llm.Common.{
  ℕ, zero, suc, ◌+◌, ◌-◌, ◌*◌, ◌^◌, min, String, Bool, true, false, Option, none, some, List, [],
  ◌∷◌, ◌++◌, map, if◌then◌else◌, ltb, leb, is_some, str_eq, length, contains, filter,
}
use hyverk_distributed_llm.Common.HashMap
use hyverk_distributed_llm.Common.HashMap.{HashMap}

abbrev pub nanos_per_sec : ℕ
nanos_per_sec = 1000000000

-- COMPLETED_TASK_TTL
abbrev pub completed_task_ttl : ℕ
completed_task_ttl = 3600 * nanos_per_sec

abbrev pub max_tokens_limit : ℕ
max_tokens_limit = 8192

pub data TaskStatus : Type 0 where
  pending : TaskStatus
  assigned : String → ℕ → TaskStatus
  completed : String → ℕ → TaskStatus
  failed : String → TaskStatus

abbrev pub is_pending : TaskStatus → Bool
is_pending pending = true
is_pending (assigned node_id assigned_at) = false
is_pending (completed response_text duration_ms) = false
is_pending (failed error) = false

pub record TaskInfo : Type 0 where
  pub task_id : String
  pub model : String
  pub prompt : String
  pub temperature : ℕ
  pub max_tokens : ℕ
  pub status : TaskStatus
  pub created_at : ℕ

-- `hyverk_proto::InferenceTask`
pub record InferenceTask : Type 0 where
  pub task_id : String
  pub model : String
  pub prompt : String
  pub temperature : ℕ
  pub max_tokens : ℕ

pub record TaskStore : Type 0 where
  pub tasks : HashMap TaskInfo
  pub pending_queue : List String

unfoldable pub new : TaskStore
new = record { tasks = []; pending_queue = [] }

-- `instant.elapsed()` at the time `now`
abbrev pub elapsed : ℕ → ℕ → ℕ
elapsed now instant = now - instant

-- What the store keeps of a new task.
abbrev pub new_task : String → String → String → ℕ → ℕ → ℕ → TaskInfo
new_task task_id model prompt temperature max_tokens now = record {
  task_id = task_id;
  model = model;
  prompt = prompt;
  temperature = temperature;
  max_tokens = min max_tokens max_tokens_limit;
  status = pending;
  created_at = now;
}

unfoldable pub create_task : TaskStore → String → String → String → ℕ → ℕ → ℕ → TaskStore × String
create_task s task_id model prompt temperature max_tokens now = (
  record {
    tasks =
        HashMap.insert task_id (new_task task_id model prompt temperature max_tokens now) s.tasks;
    pending_queue = s.pending_queue ++ task_id ∷ [];
  },
  task_id,
)

-- What one round of `assign_pending_task` finds behind the id that it took from the queue.
pub data Verdict : Type 0 where
  stale elsewhere : Verdict
  take : TaskInfo → Verdict

pub judge_task : List String → TaskInfo → Verdict
judge_task models t =
    if is_pending t.status then (if contains models t.model then take t else elsewhere) else stale

pub judge : List String → HashMap TaskInfo → String → Verdict
judge models tasks task_id = elim (HashMap.get task_id tasks) [
  | none ↦ stale
  | some t ↦ judge_task models t
]

abbrev pub to_inference : TaskInfo → InferenceTask
to_inference t = record {
  task_id = t.task_id;
  model = t.model;
  prompt = t.prompt;
  temperature = t.temperature;
  max_tokens = t.max_tokens;
}

abbrev pub assign_to : String → ℕ → TaskInfo → TaskInfo
assign_to node_id now t = record t { status = assigned node_id now }

-- `for _ in 0..len`, on the rounds left.
pub assign_loop : ℕ → String → List String → ℕ → TaskStore → TaskStore × Option InferenceTask
assign_loop zero node_id models now s = (s, none)
assign_loop (suc n) node_id models now s = elim s.pending_queue [
  | [] ↦ (s, none)
  | task_id ∷ rest ↦ elim (judge models s.tasks task_id) [
    | stale ↦ assign_loop n node_id models now (record s { pending_queue = rest })
    | elsewhere ↦
        assign_loop n node_id models now (record s { pending_queue = rest ++ task_id ∷ [] })
    | take t ↦ (
      record {
        tasks = HashMap.modify task_id (assign_to node_id now) s.tasks;
        pending_queue = rest;
      },
      some (to_inference t),
    )
  ]
]

unfoldable pub assign_pending_task :
    TaskStore → String → List String → ℕ → TaskStore × Option InferenceTask
assign_pending_task s node_id models now = assign_loop (length s.pending_queue) node_id models now s

-- `if let Some(task) = tasks.get_mut(id) { task.status = …; true } else { false }`
pub set_status : TaskStatus → TaskStore → String → TaskStore × Bool
set_status st s task_id =
    if is_some (HashMap.get task_id s.tasks)
    then (record s { tasks = HashMap.modify task_id (λ t. record t { status = st }) s.tasks }, true)
    else (s, false)

pub complete_task : TaskStore → String → String → ℕ → TaskStore × Bool
unfolding set_status
complete_task s task_id response_text duration_ms =
    set_status (completed response_text duration_ms) s task_id

pub fail_task : TaskStore → String → String → TaskStore × Bool
unfolding set_status
fail_task s task_id error = set_status (failed error) s task_id

unfoldable pub get_task : TaskStore → String → Option TaskInfo
get_task s task_id = HashMap.get task_id s.tasks

-- A task that is assigned for longer than the timeout.
abbrev pub is_overdue : ℕ → ℕ → TaskStatus → Bool
is_overdue timeout now pending = false
is_overdue timeout now (assigned node_id assigned_at) = ltb timeout (elapsed now assigned_at)
is_overdue timeout now (completed response_text duration_ms) = false
is_overdue timeout now (failed error) = false

abbrev pub reset_overdue : ℕ → ℕ → TaskInfo → TaskInfo
reset_overdue timeout now t =
    if is_overdue timeout now t.status then record t { status = pending } else t

-- The ids that `reassign_stale_tasks` pushes, in the order of its walk over the map.
pub overdue_ids : ℕ → ℕ → HashMap TaskInfo → List String
overdue_ids timeout now [] = []
overdue_ids timeout now ((k, t) ∷ m) =
    let rest = overdue_ids timeout now m in
    if is_overdue timeout now t.status then t.task_id ∷ rest else rest

pub reassign_stale_tasks : TaskStore → ℕ → ℕ → TaskStore
reassign_stale_tasks s timeout now = record {
  tasks = HashMap.map_values (reset_overdue timeout now) s.tasks;
  pending_queue = s.pending_queue ++ overdue_ids timeout now s.tasks;
}

abbrev pub keeps_task : ℕ → TaskInfo → Bool
keeps_task now t = elim t.status [
  | completed response_text duration_ms ↦ ltb (elapsed now t.created_at) completed_task_ttl
  | failed error ↦ ltb (elapsed now t.created_at) completed_task_ttl
  | _ ↦ true
]

pub cleanup_old_tasks : TaskStore → ℕ → TaskStore
cleanup_old_tasks s now = record s { tasks = HashMap.retain (keeps_task now) s.tasks }
