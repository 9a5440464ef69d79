-- ===== src/Training.antt =====
-- server/coordinator/src/training_store.rs: the jobs of distributed fine-tuning and their shards.
-- Times are seconds since the epoch, `now` is the clock at the call, and the ids are the UUIDs that
-- the caller's random source gives. Floats are carried as their bit patterns.
mod Types
pub mod Sharding
pub mod Creation
pub mod Claims
pub mod Aggregation
mod Examples
pub use Types.*
use Sharding.{chunks, example_lines, make_shards, add_shard_data}
use hyverk_distributed_llm.Common.{
  ℕ, zero, suc, ◌+◌, ◌-◌, ◌*◌, String, Bool, true, false, not, ◌&&◌, Option, none, some, List, [],
  ◌∷◌, ◌++◌, map, if◌then◌else◌, ltb, ◌==◌, is_some, str_eq, length, take, drop, all, any, filter,
  find, update_first,
}
use mathlib.Core.Option
use hyverk_distributed_llm.Common.HashMap
use hyverk_distributed_llm.Common.HashMap.{HashMap}
use hyverk_distributed_llm.Common.Text.{Text, is_blank, lines, join_lines}

pub new : TrainingStore
new = record { jobs = []; shards = []; shard_data = []; submissions = [] }

-- The arguments of `create_job`.
pub record JobRequest : Type 0 where
  pub base_model : String
  pub dataset_jsonl : Text
  pub shard_size : ℕ
  pub lora_rank : ℕ
  pub lora_alpha : ℕ
  pub num_epochs : ℕ

abbrev pub job_chunks : JobRequest → List (List Text)
job_chunks r = let ls = example_lines r.dataset_jsonl in chunks (length ls) r.shard_size ls

-- `none` is the panic of `chunks(0)`.
pub create_job :
    TrainingStore → JobRequest → String → (ℕ → String) → ℕ → Option (TrainingStore × String)
create_job s r job_id uuid now =
    let parts = job_chunks r in
    let shards = make_shards job_id uuid r.shard_size 0 parts in
    let job : TrainingJob = record {
      job_id = job_id;
      status = pending;
      base_model = r.base_model;
      lora_rank = r.lora_rank;
      lora_alpha = r.lora_alpha;
      num_epochs = r.num_epochs;
      shard_count = length shards;
      created_at_secs = now;
      completed_at_secs = none;
      output_adapter_path = none;
    } in
    if r.shard_size == 0
    then none
    else some (
      record s {
        jobs = HashMap.insert job_id job s.jobs;
        shards = HashMap.insert job_id shards s.shards;
        shard_data = add_shard_data uuid 0 parts s.shard_data;
      },
      job_id,
    )

abbrev pub is_available : ShardStatus → Bool
is_available available = true
is_available (assigned node_id) = false
is_available (completed node_id) = false
is_available (failed node_id error) = false

abbrev pub is_assigned : ShardStatus → Bool
is_assigned available = false
is_assigned (assigned node_id) = true
is_assigned (completed node_id) = false
is_assigned (failed node_id error) = false

-- `matches!(s.status, ShardStatus::Completed { .. } | ShardStatus::Failed { .. })`
abbrev pub is_done : ShardStatus → Bool
is_done available = false
is_done (assigned node_id) = false
is_done (completed node_id) = true
is_done (failed node_id error) = true

abbrev pub start_job : TrainingJob → TrainingJob
start_job job = elim job.status [ pending ↦ record job { status = in_progress } | _ ↦ job ]

abbrev pub assign_shard : String → ℕ → DataShard → DataShard
assign_shard node_id now s = record s { status = assigned node_id; assigned_at_secs = some now }

-- `claim_next_shard` where the job has shards, and `shard` is the first that is available.
claim_shard :
    TrainingStore
    → String
    → String
    → ℕ
    → List DataShard
    → DataShard
    → TrainingStore × Option (String × Text)
claim_shard s job_id node_id now shards shard = (
  record s {
    shards =
        HashMap.insert job_id
          (update_first (λ x. is_available x.status) (assign_shard node_id now) shards) s.shards;
    jobs = HashMap.modify job_id start_job s.jobs;
  },
  Option.map (λ content. (shard.shard_id, content)) (HashMap.get shard.shard_id s.shard_data),
)

pub claim_next_shard : TrainingStore → String → String → ℕ → TrainingStore × Option (String × Text)
claim_next_shard s job_id node_id now = elim (HashMap.get job_id s.shards) [
  | none ↦ (s, none)
  | some shards ↦ elim (find (λ x. is_available x.status) shards) [
    | none ↦ (s, none)
    | some shard ↦ claim_shard s job_id node_id now shards shard
  ]
]

pub complete_shard : String → String → List DataShard → List DataShard
complete_shard shard_id node_id =
    update_first (λ x. str_eq x.shard_id shard_id) (λ x. record x { status = completed node_id })

-- `submissions.entry(job_id).or_default().push(submission)`
push_submission :
    String → AdapterSubmission → HashMap (List AdapterSubmission) → HashMap (List AdapterSubmission)
push_submission job_id x m = elim (HashMap.get job_id m) [
  | none ↦ HashMap.insert job_id (x ∷ []) m
  | some xs ↦ HashMap.insert job_id (xs ++ x ∷ []) m
]

pub all_done : Option (List DataShard) → Bool
all_done none = false
all_done (some shards) = all (λ x. is_done x.status) shards

abbrev pub aggregate_job : TrainingJob → TrainingJob
aggregate_job job = record job { status = aggregating }

pub submit_adapter :
    TrainingStore → String → String → String → String → ℕ → ℕ → ℕ → TrainingStore × Bool
submit_adapter s job_id shard_id node_id adapter_b64 loss steps now =
    let submission : AdapterSubmission = record {
      node_id = node_id;
      shard_id = shard_id;
      adapter_b64 = adapter_b64;
      training_loss = loss;
      training_steps = steps;
      submitted_at_secs = now;
    } in
    let shards' = HashMap.modify job_id (complete_shard shard_id node_id) s.shards in
    (
      record s {
        shards = shards';
        submissions = push_submission job_id submission s.submissions;
        jobs =
            (if all_done (HashMap.get job_id shards')
              then HashMap.modify job_id aggregate_job s.jobs
              else s.jobs);
      },
      true,
    )

pub get_job : TrainingStore → String → Option TrainingJob
get_job s job_id = HashMap.get job_id s.jobs

pub list_jobs : TrainingStore → List TrainingJob
list_jobs s = HashMap.values s.jobs

pub get_submissions : TrainingStore → String → List AdapterSubmission
get_submissions s job_id = elim (HashMap.get job_id s.submissions) [ none ↦ [] | some xs ↦ xs ]

-- A shard that is assigned for longer than the timeout; `saturating_sub` stops at zero.
abbrev pub is_stale : ℕ → ℕ → DataShard → Bool
is_stale timeout now x =
    is_assigned x.status
    && ltb timeout (now - (elim x.assigned_at_secs [ none ↦ 0 | some at ↦ at ]))

abbrev pub release_stale : ℕ → ℕ → DataShard → DataShard
release_stale timeout now x =
    if is_stale timeout now x then record x { status = available; assigned_at_secs = none } else x

pub reassign_stale_shards : TrainingStore → ℕ → ℕ → TrainingStore
reassign_stale_shards s timeout now = record s {
  shards = HashMap.map_values (map (release_stale timeout now)) s.shards;
}

abbrev pub count_if : (DataShard → Bool) → List DataShard → ℕ
count_if p xs = length (filter p xs)

-- The JSON object that `job_stats` returns, less the id and the printed status.
pub record JobStats : Type 0 where
  pub shards_total : ℕ
  pub shards_available : ℕ
  pub shards_assigned : ℕ
  pub shards_completed : ℕ
  pub adapters_submitted : ℕ

abbrev pub is_completed : ShardStatus → Bool
is_completed available = false
is_completed (assigned node_id) = false
is_completed (completed node_id) = true
is_completed (failed node_id error) = false

stats_of : TrainingStore → String → List DataShard → JobStats
stats_of s job_id shards = record {
  shards_total = length shards;
  shards_available = count_if (λ x. is_available x.status) shards;
  shards_assigned = count_if (λ x. is_assigned x.status) shards;
  shards_completed = count_if (λ x. is_completed x.status) shards;
  adapters_submitted = elim (HashMap.get job_id s.submissions) [ none ↦ 0 | some xs ↦ length xs ];
}

pub job_stats : TrainingStore → String → Option JobStats
job_stats s job_id = elim (HashMap.get job_id s.jobs) [
  | none ↦ none
  | some job ↦ Option.map (stats_of s job_id) (HashMap.get job_id s.shards)
]
