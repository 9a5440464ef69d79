-- ===== src/Training/Aggregation.antt =====
-- training_store.rs: a job is aggregating only once all its shards are done.
use hyverk_distributed_llm.Common.{
  ℕ, String, Bool, true, false, ◌&&◌, ◌≡◌, refl, none, some, inl, inr, List, [], ◌∷◌, ◌++◌, map,
  arith, length, all, find, update_first, if◌then◌else◌, str_eq, eq_iff, eq_refl, Option-cases,
}
use mathlib.Core.Option
use hyverk_distributed_llm.Common.HashMap
use hyverk_distributed_llm.Common.HashMap.{HashMap, get-insert, get-modify, get-map_values}
use hyverk_distributed_llm.Training.Sharding.{make_shards}
use hyverk_distributed_llm.Training.{
  TrainingStore, TrainingJob, DataShard, JobStatus, pending, in_progress, aggregating,
  completed_job, failed_job, AdapterSubmission, JobRequest, job_chunks, new, create_job,
  is_available, is_done, start_job, assign_shard, claim_shard, claim_next_shard, complete_shard,
  push_submission, all_done, aggregate_job, submit_adapter, get_job, get_submissions, release_stale,
  reassign_stale_shards,
}

abbrev pub is_aggregating : JobStatus → Bool
is_aggregating pending = false
is_aggregating in_progress = false
is_aggregating aggregating = true
is_aggregating completed_job = false
is_aggregating failed_job = false

pub record Settled (s : TrainingStore) : Type 0 where
  pub done :
      (k : String) (j : TrainingJob)
      → get_job s k ≡ some j
      → is_aggregating j.status ≡ true
      → all_done (HashMap.get k s.shards) ≡ true

find_not_done :
    (xs : List DataShard) (x : DataShard)
    → find (λ y. is_available y.status) xs ≡ some x
    → all (λ y. is_done y.status) xs ≡ false
unfolding find all
find_not_done [] x e = cc
find_not_done (y ∷ ys) x e = ground (arith, find_not_done ys x)

all_done-complete_shard :
    (shard_id node_id : String) (xs : List DataShard)
    → all (λ y. is_done y.status) xs ≡ true
    → all (λ y. is_done y.status) (complete_shard shard_id node_id xs) ≡ true
unfolding complete_shard update_first all
all_done-complete_shard i n [] h = refl
all_done-complete_shard i n (x ∷ xs) h = ground (arith, all_done-complete_shard i n xs)

all_done-release_stale :
    (timeout now : ℕ) (xs : List DataShard)
    → all (λ y. is_done y.status) xs ≡ true
    → all (λ y. is_done y.status) (map (release_stale timeout now) xs) ≡ true
unfolding all
all_done-release_stale timeout now [] h = refl
all_done-release_stale timeout now (x ∷ xs) h =
    ground (arith, all_done-release_stale timeout now xs)

start_job_aggregating :
    (j : TrainingJob) → is_aggregating (start_job j).status ≡ is_aggregating j.status
start_job_aggregating j = ground arith

create_job-Settled :
    (s s' : TrainingStore) (r : JobRequest) (job_id i : String) (uuid : ℕ → String) (now : ℕ)
    → create_job s r job_id uuid now ≡ some (s', i)
    → Settled s
    → Settled s'
unfolding create_job get_job
create_job-Settled s s' r job_id i uuid now e v =
    let shards = make_shards job_id uuid r.shard_size 0 (job_chunks r) in
    let job : TrainingJob = record {
      job_id = job_id;
      status = pending;
      base_model = r.base_model;
      lora_rank = r.lora_rank;
      lora_alpha = r.lora_alpha;
      num_epochs = r.num_epochs;
      shard_count = length shards;
      created_at_secs = now;
      completed_at_secs = none;
      output_adapter_path = none;
    } in
    record {
      done = λ k j f h.
          ground (
            arith,
            get-insert job_id k job s.jobs,
            get-insert job_id k shards s.shards,
            v.done k j,
          );
    }

claim_shard-Settled :
    (s : TrainingStore) (job_id node_id : String) (now : ℕ) (xs : List DataShard) (x : DataShard)
    → HashMap.get job_id s.shards ≡ some xs
    → find (λ y. is_available y.status) xs ≡ some x
    → Settled s
    → Settled (claim_shard s job_id node_id now xs x).0
unfolding claim_shard get_job all_done
claim_shard-Settled s job_id node_id now xs x e f v =
    let ys = update_first (λ x. is_available x.status) (assign_shard node_id now) xs in
    record {
      done = λ k j g h. elim (Option-cases (HashMap.get k s.jobs)) [
        | inl n ↦ absurd (ground (arith, get-modify job_id k start_job s.jobs))
        | inr (j₀, n) ↦ ground (
          arith,
          get-modify job_id k start_job s.jobs,
          get-insert job_id k ys s.shards,
          v.done k j₀,
          eq_iff job_id k,
          find_not_done xs x f,
          start_job_aggregating j₀,
        )
      ];
    }

submit_adapter-Settled :
    (s : TrainingStore) (job_id shard_id node_id adapter_b64 : String) (loss steps now : ℕ)
    → Settled s
    → Settled (submit_adapter s job_id shard_id node_id adapter_b64 loss steps now).0
unfolding submit_adapter get_job all_done
submit_adapter-Settled s job_id shard_id node_id adapter_b64 loss steps now v =
    let f = complete_shard shard_id node_id in
    record {
      done = λ k j g h. elim (Option-cases (HashMap.get k s.jobs)) [
        | inl n ↦ absurd (ground (arith, get-modify job_id k aggregate_job s.jobs))
        | inr (j₀, n) ↦ elim (Option-cases (HashMap.get k s.shards)) [
          | inl m ↦ ground (
            arith,
            get-modify job_id k f s.shards,
            get-modify job_id k aggregate_job s.jobs,
            v.done k j₀,
            eq_iff job_id k,
          )
          | inr (xs, m) ↦ ground (
            arith,
            get-modify job_id k f s.shards,
            get-modify job_id k aggregate_job s.jobs,
            v.done k j₀,
            eq_iff job_id k,
            all_done-complete_shard shard_id node_id xs,
          )
        ]
      ];
    }

reassign_stale_shards-Settled :
    (s : TrainingStore) (timeout now : ℕ)
    → Settled s
    → Settled (reassign_stale_shards s timeout now)
unfolding reassign_stale_shards get_job all_done
reassign_stale_shards-Settled s timeout now v = record {
  done = λ k j g h. elim (Option-cases (HashMap.get k s.shards)) [
    | inl n ↦ ground (arith, v.done k j g h)
    | inr (xs, n) ↦ ground (
      arith,
      v.done k j g h,
      get-map_values k (map (release_stale timeout now)) s.shards,
      all_done-release_stale timeout now xs,
    )
  ];
}

claim_next_shard-Settled :
    (s : TrainingStore) (job_id node_id : String) (now : ℕ)
    → Settled s
    → Settled (claim_next_shard s job_id node_id now).0
unfolding claim_next_shard
claim_next_shard-Settled s job_id node_id now v =
    elim (Option-cases (HashMap.get job_id s.shards)) [
      | inl n ↦ rw (n, claim_next_shard) v
      | inr (xs, n) ↦ elim (Option-cases (find (λ x. is_available x.status) xs)) [
        | inl m ↦ rw (n, claim_next_shard, m) v
        | inr (x, m) ↦
            rw (n, claim_next_shard, m) (claim_shard-Settled s job_id node_id now xs x n m v)
      ]
    ]

pub data Step (s : TrainingStore) : TrainingStore → Type 0 where
  creates :
      (s' : TrainingStore) (r : JobRequest) (job_id i : String) (uuid : ℕ → String) (now : ℕ)
      → create_job s r job_id uuid now ≡ some (s', i)
      → Step s s'
  claims : (job_id node_id : String) (now : ℕ) → Step s (claim_next_shard s job_id node_id now).0
  submits :
      (job_id shard_id node_id adapter_b64 : String) (loss steps now : ℕ)
      → Step s (submit_adapter s job_id shard_id node_id adapter_b64 loss steps now).0
  reassigns : (timeout now : ℕ) → Step s (reassign_stale_shards s timeout now)

pub data Reach : TrainingStore → Type 0 where
  here : Reach new
  next : {s t : TrainingStore} → Reach s → Step s t → Reach t

Step-Settled : {s t : TrainingStore} → Settled s → Step s t → Settled t
Step-Settled {s} v (creates s' r job_id i uuid now e) =
    create_job-Settled s s' r job_id i uuid now e v
Step-Settled {s} v (claims job_id node_id now) = claim_next_shard-Settled s job_id node_id now v
Step-Settled {s} v (submits job_id shard_id node_id adapter_b64 loss steps now) =
    submit_adapter-Settled s job_id shard_id node_id adapter_b64 loss steps now v
Step-Settled {s} v (reassigns timeout now) = reassign_stale_shards-Settled s timeout now v

-- After any calls, all shards of a job that is aggregating are completed or failed.
pub Reach-Settled : (s : TrainingStore) → Reach s → Settled s
unfolding new get_job HashMap.get
Reach-Settled s here = record { done = λ k j e h. cc }
Reach-Settled s (next r st) = Step-Settled (Reach-Settled _ r) st

-- The submissions of a job, and none where the map has no entry.
abbrev submissions_of : HashMap (List AdapterSubmission) → String → List AdapterSubmission
submissions_of m k = elim (HashMap.get k m) [ none ↦ [] | some xs ↦ xs ]

submissions_of-push_submission :
    (job_id k : String) (x : AdapterSubmission) (m : HashMap (List AdapterSubmission))
    → submissions_of (push_submission job_id x m) k
      ≡ (if str_eq job_id k then submissions_of m k ++ x ∷ [] else submissions_of m k)
unfolding push_submission
submissions_of-push_submission job_id k x m = elim (Option-cases (HashMap.get job_id m)) [
  | inl n ↦ ground (arith, get-insert job_id k (x ∷ []) m, eq_iff job_id k)
  | inr (xs, n) ↦ ground (arith, get-insert job_id k (xs ++ x ∷ []) m, eq_iff job_id k)
]

-- A submission for a job with shards completes the shard of that id, and it makes the job
-- aggregating exactly if all its shards are done then; it is recorded behind those before it. No
-- other job's shards or status change.
pub submit_adapter_lem :
    (s : TrainingStore) (job_id shard_id node_id adapter_b64 : String) (loss steps now : ℕ)
    (xs : List DataShard) (k : String)
    → HashMap.get job_id s.shards ≡ some xs
    → let s' = (submit_adapter s job_id shard_id node_id adapter_b64 loss steps now).0 in
      let ys = complete_shard shard_id node_id xs in
      (HashMap.get k s'.shards ≡ (if str_eq job_id k then some ys else HashMap.get k s.shards))
      × (get_job s' k ≡ (
          if str_eq job_id k && all (λ y. is_done y.status) ys
          then Option.map {A = TrainingJob} aggregate_job (get_job s k)
          else get_job s k))
      × (get_submissions s' k ≡ (
          if str_eq job_id k
          then get_submissions s k
            ++ record {
              node_id = node_id;
              shard_id = shard_id;
              adapter_b64 = adapter_b64;
              training_loss = loss;
              training_steps = steps;
              submitted_at_secs = now;
            }
              ∷ []
          else get_submissions s k))
unfolding submit_adapter get_job get_submissions all_done
submit_adapter_lem s job_id shard_id node_id adapter_b64 loss steps now xs k e =
    let f = complete_shard shard_id node_id in
    let at = get-modify job_id k f s.shards in
    let own = get-modify job_id job_id f s.shards in
    (
      ground (arith, at, eq_iff job_id k),
      ground (arith, own, eq_refl job_id, get-modify job_id k aggregate_job s.jobs),
      submissions_of-push_submission job_id k _ s.submissions,
    )
