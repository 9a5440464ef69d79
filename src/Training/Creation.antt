-- ===== src/Training/Creation.antt =====
-- training_store.rs, `create_job`: what a new job holds.
use mathlib.Core.List.{flatten}
use hyverk_distributed_llm.Common.{
  ℕ, ◌+◌, ◌<◌, String, true, false, ◌≡◌, refl, ap, none, some, List, [], ◌∷◌, map, arith, length,
  all, ◌==◌, eq_iff, eq_refl,
}
use hyverk_distributed_llm.Common.HashMap
use hyverk_distributed_llm.Common.HashMap.{HashMap, get-insert}
use hyverk_distributed_llm.Common.Ranges.{Tiles}
use hyverk_distributed_llm.Common.Text.{Text, join_lines}
use hyverk_distributed_llm.Training.Sharding.{example_lines, make_shards, add_shard_data}
use hyverk_distributed_llm.Training.Sharding.Cuts.{
  IsCut, flatten-chunks, chunks-IsCut, shard_range, make_shards-Tiles,
}
use hyverk_distributed_llm.Training.{
  TrainingStore, TrainingJob, DataShard, pending, is_available, JobRequest, job_chunks, create_job,
  get_job,
}

-- Each shard's content is the text of its chunk.
abbrev pub Holds : HashMap Text → List DataShard → List (List Text) → Type 0
Holds m [] [] = Unit
Holds m [] (c ∷ cs) = ⊥
Holds m (s ∷ ss) [] = ⊥
Holds m (s ∷ ss) (c ∷ cs) = (HashMap.get s.shard_id m ≡ some (join_lines c)) × Holds m ss cs

module _ (uuid : ℕ → String) (fresh : (i j : ℕ) → uuid i ≡ uuid j → i ≡ j) where
  get-add_shard_data_below :
      (k idx : ℕ) (cs : List (List Text)) (m : HashMap Text)
      → k < idx
      → HashMap.get (uuid k) (add_shard_data uuid idx cs m) ≡ HashMap.get (uuid k) m
  unfolding add_shard_data
  get-add_shard_data_below k idx [] m h = refl
  get-add_shard_data_below k idx (c ∷ cs) m h = ground (
    arith,
    get-add_shard_data_below k (idx + 1) cs (HashMap.insert (uuid idx) (join_lines c) m),
    get-insert (uuid idx) (uuid k) (join_lines c) m,
    eq_iff (uuid idx) (uuid k),
    fresh idx k,
  )

  Holds-add_shard_data :
      (job_id : String) (size idx : ℕ) (cs : List (List Text)) (m : HashMap Text)
      → Holds (add_shard_data uuid idx cs m) (make_shards job_id uuid size idx cs) cs
  unfolding add_shard_data make_shards
  Holds-add_shard_data job_id size idx [] m = tt
  Holds-add_shard_data job_id size idx (c ∷ cs) m =
      let m' = HashMap.insert (uuid idx) (join_lines c) m in
      (
        ground (
          arith,
          get-add_shard_data_below idx (idx + 1) cs m' (omega arith),
          get-insert (uuid idx) (uuid idx) (join_lines c) m,
          eq_refl (uuid idx),
        ),
        Holds-add_shard_data job_id size (idx + 1) cs m',
      )

available-make_shards :
    (job_id : String) (uuid : ℕ → String) (size idx : ℕ) (cs : List (List Text))
    → all (λ s. is_available s.status) (make_shards job_id uuid size idx cs) ≡ true
unfolding make_shards all
available-make_shards job_id uuid size idx [] = refl
available-make_shards job_id uuid size idx (c ∷ cs) =
    available-make_shards job_id uuid size (idx + 1) cs

-- What `s` holds of the job `job_id` that was made from `r`.
pub record IsSplit (s : TrainingStore) (job_id : String) (r : JobRequest) : Type 0 where
  pub job : TrainingJob
  pub shards : List DataShard
  pub has_job : get_job s job_id ≡ some job
  pub is_pending : job.status ≡ pending
  pub has_shards : HashMap.get job_id s.shards ≡ some shards
  pub counted : job.shard_count ≡ length shards
  pub all_available : all (λ x. is_available x.status) shards ≡ true
  pub tiles : Tiles 0 (map shard_range shards) (length (example_lines r.dataset_jsonl))
  pub cut : IsCut r.shard_size (job_chunks r)
  pub whole : flatten (job_chunks r) ≡ example_lines r.dataset_jsonl
  pub contents : Holds s.shard_data shards (job_chunks r)

-- The job that is made, and the store behind it.
made_job : JobRequest → String → (ℕ → String) → ℕ → TrainingJob
made_job r job_id uuid now = record {
  job_id = job_id;
  status = pending;
  base_model = r.base_model;
  lora_rank = r.lora_rank;
  lora_alpha = r.lora_alpha;
  num_epochs = r.num_epochs;
  shard_count = length (make_shards job_id uuid r.shard_size 0 (job_chunks r));
  created_at_secs = now;
  completed_at_secs = none;
  output_adapter_path = none;
}

after_job : TrainingStore → JobRequest → String → (ℕ → String) → ℕ → TrainingStore
after_job s r job_id uuid now = record s {
  jobs = HashMap.insert job_id (made_job r job_id uuid now) s.jobs;
  shards = HashMap.insert job_id (make_shards job_id uuid r.shard_size 0 (job_chunks r)) s.shards;
  shard_data = add_shard_data uuid 0 (job_chunks r) s.shard_data;
}

create_job-some :
    (s : TrainingStore) (r : JobRequest) (job_id : String) (uuid : ℕ → String) (now : ℕ)
    → 0 < r.shard_size
    → create_job s r job_id uuid now ≡ some (after_job s r job_id uuid now, job_id)
unfolding create_job after_job made_job
create_job-some s r job_id uuid now p = let e : (r.shard_size == 0) ≡ false = ground arith in rw e

after_job-IsSplit :
    (s : TrainingStore) (r : JobRequest) (job_id : String) (uuid : ℕ → String) (now : ℕ)
    → 0 < r.shard_size
    → ((i j : ℕ) → uuid i ≡ uuid j → i ≡ j)
    → IsSplit (after_job s r job_id uuid now) job_id r
unfolding after_job made_job get_job
after_job-IsSplit s r job_id uuid now p fresh =
    let parts = job_chunks r in
    let ls = example_lines r.dataset_jsonl in
    let shards = make_shards job_id uuid r.shard_size 0 parts in
    let cut = chunks-IsCut (length ls) r.shard_size ls p (omega arith) in
    let whole = flatten-chunks (length ls) r.shard_size ls p (omega arith) in
    record {
      job = made_job r job_id uuid now;
      shards = shards;
      has_job =
          ground
            (arith, get-insert job_id job_id (made_job r job_id uuid now) s.jobs, eq_refl job_id);
      is_pending = refl;
      has_shards = ground (arith, get-insert job_id job_id shards s.shards, eq_refl job_id);
      counted = refl;
      all_available = available-make_shards job_id uuid r.shard_size 0 parts;
      tiles =
          make_shards-Tiles job_id uuid r.shard_size 0 0 (length ls) parts cut (omega arith)
            (omega (arith, ap length whole));
      cut = cut;
      whole = whole;
      contents = Holds-add_shard_data uuid fresh job_id r.shard_size 0 parts s.shard_data;
    }

-- With a shard size above zero and distinct fresh ids, `create_job` succeeds. The new job is
-- pending, its shards are available, and their line ranges follow one another from 0 to the number
-- of the dataset's lines that are not blank. The chunks put together are those lines, all chunks but
-- the last have the shard size, and each shard's content is its chunk's text.
pub create_job-IsSplit :
    (s : TrainingStore) (r : JobRequest) (job_id : String) (uuid : ℕ → String) (now : ℕ)
    → 0 < r.shard_size
    → ((i j : ℕ) → uuid i ≡ uuid j → i ≡ j)
    → (s' : TrainingStore) × (create_job s r job_id uuid now ≡ some (s', job_id))
      × IsSplit s' job_id r
create_job-IsSplit s r job_id uuid now p fresh = (
  after_job s r job_id uuid now,
  create_job-some s r job_id uuid now p,
  after_job-IsSplit s r job_id uuid now p fresh,
)
