-- ===== src/Training/Examples.antt =====
-- training_store.rs: the theorems at concrete inputs, and runs of the code.
use hyverk_distributed_llm.Common.{
  ℕ, zero, suc, String, ◌≡◌, refl, ap, sym, ◌∙◌, none, some, List, [], ◌∷◌, arith, all, filter,
}
use hyverk_distributed_llm.Common.HashMap
use hyverk_distributed_llm.Common.Text.{Text, lines, is_blank}
use hyverk_distributed_llm.Training.Sharding.{chunks, example_lines, make_shards, add_shard_data}
use hyverk_distributed_llm.Training.Creation.{IsSplit, create_job-IsSplit}
use hyverk_distributed_llm.Training.Aggregation.{
  Settled, Reach, here, next, submits, creates, Reach-Settled,
}
use hyverk_distributed_llm.Training.{
  TrainingStore, TrainingJob, DataShard, pending, available, JobRequest, create_job, new,
  submit_adapter,
}

-- Distinct ids: one letter for each number counted.
numbered : ℕ → String
numbered zero = ""
numbered (suc n) = String.◌∷◌ "a" (numbered n)

letters : String → ℕ
letters String.[] = 0
letters (String.◌∷◌ c s) = suc (letters s)

letters-numbered : (n : ℕ) → letters (numbered n) ≡ n
unfolding letters numbered
letters-numbered zero = refl
letters-numbered (suc n) = ap suc (letters-numbered n)

numbered-injective : (i j : ℕ) → numbered i ≡ numbered j → i ≡ j
numbered-injective i j e = sym (letters-numbered i) ∙ (ap letters e ∙ letters-numbered j)

-- "x\n\n y\r\nz"
abbrev dataset : Text
dataset = 120 ∷ 10 ∷ 10 ∷ 32 ∷ 121 ∷ 13 ∷ 10 ∷ 122 ∷ []

abbrev request : JobRequest
request = record {
  base_model = "qwen";
  dataset_jsonl = dataset;
  shard_size = 2;
  lora_rank = 16;
  lora_alpha = 0;
  num_epochs = 1;
}

dataset_lines : example_lines dataset ≡ (120 ∷ []) ∷ (32 ∷ 121 ∷ []) ∷ (122 ∷ []) ∷ []
unfolding example_lines filter lines is_blank all
dataset_lines = refl

create_job-IsSplit_example :
    (s' : TrainingStore) × (create_job new request "j" numbered 50 ≡ some (s', "j"))
    × IsSplit s' "j" request
create_job-IsSplit_example =
    create_job-IsSplit new request "j" numbered 50 (omega arith) numbered-injective

abbrev shard : String → DataShard
shard i = record {
  shard_id = i;
  job_id = "j";
  start_line = 0;
  end_line = 1;
  status = available;
  assigned_at_secs = none;
}

abbrev job : TrainingJob
job = record {
  job_id = "j";
  status = pending;
  base_model = "qwen";
  lora_rank = 16;
  lora_alpha = 0;
  num_epochs = 1;
  shard_count = 2;
  created_at_secs = 50;
  completed_at_secs = none;
  output_adapter_path = none;
}

abbrev shards : List DataShard
shards = shard "s" ∷ shard "t" ∷ []

abbrev store : TrainingStore
store = record {
  jobs = ("j", job) ∷ [];
  shards = ("j", shards) ∷ [];
  shard_data = ("s", 120 ∷ []) ∷ ("t", 121 ∷ []) ∷ [];
  submissions = [];
}

-- A job without examples has no shards, and its first submission makes it aggregating.
abbrev empty_request : JobRequest
empty_request = record request { dataset_jsonl = [] }

abbrev empty_job : TrainingJob
empty_job = record job { shard_count = 0 }

abbrev created : TrainingStore
created = record {
  jobs = ("j", empty_job) ∷ [];
  shards = ("j", []) ∷ [];
  shard_data = [];
  submissions = [];
}

created-Reach : Reach created
unfolding create_job new example_lines filter lines chunks make_shards add_shard_data HashMap.insert
created-Reach = next here (creates created empty_request "j" "j" numbered 50 refl)

abbrev submitted : TrainingStore
submitted = (submit_adapter created "j" "s" "n" "b64" 0 10 70).0

Reach-Settled_example : Settled submitted
Reach-Settled_example =
    Reach-Settled submitted (next created-Reach (submits "j" "s" "n" "b64" 0 10 70))
