-- ===== src/Training/Types.antt =====
-- training_store.rs: the types of the training store.
use hyverk_distributed_llm.Common.{ℕ, String, Option, List}
use hyverk_distributed_llm.Common.HashMap.{HashMap}
use hyverk_distributed_llm.Common.Text.{Text}

pub data JobStatus : Type 0 where
  pending in_progress aggregating completed_job failed_job : JobStatus

pub data ShardStatus : Type 0 where
  available : ShardStatus
  assigned : String → ShardStatus
  completed : String → ShardStatus
  failed : String → String → ShardStatus

pub record DataShard : Type 0 where
  pub shard_id : String
  pub job_id : String
  pub start_line : ℕ
  pub end_line : ℕ
  pub status : ShardStatus
  pub assigned_at_secs : Option ℕ

pub record AdapterSubmission : Type 0 where
  pub node_id : String
  pub shard_id : String
  pub adapter_b64 : String
  pub training_loss : ℕ
  pub training_steps : ℕ
  pub submitted_at_secs : ℕ

pub record TrainingJob : Type 0 where
  pub job_id : String
  pub status : JobStatus
  pub base_model : String
  pub lora_rank : ℕ
  pub lora_alpha : ℕ
  pub num_epochs : ℕ
  pub shard_count : ℕ
  pub created_at_secs : ℕ
  pub completed_at_secs : Option ℕ
  pub output_adapter_path : Option String

-- `Inner`
pub record TrainingStore : Type 0 where
  pub jobs : HashMap TrainingJob
  pub shards : HashMap (List DataShard)
  pub shard_data : HashMap Text
  pub submissions : HashMap (List AdapterSubmission)
