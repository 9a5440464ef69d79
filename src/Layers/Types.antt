-- ===== src/Layers/Types.antt =====
-- layer_training.rs: the types of the layer training store.
use hyverk_distributed_llm.Common.{ℕ, String, Bool, true, false, Option, List}
use hyverk_distributed_llm.Common.Text.{Text}

pub data RoundStatus : Type 0 where
  active complete merging : RoundStatus

pub data AssignmentStatus : Type 0 where
  available assigned completed failed : AssignmentStatus

pub record LayerAssignment : Type 0 where
  pub assignment_id : String
  pub layer_start : ℕ
  pub layer_end : ℕ
  pub data_shard_start : ℕ
  pub data_shard_size : ℕ
  pub status : AssignmentStatus
  pub assigned_to : Option String
  pub assigned_at : Option ℕ
  pub adapter_received : Bool
  pub training_loss : Option ℕ
  pub training_steps : Option ℕ

pub record TrainingRound : Type 0 where
  pub round_id : String
  pub version : Text
  pub base_model : String
  pub total_layers : ℕ
  pub layers_per_assignment : ℕ
  pub status : RoundStatus
  pub assignments : List LayerAssignment
  pub created_at : ℕ

-- The statements that the store sends to SQLite, with their parameters.
pub data DbWrite : Type 0 where
  save_round : TrainingRound → DbWrite
  save_first_round_at : ℕ → DbWrite
  save_adapter : String → List ℕ → ℕ → DbWrite
  save_total : ℕ → DbWrite

-- `Inner`, with the statements sent so far, the latest last.
pub record LayerTrainingStore : Type 0 where
  pub rounds : List TrainingRound
  pub total_rounds_completed : ℕ
  pub first_round_at : Option ℕ
  pub log : List DbWrite

-- The arguments of `create_round`.
pub record RoundRequest : Type 0 where
  pub version : Text
  pub base_model : String
  pub total_layers : ℕ
  pub layers_per_assignment : ℕ
  pub dataset_size : ℕ
  pub examples_per_shard : ℕ

abbrev pub is_active : RoundStatus → Bool
is_active active = true
is_active complete = false
is_active merging = false

abbrev pub is_merging : RoundStatus → Bool
is_merging active = false
is_merging complete = false
is_merging merging = true

abbrev pub is_available : AssignmentStatus → Bool
is_available available = true
is_available assigned = false
is_available completed = false
is_available failed = false

abbrev pub is_assigned : AssignmentStatus → Bool
is_assigned available = false
is_assigned assigned = true
is_assigned completed = false
is_assigned failed = false

abbrev pub is_complete : AssignmentStatus → Bool
is_complete available = false
is_complete assigned = false
is_complete completed = true
is_complete failed = false
