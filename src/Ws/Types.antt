-- ===== src/Ws/Types.antt =====
-- ws_handler.rs and messages.rs: the types of the WebSocket handler. Floats are bit patterns.
use hyverk_distributed_llm.Common.{ℕ, String, Bool, Option, List}
use hyverk_distributed_llm.Common.HashMap.{HashMap}
use hyverk_distributed_llm.Serving.{ClusterManager}
use hyverk_distributed_llm.NodeStats.{NodeStatsRegistry}

pub data CoordinatorMessage : Type 0 where
  train_shard :
      (assignment_id : String) (layer_start layer_end : ℕ) (data_url : String) → CoordinatorMessage
  inference_start :
      (request_id : String) (token_ids : List ℕ) (layer_start layer_end max_tokens : ℕ)
      (temperature top_p top_k : Option ℕ)
      → CoordinatorMessage
  inference_forward :
      (request_id hidden_states_ref : String) (layer_start layer_end : ℕ) (is_last : Bool)
      (temperature top_p top_k : Option ℕ)
      → CoordinatorMessage
  inference_continue :
      (request_id : String) (new_token_id layer_start layer_end max_tokens temperature : ℕ)
      (top_p top_k : Option ℕ)
      → CoordinatorMessage
  inference_end : (request_id : String) → CoordinatorMessage
  layer_assignment :
      (layer_start layer_end : ℕ) (skip_download : Bool) (generation : ℕ) → CoordinatorMessage
  switch_role : (role urgency : String) → CoordinatorMessage
  ping : CoordinatorMessage

pub data ClientMessage : Type 0 where
  register :
      (node_name hardware_info : String) (models : List String) (ram_mb : ℕ) (has_gpu : Bool)
      (layer_range : Option (ℕ × ℕ)) (client_version os : String)
      → ClientMessage
  heartbeat : (active_tasks : ℕ) (current_role : String) (gpu_memory_used_mb : ℕ) → ClientMessage
  shard_complete : (assignment_id : String) (loss steps : ℕ) (adapter_data : List ℕ) → ClientMessage
  forward_result : (request_id : String) (hidden_states shape : List ℕ) → ClientMessage
  token_generated : (request_id : String) (token_id : ℕ) (is_eos : Bool) → ClientMessage
  state_update : (node_state detail : String) → ClientMessage
  pong : ClientMessage

-- `Message`, as far as the coordinator sends it.
pub data Message : Type 0 where
  text : CoordinatorMessage → Message
  binary : List ℕ → Message
  pong_frame : List ℕ → Message

-- `tx` is the sender of a channel; a channel is named by the connection that it was made for.
pub record WsNode : Type 0 where
  pub node_id : String
  pub node_name : String
  pub has_gpu : Bool
  pub ram_mb : ℕ
  pub state : String
  pub state_detail : String
  pub client_version : String
  pub os : String
  pub tx : String

pub record ChainStep : Type 0 where
  pub node_id : String
  pub layer_start : ℕ
  pub layer_end : ℕ
  pub is_last : Bool

-- `result_tx` is the sender of a oneshot channel, named by the request that waits for it, and
-- `in_flight_guard` the address of a generation's counter.
pub record PendingForward : Type 0 where
  pub hidden_data : List ℕ
  pub chain : List ChainStep
  pub current_step : ℕ
  pub token_ids : List ℕ
  pub generated : List ℕ
  pub max_tokens : ℕ
  pub temperature : ℕ
  pub top_p : Option ℕ
  pub top_k : Option ℕ
  pub result_tx : Option String
  pub in_flight_guard : Option ℕ

-- The text and the time, which the handler leaves empty and zero, are not kept.
pub record InferenceResult : Type 0 where
  pub tokens : ℕ
  pub cluster : List ChainStep
  pub generated_ids : List ℕ

-- What a oneshot channel gives to the request that waits: a result, or that its sender is gone.
pub data Outcome : Type 0 where
  result : InferenceResult → Outcome
  closed_channel : Outcome

-- `WsState`, with what its calls leave outside: the channels whose receiver is gone, the messages
-- sent on each channel and the outcomes of the oneshot channels, the latest last, and the number of
-- spawned calls of `maybe_retire_draining` that have not run.
pub record WsState : Type 0 where
  pub nodes : HashMap WsNode
  pub pending_forwards : HashMap PendingForward
  pub cluster_mgr : ClusterManager
  pub node_stats : NodeStatsRegistry
  pub closed : List String
  pub sent : List (String × Message)
  pub outcomes : List (String × Outcome)
  pub spawned : ℕ

pub record NodeInferenceState : Type 0 where
  pub node_name : String
  pub state : String
  pub detail : String
  pub layer_start : ℕ
  pub layer_end : ℕ
  pub client_version : String
  pub os : String

pub record ClusterStatus : Type 0 where
  pub status : String
  pub nodes : List NodeInferenceState
