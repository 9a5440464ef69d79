-- ===== src/Grpc.antt =====
-- server/coordinator/src/router.rs and grpc_server.rs: the service that registered nodes poll. Each
-- handler is a function on the state that the service shares with the rest of the coordinator.
pub mod Polling
mod Examples
use hyverk_distributed_llm.Common.{
  ℕ, ◌+◌, ◌%◌, ◌^◌, String, Bool, true, false, Option, none, some, [], if◌then◌else◌,
}
use hyverk_distributed_llm.Registry
use hyverk_distributed_llm.Registry.{NodeRegistry, NodeCapabilities, NodeInfo}
use hyverk_distributed_llm.Tasks
use hyverk_distributed_llm.Tasks.{TaskStore, InferenceTask}

-- The counters of metrics.rs that this service touches.
pub record Counters : Type 0 where
  pub grpc_requests : ℕ
  pub heartbeats : ℕ
  pub bytes_in : ℕ

pub record Service : Type 0 where
  pub registry : NodeRegistry
  pub task_store : TaskStore
  pub counters : Counters
  pub heartbeat_interval_secs : ℕ

-- `tonic::Status`
pub data Status : Type 0 where
  not_found : String → Status

pub data Reply (A : Type 0) : Type 0 where
  ok : A → Reply A
  err : Status → Reply A

pub record RegisterResponse : Type 0 where
  pub node_id : String
  pub heartbeat_interval_secs : ℕ

pub record PollTaskResponse : Type 0 where
  pub has_task : Bool
  pub task : Option InferenceTask

pub record SubmitResultRequest : Type 0 where
  pub node_id : String
  pub task_id : String
  pub success : Bool
  pub response_text : String
  pub error_message : String
  pub duration_ms : ℕ

abbrev add_u64 : ℕ → ℕ → ℕ
add_u64 a b = (a + b) % 2 ^ 64

-- `TaskRouter::assign_task_for_node`
pub assign_task_for_node : NodeRegistry → TaskStore → String → ℕ → TaskStore × Option InferenceTask
assign_task_for_node registry task_store node_id now = elim (Registry.get_node registry node_id) [
  | none ↦ (task_store, none)
  | some node ↦ Tasks.assign_pending_task task_store node_id node.capabilities.available_models now
]

-- `NodeCapabilities::default()`
abbrev default_capabilities : NodeCapabilities
default_capabilities = record {
  available_models = [];
  hardware_info = "";
  max_concurrent_tasks = 0;
}

unwrap_or_default : Option NodeCapabilities → NodeCapabilities
unwrap_or_default none = default_capabilities
unwrap_or_default (some capabilities) = capabilities

-- `node_id` is the UUID that the registry draws.
pub register :
    Service → String → Option NodeCapabilities → String → ℕ → Service × Reply RegisterResponse
register s node_name capabilities node_id now =
    let caps = unwrap_or_default capabilities in
    let (registry', i) = Registry.register s.registry node_id node_name caps now in
    (
      record s {
        registry = registry';
        counters = record (s.counters) { grpc_requests = add_u64 s.counters.grpc_requests 1 };
      },
      ok (record { node_id = i; heartbeat_interval_secs = s.heartbeat_interval_secs }),
    )

pub heartbeat : Service → String → ℕ → ℕ → Service × Reply Bool
heartbeat s node_id active_tasks now =
    let (registry', known) = Registry.heartbeat s.registry node_id active_tasks now in
    (
      record s {
        registry = registry';
        counters = record {
          grpc_requests = add_u64 s.counters.grpc_requests 1;
          heartbeats = add_u64 s.counters.heartbeats 1;
          bytes_in = add_u64 s.counters.bytes_in 64;
        };
      },
      if known then ok true else err (not_found "Node not registered"),
    )

pub deregister : Service → String → Service × Reply Bool
deregister s node_id = (record s { registry = Registry.deregister s.registry node_id }, ok true)

to_response : Option InferenceTask → PollTaskResponse
to_response none = record { has_task = false; task = none }
to_response (some task) = record { has_task = true; task = some task }

pub poll_task : Service → String → ℕ → Service × Reply PollTaskResponse
poll_task s node_id now =
    let (task_store', task) = assign_task_for_node s.registry s.task_store node_id now in
    (record s { task_store = task_store' }, ok (to_response task))

pub submit_result : Service → SubmitResultRequest → Service × Reply Bool
submit_result s r =
    let (task_store', found) =
      if r.success
      then Tasks.complete_task s.task_store r.task_id r.response_text r.duration_ms
      else Tasks.fail_task s.task_store r.task_id r.error_message in
    (
      record s { task_store = task_store' },
      if found then ok true else err (not_found "Task not found"),
    )
