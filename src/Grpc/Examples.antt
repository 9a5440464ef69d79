-- ===== src/Grpc/Examples.antt =====
-- grpc_server.rs: the theorems at concrete inputs.
use hyverk_distributed_llm.Common.{◌≡◌, true, [], ◌∷◌, is_some}
use hyverk_distributed_llm.Registry.{NodeInfo}
use hyverk_distributed_llm.Tasks.{create_task, new}
use hyverk_distributed_llm.Tasks.Runs.{here, next, creates}
use hyverk_distributed_llm.Grpc.{Service, ok, poll_task, PollTaskResponse, SubmitResultRequest}
use hyverk_distributed_llm.Grpc.Polling.{IsReply, poll_task-IsReply}

abbrev node : NodeInfo
node = record {
  node_id = "u1";
  node_name = "mac";
  capabilities = record {
    available_models = "qwen" ∷ [];
    hardware_info = "cpu";
    max_concurrent_tasks = 1;
  };
  active_tasks = 0;
  last_heartbeat = 5;
  registered_at = 5;
}

abbrev service : Service
service = record {
  registry = ("u1", node) ∷ [];
  task_store = (create_task new "t1" "qwen" "hello" 0 100 6).0;
  counters = record { grpc_requests = 1; heartbeats = 0; bytes_in = 0 };
  heartbeat_interval_secs = 10;
}

poll_task-IsReply_example :
    (r : PollTaskResponse) × ((poll_task service "u1" 7).1 ≡ ok r)
    × (r.has_task ≡ is_some r.task)
    × IsReply service "u1" 7 r.task
poll_task-IsReply_example =
    poll_task-IsReply service "u1" 7 (next here (creates "t1" "qwen" "hello" 0 100 6))

abbrev late : SubmitResultRequest
late = record {
  node_id = "u1";
  task_id = "t9";
  success = true;
  response_text = "hi";
  error_message = "";
  duration_ms = 3;
}
