-- ===== src/Ws/Examples.antt =====
-- ws_handler.rs: the theorems at concrete inputs, and runs of the code.
use hyverk_distributed_llm.Common.{
  ℕ, String, true, false, ◌≡◌, refl, none, some, List, [], ◌∷◌, ◌++◌, map, arith, any, filter,
  length, drop, leb, contains, distinct, All,
}
use hyverk_distributed_llm.Common.HashMap
use hyverk_distributed_llm.Common.HashMap.{values}
use hyverk_distributed_llm.Common.Ranges.{in_range}
use hyverk_distributed_llm.Common.Utf8.{as_bytes, encode, encode_code}
use hyverk_distributed_llm.Serving
use hyverk_distributed_llm.Serving.{
  ClusterManager, Generation, in_cluster, active, active_slots, is_operational, request_end,
}
use hyverk_distributed_llm.Serving.Plan.{assignment}
use hyverk_distributed_llm.Serving.Routing.{
  to_active_slot, insert_slot, sort_by_start, serving_slots, cover, last_end, slots_operational,
}
use hyverk_distributed_llm.Ws
use hyverk_distributed_llm.Ws.{
  WsState, WsNode, PendingForward, ChainStep, text, result, inference_continue, is_ready, to_step,
  chain_of, build_inference_chain, step_at, waits_for, receive, handle_client_message,
  register_node, insert_node, stale_ids, remove_each, trigger_rebalance, send_assignments,
  send_to_node, send, update_node_state, update_state, continue_request, advance, forward_message,
  forward_payload, route_forward_result, handle_binary_data, rewind, push_token,
  handle_generated_token, disconnect,
}
use hyverk_distributed_llm.Ws.Chain.{
  step_range, step_of, slot_of, IsConnected, build_inference_chain_serves,
}
use hyverk_distributed_llm.Ws.Gpu.{
  ready_gpu_nodes, gpu_nodes, sort_by_name, insert_by_name, assign_gpu_layers,
}
use hyverk_distributed_llm.Ws.Hops.{
  channel_of, deliveries, route_all, route_all-deliveries, handle_binary_data-forward_payload,
}
use hyverk_distributed_llm.Ws.Status.{cluster_status, cluster_status-build_inference_chain}
use hyverk_distributed_llm.Ws.Tokens.{handle_generated_token_last}

-- All that a run of the handler goes through.
unfoldable pub run : ℕ
unfolding Serving.Examples.run Ws.new receive handle_client_message register_node insert_node
    stale_ids remove_each trigger_rebalance send_assignments send_to_node send update_node_state
    update_state handle_generated_token push_token continue_request rewind values HashMap.modify
    ready_gpu_nodes gpu_nodes sort_by_name insert_by_name filter contains assignment
run = 0

abbrev ready_node : String → String → WsNode
ready_node id name = record {
  node_id = id;
  node_name = name;
  has_gpu = true;
  ram_mb = 8000;
  state = "ready";
  state_detail = "";
  client_version = "1.0";
  os = "linux";
  tx = id;
}

abbrev halves : Generation
halves = record {
  gen = 1;
  slots =
      record {
        node_id = "a";
        node_name = "x";
        layer_start = 0;
        layer_end = 14;
        infra_state = in_cluster;
      }
      ∷ record {
        node_id = "b";
        node_name = "y";
        layer_start = 14;
        layer_end = 28;
        infra_state = in_cluster;
      }
      ∷ [];
  in_flight = 0;
  state = active;
}

abbrev steps : List ChainStep
steps =
    record { node_id = "a"; layer_start = 0; layer_end = 14; is_last = false }
    ∷ record { node_id = "b"; layer_start = 14; layer_end = 28; is_last = true }
    ∷ []

abbrev waiting : PendingForward
waiting = record {
  hidden_data = [];
  chain = steps;
  current_step = 0;
  token_ids = 5 ∷ 6 ∷ [];
  generated = 11 ∷ [];
  max_tokens = 3;
  temperature = 7;
  top_p = none;
  top_k = some 40;
  result_tx = some "r";
  in_flight_guard = some 0;
}

-- Two nodes serve, and one request is on its way through them.
abbrev pub up : WsState
up = record {
  nodes = ("a", ready_node "a" "x") ∷ ("b", ready_node "b" "y") ∷ [];
  pending_forwards = ("r", waiting) ∷ [];
  cluster_mgr = record {
    next_gen = 2;
    active_gen = some halves;
    pending_gen = none;
    draining_gen = none;
    counters = 1 ∷ [];
  };
  node_stats = Ws.new.node_stats;
  closed = [];
  sent = [];
  outcomes = [];
  spawned = 0;
}

up_chain : build_inference_chain up ≡ steps
unfolding build_inference_chain chain_of to_step is_ready is_operational slots_operational
    active_slots serving_slots sort_by_start insert_slot filter to_active_slot cover last_end
    HashMap.get
up_chain = refl

build_inference_chain_serves_example :
    (map step_of (build_inference_chain up) ≡ map slot_of (active_slots up.cluster_mgr))
    × All (IsConnected up.nodes) (build_inference_chain up)
    × (any (in_range 17) (map step_range (build_inference_chain up)) ≡ true)
    × All (λ c. c.is_last ≡ leb 28 c.layer_end) (build_inference_chain up)
build_inference_chain_serves_example =
    build_inference_chain_serves up 17 (λ e. cc (e, up_chain)) (omega arith)

cluster_status-build_inference_chain_example :
    (cluster_status up).status ≡ elim (build_inference_chain up) [
      | [] ↦ elim up.nodes [ [] ↦ "no_nodes" | n ∷ ns ↦ "forming" ]
      | c ∷ cs ↦ "operational"
    ]
cluster_status-build_inference_chain_example = cluster_status-build_inference_chain up

-- Three nodes share 28 layers: 10, 9 and 9.
abbrev three : List WsNode
three = ready_node "a" "x" ∷ ready_node "b" "y" ∷ ready_node "c" "z" ∷ []

three_ranges : assign_gpu_layers three ≡ ("a", 0, 10) ∷ ("b", 10, 19) ∷ ("c", 19, 28) ∷ []
unfolding assign_gpu_layers Ws.Gpu.assign_from
three_ranges = refl

abbrev uuid : String
uuid = "123e4567-e89b-12d3-a456-426614174000"

uuid_long : length (as_bytes uuid) ≡ 36
unfolding as_bytes encode encode_code
uuid_long = refl

-- A request under an id of the coordinator's own kind.
abbrev up_uuid : WsState
up_uuid = record up { pending_forwards = (uuid, waiting) ∷ [] }

route_all-deliveries_example :
    (route_all up_uuid uuid ((1 ∷ 2 ∷ []) ∷ [])).sent
    ≡ [] ++ deliveries (channel_of up_uuid) uuid waiting (drop 1 steps) ((1 ∷ 2 ∷ []) ∷ [])
unfolding HashMap.get contains
route_all-deliveries_example =
    route_all-deliveries up_uuid uuid waiting ((1 ∷ 2 ∷ []) ∷ []) (drop 1 steps) refl uuid_long refl
      (omega arith) (omega arith) (refl, tt)

handle_binary_data-forward_payload_example :
    handle_binary_data up (forward_payload uuid (1 ∷ 2 ∷ []))
    ≡ route_forward_result up uuid (1 ∷ 2 ∷ [])
handle_binary_data-forward_payload_example =
    handle_binary_data-forward_payload up uuid (1 ∷ 2 ∷ []) (ground arith) uuid_long

handle_generated_token_last_example :
    (HashMap.get "r" (handle_generated_token up "r" 12 true).pending_forwards ≡ none)
    × ((handle_generated_token up "r" 12 true).cluster_mgr ≡ request_end up.cluster_mgr 0)
    × ((handle_generated_token up "r" 12 true).outcomes
        ≡ []
          ++ ("r", result (record { tokens = 2; cluster = steps; generated_ids = 11 ∷ 12 ∷ [] }))
            ∷ [])
unfolding HashMap.get distinct contains
handle_generated_token_last_example =
    handle_generated_token_last up "r" "r" 12 0 true waiting refl refl refl refl refl
