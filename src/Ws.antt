-- ===== src/Ws.antt =====
-- server/coordinator/src/ws_handler.rs: the connections of the nodes, and the requests that pass from
-- node to node. Each handler is a function on the state; `now` is the clock at the call, and
-- `model_available` the answer of `coordinator_model_available`, which looks at the disk.
pub mod Types
pub mod Gpu
pub mod Guards
pub mod Handlers
pub mod Failures
pub mod Disconnected
pub mod Chain
pub mod Hops
pub mod Requests
pub mod Tokens
pub mod Status
pub mod Examples
pub use Types.*
use mathlib.Core.Option
use hyverk_distributed_llm.Common.{
  ℕ, zero, suc, ◌+◌, ◌-◌, ◌%◌, ◌^◌, min, String, Bool, true, false, not, ◌&&◌, ◌||◌, Option, none,
  some, List, [], ◌∷◌, ◌++◌, map, if◌then◌else◌, ltb, leb, ◌==◌, str_eq, length, take, drop, all,
  any, filter, contains,
}
use hyverk_distributed_llm.Common.HashMap
use hyverk_distributed_llm.Common.HashMap.{HashMap, values}
use hyverk_distributed_llm.Common.Utf8.{as_bytes, from_utf8_lossy}
use hyverk_distributed_llm.Serving
use hyverk_distributed_llm.Serving.{
  LayerAssignment, ActiveSlot, rebalance, active_slots, is_operational, node_ready,
  node_reinitializing, request_end,
}
use hyverk_distributed_llm.NodeStats
use hyverk_distributed_llm.NodeStats.{on_connect, on_disconnect}
use Gpu.{ready_gpu_nodes, sort_by_name, gpu_nodes}

unfoldable pub new : WsState
new = record {
  nodes = [];
  pending_forwards = [];
  cluster_mgr = Serving.new;
  node_stats = NodeStats.new;
  closed = [];
  sent = [];
  outcomes = [];
  spawned = 0;
}

pub node_count : WsState → ℕ
node_count s = length s.nodes

-- `nodes.get(id)` and `tx.send(message)`, which fails if the channel's receiver is gone.
pub send : WsState → String → Message → WsState × Bool
send s node_id message = elim (HashMap.get node_id s.nodes) [
  | none ↦ (s, false)
  | some node ↦
      if contains s.closed node.tx
      then (s, false)
      else (record s { sent = s.sent ++ (node.tx, message) ∷ [] }, true)
]

pub send_to_node : WsState → String → CoordinatorMessage → WsState × Bool
send_to_node s node_id msg = send s node_id (text msg)

pub send_binary_to_node : WsState → String → List ℕ → WsState × Bool
send_binary_to_node s node_id bytes = send s node_id (binary bytes)

-- The loop of `trigger_rebalance`.
pub send_assignments : WsState → List LayerAssignment → WsState
send_assignments s [] = s
send_assignments s (a ∷ as_) =
    send_assignments
      (send_to_node s a.node_id
        (layer_assignment a.layer_start a.layer_end a.skip_download a.generation)).0
      as_

pub trigger_rebalance : WsState → WsState
trigger_rebalance s =
    let (mgr, assignments) = rebalance s.cluster_mgr (ready_gpu_nodes s.nodes) in
    send_assignments (record s { cluster_mgr = mgr }) assignments

-- `node.state == "ready" && node.has_gpu`
pub is_ready : WsNode → Bool
is_ready n = str_eq n.state "ready" && n.has_gpu

pub to_step : ActiveSlot → ChainStep
to_step slot = record {
  node_id = slot.node_id;
  layer_start = slot.layer_start;
  layer_end = slot.layer_end;
  is_last = leb 28 slot.layer_end;
}

-- The loop of `build_inference_chain`; `none` is its early return.
chain_of : HashMap WsNode → List ActiveSlot → Option (List ChainStep)
chain_of nodes [] = some []
chain_of nodes (slot ∷ slots) =
    let rest : Option (List ChainStep) =
      Option.map (λ steps. to_step slot ∷ steps) (chain_of nodes slots) in
    elim (HashMap.get slot.node_id nodes) [
      | none ↦ none
      | some node ↦ if is_ready node then rest else none
    ]

pub build_inference_chain : WsState → List ChainStep
build_inference_chain s = elim (chain_of s.nodes (active_slots s.cluster_mgr)) [
  | none ↦ []
  | some chain ↦ if is_operational s.cluster_mgr then chain else []
]

-- `release_in_flight`
pub release_in_flight : WsState → PendingForward → WsState
release_in_flight s pending = elim pending.in_flight_guard [
  | none ↦ s
  | some guard ↦ record s { cluster_mgr = request_end s.cluster_mgr guard; spawned = s.spawned + 1 }
]

-- `drop(pending.result_tx)`
pub drop_result_tx : WsState → PendingForward → WsState
drop_result_tx s pending = elim pending.result_tx [
  | none ↦ s
  | some tx ↦ record s { outcomes = s.outcomes ++ (tx, closed_channel) ∷ [] }
]

pub fail_pending_request : WsState → String → WsState
fail_pending_request s request_id = elim (HashMap.get request_id s.pending_forwards) [
  | none ↦ s
  | some pending ↦
      drop_result_tx
        (release_in_flight
          (record s { pending_forwards = HashMap.remove request_id s.pending_forwards }) pending)
        pending
]

pub step_at : List ChainStep → ℕ → Option ChainStep
step_at [] i = none
step_at (c ∷ cs) zero = some c
step_at (c ∷ cs) (suc i) = step_at cs i

abbrev pub u64_mod : ℕ
u64_mod = 2 ^ 64

-- What `route_forward_result` does to the request under the lock.
pub advance : PendingForward → PendingForward
advance p = record p { hidden_data = []; current_step = (p.current_step + 1) % u64_mod }

pub forward_message : String → PendingForward → ChainStep → CoordinatorMessage
forward_message request_id p next =
    if next.is_last
    then inference_forward request_id "" next.layer_start next.layer_end next.is_last
        (some p.temperature) p.top_p p.top_k
    else inference_forward request_id "" next.layer_start next.layer_end next.is_last none none none

pad : ℕ → List ℕ → List ℕ
pad zero bs = []
pad (suc n) [] = 0 ∷ pad n []
pad (suc n) (b ∷ bs) = b ∷ pad n bs

-- The frame of hidden states: 36 bytes of the request's id, cut or filled up with zeros, and the rest.
pub forward_payload : String → List ℕ → List ℕ
forward_payload request_id hidden_states = pad 36 (as_bytes request_id) ++ hidden_states

-- The two sends of `route_forward_result`.
forward_to : WsState → String → List ℕ → PendingForward → ChainStep → WsState
forward_to s request_id hidden_states p next =
    let (s₁, told) = send_to_node s next.node_id (forward_message request_id p next) in
    let (s₂, sent) =
      send_binary_to_node s₁ next.node_id (forward_payload request_id hidden_states) in
    if not told
    then fail_pending_request s₁ request_id
    else if not sent
    then fail_pending_request s₂ request_id
    else s₂

pub route_forward_result : WsState → String → List ℕ → WsState
route_forward_result s request_id hidden_states = elim (HashMap.get request_id s.pending_forwards) [
  | none ↦ s
  | some pending ↦
      let p = advance pending in
      let s' = record s {
        pending_forwards = HashMap.modify request_id advance s.pending_forwards;
      } in
      elim (step_at p.chain p.current_step) [
        | none ↦ s'
        | some next ↦ forward_to s' request_id hidden_states p next
      ]
]

pub handle_binary_data : WsState → List ℕ → WsState
handle_binary_data s bytes =
    if ltb (length bytes) 36
    then s
    else route_forward_result s (from_utf8_lossy (take 36 bytes)) (drop 36 bytes)

-- The loop of `broadcast_inference_end`; `seen` are the nodes that have been told.
send_ends : WsState → List String → List ChainStep → String → WsState
send_ends s seen [] request_id = s
send_ends s seen (step ∷ steps) request_id =
    let told = (send_to_node s step.node_id (inference_end request_id)).0 in
    let rest = send_ends told (step.node_id ∷ seen) steps request_id in
    let skipped = send_ends s seen steps request_id in
    if contains seen step.node_id then skipped else rest

pub broadcast_inference_end : WsState → List ChainStep → String → WsState
broadcast_inference_end s chain request_id = send_ends s [] chain request_id

pub push_token : ℕ → PendingForward → PendingForward
push_token token_id p = record p { generated = p.generated ++ token_id ∷ [] }

pub rewind : PendingForward → PendingForward
rewind p = record p { current_step = 0 }

-- `result_tx.take()` and `tx.send(…)`
send_result : WsState → PendingForward → WsState
send_result s p = elim p.result_tx [
  | none ↦ s
  | some tx ↦ record s {
    outcomes =
        s.outcomes
        ++ (
          tx,
          result (record {
            tokens = length p.generated;
            cluster = p.chain;
            generated_ids = p.generated;
          }),
        )
          ∷ [];
  }
]

-- The last token: `p` is the request with it.
finish_request : WsState → String → PendingForward → WsState
finish_request s request_id p =
    let removed = record s { pending_forwards = HashMap.remove request_id s.pending_forwards } in
    broadcast_inference_end (send_result (release_in_flight removed p) p) p.chain request_id

-- The next token: the first node of the chain goes on. An empty chain makes the source's index
-- panic, which ends the handler here.
continue_request : WsState → String → ℕ → PendingForward → WsState
continue_request s request_id token_id p = elim p.chain [
  | [] ↦ s
  | first ∷ steps ↦
      let (s', sent) = send_to_node s first.node_id (
        inference_continue request_id token_id first.layer_start first.layer_end p.max_tokens
          p.temperature p.top_p p.top_k) in
      if sent then s' else fail_pending_request s' request_id
]

pub handle_generated_token : WsState → String → ℕ → Bool → WsState
handle_generated_token s request_id token_id is_eos =
    elim (HashMap.get request_id s.pending_forwards) [
      | none ↦ s
      | some pending ↦
          let p = push_token token_id pending in
          if is_eos || leb p.max_tokens (length p.generated)
          then finish_request s request_id p
          else continue_request
              (record s {
                pending_forwards =
                    HashMap.modify request_id (λ q. rewind (push_token token_id q))
                      s.pending_forwards;
              })
              request_id token_id p
    ]

-- The other connections of a node that registers again under its name.
stale_ids : String → String → HashMap WsNode → List String
stale_ids node_name node_id nodes =
    map (λ e. e.0) (filter (λ e. str_eq e.1.node_name node_name && not (str_eq e.0 node_id)) nodes)

remove_each : List String → HashMap WsNode → HashMap WsNode
remove_each [] m = m
remove_each (i ∷ is) m = remove_each is (HashMap.remove i m)

-- `nodes` after the block of `Register`.
insert_node : WsNode → HashMap WsNode → HashMap WsNode
insert_node n m = HashMap.insert n.node_id n (remove_each (stale_ids n.node_name n.node_id m) m)

register_node : WsState → WsNode → Bool → ℕ → WsState
register_node s n model_available now =
    let s' = record s {
      nodes = insert_node n s.nodes;
      node_stats = on_connect s.node_stats n.node_name now;
    } in
    if n.has_gpu && model_available then trigger_rebalance s' else s'

update_state : String → String → WsNode → WsNode
update_state node_state detail n = record n { state = node_state; state_detail = detail }

update_node_state : WsState → String → String → String → WsState
update_node_state s node_id node_state detail =
    let s' = record s { nodes = HashMap.modify node_id (update_state node_state detail) s.nodes } in
    if str_eq node_state "ready"
    then record s' { cluster_mgr = (node_ready s.cluster_mgr node_id).0 }
    else if str_eq node_state "reinitializing"
    then record s' { cluster_mgr = node_reinitializing s.cluster_mgr node_id }
    else s'

pub handle_client_message : WsState → String → ClientMessage → Bool → ℕ → WsState
handle_client_message s node_id (register name info models ram gpu range version os) available now =
    register_node s
      (record {
        node_id = node_id;
        node_name = name;
        has_gpu = gpu;
        ram_mb = ram;
        state = "connecting";
        state_detail = "";
        client_version = version;
        os = os;
        tx = node_id;
      })
      available now
handle_client_message s node_id (state_update node_state detail) available now =
    update_node_state s node_id node_state detail
handle_client_message s node_id (heartbeat tasks role memory) available now = s
handle_client_message s node_id (forward_result request_id states shape) available now = s
handle_client_message s node_id (token_generated request_id token_id is_eos) available now =
    handle_generated_token s request_id token_id is_eos
handle_client_message s node_id pong available now = s
handle_client_message s node_id (shard_complete i loss steps adapter) available now = s

-- The current hop of a request is at the node.
pub waits_for : String → PendingForward → Bool
waits_for node_id p = elim (step_at p.chain p.current_step) [
  | none ↦ false
  | some step ↦ str_eq step.node_id node_id
]

pub waiting_ids : String → HashMap PendingForward → List String
waiting_ids node_id forwards = map (λ e. e.0) (filter (λ e. waits_for node_id e.1) forwards)

fail_each : WsState → List String → WsState
fail_each s [] = s
fail_each s (i ∷ is) = fail_each (fail_pending_request s i) is

-- What the cleanup knows of the node: whether it has a GPU, and its name.
node_info : Option WsNode → Bool × String
node_info none = (false, "")
node_info (some n) = (n.has_gpu, n.node_name)

-- The cleanup of `handle_ws` when a connection ends.
pub disconnect : WsState → String → Bool → ℕ → WsState
disconnect s node_id model_available now =
    let (was_gpu, node_name) = node_info (HashMap.get node_id s.nodes) in
    let s₁ = record s { nodes = HashMap.remove node_id s.nodes } in
    let s₂ = fail_each s₁ (waiting_ids node_id s₁.pending_forwards) in
    let s₃ =
      if str_eq node_name ""
      then s₂
      else record s₂ { node_stats = on_disconnect s₂.node_stats node_name now } in
    let s₄ = if was_gpu && model_available then trigger_rebalance s₃ else s₃ in
    record s₄ { closed = node_id ∷ s₄.closed }

-- A message that has come in on a connection, as `handle_ws` takes it; JSON that does not parse is no
-- message.
pub data Incoming : Type 0 where
  client : ClientMessage → Incoming
  frame : List ℕ → Incoming
  ping_frame : List ℕ → Incoming

pub receive : WsState → String → Incoming → Bool → ℕ → WsState
receive s node_id (client msg) model_available now =
    handle_client_message s node_id msg model_available now
receive s node_id (frame bytes) model_available now = handle_binary_data s bytes
receive s node_id (ping_frame bytes) model_available now =
    if contains s.closed node_id
    then s
    else record s { sent = s.sent ++ (node_id, pong_frame bytes) ∷ [] }

-- One of the spawned calls of `maybe_retire_draining`.
unfoldable pub run_retire : WsState → WsState
run_retire s = record s {
  cluster_mgr = Serving.maybe_retire_draining s.cluster_mgr;
  spawned = s.spawned - 1;
}
