-- ===== src/Inference.antt =====
-- server/coordinator/src/http_api.rs, `ws_inference`: a request from its HTTP call to its reply. The
-- parts between the handler's awaits are functions on the state of the WebSocket handler, since
-- other handlers run in between; `start_inference` runs the first of them one after another. The
-- tokenizer's answer and the request's id are arguments.
pub mod Runs
pub mod Races
pub mod Limits
pub mod Start
pub mod Disconnects
mod Examples
use hyverk_distributed_llm.Common.{
  ℕ, zero, String, Bool, true, false, Option, none, some, List, [], ◌∷◌, if◌then◌else◌, str_eq,
  ◌++◌,
}
use hyverk_distributed_llm.Common.HashMap
use hyverk_distributed_llm.Serving.{request_start, request_end}
use hyverk_distributed_llm.Ws.{
  WsState, PendingForward, ChainStep, CoordinatorMessage, inference_start, send_to_node,
  build_inference_chain, release_in_flight, broadcast_inference_end, drop_result_tx,
}

-- The body of the request, with its defaults filled in.
pub record InferenceArgs : Type 0 where
  pub prompt : String
  pub max_tokens : ℕ
  pub temperature : ℕ
  pub top_p : Option ℕ
  pub top_k : Option ℕ

-- How the handler goes on once it has tried to start the request: an error, or it waits.
pub data Started : Type 0 where
  prompt_required not_operational no_nodes tokenize_failed unreachable : Started
  waits : Started

-- `request_start`
pub pin_generation : WsState → WsState × Option ℕ
pin_generation s =
    let (mgr, guard) = request_start s.cluster_mgr in (record s { cluster_mgr = mgr }, guard)

-- `request_end(&in_flight_guard)`
pub give_up : WsState → ℕ → WsState
give_up s guard = record s { cluster_mgr = request_end s.cluster_mgr guard }

pub new_forward : String → InferenceArgs → ℕ → List ChainStep → List ℕ → PendingForward
new_forward request_id args guard chain token_ids = record {
  hidden_data = [];
  chain = chain;
  current_step = 0;
  token_ids = token_ids;
  generated = [];
  max_tokens = args.max_tokens;
  temperature = args.temperature;
  top_p = args.top_p;
  top_k = args.top_k;
  result_tx = some request_id;
  in_flight_guard = some guard;
}

pub insert_request : WsState → String → PendingForward → WsState
insert_request s request_id p = record s {
  pending_forwards = HashMap.insert request_id p s.pending_forwards;
}

-- The branch for a first node that cannot be reached.
unreached : WsState → String → ℕ → WsState
unreached s request_id guard = elim (HashMap.get request_id s.pending_forwards) [
  | none ↦ give_up s guard
  | some pending ↦
      release_in_flight
        (record s { pending_forwards = HashMap.remove request_id s.pending_forwards }) pending
]

start_message : String → InferenceArgs → List ℕ → ChainStep → CoordinatorMessage
start_message request_id args token_ids first =
    inference_start request_id token_ids first.layer_start first.layer_end args.max_tokens
      (some args.temperature) args.top_p args.top_k

pub send_start : WsState → String → InferenceArgs → ℕ → ChainStep → List ℕ → WsState × Started
send_start s request_id args guard first token_ids =
    let (s', sent) = send_to_node s first.node_id (start_message request_id args token_ids first) in
    if sent then (s', waits) else (unreached s' request_id guard, unreachable)

-- From the tokenizer's answer to the pending request, with the guards for an empty chain and for the
-- tokenizer's error (`none`).
pub enter : WsState → String → InferenceArgs → ℕ → List ChainStep → Option (List ℕ) → WsState
enter s request_id args guard [] tokens = give_up s guard
enter s request_id args guard (first ∷ steps) none = give_up s guard
enter s request_id args guard (first ∷ steps) (some token_ids) =
    insert_request s request_id (new_forward request_id args guard (first ∷ steps) token_ids)

-- From the tokenizer's answer on.
pub submit :
    WsState → String → InferenceArgs → ℕ → List ChainStep → Option (List ℕ) → WsState × Started
submit s request_id args guard [] tokens = (enter s request_id args guard [] tokens, no_nodes)
submit s request_id args guard (first ∷ steps) none =
    (enter s request_id args guard (first ∷ steps) none, tokenize_failed)
submit s request_id args guard (first ∷ steps) (some token_ids) =
    send_start (enter s request_id args guard (first ∷ steps) (some token_ids)) request_id args
      guard first token_ids

pub start_inference : WsState → String → InferenceArgs → Option (List ℕ) → WsState × Started
start_inference s request_id args tokens =
    let (s', pinned) = pin_generation s in
    let started : WsState × Started = elim pinned [
      | none ↦ (s', not_operational)
      | some guard ↦ submit s' request_id args guard (build_inference_chain s') tokens
    ] in
    if str_eq args.prompt "" then (s, prompt_required) else started

-- The end of the wait without a result: the channel was closed, or the time is up. The receiver is
-- dropped with the handler, so nothing is told to it.
pub abort_request : WsState → String → WsState
abort_request s request_id = elim (HashMap.get request_id s.pending_forwards) [
  | none ↦ s
  | some pending ↦
      broadcast_inference_end
        (release_in_flight
          (record s { pending_forwards = HashMap.remove request_id s.pending_forwards }) pending)
        pending.chain request_id
]
