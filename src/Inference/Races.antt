-- ===== src/Inference/Races.antt =====
-- http_api.rs, `ws_inference`: a node that goes while its request starts.
use hyverk_distributed_llm.Common.{
  ℕ, ◌+◌, ◌<◌, String, ◌≡◌, ap, ◌∙◌, none, some, List, arith, length, eq_refl,
}
use hyverk_distributed_llm.Common.HashMap
use hyverk_distributed_llm.Common.HashMap.{IsMap, get-remove}
use hyverk_distributed_llm.Serving.{ClusterManager, u32_mod, load, request_end}
use hyverk_distributed_llm.Serving.InFlight.Ledger.{
  load-fetch_sub, request_end_counters, length-fetch_sub,
}
use hyverk_distributed_llm.Ws.{WsState, PendingForward, ChainStep, fail_pending_request}
use hyverk_distributed_llm.Ws.Failures.{fail_pending_request-found, send_to_node-absent}
use hyverk_distributed_llm.Inference.{InferenceArgs, start_message, give_up, send_start, unreached}

-- With a count above zero, the end of a request lowers it by one.
request_end-load :
    (m : ClusterManager) (c : ℕ)
    → c < length m.counters
    → 0 < load m.counters c
    → load m.counters c < u32_mod
    → 1 + load (request_end m c).counters c ≡ load m.counters c
request_end-load m c i p h =
    ground (arith, request_end_counters m c p, load-fetch_sub m.counters c c i p h)

-- A request is failed, since a node's connection has ended, between its insertion and the send of its
-- first message; the node of that send is gone. Then its guard is given back twice: the counter of its
-- generation falls by two, and the other requests are counted short by one.
pub send_start-twice :
    (s : WsState) (r tx : String) (args : InferenceArgs) (c : ℕ) (first : ChainStep) (ids : List ℕ)
    (p : PendingForward)
    → HashMap.get r s.pending_forwards ≡ some p
    → p.in_flight_guard ≡ some c
    → p.result_tx ≡ some tx
    → IsMap s.pending_forwards
    → HashMap.get first.node_id s.nodes ≡ none
    → c < length s.cluster_mgr.counters
    → 1 < load s.cluster_mgr.counters c
    → load s.cluster_mgr.counters c < u32_mod
    → 2 + load (send_start (fail_pending_request s r) r args c first ids).0.cluster_mgr.counters c
      ≡ load s.cluster_mgr.counters c
unfolding send_start unreached give_up
send_start-twice s r tx args c first ids p e g x m a i two few =
    let f = fail_pending_request s r in
    let ef = fail_pending_request-found s r tx c p e g x in
    let gone : HashMap.get r f.pending_forwards ≡ none =
      ap (λ t. HashMap.get r t.pending_forwards) ef
      ∙ ground (arith, get-remove r r s.pending_forwards m, eq_refl r) in
    let once : f.cluster_mgr ≡ request_end s.cluster_mgr c = ap (λ t. t.cluster_mgr) ef in
    let inside : c < length f.cluster_mgr.counters = ground (
      arith,
      once,
      request_end_counters s.cluster_mgr c (omega arith),
      length-fetch_sub s.cluster_mgr.counters c,
    ) in
    let first_end = request_end-load s.cluster_mgr c i (omega arith) few in
    let fallen : 1 + load f.cluster_mgr.counters c ≡ load s.cluster_mgr.counters c =
      ap (λ (t : ClusterManager). 1 + load t.counters c) once ∙ first_end in
    let second_end = request_end-load f.cluster_mgr c inside (omega arith) (omega arith) in
    let there : HashMap.get first.node_id f.nodes ≡ none =
      ap (λ t. HashMap.get first.node_id t.nodes) ef ∙ a in
    let unsent = send_to_node-absent f first.node_id (start_message r args ids first) there in
    rw unsent (rw (gone, unreached) (omega (arith, second_end, fallen)))
