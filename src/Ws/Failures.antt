-- ===== src/Ws/Failures.antt =====
-- ws_handler.rs: requests that fail, and what is left of them.
use hyverk_distributed_llm.Common.{
  ℕ, ◌+◌, String, ◌≡◌, refl, ap, ◌∙◌, Bool, false, none, some, List, [], ◌∷◌, ◌++◌, arith,
}
use hyverk_distributed_llm.Common.HashMap
use hyverk_distributed_llm.Common.HashMap.{
  HashMap, IsMap, get-remove, get-absent, remove-IsMap, remove-none, without, get-without,
}
use hyverk_distributed_llm.Serving.{request_end, rebalance}
use hyverk_distributed_llm.NodeStats.{on_disconnect}
use hyverk_distributed_llm.Ws.Gpu.{ready_gpu_nodes}
use hyverk_distributed_llm.Ws.Handlers.{Quiet-send_assignments}
use hyverk_distributed_llm.Ws.{
  WsState, PendingForward, CoordinatorMessage, closed_channel, send, send_to_node,
  release_in_flight, drop_result_tx, fail_pending_request, waiting_ids, fail_each, disconnect,
  trigger_rebalance, node_info,
}

pub send_to_node-absent :
    (s : WsState) (i : String) (m : CoordinatorMessage)
    → HashMap.get i s.nodes ≡ none
    → send_to_node s i m ≡ (s, false)
unfolding send_to_node send
send_to_node-absent s i m e = ground arith

-- What is left of a request that fails, with a guard and a handler that waits.
pub fail_pending_request-found :
    (s : WsState) (r tx : String) (c : ℕ) (p : PendingForward)
    → HashMap.get r s.pending_forwards ≡ some p
    → p.in_flight_guard ≡ some c
    → p.result_tx ≡ some tx
    → fail_pending_request s r ≡ record s {
      pending_forwards = HashMap.remove r s.pending_forwards;
      cluster_mgr = request_end s.cluster_mgr c;
      spawned = s.spawned + 1;
      outcomes = s.outcomes ++ (tx, closed_channel) ∷ [];
    }
unfolding fail_pending_request release_in_flight drop_result_tx
fail_pending_request-found s r tx c p e g x = ground arith

pub fail-pending :
    (s : WsState) (r : String)
    → (fail_pending_request s r).pending_forwards ≡ HashMap.remove r s.pending_forwards
unfolding fail_pending_request release_in_flight drop_result_tx
fail-pending s r = ground (arith, remove-none r s.pending_forwards)

fail_each-pending :
    (s : WsState) (is : List String)
    → (fail_each s is).pending_forwards ≡ without is s.pending_forwards
unfolding fail_each
fail_each-pending s [] = refl
fail_each-pending s (i ∷ is) =
    fail_each-pending (fail_pending_request s i) is ∙ ap (without is) (fail-pending s i)

pub trigger_rebalance-pending :
    (s : WsState) → (trigger_rebalance s).pending_forwards ≡ s.pending_forwards
unfolding trigger_rebalance
trigger_rebalance-pending s =
    let (mgr, sent) = rebalance s.cluster_mgr (ready_gpu_nodes s.nodes) in
    (Quiet-send_assignments (record s { cluster_mgr = mgr }) sent).1

pub disconnect-pending :
    (s : WsState) (i : String) (available : Bool) (now : ℕ)
    → (disconnect s i available now).pending_forwards
      ≡ without (waiting_ids i s.pending_forwards) s.pending_forwards
unfolding disconnect
disconnect-pending s i available now =
    let (was_gpu, name) = node_info (HashMap.get i s.nodes) in
    let s₁ = record s { nodes = HashMap.remove i s.nodes } in
    let s₂ = fail_each s₁ (waiting_ids i s.pending_forwards) in
    let s₃ = record s₂ { node_stats = on_disconnect s₂.node_stats name now } in
    ground (
      arith,
      fail_each-pending s₁ (waiting_ids i s.pending_forwards),
      trigger_rebalance-pending s₂,
      trigger_rebalance-pending s₃,
    )
