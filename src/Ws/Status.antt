-- ===== src/Ws/Status.antt =====
-- ws_handler.rs, `cluster_status`: what the coordinator reports of the cluster.
use hyverk_distributed_llm.Common.{
  ℕ, String, ◌≡◌, refl, Bool, true, false, not, ◌&&◌, none, some, List, [], ◌∷◌, map, arith,
  if◌then◌else◌, leb, all, any,
}
use hyverk_distributed_llm.Common.HashMap
use hyverk_distributed_llm.Common.HashMap.{HashMap, values}
use hyverk_distributed_llm.Serving.{
  ClusterManager, ActiveSlot, InfraSnapshot, active_slots, is_operational, snapshot,
}
use hyverk_distributed_llm.Serving.Routing.Coverage.{active_range}
use hyverk_distributed_llm.Serving.Takeover.{is_operational-any}
use hyverk_distributed_llm.Common.Ranges.{in_range}
use hyverk_distributed_llm.Ws.Gpu.{gpu_nodes, assign_gpu_layers}
use hyverk_distributed_llm.Ws.{
  WsState, WsNode, ClusterStatus, NodeInferenceState, build_inference_chain,
}
use hyverk_distributed_llm.Ws.Chain.{slot_ready, build_inference_chain-eq}

-- `gpu_map.insert` of each range in turn; a later one of the same node overwrites an earlier one.
insert_ranges : HashMap (ℕ × ℕ) → List (String × ℕ × ℕ) → HashMap (ℕ × ℕ)
insert_ranges m [] = m
insert_ranges m ((i, start, end) ∷ rs) = insert_ranges (HashMap.insert i (start, end) m) rs

pending_ranges : InfraSnapshot → HashMap WsNode → HashMap (ℕ × ℕ)
pending_ranges infra nodes = elim infra.pending_snapshot [
  | none ↦ insert_ranges [] (assign_gpu_layers (gpu_nodes nodes))
  | some g ↦ insert_ranges [] (map (λ x. (x.node_id, x.layer_start, x.layer_end)) g.nodes)
]

is_nil {ℓ} : {A : Type ℓ} → List A → Bool
is_nil [] = true
is_nil (x ∷ xs) = false

gpu_map : WsState → HashMap (ℕ × ℕ)
gpu_map s =
    let active =
      insert_ranges []
        (map (λ x. (x.node_id, x.layer_start, x.layer_end)) (active_slots s.cluster_mgr)) in
    if is_nil active then pending_ranges (snapshot s.cluster_mgr) s.nodes else active

node_state : HashMap (ℕ × ℕ) → WsNode → NodeInferenceState
node_state ranges n =
    let range : ℕ × ℕ = elim (HashMap.get n.node_id ranges) [ none ↦ (0, 0) | some r ↦ r ] in
    record {
      node_name = n.node_name;
      state = n.state;
      detail = n.state_detail;
      layer_start = range.0;
      layer_end = range.1;
      client_version = n.client_version;
      os = n.os;
    }

-- `sort_by_key(|n| n.layer_start)`
insert_state : NodeInferenceState → List NodeInferenceState → List NodeInferenceState
insert_state n [] = n ∷ []
insert_state n (m ∷ ms) =
    if leb n.layer_start m.layer_start then n ∷ m ∷ ms else m ∷ insert_state n ms

sort_states : List NodeInferenceState → List NodeInferenceState
sort_states [] = []
sort_states (n ∷ ns) = insert_state n (sort_states ns)

pub cluster_status : WsState → ClusterStatus
cluster_status s =
    let slots = active_slots s.cluster_mgr in
    let states = sort_states (map (node_state (gpu_map s)) (values s.nodes)) in
    let operational =
      is_operational s.cluster_mgr && not (is_nil slots) && all (slot_ready s.nodes) slots in
    record {
      status =
          (if operational then "operational" else if is_nil states then "no_nodes" else "forming");
      nodes = states;
    }

nil-insert_state :
    (n : NodeInferenceState) (ns : List NodeInferenceState) → is_nil (insert_state n ns) ≡ false
unfolding is_nil insert_state
nil-insert_state n [] = refl
nil-insert_state n (m ∷ ms) = ground arith

nil-states :
    (f : WsNode → NodeInferenceState) (m : HashMap WsNode)
    → is_nil (sort_states (map f (values m))) ≡ is_nil m
unfolding is_nil sort_states values
nil-states f [] = refl
nil-states f ((i, n) ∷ m) = nil-insert_state (f n) (sort_states (map f (values m)))

nil-any :
    (slots : List ActiveSlot)
    → any (in_range 0) (map active_range slots) ≡ true
    → is_nil slots ≡ false
unfolding any is_nil
nil-any [] h = cc
nil-any (s ∷ ss) h = refl

nil-operational : (m : ClusterManager) → is_operational m ≡ true → is_nil (active_slots m) ≡ false
nil-operational m h = nil-any (active_slots m) (is_operational-any m 0 h (omega arith))

-- The status is "operational" exactly if a request gets a chain, "no_nodes" if it does not and no
-- node is connected, and "forming" otherwise.
pub cluster_status-build_inference_chain :
    (s : WsState)
    → (cluster_status s).status ≡ elim (build_inference_chain s) [
      | [] ↦ elim s.nodes [ [] ↦ "no_nodes" | n ∷ ns ↦ "forming" ]
      | c ∷ cs ↦ "operational"
    ]
unfolding cluster_status is_nil
cluster_status-build_inference_chain s =
    let slots = active_slots s.cluster_mgr in
    ground (
      arith,
      build_inference_chain-eq s,
      nil-states (node_state (gpu_map s)) s.nodes,
      nil-operational s.cluster_mgr,
    )
