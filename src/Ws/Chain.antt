-- ===== src/Ws/Chain.antt =====
-- ws_handler.rs, `build_inference_chain`: which nodes a request passes through.
use hyverk_distributed_llm.Common.{
  String, ℕ, ◌<◌, ◌≡◌, ◌≢◌, refl, ap, sym, subst, ◌∙◌, Bool, true, false, ◌&&◌, none, some, List,
  [], ◌∷◌, map, arith, if◌then◌else◌, inl, inr, Bool-cases, Option-cases, all, any, All, leb,
}
use hyverk_distributed_llm.Common.HashMap
use hyverk_distributed_llm.Common.HashMap.{HashMap}
use hyverk_distributed_llm.Common.Ranges.{in_range}
use hyverk_distributed_llm.Serving.{ActiveSlot, active_slots, is_operational}
use hyverk_distributed_llm.Serving.Routing.Coverage.{active_range}
use hyverk_distributed_llm.Serving.Takeover.{is_operational-any}
use hyverk_distributed_llm.Ws.{
  WsState, WsNode, ChainStep, is_ready, to_step, chain_of, build_inference_chain,
}

-- The slot's node is connected, ready and has a GPU.
abbrev pub slot_ready : HashMap WsNode → ActiveSlot → Bool
slot_ready nodes slot = elim (HashMap.get slot.node_id nodes) [ none ↦ false | some n ↦ is_ready n ]

abbrev pub step_range : ChainStep → ℕ × ℕ
step_range c = (c.layer_start, c.layer_end)

abbrev pub IsConnected : HashMap WsNode → ChainStep → Type 0
IsConnected nodes c = (n : WsNode) × (HashMap.get c.node_id nodes ≡ some n) × (is_ready n ≡ true)

chain_of-eq :
    (nodes : HashMap WsNode) (slots : List ActiveSlot)
    → chain_of nodes slots
      ≡ (if all (slot_ready nodes) slots then some (map to_step slots) else none)
unfolding chain_of all
chain_of-eq nodes [] = refl
chain_of-eq nodes (s ∷ ss) = ground (arith, chain_of-eq nodes ss)

pub build_inference_chain-eq :
    (s : WsState)
    → build_inference_chain s ≡ (
        if is_operational s.cluster_mgr && all (slot_ready s.nodes) (active_slots s.cluster_mgr)
        then map to_step (active_slots s.cluster_mgr)
        else [])
unfolding build_inference_chain
build_inference_chain-eq s = ground (arith, chain_of-eq s.nodes (active_slots s.cluster_mgr))

-- A step with its node.
abbrev pub step_of : ChainStep → String × ℕ × ℕ
step_of c = (c.node_id, c.layer_start, c.layer_end)

abbrev pub slot_of : ActiveSlot → String × ℕ × ℕ
slot_of s = (s.node_id, s.layer_start, s.layer_end)

steps_of : (slots : List ActiveSlot) → map step_of (map to_step slots) ≡ map slot_of slots
unfolding to_step
steps_of [] = refl
steps_of (s ∷ ss) = ap (◌∷◌ (slot_of s)) (steps_of ss)

step_ranges :
    (slots : List ActiveSlot) → map step_range (map to_step slots) ≡ map active_range slots
unfolding to_step
step_ranges [] = refl
step_ranges (s ∷ ss) = ap (◌∷◌ (s.layer_start, s.layer_end)) (step_ranges ss)

connected :
    (nodes : HashMap WsNode) (slots : List ActiveSlot)
    → all (slot_ready nodes) slots ≡ true
    → All (IsConnected nodes) (map to_step slots)
unfolding all to_step
connected nodes [] h = tt
connected nodes (s ∷ ss) h = elim (Option-cases (HashMap.get s.node_id nodes)) [
  | inl e ↦ absurd (ground arith)
  | inr (n, e) ↦ ((n, e, ground arith), connected nodes ss (ground arith))
]

lasts : (slots : List ActiveSlot) → All (λ c. c.is_last ≡ leb 28 c.layer_end) (map to_step slots)
unfolding to_step
lasts [] = tt
lasts (s ∷ ss) = (refl, lasts ss)

-- A chain that is not empty has the slots of the active generation as its steps, in their order, each
-- with the slot's node and layers: the node of each step is connected, ready and has a GPU, every
-- layer of the model lies in a step, and just the steps that reach the last layer are marked as last.
pub build_inference_chain_serves :
    (s : WsState) (l : ℕ)
    → build_inference_chain s ≢ []
    → l < 28
    → (map step_of (build_inference_chain s) ≡ map slot_of (active_slots s.cluster_mgr))
      × All (IsConnected s.nodes) (build_inference_chain s)
      × (any (in_range l) (map step_range (build_inference_chain s)) ≡ true)
      × All (λ c. c.is_last ≡ leb 28 c.layer_end) (build_inference_chain s)
build_inference_chain_serves s l full h =
    let slots = active_slots s.cluster_mgr in
    let e = build_inference_chain-eq s in
    elim (Bool-cases (is_operational s.cluster_mgr && all (slot_ready s.nodes) slots)) [
      | inr fails ↦ absurd (full (ground (arith, e)))
      | inl holds ↦
          let same : build_inference_chain s ≡ map to_step slots = ground (arith, e) in
          let up : is_operational s.cluster_mgr ≡ true = ground arith in
          let ranges = ap (map step_range) same ∙ step_ranges slots in
          (
            ap (map step_of) same ∙ steps_of slots,
            subst (All (IsConnected s.nodes)) (sym same) (connected s.nodes slots (ground arith)),
            ap (any (in_range l)) ranges ∙ is_operational-any s.cluster_mgr l up h,
            subst (All (λ c. c.is_last ≡ leb 28 c.layer_end)) (sym same) (lasts slots),
          )
    ]
