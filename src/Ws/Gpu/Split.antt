-- ===== src/Ws/Gpu/Split.antt =====
-- ws_handler.rs, `assign_gpu_layers`: the second copy of the layers' split.
use hyverk_distributed_llm.Common.{
  ℕ, ◌+◌, ◌/◌, ◌%◌, String, ◌≡◌, refl, ap, sym, ◌∙◌, List, [], ◌∷◌, map, arith, length,
  if◌then◌else◌, ltb,
}
use hyverk_distributed_llm.Serving.Plan.{make_slots, new_slots}
use hyverk_distributed_llm.Serving.{NodeSlot}
use hyverk_distributed_llm.Ws.Types.{WsNode}
use hyverk_distributed_llm.Ws.Gpu.{assign_from, assign_gpu_layers}

abbrev pub named : List WsNode → List (String × String)
named = map (λ n. (n.node_id, n.node_name))

abbrev pub slot_range : NodeSlot → String × ℕ × ℕ
slot_range s = (s.node_id, s.layer_start, s.layer_end)

assign_from-make_slots :
    (per_node remainder i start : ℕ) (ns : List WsNode)
    → assign_from per_node remainder i start ns
      ≡ map slot_range (make_slots per_node remainder i start (named ns))
unfolding assign_from make_slots
assign_from-make_slots per_node remainder i start [] = refl
assign_from-make_slots per_node remainder i start (n ∷ ns) =
    let end = start + per_node + (if ltb i remainder then 1 else 0) in
    ap (◌∷◌ (n.node_id, start, end)) (assign_from-make_slots per_node remainder (i + 1) end ns)

length-names : (ns : List WsNode) → length (named ns) ≡ length ns
length-names [] = refl
length-names (n ∷ ns) = omega (arith, length-names ns)

-- `assign_gpu_layers` gives each node the very layers that `rebalance` would give it.
pub assign_gpu_layers-new_slots :
    (ns : List WsNode) → assign_gpu_layers ns ≡ map slot_range (new_slots (named ns))
unfolding assign_gpu_layers new_slots
assign_gpu_layers-new_slots [] = refl
assign_gpu_layers-new_slots (n ∷ ns) =
    let k = length (n ∷ ns) in
    assign_from-make_slots (28 / k) (28 % k) 0 0 (n ∷ ns)
    ∙ ap (λ j. map slot_range (make_slots (28 / j) (28 % j) 0 0 (named (n ∷ ns))))
        (sym (length-names (n ∷ ns)))
