-- ===== src/Ws/Gpu.antt =====
-- ws_handler.rs: the GPU nodes in the order of their names, and the split of the layers among them.
pub mod Split
use Prim.Native.String.{compare}
use text.Mathlib.Text.{is_le}
use hyverk_distributed_llm.Common.{
  ℕ, suc, ◌+◌, ◌/◌, ◌%◌, String, Bool, List, [], ◌∷◌, map, if◌then◌else◌, ltb, length, filter,
}
use hyverk_distributed_llm.Common.HashMap.{HashMap, values}
use hyverk_distributed_llm.Ws.Types.{WsNode}

-- `sort_by_key(|n| n.node_name)`, which is stable.
unfoldable pub insert_by_name : WsNode → List WsNode → List WsNode
insert_by_name n [] = n ∷ []
insert_by_name n (m ∷ ms) =
    if is_le (compare n.node_name m.node_name) then n ∷ m ∷ ms else m ∷ insert_by_name n ms

unfoldable pub sort_by_name : List WsNode → List WsNode
unfolding insert_by_name
sort_by_name [] = []
sort_by_name (n ∷ ns) = insert_by_name n (sort_by_name ns)

unfoldable pub gpu_nodes : HashMap WsNode → List WsNode
gpu_nodes nodes = sort_by_name (filter (λ n. n.has_gpu) (values nodes))

-- The list that `trigger_rebalance` passes on.
unfoldable pub ready_gpu_nodes : HashMap WsNode → List (String × String)
ready_gpu_nodes nodes = map (λ n. (n.node_id, n.node_name)) (gpu_nodes nodes)

-- The loop of `assign_gpu_layers`, from the `i`-th node and layer `start` on.
unfoldable pub assign_from : ℕ → ℕ → ℕ → ℕ → List WsNode → List (String × ℕ × ℕ)
assign_from per_node remainder i start [] = []
assign_from per_node remainder i start (n ∷ ns) =
    let extra = if ltb i remainder then 1 else 0 in
    let end = start + per_node + extra in
    (n.node_id, start, end) ∷ assign_from per_node remainder (i + 1) end ns

unfoldable pub assign_gpu_layers : List WsNode → List (String × ℕ × ℕ)
unfolding assign_from
assign_gpu_layers [] = []
assign_gpu_layers (n ∷ ns) =
    let count = length (n ∷ ns) in assign_from (28 / count) (28 % count) 0 0 (n ∷ ns)
