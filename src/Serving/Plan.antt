-- ===== src/Serving/Plan.antt =====
-- serving_clusters.rs, `rebalance`: the new layer ranges, and what each node is told of its own.
pub mod Tiles
pub mod Skips
use hyverk_distributed_llm.Common.{
  ℕ, ◌+◌, ◌/◌, ◌%◌, String, Bool, false, ◌&&◌, Option, none, some, List, [], ◌∷◌, if◌then◌else◌,
  ltb, ◌==◌, length,
}
use hyverk_distributed_llm.Common.HashMap
use hyverk_distributed_llm.Common.HashMap.{HashMap}
use hyverk_distributed_llm.Serving.Types.{
  reinitializing, in_cluster, is_in_cluster, NodeSlot, Generation, LayerAssignment, Held,
}

abbrev pub total_layers : ℕ
total_layers = 28

-- The loop of `rebalance` over the nodes, from the `i`-th node and layer `start` on.
unfoldable pub make_slots : ℕ → ℕ → ℕ → ℕ → List (String × String) → List NodeSlot
make_slots per_node remainder i start [] = []
make_slots per_node remainder i start ((node_id, node_name) ∷ nodes) =
    let extra = if ltb i remainder then 1 else 0 in
    let end = start + per_node + extra in
    record {
      node_id = node_id;
      node_name = node_name;
      layer_start = start;
      layer_end = end;
      infra_state = reinitializing;
    }
    ∷ make_slots per_node remainder (i + 1) end nodes

unfoldable pub new_slots : List (String × String) → List NodeSlot
unfolding make_slots
new_slots nodes = make_slots (total_layers / length nodes) (total_layers % length nodes) 0 0 nodes

-- `g.slots.iter().map(…).collect()`: a later slot of the same node overwrites an earlier one.
unfoldable pub collect_held : HashMap Held → List NodeSlot → HashMap Held
collect_held m [] = m
collect_held m (s ∷ slots) =
    collect_held
      (HashMap.insert s.node_id
        (record {
          layer_start = s.layer_start;
          layer_end = s.layer_end;
          infra_state = s.infra_state;
        })
        m)
      slots

unfoldable pub current_assignments : Option Generation → HashMap Held
unfolding collect_held
current_assignments none = []
current_assignments (some g) = collect_held [] g.slots

unfoldable pub same_range : NodeSlot → Held → Bool
same_range slot h = (h.layer_start == slot.layer_start) && (h.layer_end == slot.layer_end)

unfoldable pub skip_held : NodeSlot → Option Held → Bool
unfolding same_range
skip_held slot none = false
skip_held slot (some h) = same_range slot h && is_in_cluster h.infra_state

-- The loop of `rebalance` over the new slots: what it writes to a slot, and what it sends.
unfoldable pub skips : HashMap Held → NodeSlot → Bool
unfolding skip_held
skips current slot = skip_held slot (HashMap.get slot.node_id current)

unfoldable pub settle : HashMap Held → NodeSlot → NodeSlot
unfolding skips
settle current slot = if skips current slot then record slot { infra_state = in_cluster } else slot

unfoldable pub assignment : HashMap Held → ℕ → NodeSlot → LayerAssignment
unfolding skips
assignment current gen slot = record {
  node_id = slot.node_id;
  layer_start = slot.layer_start;
  layer_end = slot.layer_end;
  skip_download = skips current slot;
  generation = gen;
}
