-- ===== src/Registry/Examples.antt =====
-- registry.rs: the theorems at concrete inputs.
use hyverk_distributed_llm.Common.{◌≡◌, none, [], ◌∷◌}
use hyverk_distributed_llm.Common.HashMap
use hyverk_distributed_llm.Registry.Names.{
  Named, Reach, here, next, registers, Reach-Named, get_node-remove_stale_nodes,
}
use hyverk_distributed_llm.Registry.{
  NodeRegistry, NodeCapabilities, new, old_ids, remove_each, register, get_node, remove_stale_nodes,
}

abbrev caps : NodeCapabilities
caps = record { available_models = "qwen" ∷ []; hardware_info = "cpu"; max_concurrent_tasks = 1 }

abbrev one : NodeRegistry
one = (register new "u1" "mac" caps 5).0

abbrev again : NodeRegistry
again = (register one "u2" "mac" caps 9).0

again-Reach : Reach again
again-Reach = next (next here (registers "u1" "mac" caps 5)) (registers "u2" "mac" caps 9)

Reach-Named_example : Named again
Reach-Named_example = Reach-Named again again-Reach

get_node-remove_stale_nodes_example : get_node (remove_stale_nodes again 10 30) "u2" ≡ none
unfolding register get_node old_ids remove_each HashMap.get HashMap.insert HashMap.remove
get_node-remove_stale_nodes_example = get_node-remove_stale_nodes again 10 30 "u2" again-Reach
