-- ===== src/Registry.antt =====
-- server/coordinator/src/registry.rs: the nodes that are registered for polling. Instants are
-- nanoseconds on one clock, and a node's id is the UUID that the caller's random source gives.
pub mod Names
mod Examples
use hyverk_distributed_llm.Common.{
  ℕ, ◌-◌, String, Bool, true, false, Option, none, some, List, [], ◌∷◌, if◌then◌else◌, ltb, is_some,
  str_eq,
}
use hyverk_distributed_llm.Common.HashMap
use hyverk_distributed_llm.Common.HashMap.{HashMap}

-- The message of proto/hyverk.proto.
pub record NodeCapabilities : Type 0 where
  pub available_models : List String
  pub hardware_info : String
  pub max_concurrent_tasks : ℕ

pub record NodeInfo : Type 0 where
  pub node_id : String
  pub node_name : String
  pub capabilities : NodeCapabilities
  pub active_tasks : ℕ
  pub last_heartbeat : ℕ
  pub registered_at : ℕ

abbrev pub NodeRegistry : Type 0
NodeRegistry = HashMap NodeInfo

abbrev pub new : NodeRegistry
new = []

abbrev pub new_node : String → String → NodeCapabilities → ℕ → NodeInfo
new_node node_id node_name capabilities now = record {
  node_id = node_id;
  node_name = node_name;
  capabilities = capabilities;
  active_tasks = 0;
  last_heartbeat = now;
  registered_at = now;
}

-- The ids of the nodes of that name.
pub old_ids : String → NodeRegistry → List String
old_ids node_name [] = []
old_ids node_name ((i, n) ∷ nodes) =
    let rest = old_ids node_name nodes in if str_eq n.node_name node_name then i ∷ rest else rest

pub remove_each : List String → NodeRegistry → NodeRegistry
remove_each [] nodes = nodes
remove_each (i ∷ ids) nodes = remove_each ids (HashMap.remove i nodes)

pub register : NodeRegistry → String → String → NodeCapabilities → ℕ → NodeRegistry × String
register nodes node_id node_name capabilities now = (
  HashMap.insert node_id (new_node node_id node_name capabilities now)
      (remove_each (old_ids node_name nodes) nodes),
  node_id,
)

pub deregister : NodeRegistry → String → NodeRegistry
deregister nodes node_id = HashMap.remove node_id nodes

pub heartbeat : NodeRegistry → String → ℕ → ℕ → NodeRegistry × Bool
heartbeat nodes node_id active_tasks now =
    if is_some (HashMap.get node_id nodes)
    then (
      HashMap.modify node_id (λ n. record n { last_heartbeat = now; active_tasks = active_tasks })
          nodes,
      true,
    )
    else (nodes, false)

unfoldable pub get_node : NodeRegistry → String → Option NodeInfo
get_node nodes node_id = HashMap.get node_id nodes

pub list_nodes : NodeRegistry → List NodeInfo
list_nodes nodes = HashMap.values nodes

pub remove_stale_nodes : NodeRegistry → ℕ → ℕ → NodeRegistry
remove_stale_nodes nodes timeout now =
    HashMap.retain (λ n. ltb (now - n.last_heartbeat) timeout) nodes
