-- ===== src/Serving/Types.antt =====
-- serving_clusters.rs: the types of the cluster manager.
use hyverk_distributed_llm.Common.{ℕ, String, Bool, true, false, Option, List}

pub data InfraState : Type 0 where
  available in_cluster reinitializing : InfraState

-- `*st == InfraState::InCluster`
abbrev pub is_in_cluster : InfraState → Bool
is_in_cluster available = false
is_in_cluster in_cluster = true
is_in_cluster reinitializing = false

pub record NodeSlot : Type 0 where
  pub node_id : String
  pub node_name : String
  pub layer_start : ℕ
  pub layer_end : ℕ
  pub infra_state : InfraState

-- A layer assignment for one hop in an active generation.
pub record ActiveSlot : Type 0 where
  pub node_id : String
  pub node_name : String
  pub layer_start : ℕ
  pub layer_end : ℕ
  pub generation : ℕ

pub data GenState : Type 0 where
  forming active draining : GenState

abbrev pub is_active : GenState → Bool
is_active forming = false
is_active active = true
is_active draining = false

-- `in_flight` is the address of the generation's counter in the store `counters`.
pub record Generation : Type 0 where
  pub gen : ℕ
  pub slots : List NodeSlot
  pub in_flight : ℕ
  pub state : GenState

-- `Inner`, with the store of the atomic counters that generations and requests share.
pub record ClusterManager : Type 0 where
  pub next_gen : ℕ
  pub active_gen : Option Generation
  pub pending_gen : Option Generation
  pub draining_gen : Option Generation
  pub counters : List ℕ

-- One element of the vector that `rebalance` returns.
pub record LayerAssignment : Type 0 where
  pub node_id : String
  pub layer_start : ℕ
  pub layer_end : ℕ
  pub skip_download : Bool
  pub generation : ℕ

-- A value of the map `current_assignments`.
pub record Held : Type 0 where
  pub layer_start : ℕ
  pub layer_end : ℕ
  pub infra_state : InfraState

pub record ClusterSnapshot : Type 0 where
  pub generation : ℕ
  pub state : GenState
  pub in_flight : ℕ
  pub nodes : List NodeSlot

pub record InfraSnapshot : Type 0 where
  pub active_snapshot : Option ClusterSnapshot
  pub pending_snapshot : Option ClusterSnapshot
  pub draining_snapshot : Option ClusterSnapshot
