-- ===== src/Serving.antt =====
-- server/coordinator/src/serving_clusters.rs: the cluster generation manager. Each method runs
-- under the manager's lock, so it is one function on the state; the `Arc<AtomicU32>` counters,
-- which a request shares with a generation, are cells of an explicit store.
mod Types
pub mod Plan
pub mod Routing
pub mod Rebalancing
pub mod Promotion
pub mod Takeover
pub mod InFlight
pub mod Phases
pub mod Examples
use mathlib.Core.Option
pub use Types.*
use hyverk_distributed_llm.Common.{
  ℕ, suc, ◌+◌, ◌-◌, ◌/◌, ◌%◌, ◌^◌, max, String, Bool, true, false, not, ◌&&◌, ◌||◌, Option, none,
  some, List, [], ◌∷◌, ◌++◌, map, if◌then◌else◌, ltb, leb, ◌==◌, is_some, str_eq, length, get_or,
  set, all, any, filter, update_first,
}
use Plan.{new_slots, current_assignments, settle, assignment}
use Routing.{serving_slots, slots_operational}

abbrev pub u32_mod : ℕ
u32_mod = 2 ^ 32

abbrev pub u64_mod : ℕ
u64_mod = 2 ^ 64

pub new : ClusterManager
new = record {
  next_gen = 1;
  active_gen = none;
  pending_gen = none;
  draining_gen = none;
  counters = [];
}

-- The atomic counters: `AtomicU32::new`, `load` and `store`.
abbrev pub load : List ℕ → ℕ → ℕ
load counters c = get_or counters c 0

-- `fetch_add(1)` and `fetch_sub(1)` wrap around.
unfoldable pub fetch_add : List ℕ → ℕ → List ℕ
fetch_add counters c = set counters c ((load counters c + 1) % u32_mod)

unfoldable pub fetch_sub : List ℕ → ℕ → List ℕ
fetch_sub counters c = set counters c ((load counters c + u32_mod - 1) % u32_mod)

pub all_ready : List NodeSlot → Bool
unfolding all
all_ready = all (λ s. is_in_cluster s.infra_state)

retire_or_drain : List ℕ → Option Generation → Generation → Option Generation
retire_or_drain counters draining_slot old =
    if load counters old.in_flight == 0
    then draining_slot
    else some (record old { state = draining })

-- `if let Some(old) = inner.active.replace(new_gen) { retire_or_drain(…) }`
pub replace_active : ClusterManager → Generation → ClusterManager
unfolding retire_or_drain
replace_active m new_gen = elim m.active_gen [
  | none ↦ record m { active_gen = some new_gen }
  | some old ↦ record m {
    active_gen = some new_gen;
    draining_gen = retire_or_drain m.counters m.draining_gen old;
  }
]

-- `rebalance` with no GPU node left.
clear_active : ClusterManager → ClusterManager
clear_active m = elim m.active_gen [
  | none ↦ record m { pending_gen = none }
  | some old ↦
      if load m.counters old.in_flight == 0
      then record m { active_gen = none; pending_gen = none }
      else record m {
        active_gen = none;
        pending_gen = none;
        draining_gen = some (record old { state = draining });
      }
]

-- What becomes of the new slots: an active generation, or a pending one. Both get a new counter.
pub install : ClusterManager → ℕ → List NodeSlot → ClusterManager
install m gen slots =
    let c = length m.counters in
    let m' = record m { counters = m.counters ++ 0 ∷ [] } in
    let promoted =
      record (replace_active m'
        (record { gen = gen; slots = slots; in_flight = c; state = active })) {
          pending_gen = none;
        } in
    let scheduled = record m' {
      pending_gen = some (record { gen = gen; slots = slots; in_flight = c; state = forming });
    } in
    if all_ready slots then promoted else scheduled

pub rebalance : ClusterManager → List (String × String) → ClusterManager × List LayerAssignment
rebalance m [] = (clear_active m, [])
rebalance m (n ∷ ns) =
    let slots = new_slots (n ∷ ns) in
    let current = current_assignments m.active_gen in
    (
      install (record m { next_gen = (m.next_gen + 1) % u64_mod }) m.next_gen
          (map (settle current) slots),
      map (assignment current m.next_gen) slots,
    )

has_node : String → List NodeSlot → Bool
unfolding any
has_node node_id = any (λ s. str_eq s.node_id node_id)

pub set_state : InfraState → String → List NodeSlot → List NodeSlot
unfolding update_first
set_state st node_id =
    update_first (λ s. str_eq s.node_id node_id) (λ s. record s { infra_state = st })

-- `node_ready` where the node has a slot in the pending generation `g`.
ready_in_pending : ClusterManager → Generation → String → ClusterManager × Bool
ready_in_pending m g node_id =
    let slots' = set_state in_cluster node_id g.slots in
    let g' = record g { slots = slots' } in
    let taken = record m { pending_gen = none } in
    if all_ready slots'
    then (replace_active taken (record g' { state = active }), true)
    else (record m { pending_gen = some g' }, false)

pub node_ready : ClusterManager → String → ClusterManager × Bool
node_ready m node_id = elim m.pending_gen [
  | none ↦ (m, false)
  | some g ↦ if has_node node_id g.slots then ready_in_pending m g node_id else (m, false)
]

unfoldable pub active_slots : ClusterManager → List ActiveSlot
active_slots m = elim m.active_gen [
  | none ↦ []
  | some g ↦ if is_active g.state then serving_slots g else []
]

-- The guard that a request gets is the address of the generation's counter.
unfoldable pub request_start : ClusterManager → ClusterManager × Option ℕ
request_start m = elim m.active_gen [
  | none ↦ (m, none)
  | some g ↦
      if is_active g.state
      then (record m { counters = fetch_add m.counters g.in_flight }, some g.in_flight)
      else (m, none)
]

pub request_end : ClusterManager → ℕ → ClusterManager
request_end m c =
    let counters' = fetch_sub m.counters c in
    if load m.counters c == 0
    then record m { counters = fetch_add counters' c }
    else record m { counters = counters' }

pub maybe_retire_draining : ClusterManager → ClusterManager
maybe_retire_draining m = elim m.draining_gen [
  | none ↦ m
  | some g ↦ if load m.counters g.in_flight == 0 then record m { draining_gen = none } else m
]

unfoldable pub is_operational : ClusterManager → Bool
is_operational m = slots_operational (active_slots m)

snapshot_gen : List ℕ → Generation → ClusterSnapshot
snapshot_gen counters g = record {
  generation = g.gen;
  state = g.state;
  in_flight = load counters g.in_flight;
  nodes = g.slots;
}

pub snapshot : ClusterManager → InfraSnapshot
unfolding snapshot_gen
snapshot m = record {
  active_snapshot = Option.map (snapshot_gen m.counters) m.active_gen;
  pending_snapshot = Option.map (snapshot_gen m.counters) m.pending_gen;
  draining_snapshot = Option.map (snapshot_gen m.counters) m.draining_gen;
}

reinitialize_active : ClusterManager → String → ClusterManager
reinitialize_active m node_id = elim m.active_gen [
  | none ↦ m
  | some g ↦ record m {
    active_gen = some (record g { slots = set_state reinitializing node_id g.slots });
  }
]

pub node_reinitializing : ClusterManager → String → ClusterManager
node_reinitializing m node_id = elim m.pending_gen [
  | none ↦ reinitialize_active m node_id
  | some g ↦
      if has_node node_id g.slots
      then record m {
        pending_gen = some (record g { slots = set_state reinitializing node_id g.slots });
      }
      else reinitialize_active m node_id
]
