-- ===== src/Serving/Examples.antt =====
-- serving_clusters.rs: the theorems at concrete inputs, and runs of the code.
use hyverk_distributed_llm.Common.{
  ℕ, ◌+◌, String, true, ◌≡◌, refl, none, some, List, [], ◌∷◌, map, arith, all, any, update_first,
  contains, distinct, count,
}
use hyverk_distributed_llm.Common.HashMap
use hyverk_distributed_llm.Common.Ranges.{Tiles}
use hyverk_distributed_llm.Serving.Plan.{
  total_layers, make_slots, new_slots, collect_held, current_assignments, skips, settle, assignment,
}
use hyverk_distributed_llm.Serving.Plan.Tiles.{assigned_range}
use hyverk_distributed_llm.Serving.Plan.Skips.{serves}
use hyverk_distributed_llm.Serving.Rebalancing.{rebalance-Tiles, rebalance-serves}
use hyverk_distributed_llm.Serving.Promotion.{TakesOver, ready_each}
use hyverk_distributed_llm.Serving.Takeover.{built, rebalance-ready_each}
use hyverk_distributed_llm.Serving.InFlight.{
  Session, rebalances, reports_ready, starts, Reach, here, next,
}
use hyverk_distributed_llm.Serving.InFlight.Ledger.{load-count, request_end_exact}
use hyverk_distributed_llm.Serving.Phases.{Phased, Reach-Phased}
use hyverk_distributed_llm.Serving.{
  ClusterManager, Generation, in_cluster, reinitializing, active, forming, load, new, fetch_add,
  rebalance, install, replace_active, retire_or_drain, all_ready, node_ready, ready_in_pending,
  has_node, set_state, is_operational, request_start, request_end,
}

abbrev three : List (String × String)
three = ("a", "x") ∷ ("b", "y") ∷ ("c", "z") ∷ []

-- The test `rebalance_three_nodes_even_split` of the source.
three_ranges : map assigned_range (rebalance new three).1 ≡ (0, 10) ∷ (10, 19) ∷ (19, 28) ∷ []
unfolding rebalance new new_slots make_slots assignment
three_ranges = refl

rebalance-Tiles_example : Tiles 0 (map assigned_range (rebalance new three).1) total_layers
rebalance-Tiles_example = (rebalance-Tiles new ("a", "x") (("b", "y") ∷ ("c", "z") ∷ [])).0

rebalance-ready_each_example :
    TakesOver
      (ready_each (rebalance new three).0 (map (λ a. a.node_id) (rebalance new three).1))
      (built new three)
    × (is_operational
          (ready_each (rebalance new three).0 (map (λ a. a.node_id) (rebalance new three).1))
        ≡ true)
unfolding distinct contains
rebalance-ready_each_example =
    rebalance-ready_each new ("a", "x") (("b", "y") ∷ ("c", "z") ∷ []) refl

-- One node that serves all layers, with the counter at address 0.
abbrev whole : Generation
whole = record {
  gen = 1;
  slots =
      record {
        node_id = "a";
        node_name = "x";
        layer_start = 0;
        layer_end = 28;
        infra_state = in_cluster;
      }
      ∷ [];
  in_flight = 0;
  state = active;
}

abbrev serving : ClusterManager
serving = record {
  next_gen = 2;
  active_gen = some whole;
  pending_gen = none;
  draining_gen = none;
  counters = 0 ∷ [];
}

rebalance-serves_example :
    map (λ a. a.skip_download) (rebalance serving (("a", "x") ∷ [])).1
    ≡ map (serves whole.slots) (new_slots (("a", "x") ∷ []))
unfolding distinct contains
rebalance-serves_example = rebalance-serves serving whole ("a", "x") [] refl refl

-- A second generation forms while the first one serves.
abbrev halves : Generation
halves = record {
  gen = 2;
  slots =
      record {
        node_id = "a";
        node_name = "x";
        layer_start = 0;
        layer_end = 14;
        infra_state = in_cluster;
      }
      ∷ record {
        node_id = "b";
        node_name = "y";
        layer_start = 14;
        layer_end = 28;
        infra_state = reinitializing;
      }
      ∷ [];
  in_flight = 1;
  state = forming;
}

abbrev changing : ClusterManager
changing = record serving { pending_gen = some halves; counters = 3 ∷ 0 ∷ []; next_gen = 3 }

-- A session in which a node joins and one request starts; then a second node joins.
abbrev one : List (String × String)
one = ("a", "x") ∷ []

abbrev joined : Session
joined = record { manager = (rebalance new one).0; guards = [] }

abbrev served : Session
served = record { manager = (node_ready joined.manager "a").0; guards = [] }

abbrev busy : Session
busy = record { manager = (request_start served.manager).0; guards = 0 ∷ [] }

abbrev two : List (String × String)
two = ("a", "x") ∷ ("b", "y") ∷ []

abbrev growing : Session
growing = record { manager = (rebalance busy.manager two).0; guards = 0 ∷ [] }

abbrev moved_a : Session
moved_a = record { manager = (node_ready growing.manager "a").0; guards = 0 ∷ [] }

abbrev moved : Session
moved = record { manager = (node_ready moved_a.manager "b").0; guards = 0 ∷ [] }

-- All that a run of the manager goes through.
unfoldable pub run : ℕ
unfolding rebalance new install new_slots make_slots settle skips current_assignments collect_held
    HashMap.get HashMap.insert all_ready all replace_active retire_or_drain node_ready
    ready_in_pending has_node any set_state update_first request_start fetch_add
run = 0

served-Reach : Reach served
served-Reach = next (next here (rebalances one)) (reports_ready "a")

busy-Reach : Reach busy
unfolding run
busy-Reach = next served-Reach (starts 0 refl (omega arith))

moved-Reach : Reach moved
moved-Reach = next (next (next busy-Reach (rebalances two)) (reports_ready "a")) (reports_ready "b")

load-count_example : load moved.manager.counters 0 ≡ count 0 moved.guards
load-count_example = load-count moved 0 moved-Reach

request_end_exact_example :
    1 + load (request_end moved.manager 0).counters 0 ≡ load moved.manager.counters 0
request_end_exact_example = request_end_exact moved 0 0 [] [] moved-Reach refl

Reach-Phased_example : Phased moved.manager
Reach-Phased_example = Reach-Phased moved moved-Reach
