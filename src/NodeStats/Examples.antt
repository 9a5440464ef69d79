-- ===== src/NodeStats/Examples.antt =====
-- node_stats.rs: the theorems at concrete inputs.
use hyverk_distributed_llm.Common.{ℕ, String, ◌≡◌, ◌*◌, ◌-◌, ◌+◌, refl, arith, List, []}
use hyverk_distributed_llm.Common.HashMap
use hyverk_distributed_llm.NodeStats.{
  NodeStats, NodeStatsRegistry, window, new, new_stats, on_connect, on_disconnect,
  record_disconnect, disconnect_count_24h,
}
use hyverk_distributed_llm.NodeStats.History.{
  Run, starts, connects, disconnects, add_event, count_after, disconnect_count_24h_exact,
}

abbrev average : ℕ → ℕ → ℕ
average new_value old_value = new_value

abbrev start : ℕ
start = window * 3

abbrev registry : NodeStatsRegistry
registry = on_disconnect (on_connect new "n" start) "n" (start + 5)

abbrev history : String → List ℕ
history = add_event (λ k. []) (on_connect new "n" start) "n" (start + 5)

registry-Run : Run average registry history (start + 5)
registry-Run =
    disconnects _ _ start (start + 5) "n"
      (connects _ _ start start "n" (starts start (omega arith)) (omega arith)) (omega arith)

abbrev stats : NodeStats
stats = record_disconnect (start + 5) (new_stats "n" start)

disconnect_count_24h_exact_example :
    disconnect_count_24h stats (start + 9) ≡ count_after (start + 9 - window) (history "n")
unfolding on_connect on_disconnect new HashMap.get HashMap.insert HashMap.modify
disconnect_count_24h_exact_example =
    disconnect_count_24h_exact average registry history (start + 5) (start + 9) "n" stats
      registry-Run (omega arith) refl
