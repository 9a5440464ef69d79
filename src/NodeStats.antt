-- ===== src/NodeStats.antt =====
-- server/coordinator/src/node_stats.rs: what is recorded of each node's connections and hops.
-- Instants are nanoseconds from the earliest one that the clock can represent, and `now` is the
-- clock's value at the call. An `f64` is carried as its bit pattern.
pub mod History
pub mod Uptime
mod Examples
use hyverk_distributed_llm.Common.{
  ℕ, ◌+◌, ◌-◌, ◌*◌, ◌/◌, ◌%◌, ◌^◌, String, Bool, true, false, Option, none, some, List, [], ◌∷◌,
  ◌++◌, if◌then◌else◌, ltb, leb, is_some, filter, length,
}
use hyverk_distributed_llm.Common.HashMap
use hyverk_distributed_llm.Common.HashMap.{HashMap}

abbrev pub nanos_per_sec : ℕ
nanos_per_sec = 1000000000

abbrev pub u64_mod : ℕ
u64_mod = 2 ^ 64

-- DISCONNECT_PENALTY_WINDOW_SECS
abbrev pub penalty_window_secs : ℕ
penalty_window_secs = 86400

abbrev pub window : ℕ
window = penalty_window_secs * nanos_per_sec

pub record NodeStats : Type 0 where
  pub node_name : String
  pub first_seen : ℕ
  pub connected_at : ℕ
  pub total_uptime_secs : ℕ
  pub total_observed_secs : ℕ
  pub disconnect_events : List ℕ
  pub avg_latency_ms : ℕ
  pub hops_ok : ℕ
  pub hops_failed : ℕ

pub new_stats : String → ℕ → NodeStats
new_stats node_name now = record {
  node_name = node_name;
  first_seen = now;
  connected_at = now;
  total_uptime_secs = 0;
  total_observed_secs = 0;
  disconnect_events = [];
  avg_latency_ms = 0;
  hops_ok = 0;
  hops_failed = 0;
}

-- `at.elapsed().as_secs()`
abbrev pub elapsed_secs : ℕ → ℕ → ℕ
elapsed_secs at now = (now - at) / nanos_per_sec

pub current_session_secs : NodeStats → ℕ → ℕ
current_session_secs s now = elapsed_secs s.connected_at now

-- `now.checked_sub(d).unwrap_or(now)`
pub cutoff : ℕ → ℕ → ℕ
cutoff now d = if leb d now then now - d else now

abbrev pub is_after : ℕ → ℕ → Bool
is_after cut t = ltb cut t

pub disconnect_count_24h : NodeStats → ℕ → ℕ
disconnect_count_24h s now = length (filter (is_after (cutoff now window)) s.disconnect_events)

pub record_disconnect : ℕ → NodeStats → NodeStats
record_disconnect now s = record s {
  total_uptime_secs = (s.total_uptime_secs + current_session_secs s now) % u64_mod;
  total_observed_secs = elapsed_secs s.first_seen now;
  disconnect_events = filter (is_after (cutoff now (window * 2))) (s.disconnect_events ++ now ∷ []);
}

pub record_reconnect : ℕ → NodeStats → NodeStats
record_reconnect now s = record s {
  connected_at = now;
  total_observed_secs = elapsed_secs s.first_seen now;
}

-- `average` is the arithmetic of the moving average, 0.1 times its first argument and 0.9 times its
-- second, and the test for an average of zero.
pub record_hop_latency : (ℕ → ℕ → ℕ) → ℕ → Bool → NodeStats → NodeStats
record_hop_latency average latency_ms success s =
    let s' = record s { avg_latency_ms = average latency_ms s.avg_latency_ms } in
    if success
    then record s' { hops_ok = (s.hops_ok + 1) % u64_mod }
    else record s' { hops_failed = (s.hops_failed + 1) % u64_mod }

abbrev pub NodeStatsRegistry : Type 0
NodeStatsRegistry = HashMap NodeStats

pub new : NodeStatsRegistry
new = []

pub on_connect : NodeStatsRegistry → String → ℕ → NodeStatsRegistry
on_connect m node_name now =
    if is_some (HashMap.get node_name m)
    then HashMap.modify node_name (record_reconnect now) m
    else HashMap.insert node_name (new_stats node_name now) m

pub on_disconnect : NodeStatsRegistry → String → ℕ → NodeStatsRegistry
on_disconnect m node_name now = HashMap.modify node_name (record_disconnect now) m

pub record_hop : (ℕ → ℕ → ℕ) → NodeStatsRegistry → String → ℕ → Bool → NodeStatsRegistry
record_hop average m node_name latency_ms success =
    HashMap.modify node_name (record_hop_latency average latency_ms success) m
