-- ===== src/NodeStats/Uptime.antt =====
-- node_stats.rs: a node's uptime against the time it has been observed.
use hyverk_distributed_llm.Common.{ℕ, ◌+◌, ◌*◌, ◌≤◌, ◌<◌, String, Bool, true, false, arith}
use hyverk_distributed_llm.NodeStats.{
  NodeStats, u64_mod, nanos_per_sec, new_stats, current_session_secs, record_disconnect,
  record_reconnect, record_hop_latency,
}

-- A node's calls up to an instant, in which connects and disconnects take turns; `true` is a node
-- that is connected.
pub data Session (average : ℕ → ℕ → ℕ) : Bool → NodeStats → ℕ → Type 0 where
  opens : (node_name : String) (now : ℕ) → Session average true (new_stats node_name now) now
  closes :
      (s : NodeStats) (t now : ℕ)
      → Session average true s t
      → t ≤ now
      → now < u64_mod
      → Session average false (record_disconnect now s) now
  reopens :
      (s : NodeStats) (t now : ℕ)
      → Session average false s t
      → t ≤ now
      → Session average true (record_reconnect now s) now
  hops :
      (b : Bool) (s : NodeStats) (t now latency_ms : ℕ) (success : Bool)
      → Session average b s t
      → t ≤ now
      → Session average b (record_hop_latency average latency_ms success s) now

-- The sessions that have ended fit between the first instant and the last connect, or the last call.
abbrev Fits : Bool → NodeStats → ℕ → Type 0
Fits true s t =
    (s.total_uptime_secs * nanos_per_sec + s.first_seen ≤ s.connected_at)
    × (s.connected_at ≤ t)
    × (s.total_uptime_secs ≤ s.total_observed_secs)
Fits false s t =
    (s.total_uptime_secs * nanos_per_sec + s.first_seen ≤ t)
    × (s.total_uptime_secs ≤ s.total_observed_secs)

Session-Fits :
    (average : ℕ → ℕ → ℕ) (b : Bool) (s : NodeStats) (t : ℕ) → Session average b s t → Fits b s t
unfolding new_stats record_disconnect record_reconnect record_hop_latency current_session_secs
Session-Fits average b s t (opens n now) = (omega arith, omega arith, omega arith)
Session-Fits average b s t (closes s₀ t₀ now k l m) =
    let (p, q, r) = Session-Fits average true s₀ t₀ k in (omega arith, omega arith)
Session-Fits average b s t (reopens s₀ t₀ now k l) =
    let (p, q) = Session-Fits average false s₀ t₀ k in (omega arith, omega arith, omega arith)
Session-Fits average b s t (hops true s₀ t₀ now x true k l) =
    let (p, q, r) = Session-Fits average true s₀ t₀ k in (p, omega arith, r)
Session-Fits average b s t (hops true s₀ t₀ now x false k l) =
    let (p, q, r) = Session-Fits average true s₀ t₀ k in (p, omega arith, r)
Session-Fits average b s t (hops false s₀ t₀ now x true k l) =
    let (p, q) = Session-Fits average false s₀ t₀ k in (omega arith, q)
Session-Fits average b s t (hops false s₀ t₀ now x false k l) =
    let (p, q) = Session-Fits average false s₀ t₀ k in (omega arith, q)

-- If connects and disconnects take turns, at instants that do not go back and, for disconnects, are
-- below 2 ^ 64 nanoseconds, a node's recorded uptime in seconds is never more than the recorded time
-- for which it has been observed.
pub uptime-le :
    (average : ℕ → ℕ → ℕ) (b : Bool) (s : NodeStats) (t : ℕ)
    → Session average b s t
    → s.total_uptime_secs ≤ s.total_observed_secs
uptime-le average true s t k = (Session-Fits average true s t k).2
uptime-le average false s t k = (Session-Fits average false s t k).1
