-- ===== src/Inference/Disconnects.antt =====
-- ws_handler.rs and http_api.rs: a node's connection ends while requests are on their way.
use hyverk_distributed_llm.Common.{
  ℕ, ◌+◌, String, ◌≡◌, ap, ◌∙◌, Bool, not, List, ◌++◌, arith, count,
}
use hyverk_distributed_llm.Common.HashMap.{IsMap, retain}
use hyverk_distributed_llm.Serving.{load}
use hyverk_distributed_llm.Ws.{WsState, disconnect}
use hyverk_distributed_llm.Ws.Disconnected.{
  is_at, closed_for, disconnect-left, disconnect-outcomes, count-split,
}
use hyverk_distributed_llm.Ws.Guards.{guards, count-append}
use hyverk_distributed_llm.Inference.Runs.{disconnects, Reach, then_steps, load-guards}

-- In every run of the coordinator, with fewer than 2 ^ 32 requests at a time and with no request failed
-- between its insertion and the send of its first message, and where pending requests have distinct
-- ids: when a node's connection ends, just the requests fail that have come to a step of that node,
-- and all others are left as they are. The handler of each that fails is told by a closed channel,
-- once and in their order, and nobody else is told anything; each that fails gives back its guard,
-- and no other does.
pub disconnect-fails :
    (s : WsState) (hs : List ℕ) (i : String) (available : Bool) (now c : ℕ)
    → Reach s hs
    → IsMap s.pending_forwards
    → let t = disconnect s i available now in
      let failed = retain (is_at i) s.pending_forwards in
      (t.pending_forwards ≡ retain (λ p. not (is_at i p)) s.pending_forwards)
      × (t.outcomes ≡ s.outcomes ++ closed_for failed)
      × (load t.cluster_mgr.counters c + count c (guards failed) ≡ load s.cluster_mgr.counters c)
disconnect-fails s hs i available now c reached h =
    let t = disconnect s i available now in
    let m = s.pending_forwards in
    let left = disconnect-left s i available now h in
    let kept = retain (λ p. not (is_at i p)) m in
    let before = load-guards s hs c reached ∙ count-append c hs (guards m) in
    let behind =
      load-guards t hs c (then_steps reached (disconnects i available now))
      ∙ ap (λ x. count c (hs ++ guards x)) left
      ∙ count-append c hs (guards kept) in
    (
      left,
      disconnect-outcomes s i available now h,
      omega (arith, before, behind, count-split c (is_at i) m),
    )
