-- ===== src/Ws/Disconnected.antt =====
-- ws_handler.rs, the cleanup of a connection that ends: which requests fail, and what is told of them.
use hyverk_distributed_llm.Common.{
  ℕ, zero, suc, ◌+◌, String, ◌≡◌, refl, ap, sym, ◌∙◌, Bool, true, false, not, none, some, List, [],
  ◌∷◌, ◌++◌, append-nil, append_assoc, arith, str_eq, eq_iff, eq_refl, contains, distinct, filter,
  drop, count, inl, inr, Option-cases,
}
use hyverk_distributed_llm.Common.HashMap
use hyverk_distributed_llm.Common.HashMap.{
  HashMap, IsMap, keys, retain, get-remove, get-absent, remove-IsMap, remove-none, without,
  without-absent,
}
use hyverk_distributed_llm.NodeStats.{on_disconnect}
use hyverk_distributed_llm.Serving.{rebalance}
use hyverk_distributed_llm.Ws.Failures.{fail-pending, disconnect-pending}
use hyverk_distributed_llm.Ws.Gpu.{ready_gpu_nodes}
use hyverk_distributed_llm.Ws.Guards.{guard_list, guards, count-append}
use hyverk_distributed_llm.Ws.{
  WsState, PendingForward, ChainStep, Outcome, Message, CoordinatorMessage, LayerAssignment,
  layer_assignment, closed_channel, send, send_to_node, send_assignments, trigger_rebalance,
  release_in_flight, drop_result_tx, fail_pending_request, step_at, waits_for, waiting_ids,
  fail_each, node_info, disconnect,
}

-- The step of the chain that the request has come to is the node's.
unfoldable pub is_at : String → PendingForward → Bool
is_at i p = elim (drop p.current_step p.chain) [ [] ↦ false | c ∷ cs ↦ str_eq c.node_id i ]

-- The channels of the requests, each closed without a result.
unfoldable pub closed_for : HashMap PendingForward → List (String × Outcome)
closed_for [] = []
closed_for ((r, p) ∷ m) = elim p.result_tx [
  | none ↦ closed_for m
  | some tx ↦ (tx, closed_channel) ∷ closed_for m
]

waits_for-is_at : (i : String) (p : PendingForward) → waits_for i p ≡ is_at i p
unfolding waits_for is_at step_at
waits_for-is_at i p = at p.chain p.current_step
  where
    at :
        (xs : List ChainStep) (n : ℕ)
        → elim (step_at xs n) [ none ↦ false | some c ↦ str_eq c.node_id i ]
          ≡ elim (drop n xs) [ [] ↦ false | c ∷ cs ↦ str_eq c.node_id i ]
    at [] zero = refl
    at [] (suc n) = refl
    at (c ∷ cs) zero = refl
    at (c ∷ cs) (suc n) = at cs n

waiting_ids-absent :
    (i k : String) (m : HashMap PendingForward)
    → contains (keys m) k ≡ false
    → contains (waiting_ids i m) k ≡ false
unfolding waiting_ids filter contains
waiting_ids-absent i k [] h = refl
waiting_ids-absent i k ((j, p) ∷ m) h = ground (arith, waiting_ids-absent i k m)

waiting_ids-distinct :
    (i : String) (m : HashMap PendingForward) → IsMap m → distinct (waiting_ids i m) ≡ true
unfolding waiting_ids filter distinct
waiting_ids-distinct i [] h = refl
waiting_ids-distinct i ((k, p) ∷ m) h =
    ground (arith, waiting_ids-distinct i m, waiting_ids-absent i k m)

without-waiting_ids :
    (i : String) (m : HashMap PendingForward)
    → IsMap m
    → without (waiting_ids i m) m ≡ retain (λ p. not (is_at i p)) m
unfolding waiting_ids filter retain distinct HashMap.remove
without-waiting_ids i [] h = refl
without-waiting_ids i ((k, p) ∷ m) h = ground (
  arith,
  eq_refl k,
  waits_for-is_at i p,
  without-waiting_ids i m,
  without-absent k p (waiting_ids i m) m,
  waiting_ids-absent i k m,
)

-- What is told for the ids of a list.
closed_one : String → HashMap PendingForward → List (String × Outcome)
closed_one k m = elim (HashMap.get k m) [
  | none ↦ []
  | some p ↦ elim p.result_tx [ none ↦ [] | some tx ↦ (tx, closed_channel) ∷ [] ]
]

closed_ids : List String → HashMap PendingForward → List (String × Outcome)
closed_ids [] m = []
closed_ids (k ∷ ks) m = closed_one k m ++ closed_ids ks m

release-outcomes :
    (s : WsState) (p : PendingForward) → (release_in_flight s p).outcomes ≡ s.outcomes
unfolding release_in_flight
release-outcomes s p = ground arith

fail-outcomes :
    (s : WsState) (k : String)
    → (fail_pending_request s k).outcomes ≡ s.outcomes ++ closed_one k s.pending_forwards
unfolding fail_pending_request drop_result_tx closed_one
fail-outcomes s k = elim (Option-cases (HashMap.get k s.pending_forwards)) [
  | inl e ↦ ground (arith, e, append-nil s.outcomes)
  | inr (p, e) ↦ ground (
    arith,
    e,
    append-nil s.outcomes,
    release-outcomes (record s { pending_forwards = HashMap.remove k s.pending_forwards }) p,
  )
]

closed_ids-remove :
    (k : String) (ks : List String) (m : HashMap PendingForward)
    → IsMap m
    → contains ks k ≡ false
    → closed_ids ks (HashMap.remove k m) ≡ closed_ids ks m
unfolding closed_ids closed_one contains
closed_ids-remove k [] m h n = refl
closed_ids-remove k (j ∷ ks) m h n =
    ground (arith, get-remove k j m h, eq_iff j k, eq_iff k j, closed_ids-remove k ks m h)

fail_each-outcomes :
    (s : WsState) (ks : List String)
    → IsMap s.pending_forwards
    → distinct ks ≡ true
    → (fail_each s ks).outcomes ≡ s.outcomes ++ closed_ids ks s.pending_forwards
unfolding fail_each closed_ids distinct
fail_each-outcomes s [] h d = sym (append-nil s.outcomes)
fail_each-outcomes s (k ∷ ks) h d =
    let m = s.pending_forwards in
    let s' = fail_pending_request s k in
    let now : s'.pending_forwards ≡ HashMap.remove k m = fail-pending s k in
    let map_now : IsMap s'.pending_forwards =
      ap (λ x. distinct (keys x)) now ∙ remove-IsMap k m h in
    fail_each-outcomes s' ks map_now (ground arith)
    ∙ ap (λ x. s'.outcomes ++ closed_ids ks x) now
    ∙ ap (λ x. s'.outcomes ++ x) (closed_ids-remove k ks m h (ground arith))
    ∙ ap (λ x. x ++ closed_ids ks m) (fail-outcomes s k)
    ∙ append_assoc s.outcomes (closed_one k m) (closed_ids ks m)

closed_ids-cons :
    (k : String) (p : PendingForward) (ks : List String) (m : HashMap PendingForward)
    → contains ks k ≡ false
    → closed_ids ks ((k, p) ∷ m) ≡ closed_ids ks m
unfolding closed_ids closed_one contains HashMap.get
closed_ids-cons k p [] m n = refl
closed_ids-cons k p (j ∷ ks) m n = ground (arith, eq_iff j k, eq_iff k j, closed_ids-cons k p ks m)

closed_ids-waiting :
    (i : String) (m : HashMap PendingForward)
    → IsMap m
    → closed_ids (waiting_ids i m) m ≡ closed_for (retain (is_at i) m)
unfolding waiting_ids filter closed_ids closed_one closed_for retain distinct HashMap.get
closed_ids-waiting i [] h = refl
closed_ids-waiting i ((k, p) ∷ m) h = ground (
  arith,
  eq_refl k,
  waits_for-is_at i p,
  closed_ids-waiting i m,
  closed_ids-cons k p (waiting_ids i m) m,
  waiting_ids-absent i k m,
)

send-outcomes : (s : WsState) (i : String) (m : Message) → (send s i m).0.outcomes ≡ s.outcomes
unfolding send
send-outcomes s i m = ground arith

send_to_node-outcomes :
    (s : WsState) (i : String) (m : CoordinatorMessage)
    → (send_to_node s i m).0.outcomes ≡ s.outcomes
unfolding send_to_node
send_to_node-outcomes s i m = send-outcomes s i _

send_assignments-outcomes :
    (s : WsState) (sent : List LayerAssignment) → (send_assignments s sent).outcomes ≡ s.outcomes
unfolding send_assignments
send_assignments-outcomes s [] = refl
send_assignments-outcomes s (a ∷ sent) =
    let msg = layer_assignment a.layer_start a.layer_end a.skip_download a.generation in
    send_assignments-outcomes (send_to_node s a.node_id msg).0 sent
    ∙ send_to_node-outcomes s a.node_id msg

trigger_rebalance-outcomes : (s : WsState) → (trigger_rebalance s).outcomes ≡ s.outcomes
unfolding trigger_rebalance
trigger_rebalance-outcomes s =
    let (mgr, sent) = rebalance s.cluster_mgr (ready_gpu_nodes s.nodes) in
    send_assignments-outcomes (record s { cluster_mgr = mgr }) sent

pub disconnect-left :
    (s : WsState) (i : String) (available : Bool) (now : ℕ)
    → IsMap s.pending_forwards
    → (disconnect s i available now).pending_forwards
      ≡ retain (λ p. not (is_at i p)) s.pending_forwards
disconnect-left s i available now h =
    disconnect-pending s i available now ∙ without-waiting_ids i s.pending_forwards h

pub disconnect-outcomes :
    (s : WsState) (i : String) (available : Bool) (now : ℕ)
    → IsMap s.pending_forwards
    → (disconnect s i available now).outcomes
      ≡ s.outcomes ++ closed_for (retain (is_at i) s.pending_forwards)
unfolding disconnect
disconnect-outcomes s i available now h =
    let m = s.pending_forwards in
    let (was_gpu, name) = node_info (HashMap.get i s.nodes) in
    let s₁ = record s { nodes = HashMap.remove i s.nodes } in
    let s₂ = fail_each s₁ (waiting_ids i m) in
    let s₃ = record s₂ { node_stats = on_disconnect s₂.node_stats name now } in
    let told : s₂.outcomes ≡ s.outcomes ++ closed_for (retain (is_at i) m) =
      fail_each-outcomes s₁ (waiting_ids i m) h (waiting_ids-distinct i m h)
      ∙ ap (◌++◌ (s.outcomes)) (closed_ids-waiting i m h) in
    ground (arith, told, trigger_rebalance-outcomes s₂, trigger_rebalance-outcomes s₃)

-- The guards of those that fail and of those that are left.
pub count-split :
    (c : ℕ) (f : PendingForward → Bool) (m : HashMap PendingForward)
    → count c (guards (retain (λ p. not (f p)) m)) + count c (guards (retain f m))
      ≡ count c (guards m)
unfolding retain count
count-split c f [] = refl
count-split c f ((k, p) ∷ m) =
    let g = guard_list p.in_flight_guard in
    ground (
      arith,
      count-split c f m,
      count-append c g (guards m),
      count-append c g (guards (retain f m)),
      count-append c g (guards (retain (λ p. not (f p)) m)),
    )
