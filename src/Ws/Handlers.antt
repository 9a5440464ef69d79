-- ===== src/Ws/Handlers.antt =====
-- ws_handler.rs: every handler keeps the account of the guards that requests hold.
use hyverk_distributed_llm.Common.{
  ℕ, ◌+◌, String, ◌≡◌, refl, sym, subst, ◌∙◌, Bool, not, ◌&&◌, ◌||◌, Option, none, some, List, [],
  ◌∷◌, ◌++◌, arith, if◌then◌else◌, if_both, str_eq, inl, inr, Option-cases, contains, ltb, leb,
  length, take, drop,
}
use hyverk_distributed_llm.Common.HashMap
use hyverk_distributed_llm.Common.Utf8.{from_utf8_lossy}
use hyverk_distributed_llm.Serving.{
  LayerAssignment, rebalance, node_ready, node_reinitializing, request_end,
}
use hyverk_distributed_llm.Ws.Guards.{
  guards, guard_list, guards-remove, guards-modify, Backed, Backed-Same, Backed-rebalance,
  Backed-ready, Backed-reinitializing, Backed-retire, Backed-end,
}
use hyverk_distributed_llm.NodeStats.{on_connect, on_disconnect}
use hyverk_distributed_llm.Ws.Gpu.{ready_gpu_nodes}
use hyverk_distributed_llm.Ws.{
  WsState, WsNode, PendingForward, ChainStep, Message, CoordinatorMessage, register, heartbeat,
  shard_complete, forward_result, token_generated, state_update, pong, Incoming, client, frame,
  ping_frame, layer_assignment, inference_end, inference_continue, pong_frame, send, send_to_node,
  send_binary_to_node, send_assignments, trigger_rebalance, release_in_flight, drop_result_tx,
  fail_pending_request, step_at, advance, forward_message, forward_payload, forward_to,
  route_forward_result, handle_binary_data, send_ends, broadcast_inference_end, push_token, rewind,
  send_result, finish_request, continue_request, handle_generated_token, insert_node, register_node,
  update_state, update_node_state, handle_client_message, waiting_ids, fail_each, node_info,
  disconnect, receive, run_retire,
}

-- The requests' guards, with those of the list `hs`, are what the cluster manager has counted.
abbrev pub Accounted : WsState → List ℕ → Type 0
Accounted s hs = Backed s.cluster_mgr (hs ++ guards s.pending_forwards)

-- The handler changes neither the cluster manager nor the requests.
abbrev pub Quiet : WsState → WsState → Type 0
Quiet s s' = (s'.cluster_mgr ≡ s.cluster_mgr) × (s'.pending_forwards ≡ s.pending_forwards)

pub Quiet-Accounted : (s s' : WsState) (hs : List ℕ) → Quiet s s' → Accounted s hs → Accounted s' hs
Quiet-Accounted s s' hs (e, f) a =
    subst (λ m. Backed m (hs ++ guards s'.pending_forwards)) (sym e)
      (subst (λ m. Backed s.cluster_mgr (hs ++ guards m)) (sym f) a)

Quiet-trans : (s t u : WsState) → Quiet s t → Quiet t u → Quiet s u
Quiet-trans s t u (a, b) (c, d) = (c ∙ a, d ∙ b)

Quiet-send : (s : WsState) (i : String) (m : Message) → Quiet s (send s i m).0
unfolding send
Quiet-send s i m = (ground arith, ground arith)

pub Quiet-send_to_node :
    (s : WsState) (i : String) (m : CoordinatorMessage) → Quiet s (send_to_node s i m).0
unfolding send_to_node
Quiet-send_to_node s i m = Quiet-send s i _

pub Quiet-send_binary :
    (s : WsState) (i : String) (bs : List ℕ) → Quiet s (send_binary_to_node s i bs).0
unfolding send_binary_to_node
Quiet-send_binary s i bs = Quiet-send s i _

pub Quiet-send_assignments :
    (s : WsState) (as_ : List LayerAssignment) → Quiet s (send_assignments s as_)
unfolding send_assignments
Quiet-send_assignments s [] = (refl, refl)
Quiet-send_assignments s (a ∷ as_) =
    let msg = layer_assignment a.layer_start a.layer_end a.skip_download a.generation in
    let s' = (send_to_node s a.node_id msg).0 in
    Quiet-trans s s' (send_assignments s' as_) (Quiet-send_to_node s a.node_id msg)
      (Quiet-send_assignments s' as_)

Quiet-send_ends :
    (s : WsState) (seen : List String) (steps : List ChainStep) (r : String)
    → Quiet s (send_ends s seen steps r)
unfolding send_ends
Quiet-send_ends s seen [] r = (refl, refl)
Quiet-send_ends s seen (c ∷ cs) r =
    let s' = (send_to_node s c.node_id (inference_end r)).0 in
    if_both (Quiet s) (contains seen c.node_id) (send_ends s seen cs r)
      (send_ends s' (c.node_id ∷ seen) cs r) (Quiet-send_ends s seen cs r)
      (Quiet-trans s s' (send_ends s' (c.node_id ∷ seen) cs r)
        (Quiet-send_to_node s c.node_id (inference_end r))
        (Quiet-send_ends s' (c.node_id ∷ seen) cs r))

pub Quiet-broadcast :
    (s : WsState) (steps : List ChainStep) (r : String)
    → Quiet s (broadcast_inference_end s steps r)
unfolding broadcast_inference_end
Quiet-broadcast s steps r = Quiet-send_ends s [] steps r

Quiet-drop_result_tx : (s : WsState) (p : PendingForward) → Quiet s (drop_result_tx s p)
unfolding drop_result_tx
Quiet-drop_result_tx s p = (ground arith, ground arith)

Quiet-send_result : (s : WsState) (p : PendingForward) → Quiet s (send_result s p)
unfolding send_result
Quiet-send_result s p = (ground arith, ground arith)

-- A request that leaves the map and gives its guard back.
release-Accounted :
    (s : WsState) (p : PendingForward) (hs : List ℕ)
    → Backed s.cluster_mgr (guard_list p.in_flight_guard ++ (hs ++ guards s.pending_forwards))
    → Accounted (release_in_flight s p) hs
unfolding release_in_flight
release-Accounted s p hs b = go p.in_flight_guard b
  where
    go :
        (o : Option ℕ)
        → Backed s.cluster_mgr (guard_list o ++ (hs ++ guards s.pending_forwards))
        → Accounted
            (elim o [
              | none ↦ s
              | some guard ↦ record s {
                cluster_mgr = request_end s.cluster_mgr guard;
                spawned = s.spawned + 1;
              }
            ])
            hs
    go none b = b
    go (some c) b = Backed-end s.cluster_mgr c _ b

pub release_removed-Accounted :
    (s : WsState) (r : String) (p : PendingForward) (hs : List ℕ)
    → HashMap.get r s.pending_forwards ≡ some p
    → Accounted s hs
    → Accounted
        (release_in_flight (record s { pending_forwards = HashMap.remove r s.pending_forwards }) p)
        hs
release_removed-Accounted s r p hs e a =
    release-Accounted (record s { pending_forwards = HashMap.remove r s.pending_forwards }) p hs
      (Backed-Same a _ (guards-remove r p hs s.pending_forwards e))

pub fail_pending_request-Accounted :
    (s : WsState) (r : String) (hs : List ℕ)
    → Accounted s hs
    → Accounted (fail_pending_request s r) hs
unfolding fail_pending_request
fail_pending_request-Accounted s r hs a = elim (Option-cases (HashMap.get r s.pending_forwards)) [
  | inl e ↦ rw (e, fail_pending_request) a
  | inr (p, e) ↦
      let s' =
        release_in_flight (record s { pending_forwards = HashMap.remove r s.pending_forwards }) p in
      rw (e, fail_pending_request)
        (Quiet-Accounted s' (drop_result_tx s' p) hs (Quiet-drop_result_tx s' p)
          (release_removed-Accounted s r p hs e a))
]

fail_each-Accounted :
    (s : WsState) (is : List String) (hs : List ℕ) → Accounted s hs → Accounted (fail_each s is) hs
unfolding fail_each
fail_each-Accounted s [] hs a = a
fail_each-Accounted s (i ∷ is) hs a =
    fail_each-Accounted (fail_pending_request s i) is hs (fail_pending_request-Accounted s i hs a)

trigger_rebalance-Accounted :
    (s : WsState) (hs : List ℕ) → Accounted s hs → Accounted (trigger_rebalance s) hs
unfolding trigger_rebalance
trigger_rebalance-Accounted s hs a =
    let (mgr, sent) = rebalance s.cluster_mgr (ready_gpu_nodes s.nodes) in
    let s' = record s { cluster_mgr = mgr } in
    Quiet-Accounted s' (send_assignments s' sent) hs (Quiet-send_assignments s' sent)
      (Backed-rebalance a (ready_gpu_nodes s.nodes))

modify-Accounted :
    (s : WsState) (r : String) (f : PendingForward → PendingForward) (hs : List ℕ)
    → ((p : PendingForward) → (f p).in_flight_guard ≡ p.in_flight_guard)
    → Accounted s hs
    → Accounted (record s { pending_forwards = HashMap.modify r f s.pending_forwards }) hs
modify-Accounted s r f hs same a =
    subst (λ gs. Backed s.cluster_mgr (hs ++ gs)) (sym (guards-modify r f s.pending_forwards same))
      a

forward_to-Accounted :
    (s : WsState) (r : String) (bs hs : List ℕ) (p : PendingForward) (c : ChainStep)
    → Accounted s hs
    → Accounted (forward_to s r bs p c) hs
unfolding forward_to
forward_to-Accounted s r bs hs p c a =
    let (s₁, told) = send_to_node s c.node_id (forward_message r p c) in
    let (s₂, sent) = send_binary_to_node s₁ c.node_id (forward_payload r bs) in
    let a₁ = Quiet-Accounted s s₁ hs (Quiet-send_to_node s c.node_id (forward_message r p c)) a in
    let a₂ = Quiet-Accounted s₁ s₂ hs (Quiet-send_binary s₁ c.node_id (forward_payload r bs)) a₁ in
    let failed = if not sent then fail_pending_request s₂ r else s₂ in
    if_both (λ t. Accounted t hs) (not told) (fail_pending_request s₁ r) failed
      (fail_pending_request-Accounted s₁ r hs a₁)
      (if_both (λ t. Accounted t hs) (not sent) (fail_pending_request s₂ r) s₂
        (fail_pending_request-Accounted s₂ r hs a₂) a₂)

route_forward_result-Accounted :
    (s : WsState) (r : String) (bs hs : List ℕ)
    → Accounted s hs
    → Accounted (route_forward_result s r bs) hs
unfolding route_forward_result advance
route_forward_result-Accounted s r bs hs a =
    elim (Option-cases (HashMap.get r s.pending_forwards)) [
      | inl e ↦ rw (e, route_forward_result) a
      | inr (p, e) ↦
          let s' = record s { pending_forwards = HashMap.modify r advance s.pending_forwards } in
          let a' = modify-Accounted s r advance hs (λ q. refl) a in
          elim (Option-cases (step_at (advance p).chain (advance p).current_step)) [
            | inl f ↦ rw (e, route_forward_result) (rw (f, route_forward_result) a')
            | inr (c, f) ↦
                rw (e, route_forward_result)
                  (rw (f, route_forward_result) (forward_to-Accounted s' r bs hs (advance p) c a'))
          ]
    ]

handle_binary_data-Accounted :
    (s : WsState) (bs hs : List ℕ) → Accounted s hs → Accounted (handle_binary_data s bs) hs
unfolding handle_binary_data
handle_binary_data-Accounted s bs hs a =
    let r = from_utf8_lossy (take 36 bs) in
    if_both (λ t. Accounted t hs) (ltb (length bs) 36) s (route_forward_result s r (drop 36 bs)) a
      (route_forward_result-Accounted s r (drop 36 bs) hs a)

finish_request-Accounted :
    (s : WsState) (r : String) (p q : PendingForward) (hs : List ℕ)
    → HashMap.get r s.pending_forwards ≡ some q
    → p.in_flight_guard ≡ q.in_flight_guard
    → Accounted s hs
    → Accounted (finish_request s r p) hs
unfolding finish_request
finish_request-Accounted s r p q hs e g a =
    let s₀ = record s { pending_forwards = HashMap.remove r s.pending_forwards } in
    let s₁ = release_in_flight s₀ p in
    let s₂ = send_result s₁ p in
    let freed =
      subst (λ o. Backed s.cluster_mgr (guard_list o ++ (hs ++ guards s₀.pending_forwards))) (sym g)
        (Backed-Same a _ (guards-remove r q hs s.pending_forwards e)) in
    Quiet-Accounted s₂ (broadcast_inference_end s₂ p.chain r) hs (Quiet-broadcast s₂ p.chain r)
      (Quiet-Accounted s₁ s₂ hs (Quiet-send_result s₁ p) (release-Accounted s₀ p hs freed))

continue_request-Accounted :
    (s : WsState) (r : String) (token_id : ℕ) (p : PendingForward) (hs : List ℕ)
    → Accounted s hs
    → Accounted (continue_request s r token_id p) hs
unfolding continue_request
continue_request-Accounted s r token_id p hs a = go p.chain
  where
    go :
        (chain : List ChainStep)
        → Accounted
            (elim chain [
              | [] ↦ s
              | first ∷ steps ↦
                  let (s', sent) = send_to_node s first.node_id (
                    inference_continue r token_id first.layer_start first.layer_end p.max_tokens
                      p.temperature p.top_p p.top_k) in
                  if sent then s' else fail_pending_request s' r
            ])
            hs
    go [] = a
    go (c ∷ cs) =
        let msg =
          inference_continue r token_id c.layer_start c.layer_end p.max_tokens p.temperature p.top_p
            p.top_k in
        let (s', sent) = send_to_node s c.node_id msg in
        let a' = Quiet-Accounted s s' hs (Quiet-send_to_node s c.node_id msg) a in
        if_both (λ t. Accounted t hs) sent s' (fail_pending_request s' r) a'
          (fail_pending_request-Accounted s' r hs a')

handle_generated_token-Accounted :
    (s : WsState) (r : String) (token_id : ℕ) (is_eos : Bool) (hs : List ℕ)
    → Accounted s hs
    → Accounted (handle_generated_token s r token_id is_eos) hs
unfolding handle_generated_token push_token rewind
handle_generated_token-Accounted s r token_id is_eos hs a =
    elim (Option-cases (HashMap.get r s.pending_forwards)) [
      | inl e ↦ rw (e, handle_generated_token) a
      | inr (q, e) ↦
          let p = push_token token_id q in
          let turn = λ (x : PendingForward). rewind (push_token token_id x) in
          let s' = record s { pending_forwards = HashMap.modify r turn s.pending_forwards } in
          rw (e, handle_generated_token)
            (if_both (λ t. Accounted t hs) (is_eos || leb p.max_tokens (length p.generated))
              (finish_request s r p) (continue_request s' r token_id p)
              (finish_request-Accounted s r p q hs e refl a)
              (continue_request-Accounted s' r token_id p hs
                (modify-Accounted s r turn hs (λ x. refl) a)))
    ]

register_node-Accounted :
    (s : WsState) (n : WsNode) (available : Bool) (now : ℕ) (hs : List ℕ)
    → Accounted s hs
    → Accounted (register_node s n available now) hs
unfolding register_node
register_node-Accounted s n available now hs a =
    let s' = record s {
      nodes = insert_node n s.nodes;
      node_stats = on_connect s.node_stats n.node_name now;
    } in
    if_both (λ t. Accounted t hs) (n.has_gpu && available) (trigger_rebalance s') s'
      (trigger_rebalance-Accounted s' hs a) a

update_node_state-Accounted :
    (s : WsState) (i state detail : String) (hs : List ℕ)
    → Accounted s hs
    → Accounted (update_node_state s i state detail) hs
unfolding update_node_state
update_node_state-Accounted s i state detail hs a =
    let s' = record s { nodes = HashMap.modify i (update_state state detail) s.nodes } in
    let again = record s' { cluster_mgr = node_reinitializing s.cluster_mgr i } in
    if_both (λ t. Accounted t hs) (str_eq state "ready")
      (record s' { cluster_mgr = (node_ready s.cluster_mgr i).0 })
      (if str_eq state "reinitializing" then again else s') (Backed-ready a i)
      (if_both (λ t. Accounted t hs) (str_eq state "reinitializing") again s'
        (Backed-reinitializing a i) a)

pub receive-Accounted :
    (s : WsState) (i : String) (m : Incoming) (available : Bool) (now : ℕ) (hs : List ℕ)
    → Accounted s hs
    → Accounted (receive s i m available now) hs
unfolding receive handle_client_message
receive-Accounted s i (client (register n h ms ram gpu range v os)) available now hs a =
    register_node-Accounted s _ available now hs a
receive-Accounted s i (client (state_update st detail)) available now hs a =
    update_node_state-Accounted s i st detail hs a
receive-Accounted s i (client (heartbeat n role mem)) available now hs a = a
receive-Accounted s i (client (forward_result r xs ys)) available now hs a = a
receive-Accounted s i (client (token_generated r t eos)) available now hs a =
    handle_generated_token-Accounted s r t eos hs a
receive-Accounted s i (client pong) available now hs a = a
receive-Accounted s i (client (shard_complete j l n xs)) available now hs a = a
receive-Accounted s i (frame bs) available now hs a = handle_binary_data-Accounted s bs hs a
receive-Accounted s i (ping_frame bs) available now hs a =
    if_both (λ t. Accounted t hs) (contains s.closed i) s
      (record s { sent = s.sent ++ (i, pong_frame bs) ∷ [] }) a a

pub disconnect-Accounted :
    (s : WsState) (i : String) (available : Bool) (now : ℕ) (hs : List ℕ)
    → Accounted s hs
    → Accounted (disconnect s i available now) hs
unfolding disconnect
disconnect-Accounted s i available now hs a =
    let (was_gpu, name) = node_info (HashMap.get i s.nodes) in
    let s₁ = record s { nodes = HashMap.remove i s.nodes } in
    let s₂ = fail_each s₁ (waiting_ids i s₁.pending_forwards) in
    let s₃ =
      if str_eq name ""
      then s₂
      else record s₂ { node_stats = on_disconnect s₂.node_stats name now } in
    let a₂ = fail_each-Accounted s₁ (waiting_ids i s₁.pending_forwards) hs a in
    let a₃ : Accounted s₃ hs =
      if_both (λ t. Accounted t hs) (str_eq name "") s₂
        (record s₂ { node_stats = on_disconnect s₂.node_stats name now }) a₂ a₂ in
    if_both (λ t. Accounted t hs) (was_gpu && available) (trigger_rebalance s₃) s₃
      (trigger_rebalance-Accounted s₃ hs a₃) a₃

pub run_retire-Accounted :
    (s : WsState) (hs : List ℕ) → Accounted s hs → Accounted (run_retire s) hs
unfolding run_retire
run_retire-Accounted s hs a = Backed-retire a
