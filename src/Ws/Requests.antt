-- ===== src/Ws/Requests.antt =====
-- ws_handler.rs: what holds of every pending request, whatever the handlers do.
use hyverk_distributed_llm.Common.{
  ℕ, ◌<◌, max, String, ◌≡◌, ◌≢◌, sym, subst, Bool, true, false, not, ◌&&◌, ◌||◌, some, List, [],
  ◌∷◌, ◌++◌, arith, if◌then◌else◌, if_both, str_eq, inl, inr, Bool-cases, Option-cases, contains,
  ltb, leb, length, take, drop, All, is_some,
}
use hyverk_distributed_llm.Common.HashMap
use hyverk_distributed_llm.Common.HashMap.{HashMap}
use hyverk_distributed_llm.Common.Utf8.{from_utf8_lossy}
use hyverk_distributed_llm.Serving.{rebalance}
use hyverk_distributed_llm.NodeStats.{on_connect, on_disconnect}
use hyverk_distributed_llm.Ws.Gpu.{ready_gpu_nodes}
use hyverk_distributed_llm.Ws.Handlers.{
  Quiet, Quiet-send_to_node, Quiet-send_binary, Quiet-send_assignments, Quiet-broadcast,
}
use hyverk_distributed_llm.Ws.{
  WsState, WsNode, PendingForward, ChainStep, register, heartbeat, shard_complete, forward_result,
  token_generated, state_update, pong, Incoming, client, frame, ping_frame, pong_frame,
  inference_continue, send_to_node, send_binary_to_node, send_assignments, trigger_rebalance,
  release_in_flight, drop_result_tx, fail_pending_request, step_at, advance, forward_message,
  forward_payload, forward_to, route_forward_result, handle_binary_data, broadcast_inference_end,
  push_token, rewind, send_result, finish_request, continue_request, handle_generated_token,
  insert_node, register_node, update_node_state, handle_client_message, waiting_ids, fail_each,
  node_info, disconnect, receive,
}

-- A request that can go on: it has a first node, its guard and the sender of its result, and it has
-- not all its tokens. A limit of 0 tokens is one of 1 token, since the test comes after the token.
pub record IsLive (p : PendingForward) : Type 0 where
  pub has_first : p.chain ≢ []
  pub has_guard : is_some p.in_flight_guard ≡ true
  pub has_sender : is_some p.result_tx ≡ true
  pub unfinished : length p.generated < max p.max_tokens 1

abbrev pub AllLive : HashMap PendingForward → Type 0
AllLive = All (λ e. IsLive e.1)

AllLive-remove :
    (k : String) (m : HashMap PendingForward) → AllLive m → AllLive (HashMap.remove k m)
unfolding HashMap.remove
AllLive-remove k [] h = tt
AllLive-remove k ((j, p) ∷ m) h = elim (Bool-cases (str_eq j k)) [
  | inl e ↦ rw e h.1
  | inr e ↦ rw e (h.0, AllLive-remove k m h.1)
]

-- A change of one request that keeps it alive.
AllLive-modify :
    (k : String) (f : PendingForward → PendingForward) (p : PendingForward)
    (m : HashMap PendingForward)
    → HashMap.get k m ≡ some p
    → (IsLive p → IsLive (f p))
    → AllLive m
    → AllLive (HashMap.modify k f m)
unfolding HashMap.get HashMap.modify
AllLive-modify k f p [] e keep h = tt
AllLive-modify k f p ((j, q) ∷ m) e keep h = elim (Bool-cases (str_eq j k)) [
  | inl s ↦
      let same : q ≡ p = ground (arith, e, s) in
      rw s (subst (λ x. IsLive (f x)) (sym same) (keep (subst IsLive same h.0)), h.1)
  | inr s ↦ rw s (h.0, AllLive-modify k f p m (ground (arith, e, s)) keep h.1)
]

pub AllLive-insert :
    (k : String) (p : PendingForward) (m : HashMap PendingForward)
    → IsLive p
    → AllLive m
    → AllLive (HashMap.insert k p m)
unfolding HashMap.insert
AllLive-insert k p [] l h = (l, tt)
AllLive-insert k p ((j, q) ∷ m) l h = elim (Bool-cases (str_eq j k)) [
  | inl s ↦ rw s (l, h.1)
  | inr s ↦ rw s (h.0, AllLive-insert k p m l h.1)
]

abbrev pub Live : WsState → Type 0
Live s = AllLive s.pending_forwards

pub Quiet-Live : (s s' : WsState) → Quiet s s' → Live s → Live s'
Quiet-Live s s' q l = subst AllLive (sym q.1) l

release-pending :
    (s : WsState) (p : PendingForward)
    → (release_in_flight s p).pending_forwards ≡ s.pending_forwards
unfolding release_in_flight
release-pending s p = ground arith

drop_result_tx-pending :
    (s : WsState) (p : PendingForward) → (drop_result_tx s p).pending_forwards ≡ s.pending_forwards
unfolding drop_result_tx
drop_result_tx-pending s p = ground arith

send_result-pending :
    (s : WsState) (p : PendingForward) → (send_result s p).pending_forwards ≡ s.pending_forwards
unfolding send_result
send_result-pending s p = ground arith

pub release_removed-Live :
    (s : WsState) (r : String) (p : PendingForward)
    → Live s
    → Live
        (release_in_flight (record s { pending_forwards = HashMap.remove r s.pending_forwards }) p)
release_removed-Live s r p l =
    subst AllLive
      (sym
        (release-pending (record s { pending_forwards = HashMap.remove r s.pending_forwards }) p))
      (AllLive-remove r s.pending_forwards l)

pub fail_pending_request-Live :
    (s : WsState) (r : String) → Live s → Live (fail_pending_request s r)
unfolding fail_pending_request
fail_pending_request-Live s r l = elim (Option-cases (HashMap.get r s.pending_forwards)) [
  | inl e ↦ rw (e, fail_pending_request) l
  | inr (p, e) ↦
      let s' =
        release_in_flight (record s { pending_forwards = HashMap.remove r s.pending_forwards }) p in
      rw (e, fail_pending_request)
        (subst AllLive (sym (drop_result_tx-pending s' p)) (release_removed-Live s r p l))
]

fail_each-Live : (s : WsState) (is : List String) → Live s → Live (fail_each s is)
unfolding fail_each
fail_each-Live s [] l = l
fail_each-Live s (i ∷ is) l =
    fail_each-Live (fail_pending_request s i) is (fail_pending_request-Live s i l)

trigger_rebalance-Live : (s : WsState) → Live s → Live (trigger_rebalance s)
unfolding trigger_rebalance
trigger_rebalance-Live s l =
    let (mgr, sent) = rebalance s.cluster_mgr (ready_gpu_nodes s.nodes) in
    let s' = record s { cluster_mgr = mgr } in
    Quiet-Live s' (send_assignments s' sent) (Quiet-send_assignments s' sent) l

forward_to-Live :
    (s : WsState) (r : String) (bs : List ℕ) (p : PendingForward) (c : ChainStep)
    → Live s
    → Live (forward_to s r bs p c)
unfolding forward_to
forward_to-Live s r bs p c l =
    let (s₁, told) = send_to_node s c.node_id (forward_message r p c) in
    let (s₂, sent) = send_binary_to_node s₁ c.node_id (forward_payload r bs) in
    let l₁ = Quiet-Live s s₁ (Quiet-send_to_node s c.node_id (forward_message r p c)) l in
    let l₂ = Quiet-Live s₁ s₂ (Quiet-send_binary s₁ c.node_id (forward_payload r bs)) l₁ in
    let failed = if not sent then fail_pending_request s₂ r else s₂ in
    if_both Live (not told) (fail_pending_request s₁ r) failed (fail_pending_request-Live s₁ r l₁) (
      if_both Live (not sent) (fail_pending_request s₂ r) s₂ (fail_pending_request-Live s₂ r l₂) l₂)

advance-IsLive : (p : PendingForward) → IsLive p → IsLive (advance p)
unfolding advance
advance-IsLive p l = record {
  has_first = l.has_first;
  has_guard = l.has_guard;
  has_sender = l.has_sender;
  unfinished = l.unfinished;
}

route_forward_result-Live :
    (s : WsState) (r : String) (bs : List ℕ) → Live s → Live (route_forward_result s r bs)
unfolding route_forward_result
route_forward_result-Live s r bs l = elim (Option-cases (HashMap.get r s.pending_forwards)) [
  | inl e ↦ rw (e, route_forward_result) l
  | inr (p, e) ↦
      let s' = record s { pending_forwards = HashMap.modify r advance s.pending_forwards } in
      let l' = AllLive-modify r advance p s.pending_forwards e (advance-IsLive p) l in
      elim (Option-cases (step_at (advance p).chain (advance p).current_step)) [
        | inl f ↦ rw (e, route_forward_result) (rw (f, route_forward_result) l')
        | inr (c, f) ↦
            rw (e, route_forward_result)
              (rw (f, route_forward_result) (forward_to-Live s' r bs (advance p) c l'))
      ]
]

handle_binary_data-Live : (s : WsState) (bs : List ℕ) → Live s → Live (handle_binary_data s bs)
unfolding handle_binary_data
handle_binary_data-Live s bs l =
    let r = from_utf8_lossy (take 36 bs) in
    if_both Live (ltb (length bs) 36) s (route_forward_result s r (drop 36 bs)) l
      (route_forward_result-Live s r (drop 36 bs) l)

-- A token that is not the last leaves room for another.
turn-IsLive :
    (token_id : ℕ) (p : PendingForward)
    → leb p.max_tokens (length (push_token token_id p).generated) ≡ false
    → IsLive p
    → IsLive (rewind (push_token token_id p))
unfolding rewind push_token
turn-IsLive token_id p h l = record {
  has_first = l.has_first;
  has_guard = l.has_guard;
  has_sender = l.has_sender;
  unfinished = ground arith;
}

finish_request-Live :
    (s : WsState) (r : String) (p : PendingForward) → Live s → Live (finish_request s r p)
unfolding finish_request
finish_request-Live s r p l =
    let s₁ =
      release_in_flight (record s { pending_forwards = HashMap.remove r s.pending_forwards }) p in
    let s₂ = send_result s₁ p in
    Quiet-Live s₂ (broadcast_inference_end s₂ p.chain r) (Quiet-broadcast s₂ p.chain r)
      (subst AllLive (sym (send_result-pending s₁ p)) (release_removed-Live s r p l))

continue_request-Live :
    (s : WsState) (r : String) (token_id : ℕ) (p : PendingForward)
    → Live s
    → Live (continue_request s r token_id p)
unfolding continue_request
continue_request-Live s r token_id p l = go p.chain
  where
    go :
        (chain : List ChainStep)
        → Live (elim chain [
          | [] ↦ s
          | first ∷ steps ↦
              let (s', sent) = send_to_node s first.node_id (
                inference_continue r token_id first.layer_start first.layer_end p.max_tokens
                  p.temperature p.top_p p.top_k) in
              if sent then s' else fail_pending_request s' r
        ])
    go [] = l
    go (c ∷ cs) =
        let msg =
          inference_continue r token_id c.layer_start c.layer_end p.max_tokens p.temperature p.top_p
            p.top_k in
        let (s', sent) = send_to_node s c.node_id msg in
        let l' = Quiet-Live s s' (Quiet-send_to_node s c.node_id msg) l in
        if_both Live sent s' (fail_pending_request s' r) l' (fail_pending_request-Live s' r l')

handle_generated_token-Live :
    (s : WsState) (r : String) (token_id : ℕ) (is_eos : Bool)
    → Live s
    → Live (handle_generated_token s r token_id is_eos)
unfolding handle_generated_token push_token
handle_generated_token-Live s r token_id is_eos l =
    elim (Option-cases (HashMap.get r s.pending_forwards)) [
      | inl e ↦ rw (e, handle_generated_token) l
      | inr (q, e) ↦
          let p = push_token token_id q in
          let turn = λ (x : PendingForward). rewind (push_token token_id x) in
          let s' = record s { pending_forwards = HashMap.modify r turn s.pending_forwards } in
          let done = is_eos || leb p.max_tokens (length p.generated) in
          elim (Bool-cases done) [
            | inl d ↦
                rw (e, handle_generated_token)
                  (rw (d, handle_generated_token) (finish_request-Live s r p l))
            | inr d ↦
                let l' =
                  AllLive-modify r turn q s.pending_forwards e
                    (turn-IsLive token_id q (room is_eos p.max_tokens (length p.generated) d)) l in
                rw (e, handle_generated_token)
                  (rw (d, handle_generated_token) (continue_request-Live s' r token_id p l'))
          ]
    ]
  where
    room : (b : Bool) (x y : ℕ) → (b || leb x y) ≡ false → leb x y ≡ false
    room b x y h = ground arith

register_node-Live :
    (s : WsState) (n : WsNode) (available : Bool) (now : ℕ)
    → Live s
    → Live (register_node s n available now)
unfolding register_node
register_node-Live s n available now l =
    let s' = record s {
      nodes = insert_node n s.nodes;
      node_stats = on_connect s.node_stats n.node_name now;
    } in
    if_both Live (n.has_gpu && available) (trigger_rebalance s') s' (trigger_rebalance-Live s' l) l

update_node_state-pending :
    (s : WsState) (i state detail : String)
    → (update_node_state s i state detail).pending_forwards ≡ s.pending_forwards
unfolding update_node_state
update_node_state-pending s i state detail = ground arith

pub receive-Live :
    (s : WsState) (i : String) (m : Incoming) (available : Bool) (now : ℕ)
    → Live s
    → Live (receive s i m available now)
unfolding receive handle_client_message
receive-Live s i (client (register n h ms ram gpu range v os)) available now l =
    register_node-Live s _ available now l
receive-Live s i (client (state_update st detail)) available now l =
    subst AllLive (sym (update_node_state-pending s i st detail)) l
receive-Live s i (client (heartbeat n role mem)) available now l = l
receive-Live s i (client (forward_result r xs ys)) available now l = l
receive-Live s i (client (token_generated r t eos)) available now l =
    handle_generated_token-Live s r t eos l
receive-Live s i (client pong) available now l = l
receive-Live s i (client (shard_complete j x n xs)) available now l = l
receive-Live s i (frame bs) available now l = handle_binary_data-Live s bs l
receive-Live s i (ping_frame bs) available now l =
    if_both Live (contains s.closed i) s (record s { sent = s.sent ++ (i, pong_frame bs) ∷ [] }) l l

pub disconnect-Live :
    (s : WsState) (i : String) (available : Bool) (now : ℕ)
    → Live s
    → Live (disconnect s i available now)
unfolding disconnect
disconnect-Live s i available now l =
    let (was_gpu, name) = node_info (HashMap.get i s.nodes) in
    let s₁ = record s { nodes = HashMap.remove i s.nodes } in
    let s₂ = fail_each s₁ (waiting_ids i s₁.pending_forwards) in
    let s₃ =
      if str_eq name ""
      then s₂
      else record s₂ { node_stats = on_disconnect s₂.node_stats name now } in
    let l₂ = fail_each-Live s₁ (waiting_ids i s₁.pending_forwards) l in
    let l₃ : Live s₃ =
      if_both Live (str_eq name "") s₂
        (record s₂ { node_stats = on_disconnect s₂.node_stats name now }) l₂ l₂ in
    if_both Live (was_gpu && available) (trigger_rebalance s₃) s₃ (trigger_rebalance-Live s₃ l₃) l₃
