-- ===== src/Ws/Tokens.antt =====
-- ws_handler.rs, `handle_generated_token`: the tokens of a request, one after another.
use hyverk_distributed_llm.Common.{
  ℕ, ◌+◌, String, ◌≡◌, refl, ◌∙◌, Bool, true, false, ◌||◌, none, some, List, [], ◌∷◌, ◌++◌, arith,
  if_both, eq_refl, contains, leb, length, length-append,
}
use hyverk_distributed_llm.Common.HashMap
use hyverk_distributed_llm.Common.HashMap.{IsMap, get-remove, get-modify}
use hyverk_distributed_llm.Serving.{request_end}
use hyverk_distributed_llm.Ws.Handlers.{Quiet-broadcast}
use hyverk_distributed_llm.Ws.Hops.{channel_of, send_open}
use hyverk_distributed_llm.Ws.{
  WsState, PendingForward, ChainStep, Message, text, result, inference_continue, inference_end,
  send, send_to_node, send_ends, broadcast_inference_end, push_token, rewind, send_result,
  finish_request, continue_request, handle_generated_token, release_in_flight,
}

send-outcomes : (s : WsState) (i : String) (m : Message) → (send s i m).0.outcomes ≡ s.outcomes
unfolding send
send-outcomes s i m = ground arith

send_ends-outcomes :
    (s : WsState) (seen : List String) (steps : List ChainStep) (r : String)
    → (send_ends s seen steps r).outcomes ≡ s.outcomes
unfolding send_ends send_to_node
send_ends-outcomes s seen [] r = refl
send_ends-outcomes s seen (c ∷ cs) r =
    let s' = (send s c.node_id (text (inference_end r))).0 in
    if_both (λ (t : WsState). t.outcomes ≡ s.outcomes) (contains seen c.node_id)
      (send_ends s seen cs r) (send_ends s' (c.node_id ∷ seen) cs r)
      (send_ends-outcomes s seen cs r)
      (send_ends-outcomes s' (c.node_id ∷ seen) cs r
        ∙ send-outcomes s c.node_id (text (inference_end r)))

module _ (s : WsState) (r tx : String) (token_id c : ℕ) (is_eos : Bool) (p : PendingForward)
    (found : HashMap.get r s.pending_forwards ≡ some p) where
  -- The last token of a request, by its mark or by the limit: the request is no longer pending, its
  -- guard is given back, and its handler gets all the tokens in order, with this one behind the
  -- others, and their number.
  pub handle_generated_token_last :
      IsMap s.pending_forwards
      → p.in_flight_guard ≡ some c
      → p.result_tx ≡ some tx
      → (is_eos || leb p.max_tokens (length p.generated + 1)) ≡ true
      → let s' = handle_generated_token s r token_id is_eos in
        (HashMap.get r s'.pending_forwards ≡ none)
        × (s'.cluster_mgr ≡ request_end s.cluster_mgr c)
        × (s'.outcomes
            ≡ s.outcomes
              ++ (
                tx,
                result (record {
                  tokens = length p.generated + 1;
                  cluster = p.chain;
                  generated_ids = p.generated ++ token_id ∷ [];
                }),
              )
                ∷ [])
  unfolding handle_generated_token push_token finish_request send_result release_in_flight
      broadcast_inference_end
  handle_generated_token_last m g x done =
      let q = push_token token_id p in
      let s₁ =
        release_in_flight (record s { pending_forwards = HashMap.remove r s.pending_forwards }) q in
      let s₂ = send_result s₁ q in
      let (mgr, pending) = Quiet-broadcast s₂ p.chain r in
      let one_more = length-append p.generated (token_id ∷ []) in
      (
        ground (
          arith,
          found,
          g,
          x,
          done,
          one_more,
          pending,
          get-remove r r s.pending_forwards m,
          eq_refl r,
        ),
        ground (arith, found, g, x, done, one_more, mgr),
        ground (arith, found, g, x, done, one_more, send_ends-outcomes s₂ [] p.chain r),
      )

  -- Any other token is kept behind the others, the request starts over at the first step, and the
  -- first node of the chain, if it can be reached, gets the token with its layers.
  pub handle_generated_token_next :
      (first : ChainStep) (steps : List ChainStep)
      → p.chain ≡ first ∷ steps
      → (is_eos || leb p.max_tokens (length p.generated + 1)) ≡ false
      → channel_of s first.node_id ≡ some tx
      → handle_generated_token s r token_id is_eos ≡ record s {
        pending_forwards =
            HashMap.modify r (λ q. rewind (push_token token_id q)) s.pending_forwards;
        sent =
            s.sent
            ++ (
              tx,
              text (
                  inference_continue r token_id first.layer_start first.layer_end p.max_tokens
                    p.temperature p.top_p p.top_k),
            )
              ∷ [];
      }
  unfolding handle_generated_token push_token continue_request send_to_node
  handle_generated_token_next first steps e more open_ =
      let msg =
        inference_continue r token_id first.layer_start first.layer_end p.max_tokens p.temperature
          p.top_p p.top_k in
      let s' = record s {
        pending_forwards =
            HashMap.modify r (λ q. rewind (push_token token_id q)) s.pending_forwards;
      } in
      ground (
        arith,
        found,
        e,
        more,
        length-append p.generated (token_id ∷ []),
        send_open s' first.node_id tx (text msg) open_,
      )
