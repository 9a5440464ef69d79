-- ===== src/Inference/Limits.antt =====
-- http_api.rs and ws_handler.rs: every pending request can go on, in every run.
use hyverk_distributed_llm.Common.{
  ℕ, String, refl, List, [], ◌∷◌, Option, none, some, arith, inl, inr, Option-cases, if_both,
}
use hyverk_distributed_llm.Common.HashMap
use hyverk_distributed_llm.Ws
use hyverk_distributed_llm.Ws.{
  WsState, PendingForward, ChainStep, release_in_flight, broadcast_inference_end, send_to_node,
}
use hyverk_distributed_llm.Ws.Handlers.{Quiet-send_to_node, Quiet-broadcast}
use hyverk_distributed_llm.Ws.Requests.{
  IsLive, Live, AllLive-insert, Quiet-Live, release_removed-Live, receive-Live, disconnect-Live,
}
use hyverk_distributed_llm.Inference.{
  InferenceArgs, Started, waits, unreachable, pin_generation, give_up, new_forward, insert_request,
  enter, unreached, send_start, start_message, abort_request,
}
use hyverk_distributed_llm.Inference.Runs.{
  Step, receives, disconnects, send_task_ends, retires, pins, gives_up, enters, sends_start, aborts,
  Reach, begins, then_steps,
}

new_forward-IsLive :
    (r : String) (args : InferenceArgs) (c : ℕ) (first : ChainStep) (chain : List ChainStep)
    (ids : List ℕ)
    → IsLive (new_forward r args c (first ∷ chain) ids)
unfolding new_forward
new_forward-IsLive r args c first chain ids = record {
  has_first = λ e. cc;
  has_guard = refl;
  has_sender = refl;
  unfinished = omega arith;
}

unreached-Live : (s : WsState) (r : String) (c : ℕ) → Live s → Live (unreached s r c)
unfolding unreached give_up
unreached-Live s r c l = elim (Option-cases (HashMap.get r s.pending_forwards)) [
  | inl e ↦ rw (e, unreached) l
  | inr (p, e) ↦ rw (e, unreached) (release_removed-Live s r p l)
]

-- What is entered has a first node: the guard for an empty chain comes before.
enter-Live :
    (s : WsState) (r : String) (args : InferenceArgs) (c : ℕ) (chain : List ChainStep)
    (tokens : Option (List ℕ))
    → Live s
    → Live (enter s r args c chain tokens)
unfolding enter give_up insert_request
enter-Live s r args c [] tokens l = l
enter-Live s r args c (first ∷ chain) none l = l
enter-Live s r args c (first ∷ chain) (some ids) l =
    AllLive-insert r _ s.pending_forwards (new_forward-IsLive r args c first chain ids) l

send_start-Live :
    (s : WsState) (r : String) (args : InferenceArgs) (c : ℕ) (first : ChainStep) (ids : List ℕ)
    → Live s
    → Live (send_start s r args c first ids).0
unfolding send_start
send_start-Live s r args c first ids l =
    let msg = start_message r args ids first in
    let (s', sent) = send_to_node s first.node_id msg in
    let l' = Quiet-Live s s' (Quiet-send_to_node s first.node_id msg) l in
    if_both (λ (x : WsState × Started). Live x.0) sent (s', waits) (unreached s' r c, unreachable)
      l' (unreached-Live s' r c l')

abort_request-Live : (s : WsState) (r : String) → Live s → Live (abort_request s r)
unfolding abort_request
abort_request-Live s r l = elim (Option-cases (HashMap.get r s.pending_forwards)) [
  | inl e ↦ rw (e, abort_request) l
  | inr (p, e) ↦
      let s' =
        release_in_flight (record s { pending_forwards = HashMap.remove r s.pending_forwards }) p in
      rw (e, abort_request)
        (Quiet-Live s' (broadcast_inference_end s' p.chain r) (Quiet-broadcast s' p.chain r)
          (release_removed-Live s r p l))
]

Step-Live : {s t : WsState} {hs gs : List ℕ} → Step s hs t gs → Live s → Live t
unfolding Ws.run_retire pin_generation give_up insert_request
Step-Live {s} (receives i m available now) l = receive-Live s i m available now l
Step-Live {s} (disconnects i available now) l = disconnect-Live s i available now l
Step-Live {s} (send_task_ends i) l = l
Step-Live {s} (retires h) l = l
Step-Live {s} (pins c e few) l = l
Step-Live {s} (gives_up c before after e) l = l
Step-Live {s} (enters r args c chain tokens before after e n) l =
    enter-Live s r args c chain tokens l
Step-Live {s} (sends_start r args c first ids p e) l = send_start-Live s r args c first ids l
Step-Live {s} (aborts r) l = abort_request-Live s r l

-- In every run of the coordinator, with fewer than 2 ^ 32 requests at a time and with no request failed
-- between its insertion and the send of its first message: each pending request has a first node to
-- go on with, and fewer tokens than its limit, or none if the limit is 0; its guard and the sender of
-- its result have not been taken from it.
pub Reach-Live : (s : WsState) (hs : List ℕ) → Reach s hs → Live s
unfolding Ws.new
Reach-Live s hs begins = tt
Reach-Live s hs (then_steps {s = t} {hs = gs} r st) = Step-Live st (Reach-Live t gs r)
