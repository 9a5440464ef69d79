-- ===== src/Inference/Runs.antt =====
-- http_api.rs and ws_handler.rs: the coordinator's handlers in any order, and what the counters of the
-- generations count.
use hyverk_distributed_llm.Common.{
  ℕ, suc, ◌<◌, String, ◌≡◌, refl, ap, subst, ◌∙◌, Bool, Option, none, some, List, [], ◌∷◌, ◌++◌,
  length, count, inl, inr, Option-cases, if_both,
}
use hyverk_distributed_llm.Common.HashMap
use hyverk_distributed_llm.Serving.{u32_mod, load}
use hyverk_distributed_llm.Serving.InFlight.{start, here}
use hyverk_distributed_llm.Ws
use hyverk_distributed_llm.Ws.{
  WsState, PendingForward, ChainStep, Incoming, receive, disconnect, run_retire, release_in_flight,
  broadcast_inference_end, send_to_node,
}
use hyverk_distributed_llm.Ws.Guards.{
  guards, guards_pass, guards_drop, Backed-Same, Backed-start, Backed-end, Backed-load,
}
use hyverk_distributed_llm.Ws.Handlers.{
  Accounted, Quiet-Accounted, Quiet-send_to_node, Quiet-broadcast, release_removed-Accounted,
  receive-Accounted, disconnect-Accounted, run_retire-Accounted,
}
use hyverk_distributed_llm.Inference.{
  InferenceArgs, Started, waits, unreachable, pin_generation, give_up, new_forward, insert_request,
  enter, unreached, send_start, start_message, abort_request,
}

-- Steps of the coordinator: the state, with the guards of the handlers of `ws_inference` that have no
-- entry among the pending requests yet; a handler that is dropped before, with its client's connection,
-- takes no more steps, and its guard stays there. There are fewer than 2 ^ 32 requests at a time, and no request
-- is failed between its insertion and the answer of the send of its first message.
pub data Step (s : WsState) (hs : List ℕ) : WsState → List ℕ → Type 0 where
  receives :
      (i : String) (m : Incoming) (available : Bool) (now : ℕ)
      → Step s hs (receive s i m available now) hs
  disconnects :
      (i : String) (available : Bool) (now : ℕ) → Step s hs (disconnect s i available now) hs
  send_task_ends : (i : String) → Step s hs (record s { closed = i ∷ s.closed }) hs
  retires : 0 < s.spawned → Step s hs (run_retire s) hs
  pins :
      (c : ℕ)
      → (pin_generation s).1 ≡ some c
      → suc (length (hs ++ guards s.pending_forwards)) < u32_mod
      → Step s hs (pin_generation s).0 (c ∷ hs)
  gives_up :
      (c : ℕ) (before after : List ℕ)
      → hs ≡ before ++ c ∷ after
      → Step s hs (give_up s c) (before ++ after)
  enters :
      (r : String) (args : InferenceArgs) (c : ℕ) (chain : List ChainStep)
      (tokens : Option (List ℕ)) (before after : List ℕ)
      → hs ≡ before ++ c ∷ after
      → HashMap.get r s.pending_forwards ≡ none
      → Step s hs (enter s r args c chain tokens) (before ++ after)
  sends_start :
      (r : String) (args : InferenceArgs) (c : ℕ) (first : ChainStep) (ids : List ℕ)
      (p : PendingForward)
      → HashMap.get r s.pending_forwards ≡ some p
      → Step s hs (send_start s r args c first ids).0 hs
  aborts : (r : String) → Step s hs (abort_request s r) hs

pub data Reach : WsState → List ℕ → Type 0 where
  begins : Reach Ws.new []
  then_steps : {s t : WsState} {hs gs : List ℕ} → Reach s hs → Step s hs t gs → Reach t gs

give_up-Accounted :
    (s : WsState) (c : ℕ) (before after hs : List ℕ)
    → hs ≡ before ++ c ∷ after
    → Accounted s hs
    → Accounted (give_up s c) (before ++ after)
unfolding give_up
give_up-Accounted s c before after hs e a = Backed-end s.cluster_mgr c _ (
    Backed-Same (subst (Accounted s) e a) _
      (guards_drop c before after (guards s.pending_forwards)))

insert_request-Accounted :
    (s : WsState) (r : String) (args : InferenceArgs) (c : ℕ) (chain : List ChainStep)
    (ids before after hs : List ℕ)
    → hs ≡ before ++ c ∷ after
    → HashMap.get r s.pending_forwards ≡ none
    → Accounted s hs
    → Accounted (insert_request s r (new_forward r args c chain ids)) (before ++ after)
unfolding insert_request new_forward
insert_request-Accounted s r args c chain ids before after hs e n a =
    Backed-Same (subst (Accounted s) e a) _
      (guards_pass r (new_forward r args c chain ids) c before after s.pending_forwards n refl)

enter-Accounted :
    (s : WsState) (r : String) (args : InferenceArgs) (c : ℕ) (chain : List ChainStep)
    (tokens : Option (List ℕ)) (before after hs : List ℕ)
    → hs ≡ before ++ c ∷ after
    → HashMap.get r s.pending_forwards ≡ none
    → Accounted s hs
    → Accounted (enter s r args c chain tokens) (before ++ after)
unfolding enter
enter-Accounted s r args c [] tokens before after hs e n a =
    give_up-Accounted s c before after hs e a
enter-Accounted s r args c (first ∷ chain) none before after hs e n a =
    give_up-Accounted s c before after hs e a
enter-Accounted s r args c (first ∷ chain) (some ids) before after hs e n a =
    insert_request-Accounted s r args c (first ∷ chain) ids before after hs e n a

send_start-Accounted :
    (s : WsState) (r : String) (args : InferenceArgs) (c : ℕ) (first : ChainStep) (ids hs : List ℕ)
    (p : PendingForward)
    → HashMap.get r s.pending_forwards ≡ some p
    → Accounted s hs
    → Accounted (send_start s r args c first ids).0 hs
unfolding send_start unreached
send_start-Accounted s r args c first ids hs p e a =
    let msg = start_message r args ids first in
    let (s', sent) = send_to_node s first.node_id msg in
    let q = Quiet-send_to_node s first.node_id msg in
    let a' = Quiet-Accounted s s' hs q a in
    let e' : HashMap.get r s'.pending_forwards ≡ some p = ap (HashMap.get r) q.1 ∙ e in
    let freed : Accounted (unreached s' r c) hs =
      rw (e', unreached) (release_removed-Accounted s' r p hs e' a') in
    if_both (λ (x : WsState × Started). Accounted x.0 hs) sent (s', waits)
      (unreached s' r c, unreachable) a' freed

abort_request-Accounted :
    (s : WsState) (r : String) (hs : List ℕ) → Accounted s hs → Accounted (abort_request s r) hs
unfolding abort_request
abort_request-Accounted s r hs a = elim (Option-cases (HashMap.get r s.pending_forwards)) [
  | inl e ↦ rw (e, abort_request) a
  | inr (p, e) ↦
      let s' =
        release_in_flight (record s { pending_forwards = HashMap.remove r s.pending_forwards }) p in
      rw (e, abort_request)
        (Quiet-Accounted s' (broadcast_inference_end s' p.chain r) hs (Quiet-broadcast s' p.chain r)
          (release_removed-Accounted s r p hs e a))
]

pin_generation-Accounted :
    (s : WsState) (c : ℕ) (hs : List ℕ)
    → (pin_generation s).1 ≡ some c
    → suc (length (hs ++ guards s.pending_forwards)) < u32_mod
    → Accounted s hs
    → Accounted (pin_generation s).0 (c ∷ hs)
unfolding pin_generation
pin_generation-Accounted s c hs e few a = Backed-start a c e few

Step-Accounted : {s t : WsState} {hs gs : List ℕ} → Step s hs t gs → Accounted s hs → Accounted t gs
Step-Accounted {s} {t} {hs} (receives i m available now) a =
    receive-Accounted s i m available now hs a
Step-Accounted {s} {t} {hs} (disconnects i available now) a =
    disconnect-Accounted s i available now hs a
Step-Accounted {s} {t} {hs} (send_task_ends i) a = a
Step-Accounted {s} {t} {hs} (retires h) a = run_retire-Accounted s hs a
Step-Accounted {s} {t} {hs} (pins c e few) a = pin_generation-Accounted s c hs e few a
Step-Accounted {s} {t} {hs} (gives_up c before after e) a =
    give_up-Accounted s c before after hs e a
Step-Accounted {s} {t} {hs} (enters r args c chain tokens before after e n) a =
    enter-Accounted s r args c chain tokens before after hs e n a
Step-Accounted {s} {t} {hs} (sends_start r args c first ids p e) a =
    send_start-Accounted s r args c first ids hs p e a
Step-Accounted {s} {t} {hs} (aborts r) a = abort_request-Accounted s r hs a

pub Reach-Accounted : {s : WsState} {hs : List ℕ} → Reach s hs → Accounted s hs
unfolding Ws.new
Reach-Accounted begins = record {
  session = start;
  reached = here;
  manager_same = refl;
  guards_same = record { counts = λ c. refl; lengths = refl };
}
Reach-Accounted (then_steps r st) = Step-Accounted st (Reach-Accounted r)

-- In every run of the coordinator, with fewer than 2 ^ 32 requests at a time and with no request failed
-- between its insertion and the send of its first message: the counter of each generation is the number
-- of requests that hold its guard, those that are pending and those that are about to be.
pub load-guards :
    (s : WsState) (hs : List ℕ) (c : ℕ)
    → Reach s hs
    → load s.cluster_mgr.counters c ≡ count c (hs ++ guards s.pending_forwards)
load-guards s hs c r =
    Backed-load s.cluster_mgr (hs ++ guards s.pending_forwards) c (Reach-Accounted r)
