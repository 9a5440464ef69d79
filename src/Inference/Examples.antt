-- ===== src/Inference/Examples.antt =====
-- http_api.rs, `ws_inference`: the theorems at concrete inputs, and a run of the coordinator.
use hyverk_distributed_llm.Common.{
  ℕ, ◌+◌, true, false, ◌≡◌, refl, none, some, [], ◌∷◌, ◌++◌, arith, contains, distinct, count, not,
}
use hyverk_distributed_llm.Common.HashMap
use hyverk_distributed_llm.Common.HashMap.{values, retain}
use hyverk_distributed_llm.Serving
use hyverk_distributed_llm.Serving.{load}
use hyverk_distributed_llm.Ws
use hyverk_distributed_llm.Ws.{
  WsState, WsNode, PendingForward, ChainStep, Incoming, client, register, state_update,
  token_generated, receive, fail_pending_request, disconnect,
}
use hyverk_distributed_llm.Ws.Guards.{guards}
use hyverk_distributed_llm.Ws.Requests.{Live}
use hyverk_distributed_llm.Inference.{
  InferenceArgs, pin_generation, new_forward, insert_request, enter, send_start,
}
use hyverk_distributed_llm.Inference.Limits.{Reach-Live}
use hyverk_distributed_llm.Inference.Disconnects.{disconnect-fails}
use hyverk_distributed_llm.Ws.Disconnected.{is_at, closed_for}
use hyverk_distributed_llm.Inference.Races.{send_start-twice}
use hyverk_distributed_llm.Inference.Runs.{
  receives, pins, enters, sends_start, Reach, begins, then_steps, load-guards,
}

abbrev args : InferenceArgs
args = record { prompt = "hi"; max_tokens = 2; temperature = 0; top_p = none; top_k = none }

-- A node joins and gets ready; a request starts, and its first token comes in.
abbrev joined : WsState
joined = receive Ws.new "a" (client (register "x" "" [] 8000 true none "1.0" "linux")) true 5

abbrev served : WsState
served = receive joined "a" (client (state_update "ready" "")) true 6

abbrev pinned : WsState
pinned = (pin_generation served).0

abbrev whole : ChainStep
whole = record { node_id = "a"; layer_start = 0; layer_end = 28; is_last = true }

abbrev entered : WsState
entered = enter pinned "r" args 0 (whole ∷ []) (some (7 ∷ []))

abbrev started : WsState
started = (send_start entered "r" args 0 whole (7 ∷ [])).0

abbrev answered : WsState
answered = receive started "a" (client (token_generated "r" 9 false)) true 7

-- All that the run goes through.
run : ℕ
unfolding Ws.Examples.run pin_generation new_forward insert_request enter send_start HashMap.get
    HashMap.insert
run = 0

served-Reach : Reach served []
served-Reach =
    then_steps
      (then_steps begins
        (receives "a" (client (register "x" "" [] 8000 true none "1.0" "linux")) true 5))
      (receives "a" (client (state_update "ready" "")) true 6)

pinned-Reach : Reach pinned (0 ∷ [])
unfolding run
pinned-Reach = then_steps served-Reach (pins 0 refl (omega arith))

entered-Reach : Reach entered []
unfolding run
entered-Reach =
    then_steps pinned-Reach (enters "r" args 0 (whole ∷ []) (some (7 ∷ [])) [] [] refl refl)

answered-Reach : Reach answered []
unfolding run insert_request enter
answered-Reach =
    then_steps
      (then_steps entered-Reach
        (sends_start "r" args 0 whole (7 ∷ []) (new_forward "r" args 0 (whole ∷ []) (7 ∷ [])) refl))
      (receives "a" (client (token_generated "r" 9 false)) true 7)

load-guards_example :
    load answered.cluster_mgr.counters 0 ≡ count 0 ([] ++ guards answered.pending_forwards)
load-guards_example = load-guards answered [] 0 answered-Reach

Reach-Live_example : Live answered
Reach-Live_example = Reach-Live answered [] answered-Reach

disconnect-fails_example :
    let t = disconnect answered "a" true 8 in
    let failed = retain (is_at "a") answered.pending_forwards in
    (t.pending_forwards ≡ retain (λ p. not (is_at "a" p)) answered.pending_forwards)
    × (t.outcomes ≡ answered.outcomes ++ closed_for failed)
    × (load t.cluster_mgr.counters 0 + count 0 (guards failed)
        ≡ load answered.cluster_mgr.counters 0)
unfolding run insert_request enter distinct contains
disconnect-fails_example = disconnect-fails answered [] "a" true 8 0 answered-Reach refl

-- Two requests hold the generation; the node of the first one is gone, and its request has not been
-- sent yet.
abbrev two_held : WsState
two_held = record Ws.new {
  pending_forwards = ("r", new_forward "r" args 0 (whole ∷ []) (7 ∷ [])) ∷ [];
  cluster_mgr = record (Serving.new) { counters = 2 ∷ [] };
}

send_start-twice_example :
    2
      + load
          (send_start
            (fail_pending_request two_held "r")
            "r"
            args
            0
            whole
            (7 ∷ [])).0.cluster_mgr.counters
          0
    ≡ load two_held.cluster_mgr.counters 0
unfolding HashMap.get new_forward Ws.new distinct contains
send_start-twice_example =
    send_start-twice two_held "r" "r" args 0 whole (7 ∷ [])
      (new_forward "r" args 0 (whole ∷ []) (7 ∷ [])) refl refl refl refl refl (omega arith)
      (omega arith) (omega arith)
