-- ===== src/Inference/Start.antt =====
-- http_api.rs, `ws_inference`: the whole of a start, with no other handler in between.
use hyverk_distributed_llm.Common.{
  ℕ, suc, ◌<◌, String, ◌≡◌, refl, sym, subst, none, some, Option, List, [], ◌∷◌, ◌++◌, arith,
  length, count, str_eq, eq_refl, inl, inr, Bool-cases, Option-cases,
}
use hyverk_distributed_llm.Common.HashMap
use hyverk_distributed_llm.Common.HashMap.{get-insert}
use hyverk_distributed_llm.Serving.{u32_mod, load, request_start}
use hyverk_distributed_llm.Ws.{WsState, ChainStep, build_inference_chain}
use hyverk_distributed_llm.Ws.Guards.{guards}
use hyverk_distributed_llm.Inference.{
  InferenceArgs, pin_generation, new_forward, insert_request, enter, submit, start_inference,
}
use hyverk_distributed_llm.Inference.Runs.{
  pins, enters, sends_start, Reach, then_steps, load-guards,
}

get-enter :
    (s : WsState) (r : String) (args : InferenceArgs) (c : ℕ) (first : ChainStep)
    (steps : List ChainStep) (ids : List ℕ)
    → HashMap.get r (enter s r args c (first ∷ steps) (some ids)).pending_forwards
      ≡ some (new_forward r args c (first ∷ steps) ids)
unfolding enter insert_request
get-enter s r args c first steps ids =
    ground (
      arith,
      get-insert r r (new_forward r args c (first ∷ steps) ids) s.pending_forwards,
      eq_refl r,
    )

submit-Reach :
    (s : WsState) (hs : List ℕ) (r : String) (args : InferenceArgs) (c : ℕ) (chain : List ChainStep)
    (tokens : Option (List ℕ))
    → Reach s (c ∷ hs)
    → HashMap.get r s.pending_forwards ≡ none
    → Reach (submit s r args c chain tokens).0 hs
unfolding submit
submit-Reach s hs r args c [] tokens reached new =
    then_steps reached (enters r args c [] tokens [] hs refl new)
submit-Reach s hs r args c (first ∷ steps) none reached new =
    then_steps reached (enters r args c (first ∷ steps) none [] hs refl new)
submit-Reach s hs r args c (first ∷ steps) (some ids) reached new =
    then_steps (then_steps reached (enters r args c (first ∷ steps) (some ids) [] hs refl new)) (
      sends_start r args c first ids (new_forward r args c (first ∷ steps) ids)
        (get-enter s r args c first steps ids))

pin_generation-none : (s : WsState) → (pin_generation s).1 ≡ none → (pin_generation s).0 ≡ s
unfolding pin_generation request_start
pin_generation-none s e = ground (arith, e)

-- A start is a run of the steps.
start_inference-Reach :
    (s : WsState) (hs : List ℕ) (r : String) (args : InferenceArgs) (tokens : Option (List ℕ))
    → Reach s hs
    → HashMap.get r s.pending_forwards ≡ none
    → suc (length (hs ++ guards s.pending_forwards)) < u32_mod
    → Reach (start_inference s r args tokens).0 hs
unfolding start_inference pin_generation
start_inference-Reach s hs r args tokens reached new few =
    elim (Bool-cases (str_eq args.prompt "")) [
      | inl e ↦ rw e reached
      | inr e ↦ elim (Option-cases (pin_generation s).1) [
        | inl f ↦ rw (e, f) (subst (λ t. Reach t hs) (sym (pin_generation-none s f)) reached)
        | inr (c, f) ↦
            let s' = (pin_generation s).0 in
            rw (e, f)
              (submit-Reach s' hs r args c (build_inference_chain s') tokens
                (then_steps reached (pins c f few)) new)
      ]
    ]

-- In any run with fewer than 2 ^ 32 requests, a handler of `ws_inference` that tries to start a request
-- with a new id, with no other handler in between: whether it starts or ends with any of the errors
-- (no prompt, no generation, no chain, no tokens, a first node that cannot be reached), each counter
-- is then the number of guards of the pending requests and of the other handlers.
pub start_inference-load :
    (s : WsState) (hs : List ℕ) (r : String) (args : InferenceArgs) (tokens : Option (List ℕ))
    (c : ℕ)
    → Reach s hs
    → HashMap.get r s.pending_forwards ≡ none
    → suc (length (hs ++ guards s.pending_forwards)) < u32_mod
    → let t = (start_inference s r args tokens).0 in
      load t.cluster_mgr.counters c ≡ count c (hs ++ guards t.pending_forwards)
start_inference-load s hs r args tokens c reached new few =
    load-guards (start_inference s r args tokens).0 hs c
      (start_inference-Reach s hs r args tokens reached new few)
