-- ===== src/Ws/Hops.antt =====
-- ws_handler.rs, `route_forward_result` and `handle_binary_data`: hidden states pass along the chain.
use hyverk_distributed_llm.Common.{
  ℕ, zero, suc, ◌+◌, ◌%◌, ◌≤◌, ◌<◌, String, ◌≡◌, refl, ap, sym, ◌∙◌, true, false, Option, none,
  some, List, [], ◌∷◌, ◌++◌, append-nil, append_assoc, arith, if◌then◌else◌, eq_refl, contains,
  is_some, inl, inr, Option-cases, length, length-append, take, drop, ltb, All,
}
use hyverk_distributed_llm.Common.HashMap
use hyverk_distributed_llm.Common.HashMap.{get-modify}
use hyverk_distributed_llm.Common.Utf8.{as_bytes, IsAscii, from_utf8_lossy-as_bytes}
use hyverk_distributed_llm.Ws.{
  WsState, PendingForward, ChainStep, CoordinatorMessage, inference_forward, Message, text, binary,
  u64_mod, send, send_to_node, send_binary_to_node, fail_pending_request, step_at, advance,
  forward_message, pad, forward_payload, forward_to, route_forward_result, handle_binary_data,
}

-- The open channel of a node.
abbrev pub channel_of : WsState → String → Option String
channel_of s i = elim (HashMap.get i s.nodes) [
  | none ↦ none
  | some n ↦ if contains s.closed n.tx then none else some n.tx
]

-- The two messages of a hop.
abbrev pub hop : String → PendingForward → ChainStep → List ℕ → String → List (String × Message)
hop r p c bytes tx =
    (tx, text (forward_message r p c)) ∷ (tx, binary (forward_payload r bytes)) ∷ []

abbrev pub advanced : WsState → String → WsState
advanced s r = record s { pending_forwards = HashMap.modify r advance s.pending_forwards }

send_closed :
    (s : WsState) (i : String) (m : Message) → channel_of s i ≡ none → send s i m ≡ (s, false)
unfolding send
send_closed s i m e = ground arith

pub send_open :
    (s : WsState) (i tx : String) (m : Message)
    → channel_of s i ≡ some tx
    → send s i m ≡ (record s { sent = s.sent ++ (tx, m) ∷ [] }, true)
unfolding send
send_open s i tx m e = ground arith

forward_to_lem :
    (s : WsState) (r : String) (bytes : List ℕ) (p : PendingForward) (c : ChainStep)
    → forward_to s r bytes p c ≡ elim (channel_of s c.node_id) [
      | none ↦ fail_pending_request s r
      | some tx ↦ record s { sent = s.sent ++ hop r p c bytes tx }
    ]
unfolding forward_to send_to_node send_binary_to_node
forward_to_lem s r bytes p c = elim (Option-cases (channel_of s c.node_id)) [
  | inl e ↦ ground (arith, send_closed s c.node_id (text (forward_message r p c)) e)
  | inr (tx, e) ↦
      let m = text (forward_message r p c) in
      let s' = record s { sent = s.sent ++ (tx, m) ∷ [] } in
      ground (
        arith,
        send_open s c.node_id tx m e,
        send_open s' c.node_id tx (binary (forward_payload r bytes)) e,
        append_assoc s.sent ((tx, m) ∷ []) ((tx, binary (forward_payload r bytes)) ∷ []),
      )
]

-- Hidden states for a request that is pending: it moves on by one step. Past the end of the chain
-- nothing is sent. Otherwise the next node gets the message with its layers and then the states, or,
-- if it cannot be reached, the request fails.
pub route_forward_result_lem :
    (s : WsState) (r : String) (bytes : List ℕ) (p : PendingForward)
    → HashMap.get r s.pending_forwards ≡ some p
    → route_forward_result s r bytes ≡ elim (step_at p.chain ((p.current_step + 1) % u64_mod)) [
      | none ↦ advanced s r
      | some c ↦ elim (channel_of s c.node_id) [
        | none ↦ fail_pending_request (advanced s r) r
        | some tx ↦ record (advanced s r) { sent = s.sent ++ hop r p c bytes tx }
      ]
    ]
unfolding route_forward_result advance forward_message
route_forward_result_lem s r bytes p e =
    elim (Option-cases (step_at p.chain ((p.current_step + 1) % u64_mod))) [
      | inl f ↦ ground (arith, e, f)
      | inr (c, f) ↦ ground (arith, e, f, forward_to_lem (advanced s r) r bytes (advance p) c)
    ]

-- The hidden states of one step after another come in.
pub route_all : WsState → String → List (List ℕ) → WsState
route_all s r [] = s
route_all s r (bytes ∷ rest) = route_all (route_forward_result s r bytes) r rest

-- The messages that take them to the steps of the list, on the nodes' channels.
abbrev pub hops :
    (String → Option String)
    → (ChainStep → CoordinatorMessage)
    → String
    → List ChainStep
    → List (List ℕ)
    → List (String × Message)
hops channels message r [] states = []
hops channels message r (c ∷ cs) [] = []
hops channels message r (c ∷ cs) (bytes ∷ states) =
    elim (channels c.node_id) [
      | none ↦ []
      | some tx ↦ (tx, text (message c)) ∷ (tx, binary (forward_payload r bytes)) ∷ []
    ]
    ++ hops channels message r cs states

step_at-drop :
    (n : ℕ) (xs cs : List ChainStep) (c : ChainStep)
    → drop n xs ≡ c ∷ cs
    → (step_at xs n ≡ some c) × (drop (suc n) xs ≡ cs)
unfolding step_at
step_at-drop zero [] cs c e = cc
step_at-drop zero (x ∷ xs) cs c e = (cc, cc)
step_at-drop (suc n) [] cs c e = cc
step_at-drop (suc n) (x ∷ xs) cs c e = step_at-drop n xs cs c e

-- As long as the nodes of the rest of the chain can be reached, the states pass along it: each comes
-- to the next step's node, behind the message with that step's layers, in the order of the chain.
pub route_all-hops :
    (s : WsState) (r : String) (p : PendingForward) (states : List (List ℕ)) (cs : List ChainStep)
    → HashMap.get r s.pending_forwards ≡ some p
    → drop (p.current_step + 1) p.chain ≡ cs
    → length states ≤ length cs
    → p.current_step + length states < u64_mod
    → All (λ c. is_some (channel_of s c.node_id) ≡ true) cs
    → (route_all s r states).sent ≡ s.sent ++ hops (channel_of s) (forward_message r p) r cs states
unfolding route_all advance forward_message
route_all-hops s r p [] [] e d l b up = sym (append-nil s.sent)
route_all-hops s r p [] (c ∷ cs) e d l b up = sym (append-nil s.sent)
route_all-hops s r p (bytes ∷ states) [] e d l b up = absurd (omega arith)
route_all-hops s r p (bytes ∷ states) (c ∷ cs) e d l b up =
    elim (Option-cases (channel_of s c.node_id)) [
      | inl f ↦ absurd (ground (arith, up.0))
      | inr (tx, f) ↦
          let (at, behind) = step_at-drop (p.current_step + 1) p.chain cs c d in
          let small : (p.current_step + 1) % u64_mod ≡ p.current_step + 1 = omega arith in
          let s' = record (advanced s r) { sent = s.sent ++ hop r p c bytes tx } in
          let moved : route_forward_result s r bytes ≡ s' =
            ground (arith, route_forward_result_lem s r bytes p e, at, small, f) in
          let e' : HashMap.get r s'.pending_forwards ≡ some (advance p) =
            ground (arith, get-modify r r advance s.pending_forwards, eq_refl r, e) in
          let d' : drop ((p.current_step + 1) % u64_mod + 1) p.chain ≡ cs =
            ap (λ n. drop n p.chain) {y = suc (p.current_step + 1)} (omega arith) ∙ behind in
          let rest =
            route_all-hops s' r (advance p) states cs e' d' (omega arith) (omega arith) up.1 in
          ap (λ t. (route_all t r states).sent) moved
          ∙ rest
          ∙ rw f (
              append_assoc s.sent (hop r p c bytes tx)
                (hops (channel_of s) (forward_message r p) r cs states))
    ]

pad-length : (xs ys : List ℕ) → pad (length xs) xs ≡ xs
unfolding pad
pad-length [] ys = refl
pad-length (x ∷ xs) ys = ap (◌∷◌ x) (pad-length xs ys)

take-append : (xs ys : List ℕ) → take (length xs) (xs ++ ys) ≡ xs
take-append [] ys = refl
take-append (x ∷ xs) ys = ap (◌∷◌ x) (take-append xs ys)

drop-append : (xs ys : List ℕ) → drop (length xs) (xs ++ ys) ≡ ys
drop-append [] ys = refl
drop-append (x ∷ xs) ys = drop-append xs ys

-- A frame as the coordinator makes it, for a request whose id has 36 ASCII characters, is taken apart
-- into that id and those hidden states.
pub handle_binary_data-forward_payload :
    (s : WsState) (r : String) (bytes : List ℕ)
    → IsAscii r
    → length (as_bytes r) ≡ 36
    → handle_binary_data s (forward_payload r bytes) ≡ route_forward_result s r bytes
unfolding handle_binary_data forward_payload
handle_binary_data-forward_payload s r bytes ascii long =
    let id = as_bytes r in
    let padded : pad 36 id ≡ id = ap (λ n. pad n id) (sym long) ∙ pad-length id [] in
    let front : take 36 (id ++ bytes) ≡ id =
      ap (λ n. take n (id ++ bytes)) (sym long) ∙ take-append id bytes in
    let back : drop 36 (id ++ bytes) ≡ bytes =
      ap (λ n. drop n (id ++ bytes)) (sym long) ∙ drop-append id bytes in
    let enough : ltb (length (id ++ bytes)) 36 ≡ false = ground (arith, length-append id bytes) in
    rw padded (rw enough (rw front (rw back (rw (from_utf8_lossy-as_bytes r ascii) refl))))

-- The message with the layers of a step: only the last one gets the sampling parameters.
abbrev pub message_to : String → PendingForward → ChainStep → CoordinatorMessage
message_to r p c =
    inference_forward r "" c.layer_start c.layer_end c.is_last
      (if c.is_last then some p.temperature else none) (if c.is_last then p.top_p else none)
      (if c.is_last then p.top_k else none)

-- What the steps of the list are sent on the nodes' channels: each its message, and then the id of
-- the request with the states.
abbrev pub deliveries :
    (String → Option String)
    → String
    → PendingForward
    → List ChainStep
    → List (List ℕ)
    → List (String × Message)
deliveries channels r p [] states = []
deliveries channels r p (c ∷ cs) [] = []
deliveries channels r p (c ∷ cs) (bytes ∷ states) =
    elim (channels c.node_id) [
      | none ↦ []
      | some tx ↦ (tx, text (message_to r p c)) ∷ (tx, binary (as_bytes r ++ bytes)) ∷ []
    ]
    ++ deliveries channels r p cs states

hops-deliveries :
    (channels : String → Option String) (r : String) (p : PendingForward) (cs : List ChainStep)
    (states : List (List ℕ))
    → length (as_bytes r) ≡ 36
    → hops channels (forward_message r p) r cs states ≡ deliveries channels r p cs states
unfolding forward_message forward_payload
hops-deliveries channels r p [] states h = refl
hops-deliveries channels r p (c ∷ cs) [] h = refl
hops-deliveries channels r p (c ∷ cs) (bytes ∷ states) h =
    let padded : pad 36 (as_bytes r) ≡ as_bytes r =
      ap (λ n. pad n (as_bytes r)) (sym h) ∙ pad-length (as_bytes r) [] in
    let same : forward_message r p c ≡ message_to r p c = ground arith in
    ground (arith, padded, same, hops-deliveries channels r p cs states h)

-- For a request whose id has 36 bytes, and as long as the nodes of the rest of the chain can be reached:
-- the states pass along the chain, in its order. To each step's node go the message with that step's
-- layers, with the sampling parameters for the last step only, and then the id and the states.
pub route_all-deliveries :
    (s : WsState) (r : String) (p : PendingForward) (states : List (List ℕ)) (cs : List ChainStep)
    → HashMap.get r s.pending_forwards ≡ some p
    → length (as_bytes r) ≡ 36
    → drop (p.current_step + 1) p.chain ≡ cs
    → length states ≤ length cs
    → p.current_step + length states < u64_mod
    → All (λ c. is_some (channel_of s c.node_id) ≡ true) cs
    → (route_all s r states).sent ≡ s.sent ++ deliveries (channel_of s) r p cs states
route_all-deliveries s r p states cs e long d l b up =
    route_all-hops s r p states cs e d l b up
    ∙ ap (◌++◌ (s.sent)) (hops-deliveries (channel_of s) r p cs states long)
