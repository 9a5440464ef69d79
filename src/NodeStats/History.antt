-- ===== src/NodeStats/History.antt =====
-- node_stats.rs: the count of recent disconnects and the uptime, against what happened.
use hyverk_distributed_llm.Common.{
  ℕ, ◌+◌, ◌-◌, ◌*◌, ◌≤◌, String, ◌≡◌, refl, ap, sym, ◌∙◌, Bool, true, false, ◌&&◌, Option, none,
  some, List, [], ◌∷◌, ◌++◌, arith, if◌then◌else◌, is_some, filter, length, str_eq, eq_iff, inl,
  inr, subst, if_both, Option-cases,
}
use hyverk_distributed_llm.Common.HashMap
use hyverk_distributed_llm.Common.HashMap.{get-insert, get-modify}
use hyverk_distributed_llm.NodeStats.{
  NodeStats, NodeStatsRegistry, window, is_after, cutoff, new_stats, disconnect_count_24h,
  record_disconnect, record_reconnect, record_hop_latency, new, on_connect, on_disconnect,
  record_hop,
}

-- How many of the instants are later than `cut`.
abbrev pub count_after : ℕ → List ℕ → ℕ
count_after cut ts = length (filter (is_after cut) ts)

abbrev pub add_event : (String → List ℕ) → NodeStatsRegistry → String → ℕ → String → List ℕ
add_event h m node_name now k =
    if is_some (HashMap.get node_name m) && str_eq node_name k then h k ++ now ∷ [] else h k

-- A run of the registry up to an instant, with every disconnect of a node that it knew.
pub data Run (average : ℕ → ℕ → ℕ) : NodeStatsRegistry → (String → List ℕ) → ℕ → Type 0 where
  starts : (now : ℕ) → window * 2 ≤ now → Run average new (λ k. []) now
  connects :
      (m : NodeStatsRegistry) (h : String → List ℕ) (t now : ℕ) (node_name : String)
      → Run average m h t
      → t ≤ now
      → Run average (on_connect m node_name now) h now
  disconnects :
      (m : NodeStatsRegistry) (h : String → List ℕ) (t now : ℕ) (node_name : String)
      → Run average m h t
      → t ≤ now
      → Run average (on_disconnect m node_name now) (add_event h m node_name now) now
  hops :
      (m : NodeStatsRegistry) (h : String → List ℕ) (t now : ℕ) (node_name : String)
      (latency_ms : ℕ) (success : Bool)
      → Run average m h t
      → t ≤ now
      → Run average (record_hop average m node_name latency_ms success) h now

-- The events that are kept agree with all that happened, from 48 hours before `t` on.
abbrev Agrees : ℕ → List ℕ → Option NodeStats → Type 0
Agrees t h none = h ≡ []
Agrees t h (some s) =
    (c : ℕ) → t ≤ c + window * 2 → count_after c s.disconnect_events ≡ count_after c h

count_after-push :
    (c now : ℕ) (xs : List ℕ)
    → count_after c (xs ++ now ∷ []) ≡ count_after c xs + count_after c (now ∷ [])
unfolding filter
count_after-push c now [] = omega arith
count_after-push c now (x ∷ xs) = ground (arith, count_after-push c now xs)

count_after-filter :
    (c cut : ℕ) (xs : List ℕ)
    → cut ≤ c
    → count_after c (filter (is_after cut) xs) ≡ count_after c xs
unfolding filter
count_after-filter c cut [] h = refl
count_after-filter c cut (x ∷ xs) h = ground (arith, count_after-filter c cut xs)

Agrees-later :
    (t now : ℕ) (h : List ℕ) (o : Option NodeStats) → t ≤ now → Agrees t h o → Agrees now h o
Agrees-later t now h none l k = k
Agrees-later t now h (some s) l k = λ c b. k c (omega arith)

Agrees-map :
    (t : ℕ) (h : List ℕ) (f : NodeStats → NodeStats) (o : Option NodeStats)
    → ((s : NodeStats) → (f s).disconnect_events ≡ s.disconnect_events)
    → Agrees t h o
    → Agrees t h (elim o [ none ↦ none | some s ↦ some (f s) ])
Agrees-map t h f none same k = k
Agrees-map t h f (some s) same k = λ c b. ap (count_after c) (same s) ∙ k c b

hop-disconnect_events :
    (average : ℕ → ℕ → ℕ) (latency_ms : ℕ) (success : Bool) (s : NodeStats)
    → (record_hop_latency average latency_ms success s).disconnect_events ≡ s.disconnect_events
unfolding record_hop_latency
hop-disconnect_events average latency_ms true s = refl
hop-disconnect_events average latency_ms false s = refl

cutoff-le : (now c : ℕ) → window * 2 ≤ now → now ≤ c + window * 2 → cutoff now (window * 2) ≤ c
unfolding cutoff
cutoff-le now c l b = ground arith

Agrees-disconnect :
    (now : ℕ) (h : List ℕ) (s : NodeStats)
    → window * 2 ≤ now
    → Agrees now h (some s)
    → Agrees now (h ++ now ∷ []) (some (record_disconnect now s))
unfolding record_disconnect
Agrees-disconnect now h s l k = λ c b.
    count_after-filter c (cutoff now (window * 2)) (s.disconnect_events ++ now ∷ [])
      (cutoff-le now c l b)
    ∙ omega (arith, count_after-push c now s.disconnect_events, count_after-push c now h, k c b)

abbrev connected : String → ℕ → Option NodeStats → Option NodeStats
connected n now none = some (new_stats n now)
connected n now (some s) = some (record_reconnect now s)

get-on_connect :
    (m : NodeStatsRegistry) (n k : String) (now : ℕ)
    → HashMap.get k (on_connect m n now)
      ≡ (if str_eq n k then connected n now (HashMap.get k m) else HashMap.get k m)
unfolding on_connect
get-on_connect m n k now = elim (Option-cases (HashMap.get n m)) [
  | inl e ↦ ground (arith, e, eq_iff n k, get-insert n k (new_stats n now) m)
  | inr (s, e) ↦ ground (arith, e, eq_iff n k, get-modify n k (record_reconnect now) m)
]

Agrees-connected :
    (now : ℕ) (h : List ℕ) (n : String) (o : Option NodeStats)
    → Agrees now h o
    → Agrees now h (connected n now o)
unfolding new_stats record_reconnect
Agrees-connected now h n none k = λ c b. ap (count_after c) (sym k)
Agrees-connected now h n (some s) k = k

add_event-same :
    (h : String → List ℕ) (m : NodeStatsRegistry) (n k : String) (now : ℕ)
    → add_event h m n now k
      ≡ (if is_some (HashMap.get k m) && str_eq n k then h k ++ now ∷ [] else h k)
add_event-same h m n k now = ground (arith, eq_iff n k)

Agrees-event :
    (now : ℕ) (h : List ℕ) (b : Bool) (o : Option NodeStats)
    → window * 2 ≤ now
    → Agrees now h o
    → Agrees now
        (if is_some o && b then h ++ now ∷ [] else h)
        (if b then elim o [ none ↦ none | some s ↦ some (record_disconnect now s) ] else o)
Agrees-event now h true none l k = k
Agrees-event now h false none l k = k
Agrees-event now h true (some s) l k = Agrees-disconnect now h s l k
Agrees-event now h false (some s) l k = k

module _ (average : ℕ → ℕ → ℕ) where
  Run-late :
      (m : NodeStatsRegistry) (h : String → List ℕ) (t : ℕ) → Run average m h t → window * 2 ≤ t
  Run-late m h t (starts now l) = l
  Run-late m h t (connects m₀ h₀ t₀ now n r l) = omega (arith, Run-late m₀ h₀ t₀ r)
  Run-late m h t (disconnects m₀ h₀ t₀ now n r l) = omega (arith, Run-late m₀ h₀ t₀ r)
  Run-late m h t (hops m₀ h₀ t₀ now n x y r l) = omega (arith, Run-late m₀ h₀ t₀ r)

  Run-Agrees :
      (m : NodeStatsRegistry) (h : String → List ℕ) (t : ℕ) (k : String)
      → Run average m h t
      → Agrees t (h k) (HashMap.get k m)
  unfolding HashMap.get new on_connect on_disconnect record_hop
  Run-Agrees m h t k (starts now l) = refl
  Run-Agrees m h t k (connects m₀ h₀ t₀ now n r l) =
      let old = Agrees-later t₀ now (h₀ k) (HashMap.get k m₀) l (Run-Agrees m₀ h₀ t₀ k r) in
      subst (Agrees now (h₀ k)) (sym (get-on_connect m₀ n k now)) (
        if_both (Agrees now (h₀ k)) (str_eq n k) _ _
          (Agrees-connected now (h₀ k) n (HashMap.get k m₀) old) old)
  Run-Agrees m h t k (disconnects m₀ h₀ t₀ now n r l) =
      let old = Agrees-later t₀ now (h₀ k) (HashMap.get k m₀) l (Run-Agrees m₀ h₀ t₀ k r) in
      subst (λ x. Agrees now x (HashMap.get k (on_disconnect m₀ n now)))
        (sym (add_event-same h₀ m₀ n k now))
        (subst (Agrees now _) (sym (get-modify n k (record_disconnect now) m₀)) (
          Agrees-event now (h₀ k) (str_eq n k) (HashMap.get k m₀)
            (omega (arith, Run-late m₀ h₀ t₀ r)) old))
  Run-Agrees m h t k (hops m₀ h₀ t₀ now n x y r l) =
      let old = Agrees-later t₀ now (h₀ k) (HashMap.get k m₀) l (Run-Agrees m₀ h₀ t₀ k r) in
      subst (Agrees now (h₀ k)) (sym (get-modify n k (record_hop_latency average x y) m₀)) (
        if_both (Agrees now (h₀ k)) (str_eq n k) _ _
          (Agrees-map now (h₀ k) (record_hop_latency average x y) (HashMap.get k m₀)
            (hop-disconnect_events average x y) old)
          old)

-- Whatever the order of calls, at instants that do not go back, and if the clock can represent
-- instants of 48 hours before the first: the count of a known node's recent disconnects, taken at
-- any later instant, is the number of all disconnects of the node, since it was first known, that
-- are later than 24 hours before. Dropping old events never changes a count.
pub disconnect_count_24h_exact :
    (average : ℕ → ℕ → ℕ) (m : NodeStatsRegistry) (h : String → List ℕ) (t now : ℕ)
    (node_name : String) (s : NodeStats)
    → Run average m h t
    → t ≤ now
    → HashMap.get node_name m ≡ some s
    → disconnect_count_24h s now ≡ count_after (now - window) (h node_name)
unfolding disconnect_count_24h cutoff
disconnect_count_24h_exact average m h t now node_name s r l e =
    let late = Run-late average m h t r in
    let k = subst (Agrees t (h node_name)) e (Run-Agrees average m h t node_name r) in
    ground (arith, k (now - window) (omega arith))
