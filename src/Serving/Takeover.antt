-- ===== src/Serving/Takeover.antt =====
-- serving_clusters.rs: a rebalance, followed by the reports of the nodes that it assigned.
use hyverk_distributed_llm.Common.{
  ℕ, ◌<◌, ◌+◌, ◌%◌, String, true, false, ◌≡◌, refl, ap, sym, ◌∙◌, ◌⊎◌, inl, inr, none, some, List,
  [], ◌∷◌, ◌++◌, map, arith, distinct, Bool-cases, subst, any, length,
}
use hyverk_distributed_llm.Common.Ranges.{Tiles, in_range}
use hyverk_distributed_llm.Serving.Plan.{total_layers, new_slots, current_assignments}
use hyverk_distributed_llm.Serving.Plan.Tiles.{slot_range, node_ids-new_slots}
use hyverk_distributed_llm.Serving.Plan.Skips.{node_ids}
use hyverk_distributed_llm.Serving.Routing.Coverage.{
  active_range, serving_slots_operational, slots_operational-any,
}
use hyverk_distributed_llm.Serving.Rebalancing.{
  installed, installed-Tiles, node_ids-installed, node_ids-assignment, rebalance_keeps_serving,
}
use hyverk_distributed_llm.Serving.Promotion.{
  readied, promoted, TakesOver, ready_each, ready_each-none, ready_each-TakesOver, awaits,
  awaits-node_ids, all_ready-readied, readied-all_ready, replace_active_fields,
}
use hyverk_distributed_llm.Serving.{
  ClusterManager, Generation, NodeSlot, in_cluster, active, forming, rebalance, install,
  replace_active, all_ready, node_ready, ready_in_pending, active_slots, is_operational, has_node,
  set_state, u64_mod,
}

-- The generation that `rebalance` builds.
abbrev pub built : ClusterManager → List (String × String) → Generation
built m ns = record {
  gen = m.next_gen;
  slots = installed m ns;
  in_flight = length m.counters;
  state = forming;
}

ranges-readied : (ss : List NodeSlot) → map slot_range (map readied ss) ≡ map slot_range ss
ranges-readied [] = refl
ranges-readied (s ∷ ss) = ap (◌∷◌ (slot_range s)) (ranges-readied ss)

TakesOver-is_operational :
    (m : ClusterManager) (g : Generation)
    → TakesOver m g
    → Tiles 0 (map slot_range g.slots) total_layers
    → is_operational m ≡ true
unfolding is_operational active_slots all_ready
TakesOver-is_operational m g t tiles =
    rw (t.0, active_slots)
      (serving_slots_operational (promoted g) (all_ready-readied g.slots)
        (rw (ranges-readied g.slots) tiles))

node_ids-sent :
    (m : ClusterManager) (ns : List (String × String))
    → map (λ a. a.node_id) (rebalance m ns).1 ≡ map (λ n. n.0) ns
unfolding rebalance
node_ids-sent m [] = refl
node_ids-sent m (n ∷ ns) =
    node_ids-assignment (current_assignments m.active_gen) m.next_gen (new_slots (n ∷ ns))
    ∙ node_ids-new_slots (n ∷ ns)

TakesOver-at_once :
    (m : ClusterManager) (n : String × String) (ns : List (String × String))
    → all_ready (installed m (n ∷ ns)) ≡ true
    → TakesOver (rebalance m (n ∷ ns)).0 (built m (n ∷ ns))
unfolding rebalance install
TakesOver-at_once m n ns h =
    let g : Generation = built m (n ∷ ns) in
    let m' : ClusterManager = record m {
      next_gen = (m.next_gen + 1) % u64_mod;
      counters = m.counters ++ 0 ∷ [];
    } in
    let f = replace_active_fields m' (record g { state = active }) in
    let same = readied-all_ready (installed m (n ∷ ns)) h in rw (h, install) (cc (f.0, same), refl)

distinct-installed :
    (m : ClusterManager) (ns : List (String × String))
    → distinct (map (λ n. n.0) ns) ≡ true
    → distinct (node_ids (installed m ns)) ≡ true
distinct-installed m ns d = cc (node_ids-installed m ns)

awaits-sent :
    (m : ClusterManager) (ns : List (String × String))
    → awaits (map (λ a. a.node_id) (rebalance m ns).1) (installed m ns) ≡ true
awaits-sent m ns =
    cc (node_ids-sent m ns, node_ids-installed m ns, awaits-node_ids (installed m ns))

-- From any state: once `rebalance` has assigned ranges to nodes with distinct ids, and each of them
-- has reported ready, the new generation is the active one, nothing is pending, and the cluster is
-- operational.
pub rebalance-ready_each :
    (m : ClusterManager) (n : String × String) (ns : List (String × String))
    → distinct (map (λ n. n.0) (n ∷ ns)) ≡ true
    → let (m', sent) = rebalance m (n ∷ ns) in
      let m'' = ready_each m' (map (λ a. a.node_id) sent) in
      TakesOver m'' (built m (n ∷ ns)) × (is_operational m'' ≡ true)
rebalance-ready_each m n ns d =
    let m' = (rebalance m (n ∷ ns)).0 in
    let ids : List String = map (λ a. a.node_id) (rebalance m (n ∷ ns)).1 in
    let over =
      elim (Bool-cases (all_ready (installed m (n ∷ ns))))
        as (λ _. TakesOver (ready_each m' ids) (built m (n ∷ ns))) [
          | inl h ↦
              let t = TakesOver-at_once m n ns h in
              subst (λ x. TakesOver x (built m (n ∷ ns))) (sym (ready_each-none m' ids t.1)) t
          | inr h ↦
              ready_each-TakesOver m' (built m (n ∷ ns)) ids (rebalance_keeps_serving m n ns h).3 h
                (distinct-installed m (n ∷ ns) d) (awaits-sent m (n ∷ ns))
        ] in
    (over, TakesOver-is_operational _ (built m (n ∷ ns)) over (installed-Tiles m n ns))

-- If `is_operational` answers yes, every layer of the model lies in a slot that requests are routed
-- to.
pub is_operational-any :
    (m : ClusterManager) (l : ℕ)
    → is_operational m ≡ true
    → l < total_layers
    → any (in_range l) (map active_range (active_slots m)) ≡ true
unfolding is_operational
is_operational-any m l h k = slots_operational-any l (active_slots m) h k

-- A report of a node, while the generation `g` is pending, either returns false and leaves the
-- active generation, the routed slots and the draining generation as they are, or returns true,
-- with every slot of `g` ready, and puts `g` in service with nothing pending.
pub node_ready_cases :
    (m : ClusterManager) (g : Generation) (r : String)
    → m.pending_gen ≡ some g
    → let (m', took_over) = node_ready m r in
      ((took_over ≡ false)
        × (m'.active_gen ≡ m.active_gen)
        × (active_slots m' ≡ active_slots m)
        × (m'.draining_gen ≡ m.draining_gen))
      ⊎ ((took_over ≡ true)
          × (all_ready (set_state in_cluster r g.slots) ≡ true)
          × (m'.active_gen
              ≡ some (record g { slots = set_state in_cluster r g.slots; state = active }))
          × (m'.pending_gen ≡ none))
unfolding node_ready ready_in_pending replace_active active_slots
node_ready_cases m g r e = elim (Bool-cases (has_node r g.slots)) [
  | inl h ↦ elim (Bool-cases (all_ready (set_state in_cluster r g.slots))) [
    | inl k ↦ inr (ground arith)
    | inr k ↦ inl (ground arith)
  ]
  | inr h ↦ inl (ground arith)
]
