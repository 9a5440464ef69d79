-- ===== src/Serving/Rebalancing.antt =====
-- serving_clusters.rs, `rebalance`: what it sends, what it installs, and what it leaves alone.
use hyverk_distributed_llm.Common.{
  ℕ, ◌/◌, String, true, false, ◌≡◌, refl, ap, ◌∙◌, some, List, [], ◌∷◌, map, arith, distinct,
  length, All,
}
use hyverk_distributed_llm.Common.HashMap.{HashMap}
use hyverk_distributed_llm.Common.Ranges.{Tiles}
use hyverk_distributed_llm.Serving.Plan.{
  total_layers, new_slots, settle, assignment, skips, current_assignments,
}
use hyverk_distributed_llm.Serving.Plan.Tiles.{
  slot_range, assigned_range, IsFairShare, new_slots-Tiles, new_slots-IsFairShare,
  node_ids-new_slots,
}
use hyverk_distributed_llm.Serving.Plan.Skips.{node_ids, serves, skips-current_assignments}
use hyverk_distributed_llm.Serving.{
  ClusterManager, Generation, NodeSlot, Held, forming, rebalance, install, all_ready, active_slots,
}

-- What the loop over the new slots keeps of each slot, and what it sends.
pub ranges-settle :
    (cur : HashMap Held) (ss : List NodeSlot)
    → map slot_range (map (settle cur) ss) ≡ map slot_range ss
unfolding settle
ranges-settle cur [] = refl
ranges-settle cur (s ∷ ss) = ground (arith, ranges-settle cur ss)

pub node_ids-settle :
    (cur : HashMap Held) (ss : List NodeSlot) → node_ids (map (settle cur) ss) ≡ node_ids ss
unfolding settle
node_ids-settle cur [] = refl
node_ids-settle cur (s ∷ ss) = ground (arith, node_ids-settle cur ss)

module _ (cur : HashMap Held) (gen : ℕ) where
  ranges-assignment :
      (ss : List NodeSlot) → map assigned_range (map (assignment cur gen) ss) ≡ map slot_range ss
  unfolding assignment
  ranges-assignment [] = refl
  ranges-assignment (s ∷ ss) = ap (◌∷◌ (slot_range s)) (ranges-assignment ss)

  pub node_ids-assignment :
      (ss : List NodeSlot) → map (λ a. a.node_id) (map (assignment cur gen) ss) ≡ node_ids ss
  unfolding assignment
  node_ids-assignment [] = refl
  node_ids-assignment (s ∷ ss) = ap (◌∷◌ s.node_id) (node_ids-assignment ss)

  generations-assignment :
      (ss : List NodeSlot) → All (λ a. a.generation ≡ gen) (map (assignment cur gen) ss)
  unfolding assignment
  generations-assignment [] = tt
  generations-assignment (s ∷ ss) = (refl, generations-assignment ss)

  skips-assignment :
      (ss : List NodeSlot)
      → map (λ a. a.skip_download) (map (assignment cur gen) ss) ≡ map (skips cur) ss
  unfolding assignment
  skips-assignment [] = refl
  skips-assignment (s ∷ ss) = ap (◌∷◌ (skips cur s)) (skips-assignment ss)

-- With any GPU node at all, the ranges that `rebalance` sends follow one another from layer 0 to
-- layer 28, one to each node in the order given, each of them 28 / n or 28 / n + 1 layers long, and
-- all carry the number of the new generation.
pub rebalance-Tiles :
    (m : ClusterManager) (n : String × String) (ns : List (String × String))
    → let sent = (rebalance m (n ∷ ns)).1 in
      Tiles 0 (map assigned_range sent) total_layers
      × All (IsFairShare (total_layers / length (n ∷ ns))) (map assigned_range sent)
      × (map (λ a. a.node_id) sent ≡ map (λ n. n.0) (n ∷ ns))
      × All (λ a. a.generation ≡ m.next_gen) sent
unfolding rebalance
rebalance-Tiles m n ns =
    let cur = current_assignments m.active_gen in
    let ss = new_slots (n ∷ ns) in
    (
      rw (ranges-assignment cur m.next_gen ss) (new_slots-Tiles n ns),
      rw (ranges-assignment cur m.next_gen ss) (new_slots-IsFairShare (n ∷ ns)),
      node_ids-assignment cur m.next_gen ss ∙ node_ids-new_slots (n ∷ ns),
      generations-assignment cur m.next_gen ss,
    )

map-skips :
    (g : Generation) (ss : List NodeSlot)
    → distinct (node_ids g.slots) ≡ true
    → map (skips (current_assignments (some g))) ss ≡ map (serves g.slots) ss
map-skips g [] h = refl
map-skips g (s ∷ ss) h = cc (skips-current_assignments g s h, map-skips g ss h)

-- With an active generation in which no node has two slots, a node is told to skip the download
-- exactly if one of that generation's slots is in the cluster and gives it the very range that it
-- is now assigned.
pub rebalance-serves :
    (m : ClusterManager) (g : Generation) (n : String × String) (ns : List (String × String))
    → m.active_gen ≡ some g
    → distinct (node_ids g.slots) ≡ true
    → map (λ a. a.skip_download) (rebalance m (n ∷ ns)).1
      ≡ map (serves g.slots) (new_slots (n ∷ ns))
unfolding rebalance
rebalance-serves m g n ns e h =
    rw (skips-assignment (current_assignments m.active_gen) m.next_gen (new_slots (n ∷ ns)), e)
      (map-skips g (new_slots (n ∷ ns)) h)

-- The new generation, as it stands after `rebalance`.
abbrev pub installed : ClusterManager → List (String × String) → List NodeSlot
installed m ns = map (settle (current_assignments m.active_gen)) (new_slots ns)

pub installed-Tiles :
    (m : ClusterManager) (n : String × String) (ns : List (String × String))
    → Tiles 0 (map slot_range (installed m (n ∷ ns))) total_layers
installed-Tiles m n ns =
    rw (ranges-settle (current_assignments m.active_gen) (new_slots (n ∷ ns)))
      (new_slots-Tiles n ns)

pub node_ids-installed :
    (m : ClusterManager) (ns : List (String × String))
    → node_ids (installed m ns) ≡ map (λ n. n.0) ns
node_ids-installed m ns =
    node_ids-settle (current_assignments m.active_gen) (new_slots ns) ∙ node_ids-new_slots ns

-- While any node still has to load its range, a rebalance leaves what serves alone: the active
-- generation, the slots that requests are routed to, and the generation that drains.
pub rebalance_keeps_serving :
    (m : ClusterManager) (n : String × String) (ns : List (String × String))
    → all_ready (installed m (n ∷ ns)) ≡ false
    → let m' = (rebalance m (n ∷ ns)).0 in
      (m'.active_gen ≡ m.active_gen)
      × (active_slots m' ≡ active_slots m)
      × (m'.draining_gen ≡ m.draining_gen)
      × (m'.pending_gen
          ≡ some (record {
            gen = m.next_gen;
            slots = installed m (n ∷ ns);
            in_flight = length m.counters;
            state = forming;
          }))
unfolding rebalance install active_slots
rebalance_keeps_serving m n ns h = rw (h, install) (refl, refl, refl, refl)
