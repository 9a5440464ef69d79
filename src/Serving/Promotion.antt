-- ===== src/Serving/Promotion.antt =====
-- serving_clusters.rs, `node_ready`: a pending generation takes over once all its nodes are ready.
use hyverk_distributed_llm.Common.{
  String, Bool, true, false, ◌||◌, ◌≡◌, refl, ap, sym, ◌∙◌, subst, none, some, List, [], ◌∷◌, map,
  arith, contains, distinct, Bool-cases, inl, inr, all, any, update_first, eq_iff, eq_refl,
}
use hyverk_distributed_llm.Serving.Plan.Skips.{node_ids}
use hyverk_distributed_llm.Serving.{
  ClusterManager, Generation, NodeSlot, InfraState, in_cluster, is_in_cluster, active,
  replace_active, all_ready, node_ready, ready_in_pending, has_node, set_state,
}

-- A slot whose node has reported ready.
abbrev pub readied : NodeSlot → NodeSlot
readied s = record s { infra_state = in_cluster }

-- Each slot is in the cluster already, or its node is among `rest`.
abbrev pub awaits : List String → List NodeSlot → Bool
awaits rest = all (λ s. is_in_cluster s.infra_state || contains rest s.node_id)

readied-set_state :
    (r : String) (ss : List NodeSlot) → map readied (set_state in_cluster r ss) ≡ map readied ss
unfolding set_state update_first
readied-set_state r [] = refl
readied-set_state r (s ∷ ss) = ground (arith, readied-set_state r ss)

node_ids-set_state :
    (st : InfraState) (r : String) (ss : List NodeSlot) → node_ids (set_state st r ss) ≡ node_ids ss
unfolding set_state update_first
node_ids-set_state st r [] = refl
node_ids-set_state st r (s ∷ ss) = ground (arith, node_ids-set_state st r ss)

pub readied-all_ready : (ss : List NodeSlot) → all_ready ss ≡ true → map readied ss ≡ ss
unfolding all_ready all
readied-all_ready [] h = refl
readied-all_ready (s ∷ ss) h = ground (arith, readied-all_ready ss)

pub all_ready-readied : (ss : List NodeSlot) → all_ready (map readied ss) ≡ true
unfolding all_ready all
all_ready-readied [] = refl
all_ready-readied (s ∷ ss) = all_ready-readied ss

awaits-none : (ss : List NodeSlot) → awaits [] ss ≡ true → all_ready ss ≡ true
unfolding all_ready all contains
awaits-none [] h = refl
awaits-none (s ∷ ss) h = ground (arith, awaits-none ss)

awaits_absent :
    (r : String) (rest : List String) (ss : List NodeSlot)
    → contains (node_ids ss) r ≡ false
    → awaits (r ∷ rest) ss ≡ true
    → awaits rest ss ≡ true
unfolding all contains
awaits_absent r rest [] a h = refl
awaits_absent r rest (s ∷ ss) a h =
    ground (arith, awaits_absent r rest ss, eq_iff r s.node_id, eq_iff s.node_id r)

awaits-set_state :
    (r : String) (rest : List String) (ss : List NodeSlot)
    → distinct (node_ids ss) ≡ true
    → awaits (r ∷ rest) ss ≡ true
    → awaits rest (set_state in_cluster r ss) ≡ true
unfolding all contains set_state update_first distinct
awaits-set_state r rest [] d h = refl
awaits-set_state r rest (s ∷ ss) d h = ground (
  arith,
  awaits-set_state r rest ss,
  awaits_absent r rest ss,
  eq_iff r s.node_id,
  eq_iff s.node_id r,
)

has_node-contains : (r : String) (ss : List NodeSlot) → has_node r ss ≡ contains (node_ids ss) r
unfolding has_node any contains
has_node-contains r [] = refl
has_node-contains r (s ∷ ss) = ground (arith, has_node-contains r ss)

awaits_more :
    (r : String) (rest : List String) (ss : List NodeSlot)
    → awaits rest ss ≡ true
    → awaits (r ∷ rest) ss ≡ true
unfolding all contains
awaits_more r rest [] h = refl
awaits_more r rest (s ∷ ss) h = ground (arith, awaits_more r rest ss)

pub awaits-node_ids : (ss : List NodeSlot) → awaits (node_ids ss) ss ≡ true
unfolding all contains
awaits-node_ids [] = refl
awaits-node_ids (s ∷ ss) =
    ground (arith, eq_refl s.node_id, awaits_more s.node_id (node_ids ss) ss (awaits-node_ids ss))

-- The nodes report one after the other.
pub ready_each : ClusterManager → List String → ClusterManager
ready_each m [] = m
ready_each m (r ∷ rs) = ready_each (node_ready m r).0 rs

pub ready_each-none :
    (m : ClusterManager) (rs : List String) → m.pending_gen ≡ none → ready_each m rs ≡ m
unfolding ready_each node_ready
ready_each-none m [] e = refl
ready_each-none m (r ∷ rs) e =
    subst (λ x. ready_each x rs ≡ m) (ground arith) (ready_each-none m rs e)

-- The generation in service, once every node of `g` has reported.
abbrev pub promoted : Generation → Generation
promoted g = record g { slots = map readied g.slots; state = active }

-- One report, in the three ways that it can go.
module _ (m : ClusterManager) (g : Generation) (r : String) (pending : m.pending_gen ≡ some g) where
  abbrev after_report : Generation
  after_report = record g { slots = set_state in_cluster r g.slots }

  node_ready_absent : has_node r g.slots ≡ false → (node_ready m r).0 ≡ m
  unfolding node_ready
  node_ready_absent h = ground arith

  node_ready_partial :
      has_node r g.slots ≡ true
      → all_ready (set_state in_cluster r g.slots) ≡ false
      → (node_ready m r).0 ≡ record m { pending_gen = some after_report }
  unfolding node_ready ready_in_pending
  node_ready_partial h k = ground arith

  node_ready_last :
      has_node r g.slots ≡ true
      → all_ready (set_state in_cluster r g.slots) ≡ true
      → (node_ready m r).0
        ≡ replace_active (record m { pending_gen = none }) (record after_report { state = active })
  unfolding node_ready ready_in_pending
  node_ready_last h k = ground arith

pub replace_active_fields :
    (m : ClusterManager) (g : Generation)
    → ((replace_active m g).active_gen ≡ some g)
      × ((replace_active m g).pending_gen ≡ m.pending_gen)
unfolding replace_active
replace_active_fields m g = ground arith

-- `m` serves what was pending as `g`, with every node ready.
abbrev pub TakesOver : ClusterManager → Generation → Type 0
TakesOver m g = (m.active_gen ≡ some (promoted g)) × (m.pending_gen ≡ none)

promoted-set_state :
    (r : String) (g : Generation)
    → promoted (record g { slots = set_state in_cluster r g.slots }) ≡ promoted g
promoted-set_state r g = cc (readied-set_state r g.slots)

TakesOver-last :
    (m : ClusterManager) (g : Generation) (r : String) (rs : List String)
    → m.pending_gen ≡ some g
    → has_node r g.slots ≡ true
    → all_ready (set_state in_cluster r g.slots) ≡ true
    → TakesOver (ready_each (node_ready m r).0 rs) g
TakesOver-last m g r rs e h k =
    let x = node_ready_last m g r e h k in
    let f =
      replace_active_fields (record m { pending_gen = none })
        (record (after_report m g r e) { state = active }) in
    let same = readied-all_ready (set_state in_cluster r g.slots) k in
    let idle = ready_each-none (node_ready m r).0 rs (cc (x, f.1)) in
    subst (λ y. TakesOver y g) (sym idle)
      (cc (x, f.0, same, readied-set_state r g.slots), cc (x, f.1))

pub ready_each-TakesOver :
    (m : ClusterManager) (g : Generation) (rs : List String)
    → m.pending_gen ≡ some g
    → all_ready g.slots ≡ false
    → distinct (node_ids g.slots) ≡ true
    → awaits rs g.slots ≡ true
    → TakesOver (ready_each m rs) g
unfolding ready_each
ready_each-TakesOver m g [] e n d w = cc (awaits-none g.slots w)
ready_each-TakesOver m g (r ∷ rs) e n d w = elim (Bool-cases (has_node r g.slots)) [
  | inl h ↦ elim (Bool-cases (all_ready (set_state in_cluster r g.slots))) [
    | inl k ↦ TakesOver-last m g r rs e h k
    | inr k ↦
        let g' : Generation = record g { slots = set_state in_cluster r g.slots } in
        let m' : ClusterManager = record m { pending_gen = some g' } in
        let rest =
          ready_each-TakesOver m' g' rs refl k (rw (node_ids-set_state in_cluster r g.slots) d)
            (awaits-set_state r rs g.slots d w) in
        subst (λ x. TakesOver (ready_each x rs) g) (sym (node_ready_partial m g r e h k))
          (rest.0 ∙ ap some (promoted-set_state r g), rest.1)
  ]
  | inr h ↦
      subst (λ x. TakesOver (ready_each x rs) g) (sym (node_ready_absent m g r e h))
        (ready_each-TakesOver m g rs e n d
          (awaits_absent r rs g.slots (sym (has_node-contains r g.slots) ∙ h) w))
]
