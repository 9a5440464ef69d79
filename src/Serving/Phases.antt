-- ===== src/Serving/Phases.antt =====
-- serving_clusters.rs: the phases of the three generations that a manager holds.
use hyverk_distributed_llm.Common.{
  ℕ, ◌+◌, ◌%◌, String, true, false, ◌≡◌, refl, sym, subst, inl, inr, Option, none, some, List, [],
  ◌∷◌, ◌++◌, map, arith, length, Bool-cases, Option-cases, if_both, all, update_first, is_some,
  if◌then◌else◌,
}
use hyverk_distributed_llm.Common.Ranges.{Tiles}
use hyverk_distributed_llm.Serving.Plan.{total_layers}
use hyverk_distributed_llm.Serving.Plan.Tiles.{slot_range}
use hyverk_distributed_llm.Serving.Routing.Coverage.{serving_slots_operational}
use hyverk_distributed_llm.Serving.Rebalancing.{installed-Tiles}
use hyverk_distributed_llm.Serving.InFlight.{
  Session, Step, rebalances, reports_ready, reinitializes, retires, starts, ends, Reach, here, next,
}
use hyverk_distributed_llm.Serving.{
  ClusterManager, Generation, NodeSlot, InfraState, in_cluster, reinitializing, active, forming,
  draining, u64_mod, new, rebalance, clear_active, install, replace_active, retire_or_drain,
  node_ready, ready_in_pending, node_reinitializing, reinitialize_active, request_start,
  request_end, maybe_retire_draining, all_ready, set_state, has_node, active_slots, is_operational,
}

abbrev pub OnGen : (Generation → Type 0) → Option Generation → Type 0
OnGen P none = Unit
OnGen P (some g) = P g

abbrev pub IsServing : Generation → Type 0
IsServing g = (g.state ≡ active) × Tiles 0 (map slot_range g.slots) total_layers

abbrev pub IsForming : Generation → Type 0
IsForming g =
    (g.state ≡ forming)
    × Tiles 0 (map slot_range g.slots) total_layers
    × (all_ready g.slots ≡ false)

abbrev pub IsDraining : Generation → Type 0
IsDraining g = g.state ≡ draining

pub record Phased (m : ClusterManager) : Type 0 where
  pub active_phase : OnGen IsServing m.active_gen
  pub pending_phase : OnGen IsForming m.pending_gen
  pub draining_phase : OnGen IsDraining m.draining_gen

ranges-set_state :
    (st : InfraState) (r : String) (ss : List NodeSlot)
    → map slot_range (set_state st r ss) ≡ map slot_range ss
unfolding set_state update_first
ranges-set_state st r [] = refl
ranges-set_state st r (s ∷ ss) = ground (arith, ranges-set_state st r ss)

all_ready-reinitializing :
    (r : String) (ss : List NodeSlot)
    → all_ready ss ≡ false
    → all_ready (set_state reinitializing r ss) ≡ false
unfolding set_state update_first all_ready all
all_ready-reinitializing r [] h = h
all_ready-reinitializing r (s ∷ ss) h = ground (arith, all_ready-reinitializing r ss)

Tiles-set_state :
    (st : InfraState) (r : String) (ss : List NodeSlot)
    → Tiles 0 (map slot_range ss) total_layers
    → Tiles 0 (map slot_range (set_state st r ss)) total_layers
Tiles-set_state st r ss t = rw (ranges-set_state st r ss) t

replace_active-Phased :
    (m : ClusterManager) (g : Generation) → Phased m → IsServing g → Phased (replace_active m g)
unfolding replace_active retire_or_drain
replace_active-Phased m g v h = record {
  active_phase = ground arith;
  pending_phase = ground arith;
  draining_phase = ground arith;
}

clear_active-Phased : (m : ClusterManager) → Phased m → Phased (clear_active m)
unfolding clear_active
clear_active-Phased m v = record {
  active_phase = ground arith;
  pending_phase = ground arith;
  draining_phase = ground arith;
}

maybe_retire_draining-Phased : (m : ClusterManager) → Phased m → Phased (maybe_retire_draining m)
unfolding maybe_retire_draining
maybe_retire_draining-Phased m v = record {
  active_phase = ground arith;
  pending_phase = ground arith;
  draining_phase = ground arith;
}

request_start-Phased : (m : ClusterManager) → Phased m → Phased (request_start m).0
unfolding request_start
request_start-Phased m v = record {
  active_phase = ground arith;
  pending_phase = ground arith;
  draining_phase = ground arith;
}

request_end-Phased : (m : ClusterManager) (c : ℕ) → Phased m → Phased (request_end m c)
unfolding request_end
request_end-Phased m c v = record {
  active_phase = ground arith;
  pending_phase = ground arith;
  draining_phase = ground arith;
}

install-Phased :
    (m : ClusterManager) (gen : ℕ) (ss : List NodeSlot)
    → Phased m
    → Tiles 0 (map slot_range ss) total_layers
    → Phased (install m gen ss)
unfolding install
install-Phased m gen ss v t = elim (Bool-cases (all_ready ss)) [
  | inl h ↦
      let new_gen : Generation = record {
        gen = gen;
        slots = ss;
        in_flight = length m.counters;
        state = active;
      } in
      let w =
        replace_active-Phased (record m { counters = m.counters ++ 0 ∷ [] }) new_gen
          (record {
            active_phase = v.active_phase;
            pending_phase = v.pending_phase;
            draining_phase = v.draining_phase;
          })
          (refl, t) in
      rw h (record {
        active_phase = w.active_phase;
        pending_phase = tt;
        draining_phase = w.draining_phase;
      })
  | inr h ↦ rw h (record {
    active_phase = v.active_phase;
    pending_phase = (refl, t, h);
    draining_phase = v.draining_phase;
  })
]

rebalance-Phased :
    (m : ClusterManager) (ns : List (String × String)) → Phased m → Phased (rebalance m ns).0
unfolding rebalance
rebalance-Phased m [] v = clear_active-Phased m v
rebalance-Phased m (n ∷ ns) v =
    install-Phased (record m { next_gen = (m.next_gen + 1) % u64_mod }) m.next_gen _
      (record {
        active_phase = v.active_phase;
        pending_phase = v.pending_phase;
        draining_phase = v.draining_phase;
      })
      (installed-Tiles m n ns)

-- What a report, or a restart, does to the pending generation `g`.
module _ (m : ClusterManager) (g : Generation) (r : String) (v : Phased m) (p : IsForming g) where
  ready_in_pending-Phased : Phased (ready_in_pending m g r).0
  unfolding ready_in_pending
  ready_in_pending-Phased =
      let t = Tiles-set_state in_cluster r g.slots p.1 in
      elim (Bool-cases (all_ready (set_state in_cluster r g.slots))) [
        | inl h ↦
            rw (h, ready_in_pending)
              (replace_active-Phased (record m { pending_gen = none }) _
                (record {
                  active_phase = v.active_phase;
                  pending_phase = tt;
                  draining_phase = v.draining_phase;
                })
                (refl, t))
        | inr h ↦
            rw (h, ready_in_pending)
              (record {
                active_phase = v.active_phase;
                pending_phase = (p.0, t, h);
                draining_phase = v.draining_phase;
              })
      ]

node_ready_pending :
    (m : ClusterManager) (g : Generation) (r : String)
    → m.pending_gen ≡ some g
    → (node_ready m r).0 ≡ (if has_node r g.slots then (ready_in_pending m g r).0 else m)
unfolding node_ready
node_ready_pending m g r e = ground arith

node_ready-none : (m : ClusterManager) (r : String) → m.pending_gen ≡ none → (node_ready m r).0 ≡ m
unfolding node_ready
node_ready-none m r e = ground arith

node_ready-Phased : (m : ClusterManager) (r : String) → Phased m → Phased (node_ready m r).0
node_ready-Phased m r v = elim (Option-cases m.pending_gen) [
  | inl e ↦ subst Phased (sym (node_ready-none m r e)) v
  | inr (g, e) ↦ subst Phased (sym (node_ready_pending m g r e)) (
      if_both Phased (has_node r g.slots) _ m
        (ready_in_pending-Phased m g r v (subst (OnGen IsForming) e v.pending_phase)) v)
]

reinitialize_active-Phased :
    (m : ClusterManager) (r : String) → Phased m → Phased (reinitialize_active m r)
unfolding reinitialize_active
reinitialize_active-Phased m r v = elim (Option-cases m.active_gen) [
  | inl e ↦ subst Phased (ground arith) v
  | inr (g, e) ↦
      let p = subst (OnGen IsServing) e v.active_phase in
      let t = Tiles-set_state reinitializing r g.slots p.1 in
      subst Phased
        {x = record m {
          active_gen = some (record g { slots = set_state reinitializing r g.slots });
        }}
        (ground arith)
        (record {
          active_phase = (p.0, t);
          pending_phase = v.pending_phase;
          draining_phase = v.draining_phase;
        })
]

node_reinitializing-Phased :
    (m : ClusterManager) (r : String) → Phased m → Phased (node_reinitializing m r)
unfolding node_reinitializing
node_reinitializing-Phased m r v = elim (Option-cases m.pending_gen) [
  | inl e ↦
      subst Phased {x = reinitialize_active m r} (ground arith) (reinitialize_active-Phased m r v)
  | inr (g, e) ↦
      let p = subst (OnGen IsForming) e v.pending_phase in
      let forming' : ClusterManager = record m {
        pending_gen = some (record g { slots = set_state reinitializing r g.slots });
      } in
      subst Phased {x = if has_node r g.slots then forming' else reinitialize_active m r}
        (ground arith)
        (if_both Phased (has_node r g.slots) forming' (reinitialize_active m r)
          (record {
            active_phase = v.active_phase;
            pending_phase = (
              p.0,
              Tiles-set_state reinitializing r g.slots p.1,
              all_ready-reinitializing r g.slots p.2,
            );
            draining_phase = v.draining_phase;
          })
          (reinitialize_active-Phased m r v))
]

Step-Phased : {s t : Session} → Phased s.manager → Step s t → Phased t.manager
Step-Phased {s} v (rebalances ns) = rebalance-Phased s.manager ns v
Step-Phased {s} v (reports_ready r) = node_ready-Phased s.manager r v
Step-Phased {s} v (reinitializes r) = node_reinitializing-Phased s.manager r v
Step-Phased {s} v retires = maybe_retire_draining-Phased s.manager v
Step-Phased {s} v (starts c e few) = request_start-Phased s.manager v
Step-Phased {s} v (ends c before after e) = request_end-Phased s.manager c v

-- In every session from the start: the active generation is in state Active and the pending one in
-- state Forming, the slots of each follow one another from layer 0 to layer 28, the pending one has
-- a slot that is not ready, and the draining one is in state Draining.
pub Reach-Phased : (s : Session) → Reach s → Phased s.manager
unfolding new
Reach-Phased s here = record { active_phase = tt; pending_phase = tt; draining_phase = tt }
Reach-Phased t (next r st) = Step-Phased (Reach-Phased _ r) st

-- In every session from the start, the cluster is operational if every slot of the active
-- generation is in the cluster.
pub all_ready-is_operational :
    (s : Session) (g : Generation)
    → Reach s
    → s.manager.active_gen ≡ some g
    → all_ready g.slots ≡ true
    → is_operational s.manager ≡ true
unfolding is_operational active_slots all_ready
all_ready-is_operational s g r e h =
    let p = subst (OnGen IsServing) e (Reach-Phased s r).active_phase in
    let ok = serving_slots_operational g h p.1 in ground arith

-- In every session from the start, a request gets a guard exactly if there is an active generation.
pub is_some-request_start :
    (s : Session) → Reach s → is_some (request_start s.manager).1 ≡ is_some s.manager.active_gen
unfolding request_start
is_some-request_start s r = let v = (Reach-Phased s r).active_phase in ground arith
