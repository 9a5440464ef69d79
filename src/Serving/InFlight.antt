-- ===== src/Serving/InFlight.antt =====
-- serving_clusters.rs: the requests in flight. A session is a manager with the guards that requests
-- hold, and it runs through calls of the manager's methods in any order.
pub mod Ledger
use hyverk_distributed_llm.Common.{
  ℕ, zero, suc, ◌+◌, ◌-◌, ◌%◌, ◌^◌, ◌≤◌, ◌<◌, String, Bool, true, false, ◌≡◌, ◌≢◌, refl, ap, sym,
  subst, ◌∙◌, ◌⊎◌, inl, inr, Option, none, some, List, [], ◌∷◌, ◌++◌, arith, length, length-append,
  length-set, set, get_or, get_or-set, get_or-append_zero, get_or-bound, count, count-middle,
  count-le-length, ◌==◌, if◌then◌else◌, Bool-cases, Option-cases,
}
use mathlib.Core.Path.{◌≡⟨◌⟩◌, ◌∎}
use hyverk_distributed_llm.Serving.{
  ClusterManager, Generation, NodeSlot, GenState, active, is_active, draining, u32_mod, u64_mod,
  load, new, fetch_add, fetch_sub, rebalance, clear_active, install, replace_active, node_ready,
  ready_in_pending, node_reinitializing, reinitialize_active, request_start, request_end,
  maybe_retire_draining,
}

pub record Session : Type 0 where
  pub manager : ClusterManager
  pub guards : List ℕ

abbrev pub start : Session
start = record { manager = new; guards = [] }

-- Fewer than 2 ^ 32 requests are in flight at a time.
pub data Step (s : Session) : Session → Type 0 where
  rebalances :
      (ns : List (String × String)) → Step s (record s { manager = (rebalance s.manager ns).0 })
  reports_ready : (r : String) → Step s (record s { manager = (node_ready s.manager r).0 })
  reinitializes : (r : String) → Step s (record s { manager = node_reinitializing s.manager r })
  retires : Step s (record s { manager = maybe_retire_draining s.manager })
  starts :
      (c : ℕ)
      → (request_start s.manager).1 ≡ some c
      → suc (length s.guards) < u32_mod
      → Step s (record { manager = (request_start s.manager).0; guards = c ∷ s.guards })
  ends :
      (c : ℕ) (before after : List ℕ)
      → s.guards ≡ before ++ c ∷ after
      → Step s (record { manager = request_end s.manager c; guards = before ++ after })

pub data Reach : Session → Type 0 where
  here : Reach start
  next : {s t : Session} → Reach s → Step s t → Reach t

-- The counter of a generation has been allocated.
abbrev pub Allocated : ℕ → Option Generation → Type 0
Allocated n none = Unit {0}
Allocated n (some g) = g.in_flight < n

pub record Sound (s : Session) : Type 0 where
  pub ledger : (c : ℕ) → load s.manager.counters c ≡ count c s.guards
  pub active_allocated : Allocated (length s.manager.counters) s.manager.active_gen
  pub pending_allocated : Allocated (length s.manager.counters) s.manager.pending_gen
  pub few : length s.guards < u32_mod

Allocated-more : (n : ℕ) (o : Option Generation) → Allocated n o → Allocated (n + 1) o
Allocated-more n none h = tt
Allocated-more n (some g) h = omega arith

-- What the methods other than those of requests do to the counters.
pub record Keeps (m m' : ClusterManager) : Type 0 where
  pub same : (c : ℕ) → load m'.counters c ≡ load m.counters c
  pub active_kept : Allocated (length m'.counters) m'.active_gen
  pub pending_kept : Allocated (length m'.counters) m'.pending_gen

module _ (m : ClusterManager) (a : Allocated (length m.counters) m.active_gen)
    (p : Allocated (length m.counters) m.pending_gen) where
  Keeps-clear_active : Keeps m (clear_active m)
  unfolding clear_active
  Keeps-clear_active = record {
    same = λ c. ground arith;
    active_kept = ground arith;
    pending_kept = ground arith;
  }

  Keeps-replace_active :
      (g : Generation) → g.in_flight < length m.counters → Keeps m (replace_active m g)
  unfolding replace_active
  Keeps-replace_active g h = record {
    same = λ c. ground arith;
    active_kept = ground arith;
    pending_kept = ground arith;
  }

  pub Keeps-reinitializing : (r : String) → Keeps m (node_reinitializing m r)
  unfolding node_reinitializing reinitialize_active
  Keeps-reinitializing r = record {
    same = λ c. ground arith;
    active_kept = ground arith;
    pending_kept = ground arith;
  }

  pub Keeps-retire : Keeps m (maybe_retire_draining m)
  unfolding maybe_retire_draining
  Keeps-retire = record {
    same = λ c. ground arith;
    active_kept = ground arith;
    pending_kept = ground arith;
  }

  Keeps-install : (gen : ℕ) (ss : List NodeSlot) → Keeps m (install m gen ss)
  unfolding install replace_active
  Keeps-install gen ss =
      let more = length-append m.counters (0 ∷ []) in
      record {
        same = λ c. ground (arith, get_or-append_zero m.counters c);
        active_kept = ground (arith, more);
        pending_kept = ground (arith, more);
      }

  pub Keeps-node_ready : (r : String) → Keeps m (node_ready m r).0
  unfolding node_ready ready_in_pending replace_active
  Keeps-node_ready r = record {
    same = λ c. ground arith;
    active_kept = ground arith;
    pending_kept = ground arith;
  }

pub Keeps-rebalance :
    (m : ClusterManager)
    → Allocated (length m.counters) m.active_gen
    → Allocated (length m.counters) m.pending_gen
    → (ns : List (String × String)) → Keeps m (rebalance m ns).0
unfolding rebalance
Keeps-rebalance m a p [] = Keeps-clear_active m a p
Keeps-rebalance m a p (n ∷ ns) =
    let k = Keeps-install (record m { next_gen = (m.next_gen + 1) % u64_mod }) a p _ _ in
    record { same = k.same; active_kept = k.active_kept; pending_kept = k.pending_kept }
