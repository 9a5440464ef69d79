-- ===== src/Serving/InFlight/Ledger.antt =====
-- serving_clusters.rs: in every session the counters count the guards that requests hold.
use hyverk_distributed_llm.Common.{
  ℕ, suc, ◌+◌, ◌-◌, ◌%◌, ◌<◌, ◌≡◌, refl, ap, sym, subst, ◌∙◌, none, some, List, ◌∷◌, ◌++◌, arith,
  length, length-append, length-set, get_or-set, get_or-bound, count, count-middle, count-le-length,
  ◌==◌, if◌then◌else◌,
}
use mathlib.Core.Path.{◌≡⟨◌⟩◌, ◌∎}
use hyverk_distributed_llm.Serving.{
  ClusterManager, Generation, u32_mod, load, new, fetch_add, fetch_sub, request_start, request_end,
  maybe_retire_draining,
}
use hyverk_distributed_llm.Serving.InFlight.{
  Session, Step, rebalances, reports_ready, reinitializes, retires, starts, ends, Reach, here, next,
  Allocated, Sound, Keeps, Keeps-reinitializing, Keeps-retire, Keeps-node_ready, Keeps-rebalance,
}

-- One request more, and one less.
request_start_counters :
    (m : ClusterManager) (c : ℕ)
    → Allocated (length m.counters) m.active_gen
    → (request_start m).1 ≡ some c
    → (c < length m.counters)
      × ((request_start m).0 ≡ record m { counters = fetch_add m.counters c })
unfolding request_start
request_start_counters m c a e = (ground arith, ground arith)

load-fetch_add :
    (cs : List ℕ) (c d : ℕ)
    → c < length cs
    → load cs c + 1 < u32_mod
    → load (fetch_add cs c) d ≡ (if c == d then 1 else 0) + load cs d
unfolding fetch_add
load-fetch_add cs c d h k = ground (arith, get_or-set cs c d ((load cs c + 1) % u32_mod))

pub load-fetch_sub :
    (cs : List ℕ) (c d : ℕ)
    → c < length cs
    → 0 < load cs c
    → load cs c < u32_mod
    → (if c == d then 1 else 0) + load (fetch_sub cs c) d ≡ load cs d
unfolding fetch_sub
load-fetch_sub cs c d h p k =
    ground (arith, get_or-set cs c d ((load cs c + u32_mod - 1) % u32_mod))

pub request_end_counters :
    (m : ClusterManager) (c : ℕ)
    → 0 < load m.counters c
    → request_end m c ≡ record m { counters = fetch_sub m.counters c }
unfolding request_end
request_end_counters m c h = ground arith

Sound-Keeps :
    (s : Session) (m : ClusterManager)
    → Sound s
    → Keeps s.manager m
    → Sound (record s { manager = m })
Sound-Keeps s m v k = record {
  ledger = λ c. k.same c ∙ v.ledger c;
  active_allocated = k.active_kept;
  pending_allocated = k.pending_kept;
  few = v.few;
}

Sound-counters :
    (s : Session) (cs gs : List ℕ)
    → Sound s
    → length cs ≡ length s.manager.counters
    → ((c : ℕ) → load cs c ≡ count c gs)
    → length gs < u32_mod
    → Sound (record { manager = record s.manager { counters = cs }; guards = gs })
Sound-counters s cs gs v e h k = record {
  ledger = h;
  active_allocated = rw e v.active_allocated;
  pending_allocated = rw e v.pending_allocated;
  few = k;
}

length-fetch_add : (cs : List ℕ) (c : ℕ) → length (fetch_add cs c) ≡ length cs
unfolding fetch_add
length-fetch_add cs c = length-set cs c _

pub length-fetch_sub : (cs : List ℕ) (c : ℕ) → length (fetch_sub cs c) ≡ length cs
unfolding fetch_sub
length-fetch_sub cs c = length-set cs c _

Sound-starts :
    (s : Session) (c : ℕ)
    → Sound s
    → (request_start s.manager).1 ≡ some c
    → suc (length s.guards) < u32_mod
    → Sound (record { manager = (request_start s.manager).0; guards = c ∷ s.guards })
unfolding count
Sound-starts s c v e few =
    let cs = s.manager.counters in
    let (inside, done) = request_start_counters s.manager c v.active_allocated e in
    subst (λ m. Sound (record { manager = m; guards = c ∷ s.guards })) (sym done)
      (Sound-counters s (fetch_add cs c) (c ∷ s.guards) v (length-fetch_add cs c)
        (λ d. omega (
          arith,
          load-fetch_add cs c d inside (omega (arith, v.ledger c, count-le-length c s.guards)),
          v.ledger d,
        ))
        few)

Sound-ends :
    (s : Session) (c : ℕ) (before after : List ℕ)
    → Sound s
    → s.guards ≡ before ++ c ∷ after
    → Sound (record { manager = request_end s.manager c; guards = before ++ after })
unfolding count
Sound-ends s c before after v e =
    let cs = s.manager.counters in
    let at = λ (d : ℕ).
      load cs d
      ≡⟨ v.ledger d ⟩ count d s.guards
      ≡⟨ ap (count d) e ⟩ count d (before ++ c ∷ after)
      ≡⟨ count-middle d c before after ⟩ (if c == d then 1 else 0) + count d (before ++ after) ∎ in
    let pos : 0 < load cs c = ground (arith, at c) in
    let few : load cs c < u32_mod = omega (arith, v.few, v.ledger c, count-le-length c s.guards) in
    let inside = get_or-bound cs c pos in
    subst (λ m. Sound (record { manager = m; guards = before ++ after }))
      (sym (request_end_counters s.manager c pos))
      (Sound-counters s (fetch_sub cs c) (before ++ after) v (length-fetch_sub cs c)
        (λ d. omega (arith, load-fetch_sub cs c d inside pos few, at d))
        (omega (
          arith,
          v.few,
          ap length e,
          length-append before (c ∷ after),
          length-append before after,
        )))

Sound-Step : {s t : Session} → Sound s → Step s t → Sound t
Sound-Step {s} v (rebalances ns) =
    Sound-Keeps s _ v (Keeps-rebalance s.manager v.active_allocated v.pending_allocated ns)
Sound-Step {s} v (reports_ready r) =
    Sound-Keeps s _ v (Keeps-node_ready s.manager v.active_allocated v.pending_allocated r)
Sound-Step {s} v (reinitializes r) =
    Sound-Keeps s _ v (Keeps-reinitializing s.manager v.active_allocated v.pending_allocated r)
Sound-Step {s} v retires =
    Sound-Keeps s _ v (Keeps-retire s.manager v.active_allocated v.pending_allocated)
Sound-Step {s} v (starts c e few) = Sound-starts s c v e few
Sound-Step {s} v (ends c before after e) = Sound-ends s c before after v e

Reach-Sound : {s : Session} → Reach s → Sound s
unfolding new count
Reach-Sound here = record {
  ledger = λ c. refl;
  active_allocated = tt;
  pending_allocated = tt;
  few = omega arith;
}
Reach-Sound (next r st) = Sound-Step (Reach-Sound r) st

-- In a session from the start, with fewer than 2 ^ 32 requests at a time, the counter of every
-- generation is the number of requests that hold its guard, also once it drains or is forgotten.
pub load-count : (s : Session) (c : ℕ) → Reach s → load s.manager.counters c ≡ count c s.guards
load-count s c r = (Reach-Sound r).ledger c

-- There, a request that ends lowers its counter by one, and no other: the underflow branch is not
-- taken.
pub request_end_exact :
    (s : Session) (c d : ℕ) (before after : List ℕ)
    → Reach s
    → s.guards ≡ before ++ c ∷ after
    → (if c == d then 1 else 0) + load (request_end s.manager c).counters d
      ≡ load s.manager.counters d
unfolding count
request_end_exact s c d before after r e =
    let v = Reach-Sound r in
    let w = Sound-ends s c before after v e in
    omega (arith, v.ledger d, w.ledger d, ap (count d) e, count-middle d c before after)

-- There, a draining generation is retired exactly if no request holds its guard.
pub maybe_retire_draining_lem :
    (s : Session) (g : Generation)
    → Reach s
    → s.manager.draining_gen ≡ some g
    → (maybe_retire_draining s.manager).draining_gen
      ≡ (if count g.in_flight s.guards == 0 then none else some g)
unfolding maybe_retire_draining
maybe_retire_draining_lem s g r e = let h = load-count s g.in_flight r in ground arith
