-- ===== src/Ws/Guards.antt =====
-- The guards that requests hold, as lists that agree with a session of the cluster manager.
use hyverk_distributed_llm.Common.{
  ℕ, suc, ◌+◌, ◌<◌, String, ◌≡◌, refl, ap, sym, subst, ◌∙◌, Option, none, some, List, [], ◌∷◌, ◌++◌,
  append-nil, append_assoc, arith, length, length-append, count, count-middle, ◌==◌, str_eq, inl,
  inr, Bool-cases,
}
use hyverk_distributed_llm.Common.HashMap
use hyverk_distributed_llm.Common.HashMap.{HashMap}
use hyverk_distributed_llm.Serving.{
  ClusterManager, u32_mod, load, rebalance, node_ready, node_reinitializing, maybe_retire_draining,
  request_start, request_end,
}
use hyverk_distributed_llm.Serving.InFlight.{
  Session, Reach, next, rebalances, reports_ready, reinitializes, retires, starts, ends,
}
use hyverk_distributed_llm.Serving.InFlight.Ledger.{load-count}
use hyverk_distributed_llm.Ws.Types.{PendingForward}

abbrev pub guard_list : Option ℕ → List ℕ
guard_list none = []
guard_list (some c) = c ∷ []

-- The guards of the requests that are pending.
abbrev pub guards : HashMap PendingForward → List ℕ
guards [] = []
guards ((k, p) ∷ m) = guard_list p.in_flight_guard ++ guards m

-- The same numbers, as often.
pub record Same (xs ys : List ℕ) : Type 0 where
  pub counts : (c : ℕ) → count c xs ≡ count c ys
  pub lengths : length xs ≡ length ys

pub count-append : (c : ℕ) (xs ys : List ℕ) → count c (xs ++ ys) ≡ count c xs + count c ys
unfolding count
count-append c [] ys = omega arith
count-append c (x ∷ xs) ys = omega (arith, count-append c xs ys)

-- A request that is taken out takes its guard out.
module _ (k : String) (p : PendingForward) where
  count-guards-remove :
      (c : ℕ) (m : HashMap PendingForward)
      → HashMap.get k m ≡ some p
      → count c (guards m)
        ≡ count c (guard_list p.in_flight_guard) + count c (guards (HashMap.remove k m))
  unfolding HashMap.get HashMap.remove
  count-guards-remove c [] e = cc
  count-guards-remove c ((j, q) ∷ m) e = ground (
    arith,
    count-append c (guard_list q.in_flight_guard) (guards m),
    count-append c (guard_list q.in_flight_guard) (guards (HashMap.remove k m)),
    count-guards-remove c m,
  )

  length-guards-remove :
      (m : HashMap PendingForward)
      → HashMap.get k m ≡ some p
      → length (guards m)
        ≡ length (guard_list p.in_flight_guard) + length (guards (HashMap.remove k m))
  unfolding HashMap.get HashMap.remove
  length-guards-remove [] e = cc
  length-guards-remove ((j, q) ∷ m) e = ground (
    arith,
    length-append (guard_list q.in_flight_guard) (guards m),
    length-append (guard_list q.in_flight_guard) (guards (HashMap.remove k m)),
    length-guards-remove m,
  )

  pub guards-remove :
      (hs : List ℕ) (m : HashMap PendingForward)
      → HashMap.get k m ≡ some p
      → Same (hs ++ guards m) (guard_list p.in_flight_guard ++ (hs ++ guards (HashMap.remove k m)))
  guards-remove hs m e = record {
    counts = λ c. omega (
      arith,
      count-guards-remove c m e,
      count-append c hs (guards m),
      count-append c hs (guards (HashMap.remove k m)),
      count-append c (guard_list p.in_flight_guard) (hs ++ guards (HashMap.remove k m)),
    );
    lengths = omega (
      arith,
      length-guards-remove m e,
      length-append hs (guards m),
      length-append hs (guards (HashMap.remove k m)),
      length-append (guard_list p.in_flight_guard) (hs ++ guards (HashMap.remove k m)),
    );
  }

  -- A request with a new id puts its guard behind the others.
  guards-insert :
      (m : HashMap PendingForward)
      → HashMap.get k m ≡ none
      → guards (HashMap.insert k p m) ≡ guards m ++ guard_list p.in_flight_guard
  unfolding HashMap.get HashMap.insert
  guards-insert [] e = append-nil _
  guards-insert ((j, q) ∷ m) e = ground (
    arith,
    guards-insert m,
    append_assoc (guard_list q.in_flight_guard) (guards m) (guard_list p.in_flight_guard),
  )

-- The guard of a request passes from its handler to the map.
pub guards_pass :
    (k : String) (p : PendingForward) (c : ℕ) (before after : List ℕ) (m : HashMap PendingForward)
    → HashMap.get k m ≡ none
    → p.in_flight_guard ≡ some c
    → Same ((before ++ c ∷ after) ++ guards m) ((before ++ after) ++ guards (HashMap.insert k p m))
unfolding count
guards_pass k p c before after m e g =
    let i : guards (HashMap.insert k p m) ≡ guards m ++ c ∷ [] =
      guards-insert k p m e ∙ ap (λ o. guards m ++ guard_list o) g in
    record {
      counts = λ d. omega (
        arith,
        ap (count d) i,
        count-append d (guards m) (c ∷ []),
        count-append d (before ++ c ∷ after) (guards m),
        count-append d (before ++ after) (guards (HashMap.insert k p m)),
        count-middle d c before after,
      );
      lengths = omega (
        arith,
        ap length i,
        length-append (guards m) (c ∷ []),
        length-append (before ++ c ∷ after) (guards m),
        length-append (before ++ after) (guards (HashMap.insert k p m)),
        length-append before (c ∷ after),
        length-append before after,
      );
    }

-- A handler that holds the guard `c` lets it go.
pub guards_drop :
    (c : ℕ) (before after gs : List ℕ)
    → Same ((before ++ c ∷ after) ++ gs) (c ∷ ((before ++ after) ++ gs))
unfolding count
guards_drop c before after gs = record {
  counts = λ d. omega (
    arith,
    count-append d (before ++ c ∷ after) gs,
    count-append d (before ++ after) gs,
    count-middle d c before after,
  );
  lengths = omega (
    arith,
    length-append (before ++ c ∷ after) gs,
    length-append (before ++ after) gs,
    length-append before (c ∷ after),
    length-append before after,
  );
}

pub guards-modify :
    (k : String) (f : PendingForward → PendingForward) (m : HashMap PendingForward)
    → ((p : PendingForward) → (f p).in_flight_guard ≡ p.in_flight_guard)
    → guards (HashMap.modify k f m) ≡ guards m
unfolding HashMap.modify
guards-modify k f [] same = refl
guards-modify k f ((j, q) ∷ m) same = elim (Bool-cases (str_eq j k)) [
  | inl e ↦ rw (e, same q)
  | inr e ↦ rw e (ap (λ gs. guard_list q.in_flight_guard ++ gs) (guards-modify k f m same))
]

-- A session whose manager is `mgr` and whose requests hold just these guards.
pub record Backed (mgr : ClusterManager) (gs : List ℕ) : Type 0 where
  pub session : Session
  pub reached : Reach session
  pub manager_same : session.manager ≡ mgr
  pub guards_same : Same session.guards gs

pub Backed-load :
    (mgr : ClusterManager) (gs : List ℕ) (c : ℕ) → Backed mgr gs → load mgr.counters c ≡ count c gs
Backed-load mgr gs c b =
    subst (λ m. load m.counters c ≡ count c gs) b.manager_same
      (load-count b.session c b.reached ∙ b.guards_same.counts c)

module _ {mgr : ClusterManager} {gs : List ℕ} (b : Backed mgr gs) where
  pub Backed-Same : (gs' : List ℕ) → Same gs gs' → Backed mgr gs'
  Backed-Same gs' e = record {
    session = b.session;
    reached = b.reached;
    manager_same = b.manager_same;
    guards_same = record {
      counts = λ c. b.guards_same.counts c ∙ e.counts c;
      lengths = b.guards_same.lengths ∙ e.lengths;
    };
  }

  pub Backed-rebalance : (ns : List (String × String)) → Backed (rebalance mgr ns).0 gs
  Backed-rebalance ns = record {
    session = record b.session { manager = (rebalance b.session.manager ns).0 };
    reached = next b.reached (rebalances ns);
    manager_same = ap (λ m. (rebalance m ns).0) b.manager_same;
    guards_same = b.guards_same;
  }

  pub Backed-ready : (r : String) → Backed (node_ready mgr r).0 gs
  Backed-ready r = record {
    session = record b.session { manager = (node_ready b.session.manager r).0 };
    reached = next b.reached (reports_ready r);
    manager_same = ap (λ m. (node_ready m r).0) b.manager_same;
    guards_same = b.guards_same;
  }

  pub Backed-reinitializing : (r : String) → Backed (node_reinitializing mgr r) gs
  Backed-reinitializing r = record {
    session = record b.session { manager = node_reinitializing b.session.manager r };
    reached = next b.reached (reinitializes r);
    manager_same = ap (λ m. node_reinitializing m r) b.manager_same;
    guards_same = b.guards_same;
  }

  pub Backed-retire : Backed (maybe_retire_draining mgr) gs
  Backed-retire = record {
    session = record b.session { manager = maybe_retire_draining b.session.manager };
    reached = next b.reached retires;
    manager_same = ap maybe_retire_draining b.manager_same;
    guards_same = b.guards_same;
  }

  pub Backed-start :
      (c : ℕ)
      → (request_start mgr).1 ≡ some c
      → suc (length gs) < u32_mod
      → Backed (request_start mgr).0 (c ∷ gs)
  unfolding count
  Backed-start c e few = record {
    session = record {
      manager = (request_start b.session.manager).0;
      guards = c ∷ b.session.guards;
    };
    reached = next b.reached (
        starts c (subst (λ m. (request_start m).1 ≡ some c) (sym b.manager_same) e)
          (omega (arith, b.guards_same.lengths)));
    manager_same = ap (λ m. (request_start m).0) b.manager_same;
    guards_same = record {
      counts = λ d. omega (arith, b.guards_same.counts d);
      lengths = omega (arith, b.guards_same.lengths);
    };
  }

split_at :
    (c : ℕ) (xs : List ℕ)
    → 0 < count c xs
    → (before : List ℕ) × (after : List ℕ) × (xs ≡ before ++ c ∷ after)
unfolding count
split_at c [] h = absurd (omega arith)
split_at c (x ∷ xs) h = elim (Bool-cases (x == c)) [
  | inl e ↦ ([], xs, ground arith)
  | inr e ↦
      let (before, after, p) = split_at c xs (ground arith) in (x ∷ before, after, ap (◌∷◌ x) p)
]

pub Backed-end :
    (mgr : ClusterManager) (c : ℕ) (gs : List ℕ)
    → Backed mgr (c ∷ gs)
    → Backed (request_end mgr c) gs
unfolding count
Backed-end mgr c gs b =
    let (before, after, e) = split_at c b.session.guards (ground (arith, b.guards_same.counts c)) in
    record {
      session = record { manager = request_end b.session.manager c; guards = before ++ after };
      reached = next b.reached (ends c before after e);
      manager_same = ap (λ m. request_end m c) b.manager_same;
      guards_same = record {
        counts = λ d.
            omega (arith, b.guards_same.counts d, ap (count d) e, count-middle d c before after);
        lengths = omega (
          arith,
          b.guards_same.lengths,
          ap length e,
          length-append before (c ∷ after),
          length-append before after,
        );
      };
    }
