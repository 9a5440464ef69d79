-- ===== src/Layers/Stale.antt =====
-- layer_training.rs, `reassign_stale`: assignments that a node has held for too long.
use hyverk_distributed_llm.Common.{
  ℕ, String, ◌≡◌, true, List, [], ◌∷◌, map, arith, any, find, is_some, inl, inr, Bool-cases,
}
use hyverk_distributed_llm.Layers.{
  LayerTrainingStore, TrainingRound, LayerAssignment, is_available, candidate, claim_rounds,
  claim_assignment, is_stale, release, has_stale, release_in, reassign_stale,
}

find-release :
    (timeout now : ℕ) (xs : List LayerAssignment)
    → any (is_stale timeout now) xs ≡ true
    → is_some (find (λ a. is_available a.status) (map (release timeout now) xs)) ≡ true
unfolding any find release is_stale
find-release timeout now [] h = cc
find-release timeout now (x ∷ xs) h = elim (Bool-cases (is_stale timeout now x)) [
  | inl s ↦ ground arith
  | inr s ↦ ground (arith, find-release timeout now xs)
]

candidate-release_in :
    (timeout now : ℕ) (r : TrainingRound)
    → has_stale timeout now r ≡ true
    → is_some (candidate (release_in timeout now r)) ≡ true
unfolding candidate release_in has_stale
candidate-release_in timeout now r h = ground (arith, find-release timeout now r.assignments)

claim_rounds-release_in :
    (timeout now later : ℕ) (node_id : String) (rs : List TrainingRound)
    → any (has_stale timeout now) rs ≡ true
    → is_some (claim_rounds node_id later (map (release_in timeout now) rs)) ≡ true
unfolding claim_rounds any
claim_rounds-release_in timeout now later node_id [] h = cc
claim_rounds-release_in timeout now later node_id (r ∷ rs) h = ground (
  arith,
  candidate-release_in timeout now r,
  claim_rounds-release_in timeout now later node_id rs,
)

-- If an assignment of an active round has been held for longer than the timeout, then after
-- `reassign_stale` the next claim of any node gets an assignment.
pub reassign_stale-claim :
    (s : LayerTrainingStore) (timeout now later : ℕ) (node_id : String)
    → any (has_stale timeout now) s.rounds ≡ true
    → is_some (claim_assignment (reassign_stale s timeout now) node_id later).1 ≡ true
unfolding reassign_stale claim_assignment
reassign_stale-claim s timeout now later node_id h =
    ground (arith, claim_rounds-release_in timeout now later node_id s.rounds)
