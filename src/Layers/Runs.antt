-- ===== src/Layers/Runs.antt =====
-- layer_training.rs: the store's methods in any order.
use mathlib.Core.Option
use hyverk_distributed_llm.Common.{
  ℕ, String, ◌≡◌, refl, ap, sym, subst, ◌∙◌, false, ◌&&◌, inl, inr, none, some, List, [], ◌∷◌,
  append_assoc, map, arith, ltb, contains, distinct, find, any, Bool-cases, Option-cases,
}
use hyverk_distributed_llm.Common.HashMap
use hyverk_distributed_llm.Layers.Disk.{round_ids, execute_all}
use hyverk_distributed_llm.Layers.Schedule.{make_assignments, new_round, next_request}
use hyverk_distributed_llm.Layers.Rounds.{claim_assignment_cases}
use hyverk_distributed_llm.Layers.Merging.{submit_adapter_cases}
use hyverk_distributed_llm.Layers.Durability.{
  IsSaved, create-IsSaved, replace-IsSaved, total-IsSaved, map-IsSaved, round_ids-map,
}
use hyverk_distributed_llm.Layers.{
  LayerTrainingStore, RoundRequest, TrainingRound, LayerAssignment, is_merging, add_round,
  create_round, claim_assignment, claim_in, submit_adapter, receive_in, is_stale, release,
  has_stale, release_in, reassign_stale, finish, finish_merging, should_create, auto_advance,
  save_round, save_adapter, save_total,
}

pub data Step (s : LayerTrainingStore) : LayerTrainingStore → Type 0 where
  creates :
      (r : RoundRequest) (round_id : String) (uuid : ℕ → String) (now : ℕ) (s' : LayerTrainingStore)
      → contains (round_ids s.rounds) round_id ≡ false
      → create_round s r round_id uuid now ≡ some (s', round_id)
      → Step s s'
  claims : (node_id : String) (now : ℕ) → Step s (claim_assignment s node_id now).0
  submits :
      (i : String) (bytes : List ℕ) (loss steps now : ℕ)
      → Step s (submit_adapter s i bytes loss steps now).0
  reassigns : (timeout now : ℕ) → Step s (reassign_stale s timeout now)
  advances :
      (dataset_size : ℕ) (round_id : String) (uuid : ℕ → String) (now : ℕ) (s' : LayerTrainingStore)
      → contains (round_ids s.rounds) round_id ≡ false
      → auto_advance s dataset_size round_id uuid now ≡ some s'
      → Step s s'

-- What `open` gives on a database without rounds.
abbrev pub empty_store : LayerTrainingStore
empty_store = record { rounds = []; total_rounds_completed = 0; first_round_at = none; log = [] }

pub data Reach : LayerTrainingStore → Type 0 where
  here : Reach empty_store
  next : (s s' : LayerTrainingStore) → Reach s → Step s s' → Reach s'

create_round-IsSaved :
    (s s' : LayerTrainingStore) (r : RoundRequest) (round_id : String) (uuid : ℕ → String) (now : ℕ)
    → IsSaved s
    → contains (round_ids s.rounds) round_id ≡ false
    → Option.map (λ x. x.0) (create_round s r round_id uuid now) ≡ some s'
    → IsSaved s'
unfolding create_round new_round
create_round-IsSaved s s' r round_id uuid now k h e =
    elim (Option-cases (make_assignments r.total_layers r uuid 0 0 0)) [
      | inl n ↦ absurd (ground arith)
      | inr (xs, n) ↦
          let same : add_round s (new_round r round_id xs now) now ≡ s' = ground arith in
          subst IsSaved same (create-IsSaved s (new_round r round_id xs now) now k h)
    ]

claim_assignment-IsSaved :
    (s : LayerTrainingStore) (node_id : String) (now : ℕ)
    → IsSaved s
    → IsSaved (claim_assignment s node_id now).0
unfolding claim_in
claim_assignment-IsSaved s node_id now k = elim (claim_assignment_cases s node_id now) [
  | inl (e, _) ↦ subst (λ x. IsSaved x.0) (sym e) k
  | inr (rs', a, r', e, (before, r, after, x, p, _, _, _, i, l, _)) ↦
      subst (λ x. IsSaved x.0) (sym e)
        (replace-IsSaved s before after rs' r r' k p l (ap (λ q. q.round_id) i))
]

receive_in-round_id :
    (i : String) (loss steps : ℕ) (r : TrainingRound)
    → (receive_in i loss steps r).round_id ≡ r.round_id
unfolding receive_in
receive_in-round_id i loss steps r = ground arith

submit_adapter-IsSaved :
    (s : LayerTrainingStore) (i : String) (bytes : List ℕ) (loss steps now : ℕ)
    → IsSaved s
    → IsSaved (submit_adapter s i bytes loss steps now).0
submit_adapter-IsSaved s i bytes loss steps now k =
    elim (submit_adapter_cases s i bytes loss steps now) [
      | inl (e, _) ↦ subst (λ x. IsSaved x.0) (sym e) k
      | inr (rs', r', total, e, _, (before, r, after, p, _, _, j, l)) ↦
          let k' =
            replace-IsSaved s before after rs' r r' k p l
              (ap (λ q. q.round_id) j ∙ receive_in-round_id i loss steps r) in
          let done = total-IsSaved _ i bytes now total k' in
          subst (λ x. IsSaved x.0) (sym e)
            (subst
              (λ log.
                IsSaved (record s { rounds = rs'; total_rounds_completed = total; log = log }))
              (append_assoc s.log (save_round r' ∷ [])
                (save_adapter i bytes now ∷ save_total total ∷ []))
              done)
    ]

map-release :
    (timeout now : ℕ) (xs : List LayerAssignment)
    → any (is_stale timeout now) xs ≡ false
    → map (release timeout now) xs ≡ xs
unfolding any release
map-release timeout now [] h = refl
map-release timeout now (x ∷ xs) h = ground (arith, map-release timeout now xs)

release_in-same :
    (timeout now : ℕ) (r : TrainingRound)
    → has_stale timeout now r ≡ false
    → release_in timeout now r ≡ r
unfolding has_stale release_in
release_in-same timeout now r h = ground (arith, map-release timeout now r.assignments)

reassign_stale-IsSaved :
    (s : LayerTrainingStore) (timeout now : ℕ) → IsSaved s → IsSaved (reassign_stale s timeout now)
unfolding reassign_stale release_in
reassign_stale-IsSaved s timeout now k =
    map-IsSaved s (release_in timeout now) (has_stale timeout now) k (λ r. ground arith)
      (release_in-same timeout now)

finish-round_id : (r : TrainingRound) → (finish r).round_id ≡ r.round_id
unfolding finish
finish-round_id r = ground arith

finish_merging-IsSaved : (s : LayerTrainingStore) → IsSaved s → IsSaved (finish_merging s)
unfolding finish_merging finish
finish_merging-IsSaved s k =
    map-IsSaved s finish (λ r. is_merging r.status) k finish-round_id (λ r h. ground arith)

auto_advance-IsSaved :
    (s s' : LayerTrainingStore) (dataset_size : ℕ) (round_id : String) (uuid : ℕ → String) (now : ℕ)
    → IsSaved s
    → contains (round_ids s.rounds) round_id ≡ false
    → auto_advance s dataset_size round_id uuid now ≡ some s'
    → IsSaved s'
unfolding auto_advance finish_merging
auto_advance-IsSaved s s' dataset_size round_id uuid now k h e =
    elim (Bool-cases (should_create s && ltb 0 dataset_size)) [
      | inr n ↦ subst IsSaved (ground arith) k
      | inl n ↦
          create_round-IsSaved (finish_merging s) s'
            (next_request s.total_rounds_completed dataset_size) round_id uuid now
            (finish_merging-IsSaved s k)
            (subst (λ is. contains is round_id ≡ false)
              (sym (round_ids-map finish s.rounds finish-round_id)) h)
            (ground arith)
    ]

Step-IsSaved : (s s' : LayerTrainingStore) → Step s s' → IsSaved s → IsSaved s'
Step-IsSaved s s' (creates r round_id uuid now s'' h e) k =
    create_round-IsSaved s s'' r round_id uuid now k h (ap (Option.map (λ x. x.0)) e)
Step-IsSaved s s' (claims node_id now) k = claim_assignment-IsSaved s node_id now k
Step-IsSaved s s' (submits i bytes loss steps now) k =
    submit_adapter-IsSaved s i bytes loss steps now k
Step-IsSaved s s' (reassigns timeout now) k = reassign_stale-IsSaved s timeout now k
Step-IsSaved s s' (advances dataset_size round_id uuid now s'' h e) k =
    auto_advance-IsSaved s s'' dataset_size round_id uuid now k h e

pub Reach-IsSaved : (s : LayerTrainingStore) → Reach s → IsSaved s
unfolding find execute_all distinct contains HashMap.get
Reach-IsSaved s here = record {
  unique = refl;
  same_rounds = λ i. refl;
  same_total = refl;
  same_first = refl;
}
Reach-IsSaved s (next s₀ s' k t) = Step-IsSaved s₀ s' t (Reach-IsSaved s₀ k)
