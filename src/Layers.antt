-- ===== src/Layers.antt =====
-- server/coordinator/src/layer_training.rs: rounds of layer-sharded training. Times are seconds,
-- `now` is the clock at the call, and ids are the UUIDs that the caller's random source gives.
-- Floats are carried as their bit patterns, and each SQLite write is an entry of a log.
mod Types
pub use Types.*
pub mod Schedule
pub mod Rounds
pub mod Merging
pub mod Disk
pub mod Durability
pub mod Runs
pub mod Stale
pub mod Reopening
mod Examples
use mathlib.Core.Option
use hyverk_distributed_llm.Common.{
  ℕ, zero, suc, ◌+◌, ◌-◌, ◌*◌, ◌/◌, ◌%◌, ◌^◌, min, max, String, Bool, true, false, not, ◌&&◌, ◌||◌,
  Option, none, some, List, [], ◌∷◌, ◌++◌, map, if◌then◌else◌, ltb, ◌==◌, is_some, str_eq, length,
  all, any, filter, find, update_first,
}
use hyverk_distributed_llm.Layers.Schedule.{usize_mod, make_assignments, new_round, next_request}

pub add_round : LayerTrainingStore → TrainingRound → ℕ → LayerTrainingStore
add_round s round now = record s {
  rounds = s.rounds ++ round ∷ [];
  first_round_at = (if is_some s.first_round_at then s.first_round_at else some now);
  log = s.log ++ (save_round round ∷ save_first_round_at now ∷ []);
}

-- The fuel is the number of layers.
pub create_round :
    LayerTrainingStore
    → RoundRequest
    → String
    → (ℕ → String)
    → ℕ
    → Option (LayerTrainingStore × String)
create_round s r round_id uuid now =
    Option.map (λ xs. (add_round s (new_round r round_id xs now) now, round_id))
      (make_assignments r.total_layers r uuid 0 0 0)

abbrev pub claim_as : String → ℕ → LayerAssignment → LayerAssignment
claim_as node_id now a = record a {
  status = assigned;
  assigned_to = some node_id;
  assigned_at = some now;
}

-- The first available assignment of a round that is active.
pub candidate : TrainingRound → Option LayerAssignment
candidate r = if is_active r.status then find (λ a. is_available a.status) r.assignments else none

pub claim_in : String → ℕ → TrainingRound → TrainingRound
claim_in node_id now r = record r {
  assignments = update_first (λ a. is_available a.status) (claim_as node_id now) r.assignments;
}

-- The new rounds, the claimed assignment, and the round that it stands in.
pub claim_rounds :
    String → ℕ → List TrainingRound → Option (List TrainingRound × LayerAssignment × TrainingRound)
claim_rounds node_id now [] = none
claim_rounds node_id now (r ∷ rs) = elim (candidate r) [
  | none ↦ Option.map (λ x. (r ∷ x.0, x.1, x.2)) (claim_rounds node_id now rs)
  | some a ↦ some (claim_in node_id now r ∷ rs, claim_as node_id now a, claim_in node_id now r)
]

pub claim_assignment : LayerTrainingStore → String → ℕ → LayerTrainingStore × Option LayerAssignment
claim_assignment s node_id now = elim (claim_rounds node_id now s.rounds) [
  | none ↦ (s, none)
  | some (rounds', a, r) ↦ (record s { rounds = rounds'; log = s.log ++ save_round r ∷ [] }, some a)
]

abbrev pub receive : ℕ → ℕ → LayerAssignment → LayerAssignment
receive loss steps a = record a {
  status = completed;
  adapter_received = true;
  training_loss = some loss;
  training_steps = some steps;
}

pub has_assignment : String → TrainingRound → Bool
has_assignment i r = any (λ a. str_eq a.assignment_id i) r.assignments

pub all_complete : TrainingRound → Bool
all_complete r = all (λ a. is_complete a.status) r.assignments

-- The round after an adapter for one of its assignments.
pub receive_in : String → ℕ → ℕ → TrainingRound → TrainingRound
receive_in i loss steps r =
    let r' = record r {
      assignments = update_first (λ a. str_eq a.assignment_id i) (receive loss steps) r.assignments;
    } in
    if all_complete r' then record r' { status = merging } else r'

-- The new rounds, and the round that has the assignment.
pub submit_rounds :
    String → ℕ → ℕ → List TrainingRound → Option (List TrainingRound × TrainingRound)
submit_rounds i loss steps [] = none
submit_rounds i loss steps (r ∷ rs) =
    let rest = Option.map (λ x. (r ∷ x.0, x.1)) (submit_rounds i loss steps rs) in
    if has_assignment i r
    then some (receive_in i loss steps r ∷ rs, receive_in i loss steps r)
    else rest

pub submit_adapter : LayerTrainingStore → String → List ℕ → ℕ → ℕ → ℕ → LayerTrainingStore × Bool
submit_adapter s i adapter_bytes loss steps now = elim (submit_rounds i loss steps s.rounds) [
  | none ↦ (s, false)
  | some (rounds', r) ↦
      let total =
        if all_complete r
        then (s.total_rounds_completed + 1) % usize_mod
        else s.total_rounds_completed in
      (
        record s {
          rounds = rounds';
          total_rounds_completed = total;
          log = s.log ++ (save_round r ∷ save_adapter i adapter_bytes now ∷ save_total total ∷ []);
        },
        true,
      )
]

-- `now - at > timeout_secs` on `u64`, which wraps around in a release build.
pub is_stale : ℕ → ℕ → LayerAssignment → Bool
is_stale timeout now a = is_assigned a.status && (elim a.assigned_at [
  | none ↦ false
  | some at ↦ ltb timeout ((now + usize_mod - at) % usize_mod)
])

pub release : ℕ → ℕ → LayerAssignment → LayerAssignment
release timeout now a =
    if is_stale timeout now a
    then record a { status = available; assigned_to = none; assigned_at = none }
    else a

pub has_stale : ℕ → ℕ → TrainingRound → Bool
has_stale timeout now r = is_active r.status && any (is_stale timeout now) r.assignments

pub release_in : ℕ → ℕ → TrainingRound → TrainingRound
release_in timeout now r =
    if is_active r.status
    then record r { assignments = map (release timeout now) r.assignments }
    else r

pub reassign_stale : LayerTrainingStore → ℕ → ℕ → LayerTrainingStore
reassign_stale s timeout now = record s {
  rounds = map (release_in timeout now) s.rounds;
  log =
      s.log
      ++ map (λ r. save_round (release_in timeout now r)) (filter (has_stale timeout now) s.rounds);
}

pub finish : TrainingRound → TrainingRound
finish r = if is_merging r.status then record r { status = complete } else r

-- Rounds whose merge is taken as done.
pub finish_merging : LayerTrainingStore → LayerTrainingStore
finish_merging s = record s {
  rounds = map finish s.rounds;
  log = s.log ++ map (λ r. save_round (finish r)) (filter (λ r. is_merging r.status) s.rounds);
}

pub should_create : LayerTrainingStore → Bool
should_create s =
    any (λ r. is_merging r.status) s.rounds && not (any (λ r. is_active r.status) s.rounds)

-- `none` is a `create_round` that does not end.
pub auto_advance : LayerTrainingStore → ℕ → String → (ℕ → String) → ℕ → Option LayerTrainingStore
auto_advance s dataset_size round_id uuid now =
    let created =
      Option.map (λ x. x.0)
        (create_round (finish_merging s) (next_request s.total_rounds_completed dataset_size)
          round_id uuid now) in
    if should_create s && ltb 0 dataset_size then created else some s

pub active_round : LayerTrainingStore → Option TrainingRound
active_round s = find (λ r. is_active r.status || is_merging r.status) s.rounds

pub all_rounds : LayerTrainingStore → List TrainingRound
all_rounds s = s.rounds
