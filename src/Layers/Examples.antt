-- ===== src/Layers/Examples.antt =====
-- layer_training.rs: the theorems at concrete inputs.
use hyverk_distributed_llm.Common.{
  contains, ℕ, String, ◌≡◌, refl, true, none, some, List, [], ◌∷◌, any, all, zero, suc, arith,
  Option, subst, All, find, update_first,
}
use hyverk_distributed_llm.Layers.Schedule.{make_assignments, new_round, next_version, decimal}
use hyverk_distributed_llm.Layers.Schedule.Loop.{IsSchedule, make_assignments-none}
use hyverk_distributed_llm.Layers.Rounds.{create_round_total}
use hyverk_distributed_llm.Layers.Durability.{disk}
use hyverk_distributed_llm.Layers.Disk.{round_of}
use hyverk_distributed_llm.Layers.Reopening.{open_store, IsFinite, open_store-disk}
use hyverk_distributed_llm.Layers.Runs.{empty_store, Reach, here, next, creates, claims}
use hyverk_distributed_llm.Layers.Merging.{submit_adapter_again}
use hyverk_distributed_llm.Layers
use hyverk_distributed_llm.Layers.{
  assigned, assigned, available, all_complete, active, save_round, save_first_round_at,
  LayerTrainingStore, RoundRequest, TrainingRound, LayerAssignment, merging, complete, completed,
  add_round, create_round, claim_assignment, submit_adapter, has_assignment, all_complete,
}

abbrev request : RoundRequest
request = record {
  version = [];
  base_model = "m";
  total_layers = 5;
  layers_per_assignment = 2;
  dataset_size = 1200;
  examples_per_shard = 500;
}

abbrev no_layers : RoundRequest
no_layers = record request { layers_per_assignment = 0 }

abbrev uuid : ℕ → String
uuid i = elim i [ zero ↦ "a0" | suc zero ↦ "a1" | suc (suc j) ↦ "a2" ]

abbrev done : LayerAssignment
done = record {
  assignment_id = "a0";
  layer_start = 0;
  layer_end = 28;
  data_shard_start = 0;
  data_shard_size = 10;
  status = completed;
  assigned_to = some "n";
  assigned_at = some 5;
  adapter_received = true;
  training_loss = some 1;
  training_steps = some 7;
}

abbrev complete_round : TrainingRound
complete_round = record (new_round request "r0" (done ∷ []) 3) { status = complete }

abbrev merging_round : TrainingRound
merging_round = record (new_round request "r0" (done ∷ []) 3) { status = merging }

abbrev open_round : TrainingRound
open_round =
    new_round request "r0" ((record done { status = available; assigned_to = none }) ∷ []) 3

abbrev free_store : LayerTrainingStore
free_store = record empty_store { rounds = open_round ∷ [] }

-- A round of which nothing was claimed, in front of one that is done.
abbrev other_round : TrainingRound
other_round =
    new_round request "r9"
      ((record done { assignment_id = "b0"; status = available; assigned_to = none }) ∷ []) 2

abbrev after_rounds : LayerTrainingStore
after_rounds = record empty_store {
  rounds = other_round ∷ complete_round ∷ [];
  total_rounds_completed = 1;
}

abbrev before_round : LayerTrainingStore
before_round = record empty_store { rounds = merging_round ∷ []; total_rounds_completed = 1 }

-- The version of the round after nine completed ones is v0.1-r10.
tenth_version : next_version 9 ≡ 118 ∷ 48 ∷ 46 ∷ 49 ∷ 45 ∷ 114 ∷ 49 ∷ 48 ∷ []
unfolding next_version decimal
tenth_version = refl

create_round_total_example :
    (xs : List LayerAssignment) × (round : TrainingRound) × (s' : LayerTrainingStore)
    × (create_round empty_store request "r0" uuid 3 ≡ some (s', "r0"))
    × (round ≡ record {
      round_id = "r0";
      version = [];
      base_model = "m";
      total_layers = 5;
      layers_per_assignment = 2;
      status = active;
      assignments = xs;
      created_at = 3;
    })
    × (s' ≡ record {
      rounds = round ∷ [];
      total_rounds_completed = 0;
      first_round_at = some 3;
      log = save_round round ∷ save_first_round_at 3 ∷ [];
    })
    × IsSchedule request 0 xs
create_round_total_example =
    create_round_total empty_store request "r0" uuid 3 (omega arith) (omega arith)

make_assignments-none_example : make_assignments 5 no_layers uuid 0 0 0 ≡ none
make_assignments-none_example =
    make_assignments-none 5 no_layers uuid 0 0 0 refl (omega arith) (omega arith)

submit_adapter_again_example :
    let s' = (submit_adapter after_rounds "a0" [] 1 7 9).0 in
    (s'.total_rounds_completed ≡ 2)
    × (r' : TrainingRound) × (s'.rounds ≡ other_round ∷ r' ∷ [])
    × (r'.round_id ≡ "r0")
    × (r'.status ≡ merging)
unfolding has_assignment all_complete any all new_round
submit_adapter_again_example =
    submit_adapter_again after_rounds "a0" [] 1 7 9 complete_round (other_round ∷ []) [] refl
      (refl, tt) refl refl

abbrev held_round : TrainingRound
held_round =
    new_round request "r0" ((record done { status = assigned; assigned_at = some 5 }) ∷ []) 3

abbrev held_store : LayerTrainingStore
held_store = record empty_store { rounds = held_round ∷ [] }

-- A round is created and an assignment of it is claimed.
abbrev first_store : LayerTrainingStore
first_store = create_round_total_example.2

abbrev two_steps : LayerTrainingStore
two_steps = (claim_assignment first_store "n" 4).0

-- The store after a claim in a round that was created on an empty database, written out.
abbrev made : LayerTrainingStore
made = elim (create_round empty_store request "r0" uuid 3) [ none ↦ empty_store | some (s, i) ↦ s ]

abbrev claimed : LayerTrainingStore
claimed = (claim_assignment made "n" 4).0

claimed-Reach : Reach claimed
unfolding contains create_round make_assignments add_round new_round
claimed-Reach = next _ _ (next _ _ here (creates request "r0" uuid 3 made refl refl)) (claims "n" 4)

-- Its round has no loss yet.
claimed-IsFinite : (r : TrainingRound) → round_of "r0" claimed.rounds ≡ some r → IsFinite r
unfolding create_round make_assignments add_round new_round claim_assignment find
    Layers.claim_rounds Layers.candidate Layers.claim_in update_first
claimed-IsFinite r e = from (round_of "r0" claimed.rounds) (refl, (refl, (refl, tt))) r e
  where
    from :
        (found : Option TrainingRound)
        → elim found as (λ _. Type 0) [
          | none ↦ All (λ (r : TrainingRound). IsFinite r) []
          | some r ↦ IsFinite r
        ]
        → (r : TrainingRound) → found ≡ some r
        → IsFinite r
    from none h r e = absurd (ground arith)
    from (some q) h r e = let same : q ≡ r = cc e in subst IsFinite same h

open_store-disk_example :
    let s = open_store some (disk claimed) in
    (round_of "r0" s.rounds ≡ round_of "r0" claimed.rounds)
    × (s.total_rounds_completed ≡ claimed.total_rounds_completed)
    × (s.first_round_at ≡ claimed.first_round_at)
open_store-disk_example =
    open_store-disk some (λ r q e. ground (arith, e)) (λ r h. refl) claimed "r0" claimed-Reach
      claimed-IsFinite
