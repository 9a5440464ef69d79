-- ===== src/Layers/Merging.antt =====
-- layer_training.rs, `submit_adapter` and `auto_advance`: adapters, and the end of a round.
use hyverk_distributed_llm.Common.{
  ℕ, ◌+◌, ◌%◌, ◌<◌, String, ◌≡◌, refl, ap, true, false, inl, inr, ◌⊎◌, none, some, List, [], ◌∷◌,
  ◌++◌, map, arith, if◌then◌else◌, All, Bool-cases, all, any, update_first, str_eq,
}
use hyverk_distributed_llm.Layers.Schedule.{usize_mod, new_round, next_request}
use hyverk_distributed_llm.Layers.Schedule.Loop.{IsSchedule}
use hyverk_distributed_llm.Layers.Rounds.{create_round_ends}
use hyverk_distributed_llm.Layers.{
  LayerTrainingStore, TrainingRound, LayerAssignment, merging, is_merging, is_complete, add_round,
  receive, submit_rounds, submit_adapter, receive_in, has_assignment, all_complete, finish,
  finish_merging, should_create, auto_advance, save_round, save_adapter, save_total,
}

-- No round of the list has the assignment.
abbrev pub Lacks : String → List TrainingRound → Type 0
Lacks i rs = All (λ r. has_assignment i r ≡ false) rs

-- The rounds before and after an adapter, of which `r` is the first with the assignment.
abbrev pub IsSubmit :
    String → ℕ → ℕ → List TrainingRound → List TrainingRound → TrainingRound → Type 0
IsSubmit i loss steps rs rs' r' =
    (before : List TrainingRound) × (r : TrainingRound) × (after : List TrainingRound) × (rs
      ≡ before ++ r ∷ after)
    × Lacks i before
    × (has_assignment i r ≡ true)
    × (r' ≡ receive_in i loss steps r)
    × (rs' ≡ before ++ r' ∷ after)

submit_rounds_cases :
    (i : String) (loss steps : ℕ) (rs : List TrainingRound)
    → ((submit_rounds i loss steps rs ≡ none) × Lacks i rs)
      ⊎ ((rs' : List TrainingRound) × (r' : TrainingRound) × (submit_rounds i loss steps rs
            ≡ some (rs', r'))
          × IsSubmit i loss steps rs rs' r')
unfolding submit_rounds
submit_rounds_cases i loss steps [] = inl (refl, tt)
submit_rounds_cases i loss steps (r ∷ rs) = elim (Bool-cases (has_assignment i r)) [
  | inl h ↦ inr (
    receive_in i loss steps r ∷ rs,
    receive_in i loss steps r,
    rw h,
    ([], r, rs, refl, tt, h, refl, refl),
  )
  | inr h ↦ elim (submit_rounds_cases i loss steps rs) [
    | inl (e, k) ↦ inl (ground arith, (h, k))
    | inr (rs', r', e, (before, q, after, p, k, c, j, l)) ↦ inr (
      r ∷ rs',
      r',
      ground arith,
      (r ∷ before, q, after, ap (◌∷◌ r) p, (h, k), c, j, ap (◌∷◌ r) l),
    )
  ]
]

-- `submit_adapter` fails, and changes nothing, only if no round has the assignment. Otherwise it
-- changes the first round that has it: the assignment is complete and keeps the loss and the steps,
-- and if all assignments of the round are complete then, the round turns to merging and the number
-- of completed rounds grows by one. The round, the adapter and the number are saved, in this order.
pub submit_adapter_cases :
    (s : LayerTrainingStore) (i : String) (bytes : List ℕ) (loss steps now : ℕ)
    → ((submit_adapter s i bytes loss steps now ≡ (s, false)) × Lacks i s.rounds)
      ⊎ ((rs' : List TrainingRound) × (r' : TrainingRound) × (total : ℕ) × (submit_adapter s i bytes
              loss steps now
            ≡ (
              record s {
                rounds = rs';
                total_rounds_completed = total;
                log = s.log ++ (save_round r' ∷ save_adapter i bytes now ∷ save_total total ∷ []);
              },
              true,
            ))
          × (total ≡ (
              if all_complete r'
              then (s.total_rounds_completed + 1) % usize_mod
              else s.total_rounds_completed))
          × IsSubmit i loss steps s.rounds rs' r')
unfolding submit_adapter
submit_adapter_cases s i bytes loss steps now = elim (submit_rounds_cases i loss steps s.rounds) [
  | inl (e, k) ↦ inl (ground arith, k)
  | inr (rs', r', e, k) ↦ inr (rs', r', _, ground arith, refl, k)
]

all_complete_again :
    (i : String) (loss steps : ℕ) (xs : List LayerAssignment)
    → all (λ a. is_complete a.status) xs ≡ true
    → all
        (λ a. is_complete a.status)
        (update_first (λ a. str_eq a.assignment_id i) (receive loss steps) xs)
      ≡ true
unfolding all update_first
all_complete_again i loss steps [] h = refl
all_complete_again i loss steps (x ∷ xs) h = ground (arith, all_complete_again i loss steps xs)

submit_rounds-found :
    (i : String) (loss steps : ℕ) (before after : List TrainingRound) (r : TrainingRound)
    → Lacks i before
    → has_assignment i r ≡ true
    → submit_rounds i loss steps (before ++ r ∷ after)
      ≡ some (before ++ receive_in i loss steps r ∷ after, receive_in i loss steps r)
unfolding submit_rounds
submit_rounds-found i loss steps [] after r k h = rw h
submit_rounds-found i loss steps (b ∷ before) after r k h =
    rw (k.0, submit_rounds-found i loss steps before after r k.1 h)

-- An adapter that is sent again for a round whose assignments are all complete, the first round with
-- the assignment, counts the round once more and turns it back to merging, whatever its status was, even
-- if it was complete. The other rounds stay as they are.
pub submit_adapter_again :
    (s : LayerTrainingStore) (i : String) (bytes : List ℕ) (loss steps now : ℕ) (r : TrainingRound)
    (before after : List TrainingRound)
    → s.rounds ≡ before ++ r ∷ after
    → Lacks i before
    → has_assignment i r ≡ true
    → all_complete r ≡ true
    → let s' = (submit_adapter s i bytes loss steps now).0 in
      (s'.total_rounds_completed ≡ (s.total_rounds_completed + 1) % usize_mod)
      × (r' : TrainingRound) × (s'.rounds ≡ before ++ r' ∷ after)
      × (r'.round_id ≡ r.round_id)
      × (r'.status ≡ merging)
unfolding submit_adapter receive_in all_complete
submit_adapter_again s i bytes loss steps now r before after e k h c =
    let d = all_complete_again i loss steps r.assignments c in
    let found = submit_rounds-found i loss steps before after r k h in
    (
      ground (arith, found),
      receive_in i loss steps r,
      ground (arith, found),
      ground arith,
      ground arith,
    )

NoMerging-finish :
    (rs : List TrainingRound) → any (λ r. is_merging r.status) (map finish rs) ≡ false
unfolding any finish
NoMerging-finish [] = refl
NoMerging-finish (r ∷ rs) = ground (arith, NoMerging-finish rs)

-- If some round is merging, none is active and the dataset is not empty, `auto_advance` ends: every
-- merging round is complete then, no other round has changed, and the one round that is new stands
-- last, is active, and covers the 28 layers.
pub auto_advance_total :
    (s : LayerTrainingStore) (dataset_size : ℕ) (round_id : String) (uuid : ℕ → String) (now : ℕ)
    → should_create s ≡ true
    → 0 < dataset_size
    → let r = next_request s.total_rounds_completed dataset_size in
      (s' : LayerTrainingStore) × (xs : List LayerAssignment) × (auto_advance s dataset_size
          round_id uuid now
        ≡ some s')
      × (s'.rounds ≡ map finish s.rounds ++ new_round r round_id xs now ∷ [])
      × (any (λ r. is_merging r.status) (map finish s.rounds) ≡ false)
      × IsSchedule r 0 xs
unfolding auto_advance finish_merging add_round next_request
auto_advance_total s dataset_size round_id uuid now h p =
    let r = next_request s.total_rounds_completed dataset_size in
    let (xs, e, k) =
      create_round_ends (finish_merging s) r round_id uuid now (omega arith) (omega arith) in
    (
      add_round (finish_merging s) (new_round r round_id xs now) now,
      xs,
      ground arith,
      refl,
      NoMerging-finish s.rounds,
      k,
    )
