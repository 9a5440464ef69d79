-- ===== src/Layers/Rounds.antt =====
-- layer_training.rs: how rounds begin, are claimed from, and end.
use hyverk_distributed_llm.Common.{
  ℕ, ◌+◌, ◌<◌, String, ◌≡◌, refl, ap, inl, inr, ◌⊎◌, none, some, List, [], ◌∷◌, ◌++◌, arith, All,
  Option-cases, filter, find, update_first, length,
}
use hyverk_distributed_llm.Layers.Schedule.{usize_mod, new_round}
use hyverk_distributed_llm.Layers.Schedule.Loop.{IsSchedule, make_assignments_total}
use hyverk_distributed_llm.Layers.{
  LayerTrainingStore, RoundRequest, TrainingRound, LayerAssignment, active, save_first_round_at,
  is_available, add_round, create_round, claim_as, candidate, claim_in, claim_rounds,
  claim_assignment, save_round,
}

pub create_round_ends :
    (s : LayerTrainingStore) (r : RoundRequest) (round_id : String) (uuid : ℕ → String) (now : ℕ)
    → 0 < r.layers_per_assignment
    → r.total_layers + r.layers_per_assignment < usize_mod
    → (xs : List LayerAssignment) × (create_round s r round_id uuid now
        ≡ some (add_round s (new_round r round_id xs now) now, round_id))
      × IsSchedule r 0 xs
unfolding create_round
create_round_ends s r round_id uuid now p b =
    let (xs, e, ok) =
      make_assignments_total r.total_layers r uuid 0 0 0 p b (omega arith) (omega arith)
        (omega arith) in
    (xs, rw e, ok)

-- If an assignment is to have at least one layer and the sum of both numbers of layers fits into 64
-- bits, `create_round` ends. It adds one round behind the others, which is active, has the id, the
-- version and the sizes asked for and the time of the call, and whose assignments cover the layers from
-- 0 to `total_layers` in order and without a gap, each with the layers asked for unless the last are
-- fewer, each free, and each with a data shard inside the dataset. The round is saved, and then the time
-- of the first round, which is the call's if none was known.
pub create_round_total :
    (s : LayerTrainingStore) (r : RoundRequest) (round_id : String) (uuid : ℕ → String) (now : ℕ)
    → 0 < r.layers_per_assignment
    → r.total_layers + r.layers_per_assignment < usize_mod
    → (xs : List LayerAssignment) × (round : TrainingRound) × (s' : LayerTrainingStore)
      × (create_round s r round_id uuid now ≡ some (s', round_id))
      × (round ≡ record {
        round_id = round_id;
        version = r.version;
        base_model = r.base_model;
        total_layers = r.total_layers;
        layers_per_assignment = r.layers_per_assignment;
        status = active;
        assignments = xs;
        created_at = now;
      })
      × (s' ≡ record {
        rounds = s.rounds ++ round ∷ [];
        total_rounds_completed = s.total_rounds_completed;
        first_round_at = elim s.first_round_at [ none ↦ some now | some t ↦ some t ];
        log = s.log ++ save_round round ∷ save_first_round_at now ∷ [];
      })
      × IsSchedule r 0 xs
unfolding add_round new_round
create_round_total s r round_id uuid now p b =
    let (xs, e, ok) = create_round_ends s r round_id uuid now p b in
    (
      xs,
      new_round r round_id xs now,
      add_round s (new_round r round_id xs now) now,
      e,
      refl,
      ground arith,
      ok,
    )

-- The number of assignments of a round that are free.
abbrev pub free : TrainingRound → ℕ
free r = length (filter (λ a. is_available a.status) r.assignments)

length-filter-claim :
    (node_id : String) (now : ℕ) (xs : List LayerAssignment) (a : LayerAssignment)
    → find (λ a. is_available a.status) xs ≡ some a
    → length (
          filter
            (λ a. is_available a.status)
            (update_first (λ a. is_available a.status) (claim_as node_id now) xs))
        + 1
      ≡ length (filter (λ a. is_available a.status) xs)
unfolding find filter update_first
length-filter-claim node_id now [] a e = cc
length-filter-claim node_id now (x ∷ xs) a e = ground (arith, length-filter-claim node_id now xs a)

free-claim_in :
    (node_id : String) (now : ℕ) (r : TrainingRound) (a : LayerAssignment)
    → candidate r ≡ some a
    → free (claim_in node_id now r) + 1 ≡ free r
unfolding candidate claim_in
free-claim_in node_id now r a e = ground (arith, length-filter-claim node_id now r.assignments a)

abbrev pub NoCandidate : List TrainingRound → Type 0
NoCandidate rs = All (λ r. candidate r ≡ none) rs

-- The round that a claim changes: the first of the list with a free assignment.
abbrev pub IsClaim :
    String → ℕ → List TrainingRound → List TrainingRound → LayerAssignment → TrainingRound → Type 0
IsClaim node_id now rs rs' a r' =
    (before : List TrainingRound) × (r : TrainingRound) × (after : List TrainingRound)
    × (x : LayerAssignment) × (rs ≡ before ++ r ∷ after)
    × NoCandidate before
    × (candidate r ≡ some x)
    × (a ≡ claim_as node_id now x)
    × (r' ≡ claim_in node_id now r)
    × (rs' ≡ before ++ r' ∷ after)
    × (free r' + 1 ≡ free r)

claim_rounds_cases :
    (node_id : String) (now : ℕ) (rs : List TrainingRound)
    → ((claim_rounds node_id now rs ≡ none) × NoCandidate rs)
      ⊎ ((rs' : List TrainingRound) × (a : LayerAssignment) × (r' : TrainingRound) × (claim_rounds
              node_id now rs
            ≡ some (rs', a, r'))
          × IsClaim node_id now rs rs' a r')
unfolding claim_rounds
claim_rounds_cases node_id now [] = inl (refl, tt)
claim_rounds_cases node_id now (r ∷ rs) = elim (Option-cases (candidate r)) [
  | inl n ↦ elim (claim_rounds_cases node_id now rs) [
    | inl (e, k) ↦ inl (ground arith, (n, k))
    | inr (rs', a, r', e, (before, q, after, x, p, k, c, i, j, l, m)) ↦ inr (
      r ∷ rs',
      a,
      r',
      ground arith,
      (r ∷ before, q, after, x, ap (◌∷◌ r) p, (n, k), c, i, j, ap (◌∷◌ r) l, m),
    )
  ]
  | inr (x, e) ↦ inr (
    claim_in node_id now r ∷ rs,
    claim_as node_id now x,
    claim_in node_id now r,
    ground arith,
    ([], r, rs, x, refl, tt, e, refl, refl, refl, free-claim_in node_id now r x e),
  )
]

-- `claim_assignment` fails only if no active round has a free assignment, and then changes nothing.
-- Otherwise it hands the node the first free assignment of the first such round, saves that round,
-- which has one free assignment less, and changes no other.
pub claim_assignment_cases :
    (s : LayerTrainingStore) (node_id : String) (now : ℕ)
    → ((claim_assignment s node_id now ≡ (s, none)) × NoCandidate s.rounds)
      ⊎ ((rs' : List TrainingRound) × (a : LayerAssignment) × (r' : TrainingRound)
          × (claim_assignment s node_id now
              ≡ (record s { rounds = rs'; log = s.log ++ save_round r' ∷ [] }, some a))
          × IsClaim node_id now s.rounds rs' a r')
unfolding claim_assignment
claim_assignment_cases s node_id now = elim (claim_rounds_cases node_id now s.rounds) [
  | inl (e, k) ↦ inl (ground arith, k)
  | inr (rs', a, r', e, k) ↦ inr (rs', a, r', ground arith, k)
]
