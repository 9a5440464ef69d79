-- ===== src/Layers/Reopening.antt =====
-- layer_training.rs, `open`: the store after a restart of the coordinator. Rows with one time are
-- taken in the order in which they were first written, which SQLite leaves open. What `serde_json`
-- reads from the JSON that it wrote of a round is a parameter.
use hyverk_distributed_llm.Common.{
  String, ◌≡◌, refl, sym, subst, ◌∙◌, true, false, ◌||◌, List, [], ◌∷◌, arith, if◌then◌else◌, leb,
  str_eq, eq_iff, contains, distinct, find, All, none, some, inl, inr, Bool-cases, Option,
  Option-cases, ltb, ◌%◌, ◌^◌,
}
use hyverk_distributed_llm.Common.HashMap
use hyverk_distributed_llm.Common.HashMap.{HashMap, IsMap, keys, values, insert-IsMap}
use hyverk_distributed_llm.Layers.Disk.{Disk, new_disk, execute, execute_all, round_ids, round_of}
use hyverk_distributed_llm.Layers.Durability.{disk}
use hyverk_distributed_llm.Layers.Runs.{Reach, Reach-IsSaved}
use hyverk_distributed_llm.Layers.Types.{
  LayerTrainingStore, TrainingRound, DbWrite, save_round, save_first_round_at, save_adapter,
  save_total,
}

-- ORDER BY created_at
insert_row : TrainingRound → List TrainingRound → List TrainingRound
insert_row r [] = r ∷ []
insert_row r (q ∷ rs) = if leb r.created_at q.created_at then r ∷ q ∷ rs else q ∷ insert_row r rs

sort_rows : List TrainingRound → List TrainingRound
sort_rows [] = []
sort_rows (r ∷ rs) = insert_row r (sort_rows rs)

-- The loop over the rows: `read_back` is `from_str` on the row's JSON, and `none` its error.
read_rows : (TrainingRound → Option TrainingRound) → List TrainingRound → List TrainingRound
read_rows read_back [] = []
read_rows read_back (r ∷ rs) =
    let rest = read_rows read_back rs in elim (read_back r) [ none ↦ rest | some q ↦ q ∷ rest ]

pub open_store : (TrainingRound → Option TrainingRound) → Disk → LayerTrainingStore
open_store read_back d = record {
  rounds = read_rows read_back (sort_rows (values d.training_rounds));
  total_rounds_completed = d.total_rounds_completed;
  first_round_at = d.first_round_at;
  log = [];
}

-- Every loss is finite: JSON has no number for an infinite one or for a NaN.
abbrev pub IsFinite : TrainingRound → Type 0
IsFinite r =
    All
      (λ a.
        elim a.training_loss [ none ↦ true | some bits ↦ ltb (bits % 2 ^ 31) 2139095040 ] ≡ true)
      r.assignments

contains-insert_row :
    (k : String) (r : TrainingRound) (rs : List TrainingRound)
    → contains (round_ids (insert_row r rs)) k ≡ str_eq r.round_id k || contains (round_ids rs) k
unfolding contains insert_row
contains-insert_row k r [] = refl
contains-insert_row k r (q ∷ rs) = ground (arith, contains-insert_row k r rs)

contains-sort_rows :
    (k : String) (rs : List TrainingRound)
    → contains (round_ids (sort_rows rs)) k ≡ contains (round_ids rs) k
unfolding contains sort_rows
contains-sort_rows k [] = refl
contains-sort_rows k (r ∷ rs) =
    ground (arith, contains-insert_row k r (sort_rows rs), contains-sort_rows k rs)

round_of-insert_row :
    (i : String) (r : TrainingRound) (rs : List TrainingRound)
    → contains (round_ids rs) r.round_id ≡ false
    → round_of i (insert_row r rs) ≡ (if str_eq r.round_id i then some r else round_of i rs)
unfolding find insert_row contains
round_of-insert_row i r [] h = ground arith
round_of-insert_row i r (q ∷ rs) h = ground (
  arith,
  round_of-insert_row i r rs,
  eq_iff q.round_id i,
  eq_iff r.round_id i,
  eq_iff q.round_id r.round_id,
)

round_of-sort_rows :
    (i : String) (rs : List TrainingRound)
    → distinct (round_ids rs) ≡ true
    → round_of i (sort_rows rs) ≡ round_of i rs
unfolding find sort_rows distinct
round_of-sort_rows i [] h = refl
round_of-sort_rows i (r ∷ rs) h = ground (
  arith,
  round_of-sort_rows i rs,
  contains-sort_rows r.round_id rs,
  round_of-insert_row i r (sort_rows rs),
)

distinct-insert_row :
    (r : TrainingRound) (rs : List TrainingRound)
    → contains (round_ids rs) r.round_id ≡ false
    → distinct (round_ids rs) ≡ true
    → distinct (round_ids (insert_row r rs)) ≡ true
unfolding distinct contains insert_row
distinct-insert_row r [] n h = refl
distinct-insert_row r (q ∷ rs) n h = ground (
  arith,
  distinct-insert_row r rs,
  contains-insert_row q.round_id r rs,
  eq_iff q.round_id r.round_id,
  eq_iff r.round_id q.round_id,
)

distinct-sort_rows :
    (rs : List TrainingRound)
    → distinct (round_ids rs) ≡ true
    → distinct (round_ids (sort_rows rs)) ≡ true
unfolding distinct sort_rows
distinct-sort_rows [] h = refl
distinct-sort_rows (r ∷ rs) h = ground (
  arith,
  distinct-sort_rows rs,
  contains-sort_rows r.round_id rs,
  distinct-insert_row r (sort_rows rs),
)

round_of-absent :
    (i : String) (rs : List TrainingRound)
    → contains (round_ids rs) i ≡ false
    → round_of i rs ≡ none
unfolding find contains
round_of-absent i [] h = refl
round_of-absent i (r ∷ rs) h = ground (arith, round_of-absent i rs)

module _ (read_back : TrainingRound → Option TrainingRound)
    (keeps_id : (r q : TrainingRound) → read_back r ≡ some q → q.round_id ≡ r.round_id) where
  round_of-read_rows :
      (i : String) (rs : List TrainingRound)
      → distinct (round_ids rs) ≡ true
      → round_of i (read_rows read_back rs)
        ≡ elim (round_of i rs) [ none ↦ none | some r ↦ read_back r ]
  unfolding find read_rows distinct
  round_of-read_rows i [] h = refl
  round_of-read_rows i (r ∷ rs) h = elim (Option-cases (read_back r)) [
    | inl e ↦ ground (arith, e, round_of-read_rows i rs, round_of-absent i rs, eq_iff r.round_id i)
    | inr (q, e) ↦ ground (arith, e, keeps_id r q e, round_of-read_rows i rs)
  ]

-- Each row stands under its own id.
abbrev IsKeyed : HashMap TrainingRound → Type 0
IsKeyed m = All (λ e. e.1.round_id ≡ e.0) m

insert-IsKeyed :
    (r : TrainingRound) (m : HashMap TrainingRound)
    → IsKeyed m
    → IsKeyed (HashMap.insert r.round_id r m)
unfolding HashMap.insert
insert-IsKeyed r [] k = (refl, tt)
insert-IsKeyed r ((j, w) ∷ m) (e, k) = elim (Bool-cases (str_eq j r.round_id)) [
  | inl s ↦ rw s (ground (arith, eq_iff j r.round_id), k)
  | inr s ↦ rw s (e, insert-IsKeyed r m k)
]

round_ids-values : (m : HashMap TrainingRound) → IsKeyed m → round_ids (values m) ≡ keys m
unfolding values
round_ids-values [] k = refl
round_ids-values ((j, w) ∷ m) (e, k) = cc (e, round_ids-values m k)

round_of-values :
    (i : String) (m : HashMap TrainingRound) → IsKeyed m → round_of i (values m) ≡ HashMap.get i m
unfolding values find HashMap.get
round_of-values i [] k = refl
round_of-values i ((j, w) ∷ m) (e, k) = ground (arith, e, round_of-values i m k)

execute_all-IsKeyed :
    (d : Disk) (ws : List DbWrite)
    → IsKeyed d.training_rounds
    → IsMap d.training_rounds
    → IsKeyed (execute_all d ws).training_rounds × IsMap (execute_all d ws).training_rounds
unfolding execute_all
execute_all-IsKeyed d [] k m = (k, m)
execute_all-IsKeyed d (save_round r ∷ ws) k m =
    execute_all-IsKeyed (execute d (save_round r)) ws (insert-IsKeyed r d.training_rounds k)
      (insert-IsMap r.round_id r d.training_rounds m)
execute_all-IsKeyed d (save_first_round_at t ∷ ws) k m =
    execute_all-IsKeyed (execute d (save_first_round_at t)) ws k m
execute_all-IsKeyed d (save_adapter i bytes t ∷ ws) k m =
    execute_all-IsKeyed (execute d (save_adapter i bytes t)) ws k m
execute_all-IsKeyed d (save_total n ∷ ws) k m =
    execute_all-IsKeyed (execute d (save_total n)) ws k m

-- After any operations, with ids of new rounds that no other has and statements that succeed, and a
-- restart: if JSON gives back a round with finite losses as it was, and any round it gives back under
-- its id, then `open` reads back each round with finite losses that was in memory as it was, no round
-- under an id that had none, the number of completed rounds and the time of the first.
pub open_store-disk :
    (read_back : TrainingRound → Option TrainingRound)
    (keeps_id : (r q : TrainingRound) → read_back r ≡ some q → q.round_id ≡ r.round_id)
    (keeps_finite : (r : TrainingRound) → IsFinite r → read_back r ≡ some r)
    (s : LayerTrainingStore) (i : String)
    → Reach s
    → ((r : TrainingRound) → round_of i s.rounds ≡ some r → IsFinite r)
    → (round_of i (open_store read_back (disk s)).rounds ≡ round_of i s.rounds)
      × ((open_store read_back (disk s)).total_rounds_completed ≡ s.total_rounds_completed)
      × ((open_store read_back (disk s)).first_round_at ≡ s.first_round_at)
unfolding open_store distinct
open_store-disk read_back keeps_id keeps_finite s i h finite =
    let k = Reach-IsSaved s h in
    let (keyed, m) = execute_all-IsKeyed new_disk s.log tt refl in
    let rows = (disk s).training_rounds in
    let d : distinct (round_ids (values rows)) ≡ true =
      subst (λ is. distinct is ≡ true) (sym (round_ids-values rows keyed)) m in
    let sorted : round_of i (sort_rows (values rows)) ≡ round_of i s.rounds =
      round_of-sort_rows i (values rows) d ∙ round_of-values i rows keyed ∙ k.same_rounds i in
    let read =
      round_of-read_rows read_back keeps_id i (sort_rows (values rows))
        (distinct-sort_rows (values rows) d) in
    let same : round_of i (open_store read_back (disk s)).rounds ≡ round_of i s.rounds =
      elim (Option-cases (round_of i s.rounds)) [
        | inl e ↦ ground (arith, e, sorted, read)
        | inr (r, e) ↦ ground (arith, e, sorted, read, keeps_finite r (finite r e))
      ] in
    (same, k.same_total, k.same_first)
