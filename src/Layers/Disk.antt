-- ===== src/Layers/Disk.antt =====
-- layer_training.rs: what the statements sent to SQLite leave in its tables, and a list of rounds
-- looked up by their ids.
use hyverk_distributed_llm.Common.{
  ℕ, String, ◌≡◌, refl, Bool, true, false, inl, inr, Option, none, some, List, [], ◌∷◌, ◌++◌, map,
  arith, if◌then◌else◌, is_some, str_eq, eq_iff, contains, distinct, find, filter, Bool-cases,
}
use hyverk_distributed_llm.Common.HashMap
use hyverk_distributed_llm.Common.HashMap.{HashMap, get-insert}
use hyverk_distributed_llm.Layers.Types.{
  TrainingRound, DbWrite, save_round, save_first_round_at, save_adapter, save_total,
}

-- The tables, each by its primary key; of `training_stats` the two keys that are in use.
pub record Disk : Type 0 where
  pub training_rounds : HashMap TrainingRound
  pub adapters : HashMap (List ℕ × ℕ)
  pub total_rounds_completed : ℕ
  pub first_round_at : Option ℕ

abbrev pub new_disk : Disk
new_disk = record {
  training_rounds = [];
  adapters = [];
  total_rounds_completed = 0;
  first_round_at = none;
}

-- INSERT OR REPLACE, and for `first_round_at` INSERT OR IGNORE.
abbrev pub execute : Disk → DbWrite → Disk
execute d (save_round r) = record d {
  training_rounds = HashMap.insert r.round_id r d.training_rounds;
}
execute d (save_first_round_at t) = record d {
  first_round_at = (if is_some d.first_round_at then d.first_round_at else some t);
}
execute d (save_adapter i bytes t) = record d { adapters = HashMap.insert i (bytes, t) d.adapters }
execute d (save_total n) = record d { total_rounds_completed = n }

unfoldable pub execute_all : Disk → List DbWrite → Disk
execute_all d [] = d
execute_all d (w ∷ ws) = execute_all (execute d w) ws

pub execute_all-append :
    (d : Disk) (xs ys : List DbWrite) → execute_all d (xs ++ ys) ≡ execute_all (execute_all d xs) ys
unfolding execute_all
execute_all-append d [] ys = refl
execute_all-append d (w ∷ xs) ys = execute_all-append (execute d w) xs ys

abbrev pub round_ids : List TrainingRound → List String
round_ids = map (λ r. r.round_id)

abbrev pub round_of : String → List TrainingRound → Option TrainingRound
round_of i = find (λ r. str_eq r.round_id i)

-- A round with a new id is found beside the others.
pub round_of-append :
    (i : String) (rs : List TrainingRound) (r : TrainingRound)
    → contains (round_ids rs) r.round_id ≡ false
    → round_of i (rs ++ r ∷ []) ≡ (if str_eq r.round_id i then some r else round_of i rs)
unfolding find contains
round_of-append i [] r h = refl
round_of-append i (q ∷ rs) r h = ground (
  arith,
  round_of-append i rs r,
  eq_iff q.round_id i,
  eq_iff r.round_id i,
  eq_iff q.round_id r.round_id,
)

pub contains-round_ids-append :
    (k : String) (before after : List TrainingRound) (r : TrainingRound)
    → r.round_id ≡ k
    → contains (round_ids (before ++ r ∷ after)) k ≡ true
unfolding contains
contains-round_ids-append k [] after r e = ground (arith, eq_iff r.round_id k)
contains-round_ids-append k (b ∷ before) after r e =
    ground (arith, contains-round_ids-append k before after r)

-- A round is replaced by one with the same id.
pub round_of-replace :
    (i : String) (before after : List TrainingRound) (r r' : TrainingRound)
    → r'.round_id ≡ r.round_id
    → distinct (round_ids (before ++ r ∷ after)) ≡ true
    → round_of i (before ++ r' ∷ after)
      ≡ (if str_eq r.round_id i then some r' else round_of i (before ++ r ∷ after))
unfolding find distinct
round_of-replace i [] after r r' e d = ground (arith, eq_iff r.round_id i, eq_iff r'.round_id i)
round_of-replace i (b ∷ before) after r r' e d = ground (
  arith,
  round_of-replace i before after r r',
  eq_iff b.round_id i,
  eq_iff r.round_id i,
  contains-round_ids-append b.round_id before after r,
)

-- Several rounds are changed in place and those that changed are saved.
module _ (f : TrainingRound → TrainingRound) (p : TrainingRound → Bool)
    (same : (r : TrainingRound) → (f r).round_id ≡ r.round_id)
    (rest : (r : TrainingRound) → p r ≡ false → f r ≡ r) where
  abbrev pub saves : List TrainingRound → List DbWrite
  saves rs = map (λ r. save_round (f r)) (filter p rs)

  pub saves-absent :
      (i : String) (d : Disk) (rs : List TrainingRound)
      → contains (round_ids rs) i ≡ false
      → HashMap.get i (execute_all d (saves rs)).training_rounds ≡ HashMap.get i d.training_rounds
  unfolding contains filter execute_all
  saves-absent i d [] h = refl
  saves-absent i d (r ∷ rs) h = elim (Bool-cases (p r)) [
    | inl k ↦
        let rec =
          saves-absent i
            (record d { training_rounds = HashMap.insert (f r).round_id (f r) d.training_rounds })
            rs in
        ground (
          arith,
          same r,
          rec,
          get-insert (f r).round_id i (f r) d.training_rounds,
          eq_iff r.round_id i,
        )
    | inr k ↦ ground (arith, saves-absent i d rs)
  ]

  pub saves-round_of :
      (i : String) (d : Disk) (rs : List TrainingRound)
      → distinct (round_ids rs) ≡ true
      → HashMap.get i d.training_rounds ≡ round_of i rs
      → HashMap.get i (execute_all d (saves rs)).training_rounds ≡ round_of i (map f rs)
  unfolding distinct filter execute_all find
  saves-round_of i d [] h e = e
  saves-round_of i d (r ∷ rs) h e = elim (Bool-cases (p r)) [
    | inl k ↦
        let d' = record d {
          training_rounds = HashMap.insert (f r).round_id (f r) d.training_rounds;
        } in
        ground (
          arith,
          same r,
          saves-round_of i d' rs,
          saves-absent i d' rs,
          get-insert (f r).round_id i (f r) d.training_rounds,
          eq_iff r.round_id i,
        )
    | inr k ↦
        ground
          (arith, same r, rest r k, saves-round_of i d rs, saves-absent i d rs, eq_iff r.round_id i)
  ]
