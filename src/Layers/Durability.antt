-- ===== src/Layers/Durability.antt =====
-- layer_training.rs: the store in memory and the one on disk say the same.
use hyverk_distributed_llm.Common.{
  ℕ, String, ◌≡◌, refl, ap, sym, subst, ◌∙◌, Bool, true, false, ◌||◌, List, [], ◌∷◌, ◌++◌, map,
  arith, str_eq, eq_iff, contains, distinct, filter,
}
use hyverk_distributed_llm.Common.HashMap
use hyverk_distributed_llm.Common.HashMap.{get-insert}
use hyverk_distributed_llm.Layers.Disk.{
  Disk, new_disk, execute, execute_all, execute_all-append, round_ids, round_of, round_of-append,
  round_of-replace, saves-round_of,
}
use hyverk_distributed_llm.Layers.{
  LayerTrainingStore, TrainingRound, add_round, save_round, save_first_round_at, save_adapter,
  save_total,
}

abbrev pub disk : LayerTrainingStore → Disk
disk s = execute_all new_disk s.log

-- No two rounds have one id, each round is on disk as it is in memory and no other is, and so are
-- the number of completed rounds and the time of the first.
pub record IsSaved (s : LayerTrainingStore) : Type 0 where
  pub unique : distinct (round_ids s.rounds) ≡ true
  pub same_rounds : (i : String) → HashMap.get i (disk s).training_rounds ≡ round_of i s.rounds
  pub same_total : (disk s).total_rounds_completed ≡ s.total_rounds_completed
  pub same_first : (disk s).first_round_at ≡ s.first_round_at

distinct-append :
    (rs : List TrainingRound) (r : TrainingRound)
    → distinct (round_ids rs) ≡ true
    → contains (round_ids rs) r.round_id ≡ false
    → distinct (round_ids (rs ++ r ∷ [])) ≡ true
unfolding distinct contains
distinct-append [] r d h = refl
distinct-append (q ∷ rs) r d h = ground (
  arith,
  distinct-append rs r,
  contains_ids-append rs r q.round_id,
  eq_iff q.round_id r.round_id,
  eq_iff r.round_id q.round_id,
)
  where
    contains_ids-append :
        (rs : List TrainingRound) (r : TrainingRound) (k : String)
        → contains (round_ids (rs ++ r ∷ [])) k ≡ contains (round_ids rs) k || str_eq r.round_id k
    contains_ids-append [] r k = ground arith
    contains_ids-append (x ∷ rs) r k = ground (arith, contains_ids-append rs r k)

round_ids-replace :
    (before after : List TrainingRound) (r r' : TrainingRound)
    → r'.round_id ≡ r.round_id
    → round_ids (before ++ r' ∷ after) ≡ round_ids (before ++ r ∷ after)
round_ids-replace [] after r r' e = ap (λ i. i ∷ round_ids after) e
round_ids-replace (b ∷ before) after r r' e =
    ap (◌∷◌ b.round_id) (round_ids-replace before after r r' e)

pub round_ids-map :
    (f : TrainingRound → TrainingRound) (rs : List TrainingRound)
    → ((r : TrainingRound) → (f r).round_id ≡ r.round_id)
    → round_ids (map f rs) ≡ round_ids rs
round_ids-map f [] same = refl
round_ids-map f (r ∷ rs) same = ground (arith, same r, round_ids-map f rs same)

-- Writes of rounds leave the statistics.
saves-total :
    (f : TrainingRound → TrainingRound) (d : Disk) (rs : List TrainingRound)
    → ((execute_all d (map (λ r. save_round (f r)) rs)).total_rounds_completed
        ≡ d.total_rounds_completed)
      × ((execute_all d (map (λ r. save_round (f r)) rs)).first_round_at ≡ d.first_round_at)
unfolding execute_all
saves-total f d [] = (refl, refl)
saves-total f d (r ∷ rs) = saves-total f (execute d (save_round (f r))) rs

pub create-IsSaved :
    (s : LayerTrainingStore) (r : TrainingRound) (now : ℕ)
    → IsSaved s
    → contains (round_ids s.rounds) r.round_id ≡ false
    → IsSaved (add_round s r now)
unfolding add_round execute_all
create-IsSaved s r now k h =
    let e = execute_all-append new_disk s.log (save_round r ∷ save_first_round_at now ∷ []) in
    record {
      unique = distinct-append s.rounds r k.unique h;
      same_rounds = λ i. ground (
        arith,
        e,
        k.same_rounds i,
        get-insert r.round_id i r (disk s).training_rounds,
        round_of-append i s.rounds r h,
      );
      same_total = ground (arith, e, k.same_total);
      same_first = ground (arith, e, k.same_first);
    }

-- One round is replaced and saved, and writes that leave the rounds may follow.
pub replace-IsSaved :
    (s : LayerTrainingStore) (before after rs' : List TrainingRound) (r r' : TrainingRound)
    → IsSaved s
    → s.rounds ≡ before ++ r ∷ after
    → rs' ≡ before ++ r' ∷ after
    → r'.round_id ≡ r.round_id
    → IsSaved (record s { rounds = rs'; log = s.log ++ save_round r' ∷ [] })
unfolding execute_all
replace-IsSaved s before after rs' r r' k e e' same =
    let ex = execute_all-append new_disk s.log (save_round r' ∷ []) in
    let d = subst (λ rs. distinct (round_ids rs) ≡ true) e k.unique in
    record {
      unique = ground (arith, d, e', round_ids-replace before after r r' same);
      same_rounds = λ i. ground (
        arith,
        ex,
        e,
        e',
        k.same_rounds i,
        eq_iff r.round_id i,
        eq_iff r'.round_id i,
        get-insert r'.round_id i r' (disk s).training_rounds,
        round_of-replace i before after r r' same d,
      );
      same_total = ground (arith, ex, k.same_total);
      same_first = ground (arith, ex, k.same_first);
    }

-- An adapter and a new total are saved.
pub total-IsSaved :
    (s : LayerTrainingStore) (i : String) (bytes : List ℕ) (now total : ℕ)
    → IsSaved s
    → IsSaved (record s {
      total_rounds_completed = total;
      log = s.log ++ (save_adapter i bytes now ∷ save_total total ∷ []);
    })
unfolding execute_all
total-IsSaved s i bytes now total k =
    let e = execute_all-append new_disk s.log (save_adapter i bytes now ∷ save_total total ∷ []) in
    record {
      unique = k.unique;
      same_rounds = λ j. ground (arith, e, k.same_rounds j);
      same_total = ground (arith, e);
      same_first = ground (arith, e, k.same_first);
    }

pub map-IsSaved :
    (s : LayerTrainingStore) (f : TrainingRound → TrainingRound) (p : TrainingRound → Bool)
    → IsSaved s
    → ((r : TrainingRound) → (f r).round_id ≡ r.round_id)
    → ((r : TrainingRound) → p r ≡ false → f r ≡ r)
    → IsSaved (record s {
      rounds = map f s.rounds;
      log = s.log ++ map (λ r. save_round (f r)) (filter p s.rounds);
    })
map-IsSaved s f p k same rest =
    let e = execute_all-append new_disk s.log (map (λ r. save_round (f r)) (filter p s.rounds)) in
    let t = saves-total f (disk s) (filter p s.rounds) in
    record {
      unique = subst (λ is. distinct is ≡ true) (sym (round_ids-map f s.rounds same)) k.unique;
      same_rounds = λ i.
          ap (λ d. HashMap.get i d.training_rounds) e
          ∙ saves-round_of f p same rest i (disk s) s.rounds k.unique (k.same_rounds i);
      same_total = ap (λ d. d.total_rounds_completed) e ∙ t.0 ∙ k.same_total;
      same_first = ap (λ d. d.first_round_at) e ∙ t.1 ∙ k.same_first;
    }
