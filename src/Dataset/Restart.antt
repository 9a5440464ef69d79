-- ===== src/Dataset/Restart.antt =====
-- server/coordinator/src/dataset_store.rs: whether a restart forgets an example.
use hyverk_distributed_llm.Common.{
  ℕ, ◌≡◌, refl, true, false, ◌||◌, none, some, List, [], ◌∷◌, ◌++◌, arith, ◌==◌, any,
}
use hyverk_distributed_llm.Common.HashMap
use hyverk_distributed_llm.Common.HashMap.{HashMap}
use hyverk_distributed_llm.Common.Text.{Text}
use hyverk_distributed_llm.Dataset.{
  DatasetStore, DatasetExample, passes_quality_filter, has_hash, insert_example, hash_of,
  open_dataset, add_example,
}
use hyverk_distributed_llm.Dataset.Seen.{hashes, has_hash-load, hashes-append, has_hash-insert}

has_hash-append : (xs ys : List ℕ) (h : ℕ) → has_hash (xs ++ ys) h ≡ has_hash xs h || has_hash ys h
unfolding has_hash any
has_hash-append [] ys h = refl
has_hash-append (x ∷ xs) ys h = ground (arith, has_hash-append xs ys h)

has_hash-one : (x h : ℕ) → has_hash (x ∷ []) h ≡ (x == h)
unfolding has_hash any
has_hash-one x h = ground arith

module _ (to_lowercase : Text → Text) where
  -- Stores that are reached by `add_example` with ids that are not in the table, and by restarts.
  pub data Reach : DatasetStore → Type 0 where
    opens : Reach (open_dataset to_lowercase [])
    adds :
        {s : DatasetStore}
        → Reach s
        → (ex : DatasetExample) → HashMap.get ex.id s.examples ≡ none
        → Reach (add_example to_lowercase s ex).0
    reopens : {s : DatasetStore} → Reach s → Reach (open_dataset to_lowercase s.examples)

  open_dataset-has_hash :
      (rows : HashMap DatasetExample) (h : ℕ)
      → has_hash (open_dataset to_lowercase rows).seen_hashes h
        ≡ has_hash (hashes to_lowercase rows) h
  unfolding open_dataset has_hash any
  open_dataset-has_hash rows h = has_hash-load to_lowercase h [] rows

  add_example-has_hash :
      (s : DatasetStore) (ex : DatasetExample) (h : ℕ)
      → HashMap.get ex.id s.examples ≡ none
      → has_hash s.seen_hashes h ≡ has_hash (hashes to_lowercase s.examples) h
      → let t = (add_example to_lowercase s ex).0 in
        has_hash t.seen_hashes h ≡ has_hash (hashes to_lowercase t.examples) h
  unfolding add_example insert_example
  add_example-has_hash s ex h new_id e =
      let x = hash_of to_lowercase ex in
      ground (
        arith,
        new_id,
        has_hash-insert x h s.seen_hashes,
        hashes-append to_lowercase ex.id ex s.examples,
        has_hash-append (hashes to_lowercase s.examples) (x ∷ []) h,
        has_hash-one x h,
      )

  Reach-has_hash :
      (s : DatasetStore) (h : ℕ)
      → Reach s
      → has_hash s.seen_hashes h ≡ has_hash (hashes to_lowercase s.examples) h
  unfolding open_dataset
  Reach-has_hash s h opens = open_dataset-has_hash [] h
  Reach-has_hash s h (adds {s = t} r ex new_id) =
      add_example-has_hash t ex h new_id (Reach-has_hash t h r)
  Reach-has_hash s h (reopens {s = t} r) = open_dataset-has_hash t.examples h

  -- As long as each example comes with an id that is not in the table yet, a restart changes nothing
  -- in what is accepted: the next example is accepted after it exactly if it is accepted without it.
  pub add_example-open_dataset :
      (s : DatasetStore) (ex : DatasetExample)
      → Reach s
      → (add_example to_lowercase (open_dataset to_lowercase s.examples) ex).1
        ≡ (add_example to_lowercase s ex).1
  unfolding add_example
  add_example-open_dataset s ex r =
      let h = hash_of to_lowercase ex in
      ground (arith, open_dataset-has_hash s.examples h, Reach-has_hash s h r)

  -- An example with the id of another row and an instruction that is new: it is accepted, but the
  -- table stays as it is, so that after a restart it is accepted once more.
  pub add_example_lost :
      (s : DatasetStore) (ex old : DatasetExample)
      → Reach s
      → HashMap.get ex.id s.examples ≡ some old
      → passes_quality_filter to_lowercase ex ≡ true
      → has_hash s.seen_hashes (hash_of to_lowercase ex) ≡ false
      → let (t, accepted) = add_example to_lowercase s ex in
        (accepted ≡ true)
        × (t.examples ≡ s.examples)
        × ((add_example to_lowercase t ex).1 ≡ false)
        × ((add_example to_lowercase (open_dataset to_lowercase t.examples) ex).1 ≡ true)
  unfolding add_example insert_example
  add_example_lost s ex old r e p q =
      let h = hash_of to_lowercase ex in
      ground (
        arith,
        e,
        open_dataset-has_hash s.examples h,
        Reach-has_hash s h r,
        has_hash-insert h h s.seen_hashes,
      )
