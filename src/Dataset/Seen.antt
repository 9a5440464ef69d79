-- ===== src/Dataset/Seen.antt =====
-- server/coordinator/src/dataset_store.rs: what is stored, in every run with restarts.
use hyverk_distributed_llm.Common.{
  ℕ, ◌+◌, ◌≤◌, String, ◌≡◌, refl, ap, true, false, ◌||◌, List, [], ◌∷◌, ◌++◌, map, arith,
  if◌then◌else◌, ◌==◌, any, count, count-middle, append-nil, is_some, All, inl, inr, Bool-cases,
  if_both,
}
use hyverk_distributed_llm.Common.HashMap
use hyverk_distributed_llm.Common.HashMap.{HashMap}
use hyverk_distributed_llm.Common.Text.{Text}
use hyverk_distributed_llm.Dataset.{
  DatasetStore, DatasetExample, passes_quality_filter, has_hash, insert_hash, insert_example,
  hash_of, load_hashes, open_dataset, add_example,
}

has_hash-cons : (h x : ℕ) (hs : List ℕ) → has_hash (h ∷ hs) x ≡ (h == x) || has_hash hs x
unfolding has_hash any
has_hash-cons h x hs = refl

pub has_hash-insert :
    (h x : ℕ) (hs : List ℕ) → has_hash (insert_hash h hs) x ≡ has_hash hs x || (h == x)
unfolding insert_hash
has_hash-insert h x hs = ground (arith, has_hash-cons h x hs)

module _ (to_lowercase : Text → Text) where
  abbrev pub hashes : HashMap DatasetExample → List ℕ
  hashes = map (λ e. hash_of to_lowercase e.1)

  -- The calls that change the store, and restarts.
  pub data Call : Type 0 where
    adds : DatasetExample → Call
    reopens : Call

  -- The store after the calls, the latest first, from an empty table on.
  pub after : List Call → DatasetStore
  after [] = open_dataset to_lowercase []
  after (adds ex ∷ cs) = (add_example to_lowercase (after cs) ex).0
  after (reopens ∷ cs) = open_dataset to_lowercase (after cs).examples

  -- All rows are good enough, and their hashes are distinct and have been seen.
  pub record IsClean (s : DatasetStore) : Type 0 where
    pub good : All (λ e. passes_quality_filter to_lowercase e.1 ≡ true) s.examples
    pub once : (h : ℕ) → count h (hashes s.examples) ≤ (if has_hash s.seen_hashes h then 1 else 0)

  pub has_hash-load :
      (x : ℕ) (hs : List ℕ) (rows : HashMap DatasetExample)
      → has_hash (load_hashes to_lowercase hs rows) x ≡ has_hash hs x || has_hash (hashes rows) x
  unfolding load_hashes has_hash any
  has_hash-load x hs [] = ground arith
  has_hash-load x hs ((k, ex) ∷ rows) =
      let h = hash_of to_lowercase ex in
      ground (arith, has_hash-load x (insert_hash h hs) rows, has_hash-insert h x hs)

  has_hash-count : (h : ℕ) (xs : List ℕ) → has_hash xs h ≡ false → count h xs ≡ 0
  unfolding has_hash any count
  has_hash-count h [] e = refl
  has_hash-count h (x ∷ xs) e = ground (arith, has_hash-count h xs)

  pub hashes-append :
      (k : String) (ex : DatasetExample) (rows : HashMap DatasetExample)
      → hashes (rows ++ (k, ex) ∷ []) ≡ hashes rows ++ hash_of to_lowercase ex ∷ []
  hashes-append k ex [] = refl
  hashes-append k ex (e ∷ rows) = ap (◌∷◌ (hash_of to_lowercase e.1)) (hashes-append k ex rows)

  count-insert :
      (x : ℕ) (ex : DatasetExample) (rows : HashMap DatasetExample)
      → count x (hashes (insert_example ex rows))
        ≤ count x (hashes rows) + (if hash_of to_lowercase ex == x then 1 else 0)
  unfolding insert_example count
  count-insert x ex rows =
      let h = hash_of to_lowercase ex in
      ground (
        arith,
        hashes-append ex.id ex rows,
        count-middle x h (hashes rows) [],
        append-nil (hashes rows),
      )

  good-append :
      (k : String) (ex : DatasetExample) (rows : HashMap DatasetExample)
      → passes_quality_filter to_lowercase ex ≡ true
      → All (λ e. passes_quality_filter to_lowercase e.1 ≡ true) rows
      → All (λ e. passes_quality_filter to_lowercase e.1 ≡ true) (rows ++ (k, ex) ∷ [])
  good-append k ex [] p g = (p, tt)
  good-append k ex (e ∷ rows) p g = (g.0, good-append k ex rows p g.1)

  add_example-IsClean :
      (s : DatasetStore) (ex : DatasetExample)
      → IsClean s
      → IsClean (add_example to_lowercase s ex).0
  unfolding add_example insert_example
  add_example-IsClean s ex i =
      let h = hash_of to_lowercase ex in
      let rows = s.examples in
      elim (Bool-cases (passes_quality_filter to_lowercase ex)) [
        | inr p ↦ rw p i
        | inl p ↦ elim (Bool-cases (has_hash s.seen_hashes h)) [
          | inl q ↦ rw (p, q) (record { good = i.good; once = i.once })
          | inr q ↦
              rw (p, q)
                (record {
                  good =
                      if_both (All (λ e. passes_quality_filter to_lowercase e.1 ≡ true))
                        (is_some (HashMap.get ex.id rows)) rows (rows ++ (ex.id, ex) ∷ []) i.good
                        (good-append ex.id ex rows p i.good);
                  once = λ x.
                      ground (
                        arith,
                        count-insert x ex rows,
                        i.once x,
                        has_hash-insert h x s.seen_hashes,
                      );
                })
        ]
      ]

  open_dataset-IsClean :
      (s : DatasetStore) → IsClean s → IsClean (open_dataset to_lowercase s.examples)
  unfolding open_dataset has_hash any
  open_dataset-IsClean s i = record {
    good = i.good;
    once = λ x.
        ground
          (arith, i.once x, has_hash-load x [] s.examples, has_hash-count x (hashes s.examples));
  }

  -- In every run of `add_example` and restarts, all rows pass the quality filter, no two rows have the
  -- same hash, and the hash of each row is among those seen.
  pub after-IsClean : (cs : List Call) → IsClean (after cs)
  unfolding after open_dataset count
  after-IsClean [] = record { good = tt; once = λ h. omega arith }
  after-IsClean (adds ex ∷ cs) = add_example-IsClean (after cs) ex (after-IsClean cs)
  after-IsClean (reopens ∷ cs) = open_dataset-IsClean (after cs) (after-IsClean cs)
