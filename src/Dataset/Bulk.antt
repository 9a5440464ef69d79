-- ===== src/Dataset/Bulk.antt =====
-- server/coordinator/src/dataset_store.rs: `add_bulk` against `add_example`.
use hyverk_distributed_llm.Common.{
  ℕ, ◌+◌, ◌≡◌, refl, List, [], ◌∷◌, arith, if◌then◌else◌, length, inl, inr, Bool-cases,
}
use hyverk_distributed_llm.Common.HashMap.{HashMap}
use hyverk_distributed_llm.Common.Text.{Text}
use hyverk_distributed_llm.Dataset.{
  DatasetStore, DatasetExample, passes_quality_filter, has_hash, insert_hash, insert_example,
  insert_examples, hash_of, add_example, check_all, add_bulk,
}

module _ (to_lowercase : Text → Text) where
  -- The examples one after another, with the numbers of those accepted and rejected.
  pub add_each : DatasetStore → List DatasetExample → DatasetStore × ℕ × ℕ
  add_each s [] = (s, 0, 0)
  add_each s (ex ∷ exs) =
      let (s', is_new) = add_example to_lowercase s ex in
      let (t, accepted, rejected) = add_each s' exs in
      if is_new then (t, 1 + accepted, rejected) else (t, accepted, 1 + rejected)

  -- The checks do not look at the table, which may be any.
  check_all-add_each :
      (s : DatasetStore) (rows : HashMap DatasetExample) (exs : List DatasetExample) (n : ℕ)
      → let (t, to_insert, rejected) = check_all to_lowercase s exs n in
        let (u, accepted, refused) = add_each (record s { examples = rows }) exs in
        (record t { examples = insert_examples to_insert rows } ≡ u)
        × (length to_insert ≡ accepted)
        × (rejected ≡ n + refused)
        × (t.examples ≡ s.examples)
  unfolding check_all add_each add_example insert_examples
  check_all-add_each s rows [] n = (refl, refl, omega arith, refl)
  check_all-add_each s rows (ex ∷ exs) n =
      let h = hash_of to_lowercase ex in
      let poor = check_all-add_each s rows exs (n + 1) in
      let twice =
        check_all-add_each (record s { deduplicated = s.deduplicated + 1 }) rows exs (n + 1) in
      let fresh =
        check_all-add_each (record s { seen_hashes = insert_hash h s.seen_hashes })
          (insert_example ex rows) exs n in
      elim (Bool-cases (passes_quality_filter to_lowercase ex)) [
        | inr p ↦ rw p (poor.0, poor.1, omega (arith, poor.2), poor.3)
        | inl p ↦ elim (Bool-cases (has_hash s.seen_hashes h)) [
          | inl q ↦ rw (p, q) (twice.0, twice.1, omega (arith, twice.2), twice.3)
          | inr q ↦ rw (p, q) (fresh.0, omega (arith, fresh.1), omega (arith, fresh.2), fresh.3)
        ]
      ]

  -- `add_bulk` leaves the store as `add_example` does for one example after another, and counts what
  -- that accepts and rejects.
  pub add_bulk-add_each :
      (s : DatasetStore) (exs : List DatasetExample) → add_bulk to_lowercase s exs ≡ add_each s exs
  unfolding add_bulk
  add_bulk-add_each s exs =
      let (same, accepted, rejected, table) = check_all-add_each s s.examples exs 0 in
      ground (arith, same, accepted, rejected, table)
