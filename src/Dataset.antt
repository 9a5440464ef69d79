-- ===== src/Dataset.antt =====
-- server/coordinator/src/dataset_store.rs: the training examples in SQLite, and the hashes of those that
-- were seen. The table is the list of its rows in the order of insertion; each statement is executed.
pub mod Quality
pub mod Bulk
pub mod Seen
pub mod Restart
mod Examples
unfoldable pub use Quality.*
use hyverk_distributed_llm.Common.{
  ℕ, ◌+◌, String, Bool, true, false, not, Option, none, some, List, [], ◌∷◌, ◌++◌, map,
  if◌then◌else◌, ◌==◌, leb, length, take, drop, any, filter, is_some, ◌^◌,
}
use hyverk_distributed_llm.Common.HashMap
use hyverk_distributed_llm.Common.HashMap.{HashMap, values}
use hyverk_distributed_llm.Common.Text.{Text}

-- `DedupState`, with the table.
pub record DatasetStore : Type 0 where
  pub examples : HashMap DatasetExample
  pub seen_hashes : List ℕ
  pub deduplicated : ℕ

-- `HashSet::contains` and `insert`
pub has_hash : List ℕ → ℕ → Bool
has_hash hashes h = any (λ x. x == h) hashes

pub insert_hash : ℕ → List ℕ → List ℕ
insert_hash h hashes = if has_hash hashes h then hashes else h ∷ hashes

-- `INSERT OR IGNORE`: a row whose id is in the table already is left out.
pub insert_example : DatasetExample → HashMap DatasetExample → HashMap DatasetExample
insert_example ex rows = if is_some (HashMap.get ex.id rows) then rows else rows ++ (ex.id, ex) ∷ []

pub insert_examples : List DatasetExample → HashMap DatasetExample → HashMap DatasetExample
insert_examples [] rows = rows
insert_examples (ex ∷ exs) rows = insert_examples exs (insert_example ex rows)

module _ (to_lowercase : Text → Text) where
  abbrev pub hash_of : DatasetExample → ℕ
  hash_of ex = instruction_hash to_lowercase ex.instruction

  -- The loop of `open` over the stored instructions.
  pub load_hashes : List ℕ → HashMap DatasetExample → List ℕ
  load_hashes hashes [] = hashes
  load_hashes hashes ((id, ex) ∷ rows) = load_hashes (insert_hash (hash_of ex) hashes) rows

  pub open_dataset : HashMap DatasetExample → DatasetStore
  open_dataset rows = record {
    examples = rows;
    seen_hashes = load_hashes [] rows;
    deduplicated = 0;
  }

  pub add_example : DatasetStore → DatasetExample → DatasetStore × Bool
  add_example s ex =
      let hash = hash_of ex in
      if not (passes_quality_filter to_lowercase ex)
      then (s, false)
      else if has_hash s.seen_hashes hash
      then (record s { deduplicated = s.deduplicated + 1 }, false)
      else (
        record s {
          examples = insert_example ex s.examples;
          seen_hashes = insert_hash hash s.seen_hashes;
        },
        true,
      )

  -- The loop of `add_bulk`: what is left to insert, and the number of those rejected.
  pub check_all : DatasetStore → List DatasetExample → ℕ → DatasetStore × List DatasetExample × ℕ
  check_all s [] rejected = (s, [], rejected)
  check_all s (ex ∷ exs) rejected =
      let hash = hash_of ex in
      let poor = check_all s exs (rejected + 1) in
      let twice = check_all (record s { deduplicated = s.deduplicated + 1 }) exs (rejected + 1) in
      let (s', to_insert, n) =
        check_all (record s { seen_hashes = insert_hash hash s.seen_hashes }) exs rejected in
      if not (passes_quality_filter to_lowercase ex)
      then poor
      else if has_hash s.seen_hashes hash
      then twice
      else (s', ex ∷ to_insert, n)

  pub add_bulk : DatasetStore → List DatasetExample → DatasetStore × ℕ × ℕ
  add_bulk s exs =
      let (s', to_insert, rejected) = check_all s exs 0 in
      (record s' { examples = insert_examples to_insert s'.examples }, length to_insert, rejected)

pub record DatasetStats : Type 0 where
  pub total_examples : ℕ
  pub by_category : HashMap ℕ
  pub by_provider : HashMap ℕ
  pub by_node : HashMap ℕ
  pub execution_verified : ℕ
  pub refined : ℕ
  pub deduplicated : ℕ

-- `SELECT …, COUNT(*) … GROUP BY …`
pub count_by : (DatasetExample → String) → HashMap ℕ → List DatasetExample → HashMap ℕ
count_by key m [] = m
count_by key m (ex ∷ exs) =
    let n : ℕ = elim (HashMap.get (key ex) m) [ none ↦ 0 | some n ↦ n ] in
    count_by key (HashMap.insert (key ex) (n + 1) m) exs

pub stats : DatasetStore → DatasetStats
stats s =
    let rows = values s.examples in
    record {
      total_examples = length rows;
      by_category = count_by (λ ex. ex.category) [] rows;
      by_provider = count_by (λ ex. ex.provider) [] rows;
      by_node = count_by (λ ex. ex.node_id) [] rows;
      execution_verified = length (filter (λ ex. ex.execution_verified) rows);
      refined = length (filter (λ ex. ex.refined) rows);
      deduplicated = s.deduplicated;
    }

-- `LIMIT` and `OFFSET`, as `i64`: a negative limit is none, and a negative offset is 0.
pub list : DatasetStore → ℕ → ℕ → List DatasetExample
list s offset limit =
    let rest = if leb (2 ^ 63) offset then values s.examples else drop offset (values s.examples) in
    if leb (2 ^ 63) limit then rest else take limit rest
