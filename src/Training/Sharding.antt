-- ===== src/Training/Sharding.antt =====
-- training_store.rs, `create_job`: the dataset's lines, cut into shards.
pub mod Cuts
use hyverk_distributed_llm.Common.{
  ℕ, zero, suc, ◌+◌, ◌-◌, ◌*◌, String, Bool, true, false, not, ◌&&◌, Option, none, some, List, [],
  ◌∷◌, ◌++◌, map, if◌then◌else◌, ltb, ◌==◌, is_some, str_eq, length, take, drop, all, any, filter,
  find, update_first,
}
use hyverk_distributed_llm.Common.HashMap
use hyverk_distributed_llm.Common.HashMap.{HashMap}
use hyverk_distributed_llm.Common.Text.{Text, is_blank, lines, join_lines}
use hyverk_distributed_llm.Training.Types.{DataShard, available}

-- `slice.chunks(size)` for a size above zero, on fuel: each chunk takes a line at least, so the
-- number of lines is enough.
unfoldable pub chunks {ℓ} : {A : Type ℓ} → ℕ → ℕ → List A → List (List A)
chunks zero size xs = []
chunks (suc fuel) size [] = []
chunks (suc fuel) size (x ∷ xs) = take size (x ∷ xs) ∷ chunks fuel size (drop size (x ∷ xs))

-- `dataset_jsonl.lines().filter(|l| !l.trim().is_empty())`
unfoldable pub example_lines : Text → List Text
example_lines s = filter (λ l. not (is_blank l)) (lines s)

-- The loop over the chunks, from the `idx`-th on; `uuid idx` is the id drawn for it.
unfoldable pub make_shards : String → (ℕ → String) → ℕ → ℕ → List (List Text) → List DataShard
make_shards job_id uuid size idx [] = []
make_shards job_id uuid size idx (chunk ∷ rest) =
    record {
      shard_id = uuid idx;
      job_id = job_id;
      start_line = idx * size;
      end_line = idx * size + length chunk;
      status = available;
      assigned_at_secs = none;
    }
    ∷ make_shards job_id uuid size (idx + 1) rest

unfoldable pub add_shard_data : (ℕ → String) → ℕ → List (List Text) → HashMap Text → HashMap Text
add_shard_data uuid idx [] m = m
add_shard_data uuid idx (chunk ∷ rest) m =
    add_shard_data uuid (idx + 1) rest (HashMap.insert (uuid idx) (join_lines chunk) m)
