-- ===== src/Layers/Schedule.antt =====
-- layer_training.rs, `create_round`: the loop that cuts a model's layers into assignments, and the
-- arguments that `auto_advance` calls it with.
pub mod Loop
use mathlib.Core.Option
use hyverk_distributed_llm.Common.{
  ℕ, zero, suc, ◌+◌, ◌-◌, ◌*◌, ◌/◌, ◌%◌, ◌^◌, min, max, String, Bool, true, false, not, ◌&&◌, ◌||◌,
  Option, none, some, List, [], ◌∷◌, ◌++◌, map, if◌then◌else◌, ltb, ◌==◌, is_some, str_eq, length,
  all, any, filter, find, update_first,
}
use hyverk_distributed_llm.Common.Text.{Text}
use hyverk_distributed_llm.Layers.Types.{
  RoundRequest, LayerAssignment, TrainingRound, active, available,
}

abbrev pub usize_mod : ℕ
usize_mod = 2 ^ 64

-- The loop of `create_round`, on fuel: from layer `layer` and line `data_offset` on, with `uuid idx`
-- the next id. `none` is a loop that has not ended.
unfoldable pub make_assignments :
    ℕ → RoundRequest → (ℕ → String) → ℕ → ℕ → ℕ → Option (List LayerAssignment)
make_assignments zero r uuid idx layer data_offset =
    if ltb layer r.total_layers then none else some []
make_assignments (suc fuel) r uuid idx layer data_offset =
    let end = min ((layer + r.layers_per_assignment) % usize_mod) r.total_layers in
    let next = (data_offset + r.examples_per_shard) % usize_mod % max r.dataset_size 1 in
    let first : LayerAssignment = record {
      assignment_id = uuid idx;
      layer_start = layer;
      layer_end = end;
      data_shard_start = data_offset;
      data_shard_size = min r.examples_per_shard (r.dataset_size - data_offset);
      status = available;
      assigned_to = none;
      assigned_at = none;
      adapter_received = false;
      training_loss = none;
      training_steps = none;
    } in
    let rest = Option.map (λ xs. first ∷ xs) (make_assignments fuel r uuid (idx + 1) end next) in
    if ltb layer r.total_layers then rest else some []

unfoldable pub new_round : RoundRequest → String → List LayerAssignment → ℕ → TrainingRound
new_round r round_id assignments now = record {
  round_id = round_id;
  version = r.version;
  base_model = r.base_model;
  total_layers = r.total_layers;
  layers_per_assignment = r.layers_per_assignment;
  status = active;
  assignments = assignments;
  created_at = now;
}

-- A number in decimal, on fuel; `n` is fuel enough for its digits.
unfoldable pub decimal : ℕ → ℕ → Text → Text
decimal zero n digits = digits
decimal (suc fuel) n digits =
    let rest = decimal fuel (n / 10) ((48 + n % 10) ∷ digits) in
    if ltb n 10 then (48 + n) ∷ digits else rest

-- `format!("v0.1-r{}", completed_rounds + 1)`
unfoldable pub next_version : ℕ → Text
next_version completed_rounds =
    let n = (completed_rounds + 1) % usize_mod in
    118 ∷ 48 ∷ 46 ∷ 49 ∷ 45 ∷ 114 ∷ decimal (suc n) n []

unfoldable pub next_request : ℕ → ℕ → RoundRequest
next_request completed_rounds dataset_size = record {
  version = next_version completed_rounds;
  base_model = "Qwen2.5-Coder-7B";
  total_layers = 28;
  layers_per_assignment = 2;
  dataset_size = dataset_size;
  examples_per_shard = 500;
}
