-- ===== src/Layers/Schedule/Loop.antt =====
-- layer_training.rs, `create_round`: what the loop over the layers makes, and when it ends.
use native.Mathlib.Nat.{mod-lt}
use hyverk_distributed_llm.Common.{
  ℕ, zero, suc, ◌+◌, ◌-◌, ◌%◌, ◌≤◌, ◌<◌, min, max, String, ◌≡◌, refl, false, inl, inr, none, some,
  List, [], ◌∷◌, map, arith, ltb, All, Bool-cases,
}
use hyverk_distributed_llm.Common.Ranges.{Tiles}
use hyverk_distributed_llm.Layers.Types.{RoundRequest, LayerAssignment, available}
use hyverk_distributed_llm.Layers.Schedule.{usize_mod, make_assignments}

abbrev pub layer_range : LayerAssignment → ℕ × ℕ
layer_range a = (a.layer_start, a.layer_end)

-- An assignment that is free, has as many layers as asked for unless the last are fewer, and whose
-- data shard lies inside the dataset.
abbrev pub IsCut : RoundRequest → LayerAssignment → Type 0
IsCut r a =
    (a.layer_end ≡ min (a.layer_start + r.layers_per_assignment) r.total_layers)
    × (a.data_shard_start + a.data_shard_size ≤ r.dataset_size)
    × (a.status ≡ available)
    × (a.assigned_to ≡ none)

abbrev pub IsSchedule : RoundRequest → ℕ → List LayerAssignment → Type 0
IsSchedule r layer xs = Tiles layer (map layer_range xs) r.total_layers × All (IsCut r) xs

next_offset : (a b ds : ℕ) → ((a + b) % usize_mod) % max ds 1 < max ds 1
next_offset a b ds = mod-lt ((a + b) % usize_mod) (omega arith)

pub make_assignments_total :
    (fuel : ℕ) (r : RoundRequest) (uuid : ℕ → String) (idx layer offset : ℕ)
    → 0 < r.layers_per_assignment
    → r.total_layers + r.layers_per_assignment < usize_mod
    → layer ≤ r.total_layers
    → r.total_layers ≤ layer + fuel
    → offset < max r.dataset_size 1
    → (xs : List LayerAssignment) × (make_assignments fuel r uuid idx layer offset ≡ some xs)
      × IsSchedule r layer xs
unfolding make_assignments
make_assignments_total zero r uuid idx layer offset p b l f o =
    ([], ground arith, (omega arith, tt))
make_assignments_total (suc fuel) r uuid idx layer offset p b l f o =
    elim (Bool-cases (ltb layer r.total_layers)) [
      | inl h ↦
          let n : (layer + r.layers_per_assignment) % usize_mod ≡ layer + r.layers_per_assignment =
            ground arith in
          let end = min ((layer + r.layers_per_assignment) % usize_mod) r.total_layers in
          let next = (offset + r.examples_per_shard) % usize_mod % max r.dataset_size 1 in
          let (xs, e, (t, k)) =
            make_assignments_total fuel r uuid (idx + 1) end next p b (omega arith) (ground arith)
              (next_offset offset r.examples_per_shard r.dataset_size) in
          (
            record {
              assignment_id = uuid idx;
              layer_start = layer;
              layer_end = end;
              data_shard_start = offset;
              data_shard_size = min r.examples_per_shard (r.dataset_size - offset);
              status = available;
              assigned_to = none;
              assigned_at = none;
              adapter_received = false;
              training_loss = none;
              training_steps = none;
            }
                ∷ xs,
            rw (h, e),
            ((refl, ground arith, t), ((ground arith, omega arith, refl, refl), k)),
          )
      | inr h ↦ ([], rw h, (ground arith, tt))
    ]

-- If an assignment is to have no layers and the model has some, the loop of `create_round` never
-- ends: no amount of fuel is enough.
pub make_assignments-none :
    (fuel : ℕ) (r : RoundRequest) (uuid : ℕ → String) (idx layer offset : ℕ)
    → r.layers_per_assignment ≡ 0
    → layer < r.total_layers
    → r.total_layers < usize_mod
    → make_assignments fuel r uuid idx layer offset ≡ none
unfolding make_assignments
make_assignments-none zero r uuid idx layer offset z l b = ground arith
make_assignments-none (suc fuel) r uuid idx layer offset z l b =
    let end = min ((layer + r.layers_per_assignment) % usize_mod) r.total_layers in
    let stays : end ≡ layer = omega arith in
    let rest =
      make_assignments-none fuel r uuid (idx + 1) end
        ((offset + r.examples_per_shard) % usize_mod % max r.dataset_size 1) z (omega arith) b in
    ground (arith, rest)
