-- ===== src/Serving/Plan/Tiles.antt =====
-- serving_clusters.rs, `rebalance`: the new ranges split the model's layers.
use native.Mathlib.Nat.{div-add-mod, mod-lt}
use hyverk_distributed_llm.Common.{
  ℕ, ◌+◌, ◌-◌, ◌*◌, ◌/◌, ◌%◌, min, String, ◌≡◌, refl, ap, ◌⊎◌, inl, inr, List, [], ◌∷◌, map, arith,
  length, All, ltb, Bool-cases,
}
use hyverk_distributed_llm.Common.Ranges.{Tiles}
use hyverk_distributed_llm.Serving.Types.{NodeSlot, LayerAssignment}
use hyverk_distributed_llm.Serving.Plan.{total_layers, make_slots, new_slots}

abbrev pub slot_range : NodeSlot → ℕ × ℕ
slot_range s = (s.layer_start, s.layer_end)

abbrev pub assigned_range : LayerAssignment → ℕ × ℕ
assigned_range a = (a.layer_start, a.layer_end)

-- A range of `per_node` layers, or of one more.
abbrev pub IsFairShare : ℕ → ℕ × ℕ → Type 0
IsFairShare per_node (s, e) = (e ≡ s + per_node) ⊎ (e ≡ s + per_node + 1)

-- The `rem` first ranges of all take one layer more.
make_slots-Tiles :
    (per rem i start b : ℕ) (ns : List (String × String))
    → b ≡ start + length ns * per + (min rem (i + length ns) - min rem i)
    → Tiles start (map slot_range (make_slots per rem i start ns)) b
unfolding make_slots
make_slots-Tiles per rem i start b [] h = omega arith
make_slots-Tiles per rem i start b (n ∷ ns) h = elim (Bool-cases (ltb i rem)) [
  | inl p ↦
      rw p
        (refl, omega arith, make_slots-Tiles per rem (i + 1) (start + per + 1) b ns (ground arith))
  | inr p ↦
      rw p
        (refl, omega arith, make_slots-Tiles per rem (i + 1) (start + per + 0) b ns (ground arith))
]

make_slots-IsFairShare :
    (per rem i start : ℕ) (ns : List (String × String))
    → All (IsFairShare per) (map slot_range (make_slots per rem i start ns))
unfolding make_slots
make_slots-IsFairShare per rem i start [] = tt
make_slots-IsFairShare per rem i start (n ∷ ns) =
    (ground arith, make_slots-IsFairShare per rem (i + 1) _ ns)

pub new_slots-Tiles :
    (n : String × String) (ns : List (String × String))
    → Tiles 0 (map slot_range (new_slots (n ∷ ns))) total_layers
unfolding new_slots
new_slots-Tiles n ns =
    let k = length (n ∷ ns) in
    make_slots-Tiles (total_layers / k) (total_layers % k) 0 0 total_layers (n ∷ ns)
      (omega (arith, div-add-mod total_layers k, mod-lt total_layers {m = k} (omega arith)))

pub new_slots-IsFairShare :
    (ns : List (String × String))
    → All (IsFairShare (total_layers / length ns)) (map slot_range (new_slots ns))
unfolding new_slots
new_slots-IsFairShare ns = make_slots-IsFairShare _ _ 0 0 ns

node_ids-make_slots :
    (per rem i start : ℕ) (ns : List (String × String))
    → map (λ s. s.node_id) (make_slots per rem i start ns) ≡ map (λ n. n.0) ns
unfolding make_slots
node_ids-make_slots per rem i start [] = refl
node_ids-make_slots per rem i start (n ∷ ns) =
    ap (◌∷◌ n.0) (node_ids-make_slots per rem (i + 1) _ ns)

pub node_ids-new_slots :
    (ns : List (String × String)) → map (λ s. s.node_id) (new_slots ns) ≡ map (λ n. n.0) ns
unfolding new_slots
node_ids-new_slots ns = node_ids-make_slots _ _ 0 0 ns
