-- ===== src/Serving/Routing.antt =====
-- serving_clusters.rs, `active_slots` and `is_operational`: the slots that serve, by first layer.
pub mod Coverage
use hyverk_distributed_llm.Common.{
  ℕ, max, Bool, false, ◌&&◌, Option, none, some, List, [], ◌∷◌, map, if◌then◌else◌, ltb, leb, ◌==◌,
  filter,
}
use hyverk_distributed_llm.Serving.Types.{is_in_cluster, NodeSlot, Generation, ActiveSlot}
use hyverk_distributed_llm.Serving.Plan.{total_layers}

unfoldable pub to_active_slot : ℕ → NodeSlot → ActiveSlot
to_active_slot gen s = record {
  node_id = s.node_id;
  node_name = s.node_name;
  layer_start = s.layer_start;
  layer_end = s.layer_end;
  generation = gen;
}

-- `sort_by_key(|s| s.layer_start)`, which is stable.
unfoldable pub insert_slot : ActiveSlot → List ActiveSlot → List ActiveSlot
insert_slot s [] = s ∷ []
insert_slot s (t ∷ ts) =
    if leb s.layer_start t.layer_start then s ∷ t ∷ ts else t ∷ insert_slot s ts

unfoldable pub sort_by_start : List ActiveSlot → List ActiveSlot
unfolding insert_slot
sort_by_start [] = []
sort_by_start (s ∷ ss) = insert_slot s (sort_by_start ss)

unfoldable pub serving_slots : Generation → List ActiveSlot
serving_slots g =
    sort_by_start (map (to_active_slot g.gen) (filter (λ s. is_in_cluster s.infra_state) g.slots))

-- The loop of `is_operational`: `none` is its early `return false`.
unfoldable pub cover : ℕ → List ActiveSlot → Option ℕ
cover cursor [] = some cursor
cover cursor (s ∷ ss) = if ltb cursor s.layer_start then none else cover (max cursor s.layer_end) ss

-- `slots.last().map(|s| s.layer_end)`, for the slots behind the slot `s`.
unfoldable pub last_end : ActiveSlot → List ActiveSlot → ℕ
last_end s [] = s.layer_end
last_end s (t ∷ ts) = last_end t ts

unfoldable pub slots_operational : List ActiveSlot → Bool
slots_operational [] = false
slots_operational (s ∷ ss) = elim (cover 0 (s ∷ ss)) [
  | none ↦ false
  | some cursor ↦
      (s.layer_start == 0) && leb total_layers (last_end s ss) && leb total_layers cursor
]
