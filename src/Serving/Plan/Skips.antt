-- ===== src/Serving/Plan/Skips.antt =====
-- serving_clusters.rs, `rebalance`: which nodes may skip the download of their new range.
use hyverk_distributed_llm.Common.{
  String, Bool, true, false, ◌&&◌, ◌≡◌, refl, none, some, List, [], ◌∷◌, map, arith, contains,
  distinct, any, str_eq, eq_iff, ◌==◌,
}
use hyverk_distributed_llm.Common.HashMap
use hyverk_distributed_llm.Common.HashMap.{HashMap, get-insert}
use hyverk_distributed_llm.Serving.Types.{NodeSlot, Generation, Held, is_in_cluster}
use hyverk_distributed_llm.Serving.Plan.{collect_held, current_assignments, skips}

abbrev pub node_ids : List NodeSlot → List String
node_ids = map (λ s. s.node_id)

-- A slot of `slots` gives the node of `slot` the very same range, and that node serves it.
abbrev pub serves : List NodeSlot → NodeSlot → Bool
serves slots slot =
    any
      (λ t.
        str_eq t.node_id slot.node_id
        && ((t.layer_start == slot.layer_start)
            && (t.layer_end == slot.layer_end)
            && is_in_cluster t.infra_state))
      slots

serves_absent :
    (slot : NodeSlot) (slots : List NodeSlot)
    → contains (node_ids slots) slot.node_id ≡ false
    → serves slots slot ≡ false
unfolding any contains
serves_absent slot [] h = refl
serves_absent slot (t ∷ ts) h = ground (arith, serves_absent slot ts)

get-collect_held_absent :
    (k : String) (m : HashMap Held) (slots : List NodeSlot)
    → contains (node_ids slots) k ≡ false
    → HashMap.get k (collect_held m slots) ≡ HashMap.get k m
unfolding collect_held contains
get-collect_held_absent k m [] h = refl
get-collect_held_absent k m (t ∷ ts) h = ground (
  arith,
  get-collect_held_absent k
      (HashMap.insert t.node_id
        (record {
          layer_start = t.layer_start;
          layer_end = t.layer_end;
          infra_state = t.infra_state;
        })
        m)
      ts,
  get-insert t.node_id k
      (record { layer_start = t.layer_start; layer_end = t.layer_end; infra_state = t.infra_state })
      m,
)

skips-collect_held :
    (slot : NodeSlot) (m : HashMap Held) (slots : List NodeSlot)
    → distinct (node_ids slots) ≡ true
    → HashMap.get slot.node_id m ≡ none
    → skips (collect_held m slots) slot ≡ serves slots slot
unfolding collect_held any skips distinct
skips-collect_held slot m [] h e = ground arith
skips-collect_held slot m (t ∷ ts) h e =
    let held : Held = record {
      layer_start = t.layer_start;
      layer_end = t.layer_end;
      infra_state = t.infra_state;
    } in
    ground (
      arith,
      eq_iff t.node_id slot.node_id,
      get-insert t.node_id slot.node_id held m,
      get-collect_held_absent slot.node_id (HashMap.insert t.node_id held m) ts,
      serves_absent slot ts,
      skips-collect_held slot (HashMap.insert t.node_id held m) ts,
    )

pub skips-current_assignments :
    (g : Generation) (slot : NodeSlot)
    → distinct (node_ids g.slots) ≡ true
    → skips (current_assignments (some g)) slot ≡ serves g.slots slot
unfolding current_assignments HashMap.get
skips-current_assignments g slot h = skips-collect_held slot [] g.slots h refl
