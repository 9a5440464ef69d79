-- ===== src/Serving/Routing/Coverage.antt =====
-- serving_clusters.rs, `is_operational`: what its answer says of the layers.
use hyverk_distributed_llm.Common.{
  ℕ, ◌≤◌, ◌<◌, max, true, ◌≡◌, refl, ap, some, List, [], ◌∷◌, map, arith, any, all, filter,
  Option-cases, inl, inr,
}
use hyverk_distributed_llm.Common.Ranges.{Tiles, in_range}
use hyverk_distributed_llm.Serving.Types.{NodeSlot, ActiveSlot, Generation, is_in_cluster}
use hyverk_distributed_llm.Serving.Plan.{total_layers}
use hyverk_distributed_llm.Serving.Routing.{
  to_active_slot, insert_slot, sort_by_start, serving_slots, cover, last_end, slots_operational,
}

abbrev pub active_range : ActiveSlot → ℕ × ℕ
active_range s = (s.layer_start, s.layer_end)

-- The loop ends only if the slots leave no gap between the cursor and where it ends.
cover-any :
    (cursor c l : ℕ) (ss : List ActiveSlot)
    → cover cursor ss ≡ some c
    → cursor ≤ l
    → l < c
    → any (in_range l) (map active_range ss) ≡ true
unfolding cover any
cover-any cursor c l [] e h k = absurd (ground arith)
cover-any cursor c l (s ∷ ss) e h k = ground (arith, cover-any (max cursor s.layer_end) c l ss)

pub slots_operational-any :
    (l : ℕ) (ss : List ActiveSlot)
    → slots_operational ss ≡ true
    → l < total_layers
    → any (in_range l) (map active_range ss) ≡ true
unfolding slots_operational
slots_operational-any l [] e h = cc
slots_operational-any l (s ∷ ss) e h = elim (Option-cases (cover 0 (s ∷ ss))) [
  | inl q ↦ absurd (ground arith)
  | inr (c, q) ↦ cover-any 0 c l (s ∷ ss) q (omega arith) (ground arith)
]

-- Slots that follow one another are in order, and the loop runs through them.
cover-Tiles :
    (a b : ℕ) (ss : List ActiveSlot) → Tiles a (map active_range ss) b → cover a ss ≡ some b
unfolding cover
cover-Tiles a b [] t = ap some t
cover-Tiles a b (s ∷ ss) t =
    let e : max a s.layer_end ≡ s.layer_end = omega arith in
    ground (arith, cover-Tiles s.layer_end b ss t.2)

last_end-Tiles :
    (a b : ℕ) (s : ActiveSlot) (ss : List ActiveSlot)
    → Tiles a (map active_range (s ∷ ss)) b
    → last_end s ss ≡ b
unfolding last_end
last_end-Tiles a b s [] t = t.2
last_end-Tiles a b s (u ∷ us) t = last_end-Tiles s.layer_end b u us t.2

pub Tiles-slots_operational :
    (s : ActiveSlot) (ss : List ActiveSlot)
    → Tiles 0 (map active_range (s ∷ ss)) total_layers
    → slots_operational (s ∷ ss) ≡ true
unfolding slots_operational
Tiles-slots_operational s ss t =
    ground (arith, cover-Tiles 0 total_layers (s ∷ ss) t, last_end-Tiles 0 total_layers s ss t)

-- Sorting leaves such slots as they are.
insert_slot-Tiles :
    (a b : ℕ) (s : ActiveSlot) (ss : List ActiveSlot)
    → Tiles a (map active_range (s ∷ ss)) b
    → insert_slot s ss ≡ s ∷ ss
unfolding insert_slot
insert_slot-Tiles a b s [] t = refl
insert_slot-Tiles a b s (u ∷ us) t = ground arith

pub sort_by_start-Tiles :
    (a b : ℕ) (ss : List ActiveSlot) → Tiles a (map active_range ss) b → sort_by_start ss ≡ ss
unfolding sort_by_start
sort_by_start-Tiles a b [] t = refl
sort_by_start-Tiles a b (s ∷ ss) t =
    rw (sort_by_start-Tiles s.layer_end b ss t.2) (insert_slot-Tiles a b s ss t)

-- With every slot in the cluster, all are routed to, under the generation's number.
filter_ready :
    (ss : List NodeSlot)
    → all (λ s. is_in_cluster s.infra_state) ss ≡ true
    → filter (λ s. is_in_cluster s.infra_state) ss ≡ ss
unfolding filter all
filter_ready [] h = refl
filter_ready (s ∷ ss) h = ground (arith, filter_ready ss)

active_ranges :
    (gen : ℕ) (ss : List NodeSlot)
    → map active_range (map (to_active_slot gen) ss) ≡ map (λ s. (s.layer_start, s.layer_end)) ss
unfolding to_active_slot
active_ranges gen [] = refl
active_ranges gen (s ∷ ss) = ap (◌∷◌ (s.layer_start, s.layer_end)) (active_ranges gen ss)

module _ (g : Generation) (ready : all (λ s. is_in_cluster s.infra_state) g.slots ≡ true)
    (tiles : Tiles 0 (map (λ s. (s.layer_start, s.layer_end)) g.slots) total_layers) where
  tiles' : Tiles 0 (map active_range (map (to_active_slot g.gen) g.slots)) total_layers
  tiles' = rw (active_ranges g.gen g.slots) tiles

  pub serving_slots_ready : serving_slots g ≡ map (to_active_slot g.gen) g.slots
  unfolding serving_slots
  serving_slots_ready = rw (filter_ready g.slots ready) (sort_by_start-Tiles 0 _ _ tiles')

  pub serving_slots_operational : slots_operational (serving_slots g) ≡ true
  serving_slots_operational = rw serving_slots_ready (nonempty g.slots refl tiles')
    where
      nonempty :
          (ss : List NodeSlot)
          → ss ≡ g.slots
          → Tiles 0 (map active_range (map (to_active_slot g.gen) ss)) total_layers
          → slots_operational (map (to_active_slot g.gen) ss) ≡ true
      nonempty [] e t = absurd (omega arith)
      nonempty (s ∷ ss) e t = Tiles-slots_operational _ _ t
