-- ===== src/Training/Claims.antt =====
-- training_store.rs, `claim_next_shard`: a shard is handed to one node.
use hyverk_distributed_llm.Common.{
  ℕ, ◌+◌, String, true, false, ◌≡◌, ◌≢◌, refl, subst, some, inl, inr, List, [], ◌∷◌, map, arith,
  filter, find, update_first, contains, distinct, if◌then◌else◌, str_eq, eq_iff, eq_refl,
  Option-cases,
}
use hyverk_distributed_llm.Common.HashMap
use hyverk_distributed_llm.Common.HashMap.{get-insert}
use hyverk_distributed_llm.Common.Text.{Text}
use hyverk_distributed_llm.Training.{
  TrainingStore, DataShard, is_available, is_assigned, assign_shard, claim_shard, claim_next_shard,
  count_if,
}

abbrev pub shard_ids : List DataShard → List String
shard_ids = map (λ x. x.shard_id)

abbrev pub open_ids : List DataShard → List String
open_ids xs = map (λ x. x.shard_id) (filter (λ x. is_available x.status) xs)

-- The shards of a job after a claim.
abbrev pub claimed : String → ℕ → List DataShard → List DataShard
claimed node_id now = update_first (λ x. is_available x.status) (assign_shard node_id now)

open_ids_absent :
    (xs : List DataShard) (k : String)
    → contains (shard_ids xs) k ≡ false
    → contains (open_ids xs) k ≡ false
unfolding contains filter
open_ids_absent [] k h = refl
open_ids_absent (x ∷ xs) k h = ground (arith, open_ids_absent xs k)

open_ids-find :
    (xs : List DataShard) (x : DataShard)
    → find (λ y. is_available y.status) xs ≡ some x
    → contains (open_ids xs) x.shard_id ≡ true
unfolding contains filter find
open_ids-find [] x e = cc
open_ids-find (y ∷ ys) x e = ground (arith, open_ids-find ys x, eq_refl x.shard_id)

shard_ids-find :
    (xs : List DataShard) (x : DataShard)
    → find (λ y. is_available y.status) xs ≡ some x
    → contains (shard_ids xs) x.shard_id ≡ true
unfolding contains find
shard_ids-find [] x e = cc
shard_ids-find (y ∷ ys) x e = ground (arith, shard_ids-find ys x, eq_refl x.shard_id)

module _ (node_id : String) (now : ℕ) where
  counts-claimed :
      (xs : List DataShard) (x : DataShard)
      → find (λ y. is_available y.status) xs ≡ some x
      → (count_if (λ y. is_available y.status) (claimed node_id now xs) + 1
          ≡ count_if (λ y. is_available y.status) xs)
        × (count_if (λ y. is_assigned y.status) (claimed node_id now xs)
            ≡ count_if (λ y. is_assigned y.status) xs + 1)
  unfolding find filter update_first
  counts-claimed [] x e = cc
  counts-claimed (y ∷ ys) x e = ground (arith, counts-claimed ys x)

  open_ids-claimed :
      (xs : List DataShard) (x : DataShard)
      → distinct (shard_ids xs) ≡ true
      → find (λ y. is_available y.status) xs ≡ some x
      → contains (open_ids (claimed node_id now xs)) x.shard_id ≡ false
  unfolding find filter update_first contains distinct
  open_ids-claimed [] x d e = cc
  open_ids-claimed (y ∷ ys) x d e = ground (
    arith,
    open_ids-claimed ys x,
    open_ids_absent ys y.shard_id,
    eq_iff y.shard_id x.shard_id,
    shard_ids-find ys x,
  )

-- If a job has an available shard with content, a claim returns the first such shard and its
-- content; one shard less is available then, and one more is assigned. Other jobs' shards stay.
pub claim_next_shard_lem :
    (s : TrainingStore) (job_id node_id : String) (now : ℕ) (shards : List DataShard)
    (x : DataShard) (content : Text) (k : String)
    → HashMap.get job_id s.shards ≡ some shards
    → find (λ y. is_available y.status) shards ≡ some x
    → HashMap.get x.shard_id s.shard_data ≡ some content
    → let (s', r) = claim_next_shard s job_id node_id now in
      (r ≡ some (x.shard_id, content))
      × (HashMap.get k s'.shards
          ≡ (if str_eq job_id k then some (claimed node_id now shards) else HashMap.get k s.shards))
      × (count_if (λ y. is_available y.status) (claimed node_id now shards) + 1
          ≡ count_if (λ y. is_available y.status) shards)
      × (count_if (λ y. is_assigned y.status) (claimed node_id now shards)
          ≡ count_if (λ y. is_assigned y.status) shards + 1)
unfolding claim_next_shard claim_shard
claim_next_shard_lem s job_id node_id now shards x content k e f g =
    let (fewer, more) = counts-claimed node_id now shards x f in
    (
      ground arith,
      ground (arith, get-insert job_id k (claimed node_id now shards) s.shards),
      fewer,
      more,
    )

claim_some :
    (s : TrainingStore) (job_id node_id i : String) (now : ℕ) (content : Text)
    → (claim_next_shard s job_id node_id now).1 ≡ some (i, content)
    → (shards : List DataShard) × (x : DataShard) × (HashMap.get job_id s.shards ≡ some shards)
      × (find (λ y. is_available y.status) shards ≡ some x)
      × (x.shard_id ≡ i)
      × (HashMap.get job_id (claim_next_shard s job_id node_id now).0.shards
          ≡ some (claimed node_id now shards))
unfolding claim_next_shard claim_shard
claim_some s job_id node_id i now content e = elim (Option-cases (HashMap.get job_id s.shards)) [
  | inl n ↦ absurd (ground arith)
  | inr (shards, n) ↦ elim (Option-cases (find (λ y. is_available y.status) shards)) [
    | inl m ↦ absurd (ground arith)
    | inr (x, m) ↦ elim (Option-cases (HashMap.get x.shard_id s.shard_data)) [
      | inl o ↦ absurd (ground arith)
      | inr (c, o) ↦ (
        shards,
        x,
        n,
        m,
        ground arith,
        ground
            (arith, get-insert job_id job_id (claimed node_id now shards) s.shards, eq_refl job_id),
      )
    ]
  ]
]

-- Two claims on a job whose shards have distinct ids, one right after the other, never return the
-- same shard.
pub claim_twice :
    (s : TrainingStore) (job_id n₁ n₂ i j : String) (t₁ t₂ : ℕ) (c₁ c₂ : Text)
    (shards : List DataShard)
    → HashMap.get job_id s.shards ≡ some shards
    → distinct (shard_ids shards) ≡ true
    → (claim_next_shard s job_id n₁ t₁).1 ≡ some (i, c₁)
    → (claim_next_shard (claim_next_shard s job_id n₁ t₁).0 job_id n₂ t₂).1 ≡ some (j, c₂)
    → i ≢ j
claim_twice s job_id n₁ n₂ i j t₁ t₂ c₁ c₂ shards e d p q same =
    let (xs, x, ex, fx, ix, after) = claim_some s job_id n₁ i t₁ c₁ p in
    let (ys, y, ey, fy, iy, _) =
      claim_some (claim_next_shard s job_id n₁ t₁).0 job_id n₂ j t₂ c₂ q in
    let sx : shards ≡ xs = cc (ex, e) in
    let sy : ys ≡ claimed n₁ t₁ xs = cc (ey, after) in
    let d' = subst (λ zs. distinct (shard_ids zs) ≡ true) sx d in
    cc (open_ids-claimed n₁ t₁ xs x d' fx, open_ids-find ys y fy, sy, ix, iy, same)
