-- ===== src/Training/Sharding/Cuts.antt =====
-- training_store.rs, `create_job`: the shards hold the dataset's lines, all of them and in order.
use mathlib.Core.List.{flatten}
use hyverk_distributed_llm.Common.{
  ℕ, zero, suc, ◌+◌, ◌*◌, ◌≤◌, ◌<◌, String, ◌≡◌, ◌≢◌, refl, ap, ◌∙◌, List, [], ◌∷◌, ◌++◌, map,
  arith, length, length-append, take, drop,
}
use hyverk_distributed_llm.Common.Ranges.{Tiles}
use hyverk_distributed_llm.Common.Text.{Text}
use hyverk_distributed_llm.Training.Types.{DataShard}
use hyverk_distributed_llm.Training.Sharding.{chunks, make_shards}

module _ {ℓ} {A : Type ℓ} where
  take-append-drop : (n : ℕ) (xs : List A) → take n xs ++ drop n xs ≡ xs
  take-append-drop zero xs = refl
  take-append-drop (suc n) [] = refl
  take-append-drop (suc n) (x ∷ xs) = ap (◌∷◌ x) (take-append-drop n xs)

  length-take-le : (n : ℕ) (xs : List A) → length (take n xs) ≤ n
  length-take-le zero xs = omega arith
  length-take-le (suc n) [] = omega arith
  length-take-le (suc n) (x ∷ xs) = omega (arith, length-take-le n xs)

  length-take-drop : (n : ℕ) (xs : List A) → length (take n xs) + length (drop n xs) ≡ length xs
  length-take-drop n xs =
      omega (arith, length-append (take n xs) (drop n xs), ap length (take-append-drop n xs))

  -- A chunk that is not full is the last one.
  full_or_last : (n : ℕ) (xs : List A) → drop n xs ≢ [] → length (take n xs) ≡ n
  full_or_last zero xs h = refl
  full_or_last (suc n) [] h = absurd (h refl)
  full_or_last (suc n) (x ∷ xs) h = omega (arith, full_or_last n xs h)

  pub flatten-chunks :
      (fuel size : ℕ) (xs : List A)
      → 0 < size
      → length xs ≤ fuel
      → flatten (chunks fuel size xs) ≡ xs
  unfolding chunks flatten
  flatten-chunks zero size [] p h = refl
  flatten-chunks zero size (x ∷ xs) p h = absurd (omega arith)
  flatten-chunks (suc fuel) size [] p h = refl
  flatten-chunks (suc fuel) zero (x ∷ xs) p h = absurd (omega arith)
  flatten-chunks (suc fuel) (suc n) (x ∷ xs) p h =
      ap (λ r. take (suc n) (x ∷ xs) ++ r)
        (flatten-chunks fuel (suc n) (drop n xs) p (omega (arith, length-take-drop n xs)))
      ∙ take-append-drop (suc n) (x ∷ xs)

-- Every chunk but the last is full, and the last one is not empty.
abbrev pub IsCut {ℓ} : {A : Type ℓ} → ℕ → List (List A) → Type 0
IsCut size [] = Unit
IsCut size (c ∷ []) = (0 < length c) × (length c ≤ size)
IsCut size (c ∷ d ∷ cs) = (length c ≡ size) × IsCut size (d ∷ cs)

module _ {ℓ} {A : Type ℓ} where
  IsCut-next :
      (fuel size : ℕ) (c rest : List A)
      → 0 < length c
      → length c ≤ size
      → (rest ≢ [] → length c ≡ size)
      → length rest ≤ fuel
      → IsCut size (chunks fuel size rest)
      → IsCut size (c ∷ chunks fuel size rest)
  unfolding chunks
  IsCut-next zero size c [] p h f l k = (p, h)
  IsCut-next zero size c (y ∷ rest) p h f l k = absurd (omega arith)
  IsCut-next (suc fuel) size c [] p h f l k = (p, h)
  IsCut-next (suc fuel) size c (y ∷ rest) p h f l k = (f (λ e. cc), k)

  pub chunks-IsCut :
      (fuel size : ℕ) (xs : List A) → 0 < size → length xs ≤ fuel → IsCut size (chunks fuel size xs)
  unfolding chunks
  chunks-IsCut zero size [] p h = tt
  chunks-IsCut zero size (x ∷ xs) p h = absurd (omega arith)
  chunks-IsCut (suc fuel) size [] p h = tt
  chunks-IsCut (suc fuel) zero (x ∷ xs) p h = absurd (omega arith)
  chunks-IsCut (suc fuel) (suc n) (x ∷ xs) p h =
      let short : length (drop n xs) ≤ fuel = omega (arith, length-take-drop n xs) in
      IsCut-next fuel (suc n) (x ∷ take n xs) (drop n xs) (omega arith)
        (omega (arith, length-take-le n xs)) (λ e. ap suc (full_or_last n xs e)) short
        (chunks-IsCut fuel (suc n) (drop n xs) p short)

abbrev pub shard_range : DataShard → ℕ × ℕ
shard_range s = (s.start_line, s.end_line)

pub make_shards-Tiles :
    (job_id : String) (uuid : ℕ → String) (size idx a b : ℕ) (cs : List (List Text))
    → IsCut size cs
    → a ≡ idx * size
    → b ≡ a + length (flatten cs)
    → Tiles a (map shard_range (make_shards job_id uuid size idx cs)) b
unfolding make_shards flatten
make_shards-Tiles job_id uuid size idx a b [] c e f = omega arith
make_shards-Tiles job_id uuid size idx a b (x ∷ []) c e f =
    (omega arith, omega arith, omega (arith, length-append x []))
make_shards-Tiles job_id uuid size idx a b (x ∷ y ∷ cs) c e f = (
  omega arith,
  omega arith,
  make_shards-Tiles job_id uuid size (idx + 1) (idx * size + length x) b (y ∷ cs) c.1 (omega arith)
      (omega (arith, length-append x (flatten (y ∷ cs)))),
)
