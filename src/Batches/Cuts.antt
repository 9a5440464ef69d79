-- ===== src/Batches/Cuts.antt =====
-- shared/training/src/dataset.rs, `make_batches`: the batches together are the rows.
use hyverk_distributed_llm.Common.{
  ℕ, zero, suc, ◌+◌, ◌-◌, ◌≤◌, ◌<◌, min, ◌≡◌, refl, ap, sym, ◌∙◌, some, List, [], ◌∷◌, ◌++◌, map,
  arith, ltb, leb, length, take, drop, All, inl, inr, Bool-cases, Option-cases,
}
use hyverk_distributed_llm.Batches.{
  ℤ, TokenizedBatch, slice, batches_from, make_batches, tokenize_row, tokenize_rows,
}

abbrev pub Batch : Type 0
Batch = List (List ℕ) × List (List ℤ)

pub concat {ℓ} : {A : Type ℓ} → List (List A) → List A
concat [] = []
concat (xs ∷ xss) = xs ++ concat xss

-- Batches of the rows from `start` on.
pub record Cuts (b : TokenizedBatch) (size start : ℕ) (bs : List Batch) : Type 0 where
  pub ids : concat (map (λ x. x.0) bs) ≡ drop start b.input_ids
  pub labels : concat (map (λ x. x.1) bs) ≡ drop start b.labels
  pub sizes :
      All (λ (x : Batch). (0 < length x.0) × (length x.0 ≤ size) × (length x.1 ≡ length x.0)) bs

module _ {ℓ} {A : Type ℓ} where
  drop_all : (n : ℕ) (xs : List A) → length xs ≤ n → drop n xs ≡ []
  drop_all zero [] h = refl
  drop_all zero (x ∷ xs) h = absurd (omega arith)
  drop_all (suc n) [] h = refl
  drop_all (suc n) (x ∷ xs) h = drop_all n xs (omega arith)

  take-drop : (d : ℕ) (ys : List A) → take d ys ++ drop d ys ≡ ys
  take-drop zero ys = refl
  take-drop (suc d) [] = refl
  take-drop (suc d) (y ∷ ys) = ap (◌∷◌ y) (take-drop d ys)

  drop_nil : (n : ℕ) → drop {A = A} n [] ≡ []
  drop_nil zero = refl
  drop_nil (suc n) = refl

  drop-drop : (s d : ℕ) (xs : List A) → drop d (drop s xs) ≡ drop (s + d) xs
  drop-drop zero d xs = ap (λ n. drop n xs) {x = d} {y = zero + d} (omega arith)
  drop-drop (suc s) d [] = drop_nil d ∙ sym (drop_nil (suc s + d))
  drop-drop (suc s) d (x ∷ xs) =
      drop-drop s d xs ∙ ap (λ n. drop n (x ∷ xs)) {x = suc (s + d)} {y = suc s + d} (omega arith)

  length-take : (d : ℕ) (ys : List A) → length (take d ys) ≡ min d (length ys)
  length-take zero ys = omega arith
  length-take (suc d) [] = omega arith
  length-take (suc d) (y ∷ ys) = omega (arith, length-take d ys)

  length-drop : (d : ℕ) (ys : List A) → length (drop d ys) ≡ length ys - d
  length-drop zero ys = omega arith
  length-drop (suc d) [] = omega arith
  length-drop (suc d) (y ∷ ys) = omega (arith, length-drop d ys)

  drop-min : (k : ℕ) (xs : List A) → drop (min k (length xs)) xs ≡ drop k xs
  drop-min k xs = elim (Bool-cases (leb k (length xs))) [
    | inl e ↦ ap (λ n. drop n xs) {x = min k (length xs)} (ground arith)
    | inr e ↦ drop_all (min k (length xs)) xs (ground arith) ∙ sym (drop_all k xs (ground arith))
  ]

  -- A slice and the rest behind it.
  slice_lem :
      (s k : ℕ) (xs : List A)
      → s < length xs
      → 0 < k
      → let ys = take (min (s + k) (length xs) - s) (drop s xs) in
        (slice s (min (s + k) (length xs)) xs ≡ some ys)
        × (ys ++ drop (s + k) xs ≡ drop s xs)
        × (length ys ≡ min k (length xs - s))
  unfolding slice
  slice_lem s k xs h j =
      let e = min (s + k) (length xs) in
      let d = e - s in
      (
        ground arith,
        ap (◌++◌ (take d (drop s xs))) (
              sym (drop-min (s + k) xs)
              ∙ ap (λ n. drop n xs) {x = e} {y = s + d} (omega arith)
              ∙ sym (drop-drop s d xs))
            ∙ take-drop d (drop s xs),
        omega (arith, length-take d (drop s xs), length-drop s xs),
      )

batches_from-Cuts :
    (fuel size start : ℕ) (b : TokenizedBatch)
    → 0 < size
    → length b.labels ≡ length b.input_ids
    → length b.input_ids ≤ start + fuel
    → (bs : List Batch) × (batches_from fuel (length b.input_ids) size start b ≡ some bs)
      × Cuts b size start bs
unfolding batches_from concat
batches_from-Cuts zero size start b pos_size same enough = (
  [],
  refl,
  record {
    ids = sym (drop_all start b.input_ids (omega arith));
    labels = sym (drop_all start b.labels (omega (arith, same)));
    sizes = tt;
  },
)
batches_from-Cuts (suc fuel) size start b pos_size same enough =
    let n = length b.input_ids in
    elim (Bool-cases (ltb start n)) [
      | inr e ↦ (
        [],
        rw e refl,
        record {
          ids = sym (drop_all start b.input_ids (ground arith));
          labels = sym (drop_all start b.labels (ground (arith, same)));
          sizes = tt;
        },
      )
      | inl e ↦
          let (bs, rest, cuts) =
            batches_from-Cuts fuel size (start + size) b pos_size same (omega arith) in
          let (ids_at, ids_rest, ids_size) =
            slice_lem start size b.input_ids (ground arith) pos_size in
          let (lbl_at, lbl_rest, lbl_size) =
            slice_lem start size b.labels (ground (arith, same)) pos_size in
          let first : Batch = (
            take (min (start + size) n - start) (drop start b.input_ids),
            take (min (start + size) (length b.labels) - start) (drop start b.labels),
          ) in
          let lbl_here : slice start (min (start + size) n) b.labels ≡ some first.1 =
            ap (λ k. slice start (min (start + size) k) b.labels) (sym same) ∙ lbl_at in
          (
            first ∷ bs,
            rw (e, ids_at, lbl_here, rest) refl,
            record {
              ids = ap (◌++◌ (first.0)) cuts.ids ∙ ids_rest;
              labels = ap (◌++◌ (first.1)) cuts.labels ∙ lbl_rest;
              sizes = (
                (
                  ground (arith, ids_size),
                  omega (arith, ids_size),
                  omega (arith, ids_size, lbl_size, same),
                ),
                cuts.sizes,
              );
            },
          )
    ]

-- With as many labels as rows, and batches of at least one row, `make_batches` gives batches that
-- together are the rows and the labels in their order, none empty and none larger than asked for, and
-- each with as many labels as rows.
pub make_batches-Cuts :
    (b : TokenizedBatch) (size : ℕ)
    → 0 < size
    → length b.labels ≡ length b.input_ids
    → (bs : List Batch) × (make_batches b size ≡ some bs) × Cuts b size 0 bs
unfolding make_batches
make_batches-Cuts b size pos_size same =
    let (bs, e, cuts) =
      batches_from-Cuts (length b.input_ids) size 0 b pos_size same (omega arith) in
    (bs, ground (arith, e), cuts)

rows_same :
    (m : ℕ) (ps fs : List (List ℕ))
    → length (tokenize_rows m ps fs).labels ≡ length (tokenize_rows m ps fs).input_ids
unfolding tokenize_rows
rows_same m [] fs = refl
rows_same m (p ∷ ps) [] = refl
rows_same m (p ∷ ps) (f ∷ fs) = elim (Option-cases (tokenize_row m p f)) [
  | inl e ↦ ground (arith, e, rows_same m ps fs)
  | inr (row, e) ↦ ground (arith, e, rows_same m ps fs)
]

-- The rows of `tokenize_examples`, in batches of at least one row: `make_batches` succeeds, the batches
-- together are the rows and their labels in order, none is empty or larger than asked for, and each
-- has as many labels as rows.
pub make_batches-tokenize_rows :
    (m size : ℕ) (prompts fulls : List (List ℕ))
    → 0 < size
    → let b = tokenize_rows m prompts fulls in
      (bs : List Batch) × (make_batches b size ≡ some bs) × Cuts b size 0 bs
make_batches-tokenize_rows m size prompts fulls h =
    make_batches-Cuts (tokenize_rows m prompts fulls) size h (rows_same m prompts fulls)
