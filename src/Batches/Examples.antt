-- ===== src/Batches/Examples.antt =====
-- shared/training/src/dataset.rs: the theorems at concrete inputs, and runs of the code.
use hyverk_distributed_llm.Common.{ℕ, ◌≡◌, refl, some, List, [], ◌∷◌, arith, all}
use hyverk_distributed_llm.Batches.{
  pos, ignored, is_ignored, resize, label_from, tokenize_row, tokenize_rows, make_batches,
}
use hyverk_distributed_llm.Batches.Rows.{IsRow, tokenize_row-IsRow}
use hyverk_distributed_llm.Batches.Cuts.{Batch, Cuts, make_batches-tokenize_rows}

-- Two tokens of the prompt, two of the response, and one to fill up.
one_row :
    tokenize_row 5 (1 ∷ 2 ∷ []) (1 ∷ 2 ∷ 8 ∷ 9 ∷ [])
    ≡ some (1 ∷ 2 ∷ 8 ∷ 9 ∷ 0 ∷ [], ignored ∷ ignored ∷ pos 8 ∷ pos 9 ∷ ignored ∷ [])
unfolding tokenize_row resize label_from is_ignored all
one_row = refl

tokenize_row-IsRow_example :
    IsRow 5 (1 ∷ 2 ∷ []) (1 ∷ 2 ∷ 8 ∷ 9 ∷ []) (tokenize_row 5 (1 ∷ 2 ∷ []) (1 ∷ 2 ∷ 8 ∷ 9 ∷ []))
tokenize_row-IsRow_example = tokenize_row-IsRow 5 (1 ∷ 2 ∷ []) (1 ∷ 2 ∷ 8 ∷ 9 ∷ [])

abbrev prompts : List (List ℕ)
prompts = (1 ∷ []) ∷ (1 ∷ 2 ∷ 3 ∷ []) ∷ (4 ∷ []) ∷ []

-- The response of the second example lies behind the window.
abbrev fulls : List (List ℕ)
fulls = (1 ∷ 5 ∷ []) ∷ (1 ∷ 2 ∷ 3 ∷ 6 ∷ []) ∷ (4 ∷ 7 ∷ []) ∷ []

make_batches-tokenize_rows_example :
    (bs : List Batch) × (make_batches (tokenize_rows 3 prompts fulls) 2 ≡ some bs)
    × Cuts (tokenize_rows 3 prompts fulls) 2 0 bs
make_batches-tokenize_rows_example = make_batches-tokenize_rows 3 2 prompts fulls (omega arith)
