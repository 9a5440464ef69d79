-- ===== src/Batches.antt =====
-- shared/training/src/dataset.rs: the examples for fine-tuning, as tokens, labels and batches. The
-- tokenizer and the JSON parser are parameters.
pub mod Rows
pub mod Cuts
mod Examples
use hyverk_distributed_llm.Common.{
  ℕ, zero, suc, ◌+◌, ◌-◌, min, Bool, true, false, not, ◌&&◌, Option, none, some, List, [], ◌∷◌,
  ◌++◌, map, if◌then◌else◌, ltb, leb, ◌==◌, length, take, drop, all, filter,
}
use hyverk_distributed_llm.Common.Text.{Text, lines, is_blank}
use hyverk_distributed_llm.Common.Utf8.{codes}

pub record TrainingExample : Type 0 where
  pub instruction : Text
  pub response : Text
  pub category : Text

hyverk_system : Text
hyverk_system =
    codes
      "You are Hyverk, an expert software engineer specializing in Rust, TypeScript, distributed systems, and DevOps. You write clean, idiomatic, production-quality code with proper error handling."

pub format_chatml_prompt_only : TrainingExample → Text
format_chatml_prompt_only ex =
    codes "<|im_start|>system\n"
    ++ hyverk_system
    ++ codes "<|im_end|>\n<|im_start|>user\n"
    ++ ex.instruction
    ++ codes "<|im_end|>\n<|im_start|>assistant\n"

pub format_chatml : TrainingExample → Text
format_chatml ex =
    codes "<|im_start|>system\n"
    ++ hyverk_system
    ++ codes "<|im_end|>\n<|im_start|>user\n"
    ++ ex.instruction
    ++ codes "<|im_end|>\n<|im_start|>assistant\n"
    ++ ex.response
    ++ codes "<|im_end|>"

-- `filter_map` with the parser's answer.
parse_all : (Text → Option TrainingExample) → List Text → List TrainingExample
parse_all parse [] = []
parse_all parse (l ∷ ls) = elim (parse l) [
  | none ↦ parse_all parse ls
  | some ex ↦ ex ∷ parse_all parse ls
]

load_jsonl : (Text → Option TrainingExample) → Text → List TrainingExample
load_jsonl parse content = parse_all parse (filter (λ l. not (is_blank l)) (lines content))

-- A label, an `i64`: `negsuc n` is -(n + 1).
pub data ℤ : Type 0 where
  pos : ℕ → ℤ
  negsuc : ℕ → ℤ

-- -100
abbrev pub ignored : ℤ
ignored = negsuc 99

pub is_ignored : ℤ → Bool
is_ignored (pos n) = false
is_ignored (negsuc n) = n == 99

pub record TokenizedBatch : Type 0 where
  pub input_ids : List (List ℕ)
  pub labels : List (List ℤ)

-- `Vec::resize`
pub resize {ℓ} : {A : Type ℓ} → ℕ → A → List A → List A
resize zero x xs = []
resize (suc n) x [] = x ∷ resize n x []
resize (suc n) x (y ∷ ys) = y ∷ resize n x ys

-- The labels of the tokens from the `i`-th on.
pub label_from : ℕ → ℕ → List ℕ → List ℤ
label_from prompt_len i [] = []
label_from prompt_len i (id ∷ ids) =
    (if ltb i prompt_len then ignored else pos id) ∷ label_from prompt_len (i + 1) ids

-- The body of the loop; `none` skips the example.
pub tokenize_row : ℕ → List ℕ → List ℕ → Option (List ℕ × List ℤ)
tokenize_row max_seq_len prompt full =
    let prompt_len = min (length prompt) max_seq_len in
    let full_ids = take max_seq_len full in
    let padded_ids = resize max_seq_len 0 full_ids in
    let padded_lbl = resize max_seq_len ignored (label_from prompt_len 0 full_ids) in
    if all is_ignored padded_lbl then none else some (padded_ids, padded_lbl)

-- The loop over both lists of encodings.
pub tokenize_rows : ℕ → List (List ℕ) → List (List ℕ) → TokenizedBatch
tokenize_rows max_seq_len [] fulls = record { input_ids = []; labels = [] }
tokenize_rows max_seq_len (p ∷ ps) [] = record { input_ids = []; labels = [] }
tokenize_rows max_seq_len (p ∷ ps) (f ∷ fs) =
    let rest = tokenize_rows max_seq_len ps fs in
    elim (tokenize_row max_seq_len p f) [
      | none ↦ rest
      | some (ids, lbl) ↦ record { input_ids = ids ∷ rest.input_ids; labels = lbl ∷ rest.labels }
    ]

-- `encode_batch` is the tokenizer, `none` its error.
pub tokenize_examples :
    (List Text → Option (List (List ℕ))) → List TrainingExample → ℕ → Option TokenizedBatch
tokenize_examples encode_batch examples max_seq_len =
    elim (encode_batch (map format_chatml_prompt_only examples)) [
      | none ↦ none
      | some prompts ↦ elim (encode_batch (map format_chatml examples)) [
        | none ↦ none
        | some fulls ↦ some (tokenize_rows max_seq_len prompts fulls)
      ]
    ]

-- `xs[start..end]`, which panics past the end.
pub slice {ℓ} : {A : Type ℓ} → ℕ → ℕ → List A → Option (List A)
slice start end xs = if leb end (length xs) then some (take (end - start) (drop start xs)) else none

-- The batches from `start` on, below `n`; the fuel is the number of rows.
pub batches_from : ℕ → ℕ → ℕ → ℕ → TokenizedBatch → Option (List (List (List ℕ) × List (List ℤ)))
batches_from zero n size start b = some []
batches_from (suc fuel) n size start b =
    let end = min (start + size) n in
    let rest = batches_from fuel n size (start + size) b in
    let here : Option (List (List (List ℕ) × List (List ℤ))) = elim (slice start end b.input_ids) [
      | none ↦ none
      | some ids ↦ elim (slice start end b.labels) [
        | none ↦ none
        | some lbl ↦ elim rest [ none ↦ none | some bs ↦ some ((ids, lbl) ∷ bs) ]
      ]
    ] in
    if ltb start n then here else some []

-- `step_by` panics at 0, which is `none`.
pub make_batches : TokenizedBatch → ℕ → Option (List (List (List ℕ) × List (List ℤ)))
make_batches b batch_size =
    let n = length b.input_ids in if batch_size == 0 then none else batches_from n n batch_size 0 b
