-- ===== src/Sandbox.antt =====
-- server/sandbox/src/extractor.rs and lib.rs: the Rust code in a response. The runner, which starts
-- cargo, is a parameter.
pub mod Blocks
mod Examples
use hyverk_distributed_llm.Common.{
  ℕ, String, Bool, true, false, not, ◌&&◌, ◌||◌, List, [], ◌∷◌, ◌++◌, if◌then◌else◌, ltb, length,
  filter, any,
}
use hyverk_distributed_llm.Common.Text.{
  Text, newline, lines, trim, starts_with, contains_text, text_eq,
}
use hyverk_distributed_llm.Common.Utf8.{codes, encode}

pub data VerificationStage : Type 0 where
  no_code compile_failed compiled_no_tests tests_passed tests_failed timeout : VerificationStage

pub record QualitySignals : Type 0 where
  pub has_doc_comments : Bool
  pub has_tests : Bool
  pub has_error_handling : Bool
  pub function_count : ℕ
  pub line_count : ℕ
  pub warning_count : ℕ

pub record VerificationResult : Type 0 where
  pub passed : Bool
  pub stage : VerificationStage
  pub stdout : Text
  pub stderr : Text
  pub duration_ms : ℕ
  pub signals : QualitySignals

abbrev pub rust_fence : Text
rust_fence = codes "```rust"

abbrev pub fence : Text
fence = codes "```"

-- A block is kept if it is not blank.
pub push_block : Text → List Text → List Text
push_block current blocks =
    let block = trim current in elim block [ [] ↦ blocks | c ∷ cs ↦ (c ∷ cs) ∷ blocks ]

-- The loop of `extract_rust_blocks`, outside a block or in one, with the lines of the block so far.
pub scan : Bool → Text → List Text → List Text
scan false current [] = []
scan true current [] = push_block current []
scan false current (line ∷ ls) =
    let opened = scan true [] ls in
    let rest = scan false current ls in
    let trimmed = trim line in
    if starts_with trimmed rust_fence || text_eq trimmed rust_fence then opened else rest
scan true current (line ∷ ls) =
    let closed = scan false [] ls in
    let rest = scan true (current ++ line ++ newline ∷ []) ls in
    if text_eq (trim line) fence then push_block current closed else rest

pub extract_rust_blocks : Text → List Text
extract_rust_blocks text = scan false [] (lines text)

is_function : Text → Bool
is_function line =
    let t = trim line in
    (starts_with t (codes "fn ")
      || starts_with t (codes "pub fn ")
      || starts_with t (codes "async fn ")
      || starts_with t (codes "pub async fn "))
    && not (starts_with t (codes "//"))

pub analyze_code : Text → QualitySignals
analyze_code code = record {
  has_doc_comments = contains_text code (codes "///") || contains_text code (codes "//!");
  has_tests = contains_text code (codes "#[test]") || contains_text code (codes "#[cfg(test)]");
  has_error_handling =
      contains_text code (codes "Result<")
      || contains_text code (codes "Option<")
      || contains_text code (codes ".unwrap_or")
      || contains_text code (codes "map_err")
      || contains_text code (codes "?;");
  function_count = length (filter is_function (lines code));
  line_count = length (lines code);
  warning_count = 0;
}

-- `max_by_key(|s| s.len())`: the last of the longest.
pub largest : Text → List Text → Text
largest best [] = best
largest best (b ∷ bs) =
    largest (if ltb (length (encode b)) (length (encode best)) then best else b) bs

-- `run_in_sandbox` is the runner.
pub verify_response : (Text → QualitySignals → VerificationResult) → Text → VerificationResult
verify_response run_in_sandbox response = elim (extract_rust_blocks response) [
  | [] ↦ record {
    passed = false;
    stage = no_code;
    stdout = [];
    stderr = [];
    duration_ms = 0;
    signals = record {
      has_doc_comments = false;
      has_tests = false;
      has_error_handling = false;
      function_count = 0;
      line_count = length (lines response);
      warning_count = 0;
    };
  }
  | b ∷ bs ↦ let code = largest b bs in run_in_sandbox code (analyze_code code)
]

pub has_rust_code : Text → Bool
has_rust_code response = any (λ b. ltb 20 (length (encode b))) (extract_rust_blocks response)
