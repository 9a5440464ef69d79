-- ===== src/Sandbox/Examples.antt =====
-- server/sandbox/src/extractor.rs: the theorem at a concrete input, and runs of the code.
use hyverk_distributed_llm.Common.{◌≡◌, refl, List, [], ◌∷◌, filter}
use hyverk_distributed_llm.Common.Text.{Text, lines, trim, starts_with, text_eq}
use hyverk_distributed_llm.Common.Utf8.{codes}
use hyverk_distributed_llm.Sandbox.{
  push_block, scan, extract_rust_blocks, is_function, analyze_code,
}
use hyverk_distributed_llm.Sandbox.Blocks.{
  Part, prose, code, AreBlocks, render, extract_rust_blocks-AreBlocks,
}

-- The text of the source's test `test_extract_basic`.
abbrev response : Text
response = codes "Here is code:\n```rust\nfn main() {}\n```\nDone."

basic : extract_rust_blocks response ≡ codes "fn main() {}" ∷ []
unfolding extract_rust_blocks scan push_block lines trim starts_with text_eq
basic = refl

-- The functions of the source's test `test_analyze_code`.
two_functions :
    (analyze_code (
      codes
        "/// Does something\npub fn foo() -> Result<i32, String> {\n    Ok(42)\n}\n\n#[cfg(test)]\nmod tests {\n    #[test]\n    fn test_foo() {}\n}")).function_count
    ≡ 2
unfolding analyze_code is_function lines trim starts_with filter
two_functions = refl

abbrev parts : List Part
parts =
    prose (codes "Here is code:")
    ∷ code (codes "```rust") (codes "fn main() {}" ∷ [])
    ∷ prose (codes "Done.")
    ∷ []

extract_rust_blocks-AreBlocks_example : AreBlocks parts (extract_rust_blocks response)
unfolding render lines trim starts_with text_eq
extract_rust_blocks-AreBlocks_example =
    extract_rust_blocks-AreBlocks response parts refl (refl, ((refl, (refl, tt)), (refl, tt)))
