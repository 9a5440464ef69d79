-- ===== src/Dataset/Examples.antt =====
-- server/coordinator/src/dataset_store.rs: the theorems at concrete inputs, and runs of the code.
use hyverk_distributed_llm.Common.{ℕ, String, true, false, ◌≡◌, refl, none, [], ◌∷◌, any}
use hyverk_distributed_llm.Common.HashMap
use hyverk_distributed_llm.Common.Text.{
  Text, trim, trim_start, trim_end, starts_with, contains_text,
}
use hyverk_distributed_llm.Common.Utf8.{codes, encode, encode_code}
use hyverk_distributed_llm.Dataset.{
  DatasetStore, DatasetExample, byte_length, xor, xor_byte, fnv, passes_quality_filter,
  instruction_hash, has_hash, insert_hash, insert_example, load_hashes, open_dataset, add_example,
  add_bulk,
}
use hyverk_distributed_llm.Dataset.Bulk.{add_each, add_bulk-add_each}
use hyverk_distributed_llm.Dataset.Seen
use hyverk_distributed_llm.Dataset.Seen.{IsClean, after-IsClean}
use hyverk_distributed_llm.Dataset.Restart.{
  Reach, opens, adds, add_example-open_dataset, add_example_lost,
}

-- The FNV-1a hash of "a".
fnv_a : fnv 14695981039346656037 (97 ∷ []) ≡ 12638187200555641996
unfolding fnv xor_byte xor
fnv_a = refl

abbrev example : String → Text → DatasetExample
example id instruction = record {
  id = id;
  instruction = instruction;
  response = codes "Use this: ```rust fn main() {} ``` and run it.";
  category = "rust";
  provider = "p";
  model = "m";
  node_id = "n";
  refined = false;
  execution_verified = true;
  quality_score = none;
  submitted_at_secs = 9;
}

abbrev first : DatasetExample
first = example "e1" (codes "Write a program that prints nothing.")

-- Other words under the same id.
abbrev second : DatasetExample
second = example "e1" (codes "Explain the borrow checker in one line.")

abbrev same_text : Text → Text
same_text t = t

abbrev filled : DatasetStore
filled = (add_example same_text (open_dataset same_text []) first).0

filled-Reach : Reach same_text filled
unfolding open_dataset HashMap.get
filled-Reach = adds opens first refl

-- All that the checks of an example go through.
run : ℕ
unfolding open_dataset add_example insert_example insert_hash has_hash load_hashes
    passes_quality_filter instruction_hash fnv xor_byte xor trim trim_start trim_end starts_with
    contains_text byte_length encode encode_code any HashMap.get
run = 0

add_bulk-add_each_example :
    add_bulk same_text (open_dataset same_text []) (first ∷ second ∷ first ∷ [])
    ≡ add_each same_text (open_dataset same_text []) (first ∷ second ∷ first ∷ [])
add_bulk-add_each_example =
    add_bulk-add_each same_text (open_dataset same_text []) (first ∷ second ∷ first ∷ [])

after-IsClean_example :
    IsClean same_text
      (Seen.after same_text (Seen.adds second ∷ Seen.reopens ∷ Seen.adds first ∷ []))
after-IsClean_example =
    after-IsClean same_text (Seen.adds second ∷ Seen.reopens ∷ Seen.adds first ∷ [])

add_example-open_dataset_example :
    (add_example same_text (open_dataset same_text filled.examples) first).1
    ≡ (add_example same_text filled first).1
add_example-open_dataset_example = add_example-open_dataset same_text filled first filled-Reach

add_example_lost_example :
    ((add_example same_text filled second).1 ≡ true)
    × ((add_example same_text filled second).0.examples ≡ filled.examples)
    × ((add_example same_text (add_example same_text filled second).0 second).1 ≡ false)
    × ((add_example same_text
          (open_dataset same_text (add_example same_text filled second).0.examples)
          second).1
        ≡ true)
unfolding run
add_example_lost_example =
    add_example_lost same_text filled second first filled-Reach refl refl refl
