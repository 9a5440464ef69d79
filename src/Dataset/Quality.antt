-- ===== src/Dataset/Quality.antt =====
-- server/coordinator/src/dataset_store.rs: which examples are good enough, and the hash that tells
-- duplicates. `to_lowercase` is that of `str`.
use hyverk_distributed_llm.Common.{
  ℕ, zero, suc, ◌+◌, ◌*◌, ◌/◌, ◌%◌, ◌^◌, String, Bool, false, not, ◌&&◌, Option, List, [], ◌∷◌,
  if◌then◌else◌, ltb, ◌==◌, length, take, any,
}
use hyverk_distributed_llm.Common.Text.{Text, trim, starts_with, contains_text}
use hyverk_distributed_llm.Common.Utf8.{codes, encode}

pub record DatasetExample : Type 0 where
  pub id : String
  pub instruction : Text
  pub response : Text
  pub category : String
  pub provider : String
  pub model : String
  pub node_id : String
  pub refined : Bool
  pub execution_verified : Bool
  pub quality_score : Option ℕ
  pub submitted_at_secs : ℕ

abbrev pub refusals : List Text
refusals = codes "i cannot" ∷ codes "i'm unable" ∷ codes "i am unable" ∷ codes "as an ai" ∷ []

-- `s.len()`, in bytes.
unfoldable pub byte_length : Text → ℕ
byte_length s = length (encode s)

-- The lowest `n` bits of `a ^ b`.
unfoldable pub xor : ℕ → ℕ → ℕ → ℕ
xor zero a b = 0
xor (suc n) a b = (if a % 2 == b % 2 then 0 else 1) + 2 * xor n (a / 2) (b / 2)

-- `hash ^= byte`
unfoldable pub xor_byte : ℕ → ℕ → ℕ
unfolding xor
xor_byte hash byte = hash / 256 * 256 + xor 8 hash byte

-- The loop of `instruction_hash`.
unfoldable pub fnv : ℕ → List ℕ → ℕ
unfolding xor_byte
fnv hash [] = hash
fnv hash (b ∷ bs) = fnv (xor_byte hash b * 1099511628211 % 2 ^ 64) bs

module _ (to_lowercase : Text → Text) where
  unfoldable pub passes_quality_filter : DatasetExample → Bool
  unfolding byte_length
  passes_quality_filter ex =
      let has_code = contains_text ex.response (codes "```") in
      let is_substantial = ltb 200 (byte_length ex.response) in
      let rl = to_lowercase ex.response in
      if ltb (byte_length ex.instruction) 20
      then false
      else if ltb (byte_length ex.response) 30
      then false
      else if not has_code && not is_substantial
      then false
      else not (any (λ p. starts_with rl p) refusals)

  unfoldable pub instruction_hash : Text → ℕ
  unfolding fnv
  instruction_hash instruction =
      let normalized = to_lowercase (trim instruction) in
      fnv 14695981039346656037 (encode (take 200 normalized))
