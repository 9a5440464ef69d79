-- ===== src/Rag/Index.antt =====
-- server/rag/src/index.rs: the BM25 index. Floats and their arithmetic are parameters, as are Unicode's
-- normal form and its character classes; an average is kept as the two numbers of its quotient.
pub mod Postings
pub mod Counts
pub mod Hits
pub mod Same
pub mod Orders
use hyverk_distributed_llm.Common.{
  ℕ, ◌+◌, ◌-◌, ◌%◌, ◌^◌, String, Bool, Option, none, some, List, [], ◌∷◌, ◌++◌, ◌||◌, not,
  if◌then◌else◌, leb, ltb, ◌==◌, str_eq, length, filter, take, map, is_some,
}
use hyverk_distributed_llm.Common.HashMap
use hyverk_distributed_llm.Common.HashMap.{HashMap, keys, values}
use hyverk_distributed_llm.Common.Text.{Text}
use hyverk_distributed_llm.Common.Utf8.{encode, from_codes}

pub record Bm25Index : Type 0 where
  pub doc_term_freq : HashMap (HashMap ℕ)
  pub inverted : HashMap (List String)
  pub doc_lengths : HashMap ℕ
  pub avg_doc_len : ℕ × ℕ
  pub num_docs : ℕ

unfoldable pub new : Bm25Index
new = record {
  doc_term_freq = [];
  inverted = [];
  doc_lengths = [];
  avg_doc_len = (0, 1);
  num_docs = 0;
}

pub sum : List ℕ → ℕ
sum [] = 0
sum (n ∷ ns) = n + sum ns

abbrev pub or_default {ℓ} : {A : Type ℓ} → A → Option A → A
or_default d none = d
or_default d (some x) = x

-- `for term in &terms { *freq.entry(term).or_default() += 1 }`, on `u32`.
pub count_terms : HashMap ℕ → List String → HashMap ℕ
count_terms freq [] = freq
count_terms freq (t ∷ ts) =
    count_terms (HashMap.insert t ((or_default 0 (HashMap.get t freq) + 1) % 2 ^ 32) freq) ts

-- `inverted.entry(term).or_default().push(doc_id)`, for each term.
pub add_postings : String → List String → HashMap (List String) → HashMap (List String)
add_postings doc_id [] m = m
add_postings doc_id (t ∷ ts) m =
    add_postings doc_id ts (HashMap.insert t (or_default [] (HashMap.get t m) ++ doc_id ∷ []) m)

-- `docs.retain(|d| d != doc_id)`, for each term.
pub remove_postings : String → List String → HashMap (List String) → HashMap (List String)
remove_postings doc_id [] m = m
remove_postings doc_id (t ∷ ts) m =
    remove_postings doc_id ts (HashMap.modify t (filter (λ d. not (str_eq d doc_id))) m)

-- The first block of `remove_document`.
drop_terms : Bm25Index → String → Bm25Index
drop_terms s doc_id = elim (HashMap.get doc_id s.doc_term_freq) [
  | none ↦ s
  | some freq ↦ record s {
    doc_term_freq = HashMap.remove doc_id s.doc_term_freq;
    inverted = remove_postings doc_id (keys freq) s.inverted;
  }
]

-- Its second block.
drop_length : Bm25Index → String → Bm25Index
drop_length s doc_id =
    let lengths = HashMap.remove doc_id s.doc_lengths in
    let n = s.num_docs - 1 in
    let s' = record s { doc_lengths = lengths; num_docs = n } in
    let averaged = record s' { avg_doc_len = (sum (values lengths), n) } in
    if is_some (HashMap.get doc_id s.doc_lengths) then (if ltb 0 n then averaged else s') else s

pub remove_document : Bm25Index → String → Bm25Index
remove_document s doc_id = drop_length (drop_terms s doc_id) doc_id

-- `add_document`, with the terms that `tokenize` makes of the text.
pub add_document : Bm25Index → String → List String → Bm25Index
add_document s doc_id terms =
    let r = remove_document s doc_id in
    let freq = count_terms [] terms in
    let lengths = HashMap.insert doc_id (length terms) r.doc_lengths in
    record {
      doc_term_freq = HashMap.insert doc_id freq r.doc_term_freq;
      inverted = add_postings doc_id (keys freq) r.inverted;
      doc_lengths = lengths;
      avg_doc_len = (sum (values lengths), r.num_docs + 1);
      num_docs = r.num_docs + 1;
    }

pub postings : String → HashMap (List String) → List String
postings t m = or_default [] (HashMap.get t m)

pub doc_count : Bm25Index → ℕ
doc_count s = s.num_docs

-- `tokenize`, on the characters of the text in its normal form.
module _ (is_alphanumeric : ℕ → Bool) (lowercase : ℕ → ℕ) where
  -- The loop; `current` is the token that is being read.
  pub split_words : Text → Text → List String
  split_words current [] = if leb 2 (length (encode current)) then from_codes current ∷ [] else []
  split_words current (c ∷ cs) =
      let rest = split_words [] cs in
      let grown = split_words (current ++ lowercase c ∷ []) cs in
      if is_alphanumeric c || (c == 95)
      then grown
      else if leb 2 (length (encode current))
      then from_codes current ∷ rest
      else rest

  pub tokenize : (Text → Text) → Text → List String
  tokenize nfc text = split_words [] (nfc text)

-- `search`: `weight` is what a document gets for a term, from the numbers of documents, of those with
-- the term, of the term's occurrences, the document's length and the average; `before` is the order
-- of the ranking, and `order` the order in which the scores come out of their `HashMap`.
module _ {F : Type 0} (zero_score : F) (add : F → F → F) (weight : ℕ → ℕ → ℕ → ℕ → ℕ × ℕ → F)
    (before : F → F → Bool) where
  term_weight : Bm25Index → String → ℕ → String → F
  term_weight s term df doc_id =
      let tf : ℕ = elim (HashMap.get doc_id s.doc_term_freq) [
        | none ↦ 0
        | some freq ↦ or_default 0 (HashMap.get term freq)
      ] in
      weight s.num_docs df tf (or_default 1 (HashMap.get doc_id s.doc_lengths)) s.avg_doc_len

  pub score_docs : Bm25Index → String → ℕ → List String → HashMap F → HashMap F
  score_docs s term df [] scores = scores
  score_docs s term df (d ∷ ds) scores = score_docs s term df ds (
      HashMap.insert d
        (add (or_default zero_score (HashMap.get d scores)) (term_weight s term df d)) scores)

  pub score_terms : Bm25Index → List String → HashMap F → HashMap F
  score_terms s [] scores = scores
  score_terms s (t ∷ ts) scores =
      let docs = postings t s.inverted in
      score_terms s ts (score_docs s t (length docs) docs scores)

  pub insert_ranked : String × F → List (String × F) → List (String × F)
  insert_ranked x [] = x ∷ []
  insert_ranked x (y ∷ ys) = if before x.1 y.1 then x ∷ y ∷ ys else y ∷ insert_ranked x ys

  -- `sort_by` is stable.
  pub sort_ranked : List (String × F) → List (String × F)
  sort_ranked [] = []
  sort_ranked (x ∷ xs) = insert_ranked x (sort_ranked xs)

  module _ (order : HashMap F → HashMap F) where
    pub rank : HashMap F → List (String × F)
    rank scores = sort_ranked (order scores)

    pub search : Bm25Index → List String → ℕ → List (String × F)
    search s query_terms top_k =
        let found = take top_k (rank (score_terms s query_terms [])) in
        if s.num_docs == 0 then [] else found
