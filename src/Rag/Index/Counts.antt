-- ===== src/Rag/Index/Counts.antt =====
-- server/rag/src/index.rs: what the index says of each document and each term.
use hyverk_distributed_llm.Common.{
  ℕ, zero, suc, ◌+◌, ◌%◌, ◌^◌, String, ◌≡◌, ◌<◌, refl, ap, ◌∙◌, false, Option, none, some, List, [],
  ◌∷◌, arith, if◌then◌else◌, length, str_eq, eq_iff, contains,
}
use hyverk_distributed_llm.Common.HashMap
use hyverk_distributed_llm.Common.HashMap.{HashMap, values, get-insert}
use hyverk_distributed_llm.Rag.Index.{Bm25Index, sum, or_default, count_terms, postings}
use hyverk_distributed_llm.Rag.Index.Postings.{
  Call, after, documents, with_term, map_entries, get-map_entries, Indexes, after-Indexes,
}

-- How often the term stands in the text.
unfoldable pub occurrences : String → List String → ℕ
occurrences t [] = 0
occurrences t (u ∷ ts) = if str_eq u t then suc (occurrences t ts) else occurrences t ts

-- The terms of all documents together.
unfoldable pub total_terms : HashMap (List String) → ℕ
total_terms [] = 0
total_terms ((d, ts) ∷ docs) = length ts + total_terms docs

-- The counts of a text: each of its terms with its number of occurrences, and no other term.
abbrev pub Counts : Option (HashMap ℕ) → Option (List String) → Type 0
Counts found none = found ≡ none
Counts found (some ts) =
    (freq : HashMap ℕ) × (found ≡ some freq)
    × ((t : String)
        → HashMap.get t freq ≡ (if contains ts t then some (occurrences t ts % 2 ^ 32) else none))

-- What the index keeps of the documents, for each document and each term.
pub record IsIndex (s : Bm25Index) (docs : HashMap (List String)) : Type 0 where
  pub frequencies : (d : String) → Counts (HashMap.get d s.doc_term_freq) (HashMap.get d docs)
  pub lengths :
      (d : String)
      → HashMap.get d s.doc_lengths
        ≡ elim (HashMap.get d docs) [ none ↦ none | some ts ↦ some (length ts) ]
  pub lists : (t : String) → postings t s.inverted ≡ with_term t docs
  pub counted : s.num_docs ≡ length docs
  pub average : 0 < length docs → s.avg_doc_len ≡ (total_terms docs, length docs)

occurrences-absent : (t : String) (ts : List String) → contains ts t ≡ false → occurrences t ts ≡ 0
unfolding occurrences contains
occurrences-absent t [] h = refl
occurrences-absent t (u ∷ ts) h = ground (arith, occurrences-absent t ts)

more : (v n : ℕ) → ((v + 1) % 2 ^ 32 + n) % 2 ^ 32 ≡ (v + suc n) % 2 ^ 32
more v n = omega arith

once : (v : ℕ) → (v + 1) % 2 ^ 32 ≡ (v + suc zero) % 2 ^ 32
once v = refl

get-count_terms :
    (t : String) (m : HashMap ℕ) (ts : List String)
    → HashMap.get t (count_terms m ts) ≡ (
        if contains ts t
        then some ((or_default 0 (HashMap.get t m) + occurrences t ts) % 2 ^ 32)
        else HashMap.get t m)
unfolding count_terms contains occurrences
get-count_terms t m [] = refl
get-count_terms t m (u ∷ ts) =
    let n = (or_default 0 (HashMap.get u m) + 1) % 2 ^ 32 in
    ground (
      arith,
      eq_iff u t,
      get-count_terms t (HashMap.insert u n m) ts,
      get-insert u t n m,
      occurrences-absent t ts,
      more (or_default 0 (HashMap.get u m)) (occurrences t ts),
    )

sum-lengths :
    (docs : HashMap (List String)) → sum (values (map_entries length docs)) ≡ total_terms docs
unfolding sum map_entries values total_terms
sum-lengths [] = refl
sum-lengths ((d, ts) ∷ docs) = ap (◌+◌ (length ts)) (sum-lengths docs)

Counts-found :
    (found : Option (HashMap ℕ)) (text : Option (List String))
    → found ≡ elim text [ none ↦ none | some ts ↦ some (count_terms [] ts) ]
    → Counts found text
unfolding HashMap.get
Counts-found found none e = e
Counts-found found (some ts) e = (
  count_terms [] ts,
  e,
  λ t.
      get-count_terms t [] ts
      ∙ ap (λ n. if contains ts t then some (n % 2 ^ 32) else none) {x = 0 + occurrences t ts}
          (omega arith),
)

Indexes-IsIndex : (s : Bm25Index) (docs : HashMap (List String)) → Indexes s docs → IsIndex s docs
Indexes-IsIndex s docs i = record {
  frequencies = λ d.
      Counts-found (HashMap.get d s.doc_term_freq) (HashMap.get d docs)
        (ap (HashMap.get d) i.frequencies ∙ get-map_entries (count_terms []) d docs);
  lengths = λ d. ap (HashMap.get d) i.lengths ∙ get-map_entries length d docs;
  lists = i.lists;
  counted = i.counted;
  average = λ h.
      i.average (omega (arith, i.counted))
      ∙ ap (λ ls. (sum (values ls), s.num_docs)) i.lengths
      ∙ ap (λ n. (n, s.num_docs)) (sum-lengths docs)
      ∙ ap (λ n. (total_terms docs, n)) i.counted;
}

-- After any calls of `add_document` and `remove_document`, the index keeps of each document that was
-- added and not removed since, and of no other: for each term of its latest text the number of its
-- occurrences (modulo 2 ^ 32) and nothing for other terms, and that text's number of terms; for each
-- term, the ids of just the documents with that term, each once; the number of the documents, and, if
-- there are any, their average length as the number of all their terms over the number of documents.
pub after-IsIndex : (cs : List Call) → IsIndex (after cs) (documents cs)
after-IsIndex cs = Indexes-IsIndex (after cs) (documents cs) (after-Indexes cs)
