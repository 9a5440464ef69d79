-- ===== src/Rag/Index/Same.antt =====
-- server/rag/src/index.rs: indexes of the same documents give the same scores.
use hyverk_distributed_llm.Common.{
  ℕ, ◌<◌, String, ◌≡◌, refl, ap, sym, ◌∙◌, Bool, List, [], ◌∷◌, arith,
}
use hyverk_distributed_llm.Common.HashMap.{HashMap, values}
use hyverk_distributed_llm.Rag.Index.{Bm25Index, sum, term_weight, score_docs, score_terms}
use hyverk_distributed_llm.Rag.Index.Postings.{Indexes}

module _ (s t : Bm25Index) (docs : HashMap (List String)) (i : Indexes s docs)
    (j : Indexes t docs) where
  freqs_same : s.doc_term_freq ≡ t.doc_term_freq
  freqs_same = i.frequencies ∙ sym j.frequencies

  lengths_same : s.doc_lengths ≡ t.doc_lengths
  lengths_same = i.lengths ∙ sym j.lengths

  pub nums_same : s.num_docs ≡ t.num_docs
  nums_same = i.counted ∙ sym j.counted

  averages_same : 0 < s.num_docs → s.avg_doc_len ≡ t.avg_doc_len
  averages_same h =
      i.average h
      ∙ ap (λ l. (sum (values l), s.num_docs)) lengths_same
      ∙ ap (λ n. (sum (values t.doc_lengths), n)) nums_same
      ∙ sym (j.average (omega (arith, nums_same)))

  module _ {F : Type 0} (zero_score : F) (add : F → F → F) (weight : ℕ → ℕ → ℕ → ℕ → ℕ × ℕ → F)
      (before : F → F → Bool) (some_docs : 0 < s.num_docs) where
    term_weight-same :
        (term d : String) (df : ℕ)
        → term_weight zero_score add weight before s term df d
          ≡ term_weight zero_score add weight before t term df d
    unfolding term_weight
    term_weight-same term d df =
        rw (freqs_same, lengths_same, nums_same, averages_same some_docs) refl

    score_docs-same :
        (term : String) (df : ℕ) (ds : List String) (sc : HashMap F)
        → score_docs zero_score add weight before s term df ds sc
          ≡ score_docs zero_score add weight before t term df ds sc
    unfolding score_docs
    score_docs-same term df [] sc = refl
    score_docs-same term df (d ∷ ds) sc =
        rw (term_weight-same term d df) (score_docs-same term df ds _)

    pub score_terms-same :
        (ts : List String) (sc : HashMap F)
        → score_terms zero_score add weight before s ts sc
          ≡ score_terms zero_score add weight before t ts sc
    unfolding score_terms
    score_terms-same [] sc = refl
    score_terms-same (u ∷ ts) sc =
        let lists = i.lists u ∙ sym (j.lists u) in
        rw (lists, score_docs-same u) (score_terms-same ts _)
