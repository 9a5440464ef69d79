-- ===== src/Rag/Store/Restart.antt =====
-- server/rag/src/store.rs, `open` and `search`: the same queries before and after a restart.
use hyverk_distributed_llm.Common.{
  ℕ, suc, ◌<◌, String, ◌≡◌, refl, ap, sym, ◌∙◌, Bool, none, some, Option, Option-cases, inl, inr,
  List, [], ◌∷◌, map, arith, length, str_eq, eq_iff, find,
}
use hyverk_distributed_llm.Common.HashMap
use hyverk_distributed_llm.Common.HashMap.{HashMap}
use hyverk_distributed_llm.Common.Text.{Text}
use hyverk_distributed_llm.Rag.Index
use hyverk_distributed_llm.Rag.Index.Postings.{map_entries}
use hyverk_distributed_llm.Rag.Index.Hits.{ids, IsOrder}
use hyverk_distributed_llm.Rag.Index.Orders.{search-orders}
use hyverk_distributed_llm.Rag.Store.{
  Chunk, SearchResult, load_chunk_by_id, load_results, rebuild_index, open_store, search,
}
use hyverk_distributed_llm.Rag.Store.Reopened.{
  StoreCall, row_terms, IsIndexed, stored, stored-IsIndexed, open_store-IsIndexed, chunks-IsMap,
}
use hyverk_distributed_llm.Rag.Store.Results.{IsKeyed, get-IsKeyed, stored-IsKeyed, search-rows}

-- The result for the chunk with the id.
abbrev pub result_of : {F : Type 0} → String → List (SearchResult F) → Option (SearchResult F)
result_of i = find (λ r. str_eq r.chunk.id i)

with_score : {F : Type 0} → Option Chunk → Option F → Option (SearchResult F)
with_score none score = none
with_score (some c) none = none
with_score (some c) (some score) = some (record { chunk = c; score = score })

result_of-load_results :
    {F : Type 0} (i : String) (rows : HashMap Chunk) (hits : List (String × F))
    → IsKeyed rows
    → result_of i (load_results rows hits) ≡ with_score (HashMap.get i rows) (HashMap.get i hits)
unfolding find load_results load_chunk_by_id with_score HashMap.get
result_of-load_results i rows [] keyed = elim (Option-cases (HashMap.get i rows)) [
  | inl e ↦ rw (e, with_score) refl
  | inr (c, e) ↦ rw (e, with_score) refl
]
result_of-load_results i rows ((k, score) ∷ hits) keyed = elim (Option-cases (HashMap.get k rows)) [
  | inl e ↦ ground (arith, e, eq_iff k i, result_of-load_results i rows hits keyed)
  | inr (c, e) ↦
      ground (
        arith,
        e,
        eq_iff k i,
        get-IsKeyed k c rows keyed e,
        result_of-load_results i rows hits keyed,
      )
]

length-chunk_ids :
    {F : Type 0} (rs : List (SearchResult F)) (hits : List (String × F))
    → map (λ r. r.chunk.id) rs ≡ ids hits
    → length rs ≡ length hits
length-chunk_ids [] [] e = refl
length-chunk_ids [] (x ∷ hits) e = absurd (ground arith)
length-chunk_ids (r ∷ rs) [] e = absurd (ground arith)
length-chunk_ids (r ∷ rs) (x ∷ hits) e = ap suc (length-chunk_ids rs hits (cc e))

module _ (terms_of : Text → List String) {F : Type 0} (zero_score : F) (add : F → F → F)
    (weight : ℕ → ℕ → ℕ → ℕ → ℕ × ℕ → F) (before : F → F → Bool)
    (order order' : HashMap F → HashMap F) where
  -- After any calls of `upsert_chunk`, `remove_source` and `upsert_source` and a restart, the store that is
  -- opened on the tables, with its index built anew from the rows, gives as many results for a query
  -- as the store before; if they are fewer than `k`, so that none is cut off, it gives the same chunks
  -- with the same scores. The scores come out of their map in any order, another for each search.
  pub search-open_store :
      (cs : List StoreCall) (query : Text) (k : ℕ) (i : String)
      → IsOrder order
      → IsOrder order'
      → let s = stored terms_of cs in
        let results = search terms_of zero_score add weight before order s query k in
        let results' =
          search terms_of zero_score add weight before order'
            (open_store terms_of s.chunks s.sources)
            query
            k in
        (length results ≡ length results')
        × (length results < k → result_of i results ≡ result_of i results')
  unfolding search open_store rebuild_index IsIndexed
  search-open_store cs query k i o o' =
      let s = stored terms_of cs in
      let s' = open_store terms_of s.chunks s.sources in
      let keyed = stored-IsKeyed terms_of cs in
      let indexed = stored-IsIndexed terms_of cs in
      let indexed' =
        open_store-IsIndexed terms_of s.chunks s.sources (chunks-IsMap terms_of s indexed) in
      let terms = terms_of query in
      let hits = Index.search zero_score add weight before order s.index terms k in
      let hits' = Index.search zero_score add weight before order' s'.index terms k in
      let (as_many, same) =
        search-orders zero_score add weight before order order' o o' s.index s'.index
          (map_entries (row_terms terms_of) s.chunks) terms k i indexed indexed' in
      let all_hits =
        length-chunk_ids _ hits
          (search-rows terms_of zero_score add weight before order s query k o indexed keyed).1 in
      let all_hits' =
        length-chunk_ids _ hits'
          (search-rows terms_of zero_score add weight before order' s' query k o' indexed'
            keyed).1 in
      (
        all_hits ∙ as_many ∙ sym all_hits',
        λ h.
            result_of-load_results i s.chunks hits keyed
            ∙ ap (with_score (HashMap.get i s.chunks)) (same (omega (arith, all_hits)))
            ∙ sym (result_of-load_results i s.chunks hits' keyed),
      )
