-- ===== src/Rag/Store/Results.antt =====
-- server/rag/src/store.rs, `search`: the chunks of the hits.
use hyverk_distributed_llm.Common.{
  ℕ, String, ◌≡◌, refl, ap, ◌∙◌, inl, inr, Option-cases, if_both, Bool, true, not, some, List, [],
  ◌∷◌, ◌++◌, map, arith, str_eq, eq_iff, eq_refl, contains, any, All,
}
use hyverk_distributed_llm.Common.HashMap
use hyverk_distributed_llm.Common.HashMap.{HashMap, retain}
use hyverk_distributed_llm.Common.Text.{Text}
use hyverk_distributed_llm.Rag.Index
use hyverk_distributed_llm.Rag.Index.Postings.{map_entries, get-map_entries}
use hyverk_distributed_llm.Rag.Index.Hits.{ids, search-Indexes, IsOrder}
use hyverk_distributed_llm.Rag.Store.{
  Chunk, RagStore, SearchResult, replace_row, chunk_text, has_source, remove_source, upsert_source,
  load_chunk_by_id, load_results, upsert_chunk, rebuild_index, open_store, search,
}
use hyverk_distributed_llm.Rag.Store.Reopened.{
  StoreCall, upserts, removes_source, upserts_source, row_terms, IsIndexed, stored,
  stored-IsIndexed,
}

-- Each row is stored under its chunk's id.
abbrev pub IsKeyed : HashMap Chunk → Type 0
IsKeyed = All (λ e. e.1.id ≡ e.0)

IsKeyed-remove :
    (k : String) (rows : HashMap Chunk) → IsKeyed rows → IsKeyed (HashMap.remove k rows)
unfolding HashMap.remove
IsKeyed-remove k [] h = tt
IsKeyed-remove k ((j, c) ∷ rows) h =
    if_both IsKeyed (str_eq j k) rows ((j, c) ∷ HashMap.remove k rows) h.1
      (h.0, IsKeyed-remove k rows h.1)

IsKeyed-append :
    (c : Chunk) (rows : HashMap Chunk) → IsKeyed rows → IsKeyed (rows ++ (c.id, c) ∷ [])
IsKeyed-append c [] h = (refl, tt)
IsKeyed-append c (e ∷ rows) h = (h.0, IsKeyed-append c rows h.1)

IsKeyed-retain :
    (keep : Chunk → Bool) (rows : HashMap Chunk) → IsKeyed rows → IsKeyed (retain keep rows)
unfolding retain
IsKeyed-retain keep [] h = tt
IsKeyed-retain keep ((j, c) ∷ rows) h =
    let rest = IsKeyed-retain keep rows h.1 in
    if_both IsKeyed (keep c) ((j, c) ∷ retain keep rows) (retain keep rows) (h.0, rest) rest

pub get-IsKeyed :
    (k : String) (c : Chunk) (rows : HashMap Chunk)
    → IsKeyed rows
    → HashMap.get k rows ≡ some c
    → c.id ≡ k
unfolding HashMap.get
get-IsKeyed k c [] h e = absurd (ground arith)
get-IsKeyed k c ((j, b) ∷ rows) h e = ground (arith, h.0, eq_iff j k, get-IsKeyed k c rows h.1)

-- A result is the row of its chunk, with a term of the query.
abbrev pub IsFound : {F : Type 0} → HashMap Chunk → (Chunk → Bool) → SearchResult F → Type 0
IsFound rows fits r = (HashMap.get r.chunk.id rows ≡ some r.chunk) × (fits r.chunk ≡ true)

module _ {F : Type 0} (rows : HashMap Chunk) (fits : Chunk → Bool) (keyed : IsKeyed rows) where
  load_results-hit :
      (k : String) (c : Chunk) (score : F) (hits : List (String × F))
      → HashMap.get k rows ≡ some c
      → load_results rows ((k, score) ∷ hits)
        ≡ record { chunk = c; score = score } ∷ load_results rows hits
  unfolding load_results load_chunk_by_id
  load_results-hit k c score hits e = rw (e, load_results, load_chunk_by_id) refl

  load_results-IsFound :
      (hits : List (String × F))
      → ((d : String)
          → contains (ids hits) d ≡ true
          → (c : Chunk) × (HashMap.get d rows ≡ some c) × (fits c ≡ true))
      → All (IsFound rows fits) (load_results rows hits)
        × (map (λ r. r.chunk.id) (load_results rows hits) ≡ ids hits)
  unfolding load_results contains
  load_results-IsFound [] h = (tt, refl)
  load_results-IsFound ((k, score) ∷ hits) h =
      let (c, e, q) = h k (ground (arith, eq_refl k)) in
      let (all_found, same) = load_results-IsFound hits (λ d n. h d (ground arith)) in
      let own = get-IsKeyed k c rows keyed e in
      rw (load_results-hit k c score hits e) (
        ((ap (λ i. HashMap.get i rows) own ∙ e, q), all_found),
        ap (◌∷◌ c.id) same ∙ ap (λ i. i ∷ ids hits) own,
      )

module _ (terms_of : Text → List String) where
  pub stored-IsKeyed : (cs : List StoreCall) → IsKeyed (stored terms_of cs).chunks
  unfolding stored open_store rebuild_index upsert_chunk remove_source upsert_source replace_row
  stored-IsKeyed [] = tt
  stored-IsKeyed (upserts c ∷ cs) =
      let rows = (stored terms_of cs).chunks in
      IsKeyed-append c (HashMap.remove c.id rows) (IsKeyed-remove c.id rows (stored-IsKeyed cs))
  stored-IsKeyed (removes_source i ∷ cs) =
      IsKeyed-retain (λ c. not (has_source i c)) (stored terms_of cs).chunks (stored-IsKeyed cs)
  stored-IsKeyed (upserts_source x ∷ cs) = stored-IsKeyed cs

  module _ {F : Type 0} (zero_score : F) (add : F → F → F) (weight : ℕ → ℕ → ℕ → ℕ → ℕ × ℕ → F)
      (before : F → F → Bool) (order : HashMap F → HashMap F) where
    -- A search of a store whose index holds the rows of its table.
    pub search-rows :
        (s : RagStore) (query : Text) (k : ℕ)
        → IsOrder order
        → IsIndexed terms_of s
        → IsKeyed s.chunks
        → let results = search terms_of zero_score add weight before order s query k in
          All
            (IsFound s.chunks (λ c. any (contains (terms_of (chunk_text c))) (terms_of query)))
            results
          × (map (λ r. r.chunk.id) results
              ≡ ids (Index.search zero_score add weight before order s.index (terms_of query) k))
    unfolding search row_terms IsIndexed
    search-rows s query k o indexed keyed =
        let docs = map_entries (row_terms terms_of) s.chunks in
        let query_terms = terms_of query in
        let hits = Index.search zero_score add weight before order s.index query_terms k in
        let fits : Chunk → Bool = λ c. any (contains (row_terms terms_of c)) query_terms in
        load_results-IsFound s.chunks fits keyed hits (λ d n.
          let (few, once, sound, complete) =
            search-Indexes zero_score add weight before order s.index docs query_terms k d o
              indexed in
          let has = sound n in
          elim (Option-cases (HashMap.get d s.chunks)) [
            | inl e ↦
                absurd (ground (arith, has, e, get-map_entries (row_terms terms_of) d s.chunks))
            | inr (c, e) ↦
                (c, e, ground (arith, has, e, get-map_entries (row_terms terms_of) d s.chunks))
          ])

    -- After any calls of `upsert_chunk`, `remove_source` and `upsert_source`, a search gives the chunks of
    -- all hits of the index, in their order: each is a row of the table as it is stored now, and its
    -- text has a term of the query. The scores come out of their map in any order.
    pub search-IsFound :
        (cs : List StoreCall) (query : Text) (k : ℕ)
        → IsOrder order
        → let s = stored terms_of cs in
          let results = search terms_of zero_score add weight before order s query k in
          All
            (IsFound s.chunks (λ c. any (contains (terms_of (chunk_text c))) (terms_of query)))
            results
          × (map (λ r. r.chunk.id) results
              ≡ ids (Index.search zero_score add weight before order s.index (terms_of query) k))
    search-IsFound cs query k o =
        search-rows (stored terms_of cs) query k o (stored-IsIndexed terms_of cs)
          (stored-IsKeyed cs)
