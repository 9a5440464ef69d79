-- ===== src/Rag/Store/Reopened.antt =====
-- server/rag/src/store.rs: the index against the table of the chunks.
use hyverk_distributed_llm.Common.{
  String, ◌≡◌, refl, ap, sym, subst, ◌∙◌, true, false, not, none, List, [], ◌∷◌, ◌++◌, append-nil,
  append_assoc, arith, str_eq, eq_iff, eq_refl, contains, distinct, filter,
}
use hyverk_distributed_llm.Common.HashMap
use hyverk_distributed_llm.Common.HashMap.{
  HashMap, IsMap, keys, retain, remove-none, without, without-absent,
}
use hyverk_distributed_llm.Common.Text.{Text}
use hyverk_distributed_llm.Rag.Index
use hyverk_distributed_llm.Rag.Index.{Bm25Index, add_document}
use hyverk_distributed_llm.Rag.Index.Postings.{
  Indexes, new-Indexes, map_entries, map_entries-remove, map_entries-append,
  remove_document-Indexes, add_document-Indexes,
}
use hyverk_distributed_llm.Rag.Store.{
  Chunk, IndexedSource, RagStore, replace_row, chunk_text, has_source, source_chunks,
  remove_documents, remove_source, upsert_source, upsert_chunk, index_rows, rebuild_index,
  open_store,
}

-- The calls that change the store.
pub data StoreCall : Type 0 where
  upserts : Chunk → StoreCall
  removes_source : (source_id : String) → StoreCall
  upserts_source : IndexedSource → StoreCall

module _ {ℓ} {A : Type ℓ} where
  keys-map_entries {κ} : {B : Type κ} (f : A → B) (m : HashMap A) → keys (map_entries f m) ≡ keys m
  unfolding map_entries
  keys-map_entries f [] = refl
  keys-map_entries f ((k, v) ∷ m) = ap (◌∷◌ k) (keys-map_entries f m)

  without-map_entries {κ} :
      {B : Type κ} (f : A → B) (ks : List String) (m : HashMap A)
      → without ks (map_entries f m) ≡ map_entries f (without ks m)
  without-map_entries f [] m = refl
  without-map_entries f (k ∷ ks) m =
      ap (without ks) (map_entries-remove f k m) ∙ without-map_entries f ks (HashMap.remove k m)

  contains-middle :
      (j k : String) (v : A) (m n : HashMap A)
      → contains (keys (m ++ (k, v) ∷ n)) j ≡ false
      → str_eq k j ≡ false
  unfolding contains
  contains-middle j k v [] n h = ground arith
  contains-middle j k v ((i, w) ∷ m) n h = ground (arith, contains-middle j k v m n)

  middle-absent :
      (k : String) (v : A) (m n : HashMap A) → IsMap (m ++ (k, v) ∷ n) → HashMap.get k m ≡ none
  unfolding HashMap.get distinct
  middle-absent k v [] n h = refl
  middle-absent k v ((j, w) ∷ m) n h =
      ground (arith, middle-absent k v m n, contains-middle j k v m n, eq_iff j k, eq_iff k j)

remove_documents-Indexes :
    (s : Bm25Index) (ks : List String) (docs : HashMap (List String))
    → Indexes s docs
    → Indexes (remove_documents s ks) (without ks docs)
unfolding remove_documents
remove_documents-Indexes s [] docs i = i
remove_documents-Indexes s (k ∷ ks) docs i =
    remove_documents-Indexes (Index.remove_document s k) ks (HashMap.remove k docs)
      (remove_document-Indexes s k docs i)

source_chunks-absent :
    (source_id k : String) (rows : HashMap Chunk)
    → contains (keys rows) k ≡ false
    → contains (source_chunks source_id rows) k ≡ false
unfolding source_chunks filter contains
source_chunks-absent i k [] h = refl
source_chunks-absent i k ((j, c) ∷ rows) h = ground (arith, source_chunks-absent i k rows)

without-source_chunks :
    (source_id : String) (rows : HashMap Chunk)
    → IsMap rows
    → without (source_chunks source_id rows) rows ≡ retain (λ c. not (has_source source_id c)) rows
unfolding source_chunks filter retain distinct HashMap.remove
without-source_chunks i [] h = refl
without-source_chunks i ((k, c) ∷ rows) h = ground (
  arith,
  eq_refl k,
  without-source_chunks i rows,
  without-absent k c (source_chunks i rows) rows,
  source_chunks-absent i k rows,
)

module _ (terms_of : Text → List String) where
  unfoldable pub row_terms : Chunk → List String
  row_terms c = terms_of (chunk_text c)

  -- The index holds the rows of the table.
  unfoldable pub IsIndexed : RagStore → Type 0
  IsIndexed s = Indexes s.index (map_entries row_terms s.chunks)

  index_rows-Indexes :
      (idx : Bm25Index) (docs : HashMap (List String)) (rows : HashMap Chunk)
      → Indexes idx docs
      → IsMap (docs ++ map_entries row_terms rows)
      → Indexes (index_rows terms_of idx rows) (docs ++ map_entries row_terms rows)
  unfolding index_rows map_entries row_terms
  index_rows-Indexes idx docs [] i h = subst (Indexes idx) (sym (append-nil docs)) i
  index_rows-Indexes idx docs ((k, c) ∷ rows) i h =
      let ts = terms_of (chunk_text c) in
      let rest = map_entries row_terms rows in
      let new_docs = docs ++ (k, ts) ∷ [] in
      let gone = remove-none k docs (middle-absent k ts docs rest h) in
      let one_more : Indexes (add_document idx k ts) new_docs =
        subst (λ m. Indexes (add_document idx k ts) (m ++ (k, ts) ∷ [])) gone
          (add_document-Indexes idx k docs i ts) in
      let joined = append_assoc docs ((k, ts) ∷ []) rest in
      subst (Indexes (index_rows terms_of (add_document idx k ts) rows)) joined (
        index_rows-Indexes (add_document idx k ts) new_docs rows one_more
          (subst IsMap (sym joined) h))

  upsert_chunk-IsIndexed :
      (s : RagStore) (c : Chunk) → IsIndexed s → IsIndexed (upsert_chunk terms_of s c)
  unfolding IsIndexed upsert_chunk replace_row row_terms
  upsert_chunk-IsIndexed s c i =
      subst (Indexes (add_document s.index c.id (terms_of (chunk_text c))))
        (ap (λ m. m ++ (c.id, row_terms c) ∷ []) (map_entries-remove row_terms c.id s.chunks)
          ∙ sym (map_entries-append row_terms c.id c (HashMap.remove c.id s.chunks)))
        (add_document-Indexes s.index c.id (map_entries row_terms s.chunks) i (row_terms c))

  pub chunks-IsMap : (s : RagStore) → IsIndexed s → IsMap s.chunks
  unfolding IsIndexed
  chunks-IsMap s i = subst (λ ks. distinct ks ≡ true) (keys-map_entries row_terms s.chunks) i.is_map

  remove_source-IsIndexed :
      (s : RagStore) (source_id : String) → IsIndexed s → IsIndexed (remove_source s source_id)
  unfolding IsIndexed remove_source
  remove_source-IsIndexed s source_id i =
      let ks = source_chunks source_id s.chunks in
      subst (Indexes (remove_documents s.index ks))
        (without-map_entries row_terms ks s.chunks
          ∙ ap (map_entries row_terms)
              (without-source_chunks source_id s.chunks (chunks-IsMap s i)))
        (remove_documents-Indexes s.index ks (map_entries row_terms s.chunks) i)

  -- The store after the calls, the latest first, from an empty file on.
  unfoldable pub stored : List StoreCall → RagStore
  stored [] = open_store terms_of [] []
  stored (upserts c ∷ cs) = upsert_chunk terms_of (stored cs) c
  stored (removes_source i ∷ cs) = remove_source (stored cs) i
  stored (upserts_source x ∷ cs) = upsert_source (stored cs) x

  pub open_store-IsIndexed :
      (chunks : HashMap Chunk) (sources : HashMap IndexedSource)
      → IsMap chunks
      → IsIndexed (open_store terms_of chunks sources)
  unfolding IsIndexed open_store rebuild_index
  open_store-IsIndexed chunks sources h =
      index_rows-Indexes Index.new [] chunks new-Indexes
        (subst (λ ks. distinct ks ≡ true) (sym (keys-map_entries row_terms chunks)) h)

  pub stored-IsIndexed : (cs : List StoreCall) → IsIndexed (stored cs)
  unfolding stored distinct upsert_source IsIndexed
  stored-IsIndexed [] = open_store-IsIndexed [] [] refl
  stored-IsIndexed (upserts c ∷ cs) = upsert_chunk-IsIndexed (stored cs) c (stored-IsIndexed cs)
  stored-IsIndexed (removes_source i ∷ cs) =
      remove_source-IsIndexed (stored cs) i (stored-IsIndexed cs)
  stored-IsIndexed (upserts_source x ∷ cs) = stored-IsIndexed cs
