-- ===== src/Rag/Store.antt =====
-- server/rag/src/store.rs: the chunks in SQLite with the index over them. A table is the list of its
-- rows in the order in which they were inserted; each statement is executed.
pub mod Reopened
pub mod Results
pub mod Restart
use hyverk_distributed_llm.Common.{
  ℕ, String, Bool, Option, none, some, List, [], ◌∷◌, ◌++◌, not, if◌then◌else◌, leb, str_eq, filter,
  map,
}
use hyverk_distributed_llm.Common.HashMap
use hyverk_distributed_llm.Common.HashMap.{HashMap, retain, values}
use hyverk_distributed_llm.Common.Text.{Text}
use hyverk_distributed_llm.Rag.Index
use hyverk_distributed_llm.Rag.Index.{Bm25Index, add_document, remove_document, doc_count}

pub data SourceType : Type 0 where
  crate_docs local_dir url git_repo : SourceType

pub record Chunk : Type 0 where
  pub id : String
  pub source_id : String
  pub source_type : SourceType
  pub source_ref : String
  pub title : Text
  pub content : Text
  pub indexed_at : ℕ

pub record IndexedSource : Type 0 where
  pub id : String
  pub source_type : SourceType
  pub source_ref : String
  pub chunk_count : ℕ
  pub indexed_at : ℕ
  pub last_updated : ℕ

pub record SearchResult (F : Type 0) : Type 0 where
  pub chunk : Chunk
  pub score : F

-- The tables `chunks` and `sources`, and the index.
pub record RagStore : Type 0 where
  pub chunks : HashMap Chunk
  pub sources : HashMap IndexedSource
  pub index : Bm25Index

-- `INSERT OR REPLACE`: the new row comes last.
pub replace_row {ℓ} : {A : Type ℓ} → String → A → HashMap A → HashMap A
replace_row k v rows = HashMap.remove k rows ++ (k, v) ∷ []

-- `format!("{title} {content}")`
pub chunk_text : Chunk → Text
chunk_text c = c.title ++ (32 ∷ c.content)

pub has_source : String → Chunk → Bool
has_source source_id c = str_eq c.source_id source_id

pub source_chunks : String → HashMap Chunk → List String
source_chunks source_id rows = map (λ e. e.0) (filter (λ e. has_source source_id e.1) rows)

pub remove_documents : Bm25Index → List String → Bm25Index
remove_documents s [] = s
remove_documents s (i ∷ is) = remove_documents (remove_document s i) is

pub remove_source : RagStore → String → RagStore
remove_source s source_id = record {
  chunks = retain (λ c. not (has_source source_id c)) s.chunks;
  sources = HashMap.remove source_id s.sources;
  index = remove_documents s.index (source_chunks source_id s.chunks);
}

pub upsert_source : RagStore → IndexedSource → RagStore
upsert_source s src = record s { sources = replace_row src.id src s.sources }

-- `ORDER BY last_updated DESC`
insert_source : IndexedSource → List IndexedSource → List IndexedSource
insert_source x [] = x ∷ []
insert_source x (y ∷ ys) =
    if leb y.last_updated x.last_updated then x ∷ y ∷ ys else y ∷ insert_source x ys

sort_sources : List IndexedSource → List IndexedSource
sort_sources [] = []
sort_sources (x ∷ xs) = insert_source x (sort_sources xs)

list_sources : RagStore → List IndexedSource
list_sources s = sort_sources (values s.sources)

chunk_count : RagStore → ℕ
chunk_count s = doc_count s.index

pub load_chunk_by_id : HashMap Chunk → String → Option Chunk
load_chunk_by_id rows id = HashMap.get id rows

-- The loop of `search`.
pub load_results : {F : Type 0} → HashMap Chunk → List (String × F) → List (SearchResult F)
load_results rows [] = []
load_results rows ((id, score) ∷ hits) =
    let rest = load_results rows hits in
    elim (load_chunk_by_id rows id) [
      | none ↦ rest
      | some c ↦ record { chunk = c; score = score } ∷ rest
    ]

-- `terms_of` is `tokenize`.
module _ (terms_of : Text → List String) where
  pub upsert_chunk : RagStore → Chunk → RagStore
  upsert_chunk s c = record s {
    chunks = replace_row c.id c s.chunks;
    index = add_document s.index c.id (terms_of (chunk_text c));
  }

  -- The loop of `rebuild_index`.
  pub index_rows : Bm25Index → HashMap Chunk → Bm25Index
  index_rows idx [] = idx
  index_rows idx ((id, c) ∷ rows) = index_rows (add_document idx id (terms_of (chunk_text c))) rows

  pub rebuild_index : RagStore → RagStore
  rebuild_index s = record s { index = index_rows s.index s.chunks }

  -- `open`, on the tables of an existing file.
  pub open_store : HashMap Chunk → HashMap IndexedSource → RagStore
  open_store chunks sources =
      rebuild_index (record { chunks = chunks; sources = sources; index = Index.new })

  pub search :
      {F : Type 0}
      → F
      → (F → F → F)
      → (ℕ → ℕ → ℕ → ℕ → ℕ × ℕ → F)
      → (F → F → Bool)
      → (HashMap F → HashMap F)
      → RagStore
      → Text
      → ℕ
      → List (SearchResult F)
  search zero_score add weight before order s query top_k =
      load_results s.chunks
        (Index.search zero_score add weight before order s.index (terms_of query) top_k)
