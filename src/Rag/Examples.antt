-- ===== src/Rag/Examples.antt =====
-- server/rag: the theorems at concrete inputs, and runs of the code.
use hyverk_distributed_llm.Common.{
  ℕ, arith, refl, eq_iff, ◌+◌, ◌≤◌, ◌<◌, String, true, ◌≡◌, List, [], ◌∷◌, length, leb, ◌&&◌, map,
  All, contains, distinct, any,
}
use hyverk_distributed_llm.Rag.Index.{search, tokenize}
use hyverk_distributed_llm.Rag.Index.Postings.{Call, adds, removes, after, documents}
use hyverk_distributed_llm.Rag.Index.Counts.{IsIndex, after-IsIndex}
use hyverk_distributed_llm.Rag.Store
use hyverk_distributed_llm.Common.Text.{Text}
use hyverk_distributed_llm.Rag.Store.{Chunk, crate_docs, chunk_text, open_store}
use hyverk_distributed_llm.Rag.Store.Reopened.{StoreCall, upserts, removes_source, stored}
use hyverk_distributed_llm.Rag.Store.Restart.{result_of, search-open_store}
use hyverk_distributed_llm.Common.HashMap
use hyverk_distributed_llm.Common.HashMap.{HashMap, IsMap}
use hyverk_distributed_llm.Rag.Store.Results.{IsFound, search-IsFound}
use hyverk_distributed_llm.Rag.Index.Hits.{has_any, ids, IsOrder, search-has_any}

-- A document that is indexed again, and one that is removed.
abbrev calls : List Call
calls =
    adds "doc1" ("async" ∷ "fn" ∷ "run" ∷ "fn" ∷ [])
    ∷ removes "doc2"
    ∷ adds "doc3" ("fn" ∷ "user" ∷ [])
    ∷ adds "doc2" ("pool" ∷ [])
    ∷ adds "doc1" ("mutex" ∷ [])
    ∷ []

after-IsIndex_example : IsIndex (after calls) (documents calls)
after-IsIndex_example = after-IsIndex calls

-- Two orders in which entries may come out of a map.
as_inserted-IsOrder : IsOrder {F = ℕ} (λ m. m)
as_inserted-IsOrder = record { same = λ m h d. refl; once = λ m h. h; as_long = λ m. refl }

unfoldable swapped : HashMap ℕ → HashMap ℕ
swapped [] = []
swapped (x ∷ []) = x ∷ []
swapped (x ∷ y ∷ m) = y ∷ x ∷ m

swapped-get : (m : HashMap ℕ) → IsMap m → (d : String) → HashMap.get d (swapped m) ≡ HashMap.get d m
unfolding swapped HashMap.get distinct contains
swapped-get [] h d = refl
swapped-get (x ∷ []) h d = refl
swapped-get ((j, v) ∷ (k, w) ∷ m) h d = ground (arith, eq_iff j d, eq_iff k d, eq_iff k j)

swapped-IsMap : (m : HashMap ℕ) → IsMap m → IsMap (swapped m)
unfolding swapped distinct contains
swapped-IsMap [] h = h
swapped-IsMap (x ∷ []) h = h
swapped-IsMap ((j, v) ∷ (k, w) ∷ m) h = ground (arith, eq_iff j k, eq_iff k j)

swapped-length : (m : HashMap ℕ) → length (swapped m) ≡ length m
unfolding swapped
swapped-length [] = refl
swapped-length (x ∷ []) = refl
swapped-length (x ∷ y ∷ m) = refl

swapped-IsOrder : IsOrder swapped
swapped-IsOrder = record { same = swapped-get; once = swapped-IsMap; as_long = swapped-length }

-- The score is the number of occurrences, and the ranking by it.
search-has_any_example :
    let found = ids (
      search 0
        (λ x y. x + y)
        (λ n df tf dl avg. tf)
        (λ x y. leb y x)
        (λ m. m)
        (after calls)
        ("fn" ∷ [])
        5) in
    (length found ≤ 5)
    × (distinct found ≡ true)
    × (contains found "doc1" ≡ true → has_any ("fn" ∷ []) "doc1" (documents calls) ≡ true)
    × (length found < 5 → contains found "doc1" ≡ has_any ("fn" ∷ []) "doc1" (documents calls))
search-has_any_example =
    search-has_any 0 (λ x y. x + y) (λ n df tf dl avg. tf) (λ x y. leb y x) (λ m. m) calls
      ("fn" ∷ []) 5 "doc1" as_inserted-IsOrder

abbrev lower_words : Text → List String
lower_words = tokenize (λ c. leb 97 c && leb c 122) (λ c. c) (λ t. t)

abbrev chunk : String → String → Text → Chunk
chunk id source_id content = record {
  id = id;
  source_id = source_id;
  source_type = crate_docs;
  source_ref = "docs";
  title = 97 ∷ 98 ∷ [];
  content = content;
  indexed_at = 1;
}

-- Chunks of two sources; the first is stored again, and the second source is removed.
abbrev store_calls : List StoreCall
store_calls =
    removes_source "s2"
    ∷ upserts (chunk "c1" "s1" (102 ∷ 110 ∷ []))
    ∷ upserts (chunk "c2" "s2" (102 ∷ 110 ∷ []))
    ∷ upserts (chunk "c1" "s1" (120 ∷ 121 ∷ []))
    ∷ []

abbrev query : Text
query = 102 ∷ 110 ∷ []

search-open_store_example :
    let s = stored lower_words store_calls in
    let results =
      Store.search lower_words 0
        (λ x y. x + y)
        (λ n df tf dl avg. tf)
        (λ x y. leb y x)
        (λ m. m)
        s
        query
        5 in
    let results' =
      Store.search lower_words 0
        (λ x y. x + y)
        (λ n df tf dl avg. tf)
        (λ x y. leb y x)
        swapped
        (open_store lower_words s.chunks s.sources)
        query
        5 in
    (length results ≡ length results')
    × (length results < 5 → result_of "c1" results ≡ result_of "c1" results')
search-open_store_example =
    search-open_store lower_words 0 (λ x y. x + y) (λ n df tf dl avg. tf) (λ x y. leb y x) (λ m. m)
      swapped store_calls query 5 "c1" as_inserted-IsOrder swapped-IsOrder

search-IsFound_example :
    All
      (IsFound
        (stored lower_words store_calls).chunks
        (λ c. any (contains (lower_words (chunk_text c))) (lower_words query)))
      (Store.search lower_words 0
        (λ x y. x + y)
        (λ n df tf dl avg. tf)
        (λ x y. leb y x)
        (λ m. m)
        (stored lower_words store_calls)
        query
        5)
    × (map
          (λ r. r.chunk.id)
          (Store.search lower_words 0
            (λ x y. x + y)
            (λ n df tf dl avg. tf)
            (λ x y. leb y x)
            (λ m. m)
            (stored lower_words store_calls)
            query
            5)
        ≡ ids (
            search 0
              (λ x y. x + y)
              (λ n df tf dl avg. tf)
              (λ x y. leb y x)
              (λ m. m)
              (stored lower_words store_calls).index
              (lower_words query)
              5))
search-IsFound_example =
    search-IsFound lower_words 0 (λ x y. x + y) (λ n df tf dl avg. tf) (λ x y. leb y x) (λ m. m)
      store_calls query 5 as_inserted-IsOrder
