-- ===== src/Rag/Index/Postings.antt =====
-- server/rag/src/index.rs: the index against the documents that were added and not removed.
use hyverk_distributed_llm.Common.{
  ℕ, ◌+◌, ◌%◌, ◌^◌, String, ◌≡◌, ◌<◌, refl, ap, sym, inl, inr, Option-cases, subst, ◌∙◌, true,
  false, not, ◌||◌, none, some, List, [], ◌∷◌, ◌++◌, append-nil, arith, if◌then◌else◌, length,
  length-append, str_eq, eq_iff, eq_refl, contains, distinct, filter, is_some,
}
use hyverk_distributed_llm.Common.HashMap
use hyverk_distributed_llm.Common.HashMap.{
  HashMap, IsMap, keys, values, get-insert, get-modify, insert-IsMap, contains-keys-insert,
  remove-IsMap, get-remove, remove-none,
}
use hyverk_distributed_llm.Rag.Index
use hyverk_distributed_llm.Rag.Index.{
  Bm25Index, sum, or_default, count_terms, add_postings, remove_postings, drop_terms, drop_length,
  remove_document, add_document, postings,
}

-- The calls that change the index.
pub data Call : Type 0 where
  adds : (doc_id : String) (terms : List String) → Call
  removes : (doc_id : String) → Call

pub call : Bm25Index → Call → Bm25Index
call s (adds d ts) = add_document s d ts
call s (removes d) = remove_document s d

-- The index after the calls, the latest first.
pub after : List Call → Bm25Index
after [] = Index.new
after (c ∷ cs) = call (after cs) c

-- The documents of those calls with their terms, each at the place of its latest text.
pub documents : List Call → HashMap (List String)
documents [] = []
documents (adds d ts ∷ cs) = HashMap.remove d (documents cs) ++ (d, ts) ∷ []
documents (removes d ∷ cs) = HashMap.remove d (documents cs)

-- The ids of the documents with a term.
unfoldable pub with_term : String → HashMap (List String) → List String
with_term t [] = []
with_term t ((d, ts) ∷ docs) = if contains ts t then d ∷ with_term t docs else with_term t docs

unfoldable pub map_entries {ℓ κ} : {A : Type ℓ} {B : Type κ} → (A → B) → HashMap A → HashMap B
map_entries f [] = []
map_entries f ((k, v) ∷ m) = (k, f v) ∷ map_entries f m

-- What the index keeps of a list of documents.
pub record Indexes (s : Bm25Index) (docs : HashMap (List String)) : Type 0 where
  pub frequencies : s.doc_term_freq ≡ map_entries (count_terms []) docs
  pub lengths : s.doc_lengths ≡ map_entries length docs
  pub lists : (t : String) → postings t s.inverted ≡ with_term t docs
  pub counted : s.num_docs ≡ length docs
  pub average : 0 < s.num_docs → s.avg_doc_len ≡ (sum (values s.doc_lengths), s.num_docs)
  pub is_map : IsMap docs

module _ {ℓ κ} {A : Type ℓ} {B : Type κ} (f : A → B) where
  pub map_entries-remove :
      (k : String) (m : HashMap A)
      → HashMap.remove k (map_entries f m) ≡ map_entries f (HashMap.remove k m)
  unfolding map_entries HashMap.remove
  map_entries-remove k [] = refl
  map_entries-remove k ((j, v) ∷ m) = ground (arith, map_entries-remove k m)

  pub get-map_entries :
      (k : String) (m : HashMap A)
      → HashMap.get k (map_entries f m)
        ≡ elim (HashMap.get k m) [ none ↦ none | some v ↦ some (f v) ]
  unfolding map_entries HashMap.get
  get-map_entries k [] = refl
  get-map_entries k ((j, v) ∷ m) = ground (arith, get-map_entries k m)

  pub map_entries-append :
      (k : String) (v : A) (m : HashMap A)
      → map_entries f (m ++ (k, v) ∷ []) ≡ map_entries f m ++ (k, f v) ∷ []
  unfolding map_entries
  map_entries-append k v [] = refl
  map_entries-append k v ((j, w) ∷ m) = ap (◌∷◌ (j, f w)) (map_entries-append k v m)

module _ {ℓ} {A : Type ℓ} where
  insert-new :
      (k : String) (v : A) (m : HashMap A)
      → HashMap.get k m ≡ none
      → HashMap.insert k v m ≡ m ++ (k, v) ∷ []
  unfolding HashMap.insert HashMap.get
  insert-new k v [] h = refl
  insert-new k v ((j, w) ∷ m) h = ground (arith, insert-new k v m)

  append-IsMap :
      (k : String) (v : A) (m : HashMap A)
      → HashMap.get k m ≡ none
      → IsMap m
      → IsMap (m ++ (k, v) ∷ [])
  append-IsMap k v m h i =
      subst (λ x. distinct (keys x) ≡ true) (insert-new k v m h) (insert-IsMap k v m i)

  length-remove :
      (k : String) (m : HashMap A)
      → length (HashMap.remove k m) + (if is_some (HashMap.get k m) then 1 else 0) ≡ length m
  unfolding HashMap.remove HashMap.get
  length-remove k [] = refl
  length-remove k ((j, w) ∷ m) = ground (arith, length-remove k m)

insert-map_entries {ℓ κ} :
    {A : Type ℓ} {B : Type κ} (f : A → B) (k : String) (v : A) (m : HashMap A)
    → HashMap.get k m ≡ none
    → HashMap.insert k (f v) (map_entries f m) ≡ map_entries f (m ++ (k, v) ∷ [])
insert-map_entries f k v m h =
    insert-new k (f v) (map_entries f m) (ground (arith, h, get-map_entries f k m))
    ∙ sym (map_entries-append f k v m)

-- The terms counted are those of the text.
contains-count_terms :
    (m : HashMap ℕ) (ts : List String) (t : String)
    → contains (keys (count_terms m ts)) t ≡ contains (keys m) t || contains ts t
unfolding count_terms contains
contains-count_terms m [] t = ground arith
contains-count_terms m (u ∷ ts) t =
    let n = (or_default 0 (HashMap.get u m) + 1) % 2 ^ 32 in
    ground (arith, contains-count_terms (HashMap.insert u n m) ts t, contains-keys-insert u t n m)

count_terms-IsMap : (m : HashMap ℕ) (ts : List String) → IsMap m → IsMap (count_terms m ts)
unfolding count_terms
count_terms-IsMap m [] h = h
count_terms-IsMap m (t ∷ ts) h =
    count_terms-IsMap (HashMap.insert t ((or_default 0 (HashMap.get t m) + 1) % 2 ^ 32) m) ts
      (insert-IsMap t ((or_default 0 (HashMap.get t m) + 1) % 2 ^ 32) m h)

postings-add :
    (d t : String) (ks : List String) (m : HashMap (List String))
    → distinct ks ≡ true
    → postings t (add_postings d ks m)
      ≡ (if contains ks t then postings t m ++ d ∷ [] else postings t m)
unfolding add_postings postings contains distinct
postings-add d t [] m h = refl
postings-add d t (k ∷ ks) m h =
    let m' = HashMap.insert k (or_default [] (HashMap.get k m) ++ d ∷ []) m in
    ground (
      arith,
      eq_iff k t,
      postings-add d t ks m',
      get-insert k t (or_default [] (HashMap.get k m) ++ d ∷ []) m,
    )

postings-remove :
    (d t : String) (ks : List String) (m : HashMap (List String))
    → distinct ks ≡ true
    → postings t (remove_postings d ks m)
      ≡ (if contains ks t then filter (λ e. not (str_eq e d)) (postings t m) else postings t m)
unfolding remove_postings postings contains distinct filter
postings-remove d t [] m h = refl
postings-remove d t (k ∷ ks) m h =
    let m' = HashMap.modify k (filter (λ e. not (str_eq e d))) m in
    ground (
      arith,
      eq_iff k t,
      postings-remove d t ks m',
      get-modify k t (filter (λ e. not (str_eq e d))) m,
    )

filter-absent :
    (d t : String) (docs : HashMap (List String))
    → contains (keys docs) d ≡ false
    → filter (λ e. not (str_eq e d)) (with_term t docs) ≡ with_term t docs
unfolding filter with_term contains
filter-absent d t [] h = refl
filter-absent d t ((e, ts) ∷ docs) h = ground (arith, filter-absent d t docs)

with_term-remove :
    (d t : String) (docs : HashMap (List String))
    → IsMap docs
    → with_term t (HashMap.remove d docs) ≡ filter (λ e. not (str_eq e d)) (with_term t docs)
unfolding filter with_term distinct HashMap.remove
with_term-remove d t [] h = refl
with_term-remove d t ((e, ts) ∷ docs) h =
    ground (arith, eq_iff e d, with_term-remove d t docs, filter-absent d t docs)

-- A document without the term is in no list of that term.
with_term-kept :
    (d t : String) (docs : HashMap (List String)) (ts : List String)
    → IsMap docs
    → HashMap.get d docs ≡ some ts
    → contains ts t ≡ false
    → filter (λ e. not (str_eq e d)) (with_term t docs) ≡ with_term t docs
unfolding filter with_term distinct HashMap.get
with_term-kept d t [] ts h g n = refl
with_term-kept d t ((e, us) ∷ docs) ts h g n =
    ground (arith, eq_iff e d, with_term-kept d t docs ts, filter-absent d t docs)

with_term-append :
    (d t : String) (ts : List String) (docs : HashMap (List String))
    → with_term t (docs ++ (d, ts) ∷ [])
      ≡ with_term t docs ++ (if contains ts t then d ∷ [] else [])
unfolding with_term
with_term-append d t ts [] = ground arith
with_term-append d t ts ((e, us) ∷ docs) = ground (arith, with_term-append d t ts docs)

module _ (s : Bm25Index) (d : String) (docs : HashMap (List String)) (i : Indexes s docs) where
  freq_of :
      HashMap.get d s.doc_term_freq
      ≡ elim (HashMap.get d docs) [ none ↦ none | some ts ↦ some (count_terms [] ts) ]
  freq_of = ap (HashMap.get d) (i.frequencies) ∙ get-map_entries (count_terms []) d docs

  length_of :
      HashMap.get d s.doc_lengths
      ≡ elim (HashMap.get d docs) [ none ↦ none | some ts ↦ some (length ts) ]
  length_of = ap (HashMap.get d) (i.lengths) ∙ get-map_entries length d docs

  remove_document-absent : HashMap.get d docs ≡ none → remove_document s d ≡ s
  unfolding remove_document drop_terms drop_length
  remove_document-absent e = ground (arith, freq_of, length_of)

  remove_document-there :
      (ts : List String)
      → HashMap.get d docs ≡ some ts
      → Indexes (remove_document s d) (HashMap.remove d docs)
  unfolding remove_document drop_terms drop_length distinct
  remove_document-there ts e =
      let ks = keys (count_terms [] ts) in
      record {
        frequencies =
            ground (
              arith,
              freq_of,
              length_of,
              i.frequencies,
              map_entries-remove (count_terms []) d docs,
            );
        lengths = ground (arith, freq_of, length_of, i.lengths, map_entries-remove length d docs);
        lists = λ t. ground (
          arith,
          freq_of,
          length_of,
          i.lists t,
          postings-remove d t ks s.inverted (count_terms-IsMap [] ts refl),
          contains-count_terms [] ts t,
          with_term-remove d t docs i.is_map,
          with_term-kept d t docs ts i.is_map e,
        );
        counted = ground (arith, freq_of, length_of, i.counted, length-remove d docs);
        average = λ h. ground (arith, freq_of, length_of);
        is_map = remove-IsMap d docs i.is_map;
      }

  pub remove_document-Indexes : Indexes (remove_document s d) (HashMap.remove d docs)
  remove_document-Indexes = elim (Option-cases (HashMap.get d docs)) [
    | inl e ↦
        subst (λ x. Indexes x (HashMap.remove d docs)) (sym (remove_document-absent e))
          (subst (Indexes s) (sym (remove-none d docs e)) i)
    | inr (ts, e) ↦ remove_document-there ts e
  ]

  pub add_document-Indexes :
      (ts : List String) → Indexes (add_document s d ts) (HashMap.remove d docs ++ (d, ts) ∷ [])
  unfolding add_document distinct
  add_document-Indexes ts =
      let rest = HashMap.remove d docs in
      let r = remove_document s d in
      let j = remove_document-Indexes in
      let gone : HashMap.get d rest ≡ none =
        ground (arith, get-remove d d docs i.is_map, eq_refl d) in
      record {
        frequencies =
            ap (HashMap.insert d (count_terms [] ts)) j.frequencies
            ∙ insert-map_entries (count_terms []) d ts rest gone;
        lengths =
            ap (HashMap.insert d (length ts)) j.lengths ∙ insert-map_entries length d ts rest gone;
        lists = λ t. ground (
          arith,
          postings-add d t (keys (count_terms [] ts)) r.inverted (count_terms-IsMap [] ts refl),
          contains-count_terms [] ts t,
          j.lists t,
          with_term-append d t ts rest,
          append-nil (with_term t rest),
        );
        counted = omega (arith, j.counted, length-append rest ((d, ts) ∷ []));
        average = λ h. refl;
        is_map = append-IsMap d ts rest gone j.is_map;
      }

pub new-Indexes : Indexes Index.new []
unfolding Index.new map_entries with_term postings HashMap.get distinct
new-Indexes = record {
  frequencies = refl;
  lengths = refl;
  lists = λ t. refl;
  counted = refl;
  average = λ h. absurd (omega arith);
  is_map = refl;
}

pub after-Indexes : (cs : List Call) → Indexes (after cs) (documents cs)
unfolding after call documents
after-Indexes [] = new-Indexes
after-Indexes (adds d ts ∷ cs) =
    add_document-Indexes (after cs) d (documents cs) (after-Indexes cs) ts
after-Indexes (removes d ∷ cs) =
    remove_document-Indexes (after cs) d (documents cs) (after-Indexes cs)
