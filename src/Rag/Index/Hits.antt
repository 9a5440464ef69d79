-- ===== src/Rag/Index/Hits.antt =====
-- server/rag/src/index.rs, `search`: which documents it finds.
use hyverk_distributed_llm.Common.{
  ℕ, suc, zero, ◌≤◌, ◌<◌, String, ◌≡◌, refl, ap, sym, subst, ◌∙◌, inl, inr, Bool-cases, Bool, true,
  false, ◌||◌, none, some, List, [], ◌∷◌, map, arith, ◌==◌, length, str_eq, eq_iff, contains,
  distinct, any, take, is_some,
}
use hyverk_distributed_llm.Common.HashMap
use hyverk_distributed_llm.Common.HashMap.{
  HashMap, IsMap, keys, get-absent, insert-IsMap, contains-keys-insert,
}
use hyverk_distributed_llm.Rag.Index.{
  Bm25Index, or_default, postings, term_weight, score_docs, score_terms, insert_ranked, sort_ranked,
  rank, search,
}
use hyverk_distributed_llm.Rag.Index.Postings.{
  Call, after, documents, with_term, Indexes, after-Indexes,
}

-- A document that was added and not removed since has one of the terms.
abbrev pub has_any : List String → String → HashMap (List String) → Bool
has_any terms d docs = elim (HashMap.get d docs) [
  | none ↦ false
  | some ts ↦ any (contains ts) terms
]

contains-with_term :
    (d t : String) (docs : HashMap (List String))
    → IsMap docs
    → contains (with_term t docs) d
      ≡ elim (HashMap.get d docs) [ none ↦ false | some ts ↦ contains ts t ]
unfolding with_term contains HashMap.get distinct
contains-with_term d t [] h = refl
contains-with_term d t ((e, ts) ∷ docs) h =
    ground (arith, eq_iff e d, contains-with_term d t docs, get-absent e docs)

any-with_term :
    (d : String) (terms : List String) (docs : HashMap (List String))
    → IsMap docs
    → any (λ t. contains (with_term t docs) d) terms ≡ has_any terms d docs
unfolding any
any-with_term d [] docs h = ground arith
any-with_term d (t ∷ terms) docs h =
    ground (arith, contains-with_term d t docs h, any-with_term d terms docs h)

any_same {ℓ} :
    {A : Type ℓ} {p q : A → Bool} → ((x : A) → p x ≡ q x) → (xs : List A) → any p xs ≡ any q xs
unfolding any
any_same h [] = refl
any_same h (x ∷ xs) = ground (arith, h x, any_same h xs)

get-empty {ℓ} : {A : Type ℓ} (k : String) (m : HashMap A) → length m ≡ 0 → HashMap.get k m ≡ none
unfolding HashMap.get
get-empty k [] h = refl
get-empty k (x ∷ m) h = absurd (omega arith)

contains-take :
    (k : ℕ) (xs : List String) (d : String) → contains (take k xs) d ≡ true → contains xs d ≡ true
unfolding contains
contains-take zero xs d h = absurd (ground arith)
contains-take (suc k) [] d h = h
contains-take (suc k) (x ∷ xs) d h = ground (arith, contains-take k xs d)

contains-take-false :
    (k : ℕ) (xs : List String) (d : String) → contains xs d ≡ false → contains (take k xs) d ≡ false
unfolding contains
contains-take-false zero xs d h = refl
contains-take-false (suc k) [] d h = h
contains-take-false (suc k) (x ∷ xs) d h = ground (arith, contains-take-false k xs d)

distinct-take : (k : ℕ) (xs : List String) → distinct xs ≡ true → distinct (take k xs) ≡ true
unfolding distinct contains
distinct-take zero xs h = refl
distinct-take (suc k) [] h = h
distinct-take (suc k) (x ∷ xs) h = ground (arith, distinct-take k xs, contains-take-false k xs x)

module _ {ℓ} {A : Type ℓ} where
  length-take : (k : ℕ) (xs : List A) → length (take k xs) ≤ k
  length-take zero xs = omega arith
  length-take (suc k) [] = omega arith
  length-take (suc k) (x ∷ xs) = omega (arith, length-take k xs)

  pub take_all : (k : ℕ) (xs : List A) → length (take k xs) < k → take k xs ≡ xs
  take_all zero xs h = absurd (omega arith)
  take_all (suc k) [] h = refl
  take_all (suc k) (x ∷ xs) h = ap (◌∷◌ x) (take_all k xs (omega arith))

-- The entries of a map in an order: the same keys with the same values, each once.
pub record IsOrder {F : Type 0} (order : HashMap F → HashMap F) : Type 0 where
  pub same : (m : HashMap F) → IsMap m → (d : String) → HashMap.get d (order m) ≡ HashMap.get d m
  pub once : (m : HashMap F) → IsMap m → IsMap (order m)
  pub as_long : (m : HashMap F) → length (order m) ≡ length m

contains-get {ℓ} :
    {A : Type ℓ} (d : String) (m : HashMap A) → contains (keys m) d ≡ is_some (HashMap.get d m)
unfolding contains HashMap.get
contains-get d [] = refl
contains-get d ((k, v) ∷ m) = ground (arith, contains-get d m)

abbrev pub ids {ℓ} : {A : Type ℓ} → List (String × A) → List String
ids = map (λ x. x.0)

ids-take {ℓ} : {A : Type ℓ} (k : ℕ) (xs : List (String × A)) → ids (take k xs) ≡ take k (ids xs)
ids-take zero xs = refl
ids-take (suc k) [] = refl
ids-take (suc k) (x ∷ xs) = ap (◌∷◌ x.0) (ids-take k xs)

length-ids {ℓ} : {A : Type ℓ} (xs : List (String × A)) → length (ids xs) ≡ length xs
length-ids [] = refl
length-ids (x ∷ xs) = ap suc (length-ids xs)

ids-keys {ℓ} : {A : Type ℓ} (m : HashMap A) → ids m ≡ keys m
ids-keys [] = refl
ids-keys ((k, v) ∷ m) = ap (◌∷◌ k) (ids-keys m)

module _ {F : Type 0} (zero_score : F) (add : F → F → F) (weight : ℕ → ℕ → ℕ → ℕ → ℕ × ℕ → F)
    (before : F → F → Bool) (order : HashMap F → HashMap F) where
  contains-score_docs :
      (s : Bm25Index) (t d : String) (df : ℕ) (ds : List String) (sc : HashMap F)
      → contains (keys (score_docs zero_score add weight before s t df ds sc)) d
        ≡ contains (keys sc) d || contains ds d
  unfolding score_docs contains
  contains-score_docs s t d df [] sc = ground arith
  contains-score_docs s t d df (e ∷ ds) sc =
      let v =
        add (or_default zero_score (HashMap.get e sc))
          (term_weight zero_score add weight before s t df e) in
      ground (
        arith,
        contains-score_docs s t d df ds (HashMap.insert e v sc),
        contains-keys-insert e d v sc,
      )

  score_docs-IsMap :
      (s : Bm25Index) (t : String) (df : ℕ) (ds : List String) (sc : HashMap F)
      → IsMap sc
      → IsMap (score_docs zero_score add weight before s t df ds sc)
  unfolding score_docs
  score_docs-IsMap s t df [] sc h = h
  score_docs-IsMap s t df (e ∷ ds) sc h =
      let v =
        add (or_default zero_score (HashMap.get e sc))
          (term_weight zero_score add weight before s t df e) in
      score_docs-IsMap s t df ds (HashMap.insert e v sc) (insert-IsMap e v sc h)

  contains-score_terms :
      (s : Bm25Index) (d : String) (ts : List String) (sc : HashMap F)
      → contains (keys (score_terms zero_score add weight before s ts sc)) d
        ≡ contains (keys sc) d || any (λ t. contains (postings t s.inverted) d) ts
  unfolding score_terms any
  contains-score_terms s d [] sc = ground arith
  contains-score_terms s d (t ∷ ts) sc =
      let docs = postings t s.inverted in
      ground (
        arith,
        contains-score_terms s d ts
            (score_docs zero_score add weight before s t (length docs) docs sc),
        contains-score_docs s t d (length docs) docs sc,
      )

  pub score_terms-IsMap :
      (s : Bm25Index) (ts : List String) (sc : HashMap F)
      → IsMap sc
      → IsMap (score_terms zero_score add weight before s ts sc)
  unfolding score_terms
  score_terms-IsMap s [] sc h = h
  score_terms-IsMap s (t ∷ ts) sc h =
      let docs = postings t s.inverted in
      score_terms-IsMap s ts (score_docs zero_score add weight before s t (length docs) docs sc)
        (score_docs-IsMap s t (length docs) docs sc h)

  contains-insert_ranked :
      (x : String × F) (ys : List (String × F)) (d : String)
      → contains (ids (insert_ranked zero_score add weight before x ys)) d
        ≡ str_eq x.0 d || contains (ids ys) d
  unfolding insert_ranked contains
  contains-insert_ranked x [] d = refl
  contains-insert_ranked x (y ∷ ys) d = ground (arith, contains-insert_ranked x ys d)

  insert_ranked-distinct :
      (x : String × F) (ys : List (String × F))
      → contains (ids ys) x.0 ≡ false
      → distinct (ids ys) ≡ true
      → distinct (ids (insert_ranked zero_score add weight before x ys)) ≡ true
  unfolding insert_ranked distinct contains
  insert_ranked-distinct x [] n h = refl
  insert_ranked-distinct x (y ∷ ys) n h = ground (
    arith,
    eq_iff x.0 y.0,
    eq_iff y.0 x.0,
    insert_ranked-distinct x ys,
    contains-insert_ranked x ys y.0,
  )

  pub contains-sort_ranked :
      (m : HashMap F) (d : String)
      → contains (ids (sort_ranked zero_score add weight before m)) d ≡ contains (keys m) d
  unfolding sort_ranked contains
  contains-sort_ranked [] d = refl
  contains-sort_ranked ((k, v) ∷ m) d = ground (
    arith,
    contains-insert_ranked (k, v) (sort_ranked zero_score add weight before m) d,
    contains-sort_ranked m d,
  )

  sort_ranked-distinct :
      (m : HashMap F) → IsMap m → distinct (ids (sort_ranked zero_score add weight before m)) ≡ true
  unfolding sort_ranked distinct
  sort_ranked-distinct [] h = refl
  sort_ranked-distinct ((k, v) ∷ m) h = ground (
    arith,
    insert_ranked-distinct (k, v) (sort_ranked zero_score add weight before m),
    sort_ranked-distinct m,
    contains-sort_ranked m k,
  )

  contains-rank :
      (m : HashMap F) (d : String)
      → IsOrder order
      → IsMap m
      → contains (ids (rank zero_score add weight before order m)) d ≡ contains (keys m) d
  unfolding rank
  contains-rank m d o h =
      contains-sort_ranked (order m) d
      ∙ contains-get d (order m)
      ∙ ap is_some (o.same m h d)
      ∙ sym (contains-get d m)

  rank-distinct :
      (m : HashMap F)
      → IsOrder order
      → IsMap m
      → distinct (ids (rank zero_score add weight before order m)) ≡ true
  unfolding rank
  rank-distinct m o h = sort_ranked-distinct (order m) (o.once m h)

  ranked : Bm25Index → List String → HashMap F
  ranked s terms = score_terms zero_score add weight before s terms []

  contains-ranked :
      (s : Bm25Index) (docs : HashMap (List String)) (terms : List String) (d : String)
      → IsOrder order
      → Indexes s docs
      → contains (ids (rank zero_score add weight before order (ranked s terms))) d
        ≡ has_any terms d docs
  unfolding ranked contains distinct
  contains-ranked s docs terms d o i =
      contains-rank (ranked s terms) d o (score_terms-IsMap s terms [] refl)
      ∙ contains-score_terms s d terms []
      ∙ any_same (λ t. ap (λ l. contains l d) (i.lists t)) terms
      ∙ any-with_term d terms docs i.is_map

  none-found :
      (s : Bm25Index) (docs : HashMap (List String)) (terms : List String) (d : String)
      → Indexes s docs
      → s.num_docs ≡ 0
      → has_any terms d docs ≡ false
  none-found s docs terms d i e = ground (arith, get-empty d docs (sym i.counted ∙ e))

  -- `search` on an index of some documents.
  pub search-Indexes :
      (s : Bm25Index) (docs : HashMap (List String)) (terms : List String) (k : ℕ) (d : String)
      → IsOrder order
      → Indexes s docs
      → let found = ids (search zero_score add weight before order s terms k) in
        (length found ≤ k)
        × (distinct found ≡ true)
        × (contains found d ≡ true → has_any terms d docs ≡ true)
        × (length found < k → contains found d ≡ has_any terms d docs)
  unfolding search ranked distinct contains
  search-Indexes s docs terms k d o i =
      let all_ranked = rank zero_score add weight before order (ranked s terms) in
      elim (Bool-cases (s.num_docs == 0)) [
        | inl e ↦
            let none_has = none-found s docs terms d i (ground arith) in
            rw e (omega arith, refl, λ h. absurd (ground arith), λ h. sym none_has)
        | inr e ↦
            let cut = ids-take k all_ranked in
            let in_all = contains-ranked s docs terms d o i in
            rw e (
              omega (arith, length-take k all_ranked, length-ids (take k all_ranked)),
              subst (λ x. distinct x ≡ true) (sym cut)
                  (distinct-take k (ids all_ranked)
                    (rank-distinct (ranked s terms) o (score_terms-IsMap s terms [] refl))),
              λ h.
                  sym in_all
                  ∙ contains-take k (ids all_ranked) d (ap (λ x. contains x d) (sym cut) ∙ h),
              λ h.
                  ap (λ x. contains (ids x) d)
                    (take_all k all_ranked (omega (arith, length-ids (take k all_ranked))))
                  ∙ in_all,
            )
      ]

  -- What `search` finds after any calls of `add_document` and `remove_document`: at most `k` documents,
  -- no document twice, and only documents that were added, not removed since, and have a term of the
  -- query in their latest text; if it finds fewer than `k`, it finds all of these. The scores come out
  -- of their map in any order.
  pub search-has_any :
      (cs : List Call) (terms : List String) (k : ℕ) (d : String)
      → IsOrder order
      → let found = ids (search zero_score add weight before order (after cs) terms k) in
        (length found ≤ k)
        × (distinct found ≡ true)
        × (contains found d ≡ true → has_any terms d (documents cs) ≡ true)
        × (length found < k → contains found d ≡ has_any terms d (documents cs))
  search-has_any cs terms k d o =
      search-Indexes (after cs) (documents cs) terms k d o (after-Indexes cs)
