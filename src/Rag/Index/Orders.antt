-- ===== src/Rag/Index/Orders.antt =====
-- server/rag/src/index.rs, `search`: what does not depend on the order in which the scores come out of
-- their `HashMap`.
use hyverk_distributed_llm.Common.{
  ℕ, suc, zero, ◌<◌, String, ◌≡◌, refl, ap, sym, ◌∙◌, inl, inr, Bool-cases, Bool, true, false, some,
  List, [], ◌∷◌, arith, ◌==◌, length, str_eq, eq_iff, contains, distinct, take, if◌then◌else◌,
}
use hyverk_distributed_llm.Common.HashMap
use hyverk_distributed_llm.Common.HashMap.{HashMap, IsMap, keys, get-absent}
use hyverk_distributed_llm.Rag.Index.{
  Bm25Index, score_terms, insert_ranked, sort_ranked, rank, search,
}
use hyverk_distributed_llm.Rag.Index.Hits.{
  IsOrder, ids, take_all, score_terms-IsMap, contains-sort_ranked,
}
use hyverk_distributed_llm.Rag.Index.Postings.{Indexes}
use hyverk_distributed_llm.Rag.Index.Same.{nums_same, score_terms-same}

length-take-same {ℓ} :
    {A : Type ℓ} (k : ℕ) (xs ys : List A)
    → length xs ≡ length ys
    → length (take k xs) ≡ length (take k ys)
length-take-same zero xs ys h = refl
length-take-same (suc k) [] [] h = refl
length-take-same (suc k) [] (y ∷ ys) h = absurd (omega arith)
length-take-same (suc k) (x ∷ xs) [] h = absurd (omega arith)
length-take-same (suc k) (x ∷ xs) (y ∷ ys) h = ap suc (length-take-same k xs ys (omega arith))

module _ {F : Type 0} (zero_score : F) (add : F → F → F) (weight : ℕ → ℕ → ℕ → ℕ → ℕ × ℕ → F)
    (before : F → F → Bool) where
  length-insert_ranked :
      (x : String × F) (ys : List (String × F))
      → length (insert_ranked zero_score add weight before x ys) ≡ suc (length ys)
  unfolding insert_ranked
  length-insert_ranked x [] = refl
  length-insert_ranked x (y ∷ ys) = ground (arith, length-insert_ranked x ys)

  length-sort_ranked :
      (m : List (String × F)) → length (sort_ranked zero_score add weight before m) ≡ length m
  unfolding sort_ranked
  length-sort_ranked [] = refl
  length-sort_ranked (x ∷ xs) =
      length-insert_ranked x (sort_ranked zero_score add weight before xs)
      ∙ ap suc (length-sort_ranked xs)

  get-insert_ranked :
      (d : String) (x : String × F) (ys : HashMap F)
      → contains (ids ys) x.0 ≡ false
      → HashMap.get d (insert_ranked zero_score add weight before x ys)
        ≡ (if str_eq x.0 d then some x.1 else HashMap.get d ys)
  unfolding insert_ranked HashMap.get contains
  get-insert_ranked d x [] h = refl
  get-insert_ranked d x (y ∷ ys) h =
      ground (arith, get-insert_ranked d x ys, eq_iff x.0 d, eq_iff y.0 d, eq_iff y.0 x.0)

  get-sort_ranked :
      (d : String) (m : HashMap F)
      → IsMap m
      → HashMap.get d (sort_ranked zero_score add weight before m) ≡ HashMap.get d m
  unfolding sort_ranked HashMap.get distinct
  get-sort_ranked d [] h = refl
  get-sort_ranked d ((k, v) ∷ m) h = ground (
    arith,
    get-insert_ranked d (k, v) (sort_ranked zero_score add weight before m),
    contains-sort_ranked zero_score add weight before (λ m. m) m k,
    get-sort_ranked d m,
  )

  module _ (order order' : HashMap F → HashMap F) (o : IsOrder order) (o' : IsOrder order') where
    length-rank :
        (m : HashMap F)
        → length (rank zero_score add weight before order m)
          ≡ length (rank zero_score add weight before order' m)
    unfolding rank
    length-rank m =
        length-sort_ranked (order m)
        ∙ o.as_long m
        ∙ sym (length-sort_ranked (order' m) ∙ o'.as_long m)

    get-rank :
        (d : String) (m : HashMap F)
        → IsMap m
        → HashMap.get d (rank zero_score add weight before order m)
          ≡ HashMap.get d (rank zero_score add weight before order' m)
    unfolding rank
    get-rank d m h =
        get-sort_ranked d (order m) (o.once m h)
        ∙ o.same m h d
        ∙ sym (get-sort_ranked d (order' m) (o'.once m h) ∙ o'.same m h d)

    -- Two indexes of the same documents, with two orders: as many hits, and, when they are fewer than
    -- `k`, the same documents with the same scores.
    pub search-orders :
        (s t : Bm25Index) (docs : HashMap (List String)) (terms : List String) (k : ℕ) (d : String)
        → Indexes s docs
        → Indexes t docs
        → let found = search zero_score add weight before order s terms k in
          let found' = search zero_score add weight before order' t terms k in
          (length found ≡ length found')
          × (length found < k → HashMap.get d found ≡ HashMap.get d found')
    unfolding search distinct
    search-orders s t docs terms k d i j =
        let nums : s.num_docs ≡ t.num_docs = nums_same s t docs i j in
        elim (Bool-cases (s.num_docs == 0)) [
          | inl e ↦
              let e' : t.num_docs == 0 ≡ true = ap (λ n. n == 0) (sym nums) ∙ e in
              rw (e, e') (refl, λ h. refl)
          | inr e ↦
              let e' : t.num_docs == 0 ≡ false = ap (λ n. n == 0) (sym nums) ∙ e in
              let scores = score_terms zero_score add weight before t terms [] in
              let same : score_terms zero_score add weight before s terms [] ≡ scores =
                score_terms-same s t docs i j zero_score add weight before (ground (arith, e)) terms
                  [] in
              let xs = rank zero_score add weight before order scores in
              let ys = rank zero_score add weight before order' scores in
              let as_many = length-take-same k xs ys (length-rank scores) in
              let once = score_terms-IsMap zero_score add weight before (λ m. m) t terms [] refl in
              rw (e, e', same)
                (
                  as_many,
                  λ h.
                      ap (HashMap.get d) (take_all k xs h)
                      ∙ get-rank d scores once
                      ∙ sym (ap (HashMap.get d) (take_all k ys (omega (arith, as_many)))),
                )
        ]
