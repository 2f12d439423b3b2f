-- ===== src/Rag/System/Relevant.antt =====
-- What the retrieval of crates/gola-core/src/rag/rag_system.rs gives the agent.
use mathlib.Core.Path.{subst}
use gola.Prelude.{
  ℕ, ◌+◌, ◌^◌, ◌≤◌, ◌≡◌, refl, true, Bool-cases, ◌⊎◌, inl, inr, Option, none, some, List, [], ◌∷◌,
  ◌++◌, map, length, take, get_elem?, arith, Every, Every-take, Every-sort_by, Text, length-take,
  length-append,
}
use gola.Core.Errors.{Result, ok, err}
use gola.Rag.Context.{RagDocument, RetrievedContext}
use gola.Rag.Context
use gola.Rag.Vectors.{
  Floats, SearchResult, InMemoryVectorStore, cosine_similarity, not_behind, scored, ranked, search,
}
use gola.Rag.System.{EmbeddingGenerator, RagSystem, with_found, taken, collected, asked, retrieve}
use gola.Rag.System.Indexed.{Indexed, IsIndexed}

module _ (floats : Floats) (generator : EmbeddingGenerator (List floats.F)) where
  open floats use {F, at_least}

  -- A document whose embedding is as near to this one as the score says, which reaches the
  -- threshold.
  abbrev pub IsNear : List F → F → RagDocument → F → Type 0
  IsNear query threshold d score =
      (at_least score threshold ≡ true)
      × (embedding : List F) × (generator.generate_embedding d.content ≡ ok embedding)
      × (score ≡ cosine_similarity floats query embedding)

  -- The documents and the scores of a context, pair by pair.
  abbrev pub AllNear : List F → F → List RagDocument → List F → Type 0
  AllNear query threshold [] [] = Unit
  AllNear query threshold (d ∷ ds) (score ∷ scores) =
      IsNear query threshold d score × AllNear query threshold ds scores
  AllNear query threshold _ _ = ⊥

  AllNear-append :
      (query : List F) (threshold : F) (ds : List RagDocument) (scores : List F) (d : RagDocument)
      (score : F)
      → AllNear query threshold ds scores
      → IsNear query threshold d score
      → AllNear query threshold (ds ++ d ∷ []) (scores ++ score ∷ [])
  AllNear-append query threshold [] [] d score h k = (k, tt)
  AllNear-append query threshold [] (x ∷ xs) d score h k = elim h [ ]
  AllNear-append query threshold (e ∷ ds) [] d score h k = elim h [ ]
  AllNear-append query threshold (e ∷ ds) (x ∷ xs) d score h k =
      (h.0, AllNear-append query threshold ds xs d score h.1 k)

  -- A result that belongs to a document.
  abbrev Found : List RagDocument → List F → SearchResult F → Type 0
  Found docs query r =
      (d : RagDocument) × (get_elem? docs r.document_id ≡ some d)
      × (embedding : List F) × (generator.generate_embedding d.content ≡ ok embedding)
      × (r.score ≡ cosine_similarity floats query embedding)

  Found-scored :
      (docs : List RagDocument) (query : List F) (es : List (ℕ × List F))
      → Every (Indexed floats generator.generate_embedding docs) es
      → Every (Found docs query) (map (scored floats query) es)
  Found-scored docs query [] h = tt
  Found-scored docs query ((i, e) ∷ es) h =
      ((h.0.0, h.0.1, e, h.0.2, refl), Found-scored docs query es h.1)

  AllNear-with_found :
      (s : RagSystem F) (query : List F) (r : SearchResult F) (c : RetrievedContext F)
      (o : Option RagDocument)
      → at_least r.score s.config.similarity_threshold ≡ true
      → get_elem? s.documents r.document_id ≡ o
      → Found s.documents query r
      → AllNear query s.config.similarity_threshold c.documents c.scores
      → AllNear query s.config.similarity_threshold
          (with_found floats generator o r.score c).documents
          (with_found floats generator o r.score c).scores
  AllNear-with_found s query r c none e f h k = k
  AllNear-with_found s query r c (some d) e f h k =
      let same : h.0 ≡ d = ground (arith, h.1, f) in
      AllNear-append query s.config.similarity_threshold c.documents c.scores d r.score k
        (e, h.2, subst (λ d. generator.generate_embedding d.content ≡ ok h.2) same h.3, h.4)

  AllNear-taken :
      (s : RagSystem F) (query : List F) (r : SearchResult F) (c : RetrievedContext F)
      → Found s.documents query r
      → AllNear query s.config.similarity_threshold c.documents c.scores
      → AllNear query s.config.similarity_threshold
          (taken floats generator s r c).documents
          (taken floats generator s r c).scores
  unfolding taken
  AllNear-taken s query r c h k =
      elim (Bool-cases (at_least r.score s.config.similarity_threshold)) [
        | inl e ↦
            rw e (AllNear-with_found s query r c (get_elem? s.documents r.document_id) e refl h k)
        | inr e ↦ rw e k
      ]

  AllNear-collected :
      (s : RagSystem F) (query : List F) (rs : List (SearchResult F)) (c : RetrievedContext F)
      → Every (Found s.documents query) rs
      → AllNear query s.config.similarity_threshold c.documents c.scores
      → AllNear query s.config.similarity_threshold
          (collected floats generator s rs c).documents
          (collected floats generator s rs c).scores
  unfolding collected
  AllNear-collected s query [] c h k = k
  AllNear-collected s query (r ∷ rs) c h k =
      AllNear-collected s query rs (taken floats generator s r c) h.1
        (AllNear-taken s query r c h.0 k)

  length-with_found :
      (c : RetrievedContext F) (score : F) (o : Option RagDocument)
      → length (with_found floats generator o score c).documents ≤ length c.documents + 1
  length-with_found c score none = omega arith
  length-with_found c score (some d) = omega (arith, length-append c.documents (d ∷ []))

  length-collected :
      (s : RagSystem F) (rs : List (SearchResult F)) (c : RetrievedContext F)
      → length (collected floats generator s rs c).documents ≤ length c.documents + length rs
  unfolding collected taken
  length-collected s [] c = omega arith
  length-collected s (r ∷ rs) c =
      let rest = length-collected s rs (taken floats generator s r c) in
      let one = length-with_found c r.score (get_elem? s.documents r.document_id) in
      ground (arith, rest, one)

  module _ (order : List (ℕ × List F) → List (ℕ × List F)) where
    best-cases :
        (store : InMemoryVectorStore F) (query : List F) (k : ℕ) (rs : List (SearchResult F))
        → search floats order store query k ≡ ok rs
        → (rs ≡ []) ⊎ (rs ≡ take k (ranked floats order store query))
    unfolding search
    best-cases store query k rs h = ground (arith, h)

    Every-search :
        (P : SearchResult F → Type 0) (store : InMemoryVectorStore F) (query : List F) (k : ℕ)
        (rs : List (SearchResult F))
        → Every P (map (scored floats query) (order store.embeddings))
        → search floats order store query k ≡ ok rs
        → Every P rs × (length rs ≤ k)
    Every-search P store query k rs h e = elim (best-cases store query k rs e) [
      | inl f ↦ rw f (tt, omega arith)
      | inr f ↦
          let all = ranked floats order store query in
          rw f (
            Every-take P k all (
                Every-sort_by (not_behind floats) P
                  (map (scored floats query) (order store.embeddings)) h),
            omega (arith, length-take k all),
          )
    ]

    Result-cases : {A : Type 0} (r : Result A) → ((e : _) × (r ≡ err e)) ⊎ ((x : A) × (r ≡ ok x))
    Result-cases (err e) = inl (e, refl)
    Result-cases (ok x) = inr (x, refl)

    -- What a retrieval gives has the documents and their scores pair by pair: each score is the
    -- similarity of the query's embedding and that of the document's content, and reaches the
    -- threshold; and they are at most as many as asked for. The conditions: the index is right, the
    -- documents can be counted, the hash map gives only entries that it has, and the retrieval
    -- ends without an error.
    pub retrieve-AllNear :
        (s : RagSystem F) (query : Text) (top_k : Option ℕ) (c : RetrievedContext F)
        → IsIndexed floats generator.generate_embedding s
        → length s.documents ≤ 2 ^ 64
        → ((P : ℕ × List F → Type 0) (es : List (ℕ × List F)) → Every P es → Every P (order es))
        → retrieve floats generator order query top_k s ≡ ok c
        → (q : List F) × (generator.generate_embedding query ≡ ok q)
          × AllNear q s.config.similarity_threshold c.documents c.scores
          × (length c.documents ≤ asked floats generator top_k s)
    unfolding retrieve
    retrieve-AllNear s query top_k c i n keeps h =
        elim (Result-cases (generator.generate_embedding query)) [
          | inl g ↦ ground (arith, g.1, h)
          | inr g ↦
              elim (Result-cases
                (search floats order s.vector_store g.0 (asked floats generator top_k s))) [
                  | inl e ↦ ground (arith, g.1, e.1, h)
                  | inr e ↦
                      let same : collected floats generator s e.0 Context.new ≡ c =
                        ground (arith, g.1, e.1, h) in
                      let found =
                        Every-search (Found s.documents g.0) s.vector_store g.0
                          (asked floats generator top_k s) e.0
                          (Found-scored s.documents g.0 (order s.vector_store.embeddings) (
                            keeps (Indexed floats generator.generate_embedding s.documents)
                              s.vector_store.embeddings (i.1 n)))
                          e.1 in
                      (
                        g.0,
                        g.1,
                        subst
                            (λ (c : RetrievedContext F).
                              AllNear g.0 s.config.similarity_threshold c.documents c.scores)
                            same (AllNear-collected s g.0 e.0 Context.new found.0 tt),
                        subst
                            (λ (c : RetrievedContext F).
                              length c.documents ≤ asked floats generator top_k s)
                            same (omega (arith, length-collected s e.0 Context.new, found.1)),
                      )
                ]
        ]
