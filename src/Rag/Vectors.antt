-- ===== src/Rag/Vectors.antt =====
-- crates/gola-core/src/rag/vector_store.rs and the scores of embeddings.rs beside it. `F` is `f32`. A hash
-- map gives its entries in an order of its own, `order`.
pub mod Best
use gola.Prelude.{
  ℕ, suc, Bool, true, false, not, ◌||◌, Option, none, some, List, [], ◌∷◌, ◌++◌, map, length, take,
  is_empty, ◌==◌, Text, codes, decimal, number_key, lookup, put, remove, sort_by, if◌then◌else◌,
}
use gola.Core.Errors.{AgentError, rag_error, Result, ok, err}

-- `f32` as far as embeddings need it. `less` is `<`, which NaN makes false.
pub record Floats : Type 1 where
  pub F : Type 0
  pub zero_f : F
  pub infinity : F
  pub plus : F → F → F
  pub minus : F → F → F
  pub times : F → F → F
  pub over : F → F → F
  pub sqrt : F → F
  pub is_zero : F → Bool
  pub less : F → F → Bool
  -- `>=`
  pub at_least : F → F → Bool

pub record SearchResult (F : Type 0) : Type 0 where
  pub document_id : ℕ
  pub score : F
  pub distance : F

pub record InMemoryVectorStore (F : Type 0) : Type 0 where
  pub embeddings : List (ℕ × List F)
  pub embedding_dimension : Option ℕ

-- The fields of the store in memory, and a path.
pub record PersistentVectorStore (F : Type 0) : Type 0 where
  pub held : InMemoryVectorStore F
  pub file_path : Option Text

module _ (floats : Floats) where
  open floats use {F, zero_f, infinity, plus, minus, times, over, sqrt, is_zero, less}

  -- `zip` with `map`, which ends with the shorter slice.
  abbrev pub combined : (F → F → F) → List F → List F → List F
  combined f (x ∷ xs) (y ∷ ys) = f x y ∷ combined f xs ys
  combined f _ _ = []

  abbrev pub sum_from : F → List F → F
  sum_from total [] = total
  sum_from total (x ∷ xs) = sum_from (plus total x) xs

  unfoldable pub cosine_similarity : List F → List F → F
  cosine_similarity a b =
      let dot_product = sum_from zero_f (combined times a b) in
      let magnitude_a = sqrt (sum_from zero_f (map (λ x. times x x) a)) in
      let magnitude_b = sqrt (sum_from zero_f (map (λ x. times x x) b)) in
      if not (length a == length b)
      then zero_f
      else if is_zero magnitude_a || is_zero magnitude_b
      then zero_f
      else over dot_product (times magnitude_a magnitude_b)

  unfoldable pub euclidean_distance : List F → List F → F
  euclidean_distance a b =
      if not (length a == length b)
      then infinity
      else sqrt (sum_from zero_f (combined (λ x y. times (minus x y) (minus x y)) a b))

  abbrev pub new : InMemoryVectorStore F
  new = record { embeddings = []; embedding_dimension = none }

  unfoldable pub mismatch : Text → ℕ → ℕ → AgentError
  mismatch what expected got = rag_error (
      what
      ++ codes " dimension mismatch: expected "
      ++ decimal expected
      ++ codes ", got "
      ++ decimal got)

  abbrev pub inserted : InMemoryVectorStore F → ℕ → List F → ℕ → InMemoryVectorStore F
  inserted store id embedding dimension = record {
    embeddings = put id embedding store.embeddings;
    embedding_dimension = some dimension;
  }

  unfoldable pub add_document :
      InMemoryVectorStore F → ℕ → List F → Result (Unit {0}) × InMemoryVectorStore F
  unfolding mismatch
  add_document store id embedding = elim store.embedding_dimension [
    | none ↦ (ok tt, inserted store id embedding (length embedding))
    | some expected ↦
        if length embedding == expected
        then (ok tt, inserted store id embedding expected)
        else (err (mismatch (codes "Embedding") expected (length embedding)), store)
  ]

  -- `?`, with the store behind an error.
  abbrev pub or_stop :
      Result (Unit {0}) × InMemoryVectorStore F
      → (InMemoryVectorStore F → Result (Unit {0}) × InMemoryVectorStore F)
      → Result (Unit {0}) × InMemoryVectorStore F
  or_stop (err e, store) next = (err e, store)
  or_stop (ok done, store) next = next store

  -- The default of the trait: the first error ends the loop.
  unfoldable pub add_documents :
      InMemoryVectorStore F → List (ℕ × List F) → Result (Unit {0}) × InMemoryVectorStore F
  add_documents store [] = (ok tt, store)
  add_documents store ((id, embedding) ∷ rest) =
      or_stop (add_document store id embedding) (λ next. add_documents next rest)

  unfoldable pub remove_document : InMemoryVectorStore F → ℕ → InMemoryVectorStore F
  remove_document store id = record store { embeddings = remove id store.embeddings }

  abbrev pub clear : InMemoryVectorStore F → InMemoryVectorStore F
  clear store = new

  abbrev pub document_count : InMemoryVectorStore F → ℕ
  document_count store = length store.embeddings

  -- `b.score.partial_cmp(&a.score)` is not `Greater`.
  abbrev pub not_behind : SearchResult F → SearchResult F → Bool
  not_behind a b = not (less a.score b.score)

  abbrev pub scored : List F → ℕ × List F → SearchResult F
  scored query (id, embedding) = record {
    document_id = id;
    score = cosine_similarity query embedding;
    distance = euclidean_distance query embedding;
  }

  module _ (order : List (ℕ × List F) → List (ℕ × List F)) where
    abbrev pub ranked : InMemoryVectorStore F → List F → List (SearchResult F)
    ranked store query = sort_by not_behind (map (scored query) (order store.embeddings))

    unfoldable pub search : InMemoryVectorStore F → List F → ℕ → Result (List (SearchResult F))
    unfolding mismatch
    search store query top_k =
        let best = ok (take top_k (ranked store query)) in
        if is_empty store.embeddings then ok [] else (elim store.embedding_dimension [
          | none ↦ best
          | some expected ↦
              if length query == expected
              then best
              else err (mismatch (codes "Query embedding") expected (length query))
        ])

  -- The store in a file is written after each change; an error of that ends the operation, which
  -- has happened in memory.
  module _ (save : PersistentVectorStore F → Result (Unit {0})) where
    unfoldable pub saved : PersistentVectorStore F → Result (Unit {0}) × PersistentVectorStore F
    saved store = elim store.file_path [ none ↦ (ok tt, store) | some path ↦ (save store, store) ]

    unfoldable pub add_persistent :
        PersistentVectorStore F → ℕ → List F → Result (Unit {0}) × PersistentVectorStore F
    unfolding saved
    add_persistent store id embedding =
        let added = add_document store.held id embedding in
        let store' : PersistentVectorStore F = record store { held = added.1 } in
        elim added.0 [ err e ↦ (err e, store') | ok done ↦ saved store' ]

    unfoldable pub remove_persistent :
        PersistentVectorStore F → ℕ → Result (Unit {0}) × PersistentVectorStore F
    unfolding saved
    remove_persistent store id = saved (record store { held = remove_document store.held id })

    unfoldable pub clear_persistent :
        PersistentVectorStore F → Result (Unit {0}) × PersistentVectorStore F
    unfolding saved
    clear_persistent store = saved (record store { held = new })
