-- ===== src/Rag/Cached.antt =====
-- CachedEmbeddingGenerator of crates/gola-core/src/rag/embeddings.rs over the cache in memory of cache.rs.
pub mod Same
use gola.Prelude.{
  ℕ, zero, suc, Option, none, some, List, [], ◌∷◌, ◌++◌, map, is_empty, set, Text, codes, decimal,
  if◌then◌else◌,
}
use gola.Core.Errors.{rag_error, Result, ok, err}
use gola.Rag.Cache.{Entries, InMemoryEmbeddingCache, get, get_batch, put_embedding, put_batch}
use gola.Rag.System.{EmbeddingGenerator}

module _ {E : Type 0} where
  -- The texts that the cache does not have, with their indices.
  abbrev pub uncached : ℕ → List Text → List (Option E) → List (ℕ × Text)
  uncached i (t ∷ ts) (none ∷ os) = (i, t) ∷ uncached (suc i) ts os
  uncached i (t ∷ ts) (some e ∷ os) = uncached (suc i) ts os
  uncached i _ _ = []

  abbrev pub fill : List (ℕ × Text) → List E → List (Option E) → List (Option E)
  fill ((i, t) ∷ ps) (e ∷ es) results = fill ps es (set i (some e) results)
  fill _ _ results = results

  abbrev pub with_first : E → Result (List E) → Result (List E)
  with_first e (err reason) = err reason
  with_first e (ok es) = ok (e ∷ es)

  -- `collect` into a result: the first that is missing is the error.
  unfoldable pub complete : ℕ → List (Option E) → Result (List E)
  complete i [] = ok []
  complete i (none ∷ os) =
      err (rag_error (codes "Missing embedding for text at index " ++ decimal i))
  complete i (some e ∷ os) = with_first e (complete (suc i) os)

module _ {E : Type 0} (order : Entries E → Entries E) (inner : EmbeddingGenerator E) where
  -- A new embedding is put into the cache.
  abbrev pub settle_new :
      InMemoryEmbeddingCache E → ℕ → Text → Result E → Result E × InMemoryEmbeddingCache E
  settle_new c now text (err e) = (err e, c)
  settle_new c now text (ok embedding) = (ok embedding, put_embedding order c now text embedding)

  abbrev pub or_generate :
      ℕ → Text → InMemoryEmbeddingCache E × Option E → Result E × InMemoryEmbeddingCache E
  or_generate now text (c, some embedding) = (ok embedding, c)
  or_generate now text (c, none) = settle_new c now text (inner.generate_embedding text)

  -- The clock is read when the cache is asked, and when it is given the embedding.
  unfoldable pub generate_embedding :
      InMemoryEmbeddingCache E → ℕ → ℕ → Text → Result E × InMemoryEmbeddingCache E
  generate_embedding c asked now text = or_generate now text (get c asked text)

  -- A batch that the cache does not take is only logged.
  abbrev pub or_unchanged :
      InMemoryEmbeddingCache E → Result (InMemoryEmbeddingCache E) → InMemoryEmbeddingCache E
  or_unchanged c (ok c') = c'
  or_unchanged c (err e) = c

  abbrev pub settle_batch :
      InMemoryEmbeddingCache E
      → (ℕ → ℕ)
      → List (ℕ × Text)
      → List (Option E)
      → Result (List E)
      → Result (List E) × InMemoryEmbeddingCache E
  settle_batch c clock missing results (err e) = (err e, c)
  settle_batch c clock missing results (ok es) = (
    complete 0 (fill missing es results),
    or_unchanged c (put_batch order c clock (map (λ p. p.1) missing) es),
  )

  unfoldable pub generate_missing :
      (ℕ → ℕ)
      → List (ℕ × Text)
      → InMemoryEmbeddingCache E × List (Option E)
      → Result (List E) × InMemoryEmbeddingCache E
  unfolding complete
  generate_missing clock [] found = (complete 0 found.1, found.0)
  generate_missing clock (p ∷ ps) found =
      settle_batch found.0 clock (p ∷ ps) found.1
        (inner.generate_embeddings (map (λ p. p.1) (p ∷ ps)))

  unfoldable pub generate_embeddings :
      InMemoryEmbeddingCache E
      → (ℕ → ℕ)
      → (ℕ → ℕ)
      → List Text
      → Result (List E) × InMemoryEmbeddingCache E
  unfolding generate_missing
  generate_embeddings c asked now texts =
      let found = get_batch c asked 0 texts in
      if is_empty texts then (ok [], c) else generate_missing now (uncached 0 texts found.1) found
