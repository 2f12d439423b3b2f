-- ===== src/Rag/System.antt =====
-- crates/gola-core/src/rag/rag_system.rs over the store in memory. The files and the other constructors, which
-- differ in the generator, are left out. The generator of embeddings is a parameter.
pub mod Indexed
pub mod Relevant
use gola.Prelude.{
  ℕ, zero, suc, ◌+◌, ◌%◌, ◌^◌, Option, none, some, List, [], ◌∷◌, ◌++◌, length, get_elem?, Text,
  codes, decimal, text_key, put, if◌then◌else◌,
}
use gola.Core.Errors.{AgentError, Result, ok, err, ◌>>=◌}
use gola.Rag.Context.{RagDocument, new_document, with_chunk_index, with_metadata, RetrievedContext}
use gola.Rag.Context
use gola.Rag.Splitter.{TextSplitter, split_text}
use gola.Rag.Splitter
use gola.Rag.Vectors.{Floats, SearchResult, InMemoryVectorStore, search}
use gola.Rag.Vectors

-- Of `RagConfig` in rag/mod.rs, what this module reads.
pub record RagConfig (F : Type 0) : Type 0 where
  pub chunk_size : ℕ
  pub chunk_overlap : ℕ
  pub top_k : ℕ
  pub similarity_threshold : F

-- The trait of rag/embeddings.rs.
pub record EmbeddingGenerator (E : Type 0) : Type 0 where
  pub generate_embedding : Text → Result E
  pub generate_embeddings : List Text → Result (List E)

-- The default of `generate_embeddings`: one after the other, up to the first error.
unfoldable pub each_embedding : {E : Type 0} → (Text → Result E) → List Text → Result (List E)
each_embedding generate [] = ok []
each_embedding generate (t ∷ ts) =
    generate t >>= λ embedding. each_embedding generate ts >>= λ rest. ok (embedding ∷ rest)

pub record RagSystem (F : Type 0) : Type 0 where
  pub vector_store : InMemoryVectorStore F
  pub text_splitter : TextSplitter
  pub documents : List RagDocument
  pub config : RagConfig F
  pub document_id_counter : ℕ

-- The document of a chunk.
unfoldable pub chunk_document : RagDocument → ℕ → ℕ → Text → RagDocument
chunk_document d total i chunk =
    let doc = with_metadata (with_chunk_index (new_document chunk d.source) i) d.metadata in
    record doc {
      metadata = put (codes "original_source") d.source (
          put (codes "total_chunks") (decimal total)
            (put (codes "chunk_index") (decimal i) doc.metadata));
    }

module _ (floats : Floats) where
  open floats use {F, at_least}

  abbrev pub new : RagConfig F → RagSystem F
  new config = record {
    vector_store = Vectors.new floats;
    text_splitter = Splitter.new config.chunk_size config.chunk_overlap;
    documents = [];
    config = config;
    document_id_counter = 0;
  }

  abbrev pub set_config : RagConfig F → RagSystem F → RagSystem F
  set_config config s = record s {
    config = config;
    text_splitter = Splitter.new config.chunk_size config.chunk_overlap;
  }

  -- `?` in a method that changes the system.
  abbrev pub or_stop :
      Result (Unit {0}) × RagSystem F
      → (RagSystem F → Result (Unit {0}) × RagSystem F)
      → Result (Unit {0}) × RagSystem F
  or_stop (err e, s) next = (err e, s)
  or_stop (ok done, s) next = next s

  -- A chunk takes the next id, whether or not the store takes its embedding.
  unfoldable pub add_chunk : RagDocument → List F → RagSystem F → Result (Unit {0}) × RagSystem F
  add_chunk doc embedding s =
      let added = Vectors.add_document floats s.vector_store s.document_id_counter embedding in
      (
        added.0,
        record s {
          document_id_counter = (s.document_id_counter + 1) % 2 ^ 64;
          documents = s.documents ++ doc ∷ [];
          vector_store = added.1;
        },
      )

  -- The loop over the chunks with their embeddings, which ends with the shorter vector.
  unfoldable pub add_chunks :
      RagDocument
      → ℕ
      → ℕ
      → List Text
      → List (List F)
      → RagSystem F
      → Result (Unit {0}) × RagSystem F
  unfolding add_chunk chunk_document
  add_chunks d total i (chunk ∷ chunks) (embedding ∷ embeddings) s =
      or_stop (add_chunk (chunk_document d total i chunk) embedding s)
        (λ next. add_chunks d total (suc i) chunks embeddings next)
  add_chunks d total i _ _ s = (ok tt, s)

  module _ (generator : EmbeddingGenerator (List F)) where
    unfoldable pub add_embedded :
        RagDocument
        → List Text
        → Result (List (List F))
        → RagSystem F
        → Result (Unit {0}) × RagSystem F
    unfolding add_chunks
    add_embedded d chunks (err e) s = (err e, s)
    add_embedded d chunks (ok embeddings) s = add_chunks d (length chunks) 0 chunks embeddings s

    -- `none`: the splitter does not come to an end.
    unfoldable pub process_document :
        RagDocument → RagSystem F → Option (Result (Unit {0}) × RagSystem F)
    unfolding add_embedded
    process_document d s = elim (split_text s.text_splitter d.content) [
      | none ↦ none
      | some chunks ↦ some (add_embedded d chunks (generator.generate_embeddings chunks) s)
    ]

    abbrev pub or_next :
        Option (Result (Unit {0}) × RagSystem F)
        → (RagSystem F → Option (Result (Unit {0}) × RagSystem F))
        → Option (Result (Unit {0}) × RagSystem F)
    or_next none next = none
    or_next (some (err e, s)) next = some (err e, s)
    or_next (some (ok done, s)) next = next s

    unfoldable pub add_documents :
        List RagDocument → RagSystem F → Option (Result (Unit {0}) × RagSystem F)
    unfolding process_document
    add_documents [] s = some (ok tt, s)
    add_documents (d ∷ ds) s = or_next (process_document d s) (λ next. add_documents ds next)

    abbrev pub with_found : Option RagDocument → F → RetrievedContext F → RetrievedContext F
    with_found none score c = c
    with_found (some d) score c = Context.add_document c d d.source score

    -- A result that is similar enough gives its document.
    unfoldable pub taken : RagSystem F → SearchResult F → RetrievedContext F → RetrievedContext F
    taken s r c =
        if at_least r.score s.config.similarity_threshold
        then with_found (get_elem? s.documents r.document_id) r.score c
        else c

    unfoldable pub collected :
        RagSystem F → List (SearchResult F) → RetrievedContext F → RetrievedContext F
    unfolding taken
    collected s [] c = c
    collected s (r ∷ rs) c = collected s rs (taken s r c)

    abbrev pub asked : Option ℕ → RagSystem F → ℕ
    asked none s = s.config.top_k
    asked (some n) s = n

    unfoldable pub retrieve :
        (List (ℕ × List F) → List (ℕ × List F))
        → Text
        → Option ℕ
        → RagSystem F
        → Result (RetrievedContext F)
    unfolding collected
    retrieve order query top_k s = generator.generate_embedding query >>= λ embedding.
        search floats order s.vector_store embedding (asked top_k s) >>= λ rs.
        ok (collected s rs Context.new)

  abbrev pub clear : RagSystem F → RagSystem F
  clear s = record s {
    documents = [];
    vector_store = Vectors.clear floats s.vector_store;
    document_id_counter = 0;
  }

  abbrev pub document_count : RagSystem F → ℕ
  document_count s = length s.documents
