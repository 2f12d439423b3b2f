-- ===== src/Rag/Context.antt =====
-- The documents and the retrieved context of crates/gola-core/src/rag/mod.rs. `F` is `f32`, the type
-- of scores.
use gola.Prelude.{
  ℕ, suc, ◌+◌, Option, none, some, List, [], ◌∷◌, ◌++◌, is_empty, Text, codes, decimal,
  if◌then◌else◌,
}

pub record RagDocument : Type 0 where
  pub content : Text
  pub metadata : List (Text × Text)
  pub source : Text
  pub chunk_index : Option ℕ

abbrev pub new_document : Text → Text → RagDocument
new_document content source = record {
  content = content;
  metadata = [];
  source = source;
  chunk_index = none;
}

abbrev pub with_metadata : RagDocument → List (Text × Text) → RagDocument
with_metadata d metadata = record d { metadata = metadata }

abbrev pub with_chunk_index : RagDocument → ℕ → RagDocument
with_chunk_index d i = record d { chunk_index = some i }

pub record RetrievedContext (F : Type 0) : Type 0 where
  pub documents : List RagDocument
  pub sources : List Text
  pub scores : List F

-- The entries of `zip`, which ends with the shorter vector.
unfoldable pub format_entries : ℕ → List RagDocument → List Text → Text
format_entries i (d ∷ ds) (s ∷ ss) =
    codes "Source "
    ++ decimal (i + 1)
    ++ codes ": "
    ++ s
    ++ codes "\nContent: "
    ++ d.content
    ++ codes "\n\n"
    ++ format_entries (suc i) ds ss
format_entries i _ _ = []

module _ {F : Type 0} where
  abbrev pub new : RetrievedContext F
  new = record { documents = []; sources = []; scores = [] }

  abbrev pub add_document : RetrievedContext F → RagDocument → Text → F → RetrievedContext F
  add_document c d source score = record {
    documents = c.documents ++ d ∷ [];
    sources = c.sources ++ source ∷ [];
    scores = c.scores ++ score ∷ [];
  }

  unfoldable pub format_for_llm : RetrievedContext F → Text
  unfolding format_entries
  format_for_llm c =
      if is_empty c.documents
      then codes "No relevant context found."
      else codes "Retrieved Context:\n\n" ++ format_entries 0 c.documents c.sources
