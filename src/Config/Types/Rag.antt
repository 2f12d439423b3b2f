-- ===== src/Config/Types/Rag.antt =====
-- The retrieval of a configuration, crates/gola-core/src/config/types.rs. `F32` is `f32`, `V` a JSON value;
-- the defaults of floats are left out.
use gola.Prelude.{ℕ, Bool, Option, none, List, [], Text}
use gola.Rag.Cache.{EmbeddingCacheConfig}

pub data EmbeddingProvider : Type 0 where
  open_ai : EmbeddingProvider
  cohere : EmbeddingProvider
  hugging_face : EmbeddingProvider
  simple : EmbeddingProvider
  custom : Text → EmbeddingProvider

pub record EmbeddingAuth : Type 0 where
  pub api_key : Option Text
  pub api_key_env : Option Text

pub record EmbeddingConfig : Type 0 where
  pub provider : EmbeddingProvider
  pub model : Text
  pub dimension : ℕ
  pub batch_size : ℕ
  pub auth : EmbeddingAuth

pub data TextSplitterType : Type 0 where
  basic : TextSplitterType
  language : Text → TextSplitterType
  semantic : TextSplitterType

pub record TextProcessingConfig : Type 0 where
  pub chunk_size : ℕ
  pub chunk_overlap : ℕ
  pub splitter_type : TextSplitterType

pub data VectorStoreType : Type 0 where
  in_memory persistent : VectorStoreType

pub data PersistenceMode : Type 0 where
  create load create_or_load : PersistenceMode

pub record PersistenceConfig : Type 0 where
  pub system_path : Text
  pub vector_store_path : Text
  pub mode : PersistenceMode

pub record VectorStoreConfig : Type 0 where
  pub store_type : VectorStoreType
  pub persistence : Option PersistenceConfig

pub data DocumentSourceType : Type 0 where
  files : List Text → DocumentSourceType
  directory : Text → Bool → DocumentSourceType
  url : Text → DocumentSourceType
  inline : Text → Text → DocumentSourceType

pub record DocumentSourceConfig : Type 0 where
  pub include_extensions : List Text
  pub exclude_patterns : List Text
  pub metadata : List (Text × Text)

pub record DocumentSource : Type 0 where
  pub source_type : DocumentSourceType
  pub config : DocumentSourceConfig

pub record RetrievalConfig (F32 : Type 0) : Type 0 where
  pub top_k : ℕ
  pub similarity_threshold : F32
  pub enable_reranking : Bool
  pub reranker_model : Option Text

pub record RagSystemConfig (F32 : Type 0) : Type 0 where
  pub enabled : Bool
  pub embeddings : EmbeddingConfig
  pub text_processing : TextProcessingConfig
  pub vector_store : VectorStoreConfig
  pub document_sources : List DocumentSource
  pub retrieval : RetrievalConfig F32
  pub embedding_cache : EmbeddingCacheConfig

abbrev pub default_embedding_dimension : ℕ
default_embedding_dimension = 1536

abbrev pub default_batch_size : ℕ
default_batch_size = 100

abbrev pub default_chunk_size : ℕ
default_chunk_size = 1000

abbrev pub default_chunk_overlap : ℕ
default_chunk_overlap = 200

abbrev pub default_top_k : ℕ
default_top_k = 5

abbrev pub default_embedding_auth : EmbeddingAuth
default_embedding_auth = record { api_key = none; api_key_env = none }

abbrev pub default_text_processing_config : TextProcessingConfig
default_text_processing_config = record {
  chunk_size = default_chunk_size;
  chunk_overlap = default_chunk_overlap;
  splitter_type = TextSplitterType.basic;
}

abbrev pub default_text_splitter_type : TextSplitterType
default_text_splitter_type = TextSplitterType.basic

abbrev pub default_vector_store_config : VectorStoreConfig
default_vector_store_config = record { store_type = VectorStoreType.in_memory; persistence = none }

abbrev pub default_vector_store_type : VectorStoreType
default_vector_store_type = VectorStoreType.in_memory

abbrev pub default_persistence_mode : PersistenceMode
default_persistence_mode = PersistenceMode.create_or_load

abbrev pub default_document_source_config : DocumentSourceConfig
default_document_source_config = record {
  include_extensions = [];
  exclude_patterns = [];
  metadata = [];
}
