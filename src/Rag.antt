-- ===== src/Rag.antt =====
-- crates/gola-core/src/rag: retrieval of documents.
pub mod Cache
pub mod Splitter
pub mod Context
pub mod Vectors
pub mod System
pub mod Cached
