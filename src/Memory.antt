-- ===== src/Memory.antt =====
-- crates/gola-core/src/memory: what an agent remembers of a conversation.
pub mod Context
pub mod Window
pub mod Summary
pub mod SummaryBuffer
pub mod Orphans
pub mod Prompt
