-- ===== src/Llm.antt =====
-- crates/gola-core/src/llm: what stands between the agent and a language model.
pub mod Model
pub mod Recovery
pub mod Truncation
pub mod Validator
pub mod Providers
