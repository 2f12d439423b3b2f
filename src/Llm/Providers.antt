-- ===== src/Llm/Providers.antt =====
-- crates/gola-core/src/llm/providers: the services behind the trait `LLM`.
pub mod Anthropic
pub mod OpenAi
pub mod Gemini
