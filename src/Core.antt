-- ===== src/Core.antt =====
-- The shared types of the agent: messages, tool calls and errors.
pub mod Types
pub mod Action
pub mod Errors
