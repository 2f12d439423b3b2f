-- ===== src/Core/Errors.antt =====
-- crates/gola-core/src/errors.rs, and `Result<_, AgentError>` with the `?` operator.
use gola.Prelude.{Text, codes, ◌++◌}

pub data AgentError : Type 0 where
  llm_error : Text → AgentError
  tool_error : Text → Text → AgentError
  code_execution_error : Text → AgentError
  config_error : Text → AgentError
  parsing_error : Text → AgentError
  max_steps_reached : AgentError
  loop_detection : Text → AgentError
  mcp_error : Text → AgentError
  docker_error : Text → AgentError
  rag_error : Text → AgentError
  internal_error : Text → AgentError
  not_implemented : Text → AgentError
  io_error : Text → AgentError
  validation_error : Text → AgentError
  authorization_failed : Text → AgentError
  authorization_handler_error : Text → AgentError
  authorization_denied : Text → AgentError
  installer_error : Text → AgentError
  runtime_error : Text → AgentError

pub data Result {ℓ} (T : Type ℓ) : Type ℓ where
  err : AgentError → Result T
  ok : T → Result T

-- `?` and `and_then`: an error ends the chain.
infixl 10 ◌>>=◌
abbrev pub ◌>>=◌ {ℓ κ} : {T : Type ℓ} {U : Type κ} → Result T → (T → Result U) → Result U
err reason >>= next = err reason
ok value >>= next = next value

-- The `#[error]` formats.
unfoldable pub display : AgentError → Text
display (llm_error e) = codes "LLM interaction failed: " ++ e
display (tool_error name e) = codes "Tool execution failed for '" ++ name ++ codes "': " ++ e
display (code_execution_error e) = codes "Code execution failed: " ++ e
display (config_error e) = codes "Configuration error: " ++ e
display (parsing_error e) = codes "Parsing error: " ++ e
display max_steps_reached = codes "Maximum steps reached"
display (loop_detection e) = codes "Loop detection: " ++ e
display (mcp_error e) = codes "MCP client error: " ++ e
display (docker_error e) = codes "Docker operation failed: " ++ e
display (rag_error e) = codes "RAG operation failed: " ++ e
display (internal_error e) = codes "Internal error: " ++ e
display (not_implemented e) = codes "Not implemented: " ++ e
display (io_error e) = codes "I/O error: " ++ e
display (validation_error e) = codes "Validation error: " ++ e
display (authorization_failed e) = codes "Authorization failed: " ++ e
display (authorization_handler_error e) = codes "Authorization handler error " ++ e
display (authorization_denied e) = codes "Authorization denied error " ++ e
display (installer_error e) = codes "Installer error: " ++ e
display (runtime_error e) = codes "Runtime error: " ++ e
