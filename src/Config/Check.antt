-- ===== src/Config/Check.antt =====
-- `GolaConfig::validate` of crates/gola-core/src/config/types.rs. The package jsonschema is a parameter.
pub mod Accepts
use gola.Prelude.{
  ℕ, Bool, true, false, not, Option, none, some, List, [], ◌∷◌, ◌++◌, is_empty, Text, codes, ◌==◌,
  ◌⊎◌, inl, inr, if◌then◌else◌,
}
use gola.Core.Errors.{config_error, Result, ok, err, ◌>>=◌}
use gola.Config.Validation.{JsonSchema, InputSchemaConfig, OutputSchemaConfig}
use gola.Config.Types.{GolaConfig}
use gola.Config.Types.Llm.{LlmConfig}
use gola.Config.Types.Rag.{RagSystemConfig}
use gola.Config.Types.Mcp.{
  McpServerConfig, McpCommand, McpExecutionType, McpExecutionEnvironment, host, local, container,
}
use gola.Config.Types.Behavior.{SchemaConfig}

-- `if test { return Err(…) }`
abbrev pub refuse_if : Bool → Text → Result (Unit {0})
refuse_if true message = err (config_error message)
refuse_if false message = ok tt

infixr 5 ◌and_also◌
abbrev pub ◌and_also◌ : Result (Unit {0}) → Result (Unit {0}) → Result (Unit {0})
m and_also k = m >>= λ _. k

abbrev pub quoted : Text → Text → Text
quoted server_name rest = codes "MCP server '" ++ server_name ++ codes "' " ++ rest

unfoldable pub validate_execution_environment : McpExecutionEnvironment → Text → Result (Unit {0})
validate_execution_environment (host runtime entry_point args env dir) server_name =
    refuse_if (is_empty runtime) (quoted server_name (codes "runtime cannot be empty"))
    and_also refuse_if (is_empty entry_point)
        (quoted server_name (codes "entry_point cannot be empty"))
validate_execution_environment (local runtime entry_point args env dir) server_name =
    refuse_if (is_empty runtime) (quoted server_name (codes "runtime cannot be empty"))
    and_also refuse_if (is_empty entry_point)
        (quoted server_name (codes "entry_point cannot be empty"))
validate_execution_environment (container image tag entry_point args env dir volumes) server_name =
    refuse_if (is_empty image) (quoted server_name (codes "container image cannot be empty"))
    and_also refuse_if (is_empty entry_point)
        (quoted server_name (codes "entry_point cannot be empty"))

-- The three formats: the command, the type and the environment of execution.
unfoldable pub validate_format :
    Text
    → Option McpCommand
    → Option McpExecutionType
    → Option McpExecutionEnvironment
    → Result (Unit {0})
unfolding validate_execution_environment
validate_format name none none (some exec_env) = validate_execution_environment exec_env name
validate_format name (some cmd) none none =
    refuse_if (is_empty cmd.run) (codes "MCP server command cannot be empty")
validate_format name none (some t) none = ok tt
validate_format name (some c) (some t) e = err (
    config_error (
      quoted name
        (codes "has both legacy 'command' and 'execution_type' fields. Use only one format.")))
validate_format name (some c) none (some e) = err (
    config_error (
      quoted name (
        codes
          "has both legacy 'command' and new 'execution_environment' fields. Use only one format.")))
validate_format name none (some t) (some e) = err (
    config_error (
      quoted name (
        codes
          "has both 'execution_type' and 'execution_environment' fields. Use only one format.")))
validate_format name none none none = err (
    config_error (
      quoted name (
        codes
          "must have one of: 'command' (legacy), 'execution_type' (modern), or 'execution_environment' (new) field.")))

unfoldable pub validate_server : McpServerConfig → Result (Unit {0})
unfolding validate_format
validate_server server =
    refuse_if (is_empty server.name) (codes "MCP server name cannot be empty")
    and_also validate_format server.name server.command server.execution_type
        server.execution_environment

unfoldable pub validate_servers : List McpServerConfig → Result (Unit {0})
unfolding validate_server
validate_servers [] = ok tt
validate_servers (server ∷ servers) = validate_server server and_also validate_servers servers

module _ {V F32 : Type 0} where
  unfoldable pub validate_llm : Option (LlmConfig V F32) → Result (Unit {0})
  validate_llm none = ok tt
  validate_llm (some llm_config) =
      refuse_if (is_empty llm_config.model) (codes "LLM model cannot be empty")

module _ {F32 : Type 0} where
  unfoldable pub validate_rag : Option (RagSystemConfig F32) → Result (Unit {0})
  validate_rag none = ok tt
  validate_rag (some rag) =
      if rag.enabled
      then refuse_if (is_empty rag.embeddings.model) (codes "RAG embedding model cannot be empty")
        and_also refuse_if (rag.text_processing.chunk_size == 0)
            (codes "RAG chunk size must be greater than 0")
        and_also refuse_if (rag.retrieval.top_k == 0) (codes "RAG top_k must be greater than 0")
      else ok tt

module _ {V S : Type 0} (schemas : JsonSchema V S) where
  abbrev pub compiles : Text → Text ⊎ S → Result (Unit {0})
  compiles message (inl e) = err (config_error (message ++ e))
  compiles message (inr s) = ok tt

  abbrev pub validate_input_schema : Option (InputSchemaConfig V) → Result (Unit {0})
  validate_input_schema none = ok tt
  validate_input_schema (some c) =
      compiles (codes "Invalid input JSON schema: ") (schemas.compile c.schema)

  abbrev pub validate_output_schema : Option (OutputSchemaConfig V) → Result (Unit {0})
  validate_output_schema none = ok tt
  validate_output_schema (some c) =
      compiles (codes "Invalid output JSON schema: ") (schemas.compile c.schema)

  unfoldable pub validate_schema : SchemaConfig V → Result (Unit {0})
  validate_schema schema =
      if schema.enabled
      then validate_input_schema schema.input
        and_also validate_output_schema schema.output
        and_also refuse_if (schema.validation.max_validation_attempts == 0)
            (codes "Schema validation max_validation_attempts must be greater than 0")
      else ok tt

  unfoldable pub validate : {F32 : Type 0} → GolaConfig V F32 → Result (Unit {0})
  unfolding validate_llm validate_rag validate_servers validate_schema
  validate c =
      refuse_if (is_empty c.agent.name) (codes "Agent name cannot be empty")
      and_also refuse_if (c.agent.max_steps == 0) (codes "Agent max_steps must be greater than 0")
      and_also validate_llm c.llm
      and_also validate_rag c.rag
      and_also validate_servers c.mcp_servers
      and_also validate_schema c.agent.schema
