-- ===== src/Config/Types.antt =====
-- The configuration of an agent, crates/gola-core/src/config/types.rs.
pub mod Prompts
pub mod Llm
pub mod Behavior
pub mod Rag
pub mod Mcp
pub mod Tools
use gola.Prelude.{Option, List, Text}
use gola.Config.Types.Prompts.{PromptConfig}
use gola.Config.Types.Llm.{LlmConfig}
use gola.Config.Types.Behavior.{AgentDefinition}
use gola.Config.Types.Rag.{RagSystemConfig}
use gola.Config.Types.Mcp.{McpServerConfig}
use gola.Config.Types.Tools.{ToolsConfig, EnvironmentConfig, LoggingConfig, TracingConfig}

pub record GolaConfig (V : Type 0) (F32 : Type 0) : Type 0 where
  pub agent : AgentDefinition V
  pub llm : Option (LlmConfig V F32)
  pub prompts : Option PromptConfig
  pub rag : Option (RagSystemConfig F32)
  pub mcp_servers : List McpServerConfig
  pub tools : ToolsConfig
  pub environment : EnvironmentConfig
  pub logging : LoggingConfig
  pub tracing : TracingConfig

pub data ConfigSourceType : Type 0 where
  file url github : ConfigSourceType

pub record GitHubRef : Type 0 where
  pub owner : Text
  pub repo : Text
  pub git_ref : Text
  pub config_path : Text
