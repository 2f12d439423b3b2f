-- ===== src/Config/Types/Mcp.antt =====
-- The MCP servers of a configuration, crates/gola-core/src/config/types.rs.
use gola.Prelude.{ℕ, Bool, true, false, Option, none, List, [], ◌∷◌, Text, codes}

pub data DockerRegistryType : Type 0 where
  github_container_registry docker_hub custom : DockerRegistryType

pub record DockerRegistryConfig : Type 0 where
  pub registry_type : DockerRegistryType
  pub custom_url : Option Text

pub record SourceBuildConfig : Type 0 where
  pub repository : Text
  pub git_ref : Option Text
  pub build_image : Text
  pub build_command : Text
  pub binary_path : Text
  pub build_env : List (Text × Text)

pub record BinaryInstallationConfig : Type 0 where
  pub github_org : Text
  pub github_repo : Text
  pub asset_pattern : Option Text
  pub version : Option Text
  pub fallback_to_docker : Bool
  pub fallback_to_source : Bool
  pub docker_registries : List DockerRegistryConfig
  pub source_config : Option SourceBuildConfig

pub data BinarySource : Type 0 where
  docker : Text → Text → Text → BinarySource
  github : Text → Text → BinarySource

pub record BinaryConfig : Type 0 where
  pub name : Text
  pub source : BinarySource

pub record McpCommand : Type 0 where
  pub run : Text
  pub args : List Text
  pub env : List (Text × Text)
  pub working_dir : Option Text
  pub token_limit : ℕ

pub data McpExecutionType : Type 0 where
  command : McpCommand → McpExecutionType
  runtime : Text → Text → List Text → List (Text × Text) → Option Text → McpExecutionType
  native_binary :
      Text
      → BinaryInstallationConfig
      → List Text
      → List (Text × Text)
      → Option Text
      → McpExecutionType

pub data McpExecutionEnvironment : Type 0 where
  host : Text → Text → List Text → List (Text × Text) → Option Text → McpExecutionEnvironment
  local : Text → Text → List Text → List (Text × Text) → Option Text → McpExecutionEnvironment
  container :
      Text
      → Text
      → Text
      → List Text
      → List (Text × Text)
      → Option Text
      → List Text
      → McpExecutionEnvironment

pub data ToolFilter : Type 0 where
  all : ToolFilter
  include : List Text → ToolFilter
  exclude : List Text → ToolFilter
  pattern : Text → ToolFilter

pub record McpServerConfig : Type 0 where
  pub name : Text
  pub command : Option McpCommand
  pub tools : ToolFilter
  pub timeout : ℕ
  pub enabled : Bool
  pub description_token_limit : ℕ
  pub execution_type : Option McpExecutionType
  pub execution_environment : Option McpExecutionEnvironment

abbrev pub default_container_tag : Text
default_container_tag = codes "latest"

abbrev pub default_mcp_timeout : ℕ
default_mcp_timeout = 30

abbrev pub default_mcp_description_token_limit : ℕ
default_mcp_description_token_limit = 50

abbrev pub default_mcp_token_limit : ℕ
default_mcp_token_limit = 2000

abbrev pub default_mcp_execution_type : McpExecutionType
default_mcp_execution_type =
    McpExecutionType.command
      (record { run = []; args = []; env = []; working_dir = none; token_limit = 0 })

abbrev pub default_mcp_execution_environment : McpExecutionEnvironment
default_mcp_execution_environment = host (codes "python") [] [] [] none

abbrev pub default_binary_installation_config : BinaryInstallationConfig
default_binary_installation_config = record {
  github_org = [];
  github_repo = [];
  asset_pattern = none;
  version = none;
  fallback_to_docker = true;
  fallback_to_source = false;
  docker_registries =
      record { registry_type = github_container_registry; custom_url = none }
      ∷ record { registry_type = docker_hub; custom_url = none }
      ∷ [];
  source_config = none;
}

abbrev pub default_tool_filter : ToolFilter
default_tool_filter = ToolFilter.all
