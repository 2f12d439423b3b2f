-- ===== src/Config/Types/Tools.antt =====
-- The tools, the environment, the log and the trace of a configuration, crates/gola-core/src/config/types.rs.
use gola.Prelude.{ℕ, Bool, true, false, Option, none, List, [], Text, codes}

pub data WebSearchProvider : Type 0 where
  duckduckgo tavily serper : WebSearchProvider

pub record WebSearchAuth : Type 0 where
  pub api_key : Option Text
  pub api_key_env : Option Text

pub record WebSearchConfig : Type 0 where
  pub enabled : Bool
  pub provider : WebSearchProvider
  pub auth : WebSearchAuth
  pub max_results : ℕ

pub data CodeExecutionBackend : Type 0 where
  docker local : CodeExecutionBackend

pub record CodeExecutionConfig : Type 0 where
  pub enabled : Bool
  pub backend : CodeExecutionBackend
  pub timeout : ℕ
  pub allowed_languages : List Text

pub record ToolsConfig : Type 0 where
  pub calculator : Bool
  pub web_search : Option WebSearchConfig
  pub code_execution : Option CodeExecutionConfig

pub record EnvironmentConfig : Type 0 where
  pub variables : List (Text × Text)
  pub env_files : List Text
  pub load_system_env : Bool

pub record LoggingConfig : Type 0 where
  pub level : Text
  pub format : Text
  pub file : Option Text
  pub colored : Bool

pub record TracingConfig : Type 0 where
  pub enabled : Bool
  pub trace_file : Text
  pub model_provider : Text

abbrev pub default_tracing_trace_file : Text
default_tracing_trace_file = codes "tracing_trace.jsonl"

abbrev pub default_tracing_model_provider : Text
default_tracing_model_provider = codes "default"

abbrev pub default_true : Bool
default_true = true

abbrev pub default_max_search_results : ℕ
default_max_search_results = 5

abbrev pub default_code_timeout : ℕ
default_code_timeout = 60

abbrev pub default_log_level : Text
default_log_level = codes "info"

abbrev pub default_log_format : Text
default_log_format = codes "pretty"

abbrev pub default_tracing_config : TracingConfig
default_tracing_config = record {
  enabled = false;
  trace_file = default_tracing_trace_file;
  model_provider = default_tracing_model_provider;
}

abbrev pub default_tools_config : ToolsConfig
default_tools_config = record { calculator = true; web_search = none; code_execution = none }

abbrev pub default_web_search_provider : WebSearchProvider
default_web_search_provider = WebSearchProvider.duckduckgo

abbrev pub default_web_search_auth : WebSearchAuth
default_web_search_auth = record { api_key = none; api_key_env = none }

abbrev pub default_code_execution_backend : CodeExecutionBackend
default_code_execution_backend = CodeExecutionBackend.docker

abbrev pub default_environment_config : EnvironmentConfig
default_environment_config = record { variables = []; env_files = []; load_system_env = true }

abbrev pub default_logging_config : LoggingConfig
default_logging_config = record {
  level = default_log_level;
  format = default_log_format;
  file = none;
  colored = true;
}
