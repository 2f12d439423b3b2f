-- ===== src/Config/Types/Behavior.antt =====
-- The agent of a configuration, crates/gola-core/src/config/types.rs. `V` is a JSON value.
use gola.Prelude.{ℕ, Bool, true, false, Option, none, Text}
use gola.Config.Validation.{
  InputSchemaConfig, OutputSchemaConfig, SchemaValidationConfig, SchemaSource, SchemaSourceType,
}
use gola.Agent.Construction.{MemoryEvictionStrategy}

pub record MemoryPreserveStrategy : Type 0 where
  pub preserve_initial_task : Bool
  pub preserve_successful_observations : Bool
  pub preserve_errors : Bool
  pub preserve_recent_count : ℕ

pub record MemoryConfig : Type 0 where
  pub max_history_steps : ℕ
  pub eviction_strategy : MemoryEvictionStrategy
  pub preserve_strategy : MemoryPreserveStrategy
  pub min_recent_steps : ℕ

pub record AgentBehavior : Type 0 where
  pub verbose : Bool
  pub show_reasoning : Bool
  pub tool_timeout : ℕ
  pub continue_on_error : Bool
  pub memory : MemoryConfig

pub record SchemaConfig (V : Type 0) : Type 0 where
  pub enabled : Bool
  pub input : Option (InputSchemaConfig V)
  pub output : Option (OutputSchemaConfig V)
  pub validation : SchemaValidationConfig

pub record AgentDefinition (V : Type 0) : Type 0 where
  pub name : Text
  pub description : Text
  pub max_steps : ℕ
  pub schema : SchemaConfig V
  pub behavior : AgentBehavior

abbrev pub default_max_steps : ℕ
default_max_steps = 40

abbrev pub default_tool_timeout : ℕ
default_tool_timeout = 30

abbrev pub default_continue_on_error : Bool
default_continue_on_error = true

abbrev pub default_validation_attempts : ℕ
default_validation_attempts = 3

abbrev pub default_max_history_steps : ℕ
default_max_history_steps = 50000

abbrev pub default_min_recent_steps : ℕ
default_min_recent_steps = 20

abbrev pub default_preserve_recent_count : ℕ
default_preserve_recent_count = 5

abbrev pub default_schema_validation_config : SchemaValidationConfig
default_schema_validation_config = record {
  log_errors = true;
  include_schema_in_errors = false;
  max_validation_attempts = default_validation_attempts;
  validate_intermediate_steps = false;
}

abbrev pub default_schema_config : {V : Type 0} → SchemaConfig V
default_schema_config = record {
  enabled = false;
  input = none;
  output = none;
  validation = default_schema_validation_config;
}

abbrev pub default_schema_source : SchemaSource
default_schema_source = record {
  source_type = SchemaSourceType.inline;
  location = none;
  version = none;
  description = none;
}

abbrev pub default_schema_source_type : SchemaSourceType
default_schema_source_type = SchemaSourceType.inline

abbrev pub default_memory_eviction_strategy : MemoryEvictionStrategy
default_memory_eviction_strategy = MemoryEvictionStrategy.intelligent

abbrev pub default_memory_preserve_strategy : MemoryPreserveStrategy
default_memory_preserve_strategy = record {
  preserve_initial_task = true;
  preserve_successful_observations = false;
  preserve_errors = false;
  preserve_recent_count = default_preserve_recent_count;
}

abbrev pub default_memory_config : MemoryConfig
default_memory_config = record {
  max_history_steps = default_max_history_steps;
  eviction_strategy = MemoryEvictionStrategy.summarize;
  preserve_strategy = default_memory_preserve_strategy;
  min_recent_steps = default_min_recent_steps;
}

abbrev pub default_agent_behavior : AgentBehavior
default_agent_behavior = record {
  verbose = false;
  show_reasoning = false;
  tool_timeout = default_tool_timeout;
  continue_on_error = default_continue_on_error;
  memory = default_memory_config;
}
