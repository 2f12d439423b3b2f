-- ===== src/Tests/Defaults.antt =====
-- Tests of crates/gola-core/src/config: the check of a configuration and its defaults. A JSON value is a
-- number, and its schema is compiled when it is not zero.
use gola.Prelude.{
  ℕ, zero, suc, ◌≡◌, ◌↔◌, refl, true, false, none, some, List, [], ◌∷◌, Text, codes, same, sort_by,
  inl, inr,
}
use mathlib.Core.List.{reverse}
use gola.Core.Errors.{ok, err, config_error}
use gola.Config.Validation.{JsonSchema}
use gola.Config.Types.{GolaConfig}
use gola.Config.Types.Behavior.{default_agent_behavior, default_schema_config, default_max_steps}
use gola.Config.Types.Mcp.{
  McpServerConfig, default_tool_filter, default_mcp_timeout, default_mcp_description_token_limit,
}
use gola.Config.Types.Tools.{
  default_tools_config, default_environment_config, default_logging_config, default_tracing_config,
}
use gola.Config.Check.{
  validate, validate_llm, validate_rag, validate_servers, validate_server, validate_format,
  validate_schema,
}
use gola.Config.Check.Accepts.{IsAccepted, validate_iff}
use gola.Config.Defaults.{
  DefaultsContext, DefaultProvider, DefaultPriority, hardcoded, profile, get_best_defaults, new,
  with_explicit_config, register_provider, register, build, provided,
}
use gola.Config.Defaults.Merge.{
  gola_config_merge, merge_with_defaults, merge_each, merge_default, merge_llm,
}
use gola.Config.Defaults.Merge.Picked.{picked, merge_with_defaults-picked}
use gola.Config.Defaults.Highest.{IsBest, register_all, get_best_defaults-register_all}

abbrev schemas : JsonSchema ℕ ℕ
schemas = record {
  compile = λ v. elim v [ zero ↦ inl (codes "empty") | suc n ↦ inr n ];
  validate = λ s v. none;
}

abbrev Config : Type 0
Config = GolaConfig ℕ ℕ

abbrev config : Text → Config
config name = record {
  agent = record {
    name = name;
    description = [];
    max_steps = default_max_steps;
    schema = default_schema_config;
    behavior = default_agent_behavior;
  };
  llm = none;
  prompts = none;
  rag = none;
  mcp_servers = [];
  tools = default_tools_config;
  environment = default_environment_config;
  logging = default_logging_config;
  tracing = default_tracing_config;
}

abbrev file_server : Text → McpServerConfig
file_server run = record {
  name = codes "files";
  command =
      some (record { run = run; args = []; env = []; working_dir = none; token_limit = 2000 });
  tools = default_tool_filter;
  timeout = default_mcp_timeout;
  enabled = true;
  description_token_limit = default_mcp_description_token_limit;
  execution_type = none;
  execution_environment = none;
}

abbrev with_server : Text → Config
with_server run = record (config (codes "helper")) { mcp_servers = file_server run ∷ [] }

accepts : validate schemas (with_server (codes "npx")) ≡ ok tt
unfolding validate validate_llm validate_rag validate_servers validate_server validate_format
    validate_schema
accepts = refl

refuses :
    validate schemas (with_server [])
    ≡ err (config_error (codes "MCP server command cannot be empty"))
unfolding validate validate_llm validate_rag validate_servers validate_server validate_format
    validate_schema
refuses = refl

validate_iff_example :
    (validate schemas (with_server (codes "npx")) ≡ ok tt)
    ↔ IsAccepted schemas (with_server (codes "npx"))
validate_iff_example = validate_iff schemas (with_server (codes "npx"))

abbrev context : DefaultsContext
context = record {
  working_dir = codes "/work";
  environment = none;
  project_info = record {
    is_rust_project = true;
    is_node_project = false;
    is_python_project = false;
    project_name = none;
    git_info = none;
  };
  env_vars = [];
  active_profile = none;
}

abbrev provider : DefaultPriority → Text → DefaultProvider Config
provider priority name = record {
  priority = priority;
  can_provide = λ c. c.project_info.is_rust_project;
  provide_defaults = λ c. ok (config name);
  description = name;
}

abbrev providers : List (DefaultProvider Config)
providers = provider hardcoded (codes "low") ∷ provider profile (codes "high") ∷ []

best : get_best_defaults (register_all [] providers) context ≡ ok (some (config (codes "high")))
unfolding get_best_defaults register_all register sort_by
best = refl

get_best_defaults-register_all_example :
    IsBest context providers (get_best_defaults (register_all [] providers) context)
get_best_defaults-register_all_example = get_best_defaults-register_all context providers

merge_with_defaults-picked_example :
    merge_with_defaults (config []) (config (codes "high") ∷ config (codes "low") ∷ [])
    ≡ ok (picked (config []) (reverse (config (codes "high") ∷ config (codes "low") ∷ [])))
merge_with_defaults-picked_example =
    merge_with_defaults-picked (config []) (config (codes "high") ∷ config (codes "low") ∷ [])

-- The default of the lowest priority is the one kept.
keeps_lowest :
    build gola_config_merge
      (with_explicit_config
        (register_provider
          (register_provider new (provider hardcoded (codes "low")))
          (provider profile (codes "high")))
        (config []))
      context
    ≡ ok (config (codes "low"))
unfolding build with_explicit_config register_provider register provided merge_with_defaults
    merge_each merge_default merge_llm sort_by same
keeps_lowest = refl
