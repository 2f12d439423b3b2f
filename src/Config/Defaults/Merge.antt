-- ===== src/Config/Defaults/Merge.antt =====
-- The merge of a configuration with the defaults, `merge_with_defaults` of
-- crates/gola-core/src/config/defaults/traits.rs.
pub mod Picked
use mathlib.Core.List.{reverse}
use gola.Prelude.{
  ℕ, Bool, true, false, not, ◌&&◌, Option, none, some, List, [], ◌∷◌, is_empty, Text, codes, same,
  ◌==◌, if◌then◌else◌,
}
use gola.Core.Errors.{Result, ok}
use gola.Config.Types.{GolaConfig}
use gola.Config.Types.Llm.{LlmConfig, LlmProvider, open_ai}
use gola.Config.Types.Behavior.{AgentDefinition}
use gola.Config.Types.Tools.{EnvironmentConfig, LoggingConfig, TracingConfig}
use gola.Config.Defaults.{ConfigMerge}

abbrev pub is_open_ai : LlmProvider → Bool
is_open_ai open_ai = true
is_open_ai _ = false

abbrev pub is_none : {A : Type 0} → Option A → Bool
is_none none = true
is_none (some a) = false

-- `if is_unset(self.x) { self.x = default.x }`
abbrev pub unless_set : {A : Type 0} → (A → Bool) → A → A → A
unless_set is_unset current default_value = if is_unset current then default_value else current

abbrev pub is_default_steps : ℕ → Bool
is_default_steps n = n == 10

abbrev pub is_default_environment : EnvironmentConfig → Bool
is_default_environment e = is_empty e.variables && is_empty e.env_files

abbrev pub is_default_logging : LoggingConfig → Bool
is_default_logging l = same l.level (codes "info") && same l.format (codes "pretty")

abbrev pub is_off : TracingConfig → Bool
is_off t = not t.enabled

abbrev pub merge_agent : {V : Type 0} → AgentDefinition V → AgentDefinition V → AgentDefinition V
merge_agent a d = record a {
  name = unless_set is_empty a.name d.name;
  description = unless_set is_empty a.description d.description;
  max_steps = unless_set is_default_steps a.max_steps d.max_steps;
}

module _ {V F32 : Type 0} where
  unfoldable pub is_default_llm : LlmConfig V F32 → Bool
  is_default_llm l = is_open_ai l.provider && same l.model (codes "gpt-4.1-mini")

  unfoldable pub merge_llm :
      Option (LlmConfig V F32) → Option (LlmConfig V F32) → Option (LlmConfig V F32)
  unfolding is_default_llm
  merge_llm none default_llm = default_llm
  merge_llm (some current_llm) none = some current_llm
  merge_llm (some current_llm) (some default_llm) =
      if is_default_llm current_llm then some default_llm else some current_llm

  unfoldable pub merge_default : GolaConfig V F32 → GolaConfig V F32 → GolaConfig V F32
  unfolding merge_llm
  merge_default c d = record {
    agent = merge_agent c.agent d.agent;
    llm = merge_llm c.llm d.llm;
    prompts = unless_set is_none c.prompts d.prompts;
    rag = unless_set is_none c.rag d.rag;
    mcp_servers = unless_set is_empty c.mcp_servers d.mcp_servers;
    tools = c.tools;
    environment = unless_set is_default_environment c.environment d.environment;
    logging = unless_set is_default_logging c.logging d.logging;
    tracing = unless_set is_off c.tracing d.tracing;
  }

  unfoldable pub merge_each : GolaConfig V F32 → List (GolaConfig V F32) → GolaConfig V F32
  unfolding merge_default
  merge_each c [] = c
  merge_each c (d ∷ ds) = merge_each (merge_default c d) ds

  unfoldable pub merge_with_defaults :
      GolaConfig V F32 → List (GolaConfig V F32) → Result (GolaConfig V F32)
  unfolding merge_each
  merge_with_defaults c defaults = ok (merge_each c (reverse defaults))

  abbrev pub gola_config_merge : ConfigMerge (GolaConfig V F32)
  gola_config_merge = record { merge_with_defaults = merge_with_defaults }
