-- ===== src/Config/Types/Prompts.antt =====
-- The prompts of a configuration, crates/gola-core/src/config/types.rs.
use gola.Prelude.{Option, List, Text}

pub data PromptSource : Type 0 where
  fragment : Text → PromptSource
  file : Text → PromptSource

pub record RolePrompts : Type 0 where
  pub system : Option (List PromptSource)
  pub assembled : Option Text

pub record PurposePrompt : Type 0 where
  pub role : Text
  pub assembly : Option (List PromptSource)

pub record PromptConfig : Type 0 where
  pub template_vars : Option (List (Text × Text))
  pub fragments : Option (List (Text × Text))
  pub roles : Option RolePrompts
  pub purposes : Option (List (Text × PurposePrompt))
