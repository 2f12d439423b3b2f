-- ===== src/Core/Types.antt =====
-- crates/gola-core/src/core_types.rs. `V` is `serde_json::Value`, which comes from a package.
use gola.Prelude.{ℕ, Bool, true, false, Option, List, Text}

pub data Role : Type 0 where
  system user assistant tool : Role

-- The derived `==` of `Role`.
abbrev pub same_role : Role → Role → Bool
same_role system system = true
same_role user user = true
same_role assistant assistant = true
same_role tool tool = true
same_role _ _ = false

pub record ToolCall (V : Type 0) : Type 0 where
  pub id : Option Text
  pub name : Text
  pub arguments : V

pub record Message (V : Type 0) : Type 0 where
  pub role : Role
  pub content : Text
  pub tool_call_id : Option Text
  pub tool_calls : Option (List (ToolCall V))

pub record Usage : Type 0 where
  pub prompt_tokens : ℕ
  pub completion_tokens : ℕ
  pub total_tokens : ℕ

pub record LlmResponse (V : Type 0) : Type 0 where
  pub content : Option Text
  pub tool_calls : Option (List (ToolCall V))
  pub finish_reason : Option Text
  pub usage : Option Usage

pub record Observation : Type 0 where
  pub tool_call_id : Option Text
  pub content : Text
  pub success : Bool

pub data HistoryStep (V : Type 0) : Type 0 where
  user_task : Text → HistoryStep V
  thought : Text → HistoryStep V
  action : ToolCall V → HistoryStep V
  observed : Observation → HistoryStep V
  llm_error : Text → HistoryStep V
  tool_error : Text → HistoryStep V
  executor_error : Text → HistoryStep V
