-- ===== src/Control.antt =====
-- The tools of the control plane, crates/gola-core/src/tools/control_plane: assistant_done.rs, report_progress.rs
-- and server.rs. `F` is `f64`, which the tools only pass on; the schemas are JSON values.
pub mod Calls
pub mod Done
pub mod Progress
use gola.Prelude.{
  ℕ, Bool, true, false, Option, none, some, List, [], ◌∷◌, ◌++◌, length, is_empty, ltb, Text, codes,
  if◌then◌else◌, ◌⊎◌, inl, inr,
}
use gola.Core.Errors.{AgentError, tool_error, Result, ok, err, ◌>>=◌}
use gola.Agent.World.{Tool}

pub data CompletionStatus : Type 0 where
  success partial_success error user_abort : CompletionStatus

pub data ProgressReason : Type 0 where
  awaiting_input pending_choice need_clarification response_complete results_displayed :
      ProgressReason

pub record AssistantDoneParams (F : Type 0) : Type 0 where
  pub summary : Text
  pub final_artifact_id : Option Text
  pub metrics : Option (List (Text × F))
  pub status : CompletionStatus

pub record AssistantDoneResponse (F : Type 0) : Type 0 where
  pub status : CompletionStatus
  pub summary : Text
  pub final_artifact_id : Option Text
  pub metrics : Option (List (Text × F))
  pub completed_at : Text
  pub is_completion : Bool

pub record ReportProgressParams : Type 0 where
  pub reason : ProgressReason
  pub context : Option Text

pub record ReportProgressResponse : Type 0 where
  pub reason : ProgressReason
  pub context : Option Text
  pub is_progress_report : Bool

-- The derived conversions of `serde_json`, each with the text of its error: `from_value` of the
-- parameters, `to_string` of the responses. `now` is the clock, as text.
pub record Serde (V F : Type 0) : Type 0 where
  pub done_params : V → Text ⊎ AssistantDoneParams F
  pub done_text : AssistantDoneResponse F → Text ⊎ Text
  pub progress_params : V → Text ⊎ ReportProgressParams
  pub progress_text : ReportProgressResponse → Text ⊎ Text
  pub now : Text
  pub done_schema : V
  pub progress_schema : V

-- `map_err`
abbrev pub or_tool_error : {A : Type 0} → Text → Text → Text ⊎ A → Result A
or_tool_error name message (inl e) = err (tool_error name (message ++ e))
or_tool_error name message (inr a) = ok a

module _ {F : Type 0} where
  unfoldable pub validate_params : (Text → Text) → AssistantDoneParams F → Result (Unit {0})
  validate_params trim params =
      if is_empty (trim params.summary)
      then err (tool_error (codes "assistant_done") (codes "Summary cannot be empty"))
      else if ltb (length params.summary) 10
      then err
          (tool_error (codes "assistant_done") (codes "Summary too short (minimum 10 characters)"))
      else if ltb 1000 (length params.summary)
      then err
          (tool_error (codes "assistant_done") (codes "Summary too long (maximum 1000 characters)"))
      else ok tt

  abbrev pub completion : Text → AssistantDoneParams F → AssistantDoneResponse F
  completion now params = record {
    status = params.status;
    summary = params.summary;
    final_artifact_id = params.final_artifact_id;
    metrics = params.metrics;
    completed_at = now;
    is_completion = true;
  }

abbrev pub progress : ReportProgressParams → ReportProgressResponse
progress params = record {
  reason = params.reason;
  context = params.context;
  is_progress_report = true;
}

module _ {V F : Type 0} (serde : Serde V F) where
  unfoldable pub finish : (Text → Text) → V → Result Text
  unfolding validate_params
  finish trim arguments =
      or_tool_error (codes "assistant_done") (codes "Invalid parameters: ")
        (serde.done_params arguments)
      >>= λ params. validate_params trim params >>= λ valid.
          or_tool_error (codes "assistant_done") (codes "Failed to serialize response: ")
            (serde.done_text (completion serde.now params))

  unfoldable pub report : V → Result Text
  report arguments =
      or_tool_error (codes "report_progress") (codes "Invalid parameters: ")
        (serde.progress_params arguments)
      >>= λ params.
          or_tool_error (codes "report_progress") (codes "Failed to serialize response: ")
            (serde.progress_text (progress params))

  abbrev pub assistant_done : (Text → Text) → Tool V
  assistant_done trim = record {
    metadata = record {
      name = codes "assistant_done";
      description = codes "Mark the current task or conversation as complete.";
      input_schema = serde.done_schema;
    };
    execute = λ log arguments. finish trim arguments;
  }

  abbrev pub report_progress : Tool V
  report_progress = record {
    metadata = record {
      name = codes "report_progress";
      description = codes "Report current progress or status to the user interface.";
      input_schema = serde.progress_schema;
    };
    execute = λ log arguments. report arguments;
  }

  -- `ControlPlaneServer::new`
  abbrev pub server : (Text → Text) → List (Text × Tool V)
  server trim =
      (codes "assistant_done", assistant_done trim)
      ∷ (codes "report_progress", report_progress)
      ∷ []
