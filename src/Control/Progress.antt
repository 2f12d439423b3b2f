-- ===== src/Control/Progress.antt =====
-- The tool report_progress of crates/gola-core/src/tools/control_plane and what
-- crates/gola-core/src/agent.rs makes of it.
use gola.Prelude.{
  ℕ, ◌≡◌, refl, ap, ◌∙◌, false, Option, none, List, [], ◌∷◌, ◌++◌, inr, Text, codes, arith, same,
  lookup, text_key,
}
use gola.Core.Types.{ToolCall, Observation, action}
use gola.Core.Errors.{ok}
use gola.Loops.{is_problematic}
use gola.Agent.{Agent, remembered}
use gola.Agent.World.{World, Run}
use gola.Agent.Tools.{add_step}
use gola.Agent.Dispatch.{run_control, control_content}
use gola.Agent.Step.{ending_of, execute_calls}
use gola.Control.Calls.{detected, told, after, go_on, execute_calls-control}
use gola.Control.{ReportProgressParams, Serde, progress, report, server}

module _ {V M F : Type 0} (w : World V M) (serde : Serde V F) (id : Option Text)
    (arguments : V) where
  abbrev pub progress_call : ToolCall V
  progress_call = record { id = id; name = codes "report_progress"; arguments = arguments }

  run_control-progress :
      (runs : List (Run V)) (params : ReportProgressParams) (text : Text)
      → w.control_tools ≡ server serde w.trim
      → serde.progress_params arguments ≡ inr params
      → serde.progress_text (progress params) ≡ inr text
      → run_control w
          (codes "report_progress")
          arguments
          (lookup (codes "report_progress") w.control_tools)
          runs
        ≡ ok text
  unfolding run_control lookup same report
  run_control-progress runs params text c p t =
      ap
        (λ ts.
          run_control w (codes "report_progress") arguments (lookup (codes "report_progress") ts)
            runs)
        c
      ∙ rw (p, t) refl

  progress-ending_of :
      (o : Observation)
      → w.json.from_str o.content ≡ none
      → ending_of w (codes "report_progress") o ≡ none
  unfolding ending_of same
  progress-ending_of o j = rw j (ground arith)

  -- After a report of progress the loop goes on with the next call, whatever the reason, also one
  -- that waits for the user: the reason is read from the text that is shown to the user, which
  -- is not JSON. The other conditions: the control plane holds its tools, the parameters are
  -- read, the response is written, the loop detector does not object, and the memory takes the
  -- observation.
  pub execute_calls-progress :
      (step : ℕ) (calls : List (ToolCall V)) (results : List Observation) (a : Agent V M)
      (params : ReportProgressParams) (text : Text) (m : M)
      → w.control_tools ≡ server serde w.trim
      → serde.progress_params arguments ≡ inr params
      → serde.progress_text (progress params) ≡ inr text
      → w.json.from_str (control_content w (codes "report_progress") text) ≡ none
      → is_problematic (detected w progress_call step (add_step (action progress_call) a)).1 ≡ false
      → w.memory.add_message a.memory (remembered (told w progress_call step text)) ≡ (ok tt, m)
      → execute_calls w (progress_call ∷ calls) step results a
        ≡ execute_calls w calls step
            (results ++ told w progress_call step text ∷ [])
            (after w progress_call step text a)
  unfolding same
  execute_calls-progress step calls results a params text m c p t j f h =
      (execute_calls-control w progress_call step calls results a text m refl
        (run_control-progress a.runs params text c p t) f h).0
      ∙ ap
          (λ e.
            go_on w progress_call step calls (results ++ told w progress_call step text ∷ []) e
              (after w progress_call step text a))
          (progress-ending_of (told w progress_call step text) j)
