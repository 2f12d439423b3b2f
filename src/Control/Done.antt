-- ===== src/Control/Done.antt =====
-- The tool assistant_done of crates/gola-core/src/tools/control_plane and the step of
-- crates/gola-core/src/agent.rs that it ends.
use gola.Prelude.{
  ℕ, ◌≤◌, ◌≡◌, ◌↔◌, refl, ap, ◌∙◌, true, false, Option, some, List, [], ◌∷◌, ◌++◌, arith, length,
  is_empty, inr, Text, codes, same, lookup, text_key,
}
use gola.Core.Types.{ToolCall, Observation, action}
use gola.Core.Errors.{ok}
use gola.Loops.{is_problematic}
use gola.Agent.{Agent, remembered}
use gola.Agent.World.{World, Run}
use gola.Agent.Tools.{add_step}
use gola.Agent.Dispatch.{run_control, control_content}
use gola.Agent.Step.{ending_of, execute_calls}
use gola.Control.Calls.{detected, after, go_on, execute_calls-control}
use gola.Control.{AssistantDoneParams, Serde, validate_params, completion, finish, server}

module _ {F : Type 0} where
  -- The parameters are accepted exactly when the summary is not blank and has from 10 to 1000 bytes.
  pub validate_params_iff :
      (trim : Text → Text) (params : AssistantDoneParams F)
      → (validate_params trim params ≡ ok tt) ↔ (
          (is_empty (trim params.summary) ≡ false)
          × (10 ≤ length params.summary)
          × (length params.summary ≤ 1000))
  unfolding validate_params
  validate_params_iff trim params = ground arith

module _ {V M F : Type 0} (w : World V M) (serde : Serde V F) (id : Option Text)
    (arguments : V) where
  abbrev pub done_call : ToolCall V
  done_call = record { id = id; name = codes "assistant_done"; arguments = arguments }

  run_control-done :
      (runs : List (Run V)) (params : AssistantDoneParams F) (text : Text)
      → w.control_tools ≡ server serde w.trim
      → serde.done_params arguments ≡ inr params
      → validate_params w.trim params ≡ ok tt
      → serde.done_text (completion serde.now params) ≡ inr text
      → run_control
          (w)
          (codes "assistant_done")
          arguments
          (lookup (codes "assistant_done") w.control_tools)
          runs
        ≡ ok text
  unfolding run_control lookup same finish
  run_control-done runs params text c p v t =
      ap
        (λ ts.
          run_control w (codes "assistant_done") arguments (lookup (codes "assistant_done") ts)
            runs)
        c
      ∙ rw (p, v, t) refl

  module _ (step : ℕ) where
    done-ending_of :
        (o : Observation) (written : V) (summary : Text)
        → o.success ≡ true
        → w.json.from_str o.content ≡ some written
        → w.json.get_str written (codes "summary") ≡ some summary
        → ending_of w (codes "assistant_done") o ≡ some summary
    unfolding ending_of same
    done-ending_of o written summary s j k = rw (s, j, k) refl

    -- A call of `assistant_done` ends the step with its summary, and no call behind it is executed.
    -- The conditions: the control plane holds its tools, the parameters are read and accepted,
    -- the response is written, what is read back from it has the summary, the loop detector does
    -- not object, and the memory takes the observation.
    pub execute_calls-done :
        (calls : List (ToolCall V)) (results : List Observation) (a : Agent V M)
        (params : AssistantDoneParams F) (text : Text) (written : V) (m : M)
        → w.control_tools ≡ server serde w.trim
        → serde.done_params arguments ≡ inr params
        → validate_params w.trim params ≡ ok tt
        → serde.done_text (completion serde.now params) ≡ inr text
        → w.json.from_str text ≡ some written
        → w.json.get_str written (codes "summary") ≡ some params.summary
        → is_problematic (detected w done_call step (add_step (action done_call) a)).1 ≡ false
        → let o : Observation = record { tool_call_id = id; content = text; success = true } in
          w.memory.add_message a.memory (remembered o) ≡ (ok tt, m)
          → ((execute_calls w (done_call ∷ calls) step results a).0
              ≡ ok (some params.summary, results ++ o ∷ []))
            × ((execute_calls w (done_call ∷ calls) step results a).1.runs ≡ a.runs)
    unfolding same control_content
    execute_calls-done calls results a params text written m c p v t j k f h =
        let o : Observation = record { tool_call_id = id; content = text; success = true } in
        let ran =
          execute_calls-control w done_call step calls results a text m refl
            (run_control-done a.runs params text c p v t) f h in
        let run =
          ran.0
          ∙ ap
              (λ e.
                go_on w done_call step calls (results ++ o ∷ []) e (after w done_call step text a))
              (done-ending_of o written params.summary refl j k) in
        (ap (λ r. r.0) run, ap (λ r. r.1.runs) run ∙ ran.1)
