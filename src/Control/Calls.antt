-- ===== src/Control/Calls.antt =====
-- A call of a tool of the control plane in the loop over the calls of a step, in
-- crates/gola-core/src/agent.rs.
use gola.Prelude.{
  ℕ, ◌≡◌, refl, ap, ◌∙◌, true, false, Option, none, some, List, [], ◌∷◌, ◌++◌, length, Text, lookup,
  text_key,
}
use gola.Core.Types.{ToolCall, Observation, action}
use gola.Core.Errors.{ok}
use gola.Core.Action.{Action, pure, then_on, ◌>>=◌}
use gola.Loops.{LoopPattern, is_problematic}
use gola.Loops.Detector.{PatternDetector, add_tool_call}
use gola.Agent.{Agent, remembered, add_tool_observation, note_outcome}
use gola.Agent.World.{World}
use gola.Agent.Tools.{add_step, observe}
use gola.Agent.Dispatch.{
  is_control_tool, run_control, control_content, settle_control, execute_control_plane_tool,
  dispatch, execute_tool,
}
use gola.Agent.Step.{ending_of, execute_calls}

module _ {V M : Type 0} (w : World V M) where
  observe-ok :
      (id : Option Text) (content : Text) (a : Agent V M) (m : M)
      → let o : Observation = record { tool_call_id = id; content = content; success = true } in
        w.memory.add_message a.memory (remembered o) ≡ (ok tt, m)
        → ((observe w id content true a).0 ≡ ok o) × ((observe w id content true a).1.runs ≡ a.runs)
  unfolding observe add_tool_observation note_outcome
  observe-ok id content a m h = (rw h refl, rw h refl)

  module _ (call : ToolCall V) (step : ℕ) where
    abbrev pub detected : Agent V M → PatternDetector V × LoopPattern w.scores.F
    detected a =
        add_tool_call w.scores w.hashes (w.clock (length a.history)) a.loop_detector call.name
          call.arguments step

    -- The observation of a call that the control plane answers with this text.
    abbrev pub told : Text → Observation
    told text = record {
      tool_call_id = call.id;
      content = control_content w call.name text;
      success = true;
    }

    -- The agent behind such a call.
    abbrev pub after : Text → Agent V M → Agent V M
    after text a =
        (observe w call.id (told text).content true (record (add_step (action call) a) {
          loop_detector = (detected (add_step (action call) a)).0;
        })).1

    -- The rest of the loop over the calls, by the ending that the observation has.
    abbrev pub go_on :
        List (ToolCall V)
        → List Observation
        → Option Text
        → Action (Agent V M) (Option Text × List Observation)
    go_on calls results e = elim e [
      | some answer ↦ pure (some answer, results)
      | none ↦ execute_calls w calls step results
    ]

    execute_tool-control :
        (a : Agent V M) (text : Text)
        → is_control_tool call.name ≡ true
        → run_control w call.name call.arguments (lookup call.name w.control_tools) a.runs ≡ ok text
        → is_problematic (detected a).1 ≡ false
        → execute_tool w call step a
          ≡ observe w call.id (told text).content true (record a { loop_detector = (detected a).0 })
    unfolding execute_tool dispatch execute_control_plane_tool settle_control
    execute_tool-control a text c r f =
        let a' : Agent V M = record a { loop_detector = (detected a).0 } in
        rw (f, c) (ap (λ r. settle_control w call r a') r)

    pub execute_calls-control :
        (calls : List (ToolCall V)) (results : List Observation) (a : Agent V M) (text : Text)
        (m : M)
        → is_control_tool call.name ≡ true
        → run_control w call.name call.arguments (lookup call.name w.control_tools) a.runs ≡ ok text
        → is_problematic (detected (add_step (action call) a)).1 ≡ false
        → w.memory.add_message a.memory (remembered (told text)) ≡ (ok tt, m)
        → (execute_calls w (call ∷ calls) step results a
            ≡ go_on calls
                (results ++ told text ∷ [])
                (ending_of w call.name (told text))
                (after text a))
          × ((after text a).runs ≡ a.runs)
    unfolding execute_calls ◌>>=◌ add_step
    execute_calls-control calls results a text m c r f h =
        let a' = add_step (action call) a in
        let b : Agent V M = record a' { loop_detector = (detected a').0 } in
        let rest : Observation → Action (Agent V M) (Option Text × List Observation) =
          λ o. go_on calls (results ++ o ∷ []) (ending_of w call.name o) in
        let done = observe-ok call.id (told text).content b m h in
        (
          ap (then_on rest) (execute_tool-control a' text c r f)
              ∙ ap (λ r. then_on rest (r, after text a)) done.0,
          done.1,
        )
