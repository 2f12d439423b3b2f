-- ===== src/Agent/Dispatch/Stops.antt =====
-- The loop detector in front of the tools of crates/gola-core/src/agent.rs.
use gola.Prelude.{
  ℕ, ◌^◌, ◌<◌, ◌≡◌, refl, ap, ◌∙◌, true, List, [], ◌∷◌, ◌++◌, length, latest, leb, Text, arith,
}
use gola.Core.Types.{ToolCall, Observation}
use gola.Core.Errors.{loop_detection, Result, err}
use gola.Loops.{
  LoopDetectionConfig, LoopPattern, exact_loop, similar_loop, suspicious_pattern, no_loop,
  ToolCallRecord, new_record, is_problematic,
}
use gola.Loops.Detector.{new, add_tool_call}
use gola.Loops.Counts.{occurrences, add_records}
use gola.Loops.Exact.{is_exact, is_exact-add_tool_call}
use gola.Agent.{Agent}
use gola.Agent.World.{World}
use gola.Agent.Dispatch.{loop_message, handle_loop_detection, execute_tool}

module _ {V M : Type 0} (w : World V M) (call : ToolCall V) (step : ℕ) where
  -- A call that ends in the loop error, and changes nothing of the agent.
  abbrev pub Stops : Result Observation × Agent V M → Agent V M → Type 0
  Stops r a = (msg : Text) × (r ≡ (err (loop_detection msg), a))

  exact-Stops :
      (found : LoopPattern w.scores.F) (a : Agent V M)
      → is_exact found ≡ true
      → (is_problematic found ≡ true) × Stops (handle_loop_detection w found call step a) a
  unfolding handle_loop_detection loop_message
  exact-Stops (exact_loop name n i) a e = (refl, (_, refl))
  exact-Stops (similar_loop name n score i) a e = ground (arith, e)
  exact-Stops (suspicious_pattern name n kind) a e = ground (arith, e)
  exact-Stops no_loop a e = ground (arith, e)

  -- With a window of at least one call and fewer than 2 ^ 32, a call whose signature stands at
  -- least `exact_match_threshold` times among the latest calls, this one included, is not executed,
  -- by whatever tool it names: it ends in the loop error, and of the agent only the detector has
  -- changed.
  pub execute_tool-Stops :
      (a : Agent V M) (config : LoopDetectionConfig) (rs : List (ToolCallRecord V))
      → a.loop_detector ≡ add_records (new config) rs
      → 0 < config.detection_window_size
      → config.detection_window_size < 2 ^ 32
      → leb config.exact_match_threshold (
          occurrences (w.hashes.signature call.name call.arguments) (
            latest config.detection_window_size (
              rs
              ++ new_record w.hashes (w.clock (length a.history)) call.name call.arguments step
                ∷ [])))
        ≡ true
      → Stops (execute_tool w call step a) (record a {
        loop_detector =
            (add_tool_call w.scores w.hashes
              (w.clock (length a.history))
              a.loop_detector
              call.name
              call.arguments
              step).0;
      })
  unfolding execute_tool
  execute_tool-Stops a config rs d h k e =
      let now = w.clock (length a.history) in
      let found =
        add_tool_call w.scores w.hashes now a.loop_detector call.name call.arguments step in
      let exact : is_exact found.1 ≡ true =
        ap (λ d. is_exact (add_tool_call w.scores w.hashes now d call.name call.arguments step).1) d
        ∙ is_exact-add_tool_call w.scores w.hashes config rs now call.name call.arguments step h k
        ∙ e in
      let stops = exact-Stops found.1 (record a { loop_detector = found.0 }) exact in
      rw (stops.0) stops.1
