-- ===== src/Agent/Dispatch.antt =====
-- The dispatch of tool calls in crates/gola-core/src/agent.rs: the search for documents, the control
-- plane and the loop detector in front of them all.
pub mod Stops
use gola.Prelude.{
  ℕ, Bool, true, false, ◌&&◌, ◌||◌, Option, none, some, List, [], ◌∷◌, ◌++◌, length, Text, codes,
  same, decimal, text_key, lookup, if◌then◌else◌,
}
use gola.Core.Types.{ToolCall, Observation}
use gola.Core.Errors.{AgentError, loop_detection, tool_error, display, Result, ok, err}
use gola.Core.Action.{Action, raise, modify, ◌>>=◌, ◌>>◌}
use gola.Loops.{LoopPattern, exact_loop, similar_loop, is_problematic}
use gola.Loops.Detector.{add_tool_call}
use gola.Rag.Context.{RetrievedContext, format_for_llm}
use gola.Agent.{Agent}
use gola.Agent.World.{Run, Tool, World}
use gola.Agent.Tools.{
  code_name, or_text, clear_failures, count_failure, note_run, is_authorized, context_of, observe,
  unless_failing, execute_generic_tool, execute_code_tool,
}

abbrev pub is_control_tool : Text → Bool
is_control_tool name = same name (codes "assistant_done") || same name (codes "report_progress")

abbrev pub search_name : Text
search_name = codes "rag_search"

unfoldable pub progress_message : Option Text → Text
progress_message none = codes "Progress update"
progress_message (some reason) =
    if same reason (codes "awaiting_input")
    then codes "Waiting for your input"
    else if same reason (codes "pending_choice")
    then codes "Waiting for your selection"
    else if same reason (codes "need_clarification")
    then codes "Need clarification"
    else if same reason (codes "response_complete")
    then codes "Response complete"
    else if same reason (codes "results_displayed")
    then codes "Results displayed"
    else codes "Progress update"

module _ {V M : Type 0} (w : World V M) where
  open w use {F32, json, scores}

  abbrev pub is_rag_enabled : Agent V M → Bool
  is_rag_enabled a = a.enable_rag && (elim w.rag_system [ none ↦ false | some _ ↦ true ])

  unfoldable pub nonempty_context :
      Result (RetrievedContext F32) → Result (Option (RetrievedContext F32))
  nonempty_context (err e) = err e
  nonempty_context (ok c) = elim c.documents [ [] ↦ ok none | _ ∷ _ ↦ ok (some c) ]

  unfoldable pub retrieve_rag_context : Text → Agent V M → Result (Option (RetrievedContext F32))
  unfolding nonempty_context
  retrieve_rag_context query a = elim w.rag_system [
    | none ↦ ok none
    | some retrieve ↦ if a.enable_rag then nonempty_context (retrieve a.runs query) else ok none
  ]

  unfoldable pub search : ToolCall V → Action (Agent V M) (Result (Option (RetrievedContext F32)))
  unfolding note_run
  search call a =
      let a' = note_run search_name call.arguments a in
      (ok (retrieve_rag_context (or_text (json.get_str call.arguments (codes "query")) []) a'), a')

  unfoldable pub settle_search :
      Option Text → Result (Option (RetrievedContext F32)) → Action (Agent V M) Observation
  settle_search id (ok (some c)) =
      modify (clear_failures search_name) >> observe w id (format_for_llm c) true
  settle_search id (ok none) =
      modify (clear_failures search_name)
      >> observe w id (codes "No relevant documents found in RAG system.") true
  settle_search id (err e) =
      modify (count_failure search_name)
      >> observe w id (codes "RAG search failed: " ++ display e) false

  unfoldable pub run_search : ToolCall V → Bool → Action (Agent V M) Observation
  run_search call true = search call >>= λ r. settle_search call.id r
  run_search call false = observe w call.id (codes "RAG search denied by user") false

  unfoldable pub authorize_search : ToolCall V → ℕ → Action (Agent V M) Observation
  authorize_search call step a =
      if is_rag_enabled a
      then (is_authorized
              (context_of call search_name (codes "Search for information in the RAG system")) step
            >>= λ granted. run_search call granted)
          a
      else observe w call.id (codes "RAG search requested, but RAG is not enabled.") false a

  unfoldable pub execute_rag_search_tool : ToolCall V → ℕ → Action (Agent V M) Observation
  execute_rag_search_tool call step =
      unless_failing w search_name call.id (authorize_search call step)

  -- `ControlPlaneServer::execute_tool`
  unfoldable pub run_control : Text → V → Option (Tool V) → List (Run V) → Result Text
  run_control name arguments none runs =
      err (tool_error name (codes "Control plane tool '" ++ name ++ codes "' not found"))
  run_control name arguments (some t) runs = t.execute runs arguments

  -- The observation of a report of progress is its context.
  unfoldable pub control_content : Text → Text → Text
  unfolding progress_message
  control_content name content =
      if same name (codes "assistant_done")
      then content
      else if same name (codes "report_progress")
      then (elim (json.from_str content) [
        | none ↦ content
        | some response ↦
            or_text (json.get_str response (codes "context"))
              (progress_message (json.get_str response (codes "reason")))
      ])
      else content

  unfoldable pub settle_control : ToolCall V → Result Text → Action (Agent V M) Observation
  unfolding control_content
  settle_control call (ok content) = observe w call.id (control_content call.name content) true
  settle_control call (err e) =
      observe w call.id
        (codes "Control plane tool '" ++ call.name ++ codes "' execution failed: " ++ display e)
        false

  unfoldable pub execute_control_plane_tool : ToolCall V → Action (Agent V M) Observation
  unfolding run_control settle_control
  execute_control_plane_tool call a =
      settle_control call
        (run_control call.name call.arguments (lookup call.name w.control_tools) a.runs) a

  unfoldable pub loop_message : LoopPattern scores.F → Option Text
  loop_message (exact_loop name n i) = some (
      codes "Agent execution terminated due to infinite loop: '"
      ++ name
      ++ codes "' called "
      ++ decimal n
      ++ codes " times consecutively. This indicates the agent is stuck and cannot make progress.")
  loop_message (similar_loop name n score i) = some (
      codes "Agent execution terminated due to similar loop pattern: '"
      ++ name
      ++ codes "' called "
      ++ decimal n
      ++ codes " times with "
      ++ w.percent score
      ++ codes "% argument similarity. This indicates the agent is stuck in a repetitive pattern.")
  loop_message _ = none

  unfoldable pub handle_loop_detection :
      LoopPattern scores.F → ToolCall V → ℕ → Action (Agent V M) Observation
  unfolding loop_message
  handle_loop_detection found call step = elim (loop_message found) [
    | some msg ↦ raise (loop_detection msg)
    | none ↦ execute_generic_tool w call step
  ]

  unfoldable pub dispatch : ToolCall V → ℕ → Action (Agent V M) Observation
  dispatch call step =
      if is_control_tool call.name
      then execute_control_plane_tool call
      else if same call.name code_name
      then execute_code_tool w call step
      else if same call.name search_name
      then execute_rag_search_tool call step
      else execute_generic_tool w call step

  unfoldable pub execute_tool : ToolCall V → ℕ → Action (Agent V M) Observation
  unfolding handle_loop_detection dispatch
  execute_tool call step a =
      let (d, found) =
        add_tool_call scores w.hashes (w.clock (length a.history)) a.loop_detector call.name
          call.arguments step in
      let a' : Agent V M = record a { loop_detector = d } in
      if is_problematic found
      then handle_loop_detection found call step a'
      else dispatch call step a'
