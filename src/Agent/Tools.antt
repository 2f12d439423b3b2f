-- ===== src/Agent/Tools.antt =====
-- The tools of crates/gola-core/src/agent.rs: a call goes through the loop detector, then to the
-- control plane, the code executor, the search or a tool. Log lines are left out.
pub mod Failures
use gola.Prelude.{
  ℕ, ◌+◌, ◌%◌, ◌^◌, Bool, true, false, ◌&&◌, ◌||◌, Option, none, some, List, [], ◌∷◌, ◌++◌, length,
  is_empty, Text, codes, same, decimal, leb, ◌==◌, text_key, lookup, put, remove, if◌then◌else◌,
}
use gola.Core.Types.{ToolCall, Observation, HistoryStep, executor_error, tool_error}
use gola.Core.Errors.{AgentError, loop_detection, display, Result, ok, err}
use gola.Core.Errors
use gola.Core.Action.{Action, pure, raise, gets, modify, ◌>>=◌, ◌>>◌}
use gola.Loops.{LoopPattern, exact_loop, similar_loop, is_problematic}
use gola.Loops.Detector.{add_tool_call}
use gola.Rag.Context.{RetrievedContext, format_for_llm}
use gola.Agent.{Agent, AuthorizationContext, check_tool_authorization, add_tool_observation}
use gola.Agent.World.{Run, Tool, CodeExecutor, ExecutionResult, World}

-- `MAX_CONSECUTIVE_FAILURES`
abbrev pub max_consecutive_failures : ℕ
max_consecutive_failures = 2

abbrev pub code_name : Text
code_name = codes "execute_code"

abbrev pub or_false : Result Bool → Bool
or_false (ok b) = b
or_false (err e) = false

abbrev pub or_zero : Option ℕ → ℕ
or_zero (some n) = n
or_zero none = 0

abbrev pub or_text : Option Text → Text → Text
or_text (some t) _ = t
or_text none t = t

module _ {V : Type 0} where
  abbrev pub context_of : ToolCall V → Text → Text → AuthorizationContext V
  context_of call name description = record {
    tool_name = name;
    tool_description = description;
    tool_arguments = call.arguments;
    tool_call_id = call.id;
  }

module _ {V M : Type 0} where
  abbrev pub failures_of : Text → Agent V M → ℕ
  failures_of name a = or_zero (lookup name a.consecutive_tool_failures)

  -- `*entry(name).or_insert(0) += 1` on a `u32`.
  unfoldable pub count_failure : Text → Agent V M → Agent V M
  count_failure name a = record a {
    consecutive_tool_failures =
        put name ((failures_of name a + 1) % 2 ^ 32) a.consecutive_tool_failures;
  }

  unfoldable pub clear_failures : Text → Agent V M → Agent V M
  clear_failures name a = record a {
    consecutive_tool_failures = remove name a.consecutive_tool_failures;
  }

  unfoldable pub add_step : HistoryStep V → Agent V M → Agent V M
  add_step step a = record a { history = a.history ++ step ∷ [] }

  -- The note of a run that wants a grant. The tools of the control plane and the retrieval for the task want
  -- none and are not noted.
  unfoldable pub note_run : Text → V → Agent V M → Agent V M
  note_run name arguments a = record a {
    runs = record { tool_name = name; tool_arguments = arguments } ∷ a.runs;
  }

  -- `check_tool_authorization(..).await.unwrap_or(false)`
  unfoldable pub is_authorized : AuthorizationContext V → ℕ → Action (Agent V M) Bool
  is_authorized context step a =
      let checked = check_tool_authorization a context step in (ok (or_false checked.0), checked.1)

  module _ (w : World V M) where
    unfoldable pub observe : Option Text → Text → Bool → Action (Agent V M) Observation
    observe id content success a = add_tool_observation w.memory.add_message a id content success

    -- A tool that has failed too often is not called. The body is the rest of the method.
    unfoldable pub unless_failing :
        Text → Option Text → Action (Agent V M) Observation → Action (Agent V M) Observation
    unless_failing name id body a =
        if leb max_consecutive_failures (failures_of name a)
        then observe id
            (codes "Tool '"
              ++ name
              ++ codes "' has failed "
              ++ decimal (failures_of name a)
              ++ codes " times in a row. Skipping.")
            false a
        else body a

    -- The run of a tool, which the log of runs notes.
    unfoldable pub run_tool : Tool V → Text → V → Action (Agent V M) (Result Text)
    unfolding note_run
    run_tool t name arguments a =
        let a' = note_run name arguments a in (ok (t.execute a'.runs arguments), a')

    unfoldable pub settle_generic :
        Text → Option Text → Result Text → Action (Agent V M) Observation
    settle_generic name id (ok content) = modify (clear_failures name) >> observe id content true
    settle_generic name id (err e) =
        modify (count_failure name)
        >> observe id (codes "Tool '" ++ name ++ codes "' execution failed: " ++ display e) false

    unfoldable pub run_generic : Tool V → ToolCall V → Bool → Action (Agent V M) Observation
    run_generic t call true =
        run_tool t call.name call.arguments >>= λ r. settle_generic call.name call.id r
    run_generic t call false =
        observe call.id (codes "Tool execution denied by user: " ++ call.name) false

    unfoldable pub find_generic : ToolCall V → ℕ → Option (Tool V) → Action (Agent V M) Observation
    find_generic call step none = observe call.id (codes "Unknown tool: " ++ call.name) false
    find_generic call step (some t) =
        is_authorized (context_of call call.name t.metadata.description) step >>= λ granted.
        run_generic t call granted

    unfoldable pub execute_generic_tool : ToolCall V → ℕ → Action (Agent V M) Observation
    execute_generic_tool call step =
        unless_failing call.name call.id (find_generic call step (lookup call.name w.tools))

    unfoldable pub run_code :
        CodeExecutor V → ToolCall V → Action (Agent V M) (Result ExecutionResult)
    unfolding note_run
    run_code executor call a =
        let a' = note_run code_name call.arguments a in
        let lang = or_text (w.json.get_str call.arguments (codes "language")) (codes "python") in
        let code = or_text (w.json.get_str call.arguments (codes "code")) [] in
        (ok (executor a'.runs lang code), a')

    unfoldable pub settle_code :
        Option Text → Result ExecutionResult → Action (Agent V M) Observation
    settle_code id (ok r) =
        modify (clear_failures code_name)
        >> observe id (codes "Stdout: " ++ r.stdout ++ codes "\nStderr: " ++ r.stderr) true
    settle_code id (err e) =
        let msg = codes "Code execution failed: " ++ display e in
        modify (λ a. add_step (executor_error msg) (count_failure code_name a))
        >> observe id msg false

    unfoldable pub run_code_tool :
        CodeExecutor V → ToolCall V → Bool → Action (Agent V M) Observation
    run_code_tool executor call true = run_code executor call >>= λ r. settle_code call.id r
    run_code_tool executor call false =
        let msg = codes "Code execution denied by user" in
        modify (add_step (tool_error msg)) >> observe call.id msg false

    unfoldable pub find_executor :
        ToolCall V → ℕ → Option (CodeExecutor V) → Action (Agent V M) Observation
    find_executor call step none =
        let msg = codes "Code execution requested, but no code executor is configured." in
        modify (add_step (executor_error msg)) >> observe call.id msg false
    find_executor call step (some executor) =
        is_authorized (context_of call code_name (codes "Execute code in a sandbox")) step
        >>= λ granted. run_code_tool executor call granted

    unfoldable pub execute_code_tool : ToolCall V → ℕ → Action (Agent V M) Observation
    execute_code_tool call step =
        unless_failing code_name call.id (find_executor call step w.code_executor)
