-- ===== src/AgUi/Handler.antt =====
-- The handler of crates/gola-core/src/ag_ui_handler.rs, which runs the agent for a client, and the errors of
-- crates/gola-ag-ui-server/src/error.rs that it gives. A stream is the list of its events, once it
-- has been read to its end. `uuid` numbers the identifiers that are drawn. What the polling
-- handler answers depends on the user and is a parameter.
pub mod Protocol
pub mod Input
pub mod Guarded
use gola.Prelude.{
  ℕ, zero, suc, ◌+◌, Bool, true, false, not, ◌&&◌, ◌||◌, Option, none, some, List, [], ◌∷◌, ◌++◌,
  map, is_empty, any, length, Text, codes, same, has, lookup, text_key, if◌then◌else◌,
}
use mathlib.Core.List.{reverse}
use gola.Core.Types.{ToolCall, Observation}
use gola.Core.Types as CoreTypes
use gola.Core.Errors.{AgentError, loop_detection, display, Result, ok, err}
use gola.Agent.{Agent, Handler, ask, set_authorization_handler}
use gola.Agent.World.{World}
use gola.Agent.Step.{AgentStep, waits_for_user, remember, add_user_task_to_memory, run_step, run}
use gola.Agent.Construction.{clear_loop_detector, add_recovery_message}
use gola.Config.Types.Prompts.{PromptConfig, PurposePrompt, PromptSource, fragment, file}
use gola.AgUi.Types
use gola.AgUi.Types.{RunAgentInput, Role, role_of, content_of}
use gola.AgUi.Events.{
  Event, text_message_start, text_message_content, text_message_end, run_started, run_finished,
  run_error, new_text_message_start, new_text_message_content, new_text_message_end,
  new_run_started, new_run_finished, new_run_error,
}

pub data ServerError : Type 0 where
  agent_error json http io invalid_request missing_field invalid_input stream config internal :
      Text → ServerError

pub data ServerResult (T : Type 0) : Type 0 where
  failed : ServerError → ServerResult T
  done : T → ServerResult T

unfoldable pub status_code : ServerError → ℕ
status_code (invalid_request e) = 400
status_code (missing_field e) = 400
status_code (invalid_input e) = 400
status_code (agent_error e) = 422
status_code (stream e) = 422
status_code (json e) = 400
status_code (http e) = 500
status_code (io e) = 500
status_code (config e) = 500
status_code (internal e) = 500

abbrev pub connect_message : Text
connect_message = codes "gola-connect-HACK"

-- The hints of an answer that is not the last one.
abbrev pub hints : List Text
hints =
    codes "please hold"
    ∷ codes "hold on"
    ∷ codes "one moment"
    ∷ codes "just a moment"
    ∷ codes "let me"
    ∷ codes "i'll search"
    ∷ codes "i'll find"
    ∷ codes "i'll update"
    ∷ codes "i'll proceed"
    ∷ codes "i'll determine"
    ∷ codes "i'll now"
    ∷ codes "now i'll"
    ∷ codes "let me summarize"
    ∷ []

abbrev pub source_text : PromptSource → Text
source_text (file f) = f
source_text (fragment f) = f

-- The first part of the purpose `ice_breaker`.
abbrev pub first_source : Option (List PromptSource) → Option Text
first_source none = none
first_source (some []) = none
first_source (some (s ∷ ss)) = some (source_text s)

abbrev pub assembly_of : Option PurposePrompt → Option Text
assembly_of none = none
assembly_of (some p) = first_source p.assembly

abbrev pub ice_breaker_of : Option (List (Text × PurposePrompt)) → Option Text
ice_breaker_of none = none
ice_breaker_of (some purposes) = assembly_of (lookup (codes "ice_breaker") purposes)

abbrev pub prompts_ice_breaker : Option PromptConfig → Option Text
prompts_ice_breaker none = none
prompts_ice_breaker (some prompts) = ice_breaker_of prompts.purposes

abbrev pub or_greeting : Option Text → Text
or_greeting none = codes "Hey there! What can I do for you?"
or_greeting (some t) = t

abbrev pub is_user : Types.Message → Bool
is_user m = elim (role_of m) [ Role.user ↦ true | _ ↦ false ]

-- `rev().find(…).and_then(content)`
unfoldable pub last_user : List Types.Message → Option Text
unfolding role_of content_of
last_user [] = none
last_user (m ∷ ms) = if is_user m then content_of m else last_user ms

abbrev pub has_content : Types.Message → Bool
has_content m = is_user m && (elim (content_of m) [ none ↦ false | some c ↦ not (is_empty c) ])

abbrev pub no_messages : ServerError
no_messages = invalid_input (codes "Messages cannot be empty")

abbrev pub no_user_message : ServerError
no_user_message = invalid_input (codes "No user message with content found in input")

module _ {V : Type 0} where
  unfoldable pub validate_input : RunAgentInput V → ServerResult (Unit {0})
  unfolding role_of content_of
  validate_input input =
      if is_empty input.messages
      then failed no_messages
      else if any has_content input.messages
      then done tt
      else failed no_user_message

  abbrev pub missing_task : RunAgentInput V → ServerError
  missing_task input = if is_empty input.messages then no_messages else no_user_message

  abbrev pub task_or_error : RunAgentInput V → Option Text → ServerResult Text
  task_or_error input none = failed (missing_task input)
  task_or_error input (some task) = if is_empty task then failed (missing_task input) else done task

  unfoldable pub task_to_run : RunAgentInput V → ServerResult Text
  unfolding last_user
  task_to_run input = task_or_error input (last_user (reverse input.messages))

  -- A message of its own, with the identifier `n`.
  abbrev pub text_message : (ℕ → Text) → ℕ → Text → List (Event V)
  text_message uuid n content =
      text_message_start (new_text_message_start (uuid n))
      ∷ text_message_content (new_text_message_content (uuid n) content)
      ∷ text_message_end (new_text_message_end (uuid n))
      ∷ []

  unfoldable pub text_messages : (ℕ → Text) → ℕ → List Text → List (Event V)
  text_messages uuid n [] = []
  text_messages uuid n (content ∷ contents) =
      text_message uuid n content ++ text_messages uuid (suc n) contents

  -- `streams::text_response` of crates/gola-ag-ui-server/src/agent.rs, which draws three identifiers.
  abbrev pub text_response : (ℕ → Text) → Text → List (Event V)
  text_response uuid content =
      run_started (new_run_started (uuid 1) (uuid 2)) ∷ text_message uuid 0 content
      ++ run_finished (new_run_finished (uuid 1) (uuid 2)) ∷ []

abbrev pub same_id : Option Text → Option Text → Bool
same_id none none = true
same_id (some i) (some j) = same i j
same_id _ _ = false

abbrev pub or_empty {ℓ} : {A : Type ℓ} → Option (List A) → List A
or_empty none = []
or_empty (some xs) = xs

-- The events of the loop, whether an error ended it, and the agent behind it.
abbrev pub Loop : Type 0 → Type 0 → Type 0
Loop V M = (List (Event V) × Bool) × Agent V M

module _ {V M : Type 0} where
  unfoldable pub setup_agent_authorization : Option (Handler V) → Agent V M → Agent V M
  setup_agent_authorization none a = a
  setup_agent_authorization (some handler) a = record (set_authorization_handler a handler) {
    authorization_mode = ask;
  }

  abbrev pub behind : List (Event V) → Loop V M → Loop V M
  behind events rest = ((events ++ rest.0.0, rest.0.1), rest.1)

  abbrev pub finish : Text → Text → Loop V M → List (Event V) × Agent V M
  finish thread_id run_id ((events, true), a) = (events, a)
  finish thread_id run_id ((events, false), a) =
      (events ++ run_finished (new_run_finished thread_id run_id) ∷ [], a)

module _ {V M : Type 0} (w : World V M) where
  abbrev pub reason_of : ToolCall V → Option Text
  reason_of call = w.json.get_str call.arguments (codes "reason")

  -- A call that reports progress and has a reason.
  abbrev pub is_report : ToolCall V → Bool
  is_report call =
      same call.name (codes "report_progress")
      && (elim (reason_of call) [ none ↦ false | some r ↦ true ])

  -- What is shown of one observation: it, once for each report that it answers.
  unfoldable pub shown : Observation → List (ToolCall V) → List Text
  shown o [] = []
  shown o (call ∷ calls) =
      let rest = shown o calls in
      if is_report call && same_id o.tool_call_id call.id
      then (o.content ++ codes "\n\n") ∷ rest
      else rest

  unfoldable pub reports_of : List Observation → List (ToolCall V) → List Text
  unfolding shown
  reports_of [] calls = []
  reports_of (o ∷ os) calls = shown o calls ++ reports_of os calls

  abbrev pub reports : AgentStep V → List Text
  reports step = reports_of (or_empty step.tool_results) (or_empty step.tool_calls)

  abbrev pub waits : ToolCall V → Bool
  waits call =
      same call.name (codes "report_progress")
      && (elim (reason_of call) [ none ↦ false | some reason ↦ waits_for_user reason ])

  -- `should_stop_for_report_progress`
  unfoldable pub should_stop : AgentStep V → Bool
  should_stop step = any waits (or_empty step.tool_calls)

  abbrev pub recovery_message : Text → CoreTypes.Message V
  recovery_message loop_msg = record {
    role = CoreTypes.system;
    content =
        codes "Loop detected: "
        ++ loop_msg
        ++ codes
            ". Try a different approach - avoid repeating the same tool call with identical parameters. Consider alternative methods or skip problematic tools if possible.";
    tool_call_id = none;
    tool_calls = none;
  }

  -- An error of the memory is only logged.
  unfoldable pub recovered : Text → Agent V M → Agent V M
  recovered loop_msg a =
      (add_recovery_message w (recovery_message loop_msg) (clear_loop_detector a)).1

  abbrev pub run_task_directly : Text → Agent V M → Result Text × Agent V M
  run_task_directly task a = run w task a

module _ {V M : Type 0} (w : World V M) (lowercase : Text → Text) (uuid : ℕ → Text) where
  unfoldable pub should_auto_continue : Text → AgentStep V → Bool
  unfolding should_stop
  should_auto_continue content step =
      not (should_stop w step) && any (has (lowercase content)) hints

  -- A loop is left by a hint to the model, any other error ends the stream.
  unfoldable pub settle_error : (ℕ → Agent V M → Loop V M) → ℕ → Agent V M → AgentError → Loop V M
  unfolding recovered
  settle_error rest n a (loop_detection loop_msg) = rest n (recovered w loop_msg a)
  settle_error rest n a e =
      ((run_error (new_run_error (codes "Agent execution failed: " ++ display e)) ∷ [], true), a)

  -- A round of the loop with what its step gave; `rest` is the rounds behind it, by the number of
  -- identifiers that are drawn.
  unfoldable pub settle_round :
      (ℕ → Agent V M → Loop V M) → ℕ → Result (Option Text × AgentStep V) × Agent V M → Loop V M
  unfolding should_stop should_auto_continue settle_error
  settle_round rest n (ok (some content, step), a) =
      let contents = reports w step ++ content ∷ [] in
      let more = behind (text_messages uuid n contents) (rest (n + length contents) a) in
      if should_auto_continue content step
      then more
      else ((text_messages uuid n contents, false), a)
  settle_round rest n (ok (none, step), a) =
      let more =
        behind (text_messages uuid n (reports w step)) (rest (n + length (reports w step)) a) in
      if should_stop w step then ((text_messages uuid n (reports w step), false), a) else more
  settle_round rest n (err e, a) = settle_error rest n a e

  unfoldable pub run_rounds : ℕ → ℕ → ℕ → Agent V M → Loop V M
  unfolding settle_round
  run_rounds zero step n a = (([], false), a)
  run_rounds (suc left) step n a = settle_round (run_rounds left (suc step)) n (run_step w step a)

  -- The loop, once the task is in the memory.
  unfoldable pub begin : Result (Unit {0}) × Agent V M → Loop V M
  unfolding run_rounds
  begin (ok _, a) = run_rounds a.max_steps 0 0 a
  begin (err e, a) = (
    (run_error (new_run_error (codes "Failed to add task to memory: " ++ display e)) ∷ [], true),
    a,
  )

  unfoldable pub run_stream : Text → Text → Text → Agent V M → List (Event V) × Agent V M
  unfolding begin add_user_task_to_memory
  run_stream thread_id run_id task a =
      let ended = finish thread_id run_id (begin (add_user_task_to_memory w task a)) in
      (run_started (new_run_started thread_id run_id) ∷ ended.0, ended.1)

  unfoldable pub settle_input :
      Option PromptConfig
      → Option (Handler V)
      → RunAgentInput V
      → Agent V M
      → ServerResult Text
      → ServerResult (List (Event V)) × Agent V M
  unfolding run_stream setup_agent_authorization
  settle_input prompts authorization input a (failed e) = (failed e, a)
  settle_input prompts authorization input a (done task) =
      let streamed =
        run_stream input.thread_id input.run_id task (setup_agent_authorization authorization a) in
      if same task connect_message
      then (done (text_response uuid (or_greeting (prompts_ice_breaker prompts))), a)
      else (done streamed.0, streamed.1)

  unfoldable pub handle_input :
      Option PromptConfig
      → Option (Handler V)
      → RunAgentInput V
      → Agent V M
      → ServerResult (List (Event V)) × Agent V M
  unfolding settle_input task_to_run
  handle_input prompts authorization input a =
      settle_input prompts authorization input a (task_to_run input)
