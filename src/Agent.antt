-- ===== src/Agent.antt =====
-- The agent of crates/gola-core/src/agent.rs and the guardrails of guardrails.rs beside it: who may
-- run a tool, and what is noted of what a tool did. `Agent` has the fields that these operations
-- use; `requests`, `sent` and `runs` are what the user, the model and the tools got, the newest
-- first, and no operation reads them. The handler, an interface to a user, is a parameter: its answer may depend on every
-- request that it got, the newest first. `M` is the type of the memory.
pub mod Authorization
pub mod Observations
pub mod Records
pub mod World
pub mod Tools
pub mod Dispatch
pub mod Invariants
pub mod Polling
pub mod Step
pub mod Construction
use gola.Prelude.{
  ℕ, ◌+◌, ◌%◌, ◌^◌, Bool, true, false, Option, none, some, List, [], ◌∷◌, ◌++◌, Text, codes, same,
  if◌then◌else◌,
}
use gola.Core.Types.{user, assistant, tool, Message, Observation, HistoryStep, thought, observed}
use gola.Llm.Model.{Requests}
use gola.Loops.Detector.{PatternDetector}
use gola.Agent.World.{Run}
use gola.Core.Errors.{
  AgentError, authorization_denied, authorization_failed, display, Result, ok, err,
}

pub data AuthorizationResponse : Type 0 where
  yes no all : AuthorizationResponse

pub data AuthorizationMode : Type 0 where
  ask allow deny : AuthorizationMode

pub record AuthorizationContext (V : Type 0) : Type 0 where
  pub tool_name : Text
  pub tool_description : Text
  pub tool_arguments : V
  pub tool_call_id : Option Text

pub record AuthorizationRequest (V : Type 0) : Type 0 where
  pub context : AuthorizationContext V
  pub step_number : ℕ
  pub max_steps : ℕ

abbrev pub Handler : Type 0 → Type 0
Handler V = List (AuthorizationRequest V) → Result AuthorizationResponse

pub record Agent (V M : Type 0) : Type 0 where
  pub max_steps : ℕ
  pub authorization_mode : AuthorizationMode
  pub authorization_handler : Option (Handler V)
  pub all_tools_approved : Bool
  pub history : List (HistoryStep V)
  pub last_tool_error : Option Text
  pub consecutive_error_count : ℕ
  pub memory : M
  pub system_prompt : Option Text
  pub enable_rag : Bool
  pub consecutive_tool_failures : List (Text × ℕ)
  pub loop_detector : PatternDetector V
  -- What the handler was asked, what the steps sent the model (a memory that asks it for summaries
  -- is apart), and what was run for calls of the model of the tools that want a grant: those of the
  -- registry, the execution of code and the search; not the tools of the control plane.
  pub requests : List (AuthorizationRequest V)
  pub sent : Requests V
  pub runs : List (Run V)

module _ {V : Type 0} where
  -- The message of `run_step` for what the model said: it has no tool calls, whatever the model
  -- called for.
  abbrev pub assistant_message : Text → Message V
  assistant_message content = record {
    role = assistant;
    content = content;
    tool_call_id = none;
    tool_calls = none;
  }

  -- The message of `add_user_task_to_memory`.
  abbrev pub task_message : Text → Message V
  task_message task = record { role = user; content = task; tool_call_id = none; tool_calls = none }

  abbrev pub remembered : Observation → Message V
  remembered o = record {
    role = tool;
    content = o.content;
    tool_call_id = o.tool_call_id;
    tool_calls = none;
  }

module _ {V M : Type 0} where
  abbrev pub set_authorization_handler : Agent V M → Handler V → Agent V M
  set_authorization_handler a handler = record a { authorization_handler = some handler }

  abbrev pub remove_authorization_handler : Agent V M → Agent V M
  remove_authorization_handler a = record a { authorization_handler = none }

  abbrev pub is_authorization_enabled : Agent V M → Bool
  is_authorization_enabled a = elim a.authorization_mode [
    | ask ↦ elim a.authorization_handler [ some _ ↦ true | none ↦ false ]
    | _ ↦ false
  ]

  abbrev pub reset_authorization_state : Agent V M → Agent V M
  reset_authorization_state a = record a { all_tools_approved = false }

  -- `self.history.add_step(HistoryStep::Thought(..))`
  abbrev pub add_thought : Agent V M → Text → Agent V M
  add_thought a text = record a { history = a.history ++ thought text ∷ [] }

  unfoldable pub settle_response :
      Agent V M → Text → Result AuthorizationResponse → Result Bool × Agent V M
  settle_response a name (err e) = (
    err (
        authorization_failed
          (codes "Authorization request failed for tool '" ++ name ++ codes "': " ++ display e)),
    a,
  )
  settle_response a name (ok yes) =
      (ok true, add_thought a (codes "User authorized execution of tool: " ++ name))
  settle_response a name (ok no) =
      (ok false, add_thought a (codes "User denied execution of tool: " ++ name))
  settle_response a name (ok all) = (
    ok true,
    add_thought (record a { all_tools_approved = true })
        (codes "User authorized execution of tool '" ++ name ++ codes "' and all future tools"),
  )

  unfoldable pub ask_handler :
      Agent V M → AuthorizationContext V → ℕ → Handler V → Result Bool × Agent V M
  unfolding settle_response
  ask_handler a context step handler =
      let request : AuthorizationRequest V = record {
        context = context;
        step_number = step;
        max_steps = a.max_steps;
      } in
      settle_response (record a { requests = request ∷ a.requests }) context.tool_name
        (handler (request ∷ a.requests))

  unfoldable pub check_tool_authorization :
      Agent V M → AuthorizationContext V → ℕ → Result Bool × Agent V M
  unfolding ask_handler
  check_tool_authorization a context step = elim a.authorization_mode [
    | allow ↦ (ok true, a)
    | deny ↦ (
      err (
          authorization_denied
            (codes "Tool execution denied by authorization mode: " ++ context.tool_name)),
      a,
    )
    | ask ↦ if a.all_tools_approved then (ok true, a) else (elim a.authorization_handler [
      | some handler ↦ ask_handler a context step handler
      | none ↦ (
        err (
            authorization_failed
              (codes "Authorization mode is Ask but no authorization handler is configured")),
        a,
      )
    ])
  ]

  -- The count of equal failures in a row, a `u32`.
  unfoldable pub note_outcome : Agent V M → Text → Bool → Agent V M
  note_outcome a content true = record a { last_tool_error = none; consecutive_error_count = 0 }
  note_outcome a content false = elim a.last_tool_error [
    | none ↦ record a { last_tool_error = some content; consecutive_error_count = 1 }
    | some failure ↦
        if same failure content
        then record a { consecutive_error_count = (a.consecutive_error_count + 1) % 2 ^ 32 }
        else record a { last_tool_error = some content; consecutive_error_count = 1 }
  ]

  -- `add_message` of the memory, which may fail.
  module _ (add_message : M → Message V → Result (Unit {0}) × M) where
    abbrev pub settle_memory :
        Agent V M → Observation → Result (Unit {0}) × M → Result Observation × Agent V M
    settle_memory a o (ok done, memory) = (ok o, record a { memory = memory })
    settle_memory a o (err e, memory) = (err e, record a { memory = memory })

    unfoldable pub add_tool_observation :
        Agent V M → Option Text → Text → Bool → Result Observation × Agent V M
    unfolding note_outcome
    add_tool_observation a id content success =
        let o : Observation = record { tool_call_id = id; content = content; success = success } in
        let a' = note_outcome a content success in
        let a'' : Agent V M = record a' { history = a'.history ++ observed o ∷ [] } in
        settle_memory a'' o (add_message a''.memory (remembered o))
