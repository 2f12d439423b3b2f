-- ===== src/Agent/Step.antt =====
-- One step and the run of crates/gola-core/src/agent.rs: the model is asked once, and its tool calls
-- are executed until one of them ends the run. The trace handler, which only listens, is left out.
pub mod Limits
pub mod Closed
pub mod Asked
pub mod Failing
pub mod Ends
pub mod Window
use gola.Prelude.{
  ℕ, zero, suc, ◌+◌, Bool, true, false, not, ◌&&◌, ◌||◌, Option, none, some, List, [], ◌∷◌, ◌++◌,
  map, is_empty, Text, codes, same, has, split_on, if◌then◌else◌,
}
use gola.Core.Types.{
  ToolCall, Message, LlmResponse, Observation, HistoryStep, user_task, thought, action,
}
use gola.Core.Types
use gola.Core.Errors.{
  AgentError, llm_error, loop_detection, internal_error, max_steps_reached, display, Result, ok,
  err,
}
use gola.Core.Action.{Action, pure, raise, gets, modify, ◌>>=◌, ◌>>◌}
use gola.Llm.Model.{ToolMetadata, Requests, ask}
use gola.Memory.Prompt.{system_message}
use gola.Rag.Context.{RetrievedContext, format_for_llm}
use gola.Agent.{Agent, assistant_message, task_message}
use gola.Agent.World.{Tool, World}
use gola.Agent.Tools.{add_step}
use gola.Agent.Dispatch.{is_control_tool, retrieve_rag_context, execute_tool}

-- crates/gola-core/src/trace.rs
pub record AgentStep (V : Type 0) : Type 0 where
  pub step_number : ℕ
  pub thought : Option Text
  pub tool_calls : Option (List (ToolCall V))
  pub tool_results : Option (List Observation)

-- `t.split("Final Answer:").last().unwrap_or("")`
abbrev pub last_piece : List Text → Text
last_piece [] = []
last_piece (t ∷ []) = t
last_piece (t ∷ u ∷ ts) = last_piece (u ∷ ts)

abbrev pub final_mark : Text
final_mark = codes "Final Answer:"

-- The reasons of a report of progress that wait for the user.
abbrev pub waits_for_user : Text → Bool
waits_for_user reason =
    same reason (codes "awaiting_input")
    || (same reason (codes "pending_choice") || same reason (codes "need_clarification"))

module _ {V M : Type 0} (w : World V M) where
  open w use {F32, json, memory, model, trim}

  unfoldable pub remember : Message V → Action (Agent V M) (Unit {0})
  remember m a =
      let added = memory.add_message a.memory m in (added.0, record a { memory = added.1 })

  unfoldable pub formatted_task :
      Text → Result (Option (RetrievedContext F32)) → Action (Agent V M) Text
  formatted_task task (err e) = raise e
  formatted_task task (ok none) = pure task
  formatted_task task (ok (some c)) = pure (
      codes "Task: "
      ++ task
      ++ codes "\n\n"
      ++ format_for_llm c
      ++ codes "\n\nPlease use the above context to help answer the task if relevant.")

  unfoldable pub add_user_task_to_memory : Text → Action (Agent V M) (Unit {0})
  unfolding formatted_task remember add_step
  add_user_task_to_memory task = gets (retrieve_rag_context w task) >>= λ r.
      formatted_task task r >>= λ enhanced.
      modify (add_step (user_task enhanced)) >> remember (task_message enhanced)

  abbrev pub prompt_messages : Option Text → List (Message V)
  prompt_messages none = []
  prompt_messages (some prompt) = if is_empty prompt then [] else system_message prompt ∷ []

  abbrev pub tool_metadata : List (ToolMetadata V)
  tool_metadata =
      map (λ (t : Text × Tool V). t.1.metadata) w.tools
      ++ map (λ (t : Text × Tool V). t.1.metadata) w.control_tools

  unfoldable pub settle_answer : Result (LlmResponse V) → Action (Agent V M) (LlmResponse V)
  settle_answer (ok response) = pure response
  settle_answer (err e) =
      let msg = codes "LLM generation failed: " ++ display e in
      modify (add_step (Types.llm_error msg)) >> raise (llm_error msg)

  unfoldable pub ask_model : Action (Agent V M) (LlmResponse V)
  unfolding settle_answer
  ask_model a =
      let asked =
        ask model a.sent (prompt_messages a.system_prompt ++ memory.get_context a.memory)
          (some tool_metadata) in
      settle_answer asked.0 (record a { sent = asked.1 })

  unfoldable pub remember_content : Option Text → Action (Agent V M) (Unit {0})
  unfolding remember
  remember_content none = pure tt
  remember_content (some content) = remember (assistant_message content)

  -- A thought that is not blank.
  abbrev pub thought_of : Option Text → Option Text
  thought_of none = none
  thought_of (some t) = if is_empty (trim t) then none else some t

  unfoldable pub note_thought : Option Text → Action (Agent V M) (Unit {0})
  unfolding add_step
  note_thought none = pure tt
  note_thought (some t) = modify (add_step (thought t))

  unfoldable pub answer_of : Text → Text
  answer_of t = if has t final_mark then trim (last_piece (split_on zero final_mark [] t)) else t

  -- What a tool call that succeeded ends the run with.
  unfoldable pub ending_of : Text → Observation → Option Text
  ending_of name o =
      if not (is_control_tool name && o.success)
      then none
      else if same name (codes "assistant_done")
      then (elim (json.from_str o.content) [
        | none ↦ some (codes "Agent completed task via control plane")
        | some response ↦ elim (json.get_str response (codes "summary")) [
          | some summary ↦ some summary
          | none ↦ some (codes "Agent completed task via control plane")
        ]
      ])
      else (elim (json.from_str o.content) [
        | none ↦ none
        | some response ↦ elim (json.get_str response (codes "reason")) [
          | none ↦ none
          | some reason ↦
              if waits_for_user reason then some (codes "Waiting for user input") else none
        ]
      ])

  -- The loop over the tool calls, with the observations so far: the answer, if one ends the run.
  unfoldable pub execute_calls :
      List (ToolCall V) → ℕ → List Observation → Action (Agent V M) (Option Text × List Observation)
  unfolding add_step ending_of
  execute_calls [] step results = pure (none, results)
  execute_calls (call ∷ calls) step results =
      modify (add_step (action call)) >> execute_tool w call step >>= λ o.
      elim (ending_of call.name o) [
        | some answer ↦ pure (some answer, results ++ o ∷ [])
        | none ↦ execute_calls calls step (results ++ o ∷ [])
      ]

  abbrev pub no_action : Text
  no_action = codes "LLM did not provide content or tool calls. Ending run."

  -- The part of a step behind the thought.
  unfoldable pub act :
      LlmResponse V → List (ToolCall V) → ℕ → Action (Agent V M) (Option Text × AgentStep V)
  unfolding execute_calls
  act response calls step =
      if is_empty calls && (elim response.content [ none ↦ true | some _ ↦ false ])
      then modify (add_step (Types.llm_error no_action)) >> raise (llm_error no_action)
      else execute_calls calls step [] >>= λ r. pure (
        r.0,
        record {
          step_number = step;
          thought = response.content;
          tool_calls = response.tool_calls;
          tool_results = some r.1;
        },
      )

  -- The rest of a step, by the tool calls of the response and its thought.
  unfoldable pub finish_step :
      LlmResponse V
      → Option (List (ToolCall V))
      → Option Text
      → ℕ
      → Action (Agent V M) (Option Text × AgentStep V)
  unfolding act answer_of
  finish_step response (some calls) said step = act response calls step
  finish_step response none (some t) step = pure (
    some (answer_of t),
    record {
      step_number = step;
      thought = response.content;
      tool_calls = none;
      tool_results = none;
    },
  )
  finish_step response none none step = pure (
    none,
    record {
      step_number = step;
      thought = response.content;
      tool_calls = none;
      tool_results = some [];
    },
  )

  unfoldable pub run_step : ℕ → Action (Agent V M) (Option Text × AgentStep V)
  unfolding ask_model remember_content note_thought finish_step
  run_step step = ask_model >>= λ response.
      remember_content response.content
      >> note_thought (thought_of response.content)
      >> finish_step response response.tool_calls (thought_of response.content) step

  -- What the loop of `run` does with the error of a step.
  unfoldable pub step_error : AgentError → AgentError
  step_error e = elim e [
    | loop_detection msg ↦ loop_detection msg
    | other ↦ internal_error (codes "Agent step failed: " ++ display other)
  ]

  -- The end of a round of the loop; `rest` is the rounds behind it.
  unfoldable pub settle_step :
      Action (Agent V M) Text
      → Result (Option Text × AgentStep V) × Agent V M
      → Result Text × Agent V M
  unfolding step_error
  settle_step rest (err e, a) = (err (step_error e), a)
  settle_step rest (ok (some answer, done), a) = (ok answer, a)
  settle_step rest (ok (none, done), a) = rest a

  -- The rounds of the loop that are left, and the next step's number.
  unfoldable pub run_steps : ℕ → ℕ → Action (Agent V M) Text
  unfolding run_step settle_step
  run_steps zero step a = raise max_steps_reached a
  run_steps (suc left) step a = settle_step (run_steps left (suc step)) (run_step step a)

  unfoldable pub run : Text → Action (Agent V M) Text
  unfolding add_user_task_to_memory run_steps
  run task = add_user_task_to_memory task >> λ a. run_steps a.max_steps 0 a
