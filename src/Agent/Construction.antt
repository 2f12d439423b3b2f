-- ===== src/Agent/Construction.antt =====
-- How an agent of crates/gola-core/src/agent.rs is made from its configuration, and what a client may
-- change of it between runs. The memory is one of the three of crates/gola-core/src/memory. Of the
-- configuration, what nothing reads is left out (`rag_config`, and two fields of `MemoryConfig`).
use gola.Prelude.{ℕ, Bool, false, Option, none, some, List, [], ◌++◌, Text, codes}
use gola.Core.Types.{Message}
use gola.Core.Errors.{Result, ok}
use gola.Core.Action.{Action, pure, modify, ◌>>◌}
use gola.Memory.Prompt.{Llm, system_message}
use gola.Memory.Window
use gola.Memory.Window.{SlidingWindowMemory}
use gola.Memory.Summary
use gola.Memory.Summary.{ConversationSummaryMemory}
use gola.Memory.SummaryBuffer
use gola.Memory.SummaryBuffer.{ConversationSummaryBufferMemory}
use gola.Loops.{default_config}
use gola.Loops.Detector
use gola.Agent.{Agent, AuthorizationMode, Handler, allow}
use gola.Agent.World.{World, ConversationMemory}
use gola.Agent.Step.{remember, add_user_task_to_memory}

-- crates/gola-core/src/config/types.rs
pub data MemoryEvictionStrategy : Type 0 where
  fifo intelligent chunk_based summarize conversation_summary : MemoryEvictionStrategy

pub record MemoryConfig : Type 0 where
  pub max_history_steps : ℕ
  pub eviction_strategy : MemoryEvictionStrategy

pub record AgentConfig : Type 0 where
  pub max_steps : ℕ
  pub enable_rag : Bool
  pub system_prompt : Option Text
  pub memory_config : Option MemoryConfig
  pub authorization_mode : AuthorizationMode

abbrev pub default : AgentConfig
default = record {
  max_steps = 10;
  enable_rag = false;
  system_prompt = none;
  memory_config = none;
  authorization_mode = allow;
}

-- `Box<dyn ConversationMemory>`, by the types that implement it.
pub data AnyMemory (V : Type 0) : Type 0 where
  window : SlidingWindowMemory V → AnyMemory V
  summary : ConversationSummaryMemory V → AnyMemory V
  buffer : ConversationSummaryBufferMemory V → AnyMemory V

module _ {V : Type 0} where
  -- The memories with a summary have the model of the agent, which this one asks on its own.
  module _ (llm : Llm V) where
    unfoldable pub add_message : AnyMemory V → Message V → Result (Unit {0}) × AnyMemory V
    add_message (window held) m = (ok tt, window (Window.add_message held m))
    add_message (summary held) m =
        let added = Summary.add_message llm held m in (added.0, summary added.1)
    add_message (buffer held) m =
        let added = SummaryBuffer.add_message llm held m in (added.0, buffer added.1)

    unfoldable pub get_context : AnyMemory V → List (Message V)
    get_context (window held) = Window.get_context held
    get_context (summary held) = Summary.get_context held
    get_context (buffer held) = SummaryBuffer.get_context held

    abbrev pub clear : AnyMemory V → AnyMemory V
    clear (window held) = window (Window.clear held)
    clear (summary held) = summary (Summary.clear held)
    clear (buffer held) = buffer (SummaryBuffer.clear held)

    abbrev pub boxed : ConversationMemory V (AnyMemory V)
    boxed = record { add_message = add_message; get_context = get_context; clear = clear }

  -- The choice of the memory in `Agent::new`.
  unfoldable pub new_memory : Option MemoryConfig → AnyMemory V
  new_memory none = window (Window.new 10)
  new_memory (some config) = elim config.eviction_strategy [
    | summarize ↦ buffer (SummaryBuffer.new config.max_history_steps)
    | conversation_summary ↦ summary Summary.new
    | _ ↦ window (Window.new config.max_history_steps)
  ]

  unfoldable pub new : AgentConfig → Agent V (AnyMemory V)
  unfolding new_memory
  new config = record {
    max_steps = config.max_steps;
    authorization_mode = config.authorization_mode;
    authorization_handler = none;
    all_tools_approved = false;
    history = [];
    last_tool_error = none;
    consecutive_error_count = 0;
    memory = new_memory config.memory_config;
    system_prompt = config.system_prompt;
    enable_rag = config.enable_rag;
    consecutive_tool_failures = [];
    loop_detector = Detector.new default_config;
    requests = [];
    sent = [];
    runs = [];
  }

  abbrev pub with_authorization : AgentConfig → Handler V → Agent V (AnyMemory V)
  with_authorization config handler = record (new config) { authorization_handler = some handler }

module _ {V M : Type 0} where
  abbrev pub set_config : AgentConfig → Agent V M → Agent V M
  set_config config a = record a {
    max_steps = config.max_steps;
    authorization_mode = config.authorization_mode;
    system_prompt = config.system_prompt;
    enable_rag = config.enable_rag;
  }

  abbrev pub clear_loop_detector : Agent V M → Agent V M
  clear_loop_detector a = record a { loop_detector = Detector.clear a.loop_detector }

  module _ (w : World V M) where
    abbrev pub clear_memory : Agent V M → Agent V M
    clear_memory a = record a { memory = w.memory.clear a.memory; history = [] }

    abbrev pub add_recovery_message : Message V → Action (Agent V M) (Unit {0})
    add_recovery_message m = remember w m

    unfoldable pub recover_from_loop : Text → Text → Action (Agent V M) Text
    recover_from_loop original_task loop_msg =
        modify (clear_memory)
        >> modify clear_loop_detector
        >> add_user_task_to_memory w (
            original_task
            ++ codes
                ". Please try a different approach and avoid repeating the same tool calls. Focus on making progress toward the goal through varied methods.")
        >> remember w (
            system_message (
              codes "Previous attempt failed due to repetitive behavior. Loop detected: "
              ++ loop_msg
              ++ codes
                  ". Try alternative approaches and avoid calling the same tool repeatedly with identical parameters."))
        >> pure (
            codes
              "I encountered a technical issue where I was repeating the same action multiple times. Let me approach your request differently.\n\nYour original request: "
            ++ original_task
            ++ codes "\n\nI'll now try a different approach to help you with this task.")
