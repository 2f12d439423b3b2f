-- ===== src/Agent/World.antt =====
-- What stands around the agent of crates/gola-core/src/agent.rs: the trait objects that it holds and
-- the packages that it calls. The answer of a tool may depend on every run before it, the newest
-- first, and on nothing else that the agent sees.
use gola.Prelude.{ℕ, Option, List, Text}
use gola.Core.Types.{Message}
use gola.Core.Errors.{Result}
use gola.Llm.Model.{ToolMetadata, Model}
use gola.Loops.{Hashes}
use gola.Loops.Detector.{Scores}
use gola.Rag.Context.{RetrievedContext}

-- A tool or a program that was run.
pub record Run (V : Type 0) : Type 0 where
  pub tool_name : Text
  pub tool_arguments : V

-- The trait `Tool` of crates/gola-core/src/tools/mod.rs.
pub record Tool (V : Type 0) : Type 0 where
  pub metadata : ToolMetadata V
  pub execute : List (Run V) → V → Result Text

pub record ExecutionResult : Type 0 where
  pub stdout : Text
  pub stderr : Text

-- The trait `CodeExecutor`: the language and the code.
abbrev pub CodeExecutor : Type 0 → Type 0
CodeExecutor V = List (Run V) → Text → Text → Result ExecutionResult

-- The trait `ConversationMemory` of crates/gola-core/src/memory/mod.rs on a state `M`.
pub record ConversationMemory (V M : Type 0) : Type 0 where
  pub add_message : M → Message V → Result (Unit {0}) × M
  pub get_context : M → List (Message V)
  pub clear : M → M

-- `serde_json`: `from_str`, and `get` with `as_str`.
pub record Json (V : Type 0) : Type 0 where
  pub from_str : Text → Option V
  pub get_str : V → Text → Option Text

pub record World (V M : Type 0) : Type 1 where
  pub model : Model V
  pub tools : List (Text × Tool V)
  pub control_tools : List (Text × Tool V)
  pub code_executor : Option (CodeExecutor V)
  -- `retrieve` of the trait `Rag`, and whether there is such a system.
  pub F32 : Type 0
  pub rag_system : Option (List (Run V) → Text → Result (RetrievedContext F32))
  pub memory : ConversationMemory V M
  pub json : Json V
  -- `str::trim`
  pub trim : Text → Text
  pub hashes : Hashes V
  pub scores : Scores V
  -- `{:.1}` of a score times 100.
  pub percent : scores.F → Text
  -- The reading of the clock, by the number of the steps of the history.
  pub clock : ℕ → ℕ
