-- ===== src/Llm/Model.antt =====
-- The trait `LLM` of crates/gola-core/src/llm/mod.rs. The service behind it is the parameter `Model`:
-- its answer may depend on every request that it got, the newest first.
use gola.Prelude.{List, ◌∷◌, Option, Text}
use gola.Core.Types.{Message, LlmResponse}
use gola.Core.Errors.{Result}

pub record ToolMetadata (V : Type 0) : Type 0 where
  pub name : Text
  pub description : Text
  pub input_schema : V

pub record Request (V : Type 0) : Type 0 where
  pub messages : List (Message V)
  pub tools : Option (List (ToolMetadata V))

abbrev pub Requests : Type 0 → Type 0
Requests V = List (Request V)

abbrev pub Model : Type 0 → Type 0
Model V = Requests V → Result (LlmResponse V)

-- A call of `generate` of the model: the request is sent, and answered.
abbrev pub ask :
    {V : Type 0}
    → Model V
    → Requests V
    → List (Message V)
    → Option (List (ToolMetadata V))
    → Result (LlmResponse V) × Requests V
ask model sent ms tools =
    let log : Requests _ = record { messages = ms; tools = tools } ∷ sent in (model log, log)
