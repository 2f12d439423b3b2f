-- ===== src/Llm/Providers/OpenAi.antt =====
-- crates/gola-core/src/llm/providers/openai.rs. The packages reqwest and serde_json are parameters, and so are
-- `f32` and the drawing of identifiers; log lines are left out.
pub mod Parser
pub mod Read
use gola.Prelude.{
  ℕ, Option, none, some, List, [], ◌∷◌, ◌++◌, map, is_empty, Text, codes, ◌⊎◌, inl, inr, Bool, true,
  false,
}
use mathlib.Core.Option
use gola.Core.Types.{Role, system, user, assistant, tool, ToolCall, Message}
use gola.Llm.Model.{ToolMetadata}
use gola.Llm.Providers.Anthropic.{call_id, draws, drawn_for, calls_of}

-- `serde_json::Value`: `json!`, the index of a value, and of an object, which panics where the key is missing.
pub record Json (V : Type 0) : Type 0 where
  pub obj : List (Text × V) → V
  pub arr : List V → V
  pub str : Text → V
  pub number : ℕ → V
  pub get : V → Text → V
  pub as_array : V → Option (List V)
  pub as_str : V → Option Text
  pub as_object : V → Option (Text → Option V)
  pub from_str : Text → Text ⊎ V
  pub to_string : V → Text

pub record OpenAiClient (F32 : Type 0) : Type 0 where
  pub api_key : Text
  pub api_base : Text
  pub model : Text
  pub temperature : Option F32
  pub max_tokens : Option ℕ

module _ {F32 : Type 0} where
  unfoldable pub new_open_ai : Text → Text → OpenAiClient F32
  new_open_ai api_key model = record {
    api_key = api_key;
    api_base = codes "https://api.openai.com/v1";
    model = model;
    temperature = none;
    max_tokens = none;
  }

  -- `trim_end` is `trim_end_matches('/')`.
  unfoldable pub with_api_base : (Text → Text) → OpenAiClient F32 → Text → OpenAiClient F32
  with_api_base trim_end client api_base = record client { api_base = trim_end api_base }

  unfoldable pub with_temperature : OpenAiClient F32 → F32 → OpenAiClient F32
  with_temperature client temperature = record client { temperature = some temperature }

  unfoldable pub with_max_tokens : OpenAiClient F32 → ℕ → OpenAiClient F32
  with_max_tokens client max_tokens = record client { max_tokens = some max_tokens }

abbrev pub format_role : Role → Text
format_role system = codes "system"
format_role user = codes "user"
format_role assistant = codes "assistant"
format_role tool = codes "tool"

module _ {V : Type 0} (json : Json V) where
  unfoldable pub format_tool : ToolMetadata V → V
  format_tool t = json.obj (
      (codes "type", json.str (codes "function"))
      ∷ (
        codes "function",
        json.obj (
            (codes "name", json.str t.name)
            ∷ (codes "description", json.str t.description)
            ∷ (codes "parameters", t.input_schema)
            ∷ []),
      )
      ∷ [])

  unfoldable pub format_call : Text → ToolCall V → V
  format_call id tc = json.obj (
      (codes "id", json.str id)
      ∷ (codes "type", json.str (codes "function"))
      ∷ (
        codes "function",
        json.obj (
            (codes "name", json.str tc.name)
            ∷ (codes "arguments", json.str (json.to_string tc.arguments))
            ∷ []),
      )
      ∷ [])

  abbrev pub id_field : Option Text → List (Text × V)
  id_field none = []
  id_field (some tool_call_id) = (codes "tool_call_id", json.str tool_call_id) ∷ []

  abbrev pub calls_field : List V → List (Text × V)
  calls_field [] = []
  calls_field (c ∷ cs) = (codes "tool_calls", json.arr (c ∷ cs)) ∷ []

  abbrev pub optional_field : Text → Option V → List (Text × V)
  optional_field key none = []
  optional_field key (some v) = (key, v) ∷ []

module _ {V : Type 0} (json : Json V) (uuid : ℕ → Text) where
  unfoldable pub format_calls : ℕ → List (ToolCall V) → List V
  format_calls n [] = []
  format_calls n (c ∷ cs) =
      format_call json (call_id uuid n c.id) c ∷ format_calls (draws c.id n) cs

  -- The fields that a message has besides its role and its content.
  abbrev pub more_fields : Role → ℕ → Message V → List (Text × V)
  more_fields tool n m = id_field json m.tool_call_id
  more_fields assistant n m = calls_field json (format_calls n (calls_of m))
  more_fields _ n m = []

  unfoldable pub format_message : ℕ → Message V → V
  unfolding format_calls
  format_message n m = json.obj (
      (codes "role", json.str (format_role m.role))
      ∷ (codes "content", json.str m.content)
      ∷ more_fields m.role n m)

  abbrev pub drawn_in : Role → ℕ → Message V → ℕ
  drawn_in assistant n m = drawn_for n (calls_of m)
  drawn_in _ n m = n

  unfoldable pub format_messages : ℕ → List (Message V) → List V
  unfolding format_message
  format_messages n [] = []
  format_messages n (m ∷ ms) = format_message n m ∷ format_messages (drawn_in m.role n m) ms

  abbrev pub tools_fields : List V → List (Text × V)
  tools_fields [] = []
  tools_fields (t ∷ ts) =
      (codes "tools", json.arr (t ∷ ts)) ∷ (codes "tool_choice", json.str (codes "auto")) ∷ []

  abbrev pub tools_of : Option (List (ToolMetadata V)) → List (ToolMetadata V)
  tools_of none = []
  tools_of (some tools) = tools

  -- `float` is the number of an `f32`.
  unfoldable pub build_request_body :
      {F32 : Type 0}
      → (F32 → V)
      → OpenAiClient F32
      → List (Message V)
      → Option (List (ToolMetadata V))
      → V
  unfolding format_messages format_tool
  build_request_body float client messages tools = json.obj (
      (codes "model", json.str client.model)
        ∷ (codes "messages", json.arr (format_messages 0 messages))
        ∷ optional_field json (codes "temperature") (Option.map float client.temperature)
      ++ optional_field json (codes "max_tokens") (Option.map json.number client.max_tokens)
      ++ tools_fields (map (format_tool json) (tools_of tools)))
