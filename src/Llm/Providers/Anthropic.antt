-- ===== src/Llm/Providers/Anthropic.antt =====
-- crates/gola-core/src/llm/providers/anthropic.rs. The package reqwest is the parameter `Service`, which
-- posts a request; `f32` and the drawing of identifiers are parameters too.
pub mod Response
pub mod Contents
pub mod Order
use gola.Prelude.{
  ℕ, suc, ◌+◌, ◌%◌, ◌^◌, Bool, true, false, Option, none, some, List, [], ◌∷◌, ◌++◌, map, is_empty,
  Text, codes, ◌⊎◌, inl, inr, if◌then◌else◌,
}
use gola.Core.Types.{Role, system, user, assistant, tool, ToolCall, Message, Usage, LlmResponse}
use gola.Core.Errors.{config_error, llm_error, Result, ok, err, ◌>>=◌}
use gola.Llm.Model.{ToolMetadata}
use gola.Config.Types.Llm.{LlmConfig, ModelParameters}

abbrev pub api_base_default : Text
api_base_default = codes "https://api.anthropic.com"

abbrev pub default_anthropic_version : Text
default_anthropic_version = codes "2023-06-01"

pub record AnthropicClient (V : Type 0) (F32 : Type 0) : Type 0 where
  pub api_key : Text
  pub api_base : Text
  pub model : Text
  pub parameters : ModelParameters V F32

pub data AnthropicContent (V : Type 0) : Type 0 where
  text : Text → AnthropicContent V
  tool_use : Text → Text → V → AnthropicContent V
  tool_result : Text → Text → AnthropicContent V

pub record AnthropicMessage (V : Type 0) : Type 0 where
  pub role : Text
  pub content : List (AnthropicContent V)

pub record AnthropicTool (V : Type 0) : Type 0 where
  pub name : Text
  pub description : Text
  pub input_schema : V

pub record AnthropicRequest (V : Type 0) (F32 : Type 0) : Type 0 where
  pub model : Text
  pub max_tokens : ℕ
  pub messages : List (AnthropicMessage V)
  pub system_message : Option Text
  pub temperature : Option F32
  pub top_p : Option F32
  pub stop_sequences : List Text
  pub tools : List (AnthropicTool V)

pub data AnthropicResponseContent (V : Type 0) : Type 0 where
  said_text : Text → AnthropicResponseContent V
  used_tool : Text → Text → V → AnthropicResponseContent V

pub record AnthropicUsage : Type 0 where
  pub input_tokens : ℕ
  pub output_tokens : ℕ

pub record AnthropicResponse (V : Type 0) : Type 0 where
  pub content : List (AnthropicResponseContent V)
  pub stop_reason : Option Text
  pub usage : AnthropicUsage

-- What comes of a post: it fails, its status is no success, or it has a body that is read as a response.
pub data Posted (V : Type 0) : Type 0 where
  not_sent : Text → Posted V
  status : Text → Option Text → Posted V
  body : Text ⊎ AnthropicResponse V → Posted V

-- A post of a request to a URL with a key and a version.
pub record Service (V : Type 0) (F32 : Type 0) : Type 0 where
  pub post : Text → Text → Text → AnthropicRequest V F32 → Posted V
  -- The message of a body that serde_json reads as an `AnthropicError`.
  pub error_message : Text → Option Text
  pub is_positive : F32 → Bool
  pub is_below_one : F32 → Bool

abbrev pub or_default : Text → Option Text → Text
or_default t none = t
or_default t (some s) = s

abbrev pub or_variable : (Text → Option Text) → Option Text → Option Text → Option Text
or_variable env_var (some key) variable = some key
or_variable env_var none none = none
or_variable env_var none (some variable) = env_var variable

-- The identifier of a call, where `n` were drawn before.
abbrev pub call_id : (ℕ → Text) → ℕ → Option Text → Text
call_id uuid n none = codes "call_" ++ uuid n
call_id uuid n (some id) = id

abbrev pub draws : Option Text → ℕ → ℕ
draws none n = suc n
draws (some id) n = n

abbrev pub or_own : Option Text → Option Text → Option Text
or_own own none = own
or_own own (some message) = some message

module _ {V F32 : Type 0} where
  unfoldable pub new_client :
      Text → Text → ModelParameters V F32 → Option Text → AnthropicClient V F32
  new_client api_key model parameters api_base = record {
    api_key = api_key;
    api_base = or_default api_base_default api_base;
    model = model;
    parameters = parameters;
  }

  abbrev pub client_of : LlmConfig V F32 → Option Text → Result (AnthropicClient V F32)
  client_of config none =
      err (config_error (codes "No API key found for Anthropic. Set api_key or api_key_env"))
  client_of config (some api_key) = ok (new_client api_key config.model config.parameters none)

  -- `env_var` is `std::env::var`.
  unfoldable pub create_client :
      (Text → Option Text) → LlmConfig V F32 → Result (AnthropicClient V F32)
  unfolding new_client
  create_client env_var config =
      client_of config (or_variable env_var config.auth.api_key config.auth.api_key_env)

-- What the loop over the messages has gathered, and how many identifiers were drawn.
pub record Conversion (V : Type 0) : Type 0 where
  pub system_message : Option Text
  pub anthropic_messages : List (AnthropicMessage V)
  pub current_user_content : List (AnthropicContent V)
  pub current_assistant_content : List (AnthropicContent V)
  pub drawn : ℕ

module _ {V : Type 0} where
  abbrev pub started : Conversion V
  started = record {
    system_message = none;
    anthropic_messages = [];
    current_user_content = [];
    current_assistant_content = [];
    drawn = 0;
  }

  -- A message of the content, if there is some.
  abbrev pub flushed : Text → List (AnthropicContent V) → List (AnthropicMessage V)
  flushed role [] = []
  flushed role (c ∷ cs) = record { role = role; content = c ∷ cs } ∷ []

  abbrev pub flush_user : Conversion V → Conversion V
  flush_user s = record s {
    anthropic_messages = s.anthropic_messages ++ flushed (codes "user") s.current_user_content;
    current_user_content = [];
  }

  abbrev pub flush_assistant : Conversion V → Conversion V
  flush_assistant s = record s {
    anthropic_messages =
        s.anthropic_messages ++ flushed (codes "assistant") s.current_assistant_content;
    current_assistant_content = [];
  }

unfoldable pub drawn_for : {V : Type 0} → ℕ → List (ToolCall V) → ℕ
drawn_for n [] = n
drawn_for n (c ∷ cs) = drawn_for (draws c.id n) cs

abbrev pub calls_of : {V : Type 0} → Message V → List (ToolCall V)
calls_of m = elim m.tool_calls [ none ↦ [] | some calls ↦ calls ]

-- The rest of the content, the user's first.
abbrev pub flush : {V : Type 0} → Conversion V → Conversion V
flush s = flush_assistant (flush_user s)

module _ {V : Type 0} (uuid : ℕ → Text) where
  unfoldable pub uses : ℕ → List (ToolCall V) → List (AnthropicContent V)
  uses n [] = []
  uses n (c ∷ cs) = tool_use (call_id uuid n c.id) c.name c.arguments ∷ uses (draws c.id n) cs

  unfoldable pub convert : Role → Conversion V → Message V → Conversion V
  unfolding uses drawn_for
  convert system s m = record s { system_message = some m.content }
  convert user s m = record (flush_assistant s) {
    current_user_content = s.current_user_content ++ text m.content ∷ [];
  }
  convert assistant s m = record (flush_user s) {
    current_assistant_content =
        s.current_assistant_content ++ text m.content ∷ uses s.drawn (calls_of m);
    drawn = drawn_for s.drawn (calls_of m);
  }
  convert tool s m = record s {
    current_user_content =
        s.current_user_content ++ tool_result (or_default [] m.tool_call_id) m.content ∷ [];
  }

  unfoldable pub convert_each : Conversion V → List (Message V) → Conversion V
  unfolding convert
  convert_each s [] = s
  convert_each s (m ∷ ms) = convert_each (convert m.role s m) ms

  unfoldable pub convert_messages :
      {F32 : Type 0}
      → AnthropicClient V F32
      → List (Message V)
      → Option Text × List (AnthropicMessage V)
  unfolding convert_each
  convert_messages client messages =
      let s = flush (convert_each started messages) in
      (or_own client.parameters.system_message s.system_message, s.anthropic_messages)
