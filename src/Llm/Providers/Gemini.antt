-- ===== src/Llm/Providers/Gemini.antt =====
-- crates/gola-core/src/llm/providers/gemini.rs. The package reqwest is the parameter `Service`; `f32` and the
-- drawing of identifiers are parameters too.
pub mod Answer
pub mod Read
use mathlib.Core.Option
use gola.Prelude.{
  ℕ, suc, Bool, true, false, Option, none, some, List, [], ◌∷◌, ◌++◌, map, is_empty, Text, codes,
  ◌⊎◌, inl, inr, if◌then◌else◌,
}
use gola.Core.Types.{Role, system, user, assistant, tool, ToolCall, Message, Usage, LlmResponse}
use gola.Core.Errors.{config_error, llm_error, parsing_error, Result, ok, err}
use gola.Llm.Model.{ToolMetadata}
use gola.Config.Types.Llm.{LlmConfig, LlmProvider, gemini, custom}
use gola.Llm.Providers.Anthropic.{calls_of}
use gola.Llm.Providers.Anthropic.Response.{if_some}

pub record GeminiClient : Type 0 where
  pub api_key : Text
  pub model : Text
  pub base_url : Text

pub data GeminiPart (V : Type 0) : Type 0 where
  text_part : Text → GeminiPart V
  function_call : Text → V → GeminiPart V
  function_response : Text → V → GeminiPart V

pub record GeminiContent (V : Type 0) : Type 0 where
  pub role : Option Text
  pub parts : List (GeminiPart V)

pub record GeminiFunctionDeclaration (V : Type 0) : Type 0 where
  pub name : Text
  pub description : Text
  pub parameters : V

pub record GeminiGenerationConfig (F32 : Type 0) : Type 0 where
  pub temperature : F32
  pub max_output_tokens : ℕ
  pub top_p : F32
  pub stop_sequences : List Text

pub record GeminiRequest (V : Type 0) (F32 : Type 0) : Type 0 where
  pub contents : List (GeminiContent V)
  pub generation_config : GeminiGenerationConfig F32
  pub safety_settings : Option V
  pub system_instruction : Option (GeminiContent V)
  -- A `GeminiTool` is the list of its declarations.
  pub tools : Option (List (List (GeminiFunctionDeclaration V)))

-- The counts are of the type `i32`, here what `as u32` makes of them.
pub record GeminiUsage : Type 0 where
  pub prompt_token_count : Option ℕ
  pub candidates_token_count : Option ℕ
  pub total_token_count : Option ℕ

pub record GeminiCandidate (V : Type 0) : Type 0 where
  pub content : GeminiContent V
  pub finish_reason : Option Text

pub record GeminiResponse (V : Type 0) : Type 0 where
  pub candidates : List (GeminiCandidate V)
  pub usage_metadata : Option GeminiUsage

-- What comes of a post: it fails, its status is no success, or it has a body that is read as a response.
pub data GeminiPosted (V : Type 0) : Type 0 where
  unsent : Text → GeminiPosted V
  failure : Text → Option Text → GeminiPosted V
  replied : Text ⊎ GeminiResponse V → GeminiPosted V

-- A post of a request to a URL, and the code and the message of a body that serde_json reads as a `GeminiError`.
pub record GeminiService (V : Type 0) (F32 : Type 0) : Type 0 where
  pub post_to : Text → GeminiRequest V F32 → GeminiPosted V
  pub error_details : Text → Option (Text × Text)
  -- 0.7 and 0.9
  pub temperature_used : F32
  pub top_p_used : F32

abbrev pub gemini_url : Text
gemini_url = codes "https://generativelanguage.googleapis.com/v1beta"

unfoldable pub new_gemini : Text → Text → GeminiClient
new_gemini api_key model = record { api_key = api_key; model = model; base_url = gemini_url }

unfoldable pub with_base_url : Text → Text → Text → GeminiClient
with_base_url api_key model base_url = record {
  api_key = api_key;
  model = model;
  base_url = base_url;
}

abbrev pub found_in : Text → Option Text → Result Text
found_in message none = err (config_error message)
found_in message (some key) = ok key

-- `env_var` is `std::env::var`.
unfoldable pub gemini_key : (Text → Option Text) → Option Text → Option Text → Result Text
gemini_key env_var (some key) variable = ok key
gemini_key env_var none (some variable) =
    found_in (codes "Environment variable " ++ variable ++ codes " not found for Gemini API key")
      (env_var variable)
gemini_key env_var none none =
    found_in
      (codes
        "No API key found for Gemini. Set GEMINI_API_KEY environment variable or provide api_key in config")
      (env_var (codes "GEMINI_API_KEY"))

unfoldable pub client_for : LlmProvider → Text → Text → Result GeminiClient
unfolding new_gemini with_base_url
client_for gemini api_key model = ok (new_gemini api_key model)
client_for (custom base_url) api_key model = ok (with_base_url api_key model base_url)
client_for _ api_key model = err (config_error (codes "Invalid provider for Gemini client"))

module _ {V : Type 0} where
  abbrev pub text_parts : Text → List (GeminiPart V)
  text_parts [] = []
  text_parts (b ∷ bs) = text_part (b ∷ bs) ∷ []

  abbrev pub name_of : Message V → Text
  name_of m = elim m.tool_call_id [ none ↦ m.content | some id ↦ id ]

  -- The content of one message; `content_value` is `json!({ "content": … })`.
  unfoldable pub message_content : (Text → V) → Role → Message V → List (GeminiContent V)
  message_content content_value system m = []
  message_content content_value user m =
      record { role = some (codes "user"); parts = text_part m.content ∷ [] } ∷ []
  message_content content_value assistant m =
      record {
        role = some (codes "model");
        parts = text_parts m.content ++ map (λ c. function_call c.name c.arguments) (calls_of m);
      }
      ∷ []
  message_content content_value tool m =
      record {
        role = some (codes "function");
        parts = function_response (name_of m) (content_value m.content) ∷ [];
      }
      ∷ []

  abbrev pub instruction : Role → Message V → Option (GeminiContent V) → Option (GeminiContent V)
  instruction system m last = some (record { role = none; parts = text_part m.content ∷ [] })
  instruction _ m last = last

  unfoldable pub to_contents :
      (Text → V)
      → Option (GeminiContent V) × List (GeminiContent V)
      → List (Message V)
      → Option (GeminiContent V) × List (GeminiContent V)
  unfolding message_content
  to_contents content_value (last, contents) [] = (last, contents)
  to_contents content_value (last, contents) (m ∷ ms) =
      to_contents content_value
        (instruction m.role m last, contents ++ message_content content_value m.role m) ms

  abbrev pub convert_messages_to_gemini_contents :
      (Text → V) → List (Message V) → Option (GeminiContent V) × List (GeminiContent V)
  convert_messages_to_gemini_contents content_value ms = to_contents content_value (none, []) ms

  unfoldable pub convert_tools_to_gemini :
      List (ToolMetadata V) → List (List (GeminiFunctionDeclaration V))
  convert_tools_to_gemini [] = []
  convert_tools_to_gemini (t ∷ ts) =
      map (λ m. record { name = m.name; description = m.description; parameters = m.input_schema })
        (t ∷ ts)
      ∷ []

  unfoldable pub part_texts : List (GeminiPart V) → List Text
  part_texts [] = []
  part_texts (text_part t ∷ parts) = t ∷ part_texts parts
  part_texts (function_call name args ∷ parts) = part_texts parts
  part_texts (function_response name response ∷ parts) = part_texts parts

  -- The calls, where `n` identifiers were drawn before.
  unfoldable pub part_calls : (ℕ → Text) → ℕ → List (GeminiPart V) → List (ToolCall V)
  part_calls uuid n [] = []
  part_calls uuid n (text_part t ∷ parts) = part_calls uuid n parts
  part_calls uuid n (function_call name args ∷ parts) =
      record { id = some (codes "call_" ++ uuid n); name = name; arguments = args }
      ∷ part_calls uuid (suc n) parts
  part_calls uuid n (function_response name response ∷ parts) = part_calls uuid n parts

abbrev pub count_or_zero : Option ℕ → ℕ
count_or_zero none = 0
count_or_zero (some n) = n

abbrev pub spaced : Text → List Text → Text
spaced t [] = t
spaced t (u ∷ us) = t ++ codes " " ++ spaced u us

abbrev pub joined_texts : List Text → Option Text
joined_texts [] = none
joined_texts (t ∷ ts) = some (spaced t ts)

abbrev pub usage_of : GeminiUsage → Usage
usage_of u = record {
  prompt_tokens = count_or_zero u.prompt_token_count;
  completion_tokens = count_or_zero u.candidates_token_count;
  total_tokens = count_or_zero u.total_token_count;
}

module _ {V : Type 0} (uuid : ℕ → Text) where
  abbrev pub of_candidates : Option GeminiUsage → List (GeminiCandidate V) → Result (LlmResponse V)
  of_candidates usage [] = err (llm_error (codes "No candidates in Gemini response"))
  of_candidates usage (candidate ∷ candidates) = ok (record {
    content = joined_texts (part_texts candidate.content.parts);
    tool_calls = if_some (part_calls uuid 0 candidate.content.parts);
    finish_reason = candidate.finish_reason;
    usage = Option.map usage_of usage;
  })

  unfoldable pub convert_gemini_response_to_llm : GeminiResponse V → Result (LlmResponse V)
  unfolding part_texts part_calls
  convert_gemini_response_to_llm response =
      of_candidates response.usage_metadata response.candidates
