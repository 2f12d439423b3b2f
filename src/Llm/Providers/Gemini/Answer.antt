-- ===== src/Llm/Providers/Gemini/Answer.antt =====
-- The request and the answer of crates/gola-core/src/llm/providers/gemini.rs, and how a client is made.
use mathlib.Core.Option
use gola.Prelude.{ℕ, Option, none, some, List, [], ◌++◌, Text, codes, inl, inr}
use gola.Core.Types.{Message, LlmResponse}
use gola.Core.Errors.{llm_error, parsing_error, Result, err, ◌>>=◌}
use gola.Llm.Model.{ToolMetadata}
use gola.Config.Types.Llm.{LlmConfig}
use gola.Llm.Providers.Anthropic.{or_default}
use gola.Llm.Providers.Gemini.{
  GeminiClient, GeminiContent, GeminiRequest, GeminiPosted, unsent, failure, replied, GeminiService,
  gemini_key, client_for, convert_messages_to_gemini_contents, convert_tools_to_gemini,
  convert_gemini_response_to_llm, to_contents,
}

module _ {V F32 : Type 0} where
  unfoldable pub create_gemini : (Text → Option Text) → LlmConfig V F32 → Result GeminiClient
  unfolding gemini_key client_for
  create_gemini env_var config =
      gemini_key env_var config.auth.api_key config.auth.api_key_env >>= λ api_key.
      client_for config.provider api_key config.model

module _ {V F32 : Type 0} (service : GeminiService V F32) (uuid : ℕ → Text)
    (content_value : Text → V) where
  unfoldable pub gemini_request :
      Option (List (ToolMetadata V))
      → Option (GeminiContent V) × List (GeminiContent V)
      → GeminiRequest V F32
  unfolding convert_tools_to_gemini
  gemini_request tools (system_instruction, contents) = record {
    contents = contents;
    generation_config = record {
      temperature = service.temperature_used;
      max_output_tokens = 4096;
      top_p = service.top_p_used;
      stop_sequences = [];
    };
    safety_settings = none;
    system_instruction = system_instruction;
    tools = Option.map convert_tools_to_gemini tools;
  }

  abbrev pub failed_with : Text → Text → Option (Text × Text) → Result (LlmResponse V)
  failed_with status error_text (some (code, message)) =
      err (llm_error (codes "Gemini API error " ++ code ++ codes ": " ++ message))
  failed_with status error_text none = err (
      llm_error
        (codes "Gemini API request failed with status " ++ status ++ codes ": " ++ error_text))

  unfoldable pub settle_reply : GeminiPosted V → Result (LlmResponse V)
  unfolding convert_gemini_response_to_llm
  settle_reply (unsent e) = err (llm_error (codes "Gemini API request failed: " ++ e))
  settle_reply (failure status error_text) =
      let known = or_default (codes "Unknown error") error_text in
      failed_with status known (service.error_details known)
  settle_reply (replied (inl e)) =
      err (parsing_error (codes "Failed to parse Gemini response: " ++ e))
  settle_reply (replied (inr response)) = convert_gemini_response_to_llm uuid response

  unfoldable pub generate_by_gemini :
      GeminiClient → List (Message V) → Option (List (ToolMetadata V)) → Result (LlmResponse V)
  unfolding settle_reply gemini_request to_contents
  generate_by_gemini client messages tools = settle_reply (
      service.post_to
        (client.base_url
          ++ codes "/models/"
          ++ client.model
          ++ codes ":generateContent?key="
          ++ client.api_key)
        (gemini_request tools (convert_messages_to_gemini_contents content_value messages)))
