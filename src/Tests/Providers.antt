-- ===== src/Tests/Providers.antt =====
-- Tests of crates/gola-core/src/llm/providers. A JSON value is a number.
use gola.Prelude.{ℕ, ◌≡◌, refl, none, some, List, [], ◌∷◌, ◌++◌, Text, codes, false}
use gola.Core.Types.{user, assistant, tool, Message}
use gola.Core.Errors.{ok, err, llm_error}
use gola.Llm.Providers.Anthropic.{
  AnthropicClient, AnthropicContent, text, tool_use, tool_result, AnthropicMessage, Service, status,
  uses, drawn_for, calls_of, convert, convert_each, convert_messages,
}
use gola.Llm.Providers.Anthropic.Response.{generate, settle_post}
use gola.Llm.Providers.Anthropic.Contents.{
  contents_of, user_contents, assistant_contents, AllFilled, convert_messages-contents_of,
}
use gola.Llm.Providers.Anthropic.Order.{convert_messages_late}
use gola.Llm.Providers.Anthropic.Response.{if_some}
use gola.Llm.Providers.Gemini.{
  GeminiContent, function_response, message_content, convert_gemini_response_to_llm,
  convert_messages_to_gemini_contents, to_contents,
}
use gola.Llm.Providers.Gemini.Read.{
  renewed, replying, convert_gemini_response_to_llm-message_content,
}

abbrev client : AnthropicClient ℕ ℕ
client = record {
  api_key = codes "key";
  api_base = codes "https://api.anthropic.com";
  model = codes "claude";
  parameters = record {
    temperature = 0;
    max_tokens = 100;
    top_p = 1;
    frequency_penalty = 0;
    presence_penalty = 0;
    anthropic_version = none;
    system_message = none;
    stop_sequences = [];
    safety_settings = none;
  };
}

abbrev uuid : ℕ → Text
uuid n = n ∷ []

abbrev asked : Message ℕ
asked = record { role = user; content = codes "2 + 2?"; tool_call_id = none; tool_calls = none }

abbrev called : Message ℕ
called = record {
  role = assistant;
  content = codes "I add.";
  tool_call_id = none;
  tool_calls = some (record { id = some (codes "c1"); name = codes "add"; arguments = 22 } ∷ []);
}

abbrev given : Message ℕ
given = record {
  role = tool;
  content = codes "4";
  tool_call_id = some (codes "c1");
  tool_calls = none;
}

abbrev conversation : List (Message ℕ)
conversation = asked ∷ called ∷ given ∷ []

-- The result of the tool comes before the call.
converted :
    (convert_messages uuid client conversation).1
    ≡ record { role = codes "user"; content = text (codes "2 + 2?") ∷ [] }
      ∷ record { role = codes "user"; content = tool_result (codes "c1") (codes "4") ∷ [] }
      ∷ record {
        role = codes "assistant";
        content = text (codes "I add.") ∷ tool_use (codes "c1") (codes "add") 22 ∷ [];
      }
      ∷ []
unfolding convert_messages convert_each convert uses drawn_for
converted = refl

abbrev service : Service ℕ ℕ
service = record {
  post = λ url key version request. status (codes "429") none;
  error_message = λ t. none;
  is_positive = λ x. false;
  is_below_one = λ x. false;
}

refuses :
    generate service uuid client conversation none
    ≡ err (llm_error (codes "HTTP 429 error: Unknown error"))
unfolding generate settle_post
refuses = refl

convert_messages-contents_of_example :
    (contents_of (codes "user") (convert_messages uuid client conversation).1
      ≡ user_contents conversation)
    × (contents_of (codes "assistant") (convert_messages uuid client conversation).1
        ≡ assistant_contents uuid 0 conversation)
    × AllFilled (convert_messages uuid client conversation).1
convert_messages-contents_of_example = convert_messages-contents_of uuid client conversation

convert_messages_late_example :
    (front : List (AnthropicMessage ℕ)) × (cs : List (AnthropicContent ℕ)) × (n : ℕ)
    × ((convert_messages uuid client conversation).1
        ≡ front
          ++ record {
            role = codes "assistant";
            content = cs ++ text (codes "I add.") ∷ uses uuid n (calls_of called);
          }
            ∷ [])
    × (contents_of (codes "user") front ≡ user_contents conversation)
convert_messages_late_example =
    convert_messages_late uuid client (asked ∷ []) called (given ∷ []) refl (refl, tt)

-- The function's response carries the identifier of the call in the place of the function's name.
named_by_id :
    (convert_messages_to_gemini_contents (λ t. 0) (given ∷ [])).1
    ≡ record { role = some (codes "function"); parts = function_response (codes "c1") 0 ∷ [] } ∷ []
unfolding to_contents message_content
named_by_id = refl

convert_gemini_response_to_llm-message_content_example :
    (content : GeminiContent ℕ) × (message_content (λ t. 0) assistant called ≡ content ∷ [])
    × (convert_gemini_response_to_llm uuid (replying uuid content none none)
        ≡ ok (record {
          content = if_some (codes "I add.");
          tool_calls = if_some (
              renewed uuid 0
                (record { id = some (codes "c1"); name = codes "add"; arguments = 22 } ∷ []));
          finish_reason = none;
          usage = none;
        }))
convert_gemini_response_to_llm-message_content_example =
    convert_gemini_response_to_llm-message_content uuid (λ t. 0) called none none
