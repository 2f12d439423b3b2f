-- ===== src/Llm/Providers/Anthropic/Response.antt =====
-- The request and the answer of crates/gola-core/src/llm/providers/anthropic.rs.
use gola.Prelude.{
  ℕ, ◌+◌, ◌%◌, ◌^◌, Option, none, some, List, [], ◌∷◌, ◌++◌, map, Text, codes, inl, inr,
  if◌then◌else◌,
}
use gola.Core.Types.{ToolCall, Message, LlmResponse}
use gola.Core.Errors.{llm_error, Result, ok, err}
use gola.Llm.Model.{ToolMetadata}
use gola.Llm.Providers.Anthropic.{
  AnthropicClient, AnthropicMessage, AnthropicTool, AnthropicRequest, AnthropicResponseContent,
  said_text, used_tool, AnthropicResponse, Posted, not_sent, status, body, Service, or_default,
  default_anthropic_version, convert_messages,
}

abbrev pub if_some : {A : Type 0} → List A → Option (List A)
if_some [] = none
if_some (x ∷ xs) = some (x ∷ xs)

abbrev pub refusal : {V : Type 0} → Text → Text → Option Text → Result (LlmResponse V)
refusal code error_text (some message) =
    err (llm_error (codes "Anthropic API error (" ++ code ++ codes "): " ++ message))
refusal code error_text none =
    err (llm_error (codes "HTTP " ++ code ++ codes " error: " ++ error_text))

module _ {V : Type 0} where
  unfoldable pub convert_tools : Option (List (ToolMetadata V)) → List (AnthropicTool V)
  convert_tools none = []
  convert_tools (some tools) =
      map
        (λ t. record { name = t.name; description = t.description; input_schema = t.input_schema })
        tools

  unfoldable pub texts : List (AnthropicResponseContent V) → Text
  texts [] = []
  texts (said_text t ∷ blocks) = t ++ texts blocks
  texts (used_tool id name input ∷ blocks) = texts blocks

  unfoldable pub tool_calls : List (AnthropicResponseContent V) → List (ToolCall V)
  tool_calls [] = []
  tool_calls (said_text t ∷ blocks) = tool_calls blocks
  tool_calls (used_tool id name input ∷ blocks) =
      record { id = some id; name = name; arguments = input } ∷ tool_calls blocks

  -- The sum of `u32` numbers, which a release build does not check.
  unfoldable pub convert_response : AnthropicResponse V → LlmResponse V
  unfolding texts tool_calls
  convert_response response = record {
    content = if_some (texts response.content);
    tool_calls = if_some (tool_calls response.content);
    finish_reason = response.stop_reason;
    usage = some (record {
      prompt_tokens = response.usage.input_tokens;
      completion_tokens = response.usage.output_tokens;
      total_tokens = (response.usage.input_tokens + response.usage.output_tokens) % 2 ^ 32;
    });
  }

module _ {V F32 : Type 0} (service : Service V F32) (uuid : ℕ → Text) where
  unfoldable pub request_of :
      AnthropicClient V F32
      → Option (List (ToolMetadata V))
      → Option Text × List (AnthropicMessage V)
      → AnthropicRequest V F32
  unfolding convert_tools
  request_of client tools (system_message, messages) = record {
    model = client.model;
    max_tokens = client.parameters.max_tokens;
    messages = messages;
    system_message = system_message;
    temperature =
        if service.is_positive client.parameters.temperature
        then some client.parameters.temperature
        else none;
    top_p =
        if service.is_below_one client.parameters.top_p then some client.parameters.top_p else none;
    stop_sequences = client.parameters.stop_sequences;
    tools = convert_tools tools;
  }

  unfoldable pub settle_post : Posted V → Result (LlmResponse V)
  unfolding convert_response
  settle_post (not_sent e) = err (llm_error (codes "Request failed: " ++ e))
  settle_post (status code error_text) =
      let known = or_default (codes "Unknown error") error_text in
      refusal code known (service.error_message known)
  settle_post (body (inl e)) = err (llm_error (codes "Failed to parse response: " ++ e))
  settle_post (body (inr response)) = ok (convert_response response)

  unfoldable pub generate :
      AnthropicClient V F32
      → List (Message V)
      → Option (List (ToolMetadata V))
      → Result (LlmResponse V)
  unfolding convert_messages request_of settle_post
  generate client messages tools = settle_post (
      service.post (client.api_base ++ codes "/v1/messages") client.api_key
        (or_default default_anthropic_version client.parameters.anthropic_version)
        (request_of client tools (convert_messages uuid client messages)))
