-- ===== src/Llm/Providers/OpenAi/Parser.antt =====
-- The answer of the service, `generate` and `parse_response` of crates/gola-core/src/llm/providers/openai.rs.
use gola.Prelude.{
  ℕ, Option, none, some, List, [], ◌∷◌, ◌++◌, Text, codes, ◌⊎◌, inl, inr, Bool, true, false,
}
use gola.Core.Types.{ToolCall, Message, LlmResponse}
use gola.Core.Errors.{parsing_error, llm_error, Result, ok, err}
use gola.Llm.Model.{ToolMetadata}
use gola.Llm.Providers.OpenAi.{Json, OpenAiClient, build_request_body}

-- A result, or none where the code panics.
abbrev pub Parsed : Type 0 → Type 0
Parsed A = Option (Result A)

module _ {V : Type 0} where
  abbrev pub kept_call : Option (ToolCall V) → List (ToolCall V) → List (ToolCall V)
  kept_call none calls = calls
  kept_call (some call) calls = call ∷ calls

  -- The calls, with what was made of the first.
  abbrev pub with_read :
      Parsed (Option (ToolCall V)) → Parsed (List (ToolCall V)) → Parsed (List (ToolCall V))
  with_read none rest = none
  with_read (some (err e)) rest = some (err e)
  with_read (some (ok call)) none = none
  with_read (some (ok call)) (some (err e)) = some (err e)
  with_read (some (ok call)) (some (ok calls)) = some (ok (kept_call call calls))

  abbrev pub if_any : Parsed (List (ToolCall V)) → Parsed (Option (List (ToolCall V)))
  if_any none = none
  if_any (some (err e)) = some (err e)
  if_any (some (ok [])) = some (ok none)
  if_any (some (ok (c ∷ cs))) = some (ok (some (c ∷ cs)))

  abbrev pub read_arguments : Text → Text → Text ⊎ V → Result (Option (ToolCall V))
  read_arguments id name (inl e) =
      err (parsing_error (codes "Invalid tool call arguments JSON: " ++ e))
  read_arguments id name (inr arguments) =
      ok (some (record { id = some id; name = name; arguments = arguments }))

  abbrev pub response_of :
      Option Text → Parsed (Option (List (ToolCall V))) → Parsed (LlmResponse V)
  response_of content none = none
  response_of content (some (err e)) = some (err e)
  response_of none (some (ok none)) =
      some (err (parsing_error (codes "Response has neither content nor tool calls")))
  response_of none (some (ok (some calls))) =
      some (
        ok (record { content = none; tool_calls = some calls; finish_reason = none; usage = none }))
  response_of (some text) (some (ok calls)) =
      some (
        ok (record { content = some text; tool_calls = calls; finish_reason = none; usage = none }))

-- What comes of a post: an error, or a status, whether it is a success, and a text, if it can be read.
abbrev pub Posted : Type 0
Posted = Text ⊎ (Text × Bool × (Text ⊎ Text))

module _ {V : Type 0} (json : Json V) where
  abbrev pub read_texts : Text → Option Text → Option Text → Parsed (Option (ToolCall V))
  read_texts id (some name) (some arguments_str) =
      some (read_arguments id name (json.from_str arguments_str))
  read_texts id _ _ = some (ok none)

  abbrev pub read_entries : Text → Option V → Option V → Parsed (Option (ToolCall V))
  read_entries id (some name) (some arguments) =
      read_texts id (json.as_str name) (json.as_str arguments)
  read_entries id _ _ = none

  abbrev pub read_function : Option Text → Option (Text → Option V) → Parsed (Option (ToolCall V))
  read_function (some id) (some function) =
      read_entries id (function (codes "name")) (function (codes "arguments"))
  read_function _ _ = some (ok none)

  unfoldable pub parse_call : V → Parsed (Option (ToolCall V))
  parse_call call =
      read_function (json.as_str (json.get call (codes "id")))
        (json.as_object (json.get call (codes "function")))

  unfoldable pub parse_calls : List V → Parsed (List (ToolCall V))
  unfolding parse_call
  parse_calls [] = some (ok [])
  parse_calls (c ∷ cs) = with_read (parse_call c) (parse_calls cs)

  abbrev pub calls_in : Option (List V) → Parsed (Option (List (ToolCall V)))
  calls_in none = some (ok none)
  calls_in (some calls) = if_any (parse_calls calls)

  abbrev pub parse_message : V → Parsed (LlmResponse V)
  parse_message message =
      response_of (json.as_str (json.get message (codes "content")))
        (calls_in (json.as_array (json.get message (codes "tool_calls"))))

  abbrev pub parse_choices : Option (List V) → Parsed (LlmResponse V)
  parse_choices none = some (err (parsing_error (codes "No choices in response")))
  parse_choices (some []) = some (err (parsing_error (codes "Empty choices array")))
  parse_choices (some (choice ∷ choices)) = parse_message (json.get choice (codes "message"))

  unfoldable pub parse_response : V → Parsed (LlmResponse V)
  unfolding parse_calls
  parse_response response = parse_choices (json.as_array (json.get response (codes "choices")))

  abbrev pub parse_text : Text ⊎ V → Parsed (LlmResponse V)
  parse_text (inl e) = some (err (parsing_error (codes "Invalid JSON response: " ++ e)))
  parse_text (inr response) = parse_response response

  unfoldable pub settle_posted : Posted → Parsed (LlmResponse V)
  unfolding parse_response
  settle_posted (inl e) = some (err (llm_error (codes "HTTP request failed: " ++ e)))
  settle_posted (inr (status, success, inl e)) =
      some (err (llm_error (codes "Failed to read response: " ++ e)))
  settle_posted (inr (status, false, inr response_text)) = some (
      err (
        llm_error
          (codes "API request failed with status " ++ status ++ codes ": " ++ response_text)))
  settle_posted (inr (status, true, inr response_text)) = parse_text (json.from_str response_text)

  -- `post` sends a body to a URL with a key.
  unfoldable pub generate :
      {F32 : Type 0}
      → (Text → Text → V → Posted)
      → (ℕ → Text)
      → (F32 → V)
      → OpenAiClient F32
      → List (Message V)
      → Option (List (ToolMetadata V))
      → Parsed (LlmResponse V)
  unfolding settle_posted build_request_body
  generate post uuid float client messages tools = settle_posted (
      post (client.api_base ++ codes "/chat/completions") (codes "Bearer " ++ client.api_key)
        (build_request_body json uuid float client messages tools))
