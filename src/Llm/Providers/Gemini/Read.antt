-- ===== src/Llm/Providers/Gemini/Read.antt =====
-- A message as crates/gola-core/src/llm/providers/gemini.rs sends it, and as it reads it in an answer.
use mathlib.Core.Option
use gola.Prelude.{ℕ, suc, ◌≡◌, refl, ap, Option, some, List, [], ◌∷◌, ◌++◌, map, Text, codes}
use gola.Core.Types.{assistant, ToolCall, Message}
use gola.Core.Errors.{ok}
use gola.Llm.Providers.Anthropic.{calls_of}
use gola.Llm.Providers.Anthropic.Response.{if_some}
use gola.Llm.Providers.Gemini.{
  GeminiPart, function_call, GeminiContent, GeminiResponse, GeminiUsage, text_parts,
  message_content, part_texts, part_calls, joined_texts, usage_of, convert_gemini_response_to_llm,
}

module _ {V : Type 0} (uuid : ℕ → Text) where
  -- The calls with new identifiers.
  unfoldable pub renewed : ℕ → List (ToolCall V) → List (ToolCall V)
  renewed n [] = []
  renewed n (c ∷ cs) = record c { id = some (codes "call_" ++ uuid n) } ∷ renewed (suc n) cs

  abbrev call_parts : List (ToolCall V) → List (GeminiPart V)
  call_parts calls = map (λ c. function_call c.name c.arguments) calls

  part_calls-call_parts :
      (n : ℕ) (calls : List (ToolCall V)) → part_calls uuid n (call_parts calls) ≡ renewed n calls
  unfolding part_calls renewed
  part_calls-call_parts n [] = refl
  part_calls-call_parts n (c ∷ cs) =
      ap (λ rest. record c { id = some (codes "call_" ++ uuid n) } ∷ rest)
        (part_calls-call_parts (suc n) cs)

  part_calls-text_parts :
      (content : Text) (calls : List (ToolCall V))
      → part_calls uuid 0 (text_parts content ++ call_parts calls) ≡ renewed 0 calls
  unfolding part_calls
  part_calls-text_parts [] calls = part_calls-call_parts 0 calls
  part_calls-text_parts (b ∷ bs) calls = part_calls-call_parts 0 calls

  part_texts-call_parts : (calls : List (ToolCall V)) → part_texts (call_parts calls) ≡ []
  unfolding part_texts
  part_texts-call_parts [] = refl
  part_texts-call_parts (c ∷ cs) = part_texts-call_parts cs

  part_texts-text_parts :
      (content : Text) (calls : List (ToolCall V))
      → joined_texts (part_texts (text_parts content ++ call_parts calls)) ≡ if_some content
  unfolding part_texts
  part_texts-text_parts [] calls = ap joined_texts (part_texts-call_parts calls)
  part_texts-text_parts (b ∷ bs) calls =
      ap (λ ts. joined_texts ((b ∷ bs) ∷ ts)) (part_texts-call_parts calls)

  abbrev pub replying : GeminiContent V → Option Text → Option GeminiUsage → GeminiResponse V
  replying content finish_reason usage = record {
    candidates = record { content = content; finish_reason = finish_reason } ∷ [];
    usage_metadata = usage;
  }

  -- A message of the model becomes one content. An answer of the service with that content is read as the message's
  -- content, none where it is empty, and its calls in their order, with new identifiers, none where there are none.
  pub convert_gemini_response_to_llm-message_content :
      (content_value : Text → V) (m : Message V) (finish_reason : Option Text)
      (usage : Option GeminiUsage)
      → (content : GeminiContent V) × (message_content content_value assistant m ≡ content ∷ [])
        × (convert_gemini_response_to_llm uuid (replying content finish_reason usage)
            ≡ ok (record {
              content = if_some m.content;
              tool_calls = if_some (renewed 0 (calls_of m));
              finish_reason = finish_reason;
              usage = Option.map usage_of usage;
            }))
  unfolding message_content convert_gemini_response_to_llm
  convert_gemini_response_to_llm-message_content content_value m finish_reason usage = (
    record { role = some (codes "model"); parts = text_parts m.content ++ call_parts (calls_of m) },
    refl,
    rw (part_texts-text_parts m.content (calls_of m), part_calls-text_parts m.content (calls_of m))
        refl,
  )
