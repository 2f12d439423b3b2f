-- ===== src/Llm/Truncation.antt =====
-- crates/gola-core/src/llm/context_truncation.rs and summarizer.rs beside it: a model that drops a
-- part of the messages and asks again when the model behind it has no room for them, or no time.
-- The waiting between two attempts is `retry_delay`, and the sleep itself and logging are left
-- out. `f32` is a parameter, with the operations that the source makes of it.
pub mod Window
pub mod Last
pub mod Attempts
use gola.Prelude.{
  has, ℕ, zero, suc, ◌+◌, ◌-◌, ◌/◌, ◌^◌, Bool, true, false, not, ◌&&◌, ◌||◌, Option, none, some,
  List, [], ◌∷◌, ◌++◌, length, drop, insert, Text, codes, decimal, leb, ltb, ◌==◌, if◌then◌else◌,
}
use gola.Core.Types.{Role, system, user, assistant, tool, Message, LlmResponse}
use gola.Core.Errors.{AgentError, llm_error, display, Result, ok, err}
use gola.Llm.Model.{ToolMetadata, Request, Requests, Model, ask}
use gola.Memory.Prompt.{system_message}

-- `f32`: `(n as f32 * x).ceil() as usize`, `(x + 0.1).min(0.8)`, `x.clamp(0.1, 0.9)` and `0.5`.
pub record Scale (F : Type 0) : Type 0 where
  pub part : ℕ → F → ℕ
  pub grow : F → F
  pub bounded : F → F
  pub half : F

pub record ContextTruncatingLlm (F : Type 0) : Type 0 where
  pub max_retries : ℕ
  pub truncation_ratio : F
  pub min_messages : ℕ
  pub summarization_threshold : ℕ

module _ {F : Type 0} (f32 : Scale F) where
  abbrev pub new : ContextTruncatingLlm F
  new = record {
    max_retries = 5;
    truncation_ratio = f32.half;
    min_messages = 1;
    summarization_threshold = 500;
  }

  abbrev pub with_truncation_ratio : ContextTruncatingLlm F → F → ContextTruncatingLlm F
  with_truncation_ratio t ratio = record t { truncation_ratio = f32.bounded ratio }

module _ {F : Type 0} where
  abbrev pub with_max_retries : ContextTruncatingLlm F → ℕ → ContextTruncatingLlm F
  with_max_retries t n = record t { max_retries = n }

  abbrev pub with_min_messages : ContextTruncatingLlm F → ℕ → ContextTruncatingLlm F
  with_min_messages t n = record t { min_messages = if leb n 1 then 1 else n }

  abbrev pub with_summarization_threshold : ContextTruncatingLlm F → ℕ → ContextTruncatingLlm F
  with_summarization_threshold t n = record t { summarization_threshold = n }

-- The seconds before an attempt; `min(30)` is applied to the power, which a `u64` holds for up to
-- 64 attempts.
abbrev pub retry_delay : ℕ → ℕ
retry_delay zero = 0
retry_delay (suc n) = if leb (2 ^ n) 30 then 2 ^ n else 30

unfoldable pub any_of : List Text → Text → Bool
any_of [] s = false
any_of (part ∷ parts) s = has s part || any_of parts s

unfoldable pub context_signs : List Text
context_signs =
    codes "429"
    ∷ codes "413"
    ∷ codes "rate limit"
    ∷ codes "too many requests"
    ∷ codes "payload too large"
    ∷ codes "request too large"
    ∷ codes "context length"
    ∷ codes "token limit"
    ∷ codes "maximum context"
    ∷ codes "context window"
    ∷ []

unfoldable pub is_context_or_rate_limit_error : (Text → Text) → AgentError → Bool
is_context_or_rate_limit_error to_lowercase e = elim e [
  | llm_error msg ↦ any_of context_signs (to_lowercase msg)
  | _ ↦ false
]

unfoldable pub summarizer_prompt : Text → Text
summarizer_prompt content =
    codes
      "Summarize the following content concisely. Focus on the key results and main points. Do not omit important identifiers, names, or numbers. The summary should be significantly shorter than the original. \n\nCONTENT:\n"
    ++ content
    ++ codes "\n\nSUMMARY:"

unfoldable pub summary_of : Option Text → Text
summary_of none =
    codes "[Content summarized to fit context]:\nContent was too long and summarization failed."
summary_of (some summary) = codes "[Content summarized to fit context]:\n" ++ summary

unfoldable pub truncation_notice : ℕ → Text
truncation_notice n =
    codes "[Context truncated: " ++ decimal n ++ codes " messages removed to fit within limits]"

unfoldable pub failed_after : ℕ → AgentError → AgentError
failed_after attempts e = llm_error (
    codes "Failed after "
    ++ decimal attempts
    ++ codes " attempts with context truncation: "
    ++ display e)

module _ {V : Type 0} where
  unfoldable pub summary_or_fallback : Result (LlmResponse V) → Text
  summary_or_fallback (ok response) = summary_of response.content
  summary_or_fallback (err _) =
      codes "[Content was too long and summarization failed. Please check logs.]"

  unfoldable pub summarize_message_content :
      Model V → Requests V → Text → ℕ → Result Text × Requests V
  summarize_message_content model sent content threshold =
      let asked = ask model sent (system_message (summarizer_prompt content) ∷ []) none in
      if leb (length content / 4) threshold
      then (ok content, sent)
      else (ok (summary_or_fallback asked.0), asked.1)

  -- `message.content = new_content`, if that is shorter.
  unfoldable pub shorten : Result Text → Message V → Message V
  shorten (ok content) m =
      if ltb (length content) (length m.content) then record m { content = content } else m
  shorten (err _) m = m

  -- The first step, of the loop over the tool messages.
  unfoldable pub summarize_tools :
      Model V → ℕ → Requests V → List (Message V) → List (Message V) × Requests V
  unfolding summarize_message_content shorten
  summarize_tools model threshold sent [] = ([], sent)
  summarize_tools model threshold sent (m ∷ ms) =
      let s = summarize_message_content model sent m.content threshold in
      let after = summarize_tools model threshold s.1 ms in
      let past = summarize_tools model threshold sent ms in
      elim m.role [ tool ↦ (shorten s.0 m ∷ after.0, after.1) | _ ↦ (m ∷ past.0, past.1) ]

  -- The system message that stands first, and the other messages.
  unfoldable pub system_first : List (Message V) → List (Message V) × List (Message V)
  system_first [] = ([], [])
  system_first (m ∷ ms) = elim m.role [ system ↦ (m ∷ [], ms) | _ ↦ ([], m ∷ ms) ]

  unfoldable pub last : List (Message V) → Option (Message V)
  last [] = none
  last (m ∷ []) = some m
  last (m ∷ n ∷ ms) = last (n ∷ ms)

  -- The second step, which is to remove `n` of the `remaining` messages.
  unfoldable pub kept_messages : List (Message V) → ℕ → List (Message V)
  unfolding last
  kept_messages remaining n =
      let keep = length remaining - n in
      if keep == 0
      then (elim (last remaining) [ none ↦ [] | some m ↦ m ∷ [] ])
      else drop (length remaining - keep) remaining

  unfoldable pub remove_messages : (ℕ → ℕ) → List (Message V) → List (Message V)
  unfolding system_first kept_messages
  remove_messages part ms =
      let (first, remaining) = system_first ms in
      let n = part (length remaining) in
      let result = first ++ kept_messages remaining n in
      if ltb 0 n
      then insert (length first) (system_message (truncation_notice n)) result
      else result

  module _ {F : Type 0} (f32 : Scale F) where
    unfoldable pub truncate_messages :
        ContextTruncatingLlm F
        → Model V
        → Requests V
        → List (Message V)
        → F
        → List (Message V) × Requests V
    unfolding summarize_tools remove_messages
    truncate_messages t model sent ms factor =
        let s = summarize_tools model t.summarization_threshold sent ms in
        if leb (length ms) t.min_messages
        then (ms, sent)
        else (remove_messages (λ n. f32.part n factor) s.0, s.1)

    module _ (to_lowercase : Text → Text) where
      -- The attempt `n` of the loop, after which `left` are left.
      unfoldable pub attempts :
          ℕ
          → ℕ
          → ContextTruncatingLlm F
          → Model V
          → Requests V
          → List (Message V)
          → Option (List (ToolMetadata V))
          → F
          → Result (LlmResponse V) × Requests V
      unfolding truncate_messages
      attempts zero n t model sent ms tools factor =
          let asked = ask model sent ms tools in
          elim asked.0 [
            | ok response ↦ asked
            | err e ↦
                if is_context_or_rate_limit_error to_lowercase e
                then (err (failed_after (t.max_retries + 1) e), asked.1)
                else asked
          ]
      attempts (suc left) n t model sent ms tools factor =
          let asked = ask model sent ms tools in
          let cut = truncate_messages t model asked.1 ms factor in
          let rest = attempts left (suc n) t model cut.1 cut.0 tools (f32.grow factor) in
          elim asked.0 [
            | ok response ↦ asked
            | err e ↦
                if is_context_or_rate_limit_error to_lowercase e
                then (if leb (length cut.0) t.min_messages
                    then (err (failed_after (n + 1) e), cut.1)
                    else rest)
                else asked
          ]

      unfoldable pub generate :
          ContextTruncatingLlm F
          → Model V
          → Requests V
          → List (Message V)
          → Option (List (ToolMetadata V))
          → Result (LlmResponse V) × Requests V
      unfolding attempts
      generate t model sent ms tools =
          attempts t.max_retries 0 t model sent ms tools t.truncation_ratio
