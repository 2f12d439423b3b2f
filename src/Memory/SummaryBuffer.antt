-- ===== src/Memory/SummaryBuffer.antt =====
-- crates/gola-core/src/memory/summary_buffer.rs: recent messages, and a summary of the older ones.
use gola.Prelude.{
  ℕ, ◌+◌, ◌/◌, ◌≤◌, ◌<◌, ◌≡◌, not, ◌&&◌, List, [], ◌∷◌, ◌++◌, arith, length, length-append,
  length-take, take, drop, is_empty, ltb, Text, codes, if◌then◌else◌,
}
use gola.Core.Types.{Message}
use gola.Core.Errors.{AgentError, Result, ok, err}
use gola.Memory.Context.{select_context}
use gola.Memory.Prompt.{Llm, system_message, predict_new_summary, predict_new_summary-err}

unfoldable pub summarization_prompt : Text
summarization_prompt =
    codes
      "Progressively summarize the lines of conversation provided, adding onto the previous summary returning a new summary.\n\nEXAMPLE\nCurrent summary:\nThe human asks what the AI thinks of artificial intelligence. The AI thinks artificial intelligence is a force for good.\n\nNew lines of conversation:\nHuman: Why do you think artificial intelligence is a force for good?\nAI: Because artificial intelligence will help humans reach their full potential.\n\nNew summary:\nThe human asks what the AI thinks of artificial intelligence. The AI thinks artificial intelligence is a force for good, because it will help humans reach their full potential.\nEND OF EXAMPLE\n\nCurrent summary:\n{summary}\n\nNew lines of conversation:\n{new_lines}\n\nNew summary:"

pub record ConversationSummaryBufferMemory (V : Type 0) : Type 0 where
  pub max_token_limit : ℕ
  pub moving_summary_buffer : Text
  pub messages : List (Message V)

module _ {V : Type 0} where
  abbrev pub new : ℕ → ConversationSummaryBufferMemory V
  new limit = record { max_token_limit = limit; moving_summary_buffer = []; messages = [] }

  -- Four bytes of the content are a token.
  unfoldable pub count_tokens : List (Message V) → ℕ
  count_tokens [] = 0
  count_tokens (m ∷ ms) = length m.content / 4 + count_tokens ms

  abbrev settle :
      ConversationSummaryBufferMemory V
      → Result Text
      → Result (Unit {0}) × ConversationSummaryBufferMemory V
  settle s (ok text) = (ok tt, record s { moving_summary_buffer = text })
  settle s (err e) = (err e, s)

  -- The older half is taken out before the model is asked for its summary.
  unfoldable pub prune :
      Llm V
      → ConversationSummaryBufferMemory V
      → Result (Unit {0}) × ConversationSummaryBufferMemory V
  prune llm s =
      let half = length s.messages / 2 in
      let pruned = take half s.messages in
      let s' : ConversationSummaryBufferMemory V = record s { messages = drop half s.messages } in
      let summarized =
        settle s' (predict_new_summary llm summarization_prompt s'.moving_summary_buffer pruned) in
      if ltb s.max_token_limit (count_tokens s.messages) && not (is_empty s.messages)
      then if is_empty pruned then (ok tt, s') else summarized
      else (ok tt, s)

  unfoldable pub add_message :
      Llm V
      → ConversationSummaryBufferMemory V
      → Message V
      → Result (Unit {0}) × ConversationSummaryBufferMemory V
  unfolding prune
  add_message llm s m = prune llm (record s { messages = s.messages ++ m ∷ [] })

  unfoldable pub get_context : ConversationSummaryBufferMemory V → List (Message V)
  unfolding select_context
  get_context s =
      (if is_empty s.moving_summary_buffer then [] else system_message s.moving_summary_buffer ∷ [])
      ++ select_context s.messages

  abbrev pub clear : ConversationSummaryBufferMemory V → ConversationSummaryBufferMemory V
  clear s = record s { moving_summary_buffer = []; messages = [] }

  -- Within the limit a message is only added.
  pub add_message_within :
      (llm : Llm V) (s : ConversationSummaryBufferMemory V) (m : Message V)
      → count_tokens (s.messages ++ m ∷ []) ≤ s.max_token_limit
      → add_message llm s m ≡ (ok tt, record s { messages = s.messages ++ m ∷ [] })
  unfolding add_message
  add_message_within llm s m h = ground arith

  -- Beyond the limit the older half of the messages leaves the buffer, whatever the model answers.
  pub messages-add_message :
      (llm : Llm V) (s : ConversationSummaryBufferMemory V) (m : Message V)
      → s.max_token_limit < count_tokens (s.messages ++ m ∷ [])
      → (add_message llm s m).1.messages
        ≡ drop (length (s.messages ++ m ∷ []) / 2) (s.messages ++ m ∷ [])
  unfolding add_message
  messages-add_message llm s m h = ground (arith, length-append s.messages (m ∷ []))

  -- If the model then fails, that half is in neither the buffer nor the summary.
  pub add_message_loses :
      (llm : Llm V) (e : AgentError) (s : ConversationSummaryBufferMemory V) (m : Message V)
      → s.max_token_limit < count_tokens (s.messages ++ m ∷ [])
      → 1 ≤ length s.messages
      → ((prompt : List (Message V)) → llm prompt ≡ err e)
      → add_message llm s m ≡ (
        err e,
        record s { messages = drop (length (s.messages ++ m ∷ []) / 2) (s.messages ++ m ∷ []) },
      )
  unfolding add_message
  add_message_loses llm e s m h k f = ground (
    arith,
    length-append s.messages (m ∷ []),
    length-take (length (s.messages ++ m ∷ []) / 2) (s.messages ++ m ∷ []),
    predict_new_summary-err llm summarization_prompt s.moving_summary_buffer
        (take (length (s.messages ++ m ∷ []) / 2) (s.messages ++ m ∷ [])) e f,
  )
