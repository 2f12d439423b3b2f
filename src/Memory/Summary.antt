-- ===== src/Memory/Summary.antt =====
-- crates/gola-core/src/memory/conversation_summary.rs: the whole conversation as one summary. What
-- was changed before an error stays changed, so a method returns its state beside its result.
use gola.Prelude.{◌≡◌, ap, ◌∙◌, List, [], ◌∷◌, ◌++◌, append-nil, append_assoc, Text, codes}
use gola.Core.Types.{Message, LlmResponse}
use gola.Core.Errors.{AgentError, Result, ok, err}
use gola.Memory.Prompt.{Llm, system_message, summary_prompt, content_or_empty, predict_new_summary}

unfoldable pub conversation_summary_prompt : Text
conversation_summary_prompt =
    codes
      "Concisely summarize the following conversation. The summary should be a single, evolving paragraph that represents the entire conversation so far.\n\n---\n\nPREVIOUS SUMMARY:\n{summary}\n\nNEW LINES:\n{new_lines}\n\n---\n\nNEW SUMMARY:"

pub record ConversationSummaryMemory (V : Type 0) : Type 0 where
  pub summary : Text
  pub messages : List (Message V)

module _ {V : Type 0} where
  abbrev pub new : ConversationSummaryMemory V
  new = record { summary = []; messages = [] }

  abbrev settle :
      ConversationSummaryMemory V → Result Text → Result (Unit {0}) × ConversationSummaryMemory V
  settle s (ok text) = (ok tt, record { summary = text; messages = [] })
  settle s (err e) = (err e, s)

  unfoldable pub add_message :
      Llm V
      → ConversationSummaryMemory V
      → Message V
      → Result (Unit {0}) × ConversationSummaryMemory V
  add_message llm s m =
      let s' : ConversationSummaryMemory V = record s { messages = s.messages ++ m ∷ [] } in
      settle s' (predict_new_summary llm conversation_summary_prompt s'.summary s'.messages)

  unfoldable pub get_context : ConversationSummaryMemory V → List (Message V)
  get_context s = system_message s.summary ∷ []

  abbrev pub clear : ConversationSummaryMemory V → ConversationSummaryMemory V
  clear s = record { summary = []; messages = [] }

  -- Adds the messages one by one, and goes on after an error, as the caller may.
  unfoldable pub add_all :
      Llm V → ConversationSummaryMemory V → List (Message V) → ConversationSummaryMemory V
  unfolding add_message
  add_all llm s [] = s
  add_all llm s (m ∷ ms) = add_all llm (add_message llm s m).1 ms

  -- What the state is after a failed call: the message waits, and the summary stands.
  add_message-err :
      (llm : Llm V) (e : AgentError) (s : ConversationSummaryMemory V) (m : Message V)
      → ((prompt : List (Message V)) → llm prompt ≡ err e)
      → add_message llm s m ≡ (err e, record s { messages = s.messages ++ m ∷ [] })
  unfolding add_message predict_new_summary
  add_message-err llm e s m h = rw h

  add_message-ok :
      (llm : Llm V) (s : ConversationSummaryMemory V) (m : Message V) (r : LlmResponse V)
      → llm (
          system_message
            (summary_prompt conversation_summary_prompt s.summary (s.messages ++ m ∷ []))
          ∷ [])
        ≡ ok r
      → add_message llm s m ≡ (ok tt, record { summary = content_or_empty r; messages = [] })
  unfolding add_message predict_new_summary
  add_message-ok llm s m r h = rw h

  add_all_failing :
      (llm : Llm V) (e : AgentError) (s : ConversationSummaryMemory V) (ms : List (Message V))
      → ((prompt : List (Message V)) → llm prompt ≡ err e)
      → add_all llm s ms ≡ record s { messages = s.messages ++ ms }
  unfolding add_all
  add_all_failing llm e s [] h = rw append-nil
  add_all_failing llm e s (m ∷ ms) h =
      ap (λ (r : Result (Unit {0}) × ConversationSummaryMemory V). add_all llm r.1 ms)
        (add_message-err llm e s m h)
      ∙ add_all_failing llm e (record s { messages = s.messages ++ m ∷ [] }) ms h
      ∙ rw append_assoc

  -- A conversation that meets a model that fails loses nothing: the first call that is answered is
  -- asked to summarize every message since the last summary, and its answer replaces the summary.
  pub add_message_recovers :
      (failing llm : Llm V) (e : AgentError) (s : ConversationSummaryMemory V)
      (ms : List (Message V)) (m : Message V) (r : LlmResponse V)
      → ((prompt : List (Message V)) → failing prompt ≡ err e)
      → llm (
          system_message
            (summary_prompt conversation_summary_prompt s.summary (s.messages ++ (ms ++ m ∷ [])))
          ∷ [])
        ≡ ok r
      → add_message llm (add_all failing s ms) m
        ≡ (ok tt, record { summary = content_or_empty r; messages = [] })
  add_message_recovers failing llm e s ms m r h k =
      ap (λ w. add_message llm w m) (add_all_failing failing e s ms h)
      ∙ add_message-ok llm (record s { messages = s.messages ++ ms }) m r
          (rw (append_assoc s.messages ms (m ∷ [])) k)
