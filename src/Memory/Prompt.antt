-- ===== src/Memory/Prompt.antt =====
-- The prompts that ask the model for a summary: conversation_summary.rs and summary_buffer.rs of
-- crates/gola-core/src/memory. A prompt's fixed text is an argument of `predict_new_summary`.
use gola.Prelude.{replace_from, ◌≡◌, none, some, List, [], ◌∷◌, ◌++◌, map, Text, codes}
use gola.Core.Types.{Role, system, user, assistant, tool, Message, LlmResponse}
use gola.Core.Errors.{AgentError, Result, ok, err, ◌>>=◌}

-- The model, a service: it answers a list of messages or fails.
abbrev pub Llm : Type 0 → Type 0
Llm V = List (Message V) → Result (LlmResponse V)

-- `{:?}` of a role.
abbrev debug_role : Role → Text
debug_role system = codes "System"
debug_role user = codes "User"
debug_role assistant = codes "Assistant"
debug_role tool = codes "Tool"

-- `join("\n")`
unfoldable pub join_lines : List Text → Text
join_lines [] = []
join_lines (l ∷ []) = l
join_lines (l ∷ k ∷ ls) = l ++ codes "\n" ++ join_lines (k ∷ ls)

module _ {V : Type 0} where
  abbrev pub system_message : Text → Message V
  system_message text = record {
    role = system;
    content = text;
    tool_call_id = none;
    tool_calls = none;
  }

  unfoldable pub new_lines : List (Message V) → Text
  unfolding join_lines
  new_lines ms = join_lines (map (λ m. debug_role m.role ++ codes ": " ++ m.content) ms)

  unfoldable pub summary_prompt : Text → Text → List (Message V) → Text
  unfolding new_lines replace_from
  summary_prompt template summary ms =
      replace_from 0 (codes "{new_lines}") (new_lines ms)
        (replace_from 0 (codes "{summary}") summary template)

  abbrev pub content_or_empty : LlmResponse V → Text
  content_or_empty r = elim r.content [ none ↦ [] | some text ↦ text ]

  unfoldable pub predict_new_summary : Llm V → Text → Text → List (Message V) → Result Text
  predict_new_summary llm template summary ms =
      llm (system_message (summary_prompt template summary ms) ∷ []) >>= λ r.
      ok (content_or_empty r)

  pub predict_new_summary-err :
      (llm : Llm V) (template summary : Text) (ms : List (Message V)) (e : AgentError)
      → ((prompt : List (Message V)) → llm prompt ≡ err e)
      → predict_new_summary llm template summary ms ≡ err e
  unfolding predict_new_summary
  predict_new_summary-err llm template summary ms e h = rw h
