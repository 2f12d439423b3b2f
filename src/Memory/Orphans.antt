-- ===== src/Memory/Orphans.antt =====
-- What the context does to calls that were answered (crates/gola-core/src/memory with
-- crates/gola-core/src/llm/message_validator.rs, which sees the context before the model does).
use gola.Prelude.{◌≡◌, ◌∙◌, false, none, some, List, [], ◌∷◌, arith, Text, same, same_refl}
use gola.Core.Types.{assistant, tool, ToolCall, Message}
use gola.Llm.Validator.{message_ids, find_orphaned_tool_calls}
use gola.Llm.Validator.Pending.{
  answered, unanswered_calls, find_orphaned_tool_calls-unanswered_calls,
}
use gola.Memory.Context.{last_call_index, select_context}

module _ {V : Type 0} where
  abbrev pub call : Text → ToolCall V → Message V
  call content c = record {
    role = assistant;
    content = content;
    tool_call_id = none;
    tool_calls = some (c ∷ []);
  }

  abbrev pub result : Text → Text → Message V
  result content id = record {
    role = tool;
    content = content;
    tool_call_id = some id;
    tool_calls = none;
  }

  abbrev pub identified : Text → Text → V → ToolCall V
  identified id name arguments = record { id = some id; name = name; arguments = arguments }

  -- Two calls, each with its result, one after the other.
  abbrev pub two_turns : Text → Text → Text → V → Text → Text → List (Message V)
  two_turns x y name v said got =
      call said (identified x name v)
      ∷ result got x
      ∷ call said (identified y name v)
      ∷ result got y
      ∷ []

  -- In a conversation of two different tool calls, each answered at once, nothing is orphaned. Its
  -- context is without the first result, so that the first call is orphaned.
  pub context_orphans_call :
      (x y name : Text) (v : V) (said got : Text)
      → same x y ≡ false
      → (find_orphaned_tool_calls (two_turns x y name v said got) ≡ [])
        × (find_orphaned_tool_calls (select_context (two_turns x y name v said got))
            ≡ (0, x ∷ []) ∷ [])
  unfolding select_context last_call_index unanswered_calls answered message_ids
  context_orphans_call x y name v said got h = (
    find_orphaned_tool_calls-unanswered_calls (two_turns x y name v said got)
        ∙ ground (arith, same_refl x, same_refl y),
    find_orphaned_tool_calls-unanswered_calls (select_context (two_turns x y name v said got))
        ∙ ground (arith, same_refl x, same_refl y),
  )
