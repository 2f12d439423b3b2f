-- ===== src/Tests/Memory.antt =====
-- Tests of crates/gola-core/src/memory.
use gola.Prelude.{
  replace_from, ℕ, ◌≤◌, ◌<◌, ◌≡◌, refl, none, some, List, [], ◌∷◌, ◌++◌, arith, length, latest,
  Text, codes, same,
}
use gola.Core.Types.{user, Message, LlmResponse}
use gola.Core.Errors.{AgentError, ok, err, llm_error}
use gola.Llm.Validator.{find_orphaned_tool_calls}
use gola.Memory.Prompt.{Llm}
use gola.Memory.Context.{select_context}
use gola.Memory.Orphans.{two_turns, context_orphans_call}
use gola.Memory.Window
use gola.Memory.Summary
use gola.Memory.SummaryBuffer
use gola.Memory.SummaryBuffer.{count_tokens}

abbrev said : Text → Message ℕ
said text = record { role = user; content = text; tool_call_id = none; tool_calls = none }

abbrev talk : List (Message ℕ)
talk = said (codes "one") ∷ said (codes "two") ∷ said (codes "three") ∷ []

abbrev reply : LlmResponse ℕ
reply = record {
  content = some (codes "so far");
  tool_calls = none;
  finish_reason = none;
  usage = none;
}

abbrev answering : Llm ℕ
answering prompt = ok reply

abbrev down : AgentError
down = llm_error (codes "503")

abbrev failing : Llm ℕ
failing prompt = err down

replaced : replace_from 0 (codes "{a}") (codes "b") (codes "-{a}\n{a") ≡ codes "-b\n{a"
unfolding replace_from
replaced = refl

abbrev turns : List (Message ℕ)
turns = two_turns (codes "x") (codes "y") (codes "search") 0 (codes "looking") (codes "found")

context_orphans_call_example :
    (find_orphaned_tool_calls turns ≡ [])
    × (find_orphaned_tool_calls (select_context turns) ≡ (0, codes "x" ∷ []) ∷ [])
unfolding same
context_orphans_call_example =
    context_orphans_call (codes "x") (codes "y") (codes "search") 0 (codes "looking")
      (codes "found") refl

add_all-new_example :
    ((Window.add_all (Window.new 2) talk).messages ≡ latest 2 talk)
    × (length (Window.add_all (Window.new 2) talk).messages ≤ 2)
add_all-new_example = Window.add_all-new 2 talk (omega arith)

-- Three messages wait while the model fails, and are summarized with the fourth.
add_message_recovers_example :
    Summary.add_message answering (Summary.add_all failing Summary.new talk) (said (codes "four"))
    ≡ (ok tt, record { summary = codes "so far"; messages = [] })
add_message_recovers_example =
    Summary.add_message_recovers failing answering down Summary.new talk (said (codes "four")) reply
      (λ prompt. refl) refl

abbrev buffer : SummaryBuffer.ConversationSummaryBufferMemory ℕ
buffer = record { max_token_limit = 1; moving_summary_buffer = []; messages = talk }

over : 1 < count_tokens (talk ++ said (codes "a longer line") ∷ [])
unfolding count_tokens
over = omega arith
