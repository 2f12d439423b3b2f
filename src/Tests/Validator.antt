-- ===== src/Tests/Validator.antt =====
-- Tests of crates/gola-core/src/llm/message_validator.rs.
use gola.Prelude.{
  ℕ, ◌≡◌, refl, false, none, some, List, [], ◌∷◌, ◌++◌, Text, codes, same, is_char_boundary,
  floor_boundary,
}
use gola.Core.Types.{user, assistant, tool, ToolCall, Message}
use gola.Core.Errors.{ok}
use gola.Llm.Validator.{
  new, with_auto_fix, synthetic, available_ids, find_orphaned_tool_calls,
  find_orphaned_tool_responses, unmatched_responses, detect_issues, fix_issues, fix_each,
  sort_issues, converted, calls_issue, response_issue, validate_and_fix, truncate_with_ellipsis,
}
use gola.Llm.Validator.Pending.{unanswered_calls, find_orphaned_tool_calls-unanswered_calls}
use gola.Llm.Validator.Repair.{expand, fix_issues-detect_issues}
use gola.Llm.Validator.Sound.{validate_and_fix_repairs}
use gola.Llm.Validator.Kept.{spoken, spoken-validate_and_fix}

abbrev call : Text → ToolCall ℕ
call id = record { id = some id; name = codes "test_tool"; arguments = 0 }

abbrev said : Text → Message ℕ
said text = record { role = user; content = text; tool_call_id = none; tool_calls = none }

abbrev asks : List (ToolCall ℕ) → Message ℕ
asks calls = record {
  role = assistant;
  content = codes "ok";
  tool_call_id = none;
  tool_calls = some calls;
}

abbrev result : Text → Message ℕ
result id = record {
  role = tool;
  content = codes "done";
  tool_call_id = some id;
  tool_calls = none;
}

abbrev debug : List Text → Text
debug ids = []

-- Two calls of which the first is answered, and a result that nobody asked for.
abbrev partial : List (Message ℕ)
partial =
    asks (call (codes "call_1") ∷ call (codes "call_2") ∷ [])
    ∷ result (codes "call_1")
    ∷ said (codes "and?")
    ∷ result (codes "lost")
    ∷ []

abbrev mended : List (Message ℕ)
mended =
    asks (call (codes "call_1") ∷ call (codes "call_2") ∷ [])
    ∷ synthetic (codes "call_2")
    ∷ result (codes "call_1")
    ∷ said (codes "and?")
    ∷ converted (result (codes "lost"))
    ∷ []

partial_calls : find_orphaned_tool_calls partial ≡ (0, codes "call_2" ∷ []) ∷ []
unfolding find_orphaned_tool_calls same
partial_calls = refl

partial_repaired : validate_and_fix debug new partial ≡ ok mended
unfolding validate_and_fix detect_issues calls_issue response_issue find_orphaned_tool_calls
    find_orphaned_tool_responses available_ids unmatched_responses fix_issues fix_each sort_issues
    same
partial_repaired = refl

strict : validate_and_fix debug (with_auto_fix new false) mended ≡ ok mended
unfolding validate_and_fix detect_issues find_orphaned_tool_calls find_orphaned_tool_responses
    available_ids unmatched_responses converted same
strict = refl

find_orphaned_tool_calls-unanswered_calls_example :
    find_orphaned_tool_calls partial ≡ unanswered_calls 0 partial
find_orphaned_tool_calls-unanswered_calls_example =
    find_orphaned_tool_calls-unanswered_calls partial

fix_issues-detect_issues_example :
    fix_issues partial (detect_issues debug partial) ≡ ok (expand (available_ids partial) partial)
fix_issues-detect_issues_example = fix_issues-detect_issues debug partial

validate_and_fix_repairs_example :
    (fixed : List (Message ℕ)) × (validate_and_fix debug new partial ≡ ok fixed)
    × (detect_issues debug fixed ≡ [])
validate_and_fix_repairs_example = validate_and_fix_repairs debug new partial refl

spoken-validate_and_fix_example : spoken mended ≡ spoken partial
spoken-validate_and_fix_example = spoken-validate_and_fix debug new partial mended partial_repaired

-- "aé" is three bytes, and is cut before the second character.
abbrev accented : Text
accented = codes "aaaaaaa" ++ 195 ∷ 169 ∷ codes "aaaa"

truncated : truncate_with_ellipsis accented 13 ≡ accented
unfolding truncate_with_ellipsis
truncated = refl

truncated_at_boundary : truncate_with_ellipsis accented 12 ≡ codes "aaaaaaa ..."
unfolding truncate_with_ellipsis floor_boundary is_char_boundary
truncated_at_boundary = refl
