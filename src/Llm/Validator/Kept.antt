-- ===== src/Llm/Validator/Kept.antt =====
-- What the repair leaves alone.
use gola.Prelude.{
  ◌≡◌, refl, ap, ◌∙◌, Bool, true, false, Option, none, some, List, [], ◌∷◌, ◌++◌, map, arith,
  retain, Text,
}
use gola.Core.Types.{Role, ToolCall, system, user, assistant, tool, Message}
use gola.Core.Errors.{ok}
use gola.Llm.Validator.{
  MessageValidator, orphan_id, synthetic, converted, available_ids, message_ids, validate_and_fix,
}
use gola.Llm.Validator.Pending.{open_ids, message}
use gola.Llm.Validator.Repair.{kept, expand, fix_issues-detect_issues}

-- What the user and the model said.
abbrev pub is_spoken : Role → Bool
is_spoken user = true
is_spoken assistant = true
is_spoken _ = false

module _ {V : Type 0} where
  abbrev pub spoken : List (Message V) → List (Message V)
  spoken = retain (λ m. is_spoken m.role)

  spoken-synthetic :
      (ids : List Text) (ms : List (Message V)) → spoken (map synthetic ids ++ ms) ≡ spoken ms
  spoken-synthetic [] ms = refl
  spoken-synthetic (id ∷ ids) ms = spoken-synthetic ids ms

  spoken-kept :
      (available : List Text) (r : Role) (c : Text) (t : Option Text)
      (ts : Option (List (ToolCall V))) (ms ns : List (Message V))
      → spoken ms ≡ spoken ns
      → spoken (kept (orphan_id available (message r c t ts)) (message r c t ts) ∷ ms)
        ≡ spoken (message r c t ts ∷ ns)
  unfolding orphan_id converted
  spoken-kept available system c t ts ms ns h = h
  spoken-kept available user c t ts ms ns h = ap (◌∷◌ (message user c t ts)) h
  spoken-kept available assistant c t ts ms ns h = ap (◌∷◌ (message assistant c t ts)) h
  spoken-kept available tool c none ts ms ns h = h
  spoken-kept available tool c (some id) ts ms ns h = ground arith

  spoken-expand :
      (available : List Text) (ms : List (Message V)) → spoken (expand available ms) ≡ spoken ms
  unfolding expand
  spoken-expand available [] = refl
  spoken-expand available (m ∷ ms) =
      spoken-kept available m.role m.content m.tool_call_id m.tool_calls
        (map synthetic (open_ids ms (message_ids m)) ++ expand available ms) ms
        (spoken-synthetic (open_ids ms (message_ids m)) (expand available ms)
          ∙ spoken-expand available ms)

  -- Whatever the validator returns has the messages of the user and of the assistant as they
  -- were, all of them and in their order.
  pub spoken-validate_and_fix :
      (debug_ids : List Text → Text) (v : MessageValidator) (ms ns : List (Message V))
      → validate_and_fix debug_ids v ms ≡ ok ns
      → spoken ns ≡ spoken ms
  unfolding validate_and_fix
  spoken-validate_and_fix debug_ids v ms ns h =
      ground (arith, fix_issues-detect_issues debug_ids ms, spoken-expand (available_ids ms) ms)
