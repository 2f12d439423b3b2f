-- ===== src/Llm/Recovery.antt =====
-- crates/gola-core/src/llm/auto_recovery_llm.rs: a model that repairs the messages and asks again
-- when the model behind it fails. Logging is left out, and so is the field `enable_memory_clearing`'s
-- use, of which there is none. `regex` is a package: `captures pattern group text` gives the text
-- of the group in each match, the whole match being group 0. `debug_ids` is that of the validator.
pub mod Plain
pub mod Clean
pub mod Calls
use gola.Prelude.{
  has, ℕ, zero, suc, ◌+◌, Bool, true, false, not, ◌&&◌, ◌||◌, Option, none, some, List, [], ◌∷◌,
  ◌++◌, map, retain, insert, is_empty, Text, codes, same, leb, ◌==◌, contains, if◌then◌else◌,
}
use gola.Core.Types.{Role, system, user, assistant, tool, ToolCall, Message, LlmResponse}
use gola.Core.Errors.{AgentError, llm_error, Result, ok, err, ◌>>=◌}
use gola.Llm.Model.{ToolMetadata, Request, Requests, Model, ask}
use gola.Llm.Validator.{MessageValidator, validate_and_fix}

pub record AutoRecoveryLlm : Type 0 where
  pub validator : MessageValidator
  pub max_retries : ℕ
  pub enable_memory_clearing : Bool

abbrev pub new : AutoRecoveryLlm
new = record {
  validator = record { auto_fix = true; log_issues = true };
  max_retries = 3;
  enable_memory_clearing = false;
}

abbrev pub with_max_retries : AutoRecoveryLlm → ℕ → AutoRecoveryLlm
with_max_retries a n = record a { max_retries = n }

abbrev pub with_memory_clearing : AutoRecoveryLlm → Bool → AutoRecoveryLlm
with_memory_clearing a enable = record a { enable_memory_clearing = enable }

abbrev pub with_validator : AutoRecoveryLlm → MessageValidator → AutoRecoveryLlm
with_validator a v = record a { validator = v }

unfoldable pub is_tool_calls_validation_error : AgentError → Bool
is_tool_calls_validation_error e = elim e [
  | llm_error msg ↦
      has msg (codes "tool_calls")
      && (has msg (codes "must be followed by tool messages") && has msg (codes "tool_call_id"))
  | _ ↦ false
]

unfoldable pub is_recoverable_400_error : AgentError → Bool
is_recoverable_400_error e = elim e [
  | llm_error msg ↦
      has msg (codes "400 Bad Request")
      || (has msg (codes "invalid_request_error") || is_tool_calls_validation_error (llm_error msg))
  | _ ↦ false
]

-- `messages` with `content`, the only message that the model is sent when there is no user message.
abbrev pub please_continue : Text
please_continue = codes "Please continue our conversation."

abbrev pub continuing : Text
continuing = codes "[Tool execution was interrupted - continuing conversation]"

abbrev pub all_failed : Text
all_failed =
    codes "All recovery attempts failed. Please clear the conversation memory and try again."

unfoldable pub extract_missing_tool_call_ids : (Text → ℕ → Text → List Text) → Text → List Text
extract_missing_tool_call_ids captures msg =
    let ids = captures (codes "tool_call_ids did not have response messages: ([^\\s,]+)") 1 msg in
    if is_empty ids then captures (codes "call_[a-zA-Z0-9]+") 0 msg else ids

module _ {V : Type 0} where
  -- The first id of the calls that is missing: the loop breaks there.
  unfoldable pub first_missing : List Text → List (ToolCall V) → Option Text
  first_missing missing [] = none
  first_missing missing (c ∷ cs) = elim c.id [
    | none ↦ first_missing missing cs
    | some id ↦ if contains missing id then some id else first_missing missing cs
  ]

  unfoldable pub missing_call : List Text → Message V → Option Text
  unfolding first_missing
  missing_call missing m = elim m.role [
    | assistant ↦ elim m.tool_calls [ none ↦ none | some calls ↦ first_missing missing calls ]
    | _ ↦ none
  ]

  -- The existing responses that the insertion point passes over.
  unfoldable pub leading_responses : List (Message V) → ℕ
  leading_responses [] = 0
  leading_responses (m ∷ ms) = elim m.role [ tool ↦ suc (leading_responses ms) | _ ↦ 0 ]

  abbrev pub stand_in : Text → Message V
  stand_in id = record {
    role = tool;
    content = continuing;
    tool_call_id = some id;
    tool_calls = none;
  }

  unfoldable pub insertions : List Text → ℕ → List (Message V) → List (ℕ × Message V)
  unfolding missing_call leading_responses
  insertions missing i [] = []
  insertions missing i (m ∷ ms) = elim (missing_call missing m) [
    | none ↦ insertions missing (suc i) ms
    | some id ↦ (suc i + leading_responses ms, stand_in id) ∷ insertions missing (suc i) ms
  ]

  -- `sort_by` with the larger index first, which is stable.
  unfoldable pub insert_later_first : ℕ × Message V → List (ℕ × Message V) → List (ℕ × Message V)
  insert_later_first x [] = x ∷ []
  insert_later_first x (y ∷ ys) = if leb y.0 x.0 then x ∷ y ∷ ys else y ∷ insert_later_first x ys

  unfoldable pub later_first : List (ℕ × Message V) → List (ℕ × Message V)
  unfolding insert_later_first
  later_first [] = []
  later_first (x ∷ xs) = insert_later_first x (later_first xs)

  unfoldable pub apply_insertions : List (ℕ × Message V) → List (Message V) → List (Message V)
  apply_insertions [] ms = ms
  apply_insertions ((i, m) ∷ xs) ms = apply_insertions xs (insert i m ms)

  -- What the first fallback makes of a message.
  unfoldable pub without_tools : Message V → Message V
  without_tools m = elim m.role [
    | assistant ↦ record m { role = assistant; tool_calls = none }
    | tool ↦ record m {
      role = system;
      content = codes "Previous result: " ++ m.content;
      tool_call_id = none;
    }
    | user ↦ record m { role = user }
    | system ↦ record m { role = system }
  ]

  unfoldable pub of_user : Message V → Bool
  of_user m = elim m.role [ user ↦ true | _ ↦ false ]

  unfoldable pub of_dialogue : Message V → Bool
  of_dialogue m = elim m.role [ user ↦ true | assistant ↦ true | _ ↦ false ]

  -- The clean-up of the second fallback.
  unfoldable pub without_calls : Message V → Message V
  without_calls m = elim m.role [
    | assistant ↦ record m { role = assistant; tool_calls = none }
    | user ↦ record m { role = user }
    | tool ↦ record m { role = tool }
    | system ↦ record m { role = system }
  ]

  unfoldable pub last_user : List (Message V) → Option (Message V)
  last_user [] = none
  last_user (m ∷ ms) = elim (last_user ms) [
    | some found ↦ some found
    | none ↦ if of_user m then some m else none
  ]

  -- The messages of the fallback of an attempt: there are three.
  unfoldable pub fallback_messages : ℕ → List (Message V) → Option (List (Message V))
  unfolding without_tools without_calls of_dialogue last_user
  fallback_messages (suc zero) ms = some (map without_tools ms)
  fallback_messages (suc (suc zero)) ms = some (map without_calls (retain of_dialogue ms))
  fallback_messages (suc (suc (suc zero))) ms = elim (last_user ms) [
    | some m ↦ some (m ∷ [])
    | none ↦ some (
        record { role = user; content = please_continue; tool_call_id = none; tool_calls = none }
        ∷ [])
  ]
  fallback_messages _ ms = none

  unfoldable pub progressive_fallback :
      Model V → Requests V → List (Message V) → ℕ → Result (LlmResponse V) × Requests V
  unfolding fallback_messages
  progressive_fallback model sent ms attempt = elim (fallback_messages attempt ms) [
    | some ns ↦ ask model sent ns none
    | none ↦ (err (llm_error all_failed), sent)
  ]

module _ (debug_ids : List Text → Text) (captures : Text → ℕ → Text → List Text) {V : Type 0} where
  unfoldable pub recover_from_tool_calls_error :
      AutoRecoveryLlm → List (Message V) → Text → Result (List (Message V))
  recover_from_tool_calls_error a ms msg =
      let missing = extract_missing_tool_call_ids captures msg in
      validate_and_fix debug_ids a.validator (
        if is_empty missing
        then ms
        else apply_insertions (later_first (insertions missing 0 ms)) ms)

  -- The messages that an attempt recovers.
  unfoldable pub recovered_messages :
      AutoRecoveryLlm → List (Message V) → AgentError → Result (List (Message V))
  unfolding recover_from_tool_calls_error
  recovered_messages a ms e =
      if is_tool_calls_validation_error e
      then (elim e [ llm_error msg ↦ recover_from_tool_calls_error a ms msg | other ↦ err other ])
      else if is_recoverable_400_error e
      then validate_and_fix debug_ids a.validator ms
      else err e

  unfoldable pub attempt_recovery :
      AutoRecoveryLlm
      → Model V
      → Requests V
      → List (Message V)
      → Option (List (ToolMetadata V))
      → AgentError
      → Result (LlmResponse V) × Requests V
  unfolding recovered_messages
  attempt_recovery a model sent ms tools e = elim (recovered_messages a ms e) [
    | err failure ↦ (err failure, sent)
    | ok ns ↦ ask model sent ns tools
  ]

  unfoldable pub attempt :
      AutoRecoveryLlm
      → Model V
      → Requests V
      → List (Message V)
      → Option (List (ToolMetadata V))
      → AgentError
      → ℕ
      → Result (LlmResponse V) × Requests V
  unfolding attempt_recovery progressive_fallback
  attempt a model sent ms tools e n =
      if is_recoverable_400_error e
      then attempt_recovery a model sent ms tools e
      else progressive_fallback model sent ms n

  -- `left` attempts are left, of which `n` is the first.
  unfoldable pub retry :
      ℕ
      → AutoRecoveryLlm
      → Model V
      → Requests V
      → List (Message V)
      → Option (List (ToolMetadata V))
      → AgentError
      → ℕ
      → Result (LlmResponse V) × Requests V
  unfolding attempt
  retry zero a model sent ms tools e n = (err e, sent)
  retry (suc left) a model sent ms tools e n =
      let tried = attempt a model sent ms tools e n in
      let rest = retry left a model tried.1 ms tools e (suc n) in
      elim tried.0 [
        | ok response ↦ tried
        | err failure ↦ if n == a.max_retries then tried else rest
      ]

  -- The messages that the first call sends: the original ones when the validation fails.
  unfoldable pub validated_messages : AutoRecoveryLlm → List (Message V) → List (Message V)
  validated_messages a ms = elim (validate_and_fix debug_ids a.validator ms) [
    | ok fixed ↦ fixed
    | err _ ↦ ms
  ]

  unfoldable pub generate :
      AutoRecoveryLlm
      → Model V
      → Requests V
      → List (Message V)
      → Option (List (ToolMetadata V))
      → Result (LlmResponse V) × Requests V
  unfolding retry validated_messages
  generate a model sent ms tools =
      let validated = validated_messages a ms in
      let first = ask model sent validated tools in
      elim first.0 [
        | ok response ↦ first
        | err e ↦ retry a.max_retries a model first.1 validated tools e 1
      ]
