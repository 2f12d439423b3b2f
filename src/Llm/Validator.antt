-- ===== src/Llm/Validator.antt =====
-- crates/gola-core/src/llm/message_validator.rs: it finds tool calls with no response and tool
-- responses with no call, and repairs them. Logging is left out. The `{:?}` format of a list of
-- ids is the standard library's, and is the parameter `debug_ids`: it goes into the description
-- of an issue alone.
pub mod Pending
pub mod Order
pub mod Repair
pub mod Sound
pub mod Kept
pub mod Truncate
use gola.Prelude.{
  ℕ, suc, ◌-◌, Bool, true, not, Option, none, some, List, [], ◌∷◌, ◌++◌, map, length, take,
  is_empty, retain, insert, set, get_elem?, Text, codes, same, contains, decimal, floor_boundary,
  leb, if◌then◌else◌,
}
use gola.Core.Types.{system, user, assistant, tool, ToolCall, Message}
use gola.Core.Errors.{validation_error, Result, ok, err, ◌>>=◌}

pub record MessageValidator : Type 0 where
  pub auto_fix : Bool
  pub log_issues : Bool

abbrev pub new : MessageValidator
new = record { auto_fix = true; log_issues = true }

abbrev pub with_auto_fix : MessageValidator → Bool → MessageValidator
with_auto_fix v flag = record v { auto_fix = flag }

abbrev pub with_logging : MessageValidator → Bool → MessageValidator
with_logging v flag = record v { log_issues = flag }

pub data ValidationIssueType : Type 0 where
  orphaned_tool_calls orphaned_tool_response : ValidationIssueType

pub record ValidationIssue : Type 0 where
  pub issue_type : ValidationIssueType
  pub message_index : ℕ
  pub description : Text
  pub tool_call_ids : Option (List Text)

-- Message indices, each with the tool call ids that are still to be answered.
abbrev pub Pending : Type 0
Pending = List (ℕ × List Text)

-- The two vectors of the scan.
pub record Scan : Type 0 where
  pub pending : Pending
  pub orphaned : Pending

-- A response removes its id everywhere, and then the entries with no id left.
unfoldable pub answer : Text → Pending → Pending
answer id p =
    retain (λ e. not (is_empty e.1)) (map (λ e. (e.0, retain (λ x. not (same x id)) e.1)) p)

unfoldable pub note_ids : ℕ → List Text → Scan → Scan
note_ids i ids s = if is_empty ids then s else record s { pending = s.pending ++ (i, ids) ∷ [] }

unfoldable pub note_response : Option Text → Scan → Scan
unfolding answer
note_response none s = s
note_response (some id) s = record s { pending = answer id s.pending }

-- Sorts by descending index; issues of one index keep their order (`sort_by` is stable).
unfoldable pub insert_issue : ValidationIssue → List ValidationIssue → List ValidationIssue
insert_issue x [] = x ∷ []
insert_issue x (y ∷ ys) =
    if leb y.message_index x.message_index then x ∷ y ∷ ys else y ∷ insert_issue x ys

unfoldable pub sort_issues : List ValidationIssue → List ValidationIssue
unfolding insert_issue
sort_issues [] = []
sort_issues (x ∷ xs) = insert_issue x (sort_issues xs)

unfoldable pub truncate_with_ellipsis : Text → ℕ → Text
truncate_with_ellipsis s max_len =
    if leb (length s) max_len then s else take (floor_boundary s (max_len - 5)) s ++ codes " ..."

abbrev pub interrupted : Text
interrupted = codes "[Tool execution was interrupted or failed - continuing conversation]"

-- `issues.iter().map(|i| i.description).join(", ")`
unfoldable pub join_descriptions : List ValidationIssue → Text
join_descriptions [] = []
join_descriptions (i ∷ []) = i.description
join_descriptions (i ∷ j ∷ is) = i.description ++ codes ", " ++ join_descriptions (j ∷ is)

module _ {V : Type 0} where
  -- `tool_calls.iter().filter_map(|tc| tc.id.clone())`
  unfoldable pub call_ids : List (ToolCall V) → List Text
  call_ids [] = []
  call_ids (c ∷ cs) = elim c.id [ none ↦ call_ids cs | some id ↦ id ∷ call_ids cs ]

  -- `if let Some(tool_calls)` with its two tests for emptiness.
  unfoldable pub note_calls : ℕ → Option (List (ToolCall V)) → Scan → Scan
  unfolding call_ids note_ids
  note_calls i none s = s
  note_calls i (some calls) s = if is_empty calls then s else note_ids i (call_ids calls) s

  -- The body of the loop. A user message interrupts the calls that are pending.
  unfoldable pub scan_message : ℕ → Message V → Scan → Scan
  unfolding note_calls note_response
  scan_message i m s = elim m.role [
    | assistant ↦ note_calls i m.tool_calls s
    | tool ↦ note_response m.tool_call_id s
    | user ↦ record { pending = []; orphaned = s.orphaned ++ s.pending }
    | system ↦ s
  ]

  unfoldable pub scan_messages : ℕ → List (Message V) → Scan → Scan
  unfolding scan_message
  scan_messages i [] s = s
  scan_messages i (m ∷ ms) s = scan_messages (suc i) ms (scan_message i m s)

  unfoldable pub find_orphaned_tool_calls : List (Message V) → Pending
  unfolding scan_messages
  find_orphaned_tool_calls ms =
      let s = scan_messages 0 ms (record { pending = []; orphaned = [] }) in s.orphaned ++ s.pending

  -- The ids that one message adds to `available_tool_call_ids`.
  unfoldable pub message_ids : Message V → List Text
  unfolding call_ids
  message_ids m = elim m.role [
    | assistant ↦ elim m.tool_calls [ none ↦ [] | some calls ↦ call_ids calls ]
    | _ ↦ []
  ]

  -- The first pass: a `HashSet`, which the second pass only asks `contains`.
  unfoldable pub available_ids : List (Message V) → List Text
  unfolding message_ids
  available_ids [] = []
  available_ids (m ∷ ms) = message_ids m ++ available_ids ms

  unfoldable pub orphan_id : List Text → Message V → Option Text
  orphan_id available m = elim m.role [
    | tool ↦ elim m.tool_call_id [
      | none ↦ none
      | some id ↦ if contains available id then none else some id
    ]
    | _ ↦ none
  ]

  -- The second pass.
  unfoldable pub unmatched_responses : List Text → ℕ → List (Message V) → List (ℕ × Text)
  unfolding orphan_id
  unmatched_responses available i [] = []
  unmatched_responses available i (m ∷ ms) = elim (orphan_id available m) [
    | none ↦ unmatched_responses available (suc i) ms
    | some id ↦ (i, id) ∷ unmatched_responses available (suc i) ms
  ]

  unfoldable pub find_orphaned_tool_responses : List (Message V) → List (ℕ × Text)
  find_orphaned_tool_responses ms = unmatched_responses (available_ids ms) 0 ms

  -- The response that stands in for a call that was interrupted.
  abbrev pub synthetic : Text → Message V
  synthetic id = record {
    role = tool;
    content = interrupted;
    tool_call_id = some id;
    tool_calls = none;
  }

  -- The loop inserts at `at`, `at + 1`, ...
  unfoldable pub insert_responses : ℕ → List Text → List (Message V) → List (Message V)
  insert_responses at [] ms = ms
  insert_responses at (id ∷ ids) ms = insert_responses (suc at) ids (insert at (synthetic id) ms)

  unfoldable pub fix_orphaned_tool_calls :
      List (Message V) → ValidationIssue → Result (List (Message V))
  unfolding insert_responses
  fix_orphaned_tool_calls ms issue =
      if leb (length ms) issue.message_index
      then err (validation_error (codes "Invalid message index in validation issue"))
      else (elim issue.tool_call_ids [
        | none ↦ err (validation_error (codes "Missing tool_call_ids in orphaned tool calls issue"))
        | some ids ↦ ok (insert_responses (suc issue.message_index) ids ms)
      ])

  -- The system message that an orphaned response becomes.
  unfoldable pub converted : Message V → Message V
  unfolding truncate_with_ellipsis
  converted m = record {
    role = system;
    content = codes "Previous tool result: " ++ truncate_with_ellipsis m.content 2000;
    tool_call_id = none;
    tool_calls = none;
  }

  unfoldable pub fix_orphaned_tool_response :
      List (Message V) → ValidationIssue → Result (List (Message V))
  unfolding converted
  fix_orphaned_tool_response ms issue =
      if leb (length ms) issue.message_index
      then err (validation_error (codes "Invalid message index in validation issue"))
      else (elim (get_elem? ms issue.message_index) [
        | none ↦ ok ms
        | some m ↦ ok (set issue.message_index (converted m) ms)
      ])

  unfoldable pub fix_issue : List (Message V) → ValidationIssue → Result (List (Message V))
  unfolding fix_orphaned_tool_calls fix_orphaned_tool_response
  fix_issue ms issue = elim issue.issue_type [
    | orphaned_tool_calls ↦ fix_orphaned_tool_calls ms issue
    | orphaned_tool_response ↦ fix_orphaned_tool_response ms issue
  ]

  unfoldable pub fix_each : List (Message V) → List ValidationIssue → Result (List (Message V))
  unfolding fix_issue
  fix_each ms [] = ok ms
  fix_each ms (i ∷ is) = fix_issue ms i >>= λ ms'. fix_each ms' is

  unfoldable pub fix_issues : List (Message V) → List ValidationIssue → Result (List (Message V))
  fix_issues ms issues = fix_each ms (sort_issues issues)

module _ (debug_ids : List Text → Text) where
  unfoldable pub calls_issue : ℕ × List Text → ValidationIssue
  calls_issue (i, ids) = record {
    issue_type = orphaned_tool_calls;
    message_index = i;
    description =
        codes "Assistant message at index "
        ++ decimal i
        ++ codes " has tool_calls "
        ++ debug_ids ids
        ++ codes " without corresponding tool responses";
    tool_call_ids = some ids;
  }

  unfoldable pub response_issue : ℕ × Text → ValidationIssue
  response_issue (i, id) = record {
    issue_type = orphaned_tool_response;
    message_index = i;
    description =
        codes "Tool message at index "
        ++ decimal i
        ++ codes " references tool_call_id '"
        ++ id
        ++ codes "' without corresponding assistant tool call";
    tool_call_ids = some (id ∷ []);
  }

  module _ {V : Type 0} where
    unfoldable pub detect_issues : List (Message V) → List ValidationIssue
    detect_issues ms =
        map calls_issue (find_orphaned_tool_calls ms)
        ++ map response_issue (find_orphaned_tool_responses ms)

    unfoldable pub validate_and_fix :
        MessageValidator → List (Message V) → Result (List (Message V))
    validate_and_fix v ms =
        let issues = detect_issues ms in
        if is_empty issues
        then ok ms
        else if v.auto_fix
        then fix_issues ms issues
        else err
            (validation_error (codes "Message validation failed: " ++ join_descriptions issues))
