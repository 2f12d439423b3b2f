-- ===== src/Llm/Recovery/Plain.antt =====
-- The fallbacks of crates/gola-core/src/llm/auto_recovery_llm.rs send messages that make no call and
-- are no response.
use gola.Prelude.{
  ℕ, zero, suc, ◌≡◌, refl, true, Option, none, some, List, [], ◌∷◌, map, retain, Bool-cases, inl,
  inr, Text, Every, arith, if◌then◌else◌,
}
use gola.Core.Types.{Role, system, user, assistant, tool, ToolCall, Message}
use gola.Llm.Validator.{
  message_ids, orphan_id, unmatched_responses, find_orphaned_tool_responses, available_ids,
  detect_issues,
}
use gola.Llm.Validator.Pending.{unanswered_calls, find_orphaned_tool_calls-unanswered_calls}
use gola.Llm.Recovery.{
  without_tools, without_calls, of_dialogue, of_user, last_user, please_continue, fallback_messages,
}

abbrev pub OnSome : {A : Type 0} → (A → Type 0) → Option A → Type 0
OnSome P none = Unit
OnSome P (some x) = P x

module _ {V : Type 0} where
  -- A message that makes no call and is no response.
  abbrev pub IsPlain : Message V → Type 0
  IsPlain m = (message_ids m ≡ []) × ((available : List Text) → orphan_id available m ≡ none)

  unanswered_calls-plain :
      (i : ℕ) (ms : List (Message V)) → Every IsPlain ms → unanswered_calls i ms ≡ []
  unfolding unanswered_calls
  unanswered_calls-plain i [] h = refl
  unanswered_calls-plain i (m ∷ ms) h = rw h.0.0 (unanswered_calls-plain (suc i) ms h.1)

  unmatched_responses-plain :
      (available : List Text) (i : ℕ) (ms : List (Message V))
      → Every IsPlain ms
      → unmatched_responses available i ms ≡ []
  unfolding unmatched_responses
  unmatched_responses-plain available i [] h = refl
  unmatched_responses-plain available i (m ∷ ms) h =
      rw (unmatched_responses, h.0.1 available) (unmatched_responses-plain available (suc i) ms h.1)

  pub detect_issues-plain :
      (debug_ids : List Text → Text) (ms : List (Message V))
      → Every IsPlain ms
      → detect_issues debug_ids ms ≡ []
  unfolding detect_issues find_orphaned_tool_responses
  detect_issues-plain debug_ids ms h =
      rw
        (
          find_orphaned_tool_calls-unanswered_calls ms,
          unanswered_calls-plain 0 ms h,
          unmatched_responses-plain (available_ids ms) 0 ms h,
        )
        refl

  -- The first fallback makes every message plain, and so does the second of what it keeps.
  without_tools-IsPlain :
      (r : Role) (c : Text) (t : Option Text) (ts : Option (List (ToolCall V)))
      → IsPlain
          (without_tools (record { role = r; content = c; tool_call_id = t; tool_calls = ts }))
  unfolding without_tools message_ids orphan_id
  without_tools-IsPlain system c t ts = (refl, λ a. refl)
  without_tools-IsPlain user c t ts = (refl, λ a. refl)
  without_tools-IsPlain assistant c t ts = (refl, λ a. refl)
  without_tools-IsPlain tool c t ts = (refl, λ a. refl)

  Every-without_tools : (ms : List (Message V)) → Every IsPlain (map without_tools ms)
  Every-without_tools [] = tt
  Every-without_tools (m ∷ ms) =
      (without_tools-IsPlain m.role m.content m.tool_call_id m.tool_calls, Every-without_tools ms)

  without_calls-IsPlain :
      (r : Role) (c : Text) (t : Option Text) (ts : Option (List (ToolCall V)))
      → of_dialogue (record { role = r; content = c; tool_call_id = t; tool_calls = ts }) ≡ true
      → IsPlain
          (without_calls (record { role = r; content = c; tool_call_id = t; tool_calls = ts }))
  unfolding without_calls of_dialogue message_ids orphan_id
  without_calls-IsPlain system c t ts h = ground arith
  without_calls-IsPlain user c t ts h = (refl, λ a. refl)
  without_calls-IsPlain assistant c t ts h = (refl, λ a. refl)
  without_calls-IsPlain tool c t ts h = ground arith

  Every-without_calls :
      (ms : List (Message V)) → Every IsPlain (map without_calls (retain of_dialogue ms))
  Every-without_calls [] = tt
  Every-without_calls (m ∷ ms) = elim (Bool-cases (of_dialogue m)) [
    | inl e ↦ rw e (
      without_calls-IsPlain m.role m.content m.tool_call_id m.tool_calls e,
      Every-without_calls ms,
    )
    | inr e ↦ rw e (Every-without_calls ms)
  ]

  user-IsPlain :
      (r : Role) (c : Text) (t : Option Text) (ts : Option (List (ToolCall V)))
      → of_user (record { role = r; content = c; tool_call_id = t; tool_calls = ts }) ≡ true
      → IsPlain (record { role = r; content = c; tool_call_id = t; tool_calls = ts })
  unfolding of_user message_ids orphan_id
  user-IsPlain system c t ts h = ground arith
  user-IsPlain user c t ts h = (refl, λ a. refl)
  user-IsPlain assistant c t ts h = ground arith
  user-IsPlain tool c t ts h = ground arith

  last_user-IsPlain : (ms : List (Message V)) → OnSome IsPlain (last_user ms)
  unfolding last_user
  last_user-IsPlain [] = tt
  last_user-IsPlain (m ∷ ms) =
      elim (last_user ms)
          as (λ o.
            OnSome IsPlain o
            → OnSome IsPlain
                (elim o [ some found ↦ some found | none ↦ if of_user m then some m else none ])) [
                  | some found ↦ λ h. h
                  | none ↦ λ _. elim (Bool-cases (of_user m)) [
                    | inl e ↦ rw e (user-IsPlain m.role m.content m.tool_call_id m.tool_calls e)
                    | inr e ↦ rw e tt
                  ]
                ]
        (last_user-IsPlain ms)

  pub fallback_messages-IsPlain :
      (n : ℕ) (ms : List (Message V)) → OnSome (Every IsPlain) (fallback_messages n ms)
  unfolding fallback_messages message_ids orphan_id
  fallback_messages-IsPlain zero ms = tt
  fallback_messages-IsPlain (suc zero) ms = Every-without_tools ms
  fallback_messages-IsPlain (suc (suc zero)) ms = Every-without_calls ms
  fallback_messages-IsPlain (suc (suc (suc zero))) ms =
      elim (last_user ms)
          as (λ o.
            OnSome IsPlain o
            → OnSome (Every IsPlain) (elim o [
              | some m ↦ some (m ∷ [])
              | none ↦ some (
                  record {
                    role = user;
                    content = please_continue;
                    tool_call_id = none;
                    tool_calls = none;
                  }
                  ∷ [])
            ])) [ some m ↦ λ h. (h, tt) | none ↦ λ _. ((refl, λ a. refl), tt) ]
        (last_user-IsPlain ms)
  fallback_messages-IsPlain (suc (suc (suc (suc n)))) ms = tt
