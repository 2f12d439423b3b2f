-- ===== src/Llm/Validator/Repair.antt =====
-- What the repair does, message by message.
use gola.Prelude.{
  ℕ, suc, ◌<◌, ◌≡◌, refl, sym, ap, ◌∙◌, Option, none, some, List, [], ◌∷◌, ◌++◌, map, append-nil,
  append_assoc, arith, false, leb, length, length-append, insert-append, set-append,
  get_elem?-append, Text,
}
use gola.Core.Types.{Role, ToolCall, system, user, assistant, tool, Message}
use gola.Core.Errors.{ok, err, ◌>>=◌}
use gola.Llm.Validator.{
  ValidationIssue, sort_issues, message_ids, available_ids, orphan_id, unmatched_responses,
  find_orphaned_tool_responses, synthetic, insert_responses, converted, fix_issue, fix_each,
  fix_issues, calls_issue, response_issue, detect_issues,
}
use gola.Llm.Validator.Pending.{
  entry, open_ids, unanswered_calls, message, find_orphaned_tool_calls-unanswered_calls,
}
use gola.Llm.Validator.Order.{Above, Above-append, sort_issues-append}

-- The issue of an orphaned response.
abbrev response_here : (List Text → Text) → ℕ → Option Text → List ValidationIssue
response_here debug_ids i none = []
response_here debug_ids i (some id) = response_issue debug_ids (i, id) ∷ []

module _ {V : Type 0} where
  -- The message itself, or the system message that it becomes.
  abbrev pub kept : Option Text → Message V → Message V
  kept none m = m
  kept (some id) m = converted m

  -- Each orphaned response is converted, and the open calls of a message are answered behind it.
  unfoldable pub expand : List Text → List (Message V) → List (Message V)
  expand available [] = []
  expand available (m ∷ ms) =
      kept (orphan_id available m) m
      ∷ (map synthetic (open_ids ms (message_ids m)) ++ expand available ms)

  insert_responses-append :
      (q : List (Message V)) (i : ℕ) (ids : List Text) (ms : List (Message V))
      → length q ≡ i
      → insert_responses i ids (q ++ ms) ≡ q ++ (map synthetic ids ++ ms)
  unfolding insert_responses
  insert_responses-append q i [] ms e = refl
  insert_responses-append q i (id ∷ ids) ms e =
      rw (← e, insert-append q ms (synthetic id), ← append_assoc q (synthetic id ∷ []) ms)
        (insert_responses-append (q ++ synthetic id ∷ []) (suc (length q)) ids ms
            (omega (arith, length-append q (synthetic id ∷ [])))
          ∙ append_assoc q (synthetic id ∷ []) _)

  fix_each-append :
      (ms : List (Message V)) (is js : List ValidationIssue)
      → fix_each ms (is ++ js) ≡ (fix_each ms is >>= λ ns. fix_each ns js)
  unfolding fix_each
  fix_each-append ms [] js = refl
  fix_each-append ms (i ∷ is) js =
      elim (fix_issue ms i)
        as (λ r.
          (r >>= λ ns. fix_each ns (is ++ js))
          ≡ ((r >>= λ ns. fix_each ns is) >>= λ ns. fix_each ns js)) [
            | ok ns ↦ fix_each-append ns is js
            | err e ↦ refl
          ]

  in_range :
      (pre : List (Message V)) (m : Message V) (ns : List (Message V))
      → leb (length (pre ++ m ∷ ns)) (length pre) ≡ false
  in_range pre m ns = ground (arith, length-append pre (m ∷ ns))

  module _ (debug_ids : List Text → Text) where
    fix_issue-calls_issue :
        (pre : List (Message V)) (ids : List Text) (m : Message V) (ns : List (Message V))
        → fix_issue (pre ++ m ∷ ns) (calls_issue debug_ids (length pre, ids))
          ≡ ok (pre ++ m ∷ (map synthetic ids ++ ns))
    unfolding fix_issue calls_issue
    fix_issue-calls_issue pre ids m ns = rw (in_range pre m ns) (
        ap ok (
          ap (insert_responses (suc (length pre)) ids) (sym (append_assoc pre (m ∷ []) ns))
          ∙ insert_responses-append (pre ++ m ∷ []) (suc (length pre)) ids ns
              (omega (arith, length-append pre (m ∷ [])))
          ∙ append_assoc pre (m ∷ []) _))

    fix_issue-response_issue :
        (pre : List (Message V)) (id : Text) (m : Message V) (ns : List (Message V))
        → fix_issue (pre ++ m ∷ ns) (response_issue debug_ids (length pre, id))
          ≡ ok (pre ++ converted m ∷ ns)
    unfolding fix_issue response_issue
    fix_issue-response_issue pre id m ns =
        rw (in_range pre m ns, get_elem?-append pre ns m)
          (ap ok (set-append pre ns (converted m) m))

    fix_calls :
        (pre : List (Message V)) (ids : List Text) (m : Message V) (ns : List (Message V))
        → fix_each (pre ++ m ∷ ns) (map (calls_issue debug_ids) (entry (length pre) ids []) ++ [])
          ≡ ok (pre ++ m ∷ (map synthetic ids ++ ns))
    unfolding fix_each
    fix_calls pre [] m ns = refl
    fix_calls pre (id ∷ ids) m ns = rw (fix_issue-calls_issue pre (id ∷ ids) m ns)

    fix_response :
        (pre : List (Message V)) (o : Option Text) (m : Message V) (ns : List (Message V))
        → fix_each (pre ++ m ∷ ns) (response_here debug_ids (length pre) o)
          ≡ ok (pre ++ kept o m ∷ ns)
    unfolding fix_each
    fix_response pre none m ns = refl
    fix_response pre (some id) m ns = rw (fix_issue-response_issue pre id m ns)

    -- The issues of one message.
    abbrev issues_here : List Text → ℕ → Message V → List (Message V) → List ValidationIssue
    issues_here available i m ms =
        map (calls_issue debug_ids) (entry i (open_ids ms (message_ids m)) [])
        ++ response_here debug_ids i (orphan_id available m)

    abbrev issues_from : List Text → ℕ → List (Message V) → List ValidationIssue
    issues_from available i ms =
        map (calls_issue debug_ids) (unanswered_calls i ms)
        ++ map (response_issue debug_ids) (unmatched_responses available i ms)

    fix_here :
        (available : List Text) (pre : List (Message V)) (r : Role) (c : Text) (t : Option Text)
        (ts : Option (List (ToolCall V))) (ms ns : List (Message V))
        → let m : Message V = message r c t ts in
          fix_each (pre ++ m ∷ ns) (issues_here available (length pre) m ms)
          ≡ ok (
              pre
              ++ kept (orphan_id available m) m
                ∷ (map synthetic (open_ids ms (message_ids m)) ++ ns))
    unfolding message_ids orphan_id fix_each
    fix_here available pre system c t ts ms ns = refl
    fix_here available pre user c t ts ms ns = refl
    fix_here available pre assistant c t ts ms ns =
        fix_calls pre (open_ids ms (message_ids (message assistant c t ts))) _ ns
    fix_here available pre tool c t ts ms ns =
        fix_response pre (orphan_id available (message tool c t ts)) _ ns

    Above-calls :
        (i j : ℕ) (ms : List (Message V))
        → i < j
        → Above i (map (calls_issue debug_ids) (unanswered_calls j ms))
    unfolding unanswered_calls
    Above-calls i j [] h = tt
    Above-calls i j (m ∷ ms) h =
        Above-entry (open_ids ms (message_ids m)) (Above-calls i (suc j) ms (omega arith))
      where
        Above-entry :
            (ids : List Text)
            → Above i (map (calls_issue debug_ids) (unanswered_calls (suc j) ms))
            → Above i (map (calls_issue debug_ids) (entry j ids (unanswered_calls (suc j) ms)))
        Above-entry [] k = k
        Above-entry (id ∷ ids) k = (unfold calls_issue in h, k)

    Above-responses :
        (available : List Text) (i j : ℕ) (ms : List (Message V))
        → i < j
        → Above i (map (response_issue debug_ids) (unmatched_responses available j ms))
    unfolding unmatched_responses response_issue
    Above-responses available i j [] h = tt
    Above-responses available i j (m ∷ ms) h =
        ground (arith, Above-responses available i (suc j) ms)

    Above-issues :
        (available : List Text) (i j : ℕ) (ms : List (Message V))
        → i < j
        → Above i (issues_from available j ms)
    Above-issues available i j ms h =
        Above-append i _ _ (Above-calls i j ms h) (Above-responses available i j ms h)

    sort_calls :
        (available : List Text) (i : ℕ) (ids : List Text) (ms : List (Message V))
        → sort_issues (
            map (calls_issue debug_ids) (entry i ids (unanswered_calls (suc i) ms))
            ++ map (response_issue debug_ids) (unmatched_responses available (suc i) ms))
          ≡ sort_issues (issues_from available (suc i) ms)
            ++ (map (calls_issue debug_ids) (entry i ids []) ++ [])
    unfolding calls_issue
    sort_calls available i [] ms = sym (append-nil _)
    sort_calls available i (id ∷ ids) ms =
        sort_issues-append (calls_issue debug_ids (i, id ∷ ids)) [] _ tt
          (Above-issues available i (suc i) ms (omega arith))

    sort_response :
        (available : List Text) (i : ℕ) (o : Option Text) (ms : List (Message V))
        → sort_issues (
            map (calls_issue debug_ids) (unanswered_calls (suc i) ms)
            ++ (response_here debug_ids i o
                ++ map (response_issue debug_ids) (unmatched_responses available (suc i) ms)))
          ≡ sort_issues (issues_from available (suc i) ms) ++ response_here debug_ids i o
    unfolding response_issue
    sort_response available i none ms = sym (append-nil _)
    sort_response available i (some id) ms =
        sort_issues-append (response_issue debug_ids (i, id)) _ _
          (Above-calls i (suc i) ms (omega arith))
          (Above-responses available i (suc i) ms (omega arith))

    responses_here :
        (available : List Text) (i : ℕ) (m : Message V) (ms : List (Message V))
        → map (response_issue debug_ids) (unmatched_responses available i (m ∷ ms))
          ≡ response_here debug_ids i (orphan_id available m)
            ++ map (response_issue debug_ids) (unmatched_responses available (suc i) ms)
    unfolding unmatched_responses
    responses_here available i m ms = ground arith

    sort_issues-from :
        (available : List Text) (i : ℕ) (r : Role) (c : Text) (t : Option Text)
        (ts : Option (List (ToolCall V))) (ms : List (Message V))
        → let m : Message V = message r c t ts in
          sort_issues (issues_from available i (m ∷ ms))
          ≡ sort_issues (issues_from available (suc i) ms) ++ issues_here available i m ms
    unfolding unanswered_calls unmatched_responses message_ids orphan_id
    sort_issues-from available i system c t ts ms = sym (append-nil _)
    sort_issues-from available i user c t ts ms = sym (append-nil _)
    sort_issues-from available i assistant c t ts ms =
        sort_calls available i (open_ids ms (message_ids (message assistant c t ts))) ms
    sort_issues-from available i tool c t ts ms =
        ap (λ q. sort_issues (map (calls_issue debug_ids) (unanswered_calls (suc i) ms) ++ q))
          (responses_here available i (message tool c t ts) ms)
        ∙ sort_response available i (orphan_id available (message tool c t ts)) ms

    -- The later messages are repaired before `m`, which then ends the part that stays.
    fix_later :
        (pre : List (Message V)) (m : Message V) (ms ns : List (Message V))
        (is : List ValidationIssue)
        → fix_each ((pre ++ m ∷ []) ++ ms) is ≡ ok ((pre ++ m ∷ []) ++ ns)
        → fix_each (pre ++ m ∷ ms) is ≡ ok (pre ++ m ∷ ns)
    fix_later pre m ms ns is h =
        rw (append_assoc pre (m ∷ []) ms, append_assoc pre (m ∷ []) ns) at h

    fix_from :
        (available : List Text) (pre ms : List (Message V)) (i : ℕ)
        → length pre ≡ i
        → fix_each (pre ++ ms) (sort_issues (issues_from available i ms))
          ≡ ok (pre ++ expand available ms)
    unfolding expand
    fix_from available pre [] i e =
        unfold fix_each sort_issues unanswered_calls unmatched_responses in refl
    fix_from available pre (m ∷ ms) i e =
        rw (sort_issues-from available i m.role m.content m.tool_call_id m.tool_calls ms) (
          fix_each-append (pre ++ m ∷ ms) (sort_issues (issues_from available (suc i) ms)) _
          ∙ rw
              (fix_later pre m ms (expand available ms) _ (
                fix_from available (pre ++ m ∷ []) ms (suc i)
                  (omega (arith, length-append pre (m ∷ [])))))
              (rw (← e) (
                fix_here available pre m.role m.content m.tool_call_id m.tool_calls ms
                  (expand available ms))))

    -- The repair of the issues that are detected, in the order in which they are, never fails and equals a
    -- rewriting of the messages one by one.
    pub fix_issues-detect_issues :
        (ms : List (Message V))
        → fix_issues ms (detect_issues debug_ids ms) ≡ ok (expand (available_ids ms) ms)
    unfolding fix_issues detect_issues find_orphaned_tool_responses
    fix_issues-detect_issues ms =
        rw (find_orphaned_tool_calls-unanswered_calls ms) (fix_from (available_ids ms) [] ms 0 refl)
