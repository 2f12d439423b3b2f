-- ===== src/Llm/Validator/Sound.antt =====
-- The repair leaves nothing for the validator to find.
use gola.Prelude.{
  ℕ, suc, ◌≡◌, ◌↔◌, refl, sym, ap, ap₂, ◌∙◌, Bool, true, false, not, ◌||◌, ◌⊎◌, Option, none, some,
  List, [], ◌∷◌, ◌++◌, map, arith, retain, is_empty, Bool-cases, inl, inr, Text, same, same_refl,
  same_comm, eq_of_same, contains, contains-append,
}
use gola.Core.Types.{Role, ToolCall, system, user, assistant, tool, Message}
use gola.Core.Errors.{ok}
use gola.Llm.Validator.{
  MessageValidator, ValidationIssue, message_ids, available_ids, orphan_id, unmatched_responses,
  find_orphaned_tool_responses, synthetic, converted, detect_issues, validate_and_fix,
}
use gola.Llm.Validator.Pending.{
  answered, open_ids, unanswered_calls, message, find_orphaned_tool_calls-unanswered_calls,
}
use gola.Llm.Validator.Repair.{kept, expand, fix_issues-detect_issues}

or_right : (a b : Bool) → b ≡ true → (a || b) ≡ true
or_right a b h = ground arith

or_left : (a b : Bool) → a ≡ true → (a || b) ≡ true
or_left a b h = ground arith

contains-retain :
    (p : Text → Bool) (xs : List Text) (x : Text)
    → contains xs x ≡ true
    → p x ≡ true
    → contains (retain p xs) x ≡ true
contains-retain p [] x h k = h
contains-retain p (y ∷ xs) x h k = elim (Bool-cases (same y x)) [
  | inl e ↦ let py : p y ≡ true = ap p (eq_of_same y x e) ∙ k in rw py (or_left _ _ e)
  | inr e ↦ ground (arith, contains-retain p xs x)
]

contains-retain_sub :
    (p : Text → Bool) (xs : List Text) (x : Text)
    → contains (retain p xs) x ≡ true
    → contains xs x ≡ true
contains-retain_sub p [] x h = h
contains-retain_sub p (y ∷ xs) x h = ground (arith, contains-retain_sub p xs x)

retain_none :
    (p : Text → Bool) (xs : List Text)
    → ((x : Text) → contains xs x ≡ true → p x ≡ false)
    → retain p xs ≡ []
retain_none p [] h = refl
retain_none p (x ∷ xs) h =
    rw (h x (ground (arith, same_refl x))) (retain_none p xs (λ y k. h y (or_right (same x y) _ k)))

orphan_id-synthetic :
    (V : Type 0) (available : List Text) (id : Text)
    → contains available id ≡ true
    → orphan_id available (synthetic {V = V} id) ≡ none
unfolding orphan_id
orphan_id-synthetic V available id h = rw h

empty-cases : (is : List ValidationIssue) → (is ≡ []) ⊎ (is_empty is ≡ false)
empty-cases [] = inl refl
empty-cases (i ∷ is) = inr refl

module _ {V : Type 0} where
  answered-synthetic :
      (x : Text) (ids : List Text) (ms : List (Message V))
      → answered x (map synthetic ids ++ ms) ≡ (contains ids x || answered x ms)
  unfolding answered
  answered-synthetic x [] ms = refl
  answered-synthetic x (id ∷ ids) ms = ground (arith, same_comm x id, answered-synthetic x ids ms)

  -- Of the two forms of a message neither has other calls than the message.
  message_ids-kept :
      (r : Role) (c : Text) (t : Option Text) (ts : Option (List (ToolCall V)))
      (available : List Text)
      → message_ids (kept (orphan_id available (message r c t ts)) (message r c t ts))
        ≡ message_ids (message r c t ts)
  unfolding message_ids orphan_id converted
  message_ids-kept system c t ts available = refl
  message_ids-kept user c t ts available = refl
  message_ids-kept assistant c t ts available = refl
  message_ids-kept tool c none ts available = refl
  message_ids-kept tool c (some id) ts available = ground arith

  orphan_id-kept :
      (r : Role) (c : Text) (t : Option Text) (ts : Option (List (ToolCall V)))
      (available : List Text)
      → orphan_id available (kept (orphan_id available (message r c t ts)) (message r c t ts))
        ≡ none
  unfolding orphan_id converted
  orphan_id-kept system c t ts available = refl
  orphan_id-kept user c t ts available = refl
  orphan_id-kept assistant c t ts available = refl
  orphan_id-kept tool c none ts available = refl
  orphan_id-kept tool c (some id) ts available = ground arith

  answered-expand_cons :
      (available : List Text) (x : Text) (r : Role) (c : Text) (t : Option Text)
      (ts : Option (List (ToolCall V))) (ms : List (Message V))
      → contains available x ≡ true
      → (answered x ms ≡ true → answered x (expand available ms) ≡ true)
      → answered x (message r c t ts ∷ ms) ≡ true
      → answered x (expand available (message r c t ts ∷ ms)) ≡ true
  unfolding expand answered orphan_id message_ids converted
  answered-expand_cons available x system c t ts ms h ih k = ih k
  answered-expand_cons available x user c t ts ms h ih k = k
  answered-expand_cons available x assistant c t ts ms h ih k =
      answered-synthetic x (open_ids ms (message_ids (message assistant c t ts)))
        (expand available ms)
      ∙ or_right _ _ (ih k)
  answered-expand_cons available x tool c none ts ms h ih k = ih k
  answered-expand_cons available x tool c (some id) ts ms h ih k =
      ground (arith, eq_of_same x id, ih)

  -- An id that is known keeps the responses that it had.
  answered-expand :
      (available : List Text) (x : Text) (ms : List (Message V))
      → contains available x ≡ true
      → answered x ms ≡ true
      → answered x (expand available ms) ≡ true
  unfolding expand
  answered-expand available x [] h k = k
  answered-expand available x (m ∷ ms) h k =
      answered-expand_cons available x m.role m.content m.tool_call_id m.tool_calls ms h
        (answered-expand available x ms h) k

  available_ids-synthetic :
      (ids : List Text) (ms : List (Message V))
      → available_ids (map synthetic ids ++ ms) ≡ available_ids ms
  unfolding available_ids
  available_ids-synthetic [] ms = refl
  available_ids-synthetic (id ∷ ids) ms = available_ids-synthetic ids ms

  available_ids-cons :
      (m : Message V) (ms : List (Message V))
      → available_ids (m ∷ ms) ≡ message_ids m ++ available_ids ms
  unfolding available_ids
  available_ids-cons m ms = refl

  -- The repair adds and removes no tool call.
  available_ids-expand :
      (available : List Text) (ms : List (Message V))
      → available_ids (expand available ms) ≡ available_ids ms
  unfolding expand
  available_ids-expand available [] = refl
  available_ids-expand available (m ∷ ms) =
      available_ids-cons _ _
      ∙ ap₂ ◌++◌ (message_ids-kept m.role m.content m.tool_call_id m.tool_calls available) (
          available_ids-synthetic (open_ids ms (message_ids m)) (expand available ms)
          ∙ available_ids-expand available ms)
      ∙ sym (available_ids-cons m ms)

  unanswered_calls-synthetic :
      (ids : List Text) (ms : List (Message V))
      → ((i : ℕ) → unanswered_calls i ms ≡ [])
      → (i : ℕ) → unanswered_calls i (map synthetic ids ++ ms) ≡ []
  unfolding unanswered_calls message_ids
  unanswered_calls-synthetic [] ms h i = h i
  unanswered_calls-synthetic (id ∷ ids) ms h i = unanswered_calls-synthetic ids ms h (suc i)

  -- In the repaired list every call of a message is answered.
  answered_after :
      (available : List Text) (x : Text) (ids : List Text) (ms : List (Message V))
      → contains available x ≡ true
      → contains ids x ≡ true
      → answered x (map synthetic (open_ids ms ids) ++ expand available ms) ≡ true
  answered_after available x ids ms h k = rw answered-synthetic (elim (Bool-cases (answered x ms)) [
    | inl e ↦ or_right _ _ (answered-expand available x ms h e)
    | inr e ↦ or_left _ _ (contains-retain (λ y. not (answered y ms)) ids x k (ap not e))
  ])

  unanswered_calls-expand :
      (available : List Text) (ms : List (Message V))
      → ((x : Text) → contains (available_ids ms) x ≡ true → contains available x ≡ true)
      → (i : ℕ) → unanswered_calls i (expand available ms) ≡ []
  unfolding expand unanswered_calls available_ids
  unanswered_calls-expand available [] h i = refl
  unanswered_calls-expand available (m ∷ ms) h i =
      rw (message_ids-kept m.role m.content m.tool_call_id m.tool_calls available) (
        rw
          (retain_none _ (message_ids m) (λ x k. ap not (
            answered_after available x (message_ids m) ms
              (h x (contains-append (message_ids m) (available_ids ms) x ∙ or_left _ _ k)) k)))
          (unanswered_calls-synthetic (open_ids ms (message_ids m)) (expand available ms)
            (unanswered_calls-expand available ms
              (λ x k. h x (contains-append (message_ids m) (available_ids ms) x ∙ or_right _ _ k)))
            (suc i)))

  unmatched_responses-skip :
      (available : List Text) (i : ℕ) (m : Message V) (ms : List (Message V))
      → orphan_id available m ≡ none
      → unmatched_responses available i (m ∷ ms) ≡ unmatched_responses available (suc i) ms
  unfolding unmatched_responses
  unmatched_responses-skip available i m ms e = ground arith

  unmatched_responses-synthetic :
      (available ids : List Text) (ms : List (Message V))
      → ((x : Text) → contains ids x ≡ true → contains available x ≡ true)
      → ((i : ℕ) → unmatched_responses available i ms ≡ [])
      → (i : ℕ) → unmatched_responses available i (map synthetic ids ++ ms) ≡ []
  unmatched_responses-synthetic available [] ms h k i = k i
  unmatched_responses-synthetic available (id ∷ ids) ms h k i =
      unmatched_responses-skip available i (synthetic id) _
        (orphan_id-synthetic V available id (h id (or_left _ _ (same_refl id))))
      ∙ unmatched_responses-synthetic available ids ms (λ x e. h x (or_right (same id x) _ e)) k
          (suc i)

  unmatched_responses-expand :
      (available : List Text) (ms : List (Message V))
      → ((x : Text) → contains (available_ids ms) x ≡ true → contains available x ≡ true)
      → (i : ℕ) → unmatched_responses available i (expand available ms) ≡ []
  unfolding expand
  unmatched_responses-expand available [] h i = unfold unmatched_responses in refl
  unmatched_responses-expand available (m ∷ ms) h i =
      unmatched_responses-skip available i _ _
        (orphan_id-kept m.role m.content m.tool_call_id m.tool_calls available)
      ∙ unmatched_responses-synthetic available (open_ids ms (message_ids m)) (expand available ms)
          (λ x k.
            known x
              (or_left _ _ (contains-retain_sub (λ y. not (answered y ms)) (message_ids m) x k)))
          (unmatched_responses-expand available ms (λ x k. known x (or_right _ _ k))) (suc i)
    where
      known :
          (x : Text)
          → (contains (message_ids m) x || contains (available_ids ms) x) ≡ true
          → contains available x ≡ true
      known x k = h x (
          ap (λ l. contains l x) (available_ids-cons m ms)
          ∙ contains-append (message_ids m) (available_ids ms) x
          ∙ k)

  module _ (debug_ids : List Text → Text) where
    detect_issues-expand :
        (ms : List (Message V)) → detect_issues debug_ids (expand (available_ids ms) ms) ≡ []
    unfolding detect_issues find_orphaned_tool_responses
    detect_issues-expand ms = rw (
      find_orphaned_tool_calls-unanswered_calls (expand (available_ids ms) ms),
      unanswered_calls-expand (available_ids ms) ms (λ x k. k) 0,
      available_ids-expand (available_ids ms) ms,
      unmatched_responses-expand (available_ids ms) ms (λ x k. k) 0,
    )

    -- With automatic repair the validator never fails, and it finds no issue in what it returns.
    pub validate_and_fix_repairs :
        (v : MessageValidator) (ms : List (Message V))
        → v.auto_fix ≡ true
        → (fixed : List (Message V)) × (validate_and_fix debug_ids v ms ≡ ok fixed)
          × (detect_issues debug_ids fixed ≡ [])
    unfolding validate_and_fix
    validate_and_fix_repairs v ms h = elim (empty-cases (detect_issues debug_ids ms)) [
      | inl e ↦ (ms, rw e, e)
      | inr e ↦ (
        expand (available_ids ms) ms,
        rw (e, h) (fix_issues-detect_issues debug_ids ms),
        detect_issues-expand ms,
      )
    ]

    -- Without automatic repair the validator returns messages exactly when it finds no issue in
    -- them, and then returns them as they were.
    pub validate_and_fix_strict :
        (v : MessageValidator) (ms ns : List (Message V))
        → v.auto_fix ≡ false
        → (validate_and_fix debug_ids v ms ≡ ok ns)
          ↔ ((detect_issues debug_ids ms ≡ []) × (ms ≡ ns))
    unfolding validate_and_fix
    validate_and_fix_strict v ms ns h = elim (empty-cases (detect_issues debug_ids ms)) [
      | inl e ↦ (λ k. (e, ground arith), λ k. ground arith)
      | inr e ↦ (λ k. ground arith, λ k. ground arith)
    ]
