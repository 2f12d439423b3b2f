-- ===== src/Llm/Validator/Pending.antt =====
-- The scan for orphaned tool calls against a description with no state: a call is answered if its
-- response comes before the next user message.
use gola.Prelude.{
  ℕ, suc, ◌≡◌, refl, sym, ap, ◌∙◌, Bool, false, not, ◌&&◌, ◌||◌, Option, none, some, List, [], ◌∷◌,
  ◌++◌, map, append-nil, append_assoc, arith, is_empty, retain, retain-append, retain_all,
  retain_ext, retain-retain, Text, same,
}
use gola.Core.Types.{Role, ToolCall, system, user, assistant, tool, Message}
use gola.Llm.Validator.{
  Pending, Scan, answer, call_ids, message_ids, note_ids, scan_message, scan_messages,
  find_orphaned_tool_calls,
}

abbrev pub clean : Pending → Pending
clean = retain (λ e. not (is_empty e.1))

-- Lists an entry with an id in it, and no other.
abbrev pub entry : ℕ → List Text → Pending → Pending
entry i [] rest = rest
entry i (id ∷ ids) rest = (i, id ∷ ids) ∷ rest

abbrev pub answers : Text → Option Text → Bool
answers id none = false
answers id (some x) = same id x

-- `answer` on the ids of one entry.
abbrev without : Text → List Text → List Text
without id = retain (λ x. not (same x id))

clean-answer : (id : Text) (p : Pending) → clean (answer id p) ≡ answer id p
unfolding answer
clean-answer id [] = refl
clean-answer id ((i, ids) ∷ p) = ground (arith, clean-answer id p)

clean-append-entry :
    (i : ℕ) (ids : List Text) (p : Pending)
    → clean p ≡ p
    → is_empty ids ≡ false
    → clean (p ++ (i, ids) ∷ []) ≡ p ++ (i, ids) ∷ []
clean-append-entry i ids p h e =
    retain-append (λ x. not (is_empty x.1)) p ((i, ids) ∷ []) ∙ rw (h, e)

entry-append :
    (i : ℕ) (ids : List Text) (p rest : Pending) → entry i ids p ++ rest ≡ entry i ids (p ++ rest)
entry-append i [] p rest = refl
entry-append i (id ∷ ids) p rest = refl

clean-cons : (i : ℕ) (ids : List Text) (p : Pending) → entry i ids (clean p) ≡ clean ((i, ids) ∷ p)
clean-cons i [] p = refl
clean-cons i (id ∷ ids) p = refl

-- `!a && !b`
not-or : (a b : Bool) → (not a && not b) ≡ not (a || b)
not-or a b = ground arith

clean-note_ids :
    (i : ℕ) (ids : List Text) (s : Scan)
    → clean s.pending ≡ s.pending
    → clean (note_ids i ids s).pending ≡ (note_ids i ids s).pending
unfolding note_ids
clean-note_ids i [] s h = h
clean-note_ids i (id ∷ ids) s h = clean-append-entry i (id ∷ ids) s.pending h refl

module _ {V : Type 0} where
  unfoldable pub answered : Text → List (Message V) → Bool
  answered id [] = false
  answered id (m ∷ ms) = elim m.role [
    | tool ↦ answers id m.tool_call_id || answered id ms
    | user ↦ false
    | _ ↦ answered id ms
  ]

  -- The ids that no response answers.
  abbrev pub open_ids : List (Message V) → List Text → List Text
  open_ids ms = retain (λ x. not (answered x ms))

  -- What is left open of the pending calls `p` when `ms` is still to come.
  unfoldable pub residual : List (Message V) → Pending → Pending
  residual ms [] = []
  residual ms ((i, ids) ∷ p) = entry i (open_ids ms ids) (residual ms p)

  unfoldable pub unanswered_calls : ℕ → List (Message V) → Pending
  unanswered_calls i [] = []
  unanswered_calls i (m ∷ ms) = entry i (open_ids ms (message_ids m)) (unanswered_calls (suc i) ms)

  residual-append :
      (ms : List (Message V)) (i : ℕ) (ids : List Text) (p rest : Pending)
      → residual ms (p ++ (i, ids) ∷ []) ++ rest ≡ residual ms p ++ entry i (open_ids ms ids) rest
  unfolding residual
  residual-append ms i ids [] rest = entry-append i (open_ids ms ids) [] rest
  residual-append ms i ids ((j, js) ∷ p) rest =
      entry-append j (open_ids ms js) _ rest
      ∙ ap (entry j (open_ids ms js)) (residual-append ms i ids p rest)
      ∙ sym (entry-append j (open_ids ms js) (residual ms p) _)

  residual_ext :
      (ms ns : List (Message V)) (p : Pending)
      → ((x : Text) → answered x ms ≡ answered x ns)
      → residual ms p ≡ residual ns p
  unfolding residual
  residual_ext ms ns [] h = refl
  residual_ext ms ns ((i, ids) ∷ p) h =
      rw (retain_ext _ _ ids (λ x. ap not (h x)), residual_ext ms ns p h)

  -- With nothing answered any more, the pending calls are the ones that are left open.
  residual_closed :
      (ms : List (Message V)) (p : Pending)
      → ((x : Text) → answered x ms ≡ false)
      → residual ms p ≡ clean p
  unfolding residual
  residual_closed ms [] h = refl
  residual_closed ms ((i, ids) ∷ p) h =
      rw (retain_all _ ids (λ x. ap not (h x)), residual_closed ms p h) (clean-cons i ids p)

  residual-clean-cons :
      (ms : List (Message V)) (i : ℕ) (ids : List Text) (p : Pending)
      → residual ms (clean ((i, ids) ∷ p)) ≡ entry i (open_ids ms ids) (residual ms (clean p))
  unfolding residual
  residual-clean-cons ms i [] p = refl
  residual-clean-cons ms i (id ∷ ids) p = refl

  open_ids-without :
      (id : Text) (m : Message V) (ms : List (Message V)) (ids : List Text)
      → ((x : Text) → answered x (m ∷ ms) ≡ (same x id || answered x ms))
      → open_ids ms (without id ids) ≡ open_ids (m ∷ ms) ids
  open_ids-without id m ms ids h =
      retain-retain _ _ ids
      ∙ retain_ext _ _ ids (λ x. not-or (same x id) (answered x ms) ∙ ap not (sym (h x)))

  residual-answer :
      (id : Text) (m : Message V) (ms : List (Message V)) (p : Pending)
      → ((x : Text) → answered x (m ∷ ms) ≡ (same x id || answered x ms))
      → residual ms (answer id p) ≡ residual (m ∷ ms) p
  unfolding residual answer
  residual-answer id m ms [] h = refl
  residual-answer id m ms ((i, ids) ∷ p) h =
      residual-clean-cons ms i (without id ids) (map (λ e. (e.0, without id e.1)) p)
      ∙ rw (open_ids-without id m ms ids h)
          (ap (entry i (open_ids (m ∷ ms) ids)) (residual-answer id m ms p h))

  abbrev pub message : Role → Text → Option Text → Option (List (ToolCall V)) → Message V
  message r c t ts = record { role = r; content = c; tool_call_id = t; tool_calls = ts }

  note_ids_open :
      (i : ℕ) (ids : List Text) (s : Scan) (ms : List (Message V)) (rest : Pending)
      → (note_ids i ids s).orphaned ++ (residual ms (note_ids i ids s).pending ++ rest)
        ≡ s.orphaned ++ (residual ms s.pending ++ entry i (open_ids ms ids) rest)
  unfolding note_ids
  note_ids_open i [] s ms rest = refl
  note_ids_open i (id ∷ ids) s ms rest =
      ap (◌++◌ s.orphaned) (residual-append ms i (id ∷ ids) s.pending rest)

  -- A message that answers nothing leaves every pending call as open as it was.
  residual_skip :
      (m : Message V) (ms : List (Message V)) (s : Scan) (rest : Pending)
      → ((x : Text) → answered x ms ≡ answered x (m ∷ ms))
      → s.orphaned ++ (residual ms s.pending ++ rest)
        ≡ s.orphaned ++ (residual (m ∷ ms) s.pending ++ rest)
  residual_skip m ms s rest h =
      ap (λ q. s.orphaned ++ (q ++ rest)) (residual_ext ms (m ∷ ms) s.pending h)

  clean-scan_message :
      (r : Role) (c : Text) (t : Option Text) (ts : Option (List (ToolCall V))) (i : ℕ) (s : Scan)
      → clean s.pending ≡ s.pending
      → clean (scan_message i (message r c t ts) s).pending
        ≡ (scan_message i (message r c t ts) s).pending
  unfolding scan_message
  clean-scan_message system c t ts i s h = h
  clean-scan_message user c t ts i s h = refl
  clean-scan_message tool c none ts i s h = h
  clean-scan_message tool c (some id) ts i s h = clean-answer id s.pending
  clean-scan_message assistant c t none i s h = h
  clean-scan_message assistant c t (some []) i s h = h
  clean-scan_message assistant c t (some (k ∷ ks)) i s h = clean-note_ids i (call_ids (k ∷ ks)) s h

  -- What one message does to the calls that end up open.
  scan_message_open :
      (r : Role) (c : Text) (t : Option Text) (ts : Option (List (ToolCall V))) (i : ℕ)
      (ms : List (Message V)) (s : Scan) (rest : Pending)
      → clean s.pending ≡ s.pending
      → (scan_message i (message r c t ts) s).orphaned
          ++ (residual ms (scan_message i (message r c t ts) s).pending ++ rest)
        ≡ s.orphaned
          ++ (residual (message r c t ts ∷ ms) s.pending
              ++ entry i (open_ids ms (message_ids (message r c t ts))) rest)
  unfolding scan_message message_ids residual
  scan_message_open system c t ts i ms s rest h =
      residual_skip _ ms s rest (λ x. unfold answered in refl)
  scan_message_open user c t ts i ms s rest h =
      append_assoc s.orphaned s.pending rest
      ∙ ap (λ q. s.orphaned ++ (q ++ rest))
          (sym (
            residual_closed (message user c t ts ∷ ms) s.pending (λ x. unfold answered in refl)
            ∙ h))
  scan_message_open tool c none ts i ms s rest h =
      residual_skip _ ms s rest (λ x. unfold answered in refl)
  scan_message_open tool c (some id) ts i ms s rest h =
      ap (λ q. s.orphaned ++ (q ++ rest))
        (residual-answer id (message tool c (some id) ts) ms s.pending
          (λ x. unfold answered in refl))
  scan_message_open assistant c t none i ms s rest h =
      residual_skip _ ms s rest (λ x. unfold answered in refl)
  scan_message_open assistant c t (some []) i ms s rest h =
      residual_skip _ ms s rest (λ x. unfold answered in refl)
  scan_message_open assistant c t (some (k ∷ ks)) i ms s rest h =
      note_ids_open i (call_ids (k ∷ ks)) s ms rest
      ∙ residual_skip (message assistant c t (some (k ∷ ks))) ms s _ (λ x. unfold answered in refl)

  scan_open :
      (i : ℕ) (ms : List (Message V)) (s : Scan)
      → clean s.pending ≡ s.pending
      → (scan_messages i ms s).orphaned ++ (scan_messages i ms s).pending
        ≡ s.orphaned ++ (residual ms s.pending ++ unanswered_calls i ms)
  unfolding scan_messages unanswered_calls
  scan_open i [] s h =
      rw append-nil (rw (residual_closed [] s.pending (λ x. unfold answered in refl), h))
  scan_open i (m ∷ ms) s h =
      scan_open (suc i) ms (scan_message i m s)
        (clean-scan_message m.role m.content m.tool_call_id m.tool_calls i s h)
      ∙ scan_message_open m.role m.content m.tool_call_id m.tool_calls i ms s
          (unanswered_calls (suc i) ms) h

  -- The scan with its two vectors finds exactly the calls that no response answers before the next
  -- user message, by position and each with its open ids in order.
  pub find_orphaned_tool_calls-unanswered_calls :
      (ms : List (Message V)) → find_orphaned_tool_calls ms ≡ unanswered_calls 0 ms
  unfolding find_orphaned_tool_calls residual
  find_orphaned_tool_calls-unanswered_calls ms =
      scan_open 0 ms (record { pending = []; orphaned = [] }) refl
