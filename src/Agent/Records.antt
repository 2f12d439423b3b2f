-- ===== src/Agent/Records.antt =====
-- What the run of crates/gola-core/src/agent.rs sends the model, before the eyes of the validator of
-- crates/gola-core/src/llm/message_validator.rs.
use mathlib.Core.Path.{subst}
use gola.Prelude.{
  ℕ, suc, ◌≡◌, refl, sym, ap, ap₂, ◌∙◌, Bool, Bool-cases, leb, not, Option, none, some, inl, inr,
  List, [], ◌∷◌, ◌++◌, Every, Every-append, Every-take, Every-drop, take, drop, retain, length,
  is_empty, Text,
}
use gola.Core.Types.{Role, system, user, assistant, tool, ToolCall, Message}
use gola.Llm.Model.{Request}
use gola.Llm.Validator.{
  message_ids, orphan_id, available_ids, unmatched_responses, find_orphaned_tool_responses,
}
use gola.Memory.Prompt.{Llm}
use gola.Memory.Context.{is_result, last_call_index, select_context}
use gola.Memory.Window
use gola.Memory.Window.{SlidingWindowMemory}
use gola.Agent.{Agent}
use gola.Agent.World.{World}
use gola.Agent.Tools.{count_failure, clear_failures, note_run}
use gola.Agent.Step.{prompt_messages, run}
use gola.Agent.Construction.{AnyMemory, window, summary, buffer, boxed, add_message, get_context}
use gola.Agent.Invariants.{IsKept, Remembers, is_authorized_plain}
use gola.Agent.Invariants.Run.{run-Ensures, ask_model-Ensures}

abbrev pub result_id : Role → Option Text → Option Text
result_id tool id = id
result_id _ id = none

module _ {V : Type 0} where
  abbrev pub HasNoCalls : Message V → Type 0
  HasNoCalls m = m.tool_calls ≡ none

  -- The results of tools with an identifier, with their places.
  unfoldable pub tool_results : ℕ → List (Message V) → List (ℕ × Text)
  tool_results i [] = []
  tool_results i (m ∷ ms) = elim (result_id m.role m.tool_call_id) [
    | none ↦ tool_results (suc i) ms
    | some id ↦ (i, id) ∷ tool_results (suc i) ms
  ]

  message_ids_of :
      (r : Role) (content : Text) (id : Option Text) (calls : Option (List (ToolCall V)))
      → calls ≡ none
      → message_ids (record { role = r; content = content; tool_call_id = id; tool_calls = calls })
        ≡ []
  unfolding message_ids
  message_ids_of system content id calls h = refl
  message_ids_of user content id calls h = refl
  message_ids_of tool content id calls h = refl
  message_ids_of assistant content id none h = refl
  message_ids_of assistant content id (some calls) h = absurd (cc h)

  message_ids_none : (m : Message V) → HasNoCalls m → message_ids m ≡ []
  message_ids_none m h = message_ids_of m.role m.content m.tool_call_id m.tool_calls h

  available_ids_none : (ms : List (Message V)) → Every HasNoCalls ms → available_ids ms ≡ []
  unfolding available_ids
  available_ids_none [] h = refl
  available_ids_none (m ∷ ms) h = rw (message_ids_none m h.0) (available_ids_none ms h.1)

  orphan_id_of :
      (r : Role) (content : Text) (id : Option Text) (calls : Option (List (ToolCall V)))
      → orphan_id [] (record { role = r; content = content; tool_call_id = id; tool_calls = calls })
        ≡ result_id r id
  unfolding orphan_id
  orphan_id_of system content id calls = refl
  orphan_id_of user content id calls = refl
  orphan_id_of assistant content id calls = refl
  orphan_id_of tool content none calls = refl
  orphan_id_of tool content (some id) calls = refl

  orphan_id-nil : (m : Message V) → orphan_id [] m ≡ result_id m.role m.tool_call_id
  orphan_id-nil m = orphan_id_of m.role m.content m.tool_call_id m.tool_calls

  unmatched_responses-nil :
      (i : ℕ) (ms : List (Message V)) → unmatched_responses [] i ms ≡ tool_results i ms
  unfolding unmatched_responses tool_results
  unmatched_responses-nil i [] = refl
  unmatched_responses-nil i (m ∷ ms) =
      ap₂
        (λ (o : Option Text) (rest : List (ℕ × Text)). elim o [
          | none ↦ rest
          | some id ↦ (i, id) ∷ rest
        ])
        (orphan_id-nil m) (unmatched_responses-nil (suc i) ms)

  -- Every result of a tool is an orphan for the validator.
  abbrev pub AllOrphaned : Request V → Type 0
  AllOrphaned r = find_orphaned_tool_responses r.messages ≡ tool_results 0 r.messages

  abbrev pub HasNone : Request V → Type 0
  HasNone r = Every HasNoCalls r.messages

  HasNone-AllOrphaned : (r : Request V) → HasNone r → AllOrphaned r
  unfolding find_orphaned_tool_responses
  HasNone-AllOrphaned r h =
      ap (λ ids. unmatched_responses ids 0 r.messages) (available_ids_none r.messages h)
      ∙ unmatched_responses-nil 0 r.messages

  Every-retain :
      (f : Message V → Bool) (ms : List (Message V))
      → Every HasNoCalls ms
      → Every HasNoCalls (retain f ms)
  Every-retain f [] h = tt
  Every-retain f (m ∷ ms) h = elim (Bool-cases (f m)) [
    | inl e ↦ rw e (h.0, Every-retain f ms h.1)
    | inr e ↦ rw e (Every-retain f ms h.1)
  ]

  select_context-HasNoCalls :
      (ms : List (Message V)) → Every HasNoCalls ms → Every HasNoCalls (select_context ms)
  unfolding select_context
  select_context-HasNoCalls ms h =
      elim (last_call_index ms)
        as (λ (o : Option ℕ). Every HasNoCalls (elim o [
          | none ↦ ms
          | some idx ↦ retain (λ m. not (is_result m)) (take idx ms) ++ drop idx ms
        ])) [
          | none ↦ h
          | some idx ↦
              Every-append HasNoCalls (retain (λ m. not (is_result m)) (take idx ms)) (drop idx ms)
                (Every-retain (λ m. not (is_result m)) (take idx ms)
                  (Every-take HasNoCalls idx ms h))
                (Every-drop HasNoCalls idx ms h)
        ]

  -- A window whose messages have no tool calls.
  abbrev pub HoldsNoCalls : AnyMemory V → Type 0
  HoldsNoCalls (window held) = Every HasNoCalls held.messages
  HoldsNoCalls (summary held) = ⊥
  HoldsNoCalls (buffer held) = ⊥

  add_message-HoldsNoCalls :
      (llm : Llm V) (held : AnyMemory V) (m : Message V)
      → HasNoCalls m
      → HoldsNoCalls held
      → HoldsNoCalls (add_message llm held m).1
  unfolding add_message Window.add_message
  add_message-HoldsNoCalls llm (window held) m e p =
      elim (Bool-cases (leb held.max_messages (length held.messages))) [
        | inl f ↦ rw f (
            Every-append HasNoCalls (drop 1 held.messages) (m ∷ [])
              (Every-drop HasNoCalls 1 held.messages p) (e, tt))
        | inr f ↦ rw f (Every-append HasNoCalls held.messages (m ∷ []) p (e, tt))
      ]
  add_message-HoldsNoCalls llm (summary held) m e p = elim p [ ]
  add_message-HoldsNoCalls llm (buffer held) m e p = elim p [ ]

  get_context-HasNoCalls :
      (llm : Llm V) (held : AnyMemory V)
      → HoldsNoCalls held
      → Every HasNoCalls (get_context llm held)
  unfolding get_context Window.get_context
  get_context-HasNoCalls llm (window held) p = select_context-HasNoCalls held.messages p
  get_context-HasNoCalls llm (summary held) p = elim p [ ]
  get_context-HasNoCalls llm (buffer held) p = elim p [ ]

module _ {V : Type 0} (w : World V (AnyMemory V)) (llm : Llm V) (b : w.memory ≡ boxed llm) where
  prompt_messages-HasNoCalls : (prompt : Option Text) → Every HasNoCalls (prompt_messages w prompt)
  prompt_messages-HasNoCalls none = tt
  prompt_messages-HasNoCalls (some prompt) = elim (Bool-cases (is_empty prompt)) [
    | inl e ↦ rw e tt
    | inr e ↦ rw e (refl, tt)
  ]

  abbrev RecordsNoCalls : Agent V (AnyMemory V) → Type 0
  RecordsNoCalls a = HoldsNoCalls a.memory × Every HasNone a.sent

  HoldsNoCalls-Remembers :
      (m m' : AnyMemory V) → Remembers w m m' → HoldsNoCalls m → HoldsNoCalls m'
  HoldsNoCalls-Remembers m m' (inl e) p = subst HoldsNoCalls (sym e) p
  HoldsNoCalls-Remembers m m' (inr (message, c, e)) p =
      subst HoldsNoCalls (sym (e ∙ ap (λ t. (t.add_message m message).1) b))
        (add_message-HoldsNoCalls llm m message c p)

  RecordsNoCalls-IsKept : IsKept w RecordsNoCalls
  unfolding note_run count_failure clear_failures
  RecordsNoCalls-IsKept = record {
    plain = λ a hs l c m d r p. (HoldsNoCalls-Remembers a.memory m r p.0, p.1);
    asked = λ a c step p f. subst RecordsNoCalls (sym (is_authorized_plain a c step)) p;
    noted = λ a c step p f g. subst RecordsNoCalls (sym (is_authorized_plain a c step)) p;
    cleared = λ a name p f. p;
    counted = λ a name p f. p;
  }

  asked-HasNoCalls :
      (a : Agent V (AnyMemory V))
      → HoldsNoCalls a.memory
      → Every HasNoCalls (prompt_messages w a.system_prompt ++ w.memory.get_context a.memory)
  asked-HasNoCalls a p =
      Every-append HasNoCalls (prompt_messages w a.system_prompt) (w.memory.get_context a.memory)
        (prompt_messages-HasNoCalls a.system_prompt)
        (subst (λ c. Every HasNoCalls (c.get_context a.memory)) (sym b)
          (get_context-HasNoCalls llm a.memory p))

  all-AllOrphaned : (rs : List (Request V)) → Every HasNone rs → Every AllOrphaned rs
  all-AllOrphaned [] h = tt
  all-AllOrphaned (r ∷ rs) h = (HasNone-AllOrphaned r h.0, all-AllOrphaned rs h.1)

  -- With a sliding window that holds no tool calls, and none sent before: whatever the model calls for, in
  -- every request that the steps of a run send it every result of a tool with an identifier is an
  -- orphaned response for the validator, since the run does not record the calls.
  pub find_orphaned_tool_responses-run :
      (task : Text) (a : Agent V (AnyMemory V))
      → HoldsNoCalls a.memory
      → Every HasNone a.sent
      → Every AllOrphaned (run w task a).1.sent
  find_orphaned_tool_responses-run task a p q =
      let k = RecordsNoCalls-IsKept in
      all-AllOrphaned (run w task a).1.sent
        (run-Ensures w RecordsNoCalls (λ left. RecordsNoCalls) k (λ left. k) (λ a p. p)
          (λ left.
            ask_model-Ensures w RecordsNoCalls RecordsNoCalls k
              (λ a p. (p.0, (asked-HasNoCalls a p.0, p.1))))
          (λ left a p. p) (λ a p. p) task a (p, q)).1
