-- ===== src/Agent/Observations.antt =====
-- What crates/gola-core/src/agent.rs notes of the results of tools.
use gola.Prelude.{
  ℕ, suc, ◌%◌, ◌^◌, ◌≡◌, refl, ap, ◌∙◌, Bool, true, false, not, ◌&&◌, Option, none, some, List, [],
  ◌∷◌, ◌++◌, arith, Bool-cases, inl, inr, Text, same, same_refl, eq_of_same, if◌then◌else◌,
}
use gola.Core.Types.{Message, Observation, observed}
use gola.Core.Errors.{Result, ok, err}
use gola.Agent.{Agent, note_outcome, add_tool_observation, settle_memory, remembered}

-- How many of the outcomes, the latest first, are this failure, without one between them that is
-- not.
unfoldable pub streak : Text → List (Text × Bool) → ℕ
streak failure [] = 0
streak failure ((content, success) ∷ earlier) =
    let rest = streak failure earlier in if not success && same content failure then suc rest else 0

-- A list in front of another, turned round.
unfoldable pub latest_first :
    List (Option Text × Text × Bool) → List (Text × Bool) → List (Text × Bool)
latest_first [] past = past
latest_first ((id, content, success) ∷ os) past = latest_first os ((content, success) ∷ past)

module _ {V M : Type 0} where
  -- The fields count the latest failure as often as it came in a row.
  abbrev pub CountsStreak : List (Text × Bool) → Agent V M → Type 0
  CountsStreak [] a = (a.last_tool_error ≡ none) × (a.consecutive_error_count ≡ 0)
  CountsStreak ((content, true) ∷ earlier) a =
      (a.last_tool_error ≡ none) × (a.consecutive_error_count ≡ 0)
  CountsStreak ((content, false) ∷ earlier) a =
      (a.last_tool_error ≡ some content)
      × (a.consecutive_error_count ≡ streak content ((content, false) ∷ earlier) % 2 ^ 32)

  CountsStreak-note_outcome :
      (past : List (Text × Bool)) (a : Agent V M) (content : Text) (success : Bool)
      → CountsStreak past a
      → CountsStreak ((content, success) ∷ past) (note_outcome a content success)
  unfolding note_outcome streak
  CountsStreak-note_outcome past a content true h = (refl, refl)
  CountsStreak-note_outcome [] a content false h = rw (h.0, same_refl content) (refl, omega arith)
  CountsStreak-note_outcome ((failure, true) ∷ earlier) a content false h =
      rw (h.0, same_refl content) (refl, omega arith)
  CountsStreak-note_outcome ((failure, false) ∷ earlier) a content false h =
      elim (Bool-cases (same failure content)) [
        | inl e ↦
            let equal = eq_of_same failure content e in
            let p = ap (λ f. streak f earlier) equal in
            (ground arith, ground (arith, h.1, same_refl failure, same_refl content, p))
        | inr e ↦ (ground arith, ground (arith, same_refl content))
      ]

  of_equal_fields :
      (past : List (Text × Bool)) (a b : Agent V M)
      → b.last_tool_error ≡ a.last_tool_error
      → b.consecutive_error_count ≡ a.consecutive_error_count
      → CountsStreak past a
      → CountsStreak past b
  of_equal_fields [] a b h k c = (h ∙ c.0, k ∙ c.1)
  of_equal_fields ((content, true) ∷ earlier) a b h k c = (h ∙ c.0, k ∙ c.1)
  of_equal_fields ((content, false) ∷ earlier) a b h k c = (h ∙ c.0, k ∙ c.1)

  module _ (add_message : M → Message V → Result (Unit {0}) × M) where
    settle_memory-fields :
        (a : Agent V M) (o : Observation) (r : Result (Unit {0}) × M)
        → ((settle_memory add_message a o r).1.last_tool_error ≡ a.last_tool_error)
          × ((settle_memory add_message a o r).1.consecutive_error_count
              ≡ a.consecutive_error_count)
    settle_memory-fields a o (ok done, memory) = (refl, refl)
    settle_memory-fields a o (err e, memory) = (refl, refl)

    CountsStreak-add_tool_observation :
        (past : List (Text × Bool)) (a : Agent V M) (id : Option Text) (content : Text)
        (success : Bool)
        → CountsStreak past a
        → CountsStreak
            ((content, success) ∷ past)
            (add_tool_observation add_message a id content success).1
    unfolding add_tool_observation
    CountsStreak-add_tool_observation past a id content success h =
        let noted = note_outcome a content success in
        let o : Observation = record { tool_call_id = id; content = content; success = success } in
        let recorded : Agent V M = record noted { history = noted.history ++ observed o ∷ [] } in
        let fields = settle_memory-fields recorded o (add_message recorded.memory (remembered o)) in
        of_equal_fields ((content, success) ∷ past) noted _ fields.0 fields.1
          (CountsStreak-note_outcome past a content success h)

    -- The agent after a list of observations, whether the memory takes them or not.
    unfoldable pub observe_all : Agent V M → List (Option Text × Text × Bool) → Agent V M
    observe_all a [] = a
    observe_all a ((id, content, success) ∷ os) =
        observe_all (add_tool_observation add_message a id content success).1 os

    observe_all_from :
        (past : List (Text × Bool)) (a : Agent V M) (os : List (Option Text × Text × Bool))
        → CountsStreak past a
        → CountsStreak (latest_first os past) (observe_all a os)
    unfolding observe_all latest_first
    observe_all_from past a [] h = h
    observe_all_from past a ((id, content, success) ∷ os) h =
        observe_all_from ((content, success) ∷ past)
          (add_tool_observation add_message a id content success).1 os
          (CountsStreak-add_tool_observation past a id content success h)

    -- From an agent with no failure noted, after any observations, and whether or not the memory
    -- took them: the last failure and the counter, which wraps at 2 ^ 32, are those of the latest
    -- run of equal failures, and both are cleared if the latest observation is a success.
    pub observe_all-CountsStreak :
        (a : Agent V M) (os : List (Option Text × Text × Bool))
        → a.last_tool_error ≡ none
        → a.consecutive_error_count ≡ 0
        → CountsStreak (latest_first os []) (observe_all a os)
    observe_all-CountsStreak a os h k = observe_all_from [] a os (h, k)
