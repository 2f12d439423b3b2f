-- ===== src/Agent/Tools/Failures.antt =====
-- The counts of failures in a row of crates/gola-core/src/agent.rs.
use mathlib.Core.Path.{subst}
use gola.Prelude.{
  ℕ, ◌+◌, ◌<◌, ◌≡◌, refl, sym, ap, ◌∙◌, Bool, true, false, Option, some, List, [], ◌∷◌, ◌++◌, Text,
  codes, same_refl, lookup, lookup-put, lookup-remove, text_key, leb, arith,
}
use gola.Core.Types.{ToolCall, Message, Observation, observed}
use gola.Core.Errors.{display, Result, ok, err}
use gola.Core.Action.{then_on, ◌>>=◌}
use gola.Agent.{Agent, remembered, note_outcome, add_tool_observation, settle_memory}
use gola.Agent.World.{World, Tool, Run}
use gola.Agent.Invariants.{is_authorized_plain}
use gola.Agent.Tools.{
  failures_of, or_zero, is_authorized, count_failure, clear_failures, note_run, context_of, observe,
  unless_failing, run_tool, settle_generic, run_generic, find_generic, execute_generic_tool,
}

-- What a result makes of a count.
abbrev pub count_after : Result Text → ℕ → ℕ
count_after (ok content) n = 0
count_after (err e) n = n + 1

module _ {V M : Type 0} (name : Text) where
  cleared : (a : Agent V M) → failures_of name (clear_failures name a) ≡ 0
  unfolding clear_failures
  cleared a =
      ap or_zero (lookup-remove name name a.consecutive_tool_failures) ∙ rw (same_refl name) refl

  counted :
      (a : Agent V M)
      → failures_of name a < 2
      → failures_of name (count_failure name a) ≡ failures_of name a + 1
  unfolding count_failure
  counted a h =
      ap or_zero (lookup-put name name _ a.consecutive_tool_failures)
      ∙ rw (same_refl name) (omega (arith, h))

  -- What is the same in two agents when one comes from the other by an observation.
  abbrev SameFailures : Agent V M → Agent V M → Type 0
  SameFailures a b = (b.consecutive_tool_failures ≡ a.consecutive_tool_failures) × (b.runs ≡ a.runs)

  settle_memory-SameFailures :
      (f : M → Message V → Result (Unit {0}) × M) (a b : Agent V M) (o : Observation)
      (r : Result (Unit {0}) × M)
      → SameFailures a b
      → SameFailures a (settle_memory f b o r).1
  settle_memory-SameFailures f a b o (ok done, m) h = h
  settle_memory-SameFailures f a b o (err e, m) h = h

  module _ (w : World V M) where
    observe-SameFailures :
        (id : Option Text) (content : Text) (success : Bool) (a : Agent V M)
        → SameFailures a (observe w id content success a).1
    unfolding observe add_tool_observation note_outcome
    observe-SameFailures id content success a =
        let o : Observation = record { tool_call_id = id; content = content; success = success } in
        let n = note_outcome a content success in
        let n' : Agent V M = record n { history = n.history ++ observed o ∷ [] } in
        settle_memory-SameFailures w.memory.add_message a n' o
          (w.memory.add_message n'.memory (remembered o)) (kept success)
      where
        kept : (success : Bool) → SameFailures a (note_outcome a content success)
        kept true = (refl, refl)
        kept false = (ground arith, ground arith)

    settle_generic-failures :
        (id : Option Text) (r : Result Text) (a : Agent V M)
        → failures_of name a < 2
        → ((settle_generic w name id r a).1.runs ≡ a.runs)
          × (failures_of name (settle_generic w name id r a).1 ≡ count_after r (failures_of name a))
    unfolding settle_generic clear_failures count_failure ◌>>=◌
    settle_generic-failures id (ok content) a h =
        let same = observe-SameFailures id content true (clear_failures name a) in
        (same.1, ap (λ m. or_zero (lookup name m)) same.0 ∙ cleared a)
    settle_generic-failures id (err e) a h =
        let same =
          observe-SameFailures id
            (codes "Tool '" ++ name ++ codes "' execution failed: " ++ display e) false
            (count_failure name a) in
        (same.1, ap (λ m. or_zero (lookup name m)) same.0 ∙ counted a h)

module _ {V M : Type 0} (w : World V M) (call : ToolCall V) (step : ℕ) (t : Tool V)
    (a : Agent V M) where
  -- The log of runs that the tool is given, in which its run is the newest.
  abbrev pub log_of : List (Run V)
  log_of =
      record { tool_name = call.name; tool_arguments = call.arguments }
      ∷ (is_authorized (context_of call call.name t.metadata.description) step a).1.runs

  ran :
      lookup call.name w.tools ≡ some t
      → failures_of call.name a < 2
      → (is_authorized (context_of call call.name t.metadata.description) step a).0 ≡ ok true
      → execute_generic_tool w call step a
        ≡ settle_generic w call.name call.id (t.execute log_of call.arguments) (
            note_run call.name call.arguments
              (is_authorized (context_of call call.name t.metadata.description) step a).1)
  unfolding execute_generic_tool unless_failing find_generic run_generic run_tool note_run ◌>>=◌
  ran f h g =
      let b = (is_authorized (context_of call call.name t.metadata.description) step a).1 in
      let go = few h in
      rw (go, f) (ap (λ (r : Result Bool). then_on (run_generic w t call) (r, b)) g)
    where
      few : failures_of call.name a < 2 → leb 2 (failures_of call.name a) ≡ false
      few h = ground arith

  -- A call of a tool that there is, that has failed fewer than two times in a row, and that is
  -- granted, runs it once; then the tool's count is one more if it failed, and 0 if it did not,
  -- whatever the memory says to the observation.
  pub execute_generic_tool-failures :
      lookup call.name w.tools ≡ some t
      → failures_of call.name a < 2
      → (is_authorized (context_of call call.name t.metadata.description) step a).0 ≡ ok true
      → ((execute_generic_tool w call step a).1.runs ≡ log_of)
        × (failures_of call.name (execute_generic_tool w call step a).1
            ≡ count_after (t.execute log_of call.arguments) (failures_of call.name a))
  unfolding note_run
  execute_generic_tool-failures f h g =
      let c = context_of call call.name t.metadata.description in
      let b = note_run call.name call.arguments (is_authorized c step a).1 in
      let kept : b.consecutive_tool_failures ≡ a.consecutive_tool_failures =
        ap (λ (a : Agent V M). a.consecutive_tool_failures) (is_authorized_plain a c step) in
      let few = subst (λ m. or_zero (lookup call.name m) < 2) (sym kept) h in
      let done =
        settle_generic-failures call.name w call.id (t.execute log_of call.arguments) b few in
      rw (ran f h g) (
        done.0,
        done.1
            ∙ ap (λ m. count_after (t.execute log_of call.arguments) (or_zero (lookup call.name m)))
                kept,
      )
