-- ===== src/Agent/Step/Failing.antt =====
-- The tools that crates/gola-core/src/agent.rs skips because they have failed too often.
use mathlib.Core.Path.{subst}
use gola.Prelude.{
  ◌≤◌, ◌<◌, ◌≡◌, refl, sym, ap, ◌∙◌, false, Bool-cases, inl, inr, List, Text, same, eq_of_same,
  retain, lookup-put, lookup-remove, text_key, arith,
}
use gola.Agent.{Agent}
use gola.Agent.World.{World, Run}
use gola.Agent.Tools.{failures_of, or_zero, count_failure, clear_failures, note_run}
use gola.Agent.Step.{run}
use gola.Agent.Invariants.{IsKept, is_authorized_plain}
use gola.Agent.Invariants.Run.{run-keeps}

module _ {V : Type 0} where
  abbrev pub runs_of : Text → List (Run V) → List (Run V)
  runs_of name rs = retain (λ (r : Run V). same r.tool_name name) rs

module _ {V M : Type 0} (name : Text) where
  -- Another tool than one that fails.
  other_of_failing :
      (a : Agent V M) (other : Text)
      → 2 ≤ failures_of name a
      → failures_of other a < 2
      → same other name ≡ false
  other_of_failing a other h f = elim (Bool-cases (same other name)) [
    | inl e ↦
        let d = eq_of_same other name e in ground (arith, subst (λ n. failures_of n a < 2) d f)
    | inr e ↦ e
  ]

  cleared-failing :
      (a : Agent V M) (other : Text)
      → same other name ≡ false
      → failures_of name (clear_failures other a) ≡ failures_of name a
  unfolding clear_failures
  cleared-failing a other e =
      ap or_zero (lookup-remove other name a.consecutive_tool_failures) ∙ rw e refl

  counted-failing :
      (a : Agent V M) (other : Text)
      → same other name ≡ false
      → failures_of name (count_failure other a) ≡ failures_of name a
  unfolding count_failure
  counted-failing a other e =
      ap or_zero (lookup-put other name _ a.consecutive_tool_failures) ∙ rw e refl

  module _ (w : World V M) (rs : List (Run V)) where
    abbrev FailingWith : Agent V M → Type 0
    FailingWith a = (2 ≤ failures_of name a) × (runs_of name a.runs ≡ rs)

    FailingWith-IsKept : IsKept w FailingWith
    unfolding note_run clear_failures count_failure
    FailingWith-IsKept = record {
      plain = λ a h l n m d r p. p;
      asked = λ a c step p f. subst FailingWith (sym (is_authorized_plain a c step)) p;
      noted = λ a c step p f g.
          let e = other_of_failing a c.tool_name p.0 f in
          let q = subst FailingWith (sym (is_authorized_plain a c step)) p in (q.0, rw e q.1);
      cleared = λ a other p f. (
        subst (λ n. 2 ≤ n) (sym (cleared-failing a other (other_of_failing a other p.0 f))) p.0,
        p.1,
      );
      counted = λ a other p f. (
        subst (λ n. 2 ≤ n) (sym (counted-failing a other (other_of_failing a other p.0 f))) p.0,
        p.1,
      );
    }

  -- A tool whose last two calls failed is never run again: a run of the agent neither runs it nor
  -- lets its count of failures fall below two, whatever the model calls for.
  pub run-failing :
      (w : World V M) (task : Text) (a : Agent V M)
      → 2 ≤ failures_of name a
      → (2 ≤ failures_of name (run w task a).1)
        × (runs_of name (run w task a).1.runs ≡ runs_of name a.runs)
  run-failing w task a h =
      run-keeps w (FailingWith w (runs_of name a.runs)) (FailingWith-IsKept w (runs_of name a.runs))
        (λ b sent p. p) task a (h, refl)
