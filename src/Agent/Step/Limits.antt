-- ===== src/Agent/Step/Limits.antt =====
-- How often the run of crates/gola-core/src/agent.rs asks the model.
use gola.Prelude.{ℕ, ◌+◌, ◌≤◌, ◌≡◌, refl, sym, Text, length, arith}
use gola.Agent.{Agent}
use gola.Agent.World.{World}
use gola.Agent.Tools.{count_failure, clear_failures, note_run}
use gola.Agent.Step.{run}
use gola.Agent.Invariants.{IsKept, is_authorized_plain}
use mathlib.Core.Path.{subst}
use gola.Agent.Invariants.Run.{ask_model-Ensures, run-Ensures}

module _ {V M : Type 0} where
  -- A property of these two fields.
  pub IsKept_of_sent :
      (w : World V M) (P : ℕ → ℕ → Type 0) → IsKept w (λ a. P (length a.sent) a.max_steps)
  unfolding note_run count_failure clear_failures
  IsKept_of_sent w P = record {
    plain = λ a h l n m d r p. p;
    asked = λ a c step p f.
        subst (λ b. P (length b.sent) b.max_steps) (sym (is_authorized_plain a c step)) p;
    noted = λ a c step p f g.
        subst (λ b. P (length b.sent) b.max_steps) (sym (is_authorized_plain a c step)) p;
    cleared = λ a name p f. p;
    counted = λ a name p f. p;
  }

  -- The steps of a run send the model at most `max_steps` requests, whatever the model, the tools and
  -- the memory answer. The requests of a memory that has the model write summaries are the memory's
  -- and are not counted.
  pub run-max_steps :
      (w : World V M) (task : Text) (a : Agent V M)
      → length (run w task a).1.sent ≤ length a.sent + a.max_steps
  run-max_steps w task a =
      let h =
        run-Ensures w (λ b. (length b.sent ≡ length a.sent) × (b.max_steps ≡ a.max_steps))
          (λ left b. length b.sent + left ≤ length a.sent + a.max_steps)
          (IsKept_of_sent w (λ n k. (n ≡ length a.sent) × (k ≡ a.max_steps)))
          (λ left. IsKept_of_sent w (λ n k. n + left ≤ length a.sent + a.max_steps))
          (λ b p. omega (arith, p.0, p.1))
          (λ left.
            ask_model-Ensures w _ _
              (IsKept_of_sent w (λ n k. n + left ≤ length a.sent + a.max_steps))
              (λ b p. omega arith))
          (λ left b p. omega arith) (λ b p. omega (arith, p.0)) task a (refl, refl) in
      omega arith
