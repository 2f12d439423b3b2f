-- ===== src/Agent/Step/Ends.antt =====
-- How the run of crates/gola-core/src/agent.rs ends.
use gola.Prelude.{
  ℕ, zero, suc, ◌≡◌, refl, ap, ◌∙◌, false, Option, none, some, [], ◌∷◌, ◌++◌, Text, codes, is_empty,
}
use gola.Core.Types.{Usage, thought}
use gola.Core.Errors.{
  AgentError, llm_error, tool_error, code_execution_error, config_error, parsing_error,
  max_steps_reached, loop_detection, mcp_error, docker_error, rag_error, internal_error,
  not_implemented, io_error, validation_error, authorization_failed, authorization_handler_error,
  authorization_denied, installer_error, runtime_error, display, Result, ok, err,
}
use gola.Core.Action.{Action, then_on, ◌>>=◌}
use gola.Agent.{Agent, assistant_message}
use gola.Agent.World.{World}
use gola.Agent.Tools.{add_step}
use gola.Agent.Step.{
  AgentStep, ask_model, remember, remember_content, thought_of, note_thought, finish_step,
  answer_of, run_step, settle_step, step_error, run_steps,
}

module _ {V M : Type 0} (w : World V M) where
  -- A response with a thought and without tool calls ends the run: the answer is read from it, the
  -- memory holds it, the history notes it, and nothing else has changed since the model was asked.
  -- The conditions: a round is left, the model answers, the content is not blank, and the memory
  -- takes the message.
  pub run_steps-answer :
      (left step : ℕ) (a b : Agent V M) (t : Text) (reason : Option Text) (usage : Option Usage)
      (m : M)
      → ask_model w a ≡ (
        ok (record { content = some t; tool_calls = none; finish_reason = reason; usage = usage }),
        b,
      )
      → is_empty (w.trim t) ≡ false
      → w.memory.add_message b.memory (assistant_message t) ≡ (ok tt, m)
      → run_steps w (suc left) step a
        ≡ (ok (answer_of w t), record b { memory = m; history = b.history ++ thought t ∷ [] })
  unfolding run_steps run_step ◌>>=◌ remember_content remember note_thought add_step finish_step
      settle_step
  run_steps-answer left step a b t reason usage m h e f = asked ∙ ap after said ∙ answered
    where
      after : Option Text → Result Text × Agent V M
      after said = settle_step w (run_steps w left (suc step)) (
          then_on
            (λ done.
              finish_step w
                (record {
                  content = some t;
                  tool_calls = none;
                  finish_reason = reason;
                  usage = usage;
                })
                none said step)
            (then_on (λ done. note_thought w said) (remember w (assistant_message t) b)))

      asked : run_steps w (suc left) step a ≡ after (thought_of w (some t))
      asked = rw h refl

      said : thought_of w (some t) ≡ some t
      said = rw e refl

      answered :
          after (some t)
          ≡ (ok (answer_of w t), record b { memory = m; history = b.history ++ thought t ∷ [] })
      answered = rw f refl

-- The errors of a run that has begun: the loop error of a step as it is, any other inside an
-- internal error, and that the steps are used up.
abbrev pub IsRunError : Result Text → Type 0
IsRunError (ok answer) = Unit
IsRunError (err (loop_detection msg)) = Unit
IsRunError (err (internal_error msg)) =
    (e : AgentError) × (msg ≡ codes "Agent step failed: " ++ display e)
IsRunError (err max_steps_reached) = Unit
IsRunError (err _) = ⊥

module _ {V M : Type 0} (w : World V M) where
  IsRunError-step_error : (e : AgentError) → IsRunError (err (step_error w e))
  unfolding step_error
  IsRunError-step_error e = elim e as (λ e. IsRunError (err (step_error w e))) [
    | loop_detection msg ↦ tt
    | llm_error msg ↦ (llm_error msg, refl)
    | tool_error name msg ↦ (tool_error name msg, refl)
    | code_execution_error msg ↦ (code_execution_error msg, refl)
    | config_error msg ↦ (config_error msg, refl)
    | parsing_error msg ↦ (parsing_error msg, refl)
    | max_steps_reached ↦ (max_steps_reached, refl)
    | mcp_error msg ↦ (mcp_error msg, refl)
    | docker_error msg ↦ (docker_error msg, refl)
    | rag_error msg ↦ (rag_error msg, refl)
    | internal_error msg ↦ (internal_error msg, refl)
    | not_implemented msg ↦ (not_implemented msg, refl)
    | io_error msg ↦ (io_error msg, refl)
    | validation_error msg ↦ (validation_error msg, refl)
    | authorization_failed msg ↦ (authorization_failed msg, refl)
    | authorization_handler_error msg ↦ (authorization_handler_error msg, refl)
    | authorization_denied msg ↦ (authorization_denied msg, refl)
    | installer_error msg ↦ (installer_error msg, refl)
    | runtime_error msg ↦ (runtime_error msg, refl)
  ]

  IsRunError-settle_step :
      (rest : Action (Agent V M) Text) (tried : Result (Option Text × AgentStep V) × Agent V M)
      → ((a : Agent V M) → IsRunError (rest a).0)
      → IsRunError (settle_step w rest tried).0
  unfolding settle_step
  IsRunError-settle_step rest (err e, a) h = IsRunError-step_error e
  IsRunError-settle_step rest (ok (some answer, done), a) h = tt
  IsRunError-settle_step rest (ok (none, done), a) h = h a

  -- A run whose task has been added answers, or ends in an error of three kinds: a loop, with the
  -- detector's message; that the steps are used up; or an internal error, around any other error of a step.
  pub IsRunError-run_steps :
      (left step : ℕ) (a : Agent V M) → IsRunError (run_steps w left step a).0
  unfolding run_steps
  IsRunError-run_steps zero step a = tt
  IsRunError-run_steps (suc left) step a =
      IsRunError-settle_step _ (run_step w step a) (IsRunError-run_steps left (suc step))
