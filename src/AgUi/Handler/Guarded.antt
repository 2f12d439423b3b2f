-- ===== src/AgUi/Handler/Guarded.antt =====
-- What the stream of crates/gola-core/src/ag_ui_handler.rs lets the agent run, and how often it asks the model.
use gola.Prelude.{
  ℕ, zero, suc, ◌+◌, ◌≤◌, ◌≡◌, refl, true, false, Bool-cases, Option, none, some, inl, inr, Text,
  same, length, arith,
}
use gola.Core.Errors.{AgentError, loop_detection, Result, ok, err}
use gola.Core.Action.{Ensures}
use gola.Loops.Detector
use gola.Agent.{Agent, Handler}
use gola.Agent.World.{World}
use gola.Agent.Step.{AgentStep, ask_model, add_user_task_to_memory, remember, run_step}
use gola.Agent.Step.Asked.{RunsGranted, RunsGranted-IsKept, granted}
use gola.Agent.Step.Limits.{IsKept_of_sent}
use gola.Agent.Invariants.{IsKept}
use gola.Agent.Invariants.Run.{add_user_task_to_memory-keeps, ask_model-Ensures, run_step-Ensures}
use gola.Config.Types.Prompts.{PromptConfig}
use gola.AgUi.Types.{RunAgentInput}
use gola.AgUi.Handler.{
  ServerResult, failed, done, Loop, should_stop, should_auto_continue, recovered, recovery_message,
  finish, settle_error, settle_round, run_rounds, begin, run_stream, settle_input, task_to_run,
  handle_input, connect_message, setup_agent_authorization,
}

module _ {V M : Type 0} (w : World V M) (lowercase : Text → Text) (uuid : ℕ → Text) where
  -- A family of properties that the steps keep, each round the next one: the loop ends in the last.
  module _ (B : ℕ → Agent V M → Type 0) (k : (n : ℕ) → IsKept w (B n))
      (asks : (n : ℕ) → Ensures (B (suc n)) (ask_model w) (B n))
      (weaken : (n : ℕ) (a : Agent V M) → B n a → B 0 a) where
    recovered-keeps :
        (n : ℕ) (loop_msg : Text) (a : Agent V M) → B n a → B n (recovered w loop_msg a)
    unfolding recovered remember
    recovered-keeps n loop_msg a p =
        (k n).plain a a.history a.last_tool_error a.consecutive_error_count
          (w.memory.add_message a.memory (recovery_message w loop_msg)).1
          (Detector.clear a.loop_detector) (inr (recovery_message w loop_msg, refl, refl)) p

    module _ (left : ℕ) (rest : ℕ → Agent V M → Loop V M)
        (ih : (n : ℕ) (a : Agent V M) → B left a → B 0 (rest n a).1) where
      settle_error-keeps :
          (n : ℕ) (a : Agent V M) (e : AgentError)
          → B left a
          → B 0 (settle_error w lowercase uuid rest n a e).1
      unfolding settle_error
      settle_error-keeps n a (loop_detection loop_msg) p =
          ih n _ (recovered-keeps left loop_msg a p)
      settle_error-keeps n a e p = weaken left a p

      settle_round-keeps :
          (n : ℕ) (tried : Result (Option Text × AgentStep V) × Agent V M)
          → B left tried.1
          → B 0 (settle_round w lowercase uuid rest n tried).1
      unfolding settle_round
      settle_round-keeps n (ok (some content, step), a) p =
          elim (Bool-cases (should_auto_continue w lowercase uuid content step)) [
            | inl e ↦ rw e (ih _ a p)
            | inr e ↦ rw e (weaken left a p)
          ]
      settle_round-keeps n (ok (none, step), a) p = elim (Bool-cases (should_stop w step)) [
        | inl e ↦ rw e (weaken left a p)
        | inr e ↦ rw e (ih _ a p)
      ]
      settle_round-keeps n (err e, a) p = settle_error-keeps n a e p

    run_rounds-keeps :
        (left step n : ℕ) (a : Agent V M)
        → B left a
        → B 0 (run_rounds w lowercase uuid left step n a).1
    unfolding run_rounds
    run_rounds-keeps zero step n a p = p
    run_rounds-keeps (suc left) step n a p =
        settle_round-keeps left (run_rounds w lowercase uuid left (suc step))
          (run_rounds-keeps left (suc step)) n (run_step w step a)
          (run_step-Ensures w (B (suc left)) (B left) (k left) (asks left) step a p)

    module _ (P : Agent V M → Type 0) (keeps : IsKept w P)
        (start : (a : Agent V M) → P a → B a.max_steps a)
        (fails : (a : Agent V M) → P a → B 0 a) where
      begin-keeps :
          (added : Result (Unit {0}) × Agent V M) → P added.1 → B 0 (begin w lowercase uuid added).1
      unfolding begin
      begin-keeps (ok u, a) p = run_rounds-keeps a.max_steps 0 0 a (start a p)
      begin-keeps (err e, a) p = fails a p

      finish-keeps :
          (thread_id run_id : Text) (l : Loop V M) → B 0 l.1 → B 0 (finish thread_id run_id l).1
      finish-keeps thread_id run_id ((events, true), a) p = p
      finish-keeps thread_id run_id ((events, false), a) p = p

      run_stream-keeps :
          (thread_id run_id task : Text) (a : Agent V M)
          → P a
          → B 0 (run_stream w lowercase uuid thread_id run_id task a).1
      unfolding run_stream
      run_stream-keeps thread_id run_id task a p = finish-keeps thread_id run_id _ (
          begin-keeps (add_user_task_to_memory w task a)
            (add_user_task_to_memory-keeps P w keeps task a p))

      -- An input that is refused, or that only connects, leaves the agent alone.
      settle_input-keeps :
          (Q : Agent V M → Type 0)
          → ((b : Agent V M) → B 0 b → Q b)
          → (prompts : Option PromptConfig) (authorization : Option (Handler V))
            (input : RunAgentInput V) (a : Agent V M) (task : ServerResult Text)
          → Q a
          → P (setup_agent_authorization authorization a)
          → Q (settle_input w lowercase uuid prompts authorization input a task).1
      unfolding settle_input
      settle_input-keeps Q ends prompts authorization input a (failed e) q p = q
      settle_input-keeps Q ends prompts authorization input a (done task) q p =
          elim (Bool-cases (same task connect_message)) [
            | inl e ↦ rw e q
            | inr e ↦ rw e (
                ends _ (
                  run_stream-keeps input.thread_id input.run_id task
                    (setup_agent_authorization authorization a) p))
          ]

  -- This is about the log of runs, which has each tool of the registry, each execution of code and each
  -- search that is run for a call of the model, and not the tools of the control plane and the
  -- retrieval for the task, which run without a grant. With an authorization handler, whatever the
  -- mode of the agent was: when the log holds what the handler has granted before and the user has not
  -- answered `All` by the end, it holds at the end what the handler granted, each once and in that
  -- order.
  pub handle_input-granted :
      (handler : Handler V) (prompts : Option PromptConfig) (input : RunAgentInput V)
      (a : Agent V M)
      → a.runs ≡ granted handler a.requests
      → let b = (handle_input w lowercase uuid prompts (some handler) input a).1 in
        b.all_tools_approved ≡ false → b.runs ≡ granted handler b.requests
  unfolding handle_input setup_agent_authorization
  handle_input-granted handler prompts input a h =
      let k = RunsGranted-IsKept handler w in
      settle_input-keeps (λ n. RunsGranted handler) (λ n. k)
        (λ n. ask_model-Ensures w (RunsGranted handler) (RunsGranted handler) k (λ b p. p))
        (λ n b p. p) (RunsGranted handler) k (λ b p. p) (λ b p. p)
        (λ b. b.all_tools_approved ≡ false → b.runs ≡ granted handler b.requests) (λ b p. p.1.1)
        prompts (some handler) input a (task_to_run input) (λ g. h) (refl, (refl, λ g. h))

  -- The rounds for an input send the model at most `max_steps` requests, apart from a memory's, also when
  -- they go on after a loop or after a hint that the answer is not the last one.
  pub handle_input-max_steps :
      (prompts : Option PromptConfig) (authorization : Option (Handler V)) (input : RunAgentInput V)
      (a : Agent V M)
      → length (handle_input w lowercase uuid prompts authorization input a).1.sent
        ≤ length a.sent + a.max_steps
  unfolding handle_input setup_agent_authorization
  handle_input-max_steps prompts authorization input a =
      let Bound : ℕ → Agent V M → Type 0 =
        λ left b. length b.sent + left ≤ length a.sent + a.max_steps in
      settle_input-keeps Bound
        (λ left. IsKept_of_sent w (λ n k. n + left ≤ length a.sent + a.max_steps))
        (λ left.
          ask_model-Ensures w _ _ (IsKept_of_sent w (λ n k. n + left ≤ length a.sent + a.max_steps))
            (λ b p. omega arith))
        (λ left b p. omega arith)
        (λ b. (length b.sent ≡ length a.sent) × (b.max_steps ≡ a.max_steps))
        (IsKept_of_sent w (λ n k. (n ≡ length a.sent) × (k ≡ a.max_steps)))
        (λ b p. omega (arith, p.0, p.1)) (λ b p. omega (arith, p.0))
        (λ b. length b.sent ≤ length a.sent + a.max_steps) (λ b p. omega (arith, p)) prompts
        authorization input a (task_to_run input) (omega arith) (unchanged authorization)
    where
      unchanged :
          (o : Option (Handler V))
          → (length (setup_agent_authorization o a).sent ≡ length a.sent)
            × ((setup_agent_authorization o a).max_steps ≡ a.max_steps)
      unchanged none = (refl, refl)
      unchanged (some h) = (refl, refl)
