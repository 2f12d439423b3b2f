-- ===== src/AgUi/Handler/Protocol.antt =====
-- The order of the events that crates/gola-core/src/ag_ui_handler.rs sends, against the protocol: a run starts,
-- sends text messages one by one, and ends once.
use mathlib.Core.Path.{subst}
use gola.Prelude.{
  ℕ, zero, suc, ◌+◌, ◌≡◌, refl, ap, ◌∙◌, Bool, true, false, ◌&&◌, Bool-cases, Option, none, some,
  List, [], ◌∷◌, ◌++◌, inl, inr, Text, same, same_refl, length, if◌then◌else◌,
}
use gola.Core.Errors.{AgentError, loop_detection, Result, ok, err}
use gola.Agent.{Agent, Handler}
use gola.Agent.World.{World}
use gola.Agent.Step.{AgentStep, add_user_task_to_memory, run_step}
use gola.Config.Types.Prompts.{PromptConfig}
use gola.AgUi.Types.{RunAgentInput}
use gola.AgUi.Events.{
  Event, text_message_start, text_message_content, text_message_end, run_started, run_finished,
  run_error, new_run_finished,
}
use gola.AgUi.Handler.{
  ServerResult, done, failed, text_message, text_messages, text_response, or_greeting,
  prompts_ice_breaker, reports, should_stop, should_auto_continue, Loop, behind, settle_error,
  settle_round, run_rounds, finish, begin, run_stream, setup_agent_authorization, settle_input,
  task_to_run, handle_input, connect_message,
}

pub data Phase : Type 0 where
  before over broken : Phase
  running : Text → Text → Phase
  writing : Text → Text → Text → Phase

module _ {V : Type 0} where
  from_running : Text → Text → Event V → Phase
  from_running thread run (text_message_start e) = writing thread run e.message_id
  from_running thread run (run_finished e) =
      if same e.thread_id thread && same e.run_id run then over else broken
  from_running thread run (run_error e) = over
  from_running thread run _ = broken

  from_writing : Text → Text → Text → Event V → Phase
  from_writing thread run id (text_message_content e) =
      if same e.message_id id then writing thread run id else broken
  from_writing thread run id (text_message_end e) =
      if same e.message_id id then running thread run else broken
  from_writing thread run id _ = broken

  from_before : Event V → Phase
  from_before (run_started e) = running e.thread_id e.run_id
  from_before _ = broken

  unfoldable pub next_phase : Phase → Event V → Phase
  unfolding from_running from_writing from_before
  next_phase before e = from_before e
  next_phase (running thread run) e = from_running thread run e
  next_phase (writing thread run id) e = from_writing thread run id e
  next_phase over e = broken
  next_phase broken e = broken

  unfoldable pub phase_after : Phase → List (Event V) → Phase
  unfolding next_phase
  phase_after p [] = p
  phase_after p (e ∷ es) = phase_after (next_phase p e) es

  phase_after-append :
      (p : Phase) (xs ys : List (Event V))
      → phase_after p (xs ++ ys) ≡ phase_after (phase_after p xs) ys
  unfolding phase_after
  phase_after-append p [] ys = refl
  phase_after-append p (x ∷ xs) ys = phase_after-append (next_phase p x) xs ys

module _ (V : Type 0) (uuid : ℕ → Text) (thread run : Text) where
  run_finished-over :
      phase_after {V = V} (running thread run) (run_finished (new_run_finished thread run) ∷ [])
      ≡ over
  unfolding phase_after
  run_finished-over = rw (same_refl thread, same_refl run)

  phase_after-text_message :
      (n : ℕ) (content : Text)
      → phase_after (running thread run) (text_message {V = V} uuid n content) ≡ running thread run
  unfolding phase_after
  phase_after-text_message n content = rw (same_refl (uuid n)) (rw (same_refl (uuid n)))

  phase_after-text_messages :
      (n : ℕ) (contents : List Text)
      → phase_after (running thread run) (text_messages {V = V} uuid n contents)
        ≡ running thread run
  unfolding text_messages phase_after
  phase_after-text_messages n [] = refl
  phase_after-text_messages n (c ∷ cs) =
      phase_after-append (running thread run) (text_message uuid n c)
        (text_messages uuid (suc n) cs)
      ∙ ap (λ p. phase_after p (text_messages {V = V} uuid (suc n) cs))
          (phase_after-text_message n c)
      ∙ phase_after-text_messages (suc n) cs

module _ {V M : Type 0} (w : World V M) (lowercase : Text → Text) (uuid : ℕ → Text)
    (thread run : Text) where
  -- An error has ended the run, or it is still open.
  abbrev ended : Bool → Phase
  ended true = over
  ended false = running thread run

  abbrev IsLoop : Loop V M → Type 0
  IsLoop l = phase_after (running thread run) l.0.0 ≡ ended l.0.1

  behind-IsLoop :
      (n : ℕ) (contents : List Text) (l : Loop V M)
      → IsLoop l
      → IsLoop (behind (text_messages uuid n contents) l)
  behind-IsLoop n contents l h =
      phase_after-append (running thread run) (text_messages uuid n contents) l.0.0
      ∙ ap (λ p. phase_after p l.0.0) (phase_after-text_messages V uuid thread run n contents)
      ∙ h

  module _ (rest : ℕ → Agent V M → Loop V M)
      (ih : (n : ℕ) (a : Agent V M) → IsLoop (rest n a)) where
    settle_error-IsLoop :
        (n : ℕ) (a : Agent V M) (e : AgentError) → IsLoop (settle_error w lowercase uuid rest n a e)
    unfolding settle_error phase_after
    settle_error-IsLoop n a (loop_detection loop_msg) = ih n _
    settle_error-IsLoop n a e = refl

    settle_round-IsLoop :
        (n : ℕ) (tried : Result (Option Text × AgentStep V) × Agent V M)
        → IsLoop (settle_round w lowercase uuid rest n tried)
    unfolding settle_round
    settle_round-IsLoop n (ok (some content, step), a) =
        let contents = reports w step ++ content ∷ [] in
        elim (Bool-cases (should_auto_continue w lowercase uuid content step)) [
          | inl e ↦ rw e (behind-IsLoop n contents (rest (n + length contents) a) (ih _ a))
          | inr e ↦ rw e (phase_after-text_messages V uuid thread run n contents)
        ]
    settle_round-IsLoop n (ok (none, step), a) = elim (Bool-cases (should_stop w step)) [
      | inl e ↦ rw e (phase_after-text_messages V uuid thread run n (reports w step))
      | inr e ↦
          rw e (behind-IsLoop n (reports w step) (rest (n + length (reports w step)) a) (ih _ a))
    ]
    settle_round-IsLoop n (err e, a) = settle_error-IsLoop n a e

  run_rounds-IsLoop :
      (left step n : ℕ) (a : Agent V M) → IsLoop (run_rounds w lowercase uuid left step n a)
  unfolding run_rounds phase_after
  run_rounds-IsLoop zero step n a = refl
  run_rounds-IsLoop (suc left) step n a =
      settle_round-IsLoop (run_rounds w lowercase uuid left (suc step))
        (run_rounds-IsLoop left (suc step)) n (run_step w step a)

  begin-IsLoop : (added : Result (Unit {0}) × Agent V M) → IsLoop (begin w lowercase uuid added)
  unfolding begin phase_after
  begin-IsLoop (ok added, a) = run_rounds-IsLoop a.max_steps 0 0 a
  begin-IsLoop (err e, a) = refl

  finish-over :
      (l : Loop V M) → IsLoop l → phase_after (running thread run) (finish thread run l).0 ≡ over
  unfolding phase_after
  finish-over ((events, true), a) h = h
  finish-over ((events, false), a) h =
      phase_after-append (running thread run) events _
      ∙ ap (λ p. phase_after {V = V} p (run_finished (new_run_finished thread run) ∷ [])) h
      ∙ run_finished-over V uuid thread run

  run_stream-over :
      (task : Text) (a : Agent V M)
      → phase_after before (run_stream w lowercase uuid thread run task a).0 ≡ over
  unfolding run_stream phase_after
  run_stream-over task a = finish-over _ (begin-IsLoop (add_user_task_to_memory w task a))

abbrev pub EndsOver : {V : Type 0} → ServerResult (List (Event V)) → Type 0
EndsOver (failed e) = Unit
EndsOver (done events) = phase_after before events ≡ over

module _ {V M : Type 0} (w : World V M) (lowercase : Text → Text) (uuid : ℕ → Text) where
  text_response-over :
      (content : Text) → phase_after before (text_response {V = V} uuid content) ≡ over
  unfolding phase_after
  text_response-over content =
      phase_after-append (running (uuid 1) (uuid 2)) (text_message {V = V} uuid 0 content)
        (run_finished (new_run_finished (uuid 1) (uuid 2)) ∷ [])
      ∙ ap (λ p. phase_after {V = V} p (run_finished (new_run_finished (uuid 1) (uuid 2)) ∷ []))
          (phase_after-text_message V uuid (uuid 1) (uuid 2) 0 content)
      ∙ run_finished-over V uuid (uuid 1) (uuid 2)

  settle_input-EndsOver :
      (prompts : Option PromptConfig) (authorization : Option (Handler V)) (input : RunAgentInput V)
      (a : Agent V M) (task : ServerResult Text)
      → EndsOver (settle_input w lowercase uuid prompts authorization input a task).0
  unfolding settle_input
  settle_input-EndsOver prompts authorization input a (failed e) = tt
  settle_input-EndsOver prompts authorization input a (done task) =
      elim (Bool-cases (same task connect_message)) [
        | inl e ↦ rw e (text_response-over (or_greeting (prompts_ice_breaker prompts)))
        | inr e ↦ rw e (
            run_stream-over w lowercase uuid input.thread_id input.run_id task
              (setup_agent_authorization authorization a))
      ]

  -- Whatever the client sends and whatever the model, the tools, the memory and the user do, a stream
  -- that the handler gives keeps the protocol: it starts a run, sends each text message whole and
  -- alone, and ends with the end of that run or with one error, and nothing behind it.
  pub handle_input-over :
      (prompts : Option PromptConfig) (authorization : Option (Handler V)) (input : RunAgentInput V)
      (a : Agent V M) (events : List (Event V))
      → (handle_input w lowercase uuid prompts authorization input a).0 ≡ done events
      → phase_after before events ≡ over
  unfolding handle_input
  handle_input-over prompts authorization input a events h =
      subst EndsOver h (settle_input-EndsOver prompts authorization input a (task_to_run input))
