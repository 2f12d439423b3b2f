-- ===== src/Agent/Invariants/Run.antt =====
-- The steps and the run of crates/gola-core/src/agent.rs, once every tool call keeps a property.
use gola.Prelude.{
  ℕ, ◌≡◌, zero, suc, true, false, ◌&&◌, Option, none, some, List, [], Bool-cases, inl, inr, Text,
  is_empty, ◌++◌, refl,
}
use gola.Core.Types.{Message, ToolCall, LlmResponse, user_task, thought}
use gola.Core.Types
use gola.Core.Errors.{Result, ok, err}
use gola.Core.Action.{Action, gets, modify, then_on, Ensures, >>=-Ensures, ◌>>=◌, ◌>>◌}
use gola.Llm.Model.{Requests, ask}
use gola.Rag.Context.{RetrievedContext}
use gola.Agent.{Agent, assistant_message, task_message}
use gola.Agent.World.{World}
use gola.Agent.Tools.{add_step}
use gola.Agent.Dispatch.{retrieve_rag_context}
use gola.Agent.Step.{
  AgentStep, prompt_messages, tool_metadata, remember, formatted_task, add_user_task_to_memory,
  settle_answer, ask_model, remember_content, thought_of, note_thought, no_action, act, finish_step,
  run_step, settle_step, run_steps, run,
}
use gola.Agent.Invariants.{IsKept}
use gola.Agent.Invariants.Calls.{add_step-keeps, execute_calls-keeps}

module _ {V M : Type 0} (P : Agent V M → Type 0) (w : World V M) (k : IsKept w P) where
  remember-keeps : (m : Message V) → m.tool_calls ≡ none → Ensures P (remember w m) P
  unfolding remember
  remember-keeps m e a p =
      k.plain a a.history a.last_tool_error a.consecutive_error_count
        (w.memory.add_message a.memory m).1 a.loop_detector (inr (m, e, refl)) p

  formatted_task-keeps :
      (task : Text) (r : Result (Option (RetrievedContext w.F32)))
      → Ensures P (formatted_task w task r) P
  unfolding formatted_task
  formatted_task-keeps task (err e) a p = p
  formatted_task-keeps task (ok none) a p = p
  formatted_task-keeps task (ok (some c)) a p = p

  pub add_user_task_to_memory-keeps : (task : Text) → Ensures P (add_user_task_to_memory w task) P
  unfolding add_user_task_to_memory
  add_user_task_to_memory-keeps task =
      >>=-Ensures P P (gets (retrieve_rag_context w task)) _ (λ a p. p)
        (λ r. >>=-Ensures P P (formatted_task w task r) _ (formatted_task-keeps task r) (λ enhanced.
          >>=-Ensures P P (modify (add_step (user_task enhanced))) _
            (λ a p. add_step-keeps P w k (user_task enhanced) a p)
            (λ done. remember-keeps (task_message enhanced) refl)))

  remember_content-keeps : (content : Option Text) → Ensures P (remember_content w content) P
  unfolding remember_content
  remember_content-keeps none a p = p
  remember_content-keeps (some content) a p = remember-keeps (assistant_message content) refl a p

  note_thought-keeps : (t : Option Text) → Ensures P (note_thought w t) P
  unfolding note_thought
  note_thought-keeps none a p = p
  note_thought-keeps (some t) a p = add_step-keeps P w k (thought t) a p

  act-keeps :
      (response : LlmResponse V) (calls : List (ToolCall V)) (step : ℕ)
      → Ensures P (act w response calls step) P
  unfolding act ◌>>=◌
  act-keeps response calls step =
      elim (Bool-cases
        (is_empty calls && (elim response.content [ none ↦ true | some _ ↦ false ]))) [
          | inl e ↦ rw e (λ a p. add_step-keeps P w k (Types.llm_error (no_action w)) a p)
          | inr e ↦
              rw e (>>=-Ensures P P _ _ (execute_calls-keeps P w k calls step []) (λ r a p. p))
        ]

  pub finish_step-keeps :
      (response : LlmResponse V) (calls : Option (List (ToolCall V))) (said : Option Text)
      (step : ℕ)
      → Ensures P (finish_step w response calls said step) P
  unfolding finish_step
  finish_step-keeps response (some calls) said step a p = act-keeps response calls step a p
  finish_step-keeps response none (some t) step a p = p
  finish_step-keeps response none none step a p = p

-- What asking the model turns into another property, a step does, and the rounds of the loop follow
-- a family of them.
module _ {V M : Type 0} (w : World V M) where
  pub run_step-Ensures :
      (P Q : Agent V M → Type 0)
      → IsKept w Q
      → Ensures P (ask_model w) Q
      → (step : ℕ) → Ensures P (run_step w step) Q
  unfolding run_step
  run_step-Ensures P Q k h step = >>=-Ensures P Q (ask_model w) _ h (λ response.
      >>=-Ensures Q Q
        (remember_content w response.content >> note_thought w (thought_of w response.content)) _
        (>>=-Ensures Q Q (remember_content w response.content) _
          (remember_content-keeps Q w k response.content)
          (λ done. note_thought-keeps Q w k (thought_of w response.content)))
        (λ done.
          finish_step-keeps Q w k response response.tool_calls (thought_of w response.content)
            step))

  settle_answer-keeps :
      (P : Agent V M → Type 0)
      → IsKept w P
      → (r : Result (LlmResponse V)) → Ensures P (settle_answer w r) P
  unfolding settle_answer ◌>>=◌
  settle_answer-keeps P k (ok response) a p = p
  settle_answer-keeps P k (err e) a p = add_step-keeps P w k _ a p

  -- `ask_model` only adds to what the model was sent.
  pub ask_model-Ensures :
      (P Q : Agent V M → Type 0)
      → IsKept w Q
      → ((a : Agent V M)
          → P a
          → Q (record a {
            sent =
                (ask w.model a.sent
                  (prompt_messages w a.system_prompt ++ w.memory.get_context a.memory)
                  (some (tool_metadata w))).1;
          }))
      → Ensures P (ask_model w) Q
  unfolding ask_model
  ask_model-Ensures P Q k h a p = settle_answer-keeps Q k _ _ (h a p)

  settle_step-keeps :
      (P Q : Agent V M → Type 0) (rest : Action (Agent V M) Text)
      (tried : Result (Option Text × AgentStep V) × Agent V M)
      → ((a : Agent V M) → P a → Q a)
      → Ensures P rest Q
      → P tried.1
      → Q (settle_step w rest tried).1
  unfolding settle_step
  settle_step-keeps P Q rest (err e, a) weaken h p = weaken a p
  settle_step-keeps P Q rest (ok (some answer, done), a) weaken h p = weaken a p
  settle_step-keeps P Q rest (ok (none, done), a) weaken h p = h a p

  pub run_steps-Ensures :
      (B : ℕ → Agent V M → Type 0)
      → ((n : ℕ) → IsKept w (B n))
      → ((n : ℕ) → Ensures (B (suc n)) (ask_model w) (B n))
      → ((n : ℕ) (a : Agent V M) → B n a → B 0 a)
      → (left step : ℕ) → Ensures (B left) (run_steps w left step) (B 0)
  unfolding run_steps
  run_steps-Ensures B k asks weaken zero step a p = p
  run_steps-Ensures B k asks weaken (suc left) step a p =
      settle_step-keeps (B left) (B 0) _ (run_step w step a) (weaken left)
        (run_steps-Ensures B k asks weaken left (suc step))
        (run_step-Ensures (B (suc left)) (B left) (k left) (asks left) step a p)

  -- The whole run, from a property that knows the number of rounds.
  pub run-Ensures :
      (P : Agent V M → Type 0) (B : ℕ → Agent V M → Type 0)
      → IsKept w P
      → ((n : ℕ) → IsKept w (B n))
      → ((a : Agent V M) → P a → B a.max_steps a)
      → ((n : ℕ) → Ensures (B (suc n)) (ask_model w) (B n))
      → ((n : ℕ) (a : Agent V M) → B n a → B 0 a)
      → ((a : Agent V M) → P a → B 0 a)
      → (task : Text) → Ensures P (run w task) (B 0)
  unfolding run ◌>>=◌
  run-Ensures P B k kB start asks weaken fails task a p =
      go (add_user_task_to_memory w task a) (add_user_task_to_memory-keeps P w k task a p)
    where
      go :
          (r : Result (Unit {0}) × Agent V M)
          → P r.1
          → B 0 (then_on (λ done. λ a. run_steps w a.max_steps 0 a) r).1
      go (ok done, b) q = run_steps-Ensures B kB asks weaken b.max_steps 0 b (start b q)
      go (err e, b) q = fails b q

  -- A property that asking the model does not touch is kept by the whole run.
  pub run-keeps :
      (P : Agent V M → Type 0)
      → IsKept w P
      → ((a : Agent V M) (sent : Requests V) → P a → P (record a { sent = sent }))
      → (task : Text) → Ensures P (run w task) P
  run-keeps P k asked task =
      run-Ensures P (λ n. P) k (λ n. k) (λ a p. p)
        (λ n. ask_model-Ensures P P k (λ a p. asked a _ p)) (λ n a p. p) (λ a p. p) task
