-- ===== src/Agent/Invariants.antt =====
-- When a property of the agent holds through every tool call: the changes of crates/gola-core/src/agent.rs
-- that it has to survive.
pub mod Calls
pub mod Run
use mathlib.Core.Path.{subst}
use gola.Prelude.{
  ℕ, ◌<◌, ◌≡◌, refl, sym, ap, ◌∙◌, Bool, true, false, Option, none, some, List, [], ◌∷◌, ◌++◌,
  Bool-cases, ◌⊎◌, inl, inr, Text, same, leb, arith, lookup, text_key, if◌then◌else◌,
}
use gola.Core.Types.{Message, ToolCall, Observation, HistoryStep, observed}
use gola.Core.Errors.{AgentError, Result, ok, err}
use gola.Core.Action.{Action, raise, modify, then_on, Ensures, >>=-Ensures, ◌>>=◌, ◌>>◌}
use gola.Loops.{LoopPattern, is_problematic}
use gola.Loops.Detector.{PatternDetector, add_tool_call}
use gola.Agent.{
  Agent, AuthorizationContext, AuthorizationResponse, yes, no, all, ask, allow, deny, note_outcome,
  add_tool_observation, settle_memory, remembered, check_tool_authorization, ask_handler,
  settle_response,
}
use gola.Agent.World.{World, Tool, CodeExecutor}
use gola.Agent.Tools.{
  failures_of, count_failure, clear_failures, add_step, note_run, is_authorized, context_of,
  observe, unless_failing, run_tool, settle_generic, run_generic, find_generic,
  execute_generic_tool, run_code, settle_code, run_code_tool, find_executor, execute_code_tool,
  code_name,
}

module _ {V M : Type 0} where
  -- The memory as it was, or with a message more, whether or not it took it. The message has no tool calls.
  abbrev pub Remembers : World V M → M → M → Type 0
  Remembers w m m' =
      (m' ≡ m)
      ⊎ ((message : Message V) × (message.tool_calls ≡ none)
          × (m' ≡ (w.memory.add_message m message).1))

  -- What survives notes, messages, requests to the user and, behind the guard against failing
  -- tools, runs and their outcomes.
  pub record IsKept (w : World V M) (P : Agent V M → Type 0) : Type 0 where
    pub plain :
        (a : Agent V M) (h : List (HistoryStep V)) (l : Option Text) (n : ℕ) (m : M)
        (d : PatternDetector V)
        → Remembers w a.memory m
        → P a
        → P (record a {
          history = h;
          last_tool_error = l;
          consecutive_error_count = n;
          memory = m;
          loop_detector = d;
        })
    pub asked :
        (a : Agent V M) (c : AuthorizationContext V) (step : ℕ)
        → P a
        → ¬ ((is_authorized c step a).0 ≡ ok true)
        → P (is_authorized c step a).1
    pub noted :
        (a : Agent V M) (c : AuthorizationContext V) (step : ℕ)
        → P a
        → failures_of c.tool_name a < 2
        → (is_authorized c step a).0 ≡ ok true
        → P (note_run c.tool_name c.tool_arguments (is_authorized c step a).1)
    pub cleared :
        (a : Agent V M) (name : Text) → P a → failures_of name a < 2 → P (clear_failures name a)
    pub counted :
        (a : Agent V M) (name : Text) → P a → failures_of name a < 2 → P (count_failure name a)

  -- An authorization changes the history, the requests to the user and their approval.
  settle_response_plain :
      (a : Agent V M) (name : Text) (r : Result AuthorizationResponse)
      → (settle_response a name r).1 ≡ record a {
        history = (settle_response a name r).1.history;
        all_tools_approved = (settle_response a name r).1.all_tools_approved;
      }
  unfolding settle_response
  settle_response_plain a name (err e) = refl
  settle_response_plain a name (ok yes) = refl
  settle_response_plain a name (ok no) = refl
  settle_response_plain a name (ok all) = refl

  pub is_authorized_plain :
      (a : Agent V M) (c : AuthorizationContext V) (step : ℕ)
      → (is_authorized c step a).1 ≡ record a {
        history = (is_authorized c step a).1.history;
        all_tools_approved = (is_authorized c step a).1.all_tools_approved;
        requests = (is_authorized c step a).1.requests;
      }
  unfolding is_authorized check_tool_authorization ask_handler
  is_authorized_plain a c step = grind (arith, settle_response_plain)

  note_outcome_plain :
      (a : Agent V M) (content : Text) (success : Bool)
      → note_outcome a content success ≡ record a {
        last_tool_error = (note_outcome a content success).last_tool_error;
        consecutive_error_count = (note_outcome a content success).consecutive_error_count;
      }
  unfolding note_outcome
  note_outcome_plain a content true = refl
  note_outcome_plain a content false = ground arith

  module _ (P : Agent V M → Type 0) (w : World V M) (k : IsKept w P) where
    -- What a method behind the guard may start from.
    abbrev pub Guarded : Text → Agent V M → Type 0
    Guarded name a = P a × (failures_of name a < 2)

    settle_memory-keeps :
        (a : Agent V M) (o : Observation) (r : Result (Unit {0}) × M)
        → Remembers w a.memory r.1
        → P a
        → P (settle_memory w.memory.add_message a o r).1
    settle_memory-keeps a o (ok done, m) h p =
        k.plain a a.history a.last_tool_error a.consecutive_error_count m a.loop_detector h p
    settle_memory-keeps a o (err e, m) h p =
        k.plain a a.history a.last_tool_error a.consecutive_error_count m a.loop_detector h p

    pub observe-keeps :
        (id : Option Text) (content : Text) (success : Bool)
        → Ensures P (observe w id content success) P
    unfolding observe add_tool_observation
    observe-keeps id content success a p =
        let o : Observation = record { tool_call_id = id; content = content; success = success } in
        let n = note_outcome a content success in
        let n' : Agent V M = record n { history = n.history ++ observed o ∷ [] } in
        settle_memory-keeps n' o (w.memory.add_message n'.memory (remembered o))
          (inr (remembered o, refl, refl))
          (subst (λ b. P (record b { history = b.history ++ observed o ∷ [] }))
            (sym (note_outcome_plain a content success))
            (k.plain a (a.history ++ observed o ∷ []) n.last_tool_error n.consecutive_error_count
              a.memory a.loop_detector (inl refl) p))

    pub unless_failing-keeps :
        (name : Text) (id : Option Text) (body : Action (Agent V M) Observation)
        → Ensures (Guarded name) body P
        → Ensures P (unless_failing w name id body) P
    unfolding unless_failing
    unless_failing-keeps name id body h a p = elim (Bool-cases (leb 2 (failures_of name a))) [
      | inl e ↦ rw e (observe-keeps _ _ _ a p)
      | inr e ↦ rw e (h a (p, ground arith))
    ]

    -- A method that asks for authorization and goes on with the answer.
    pub authorized-keeps :
        (name : Text) (c : AuthorizationContext V) (step : ℕ)
        (next : Bool → Action (Agent V M) Observation)
        → ((a : Agent V M)
            → Guarded name a
            → (is_authorized c step a).0 ≡ ok true
            → P (next true (is_authorized c step a).1).1)
        → Ensures P (next false) P
        → Ensures (Guarded name) (is_authorized c step >>= next) P
    unfolding ◌>>=◌
    authorized-keeps name c step next granted denied a p = go (is_authorized c step a) refl
      where
        go : (r : Result Bool × Agent V M) → is_authorized c step a ≡ r → P (then_on next r).1
        go (err e, b) h =
            subst (λ r. P r.1) h (k.asked a c step p.0 (λ g. ground (arith, ap (λ r. r.0) h, g)))
        go (ok false, b) h =
            denied b (
              subst (λ r. P r.1) h (k.asked a c step p.0 (λ g. ground (arith, ap (λ r. r.0) h, g))))
        go (ok true, b) h = subst (λ r. P (next true r.1).1) h (granted a p (ap (λ r. r.0) h))

    pub noted-Guarded :
        (c : AuthorizationContext V) (step : ℕ) (a : Agent V M)
        → Guarded c.tool_name a
        → (is_authorized c step a).0 ≡ ok true
        → Guarded c.tool_name (note_run c.tool_name c.tool_arguments (is_authorized c step a).1)
    unfolding note_run
    noted-Guarded c step a p h = (k.noted a c step p.0 p.1 h, rw (is_authorized_plain a c step) p.1)

    settle_generic-keeps :
        (name : Text) (id : Option Text) (r : Result Text)
        → Ensures (Guarded name) (settle_generic w name id r) P
    unfolding settle_generic ◌>>=◌
    settle_generic-keeps name id (ok content) a p = observe-keeps _ _ _ _ (k.cleared a name p.0 p.1)
    settle_generic-keeps name id (err e) a p = observe-keeps _ _ _ _ (k.counted a name p.0 p.1)

    find_generic-keeps :
        (call : ToolCall V) (step : ℕ) (found : Option (Tool V))
        → Ensures (Guarded call.name) (find_generic w call step found) P
    unfolding find_generic run_generic run_tool ◌>>=◌
    find_generic-keeps call step none a p = observe-keeps _ _ _ a p.0
    find_generic-keeps call step (some t) a p =
        let c = context_of call call.name t.metadata.description in
        authorized-keeps call.name c step (run_generic w t call)
          (λ b q h. settle_generic-keeps call.name call.id _ _ (noted-Guarded c step b q h))
          (observe-keeps _ _ _) a p

    pub execute_generic_tool-keeps :
        (call : ToolCall V) (step : ℕ) → Ensures P (execute_generic_tool w call step) P
    unfolding execute_generic_tool
    execute_generic_tool-keeps call step =
        unless_failing-keeps call.name call.id _ (find_generic-keeps call step _)
