-- ===== src/Agent/Authorization.antt =====
-- What the user is asked over many checks of crates/gola-core/src/agent.rs.
use gola.Prelude.{ℕ, ◌≡◌, refl, ap, ◌∙◌, Bool, true, false, some, List, [], ◌∷◌, map, arith}
use gola.Core.Errors.{Result, ok}
use gola.Agent.{
  all, ask, AuthorizationContext, Handler, Agent, settle_response, ask_handler,
  check_tool_authorization,
}

module _ {V M : Type 0} where
  pub check-asked :
      (a : Agent V M) (c : AuthorizationContext V) (step : ℕ) (handler : Handler V)
      → a.authorization_mode ≡ ask
      → a.authorization_handler ≡ some handler
      → a.all_tools_approved ≡ false
      → check_tool_authorization a c step ≡ ask_handler a c step handler
  unfolding check_tool_authorization
  check-asked a c step handler m e f = ground arith

  -- The checks of a list of tool calls, each with its step.
  unfoldable pub check_all :
      Agent V M → List (AuthorizationContext V × ℕ) → List (Result Bool) × Agent V M
  check_all a [] = ([], a)
  check_all a ((context, step) ∷ cs) =
      let (answer, a') = check_tool_authorization a context step in
      let (answers, a'') = check_all a' cs in (answer ∷ answers, a'')

  check-approved :
      (a : Agent V M) (context : AuthorizationContext V) (step : ℕ)
      → a.authorization_mode ≡ ask
      → a.all_tools_approved ≡ true
      → check_tool_authorization a context step ≡ (ok true, a)
  unfolding check_tool_authorization
  check-approved a context step h k = ground arith

  check_all-approved :
      (a : Agent V M) (cs : List (AuthorizationContext V × ℕ))
      → a.authorization_mode ≡ ask
      → a.all_tools_approved ≡ true
      → check_all a cs ≡ (map (λ _. ok true) cs, a)
  unfolding check_all
  check_all-approved a [] h k = refl
  check_all-approved a ((context, step) ∷ cs) h k =
      ap (λ (r : Result Bool × Agent V M). (r.0 ∷ (check_all r.1 cs).0, (check_all r.1 cs).1))
        (check-approved a context step h k)
      ∙ ap (λ (r : List (Result Bool) × Agent V M). (ok true ∷ r.0, r.1))
          (check_all-approved a cs h k)

  mode-check :
      (a : Agent V M) (handler : Handler V) (context : AuthorizationContext V) (step : ℕ)
      → a.authorization_mode ≡ ask
      → a.authorization_handler ≡ some handler
      → a.all_tools_approved ≡ false
      → handler
          (record { context = context; step_number = step; max_steps = a.max_steps } ∷ a.requests)
        ≡ ok all
      → ((check_tool_authorization a context step).1.authorization_mode ≡ ask)
        × ((check_tool_authorization a context step).1.all_tools_approved ≡ true)
  unfolding check_tool_authorization ask_handler settle_response
  mode-check a handler context step h k z e = (ground arith, ground arith)

  -- A user who answers `All` is not asked again: every later check is granted, and changes nothing.
  pub check_all-all :
      (a : Agent V M) (handler : Handler V) (context : AuthorizationContext V) (step : ℕ)
      (cs : List (AuthorizationContext V × ℕ))
      → a.authorization_mode ≡ ask
      → a.authorization_handler ≡ some handler
      → a.all_tools_approved ≡ false
      → handler
          (record { context = context; step_number = step; max_steps = a.max_steps } ∷ a.requests)
        ≡ ok all
      → check_all (check_tool_authorization a context step).1 cs
        ≡ (map (λ _. ok true) cs, (check_tool_authorization a context step).1)
  check_all-all a handler context step cs h k z e =
      let granted = mode-check a handler context step h k z e in
      check_all-approved (check_tool_authorization a context step).1 cs granted.0 granted.1
