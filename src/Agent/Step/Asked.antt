-- ===== src/Agent/Step/Asked.antt =====
-- What the run of crates/gola-core/src/agent.rs executes when the user is asked about each call.
use mathlib.Core.Path.{subst}
use gola.Prelude.{
  ℕ, ◌≡◌, refl, sym, ap, ◌⊎◌, inl, inr, Bool, true, false, Bool-cases, some, List, [], ◌∷◌, Text,
  arith,
}
use gola.Core.Errors.{Result, ok, err}
use gola.Agent.{
  Agent, AuthorizationContext, AuthorizationResponse, AuthorizationRequest, Handler, ask, yes, no,
  all, check_tool_authorization, ask_handler, settle_response,
}
use gola.Agent.World.{World, Run}
use gola.Agent.Tools.{or_false, is_authorized, count_failure, clear_failures, note_run}
use gola.Agent.Step.{run}
use gola.Agent.Authorization.{check-asked}
use gola.Agent.Invariants.{IsKept, is_authorized_plain}
use gola.Agent.Invariants.Run.{run-keeps}

abbrev keep_granted : {A : Type 0} → Result AuthorizationResponse → A → List A → List A
keep_granted (err e) x xs = xs
keep_granted (ok no) x xs = xs
keep_granted (ok yes) x xs = x ∷ xs
keep_granted (ok all) x xs = x ∷ xs

module _ {V : Type 0} where
  abbrev pub called : AuthorizationContext V → Run V
  called c = record { tool_name = c.tool_name; tool_arguments = c.tool_arguments }

  -- The calls that the handler granted, of the requests that it got.
  unfoldable pub granted : Handler V → List (AuthorizationRequest V) → List (Run V)
  granted handler [] = []
  granted handler (r ∷ rs) = keep_granted (handler (r ∷ rs)) (called r.context) (granted handler rs)

module _ {V M : Type 0} (handler : Handler V) where
  -- What is run is what was granted, as long as the user has not answered `All`.
  abbrev pub RunsGranted : Agent V M → Type 0
  RunsGranted a =
      (a.authorization_mode ≡ ask)
      × ((a.authorization_handler ≡ some handler)
          × (a.all_tools_approved ≡ false → a.runs ≡ granted handler a.requests))

  module _ (c : AuthorizationContext V) where
    -- The two ways in which an answer keeps the log of runs equal to what was granted.
    abbrev Settled : Result Bool → Agent V M → Type 0
    Settled r b =
        ((r ≡ ok true) × (called c ∷ b.runs ≡ granted handler b.requests))
        ⊎ (¬ (r ≡ ok true) × (b.runs ≡ granted handler b.requests))

  settle_response-Settled :
      (a : Agent V M) (request : AuthorizationRequest V) (r : Result AuthorizationResponse)
      → handler (request ∷ a.requests) ≡ r
      → a.runs ≡ granted handler a.requests
      → let b =
          settle_response
            (record a { requests = request ∷ a.requests })
            request.context.tool_name
            r in
        b.1.all_tools_approved ≡ false → Settled request.context (ok (or_false b.0)) b.1
  unfolding settle_response granted
  settle_response-Settled a request (err e) h p f = inr ((λ g. ground (arith, g)), rw h p)
  settle_response-Settled a request (ok no) h p f = inr ((λ g. ground (arith, g)), rw h p)
  settle_response-Settled a request (ok yes) h p f =
      inl (refl, rw h (ap (λ l. called request.context ∷ l) p))
  settle_response-Settled a request (ok all) h p f = ground (arith, f)

  approved-Settled :
      (a : Agent V M) (c : AuthorizationContext V) (step : ℕ)
      → a.authorization_mode ≡ ask
      → a.all_tools_approved ≡ true
      → (is_authorized c step a).1.all_tools_approved ≡ true
  unfolding is_authorized check_tool_authorization
  approved-Settled a c step m f = ground arith

  is_authorized-Settled :
      (a : Agent V M) (c : AuthorizationContext V) (step : ℕ)
      → RunsGranted a
      → (is_authorized c step a).1.all_tools_approved ≡ false
      → Settled c (is_authorized c step a).0 (is_authorized c step a).1
  unfolding is_authorized ask_handler
  is_authorized-Settled a c step p f = elim (Bool-cases a.all_tools_approved) [
    | inl e ↦ ground (arith, approved-Settled a c step p.0 e, f)
    | inr e ↦
        let request : AuthorizationRequest V = record {
          context = c;
          step_number = step;
          max_steps = a.max_steps;
        } in
        subst
          (λ (r : Result Bool × Agent V M).
            r.1.all_tools_approved ≡ false → Settled c (ok (or_false r.0)) r.1)
          (sym (check-asked a c step handler p.0 p.1.0 e))
          (λ g. settle_response-Settled a request _ refl (p.1.1 e) g) f
  ]

  pub RunsGranted-IsKept : (w : World V M) → IsKept w RunsGranted
  unfolding note_run count_failure clear_failures
  RunsGranted-IsKept w = record {
    plain = λ a h l n m d r p. p;
    asked = λ a c step p f.
        let b = (is_authorized c step a).1 in
        (
          rw (is_authorized_plain a c step) p.0,
          (
            rw (is_authorized_plain a c step) p.1.0,
            λ g. elim (is_authorized-Settled a c step p g) [
              | inl h ↦ elim (f h.0) [ ]
              | inr h ↦ h.1
            ],
          ),
        );
    noted = λ a c step p f g. (
      rw (is_authorized_plain a c step) p.0,
      (
        rw (is_authorized_plain a c step) p.1.0,
        λ k. elim (is_authorized-Settled a c step p k) [ inl h ↦ h.1 | inr h ↦ elim (h.0 g) [ ] ],
      ),
    );
    cleared = λ a name p f. p;
    counted = λ a name p f. p;
  }

  -- This is about the log of runs, which has each tool of the registry, each execution of code and each
  -- search that is run for a call of the model. The tools of the control plane and the retrieval
  -- for the task, which run without a grant, are not in it. In the mode `Ask`, when a run starts with
  -- a log that holds what the handler has granted and the user has not answered `All` by its end, the
  -- log holds at the end what the handler granted: with the arguments, once for each grant, and in
  -- that order.
  pub run-granted :
      (w : World V M) (task : Text) (a : Agent V M)
      → a.authorization_mode ≡ ask
      → a.authorization_handler ≡ some handler
      → a.runs ≡ granted handler a.requests
      → (run w task a).1.all_tools_approved ≡ false
      → (run w task a).1.runs ≡ granted handler (run w task a).1.requests
  run-granted w task a m h r f =
      (run-keeps w RunsGranted (RunsGranted-IsKept w) (λ b sent p. p) task a (m, (h, λ g. r))).1.1 f
