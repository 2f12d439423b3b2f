-- ===== src/Agent/Step/Closed.antt =====
-- What the run of crates/gola-core/src/agent.rs executes when nothing may be granted.
use gola.Prelude.{
  ℕ, ◌≡◌, refl, sym, ap, ◌⊎◌, Bool, false, Option, none, some, List, ◌∷◌, Text, arith,
}
use gola.Core.Errors.{Result, ok, err}
use gola.Agent.{
  Agent, AuthorizationContext, AuthorizationResponse, AuthorizationMode, AuthorizationRequest,
  Handler, ask, allow, deny, yes, no, all, check_tool_authorization, ask_handler, settle_response,
}
use gola.Agent.Authorization.{check-asked}
use gola.Agent.World.{World}
use gola.Agent.Tools.{or_false, is_authorized, count_failure, clear_failures}
use gola.Agent.Step.{run}
use gola.Agent.Invariants.{IsKept, is_authorized_plain}
use mathlib.Core.Path.{subst}
use gola.Agent.World.{Run}
use gola.Agent.Invariants.Run.{run-keeps}

-- A handler that answers neither `Yes` nor `All`, whatever it is asked.
abbrev pub NeverGrants : {V : Type 0} → Option (Handler V) → Type 0
NeverGrants none = Unit
NeverGrants {V = V} (some handler) =
    (rs : List (AuthorizationRequest V)) → (handler rs ≡ ok no) ⊎ ((e : _) × (handler rs ≡ err e))

-- No call may be granted: in the mode `Deny`, and in the mode `Ask` without the user's `All` and
-- without a handler that ever grants.
abbrev pub IsClosed : {V : Type 0} → AuthorizationMode → Bool → Option (Handler V) → Type 0
IsClosed allow approved handler = ⊥
IsClosed deny approved handler = Unit
IsClosed ask approved handler = (approved ≡ false) × NeverGrants handler

module _ {V M : Type 0} where
  refused :
      (a : Agent V M) (name : Text) (r : Result AuthorizationResponse)
      → (r ≡ ok no) ⊎ ((e : _) × (r ≡ err e))
      → (or_false (settle_response a name r).0 ≡ false)
        × ((settle_response a name r).1.all_tools_approved ≡ a.all_tools_approved)
  unfolding settle_response
  refused a name (err e) h = (refl, refl)
  refused a name (ok no) h = (refl, refl)
  refused a name (ok yes) h = ground arith
  refused a name (ok all) h = ground arith

  module _ (a : Agent V M) (c : AuthorizationContext V) (step : ℕ) where
    -- The call is not granted, and no approval given.
    abbrev Refuses : Type 0
    Refuses =
        ((is_authorized c step a).0 ≡ ok false)
        × ((is_authorized c step a).1.all_tools_approved ≡ a.all_tools_approved)

    ask_handler-Refuses :
        (handler : Handler V)
        → NeverGrants (some handler)
        → (or_false (ask_handler a c step handler).0 ≡ false)
          × ((ask_handler a c step handler).1.all_tools_approved ≡ a.all_tools_approved)
    unfolding ask_handler
    ask_handler-Refuses handler h =
        let request : AuthorizationRequest V = record {
          context = c;
          step_number = step;
          max_steps = a.max_steps;
        } in
        refused (record a { requests = request ∷ a.requests }) c.tool_name _
          (h (request ∷ a.requests))

    unanswered-Refuses :
        (handler : Option (Handler V))
        → a.authorization_mode ≡ ask
        → a.authorization_handler ≡ handler
        → a.all_tools_approved ≡ false
        → NeverGrants handler
        → Refuses
    unfolding is_authorized check_tool_authorization
    unanswered-Refuses none m e f h = (ground arith, ground arith)
    unanswered-Refuses (some handler) m e f h =
        let r = ask_handler-Refuses handler h in
        rw (check-asked a c step handler m e f) (ap ok r.0, r.1)

    closed-Refuses :
        (mode : AuthorizationMode)
        → a.authorization_mode ≡ mode
        → IsClosed mode a.all_tools_approved a.authorization_handler
        → Refuses
    unfolding is_authorized check_tool_authorization
    closed-Refuses ask m h = unanswered-Refuses _ m refl h.0 h.1
    closed-Refuses allow m h = elim h [ ]
    closed-Refuses deny m h = (ground arith, ground arith)

  module _ (w : World V M) (rs : List (Run V)) where
    abbrev ClosedWith : Agent V M → Type 0
    ClosedWith a =
        IsClosed a.authorization_mode a.all_tools_approved a.authorization_handler × (a.runs ≡ rs)

    ClosedWith-IsKept : IsKept w ClosedWith
    unfolding count_failure clear_failures
    ClosedWith-IsKept = record {
      plain = λ a h l n m d r p. p;
      asked = λ a c step p f. subst ClosedWith (sym (is_authorized_plain a c step)) (
        subst (λ b. IsClosed a.authorization_mode b a.authorization_handler)
            (sym (closed-Refuses a c step _ refl p.0).1) p.0,
        p.1,
      );
      noted = λ a c step p f g. ground (arith, (closed-Refuses a c step _ refl p.0).0, g);
      cleared = λ a name p f. p;
      counted = λ a name p f. p;
    }

  -- When no call may be granted, a run executes for the calls of the model no tool of the registry, no
  -- code and no search, whatever the model calls for: the log of these stays as it was. The tools of
  -- the control plane and the retrieval for the task run without a grant and are not in that log.
  pub run-closed :
      (w : World V M) (task : Text) (a : Agent V M)
      → IsClosed a.authorization_mode a.all_tools_approved a.authorization_handler
      → (run w task a).1.runs ≡ a.runs
  run-closed w task a h =
      (run-keeps w (ClosedWith w a.runs) (ClosedWith-IsKept w a.runs) (λ b sent p. p) task a
        (h, refl)).1
