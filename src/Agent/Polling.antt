-- ===== src/Agent/Polling.antt =====
-- PollingAuthorizationHandler of crates/gola-core/src/polling_authorization_handler.rs, with the types of
-- crates/gola-ag-ui-types/src/authorization.rs. What happens between two awaits is one step. A oneshot
-- channel has a number, `channels` what was sent through it. Instants are in nanoseconds.
pub mod Answers
use gola.Prelude.{
  ℕ, suc, ◌+◌, ◌-◌, ◌*◌, ◌^◌, Bool, true, false, ◌||◌, not, Option, none, some, List, [], ◌∷◌, ◌++◌,
  map, retain, ltb, lookup, put, remove, number_key, text_key, Text, codes, if◌then◌else◌, ◌⊎◌, inl,
  inr,
}
use gola.Core.Errors.{authorization_failed, Result, ok, err}
use gola.Agent.{AuthorizationResponse, yes, no, all, AuthorizationContext, AuthorizationRequest}

pub data ToolAuthorizationMode : Type 0 where
  always_allow always_deny ask_mode : ToolAuthorizationMode

pub data UiAuthorizationResponse : Type 0 where
  approve refuse approve_and_allow : UiAuthorizationResponse

pub record AuthorizationConfig : Type 0 where
  pub mode : ToolAuthorizationMode
  pub enabled : Bool
  pub prompt_message : Option Text
  pub timeout_seconds : Option ℕ

abbrev pub default : AuthorizationConfig
default = record {
  mode = ask_mode;
  enabled = true;
  prompt_message = none;
  timeout_seconds = some 30;
}

-- A closed channel's sender was dropped before it has sent anything.
pub data Channel : Type 0 where
  waiting closed : Channel
  sent : AuthorizationResponse → Channel

pub record PendingAuthorizationRequest (V : Type 0) : Type 0 where
  pub response_sender : ℕ
  pub created_at : ℕ
  pub context : AuthorizationContext V
  pub step_number : ℕ

pub record PollingAuthorizationHandler (V : Type 0) : Type 0 where
  pub pending_requests : List (Text × PendingAuthorizationRequest V)
  pub config : AuthorizationConfig
  pub channels : List (ℕ × Channel)
  pub next_channel : ℕ

abbrev pub ui_response : UiAuthorizationResponse → AuthorizationResponse
ui_response approve = yes
ui_response refuse = no
ui_response approve_and_allow = all

abbrev pub id_or : Text → Option Text → Text
id_or uuid none = uuid
id_or uuid (some id) = id

module _ {V : Type 0} where
  abbrev pub new : PollingAuthorizationHandler V
  new = record { pending_requests = []; config = default; channels = []; next_channel = 0 }

  abbrev pub set_config :
      PollingAuthorizationHandler V → AuthorizationConfig → PollingAuthorizationHandler V
  set_config h config = record h { config = config }

  -- A request that leaves the table unanswered drops its sender.
  abbrev pub dropped :
      Option (PendingAuthorizationRequest V) → List (ℕ × Channel) → List (ℕ × Channel)
  dropped none channels = channels
  dropped (some p) channels = put p.response_sender closed channels

  -- The request leaves the table, and the response goes to the task that waits for it.
  abbrev pub answered :
      PollingAuthorizationHandler V
      → Text
      → AuthorizationResponse
      → Option (PendingAuthorizationRequest V)
      → Result (Unit {0}) × PollingAuthorizationHandler V
  answered h tool_call_id response (some p) = (
    ok tt,
    record h {
      pending_requests = remove tool_call_id h.pending_requests;
      channels = put p.response_sender (sent response) h.channels;
    },
  )
  answered h tool_call_id response none = (
    err (
        authorization_failed
          (codes "No pending authorization found for tool call: " ++ tool_call_id)),
    h,
  )

  unfoldable pub handle_response :
      PollingAuthorizationHandler V
      → Text
      → UiAuthorizationResponse
      → Result (Unit {0}) × PollingAuthorizationHandler V
  handle_response h tool_call_id response =
      answered h tool_call_id (ui_response response) (lookup tool_call_id h.pending_requests)

  unfoldable pub cancel_authorization :
      PollingAuthorizationHandler V → Text → Result (Unit {0}) × PollingAuthorizationHandler V
  cancel_authorization h tool_call_id =
      answered h tool_call_id no (lookup tool_call_id h.pending_requests)

  abbrev pub is_expired : ℕ → ℕ → Text × PendingAuthorizationRequest V → Bool
  is_expired now timeout e = ltb timeout (now - e.1.created_at)

  abbrev pub expire :
      List (Text × PendingAuthorizationRequest V)
      → PollingAuthorizationHandler V
      → PollingAuthorizationHandler V
  expire [] h = h
  expire (e ∷ es) h = expire es (answered h e.0 no (lookup e.0 h.pending_requests)).1

  abbrev pub get_timeout_duration : PollingAuthorizationHandler V → Option ℕ
  get_timeout_duration h = elim h.config.timeout_seconds [
    | none ↦ none
    | some secs ↦ some (secs * 10 ^ 9)
  ]

  unfoldable pub cleanup_expired_requests :
      PollingAuthorizationHandler V → ℕ → PollingAuthorizationHandler V
  cleanup_expired_requests h now = elim (get_timeout_duration h) [
    | none ↦ h
    | some timeout ↦ expire (retain (is_expired now timeout) h.pending_requests) h
  ]

  abbrev pub new_pending :
      PollingAuthorizationHandler V → ℕ → AuthorizationRequest V → PendingAuthorizationRequest V
  new_pending h now request = record {
    response_sender = h.next_channel;
    created_at = now;
    context = request.context;
    step_number = request.step_number;
  }

  -- A request of an id that is in the table takes the place of the earlier one.
  abbrev pub register :
      PollingAuthorizationHandler V
      → ℕ
      → Text
      → AuthorizationRequest V
      → PollingAuthorizationHandler V
  register h now tool_call_id request = record h {
    pending_requests = put tool_call_id (new_pending h now request) h.pending_requests;
    channels =
        put h.next_channel waiting (dropped (lookup tool_call_id h.pending_requests) h.channels);
    next_channel = suc h.next_channel;
  }

  -- `request_authorization` up to the wait: an answer, or the id and the channel that it waits for.
  unfoldable pub request_authorization :
      PollingAuthorizationHandler V
      → ℕ
      → Text
      → AuthorizationRequest V
      → (AuthorizationResponse ⊎ (Text × ℕ)) × PollingAuthorizationHandler V
  request_authorization h now uuid request =
      let id = id_or uuid request.context.tool_call_id in
      if not h.config.enabled then (inl yes, h) else elim h.config.mode [
        | always_allow ↦ (inl yes, h)
        | always_deny ↦ (inl no, h)
        | ask_mode ↦ (inr (id, h.next_channel), register h now id request)
      ]

  abbrev pub cleanup_pending_request :
      PollingAuthorizationHandler V → Text → PollingAuthorizationHandler V
  cleanup_pending_request h tool_call_id = record h {
    pending_requests = remove tool_call_id h.pending_requests;
    channels = dropped (lookup tool_call_id h.pending_requests) h.channels;
  }

  abbrev pub allow_after :
      AuthorizationResponse → PollingAuthorizationHandler V → PollingAuthorizationHandler V
  allow_after all h = record h { config = record h.config { mode = always_allow } }
  allow_after _ h = h

  abbrev pub resume_by :
      PollingAuthorizationHandler V
      → Text
      → Option Channel
      → Result AuthorizationResponse × PollingAuthorizationHandler V
  resume_by h tool_call_id (some (sent response)) = (ok response, allow_after response h)
  resume_by h tool_call_id (some waiting) = (ok no, cleanup_pending_request h tool_call_id)
  resume_by h tool_call_id _ = (
    err (authorization_failed (codes "Authorization response channel was closed")),
    cleanup_pending_request h tool_call_id,
  )

  -- `request_authorization` from the end of the wait: with nothing sent, its time is over.
  unfoldable pub resume :
      PollingAuthorizationHandler V
      → Text
      → ℕ
      → Result AuthorizationResponse × PollingAuthorizationHandler V
  resume h tool_call_id channel = resume_by h tool_call_id (lookup channel h.channels)
