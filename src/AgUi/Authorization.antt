-- ===== src/AgUi/Authorization.antt =====
-- The events of crates/gola-ag-ui-types/src/authorization.rs and the pending requests that a user is shown.
-- Its configuration and the user's response stand beside the polling handler.
use gola.Prelude.{Option, none, some, Text}
use gola.Agent.Polling.{UiAuthorizationResponse}
use gola.AgUi.Types.{ℤ}

pub record ToolAuthorizationRequestEvent (V : Type 0) : Type 0 where
  pub timestamp : Option ℤ
  pub raw_event : Option V
  pub tool_call_id : Text
  pub tool_call_name : Text
  pub tool_call_args : Text
  pub description : Option Text

pub record ToolAuthorizationResponseEvent (V : Type 0) : Type 0 where
  pub timestamp : Option ℤ
  pub raw_event : Option V
  pub tool_call_id : Text
  pub response : UiAuthorizationResponse

pub data AuthorizationStatus : Type 0 where
  pending approved denied timed_out cancelled : AuthorizationStatus

pub record PendingAuthorization : Type 0 where
  pub tool_call_id : Text
  pub tool_call_name : Text
  pub tool_call_args : Text
  pub description : Option Text
  pub status : AuthorizationStatus
  pub created_at : ℤ
  pub expires_at : Option ℤ

pub record AuthorizationStatusEvent (V : Type 0) : Type 0 where
  pub timestamp : Option ℤ
  pub raw_event : Option V
  pub tool_call_id : Text
  pub status : AuthorizationStatus
  pub message : Option Text

abbrev pub new_tool_authorization_request :
    {V : Type 0} → Text → Text → Text → ToolAuthorizationRequestEvent V
new_tool_authorization_request tool_call_id tool_call_name tool_call_args = record {
  timestamp = none;
  raw_event = none;
  tool_call_id = tool_call_id;
  tool_call_name = tool_call_name;
  tool_call_args = tool_call_args;
  description = none;
}

abbrev pub tool_authorization_request_with_description :
    {V : Type 0} → Text → Text → Text → Text → ToolAuthorizationRequestEvent V
tool_authorization_request_with_description tool_call_id tool_call_name tool_call_args description =
    record {
      timestamp = none;
      raw_event = none;
      tool_call_id = tool_call_id;
      tool_call_name = tool_call_name;
      tool_call_args = tool_call_args;
      description = some description;
    }

abbrev pub new_tool_authorization_response :
    {V : Type 0} → Text → UiAuthorizationResponse → ToolAuthorizationResponseEvent V
new_tool_authorization_response tool_call_id response = record {
  timestamp = none;
  raw_event = none;
  tool_call_id = tool_call_id;
  response = response;
}

abbrev pub new_authorization_status :
    {V : Type 0} → Text → AuthorizationStatus → AuthorizationStatusEvent V
new_authorization_status tool_call_id status = record {
  timestamp = none;
  raw_event = none;
  tool_call_id = tool_call_id;
  status = status;
  message = none;
}

abbrev pub authorization_status_with_message :
    {V : Type 0} → Text → AuthorizationStatus → Text → AuthorizationStatusEvent V
authorization_status_with_message tool_call_id status message = record {
  timestamp = none;
  raw_event = none;
  tool_call_id = tool_call_id;
  status = status;
  message = some message;
}
