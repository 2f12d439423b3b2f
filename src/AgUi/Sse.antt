-- ===== src/AgUi/Sse.antt =====
-- How events travel: the server writes them as server-sent events, crates/gola-ag-ui-server/src/sse.rs, and the client
-- reads them, `Event::from_sse` of crates/gola-ag-ui-types/src/events.rs. `V` is a JSON value. serde_json, with
-- what `derive` makes for each event, is a parameter; an error of it is its text.
pub mod Read
use gola.Prelude.{
  Bool, true, false, Option, none, some, List, [], ◌∷◌, ◌++◌, Text, codes, same, if◌then◌else◌, ◌⊎◌,
  inl, inr, ℕ,
}
use gola.AgUi.Authorization.{
  ToolAuthorizationRequestEvent, ToolAuthorizationResponseEvent, AuthorizationStatusEvent,
}
use gola.AgUi.Events.{
  Event, text_message_start, text_message_content, text_message_end, text_message_chunk,
  tool_call_start, tool_call_args, tool_call_end, tool_call_chunk, tool_authorization_request,
  tool_authorization_response, authorization_status, state_snapshot, state_delta, messages_snapshot,
  raw, custom, run_started, run_finished, run_error, step_started, step_finished,
  TextMessageStartEvent, TextMessageContentEvent, TextMessageEndEvent, TextMessageChunkEvent,
  ToolCallStartEvent, ToolCallArgsEvent, ToolCallEndEvent, ToolCallChunkEvent, StateSnapshotEvent,
  StateDeltaEvent, MessagesSnapshotEvent, RawEvent, CustomEvent, RunStartedEvent, RunFinishedEvent,
  RunErrorEvent, StepStartedEvent, StepFinishedEvent,
}
use gola.AgUi.Handler.{ServerResult, failed, done, json}

-- crates/gola-ag-ui-types/src/error.rs
pub data AgUiError : Type 0 where
  validation serialization invalid_event_type invalid_role missing_field generic : Text → AgUiError

pub data AgUiResult (T : Type 0) : Type 0 where
  bad : AgUiError → AgUiResult T
  good : T → AgUiResult T

-- `to_string` of an event, and `from_str` of each of its kinds and of all of them.
pub record Serde (V : Type 0) : Type 0 where
  pub to_string : Event V → Text ⊎ Text
  pub read_event : Text → Text ⊎ Event V
  pub read_text_message_start : Text → Text ⊎ TextMessageStartEvent V
  pub read_text_message_content : Text → Text ⊎ TextMessageContentEvent V
  pub read_text_message_end : Text → Text ⊎ TextMessageEndEvent V
  pub read_text_message_chunk : Text → Text ⊎ TextMessageChunkEvent V
  pub read_tool_call_start : Text → Text ⊎ ToolCallStartEvent V
  pub read_tool_call_args : Text → Text ⊎ ToolCallArgsEvent V
  pub read_tool_call_end : Text → Text ⊎ ToolCallEndEvent V
  pub read_tool_call_chunk : Text → Text ⊎ ToolCallChunkEvent V
  pub read_tool_authorization_request : Text → Text ⊎ ToolAuthorizationRequestEvent V
  pub read_tool_authorization_response : Text → Text ⊎ ToolAuthorizationResponseEvent V
  pub read_authorization_status : Text → Text ⊎ AuthorizationStatusEvent V
  pub read_state_snapshot : Text → Text ⊎ StateSnapshotEvent V
  pub read_state_delta : Text → Text ⊎ StateDeltaEvent V
  pub read_messages_snapshot : Text → Text ⊎ MessagesSnapshotEvent V
  pub read_raw : Text → Text ⊎ RawEvent V
  pub read_custom : Text → Text ⊎ CustomEvent V
  pub read_run_started : Text → Text ⊎ RunStartedEvent V
  pub read_run_finished : Text → Text ⊎ RunFinishedEvent V
  pub read_run_error : Text → Text ⊎ RunErrorEvent V
  pub read_step_started : Text → Text ⊎ StepStartedEvent V
  pub read_step_finished : Text → Text ⊎ StepFinishedEvent V

pub record SseEvent : Type 0 where
  pub event_type : Option Text
  pub payload : Text
  pub id : Option Text
  pub retry : Option ℕ

abbrev pub new_sse_event : Text → SseEvent
new_sse_event payload = record { event_type = none; payload = payload; id = none; retry = none }

abbrev pub with_type : Text → Text → SseEvent
with_type event_type payload = record {
  event_type = some event_type;
  payload = payload;
  id = none;
  retry = none;
}

abbrev pub with_id : Text → SseEvent → SseEvent
with_id id s = record s { id = some id }

abbrev pub with_retry : ℕ → SseEvent → SseEvent
with_retry retry s = record s { retry = some retry }

abbrev pub written_as : Text → Text ⊎ Text → ServerResult SseEvent
written_as name (inl e) = failed (json e)
written_as name (inr payload) = done (with_type name payload)

module _ {V : Type 0} where
  unfoldable pub event_name : Event V → Text
  event_name (text_message_start e) = codes "TEXT_MESSAGE_START"
  event_name (text_message_content e) = codes "TEXT_MESSAGE_CONTENT"
  event_name (text_message_end e) = codes "TEXT_MESSAGE_END"
  event_name (text_message_chunk e) = codes "TEXT_MESSAGE_CHUNK"
  event_name (tool_call_start e) = codes "TOOL_CALL_START"
  event_name (tool_call_args e) = codes "TOOL_CALL_ARGS"
  event_name (tool_call_end e) = codes "TOOL_CALL_END"
  event_name (tool_call_chunk e) = codes "TOOL_CALL_CHUNK"
  event_name (tool_authorization_request e) = codes "TOOL_AUTHORIZATION_REQUEST"
  event_name (tool_authorization_response e) = codes "TOOL_AUTHORIZATION_RESPONSE"
  event_name (authorization_status e) = codes "AUTHORIZATION_STATUS"
  event_name (state_snapshot e) = codes "STATE_SNAPSHOT"
  event_name (state_delta e) = codes "STATE_DELTA"
  event_name (messages_snapshot e) = codes "MESSAGES_SNAPSHOT"
  event_name (raw e) = codes "RAW"
  event_name (custom e) = codes "CUSTOM"
  event_name (run_started e) = codes "RUN_STARTED"
  event_name (run_finished e) = codes "RUN_FINISHED"
  event_name (run_error e) = codes "RUN_ERROR"
  event_name (step_started e) = codes "STEP_STARTED"
  event_name (step_finished e) = codes "STEP_FINISHED"

  abbrev pub parsed_as : {A : Type 0} → Text → (A → Event V) → Text ⊎ A → AgUiResult (Event V)
  parsed_as name kind (inl e) =
      bad (serialization (codes "Failed to parse " ++ name ++ codes ": " ++ e))
  parsed_as name kind (inr event) = good (kind event)

  abbrev pub parsed_any : Text → Text → Text ⊎ Event V → AgUiResult (Event V)
  parsed_any event_name payload (inl e) = bad (
      invalid_event_type (
        codes "SSE event name '"
        ++ event_name
        ++ codes "' with data '"
        ++ payload
        ++ codes "' could not be deserialized into a known Event variant: Direct: "
        ++ e))
  parsed_any event_name payload (inr event) = good event

  module _ (serde : Serde V) where
    unfoldable pub from_ag_ui_event : Event V → ServerResult SseEvent
    unfolding event_name
    from_ag_ui_event event = written_as (event_name event) (serde.to_string event)

    unfoldable pub from_sse : Text → Text → AgUiResult (Event V)
    unfolding same
    from_sse name payload =
        if same name (codes "TEXT_MESSAGE_START")
        then parsed_as (codes "TextMessageStartEvent") text_message_start
            (serde.read_text_message_start payload)
        else if same name (codes "TEXT_MESSAGE_CONTENT")
        then parsed_as (codes "TextMessageContentEvent") text_message_content
            (serde.read_text_message_content payload)
        else if same name (codes "TEXT_MESSAGE_END")
        then parsed_as (codes "TextMessageEndEvent") text_message_end
            (serde.read_text_message_end payload)
        else if same name (codes "TEXT_MESSAGE_CHUNK")
        then parsed_as (codes "TextMessageChunkEvent") text_message_chunk
            (serde.read_text_message_chunk payload)
        else if same name (codes "TOOL_CALL_START")
        then parsed_as (codes "ToolCallStartEvent") tool_call_start
            (serde.read_tool_call_start payload)
        else if same name (codes "TOOL_CALL_ARGS")
        then parsed_as (codes "ToolCallArgsEvent") tool_call_args
            (serde.read_tool_call_args payload)
        else if same name (codes "TOOL_CALL_END")
        then parsed_as (codes "ToolCallEndEvent") tool_call_end (serde.read_tool_call_end payload)
        else if same name (codes "TOOL_CALL_CHUNK")
        then parsed_as (codes "ToolCallChunkEvent") tool_call_chunk
            (serde.read_tool_call_chunk payload)
        else if same name (codes "TOOL_AUTHORIZATION_REQUEST")
        then parsed_as (codes "ToolAuthorizationRequestEvent") tool_authorization_request
            (serde.read_tool_authorization_request payload)
        else if same name (codes "TOOL_AUTHORIZATION_RESPONSE")
        then parsed_as (codes "ToolAuthorizationResponseEvent") tool_authorization_response
            (serde.read_tool_authorization_response payload)
        else if same name (codes "AUTHORIZATION_STATUS")
        then parsed_as (codes "AuthorizationStatusEvent") authorization_status
            (serde.read_authorization_status payload)
        else if same name (codes "STATE_SNAPSHOT")
        then parsed_as (codes "StateSnapshotEvent") state_snapshot
            (serde.read_state_snapshot payload)
        else if same name (codes "STATE_DELTA")
        then parsed_as (codes "StateDeltaEvent") state_delta (serde.read_state_delta payload)
        else if same name (codes "MESSAGES_SNAPSHOT")
        then parsed_as (codes "MessagesSnapshotEvent") messages_snapshot
            (serde.read_messages_snapshot payload)
        else if same name (codes "RAW")
        then parsed_as (codes "RawEvent") raw (serde.read_raw payload)
        else if same name (codes "CUSTOM")
        then parsed_as (codes "CustomEvent") custom (serde.read_custom payload)
        else if same name (codes "RUN_STARTED")
        then parsed_as (codes "RunStartedEvent") run_started (serde.read_run_started payload)
        else if same name (codes "RUN_FINISHED")
        then parsed_as (codes "RunFinishedEvent") run_finished (serde.read_run_finished payload)
        else if same name (codes "RUN_ERROR")
        then parsed_as (codes "RunErrorEvent") run_error (serde.read_run_error payload)
        else if same name (codes "STEP_STARTED")
        then parsed_as (codes "StepStartedEvent") step_started (serde.read_step_started payload)
        else if same name (codes "STEP_FINISHED")
        then parsed_as (codes "StepFinishedEvent") step_finished (serde.read_step_finished payload)
        else parsed_any name payload (serde.read_event payload)
