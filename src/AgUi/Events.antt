-- ===== src/AgUi/Events.antt =====
-- The events of a run, crates/gola-ag-ui-types/src/events.rs.
use gola.Prelude.{Option, none, some, List, Text, codes}
use gola.AgUi.Types.{ℤ, Message}
use gola.AgUi.Authorization.{
  ToolAuthorizationRequestEvent, ToolAuthorizationResponseEvent, AuthorizationStatusEvent,
}

pub data EventType : Type 0 where
  text_message_start text_message_content text_message_end text_message_chunk tool_call_start
        tool_call_args tool_call_end tool_call_chunk tool_authorization_request
        tool_authorization_response authorization_status state_snapshot state_delta
        messages_snapshot raw custom run_started run_finished run_error step_started step_finished :
      EventType

pub record BaseEvent (V : Type 0) : Type 0 where
  pub event_type : EventType
  pub timestamp : Option ℤ
  pub raw_event : Option V

pub record TextMessageStartEvent (V : Type 0) : Type 0 where
  pub timestamp : Option ℤ
  pub raw_event : Option V
  pub message_id : Text
  pub role : Text

pub record TextMessageContentEvent (V : Type 0) : Type 0 where
  pub timestamp : Option ℤ
  pub raw_event : Option V
  pub message_id : Text
  pub delta : Text

pub record TextMessageEndEvent (V : Type 0) : Type 0 where
  pub timestamp : Option ℤ
  pub raw_event : Option V
  pub message_id : Text

pub record TextMessageChunkEvent (V : Type 0) : Type 0 where
  pub timestamp : Option ℤ
  pub raw_event : Option V
  pub message_id : Option Text
  pub role : Option Text
  pub delta : Option Text

pub record ToolCallStartEvent (V : Type 0) : Type 0 where
  pub timestamp : Option ℤ
  pub raw_event : Option V
  pub tool_call_id : Text
  pub tool_call_name : Text
  pub parent_message_id : Option Text

pub record ToolCallArgsEvent (V : Type 0) : Type 0 where
  pub timestamp : Option ℤ
  pub raw_event : Option V
  pub tool_call_id : Text
  pub delta : Text

pub record ToolCallEndEvent (V : Type 0) : Type 0 where
  pub timestamp : Option ℤ
  pub raw_event : Option V
  pub tool_call_id : Text

pub record ToolCallChunkEvent (V : Type 0) : Type 0 where
  pub timestamp : Option ℤ
  pub raw_event : Option V
  pub tool_call_id : Option Text
  pub tool_call_name : Option Text
  pub parent_message_id : Option Text
  pub delta : Option Text

pub record StateSnapshotEvent (V : Type 0) : Type 0 where
  pub timestamp : Option ℤ
  pub raw_event : Option V
  pub snapshot : V

pub record StateDeltaEvent (V : Type 0) : Type 0 where
  pub timestamp : Option ℤ
  pub raw_event : Option V
  pub delta : List V

pub record MessagesSnapshotEvent (V : Type 0) : Type 0 where
  pub timestamp : Option ℤ
  pub raw_event : Option V
  pub messages : List Message

pub record RawEvent (V : Type 0) : Type 0 where
  pub timestamp : Option ℤ
  pub raw_event : Option V
  pub event : V
  pub source : Option Text

pub record CustomEvent (V : Type 0) : Type 0 where
  pub timestamp : Option ℤ
  pub raw_event : Option V
  pub name : Text
  pub value : V

pub record RunStartedEvent (V : Type 0) : Type 0 where
  pub timestamp : Option ℤ
  pub raw_event : Option V
  pub thread_id : Text
  pub run_id : Text

pub record RunFinishedEvent (V : Type 0) : Type 0 where
  pub timestamp : Option ℤ
  pub raw_event : Option V
  pub thread_id : Text
  pub run_id : Text

pub record RunErrorEvent (V : Type 0) : Type 0 where
  pub timestamp : Option ℤ
  pub raw_event : Option V
  pub message : Text
  pub code : Option Text

pub record StepStartedEvent (V : Type 0) : Type 0 where
  pub timestamp : Option ℤ
  pub raw_event : Option V
  pub step_name : Text

pub record StepFinishedEvent (V : Type 0) : Type 0 where
  pub timestamp : Option ℤ
  pub raw_event : Option V
  pub step_name : Text

pub data Event (V : Type 0) : Type 0 where
  text_message_start : TextMessageStartEvent V → Event V
  text_message_content : TextMessageContentEvent V → Event V
  text_message_end : TextMessageEndEvent V → Event V
  text_message_chunk : TextMessageChunkEvent V → Event V
  tool_call_start : ToolCallStartEvent V → Event V
  tool_call_args : ToolCallArgsEvent V → Event V
  tool_call_end : ToolCallEndEvent V → Event V
  tool_call_chunk : ToolCallChunkEvent V → Event V
  tool_authorization_request : ToolAuthorizationRequestEvent V → Event V
  tool_authorization_response : ToolAuthorizationResponseEvent V → Event V
  authorization_status : AuthorizationStatusEvent V → Event V
  state_snapshot : StateSnapshotEvent V → Event V
  state_delta : StateDeltaEvent V → Event V
  messages_snapshot : MessagesSnapshotEvent V → Event V
  raw : RawEvent V → Event V
  custom : CustomEvent V → Event V
  run_started : RunStartedEvent V → Event V
  run_finished : RunFinishedEvent V → Event V
  run_error : RunErrorEvent V → Event V
  step_started : StepStartedEvent V → Event V
  step_finished : StepFinishedEvent V → Event V

module _ {V : Type 0} where
  unfoldable pub event_type : Event V → EventType
  event_type (text_message_start e) = EventType.text_message_start
  event_type (text_message_content e) = EventType.text_message_content
  event_type (text_message_end e) = EventType.text_message_end
  event_type (text_message_chunk e) = EventType.text_message_chunk
  event_type (tool_call_start e) = EventType.tool_call_start
  event_type (tool_call_args e) = EventType.tool_call_args
  event_type (tool_call_end e) = EventType.tool_call_end
  event_type (tool_call_chunk e) = EventType.tool_call_chunk
  event_type (tool_authorization_request e) = EventType.tool_authorization_request
  event_type (tool_authorization_response e) = EventType.tool_authorization_response
  event_type (authorization_status e) = EventType.authorization_status
  event_type (state_snapshot e) = EventType.state_snapshot
  event_type (state_delta e) = EventType.state_delta
  event_type (messages_snapshot e) = EventType.messages_snapshot
  event_type (raw e) = EventType.raw
  event_type (custom e) = EventType.custom
  event_type (run_started e) = EventType.run_started
  event_type (run_finished e) = EventType.run_finished
  event_type (run_error e) = EventType.run_error
  event_type (step_started e) = EventType.step_started
  event_type (step_finished e) = EventType.step_finished

  unfoldable pub timestamp : Event V → Option ℤ
  timestamp (text_message_start e) = e.timestamp
  timestamp (text_message_content e) = e.timestamp
  timestamp (text_message_end e) = e.timestamp
  timestamp (text_message_chunk e) = e.timestamp
  timestamp (tool_call_start e) = e.timestamp
  timestamp (tool_call_args e) = e.timestamp
  timestamp (tool_call_end e) = e.timestamp
  timestamp (tool_call_chunk e) = e.timestamp
  timestamp (tool_authorization_request e) = e.timestamp
  timestamp (tool_authorization_response e) = e.timestamp
  timestamp (authorization_status e) = e.timestamp
  timestamp (state_snapshot e) = e.timestamp
  timestamp (state_delta e) = e.timestamp
  timestamp (messages_snapshot e) = e.timestamp
  timestamp (raw e) = e.timestamp
  timestamp (custom e) = e.timestamp
  timestamp (run_started e) = e.timestamp
  timestamp (run_finished e) = e.timestamp
  timestamp (run_error e) = e.timestamp
  timestamp (step_started e) = e.timestamp
  timestamp (step_finished e) = e.timestamp

abbrev pub new_text_message_start : {V : Type 0} → Text → TextMessageStartEvent V
new_text_message_start message_id = record {
  timestamp = none;
  raw_event = none;
  message_id = message_id;
  role = codes "assistant";
}

abbrev pub new_text_message_content : {V : Type 0} → Text → Text → TextMessageContentEvent V
new_text_message_content message_id delta = record {
  timestamp = none;
  raw_event = none;
  message_id = message_id;
  delta = delta;
}

abbrev pub new_text_message_end : {V : Type 0} → Text → TextMessageEndEvent V
new_text_message_end message_id = record {
  timestamp = none;
  raw_event = none;
  message_id = message_id;
}

abbrev pub new_tool_call_start : {V : Type 0} → Text → Text → ToolCallStartEvent V
new_tool_call_start tool_call_id tool_call_name = record {
  timestamp = none;
  raw_event = none;
  tool_call_id = tool_call_id;
  tool_call_name = tool_call_name;
  parent_message_id = none;
}

abbrev pub new_tool_call_args : {V : Type 0} → Text → Text → ToolCallArgsEvent V
new_tool_call_args tool_call_id delta = record {
  timestamp = none;
  raw_event = none;
  tool_call_id = tool_call_id;
  delta = delta;
}

abbrev pub new_tool_call_end : {V : Type 0} → Text → ToolCallEndEvent V
new_tool_call_end tool_call_id = record {
  timestamp = none;
  raw_event = none;
  tool_call_id = tool_call_id;
}

abbrev pub new_state_snapshot : {V : Type 0} → V → StateSnapshotEvent V
new_state_snapshot snapshot = record { timestamp = none; raw_event = none; snapshot = snapshot }

abbrev pub new_state_delta : {V : Type 0} → List V → StateDeltaEvent V
new_state_delta delta = record { timestamp = none; raw_event = none; delta = delta }

abbrev pub new_messages_snapshot : {V : Type 0} → List Message → MessagesSnapshotEvent V
new_messages_snapshot messages = record { timestamp = none; raw_event = none; messages = messages }

abbrev pub new_run_started : {V : Type 0} → Text → Text → RunStartedEvent V
new_run_started thread_id run_id = record {
  timestamp = none;
  raw_event = none;
  thread_id = thread_id;
  run_id = run_id;
}

abbrev pub new_run_finished : {V : Type 0} → Text → Text → RunFinishedEvent V
new_run_finished thread_id run_id = record {
  timestamp = none;
  raw_event = none;
  thread_id = thread_id;
  run_id = run_id;
}

abbrev pub new_run_error : {V : Type 0} → Text → RunErrorEvent V
new_run_error message = record {
  timestamp = none;
  raw_event = none;
  message = message;
  code = none;
}

abbrev pub run_error_with_code : {V : Type 0} → Text → Text → RunErrorEvent V
run_error_with_code message code = record {
  timestamp = none;
  raw_event = none;
  message = message;
  code = some code;
}

abbrev pub new_step_started : {V : Type 0} → Text → StepStartedEvent V
new_step_started step_name = record { timestamp = none; raw_event = none; step_name = step_name }

abbrev pub new_step_finished : {V : Type 0} → Text → StepFinishedEvent V
new_step_finished step_name = record { timestamp = none; raw_event = none; step_name = step_name }

abbrev pub new_custom : {V : Type 0} → Text → V → CustomEvent V
new_custom name value = record { timestamp = none; raw_event = none; name = name; value = value }

abbrev pub new_raw_event : {V : Type 0} → V → RawEvent V
new_raw_event event = record { timestamp = none; raw_event = none; event = event; source = none }

abbrev pub raw_event_with_source : {V : Type 0} → V → Text → RawEvent V
raw_event_with_source event source = record {
  timestamp = none;
  raw_event = none;
  event = event;
  source = some source;
}
