-- ===== src/AgUi/Sse/Read.antt =====
-- What is written as a server-sent event is read back, and what a client of
-- crates/gola-agent-client makes of a whole stream.
use gola.Prelude.{◌≡◌, ap, Text, codes, inr}
use gola.AgUi.Events.{
  Event, text_message_start, text_message_content, text_message_end, text_message_chunk,
  tool_call_start, tool_call_args, tool_call_end, tool_call_chunk, tool_authorization_request,
  tool_authorization_response, authorization_status, state_snapshot, state_delta, messages_snapshot,
  raw, custom, run_started, run_finished, run_error, step_started, step_finished,
}
use gola.AgUi.Sse.{Serde, good, event_name, parsed_as, from_sse}

module _ {V : Type 0} (serde : Serde V) where
  -- The reader of the event's kind reads the text as the event.
  abbrev pub ReadsBack : Event V → Text → Type 0
  ReadsBack (text_message_start e) text = serde.read_text_message_start text ≡ inr e
  ReadsBack (text_message_content e) text = serde.read_text_message_content text ≡ inr e
  ReadsBack (text_message_end e) text = serde.read_text_message_end text ≡ inr e
  ReadsBack (text_message_chunk e) text = serde.read_text_message_chunk text ≡ inr e
  ReadsBack (tool_call_start e) text = serde.read_tool_call_start text ≡ inr e
  ReadsBack (tool_call_args e) text = serde.read_tool_call_args text ≡ inr e
  ReadsBack (tool_call_end e) text = serde.read_tool_call_end text ≡ inr e
  ReadsBack (tool_call_chunk e) text = serde.read_tool_call_chunk text ≡ inr e
  ReadsBack (tool_authorization_request e) text = serde.read_tool_authorization_request text ≡ inr e
  ReadsBack (tool_authorization_response e) text =
      serde.read_tool_authorization_response text ≡ inr e
  ReadsBack (authorization_status e) text = serde.read_authorization_status text ≡ inr e
  ReadsBack (state_snapshot e) text = serde.read_state_snapshot text ≡ inr e
  ReadsBack (state_delta e) text = serde.read_state_delta text ≡ inr e
  ReadsBack (messages_snapshot e) text = serde.read_messages_snapshot text ≡ inr e
  ReadsBack (raw e) text = serde.read_raw text ≡ inr e
  ReadsBack (custom e) text = serde.read_custom text ≡ inr e
  ReadsBack (run_started e) text = serde.read_run_started text ≡ inr e
  ReadsBack (run_finished e) text = serde.read_run_finished text ≡ inr e
  ReadsBack (run_error e) text = serde.read_run_error text ≡ inr e
  ReadsBack (step_started e) text = serde.read_step_started text ≡ inr e
  ReadsBack (step_finished e) text = serde.read_step_finished text ≡ inr e

  -- A text that is read back as an event is also read as that event with the name that goes beside it.
  pub from_sse-event_name :
      (e : Event V) (text : Text) → ReadsBack e text → from_sse serde (event_name e) text ≡ good e
  unfolding from_sse event_name
  from_sse-event_name (text_message_start e) text h =
      ap (parsed_as (codes "TextMessageStartEvent") text_message_start) h
  from_sse-event_name (text_message_content e) text h =
      ap (parsed_as (codes "TextMessageContentEvent") text_message_content) h
  from_sse-event_name (text_message_end e) text h =
      ap (parsed_as (codes "TextMessageEndEvent") text_message_end) h
  from_sse-event_name (text_message_chunk e) text h =
      ap (parsed_as (codes "TextMessageChunkEvent") text_message_chunk) h
  from_sse-event_name (tool_call_start e) text h =
      ap (parsed_as (codes "ToolCallStartEvent") tool_call_start) h
  from_sse-event_name (tool_call_args e) text h =
      ap (parsed_as (codes "ToolCallArgsEvent") tool_call_args) h
  from_sse-event_name (tool_call_end e) text h =
      ap (parsed_as (codes "ToolCallEndEvent") tool_call_end) h
  from_sse-event_name (tool_call_chunk e) text h =
      ap (parsed_as (codes "ToolCallChunkEvent") tool_call_chunk) h
  from_sse-event_name (tool_authorization_request e) text h =
      ap (parsed_as (codes "ToolAuthorizationRequestEvent") tool_authorization_request) h
  from_sse-event_name (tool_authorization_response e) text h =
      ap (parsed_as (codes "ToolAuthorizationResponseEvent") tool_authorization_response) h
  from_sse-event_name (authorization_status e) text h =
      ap (parsed_as (codes "AuthorizationStatusEvent") authorization_status) h
  from_sse-event_name (state_snapshot e) text h =
      ap (parsed_as (codes "StateSnapshotEvent") state_snapshot) h
  from_sse-event_name (state_delta e) text h =
      ap (parsed_as (codes "StateDeltaEvent") state_delta) h
  from_sse-event_name (messages_snapshot e) text h =
      ap (parsed_as (codes "MessagesSnapshotEvent") messages_snapshot) h
  from_sse-event_name (raw e) text h = ap (parsed_as (codes "RawEvent") raw) h
  from_sse-event_name (custom e) text h = ap (parsed_as (codes "CustomEvent") custom) h
  from_sse-event_name (run_started e) text h =
      ap (parsed_as (codes "RunStartedEvent") run_started) h
  from_sse-event_name (run_finished e) text h =
      ap (parsed_as (codes "RunFinishedEvent") run_finished) h
  from_sse-event_name (run_error e) text h = ap (parsed_as (codes "RunErrorEvent") run_error) h
  from_sse-event_name (step_started e) text h =
      ap (parsed_as (codes "StepStartedEvent") step_started) h
  from_sse-event_name (step_finished e) text h =
      ap (parsed_as (codes "StepFinishedEvent") step_finished) h
