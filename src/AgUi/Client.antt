-- ===== src/AgUi/Client.antt =====
-- The clients of crates/gola-agent-client/src: http_client.rs reads the lines of a response, direct_client.rs asks
-- the handler itself; types.rs has their requests and events. The lines that the server's framework
-- writes for an event, and `str::trim`, are parameters.
pub mod Received
use gola.Prelude.{
  Bool, true, false, Option, none, some, List, [], ◌∷◌, ◌++◌, map, is_empty, drop, length,
  starts_with, Text, codes, if◌then◌else◌,
}
use gola.AgUi.Types.{Message, Tool, Context, RunAgentInput}
use gola.AgUi.Events.{
  Event, text_message_content, text_message_chunk, run_finished, run_error, tool_call_start,
}
use gola.AgUi.Sse.{Serde, AgUiResult, bad, good, from_sse}

pub record StreamRequest (V : Type 0) : Type 0 where
  pub thread_id : Text
  pub run_id : Text
  pub messages : List Message
  pub tools : List (Tool V)
  pub context : List Context
  pub state : V
  pub forwarded_props : V

pub data StreamEvent (V : Type 0) : Type 0 where
  text_delta : Text → StreamEvent V
  tool_call : Text → StreamEvent V
  finished : StreamEvent V
  failure : Text → StreamEvent V
  other : Event V → StreamEvent V

abbrev pub or_default : Option Text → Text
or_default none = []
or_default (some t) = t

module _ {V : Type 0} where
  abbrev pub to_run_agent_input : StreamRequest V → RunAgentInput V
  to_run_agent_input r = record {
    thread_id = r.thread_id;
    run_id = r.run_id;
    messages = r.messages;
    tools = r.tools;
    context = r.context;
    state = r.state;
    forwarded_props = r.forwarded_props;
  }

  unfoldable pub from_gola_event : Event V → StreamEvent V
  from_gola_event (text_message_content e) = text_delta e.delta
  from_gola_event (text_message_chunk e) = text_delta (or_default e.delta)
  from_gola_event (run_finished e) = finished
  from_gola_event (run_error e) = failure e.message
  from_gola_event (tool_call_start e) = tool_call e.tool_call_name
  from_gola_event e = other e

  -- `stream_request` of the client that has the handler at hand.
  abbrev pub direct_events : List (Event V) → List (StreamEvent V)
  direct_events = map from_gola_event

-- What the loop over the lines has read of an event.
pub record Pending : Type 0 where
  pub event_name : Text
  pub payload : Text

abbrev pub nothing_read : Pending
nothing_read = record { event_name = codes "message"; payload = [] }

module _ {V : Type 0} (serde : Serde V) (trim : Text → Text) where
  abbrev pub yielded : AgUiResult (Event V) → List (StreamEvent V)
  unfolding from_gola_event
  yielded (bad e) = []
  yielded (good event) = from_gola_event event ∷ []

  unfoldable pub complete_event : Pending → List (StreamEvent V)
  unfolding from_gola_event from_sse
  complete_event p =
      if is_empty p.payload then [] else yielded (from_sse serde p.event_name p.payload)

  -- A line that is not empty.
  unfoldable pub read_line : Text → Pending → Pending
  read_line line p =
      if starts_with (codes "event:") line
      then record p { event_name = trim (drop 6 line) }
      else if starts_with (codes "data:") line
      then record p {
        payload =
            (if is_empty p.payload then p.payload else p.payload ++ codes "\n")
            ++ trim (drop 5 line);
      }
      else p

  unfoldable pub read_lines : Pending → List Text → List (StreamEvent V)
  unfolding complete_event read_line
  read_lines p [] = []
  read_lines p (line ∷ lines) =
      let at_end = complete_event p ++ read_lines nothing_read lines in
      let inside = read_lines (read_line line p) lines in if is_empty line then at_end else inside
