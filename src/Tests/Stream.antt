-- ===== src/Tests/Stream.antt =====
-- Tests of the stream that a client gets: crates/gola-core/src/ag_ui_handler.rs and crates/gola-agent-client.
use gola.Prelude.{
  ℕ, ◌≡◌, refl, false, Option, none, some, List, [], ◌∷◌, Text, codes, ◌⊎◌, inl, inr, same, ◌==◌,
  decimal, if◌then◌else◌,
}
use gola.Agent.{allow}
use gola.Agent.Step.Asked.{granted}
use gola.AgUi.Types.{ℤ, RunAgentInput, new_user, new_assistant}
use gola.AgUi.Events.{
  Event, run_error, run_started, new_run_error, new_run_started, RunErrorEvent, text_message_start,
  text_message_content, text_message_end, new_text_message_start, new_text_message_content,
  new_text_message_end, run_finished, new_run_finished,
}
use gola.AgUi.Handler.{
  done, failed, invalid_input, handle_input, validate_input, task_to_run, connect_message,
  last_user,
}
use gola.AgUi.Handler.Protocol.{before, over, phase_after, handle_input-over}
use gola.AgUi.Handler.Guarded.{handle_input-granted}
use gola.AgUi.Handler.Input.{validate_input-task_to_run}
use gola.AgUi.Sse.{Serde, event_name, from_ag_ui_event}
use gola.AgUi.Client.{failure, from_gola_event, read_lines, nothing_read}
use gola.AgUi.Client.Received.{IsSent, joined, data_line, name_line, read_lines-direct_events}
use gola.Tests.Run.{program, world, agent, always, question}

abbrev input : Text → RunAgentInput ℕ
input task = record {
  thread_id = codes "thread";
  run_id = codes "run";
  state = 0;
  messages = new_user (codes "m1") task ∷ new_assistant (codes "m2") (codes "Hello") ∷ [];
  tools = [];
  context = [];
  forwarded_props = 0;
}

-- Nothing has come back of an event but the text of an error.
abbrev write_error : Option ℤ → Option ℕ → Text → Option Text → Text ⊎ Text
write_error none none message none = inr (123 ∷ message)
write_error _ _ _ _ = inl []

abbrev read_error : Text → Text ⊎ RunErrorEvent ℕ
read_error [] = inl []
read_error (c ∷ message) = inr (new_run_error message)

abbrev to_string : Event ℕ → Text ⊎ Text
to_string (run_error e) = write_error e.timestamp e.raw_event e.message e.code
to_string _ = inl []

abbrev serde : Serde ℕ
serde = record {
  to_string = to_string;
  read_event = λ t. inl [];
  read_text_message_start = λ t. inl [];
  read_text_message_content = λ t. inl [];
  read_text_message_end = λ t. inl [];
  read_text_message_chunk = λ t. inl [];
  read_tool_call_start = λ t. inl [];
  read_tool_call_args = λ t. inl [];
  read_tool_call_end = λ t. inl [];
  read_tool_call_chunk = λ t. inl [];
  read_tool_authorization_request = λ t. inl [];
  read_tool_authorization_response = λ t. inl [];
  read_authorization_status = λ t. inl [];
  read_state_snapshot = λ t. inl [];
  read_state_delta = λ t. inl [];
  read_messages_snapshot = λ t. inl [];
  read_raw = λ t. inl [];
  read_custom = λ t. inl [];
  read_run_started = λ t. inl [];
  read_run_finished = λ t. inl [];
  read_run_error = read_error;
  read_step_started = λ t. inl [];
  read_step_finished = λ t. inl [];
}

abbrev greeting : Text
greeting = codes "let me think"

unfolded : Unit {0}
unfolding handle_input validate_input task_to_run last_user same decimal
unfolded = tt

-- The first message that is not empty is not the last one of the user: the check takes an input that the
-- handler refuses.
abbrev emptied : RunAgentInput ℕ
emptied = record (input []) {
  messages = new_user (codes "m1") question ∷ new_user (codes "m2") [] ∷ [];
}

emptied_passes : validate_input emptied ≡ done tt
unfolding unfolded
emptied_passes = refl

emptied_refused :
    task_to_run emptied
    ≡ failed (invalid_input (codes "No user message with content found in input"))
unfolding unfolded
emptied_refused = refl

validate_input-task_to_run_example : validate_input (input question) ≡ done tt
validate_input-task_to_run_example = validate_input-task_to_run (input question) question taken
  where
    taken : task_to_run (input question) ≡ done question
    taken = unfold unfolded in refl

abbrev connected : List (Event ℕ)
connected =
    run_started (new_run_started (codes "1") (codes "2"))
    ∷ text_message_start (new_text_message_start (codes "0"))
    ∷ text_message_content
        (new_text_message_content (codes "0") (codes "Hey there! What can I do for you?"))
    ∷ text_message_end (new_text_message_end (codes "0"))
    ∷ run_finished (new_run_finished (codes "1") (codes "2"))
    ∷ []

handle_input-over_example : phase_after before connected ≡ over
handle_input-over_example =
    handle_input-over world (λ t. t) decimal none (some always) (input connect_message)
      (agent allow always) connected greeted
  where
    greeted :
        (handle_input world
          (λ t. t)
          decimal
          none
          (some always)
          (input connect_message)
          (agent allow always)).0
        ≡ done connected
    greeted = unfold unfolded in refl

handle_input-granted_example :
    (handle_input world
      (λ t. t)
      decimal
      none
      (some always)
      (input question)
      (agent allow always)).1.runs
    ≡ granted always
        (handle_input world
          (λ t. t)
          decimal
          none
          (some always)
          (input question)
          (agent allow always)).1.requests
handle_input-granted_example =
    handle_input-granted world (λ t. t) decimal always none (input question) (agent allow always)
      no_run approved
  where
    no_run : (agent allow always).runs ≡ granted always (agent allow always).requests
    no_run = unfold granted in refl

    approved :
        (handle_input world
          (λ t. t)
          decimal
          none
          (some always)
          (input question)
          (agent allow always)).1.all_tools_approved
        ≡ false
    approved = unfold program in unfold handle_input in refl

abbrev first_blank : Text → Text
first_blank [] = []
first_blank (c ∷ cs) = if c == 32 then cs else c ∷ cs

abbrev broke : Event ℕ
broke = run_error (new_run_error (codes "down"))

abbrev frame : List Text
frame = data_line (codes "{down") ∷ name_line (codes "RUN_ERROR") ∷ [] ∷ []

read_lines-direct_events_example :
    read_lines serde first_blank nothing_read (joined serde first_blank (frame ∷ []))
    ≡ failure (codes "down") ∷ []
unfolding from_gola_event
read_lines-direct_events_example =
    read_lines-direct_events serde first_blank (broke ∷ []) (frame ∷ []) (sent, tt)
  where
    sent : IsSent serde first_blank broke frame
    sent =
        unfold event_name in
        record {
          text = codes "{down";
          name = codes "RUN_ERROR";
          sent = unfold from_ag_ui_event in refl;
          back = refl;
          filled = refl;
          text_trimmed = refl;
          name_trimmed = refl;
          framed = inl refl;
        }
