-- ===== src/Tests/Control.antt =====
-- Tests of the control plane of crates/gola-core/src/tools/control_plane, and of the window that an
-- agent sends the model.
use gola.Prelude.{
  ℕ, ◌≤◌, ◌≡◌, ◌↔◌, refl, ap, lookup, put, remove, false, Option, none, some, List, [], ◌∷◌, ◌++◌,
  arith, Every, Text, codes, inr, length, same, is_empty, if◌then◌else◌, ◌==◌,
}
use gola.Core.Types.{ToolCall, action}
use gola.Core.Errors.{ok, err, internal_error}
use gola.Agent.{Agent, allow}
use gola.Agent.World.{World}
use gola.Agent.Tools.{add_step}
use gola.Agent.Dispatch.{control_content}
use gola.Agent.Step.{run}
use gola.Agent.Records.{AllOrphaned, find_orphaned_tool_responses-run}
use gola.Agent.Step.Window.{HoldsAtMost, IsShort, run-window}
use gola.Loops.{is_problematic, new_record}
use gola.Loops.Detector
use gola.Agent.Construction.{AnyMemory, default, boxed, new}
use gola.Control.{
  AssistantDoneParams, success, ReportProgressParams, awaiting_input, Serde, validate_params,
  server,
}
use gola.Control.Calls.{detected}
use gola.Control.Done.{validate_params_iff, done_call}
use gola.Control.Progress.{progress_call}
use gola.Tests.Run.{Memory, world, always, agent, question}

abbrev params : AssistantDoneParams ℕ
params = record {
  summary = codes "All tasks are done";
  final_artifact_id = none;
  metrics = none;
  status = success;
}

abbrev waiting : ReportProgressParams
waiting = record { reason = awaiting_input; context = some (codes "Which airport?") }

-- The texts of the responses begin with their kind.
abbrev serde : Serde ℕ ℕ
serde = record {
  done_params = λ v. inr params;
  done_text = λ r. inr (codes "done: " ++ r.summary);
  progress_params = λ v. inr waiting;
  progress_text = λ r. inr (codes "progress");
  now = codes "2025-01-01T00:00:00Z";
  done_schema = 0;
  progress_schema = 0;
}

abbrev parsed : Text → Option ℕ
parsed [] = none
parsed (c ∷ cs) = if c == 100 then some 1 else if c == 112 then some 2 else none

abbrev strings : ℕ → Text → Option Text
strings v key =
    if v == 1
    then some (codes "All tasks are done")
    else if length key == 7
    then some (codes "Which airport?")
    else none

abbrev controlled : World ℕ Memory
controlled = record world {
  control_tools = server serde world.trim;
  json = record { from_str = parsed; get_str = strings };
}

validate_params_iff_example : (validate_params {F = ℕ} world.trim params ≡ ok tt) ↔ (
    (is_empty (world.trim params.summary) ≡ false)
    × (10 ≤ length params.summary)
    × (length params.summary ≤ 1000))
validate_params_iff_example = validate_params_iff world.trim params

abbrev later : List (ToolCall ℕ)
later = progress_call controlled serde none 0 ∷ []

abbrev fresh : Agent ℕ Memory
fresh = agent allow always

program : Unit {0}
unfolding add_step Detector.add_tool_call Detector.add_record Detector.detect_patterns
    Detector.detect_exact_matches Detector.detect_similar_patterns
    Detector.detect_suspicious_patterns new_record lookup put remove same
program = tt

-- The detector does not object to the first call of an agent.
done_quiet :
    let call = done_call controlled serde none 0 in
    is_problematic (detected controlled call 0 (add_step (action call) fresh)).1 ≡ false
unfolding program
done_quiet = refl

progress_quiet :
    let call = progress_call controlled serde none 0 in
    is_problematic (detected controlled call 0 (add_step (action call) fresh)).1 ≡ false
unfolding program
progress_quiet = refl

valid : validate_params {F = ℕ} world.trim params ≡ ok tt
unfolding validate_params
valid = refl

-- The user is asked which airport, and the loop goes on.
shown :
    control_content controlled (codes "report_progress") (codes "progress") ≡ codes "Which airport?"
unfolding control_content same
shown = refl

not_json : parsed (control_content controlled (codes "report_progress") (codes "progress")) ≡ none
not_json = ap parsed shown

abbrev windowed : World ℕ (AnyMemory ℕ)
windowed = record {
  model = world.model;
  tools = world.tools;
  control_tools = [];
  code_executor = none;
  F32 = ℕ;
  rag_system = none;
  memory = boxed (λ ms. err (internal_error (codes "unused")));
  json = world.json;
  trim = world.trim;
  hashes = world.hashes;
  scores = world.scores;
  percent = world.percent;
  clock = world.clock;
}

abbrev created : Agent ℕ (AnyMemory ℕ)
created = new default

window_of_ten : HoldsAtMost 10 created.memory
unfolding new
window_of_ten = (refl, omega arith)

sent_nothing : Every (IsShort 10) created.sent
unfolding new
sent_nothing = tt

run-window_example : Every (IsShort 10) (run windowed question created).1.sent
run-window_example =
    run-window windowed (λ ms. err (internal_error (codes "unused"))) 10 refl question created
      (omega arith) window_of_ten sent_nothing

-- The model of this run calls two tools before it answers.
find_orphaned_tool_responses-run_example : Every AllOrphaned (run windowed question created).1.sent
unfolding new
find_orphaned_tool_responses-run_example =
    find_orphaned_tool_responses-run windowed (λ ms. err (internal_error (codes "unused"))) refl
      question created tt tt
