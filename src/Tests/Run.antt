-- ===== src/Tests/Run.antt =====
-- Tests of the loop of crates/gola-core/src/agent.rs, with a calculator, a tool that is down, and a
-- model that calls for both before it answers.
use gola.Prelude.{
  ℕ, ◌+◌, ◌≤◌, ◌≡◌, refl, false, none, some, List, [], ◌∷◌, ◌++◌, arith, Text, codes, length, leb,
  inl, decimal, lookup, put, remove, has, split_on, ◌==◌, text_key, same, if◌then◌else◌,
}
use gola.Core.Types.{ToolCall, Message, LlmResponse}
use gola.Core.Errors.{ok, err, internal_error, display}
use gola.Core.Action.{◌>>=◌}
use gola.Llm.Model.{Model}
use gola.Loops.{default_config, ToolCallRecord, new_record}
use gola.Loops.Counts.{add_records}
use gola.Loops.Detector
use gola.Agent.{
  note_outcome, AuthorizationMode, ask, allow, yes, no, Handler, Agent, check_tool_authorization,
  add_tool_observation,
}
use gola.Agent.World.{Tool, World}
use gola.Agent.Tools.{
  failures_of, is_authorized, execute_generic_tool, unless_failing, find_generic, run_generic,
  run_tool, settle_generic, clear_failures, count_failure, note_run, observe,
}
use gola.Agent.Dispatch.{retrieve_rag_context, execute_tool}
use gola.Agent.Step.{run}
use gola.Agent.Step.Limits.{run-max_steps}
use gola.Agent.Step.Closed.{run-closed}
use gola.Agent.Step.Failing.{runs_of, run-failing}
use gola.Agent.Step.Asked.{granted, run-granted}
use gola.Tests.Loops.{tenths, hashes}

abbrev pub Memory : Type 0
Memory = List (Message ℕ)

abbrev pub call_of : Text → ℕ → ToolCall ℕ
call_of name arguments = record { id = some (codes "call_1"); name = name; arguments = arguments }

abbrev calls_for : List (ToolCall ℕ) → LlmResponse ℕ
calls_for calls = record {
  content = none;
  tool_calls = some calls;
  finish_reason = none;
  usage = none;
}

abbrev said : Text → LlmResponse ℕ
said content = record {
  content = some content;
  tool_calls = none;
  finish_reason = none;
  usage = none;
}

abbrev both : List (ToolCall ℕ)
both = call_of (codes "calculator") 7 ∷ call_of (codes "weather") 0 ∷ []

abbrev scripted : Model ℕ
scripted sent =
    if leb (length sent) 2 then ok (calls_for both) else ok (said (codes "Done. Final Answer: 14"))

abbrev trim_start : Text → Text
trim_start [] = []
trim_start (c ∷ cs) = if c == 32 then trim_start cs else c ∷ cs

abbrev doubles : Tool ℕ
doubles = record {
  metadata = record { name = codes "calculator"; description = codes "doubles"; input_schema = 0 };
  execute = λ log v. ok (codes "14");
}

abbrev down : Tool ℕ
down = record {
  metadata = record { name = codes "weather"; description = codes "forecasts"; input_schema = 0 };
  execute = λ log v. err (internal_error (codes "down"));
}

abbrev pub world : World ℕ Memory
world = record {
  model = scripted;
  tools = (codes "calculator", doubles) ∷ (codes "weather", down) ∷ [];
  control_tools = [];
  code_executor = none;
  F32 = ℕ;
  rag_system = none;
  memory = record {
    add_message = λ held m. (ok tt, held ++ m ∷ []);
    get_context = λ held. held;
    clear = λ held. [];
  };
  json = record { from_str = λ t. none; get_str = λ v key. none };
  trim = trim_start;
  hashes = hashes;
  scores = tenths;
  percent = λ score. codes "100.0";
  clock = λ n. 1000 + n;
}

abbrev pub always : Handler ℕ
always requests = ok yes

abbrev never : Handler ℕ
never requests = ok no

abbrev pub agent : AuthorizationMode → Handler ℕ → Agent ℕ Memory
agent mode handler = record {
  max_steps = 5;
  authorization_mode = mode;
  authorization_handler = some handler;
  all_tools_approved = false;
  history = [];
  last_tool_error = none;
  consecutive_error_count = 0;
  memory = [];
  system_prompt = none;
  enable_rag = false;
  consecutive_tool_failures = [];
  loop_detector = Detector.new default_config;
  requests = [];
  sent = [];
  runs = [];
}

abbrev pub question : Text
question = codes "2 * 7"

unfoldable pub program : Unit {0}
unfolding run retrieve_rag_context split_on has decimal display ◌>>=◌ execute_tool
    execute_generic_tool unless_failing find_generic run_generic run_tool settle_generic
    clear_failures count_failure note_run observe is_authorized check_tool_authorization
    note_outcome add_tool_observation Detector.add_tool_call lookup put remove same
    Detector.add_record Detector.detect_patterns Detector.detect_exact_matches
    Detector.detect_similar_patterns Detector.detect_suspicious_patterns new_record
program = tt

answers : (run world question (agent ask always)).0 ≡ ok (codes "14")
unfolding program
answers = refl

-- The second failure of the weather is its last: the tools ran four times for five requests.
ran_four_times : length (run world question (agent ask always)).1.runs ≡ 4
unfolding program
ran_four_times = refl

run-max_steps_example :
    length (run world question (agent ask always)).1.sent ≤ length (agent ask always).sent + 5
run-max_steps_example = run-max_steps world question (agent ask always)

run-closed_example : (run world question (agent ask never)).1.runs ≡ (agent ask never).runs
run-closed_example = run-closed world question (agent ask never) (refl, λ rs. inl refl)

run-granted_example :
    (run world question (agent ask always)).1.runs
    ≡ granted always (run world question (agent ask always)).1.requests
run-granted_example = run-granted always world question (agent ask always) refl refl no_run approved
  where
    no_run : (agent ask always).runs ≡ granted always (agent ask always).requests
    no_run = unfold granted in refl

    approved : (run world question (agent ask always)).1.all_tools_approved ≡ false
    approved = unfold program in refl

-- The agent after two calls of a tool that is down.
abbrev tired : Agent ℕ Memory
tired = record (agent allow always) { consecutive_tool_failures = (codes "weather", 2) ∷ [] }

failing : 2 ≤ failures_of (codes "weather") tired
unfolding lookup same
failing = omega arith

run-failing_example :
    (2 ≤ failures_of (codes "weather") (run world question tired).1)
    × (runs_of (codes "weather") (run world question tired).1.runs
        ≡ runs_of (codes "weather") tired.runs)
run-failing_example = run-failing (codes "weather") world question tired (failing)

-- The log of a tool that was called four times with the same arguments.
abbrev four : List (ToolCallRecord ℕ)
four = let r = new_record hashes 1000 (codes "weather") 0 0 in r ∷ r ∷ r ∷ r ∷ []

abbrev stuck : Agent ℕ Memory
stuck = record (agent allow always) {
  loop_detector = add_records (Detector.new default_config) four;
}

-- A model that answers at once.
abbrev pub quick : World ℕ Memory
quick = record world { model = λ sent. ok (said (codes "14")) }
