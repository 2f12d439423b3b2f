-- ===== src/Tests/Agent.antt =====
-- Tests of crates/gola-core/src/agent.rs. The memory is the list of the messages.
use gola.Prelude.{
  ℕ, ◌≡◌, refl, Bool, true, false, Option, none, some, List, [], ◌∷◌, map, Text, codes, length, leb,
  if◌then◌else◌, same,
}
use gola.Core.Types.{Message}
use gola.Core.Errors.{Result, ok, err, internal_error}
use gola.Agent.{
  AuthorizationMode, ask, allow, all, no, AuthorizationContext, AuthorizationRequest, Handler,
  Agent, check_tool_authorization, add_tool_observation,
}
use gola.Agent.Authorization.{check_all, check_all-all}
use gola.Agent.Observations.{observe_all}
use gola.Loops.{default_config}
use gola.Loops.Detector

-- A user who answers the first two requests with `No`, and then with `All`.
abbrev hesitant : Handler ℕ
hesitant requests = if leb (length requests) 2 then ok no else ok all

abbrev Memory : Type 0
Memory = List (Message ℕ)

abbrev in_mode : AuthorizationMode → Agent ℕ Memory
in_mode mode = record {
  max_steps = 10;
  authorization_mode = mode;
  authorization_handler = some hesitant;
  all_tools_approved = false;
  history = [];
  last_tool_error = none;
  consecutive_error_count = 0;
  memory = [];
  system_prompt = none;
  enable_rag = false;
  consecutive_tool_failures = [];
  loop_detector = Detector.new default_config;
  requests = [];
  sent = [];
  runs = [];
}

abbrev calculator : AuthorizationContext ℕ
calculator = record {
  tool_name = codes "calculator";
  tool_description = codes "adds";
  tool_arguments = 0;
  tool_call_id = some (codes "call_1");
}

program : Unit {0}
unfolding check_all check_tool_authorization observe_all add_tool_observation
program = tt

abbrev four : List (AuthorizationContext ℕ × ℕ)
four = (calculator, 0) ∷ (calculator, 1) ∷ (calculator, 2) ∷ (calculator, 3) ∷ []

answers : (check_all (in_mode ask) four).0 ≡ ok false ∷ ok false ∷ ok true ∷ ok true ∷ []
unfolding program
answers = refl

asked_three_times : length (check_all (in_mode ask) four).1.requests ≡ 3
unfolding program
asked_three_times = refl

-- The agent after two requests.
abbrev decided : Agent ℕ Memory
decided =
    let request : AuthorizationRequest ℕ = record {
      context = calculator;
      step_number = 0;
      max_steps = 10;
    } in
    record (in_mode ask) { requests = request ∷ request ∷ [] }

check_all-all_example :
    check_all (check_tool_authorization decided calculator 2).1 four
    ≡ (map (λ _. ok true) four, (check_tool_authorization decided calculator 2).1)
check_all-all_example = check_all-all decided hesitant calculator 2 four refl refl refl refl

-- A memory that refuses every message.
abbrev full : Memory → Message ℕ → Result (Unit {0}) × Memory
full memory m = (err (internal_error (codes "full")), memory)

abbrev outcomes : List (Option Text × Text × Bool)
outcomes =
    (some (codes "call_1"), codes "4", true)
    ∷ (some (codes "call_2"), codes "timeout", false)
    ∷ (none, codes "timeout", false)
    ∷ []

twice : (observe_all full (in_mode allow) outcomes).consecutive_error_count ≡ 2
unfolding program same
twice = refl
