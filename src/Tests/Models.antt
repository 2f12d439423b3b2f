-- ===== src/Tests/Models.antt =====
-- Tests of crates/gola-core/src/llm/auto_recovery_llm.rs and context_truncation.rs beside it.
use gola.Prelude.{
  has, ℕ, ◌+◌, ◌/◌, if◌then◌else◌, ◌≡◌, refl, Bool, true, false, none, some, List, [], ◌∷◌, length,
  Text, codes, leb,
}
use gola.Core.Types.{user, assistant, Message}
use gola.Core.Errors.{AgentError, llm_error, err}
use gola.Llm.Model.{Model}
use gola.Llm.Recovery
use gola.Llm.Recovery.{
  AutoRecoveryLlm, is_tool_calls_validation_error, is_recoverable_400_error, fallback_messages,
  validated_messages,
}
use gola.Llm.Recovery.Clean.{AllClean, generate-AllClean}
use gola.Llm.Truncation
use gola.Llm.Truncation.{
  Scale, ContextTruncatingLlm, last, remove_messages, truncation_notice,
  is_context_or_rate_limit_error,
}
use gola.Llm.Truncation.Attempts.{IsOutcome, generate-IsOutcome}
use gola.Memory.Prompt.{system_message}

abbrev said : Text → Message ℕ
said text = record { role = user; content = text; tool_call_id = none; tool_calls = none }

abbrev calls : Text → Message ℕ
calls id = record {
  role = assistant;
  content = codes "ok";
  tool_call_id = none;
  tool_calls = some (record { id = some id; name = codes "test_tool"; arguments = 0 } ∷ []);
}

abbrev conversation : List (Message ℕ)
conversation = said (codes "hi") ∷ calls (codes "call_1") ∷ said (codes "go on") ∷ []

abbrev debug : List Text → Text
debug ids = []

abbrev captures : Text → ℕ → Text → List Text
captures pattern group text = []

abbrev bad_request : AgentError
bad_request = llm_error (codes "400 Bad Request")

abbrev timeout : AgentError
timeout = llm_error (codes "timeout")

-- A model that is not to be reached.
abbrev down : Model ℕ
down sent = err timeout

recoverable : is_recoverable_400_error bad_request ≡ true
unfolding is_recoverable_400_error has
recoverable = refl

not_recoverable : is_recoverable_400_error timeout ≡ false
unfolding is_recoverable_400_error is_tool_calls_validation_error has
not_recoverable = refl

generate-AllClean_example :
    AllClean debug captures
      (Recovery.generate debug captures Recovery.new down [] conversation none).1
generate-AllClean_example =
    generate-AllClean debug captures Recovery.new refl down none conversation

abbrev stubborn : AutoRecoveryLlm
stubborn = Recovery.with_max_retries Recovery.new 10

-- Halves, rounded up, of which `grow` makes no more.
abbrev halves : Scale Bool
halves = record {
  part = λ n f. if leb n 1 then n else (n + 1) / 2;
  grow = λ f. f;
  bounded = λ f. f;
  half = true;
}

abbrev identity : Text → Text
identity s = s

abbrev too_long : Model ℕ
too_long sent = if leb (length sent) 1 then err (llm_error (codes "429")) else err timeout

generate-IsOutcome_example :
    IsOutcome halves identity too_long
      (Truncation.new halves)
      none
      (Truncation.generate halves identity (Truncation.new halves) too_long [] conversation none).0
generate-IsOutcome_example =
    generate-IsOutcome halves identity too_long (Truncation.new halves) none conversation

abbrev rules : Message ℕ
rules = system_message (codes "You are an agent.")
