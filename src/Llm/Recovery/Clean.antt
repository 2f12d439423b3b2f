-- ===== src/Llm/Recovery/Clean.antt =====
-- What crates/gola-core/src/llm/auto_recovery_llm.rs sends to the model has no orphaned call and no
-- orphaned response, in the sense of crates/gola-core/src/llm/message_validator.rs.
use gola.Prelude.{
  ℕ, zero, suc, ◌≡◌, ap, true, Option, none, some, List, [], Bool-cases, inl, inr, Text, Every,
  if◌then◌else◌, ◌==◌,
}
use gola.Core.Types.{Message, LlmResponse}
use gola.Core.Errors.{AgentError, llm_error, Result, ok, err}
use gola.Llm.Model.{ToolMetadata, Requests, Model, ask}
use gola.Llm.Validator.{detect_issues, validate_and_fix}
use gola.Llm.Validator.Sound.{validate_and_fix_repairs}
use gola.Llm.Recovery.{
  AutoRecoveryLlm, all_failed, fallback_messages, progressive_fallback,
  recover_from_tool_calls_error, recovered_messages, attempt_recovery, attempt, retry,
  validated_messages, generate, is_tool_calls_validation_error, is_recoverable_400_error,
}
use gola.Llm.Recovery.Plain.{OnSome, IsPlain, detect_issues-plain, fallback_messages-IsPlain}

abbrev OnOk : {A : Type 0} → (A → Type 0) → Result A → Type 0
OnOk P (err _) = Unit
OnOk P (ok x) = P x

module _ (debug_ids : List Text → Text) (captures : Text → ℕ → Text → List Text) {V : Type 0} where
  abbrev pub IsClean : List (Message V) → Type 0
  IsClean ms = detect_issues debug_ids ms ≡ []

  abbrev pub AllClean : Requests V → Type 0
  AllClean = Every (λ request. IsClean request.messages)

  abbrev Leaves : Result (LlmResponse V) × Requests V → Type 0
  Leaves r = AllClean r.1

  module _ (a : AutoRecoveryLlm) (fixes : a.validator.auto_fix ≡ true) where
    fix-OnOk : (ms : List (Message V)) → OnOk IsClean (validate_and_fix debug_ids a.validator ms)
    fix-OnOk ms = let r = validate_and_fix_repairs debug_ids a.validator ms fixes in rw r.1 r.2

    validated_messages-ok :
        (ms fixed : List (Message V))
        → validate_and_fix debug_ids a.validator ms ≡ ok fixed
        → validated_messages debug_ids captures a ms ≡ fixed
    unfolding validated_messages
    validated_messages-ok ms fixed h =
        ap (λ (o : Result (List (Message V))). elim o [ ok ns ↦ ns | err _ ↦ ms ]) h

    validated-IsClean :
        (ms : List (Message V)) → IsClean (validated_messages debug_ids captures a ms)
    validated-IsClean ms =
        let r = validate_and_fix_repairs debug_ids a.validator ms fixes in
        rw (validated_messages-ok ms r.0 r.1) r.2

    recovered-OnOk :
        (ms : List (Message V)) (e : AgentError)
        → OnOk IsClean (recovered_messages debug_ids captures a ms e)
    unfolding recovered_messages recover_from_tool_calls_error
    recovered-OnOk ms e = elim (Bool-cases (is_tool_calls_validation_error e)) [
      | inl h ↦
          rw h
            (elim e
              as (λ e. OnOk IsClean (elim e [
                | llm_error msg ↦ recover_from_tool_calls_error debug_ids captures a ms msg
                | other ↦ err other
              ])) [ llm_error msg ↦ fix-OnOk _ | _ ↦ tt ])
      | inr h ↦ rw h (elim (Bool-cases (is_recoverable_400_error e)) [
        | inl k ↦ rw k (fix-OnOk ms)
        | inr k ↦ rw k tt
      ])
    ]

    module _ (model : Model V) (tools : Option (List (ToolMetadata V))) where
      attempt_recovery-AllClean :
          (sent : Requests V) (ms : List (Message V)) (e : AgentError)
          → AllClean sent
          → AllClean (attempt_recovery debug_ids captures a model sent ms tools e).1
      unfolding attempt_recovery
      attempt_recovery-AllClean sent ms e h =
          elim (recovered_messages debug_ids captures a ms e)
              as (λ o.
                OnOk IsClean o
                → Leaves (elim o [
                  | err failure ↦ (err failure, sent)
                  | ok ns ↦ ask model sent ns tools
                ])) [ err failure ↦ λ _. h | ok ns ↦ λ k. (k, h) ]
            (recovered-OnOk ms e)

      fallback-AllClean :
          (sent : Requests V) (ms : List (Message V)) (n : ℕ)
          → AllClean sent
          → AllClean (progressive_fallback model sent ms n).1
      unfolding progressive_fallback
      fallback-AllClean sent ms n h =
          elim (fallback_messages n ms)
              as (λ o.
                OnSome (Every IsPlain) o
                → Leaves (elim o [
                  | some ns ↦ ask model sent ns none
                  | none ↦ (err (llm_error all_failed), sent)
                ])) [ none ↦ λ _. h | some ns ↦ λ k. (detect_issues-plain debug_ids ns k, h) ]
            (fallback_messages-IsPlain n ms)

      attempt-AllClean :
          (sent : Requests V) (ms : List (Message V)) (e : AgentError) (n : ℕ)
          → AllClean sent
          → AllClean (attempt debug_ids captures a model sent ms tools e n).1
      unfolding attempt
      attempt-AllClean sent ms e n h = elim (Bool-cases (is_recoverable_400_error e)) [
        | inl k ↦ rw k (attempt_recovery-AllClean sent ms e h)
        | inr k ↦ rw k (fallback-AllClean sent ms n h)
      ]

      retry-AllClean :
          (left : ℕ) (sent : Requests V) (ms : List (Message V)) (e : AgentError) (n : ℕ)
          → AllClean sent
          → AllClean (retry debug_ids captures left a model sent ms tools e n).1
      unfolding retry
      retry-AllClean zero sent ms e n h = h
      retry-AllClean (suc left) sent ms e n h =
          let tried = attempt debug_ids captures a model sent ms tools e n in
          let k = attempt-AllClean sent ms e n h in
          elim tried.0
            as (λ r. Leaves (elim r [
              | ok response ↦ tried
              | err failure ↦
                  if n == a.max_retries
                  then tried
                  else retry debug_ids captures left a model tried.1 ms tools e (suc n)
            ])) [
              | ok response ↦ k
              | err failure ↦ elim (Bool-cases (n == a.max_retries)) [
                | inl i ↦ rw i k
                | inr i ↦ rw i (retry-AllClean left tried.1 ms e (suc n) k)
              ]
            ]

      -- No request that `generate` sends has an orphaned call or an orphaned response, whatever the
      -- messages are and whatever the model answers: not the first one, not the recovered ones and
      -- not the fallbacks. The validator is to repair, which is the default.
      pub generate-AllClean :
          (ms : List (Message V)) → AllClean (generate debug_ids captures a model [] ms tools).1
      unfolding generate
      generate-AllClean ms =
          let k = validated-IsClean ms in
          let validated = validated_messages debug_ids captures a ms in
          let first = ask model [] validated tools in
          elim first.0
            as (λ r. Leaves (elim r [
              | ok response ↦ first
              | err e ↦ retry debug_ids captures a.max_retries a model first.1 validated tools e 1
            ])) [
              | ok response ↦ (k, tt)
              | err e ↦ retry-AllClean a.max_retries first.1 validated e 1 (k, tt)
            ]
