-- ===== src/Llm/Recovery/Calls.antt =====
-- How often crates/gola-core/src/llm/auto_recovery_llm.rs calls the model.
use gola.Prelude.{
  ℕ, zero, suc, ◌+◌, ◌≤◌, ◌≡◌, refl, false, Option, none, some, List, [], ◌∷◌, length, Text, arith,
  Bool-cases, inl, inr, if◌then◌else◌, ◌==◌,
}
use gola.Core.Types.{Message, LlmResponse}
use gola.Core.Errors.{AgentError, llm_error, Result, ok, err}
use gola.Llm.Model.{ToolMetadata, Requests, Model, ask}
use gola.Llm.Recovery.{
  AutoRecoveryLlm, all_failed, fallback_messages, progressive_fallback, recovered_messages,
  attempt_recovery, attempt, retry, validated_messages, generate, is_recoverable_400_error,
}

module _ (debug_ids : List Text → Text) (captures : Text → ℕ → Text → List Text) {V : Type 0}
    (a : AutoRecoveryLlm) (model : Model V) (tools : Option (List (ToolMetadata V))) where
  abbrev IsBelow : ℕ → Result (LlmResponse V) × Requests V → Type 0
  IsBelow n r = length r.1 ≤ n

  recovery-IsBelow :
      (sent : Requests V) (ms : List (Message V)) (e : AgentError)
      → IsBelow (suc (length sent)) (attempt_recovery debug_ids captures a model sent ms tools e)
  unfolding attempt_recovery
  recovery-IsBelow sent ms e =
      elim (recovered_messages debug_ids captures a ms e)
        as (λ o.
          IsBelow (suc (length sent))
            (elim o [ err failure ↦ (err failure, sent) | ok ns ↦ ask model sent ns tools ])) [
              | err failure ↦ omega arith
              | ok ns ↦ omega arith
            ]

  fallback-IsBelow :
      (sent : Requests V) (ms : List (Message V)) (n : ℕ)
      → IsBelow (suc (length sent)) (progressive_fallback model sent ms n)
  unfolding progressive_fallback
  fallback-IsBelow sent ms n =
      elim (fallback_messages n ms)
        as (λ o. IsBelow (suc (length sent)) (elim o [
          | some ns ↦ ask model sent ns none
          | none ↦ (err (llm_error all_failed), sent)
        ])) [ none ↦ omega arith | some ns ↦ omega arith ]

  attempt-IsBelow :
      (sent : Requests V) (ms : List (Message V)) (e : AgentError) (n : ℕ)
      → IsBelow (suc (length sent)) (attempt debug_ids captures a model sent ms tools e n)
  unfolding attempt
  attempt-IsBelow sent ms e n = elim (Bool-cases (is_recoverable_400_error e)) [
    | inl h ↦ rw h (recovery-IsBelow sent ms e)
    | inr h ↦ rw h (fallback-IsBelow sent ms n)
  ]

  retry-IsBelow :
      (left : ℕ) (sent : Requests V) (ms : List (Message V)) (e : AgentError) (n : ℕ)
      → IsBelow (left + length sent) (retry debug_ids captures left a model sent ms tools e n)
  unfolding retry
  retry-IsBelow zero sent ms e n = omega arith
  retry-IsBelow (suc left) sent ms e n =
      let tried = attempt debug_ids captures a model sent ms tools e n in
      let once = attempt-IsBelow sent ms e n in
      let rest = retry-IsBelow left tried.1 ms e (suc n) in
      elim tried.0
        as (λ r. IsBelow (suc left + length sent) (elim r [
          | ok response ↦ tried
          | err failure ↦
              if n == a.max_retries
              then tried
              else retry debug_ids captures left a model tried.1 ms tools e (suc n)
        ])) [
          | ok response ↦ omega arith
          | err failure ↦ elim (Bool-cases (n == a.max_retries)) [
            | inl i ↦ rw i (omega arith)
            | inr i ↦ rw i (omega arith)
          ]
        ]

  -- `generate` ends after at most one call of the model and one for each retry.
  pub generate-calls :
      (ms : List (Message V))
      → length (generate debug_ids captures a model [] ms tools).1 ≤ suc a.max_retries
  unfolding generate
  generate-calls ms =
      let validated = validated_messages debug_ids captures a ms in
      let first = ask model [] validated tools in
      elim first.0
        as (λ r. IsBelow (suc a.max_retries) (elim r [
          | ok response ↦ first
          | err e ↦ retry debug_ids captures a.max_retries a model first.1 validated tools e 1
        ])) [
          | ok response ↦ omega arith
          | err e ↦ let rest = retry-IsBelow a.max_retries first.1 validated e 1 in omega arith
        ]

  -- The attempts from the fourth on call the model no more.
  abbrev fallbacks_left : ℕ → ℕ
  fallbacks_left zero = 3
  fallbacks_left (suc zero) = 3
  fallbacks_left (suc (suc zero)) = 2
  fallbacks_left (suc (suc (suc zero))) = 1
  fallbacks_left (suc (suc (suc (suc n)))) = 0

  fallback-few :
      (sent : Requests V) (ms : List (Message V)) (n : ℕ)
      → length (progressive_fallback model sent ms n).1 + fallbacks_left (suc n)
        ≤ fallbacks_left n + length sent
  unfolding progressive_fallback fallback_messages
  fallback-few sent ms zero = omega arith
  fallback-few sent ms (suc zero) = omega arith
  fallback-few sent ms (suc (suc zero)) = omega arith
  fallback-few sent ms (suc (suc (suc zero))) = let once = fallback-IsBelow sent ms 3 in omega arith
  fallback-few sent ms (suc (suc (suc (suc n)))) = omega arith

  attempt-fallback :
      (sent : Requests V) (ms : List (Message V)) (e : AgentError) (n : ℕ)
      → is_recoverable_400_error e ≡ false
      → attempt debug_ids captures a model sent ms tools e n ≡ progressive_fallback model sent ms n
  unfolding attempt
  attempt-fallback sent ms e n h = rw h refl

  retry-few :
      (left : ℕ) (sent : Requests V) (ms : List (Message V)) (e : AgentError) (n : ℕ)
      → is_recoverable_400_error e ≡ false
      → IsBelow
          (fallbacks_left n + length sent)
          (retry debug_ids captures left a model sent ms tools e n)
  unfolding retry
  retry-few zero sent ms e n h = omega arith
  retry-few (suc left) sent ms e n h =
      let tried = attempt debug_ids captures a model sent ms tools e n in
      let once : length tried.1 + fallbacks_left (suc n) ≤ fallbacks_left n + length sent =
        rw (attempt-fallback sent ms e n h) (fallback-few sent ms n) in
      let rest = retry-few left tried.1 ms e (suc n) h in
      elim tried.0
        as (λ r. IsBelow (fallbacks_left n + length sent) (elim r [
          | ok response ↦ tried
          | err failure ↦
              if n == a.max_retries
              then tried
              else retry debug_ids captures left a model tried.1 ms tools e (suc n)
        ])) [
          | ok response ↦ omega arith
          | err failure ↦ elim (Bool-cases (n == a.max_retries)) [
            | inl i ↦ rw i (omega arith)
            | inr i ↦ rw i (omega arith)
          ]
        ]

  -- When the first call fails with an error that is not a recoverable bad request, `generate` calls
  -- the model at most three times more, however many retries are allowed.
  pub generate-fallbacks :
      (ms : List (Message V)) (e : AgentError)
      → model (record { messages = validated_messages debug_ids captures a ms; tools = tools } ∷ [])
        ≡ err e
      → is_recoverable_400_error e ≡ false
      → length (generate debug_ids captures a model [] ms tools).1 ≤ 4
  unfolding generate
  generate-fallbacks ms e fails h = rw fails (retry-few a.max_retries _ _ e 1 h)
