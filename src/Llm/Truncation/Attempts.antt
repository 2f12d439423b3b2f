-- ===== src/Llm/Truncation/Attempts.antt =====
-- What the retries of crates/gola-core/src/llm/context_truncation.rs end with.
use gola.Prelude.{
  ℕ, zero, suc, ◌+◌, ◌≤◌, ◌≡◌, refl, true, false, Option, List, [], ◌∷◌, length, Text, arith,
  Bool-cases, ◌⊎◌, inl, inr, leb,
}
use gola.Core.Types.{Message, LlmResponse}
use gola.Core.Errors.{AgentError, Result, ok, err}
use gola.Llm.Model.{ToolMetadata, Requests, Model}
use gola.Llm.Truncation.{
  Scale, ContextTruncatingLlm, is_context_or_rate_limit_error, failed_after, truncate_messages,
  attempts, generate,
}

module _ {F : Type 0} (f32 : Scale F) (to_lowercase : Text → Text) {V : Type 0} (model : Model V)
    (t : ContextTruncatingLlm F) (tools : Option (List (ToolMetadata V))) where
  -- What an error that `generate` ends with may be: an error of the model that is not about the
  -- context, as it is, or one that is, with the number of the attempts.
  abbrev pub IsReported : AgentError → AgentError → Type 0
  IsReported e failure =
      ((is_context_or_rate_limit_error to_lowercase e ≡ false) × (failure ≡ e))
      ⊎ ((is_context_or_rate_limit_error to_lowercase e ≡ true)
          × (k : ℕ) × (1 ≤ k)
          × (k ≤ t.max_retries + 1)
          × (failure ≡ failed_after k e))

  abbrev pub IsOutcome : Result (LlmResponse V) → Type 0
  IsOutcome (ok response) = (sent : Requests V) × (model sent ≡ ok response)
  IsOutcome (err failure) =
      (e : AgentError) × (sent : Requests V) × (model sent ≡ err e) × IsReported e failure

  attempts-IsOutcome_from :
      (left n : ℕ) (sent : Requests V) (ms : List (Message V)) (factor : F)
      (r : Result (LlmResponse V))
      → left + n ≡ t.max_retries
      → model (record { messages = ms; tools = tools } ∷ sent) ≡ r
      → IsOutcome (attempts f32 to_lowercase left n t model sent ms tools factor).0
  unfolding attempts
  attempts-IsOutcome_from zero n sent ms factor (ok response) h k = rw (k, k) (_, k)
  attempts-IsOutcome_from zero n sent ms factor (err e) h k =
      elim (Bool-cases (is_context_or_rate_limit_error to_lowercase e)) [
        | inl i ↦ rw (k, i) (e, _, k, inr (i, t.max_retries + 1, omega arith, omega arith, refl))
        | inr i ↦ rw (k, i, k) (e, _, k, inl (i, refl))
      ]
  attempts-IsOutcome_from (suc left) n sent ms factor (ok response) h k = rw (k, k) (_, k)
  attempts-IsOutcome_from (suc left) n sent ms factor (err e) h k =
      let cut =
        truncate_messages f32 t model (record { messages = ms; tools = tools } ∷ sent) ms factor in
      elim (Bool-cases (is_context_or_rate_limit_error to_lowercase e)) [
        | inl i ↦ elim (Bool-cases (leb (length cut.0) t.min_messages)) [
          | inl j ↦ rw (k, i, j) (e, _, k, inr (i, n + 1, omega arith, omega arith, refl))
          | inr j ↦
              rw (k, i, j)
                (attempts-IsOutcome_from left (suc n) cut.1 cut.0 (f32.grow factor)
                  (model (record { messages = cut.0; tools = tools } ∷ cut.1)) (omega arith) refl)
        ]
        | inr i ↦ rw (k, i, k) (e, _, k, inl (i, refl))
      ]

  -- `generate` ends with a response that the model gave, with an error that the model gave and that
  -- is not about the context, or, for one that is, with an error that holds it and a number of
  -- attempts from 1 to one more than the retries: it never reports what the model did not say.
  pub generate-IsOutcome :
      (ms : List (Message V)) → IsOutcome (generate f32 to_lowercase t model [] ms tools).0
  unfolding generate
  generate-IsOutcome ms =
      attempts-IsOutcome_from t.max_retries 0 [] ms t.truncation_ratio _ (omega arith) refl
