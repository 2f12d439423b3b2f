-- ===== src/Config/Validation/Retry.antt =====
-- What the attempts of crates/gola-core/src/config/validation.rs come to: the correction is made at most once.
use gola.Prelude.{
  ℕ, zero, suc, ◌<◌, arith, ◌≡◌, refl, ap, ap₂, ◌∙◌, Bool, true, false, Bool-cases, Option, none,
  some, List, [], ◌∷◌, ◌⊎◌, inl, inr, Text, if◌then◌else◌,
}
use gola.Core.Errors.{Result, ok, err, ◌>>=◌}
use gola.Config.Validation.{
  JsonSchema, Json, SchemaValidator, or_value, parsed_value, corrected_text, corrected,
  corrected_entries, with_entries, attempt_auto_correction, validate_output, settle_attempt,
  retry_loop, validate_output_with_retry,
}

-- What serde_json promises: an object has the entries that it was given, and is the object of
-- its own entries; a number and a Boolean value are neither texts nor null.
pub record JsonLaws {V N F I : Type 0} (json : Json V N F I) : Type 0 where
  pub as_object-entries :
      (v : V) (m : List (Text × V))
      → json.as_object v ≡ some m
      → json.as_object (json.entries v (corrected_entries json m)) ≡ some (corrected_entries json m)
  pub entries_own : (v : V) (m : List (Text × V)) → json.as_object v ≡ some m → json.entries v m ≡ v
  pub as_string-number : (n : N) → json.as_string (json.number n) ≡ none
  pub as_string-bool : (b : Bool) → json.as_string (json.bool b) ≡ none
  pub is_null-number : (n : N) → json.is_null (json.number n) ≡ false
  pub is_null-bool : (b : Bool) → json.is_null (json.bool b) ≡ false

module _ {V N F I : Type 0} (json : Json V N F I) (laws : JsonLaws json) where
  -- A corrected value is the value, or neither a text nor null.
  abbrev IsDone : V → V → Type 0
  IsDone v w = (w ≡ v) ⊎ ((json.as_string w ≡ none) × (json.is_null w ≡ false))

  or_value-IsDone : (v : V) (n : Option N) → IsDone v (or_value json v n)
  or_value-IsDone v none = inl refl
  or_value-IsDone v (some n) = inr (laws.as_string-number n, laws.is_null-number n)

  bool-IsDone : (v w : V) (b c : Bool) → IsDone v w → IsDone v (if c then json.bool b else w)
  bool-IsDone v w b true h = inr (laws.as_string-bool b, laws.is_null-bool b)
  bool-IsDone v w b false h = h

  parsed_value-IsDone :
      (v : V) (s : Text) (f : Option F) (i : Option I) → IsDone v (parsed_value json v s f i)
  parsed_value-IsDone v s (some num) i = or_value-IsDone v (json.from_f64 num)
  parsed_value-IsDone v s none (some n) =
      inr (laws.as_string-number (json.from_i64 n), laws.is_null-number (json.from_i64 n))
  parsed_value-IsDone v s none none = bool-IsDone v _ true _ (bool-IsDone v v false _ (inl refl))

  corrected_text-IsDone : (v : V) (s : Option Text) → IsDone v (corrected_text json v s)
  corrected_text-IsDone v none = inl refl
  corrected_text-IsDone v (some s) = parsed_value-IsDone v s (json.parse_f64 s) (json.parse_i64 s)

  corrected-corrected : (v : V) → corrected json (corrected json v) ≡ corrected json v
  unfolding corrected
  corrected-corrected v = elim (corrected_text-IsDone v (json.as_string v)) [
    | inl e ↦ ap (corrected json) e
    | inr h ↦ ap (corrected_text json _) h.0
  ]

  is_null-corrected : (v : V) → json.is_null v ≡ false → json.is_null (corrected json v) ≡ false
  unfolding corrected
  is_null-corrected v n = elim (corrected_text-IsDone v (json.as_string v)) [
    | inl e ↦ ap json.is_null e ∙ n
    | inr h ↦ h.1
  ]

  corrected_entries_twice :
      (m : List (Text × V))
      → corrected_entries json (corrected_entries json m) ≡ corrected_entries json m
  corrected_entries_twice [] = refl
  corrected_entries_twice ((k, v) ∷ m) = elim (Bool-cases (json.is_null v)) [
    | inl n ↦ rw n (corrected_entries_twice m)
    | inr n ↦
        rw (n, is_null-corrected v n)
          (ap₂ (λ w r. (k, w) ∷ r) (corrected-corrected v) (corrected_entries_twice m))
  ]

  abbrev pub correct : V → V
  correct v = with_entries json v (json.as_object v)

  with_entries_twice :
      (v : V) (o : Option (List (Text × V)))
      → json.as_object v ≡ o
      → correct (with_entries json v o) ≡ with_entries json v o
  with_entries_twice v none h = ap (with_entries json v) h
  with_entries_twice v (some m) h =
      let w = json.entries v (corrected_entries json m) in
      ap (with_entries json w) (laws.as_object-entries v m h)
      ∙ ap (json.entries w) (corrected_entries_twice m)
      ∙ laws.entries_own w (corrected_entries json m) (laws.as_object-entries v m h)

  correct-correct : (v : V) → correct (correct v) ≡ correct v
  correct-correct v = with_entries_twice v (json.as_object v) refl

  module _ {S : Type 0} (schemas : JsonSchema V S) where
    -- One validation, which gives the value back.
    abbrev pub checked : SchemaValidator S → V → Result V
    checked v value = validate_output schemas v value >>= λ _. ok value

    abbrev pub or_else : Result V → Result V → Result V
    or_else (ok w) r = ok w
    or_else (err _) r = r

    settle_attempt-fixed :
        (left : ℕ) (retry : V → Result V) (value : V) (r : Result (Unit {0}))
        → (retry value ≡ (r >>= λ _. ok value))
        → correct value ≡ value
        → settle_attempt schemas json true left retry value r ≡ (r >>= λ _. ok value)
    unfolding attempt_auto_correction
    settle_attempt-fixed left retry value (ok tt) h e = refl
    settle_attempt-fixed zero retry value (err x) h e = refl
    settle_attempt-fixed (suc left) retry value (err x) h e = ap retry e ∙ h

    retry_loop-fixed :
        (v : SchemaValidator S) (left : ℕ) (value : V)
        → correct value ≡ value
        → retry_loop schemas json v true (suc left) value ≡ checked v value
    unfolding retry_loop
    retry_loop-fixed v zero value e = last (validate_output schemas v value)
      where
        last :
            (r : Result (Unit {0}))
            → settle_attempt schemas json true zero (retry_loop schemas json v true zero) value r
              ≡ (r >>= λ _. ok value)
        last (ok tt) = refl
        last (err x) = refl
    retry_loop-fixed v (suc left) value e =
        settle_attempt-fixed (suc left) (retry_loop schemas json v true (suc left)) value
          (validate_output schemas v value) (retry_loop-fixed v left value e) e

    settle_attempt_lem :
        (auto_correct : Bool) (left : ℕ) (retry : V → Result V) (value : V) (r : Result (Unit {0}))
        (second : Result V)
        → retry (correct value) ≡ second
        → settle_attempt schemas json auto_correct (suc left) retry value r
          ≡ (if auto_correct then or_else (r >>= λ _. ok value) second else r >>= λ _. ok value)
    unfolding attempt_auto_correction
    settle_attempt_lem true left retry value (ok tt) second h = refl
    settle_attempt_lem true left retry value (err x) second h = h
    settle_attempt_lem false left retry value (ok tt) second h = refl
    settle_attempt_lem false left retry value (err x) second h = refl

    retry_loop_lem :
        (v : SchemaValidator S) (left : ℕ) (value : V) (auto_correct : Bool)
        → retry_loop schemas json v auto_correct (suc (suc left)) value ≡ (
            if auto_correct
            then or_else (checked v value) (checked v (correct value))
            else checked v value)
    unfolding retry_loop
    retry_loop_lem v left value true =
        settle_attempt_lem true left (retry_loop schemas json v true (suc left)) value
          (validate_output schemas v value) (checked v (correct value))
          (retry_loop-fixed v left (correct value) (correct-correct value))
    retry_loop_lem v left value false =
        settle_attempt_lem false left (retry_loop schemas json v false (suc left)) value
          (validate_output schemas v value) _ refl

    -- From two attempts on their number makes no difference. Without auto_correct the value is checked
    -- once. With it, a value that the schema does not take is corrected, and the corrected value
    -- is checked once: what it gives, the value or the error, is the result. The condition: serde_json
    -- keeps `JsonLaws`.
    pub validate_output_with_retry_lem :
        (v : SchemaValidator S) (value : V) (auto_correct : Bool)
        → 1 < v.config.max_validation_attempts
        → validate_output_with_retry schemas json v value auto_correct ≡ (
            if auto_correct
            then or_else (checked v value) (checked v (correct value))
            else checked v value)
    unfolding validate_output_with_retry
    validate_output_with_retry_lem v value auto_correct h =
        by_attempts v.config.max_validation_attempts h
      where
        by_attempts :
            (n : ℕ)
            → 1 < n
            → retry_loop schemas json v auto_correct n value ≡ (
                if auto_correct
                then or_else (checked v value) (checked v (correct value))
                else checked v value)
        by_attempts zero h = absurd (omega arith)
        by_attempts (suc zero) h = absurd (omega arith)
        by_attempts (suc (suc left)) h = retry_loop_lem v left value auto_correct
