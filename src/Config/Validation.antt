-- ===== src/Config/Validation.antt =====
-- The schema validator of crates/gola-core/src/config/validation.rs, with its configuration in types.rs. The
-- packages jsonschema and serde_json are parameters: `V` is the type of JSON values, `S` that of
-- compiled schemas, `N` that of JSON numbers, `F` and `I` are `f64` and `i64`. Log lines are left out.
pub mod Retry
use mathlib.Core.Option
use gola.Prelude.{
  ℕ, zero, suc, ◌+◌, Bool, true, false, ◌&&◌, not, Option, none, some, List, [], ◌∷◌, ◌++◌, map,
  is_empty, leb, retain, Text, codes, same, if◌then◌else◌, ◌⊎◌, inl, inr,
}
use gola.Core.Errors.{AgentError, config_error, Result, ok, err, ◌>>=◌}

pub data SchemaSourceType : Type 0 where
  inline file url registry : SchemaSourceType

pub record SchemaSource : Type 0 where
  pub source_type : SchemaSourceType
  pub location : Option Text
  pub version : Option Text
  pub description : Option Text

pub record InputSchemaConfig (V : Type 0) : Type 0 where
  pub schema : V
  pub strict : Bool
  pub error_message : Option Text
  pub source : SchemaSource

pub record OutputSchemaConfig (V : Type 0) : Type 0 where
  pub schema : V
  pub strict : Bool
  pub error_message : Option Text
  pub source : SchemaSource
  pub auto_correct : Bool

pub record SchemaValidationConfig : Type 0 where
  pub log_errors : Bool
  pub include_schema_in_errors : Bool
  pub max_validation_attempts : ℕ
  pub validate_intermediate_steps : Bool

-- An error of jsonschema: the path of the value, and the text.
pub record ValidationError : Type 0 where
  pub instance_path : Text
  pub message : Text

-- `JSONSchema::compile`, with the text of its error, and `validate`: no error, or some.
pub record JsonSchema (V S : Type 0) : Type 0 where
  pub compile : V → Text ⊎ S
  pub validate : S → V → Option (List ValidationError)

-- What the code uses of serde_json, and the two parsers of numbers. `entries v m` is the object `v` with
-- the entries `m`, which are left of its own, in their order, with other values.
pub record Json (V N F I : Type 0) : Type 0 where
  pub as_object : V → Option (List (Text × V))
  pub entries : V → List (Text × V) → V
  pub as_string : V → Option Text
  pub is_null : V → Bool
  pub number : N → V
  pub bool : Bool → V
  pub from_f64 : F → Option N
  pub from_i64 : I → N
  pub parse_f64 : Text → Option F
  pub parse_i64 : Text → Option I

pub record SchemaValidator (S : Type 0) : Type 0 where
  pub input_schema : Option S
  pub output_schema : Option S
  pub config : SchemaValidationConfig

abbrev pub separated : Text → Text → List Text → Text
separated separator text [] = text
separated separator text (t ∷ ts) = text ++ separator ++ separated separator t ts

abbrev pub join : Text → List Text → Text
join separator [] = []
join separator (t ∷ ts) = separated separator t ts

abbrev pub format_error : ValidationError → Text
format_error error =
    let path = if is_empty error.instance_path then codes "root" else error.instance_path in
    codes "At '" ++ path ++ codes "': " ++ error.message

abbrev pub format_validation_errors : List ValidationError → List Text
format_validation_errors = map format_error

abbrev pub ascii_lower : ℕ → ℕ
ascii_lower c = if leb 65 c && leb c 90 then c + 32 else c

abbrev pub eq_ignore_ascii_case : Text → Text → Bool
eq_ignore_ascii_case s t = same (map ascii_lower s) (map ascii_lower t)

module _ {V S : Type 0} (schemas : JsonSchema V S) where
  abbrev pub compiled : Text → Option V → Result (Option S)
  compiled message none = ok none
  compiled message (some schema) = elim (schemas.compile schema) [
    | inl e ↦ err (config_error (message ++ e))
    | inr s ↦ ok (some s)
  ]

  unfoldable pub new :
      Option (InputSchemaConfig V)
      → Option (OutputSchemaConfig V)
      → SchemaValidationConfig
      → Result (SchemaValidator S)
  new input_config output_config validation_config =
      compiled (codes "Invalid input schema: ") (Option.map (λ c. c.schema) input_config)
      >>= λ input_schema.
          compiled (codes "Invalid output schema: ") (Option.map (λ c. c.schema) output_config)
          >>= λ output_schema. ok (record {
            input_schema = input_schema;
            output_schema = output_schema;
            config = validation_config;
          })

  abbrev pub reported : Text → Option (List ValidationError) → Result (Unit {0})
  reported message none = ok tt
  reported message (some errors) =
      err (config_error (message ++ join (codes "; ") (format_validation_errors errors)))

  abbrev pub validate_by : Text → Option S → V → Result (Unit {0})
  validate_by message none value = ok tt
  validate_by message (some schema) value = reported message (schemas.validate schema value)

  unfoldable pub validate_input : SchemaValidator S → V → Result (Unit {0})
  validate_input v value = validate_by (codes "Input validation failed: ") v.input_schema value

  unfoldable pub validate_output : SchemaValidator S → V → Result (Unit {0})
  validate_output v value = validate_by (codes "Output validation failed: ") v.output_schema value

module _ {V N F I : Type 0} (json : Json V N F I) where
  abbrev pub or_value : V → Option N → V
  or_value v none = v
  or_value v (some n) = json.number n

  abbrev pub parsed_bool : V → Text → V
  parsed_bool v s =
      if eq_ignore_ascii_case s (codes "true")
      then json.bool true
      else if eq_ignore_ascii_case s (codes "false")
      then json.bool false
      else v

  abbrev pub parsed_value : V → Text → Option F → Option I → V
  parsed_value v s (some num) i = or_value v (json.from_f64 num)
  parsed_value v s none (some int_val) = json.number (json.from_i64 int_val)
  parsed_value v s none none = parsed_bool v s

  -- What becomes of one value of the object.
  abbrev pub corrected_text : V → Option Text → V
  corrected_text v none = v
  corrected_text v (some s) = parsed_value v s (json.parse_f64 s) (json.parse_i64 s)

  unfoldable pub corrected : V → V
  corrected v = corrected_text v (json.as_string v)

  abbrev pub corrected_entries : List (Text × V) → List (Text × V)
  corrected_entries m =
      map (λ (e : Text × V). (e.0, corrected e.1))
        (retain (λ (e : Text × V). not (json.is_null e.1)) m)

  abbrev pub with_entries : V → Option (List (Text × V)) → V
  with_entries value none = value
  with_entries value (some m) = json.entries value (corrected_entries m)

  unfoldable pub attempt_auto_correction : V → Result V
  attempt_auto_correction value = ok (with_entries value (json.as_object value))

module _ {V S N F I : Type 0} (schemas : JsonSchema V S) (json : Json V N F I) where
  abbrev pub again : AgentError → (V → Result V) → Result V → Result V
  again e retry (ok value) = retry value
  again e retry (err _) = err e

  -- The attempts that are left behind this one, and what they give.
  abbrev pub settle_attempt : Bool → ℕ → (V → Result V) → V → Result (Unit {0}) → Result V
  settle_attempt auto_correct left retry value (ok _) = ok value
  settle_attempt auto_correct zero retry value (err e) = err e
  settle_attempt true (suc left) retry value (err e) =
      again e retry (attempt_auto_correction json value)
  settle_attempt false (suc left) retry value (err e) = err e

  unfoldable pub retry_loop : SchemaValidator S → Bool → ℕ → V → Result V
  retry_loop v auto_correct zero value =
      err (config_error (codes "Maximum validation attempts exceeded"))
  retry_loop v auto_correct (suc left) value =
      settle_attempt auto_correct left (retry_loop v auto_correct left) value
        (validate_output schemas v value)

  unfoldable pub validate_output_with_retry : SchemaValidator S → V → Bool → Result V
  unfolding retry_loop
  validate_output_with_retry v value auto_correct =
      retry_loop v auto_correct v.config.max_validation_attempts value
