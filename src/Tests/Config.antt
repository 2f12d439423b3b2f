-- ===== src/Tests/Config.antt =====
-- Tests of the schema validator of crates/gola-core/src/config/validation.rs. A number is a natural number.
use gola.Prelude.{
  ℕ, ◌≡◌, refl, sym, ap, ◌∙◌, Bool, true, false, Option, none, some, List, [], ◌∷◌, arith, Text,
  codes, same, inr, if◌then◌else◌,
}
use gola.Core.Errors.{ok, err, config_error}
use gola.Config.Validation.{
  JsonSchema, Json, SchemaValidator, attempt_auto_correction, corrected, validate_output,
  retry_loop, validate_output_with_retry,
}
use gola.Config.Validation.Retry.{JsonLaws, validate_output_with_retry_lem}

mutual
  data Value : Type 0 where
    null : Value
    number : ℕ → Value
    bool : Bool → Value
    string : Text → Value
    object : Fields → Value

  data Fields : Type 0 where
    no_field : Fields
    field : Text → Value → Fields → Fields

abbrev to_list : Fields → List (Text × Value)
to_list no_field = []
to_list (field k v fs) = (k, v) ∷ to_list fs

abbrev from_list : List (Text × Value) → Fields
from_list [] = no_field
from_list ((k, v) ∷ m) = field k v (from_list m)

to_list-from_list : (m : List (Text × Value)) → to_list (from_list m) ≡ m
to_list-from_list [] = refl
to_list-from_list (e ∷ m) = ap (e ∷◌) (to_list-from_list m)

abbrev as_object : Value → Option (List (Text × Value))
as_object (object fs) = some (to_list fs)
as_object _ = none

abbrev as_string : Value → Option Text
as_string (string s) = some s
as_string _ = none

abbrev is_null : Value → Bool
is_null null = true
is_null _ = false

abbrev with_fields : Value → List (Text × Value) → Value
with_fields (object fs) m = object (from_list m)
with_fields v m = v

abbrev json : Json Value ℕ ℕ ℕ
json = record {
  as_object = as_object;
  entries = with_fields;
  as_string = as_string;
  is_null = is_null;
  number = λ n. number n;
  bool = λ b. bool b;
  from_f64 = λ n. some n;
  from_i64 = λ n. n;
  parse_f64 = λ s. if same s (codes "42") then some 42 else none;
  parse_i64 = λ s. none;
}

as_object-with_fields :
    (v : Value) (m m' : List (Text × Value))
    → as_object v ≡ some m
    → as_object (with_fields v m') ≡ some m'
as_object-with_fields (object fs) m m' h = ap some (to_list-from_list m')
as_object-with_fields null m m' h = ground (arith, h)
as_object-with_fields (number n) m m' h = ground (arith, h)
as_object-with_fields (bool b) m m' h = ground (arith, h)
as_object-with_fields (string s) m m' h = ground (arith, h)

from_list-to_list : (fs : Fields) → from_list (to_list fs) ≡ fs
from_list-to_list no_field = refl
from_list-to_list (field k v fs) = ap (field k v) (from_list-to_list fs)

abbrev or_nothing : List (Text × Value) → Option (List (Text × Value)) → List (Text × Value)
or_nothing n none = n
or_nothing n (some m) = m

with_fields_own : (v : Value) (m : List (Text × Value)) → as_object v ≡ some m → with_fields v m ≡ v
with_fields_own (object fs) m h =
    ap (λ o. object (from_list (or_nothing [] o))) (sym h) ∙ ap object (from_list-to_list fs)
with_fields_own null m h = refl
with_fields_own (number n) m h = refl
with_fields_own (bool b) m h = refl
with_fields_own (string s) m h = refl

json_laws : JsonLaws json
json_laws = record {
  as_object-entries = λ v m h. as_object-with_fields v m _ h;
  entries_own = with_fields_own;
  as_string-number = λ n. refl;
  as_string-bool = λ b. refl;
  is_null-number = λ n. refl;
  is_null-bool = λ b. refl;
}

-- A schema asks for an object whose first entry is a number.
abbrev starts_with_number : Value → Bool
starts_with_number (object (field k (number n) fs)) = true
starts_with_number _ = false

abbrev schemas : JsonSchema Value Value
schemas = record {
  compile = λ v. inr v;
  validate = λ s v.
      if starts_with_number v
      then none
      else some (record { instance_path = codes "/count"; message = codes "no number" } ∷ []);
}

abbrev validator : SchemaValidator Value
validator = record {
  input_schema = none;
  output_schema = some null;
  config = record {
    log_errors = true;
    include_schema_in_errors = false;
    max_validation_attempts = 3;
    validate_intermediate_steps = false;
  };
}

abbrev output : Value
output = object (field (codes "note") null (field (codes "count") (string (codes "42")) no_field))

abbrev corrected_output : Value
corrected_output = object (field (codes "count") (number 42) no_field)

corrects : validate_output_with_retry schemas json validator output true ≡ ok corrected_output
unfolding validate_output_with_retry retry_loop validate_output corrected attempt_auto_correction
    same
corrects = refl

-- With no attempts nothing is valid, also where there is no schema.
no_attempts :
    validate_output_with_retry schemas json
      (record validator {
        output_schema = none;
        config = record validator.config { max_validation_attempts = 0 };
      })
      output
      true
    ≡ err (config_error (codes "Maximum validation attempts exceeded"))
unfolding validate_output_with_retry retry_loop
no_attempts = refl

validate_output_with_retry_lem_example :
    validate_output_with_retry schemas json validator output true ≡ ok corrected_output
unfolding validate_output corrected same
validate_output_with_retry_lem_example =
    validate_output_with_retry_lem json json_laws schemas validator output true (omega arith)
