-- ===== src/Tests/OpenAi.antt =====
-- Tests of crates/gola-core/src/llm/providers/openai.rs. The text of a number is its one byte.
use gola.Prelude.{
  ℕ, ◌≡◌, refl, ap, ◌∙◌, Option, none, some, List, [], ◌∷◌, Text, codes, same, ◌⊎◌, inl, inr,
}
use gola.Core.Types.{assistant, Message}
use gola.Core.Errors.{ok}
use gola.Llm.Providers.OpenAi.{format_call, format_calls, Json, format_message}
use gola.Llm.Providers.OpenAi.Parser.{parse_call, parse_calls, parse_response}
use gola.Llm.Providers.OpenAi.Read.{
  JsonLaws, entry, read_back, IsFirstChoice, parse_response-format_message,
}

mutual
  data Value : Type 0 where
    null : Value
    number : ℕ → Value
    string : Text → Value
    array : Values → Value
    object : Fields → Value

  data Values : Type 0 where
    no_value : Values
    value : Value → Values → Values

  data Fields : Type 0 where
    no_field : Fields
    field : Text → Value → Fields → Fields

abbrev to_list : Fields → List (Text × Value)
to_list no_field = []
to_list (field k v fs) = (k, v) ∷ to_list fs

abbrev from_list : List (Text × Value) → Fields
from_list [] = no_field
from_list ((k, v) ∷ m) = field k v (from_list m)

abbrev to_values : Values → List Value
to_values no_value = []
to_values (value v vs) = v ∷ to_values vs

abbrev from_values : List Value → Values
from_values [] = no_value
from_values (v ∷ vs) = value v (from_values vs)

to_list-from_list : (m : List (Text × Value)) → to_list (from_list m) ≡ m
to_list-from_list [] = refl
to_list-from_list ((k, v) ∷ m) = ap (λ fs. (k, v) ∷ fs) (to_list-from_list m)

to_values-from_values : (vs : List Value) → to_values (from_values vs) ≡ vs
to_values-from_values [] = refl
to_values-from_values (v ∷ vs) = ap (λ us. v ∷ us) (to_values-from_values vs)

abbrev or_null : Option Value → Value
or_null none = null
or_null (some v) = v

abbrev get : Value → Text → Value
get (object fs) key = or_null (entry key (to_list fs))
get _ key = null

abbrev as_array : Value → Option (List Value)
as_array (array vs) = some (to_values vs)
as_array _ = none

abbrev as_str : Value → Option Text
as_str (string t) = some t
as_str _ = none

abbrev as_object : Value → Option (Text → Option Value)
as_object (object fs) = some (λ key. entry key (to_list fs))
as_object _ = none

abbrev from_str : Text → Text ⊎ Value
from_str (n ∷ []) = inr (number n)
from_str _ = inl (codes "expected value")

abbrev to_string : Value → Text
to_string (number n) = n ∷ []
to_string _ = []

abbrev json : Json Value
json = record {
  obj = λ fields. object (from_list fields);
  arr = λ vs. array (from_values vs);
  str = λ t. string t;
  number = λ n. number n;
  get = get;
  as_array = as_array;
  as_str = as_str;
  as_object = as_object;
  from_str = from_str;
  to_string = to_string;
}

json_laws : JsonLaws json
json_laws = record {
  get-obj =
      λ fields key v h. ap (λ fs. or_null (entry key fs)) (to_list-from_list fields) ∙ ap or_null h;
  get_missing = λ fields key h.
      ap (λ fs. as_array (or_null (entry key fs))) (to_list-from_list fields)
      ∙ ap (λ o. as_array (or_null o)) h;
  as_object-obj = λ fields. ap (λ fs. some (λ key. entry key fs)) (to_list-from_list fields);
  as_array-arr = λ vs. ap some (to_values-from_values vs);
  as_str-str = λ t. refl;
}

abbrev uuid : ℕ → Text
uuid n = n ∷ []

abbrev called : Message Value
called = record {
  role = assistant;
  content = codes "I add.";
  tool_call_id = none;
  tool_calls = some (
      record { id = some (codes "c1"); name = codes "add"; arguments = number 22 }
      ∷ record { id = none; name = codes "add"; arguments = number 33 }
      ∷ []);
}

-- An answer with an identifier, and with a second choice.
abbrev answer : Value
answer = json.obj (
    (codes "id", json.str (codes "r1"))
    ∷ (
      codes "choices",
      json.arr (
          json.obj (
            (codes "index", json.number 0)
            ∷ (codes "message", format_message json uuid 0 called)
            ∷ [])
          ∷ json.obj ((codes "message", null) ∷ [])
          ∷ []),
    )
    ∷ [])

parse_response-format_message_example :
    parse_response json answer
    ≡ some (
        ok (
          read_back json json_laws uuid 0 (codes "I add.") (
            record { id = some (codes "c1"); name = codes "add"; arguments = number 22 }
            ∷ record { id = none; name = codes "add"; arguments = number 33 }
            ∷ [])))
unfolding format_message format_calls format_call entry same
parse_response-format_message_example =
    parse_response-format_message json json_laws uuid 0 called answer refl (refl, (refl, tt)) first
  where
    first : IsFirstChoice json json_laws uuid answer (format_message json uuid 0 called)
    first = record {
      choice = json.obj (
          (codes "index", json.number 0)
          ∷ (codes "message", format_message json uuid 0 called)
          ∷ []);
      others = json.obj ((codes "message", null) ∷ []) ∷ [];
      choices = refl;
      first = refl;
    }

-- A call whose function has no name makes the reader panic.
panics :
    parse_response json (
      json.obj (
        (
          codes "choices",
          json.arr (
              json.obj (
                (
                  codes "message",
                  json.obj (
                      (
                        codes "tool_calls",
                        json.arr (
                            json.obj (
                              (codes "id", json.str (codes "c1"))
                              ∷ (codes "function", json.obj [])
                              ∷ [])
                            ∷ []),
                      )
                      ∷ []),
                )
                ∷ [])
              ∷ []),
        )
        ∷ []))
    ≡ none
unfolding parse_response parse_calls parse_call entry same
panics = refl
