-- ===== src/Llm/Providers/OpenAi/Read.antt =====
-- A message as crates/gola-core/src/llm/providers/openai.rs writes it, and as it reads it.
use gola.Prelude.{
  ℕ, ◌≡◌, refl, ap, ◌∙◌, Option, none, some, List, [], ◌∷◌, Every, Text, codes, same, inr,
  if◌then◌else◌,
}
use gola.Core.Types.{assistant, ToolCall, Message, LlmResponse}
use gola.Core.Errors.{ok}
use gola.Llm.Providers.Anthropic.{call_id, draws, calls_of}
use gola.Llm.Providers.Anthropic.Response.{if_some}
use gola.Llm.Providers.OpenAi.{Json, format_call, format_calls, format_message, calls_field}
use gola.Llm.Providers.OpenAi.Parser.{
  parse_choices, parse_call, parse_calls, parse_message, parse_response,
}

module _ {V : Type 0} where
  abbrev pub or_entry : Option V → Option V → Option V
  or_entry none o = o
  or_entry (some v) o = some v

  -- The entry of a key, the last one of several.
  unfoldable pub entry : Text → List (Text × V) → Option V
  entry key [] = none
  entry key ((k, v) ∷ fields) = or_entry (entry key fields) (if same k key then some v else none)

-- What serde_json promises of values that `json!` makes.
pub record JsonLaws {V : Type 0} (json : Json V) : Type 0 where
  pub get-obj :
      (fields : List (Text × V)) (key : Text) (v : V)
      → entry key fields ≡ some v
      → json.get (json.obj fields) key ≡ v
  pub get_missing :
      (fields : List (Text × V)) (key : Text)
      → entry key fields ≡ none
      → json.as_array (json.get (json.obj fields) key) ≡ none
  pub as_object-obj :
      (fields : List (Text × V)) → json.as_object (json.obj fields) ≡ some (λ key. entry key fields)
  pub as_array-arr : (vs : List V) → json.as_array (json.arr vs) ≡ some vs
  pub as_str-str : (t : Text) → json.as_str (json.str t) ≡ some t

module _ {V : Type 0} (json : Json V) (laws : JsonLaws json) (uuid : ℕ → Text) where
  -- The calls with the identifiers that they are sent with.
  unfoldable pub identified : ℕ → List (ToolCall V) → List (ToolCall V)
  identified n [] = []
  identified n (c ∷ cs) =
      record c { id = some (call_id uuid n c.id) } ∷ identified (draws c.id n) cs

  -- Arguments that are read back as they are written.
  abbrev pub IsReadBack : ToolCall V → Type 0
  IsReadBack c = json.from_str (json.to_string c.arguments) ≡ inr c.arguments

  parse_call-format_call :
      (id : Text) (c : ToolCall V)
      → IsReadBack c
      → parse_call json (format_call json id c) ≡ some (ok (some (record c { id = some id })))
  unfolding parse_call format_call entry same
  parse_call-format_call id c h =
      rw
        (
          laws.get-obj _ (codes "id") (json.str id) refl,
          laws.as_str-str id,
          laws.get-obj _ (codes "function") _ refl,
          laws.as_object-obj _,
          laws.as_str-str c.name,
          laws.as_str-str (json.to_string c.arguments),
          h,
        )
        refl

  parse_calls-format_calls :
      (n : ℕ) (calls : List (ToolCall V))
      → Every IsReadBack calls
      → parse_calls json (format_calls json uuid n calls) ≡ some (ok (identified n calls))
  unfolding parse_calls format_calls identified
  parse_calls-format_calls n [] h = refl
  parse_calls-format_calls n (c ∷ cs) h =
      rw
        (
          parse_call-format_call (call_id uuid n c.id) c h.0,
          parse_calls-format_calls (draws c.id n) cs h.1,
        )
        refl

  abbrev pub read_back : ℕ → Text → List (ToolCall V) → LlmResponse V
  read_back n content calls = record {
    content = some content;
    tool_calls = if_some (identified n calls);
    finish_reason = none;
    usage = none;
  }

  abbrev fields : V → Text → List V → List (Text × V)
  fields r content calls =
      (codes "role", r) ∷ (codes "content", json.str content) ∷ calls_field json calls

  parse_message-obj :
      (r : V) (n : ℕ) (content : Text) (calls : List (ToolCall V))
      → Every IsReadBack calls
      → parse_message json (json.obj (fields r content (format_calls json uuid n calls)))
        ≡ some (ok (read_back n content calls))
  unfolding format_calls identified entry same
  parse_message-obj r n content [] h =
      rw
        (
          laws.get-obj (fields r content []) (codes "content") (json.str content) refl,
          laws.as_str-str content,
          laws.get_missing (fields r content []) (codes "tool_calls") refl,
        )
        refl
  parse_message-obj r n content (c ∷ cs) h =
      let written = format_calls json uuid n (c ∷ cs) in
      rw
        (
          laws.get-obj (fields r content written) (codes "content") (json.str content) refl,
          laws.as_str-str content,
          laws.get-obj (fields r content written) (codes "tool_calls") (json.arr written) refl,
          laws.as_array-arr written,
          parse_calls-format_calls n (c ∷ cs) h,
        )
        refl

  -- An answer of the service with some choices, the first of which has the message; there may be more choices
  -- and other fields.
  pub record IsFirstChoice (response message : V) : Type 0 where
    pub choice : V
    pub others : List V
    pub choices : json.as_array (json.get response (codes "choices")) ≡ some (choice ∷ others)
    pub first : json.get choice (codes "message") ≡ message

  parse_response-IsFirstChoice :
      (response message : V)
      → IsFirstChoice response message
      → parse_response json response ≡ parse_message json message
  unfolding parse_response
  parse_response-IsFirstChoice response message h =
      ap (parse_choices json) h.choices ∙ ap (parse_message json) h.first

  fields_of_assistant :
      (n : ℕ) (m : Message V)
      → m.role ≡ assistant
      → format_message json uuid n m
        ≡ json.obj (
            fields (json.str (codes "assistant")) m.content (format_calls json uuid n (calls_of m)))
  unfolding format_message
  fields_of_assistant n m e = rw e refl

  -- A message of the model as it is written into a request, when an answer of the service has it as
  -- its first choice, whatever else the answer has, is read as what it says: its content and its
  -- calls, each with the identifier it is sent with, or no calls when there are none. The conditions
  -- are that serde_json keeps its laws and reads the calls' arguments back.
  pub parse_response-format_message :
      (n : ℕ) (m : Message V) (response : V)
      → m.role ≡ assistant
      → Every IsReadBack (calls_of m)
      → IsFirstChoice response (format_message json uuid n m)
      → parse_response json response ≡ some (ok (read_back n m.content (calls_of m)))
  parse_response-format_message n m response e h f =
      parse_response-IsFirstChoice response (format_message json uuid n m) f
      ∙ ap (parse_message json) (fields_of_assistant n m e)
      ∙ parse_message-obj (json.str (codes "assistant")) n m.content (calls_of m) h
