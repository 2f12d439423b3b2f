-- ===== src/Config/Types/Llm.antt =====
-- The model of a configuration, crates/gola-core/src/config/types.rs. `F32` is `f32`, `V` a JSON value;
-- the defaults of floats are left out.
use gola.Prelude.{ℕ, Option, none, List, [], Text}

pub data LlmProvider : Type 0 where
  open_ai : LlmProvider
  anthropic : LlmProvider
  gemini : LlmProvider
  custom : Text → LlmProvider

pub record ModelParameters (V : Type 0) (F32 : Type 0) : Type 0 where
  pub temperature : F32
  pub max_tokens : ℕ
  pub top_p : F32
  pub frequency_penalty : F32
  pub presence_penalty : F32
  pub anthropic_version : Option Text
  pub system_message : Option Text
  pub stop_sequences : List Text
  pub safety_settings : Option V

pub record LlmAuth : Type 0 where
  pub api_key : Option Text
  pub api_key_env : Option Text
  pub headers : List (Text × Text)

pub record LlmConfig (V : Type 0) (F32 : Type 0) : Type 0 where
  pub provider : LlmProvider
  pub model : Text
  pub parameters : ModelParameters V F32
  pub auth : LlmAuth

abbrev pub default_max_tokens : ℕ
default_max_tokens = 16000

abbrev pub default_llm_auth : LlmAuth
default_llm_auth = record { api_key = none; api_key_env = none; headers = [] }
