-- ===== src/Loops.antt =====
-- crates/gola-core/src/loop_detection/mod.rs: the types of the detection of tool calls in a loop.
-- `V` is the type of JSON values, and `F` that of `f64`, which the model does not look into.
pub mod Detector
pub mod Counts
pub mod Exact
use gola.Prelude.{ℕ, Bool, true, false, Option, none, some, List, [], Text}

pub record LoopDetectionConfig : Type 0 where
  pub detection_window_size : ℕ
  pub exact_match_threshold : ℕ
  pub similar_match_threshold : ℕ
  pub time_window_seconds : ℕ
  pub tool_specific_thresholds : List (Text × ℕ)

abbrev pub default_config : LoopDetectionConfig
default_config = record {
  detection_window_size = 10;
  exact_match_threshold = 5;
  similar_match_threshold = 8;
  time_window_seconds = 30;
  tool_specific_thresholds = [];
}

pub data LoopPattern (F : Type 0) : Type 0 where
  exact_loop : Text → ℕ → ℕ → LoopPattern F
  similar_loop : Text → ℕ → F → ℕ → LoopPattern F
  suspicious_pattern : Text → ℕ → Text → LoopPattern F
  no_loop : LoopPattern F

module _ {F : Type 0} where
  abbrev pub is_problematic : LoopPattern F → Bool
  is_problematic (exact_loop name n i) = true
  is_problematic (similar_loop name n score i) = true
  is_problematic _ = false

  abbrev pub tool_name : LoopPattern F → Option Text
  tool_name (exact_loop name n i) = some name
  tool_name (similar_loop name n score i) = some name
  tool_name (suspicious_pattern name n kind) = some name
  tool_name no_loop = none

  abbrev pub count : LoopPattern F → ℕ
  count (exact_loop name n i) = n
  count (similar_loop name n score i) = n
  count (suspicious_pattern name n kind) = n
  count no_loop = 0

pub record ToolCallRecord (V : Type 0) : Type 0 where
  pub tool_name : Text
  pub arguments : V
  pub timestamp : ℕ
  pub step_index : ℕ
  pub signature_hash : ℕ
  pub argument_structure_hash : ℕ

-- The standard library's hasher on a call and on the structure of its arguments.
pub record Hashes (V : Type 0) : Type 0 where
  pub signature : Text → V → ℕ
  pub structure : V → ℕ

-- The clock is read once, and its reading is the argument `now`.
unfoldable pub new_record : {V : Type 0} → Hashes V → ℕ → Text → V → ℕ → ToolCallRecord V
new_record hashes now name arguments step = record {
  tool_name = name;
  arguments = arguments;
  timestamp = now;
  step_index = step;
  signature_hash = hashes.signature name arguments;
  argument_structure_hash = hashes.structure arguments;
}
