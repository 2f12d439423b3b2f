-- ===== src/Loops/Detector.antt =====
-- crates/gola-core/src/loop_detection/pattern_detector.rs. The oldest call of the history stands
-- first. `similar_pattern_tracking`, which nothing reads, is left out.
use Prim.Native.Nat.{min}
use mathlib.Core.List.{reverse}
use gola.Prelude.{
  ℕ, suc, ◌+◌, ◌-◌, ◌%◌, ◌^◌, Bool, not, ◌&&◌, Option, none, some, List, [], ◌∷◌, ◌++◌, map, length,
  take, retain, is_empty, Text, codes, same, ltb, leb, ◌==◌, number_key, lookup, put, remove,
  if◌then◌else◌,
}
use gola.Loops.{
  LoopDetectionConfig, LoopPattern, exact_loop, similar_loop, suspicious_pattern, no_loop,
  ToolCallRecord, Hashes, new_record,
}

-- `f64` as far as the detector uses it, and the similarity of arguments.
pub record Scores (V : Type 0) : Type 1 where
  pub F : Type 0
  pub similarity : V → V → F
  -- `similarity >= 0.7`
  pub is_similar : F → Bool
  pub sum : List F → F
  -- division by a count
  pub over : F → ℕ → F
  pub one : F

pub record PatternDetector (V : Type 0) : Type 0 where
  pub config : LoopDetectionConfig
  pub call_history : List (ToolCallRecord V)
  pub exact_match_counts : List (ℕ × ℕ)

abbrev pub u32 : ℕ → ℕ
u32 n = n % 2 ^ 32

abbrev pub count_of : ℕ → List (ℕ × ℕ) → ℕ
count_of hash counts = elim (lookup hash counts) [ none ↦ 0 | some n ↦ n ]

-- The count of a record that left the window: `saturating_sub`, and no entry at 0.
unfoldable pub forget : ℕ → List (ℕ × ℕ) → List (ℕ × ℕ)
forget hash counts = elim (lookup hash counts) [
  | none ↦ counts
  | some n ↦ if (n - 1) == 0 then remove hash counts else put hash (n - 1) counts
]

-- `*entry(hash).or_insert(0) += 1` on a `u32`.
unfoldable pub tally : ℕ → List (ℕ × ℕ) → List (ℕ × ℕ)
tally hash counts = put hash (u32 (count_of hash counts + 1)) counts

module _ {V : Type 0} where
  abbrev pub new : LoopDetectionConfig → PatternDetector V
  new config = record { config = config; call_history = []; exact_match_counts = [] }

  -- `pop_front` once the window is too long, with the count of what it removes.
  unfoldable pub slide : PatternDetector V → List (ToolCallRecord V) → PatternDetector V
  unfolding forget
  slide d [] = record d { call_history = [] }
  slide d (removed ∷ rest) =
      if ltb d.config.detection_window_size (suc (length rest))
      then record d {
        call_history = rest;
        exact_match_counts = forget removed.signature_hash d.exact_match_counts;
      }
      else record d { call_history = removed ∷ rest }

  -- The part of `add_tool_call` that changes the state.
  unfoldable pub add_record : PatternDetector V → ToolCallRecord V → PatternDetector V
  unfolding slide tally
  add_record d r =
      let d' = slide d (d.call_history ++ r ∷ []) in
      record d' { exact_match_counts = tally r.signature_hash d'.exact_match_counts }

  abbrev pub first_step : ℕ → List (ToolCallRecord V) → ℕ → ℕ
  first_step hash [] otherwise = otherwise
  first_step hash (r ∷ rs) otherwise =
      if r.signature_hash == hash then r.step_index else first_step hash rs otherwise

  unfoldable pub rapid_fire_calls : PatternDetector V → ToolCallRecord V → ℕ
  rapid_fire_calls d latest =
      let threshold = (latest.timestamp + 2 ^ 64 - d.config.time_window_seconds) % 2 ^ 64 in
      u32 (
        length (
          retain (λ r. same r.tool_name latest.tool_name && leb threshold r.timestamp)
            d.call_history))

  module _ (s : Scores V) where
    open s use {F, similarity, is_similar, sum, over, one}

    unfoldable pub detect_exact_matches :
        PatternDetector V → ToolCallRecord V → Option (LoopPattern F)
    detect_exact_matches d latest =
        let n = count_of latest.signature_hash d.exact_match_counts in
        if leb d.config.exact_match_threshold n
        then some (
            exact_loop latest.tool_name n
              (first_step latest.signature_hash d.call_history latest.step_index))
        else none

    -- The other calls of the tool with similar arguments, the latest first.
    unfoldable pub similar_calls : ToolCallRecord V → List (ToolCallRecord V) → List (ℕ × F)
    similar_calls latest [] = []
    similar_calls latest (r ∷ rs) =
        let score = similarity r.arguments latest.arguments in
        let rest = similar_calls latest rs in
        if same r.tool_name latest.tool_name
          && not (r.step_index == latest.step_index)
          && is_similar score
        then (r.step_index, score) ∷ rest
        else rest

    abbrev min_step : ℕ → List (ℕ × F) → ℕ
    min_step least [] = least
    min_step least ((i, score) ∷ cs) = min_step (min least i) cs

    abbrev pub first_similar : List (ℕ × F) → ℕ → ℕ
    first_similar [] otherwise = otherwise
    first_similar ((i, score) ∷ cs) otherwise = min_step i cs

    unfoldable pub detect_similar_patterns :
        PatternDetector V → ToolCallRecord V → Option (LoopPattern F)
    unfolding similar_calls
    detect_similar_patterns d latest =
        let calls =
          similar_calls latest (take d.config.detection_window_size (reverse d.call_history)) in
        let n = u32 (u32 (length calls) + 1) in
        let average =
          if is_empty calls then one else over (sum (map (λ c. c.1) calls)) (length calls) in
        if leb d.config.similar_match_threshold n
        then some (similar_loop latest.tool_name n average (first_similar calls latest.step_index))
        else none

    unfoldable pub detect_suspicious_patterns :
        PatternDetector V → ToolCallRecord V → Option (LoopPattern F)
    unfolding rapid_fire_calls
    detect_suspicious_patterns d latest =
        let recent = u32 (
          length
            (retain (λ r. same r.tool_name latest.tool_name) (take 5 (reverse d.call_history)))) in
        let rapid = rapid_fire_calls d latest in
        if leb 3 recent
        then some (suspicious_pattern latest.tool_name recent (codes "frequent_same_tool"))
        else if leb 3 rapid
        then some (suspicious_pattern latest.tool_name rapid (codes "rapid_fire"))
        else none

    -- The layers in their order.
    unfoldable pub detect_patterns : PatternDetector V → ToolCallRecord V → LoopPattern F
    detect_patterns d latest = elim (detect_exact_matches d latest) [
      | some pattern_ ↦ pattern_
      | none ↦ elim (detect_similar_patterns d latest) [
        | some pattern_ ↦ pattern_
        | none ↦ elim (detect_suspicious_patterns d latest) [
          | some pattern_ ↦ pattern_
          | none ↦ no_loop
        ]
      ]
    ]

    unfoldable pub add_tool_call :
        Hashes V → ℕ → PatternDetector V → Text → V → ℕ → PatternDetector V × LoopPattern F
    add_tool_call hashes now d name arguments step =
        let r = new_record hashes now name arguments step in
        let d' = add_record d r in (d', detect_patterns d' r)

  abbrev pub clear : PatternDetector V → PatternDetector V
  clear d = record d { call_history = []; exact_match_counts = [] }
