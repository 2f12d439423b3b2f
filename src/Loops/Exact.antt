-- ===== src/Loops/Exact.antt =====
-- When the detector reports a loop.
use mathlib.Core.List.{reverse}
use gola.Prelude.{
  ℕ, ◌^◌, ◌≤◌, ◌<◌, ◌≡◌, refl, ap, ap₂, ◌∙◌, Bool, true, false, List, [], ◌∷◌, ◌++◌, arith, length,
  length-take, length-retain-le, take, retain, latest, leb, Text, same,
}
use gola.Loops.{
  LoopDetectionConfig, LoopPattern, exact_loop, no_loop, ToolCallRecord, Hashes, new_record,
}
use gola.Loops.Detector.{
  Scores, PatternDetector, count_of, new, add_record, detect_exact_matches, detect_similar_patterns,
  detect_suspicious_patterns, detect_patterns, add_tool_call,
}
use gola.Loops.Counts.{occurrences, Tracks, add_records, add_record-Tracks, add_records-new}

abbrev pub is_exact : {F : Type 0} → LoopPattern F → Bool
is_exact (exact_loop name n i) = true
is_exact _ = false

module _ {V : Type 0} (s : Scores V) where
  is_exact-detect_patterns :
      (d : PatternDetector V) (r : ToolCallRecord V)
      → is_exact (detect_patterns s d r)
        ≡ leb d.config.exact_match_threshold (count_of r.signature_hash d.exact_match_counts)
  unfolding detect_patterns detect_exact_matches detect_similar_patterns detect_suspicious_patterns
  is_exact-detect_patterns d r = ground arith

  -- With a window of at least one call and fewer than 2 ^ 32, whatever was called before, an exact loop is reported exactly when the call's signature stands
  -- at least `exact_match_threshold` times among the latest calls, this one included; how alike
  -- other calls are has no say in it.
  pub is_exact-add_tool_call :
      (hashes : Hashes V) (config : LoopDetectionConfig) (rs : List (ToolCallRecord V)) (now : ℕ)
      (name : Text) (arguments : V) (step : ℕ)
      → 0 < config.detection_window_size
      → config.detection_window_size < 2 ^ 32
      → is_exact (add_tool_call s hashes now (add_records (new config) rs) name arguments step).1
        ≡ leb config.exact_match_threshold (
            occurrences (hashes.signature name arguments) (
              latest config.detection_window_size
                (rs ++ new_record hashes now name arguments step ∷ [])))
  unfolding add_tool_call new_record
  is_exact-add_tool_call hashes config rs now name arguments step h k =
      let r = new_record hashes now name arguments step in
      let t : Tracks config (rs ++ r ∷ []) (add_record (add_records (new config) rs) r) =
        add_record-Tracks config rs (add_records (new config) rs) r h k
          (add_records-new config rs h k) in
      is_exact-detect_patterns (add_record (add_records (new config) rs) r) r
      ∙ ap₂ leb (ap (λ (c : LoopDetectionConfig). c.exact_match_threshold) t.configured)
          (t.exact.counted r.signature_hash ∙ ap₂ occurrences refl t.window)

  -- Where the detector reports nothing, the signature is below its threshold and at most two of
  -- the last five calls are calls of the tool.
  pub detect_patterns-no_loop :
      (d : PatternDetector V) (r : ToolCallRecord V)
      → detect_patterns s d r ≡ no_loop
      → (count_of r.signature_hash d.exact_match_counts < d.config.exact_match_threshold)
        × (length (retain (λ q. same q.tool_name r.tool_name) (take 5 (reverse d.call_history)))
            ≤ 2)
  unfolding detect_patterns detect_exact_matches detect_similar_patterns detect_suspicious_patterns
  detect_patterns-no_loop d r h = ground (
    arith,
    length-take 5 (reverse d.call_history),
    length-retain-le (λ q. same q.tool_name r.tool_name) (take 5 (reverse d.call_history)),
  )
