-- ===== src/Tests/Loops.antt =====
-- Tests of crates/gola-core/src/loop_detection.
use gola.Prelude.{
  ℕ, ◌+◌, ◌*◌, ◌≡◌, refl, List, [], ◌∷◌, ◌++◌, arith, length, latest, leb, ◌==◌, codes, same,
  number_key, lookup, put, remove, if◌then◌else◌,
}
use gola.Loops.{
  LoopDetectionConfig, default_config, exact_loop, no_loop, ToolCallRecord, Hashes, new_record,
}
use gola.Loops.Detector.{
  Scores, PatternDetector, new, add_record, detect_exact_matches, detect_similar_patterns,
  detect_suspicious_patterns, detect_patterns, add_tool_call,
}
use gola.Loops.Counts.{occurrences, Tracks, add_records, add_records-new}
use gola.Loops.Exact.{is_exact, is_exact-add_tool_call}

-- Scores in tenths: equal arguments are alike, others are not.
abbrev pub tenths : Scores ℕ
tenths = record {
  F = ℕ;
  similarity = λ a b. if a == b then 10 else 0;
  is_similar = λ score. leb 7 score;
  sum = λ scores. 10 * length scores;
  over = λ total n. 10;
  one = 10;
}

abbrev pub hashes : Hashes ℕ
hashes = record { signature = λ name v. length name * 100 + v; structure = λ v. 0 }

abbrev config : LoopDetectionConfig
config = record default_config {
  detection_window_size = 5;
  exact_match_threshold = 3;
  similar_match_threshold = 3;
  time_window_seconds = 10;
}

abbrev record_at : ℕ → ToolCallRecord ℕ
record_at step = new_record hashes 1000 (codes "get_current_time") 7 step

abbrev before : List (ToolCallRecord ℕ)
before = record_at 1 ∷ record_at 2 ∷ []

program : Unit {0}
unfolding new_record add_record add_records add_tool_call detect_patterns detect_exact_matches
    detect_similar_patterns detect_suspicious_patterns lookup put remove same
program = tt

third_call :
    (add_tool_call tenths hashes 1000
      (add_records (new config) before)
      (codes "get_current_time")
      7
      3).1
    ≡ exact_loop (codes "get_current_time") 3 1
unfolding program
third_call = refl

second_call :
    (add_tool_call tenths hashes 1000
      (add_records (new config) (record_at 1 ∷ []))
      (codes "get_current_time")
      7
      2).1
    ≡ no_loop
unfolding program
second_call = refl

add_records-new_example : Tracks config before (add_records (new config) before)
add_records-new_example = add_records-new config before (omega arith) (omega arith)

is_exact-add_tool_call_example :
    is_exact
      (add_tool_call tenths hashes 1000
        (add_records (new config) before)
        (codes "get_current_time")
        7
        3).1
    ≡ leb 3 (
        occurrences
          (hashes.signature (codes "get_current_time") 7)
          (latest 5 (before ++ record_at 3 ∷ [])))
is_exact-add_tool_call_example =
    is_exact-add_tool_call tenths hashes config before 1000 (codes "get_current_time") 7 3
      (omega arith) (omega arith)

abbrev once : PatternDetector ℕ
once = record {
  config = config;
  call_history = record_at 1 ∷ [];
  exact_match_counts = (1607, 1) ∷ [];
}

once_quiet : detect_patterns tenths once (record_at 1) ≡ no_loop
unfolding program
once_quiet = refl
