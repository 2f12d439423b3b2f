-- ===== src/Loops/Counts.antt =====
-- The counts of the detector against the calls in its window.
use gola.Prelude.{
  ℕ, suc, ◌+◌, ◌-◌, ◌^◌, ◌≤◌, ◌<◌, ◌≡◌, refl, sym, ap, ap₂, ◌∙◌, List, [], ◌∷◌, ◌++◌, arith,
  append-nil, append_assoc, length, length-append, latest, latest-append, drop, drop_all,
  length-drop, leb, ◌==◌, ==_iff, number_key, lookup, lookup-put, lookup-remove, if◌then◌else◌,
}
use gola.Loops.{LoopDetectionConfig, ToolCallRecord}
use gola.Loops.Detector.{PatternDetector, u32, count_of, forget, tally, new, slide, add_record}

count_of-forget :
    (hash j : ℕ) (m : List (ℕ × ℕ))
    → count_of j (forget hash m) ≡ (if hash == j then count_of j m - 1 else count_of j m)
unfolding forget
count_of-forget hash j m =
    ground (arith, lookup-remove hash j m, lookup-put hash j (count_of hash m - 1) m, ==_iff hash j)

count_of-tally :
    (hash j : ℕ) (m : List (ℕ × ℕ))
    → count_of j (tally hash m) ≡ (if hash == j then u32 (count_of j m + 1) else count_of j m)
unfolding tally
count_of-tally hash j m =
    ground (arith, lookup-put hash j (u32 (count_of hash m + 1)) m, ==_iff hash j)

module _ {V : Type 0} where
  -- How many of the calls have the signature.
  abbrev pub occurrences : ℕ → List (ToolCallRecord V) → ℕ
  occurrences hash [] = 0
  occurrences hash (r ∷ rs) =
      if r.signature_hash == hash then suc (occurrences hash rs) else occurrences hash rs

  occurrences-append :
      (hash : ℕ) (rs : List (ToolCallRecord V)) (r : ToolCallRecord V)
      → occurrences hash (rs ++ r ∷ [])
        ≡ occurrences hash rs + (if r.signature_hash == hash then 1 else 0)
  occurrences-append hash [] r = ground arith
  occurrences-append hash (x ∷ rs) r = ground (arith, occurrences-append hash rs r)

  occurrences-le : (hash : ℕ) (rs : List (ToolCallRecord V)) → occurrences hash rs ≤ length rs
  occurrences-le hash [] = omega arith
  occurrences-le hash (x ∷ rs) = ground (arith, occurrences-le hash rs)

  -- The window holds at most its size, and every signature is counted as often as it is in it.
  pub record IsExact (d : PatternDetector V) : Type 0 where
    pub bounded : length d.call_history ≤ d.config.detection_window_size
    pub counted : (hash : ℕ) → count_of hash d.exact_match_counts ≡ occurrences hash d.call_history

  pub IsExact-new : (config : LoopDetectionConfig) → IsExact (new config)
  IsExact-new config = record { bounded = omega arith; counted = λ hash. unfold lookup in refl }

  add_record_counts :
      (config : LoopDetectionConfig) (held : List (ToolCallRecord V)) (counts : List (ℕ × ℕ))
      (r : ToolCallRecord V)
      → 0 < config.detection_window_size
      → config.detection_window_size < 2 ^ 32
      → length held ≤ config.detection_window_size
      → (hash : ℕ) → count_of r.signature_hash counts ≡ occurrences r.signature_hash held
      → count_of hash counts ≡ occurrences hash held
      → let d : PatternDetector V = record {
        config = config;
        call_history = held;
        exact_match_counts = counts;
      } in
        count_of hash (add_record d r).exact_match_counts
        ≡ occurrences hash (add_record d r).call_history
  unfolding add_record
  add_record_counts config [] counts r h k b hash e e' =
      ground (arith, count_of-tally r.signature_hash hash counts, ==_iff r.signature_hash hash)
  add_record_counts config (x ∷ held) counts r h k b hash e e' = ground (
    arith,
    count_of-tally r.signature_hash hash counts,
    count_of-tally r.signature_hash hash (forget x.signature_hash counts),
    count_of-forget x.signature_hash hash counts,
    occurrences-append hash held r,
    occurrences-le hash held,
    length-append held (r ∷ []),
  )

  call_history-add_record :
      (config : LoopDetectionConfig) (held : List (ToolCallRecord V)) (counts : List (ℕ × ℕ))
      (r : ToolCallRecord V)
      → 0 < config.detection_window_size
      → let d : PatternDetector V = record {
        config = config;
        call_history = held;
        exact_match_counts = counts;
      } in
        (add_record d r).call_history
        ≡ (if leb config.detection_window_size (length held) then drop 1 held else held) ++ r ∷ []
  unfolding add_record
  call_history-add_record config [] counts r h = ground arith
  call_history-add_record config (x ∷ held) counts r h = ground (arith, length-append held (r ∷ []))

  config-slide :
      (d : PatternDetector V) (rs : List (ToolCallRecord V)) → (slide d rs).config ≡ d.config
  unfolding slide
  config-slide d [] = refl
  config-slide d (x ∷ rs) = ground arith

  config-add_record :
      (d : PatternDetector V) (r : ToolCallRecord V) → (add_record d r).config ≡ d.config
  unfolding add_record
  config-add_record d r = config-slide d (d.call_history ++ r ∷ [])

  -- The detector after a list of calls.
  unfoldable pub add_records : PatternDetector V → List (ToolCallRecord V) → PatternDetector V
  add_records d [] = d
  add_records d (r ∷ rs) = add_records (add_record d r) rs

  -- `add_record` keeps the counts exact: none is lost or left behind when a call leaves the window.
  add_record-IsExact :
      (d : PatternDetector V) (r : ToolCallRecord V)
      → 0 < d.config.detection_window_size
      → d.config.detection_window_size < 2 ^ 32
      → IsExact d
      → IsExact (add_record d r)
  add_record-IsExact d r h k v = record {
    bounded = ground (
      arith,
      config-add_record d r,
      call_history-add_record d.config d.call_history d.exact_match_counts r h,
      length-append (drop 1 d.call_history) (r ∷ []),
      length-append d.call_history (r ∷ []),
      length-drop 1 d.call_history,
    );
    counted = λ hash.
        add_record_counts d.config d.call_history d.exact_match_counts r h k v.bounded hash
          (v.counted r.signature_hash) (v.counted hash);
  }

  -- A detector that was started with `config` and has seen the calls `seen`.
  pub record Tracks (config : LoopDetectionConfig) (seen : List (ToolCallRecord V))
      (d : PatternDetector V) : Type 0 where
    pub configured : d.config ≡ config
    pub window : d.call_history ≡ latest config.detection_window_size seen
    pub exact : IsExact d

  pub add_record-Tracks :
      (config : LoopDetectionConfig) (seen : List (ToolCallRecord V)) (d : PatternDetector V)
      (r : ToolCallRecord V)
      → 0 < config.detection_window_size
      → config.detection_window_size < 2 ^ 32
      → Tracks config seen d
      → Tracks config (seen ++ r ∷ []) (add_record d r)
  add_record-Tracks config seen d r h k t = record {
    configured = config-add_record d r ∙ t.configured;
    window =
        call_history-add_record d.config d.call_history d.exact_match_counts r (ground arith)
        ∙ ap₂
            (λ (n : ℕ) (held : List (ToolCallRecord V)).
              (if leb n (length held) then drop 1 held else held) ++ r ∷ [])
            (ap (λ (c : LoopDetectionConfig). c.detection_window_size) t.configured) t.window
        ∙ sym (latest-append config.detection_window_size seen r h);
    exact = add_record-IsExact d r (ground arith) (ground arith) t.exact;
  }

  add_records-Tracks :
      (config : LoopDetectionConfig) (rs seen : List (ToolCallRecord V)) (d : PatternDetector V)
      → 0 < config.detection_window_size
      → config.detection_window_size < 2 ^ 32
      → Tracks config seen d
      → Tracks config (seen ++ rs) (add_records d rs)
  unfolding add_records
  add_records-Tracks config [] seen d h k t = rw append-nil t
  add_records-Tracks config (r ∷ rs) seen d h k t = rw (append_assoc seen (r ∷ []) rs) at (
      add_records-Tracks config rs (seen ++ r ∷ []) (add_record d r) h k
        (add_record-Tracks config seen d r h k t))

  -- With a window of at least one call and fewer than 2 ^ 32, after any calls the history is the latest of them, and each signature is counted exactly as
  -- often as it stands in the history.
  pub add_records-new :
      (config : LoopDetectionConfig) (rs : List (ToolCallRecord V))
      → 0 < config.detection_window_size
      → config.detection_window_size < 2 ^ 32
      → Tracks config rs (add_records (new config) rs)
  add_records-new config rs h k = add_records-Tracks config rs [] (new config) h k (record {
    configured = refl;
    window = sym (drop_all (0 - config.detection_window_size) [] (omega arith));
    exact = IsExact-new config;
  })
