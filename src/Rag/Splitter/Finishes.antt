-- ===== src/Rag/Splitter/Finishes.antt =====
-- When `split_by_length` ends, and what it gives (crates/gola-core/src/rag/splitter.rs).
use gola.Prelude.{
  ℕ, zero, suc, ◌+◌, ◌-◌, ◌≤◌, ◌<◌, ◌≡◌, refl, ap, sym, ◌∙◌, true, none, some, List, [], ◌∷◌, ◌++◌,
  length, take, drop, length-take, drop_all, take-append-drop, Every, Bool-cases, inl, inr, Text,
  ltb, arith,
}
use gola.Rag.Splitter.{
  TextSplitter, min, between, chunk_end, next_start, then_chunks, split_from, split_by_length,
}
use gola.Rag.Splitter.Length.{
  IsDense, back_to_boundary-le, chunk_end-bounds, next_start-le, next_start-advances,
}

abbrev pub Fits : TextSplitter → List Text → Type 0
Fits t = Every (λ chunk. length chunk ≤ t.chunk_size)

length-between :
    (t : TextSplitter) (text : Text) (start : ℕ)
    → length (between text start (chunk_end t text start)) ≤ t.chunk_size
length-between t text start = omega (
  arith,
  length-take (chunk_end t text start - start) (drop start text),
  (chunk_end-bounds t text start).0,
)

abbrev pub concat : List Text → Text
concat [] = []
concat (chunk ∷ chunks) = chunk ++ concat chunks

drop_nil : (n : ℕ) → drop {A = ℕ} n [] ≡ []
drop_nil zero = refl
drop_nil (suc n) = refl

drop-drop : (n s m : ℕ) (text : Text) → s + n ≡ m → drop n (drop s text) ≡ drop m text
drop-drop n zero m text h = ap (λ i. drop i text) (omega arith)
drop-drop n (suc s) m [] h = drop_nil n ∙ sym (drop_nil m)
drop-drop n (suc s) zero (b ∷ text) h = absurd (omega arith)
drop-drop n (suc s) (suc m) (b ∷ text) h = drop-drop n s m text (omega arith)

between-drop :
    (text : Text) (start end : ℕ)
    → start ≤ end
    → between text start end ++ drop end text ≡ drop start text
between-drop text start end h =
    ap (λ r. take (end - start) (drop start text) ++ r)
      (sym (drop-drop (end - start) start end text (omega arith)))
    ∙ take-append-drop (end - start) (drop start text)

-- What a run from `start` gives: chunks that fit and, without overlap, the rest of the text.
abbrev Runs : ℕ → TextSplitter → Text → ℕ → List Text → Type 0
Runs fuel t text start chunks =
    (split_from fuel t text start ≡ some chunks)
    × Fits t chunks
    × (t.chunk_overlap ≡ 0 → concat chunks ≡ drop start text)

next_start-zero :
    (t : TextSplitter) (text : Text) (start end : ℕ)
    → t.chunk_overlap ≡ 0
    → next_start t text start end ≡ end
unfolding next_start
next_start-zero t text start end h = ground arith

split_from-Runs :
    (fuel : ℕ) (t : TextSplitter) (text : Text) (start : ℕ)
    → IsDense text
    → t.chunk_overlap + 6 < t.chunk_size
    → start ≤ length text
    → length text < fuel + start
    → (chunks : List Text) × Runs fuel t text start chunks
unfolding split_from
split_from-Runs zero t text start dense h e f = absurd (omega arith)
split_from-Runs (suc fuel) t text start dense h e f = elim (Bool-cases (ltb start (length text))) [
  | inl k ↦
      let end = chunk_end t text start in
      let next = next_start t text start end in
      let forth = next_start-advances t text start dense h (ground arith) in
      let within = next_start-le t text start end (chunk_end-bounds t text start).1 in
      let rest = split_from-Runs fuel t text next dense h within (omega arith) in
      (
        between text start end ∷ rest.0,
        (
          rw k (ap (then_chunks (between text start end)) rest.1.0),
          (length-between t text start, rest.1.1),
          λ z.
              let same_place = next_start-zero t text start end z in
              let behind : start ≤ end = omega (arith, same_place) in
              ap (λ r. between text start end ++ r) (rest.1.2 z ∙ ap (λ i. drop i text) same_place)
              ∙ between-drop text start end behind,
        ),
      )
  | inr k ↦ ([], (rw k refl, tt, λ z. sym (drop_all start text (ground arith))))
]

-- In a text where every four bytes hold the start of a character, with an overlap that is smaller
-- than a chunk by more than six bytes, `split_by_length` ends, and no chunk is larger than
-- `chunk_size`.
pub split_by_length-finishes :
    (t : TextSplitter) (text : Text)
    → IsDense text
    → t.chunk_overlap + 6 < t.chunk_size
    → (chunks : List Text) × (split_by_length t text ≡ some chunks) × Fits t chunks
unfolding split_by_length
split_by_length-finishes t text dense h =
    let r = split_from-Runs (suc (length text)) t text 0 dense h (omega arith) (omega arith) in
    (r.0, r.1.0, r.1.1)

-- In such a text and with no overlap and chunks of more than six bytes, the chunks are the text,
-- cut in pieces.
pub split_by_length-concat :
    (t : TextSplitter) (text : Text)
    → IsDense text
    → t.chunk_overlap ≡ 0
    → 6 < t.chunk_size
    → (chunks : List Text) × (split_by_length t text ≡ some chunks) × (concat chunks ≡ text)
unfolding split_by_length
split_by_length-concat t text dense z h =
    let r =
      split_from-Runs (suc (length text)) t text 0 dense (omega arith) (omega arith)
        (omega arith) in
    (r.0, r.1.0, r.1.2 z)

next_start-stuck :
    (t : TextSplitter) (text : Text)
    → t.chunk_size ≤ t.chunk_overlap
    → t.chunk_size < length text
    → 0 < t.chunk_overlap
    → next_start t text 0 (chunk_end t text 0) ≡ 0
unfolding next_start
next_start-stuck t text h k e =
    let bounds = chunk_end-bounds t text 0 in
    let le =
      back_to_boundary-le text 0
        (chunk_end t text 0 - min t.chunk_overlap (chunk_end t text 0 - 0)) in
    ground (arith, bounds.0, le)

-- With an overlap of a chunk or more, which is not 0, a text that is longer than a chunk is never
-- split: after any number of rounds the loop stands where it began.
pub split_from-stuck :
    (fuel : ℕ) (t : TextSplitter) (text : Text)
    → 0 < t.chunk_overlap
    → t.chunk_size ≤ t.chunk_overlap
    → t.chunk_size < length text
    → split_from fuel t text 0 ≡ none
unfolding split_from
split_from-stuck zero t text h k e = refl
split_from-stuck (suc fuel) t text h k e =
    let start : ltb 0 (length text) ≡ true = ground arith in
    rw (start, next_start-stuck t text k e h, split_from-stuck fuel t text h k e) refl
