-- ===== src/Rag/Splitter/Length.antt =====
-- Where a round of `split_by_length` ends and the next one starts
-- (crates/gola-core/src/rag/splitter.rs).
use gola.Prelude.{
  ℕ, zero, suc, ◌+◌, ◌-◌, ◌≤◌, ◌<◌, ◌≡◌, refl, true, length, Text, is_char_boundary, arith, [], ◌∷◌,
}
use gola.Rag.Splitter.{TextSplitter, back_to_boundary, min, chunk_end, next_start}

-- No character has more than four bytes: among four places in a row there is a boundary.
abbrev pub IsDense : Text → Type 0
IsDense text =
    (i : ℕ)
    → i + 3 ≤ length text
    → (k : ℕ) × (i ≤ k) × (k ≤ i + 3) × (is_char_boundary text k ≡ true)

pub back_to_boundary-le : (text : Text) (start at : ℕ) → back_to_boundary text start at ≤ at
unfolding back_to_boundary
back_to_boundary-le text start zero = omega arith
back_to_boundary-le text start (suc at) = ground (arith, back_to_boundary-le text start at)

-- The loop does not pass over a boundary.
back_to_boundary-ge :
    (text : Text) (start at k : ℕ)
    → is_char_boundary text k ≡ true
    → k ≤ at
    → k ≤ back_to_boundary text start at
unfolding back_to_boundary
back_to_boundary-ge text start zero k h e = e
back_to_boundary-ge text start (suc at) k h e =
    ground (arith, back_to_boundary-ge text start at k h)

pub back_to_boundary-near :
    (text : Text) (start at : ℕ)
    → IsDense text
    → at ≤ length text
    → at ≤ back_to_boundary text start at + 3
back_to_boundary-near text start zero dense e = omega arith
back_to_boundary-near text start (suc zero) dense e = omega arith
back_to_boundary-near text start (suc (suc zero)) dense e = omega arith
back_to_boundary-near text start (suc (suc (suc at))) dense e =
    let b = dense at (omega arith) in
    let k = back_to_boundary-ge text start (suc (suc (suc at))) b.0 b.3 (omega (arith, b.2)) in
    omega (arith, b.1, k)

is_char_boundary-length : (text : Text) → is_char_boundary text (length text) ≡ true
unfolding is_char_boundary
is_char_boundary-length [] = refl
is_char_boundary-length (b ∷ []) = refl
is_char_boundary-length (b ∷ c ∷ text) = is_char_boundary-length (c ∷ text)

min-right : (a b : ℕ) → min a b ≤ b
min-right a b = ground arith

pub chunk_end-bounds :
    (t : TextSplitter) (text : Text) (start : ℕ)
    → (chunk_end t text start ≤ start + t.chunk_size) × (chunk_end t text start ≤ length text)
unfolding chunk_end
chunk_end-bounds t text start =
    let le = back_to_boundary-le text start (min (start + t.chunk_size) (length text)) in
    (ground (arith, le), ground (arith, le))

chunk_end-near :
    (t : TextSplitter) (text : Text) (start : ℕ)
    → IsDense text
    → chunk_end t text start < length text
    → start + t.chunk_size ≤ chunk_end t text start + 3
unfolding chunk_end
chunk_end-near t text start dense h =
    let at = min (start + t.chunk_size) (length text) in
    let at_end = back_to_boundary-ge text start at (length text) (is_char_boundary-length text) in
    let near =
      back_to_boundary-near text start at dense (min-right (start + t.chunk_size) (length text)) in
    ground (arith, near, at_end)

pub next_start-le :
    (t : TextSplitter) (text : Text) (start end : ℕ)
    → end ≤ length text
    → next_start t text start end ≤ length text
unfolding next_start
next_start-le t text start end h =
    ground (arith, back_to_boundary-le text start (end - min t.chunk_overlap (end - start)))

-- With an overlap that is smaller than a chunk by more than the room of two characters, each
-- round starts behind the last one.
pub next_start-advances :
    (t : TextSplitter) (text : Text) (start : ℕ)
    → IsDense text
    → t.chunk_overlap + 6 < t.chunk_size
    → start < length text
    → start < next_start t text start (chunk_end t text start)
unfolding next_start
next_start-advances t text start dense h k =
    let end = chunk_end t text start in
    let bounds = chunk_end-bounds t text start in
    let far = chunk_end-near t text start dense in
    let at = end - min t.chunk_overlap (end - start) in
    let near = back_to_boundary-near text start at dense (omega (arith, bounds.1)) in
    ground (arith, bounds.0, bounds.1, far, near)
