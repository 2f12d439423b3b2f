-- ===== src/Tests/Splitter.antt =====
-- Tests of crates/gola-core/src/rag/splitter.rs.
use gola.Prelude.{
  split_on, ℕ, zero, suc, ◌≤◌, ◌≡◌, refl, true, none, some, List, [], ◌∷◌, arith, Text, codes,
  is_char_boundary,
}
use gola.Rag.Splitter.{new, back_to_boundary, split_from, split_by_length, split_text}
use gola.Rag.Splitter.Length.{IsDense}
use gola.Rag.Splitter.Finishes.{
  Fits, concat, split_by_length-finishes, split_by_length-concat, split_from-stuck,
}

abbrev digits : Text
digits = codes "0123456789"

by_length :
    split_by_length (new 4 1) digits ≡ some (codes "0123" ∷ codes "3456" ∷ codes "6789" ∷ [])
unfolding split_by_length back_to_boundary is_char_boundary
by_length = refl

-- At the spaces, with the overlap in front of the separator.
at_spaces :
    split_text (new 8 2) (codes "one two three") ≡ some (codes "one two" ∷ codes "wo three" ∷ [])
unfolding split_text split_on back_to_boundary is_char_boundary
at_spaces = refl

-- The overlap makes a chunk larger than `chunk_size`.
too_large :
    split_text (new 6 4) (codes "abcde fghij") ≡ some (codes "abcde" ∷ codes "bcde fghij" ∷ [])
unfolding split_text split_on back_to_boundary is_char_boundary
too_large = refl

ascii : (k : ℕ) → k ≤ 10 → is_char_boundary digits k ≡ true
unfolding is_char_boundary
ascii zero h = refl
ascii (suc zero) h = refl
ascii (suc (suc zero)) h = refl
ascii (suc (suc (suc zero))) h = refl
ascii (suc (suc (suc (suc zero)))) h = refl
ascii (suc (suc (suc (suc (suc zero))))) h = refl
ascii (suc (suc (suc (suc (suc (suc zero)))))) h = refl
ascii (suc (suc (suc (suc (suc (suc (suc zero))))))) h = refl
ascii (suc (suc (suc (suc (suc (suc (suc (suc zero)))))))) h = refl
ascii (suc (suc (suc (suc (suc (suc (suc (suc (suc zero))))))))) h = refl
ascii (suc (suc (suc (suc (suc (suc (suc (suc (suc (suc zero)))))))))) h = refl
ascii (suc (suc (suc (suc (suc (suc (suc (suc (suc (suc (suc k))))))))))) h = absurd (omega arith)

digits-IsDense : IsDense digits
digits-IsDense i h = (i, omega arith, omega arith, ascii i (omega arith))

split_by_length-finishes_example :
    (chunks : List Text) × (split_by_length (new 8 1) digits ≡ some chunks) × Fits (new 8 1) chunks
split_by_length-finishes_example =
    split_by_length-finishes (new 8 1) digits digits-IsDense (omega arith)

split_by_length-concat_example :
    (chunks : List Text) × (split_by_length (new 7 0) digits ≡ some chunks)
    × (concat chunks ≡ digits)
split_by_length-concat_example =
    split_by_length-concat (new 7 0) digits digits-IsDense refl (omega arith)

split_from-stuck_example : split_from 1000 (new 4 4) digits 0 ≡ none
split_from-stuck_example =
    split_from-stuck 1000 (new 4 4) digits (omega arith) (omega arith) (omega arith)
