-- ===== src/Rag/Splitter.antt =====
-- crates/gola-core/src/rag/splitter.rs: documents are split into chunks, at separators and, where
-- there is none left, by length. The loop of `split_by_length` need not end: it runs on fuel, and
-- `none` is a run that has used it up. Each round that advances takes at least one byte, so that a
-- round for each byte and one to see the end are enough for every run that ends.
pub mod Length
pub mod Finishes
pub mod Languages
use gola.Prelude.{
  split_on, ℕ, zero, suc, ◌+◌, ◌-◌, Bool, true, false, not, ◌&&◌, ◌||◌, Option, none, some, List,
  [], ◌∷◌, ◌++◌, length, take, drop, is_empty, Text, codes, same, ltb, leb, is_char_boundary,
  contains, if◌then◌else◌,
}

pub record TextSplitter : Type 0 where
  pub chunk_size : ℕ
  pub chunk_overlap : ℕ
  pub separators : List Text

abbrev pub plain_separators : List Text
plain_separators = codes "\n\n" ∷ codes "\n" ∷ codes " " ∷ [] ∷ []

abbrev pub new : ℕ → ℕ → TextSplitter
new size overlap = record {
  chunk_size = size;
  chunk_overlap = overlap;
  separators = plain_separators;
}

abbrev pub with_separators : TextSplitter → List Text → TextSplitter
with_separators t separators = record t { separators = separators }

-- `while at > start && !text.is_char_boundary(at) { at -= 1 }`
unfoldable pub back_to_boundary : Text → ℕ → ℕ → ℕ
back_to_boundary text start zero = zero
back_to_boundary text start (suc at) =
    let rest = back_to_boundary text start at in
    if ltb start (suc at) && not (is_char_boundary text (suc at)) then rest else suc at

abbrev pub min : ℕ → ℕ → ℕ
min a b = if leb a b then a else b

-- `text[start..end]`
abbrev pub between : Text → ℕ → ℕ → Text
between text start end = take (end - start) (drop start text)

unfoldable pub chunk_end : TextSplitter → Text → ℕ → ℕ
chunk_end t text start = back_to_boundary text start (min (start + t.chunk_size) (length text))

-- Where the next round starts.
unfoldable pub next_start : TextSplitter → Text → ℕ → ℕ → ℕ
next_start t text start end =
    if ltb 0 t.chunk_overlap && ltb end (length text)
    then back_to_boundary text start (end - min t.chunk_overlap (end - start))
    else end

abbrev pub then_chunks : Text → Option (List Text) → Option (List Text)
then_chunks chunk none = none
then_chunks chunk (some chunks) = some (chunk ∷ chunks)

unfoldable pub split_from : ℕ → TextSplitter → Text → ℕ → Option (List Text)
unfolding chunk_end next_start
split_from zero t text start = none
split_from (suc fuel) t text start =
    let end = chunk_end t text start in
    let rest = split_from fuel t text (next_start t text start end) in
    if ltb start (length text) then then_chunks (between text start end) rest else some []

unfoldable pub split_by_length : TextSplitter → Text → Option (List Text)
unfolding split_from
split_by_length t text = split_from (suc (length text)) t text 0

unfoldable pub joined : Text → Text → Text → Text
joined separator current split = if is_empty current then split else current ++ separator ++ split

-- What stays of a chunk that has been given out.
unfoldable pub overlap_of : TextSplitter → Text → Text
overlap_of t current =
    if ltb 0 t.chunk_overlap && ltb t.chunk_overlap (length current)
    then drop (back_to_boundary current 0 (length current - t.chunk_overlap)) current
    else []

abbrev pub with_chunk : Text → List Text → List Text
with_chunk current chunks = if is_empty current then chunks else current ∷ chunks

abbrev append_chunks : Option (List Text) → Option (List Text) → Option (List Text)
append_chunks (some xs) (some ys) = some (xs ++ ys)
append_chunks _ _ = none

abbrev pub after_chunk : Text → Option (List Text) → Option (List Text)
after_chunk current none = none
after_chunk current (some chunks) = some (with_chunk current chunks)

-- The loop over the splits, with `recurse` for the splits that are too large.
unfoldable pub merge_splits :
    TextSplitter → Text → (Text → Option (List Text)) → Text → List Text → Option (List Text)
unfolding joined overlap_of
merge_splits t separator recurse current [] = some (with_chunk current [])
merge_splits t separator recurse current (split ∷ splits) =
    let potential = joined separator current split in
    let kept = if is_empty current then [] else overlap_of t current in
    let grown = merge_splits t separator recurse potential splits in
    let large =
      after_chunk current
        (append_chunks (recurse split) (merge_splits t separator recurse kept splits)) in
    let fresh =
      after_chunk current (merge_splits t separator recurse (joined separator kept split) splits) in
    if leb (length potential) t.chunk_size
    then grown
    else if ltb t.chunk_size (length split)
    then large
    else fresh

unfoldable pub recursive_split : TextSplitter → List Text → Text → Option (List Text)
unfolding merge_splits split_by_length
recursive_split t [] text = split_by_length t text
recursive_split t (separator ∷ separators) text =
    if is_empty separator
    then split_by_length t text
    else merge_splits t separator (λ split. recursive_split t separators split) []
        (split_on zero separator [] text)

unfoldable pub split_text : TextSplitter → Text → Option (List Text)
unfolding recursive_split
split_text t text =
    if leb (length text) t.chunk_size then some (text ∷ []) else recursive_split t t.separators text
