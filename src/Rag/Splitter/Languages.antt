-- ===== src/Rag/Splitter/Languages.antt =====
-- `LanguageTextSplitter` of crates/gola-core/src/rag/splitter.rs. `to_lowercase` is the standard
-- library's.
use gola.Prelude.{ℕ, List, [], ◌∷◌, ◌++◌, Text, codes, contains, if◌then◌else◌}
use gola.Rag.Splitter.{TextSplitter, plain_separators}

-- The literals of a table, in front of the separators of every language.
abbrev headed : List Text → List Text
headed heads = heads ++ plain_separators

unfoldable pub get_separators_for_language : (Text → Text) → Text → List Text
get_separators_for_language to_lowercase language =
    let name = to_lowercase language in
    if contains (codes "python" ∷ codes "py" ∷ []) name
    then headed (codes "\nclass " ∷ codes "\ndef " ∷ [])
    else if contains (codes "javascript" ∷ codes "js" ∷ codes "typescript" ∷ codes "ts" ∷ []) name
    then headed (
        codes "\nfunction "
        ∷ codes "\nconst "
        ∷ codes "\nlet "
        ∷ codes "\nvar "
        ∷ codes "\nclass "
        ∷ [])
    else if contains (codes "rust" ∷ codes "rs" ∷ []) name
    then headed (
        codes "\nfn "
        ∷ codes "\nstruct "
        ∷ codes "\nenum "
        ∷ codes "\nimpl "
        ∷ codes "\ntrait "
        ∷ [])
    else if contains (codes "java" ∷ []) name
    then headed (
        codes "\nclass "
        ∷ codes "\ninterface "
        ∷ codes "\nenum "
        ∷ codes "\npublic "
        ∷ codes "\nprivate "
        ∷ codes "\nprotected "
        ∷ [])
    else if contains (codes "markdown" ∷ codes "md" ∷ []) name
    then headed (
        codes "\n## "
        ∷ codes "\n### "
        ∷ codes "\n#### "
        ∷ codes "\n##### "
        ∷ codes "\n###### "
        ∷ [])
    else if contains (codes "html" ∷ []) name
    then headed (
        codes "\n<div"
        ∷ codes "\n<p"
        ∷ codes "\n<br"
        ∷ codes "\n<li"
        ∷ codes "\n<h1"
        ∷ codes "\n<h2"
        ∷ codes "\n<h3"
        ∷ codes "\n<h4"
        ∷ codes "\n<h5"
        ∷ codes "\n<h6"
        ∷ [])
    else plain_separators

unfoldable pub for_language : (Text → Text) → Text → ℕ → ℕ → TextSplitter
for_language to_lowercase language size overlap = record {
  chunk_size = size;
  chunk_overlap = overlap;
  separators = get_separators_for_language to_lowercase language;
}
