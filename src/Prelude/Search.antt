-- ===== src/Prelude/Search.antt =====
-- Parts of a `str`: `starts_with`, `contains`, `replace` and `split`.
use mathlib.Core.Bool.{Bool, true, false, ◌&&◌, ◌||◌}
use mathlib.Core.List.{List, [], ◌∷◌, ◌++◌}
use Prim.Native.Nat.{ℕ, zero, suc, ◌-◌}
use gola.Prelude.Tests.{if◌then◌else◌, ◌==◌}
use gola.Prelude.Lists.{length}
use gola.Prelude.Texts.{Text}

abbrev pub starts_with : Text → Text → Bool
starts_with [] s = true
starts_with (p ∷ ps) [] = false
starts_with (p ∷ ps) (c ∷ s) = (c == p) && starts_with ps s

-- `str::contains`
unfoldable pub has : Text → Text → Bool
has [] part = starts_with part []
has (c ∷ s) part = starts_with part (c ∷ s) || has s part

-- `str::replace`, from left to right. The number counts the bytes of a match that are to be
-- passed over.
unfoldable pub replace_from : ℕ → Text → Text → Text → Text
replace_from skip from to [] = []
replace_from (suc skip) from to (c ∷ s) = replace_from skip from to s
replace_from zero from to (c ∷ s) =
    let matched = replace_from (length from - 1) from to s in
    let moved = replace_from zero from to s in
    if starts_with from (c ∷ s) then to ++ matched else c ∷ moved

-- `text.split(separator)` for a separator that is not empty: `skip` bytes belong to a match, and
-- `piece` is what came since the last one.
unfoldable pub split_on : ℕ → Text → Text → Text → List Text
split_on skip separator piece [] = piece ∷ []
split_on (suc skip) separator piece (b ∷ text) = split_on skip separator piece text
split_on zero separator piece (b ∷ text) =
    let matched = split_on (length separator - 1) separator [] text in
    let moved = split_on zero separator (piece ++ b ∷ []) text in
    if starts_with separator (b ∷ text) then piece ∷ matched else moved
