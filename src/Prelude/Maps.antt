-- ===== src/Prelude/Maps.antt =====
-- `HashMap` as an association list. The order of a hash map is not specified: what depends on it is
-- stated of every order.
use mathlib.Core.Path.{◌≡◌, refl}
use mathlib.Core.Logic.{◌↔◌}
use mathlib.Core.Bool.{Bool, true}
use mathlib.Core.Option.{Option, none, some}
use mathlib.Core.List.{List, [], ◌∷◌}
use native.Mathlib.Omega.{arith}
use Prim.Native.Nat.{ℕ}
use gola.Prelude.Tests.{if◌then◌else◌, ◌==◌, ==_iff}
use gola.Prelude.Texts.{Text, same, same_iff}

-- A key type, with the test that the map compares keys by.
pub record Key (K : Type 0) : Type 0 where
  pub matches : K → K → Bool
  pub matches_iff : (j k : K) → (matches j k ≡ true) ↔ (j ≡ k)

instance abbrev pub number_key : Key ℕ
number_key = record { matches = ◌==◌; matches_iff = ==_iff }

instance abbrev pub text_key : Key Text
text_key = record { matches = same; matches_iff = same_iff }

module _ {K V : Type 0} ⦃key : Key K⦄ where
  unfoldable pub lookup : K → List (K × V) → Option V
  lookup k [] = none
  lookup k ((j, v) ∷ m) = if key.matches j k then some v else lookup k m

  -- `insert`: the entry is replaced where it stands, or added.
  unfoldable pub put : K → V → List (K × V) → List (K × V)
  put k v [] = (k, v) ∷ []
  put k v ((j, w) ∷ m) = if key.matches j k then (k, v) ∷ m else (j, w) ∷ put k v m

  unfoldable pub remove : K → List (K × V) → List (K × V)
  remove k [] = []
  remove k ((j, v) ∷ m) = let rest = remove k m in if key.matches j k then rest else (j, v) ∷ rest

  pub lookup-put :
      (k j : K) (v : V) (m : List (K × V))
      → lookup j (put k v m) ≡ (if key.matches k j then some v else lookup j m)
  unfolding lookup put
  lookup-put k j v [] = refl
  lookup-put k j v ((i, w) ∷ m) =
      ground
        (arith, key.matches_iff k j, key.matches_iff i k, key.matches_iff i j, lookup-put k j v m)

  pub lookup-remove :
      (k j : K) (m : List (K × V))
      → lookup j (remove k m) ≡ (if key.matches k j then none else lookup j m)
  unfolding lookup remove
  lookup-remove k j [] = ground arith
  lookup-remove k j ((i, w) ∷ m) =
      ground
        (arith, key.matches_iff k j, key.matches_iff i k, key.matches_iff i j, lookup-remove k j m)

pub ruleset map_laws = (lookup-put, lookup-remove)
