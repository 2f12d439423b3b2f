-- ===== src/Prelude/Texts.antt =====
-- Rust's `String`: the list of its UTF-8 bytes, so that `len` is the length of the list.
use Prim.Native.Nat.{ℕ, zero, suc, ◌+◌, ◌/◌, ◌%◌, ◌≤◌}
use Prim.Native.Char.{code}
use Prim.Native.String.{String}
use mathlib.Core.Path.{◌≡◌, refl}
use mathlib.Core.Logic.{◌↔◌}
use mathlib.Core.Bool.{Bool, true, false, ◌&&◌, ◌||◌}
use mathlib.Core.List.{List, [], ◌∷◌, ◌++◌}
use native.Mathlib.Omega.{arith}
use gola.Prelude.Tests.{◌==◌, ltb, leb, if◌then◌else◌}

abbrev pub Text : Type 0
Text = List ℕ

-- An ASCII literal of the source.
abbrev pub codes : String → Text
codes String.[] = []
codes (String.◌∷◌ c s) = code c ∷ codes s

unfoldable pub same : Text → Text → Bool
same [] [] = true
same [] (b ∷ t) = false
same (a ∷ s) [] = false
same (a ∷ s) (b ∷ t) = (a == b) && same s t

pub same_refl : (s : Text) → same s s ≡ true
unfolding same
same_refl [] = refl
same_refl (a ∷ s) = ground (arith, same_refl s)

pub eq_of_same : (s t : Text) → same s t ≡ true → s ≡ t
unfolding same
eq_of_same [] [] h = refl
eq_of_same [] (b ∷ t) h = ground arith
eq_of_same (a ∷ s) [] h = ground arith
eq_of_same (a ∷ s) (b ∷ t) h = ground (arith, eq_of_same s t)

pub same_of_eq : (s t : Text) → s ≡ t → same s t ≡ true
same_of_eq s t e = rw e (same_refl t)

pub same_iff : (s t : Text) → (same s t ≡ true) ↔ (s ≡ t)
same_iff s t = (eq_of_same s t, same_of_eq s t)

-- `names.contains(name)`
abbrev pub contains : List Text → Text → Bool
contains [] x = false
contains (y ∷ ys) x = same y x || contains ys x

pub contains-append :
    (xs ys : List Text) (x : Text) → contains (xs ++ ys) x ≡ (contains xs x || contains ys x)
contains-append [] ys x = refl
contains-append (y ∷ xs) ys x = ground (arith, contains-append xs ys x)

-- `to_string` of an unsigned number below 10 ^ 20, as every `usize` and `u64` is.
abbrev write_digits : ℕ → ℕ → Text → Text
write_digits zero n acc = acc
write_digits (suc fuel) n acc =
    let digit = 48 + n % 10 in
    let rest = write_digits fuel (n / 10) (digit ∷ acc) in if ltb n 10 then digit ∷ acc else rest

unfoldable pub decimal : ℕ → Text
decimal n = write_digits 20 n []

-- `is_char_boundary`: the ends, and every byte that does not continue a character.
unfoldable pub is_char_boundary : Text → ℕ → Bool
is_char_boundary [] zero = true
is_char_boundary [] (suc i) = false
is_char_boundary (b ∷ s) zero = true
is_char_boundary (b ∷ []) (suc i) = is_char_boundary [] i
is_char_boundary (b ∷ c ∷ s) (suc zero) = ltb c 128 || leb 192 c
is_char_boundary (b ∷ c ∷ s) (suc (suc i)) = is_char_boundary (c ∷ s) (suc i)

-- `while !s.is_char_boundary(end) { end -= 1 }`
unfoldable pub floor_boundary : Text → ℕ → ℕ
floor_boundary s zero = zero
floor_boundary s (suc n) =
    let rest = floor_boundary s n in if is_char_boundary s (suc n) then suc n else rest

pub floor_boundary-le : (s : Text) (n : ℕ) → floor_boundary s n ≤ n
unfolding floor_boundary
floor_boundary-le s zero = omega arith
floor_boundary-le s (suc n) = ground (arith, floor_boundary-le s n)

is_char_boundary-zero : (s : Text) → is_char_boundary s 0 ≡ true
unfolding is_char_boundary
is_char_boundary-zero [] = refl
is_char_boundary-zero (b ∷ s) = refl

-- The loop stops at a boundary.
pub is_char_boundary-floor_boundary :
    (s : Text) (n : ℕ) → is_char_boundary s (floor_boundary s n) ≡ true
unfolding floor_boundary
is_char_boundary-floor_boundary s zero = is_char_boundary-zero s
is_char_boundary-floor_boundary s (suc n) = ground (arith, is_char_boundary-floor_boundary s n)

pub same_comm : (s t : Text) → same s t ≡ same t s
unfolding same
same_comm [] [] = refl
same_comm [] (b ∷ t) = refl
same_comm (a ∷ s) [] = refl
same_comm (a ∷ s) (b ∷ t) = ground (arith, same_comm s t)
