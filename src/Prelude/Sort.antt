-- ===== src/Prelude/Sort.antt =====
-- `sort_by`, which is stable, by a test that says that the first may stand before the second.
use Prim.Native.Nat.{ℕ, zero, suc}
use mathlib.Core.Bool.{Bool, true, false}
use mathlib.Core.List.{List, [], ◌∷◌, Perm}
use mathlib.Core.List.Perm
use mathlib.Core.Path.{◌≡◌, refl, ap, ◌∙◌}
use mathlib.Core.Logic.{inl, inr}
use native.Mathlib.Omega.{arith}
use gola.Prelude.Tests.{if◌then◌else◌, Bool-cases}
use gola.Prelude.Lists.{Every, length, take, drop}

module _ {A : Type 0} where
  pub Every-drop : (P : A → Type 0) (n : ℕ) (xs : List A) → Every P xs → Every P (drop n xs)
  Every-drop P zero xs h = h
  Every-drop P (suc n) [] h = h
  Every-drop P (suc n) (x ∷ xs) h = Every-drop P n xs h.1

  pub Every-take : (P : A → Type 0) (n : ℕ) (xs : List A) → Every P xs → Every P (take n xs)
  Every-take P zero xs h = tt
  Every-take P (suc n) [] h = tt
  Every-take P (suc n) (x ∷ xs) h = (h.0, Every-take P n xs h.1)

pub Every-always : {A : Type 0} (xs : List A) → Every (λ x. Unit {0}) xs
Every-always [] = tt
Every-always (x ∷ xs) = (tt, Every-always xs)

module _ {A : Type 0} (le : A → A → Bool) where
  unfoldable pub insert_by : A → List A → List A
  insert_by x [] = x ∷ []
  insert_by x (y ∷ ys) = if le x y then x ∷ y ∷ ys else y ∷ insert_by x ys

  unfoldable pub sort_by : List A → List A
  unfolding insert_by
  sort_by [] = []
  sort_by (x ∷ xs) = insert_by x (sort_by xs)

  length-insert_by : (x : A) (ys : List A) → length (insert_by x ys) ≡ suc (length ys)
  unfolding insert_by
  length-insert_by x [] = refl
  length-insert_by x (y ∷ ys) = ground (arith, length-insert_by x ys)

  pub length-sort_by : (xs : List A) → length (sort_by xs) ≡ length xs
  unfolding sort_by
  length-sort_by [] = refl
  length-sort_by (x ∷ xs) = length-insert_by x (sort_by xs) ∙ ap suc (length-sort_by xs)

  Every-insert_by :
      (P : A → Type 0) (x : A) (ys : List A) → P x → Every P ys → Every P (insert_by x ys)
  unfolding insert_by
  Every-insert_by P x [] h k = (h, tt)
  Every-insert_by P x (y ∷ ys) h k = elim (Bool-cases (le x y)) [
    | inl e ↦ rw e (h, k)
    | inr e ↦ rw e (k.0, Every-insert_by P x ys h k.1)
  ]

  pub Every-sort_by : (P : A → Type 0) (xs : List A) → Every P xs → Every P (sort_by xs)
  unfolding sort_by
  Every-sort_by P [] h = tt
  Every-sort_by P (x ∷ xs) h = Every-insert_by P x (sort_by xs) h.0 (Every-sort_by P xs h.1)

  insert_by-Perm : (x : A) (ys : List A) → Perm (insert_by x ys) (x ∷ ys)
  unfolding insert_by
  insert_by-Perm x [] = Perm.refl (x ∷ [])
  insert_by-Perm x (y ∷ ys) = elim (Bool-cases (le x y)) [
    | inl e ↦ rw e (Perm.refl (x ∷ y ∷ ys))
    | inr e ↦ rw e (Perm.trans (Perm.cons y (insert_by-Perm x ys)) (Perm.swap x y ys))
  ]

  pub sort_by-Perm : (xs : List A) → Perm (sort_by xs) xs
  unfolding sort_by
  sort_by-Perm [] = Perm.refl []
  sort_by-Perm (x ∷ xs) = Perm.trans (insert_by-Perm x (sort_by xs)) (Perm.cons x (sort_by-Perm xs))

  -- Each may stand before all that follow it.
  abbrev pub InOrder : List A → Type 0
  InOrder [] = Unit
  InOrder (x ∷ xs) = Every (λ y. le x y ≡ true) xs × InOrder xs

  -- Each of the first may stand before each of the second.
  abbrev pub AllBefore : List A → List A → Type 0
  AllBefore xs ys = Every (λ x. Every (λ y. le x y ≡ true) ys) xs

  -- The order may be one among the elements of `P` only, when the list has no others.
  module _ (P : A → Type 0) (total : (x y : A) → P x → P y → le x y ≡ false → le y x ≡ true)
      (trans : (x y z : A) → P x → P y → P z → le x y ≡ true → le y z ≡ true → le x z ≡ true) where
    first-InOrder :
        (x y : A) (ys : List A)
        → P x
        → P y
        → Every P ys
        → le x y ≡ true
        → Every (λ z. le y z ≡ true) ys
        → Every (λ z. le x z ≡ true) ys
    first-InOrder x y [] p q ps h k = tt
    first-InOrder x y (z ∷ zs) p q ps h k =
        (trans x y z p q ps.0 h k.0, first-InOrder x y zs p q ps.1 h k.1)

    insert_by-InOrder :
        (x : A) (ys : List A) → P x → Every P ys → InOrder ys → InOrder (insert_by x ys)
    unfolding insert_by
    insert_by-InOrder x [] p ps h = (tt, tt)
    insert_by-InOrder x (y ∷ ys) p ps h = elim (Bool-cases (le x y)) [
      | inl e ↦ rw e ((e, first-InOrder x y ys p ps.0 ps.1 e h.0), h)
      | inr e ↦ rw e (
        Every-insert_by (λ z. le y z ≡ true) x ys (total x y p ps.0 e) h.0,
        insert_by-InOrder x ys p ps.1 h.1,
      )
    ]

    pub sort_by-InOrder : (xs : List A) → Every P xs → InOrder (sort_by xs)
    unfolding sort_by
    sort_by-InOrder [] ps = tt
    sort_by-InOrder (x ∷ xs) ps =
        insert_by-InOrder x (sort_by xs) ps.0 (Every-sort_by P xs ps.1) (sort_by-InOrder xs ps.1)

  pub take-InOrder : (n : ℕ) (xs : List A) → InOrder xs → InOrder (take n xs)
  take-InOrder zero xs h = tt
  take-InOrder (suc n) [] h = tt
  take-InOrder (suc n) (x ∷ xs) h =
      (Every-take (λ y. le x y ≡ true) n xs h.0, take-InOrder n xs h.1)

  pub take-AllBefore-drop : (n : ℕ) (xs : List A) → InOrder xs → AllBefore (take n xs) (drop n xs)
  take-AllBefore-drop zero xs h = tt
  take-AllBefore-drop (suc n) [] h = tt
  take-AllBefore-drop (suc n) (x ∷ xs) h =
      (Every-drop (λ y. le x y ≡ true) n xs h.0, take-AllBefore-drop n xs h.1)
