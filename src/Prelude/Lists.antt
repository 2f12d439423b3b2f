-- ===== src/Prelude/Lists.antt =====
-- Lists measured by native numbers, under the library's names, and `retain`, the filter by a
-- Boolean test that Rust's `Vec::retain` and `Iterator::filter` make.
use Prim.Native.Nat.{ℕ, zero, suc, ◌+◌, ◌-◌, ◌≤◌, ◌<◌, min}
use mathlib.Core.Path.{◌≡◌, refl, ap}
use mathlib.Core.Logic.{inl, inr}
use mathlib.Core.Bool.{Bool, true, false, ◌&&◌, ◌||◌}
use mathlib.Core.List.{List, [], ◌∷◌, ◌++◌}
use mathlib.Core.Option.{Option, none, some}
use native.Mathlib.Omega.{arith}
use gola.Prelude.Tests.{leb, Bool-cases, if◌then◌else◌}

module _ {ℓ} {A : Type ℓ} where
  abbrev pub length : List A → ℕ
  length [] = 0
  length (x ∷ xs) = suc (length xs)

  abbrev pub take : ℕ → List A → List A
  take zero xs = []
  take (suc n) [] = []
  take (suc n) (x ∷ xs) = x ∷ take n xs

  abbrev pub drop : ℕ → List A → List A
  drop zero xs = xs
  drop (suc n) [] = []
  drop (suc n) (x ∷ xs) = drop n xs

  abbrev pub is_empty : List A → Bool
  is_empty [] = true
  is_empty (x ∷ xs) = false

  abbrev pub retain : (A → Bool) → List A → List A
  retain p [] = []
  retain p (x ∷ xs) = let rest = retain p xs in if p x then x ∷ rest else rest

  abbrev pub any : (A → Bool) → List A → Bool
  any p [] = false
  any p (x ∷ xs) = p x || any p xs

  pub length-append : (xs ys : List A) → length (xs ++ ys) ≡ length xs + length ys
  length-append [] ys = omega arith
  length-append (x ∷ xs) ys = omega (arith, length-append xs ys)

  pub take-append-drop : (n : ℕ) (xs : List A) → take n xs ++ drop n xs ≡ xs
  take-append-drop zero xs = refl
  take-append-drop (suc n) [] = refl
  take-append-drop (suc n) (x ∷ xs) = ap (◌∷◌ x) (take-append-drop n xs)

  pub length-take : (n : ℕ) (xs : List A) → length (take n xs) ≡ min n (length xs)
  length-take zero xs = omega arith
  length-take (suc n) [] = omega arith
  length-take (suc n) (x ∷ xs) = omega (arith, length-take n xs)

  pub length-drop : (n : ℕ) (xs : List A) → length (drop n xs) ≡ length xs - n
  length-drop zero xs = omega arith
  length-drop (suc n) [] = omega arith
  length-drop (suc n) (x ∷ xs) = omega (arith, length-drop n xs)

  pub length-retain-le : (p : A → Bool) (xs : List A) → length (retain p xs) ≤ length xs
  length-retain-le p [] = omega arith
  length-retain-le p (x ∷ xs) = ground (arith, length-retain-le p xs)

  pub retain-append :
      (p : A → Bool) (xs ys : List A) → retain p (xs ++ ys) ≡ retain p xs ++ retain p ys
  retain-append p [] ys = refl
  retain-append p (x ∷ xs) ys = ground (arith, retain-append p xs ys)

module _ {ℓ} {A : Type ℓ} where
  -- `Vec::insert`. Past the end, where Rust panics, the element is put last.
  abbrev pub insert : ℕ → A → List A → List A
  insert zero x xs = x ∷ xs
  insert (suc i) x [] = x ∷ []
  insert (suc i) x (y ∷ ys) = y ∷ insert i x ys

  -- The write through `get_mut`: past the end nothing changes.
  abbrev pub set : ℕ → A → List A → List A
  set i x [] = []
  set zero x (y ∷ ys) = x ∷ ys
  set (suc i) x (y ∷ ys) = y ∷ set i x ys

  abbrev pub get_elem? : List A → ℕ → Option A
  get_elem? [] i = none
  get_elem? (x ∷ xs) zero = some x
  get_elem? (x ∷ xs) (suc i) = get_elem? xs i

  pub drop-append : (k : ℕ) (xs ys : List A) → k ≤ length xs → drop k (xs ++ ys) ≡ drop k xs ++ ys
  drop-append zero xs ys h = refl
  drop-append (suc k) [] ys h = absurd (omega arith)
  drop-append (suc k) (x ∷ xs) ys h = drop-append k xs ys (omega arith)

  pub take-append : (k : ℕ) (xs ys : List A) → k ≤ length xs → take k (xs ++ ys) ≡ take k xs
  take-append zero xs ys h = refl
  take-append (suc k) [] ys h = absurd (omega arith)
  take-append (suc k) (x ∷ xs) ys h = ap (◌∷◌ x) (take-append k xs ys (omega arith))

  pub drop_all : (k : ℕ) (xs : List A) → length xs ≤ k → drop k xs ≡ []
  drop_all zero [] h = refl
  drop_all zero (x ∷ xs) h = absurd (omega arith)
  drop_all (suc k) [] h = refl
  drop_all (suc k) (x ∷ xs) h = drop_all k xs (omega arith)

  pub drop-one-drop : (k : ℕ) (xs : List A) → drop 1 (drop k xs) ≡ drop (suc k) xs
  drop-one-drop zero [] = refl
  drop-one-drop zero (x ∷ xs) = refl
  drop-one-drop (suc k) [] = refl
  drop-one-drop (suc k) (x ∷ xs) = drop-one-drop k xs

  pub insert-append : (xs ys : List A) (x : A) → insert (length xs) x (xs ++ ys) ≡ xs ++ x ∷ ys
  insert-append [] ys x = refl
  insert-append (y ∷ xs) ys x = ap (◌∷◌ y) (insert-append xs ys x)

  pub set-append : (xs ys : List A) (x y : A) → set (length xs) x (xs ++ y ∷ ys) ≡ xs ++ x ∷ ys
  set-append [] ys x y = refl
  set-append (z ∷ xs) ys x y = ap (◌∷◌ z) (set-append xs ys x y)

  pub get_elem?-append : (xs ys : List A) (y : A) → get_elem? (xs ++ y ∷ ys) (length xs) ≡ some y
  get_elem?-append [] ys y = refl
  get_elem?-append (x ∷ xs) ys y = get_elem?-append xs ys y

  pub retain_all : (p : A → Bool) (xs : List A) → ((x : A) → p x ≡ true) → retain p xs ≡ xs
  retain_all p [] h = refl
  retain_all p (x ∷ xs) h = ground (arith, h x, retain_all p xs h)

  pub retain_ext :
      (p q : A → Bool) (xs : List A) → ((x : A) → p x ≡ q x) → retain p xs ≡ retain q xs
  retain_ext p q [] h = refl
  retain_ext p q (x ∷ xs) h = ground (arith, h x, retain_ext p q xs h)

  pub retain-retain :
      (p q : A → Bool) (xs : List A) → retain p (retain q xs) ≡ retain (λ x. q x && p x) xs
  retain-retain p q [] = refl
  retain-retain p q (x ∷ xs) = ground (arith, retain-retain p q xs)

  pub any-append : (p : A → Bool) (xs ys : List A) → any p (xs ++ ys) ≡ (any p xs || any p ys)
  any-append p [] ys = refl
  any-append p (x ∷ xs) ys = ground (arith, any-append p xs ys)

module _ {ℓ} {A : Type ℓ} where
  -- The `n` most recent messages.
  abbrev pub latest : ℕ → List A → List A
  latest n ms = drop (length ms - n) ms

  pub latest-append :
      (n : ℕ) (ms : List A) (m : A)
      → 0 < n
      → latest n (ms ++ m ∷ [])
        ≡ (if leb n (length (latest n ms)) then drop 1 (latest n ms) else latest n ms) ++ m ∷ []
  latest-append n ms m h = elim (Bool-cases (leb n (length (latest n ms)))) [
    | inl e ↦
        let longer : length ms + 1 - n ≡ suc (length ms - n) =
          ground (arith, length-drop (length ms - n) ms) in
        rw (e, length-append ms (m ∷ []), longer, drop-one-drop)
          (drop-append (suc (length ms - n)) ms (m ∷ []) (omega arith))
    | inr e ↦
        let short : length ms + 1 - n ≡ 0 = ground (arith, length-drop (length ms - n) ms) in
        let fits : length ms - n ≡ 0 = omega arith in
        rw (e, length-append ms (m ∷ []), short, fits) refl
  ]

module _ {ℓ κ} {A : Type ℓ} where
  -- Every element has the property.
  abbrev pub Every : (A → Type κ) → List A → Type κ
  Every P [] = Unit
  Every P (x ∷ xs) = P x × Every P xs

  pub Every-append :
      (P : A → Type κ) (xs ys : List A) → Every P xs → Every P ys → Every P (xs ++ ys)
  Every-append P [] ys h k = k
  Every-append P (x ∷ xs) ys h k = (h.0, Every-append P xs ys h.1 k)
