-- ===== src/Core/Action.antt =====
-- A method with `&mut self` that may fail: what it has changed before an error stays changed. `S` is
-- the type of the state.
use gola.Core.Errors.{AgentError, Result, ok, err}

abbrev pub Action : Type 0 → Type 0 → Type 0
Action S A = S → Result A × S

module _ {S A : Type 0} where
  abbrev pub pure : A → Action S A
  pure x s = (ok x, s)

  abbrev pub raise : AgentError → Action S A
  raise e s = (err e, s)

  abbrev pub gets : (S → A) → Action S A
  gets f s = (ok (f s), s)

module _ {S : Type 0} where
  abbrev pub modify : (S → S) → Action S (Unit {0})
  modify f s = (ok tt, f s)

module _ {S A B : Type 0} where
  -- `?`: an error ends the method.
  abbrev pub then_on : (A → Action S B) → Result A × S → Result B × S
  then_on f (ok x, s) = f x s
  then_on f (err e, s) = (err e, s)

infixl 5 ◌>>=◌ ◌>>◌
unfoldable pub ◌>>=◌ : {S A B : Type 0} → Action S A → (A → Action S B) → Action S B
◌>>=◌ m f s = then_on f (m s)

abbrev pub ◌>>◌ : {S A B : Type 0} → Action S A → Action S B → Action S B
m >> k = m >>= λ _. k

module _ {S : Type 0} where
  -- From a state with `P`, whatever the result, the method leaves one with `Q`.
  abbrev pub Ensures {ℓ κ} : {A : Type 0} → (S → Type ℓ) → Action S A → (S → Type κ) → Type (ℓ ⊔ κ)
  Ensures P m Q = (s : S) → P s → Q (m s).1

  pub >>=-Ensures {ℓ κ} :
      {A B : Type 0} (P : S → Type ℓ) (Q : S → Type κ) (m : Action S A) (f : A → Action S B)
      → Ensures P m Q
      → ((x : A) → Ensures Q (f x) Q)
      → Ensures P (m >>= f) Q
  unfolding ◌>>=◌
  >>=-Ensures P Q m f h k s p = go (m s) (h s p)
    where
      go : (r : Result _ × S) → Q r.1 → Q (then_on f r).1
      go (ok x, s) q = k x s q
      go (err e, s) q = q
