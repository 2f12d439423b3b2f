-- ===== src/AgUi/Handler/Input.antt =====
-- Which inputs crates/gola-core/src/ag_ui_handler.rs takes, and which it has checked.
use mathlib.Core.List.{reverse, reverse-append}
use gola.Prelude.{
  ◌≡◌, refl, sym, ap, ◌∙◌, Bool, true, false, Bool-cases, Option, none, some, List, [], ◌∷◌, inl,
  inr, Text, any, any-append, is_empty, arith,
}
use gola.AgUi.Types.{Message, RunAgentInput}
use gola.AgUi.Handler.{
  done, is_user, has_content, last_user, validate_input, task_or_error, task_to_run,
}

any-reverse : {A : Type 0} (p : A → Bool) (xs : List A) → any p (reverse xs) ≡ any p xs
any-reverse p [] = refl
any-reverse p (x ∷ xs) =
    ap (any p) (reverse-append (x ∷ []) xs)
    ∙ any-append p (reverse xs) (x ∷ [])
    ∙ ground (arith, any-reverse p xs)

not_empty_of_any : {A : Type 0} (p : A → Bool) (xs : List A) → any p xs ≡ true → is_empty xs ≡ false
not_empty_of_any p [] h = sym h
not_empty_of_any p (x ∷ xs) h = refl

last_user-any :
    (ms : List Message) (c : Text)
    → last_user ms ≡ some c
    → is_empty c ≡ false
    → any has_content ms ≡ true
unfolding last_user
last_user-any [] c h f = cc
last_user-any (m ∷ ms) c h f = elim (Bool-cases (is_user m)) [
  | inl e ↦ has_it e
  | inr e ↦ ground (arith, last_user-any ms c (rw e at h) f)
]
  where
    has_it : is_user m ≡ true → any has_content (m ∷ ms) ≡ true
    has_it e = rw e (rw (rw e at h) (rw f))

module _ {V : Type 0} where
  task_or_error-done :
      (input : RunAgentInput V) (o : Option Text) (task : Text)
      → task_or_error input o ≡ done task
      → (c : Text) × (o ≡ some c) × (is_empty c ≡ false)
  task_or_error-done input none task h = absurd (cc h)
  task_or_error-done input (some c) task h = elim (Bool-cases (is_empty c)) [
    | inl e ↦ absurd (cc (rw e at h))
    | inr e ↦ (c, refl, e)
  ]

  -- An input that the handler runs, or answers with its greeting, is one that the check of inputs
  -- accepts.
  pub validate_input-task_to_run :
      (input : RunAgentInput V) (task : Text)
      → task_to_run input ≡ done task
      → validate_input input ≡ done tt
  unfolding validate_input task_to_run
  validate_input-task_to_run input task h =
      let (c, e, f) = task_or_error-done input (last_user (reverse input.messages)) task h in
      let found : any has_content input.messages ≡ true =
        sym (any-reverse has_content input.messages)
        ∙ last_user-any (reverse input.messages) c e f in
      rw (not_empty_of_any has_content input.messages found, found)
