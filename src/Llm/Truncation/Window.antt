-- ===== src/Llm/Truncation/Window.antt =====
-- Which messages are left after crates/gola-core/src/llm/context_truncation.rs has removed some.
use gola.Prelude.{
  ℕ, zero, suc, ◌-◌, ◌≤◌, ◌≡◌, refl, sym, ap, ◌∙◌, true, Option, some, List, [], ◌∷◌, ◌++◌, length,
  length-append, drop, drop-append, append_assoc, insert, insert-append, Bool-cases, inl, inr, ltb,
  ◌==◌, Text, arith, if◌then◌else◌,
}
use gola.Core.Types.{Role, system, user, assistant, tool, ToolCall, Message}
use gola.Llm.Truncation.{system_first, last, kept_messages, remove_messages, truncation_notice}
use gola.Memory.Prompt.{system_message}

module _ {V : Type 0} where
  pub last-append : (ms : List (Message V)) (m : Message V) → last (ms ++ m ∷ []) ≡ some m
  unfolding last
  last-append [] m = refl
  last-append (x ∷ []) m = refl
  last-append (x ∷ y ∷ ms) m = last-append (y ∷ ms) m

  -- What is kept ends with the last of the messages.
  kept_messages-append :
      (ms : List (Message V)) (m : Message V) (n : ℕ)
      → (front : List (Message V)) × (kept_messages (ms ++ m ∷ []) n ≡ front ++ m ∷ [])
  unfolding kept_messages
  kept_messages-append ms m n = elim (Bool-cases (length (ms ++ m ∷ []) - n == 0)) [
    | inl e ↦ ([], rw (e, last-append ms m) refl)
    | inr e ↦
        let at = length (ms ++ m ∷ []) - (length (ms ++ m ∷ []) - n) in
        let short : at ≤ length ms = ground (arith, length-append ms (m ∷ [])) in
        (drop at ms, rw (e, drop-append at ms (m ∷ []) short) refl)
  ]

  -- The messages with the notice, in their places.
  unfoldable pub noticed : ℕ → List (Message V)
  noticed zero = []
  noticed (suc n) = system_message (truncation_notice (suc n)) ∷ []

  insert-noticed :
      (first kept : List (Message V)) (n : ℕ)
      → (if ltb 0 n
          then insert (length first) (system_message (truncation_notice n)) (first ++ kept)
          else first ++ kept)
        ≡ first ++ (noticed n ++ kept)
  unfolding noticed
  insert-noticed first kept zero = refl
  insert-noticed first kept (suc n) =
      let p : ltb 0 (suc n) ≡ true = ground arith in
      rw p (insert-append first kept (system_message (truncation_notice (suc n))))

  remove_messages-noticed :
      (part : ℕ → ℕ) (ms first remaining : List (Message V))
      → system_first ms ≡ (first, remaining)
      → remove_messages part ms
        ≡ first
          ++ (noticed (part (length remaining))
              ++ kept_messages remaining (part (length remaining)))
  unfolding remove_messages
  remove_messages-noticed part ms first remaining h = rw h (
      insert-noticed first (kept_messages remaining (part (length remaining)))
        (part (length remaining)))

  system_first-last :
      (r : Role) (c : Text) (t : Option Text) (ts : Option (List (ToolCall V)))
      (ms : List (Message V)) (y : Message V)
      → let x : Message V = record { role = r; content = c; tool_call_id = t; tool_calls = ts } in
        (first : List (Message V)) × (rest : List (Message V)) × (system_first (x ∷ ms ++ y ∷ [])
          ≡ (first, rest ++ y ∷ []))
  unfolding system_first
  system_first-last system c t ts ms y = (_, ms, refl)
  system_first-last user c t ts ms y = ([], _ ∷ ms, refl)
  system_first-last assistant c t ts ms y = ([], _ ∷ ms, refl)
  system_first-last tool c t ts ms y = ([], _ ∷ ms, refl)

  -- Whatever part is to be removed, a conversation of two messages or more still ends with its
  -- last message.
  pub remove_messages-last :
      (part : ℕ → ℕ) (x y : Message V) (ms : List (Message V))
      → last (remove_messages part (x ∷ ms ++ y ∷ [])) ≡ some y
  remove_messages-last part x y ms =
      let p = system_first-last x.role x.content x.tool_call_id x.tool_calls ms y in
      let n = part (length (p.1 ++ y ∷ [])) in
      let kept = kept_messages-append p.1 y n in
      rw (remove_messages-noticed part (x ∷ ms ++ y ∷ []) p.0 (p.1 ++ y ∷ []) p.2, kept.1)
        (ap last (
            ap (λ l. p.0 ++ l) (sym (append_assoc (noticed n) kept.0 (y ∷ [])))
            ∙ sym (append_assoc p.0 (noticed n ++ kept.0) (y ∷ [])))
          ∙ last-append (p.0 ++ (noticed n ++ kept.0)) y)

  -- After a system message, removing a part of one message removes nothing: the notice is added,
  -- which counts messages as removed, and the conversation is longer than it was.
  pub remove_messages-grows :
      (part : ℕ → ℕ) (n : ℕ) (s y : Message V)
      → s.role ≡ system
      → part 1 ≡ suc n
      → remove_messages part (s ∷ y ∷ []) ≡ s ∷ system_message (truncation_notice (suc n)) ∷ y ∷ []
  unfolding noticed kept_messages last system_first
  remove_messages-grows part n s y h k =
      remove_messages-noticed part (s ∷ y ∷ []) (s ∷ []) (y ∷ []) (ground arith)
      ∙ rw k (ground arith)
