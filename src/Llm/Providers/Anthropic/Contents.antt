-- ===== src/Llm/Providers/Anthropic/Contents.antt =====
-- The conversion of a conversation, `convert_messages` of crates/gola-core/src/llm/providers/anthropic.rs.
use gola.Prelude.{
  ℕ, ◌≡◌, refl, sym, ap, ◌∙◌, false, Bool-cases, inl, inr, List, [], ◌∷◌, ◌++◌, append-nil,
  append_assoc, Every, Every-append, is_empty, Text, codes, same, if◌then◌else◌,
}
use gola.Core.Types.{Role, system, user, assistant, tool, Message}
use gola.Llm.Providers.Anthropic.{
  AnthropicClient, AnthropicContent, text, tool_result, AnthropicMessage, Conversion, or_default,
  flushed, flush_user, flush_assistant, flush, uses, drawn_for, calls_of, started, convert,
  convert_each, convert_messages,
}

module _ {V : Type 0} where
  -- The contents of the messages of a role, one after the other.
  unfoldable pub contents_of : Text → List (AnthropicMessage V) → List (AnthropicContent V)
  contents_of role [] = []
  contents_of role (m ∷ ms) =
      let rest = contents_of role ms in if same m.role role then m.content ++ rest else rest

  abbrev pub user_part : Role → Message V → List (AnthropicContent V)
  user_part user m = text m.content ∷ []
  user_part tool m = tool_result (or_default [] m.tool_call_id) m.content ∷ []
  user_part _ m = []

  -- What the user said and the tools gave.
  unfoldable pub user_contents : List (Message V) → List (AnthropicContent V)
  user_contents [] = []
  user_contents (m ∷ ms) = user_part m.role m ++ user_contents ms

  contents_of-append :
      (role : Text) (ms ns : List (AnthropicMessage V))
      → contents_of role (ms ++ ns) ≡ contents_of role ms ++ contents_of role ns
  unfolding contents_of
  contents_of-append role [] ns = refl
  contents_of-append role (m ∷ ms) ns = elim (Bool-cases (same m.role role)) [
    | inl e ↦
        rw (e, contents_of-append role ms ns)
          (sym (append_assoc m.content (contents_of role ms) (contents_of role ns)))
    | inr e ↦ rw (e, contents_of-append role ms ns) refl
  ]

  users-flushed_user :
      (cs : List (AnthropicContent V)) → contents_of (codes "user") (flushed (codes "user") cs) ≡ cs
  unfolding contents_of same
  users-flushed_user [] = refl
  users-flushed_user (c ∷ cs) = append-nil (c ∷ cs)

  users-flushed_assistant :
      (cs : List (AnthropicContent V))
      → contents_of (codes "user") (flushed (codes "assistant") cs) ≡ []
  unfolding contents_of same
  users-flushed_assistant [] = refl
  users-flushed_assistant (c ∷ cs) = refl

  assistants-flushed_assistant :
      (cs : List (AnthropicContent V))
      → contents_of (codes "assistant") (flushed (codes "assistant") cs) ≡ cs
  unfolding contents_of same
  assistants-flushed_assistant [] = refl
  assistants-flushed_assistant (c ∷ cs) = append-nil (c ∷ cs)

  assistants-flushed_user :
      (cs : List (AnthropicContent V))
      → contents_of (codes "assistant") (flushed (codes "user") cs) ≡ []
  unfolding contents_of same
  assistants-flushed_user [] = refl
  assistants-flushed_user (c ∷ cs) = refl

  -- What was gathered of the user and of the assistant.
  abbrev pub users : Conversion V → List (AnthropicContent V)
  users s = contents_of (codes "user") s.anthropic_messages ++ s.current_user_content

  abbrev pub assistants : Conversion V → List (AnthropicContent V)
  assistants s = contents_of (codes "assistant") s.anthropic_messages ++ s.current_assistant_content

  pub users-flush_user : (s : Conversion V) → users (flush_user s) ≡ users s
  users-flush_user s = simp (contents_of-append, users-flushed_user, append-nil)

  users-flush_assistant : (s : Conversion V) → users (flush_assistant s) ≡ users s
  users-flush_assistant s = simp (contents_of-append, users-flushed_assistant, append-nil)

  assistants-flush_user : (s : Conversion V) → assistants (flush_user s) ≡ assistants s
  assistants-flush_user s = simp (contents_of-append, assistants-flushed_user, append-nil)

  assistants-flush_assistant : (s : Conversion V) → assistants (flush_assistant s) ≡ assistants s
  assistants-flush_assistant s = simp (contents_of-append, assistants-flushed_assistant, append-nil)

-- A message with some content.
abbrev pub IsFilled : {V : Type 0} → AnthropicMessage V → Type 0
IsFilled m = is_empty m.content ≡ false

abbrev pub AllFilled : {V : Type 0} → List (AnthropicMessage V) → Type 0
AllFilled ms = Every IsFilled ms

module _ {V : Type 0} (uuid : ℕ → Text) where
  abbrev pub assistant_part : ℕ → Role → Message V → List (AnthropicContent V)
  assistant_part n assistant m = text m.content ∷ uses uuid n (calls_of m)
  assistant_part n _ m = []

  abbrev pub drawn_by : ℕ → Role → Message V → ℕ
  drawn_by n assistant m = drawn_for n (calls_of m)
  drawn_by n _ m = n

  -- What the model said and the tools it called, where `n` identifiers were drawn before.
  unfoldable pub assistant_contents : ℕ → List (Message V) → List (AnthropicContent V)
  assistant_contents n [] = []
  assistant_contents n (m ∷ ms) =
      assistant_part n m.role m ++ assistant_contents (drawn_by n m.role m) ms

  drawn-convert :
      (r : Role) (s : Conversion V) (m : Message V)
      → (convert uuid r s m).drawn ≡ drawn_by s.drawn r m
  unfolding convert
  drawn-convert system s m = refl
  drawn-convert user s m = refl
  drawn-convert assistant s m = refl
  drawn-convert tool s m = refl

  users-convert :
      (r : Role) (s : Conversion V) (m : Message V)
      → users (convert uuid r s m) ≡ users s ++ user_part r m
  unfolding convert
  users-convert system s m = sym (append-nil (users s))
  users-convert user s m =
      sym (
        append_assoc (contents_of (codes "user") (flush_assistant s).anthropic_messages)
          s.current_user_content (text m.content ∷ []))
      ∙ ap (λ cs. cs ++ text m.content ∷ []) (users-flush_assistant s)
  users-convert assistant s m = users-flush_user s ∙ sym (append-nil (users s))
  users-convert tool s m = sym (
      append_assoc (contents_of (codes "user") s.anthropic_messages) s.current_user_content
        (user_part tool m))

  assistants-convert :
      (r : Role) (s : Conversion V) (m : Message V)
      → assistants (convert uuid r s m) ≡ assistants s ++ assistant_part s.drawn r m
  unfolding convert
  assistants-convert system s m = sym (append-nil (assistants s))
  assistants-convert user s m = assistants-flush_assistant s ∙ sym (append-nil (assistants s))
  assistants-convert assistant s m =
      sym (
        append_assoc (contents_of (codes "assistant") (flush_user s).anthropic_messages)
          s.current_assistant_content (assistant_part s.drawn assistant m))
      ∙ ap (λ cs. cs ++ assistant_part s.drawn assistant m) (assistants-flush_user s)
  assistants-convert tool s m = sym (append-nil (assistants s))

  users-convert_each :
      (s : Conversion V) (ms : List (Message V))
      → users (convert_each uuid s ms) ≡ users s ++ user_contents ms
  unfolding convert_each user_contents
  users-convert_each s [] = sym (append-nil (users s))
  users-convert_each s (m ∷ ms) =
      users-convert_each (convert uuid m.role s m) ms
      ∙ ap (λ cs. cs ++ user_contents ms) (users-convert m.role s m)
      ∙ append_assoc (users s) (user_part m.role m) (user_contents ms)

  assistants-convert_each :
      (s : Conversion V) (ms : List (Message V))
      → assistants (convert_each uuid s ms) ≡ assistants s ++ assistant_contents s.drawn ms
  unfolding convert_each assistant_contents
  assistants-convert_each s [] = sym (append-nil (assistants s))
  assistants-convert_each s (m ∷ ms) =
      assistants-convert_each (convert uuid m.role s m) ms
      ∙ ap (λ cs. cs ++ assistant_contents (convert uuid m.role s m).drawn ms)
          (assistants-convert m.role s m)
      ∙ ap (λ n. assistants s ++ assistant_part s.drawn m.role m ++ assistant_contents n ms)
          (drawn-convert m.role s m)
      ∙ append_assoc (assistants s) (assistant_part s.drawn m.role m)
          (assistant_contents (drawn_by s.drawn m.role m) ms)

  Filled-flushed : (role : Text) (cs : List (AnthropicContent V)) → AllFilled (flushed role cs)
  Filled-flushed role [] = tt
  Filled-flushed role (c ∷ cs) = (refl, tt)

  AllFilled-convert :
      (r : Role) (s : Conversion V) (m : Message V)
      → AllFilled s.anthropic_messages
      → AllFilled (convert uuid r s m).anthropic_messages
  unfolding convert
  AllFilled-convert system s m h = h
  AllFilled-convert user s m h =
      Every-append IsFilled s.anthropic_messages _ h
        (Filled-flushed (codes "assistant") s.current_assistant_content)
  AllFilled-convert assistant s m h =
      Every-append IsFilled s.anthropic_messages _ h
        (Filled-flushed (codes "user") s.current_user_content)
  AllFilled-convert tool s m h = h

  AllFilled-convert_each :
      (s : Conversion V) (ms : List (Message V))
      → AllFilled s.anthropic_messages
      → AllFilled (convert_each uuid s ms).anthropic_messages
  unfolding convert_each
  AllFilled-convert_each s [] h = h
  AllFilled-convert_each s (m ∷ ms) h =
      AllFilled-convert_each (convert uuid m.role s m) ms (AllFilled-convert m.role s m h)

  pub users_gathered :
      (ms : List (Message V)) → users (convert_each uuid started ms) ≡ user_contents ms
  unfolding contents_of
  users_gathered ms = users-convert_each started ms

  assistants_gathered :
      (ms : List (Message V)) → assistants (convert_each uuid started ms) ≡ assistant_contents 0 ms
  unfolding contents_of
  assistants_gathered ms = assistants-convert_each started ms

  -- The user's messages that are sent hold all that the user said and the tools gave, in the order in which
  -- they did; the assistant's hold all that the model said and called, in the order in which it did;
  -- and none of the messages is empty. Nothing is said of the order between the two.
  pub convert_messages-contents_of :
      {F32 : Type 0} (client : AnthropicClient V F32) (ms : List (Message V))
      → (contents_of (codes "user") (convert_messages uuid client ms).1 ≡ user_contents ms)
        × (contents_of (codes "assistant") (convert_messages uuid client ms).1
            ≡ assistant_contents 0 ms)
        × AllFilled (convert_messages uuid client ms).1
  unfolding convert_messages
  convert_messages-contents_of client ms =
      let s = convert_each uuid started ms in
      (
        sym (append-nil (contents_of (codes "user") (flush s).anthropic_messages))
            ∙ users-flush_assistant (flush_user s)
            ∙ users-flush_user s
            ∙ users_gathered ms,
        sym (append-nil (contents_of (codes "assistant") (flush s).anthropic_messages))
            ∙ assistants-flush_assistant (flush_user s)
            ∙ assistants-flush_user s
            ∙ assistants_gathered ms,
        Every-append IsFilled (flush_user s).anthropic_messages _
            (Every-append IsFilled s.anthropic_messages _ (AllFilled-convert_each started ms tt)
              (Filled-flushed (codes "user") s.current_user_content))
            (Filled-flushed (codes "assistant") s.current_assistant_content),
      )
