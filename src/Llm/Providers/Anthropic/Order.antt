-- ===== src/Llm/Providers/Anthropic/Order.antt =====
-- Where the results of tools come to stand, for crates/gola-core/src/llm/providers/anthropic.rs.
use gola.Prelude.{
  ℕ, ◌≡◌, refl, sym, ap, ◌∙◌, List, [], ◌∷◌, ◌++◌, append-nil, Every, codes, arith, Text,
}
use gola.Core.Types.{Role, system, user, assistant, tool, Message}
use gola.Llm.Providers.Anthropic.{
  AnthropicClient, AnthropicContent, text, AnthropicMessage, Conversion, flushed, flush_user, flush,
  uses, calls_of, started, convert, convert_each, convert_messages,
}
use gola.Llm.Providers.Anthropic.Contents.{
  contents_of, user_contents, users, users-flush_user, users_gathered, assistant_part,
}

module _ {V : Type 0} (uuid : ℕ → Text) where
  convert_each-append :
      (s : Conversion V) (ms ns : List (Message V))
      → convert_each uuid s (ms ++ ns) ≡ convert_each uuid (convert_each uuid s ms) ns
  unfolding convert_each
  convert_each-append s [] ns = refl
  convert_each-append s (m ∷ ms) ns = convert_each-append (convert uuid m.role s m) ms ns

  convert_tool :
      (r : Role) (s : Conversion V) (m : Message V)
      → r ≡ tool
      → (convert uuid r s m).current_assistant_content ≡ s.current_assistant_content
  unfolding convert
  convert_tool system s m e = refl
  convert_tool user s m e = ground (arith, e)
  convert_tool assistant s m e = ground (arith, e)
  convert_tool tool s m e = refl

  convert_tools :
      (s : Conversion V) (rs : List (Message V))
      → Every (λ r. r.role ≡ tool) rs
      → (convert_each uuid s rs).current_assistant_content ≡ s.current_assistant_content
  unfolding convert_each
  convert_tools s [] h = refl
  convert_tools s (r ∷ rs) h =
      convert_tools (convert uuid r.role s r) rs h.1 ∙ convert_tool r.role s r h.0

  flushed-append :
      (role : Text) (xs : List (AnthropicContent V)) (y : AnthropicContent V)
      (ys : List (AnthropicContent V))
      → flushed role (xs ++ y ∷ ys) ≡ record { role = role; content = xs ++ y ∷ ys } ∷ []
  flushed-append role [] y ys = refl
  flushed-append role (x ∷ xs) y ys = refl

  convert_assistant :
      (r : Role) (s : Conversion V) (m : Message V)
      → r ≡ assistant
      → (convert uuid r s m).current_assistant_content
        ≡ s.current_assistant_content ++ assistant_part uuid s.drawn assistant m
  unfolding convert
  convert_assistant assistant s m e = refl
  convert_assistant system s m e = ground (arith, e)
  convert_assistant user s m e = ground (arith, e)
  convert_assistant tool s m e = ground (arith, e)

  -- When a conversation ends with a message of the model and then the results of tools, the last message sent is
  -- that of the model, its calls at the end, and all that the user said and the tools gave, the results of those
  -- calls included, stands in messages before it.
  pub convert_messages_late :
      {F32 : Type 0} (client : AnthropicClient V F32) (ms : List (Message V)) (m : Message V)
      (rs : List (Message V))
      → m.role ≡ assistant
      → Every (λ r. r.role ≡ tool) rs
      → (front : List (AnthropicMessage V)) × (cs : List (AnthropicContent V)) × (n : ℕ)
        × ((convert_messages uuid client (ms ++ m ∷ rs)).1
            ≡ front
              ++ record {
                role = codes "assistant";
                content = cs ++ text m.content ∷ uses uuid n (calls_of m);
              }
                ∷ [])
        × (contents_of (codes "user") front ≡ user_contents (ms ++ m ∷ rs))
  unfolding convert_messages convert_each
  convert_messages_late client ms m rs e h =
      let s = convert_each uuid started ms in
      let t = convert uuid m.role s m in
      let whole = convert_each-append started ms (m ∷ rs) in
      let last = convert_tools t rs h ∙ convert_assistant m.role s m e in
      let u = convert_each uuid t rs in
      (
        (flush_user u).anthropic_messages,
        s.current_assistant_content,
        s.drawn,
        ap (λ c. (flush c).anthropic_messages) whole
            ∙ ap (λ c. (flush_user u).anthropic_messages ++ flushed (codes "assistant") c) last
            ∙ ap (λ f. (flush_user u).anthropic_messages ++ f)
                (flushed-append (codes "assistant") s.current_assistant_content (text m.content)
                  (uses uuid s.drawn (calls_of m))),
        sym (append-nil (contents_of (codes "user") (flush_user u).anthropic_messages))
            ∙ users-flush_user u
            ∙ ap (λ c. users c) (sym whole)
            ∙ users_gathered uuid (ms ++ m ∷ rs),
      )
