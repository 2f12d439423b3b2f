-- ===== src/Llm/Truncation/Last.antt =====
-- What crates/gola-core/src/llm/context_truncation.rs does to the last message, both steps together.
use gola.Prelude.{
  ℕ, ◌≤◌, ◌≡◌, refl, ap, ◌∙◌, Option, some, List, [], ◌∷◌, ◌++◌, length, Bool-cases, inl, inr, ltb,
  leb, Text, arith,
}
use gola.Core.Types.{Role, system, user, assistant, tool, ToolCall, Message}
use gola.Core.Errors.{Result, ok, err}
use gola.Llm.Model.{Requests, Model}
use gola.Llm.Truncation.{
  Scale, ContextTruncatingLlm, shorten, summarize_message_content, summarize_tools, last,
  remove_messages, truncate_messages,
}
use gola.Llm.Truncation.Window.{last-append, remove_messages-last}

module _ {V : Type 0} where
  -- The same message but for a content that is no longer.
  abbrev pub IsShorter : Message V → Message V → Type 0
  IsShorter n m =
      (n.role ≡ m.role)
      × (n.tool_call_id ≡ m.tool_call_id)
      × (n.tool_calls ≡ m.tool_calls)
      × (length n.content ≤ length m.content)

  shorten-IsShorter : (r : Result Text) (m : Message V) → IsShorter (shorten r m) m
  unfolding shorten
  shorten-IsShorter (err e) m = (refl, refl, refl, omega arith)
  shorten-IsShorter (ok content) m = elim (Bool-cases (ltb (length content) (length m.content))) [
    | inl e ↦ rw e (refl, refl, refl, ground arith)
    | inr e ↦ rw e (refl, refl, refl, omega arith)
  ]

  module _ (model : Model V) (threshold : ℕ) where
    summarize_tools-cons :
        (r : Role) (c : Text) (t : Option Text) (ts : Option (List (ToolCall V)))
        (sent : Requests V) (ms : List (Message V))
        → let m : Message V = record { role = r; content = c; tool_call_id = t; tool_calls = ts } in
          (n : Message V) × (later : Requests V) × ((summarize_tools model threshold sent
              (m ∷ ms)).0
            ≡ n ∷ (summarize_tools model threshold later ms).0)
          × IsShorter n m
    unfolding summarize_tools
    summarize_tools-cons system c t ts sent ms = (_, sent, refl, (refl, refl, refl, omega arith))
    summarize_tools-cons user c t ts sent ms = (_, sent, refl, (refl, refl, refl, omega arith))
    summarize_tools-cons assistant c t ts sent ms = (_, sent, refl, (refl, refl, refl, omega arith))
    summarize_tools-cons tool c t ts sent ms =
        let m : Message V = record {
          role = tool;
          content = c;
          tool_call_id = t;
          tool_calls = ts;
        } in
        let s = summarize_message_content model sent c threshold in
        (shorten s.0 m, s.1, refl, shorten-IsShorter s.0 m)

    summarize_tools-append :
        (sent : Requests V) (ms : List (Message V)) (y : Message V)
        → (front : List (Message V)) × (n : Message V) × ((summarize_tools model threshold sent
              (ms ++ y ∷ [])).0
            ≡ front ++ n ∷ [])
          × IsShorter n y
    unfolding summarize_tools
    summarize_tools-append sent [] y =
        let p = summarize_tools-cons y.role y.content y.tool_call_id y.tool_calls sent [] in
        ([], p.0, p.2, p.3)
    summarize_tools-append sent (m ∷ ms) y =
        let p =
          summarize_tools-cons m.role m.content m.tool_call_id m.tool_calls sent (ms ++ y ∷ []) in
        let q = summarize_tools-append p.1 ms y in (p.0 ∷ q.0, q.1, p.2 ∙ ap (p.0 ∷◌) q.2, q.3)

  module _ {F : Type 0} (f32 : Scale F) (t : ContextTruncatingLlm F) (model : Model V) where
    -- However much is to be removed and whatever the model answers, the truncation of a conversation
    -- of two messages or more ends with its last message, whose content may have become shorter.
    pub truncate_messages-last :
        (sent : Requests V) (x y : Message V) (ms : List (Message V)) (factor : F)
        → (n : Message V) × (last (truncate_messages f32 t model sent (x ∷ ms ++ y ∷ []) factor).0
            ≡ some n)
          × IsShorter n y
    unfolding truncate_messages
    truncate_messages-last sent x y ms factor =
        elim (Bool-cases (leb (length (x ∷ ms ++ y ∷ [])) t.min_messages)) [
          | inl e ↦ (y, rw e (last-append (x ∷ ms) y), (refl, refl, refl, omega arith))
          | inr e ↦
              let threshold = t.summarization_threshold in
              let p =
                summarize_tools-cons model threshold x.role x.content x.tool_call_id x.tool_calls
                  sent (ms ++ y ∷ []) in
              let q = summarize_tools-append model threshold p.1 ms y in
              (
                q.1,
                rw e (
                    ap (λ l. last (remove_messages (λ n. f32.part n factor) l))
                      (p.2 ∙ ap (p.0 ∷◌) q.2)
                    ∙ remove_messages-last (λ n. f32.part n factor) p.0 q.1 q.0),
                q.3,
              )
        ]
