-- ===== src/Agent/Step/Window.antt =====
-- What the run of crates/gola-core/src/agent.rs sends the model when its memory is a window.
use mathlib.Core.Path.{subst}
use gola.Prelude.{
  ℕ, suc, ◌≤◌, ◌<◌, ◌≡◌, sym, ap, ◌∙◌, inl, inr, Option, none, some, not, List, ◌++◌, arith, Every,
  length, take, drop, retain, length-append, length-retain-le, take-append-drop, length-drop, Text,
}
use gola.Core.Types.{Message}
use gola.Llm.Model.{Request}
use gola.Memory.Prompt.{Llm}
use gola.Memory.Context.{is_result, last_call_index, select_context}
use gola.Memory.Window
use gola.Memory.Window.{SlidingWindowMemory}
use gola.Agent.{Agent}
use gola.Agent.World.{World}
use gola.Agent.Tools.{count_failure, clear_failures, note_run}
use gola.Agent.Step.{prompt_messages, run}
use gola.Agent.Construction.{AnyMemory, window, summary, buffer, boxed, add_message, get_context}
use gola.Agent.Invariants.{IsKept, Remembers, is_authorized_plain}
use gola.Agent.Invariants.Run.{run-Ensures, ask_model-Ensures}

module _ {V : Type 0} where
  length-select_context : (ms : List (Message V)) → length (select_context ms) ≤ length ms
  unfolding select_context
  length-select_context ms =
      elim (last_call_index ms)
        as (λ (o : Option ℕ).
          length (elim o [
            | none ↦ ms
            | some idx ↦ retain (λ m. not (is_result m)) (take idx ms) ++ drop idx ms
          ])
          ≤ length ms) [
            | none ↦ omega arith
            | some idx ↦ omega (
              arith,
              length-append (retain (λ m. not (is_result m)) (take idx ms)) (drop idx ms),
              length-retain-le (λ m. not (is_result m)) (take idx ms),
              length-append (take idx ms) (drop idx ms),
              ap length (take-append-drop idx ms),
            )
          ]

  length-add_message :
      (held : SlidingWindowMemory V) (m : Message V)
      → 0 < held.max_messages
      → length held.messages ≤ held.max_messages
      → length (Window.add_message held m).messages ≤ held.max_messages
  unfolding Window.add_message
  length-add_message held m h k = grind (arith, length-append, length-drop 1 held.messages)

  -- A window of the size with no more messages than that.
  abbrev pub HoldsAtMost : ℕ → AnyMemory V → Type 0
  HoldsAtMost n (window held) = (held.max_messages ≡ n) × (length held.messages ≤ n)
  HoldsAtMost n (summary held) = ⊥
  HoldsAtMost n (buffer held) = ⊥

  HoldsAtMost-add_message :
      (llm : Llm V) (n : ℕ) (held : AnyMemory V) (m : Message V)
      → 0 < n
      → HoldsAtMost n held
      → HoldsAtMost n (add_message llm held m).1
  unfolding add_message Window.add_message
  HoldsAtMost-add_message llm n (window held) m h p = (
    p.0,
    subst (λ k. length (Window.add_message held m).messages ≤ k) p.0
        (length-add_message held m (omega (arith, h, p.0)) (omega (arith, p.0, p.1))),
  )
  HoldsAtMost-add_message llm n (summary held) m h p = elim p [ ]
  HoldsAtMost-add_message llm n (buffer held) m h p = elim p [ ]

  length-get_context :
      (llm : Llm V) (n : ℕ) (held : AnyMemory V)
      → HoldsAtMost n held
      → length (get_context llm held) ≤ n
  unfolding get_context Window.get_context
  length-get_context llm n (window held) p = omega (arith, p.1, length-select_context held.messages)
  length-get_context llm n (summary held) p = elim p [ ]
  length-get_context llm n (buffer held) p = elim p [ ]

  -- A request with at most a message more than the window.
  abbrev pub IsShort : ℕ → Request V → Type 0
  IsShort n r = length r.messages ≤ suc n

module _ {V : Type 0} (w : World V (AnyMemory V)) (llm : Llm V) (n : ℕ)
    (b : w.memory ≡ boxed llm) where
  length-prompt_messages : (prompt : Option Text) → length (prompt_messages w prompt) ≤ 1
  length-prompt_messages none = omega arith
  length-prompt_messages (some prompt) = ground arith

  abbrev IsWindowed : Agent V (AnyMemory V) → Type 0
  IsWindowed a = HoldsAtMost n a.memory × Every (IsShort n) a.sent

  HoldsAtMost-Remembers :
      (m m' : AnyMemory V) → 0 < n → Remembers w m m' → HoldsAtMost n m → HoldsAtMost n m'
  HoldsAtMost-Remembers m m' h (inl e) p = subst (HoldsAtMost n) (sym e) p
  HoldsAtMost-Remembers m m' h (inr (message, c, e)) p =
      subst (HoldsAtMost n) (sym (e ∙ ap (λ c. (c.add_message m message).1) b))
        (HoldsAtMost-add_message llm n m message h p)

  IsWindowed-IsKept : 0 < n → IsKept w IsWindowed
  unfolding note_run count_failure clear_failures
  IsWindowed-IsKept h = record {
    plain = λ a hs l c m d r p. (HoldsAtMost-Remembers a.memory m h r p.0, p.1);
    asked = λ a c step p f. subst IsWindowed (sym (is_authorized_plain a c step)) p;
    noted = λ a c step p f g. subst IsWindowed (sym (is_authorized_plain a c step)) p;
    cleared = λ a name p f. p;
    counted = λ a name p f. p;
  }

  IsShort-asked :
      (a : Agent V (AnyMemory V))
      → HoldsAtMost n a.memory
      → length (prompt_messages w a.system_prompt ++ w.memory.get_context a.memory) ≤ suc n
  IsShort-asked a p =
      let k : length (w.memory.get_context a.memory) ≤ n =
        subst (λ c. length (c.get_context a.memory) ≤ n) (sym b)
          (length-get_context llm n a.memory p) in
      omega (
        arith,
        length-append (prompt_messages w a.system_prompt) (w.memory.get_context a.memory),
        length-prompt_messages a.system_prompt,
        k,
      )

  -- An agent whose memory is a window of a positive size sends the model, in a whole run, only
  -- requests of at most that many messages and the system prompt, if no request before was longer
  -- and the window is not over its size.
  pub run-window :
      (task : Text) (a : Agent V (AnyMemory V))
      → 0 < n
      → HoldsAtMost n a.memory
      → Every (IsShort n) a.sent
      → Every (IsShort n) (run w task a).1.sent
  run-window task a h p q =
      let k = IsWindowed-IsKept h in
      (run-Ensures w IsWindowed (λ left. IsWindowed) k (λ left. k) (λ a p. p)
        (λ left.
          ask_model-Ensures w IsWindowed IsWindowed k (λ a p. (p.0, (IsShort-asked a p.0, p.1))))
        (λ left a p. p) (λ a p. p) task a (p, q)).1
