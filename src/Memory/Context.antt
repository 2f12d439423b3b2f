-- ===== src/Memory/Context.antt =====
-- The choice of messages that `get_context` of sliding_window.rs makes (summary_buffer.rs has the
-- same code): the tool results before the last assistant message with tool calls are left out.
use mathlib.Core.List.{reverse, reverse-append}
use mathlib.Core.Option
use gola.Prelude.{
  ℕ, suc, ◌≡◌, refl, ap, ◌∙◌, Bool, true, false, not, ◌&&◌, Option, none, some, List, [], ◌∷◌, ◌++◌,
  arith, take, drop, retain, any, if◌then◌else◌,
}
use gola.Core.Types.{assistant, tool, same_role, Message}

abbrev pub is_some {ℓ} : {A : Type ℓ} → Option A → Bool
is_some none = false
is_some (some a) = true

module _ {V : Type 0} where
  -- `msg.role == Role::Assistant && msg.tool_calls.is_some()`
  abbrev pub is_call : Message V → Bool
  is_call m = same_role m.role assistant && is_some m.tool_calls

  abbrev pub is_result : Message V → Bool
  is_result m = same_role m.role tool

  -- `messages.iter().enumerate()`
  abbrev enumerate : ℕ → List (Message V) → List (ℕ × Message V)
  enumerate i [] = []
  enumerate i (m ∷ ms) = (i, m) ∷ enumerate (suc i) ms

  -- The loop, which breaks at the first message that passes the test.
  abbrev first_call : List (ℕ × Message V) → Option ℕ
  first_call [] = none
  first_call ((i, m) ∷ rest) = if is_call m then some i else first_call rest

  unfoldable pub last_call_index : List (Message V) → Option ℕ
  last_call_index ms = first_call (reverse (enumerate 0 ms))

  unfoldable pub select_context : List (Message V) → List (Message V)
  select_context ms = elim (last_call_index ms) [
    | none ↦ ms
    | some idx ↦ retain (λ m. not (is_result m)) (take idx ms) ++ drop idx ms
  ]

  -- The same index, found from the front.
  last_call_from : ℕ → List (Message V) → Option ℕ
  last_call_from i [] = none
  last_call_from i (m ∷ ms) = elim (last_call_from (suc i) ms) [
    | some k ↦ some k
    | none ↦ if is_call m then some i else none
  ]

  first_call-append :
      (xs ys : List (ℕ × Message V))
      → first_call (xs ++ ys) ≡ elim (first_call xs) [ some k ↦ some k | none ↦ first_call ys ]
  first_call-append [] ys = refl
  first_call-append (x ∷ xs) ys = ground (arith, first_call-append xs ys)

  first_call-reverse :
      (i : ℕ) (ms : List (Message V)) → first_call (reverse (enumerate i ms)) ≡ last_call_from i ms
  unfolding last_call_from
  first_call-reverse i [] = refl
  first_call-reverse i (m ∷ ms) =
      ap first_call (reverse-append ((i, m) ∷ []) (enumerate (suc i) ms))
      ∙ ground (
        arith,
        first_call-append (reverse (enumerate (suc i) ms)) ((i, m) ∷ []),
        first_call-reverse (suc i) ms,
      )

  last_call_from-suc :
      (i : ℕ) (ms : List (Message V))
      → last_call_from (suc i) ms ≡ Option.map suc (last_call_from i ms)
  unfolding last_call_from
  last_call_from-suc i [] = refl
  last_call_from-suc i (m ∷ ms) = ground (arith, last_call_from-suc (suc i) ms)

  any-last_call_from :
      (i : ℕ) (ms : List (Message V)) → any is_call ms ≡ is_some (last_call_from i ms)
  unfolding last_call_from
  any-last_call_from i [] = refl
  any-last_call_from i (m ∷ ms) = ground (arith, any-last_call_from (suc i) ms)

  -- The context by recursion: a tool result is left out if a call comes later.
  unfoldable pub context_of : List (Message V) → List (Message V)
  context_of [] = []
  context_of (m ∷ ms) =
      let rest = context_of ms in
      if any is_call ms then if is_result m then rest else m ∷ rest else m ∷ ms

  select_at : Option ℕ → List (Message V) → List (Message V)
  select_at none ms = ms
  select_at (some idx) ms = retain (λ m. not (is_result m)) (take idx ms) ++ drop idx ms

  select_at-context_of :
      (ms : List (Message V)) → select_at (last_call_from 0 ms) ms ≡ context_of ms
  unfolding select_at last_call_from context_of
  select_at-context_of [] = refl
  select_at-context_of (m ∷ ms) =
      ground (arith, last_call_from-suc 0 ms, any-last_call_from 0 ms, select_at-context_of ms)

  last_call_index-from : (ms : List (Message V)) → last_call_index ms ≡ last_call_from 0 ms
  unfolding last_call_index
  last_call_index-from ms = first_call-reverse 0 ms

  -- The choice by the index of the last call leaves out exactly the tool results that have a tool
  -- call of the assistant behind them, and keeps all else in order.
  pub select_context-context_of : (ms : List (Message V)) → select_context ms ≡ context_of ms
  unfolding select_context select_at
  select_context-context_of ms = ground (arith, last_call_index-from ms, select_at-context_of ms)
