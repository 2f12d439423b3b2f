-- ===== src/Memory/Window.antt =====
-- crates/gola-core/src/memory/sliding_window.rs. The `VecDeque` is a list, the oldest message first.
use gola.Prelude.{
  ℕ, ◌-◌, ◌≤◌, ◌<◌, ◌≡◌, sym, ap, ◌∙◌, List, [], ◌∷◌, ◌++◌, append-nil, append_assoc, arith, length,
  drop, latest, latest-append, leb, length-drop, drop_all, if◌then◌else◌,
}
use gola.Core.Types.{Message}
use gola.Memory.Context.{select_context}

pub record SlidingWindowMemory (V : Type 0) : Type 0 where
  pub messages : List (Message V)
  pub max_messages : ℕ

module _ {V : Type 0} where
  abbrev pub new : ℕ → SlidingWindowMemory V
  new max_messages = record { messages = []; max_messages = max_messages }

  -- `pop_front` of an empty window does nothing.
  unfoldable pub add_message : SlidingWindowMemory V → Message V → SlidingWindowMemory V
  add_message w m = record w {
    messages =
        (if leb w.max_messages (length w.messages) then drop 1 w.messages else w.messages)
        ++ m ∷ [];
  }

  unfoldable pub get_context : SlidingWindowMemory V → List (Message V)
  get_context w = select_context w.messages

  abbrev pub clear : SlidingWindowMemory V → SlidingWindowMemory V
  clear w = record w { messages = [] }

  -- A conversation that is added message by message.
  unfoldable pub add_all : SlidingWindowMemory V → List (Message V) → SlidingWindowMemory V
  unfolding add_message
  add_all w [] = w
  add_all w (m ∷ ms) = add_all (add_message w m) ms

  add_all-latest :
      (n : ℕ) (held xs ms : List (Message V))
      → 0 < n
      → held ≡ latest n xs
      → (add_all (record { messages = held; max_messages = n }) ms).messages ≡ latest n (xs ++ ms)
  unfolding add_all
  add_all-latest n held xs [] h e = rw append-nil e
  add_all-latest n held xs (m ∷ ms) h e =
      add_all-latest n (add_message (record { messages = held; max_messages = n }) m).messages
        (xs ++ m ∷ []) ms h (rw e (sym (latest-append n xs m h)))
      ∙ ap (latest n) (append_assoc xs (m ∷ []) ms)

  -- A window of a positive size holds exactly the latest messages, in order, and never more than
  -- its size.
  pub add_all-new :
      (n : ℕ) (ms : List (Message V))
      → 0 < n
      → ((add_all (new n) ms).messages ≡ latest n ms) × (length (add_all (new n) ms).messages ≤ n)
  add_all-new n ms h =
      let e : (add_all (new n) ms).messages ≡ latest n ms =
        add_all-latest n [] [] ms h (sym (drop_all (0 - n) [] (omega arith))) in
      (e, rw e (omega (arith, length-drop {0} (length ms - n) ms)))

  add_all-last :
      (held ms : List (Message V)) (m : Message V)
      → length held ≤ 1
      → (add_all (record { messages = held; max_messages = 0 }) (ms ++ m ∷ [])).messages ≡ m ∷ []
  unfolding add_all
  add_all-last held [] m k = ground (arith, drop_all 1 held k)
  add_all-last held (x ∷ ms) m k =
      add_all-last (add_message (record { messages = held; max_messages = 0 }) x).messages ms m
        (ground (arith, drop_all 1 held k))

  -- A window of size 0 is never empty after a message: it holds the last one.
  pub add_all-zero :
      (ms : List (Message V)) (m : Message V) → (add_all (new 0) (ms ++ m ∷ [])).messages ≡ m ∷ []
  add_all-zero ms m = add_all-last [] ms m (omega arith)
