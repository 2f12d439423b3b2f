-- ===== src/Config/Defaults/Merge/Picked.antt =====
-- What each part of a merged configuration is, for crates/gola-core/src/config/defaults/traits.rs.
use mathlib.Core.List.{reverse}
use gola.Prelude.{
  ◌≡◌, refl, ap, ◌∙◌, Bool, true, false, Bool-cases, Option, none, some, List, [], ◌∷◌, map,
  is_empty, if◌then◌else◌, inl, inr,
}
use gola.Core.Errors.{ok}
use gola.Config.Types.{GolaConfig}
use gola.Config.Types.Llm.{LlmConfig}
use gola.Config.Defaults.Merge.{
  is_none, unless_set, is_default_steps, is_default_environment, is_default_logging, is_off,
  is_default_llm, merge_llm, merge_default, merge_each, merge_with_defaults,
}

-- The first that is set, and else the last.
unfoldable pub pick : {A : Type 0} → (A → Bool) → A → List A → A
pick is_unset x [] = x
pick is_unset x (y ∷ ys) = let rest = pick is_unset y ys in if is_unset x then rest else x

pick_set : {A : Type 0} (p : A → Bool) (x : A) (ys : List A) → p x ≡ false → pick p x ys ≡ x
unfolding pick
pick_set p x [] e = refl
pick_set p x (y ∷ ys) e = rw e refl

pick-unless_set :
    {A : Type 0} (p : A → Bool) (x y : A) (ys : List A)
    → pick p (unless_set p x y) ys ≡ pick p x (y ∷ ys)
unfolding pick
pick-unless_set p x y ys = elim (Bool-cases (p x)) [
  | inl e ↦ rw e refl
  | inr e ↦ rw e (pick_set p x ys e)
]

-- Those that are there.
abbrev pub present : {A : Type 0} → List (Option A) → List (Option A)
present [] = []
present (none ∷ xs) = present xs
present (some x ∷ xs) = some x ∷ present xs

module _ {V F32 : Type 0} where
  abbrev pub is_unset_llm : Option (LlmConfig V F32) → Bool
  is_unset_llm none = true
  is_unset_llm (some l) = is_default_llm l

  -- Each part is the first that is set, in the order of the list.
  abbrev pub picked : GolaConfig V F32 → List (GolaConfig V F32) → GolaConfig V F32
  picked c ds = record {
    agent = record c.agent {
      name = pick is_empty c.agent.name (map (λ d. d.agent.name) ds);
      description = pick is_empty c.agent.description (map (λ d. d.agent.description) ds);
      max_steps = pick is_default_steps c.agent.max_steps (map (λ d. d.agent.max_steps) ds);
    };
    llm = pick is_unset_llm c.llm (present (map (λ d. d.llm) ds));
    prompts = pick is_none c.prompts (map (λ d. d.prompts) ds);
    rag = pick is_none c.rag (map (λ d. d.rag) ds);
    mcp_servers = pick is_empty c.mcp_servers (map (λ d. d.mcp_servers) ds);
    tools = c.tools;
    environment = pick is_default_environment c.environment (map (λ d. d.environment) ds);
    logging = pick is_default_logging c.logging (map (λ d. d.logging) ds);
    tracing = pick is_off c.tracing (map (λ d. d.tracing) ds);
  }

  pick-merge_llm :
      (x y : Option (LlmConfig V F32)) (ys : List (Option (LlmConfig V F32)))
      → pick is_unset_llm (merge_llm x y) (present ys) ≡ pick is_unset_llm x (present (y ∷ ys))
  unfolding merge_llm
  pick-merge_llm none none ys = refl
  pick-merge_llm none (some y) ys = pick-unless_set is_unset_llm none (some y) (present ys)
  pick-merge_llm (some x) none ys = refl
  pick-merge_llm (some x) (some y) ys = pick-unless_set is_unset_llm (some x) (some y) (present ys)

  picked-merge_default :
      (c d : GolaConfig V F32) (ds : List (GolaConfig V F32))
      → picked (merge_default c d) ds ≡ picked c (d ∷ ds)
  unfolding merge_default
  picked-merge_default c d ds = cc (
    pick-merge_llm c.llm d.llm (map (λ d. d.llm) ds),
    pick-unless_set is_empty c.agent.name d.agent.name (map (λ d. d.agent.name) ds),
    pick-unless_set is_empty c.agent.description d.agent.description
        (map (λ d. d.agent.description) ds),
    pick-unless_set is_default_steps c.agent.max_steps d.agent.max_steps
        (map (λ d. d.agent.max_steps) ds),
    pick-unless_set is_none c.prompts d.prompts (map (λ d. d.prompts) ds),
    pick-unless_set is_none c.rag d.rag (map (λ d. d.rag) ds),
    pick-unless_set is_empty c.mcp_servers d.mcp_servers (map (λ d. d.mcp_servers) ds),
    pick-unless_set is_default_environment c.environment d.environment
        (map (λ d. d.environment) ds),
    pick-unless_set is_default_logging c.logging d.logging (map (λ d. d.logging) ds),
    pick-unless_set is_off c.tracing d.tracing (map (λ d. d.tracing) ds),
  )

  merge_each-picked :
      (c : GolaConfig V F32) (ds : List (GolaConfig V F32)) → merge_each c ds ≡ picked c ds
  unfolding merge_each pick
  merge_each-picked c [] = refl
  merge_each-picked c (d ∷ ds) =
      merge_each-picked (merge_default c d) ds ∙ picked-merge_default c d ds

  -- Each part of a merged configuration is the first one set, of the configuration's and then of the defaults'
  -- from the last to the first, and the last of them when none is set; the tools, the schema and the behavior are the
  -- configuration's.
  pub merge_with_defaults-picked :
      (c : GolaConfig V F32) (defaults : List (GolaConfig V F32))
      → merge_with_defaults c defaults ≡ ok (picked c (reverse defaults))
  unfolding merge_with_defaults
  merge_with_defaults-picked c defaults = ap ok (merge_each-picked c (reverse defaults))
