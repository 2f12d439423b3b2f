-- ===== src/Config/Defaults.antt =====
-- crates/gola-core/src/config/defaults/traits.rs: the providers of defaults and their registry, and the
-- configuration built from them. A path is its text. A failed provider's warning on the standard error is left out.
pub mod Highest
pub mod Merge
use gola.Prelude.{
  ℕ, Bool, true, false, Option, none, some, List, [], ◌∷◌, ◌++◌, map, sort_by, leb, Text, codes,
  if◌then◌else◌,
}
use gola.Core.Errors.{config_error, Result, ok, err, ◌>>=◌}

-- Priority levels for default providers
pub data DefaultPriority : Type 0 where
  hardcoded convention environment profile explicit : DefaultPriority

abbrev pub rank : DefaultPriority → ℕ
rank hardcoded = 1
rank convention = 2
rank environment = 3
rank profile = 4
rank explicit = 5

pub record GitInfo : Type 0 where
  pub branch : Text
  pub origin_url : Option Text
  pub has_changes : Bool

pub record ProjectInfo : Type 0 where
  pub is_rust_project : Bool
  pub is_node_project : Bool
  pub is_python_project : Bool
  pub project_name : Option Text
  pub git_info : Option GitInfo

pub record DefaultsContext : Type 0 where
  pub working_dir : Text
  pub environment : Option Text
  pub project_info : ProjectInfo
  pub env_vars : List (Text × Text)
  pub active_profile : Option Text

pub record DefaultProvider (T : Type 0) : Type 0 where
  pub priority : DefaultPriority
  pub can_provide : DefaultsContext → Bool
  pub provide_defaults : DefaultsContext → Result T
  pub description : Text

-- `merge_with_defaults` of a configuration
pub record ConfigMerge (T : Type 0) : Type 0 where
  pub merge_with_defaults : T → List T → Result T

module _ {T : Type 0} where
  -- The test of a sort by `Reverse(p.priority())`.
  abbrev pub before : DefaultProvider T → DefaultProvider T → Bool
  before p q = leb (rank q.priority) (rank p.priority)

  unfoldable pub register : List (DefaultProvider T) → DefaultProvider T → List (DefaultProvider T)
  register providers provider = sort_by before (providers ++ provider ∷ [])

  -- One provider's part in the list of results.
  abbrev pub pushed : Result T → List T → List T
  pushed (ok defaults) results = defaults ∷ results
  pushed (err e) results = results

  unfoldable pub provided : List (DefaultProvider T) → DefaultsContext → List T
  provided [] context = []
  provided (provider ∷ providers) context =
      let rest = provided providers context in
      if provider.can_provide context then pushed (provider.provide_defaults context) rest else rest

  abbrev pub resolve_defaults : List (DefaultProvider T) → DefaultsContext → Result (List T)
  resolve_defaults providers context = ok (provided providers context)

  unfoldable pub get_best_defaults : List (DefaultProvider T) → DefaultsContext → Result (Option T)
  get_best_defaults [] context = ok none
  get_best_defaults (provider ∷ providers) context =
      let rest = get_best_defaults providers context in
      if provider.can_provide context
      then (provider.provide_defaults context >>= λ defaults. ok (some defaults))
      else rest

  unfoldable pub list_providers : List (DefaultProvider T) → List (Text × DefaultPriority)
  list_providers providers = map (λ p. (p.description, p.priority)) providers

pub record ConfigBuilder (T : Type 0) : Type 0 where
  pub registry : List (DefaultProvider T)
  pub explicit_config : Option T

module _ {T : Type 0} where
  abbrev pub new : ConfigBuilder T
  new = record { registry = []; explicit_config = none }

  unfoldable pub with_explicit_config : ConfigBuilder T → T → ConfigBuilder T
  with_explicit_config builder config = record builder { explicit_config = some config }

  unfoldable pub register_provider : ConfigBuilder T → DefaultProvider T → ConfigBuilder T
  register_provider builder provider = record builder {
    registry = register builder.registry provider;
  }

  abbrev pub ok_or_else : Option T → Result T
  ok_or_else (some t) = ok t
  ok_or_else none =
      err
        (config_error (codes "No default configuration available and no explicit config provided"))

  abbrev pub built :
      ConfigMerge T → List (DefaultProvider T) → DefaultsContext → Option T → List T → Result T
  built merge registry context (some config) defaults = merge.merge_with_defaults config defaults
  built merge registry context none defaults = get_best_defaults registry context >>= ok_or_else

  unfoldable pub build : ConfigMerge T → ConfigBuilder T → DefaultsContext → Result T
  build merge builder context =
      resolve_defaults builder.registry context
      >>= built merge builder.registry context builder.explicit_config
