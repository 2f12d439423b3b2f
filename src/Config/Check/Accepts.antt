-- ===== src/Config/Check/Accepts.antt =====
-- Which configurations crates/gola-core/src/config/types.rs accepts.
use gola.Prelude.{
  ℕ, ◌<◌, ◌≡◌, ◌↔◌, refl, Bool, true, false, Option, none, some, List, [], ◌∷◌, Every, is_empty,
  Text, codes, ◌==◌, arith, ◌⊎◌, inl, inr, if◌then◌else◌,
}
use gola.Core.Errors.{Result, ok, err}
use gola.Config.Validation.{JsonSchema, InputSchemaConfig, OutputSchemaConfig}
use gola.Config.Types.{GolaConfig}
use gola.Config.Types.Llm.{LlmConfig}
use gola.Config.Types.Rag.{RagSystemConfig}
use gola.Config.Types.Mcp.{
  McpServerConfig, McpCommand, McpExecutionType, McpExecutionEnvironment, host, local, container,
}
use gola.Config.Types.Behavior.{SchemaConfig}
use gola.Config.Check.{
  refuse_if, ◌and_also◌, validate_execution_environment, validate_format, validate_server,
  validate_servers, validate_llm, validate_rag, compiles, validate_input_schema,
  validate_output_schema, validate_schema, validate,
}

abbrev pub IsFilled : Text → Type 0
IsFilled t = is_empty t ≡ false

abbrev pub IsRunnable : McpExecutionEnvironment → Type 0
IsRunnable (host runtime entry_point args env dir) = IsFilled runtime × IsFilled entry_point
IsRunnable (local runtime entry_point args env dir) = IsFilled runtime × IsFilled entry_point
IsRunnable (container image tag entry_point args env dir volumes) =
    IsFilled image × IsFilled entry_point

-- A server has one of the three formats and no other.
abbrev pub HasOneFormat :
    Option McpCommand → Option McpExecutionType → Option McpExecutionEnvironment → Type 0
HasOneFormat (some c) none none = IsFilled c.run
HasOneFormat none (some t) none = Unit
HasOneFormat none none (some e) = IsRunnable e
HasOneFormat _ _ _ = ⊥

abbrev pub IsValidServer : McpServerConfig → Type 0
IsValidServer s = IsFilled s.name × HasOneFormat s.command s.execution_type s.execution_environment

abbrev pub Holds {ℓ} : {A : Type 0} → (A → Type ℓ) → Option A → Type ℓ
Holds P none = Unit
Holds P (some a) = P a

module _ {V S : Type 0} (schemas : JsonSchema V S) where
  abbrev pub Compiles : V → Type 0
  Compiles v = (s : S) × (schemas.compile v ≡ inr s)

  -- The schemas compile and an attempt is allowed, when schemas are enabled.
  abbrev pub HasSchemas : SchemaConfig V → Type 0
  HasSchemas c =
      c.enabled ≡ true
      → Holds (λ i. Compiles i.schema) c.input
        × (Holds (λ o. Compiles o.schema) c.output × (0 < c.validation.max_validation_attempts))

-- The sizes of an enabled retrieval are positive and its model is named.
abbrev pub Retrieves : {F32 : Type 0} → RagSystemConfig F32 → Type 0
Retrieves r =
    r.enabled ≡ true
    → IsFilled r.embeddings.model × ((0 < r.text_processing.chunk_size) × (0 < r.retrieval.top_k))

-- What the check asks for, part by part.
abbrev pub IsAccepted : {V S F32 : Type 0} → JsonSchema V S → GolaConfig V F32 → Type 0
IsAccepted schemas c =
    IsFilled c.agent.name
    × ((0 < c.agent.max_steps)
        × (Holds (λ l. IsFilled l.model) c.llm
            × (Holds Retrieves c.rag
                × (Every IsValidServer c.mcp_servers × HasSchemas schemas c.agent.schema))))

refuse_if_iff : (b : Bool) (m : Text) → (refuse_if b m ≡ ok tt) ↔ (b ≡ false)
refuse_if_iff true m = ((λ e. cc), (λ e. cc))
refuse_if_iff false m = ((λ e. refl), (λ e. refl))

zero_iff : (n : ℕ) (m : Text) → (refuse_if (n == 0) m ≡ ok tt) ↔ (0 < n)
zero_iff n m = ((λ e. ground arith), (λ h. ground arith))

both :
    {P : Type 0} {Q : Type 0} (m k : Result (Unit {0}))
    → ((m ≡ ok tt) ↔ P)
    → ((k ≡ ok tt) ↔ Q)
    → ((m and_also k) ≡ ok tt) ↔ (P × Q)
both (err e) k f g = ((λ h. cc), (λ h. f.1 h.0))
both (ok tt) k f g = ((λ h. (f.0 refl, g.0 h)), (λ h. g.1 h.1))

if_enabled :
    {P : Type 0} (b : Bool) (m : Result (Unit {0}))
    → ((m ≡ ok tt) ↔ P)
    → ((if b then m else ok tt) ≡ ok tt) ↔ (b ≡ true → P)
if_enabled true m f = ((λ e h. f.0 e), (λ h. f.1 (h refl)))
if_enabled false m f = ((λ e h. cc), (λ h. refl))

compiled_iff :
    {V S : Type 0} (schemas : JsonSchema V S) (m : Text) (r : Text ⊎ S)
    → (compiles schemas m r ≡ ok tt) ↔ ((s : S) × (r ≡ inr s))
compiled_iff schemas m (inl e) = ((λ h. cc), (λ h. cc))
compiled_iff schemas m (inr s) = ((λ h. (s, refl)), (λ h. refl))

validate_execution_environment_iff :
    (e : McpExecutionEnvironment) (name : Text)
    → (validate_execution_environment e name ≡ ok tt) ↔ IsRunnable e
unfolding validate_execution_environment
validate_execution_environment_iff (host runtime entry_point args env dir) name =
    both _ _ (refuse_if_iff _ _) (refuse_if_iff _ _)
validate_execution_environment_iff (local runtime entry_point args env dir) name =
    both _ _ (refuse_if_iff _ _) (refuse_if_iff _ _)
validate_execution_environment_iff (container image tag entry_point args env dir volumes) name =
    both _ _ (refuse_if_iff _ _) (refuse_if_iff _ _)

validate_format_iff :
    (name : Text) (c : Option McpCommand) (t : Option McpExecutionType)
    (e : Option McpExecutionEnvironment)
    → (validate_format name c t e ≡ ok tt) ↔ HasOneFormat c t e
unfolding validate_format
validate_format_iff name none none (some e) = validate_execution_environment_iff e name
validate_format_iff name (some c) none none = refuse_if_iff _ _
validate_format_iff name none (some t) none = ((λ h. tt), (λ h. refl))
validate_format_iff name (some c) (some t) none = ((λ h. cc), (λ h. elim h [ ]))
validate_format_iff name (some c) (some t) (some e) = ((λ h. cc), (λ h. elim h [ ]))
validate_format_iff name (some c) none (some e) = ((λ h. cc), (λ h. elim h [ ]))
validate_format_iff name none (some t) (some e) = ((λ h. cc), (λ h. elim h [ ]))
validate_format_iff name none none none = ((λ h. cc), (λ h. elim h [ ]))

validate_servers_iff :
    (servers : List McpServerConfig)
    → (validate_servers servers ≡ ok tt) ↔ Every IsValidServer servers
unfolding validate_servers validate_server
validate_servers_iff [] = ((λ h. tt), (λ h. refl))
validate_servers_iff (s ∷ servers) =
    both _ _ (both _ _ (refuse_if_iff _ _) (validate_format_iff _ _ _ _))
      (validate_servers_iff servers)

validate_llm_iff :
    {V F32 : Type 0} (l : Option (LlmConfig V F32))
    → (validate_llm l ≡ ok tt) ↔ Holds (λ x. IsFilled x.model) l
unfolding validate_llm
validate_llm_iff none = ((λ h. tt), (λ h. refl))
validate_llm_iff (some l) = refuse_if_iff _ _

validate_rag_iff :
    {F32 : Type 0} (o : Option (RagSystemConfig F32)) → (validate_rag o ≡ ok tt) ↔ Holds Retrieves o
unfolding validate_rag
validate_rag_iff none = ((λ h. tt), (λ h. refl))
validate_rag_iff (some r) = if_enabled r.enabled _ (
    both _ _
      (refuse_if_iff (is_empty r.embeddings.model) (codes "RAG embedding model cannot be empty"))
      (both _ _
        (zero_iff r.text_processing.chunk_size (codes "RAG chunk size must be greater than 0"))
        (zero_iff r.retrieval.top_k (codes "RAG top_k must be greater than 0"))))

module _ {V S : Type 0} (schemas : JsonSchema V S) where
  validate_input_schema_iff :
      (o : Option (InputSchemaConfig V))
      → (validate_input_schema schemas o ≡ ok tt) ↔ Holds (λ i. Compiles schemas i.schema) o
  validate_input_schema_iff none = ((λ h. tt), (λ h. refl))
  validate_input_schema_iff (some c) =
      compiled_iff schemas (codes "Invalid input JSON schema: ") (schemas.compile c.schema)

  validate_output_schema_iff :
      (o : Option (OutputSchemaConfig V))
      → (validate_output_schema schemas o ≡ ok tt) ↔ Holds (λ i. Compiles schemas i.schema) o
  validate_output_schema_iff none = ((λ h. tt), (λ h. refl))
  validate_output_schema_iff (some c) =
      compiled_iff schemas (codes "Invalid output JSON schema: ") (schemas.compile c.schema)

  validate_schema_iff :
      (c : SchemaConfig V) → (validate_schema schemas c ≡ ok tt) ↔ HasSchemas schemas c
  unfolding validate_schema
  validate_schema_iff c = if_enabled _ _ (
      both _ _ (validate_input_schema_iff c.input) (
        both _ _ (validate_output_schema_iff c.output) (
          zero_iff c.validation.max_validation_attempts
            (codes "Schema validation max_validation_attempts must be greater than 0"))))

  -- A configuration passes `validate` exactly when it is an accepted one.
  pub validate_iff :
      {F32 : Type 0} (c : GolaConfig V F32) → (validate schemas c ≡ ok tt) ↔ IsAccepted schemas c
  unfolding validate
  validate_iff c =
      both _ _ (refuse_if_iff (is_empty c.agent.name) (codes "Agent name cannot be empty")) (
        both _ _ (zero_iff c.agent.max_steps (codes "Agent max_steps must be greater than 0")) (
          both _ _ (validate_llm_iff c.llm) (
            both _ _ (validate_rag_iff c.rag) (
              both _ _ (validate_servers_iff c.mcp_servers) (validate_schema_iff c.agent.schema)))))
