-- ===== src/Agent/Invariants/Calls.antt =====
-- The other tools and the loop over the calls of crates/gola-core/src/agent.rs.
use gola.Prelude.{
  ℕ, refl, Option, none, some, List, [], ◌∷◌, ◌++◌, Bool-cases, inl, inr, Text, same, length, codes,
}
use gola.Core.Types.{ToolCall, Observation, HistoryStep, action}
use gola.Core.Errors.{loop_detection, Result, ok, err}
use gola.Core.Action.{Action, pure, raise, modify, Ensures, >>=-Ensures, ◌>>=◌, ◌>>◌}
use gola.Loops.{LoopPattern, is_problematic}
use gola.Loops.Detector.{add_tool_call}
use gola.Rag.Context.{RetrievedContext}
use gola.Agent.{Agent}
use gola.Agent.World.{World, CodeExecutor, ExecutionResult}
use gola.Agent.Tools.{
  add_step, context_of, code_name, run_code, settle_code, run_code_tool, find_executor,
  execute_code_tool, execute_generic_tool,
}
use gola.Agent.Dispatch.{
  search_name, is_control_tool, is_rag_enabled, search, settle_search, run_search, authorize_search,
  execute_rag_search_tool, settle_control, execute_control_plane_tool, loop_message,
  handle_loop_detection, dispatch, execute_tool,
}
use gola.Agent.Step.{ending_of, execute_calls}
use gola.Agent.Invariants.{
  IsKept, Guarded, observe-keeps, unless_failing-keeps, authorized-keeps, noted-Guarded,
  execute_generic_tool-keeps,
}

module _ {V M : Type 0} (P : Agent V M → Type 0) (w : World V M) (k : IsKept w P) where
  pub add_step-keeps : (step : HistoryStep V) (a : Agent V M) → P a → P (add_step step a)
  unfolding add_step
  add_step-keeps step a p =
      k.plain a (a.history ++ step ∷ []) a.last_tool_error a.consecutive_error_count a.memory
        a.loop_detector (inl refl) p

  settle_code-keeps :
      (id : Option Text) (r : Result ExecutionResult)
      → Ensures (Guarded P w k code_name) (settle_code w id r) P
  unfolding settle_code ◌>>=◌
  settle_code-keeps id (ok r) a p = observe-keeps P w k _ _ _ _ (k.cleared a code_name p.0 p.1)
  settle_code-keeps id (err e) a p =
      observe-keeps P w k _ _ _ _ (add_step-keeps _ _ (k.counted a code_name p.0 p.1))

  find_executor-keeps :
      (call : ToolCall V) (step : ℕ) (found : Option (CodeExecutor V))
      → Ensures (Guarded P w k code_name) (find_executor w call step found) P
  unfolding find_executor run_code_tool run_code ◌>>=◌
  find_executor-keeps call step none a p = observe-keeps P w k _ _ _ _ (add_step-keeps _ a p.0)
  find_executor-keeps call step (some executor) a p =
      let c = context_of call code_name (codes "Execute code in a sandbox") in
      authorized-keeps P w k code_name c step (run_code_tool w executor call)
        (λ b q h. settle_code-keeps call.id _ _ (noted-Guarded P w k c step b q h))
        (λ b q. observe-keeps P w k _ _ _ _ (add_step-keeps _ b q)) a p

  execute_code_tool-keeps :
      (call : ToolCall V) (step : ℕ) → Ensures P (execute_code_tool w call step) P
  unfolding execute_code_tool
  execute_code_tool-keeps call step =
      unless_failing-keeps P w k code_name call.id _ (find_executor-keeps call step _)

  settle_search-keeps :
      (id : Option Text) (r : Result (Option (RetrievedContext w.F32)))
      → Ensures (Guarded P w k search_name) (settle_search w id r) P
  unfolding settle_search ◌>>=◌
  settle_search-keeps id (ok (some c)) a p =
      observe-keeps P w k _ _ _ _ (k.cleared a search_name p.0 p.1)
  settle_search-keeps id (ok none) a p =
      observe-keeps P w k _ _ _ _ (k.cleared a search_name p.0 p.1)
  settle_search-keeps id (err e) a p = observe-keeps P w k _ _ _ _ (k.counted a search_name p.0 p.1)

  authorize_search-keeps :
      (call : ToolCall V) (step : ℕ)
      → Ensures (Guarded P w k search_name) (authorize_search w call step) P
  unfolding authorize_search run_search search ◌>>=◌
  authorize_search-keeps call step a p = elim (Bool-cases (is_rag_enabled w a)) [
    | inl e ↦
        let c = context_of call search_name (codes "Search for information in the RAG system") in
        rw e (
          authorized-keeps P w k search_name c step (run_search w call)
            (λ a p h. settle_search-keeps call.id _ _ (noted-Guarded P w k c step a p h))
            (observe-keeps P w k _ _ _) a p)
    | inr e ↦ rw e (observe-keeps P w k _ _ _ a p.0)
  ]

  execute_rag_search_tool-keeps :
      (call : ToolCall V) (step : ℕ) → Ensures P (execute_rag_search_tool w call step) P
  unfolding execute_rag_search_tool
  execute_rag_search_tool-keeps call step =
      unless_failing-keeps P w k search_name call.id _ (authorize_search-keeps call step)

  settle_control-keeps :
      (call : ToolCall V) (r : Result Text) → Ensures P (settle_control w call r) P
  unfolding settle_control
  settle_control-keeps call (ok content) = observe-keeps P w k _ _ _
  settle_control-keeps call (err e) = observe-keeps P w k _ _ _

  execute_control_plane_tool-keeps :
      (call : ToolCall V) → Ensures P (execute_control_plane_tool w call) P
  unfolding execute_control_plane_tool
  execute_control_plane_tool-keeps call a = settle_control-keeps call _ a

  handle_loop_detection-keeps :
      (found : LoopPattern w.scores.F) (call : ToolCall V) (step : ℕ)
      → Ensures P (handle_loop_detection w found call step) P
  unfolding handle_loop_detection
  handle_loop_detection-keeps found call step =
      elim (loop_message w found)
        as (λ (o : Option Text).
          Ensures P
            (elim o [
              | some msg ↦ raise (loop_detection msg)
              | none ↦ execute_generic_tool w call step
            ])
            P) [ some msg ↦ λ a p. p | none ↦ execute_generic_tool-keeps P w k call step ]

  dispatch-keeps : (call : ToolCall V) (step : ℕ) → Ensures P (dispatch w call step) P
  unfolding dispatch
  dispatch-keeps call step = elim (Bool-cases (is_control_tool call.name)) [
    | inl e ↦ rw e (execute_control_plane_tool-keeps call)
    | inr e ↦ rw e (elim (Bool-cases (same call.name code_name)) [
      | inl f ↦ rw f (execute_code_tool-keeps call step)
      | inr f ↦ rw f (elim (Bool-cases (same call.name search_name)) [
        | inl g ↦ rw g (execute_rag_search_tool-keeps call step)
        | inr g ↦ rw g (execute_generic_tool-keeps P w k call step)
      ])
    ])
  ]

  pub execute_tool-keeps : (call : ToolCall V) (step : ℕ) → Ensures P (execute_tool w call step) P
  unfolding execute_tool
  execute_tool-keeps call step a p =
      let (d, found) =
        add_tool_call w.scores w.hashes (w.clock (length a.history)) a.loop_detector call.name
          call.arguments step in
      let a' : Agent V M = record a { loop_detector = d } in
      let p' =
        k.plain a a.history a.last_tool_error a.consecutive_error_count a.memory d (inl refl) p in
      elim (Bool-cases (is_problematic found)) [
        | inl e ↦ rw e (handle_loop_detection-keeps found call step a' p')
        | inr e ↦ rw e (dispatch-keeps call step a' p')
      ]

  go_on-keeps :
      {A : Type 0} (e : Option Text) (x : Text → A) (rest : Action (Agent V M) A)
      → Ensures P rest P
      → Ensures P (elim e [ some answer ↦ pure (x answer) | none ↦ rest ]) P
  go_on-keeps (some answer) x rest h a p = p
  go_on-keeps none x rest h a p = h a p

  -- What every tool call keeps, the loop over the calls of a step keeps.
  pub execute_calls-keeps :
      (calls : List (ToolCall V)) (step : ℕ) (results : List Observation)
      → Ensures P (execute_calls w calls step results) P
  unfolding execute_calls ◌>>=◌
  execute_calls-keeps [] step results a p = p
  execute_calls-keeps (call ∷ calls) step results a p =
      >>=-Ensures P P (modify (add_step (action call)) >> execute_tool w call step) _
        (λ b q. execute_tool-keeps call step _ (add_step-keeps (action call) b q))
        (λ o.
          go_on-keeps (ending_of w call.name o) _ _
            (λ b q. execute_calls-keeps calls step (results ++ o ∷ []) b q))
        a p
