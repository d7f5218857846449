-- ===== src/Flow/Validator/Runs.antt =====
-- Validation and the engine: a step whose handlers validation has found never fails for want of one.
use mathlib.Core.Path.{subst}
use moonbit.Prelude.{
  sym, ℕ, zero, suc, ◌≡◌, refl, ◌∙◌, ap, String, true, Option, some, List, [], ◌∷◌, All, inl, inr,
  Bool-cases, Option-cases, arith,
}
use moonbit.Prelude.Int.{ℤ, pos, ◌+ℤ◌, ltb_ℤ}
use moonbit.Prelude.Dict.{get, contains}
use moonbit.Flow.Types.{
  WorkflowId, StepConfig, StepNode, StepType, sequential, parallel, conditional, WorkflowDef,
  Result, ok, err, step_max_retries_exceeded,
}
use moonbit.Flow.Event.{WorkflowEvent, step_started}
use moonbit.Flow.Snapshot.{WorkflowSnapshot}
use moonbit.Flow.Storage.{Storage, StorageLaws}
use moonbit.Flow.Engine.{Platform, StepExecutor, Engine, now_ms, store_event, emit}
use moonbit.Flow.Engine.Step.{settle, with_handler, attempt_step, execute_step_from, execute_step}
use moonbit.Flow.Engine.Journal.{run_handler-Follows}
use moonbit.Flow.Validator.{validate_workflow}
use moonbit.Flow.Validator.Sound.{Handled, validate_workflow_lem}

-- The handlers that a step names.
abbrev pub named : StepNode → StepType → List String
named node sequential = node.name ∷ []
named node (parallel children) = children
named node (conditional c t f) = c ∷ t ∷ f ∷ []
named node (StepType.sub_workflow _) = []
named node (StepType.signal _) = []

-- An output, or the error that the retries are used up.
abbrev pub Ended : {J : Type 0} → String → Result J → Type 0
Ended name (ok o) = Unit
Ended name (err x) = (attempt : ℤ) × (x ≡ step_max_retries_exceeded name attempt)

module _ {W J S : Type 0} (pf : Platform W J) (st : Storage J S)
    (log : String → S → List (WorkflowEvent J)) (snap : String → S → Option (WorkflowSnapshot J))
    (laws : StorageLaws st log snap) where
  settle-Ended :
      (wf_id : WorkflowId) (node : StepNode) (attempt : ℤ)
      (again : Engine W J S → Result J × Engine W J S) (re : Result J × Engine W J S)
      (handler : StepExecutor W J)
      → get node.name re.1.registry ≡ some handler
      → ((f : Engine W J S) → get node.name f.registry ≡ some handler → Ended node.name (again f).0)
      → Ended node.name (settle pf st wf_id node attempt again re).0
  unfolding settle emit store_event now_ms
  settle-Ended wf_id node attempt again (ok o, e) handler h ends = tt
  settle-Ended wf_id node attempt again (err x, e) handler h ends =
      elim (Bool-cases (ltb_ℤ attempt node.config.max_retry)) [
        | inl t ↦ rw t (ends _ h)
        | inr f ↦ rw f (attempt, refl)
      ]

  attempt_step-Ended :
      (wf_id : WorkflowId) (node : StepNode) (input : J) (attempt : ℤ)
      (again : Engine W J S → Result J × Engine W J S) (e : Engine W J S)
      (handler : StepExecutor W J)
      → get node.name e.registry ≡ some handler
      → ((f : Engine W J S) → get node.name f.registry ≡ some handler → Ended node.name (again f).0)
      → Ended node.name (attempt_step pf st wf_id node input attempt again e).0
  unfolding attempt_step with_handler emit store_event now_ms
  attempt_step-Ended wf_id node input attempt again e handler h ends = rw h (
      settle-Ended wf_id node attempt again _ handler
        (ap (get node.name)
            (run_handler-Follows pf st log snap laws wf_id node handler input
              (emit pf st wf_id (step_started wf_id node.name attempt) e)).registry
          ∙ h)
        ends)

  execute_step_from-Ended :
      (left : ℕ) (wf_id : WorkflowId) (node : StepNode) (input : J) (attempt : ℤ) (e : Engine W J S)
      (handler : StepExecutor W J)
      → get node.name e.registry ≡ some handler
      → Ended node.name (execute_step_from pf st left wf_id node input attempt e).0
  unfolding execute_step_from
  execute_step_from-Ended zero wf_id node input attempt e handler h =
      attempt_step-Ended wf_id node input attempt
        (λ f. (err (step_max_retries_exceeded node.name attempt), f)) e handler h
        (λ f g. (attempt, refl))
  execute_step_from-Ended (suc left) wf_id node input attempt e handler h =
      attempt_step-Ended wf_id node input attempt
        (execute_step_from pf st left wf_id node input (attempt +ℤ pos 1)) e handler h
        (λ f g. execute_step_from-Ended left wf_id node input (attempt +ℤ pos 1) f handler g)

module _ {W J S : Type 0} (pf : Platform W J) (st : Storage J S)
    (log : String → S → List (WorkflowEvent J)) (snap : String → S → Option (WorkflowSnapshot J))
    (laws : StorageLaws st log snap) (f : Engine W J S) where
  -- Every step of a name ends, whatever its retries and limits.
  abbrev pub Ends : String → Type 0
  Ends name =
      (wf_id : WorkflowId) (config : StepConfig) (type : StepType) (input : J) (attempt : ℤ)
      → Ended name
          (execute_step pf st wf_id (record { name = name; config = config; step_type = type })
            input attempt f).0

  contained-Ends : (name : String) → contains name f.registry ≡ true → Ends name
  unfolding execute_step
  contained-Ends name c wf_id config type input attempt =
      elim (Option-cases (get name f.registry)) [
        | inl none_there ↦ absurd (ground (arith, none_there, c))
        | inr (handler, there) ↦
            execute_step_from-Ended pf st log snap laws _ wf_id
              (record { name = name; config = config; step_type = type }) input attempt f handler
              there
      ]

  each_Ends : (names : List String) → All (λ c. contains c f.registry ≡ true) names → All Ends names
  each_Ends [] h = tt
  each_Ends (c ∷ cs) h = (contained-Ends c h.0, each_Ends cs h.1)

  Handled-Ends :
      (node : StepNode) (type : StepType)
      → Handled f.registry node.name type
      → All Ends (named node type)
  Handled-Ends node sequential h = (contained-Ends node.name h, tt)
  Handled-Ends node (parallel children) h = each_Ends children h
  Handled-Ends node (conditional c t e) h = each_Ends (c ∷ t ∷ e ∷ []) (h.0, (h.1, (h.2, tt)))
  Handled-Ends node (StepType.sub_workflow _) h = tt
  Handled-Ends node (StepType.signal _) h = tt

  steps_Ends :
      (nodes : List StepNode)
      → All (λ n. Handled f.registry n.name n.step_type) nodes
      → All (λ n. All Ends (named n n.step_type)) nodes
  steps_Ends [] h = tt
  steps_Ends (n ∷ ns) h = (Handled-Ends n n.step_type h.0, steps_Ends ns h.1)

  -- Where validation warns of nothing, each step of every name that the definition calls by, be it
  -- of a sequential step, a child of a group, a condition or a branch, ends with an output or with
  -- the error that its retries are used up, never for want of a handler: in every engine with the
  -- same handlers, with any configuration, input and attempt.
  pub validate_workflow-Ends :
      (e : Engine W J S) (wf_def : WorkflowDef)
      → (validate_workflow e wf_def).warnings ≡ []
      → f.registry ≡ e.registry
      → All (λ n. All Ends (named n n.step_type)) wf_def.steps
  validate_workflow-Ends e wf_def h same = steps_Ends wf_def.steps (
      subst (λ registry. All (λ n. Handled registry n.name n.step_type) wf_def.steps) (sym same)
        ((validate_workflow_lem e wf_def).1.0 h))
