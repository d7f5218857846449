-- ===== src/Flow/Validator.antt =====
-- The validation of workflow definitions (moonflow/core_validator.mbt).
pub mod Sound
pub mod Runs
use Prim.Native.String.{◌++◌ as append}
use moonbit.Prelude.{
  String, Bool, true, false, not, Option, none, List, [], ◌∷◌, ◌++◌, if◌then◌else◌,
}
use moonbit.Prelude.Int.{ℤ, pos, ltb_ℤ}
use moonbit.Prelude.Dict.{Dict, put, contains}
use moonbit.Flow.Types.{StepNode, StepType, sequential, parallel, conditional, WorkflowDef}
use moonbit.Flow.Engine.{StepExecutor, Engine}

pub record ValidationResult : Type 0 where
  pub valid : Bool
  pub errors : List String
  pub warnings : List String

-- The map and the arrays that the loop writes to.
pub record Findings : Type 0 where
  pub names : Dict (Unit {0})
  pub errors : List String
  pub warnings : List String

abbrev pub is_empty {ℓ} : {A : Type ℓ} → List A → Bool
is_empty [] = true
is_empty (x ∷ xs) = false

abbrev pub push_if : Bool → String → List String → List String
push_if b message texts = if b then texts ++ message ∷ [] else texts

abbrev pub quoted : String → String → String → String
quoted before name after = append before (append name after)

unfoldable pub missing : {A : Type 0} → Dict A → String → Bool
missing registry name = not (contains name registry)

-- A step's own handler, looked for in the first `match`.
unfoldable pub warn_of_step :
    {A : Type 0} → Dict A → StepNode → StepType → List String → List String
unfolding missing
warn_of_step registry node sequential ws =
    push_if (missing registry node.name) (quoted "Step '" node.name "' has no registered handler")
      ws
warn_of_step registry node _ ws = ws

unfoldable pub warn_of_children : {A : Type 0} → Dict A → List String → List String → List String
unfolding missing
warn_of_children registry [] ws = ws
warn_of_children registry (child ∷ children) ws = warn_of_children registry children (
    push_if (missing registry child) (quoted "Parallel child '" child "' has no registered handler")
      ws)

unfoldable pub warn_of_targets : {A : Type 0} → Dict A → StepType → List String → List String
unfolding missing warn_of_children
warn_of_targets registry (parallel children) ws = warn_of_children registry children ws
warn_of_targets registry (conditional c t f) ws =
    let ws₁ =
      push_if (missing registry c) (quoted "Condition step '" c "' has no registered handler") ws in
    let ws₂ =
      push_if (missing registry t) (quoted "Branch target '" t "' has no registered handler") ws₁ in
    push_if (missing registry f) (quoted "Branch target '" f "' has no registered handler") ws₂
warn_of_targets registry sequential ws = ws
warn_of_targets registry (StepType.sub_workflow _) ws = ws
warn_of_targets registry (StepType.signal _) ws = ws

unfoldable pub errors_of_step : Bool → StepNode → List String → List String
errors_of_step seen node es =
    let es₁ = push_if seen (append "Duplicate step name: " node.name) es in
    let es₂ =
      push_if (ltb_ℤ node.config.max_retry (pos 0))
        (quoted "Step '" node.name "': max_retry cannot be negative") es₁ in
    push_if (ltb_ℤ node.config.timeout_ms (pos 0))
      (quoted "Step '" node.name "': timeout_ms cannot be negative") es₂

-- The loop over the steps.
unfoldable pub check_steps : {A : Type 0} → Dict A → List StepNode → Findings → Findings
unfolding errors_of_step warn_of_step warn_of_targets
check_steps registry [] found = found
check_steps registry (node ∷ nodes) found = check_steps registry nodes (record {
  names = put node.name tt found.names;
  errors = errors_of_step (contains node.name found.names) node found.errors;
  warnings =
      warn_of_targets registry node.step_type
        (warn_of_step registry node node.step_type found.warnings);
})

unfoldable pub result_of : Findings → ValidationResult
result_of found = record {
  valid = is_empty found.errors;
  errors = found.errors;
  warnings = found.warnings;
}

unfoldable pub validate_steps : {A : Type 0} → Dict A → List StepNode → ValidationResult
unfolding check_steps result_of
validate_steps registry [] = record {
  valid = false;
  errors = "Workflow has no steps" ∷ [];
  warnings = [];
}
validate_steps registry (node ∷ nodes) =
    result_of
      (check_steps registry (node ∷ nodes) (record { names = []; errors = []; warnings = [] }))

unfoldable pub validate_workflow : {W J S : Type 0} → Engine W J S → WorkflowDef → ValidationResult
unfolding validate_steps
validate_workflow e wf_def = validate_steps e.registry wf_def.steps

unfoldable pub check_cycles : WorkflowDef → Option String
check_cycles wf_def = none
