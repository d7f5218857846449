-- ===== src/Flow/Types.antt =====
-- The data of MoonFlow: identifiers and errors (moonflow/types_workflow_id.mbt, types_errors.mbt),
-- steps (core_step.mbt), workflow definitions (core_workflow.mbt).
-- An `Int` and an `Int64` are integers; `Json` and the world are type parameters where they occur.
use moonbit.Prelude.{◌≡◌, refl, ◌⊎◌, inl, inr, String, List}
use moonbit.Prelude.Int.{ℤ, pos}
use moonbit.Prelude.Dict.{Dict}

pub record WorkflowId : Type 0 where
  pub value : String

pub data WorkflowError : Type 0 where
  step_failed : String → String → WorkflowError
  step_timeout : String → ℤ → WorkflowError
  step_max_retries_exceeded : String → ℤ → WorkflowError
  workflow_not_found : WorkflowId → WorkflowError
  invalid_transition : String → String → WorkflowError
  serialization_error : String → WorkflowError
  storage_error : String → WorkflowError

-- `Result[T, WorkflowError]`
pub data Result (A : Type 0) : Type 0 where
  ok : A → Result A
  err : WorkflowError → Result A

pub Result-cases :
    {A : Type 0} (r : Result A) → ((a : A) × (r ≡ ok a)) ⊎ ((x : WorkflowError) × (r ≡ err x))
Result-cases (ok a) = inl (a, refl)
Result-cases (err x) = inr (x, refl)

pub record StepConfig : Type 0 where
  pub name : String
  pub max_retry : ℤ
  pub timeout_ms : ℤ
  pub retry_delay_ms : ℤ

unfoldable pub default : String → StepConfig
default n = record {
  name = n;
  max_retry = pos 3;
  timeout_ms = pos 30000;
  retry_delay_ms = pos 1000;
}

unfoldable pub with_retry : String → ℤ → StepConfig
with_retry n m = record {
  name = n;
  max_retry = m;
  timeout_ms = pos 30000;
  retry_delay_ms = pos 1000;
}

unfoldable pub with_timeout : String → ℤ → StepConfig
with_timeout n t = record { name = n; max_retry = pos 3; timeout_ms = t; retry_delay_ms = pos 1000 }

unfoldable pub with_all : String → ℤ → ℤ → ℤ → StepConfig
with_all n m t d = record { name = n; max_retry = m; timeout_ms = t; retry_delay_ms = d }

pub data StepType : Type 0 where
  sequential : StepType
  parallel : List String → StepType
  conditional : String → String → String → StepType
  sub_workflow : String → StepType
  signal : String → StepType

pub record StepNode : Type 0 where
  pub name : String
  pub config : StepConfig
  pub step_type : StepType

pub data WorkflowStatus : Type 0 where
  pending running completed failed cancelled : WorkflowStatus

pub record WorkflowDef : Type 0 where
  pub name : String
  pub steps : List StepNode
  pub deps : Dict (List String)

pub record WorkflowBuilder : Type 0 where
  pub name : String
  pub steps : List StepNode
  pub deps : Dict (List String)
