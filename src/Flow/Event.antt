-- ===== src/Flow/Event.antt =====
-- The events of a workflow (moonflow/state_event_log.mbt).
use moonbit.Prelude.{String}
use moonbit.Prelude.Int.{ℤ}
use moonbit.Flow.Types.{WorkflowId}

pub data WorkflowEvent (J : Type 0) : Type 0 where
  workflow_started : WorkflowId → String → J → ℤ → WorkflowEvent J
  step_started : WorkflowId → String → ℤ → ℤ → WorkflowEvent J
  step_completed : WorkflowId → String → J → ℤ → WorkflowEvent J
  step_failed : WorkflowId → String → String → ℤ → ℤ → WorkflowEvent J
  step_retrying : WorkflowId → String → ℤ → ℤ → ℤ → WorkflowEvent J
  workflow_completed : WorkflowId → J → ℤ → WorkflowEvent J
  workflow_failed : WorkflowId → String → ℤ → WorkflowEvent J
