-- ===== src/Flow/Compensation.antt =====
-- Compensating a workflow that failed, by its log (moonflow/core_compensation.mbt).
pub mod Plan
use moonbit.Prelude.{String, Option, none, some, List, [], ◌∷◌, ◌++◌}
use moonbit.Prelude.Dict.{Dict, get, keys}
use moonbit.Flow.Types.{WorkflowId, WorkflowError, step_failed, Result, ok, err}
use moonbit.Flow.Event.{WorkflowEvent}
use moonbit.Flow.Replay.{WorkflowExecutionState, replay_events}
use moonbit.Flow.Storage.{Storage}
use moonbit.Flow.Engine.{StepExecutor, Engine, call_handler}
use moonbit.Flow.Query.{load_events_sync, when_failed}

pub record CompensationPlan : Type 0 where
  pub workflow_id : WorkflowId
  pub failed_step : String
  pub steps_to_compensate : List String

-- The loop over the keys of the completed steps.
unfoldable pub plan_from : Dict String → List String → List String → List String
plan_from compensation_map [] steps = steps
plan_from compensation_map (name ∷ names) steps = elim (get name compensation_map) [
  | some c ↦ plan_from compensation_map names (steps ++ c ∷ [])
  | none ↦ plan_from compensation_map names steps
]

module _ {J : Type 0} where
  unfoldable pub plan_of :
      WorkflowId → Dict String → Result (WorkflowExecutionState J) → Option CompensationPlan
  unfolding plan_from
  plan_of id compensation_map (ok state) = when_failed state.status (
      some (record {
        workflow_id = id;
        failed_step = state.current_step;
        steps_to_compensate = plan_from compensation_map (keys state.completed_steps) [];
      }))
  plan_of id compensation_map (err x) = none

  unfoldable pub plan_in :
      WorkflowId → Dict String → List (WorkflowEvent J) → Option CompensationPlan
  unfolding plan_of
  plan_in id compensation_map [] = none
  plan_in id compensation_map (e ∷ es) = plan_of id compensation_map (replay_events (e ∷ es))

unfoldable pub build_compensation_plan :
    {J S : Type 0} → Storage J S → WorkflowId → Dict String → S → Option CompensationPlan × S
unfolding load_events_sync plan_in
build_compensation_plan st id compensation_map s =
    let (events, s') = load_events_sync st id s in (plan_in id compensation_map events, s')

module _ {W J S : Type 0} where
  -- `again` is the rest of the loop.
  unfoldable pub on_compensation :
      (J → Engine W J S → Result J × Engine W J S)
      → Result J × Engine W J S
      → Result J × Engine W J S
  on_compensation again (ok output, e) = again output e
  on_compensation again (err x, e) = (err x, e)

  unfoldable pub compensate_all : List String → J → Engine W J S → Result J × Engine W J S
  unfolding on_compensation
  compensate_all [] input e = (ok input, e)
  compensate_all (step ∷ steps) input e = elim (get step e.registry) [
    | some handler ↦ on_compensation (compensate_all steps) (call_handler handler input e)
    | none ↦ (err (step_failed step "compensation handler not found"), e)
  ]

  unfoldable pub execute_compensation :
      CompensationPlan → J → Engine W J S → Result J × Engine W J S
  unfolding compensate_all
  execute_compensation plan input e = compensate_all plan.steps_to_compensate input e
