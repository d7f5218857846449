-- ===== src/Flow/Replay.antt =====
-- The execution state and its reconstruction from the events (moonflow/state_replay.mbt).
pub mod Latest
use moonbit.Prelude.{String, ◌≡◌, Option, none, some, List, [], ◌∷◌, if◌then◌else◌}
use moonbit.Prelude.Int.{ℤ}
use moonbit.Prelude.Dict.{Dict, put, remove, contains}
use moonbit.Flow.Types.{
  WorkflowId, WorkflowError, WorkflowStatus, pending, running, completed, failed, Result, ok, err,
}
use moonbit.Flow.Event.{
  WorkflowEvent, workflow_started, step_started, step_completed, step_failed, step_retrying,
  workflow_completed, workflow_failed,
}

pub record WorkflowExecutionState (J : Type 0) : Type 0 where
  pub workflow_id : WorkflowId
  pub status : WorkflowStatus
  pub completed_steps : Dict J
  pub failed_steps : Dict WorkflowError
  pub current_step : String
  pub step_attempts : Dict ℤ

module _ {J : Type 0} where
  unfoldable pub new : WorkflowId → WorkflowExecutionState J
  new id = record {
    workflow_id = id;
    status = pending;
    completed_steps = [];
    failed_steps = [];
    current_step = "";
    step_attempts = [];
  }

  unfoldable pub apply_event :
      Option (WorkflowExecutionState J) → WorkflowEvent J → WorkflowExecutionState J
  unfolding new
  apply_event none (workflow_started _ _ _ _) = record (new (record { value = "" })) {
    status = running;
  }
  apply_event (some s) (step_started _ step attempt _) = record s {
    current_step = step;
    step_attempts = put step attempt s.step_attempts;
  }
  apply_event (some s) (step_completed _ step output _) = record s {
    completed_steps = put step output s.completed_steps;
    failed_steps =
        if contains step s.failed_steps then remove step s.failed_steps else s.failed_steps;
  }
  apply_event (some s) (step_failed _ step e _ _) = record s {
    failed_steps = put step (WorkflowError.step_failed step e) s.failed_steps;
  }
  apply_event (some s) (step_retrying _ step attempt _ _) = record s {
    step_attempts = put step attempt s.step_attempts;
  }
  apply_event (some s) (workflow_completed _ _ _) = record s { status = completed }
  apply_event (some s) (workflow_failed _ _ _) = record s { status = failed }
  apply_event (some s) _ = s
  apply_event none _ = new (record { value = "" })

  -- The loop over the events.
  unfoldable pub replay_from :
      Option (WorkflowExecutionState J) → List (WorkflowEvent J) → Option (WorkflowExecutionState J)
  unfolding apply_event
  replay_from state [] = state
  replay_from state (event ∷ events) = replay_from (some (apply_event state event)) events

  unfoldable pub finish : Option (WorkflowExecutionState J) → Result (WorkflowExecutionState J)
  finish (some s) = ok s
  finish none = err (WorkflowError.serialization_error "empty event log")

  unfoldable pub replay_events : List (WorkflowEvent J) → Result (WorkflowExecutionState J)
  unfolding replay_from finish
  replay_events events = finish (replay_from none events)
