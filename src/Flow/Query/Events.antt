-- ===== src/Flow/Query/Events.antt =====
-- The queries about the events of a workflow (moonflow/api_event_query.mbt).
use moonbit.Prelude.{
  String, Bool, true, false, ◌&&◌, Option, none, some, List, [], ◌∷◌, ◌++◌, length, str_eq,
  if◌then◌else◌,
}
use moonbit.Prelude.Int.{ℤ, pos, ◌+ℤ◌, leb_ℤ, wrap32}
use moonbit.Flow.Types.{WorkflowId}
use moonbit.Flow.Event.{
  WorkflowEvent, workflow_started, step_started, step_completed, step_failed, step_retrying,
  workflow_completed, workflow_failed,
}
use moonbit.Flow.Storage.{Storage}
use moonbit.Flow.Query.{load_events_sync}

unfoldable pub array_contains : List String → String → Bool
array_contains [] target = false
array_contains (s ∷ arr) target = if str_eq s target then true else array_contains arr target

pub record EventStats : Type 0 where
  pub total_events : ℤ
  pub started_count : ℤ
  pub completed_count : ℤ
  pub failed_count : ℤ
  pub retrying_count : ℤ
  pub workflow_started : ℤ
  pub workflow_completed : ℤ
  pub workflow_failed : ℤ

abbrev pub incremented : ℤ → ℤ
incremented n = wrap32 (n +ℤ pos 1)

unfoldable pub no_stats : ℤ → EventStats
no_stats total = record {
  total_events = total;
  started_count = pos 0;
  completed_count = pos 0;
  failed_count = pos 0;
  retrying_count = pos 0;
  workflow_started = pos 0;
  workflow_completed = pos 0;
  workflow_failed = pos 0;
}

abbrev pub is_some_eq : String → Option String → Bool
is_some_eq name (some n) = str_eq n name
is_some_eq name none = false

abbrev pub is_some_within : ℤ → ℤ → Option ℤ → Bool
is_some_within start end (some t) = leb_ℤ start t && leb_ℤ t end
is_some_within start end none = false

module _ {J : Type 0} where
  unfoldable pub event_type_name : WorkflowEvent J → String
  event_type_name (workflow_started _ _ _ _) = "WorkflowStarted"
  event_type_name (step_started _ _ _ _) = "StepStarted"
  event_type_name (step_completed _ _ _ _) = "StepCompleted"
  event_type_name (step_failed _ _ _ _ _) = "StepFailed"
  event_type_name (step_retrying _ _ _ _ _) = "StepRetrying"
  event_type_name (workflow_completed _ _ _) = "WorkflowCompleted"
  event_type_name (workflow_failed _ _ _) = "WorkflowFailed"

  unfoldable pub event_step_name : WorkflowEvent J → Option String
  event_step_name (step_started _ name _ _) = some name
  event_step_name (step_completed _ name _ _) = some name
  event_step_name (step_failed _ name _ _ _) = some name
  event_step_name (step_retrying _ name _ _ _) = some name
  event_step_name _ = none

  unfoldable pub event_timestamp : WorkflowEvent J → Option ℤ
  event_timestamp (workflow_started _ _ _ ts) = some ts
  event_timestamp (step_started _ _ _ ts) = some ts
  event_timestamp (step_completed _ _ _ ts) = some ts
  event_timestamp (step_failed _ _ _ _ ts) = some ts
  event_timestamp (step_retrying _ _ _ _ ts) = some ts
  event_timestamp (workflow_completed _ _ ts) = some ts
  event_timestamp (workflow_failed _ _ ts) = some ts

  unfoldable pub count_event : EventStats → WorkflowEvent J → EventStats
  count_event s (workflow_started _ _ _ _) = record s {
    workflow_started = incremented s.workflow_started;
  }
  count_event s (step_started _ _ _ _) = record s { started_count = incremented s.started_count }
  count_event s (step_completed _ _ _ _) = record s {
    completed_count = incremented s.completed_count;
  }
  count_event s (step_failed _ _ _ _ _) = record s { failed_count = incremented s.failed_count }
  count_event s (step_retrying _ _ _ _ _) = record s {
    retrying_count = incremented s.retrying_count;
  }
  count_event s (workflow_completed _ _ _) = record s {
    workflow_completed = incremented s.workflow_completed;
  }
  count_event s (workflow_failed _ _ _) = record s {
    workflow_failed = incremented s.workflow_failed;
  }

  unfoldable pub count_events : EventStats → List (WorkflowEvent J) → EventStats
  unfolding count_event
  count_events s [] = s
  count_events s (e ∷ es) = count_events (count_event s e) es

  -- The loop of the filters, over the test of one event.
  unfoldable pub push_kept :
      (WorkflowEvent J → Bool)
      → List (WorkflowEvent J)
      → List (WorkflowEvent J)
      → List (WorkflowEvent J)
  push_kept keeps result [] = result
  push_kept keeps result (e ∷ es) =
      push_kept keeps (if keeps e then result ++ e ∷ [] else result) es

  unfoldable pub has_type : List String → WorkflowEvent J → Bool
  unfolding array_contains event_type_name
  has_type types e = array_contains types (event_type_name e)

  unfoldable pub has_step : String → WorkflowEvent J → Bool
  unfolding event_step_name
  has_step name e = is_some_eq name (event_step_name e)

  unfoldable pub is_within : ℤ → ℤ → WorkflowEvent J → Bool
  unfolding event_timestamp
  is_within start end e = is_some_within start end (event_timestamp e)

module _ {J S : Type 0} (st : Storage J S) where
  unfoldable pub filter_by_type : WorkflowId → List String → S → List (WorkflowEvent J) × S
  unfolding load_events_sync push_kept has_type
  filter_by_type id types s =
      let (events, s') = load_events_sync st id s in (push_kept (has_type types) [] events, s')

  unfoldable pub filter_by_step : WorkflowId → String → S → List (WorkflowEvent J) × S
  unfolding load_events_sync push_kept has_step
  filter_by_step id name s =
      let (events, s') = load_events_sync st id s in (push_kept (has_step name) [] events, s')

  unfoldable pub filter_by_time : WorkflowId → ℤ → ℤ → S → List (WorkflowEvent J) × S
  unfolding load_events_sync push_kept is_within
  filter_by_time id start end s =
      let (events, s') = load_events_sync st id s in (push_kept (is_within start end) [] events, s')

  unfoldable pub compute_stats : WorkflowId → S → EventStats × S
  unfolding load_events_sync count_events no_stats
  compute_stats id s =
      let (events, s') = load_events_sync st id s in
      (count_events (no_stats (pos (length events))) events, s')
