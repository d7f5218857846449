-- ===== src/Flow/Query.antt =====
-- The queries about workflows (moonflow/api_query.mbt) and their results (api_result.mbt).
pub mod Events
pub mod Stats
pub mod Ended
pub mod Census
use moonbit.Prelude.{
  ◌<◌, String, Option, none, some, List, [], ◌∷◌, get_last?, length, if◌then◌else◌,
}
use moonbit.Prelude.Int.{ℤ, pos, ◌+ℤ◌, ◌-ℤ◌, wrap32, wrap64}
use moonbit.Prelude.Dict.{Dict, get, put}
use moonbit.Flow.Types.{
  WorkflowId, WorkflowStatus, pending, running, completed, failed, cancelled, Result, ok, err,
}
use moonbit.Flow.Event.{
  WorkflowEvent, workflow_started, step_started, step_completed, workflow_completed,
  workflow_failed,
}
use moonbit.Flow.Replay.{WorkflowExecutionState, replay_events}
use moonbit.Flow.Storage.{Storage}

abbrev pub or_empty : {A : Type 0} → Result (List A) → List A
or_empty (ok xs) = xs
or_empty (err x) = []

unfoldable pub status_label : WorkflowStatus → String
status_label pending = "Pending"
status_label running = "Running"
status_label completed = "Completed"
status_label failed = "Failed"
status_label cancelled = "Cancelled"

abbrev pub counted : Option ℤ → ℤ
counted (some c) = wrap32 (c +ℤ pos 1)
counted none = pos 1

abbrev pub when_completed {ℓ} : {A : Type ℓ} → WorkflowStatus → Option A → Option A
when_completed completed x = x
when_completed _ x = none

abbrev pub when_failed {ℓ} : {A : Type ℓ} → WorkflowStatus → Option A → Option A
when_failed failed x = x
when_failed _ x = none

module _ (J : Type 0) where
  pub record WorkflowSummary : Type 0 where
    pub id : WorkflowId
    pub name : String
    pub status : WorkflowStatus
    pub step_count : ℤ
    pub completed_count : ℤ
    pub created_at : ℤ

  pub record WorkflowResult : Type 0 where
    pub workflow_id : WorkflowId
    pub output : J
    pub events_count : ℤ
    pub steps_executed : ℤ
    pub elapsed_ms : ℤ

module _ {J : Type 0} where
  unfoldable pub steps_of : List (WorkflowEvent J) → Dict (Unit {0}) → Dict (Unit {0})
  steps_of [] steps = steps
  steps_of (step_started _ name _ _ ∷ events) steps = steps_of events (put name tt steps)
  steps_of (step_completed _ name _ _ ∷ events) steps = steps_of events (put name tt steps)
  steps_of (_ ∷ events) steps = steps_of events steps

  unfoldable pub count_total_steps : List (WorkflowEvent J) → ℤ
  unfolding steps_of
  count_total_steps events = pos (length (steps_of events []))

  unfoldable pub status_of : Result (WorkflowExecutionState J) → Option WorkflowStatus
  status_of (ok s) = some s.status
  status_of (err x) = none

  unfoldable pub status_in : List (WorkflowEvent J) → Option WorkflowStatus
  unfolding status_of
  status_in [] = none
  status_in (e ∷ es) = status_of (replay_events (e ∷ es))

  abbrev pub name_in : WorkflowEvent J → String
  name_in (workflow_started _ n _ _) = n
  name_in _ = "unknown"

  abbrev pub start_in : WorkflowEvent J → ℤ
  start_in (workflow_started _ _ _ ts) = ts
  start_in _ = pos 0

  unfoldable pub summary_of :
      WorkflowId
      → WorkflowEvent J
      → List (WorkflowEvent J)
      → Result (WorkflowExecutionState J)
      → Option (WorkflowSummary J)
  unfolding count_total_steps
  summary_of id e es (ok state) = some (record {
    id = id;
    name = name_in e;
    status = state.status;
    step_count = count_total_steps (e ∷ es);
    completed_count = pos (length state.completed_steps);
    created_at = start_in e;
  })
  summary_of id e es (err x) = none

  unfoldable pub summary_in : WorkflowId → List (WorkflowEvent J) → Option (WorkflowSummary J)
  unfolding summary_of
  summary_in id [] = none
  summary_in id (e ∷ es) = summary_of id e es (replay_events (e ∷ es))

  -- Of the last event of a log that is not empty.
  abbrev pub output_in : J → Option (WorkflowEvent J) → J
  output_in null (some (workflow_completed _ out _)) = out
  output_in null _ = null

  abbrev pub end_in : Option (WorkflowEvent J) → ℤ
  end_in (some (workflow_completed _ _ ts)) = ts
  end_in _ = pos 0

  abbrev pub error_in : Option (WorkflowEvent J) → Option (String × String)
  error_in (some (workflow_failed _ msg _)) = some ("WorkflowFailed", msg)
  error_in _ = none

  unfoldable pub result_of :
      J
      → WorkflowId
      → WorkflowEvent J
      → List (WorkflowEvent J)
      → Result (WorkflowExecutionState J)
      → Option (WorkflowResult J)
  unfolding ◌-ℤ◌
  result_of null id e es (ok state) = when_completed state.status (
      some (record {
        workflow_id = id;
        output = output_in null (get_last? (e ∷ es));
        events_count = pos (length (e ∷ es));
        steps_executed = pos (length state.completed_steps);
        elapsed_ms = wrap64 (end_in (get_last? (e ∷ es)) -ℤ start_in e);
      }))
  result_of null id e es (err x) = none

  unfoldable pub result_in : J → WorkflowId → List (WorkflowEvent J) → Option (WorkflowResult J)
  unfolding result_of
  result_in null id [] = none
  result_in null id (e ∷ es) = result_of null id e es (replay_events (e ∷ es))

  unfoldable pub failure_of :
      List (WorkflowEvent J) → Result (WorkflowExecutionState J) → Option (String × String)
  failure_of events (ok state) = when_failed state.status (error_in (get_last? events))
  failure_of events (err x) = none

  unfoldable pub failure_in : List (WorkflowEvent J) → Option (String × String)
  unfolding failure_of
  failure_in [] = none
  failure_in (e ∷ es) = failure_of (e ∷ es) (replay_events (e ∷ es))

unfoldable pub count_status : Option WorkflowStatus → Dict ℤ → Dict ℤ
unfolding status_label
count_status (some status) counts =
    put (status_label status) (counted (get (status_label status) counts)) counts
count_status none counts = counts

module _ {J S : Type 0} (st : Storage J S) where
  unfoldable pub load_events_sync : WorkflowId → S → List (WorkflowEvent J) × S
  load_events_sync id s = let (r, s') = st.load_events id s in (or_empty r, s')

  unfoldable pub query_status : WorkflowId → S → Option WorkflowStatus × S
  unfolding load_events_sync status_in
  query_status id s = let (events, s') = load_events_sync id s in (status_in events, s')

  unfoldable pub query_summary : WorkflowId → S → Option (WorkflowSummary J) × S
  unfolding load_events_sync summary_in
  query_summary id s = let (events, s') = load_events_sync id s in (summary_in id events, s')

  unfoldable pub get_result : J → WorkflowId → S → Option (WorkflowResult J) × S
  unfolding load_events_sync result_in
  get_result null id s = let (events, s') = load_events_sync id s in (result_in null id events, s')

  unfoldable pub get_error : WorkflowId → S → Option (String × String) × S
  unfolding load_events_sync failure_in
  get_error id s = let (events, s') = load_events_sync id s in (failure_in events, s')

  unfoldable pub list_all_workflows : S → List WorkflowId × S
  list_all_workflows s = let (r, s') = st.list_workflows s in (or_empty r, s')

  -- The loop over the identifiers.
  unfoldable pub count_from : List WorkflowId → Dict ℤ → S → Dict ℤ × S
  unfolding query_status count_status
  count_from [] counts s = (counts, s)
  count_from (id ∷ ids) counts s =
      let (status, s') = query_status id s in count_from ids (count_status status counts) s'

  unfoldable pub count_by_status : S → Dict ℤ × S
  unfolding list_all_workflows count_from
  count_by_status s = let (ids, s') = list_all_workflows s in count_from ids [] s'
