-- ===== src/Flow/QueryTests.antt =====
-- Validation, queries, batches, time limits and compensation plans at concrete inputs.
use moonbit.Prelude.{
  ℕ, ◌+◌, ◌≡◌, refl, ◌↔◌, String, true, false, none, some, List, [], ◌∷◌, ◌++◌, All, arith, length,
  if◌then◌else◌,
}
use moonbit.Prelude.Int.{ℤ, pos, ◌-ℤ◌, wrap64}
use moonbit.Prelude.Dict.{Dict, get}
use moonbit.Flow.Async.{pure}
use moonbit.Flow.Types.{
  WorkflowId, WorkflowError, WorkflowDef, StepNode, sequential, completed, failed, Result, ok, err,
  step_timeout,
}
use moonbit.Flow.Event.{
  WorkflowEvent, workflow_started, step_started, step_completed, workflow_completed,
  workflow_failed,
}
use moonbit.Flow.Metrics as Metrics
use moonbit.Flow.Storage.{Storage}
use moonbit.Flow.Storage.Memory.{
  MemoryStorage, memory_storage, memory_laws, stored_log, stored_snapshot,
}
use moonbit.Flow.Engine.{Platform, StepExecutor, Engine, now_ms}
use moonbit.Flow.Engine.Workflow.{start}
use moonbit.Flow.Engine.Timeout.{start_with_timeout, start_with_timeout-Plain, is_late, time_taken}
use moonbit.Flow.Validator.{is_empty, validate_workflow}
use moonbit.Flow.Validator.Runs.{named, Ends, validate_workflow-Ends}
use moonbit.Flow.Validator.Sound.{DistinctNames, NotNegative, Handled, validate_workflow_lem}
use moonbit.Flow.Query.{status_in, get_result, get_error, query_status}
use moonbit.Flow.Query.Ended.{by_output, get_result-get_error}
use moonbit.Flow.Query.Events.{compute_stats}
use moonbit.Flow.Query.Stats.{found, compute_stats-filter_by_type}
use moonbit.Flow.Compensation.{CompensationPlan, build_compensation_plan}
use moonbit.Flow.Compensation.Plan.{listed, CompensatedBy, build_compensation_plan_lem}

abbrev platform : Platform ℕ ℕ
platform = record {
  now = λ w. (w, w + 1);
  random = λ w. (pos w, w);
  null = 0;
  object = λ m. length m;
}

abbrev storage : Storage ℕ (MemoryStorage ℕ)
storage = memory_storage

abbrev add_one : StepExecutor ℕ ℕ
add_one input w = (pure (ok (input + 1)), w)

abbrev refuse : StepExecutor ℕ ℕ
refuse input w = (pure (err (WorkflowError.step_failed "b" "refused")), w)

abbrev node_a : StepNode
node_a = record {
  name = "a";
  config = record { name = "a"; max_retry = pos 3; timeout_ms = pos 0; retry_delay_ms = pos 1 };
  step_type = sequential;
}

abbrev flow : WorkflowDef
flow = record { name = "flow"; steps = node_a ∷ []; deps = [] }

abbrev id_1 : WorkflowId
id_1 = record { value = "1" }

abbrev done : List (WorkflowEvent ℕ)
done =
    workflow_started id_1 "flow" 7 (pos 1)
      ∷ (step_started id_1 "a" (pos 1) (pos 2) ∷ step_completed id_1 "a" 8 (pos 3) ∷ [])
    ++ workflow_completed id_1 8 (pos 4) ∷ []

abbrev id_2 : WorkflowId
id_2 = record { value = "2" }

abbrev broken : List (WorkflowEvent ℕ)
broken =
    workflow_started id_2 "flow" 7 (pos 1)
      ∷ (step_started id_2 "a" (pos 1) (pos 2)
          ∷ step_completed id_2 "a" 8 (pos 3)
          ∷ step_started id_2 "b" (pos 1) (pos 4)
          ∷ [])
    ++ workflow_failed id_2 "refused" (pos 5) ∷ []

abbrev held : MemoryStorage ℕ
held = record { event_logs = ("1", done) ∷ ("2", broken) ∷ []; snapshots = [] }

abbrev engine : Engine ℕ ℕ (MemoryStorage ℕ)
engine = record {
  storage = held;
  registry = ("a", add_one) ∷ ("b", refuse) ∷ [];
  workflow_defs = [];
  signals = [];
  metrics = Metrics.new;
  world = 10;
}

validate_workflow_lem_example :
    (((validate_workflow engine flow).valid ≡ true)
      ↔ ((is_empty flow.steps ≡ false) × (DistinctNames flow.steps × All NotNegative flow.steps)))
    × (((validate_workflow engine flow).warnings ≡ [])
        ↔ All (λ n. Handled engine.registry n.name n.step_type) flow.steps)
validate_workflow_lem_example = validate_workflow_lem engine flow

validate_workflow-Ends_example :
    All
      (λ n.
        All
          (Ends platform storage stored_log stored_snapshot memory_laws engine)
          (named n n.step_type))
      flow.steps
unfolding validate_workflow get
validate_workflow-Ends_example =
    validate_workflow-Ends platform storage stored_log stored_snapshot memory_laws engine engine
      flow refl refl

get_result-get_error_example :
    ((steps : ℤ) × ((get_result storage 0 id_1 held).0
        ≡ some (record {
          workflow_id = id_1;
          output = 8;
          events_count = pos 4;
          steps_executed = steps;
          elapsed_ms = pos 3;
        })))
    × ((get_error storage id_1 held).0 ≡ none)
    × ((query_status storage id_1 held).0 ≡ some completed)
unfolding stored_log get wrap64 ◌-ℤ◌
get_result-get_error_example =
    get_result-get_error memory_laws 0 id_1 id_1 "flow" 7 (pos 1) (pos 4)
      (step_started id_1 "a" (pos 1) (pos 2) ∷ step_completed id_1 "a" 8 (pos 3) ∷ []) (by_output 8)
      held refl

compute_stats-filter_by_type_example :
    let stats = (compute_stats storage id_2 held).0 in
    (stats.total_events ≡ pos 5)
    × (stats.started_count ≡ found memory_laws id_2 held "StepStarted")
    × (stats.completed_count ≡ found memory_laws id_2 held "StepCompleted")
    × (stats.failed_count ≡ found memory_laws id_2 held "StepFailed")
    × (stats.retrying_count ≡ found memory_laws id_2 held "StepRetrying")
    × (stats.workflow_started ≡ found memory_laws id_2 held "WorkflowStarted")
    × (stats.workflow_completed ≡ found memory_laws id_2 held "WorkflowCompleted")
    × (stats.workflow_failed ≡ found memory_laws id_2 held "WorkflowFailed")
unfolding stored_log get
compute_stats-filter_by_type_example =
    compute_stats-filter_by_type memory_laws id_2 held (omega arith)

start_with_timeout-Plain_example :
    (wf_id : WorkflowId) × (f : Engine ℕ ℕ (MemoryStorage ℕ)) × (answer : Result WorkflowId
      × Engine ℕ ℕ (MemoryStorage ℕ))
    × (start platform storage 1 flow 7 (now_ms platform storage engine).1 ≡ some (ok wf_id, f))
    × (start_with_timeout platform storage 1 flow 7 (pos 2) engine ≡ some answer)
    × (answer.0 ≡ (
        if is_late
          (pos 2)
          (time_taken platform storage stored_log stored_snapshot memory_laws engine f)
        then err (step_timeout "workflow" (pos 2))
        else ok wf_id))
    × (status_in (stored_log wf_id.value answer.1.storage) ≡ (
        if is_late
          (pos 2)
          (time_taken platform storage stored_log stored_snapshot memory_laws engine f)
        then some failed
        else status_in (stored_log wf_id.value f.storage)))
start_with_timeout-Plain_example =
    start_with_timeout-Plain platform storage stored_log stored_snapshot memory_laws 0 flow 7
      (pos 2) engine (tt, tt)

abbrev undo_names : Dict String
undo_names = ("a", "undo a") ∷ ("b", "undo b") ∷ []

abbrev broken_events : List (WorkflowEvent ℕ)
broken_events =
    step_started id_2 "a" (pos 1) (pos 2)
    ∷ step_completed id_2 "a" 8 (pos 3)
    ∷ step_started id_2 "b" (pos 1) (pos 4)
    ∷ []

build_compensation_plan_lem_example :
    (plan : CompensationPlan) × ((build_compensation_plan storage id_2 undo_names held).0
      ≡ some plan)
    × (plan.failed_step ≡ "b")
    × ((c : String)
        → (listed c plan.steps_to_compensate ≡ true)
          ↔ CompensatedBy undo_names
              (broken_events ++ workflow_failed id_2 "refused" (pos 5) ∷ [])
              c)
unfolding stored_log get
build_compensation_plan_lem_example =
    build_compensation_plan_lem memory_laws id_2 id_2 undo_names
      (workflow_started id_2 "flow" 7 (pos 1)) broken_events "refused" (pos 5) held refl
