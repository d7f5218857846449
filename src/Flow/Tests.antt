-- ===== src/Flow/Tests.antt =====
-- Concrete runs of the engine on the in-memory back end, and the theorems at them. The world is a
-- clock that ticks at every reading; JSON values are numbers.
use moonbit.Prelude.{ℕ, ◌+◌, ◌≡◌, refl, some, List, [], ◌∷◌, Holds, length, String, ◌++◌}
use moonbit.Prelude.Int.{pos, pos_part, ◌+ℤ◌, ◌-ℤ◌, wrap64}
use moonbit.Prelude.Dict.{get, put}
use moonbit.Flow.Async.{run, pure}
use moonbit.Flow.Types.{
  WorkflowId, WorkflowError, Result, StepNode, StepType, sequential, WorkflowDef, ok, err, running,
}
use moonbit.Flow.Event.{WorkflowEvent, workflow_started, step_started, step_completed}
use moonbit.Flow.Replay.{WorkflowExecutionState, replay_events}
use moonbit.Flow.Replay.Latest.{Reads, replay-Reads}
use moonbit.Flow.Storage.{Storage, StorageLaws}
use moonbit.Flow.Storage.Memory.{
  MemoryStorage, memory_storage, memory_laws, stored_log, stored_snapshot,
}
use moonbit.Flow.Storage.File
use moonbit.Flow.Storage.File.{file_storage, file_laws}
use moonbit.Flow.Metrics
use moonbit.Flow.Engine.{
  Platform, StepExecutor, Engine, emit, call_handler, load_all_events, signal, has_signal,
}
use moonbit.Flow.Engine.Step.{execute_step}
use moonbit.Flow.Engine.Node.{execute_node, advance}
use moonbit.Flow.Engine.Workflow.{
  execute_workflow, execute_sub_workflow, start, steps_from, resumed, resume_workflow,
  get_last_output,
}
use moonbit.Flow.Engine.Ends.{Done, execute_workflow-Done}
use moonbit.Flow.Engine.Status.{IsOverIn}
use moonbit.Flow.Engine.Total.{start-Plain}
use moonbit.Flow.Engine.Recovery.{
  Passes, reached, performed, carry, resume_skips, signal_wait_is_final,
}
use moonbit.Flow.Engine.Retries.{AlwaysFails, Exhausted, execute_step-Exhausted}

abbrev platform : Platform ℕ ℕ
platform = record {
  now = λ w. (w, w + 1);
  random = λ w. (pos w, w);
  null = 0;
  object = λ m. length m;
}

abbrev storage : Storage ℕ (MemoryStorage ℕ)
storage = memory_storage

abbrev add_one : StepExecutor ℕ ℕ
add_one input w = (pure (ok (input + 1)), w)

abbrev refuse : StepExecutor ℕ ℕ
refuse input w = (pure (err (WorkflowError.step_failed "b" "refused")), w)

abbrev node_a : StepNode
node_a = record {
  name = "a";
  config = record { name = "a"; max_retry = pos 3; timeout_ms = pos 0; retry_delay_ms = pos 1 };
  step_type = sequential;
}

abbrev node_b : StepNode
node_b = record {
  name = "b";
  config = record { name = "b"; max_retry = pos 3; timeout_ms = pos 0; retry_delay_ms = pos 1 };
  step_type = sequential;
}

abbrev node_s : StepNode
node_s = record {
  name = "s";
  config = record { name = "s"; max_retry = pos 3; timeout_ms = pos 0; retry_delay_ms = pos 1 };
  step_type = StepType.signal "go";
}

abbrev flow : WorkflowDef
flow = record { name = "flow"; steps = node_a ∷ node_b ∷ []; deps = [] }

abbrev gated : WorkflowDef
gated = record { name = "gated"; steps = node_a ∷ node_s ∷ node_b ∷ []; deps = [] }

abbrev wf : WorkflowId
wf = record { value = "w" }

abbrev first : WorkflowEvent ℕ
first = workflow_started wf "flow" 7 (pos 0)

abbrev a_done : List (WorkflowEvent ℕ)
a_done = step_started wf "a" (pos 1) (pos 1) ∷ step_completed wf "a" 8 (pos 2) ∷ []

abbrev engine : Engine ℕ ℕ (MemoryStorage ℕ)
engine = record {
  storage = record { event_logs = ("w", first ∷ a_done) ∷ []; snapshots = [] };
  registry = ("a", add_one) ∷ ("b", refuse) ∷ [];
  workflow_defs = [];
  signals = [];
  metrics = Metrics.new;
  world = 10;
}

replay-Reads_example :
    (t : WorkflowExecutionState ℕ) × (replay_events (first ∷ a_done) ≡ ok t) × Reads t first a_done
replay-Reads_example = replay-Reads first a_done

abbrev a_state : WorkflowExecutionState ℕ
a_state = record {
  workflow_id = record { value = "" };
  status = running;
  completed_steps = ("a", 8) ∷ [];
  failed_steps = [];
  current_step = "a";
  step_attempts = ("a", pos 1) ∷ [];
}

replay_a : replay_events (first ∷ a_done) ≡ ok a_state
unfolding replay_events put get
replay_a = refl

memory_laws_example : StorageLaws {J = ℕ} memory_storage stored_log stored_snapshot
memory_laws_example = memory_laws

file_laws_example : StorageLaws {J = ℕ} file_storage File.stored_log File.stored_snapshot
file_laws_example = file_laws

refuse-AlwaysFails : AlwaysFails refuse
unfolding run
refuse-AlwaysFails input w = tt

-- The second step has three attempts.
execute_step-Exhausted_example :
    Exhausted platform storage stored_log stored_snapshot memory_laws wf node_b refuse
      refuse-AlwaysFails
      (pos_part (pos 3 -ℤ pos 1))
      (pos 1)
      engine
      (execute_step platform storage wf node_b 5 (pos 1) engine)
unfolding get
execute_step-Exhausted_example =
    execute_step-Exhausted platform storage stored_log stored_snapshot memory_laws wf node_b refuse
      refuse-AlwaysFails 5 (pos 1) engine refl

execute_workflow-Done_example :
    Holds
      (Done platform storage stored_log stored_snapshot memory_laws wf engine)
      (execute_workflow platform storage 1 wf flow 7 [] engine)
execute_workflow-Done_example =
    execute_workflow-Done platform storage stored_log stored_snapshot memory_laws 1 wf flow 7 []
      engine

start-Plain_example :
    (r : Result WorkflowId × Engine ℕ ℕ (MemoryStorage ℕ)) × (start platform storage 1 flow 7 engine
      ≡ some r)
    × IsOverIn platform storage stored_log stored_snapshot memory_laws r
start-Plain_example =
    start-Plain platform storage stored_log stored_snapshot memory_laws 0 flow 7 engine
      (tt, (tt, tt))

-- The log shows the first step completed: the run goes on at the second.
resume_skips_example :
    let e₁ = (load_all_events platform storage wf engine).1 in
    let e₂ : Engine ℕ ℕ (MemoryStorage ℕ) = record e₁ {
      workflow_defs = put "w" flow e₁.workflow_defs;
    } in
    resume_workflow platform storage 1 wf flow engine
    ≡ resumed platform storage (
        steps_from platform storage
          (execute_sub_workflow platform storage (execute_workflow platform storage 0))
          wf
          flow
          a_state.completed_steps
          (node_b ∷ [])
          (carry a_state.completed_steps (node_a ∷ []) (get_last_output 0 (first ∷ a_done)))
          e₂)
unfolding stored_log get
resume_skips_example =
    resume_skips platform storage stored_log stored_snapshot memory_laws 0 wf flow engine
      (node_a ∷ []) (node_b ∷ []) refl replay_a refl refl (refl, tt)

-- After the first step of the gated workflow.
abbrev at_gate : Engine ℕ ℕ (MemoryStorage ℕ)
at_gate = record engine {
  storage = record {
    event_logs =
        (
          "w",
          first
              ∷ (a_done
                  ++ step_started wf "a" (pos 1) (pos 10) ∷ step_completed wf "a" 8 (pos 11) ∷ []),
        )
        ∷ [];
    snapshots = [];
  };
  world = 12;
}

a_runs :
    execute_node platform storage
      (execute_sub_workflow platform storage (execute_workflow platform storage 0))
      wf
      gated
      []
      node_a
      sequential
      7
      engine
    ≡ some (advance 8 at_gate)
unfolding execute_node execute_step put get memory_storage emit run ◌+ℤ◌ ◌-ℤ◌ wrap64 call_handler
a_runs = refl

gate_reached :
    Passes platform storage
      (execute_sub_workflow platform storage (execute_workflow platform storage 0))
      wf
      gated
      []
      (node_a ∷ [])
      7
      engine
      8
      at_gate
unfolding get
gate_reached = performed refl a_runs reached

signal_wait_is_final_example :
    (f : Engine ℕ ℕ (MemoryStorage ℕ)) × (execute_workflow platform storage 1 wf gated 7 [] engine
      ≡ some f)
    × ((later : String) (depth' : ℕ) (d' : WorkflowDef)
        → (step : String) × (resume_workflow platform storage depth' wf d' (signal "w" later f)
            ≡ some (
              err (WorkflowError.step_failed step "workflow previously failed"),
              (load_all_events platform storage wf (signal "w" later f)).1,
            )))
unfolding stored_log get has_signal
signal_wait_is_final_example =
    signal_wait_is_final platform storage stored_log stored_snapshot memory_laws 0 wf gated []
      (node_a ∷ []) node_s (node_b ∷ []) "go" 7 engine refl gate_reached refl refl refl refl
