-- ===== src/Flow/Engine/Workflow.antt =====
-- Running the steps of a workflow, starting it and resuming it (moonflow/core_engine.mbt,
-- core_timeout.mbt). A sub-workflow is run inside its parent, so the recursion takes the depth of
-- nesting as fuel: `none` is a workflow that is nested deeper.
use Prim.Native.String.{◌++◌}
use mathlib.Core.List.{reverse}
use moonbit.Prelude.{ℕ, zero, suc, Option, none, some, List, [], ◌∷◌}
use moonbit.Prelude.Int.{pos, wrap32}
use moonbit.Prelude.Dict.{Dict, get, put}
use moonbit.Flow.Types.{
  WorkflowId, WorkflowError, StepNode, WorkflowDef, Result, ok, err, workflow_not_found,
  invalid_transition, WorkflowStatus, pending, running, completed, failed, cancelled,
}
use moonbit.Flow.Event.{WorkflowEvent, workflow_started, step_completed, workflow_completed}
use moonbit.Flow.Errors.{show}
use moonbit.Flow.Replay.{WorkflowExecutionState, replay_events}
use moonbit.Flow.Storage.{Storage}
use moonbit.Flow.Engine.{Platform, Engine, now_ms, store_event, emit, load_all_events}
use moonbit.Flow.Engine.Node.{SubRunner, Progress, advance, halt, execute_node}

module _ {J : Type 0} where
  -- The events from the last one on, back to the first that has an output.
  last_output_from : J → List (WorkflowEvent J) → J
  last_output_from null [] = null
  last_output_from null (step_completed _ _ output _ ∷ es) = output
  last_output_from null (workflow_started _ _ input _ ∷ es) = input
  last_output_from null (_ ∷ es) = last_output_from null es

  unfoldable pub get_last_output : J → List (WorkflowEvent J) → J
  unfolding last_output_from
  get_last_output null events = last_output_from null (reverse events)

-- A run of the steps of a workflow.
abbrev pub Runner : Type 0 → Type 0 → Type 0 → Type 0
Runner W J S = WorkflowId → WorkflowDef → J → Dict J → Engine W J S → Option (Engine W J S)

module _ {W J S : Type 0} (pf : Platform W J) (st : Storage J S) where
  -- What the loop does with the outcome of a step; `rest` is the loop over the steps after it.
  unfoldable pub proceed :
      (J → Engine W J S → Option (Engine W J S))
      → Option (Progress J (Engine W J S))
      → Option (Engine W J S)
  proceed rest none = none
  proceed rest (some (advance output e)) = rest output e
  proceed rest (some (halt e)) = some e

  -- The loop, over the steps from `step_index` on. Every branch goes on at the next one.
  unfoldable pub steps_from :
      SubRunner W J S
      → WorkflowId
      → WorkflowDef
      → Dict J
      → List StepNode
      → J
      → Engine W J S
      → Option (Engine W J S)
  unfolding execute_node proceed
  steps_from sub wf_id wf_def completed_steps [] input e =
      some (emit pf st wf_id (workflow_completed wf_id input) e)
  steps_from sub wf_id wf_def completed_steps (node ∷ nodes) input e =
      elim (get node.name completed_steps) [
        | some o ↦ steps_from sub wf_id wf_def completed_steps nodes o e
        | none ↦
            proceed (λ output e'. steps_from sub wf_id wf_def completed_steps nodes output e')
              (execute_node pf st sub wf_id wf_def completed_steps node node.step_type input e)
      ]

  -- `WorkflowId::generate`
  unfoldable pub generate : Engine W J S → WorkflowId × Engine W J S
  unfolding show
  generate e =
      let (t, w) = pf.now e.world in
      let (r, w') = pf.random w in
      (record { value = "wf-" ++ show (wrap32 (pos t)) ++ "-" ++ show r }, record e { world = w' })

  abbrev pub with_id :
      WorkflowId → Option (Engine W J S) → Option (Result WorkflowId × Engine W J S)
  with_id wf_id none = none
  with_id wf_id (some e) = some (ok wf_id, e)

  -- `start`, over the run that it makes.
  unfoldable pub start_with :
      Runner W J S → WorkflowDef → J → Engine W J S → Option (Result WorkflowId × Engine W J S)
  unfolding generate
  start_with run wf_def input e =
      let (wf_id, e₁) = generate e in
      let (ts, e₂) = now_ms pf st e₁ in
      let e₃ = record e₂ { workflow_defs = put wf_id.value wf_def e₂.workflow_defs } in
      let e₄ = store_event pf st wf_id (workflow_started wf_id wf_def.name input ts) e₃ in
      with_id wf_id (run wf_id wf_def input [] e₄)

  abbrev pub sub_output :
      Option (Result WorkflowId × Engine W J S) → Option (Result J × Engine W J S)
  sub_output none = none
  sub_output (some (ok sub_id, e)) =
      let (events, e') = load_all_events pf st sub_id e in
      some (ok (get_last_output pf.null events), e')
  sub_output (some (err x, e)) = some (err x, e)

  unfoldable pub execute_sub_workflow : Runner W J S → SubRunner W J S
  unfolding start_with get_last_output
  execute_sub_workflow run node input e = elim (get node.name e.workflow_defs) [
    | none ↦ some (err (WorkflowError.step_failed node.name "sub-workflow definition not found"), e)
    | some d ↦ sub_output (start_with run d input e)
  ]

  unfoldable pub execute_workflow : ℕ → Runner W J S
  unfolding steps_from execute_sub_workflow
  execute_workflow zero wf_id wf_def input completed_steps e = none
  execute_workflow (suc depth) wf_id wf_def input completed_steps e =
      steps_from (execute_sub_workflow (execute_workflow depth)) wf_id wf_def completed_steps
        wf_def.steps input e

  unfoldable pub start :
      ℕ → WorkflowDef → J → Engine W J S → Option (Result WorkflowId × Engine W J S)
  unfolding start_with execute_workflow
  start depth wf_def input e = start_with (execute_workflow depth) wf_def input e

  abbrev pub resumed : Option (Engine W J S) → Option (Result (Unit {0}) × Engine W J S)
  resumed none = none
  resumed (some e) = some (ok tt, e)

  abbrev pub resume_running :
      ℕ
      → WorkflowId
      → WorkflowDef
      → J
      → WorkflowExecutionState J
      → Engine W J S
      → Option (Result (Unit {0}) × Engine W J S)
  resume_running depth id wf_def last state e =
      let e' = record e { workflow_defs = put id.value wf_def e.workflow_defs } in
      resumed (execute_workflow depth id wf_def last state.completed_steps e')

  abbrev pub resume_by_status :
      WorkflowStatus
      → ℕ
      → WorkflowId
      → WorkflowDef
      → J
      → WorkflowExecutionState J
      → Engine W J S
      → Option (Result (Unit {0}) × Engine W J S)
  resume_by_status completed depth id wf_def last state e = some (ok tt, e)
  resume_by_status failed depth id wf_def last state e =
      some (err (WorkflowError.step_failed state.current_step "workflow previously failed"), e)
  resume_by_status cancelled depth id wf_def last state e =
      some (err (invalid_transition "cancelled" "resume"), e)
  resume_by_status pending depth id wf_def last state e =
      resume_running depth id wf_def last state e
  resume_by_status running depth id wf_def last state e =
      resume_running depth id wf_def last state e

  abbrev pub resume_state :
      Result (WorkflowExecutionState J)
      → ℕ
      → WorkflowId
      → WorkflowDef
      → J
      → Engine W J S
      → Option (Result (Unit {0}) × Engine W J S)
  resume_state (err x) depth id wf_def last e = some (err x, e)
  resume_state (ok state) depth id wf_def last e =
      resume_by_status state.status depth id wf_def last state e

  abbrev pub resume_events :
      List (WorkflowEvent J)
      → ℕ
      → WorkflowId
      → WorkflowDef
      → Engine W J S
      → Option (Result (Unit {0}) × Engine W J S)
  resume_events [] depth id wf_def e = some (err (workflow_not_found id), e)
  resume_events (event ∷ events) depth id wf_def e =
      resume_state (replay_events (event ∷ events)) depth id wf_def
        (get_last_output pf.null (event ∷ events)) e

  unfoldable pub resume_workflow :
      ℕ → WorkflowId → WorkflowDef → Engine W J S → Option (Result (Unit {0}) × Engine W J S)
  unfolding get_last_output execute_workflow
  resume_workflow depth id wf_def e =
      let (events, e') = load_all_events pf st id e in resume_events events depth id wf_def e'
