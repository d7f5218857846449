-- ===== src/Flow/Engine/Node.antt =====
-- The kinds of steps: parallel groups, conditionals, signals (moonflow/core_engine.mbt).
use Prim.Native.String.{◌++◌}
use moonbit.Prelude.{String, Option, none, some, List, [], ◌∷◌, str_eq, if◌then◌else◌}
use moonbit.Prelude.Int.{pos}
use moonbit.Prelude.Dict.{Dict, get, put, contains}
use moonbit.Flow.Types.{
  WorkflowId, WorkflowError, StepNode, StepType, sequential, parallel, conditional, WorkflowDef,
  Result, ok, err, with_retry,
}
use moonbit.Flow.Event.{step_completed, workflow_failed}
use moonbit.Flow.Errors.{err_to_string}
use moonbit.Flow.Storage.{Storage}
use moonbit.Flow.Engine.{Platform, Engine, emit, has_signal}
use moonbit.Flow.Engine.Step.{execute_step}

unfoldable pub make_step_node : String → StepNode
unfolding with_retry
make_step_node n = record { name = n; config = with_retry n (pos 1); step_type = sequential }

find_node : String → List StepNode → Option StepNode
find_node n [] = none
find_node n (node ∷ nodes) = if str_eq node.name n then some node else find_node n nodes

unfoldable pub find_step_node : WorkflowDef → String → Option StepNode
unfolding find_node
find_step_node wf_def n = find_node n wf_def.steps

-- What a step of the loop comes to: the output with which the loop goes on at the next step, or the
-- end of the run.
pub data Progress (J E : Type 0) : Type 0 where
  advance : J → E → Progress J E
  halt : E → Progress J E

-- How a sub-workflow is run: `none` where its depth is not given.
abbrev pub SubRunner : Type 0 → Type 0 → Type 0 → Type 0
SubRunner W J S = StepNode → J → Engine W J S → Option (Result J × Engine W J S)

module _ {W J S : Type 0} (pf : Platform W J) (st : Storage J S) where
  -- The loop over the children of a group, with the outputs merged so far.
  unfoldable pub parallel_from :
      WorkflowId
      → WorkflowDef
      → List String
      → J
      → Dict J
      → Dict J
      → Engine W J S
      → Result J × Engine W J S
  parallel_from wf_id wf_def [] input completed_steps merged e = (ok (pf.object merged), e)
  parallel_from wf_id wf_def (child ∷ names) input completed_steps merged e =
      elim (get child completed_steps) [
        | some o ↦ parallel_from wf_id wf_def names input completed_steps (put child o merged) e
        | none ↦ elim (find_step_node wf_def child) [
          | none ↦ (err (WorkflowError.step_failed child "child step not found"), e)
          | some node ↦
              let (r, e') = execute_step pf st wf_id node input (pos 1) e in
              elim r [
                | ok output ↦
                    parallel_from wf_id wf_def names input completed_steps (put child output merged)
                      e'
                | err x ↦ (err x, e')
              ]
        ]
      ]

  unfoldable pub execute_parallel_group :
      WorkflowId → WorkflowDef → List String → J → Dict J → Engine W J S → Result J × Engine W J S
  unfolding parallel_from
  execute_parallel_group wf_id wf_def child_names input completed_steps e =
      parallel_from wf_id wf_def child_names input completed_steps [] e

  abbrev pub target_of : Result J → StepNode → StepNode → StepNode
  target_of (ok _) t f = t
  target_of (err _) t f = f

  unfoldable pub execute_condition :
      WorkflowId → String → J → Dict J → Engine W J S → Result J × Engine W J S
  unfolding make_step_node
  execute_condition wf_id condition_name input completed_steps e =
      if contains condition_name completed_steps
      then (ok pf.null, e)
      else execute_step pf st wf_id (make_step_node condition_name) input (pos 1) e

  unfoldable pub execute_target :
      WorkflowId → StepNode → J → Dict J → Engine W J S → Result J × Engine W J S
  execute_target wf_id target input completed_steps e = elim (get target.name completed_steps) [
    | some o ↦ (ok o, e)
    | none ↦ execute_step pf st wf_id target input (pos 1) e
  ]

  -- The source returns the index of the next step beside the output: it is the next one always.
  unfoldable pub execute_conditional :
      WorkflowId → String → String → String → J → Dict J → Engine W J S → Result J × Engine W J S
  unfolding execute_condition execute_target make_step_node
  execute_conditional wf_id condition_name on_true on_false input completed_steps e =
      let (cond_result, e') = execute_condition wf_id condition_name input completed_steps e in
      execute_target wf_id
        (target_of cond_result (make_step_node on_true) (make_step_node on_false)) input
        completed_steps e'

  -- Stores the end of a step, or of the workflow that it has failed.
  unfoldable pub conclude :
      WorkflowId → StepNode → Result J × Engine W J S → Progress J (Engine W J S)
  conclude wf_id node (ok output, e) =
      advance output (emit pf st wf_id (step_completed wf_id node.name output) e)
  conclude wf_id node (err x, e) =
      halt (emit pf st wf_id (workflow_failed wf_id (err_to_string x)) e)

  abbrev pub conclude_sub :
      WorkflowId → StepNode → Option (Result J × Engine W J S) → Option (Progress J (Engine W J S))
  conclude_sub wf_id node none = none
  conclude_sub wf_id node (some r) = some (conclude wf_id node r)

  -- One step by its type.
  unfoldable pub execute_node :
      SubRunner W J S
      → WorkflowId
      → WorkflowDef
      → Dict J
      → StepNode
      → StepType
      → J
      → Engine W J S
      → Option (Progress J (Engine W J S))
  unfolding conclude execute_parallel_group execute_conditional
  execute_node sub wf_id wf_def completed_steps node sequential input e =
      some (conclude wf_id node (execute_step pf st wf_id node input (pos 1) e))
  execute_node sub wf_id wf_def completed_steps node (parallel child_names) input e = some (
      conclude wf_id node (execute_parallel_group wf_id wf_def child_names input completed_steps e))
  execute_node sub wf_id wf_def completed_steps node (conditional c t f) input e =
      some (conclude wf_id node (execute_conditional wf_id c t f input completed_steps e))
  execute_node sub wf_id wf_def completed_steps node (StepType.sub_workflow sub_name) input e =
      conclude_sub wf_id node (sub node input e)
  execute_node sub wf_id wf_def completed_steps node (StepType.signal signal_name) input e =
      if has_signal wf_id.value signal_name e
      then some (advance input (emit pf st wf_id (step_completed wf_id node.name input) e))
      else some (
          halt (emit pf st wf_id (workflow_failed wf_id ("Waiting for signal: " ++ signal_name)) e))
