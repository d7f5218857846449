-- ===== src/Flow/Builder.antt =====
-- The builder of workflow definitions (moonflow/core_workflow.mbt). A builder is used linearly, so
-- that the array it pushes to is a value here.
use moonbit.Prelude.{String, List, [], ◌∷◌, ◌++◌}
use moonbit.Flow.Types.{
  StepConfig, StepNode, StepType, sequential, conditional, signal, WorkflowDef, WorkflowBuilder,
  default,
}

unfoldable pub workflow : String → WorkflowBuilder
workflow n = record { name = n; steps = []; deps = [] }

unfoldable pub push : WorkflowBuilder → StepNode → WorkflowBuilder
push b node = record b { steps = b.steps ++ node ∷ [] }

unfoldable pub next : WorkflowBuilder → String → StepConfig → WorkflowBuilder
unfolding push
next b n c = push b (record { name = n; config = c; step_type = sequential })

unfoldable pub push_children : WorkflowBuilder → List String → WorkflowBuilder
unfolding push default
push_children b [] = b
push_children b (n ∷ names) =
    push_children (push b (record { name = n; config = default n; step_type = sequential })) names

unfoldable pub parallel : WorkflowBuilder → String → List String → WorkflowBuilder
unfolding push push_children default
parallel b group names =
    push (push_children b names)
      (record { name = group; config = default group; step_type = StepType.parallel names })

unfoldable pub branch : WorkflowBuilder → String → String → String → String → WorkflowBuilder
unfolding push default
branch b n c t f = push b (record { name = n; config = default n; step_type = conditional c t f })

unfoldable pub wait_signal : WorkflowBuilder → String → String → WorkflowBuilder
unfolding push default
wait_signal b n s = push b (record { name = n; config = default n; step_type = signal s })

unfoldable pub sub_workflow : WorkflowBuilder → String → String → WorkflowBuilder
unfolding push default
sub_workflow b n s =
    push b (record { name = n; config = default n; step_type = StepType.sub_workflow s })

unfoldable pub build : WorkflowBuilder → WorkflowDef
build b = record { name = b.name; steps = b.steps; deps = b.deps }
