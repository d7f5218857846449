-- ===== src/Flow/Engine/Total.antt =====
-- A workflow without sub-workflow steps comes back: one level of depth is enough for it.
use moonbit.Prelude.{
  ℕ, suc, ◌≡◌, refl, Option, none, some, List, [], ◌∷◌, String, inl, inr, Bool-cases, Option-cases,
  Holds, All,
}
use mathlib.Core.Path.{subst}
use moonbit.Prelude.Dict.{Dict, get}
use moonbit.Flow.Types.{
  WorkflowId, StepNode, StepType, sequential, parallel, conditional, WorkflowDef, Result,
}
use moonbit.Flow.Event.{WorkflowEvent}
use moonbit.Flow.Snapshot.{WorkflowSnapshot}
use moonbit.Flow.Storage.{Storage, StorageLaws}
use moonbit.Flow.Engine.{Platform, Engine, has_signal}
use moonbit.Flow.Engine.Node.{SubRunner, Progress, advance, halt, execute_node}
use moonbit.Flow.Engine.Workflow.{
  proceed, steps_from, start_with, with_id, execute_sub_workflow, execute_workflow, start,
}
use moonbit.Flow.Engine.Status.{IsOverIn, start-IsOver}

abbrev pub IsPlain : StepType → Type 0
IsPlain (StepType.sub_workflow n) = ⊥
IsPlain _ = Unit

-- No step of the workflow runs a sub-workflow.
abbrev pub Plain : WorkflowDef → Type 0
Plain d = All (λ n. IsPlain n.step_type) d.steps

abbrev pub ComesBack : {A : Type 0} → Option A → Type 0
ComesBack {A} o = (a : A) × (o ≡ some a)

module _ {W J S : Type 0} (pf : Platform W J) (st : Storage J S) where
  execute_node_total :
      (sub : SubRunner W J S) (wf_id : WorkflowId) (d : WorkflowDef) (c : Dict J) (node : StepNode)
      (ty : StepType) (input : J) (e : Engine W J S)
      → IsPlain ty
      → ComesBack (execute_node pf st sub wf_id d c node ty input e)
  unfolding execute_node
  execute_node_total sub wf_id d c node sequential input e h = (_, refl)
  execute_node_total sub wf_id d c node (parallel _) input e h = (_, refl)
  execute_node_total sub wf_id d c node (conditional _ _ _) input e h = (_, refl)
  execute_node_total sub wf_id d c node (StepType.sub_workflow _) input e h = absurd h
  execute_node_total sub wf_id d c node (StepType.signal n) input e h =
      elim (Bool-cases (has_signal wf_id.value n e)) [
        | inl p ↦ rw p (_, refl)
        | inr p ↦ rw p (_, refl)
      ]

  proceed_total :
      (rest : J → Engine W J S → Option (Engine W J S)) (o : Option (Progress J (Engine W J S)))
      → ((i : J) (e : Engine W J S) → ComesBack (rest i e))
      → ComesBack o
      → ComesBack (proceed pf st rest o)
  unfolding proceed
  proceed_total rest none k (p, h) = cc
  proceed_total rest (some (advance i e)) k h = k i e
  proceed_total rest (some (halt e)) k h = (e, refl)

  steps_from_total :
      (sub : SubRunner W J S) (wf_id : WorkflowId) (d : WorkflowDef) (c : Dict J)
      (nodes : List StepNode) (input : J) (e : Engine W J S)
      → All (λ n. IsPlain n.step_type) nodes
      → ComesBack (steps_from pf st sub wf_id d c nodes input e)
  unfolding steps_from
  steps_from_total sub wf_id d c [] input e h = (_, refl)
  steps_from_total sub wf_id d c (node ∷ nodes) input e h = elim (Option-cases (get node.name c)) [
    | inr (o, p) ↦ rw (p, steps_from) (steps_from_total sub wf_id d c nodes o e h.1)
    | inl p ↦
        rw (p, steps_from)
          (proceed_total _ _ (λ i f. steps_from_total sub wf_id d c nodes i f h.1)
            (execute_node_total sub wf_id d c node node.step_type input e h.0))
  ]

  -- A run of a plain workflow comes back, from every state of the engine.
  pub execute_workflow_total :
      (depth : ℕ) (wf_id : WorkflowId) (d : WorkflowDef) (input : J) (c : Dict J) (e : Engine W J S)
      → Plain d
      → ComesBack (execute_workflow pf st (suc depth) wf_id d input c e)
  unfolding execute_workflow
  execute_workflow_total depth wf_id d input c e h =
      steps_from_total (execute_sub_workflow pf st (execute_workflow pf st depth)) wf_id d c d.steps
        input e h

  with_id_total :
      (wf_id : WorkflowId) (o : Option (Engine W J S))
      → ComesBack o
      → ComesBack (with_id pf st wf_id o)
  with_id_total wf_id none (e, h) = cc
  with_id_total wf_id (some e) h = (_, refl)

  start_total :
      (depth : ℕ) (d : WorkflowDef) (input : J) (e : Engine W J S)
      → Plain d
      → ComesBack (start pf st (suc depth) d input e)
  unfolding start start_with
  start_total depth d input e h = with_id_total _ _ (execute_workflow_total depth _ d input [] _ h)

module _ {W J S : Type 0} (pf : Platform W J) (st : Storage J S)
    (log : String → S → List (WorkflowEvent J)) (snap : String → S → Option (WorkflowSnapshot J))
    (laws : StorageLaws st log snap) where
  -- Starting a workflow without sub-workflow steps comes back with its identifier, and the log under
  -- it replays to a workflow that is completed or failed, never one that is running or pending.
  pub start-Plain :
      (depth : ℕ) (d : WorkflowDef) (input : J) (e : Engine W J S)
      → Plain d
      → (r : Result WorkflowId × Engine W J S) × (start pf st (suc depth) d input e ≡ some r)
        × IsOverIn pf st log snap laws r
  start-Plain depth d input e h =
      let (r, p) = start_total pf st depth d input e h in
      (
        r,
        p,
        subst (Holds (IsOverIn pf st log snap laws)) p
            (start-IsOver pf st log snap laws (suc depth) d input e),
      )
