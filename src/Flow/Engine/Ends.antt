-- ===== src/Flow/Engine/Ends.antt =====
-- Every run of a workflow that comes back has stored the workflow's end as the last event of its log
-- and has kept all that was stored before, in sub-workflows too.
use moonbit.Prelude.{
  ℕ, zero, suc, ◌≡◌, refl, Option, none, some, List, [], ◌∷◌, String, inl, inr, Bool-cases,
  Option-cases, Holds, Extends, Extends-refl, ◌++◌,
}
use moonbit.Prelude.Int.{ℤ, pos}
use moonbit.Prelude.Dict.{Dict, get, put}
use text.Mathlib.TextPositions.{eq_refl}
use moonbit.Flow.Types.{
  WorkflowId, StepNode, StepType, sequential, parallel, conditional, WorkflowDef, Result, ok, err,
}
use moonbit.Flow.Event.{WorkflowEvent, workflow_started}
use moonbit.Flow.Snapshot.{WorkflowSnapshot}
use moonbit.Flow.Storage.{Storage, StorageLaws}
use moonbit.Flow.Engine.{Platform, Engine, now_ms, store_event, has_signal, load_all_events}
use moonbit.Flow.Engine.Node.{SubRunner, Progress, advance, halt, conclude_sub, execute_node}
use moonbit.Flow.Engine.Workflow.{
  Runner, proceed, steps_from, with_id, sub_output, generate, start_with, execute_sub_workflow,
  execute_workflow, start,
}
use moonbit.Flow.Engine.Journal.{
  Follows-trans, emit-Follows, store_event-Follows, execute_step-Follows,
}
use moonbit.Flow.Engine.Runs.{
  Later, later_refl, Ended, Comes, emit-Ended, conclude-Comes, parallel_from-Follows,
  execute_conditional-Follows,
}

module _ {W J S : Type 0} (pf : Platform W J) (st : Storage J S)
    (log : String → S → List (WorkflowEvent J)) (snap : String → S → Option (WorkflowSnapshot J))
    (laws : StorageLaws st log snap) where
  -- A run from `e` has ended in `f`.
  abbrev pub Done : WorkflowId → Engine W J S → Engine W J S → Type 0
  Done wf_id e f = Later pf st log snap laws e f × Ended pf st log snap laws wf_id f

  abbrev AtStep : WorkflowId → Engine W J S → Progress J (Engine W J S) → Type 0
  AtStep = Comes pf st log snap laws

  module _ (sub : SubRunner W J S)
      (kept : (node : StepNode) (i : J) (e : Engine W J S)
        → Holds (λ r. Later pf st log snap laws e r.1) (sub node i e))
      (wf_id : WorkflowId) (d : WorkflowDef) (completed_steps : Dict J) where
    execute_node-Comes :
        (node : StepNode) (ty : StepType) (input : J) (e : Engine W J S)
        → Holds (AtStep wf_id e) (execute_node pf st sub wf_id d completed_steps node ty input e)
    unfolding execute_node
    execute_node-Comes node sequential input e =
        conclude-Comes pf st log snap laws wf_id node e _
          (execute_step-Follows pf st log snap laws wf_id node input (pos 1) e)
    execute_node-Comes node (parallel names) input e =
        conclude-Comes pf st log snap laws wf_id node e _
          (parallel_from-Follows pf st log snap laws wf_id d names input completed_steps [] e)
    execute_node-Comes node (conditional c t f) input e =
        conclude-Comes pf st log snap laws wf_id node e _
          (execute_conditional-Follows pf st log snap laws wf_id c t f input completed_steps e)
    execute_node-Comes node (StepType.sub_workflow n) input e =
        concluded (sub node input e) (kept node input e)
      where
        concluded :
            (o : Option (Result J × Engine W J S))
            → Holds (λ r. Later pf st log snap laws e r.1) o
            → Holds (AtStep wf_id e) (conclude_sub pf st wf_id node o)
        concluded none h = tt
        concluded (some r) h = conclude-Comes pf st log snap laws wf_id node e r h
    execute_node-Comes node (StepType.signal n) input e =
        elim (Bool-cases (has_signal wf_id.value n e)) [
          | inl received ↦ rw received (emit-Follows pf st log snap laws wf_id _ e)
          | inr waiting ↦ rw waiting (
            emit-Follows pf st log snap laws wf_id _ e,
            emit-Ended pf st log snap laws wf_id _ e (λ ts. refl),
          )
        ]

    proceed-Done :
        (rest : J → Engine W J S → Option (Engine W J S)) (e : Engine W J S)
        (o : Option (Progress J (Engine W J S)))
        → ((output : J) (f : Engine W J S) → Holds (Done wf_id f) (rest output f))
        → Holds (AtStep wf_id e) o
        → Holds (Done wf_id e) (proceed pf st rest o)
    unfolding proceed
    proceed-Done rest e none keep h = tt
    proceed-Done rest e (some (advance output f)) keep h = from (rest output f) (keep output f)
      where
        from : (o : Option (Engine W J S)) → Holds (Done wf_id f) o → Holds (Done wf_id e) o
        from none i = tt
        from (some g) (i, end) = (Follows-trans pf st log snap laws h i, end)
    proceed-Done rest e (some (halt f)) keep h = h

    steps_from-Done :
        (nodes : List StepNode) (input : J) (e : Engine W J S)
        → Holds (Done wf_id e) (steps_from pf st sub wf_id d completed_steps nodes input e)
    unfolding steps_from
    steps_from-Done [] input e = (
      emit-Follows pf st log snap laws wf_id _ e,
      emit-Ended pf st log snap laws wf_id _ e (λ ts. refl),
    )
    steps_from-Done (node ∷ nodes) input e = elim (Option-cases (get node.name completed_steps)) [
      | inr (o, p) ↦ rw (p, steps_from) (steps_from-Done nodes o e)
      | inl p ↦
          rw (p, steps_from)
            (proceed-Done _ e _ (λ output f. steps_from-Done nodes output f)
              (execute_node-Comes node node.step_type input e))
    ]

  -- Starting a workflow: it has an identifier, its log has the start behind what was there, and its
  -- run has ended.
  abbrev pub Started : WorkflowDef → J → Engine W J S → Result WorkflowId × Engine W J S → Type 0
  Started d input e (r, f) =
      (wf_id : WorkflowId) × (r ≡ ok wf_id)
      × Done wf_id e f
      × ((ts : ℤ) × Extends
            (log wf_id.value e.storage ++ workflow_started wf_id d.name input ts ∷ [])
            (log wf_id.value f.storage))

  module _ (run : Runner W J S)
      (ends : (wf_id : WorkflowId) (d : WorkflowDef) (i : J) (c : Dict J) (e : Engine W J S)
        → Holds (Done wf_id e) (run wf_id d i c e)) where
    with_id-Started :
        (d : WorkflowDef) (input : J) (ts : ℤ) (e f : Engine W J S) (wf_id : WorkflowId)
        (o : Option (Engine W J S))
        → Later pf st log snap laws e f
        → log wf_id.value f.storage
          ≡ log wf_id.value e.storage ++ workflow_started wf_id d.name input ts ∷ []
        → Holds (Done wf_id f) o
        → Holds (Started d input e) (with_id pf st wf_id o)
    with_id-Started d input ts e f wf_id none before first h = tt
    with_id-Started d input ts e f wf_id (some g) before first (after, end) = (
      wf_id,
      refl,
      (Follows-trans pf st log snap laws before after, end),
      (ts, rw first at (after.grown wf_id.value)),
    )

    start_with-Started :
        (d : WorkflowDef) (input : J) (e : Engine W J S)
        → Holds (Started d input e) (start_with pf st run d input e)
    unfolding start_with now_ms
    start_with-Started d input e =
        let (wf_id, e₁) = generate pf st e in
        let (ts, e₂) = now_ms pf st e₁ in
        let e₃ : Engine W J S = record e₂ { workflow_defs = put wf_id.value d e₂.workflow_defs } in
        let first = workflow_started wf_id d.name input ts in
        let e₄ = store_event pf st wf_id first e₃ in
        let moved : Later pf st log snap laws e e₃ = record {
          grown = λ k. Extends-refl _;
          registry = refl;
          signals = refl;
        } in
        with_id-Started d input ts e e₄ wf_id _
          (Follows-trans pf st log snap laws moved
            (store_event-Follows pf st log snap laws wf_id first e₃))
          (unfold store_event in rw (laws.log-save wf_id first e₃.storage wf_id.value) (rw eq_refl))
          (ends wf_id d input [] e₄)

    load_all_events-Follows :
        (id : WorkflowId) (e : Engine W J S)
        → Later pf st log snap laws e (load_all_events pf st id e).1
    unfolding load_all_events
    load_all_events-Follows id e = record {
      grown = λ k. rw (laws.log-load id e.storage k) (Extends-refl _);
      registry = refl;
      signals = refl;
    }

    execute_sub_workflow-Follows :
        (node : StepNode) (i : J) (e : Engine W J S)
        → Holds (λ r. Later pf st log snap laws e r.1) (execute_sub_workflow pf st run node i e)
    unfolding execute_sub_workflow
    execute_sub_workflow-Follows node i e = elim (Option-cases (get node.name e.workflow_defs)) [
      | inl p ↦ rw (p, execute_sub_workflow) (later_refl pf st log snap laws e)
      | inr (d, p) ↦ rw (p, execute_sub_workflow) (loaded d _ (start_with-Started d i e))
    ]
      where
        loaded :
            (d : WorkflowDef) (o : Option (Result WorkflowId × Engine W J S))
            → Holds (Started d i e) o
            → Holds (λ r. Later pf st log snap laws e r.1) (sub_output pf st o)
        loaded d none h = tt
        loaded d (some (ok sub_id, f)) h =
            Follows-trans pf st log snap laws h.2.0 (load_all_events-Follows sub_id f)
        loaded d (some (err x, f)) h = h.2.0

  -- A run that comes back has stored the end of its workflow as the last event of the workflow's log,
  -- has only added to the logs, its own and those of all other workflows, and has left the handlers
  -- and the signals as they were.
  pub execute_workflow-Done :
      (depth : ℕ) (wf_id : WorkflowId) (d : WorkflowDef) (input : J) (completed_steps : Dict J)
      (e : Engine W J S)
      → Holds (Done wf_id e) (execute_workflow pf st depth wf_id d input completed_steps e)
  unfolding execute_workflow
  execute_workflow-Done zero wf_id d input completed_steps e = tt
  execute_workflow-Done (suc depth) wf_id d input completed_steps e =
      steps_from-Done (execute_sub_workflow pf st (execute_workflow pf st depth))
        (execute_sub_workflow-Follows (execute_workflow pf st depth) (execute_workflow-Done depth))
        wf_id d completed_steps d.steps input e

  -- Starting a workflow gives its identifier, never an error, and its run has ended.
  pub start-Started :
      (depth : ℕ) (d : WorkflowDef) (input : J) (e : Engine W J S)
      → Holds (Started d input e) (start pf st depth d input e)
  unfolding start
  start-Started depth d input e =
      start_with-Started (execute_workflow pf st depth) (execute_workflow-Done depth) d input e
