-- ===== src/Flow/Engine/Runs.antt =====
-- What every run of a workflow leaves behind: the logs only grow at their ends, the handlers and the
-- signals stay as they are, and the last event in the workflow's own log is its end.
use moonbit.Prelude.{
  ◌≡◌, refl, Option, some, List, [], ◌∷◌, String, get_last?, get_last?-snoc, inl, inr, Bool-cases,
  Option-cases,
}
use moonbit.Prelude.Int.{ℤ, pos}
use moonbit.Prelude.Dict.{Dict, get, put, contains}
use text.Mathlib.TextPositions.{eq_refl}
use moonbit.Flow.Types.{WorkflowId, StepNode, WorkflowDef, Result, ok, err, Result-cases}
use moonbit.Flow.Event.{WorkflowEvent, workflow_completed, workflow_failed}
use moonbit.Flow.Snapshot.{WorkflowSnapshot}
use moonbit.Flow.Storage.{Storage, StorageLaws}
use moonbit.Flow.Engine.{Platform, Engine, now_ms, emit}
use moonbit.Flow.Engine.Step.{execute_step}
use moonbit.Flow.Engine.Node.{
  Progress, advance, halt, find_step_node, make_step_node, parallel_from, execute_condition,
  execute_target, execute_conditional, conclude,
}
use moonbit.Flow.Engine.Journal.{
  Follows, Follows-refl, Follows-trans, log-emit, emit-Follows, execute_step-Follows,
}

-- The event is the end of this workflow.
abbrev pub IsEnd : {J : Type 0} → WorkflowId → WorkflowEvent J → Type 0
IsEnd wf_id (workflow_completed id _ _) = id ≡ wf_id
IsEnd wf_id (workflow_failed id _ _) = id ≡ wf_id
IsEnd wf_id _ = ⊥

module _ {W J S : Type 0} (pf : Platform W J) (st : Storage J S)
    (log : String → S → List (WorkflowEvent J)) (snap : String → S → Option (WorkflowSnapshot J))
    (laws : StorageLaws st log snap) where
  abbrev pub Later : Engine W J S → Engine W J S → Type 0
  Later = Follows pf st log snap laws

  abbrev pub later_refl : (e : Engine W J S) → Later e e
  later_refl = Follows-refl pf st log snap laws

  pub parallel_from-Follows :
      (wf_id : WorkflowId) (d : WorkflowDef) (names : List String) (input : J)
      (completed merged : Dict J) (e : Engine W J S)
      → Later e (parallel_from pf st wf_id d names input completed merged e).1
  unfolding parallel_from
  parallel_from-Follows wf_id d [] input completed merged e = later_refl e
  parallel_from-Follows wf_id d (n ∷ names) input completed merged e =
      elim (Option-cases (get n completed)) [
        | inr (o, p) ↦
            rw (p, parallel_from)
              (parallel_from-Follows wf_id d names input completed (put n o merged) e)
        | inl p ↦
            rw (p, parallel_from)
              (elim (Option-cases (find_step_node d n)) [
                | inl q ↦ rw (q, parallel_from) (later_refl e)
                | inr (node, q) ↦
                    rw (q, parallel_from)
                      (let (r, e') = execute_step pf st wf_id node input (pos 1) e in
                        let ran : Later e e' =
                          execute_step-Follows pf st log snap laws wf_id node input (pos 1) e in
                        elim (Result-cases r) [
                          | inl (output, c) ↦
                              rw (c, parallel_from)
                                (Follows-trans pf st log snap laws ran (
                                  parallel_from-Follows wf_id d names input completed
                                    (put n output merged) e'))
                          | inr (x, c) ↦ rw (c, parallel_from) ran
                        ])
              ])
      ]

  execute_condition-Follows :
      (wf_id : WorkflowId) (c : String) (input : J) (completed : Dict J) (e : Engine W J S)
      → Later e (execute_condition pf st wf_id c input completed e).1
  unfolding execute_condition
  execute_condition-Follows wf_id c input completed e = elim (Bool-cases (contains c completed)) [
    | inl there ↦ rw there (later_refl e)
    | inr missing ↦
        rw missing
          (execute_step-Follows pf st log snap laws wf_id (make_step_node c) input (pos 1) e)
  ]

  execute_target-Follows :
      (wf_id : WorkflowId) (node : StepNode) (input : J) (completed : Dict J) (e : Engine W J S)
      → Later e (execute_target pf st wf_id node input completed e).1
  unfolding execute_target
  execute_target-Follows wf_id node input completed e =
      elim (Option-cases (get node.name completed)) [
        | inr (o, p) ↦ rw (p, execute_target) (later_refl e)
        | inl p ↦
            rw (p, execute_target)
              (execute_step-Follows pf st log snap laws wf_id node input (pos 1) e)
      ]

  pub execute_conditional-Follows :
      (wf_id : WorkflowId) (c t f : String) (input : J) (completed : Dict J) (e : Engine W J S)
      → Later e (execute_conditional pf st wf_id c t f input completed e).1
  unfolding execute_conditional
  execute_conditional-Follows wf_id c t f input completed e =
      Follows-trans pf st log snap laws (execute_condition-Follows wf_id c input completed e)
        (execute_target-Follows wf_id _ input completed _)

  -- The workflow's own log ends with its end.
  abbrev pub Ended : WorkflowId → Engine W J S → Type 0
  Ended wf_id e =
      (event : WorkflowEvent J) × (get_last? (log wf_id.value e.storage) ≡ some event)
      × IsEnd wf_id event

  pub emit-Ended :
      (wf_id : WorkflowId) (event : ℤ → WorkflowEvent J) (e : Engine W J S)
      → ((ts : ℤ) → IsEnd wf_id (event ts))
      → Ended wf_id (emit pf st wf_id event e)
  emit-Ended wf_id event e h = (
    event (now_ms pf st e).0,
    rw (log-emit pf st log snap laws wf_id event e wf_id.value)
        (rw eq_refl (get_last?-snoc (log wf_id.value e.storage) (event (now_ms pf st e).0))),
    h _,
  )

  -- What a step comes to.
  abbrev pub Comes : WorkflowId → Engine W J S → Progress J (Engine W J S) → Type 0
  Comes wf_id e (advance output f) = Later e f
  Comes wf_id e (halt f) = Later e f × Ended wf_id f

  pub conclude-Comes :
      (wf_id : WorkflowId) (node : StepNode) (e : Engine W J S) (r : Result J × Engine W J S)
      → Later e r.1
      → Comes wf_id e (conclude pf st wf_id node r)
  unfolding conclude
  conclude-Comes wf_id node e (ok output, f) h =
      Follows-trans pf st log snap laws h (emit-Follows pf st log snap laws wf_id _ f)
  conclude-Comes wf_id node e (err x, f) h = (
    Follows-trans pf st log snap laws h (emit-Follows pf st log snap laws wf_id _ f),
    emit-Ended wf_id _ f (λ ts. refl),
  )
