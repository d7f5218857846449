-- ===== src/Flow/Engine/Recovery.antt =====
-- Resuming a workflow from its log.
use Prim.Native.String.{◌++◌ as ◌++ₛ◌}
use text.Mathlib.TextPositions.{eq_refl}
use moonbit.Prelude.{
  ℕ, suc, ◌≡◌, refl, ◌∙◌, ap, true, false, Option, none, some, List, [], ◌∷◌, ◌++◌, String, inl,
  inr, Option-cases, All, arith,
}
use moonbit.Prelude.Dict.{Dict, get, put, contains}
use moonbit.Flow.Types.{
  WorkflowId, WorkflowError, StepNode, StepType, WorkflowDef, running, failed, ok, err,
}
use moonbit.Flow.Event.{WorkflowEvent, workflow_failed}
use moonbit.Flow.Replay.{WorkflowExecutionState, replay_events}
use moonbit.Flow.Replay.Latest.{latest, status_of, first_status, replay-Reads}
use moonbit.Flow.Snapshot.{WorkflowSnapshot}
use moonbit.Flow.Storage.{Storage, StorageLaws}
use moonbit.Flow.Engine.{Platform, Engine, now_ms, emit, signal, has_signal, load_all_events}
use moonbit.Flow.Engine.Node.{SubRunner, advance, execute_node}
use moonbit.Flow.Engine.Workflow.{
  get_last_output, proceed, steps_from, execute_sub_workflow, execute_workflow, resumed,
  resume_by_status, resume_state, resume_events, resume_workflow,
}
use moonbit.Flow.Engine.Journal.{log-emit}

abbrev pub or_else : {A : Type 0} → Option A → A → A
or_else (some o) d = o
or_else none d = d

-- The input of the step after the steps `nodes`, all of them completed.
abbrev pub carry : {J : Type 0} → Dict J → List StepNode → J → J
carry completed_steps [] input = input
carry completed_steps (node ∷ nodes) input =
    carry completed_steps nodes (or_else (get node.name completed_steps) input)

latest-snoc :
    {E A : Type 0} (f : E → Option A) (d a : A) (es : List E) (e : E)
    → f e ≡ some a
    → latest f d (es ++ e ∷ []) ≡ a
latest-snoc f d a [] e h = ground arith
latest-snoc f d a (x ∷ es) e h = elim (Option-cases (f x)) [
  | inl p ↦ rw (p, latest) (latest-snoc f d a es e h)
  | inr (b, p) ↦ rw (p, latest) (latest-snoc f b a es e h)
]

module _ {W J S : Type 0} (pf : Platform W J) (st : Storage J S) where
  skip_completed :
      (sub : SubRunner W J S) (wf_id : WorkflowId) (d : WorkflowDef) (c : Dict J)
      (done rest : List StepNode) (input : J) (e : Engine W J S)
      → All (λ n. contains n.name c ≡ true) done
      → steps_from pf st sub wf_id d c (done ++ rest) input e
        ≡ steps_from pf st sub wf_id d c rest (carry c done input) e
  unfolding steps_from
  skip_completed sub wf_id d c [] rest input e h = refl
  skip_completed sub wf_id d c (n ∷ done) rest input e h = elim (Option-cases (get n.name c)) [
    | inl p ↦ absurd (ground arith)
    | inr (o, p) ↦ rw (p, steps_from, carry) (skip_completed sub wf_id d c done rest o e h.1)
  ]

  -- The loop gets past the steps of the list: each has been completed before, and its stored output
  -- is taken, or is run and gives an output.
  pub data Passes (sub : SubRunner W J S) (wf_id : WorkflowId) (d : WorkflowDef) (c : Dict J)
      : List StepNode → J → Engine W J S → J → Engine W J S → Type 0 where
    reached : {input : J} {e : Engine W J S} → Passes sub wf_id d c [] input e input e
    skipped :
        {node : StepNode} {nodes : List StepNode} {input o output : J} {e f : Engine W J S}
        → get node.name c ≡ some o
        → Passes sub wf_id d c nodes o e output f
        → Passes sub wf_id d c (node ∷ nodes) input e output f
    performed :
        {node : StepNode} {nodes : List StepNode} {input o output : J} {e e' f : Engine W J S}
        → get node.name c ≡ none
        → execute_node pf st sub wf_id d c node node.step_type input e ≡ some (advance o e')
        → Passes sub wf_id d c nodes o e' output f
        → Passes sub wf_id d c (node ∷ nodes) input e output f

  steps_from-Passes :
      (sub : SubRunner W J S) (wf_id : WorkflowId) (d : WorkflowDef) (c : Dict J)
      {nodes : List StepNode} (rest : List StepNode) {input output : J} {e f : Engine W J S}
      → Passes sub wf_id d c nodes input e output f
      → steps_from pf st sub wf_id d c (nodes ++ rest) input e
        ≡ steps_from pf st sub wf_id d c rest output f
  unfolding steps_from
  steps_from-Passes sub wf_id d c rest reached = refl
  steps_from-Passes sub wf_id d c rest (skipped known p) =
      rw (steps_from, known) (steps_from-Passes sub wf_id d c rest p)
  steps_from-Passes sub wf_id d c rest (performed new result p) =
      rw (steps_from, new) (rw (result, proceed) (steps_from-Passes sub wf_id d c rest p))

module _ {W J S : Type 0} (pf : Platform W J) (st : Storage J S)
    (log : String → S → List (WorkflowEvent J)) (snap : String → S → Option (WorkflowSnapshot J))
    (laws : StorageLaws st log snap) where
  execute_workflow_lem :
      (depth : ℕ) (id : WorkflowId) (d : WorkflowDef) (input : J) (c : Dict J) (e : Engine W J S)
      → execute_workflow pf st (suc depth) id d input c e
        ≡ steps_from pf st
            (execute_sub_workflow pf st (execute_workflow pf st depth))
            id
            d
            c
            d.steps
            input
            e
  unfolding execute_workflow
  execute_workflow_lem depth id d input c e = refl

  resume_lem :
      (depth : ℕ) (id : WorkflowId) (d : WorkflowDef) (e : Engine W J S)
      → resume_workflow pf st depth id d e
        ≡ resume_events pf st (log id.value e.storage) depth id d (load_all_events pf st id e).1
  unfolding resume_workflow load_all_events
  resume_lem depth id d e = rw (laws.load_ok id e.storage)

  -- A workflow whose log replays to one that is running goes on at the first step that is not known
  -- to be completed, with the output of the completed step before it; no handler of a completed step
  -- is called.
  pub resume_skips :
      {first : WorkflowEvent J} {events : List (WorkflowEvent J)} {t : WorkflowExecutionState J}
      (depth : ℕ) (id : WorkflowId) (d : WorkflowDef) (e : Engine W J S) (done rest : List StepNode)
      → log id.value e.storage ≡ first ∷ events
      → replay_events (first ∷ events) ≡ ok t
      → t.status ≡ running
      → d.steps ≡ done ++ rest
      → All (λ n. contains n.name t.completed_steps ≡ true) done
      → let e₁ = (load_all_events pf st id e).1 in
        let e₂ = record e₁ { workflow_defs = put id.value d e₁.workflow_defs } in
        let input = get_last_output pf.null (first ∷ events) in
        resume_workflow pf st (suc depth) id d e
        ≡ resumed pf st (
            steps_from pf st
              (execute_sub_workflow pf st (execute_workflow pf st depth))
              id
              d
              t.completed_steps
              rest
              (carry t.completed_steps done input)
              e₂)
  resume_skips {first} {events} {t} depth id d e done rest logged replayed status split known =
      let e₁ = (load_all_events pf st id e).1 in
      let e₂ : Engine W J S = record e₁ { workflow_defs = put id.value d e₁.workflow_defs } in
      let sub = execute_sub_workflow pf st (execute_workflow pf st depth) in
      let input = get_last_output pf.null (first ∷ events) in
      resume_lem (suc depth) id d e
      ∙ ap (λ es. resume_events pf st es (suc depth) id d e₁) logged
      ∙ ap (λ r. resume_state pf st r (suc depth) id d input e₁) replayed
      ∙ ap (λ s. resume_by_status pf st s (suc depth) id d input t e₁) status
      ∙ ap (resumed pf st) (
          execute_workflow_lem depth id d input t.completed_steps e₂
          ∙ ap (λ nodes. steps_from pf st sub id d t.completed_steps nodes input e₂) split
          ∙ skip_completed pf st sub id d t.completed_steps done rest input e₂ known)

  -- A workflow whose log replays to a failed one is never resumed: whatever the definition given, the
  -- result is an error.
  pub resume_failed :
      {first : WorkflowEvent J} {events : List (WorkflowEvent J)} {t : WorkflowExecutionState J}
      (depth : ℕ) (id : WorkflowId) (d : WorkflowDef) (e : Engine W J S)
      → log id.value e.storage ≡ first ∷ events
      → replay_events (first ∷ events) ≡ ok t
      → t.status ≡ failed
      → resume_workflow pf st depth id d e
        ≡ some (
          err (WorkflowError.step_failed t.current_step "workflow previously failed"),
          (load_all_events pf st id e).1,
        )
  resume_failed {first} {events} {t} depth id d e logged replayed status =
      let e₁ = (load_all_events pf st id e).1 in
      let input = get_last_output pf.null (first ∷ events) in
      resume_lem depth id d e
      ∙ ap (λ es. resume_events pf st es depth id d e₁) logged
      ∙ ap (λ r. resume_state pf st r depth id d input e₁) replayed
      ∙ ap (λ s. resume_by_status pf st s depth id d input t e₁) status

  -- A run whose next step waits for a signal that has not come stores a failure and ends.
  signal_waits :
      (sub : SubRunner W J S) (id : WorkflowId) (d : WorkflowDef) (c : Dict J) (node : StepNode)
      (rest : List StepNode) (n : String) (input : J) (e : Engine W J S)
      → get node.name c ≡ none
      → node.step_type ≡ StepType.signal n
      → has_signal id.value n e ≡ false
      → (text : String) × (steps_from pf st sub id d c (node ∷ rest) input e
          ≡ some (emit pf st id (workflow_failed id text) e))
  unfolding steps_from
  signal_waits sub id d c node rest n input e new kind waiting =
      ("Waiting for signal: " ++ₛ n, rw (new, steps_from) (rw kind (rw waiting)))

  -- A workflow whose run gets past the steps before a signal step, be there none or many, and reaches
  -- it before its signal ends as failed, where events were stored before. If any signal is sent to it
  -- then, resuming it is an error, with whatever definition, and runs nothing.
  pub signal_wait_is_final :
      {first : WorkflowEvent J} {events : List (WorkflowEvent J)} (depth : ℕ) (id : WorkflowId)
      (d : WorkflowDef) (c : Dict J) (before : List StepNode) (node : StepNode)
      (rest : List StepNode) (n : String) (input : J) (e : Engine W J S) {output : J}
      {e₁ : Engine W J S}
      → d.steps ≡ before ++ node ∷ rest
      → Passes pf st
          (execute_sub_workflow pf st (execute_workflow pf st depth))
          id
          d
          c
          before
          input
          e
          output
          e₁
      → get node.name c ≡ none
      → node.step_type ≡ StepType.signal n
      → has_signal id.value n e₁ ≡ false
      → log id.value e₁.storage ≡ first ∷ events
      → (f : Engine W J S) × (execute_workflow pf st (suc depth) id d input c e ≡ some f)
        × ((later : String) (depth' : ℕ) (d' : WorkflowDef)
            → (step : String) × (resume_workflow pf st depth' id d' (signal id.value later f)
                ≡ some (
                  err (WorkflowError.step_failed step "workflow previously failed"),
                  (load_all_events pf st id (signal id.value later f)).1,
                )))
  signal_wait_is_final {first} {events} depth id d c before node rest n input e {output} {e₁} steps
        passed new kind waiting logged =
      let sub = execute_sub_workflow pf st (execute_workflow pf st depth) in
      let (text, ran) = signal_waits sub id d c node rest n output e₁ new kind waiting in
      let f = emit pf st id (workflow_failed id text) e₁ in
      let (t, replayed, reads) =
        replay-Reads first (events ++ workflow_failed id text (now_ms pf st e₁).0 ∷ []) in
      (
        f,
        execute_workflow_lem depth id d input c e
            ∙ ap (λ nodes. steps_from pf st sub id d c nodes input e) steps
            ∙ steps_from-Passes pf st sub id d c (node ∷ rest) passed
            ∙ ran,
        λ later depth' d'. (
          t.current_step,
          resume_failed {first = first}
              {events = events ++ workflow_failed id text (now_ms pf st e₁).0 ∷ []} depth' id d'
              (signal id.value later f)
              (unfold signal in
                log-emit pf st log snap laws id (workflow_failed id text) e₁ id.value
                ∙ rw eq_refl
                    (ap (λ es. es ++ workflow_failed id text (now_ms pf st e₁).0 ∷ []) logged))
              replayed
              (reads.status
                ∙ latest-snoc status_of (first_status first) failed events
                    (workflow_failed id text (now_ms pf st e₁).0) refl),
        ),
      )
