-- ===== src/Flow/Engine/Status.antt =====
-- The status that a replay gives of a workflow whose log ends with its end.
use moonbit.Prelude.{
  ℕ, ◌≡◌, refl, ◌∙◌, ap, sym, ◌⊎◌, Option, none, some, List, [], ◌∷◌, ◌++◌, String, inl, inr, Holds,
  get_last?,
}
use mathlib.Core.Path.{subst}
use moonbit.Prelude.Int.{ℤ}
use moonbit.Flow.Types.{WorkflowId, WorkflowDef, WorkflowStatus, completed, failed, Result, ok}
use moonbit.Flow.Event.{WorkflowEvent, workflow_started, workflow_completed, workflow_failed}
use moonbit.Flow.Replay.{WorkflowExecutionState, replay_events}
use moonbit.Flow.Replay.Latest.{latest, status_of, latest-cons, replay-Reads}
use moonbit.Flow.Snapshot.{WorkflowSnapshot}
use moonbit.Flow.Storage.{Storage, StorageLaws}
use moonbit.Flow.Engine.{Platform, Engine}
use moonbit.Flow.Engine.Workflow.{start}
use moonbit.Flow.Engine.Runs.{IsEnd}
use moonbit.Flow.Engine.Ends.{Started, start-Started}

abbrev pub IsOver : WorkflowStatus → Type 0
IsOver s = (s ≡ completed) ⊎ (s ≡ failed)

module _ {J : Type 0} where
  latest-IsOver :
      (wf_id : WorkflowId) (d : WorkflowStatus) (es : List (WorkflowEvent J)) (x : WorkflowEvent J)
      → get_last? es ≡ some x
      → IsEnd wf_id x
      → IsOver (latest status_of d es)
  latest-IsOver wf_id d [] x h end = cc
  latest-IsOver wf_id d (workflow_completed i o t ∷ []) x h end = inl refl
  latest-IsOver wf_id d (workflow_failed i o t ∷ []) x h end = inr refl
  latest-IsOver wf_id d (e ∷ []) x h end =
      absurd (subst (λ (o : Option (WorkflowEvent J)). Holds (IsEnd wf_id) o) (sym h) end)
  latest-IsOver wf_id d (e ∷ f ∷ es) x h end =
      rw (sym (latest-cons status_of d e (f ∷ es)))
        (latest-IsOver wf_id (latest status_of d (e ∷ [])) (f ∷ es) x h end)

  -- A log that has a start in it and ends with an end replays to an ended workflow.
  IsOver-after_start :
      (wf_id i : WorkflowId) (n : String) (o : J) (ts : ℤ) (pre more : List (WorkflowEvent J))
      (x : WorkflowEvent J)
      → get_last? ((pre ++ workflow_started i n o ts ∷ []) ++ more) ≡ some x
      → IsEnd wf_id x
      → (t : WorkflowExecutionState J) × (replay_events
            ((pre ++ workflow_started i n o ts ∷ []) ++ more)
          ≡ ok t)
        × IsOver t.status
  IsOver-after_start wf_id i n o ts [] [] x h end =
      absurd (subst (λ (o : Option (WorkflowEvent J)). Holds (IsEnd wf_id) o) (sym h) end)
  IsOver-after_start wf_id i n o ts [] (m ∷ more) x h end =
      let (t, p, reads) = replay-Reads (workflow_started i n o ts) (m ∷ more) in
      (t, p, rw reads.status (latest-IsOver wf_id _ (m ∷ more) x h end))
  IsOver-after_start wf_id i n o ts (e ∷ []) more x h end =
      let (t, p, reads) = replay-Reads e (workflow_started i n o ts ∷ more) in
      (t, p, rw reads.status (latest-IsOver wf_id _ (workflow_started i n o ts ∷ more) x h end))
  IsOver-after_start wf_id i n o ts (e ∷ f ∷ pre) more x h end =
      let rest = (f ∷ pre ++ workflow_started i n o ts ∷ []) ++ more in
      let (t, p, reads) = replay-Reads e rest in
      (t, p, rw reads.status (latest-IsOver wf_id _ rest x h end))

module _ {W J S : Type 0} (pf : Platform W J) (st : Storage J S)
    (log : String → S → List (WorkflowEvent J)) (snap : String → S → Option (WorkflowSnapshot J))
    (laws : StorageLaws st log snap) where
  -- The workflow's log replays to an ended state.
  abbrev pub IsOverIn : Result WorkflowId × Engine W J S → Type 0
  IsOverIn (r, f) =
      (wf_id : WorkflowId) × (t : WorkflowExecutionState J) × (r ≡ ok wf_id)
      × (replay_events (log wf_id.value f.storage) ≡ ok t)
      × IsOver t.status

  -- When `start` comes back, it has given an identifier, and the log under it replays to a workflow
  -- that is completed or failed, never one that is running or pending.
  pub start-IsOver :
      (depth : ℕ) (d : WorkflowDef) (input : J) (e : Engine W J S)
      → Holds IsOverIn (start pf st depth d input e)
  start-IsOver depth d input e =
      over (start pf st depth d input e) (start-Started pf st log snap laws depth d input e)
    where
      over :
          (o : Option (Result WorkflowId × Engine W J S))
          → Holds (Started pf st log snap laws d input e) o
          → Holds IsOverIn o
      over none h = tt
      over (some (r, f)) (wf_id, p, (_, (x, last, end)), (ts, (more, q))) =
          let (t, replayed, ended) =
            IsOver-after_start wf_id wf_id d.name input ts (log wf_id.value e.storage) more x
              (sym (ap get_last? q) ∙ last) end in
          (wf_id, t, p, ap replay_events q ∙ replayed, ended)
