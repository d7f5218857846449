-- ===== src/Flow/Engine/Timeout.antt =====
-- Starting a workflow with a time limit (moonflow/core_timeout.mbt).
use moonbit.Prelude.{
  ℕ, suc, ◌≡◌, refl, ◌∙◌, ap, String, Bool, ◌&&◌, inl, inr, Bool-cases, Option, none, some, List,
  [], ◌∷◌, ◌++◌, if◌then◌else◌,
}
use moonbit.Prelude.Int.{ℤ, pos, ◌-ℤ◌, ltb_ℤ, wrap64}
use moonbit.Flow.Types.{WorkflowId, WorkflowDef, failed, Result, ok, err, step_timeout}
use moonbit.Flow.Event.{WorkflowEvent, workflow_failed}
use moonbit.Flow.Snapshot.{WorkflowSnapshot}
use moonbit.Flow.Replay.{WorkflowExecutionState, replay_events, replay_from, finish, apply_event}
use moonbit.Flow.Storage.{Storage, StorageLaws}
use moonbit.Flow.Engine.{Platform, Engine, now_ms, emit}
use text.Mathlib.TextPositions.{eq_refl}
use moonbit.Flow.Engine.Total.{Plain, start-Plain}
use moonbit.Flow.Engine.Workflow.{start}
use moonbit.Flow.Query.{status_in, status_of}
use moonbit.Flow.Replay.Latest.{replay-append}
use moonbit.Flow.Engine.Journal.{log-emit}

module _ {W J S : Type 0} (pf : Platform W J) (st : Storage J S) where
  -- After the run, with the time that it took.
  unfoldable pub limit : ℤ → ℤ → Result WorkflowId → Engine W J S → Result WorkflowId × Engine W J S
  limit timeout_ms elapsed (ok wf_id) e =
      if ltb_ℤ (pos 0) timeout_ms && ltb_ℤ timeout_ms elapsed
      then (
        err (step_timeout "workflow" timeout_ms),
        emit pf st wf_id (workflow_failed wf_id "workflow timeout exceeded") e,
      )
      else (ok wf_id, e)
  limit timeout_ms elapsed (err x) e = (err x, e)

  unfoldable pub limited :
      ℤ → ℤ → Option (Result WorkflowId × Engine W J S) → Option (Result WorkflowId × Engine W J S)
  unfolding limit ◌-ℤ◌
  limited start_time timeout_ms none = none
  limited start_time timeout_ms (some (result, e)) =
      let (end_time, e') = now_ms pf st e in
      some (limit timeout_ms (wrap64 (end_time -ℤ start_time)) result e')

  unfoldable pub start_with_timeout :
      ℕ → WorkflowDef → J → ℤ → Engine W J S → Option (Result WorkflowId × Engine W J S)
  unfolding limited
  start_with_timeout depth wf_def input timeout_ms e =
      let (start_time, e') = now_ms pf st e in
      limited start_time timeout_ms (start pf st depth wf_def input e')

abbrev pub is_late : ℤ → ℤ → Bool
is_late timeout_ms elapsed = ltb_ℤ (pos 0) timeout_ms && ltb_ℤ timeout_ms elapsed

-- A log that replays, with a failure behind it, is that of a failed workflow.
failed_after :
    {J : Type 0} (es : List (WorkflowEvent J)) (t : WorkflowExecutionState J) (id : WorkflowId)
    (msg : String) (ts : ℤ)
    → replay_events es ≡ ok t
    → status_in (es ++ workflow_failed id msg ts ∷ []) ≡ some failed
unfolding status_in status_of replay_events replay_from finish apply_event
failed_after [] t id msg ts h = absurd cc
failed_after (e ∷ es) t id msg ts h =
    rw (replay-append (e ∷ es) (workflow_failed id msg ts ∷ []) h) refl

module _ {W J S : Type 0} (pf : Platform W J) (st : Storage J S)
    (log : String → S → List (WorkflowEvent J)) (snap : String → S → Option (WorkflowSnapshot J))
    (laws : StorageLaws st log snap) where
  -- The time between the call and the end of the run.
  abbrev pub time_taken : Engine W J S → Engine W J S → ℤ
  time_taken e f = wrap64 ((now_ms pf st f).0 -ℤ (now_ms pf st e).0)

  log-limit :
      (timeout_ms elapsed : ℤ) (wf_id : WorkflowId) (e : Engine W J S)
      (t : WorkflowExecutionState J)
      → replay_events (log wf_id.value e.storage) ≡ ok t
      → ((limit pf st timeout_ms elapsed (ok wf_id) e).0 ≡ (
          if is_late timeout_ms elapsed
          then err (step_timeout "workflow" timeout_ms)
          else ok wf_id))
        × (status_in (log wf_id.value (limit pf st timeout_ms elapsed (ok wf_id) e).1.storage) ≡ (
            if is_late timeout_ms elapsed
            then some failed
            else status_in (log wf_id.value e.storage)))
  unfolding limit
  log-limit timeout_ms elapsed wf_id e t h = elim (Bool-cases (is_late timeout_ms elapsed)) [
    | inl late ↦ (
      rw late refl,
      rw (late, log-emit pf st log snap laws wf_id _ e wf_id.value, eq_refl)
          (failed_after (log wf_id.value e.storage) t wf_id "workflow timeout exceeded" _ h),
    )
    | inr early ↦ (rw early refl, rw early refl)
  ]

  -- A workflow without sub-workflow steps that is started with a time limit is run to its end as
  -- `start` runs it. Where the limit is positive and the run took longer, the result is the error of
  -- the time limit and the workflow has failed, even if it was completed; otherwise the result and
  -- the status are those of `start`.
  pub start_with_timeout-Plain :
      (depth : ℕ) (d : WorkflowDef) (input : J) (timeout_ms : ℤ) (e : Engine W J S)
      → Plain d
      → (wf_id : WorkflowId) × (f : Engine W J S) × (answer : Result WorkflowId × Engine W J S)
        × (start pf st (suc depth) d input (now_ms pf st e).1 ≡ some (ok wf_id, f))
        × (start_with_timeout pf st (suc depth) d input timeout_ms e ≡ some answer)
        × (answer.0 ≡ (
            if is_late timeout_ms (time_taken e f)
            then err (step_timeout "workflow" timeout_ms)
            else ok wf_id))
        × (status_in (log wf_id.value answer.1.storage) ≡ (
            if is_late timeout_ms (time_taken e f)
            then some failed
            else status_in (log wf_id.value f.storage)))
  unfolding start_with_timeout limited now_ms
  start_with_timeout-Plain depth d input timeout_ms e h =
      let ((r, f), p, (wf_id, t, q, replayed, over)) =
        start-Plain pf st log snap laws depth d input (now_ms pf st e).1 h in
      let started = p ∙ ap (λ answer. some (answer, f)) q in
      let (answered, told) =
        log-limit timeout_ms (time_taken e f) wf_id (now_ms pf st f).1 t replayed in
      (
        wf_id,
        f,
        limit pf st timeout_ms (time_taken e f) (ok wf_id) (now_ms pf st f).1,
        started,
        ap (limited pf st (now_ms pf st e).0 timeout_ms) started,
        answered,
        told,
      )
