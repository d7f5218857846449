-- ===== src/Flow/Query/Stats.antt =====
-- The statistics of a workflow's events (moonflow/api_event_query.mbt) against the filter by type.
use moonbit.Prelude.{
  ℕ, suc, ◌+◌, ◌≤◌, ◌≡◌, refl, String, Bool, inl, inr, Bool-cases, Option, List, [], ◌∷◌, ◌++◌,
  arith, length, length-append, if◌then◌else◌, ◌∙◌, ap,
}
use moonbit.Prelude.Int.{ℤ, pos, ◌+ℤ◌, wrap32}
use moonbit.Flow.Types.{WorkflowId}
use moonbit.Flow.Event.{WorkflowEvent}
use moonbit.Flow.Event as Event
use moonbit.Flow.Snapshot.{WorkflowSnapshot}
use moonbit.Flow.Storage.{Storage, StorageLaws}
use moonbit.Flow.Query.{load_events_sync}
use moonbit.Flow.Query.Events.{
  EventStats, incremented, no_stats, array_contains, event_type_name, count_event, count_events,
  push_kept, has_type, filter_by_type, compute_stats,
}

incremented-pos : (k : ℕ) → suc k ≤ 2147483647 → incremented (pos k) ≡ pos (suc k)
unfolding wrap32 ◌+ℤ◌
incremented-pos k h = ground arith

module _ {J : Type 0} where
  -- How many events pass a test.
  number : (WorkflowEvent J → Bool) → List (WorkflowEvent J) → ℕ
  number p [] = 0
  number p (e ∷ es) = let rest = number p es in if p e then suc rest else rest

  length-push_kept :
      (p : WorkflowEvent J → Bool) (result es : List (WorkflowEvent J))
      → length (push_kept p result es) ≡ length result + number p es
  unfolding push_kept number
  length-push_kept p result [] = omega arith
  length-push_kept p result (e ∷ es) = elim (Bool-cases (p e)) [
    | inl t ↦
        rw t
          (omega (arith, length-push_kept p (result ++ e ∷ []) es, length-append result (e ∷ [])))
    | inr f ↦ rw f (length-push_kept p result es)
  ]

  number-length :
      (p : WorkflowEvent J → Bool) (es : List (WorkflowEvent J)) → number p es ≤ length es
  unfolding number
  number-length p [] = omega arith
  number-length p (e ∷ es) = ground (arith, number-length p es)

  -- A counter that goes up at the events that pass a test.
  abbrev Counts : (EventStats → ℤ) → (WorkflowEvent J → Bool) → Type 0
  Counts field p =
      (s : EventStats) (e : WorkflowEvent J)
      → field (count_event s e) ≡ (if p e then incremented (field s) else field s)

  count_events-number :
      (field : EventStats → ℤ) (p : WorkflowEvent J → Bool)
      → Counts field p
      → (es : List (WorkflowEvent J)) (s : EventStats) (k : ℕ) → field s ≡ pos k
      → k + length es ≤ 2147483647
      → field (count_events s es) ≡ pos (k + number p es)
  unfolding count_events number
  count_events-number field p c [] s k h bound = h ∙ ap pos (omega arith)
  count_events-number field p c (e ∷ es) s k h bound = elim (Bool-cases (p e)) [
    | inl t ↦
        count_events-number field p c es (count_event s e) (suc k)
          (c s e ∙ rw (t, h) (incremented-pos k (omega (arith, bound)))) (omega (arith, bound))
        ∙ rw t (ap pos (omega arith))
    | inr f ↦
        count_events-number field p c es (count_event s e) k (c s e ∙ rw f h) (omega (arith, bound))
        ∙ rw f refl
  ]

  -- Each counter goes up at the events of its type.
  count_event-types :
      (s : EventStats) (e : WorkflowEvent J)
      → ((count_event s e).started_count ≡ (
          if has_type ("StepStarted" ∷ []) e then incremented s.started_count else s.started_count))
        × ((count_event s e).completed_count ≡ (
            if has_type ("StepCompleted" ∷ []) e
            then incremented s.completed_count
            else s.completed_count))
        × ((count_event s e).failed_count ≡ (
            if has_type ("StepFailed" ∷ []) e then incremented s.failed_count else s.failed_count))
        × ((count_event s e).retrying_count ≡ (
            if has_type ("StepRetrying" ∷ []) e
            then incremented s.retrying_count
            else s.retrying_count))
        × ((count_event s e).workflow_started ≡ (
            if has_type ("WorkflowStarted" ∷ []) e
            then incremented s.workflow_started
            else s.workflow_started))
        × ((count_event s e).workflow_completed ≡ (
            if has_type ("WorkflowCompleted" ∷ []) e
            then incremented s.workflow_completed
            else s.workflow_completed))
        × ((count_event s e).workflow_failed ≡ (
            if has_type ("WorkflowFailed" ∷ []) e
            then incremented s.workflow_failed
            else s.workflow_failed))
  unfolding count_event has_type array_contains event_type_name
  count_event-types s (Event.WorkflowEvent.workflow_started a b c d) =
      (refl, refl, refl, refl, refl, refl, refl)
  count_event-types s (Event.WorkflowEvent.step_started a b c d) =
      (refl, refl, refl, refl, refl, refl, refl)
  count_event-types s (Event.WorkflowEvent.step_completed a b c d) =
      (refl, refl, refl, refl, refl, refl, refl)
  count_event-types s (Event.WorkflowEvent.step_failed a b c d f) =
      (refl, refl, refl, refl, refl, refl, refl)
  count_event-types s (Event.WorkflowEvent.step_retrying a b c d f) =
      (refl, refl, refl, refl, refl, refl, refl)
  count_event-types s (Event.WorkflowEvent.workflow_completed a b c) =
      (refl, refl, refl, refl, refl, refl, refl)
  count_event-types s (Event.WorkflowEvent.workflow_failed a b c) =
      (refl, refl, refl, refl, refl, refl, refl)

  total_of :
      (s : EventStats) (e : WorkflowEvent J) → (count_event s e).total_events ≡ s.total_events
  unfolding count_event
  total_of s e = ground arith

  total_stays :
      (es : List (WorkflowEvent J)) (s : EventStats)
      → (count_events s es).total_events ≡ s.total_events
  unfolding count_events
  total_stays [] s = refl
  total_stays (e ∷ es) s = total_stays es (count_event s e) ∙ total_of s e

module _ {J S : Type 0} {st : Storage J S} {log : String → S → List (WorkflowEvent J)}
    {snap : String → S → Option (WorkflowSnapshot J)} (laws : StorageLaws st log snap) where
  -- How many events of a type the filter finds.
  abbrev pub found : WorkflowId → S → String → ℤ
  found id s type = pos (length (filter_by_type st id (type ∷ []) s).0)

  selected :
      (id : WorkflowId) (s : S) (type : String)
      → found id s type ≡ pos (number (has_type (type ∷ [])) (log id.value s))
  unfolding filter_by_type load_events_sync
  selected id s type =
      rw (laws.load_ok id s, length-push_kept (has_type (type ∷ [])) [] (log id.value s))
        (ap pos (omega arith))

  agrees :
      (id : WorkflowId) (s : S) (field : EventStats → ℤ) (type : String)
      → Counts field (has_type {J = J} (type ∷ []))
      → field (no_stats (pos (length (log id.value s)))) ≡ pos 0
      → length (log id.value s) ≤ 2147483647
      → field (compute_stats st id s).0 ≡ found id s type
  unfolding compute_stats load_events_sync
  agrees id s field type c start bound =
      rw (laws.load_ok id s, selected id s type)
        (count_events-number field (has_type (type ∷ [])) c (log id.value s) _ 0 start
            (omega (arith, bound))
          ∙ ap pos (omega arith))

  -- The statistics count the events of the log, up to 2147483647 of them: the total is their number
  -- and each counter is the number of events that the filter finds of its type.
  pub compute_stats-filter_by_type :
      (id : WorkflowId) (s : S)
      → length (log id.value s) ≤ 2147483647
      → let stats = (compute_stats st id s).0 in
        (stats.total_events ≡ pos (length (log id.value s)))
        × (stats.started_count ≡ found id s "StepStarted")
        × (stats.completed_count ≡ found id s "StepCompleted")
        × (stats.failed_count ≡ found id s "StepFailed")
        × (stats.retrying_count ≡ found id s "StepRetrying")
        × (stats.workflow_started ≡ found id s "WorkflowStarted")
        × (stats.workflow_completed ≡ found id s "WorkflowCompleted")
        × (stats.workflow_failed ≡ found id s "WorkflowFailed")
  unfolding compute_stats load_events_sync no_stats
  compute_stats-filter_by_type id s bound = (
    rw (laws.load_ok id s) (total_stays (log id.value s) _),
    agrees id s (λ x. x.started_count) "StepStarted" (λ x e. (count_event-types x e).0) refl bound,
    agrees id s (λ x. x.completed_count) "StepCompleted" (λ x e. (count_event-types x e).1) refl
        bound,
    agrees id s (λ x. x.failed_count) "StepFailed" (λ x e. (count_event-types x e).2) refl bound,
    agrees id s (λ x. x.retrying_count) "StepRetrying" (λ x e. (count_event-types x e).3) refl
        bound,
    agrees id s (λ x. x.workflow_started) "WorkflowStarted" (λ x e. (count_event-types x e).4) refl
        bound,
    agrees id s (λ x. x.workflow_completed) "WorkflowCompleted" (λ x e. (count_event-types x e).5)
        refl bound,
    agrees id s (λ x. x.workflow_failed) "WorkflowFailed" (λ x e. (count_event-types x e).6) refl
        bound,
  )
