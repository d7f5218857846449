-- ===== src/Flow/Replay/Latest.antt =====
-- What the replayed state holds, read off the events without the state: for each field, the latest
-- event that says something of it.
use moonbit.Prelude.{
  String, ◌≡◌, refl, ◌∙◌, ap, Option, none, some, List, [], ◌∷◌, ◌++◌, arith, str_eq, str_eq_iff,
  if◌then◌else◌,
}
use moonbit.Prelude.Int.{ℤ}
use moonbit.Prelude.Dict.{get, get-put, get-remove}
use moonbit.Flow.Types.{WorkflowError, WorkflowStatus, pending, running, completed, failed, ok}
use moonbit.Flow.Event.{
  WorkflowEvent, workflow_started, step_started, step_completed, step_failed, step_retrying,
  workflow_completed, workflow_failed,
}
use moonbit.Flow.Replay.{WorkflowExecutionState, apply_event, replay_from, finish, replay_events}

-- The last of the values that `f` reads off the events, or `d` if there is none.
abbrev pub latest : {E A : Type 0} → (E → Option A) → A → List E → A
latest f d [] = d
latest f d (e ∷ es) = elim (f e) [ none ↦ latest f d es | some a ↦ latest f a es ]

abbrev pub when {ℓ} : {A : Type ℓ} → String → String → A → Option A
when j k a = if str_eq j k then some a else none

module _ {J : Type 0} where
  abbrev pub output_of : String → WorkflowEvent J → Option (Option J)
  output_of k (step_completed _ step output _) = when step k (some output)
  output_of k _ = none

  abbrev pub failure_of : String → WorkflowEvent J → Option (Option WorkflowError)
  failure_of k (step_completed _ step _ _) = when step k none
  failure_of k (step_failed _ step e _ _) = when step k (some (WorkflowError.step_failed step e))
  failure_of k _ = none

  abbrev pub attempt_of : String → WorkflowEvent J → Option (Option ℤ)
  attempt_of k (step_started _ step attempt _) = when step k (some attempt)
  attempt_of k (step_retrying _ step attempt _ _) = when step k (some attempt)
  attempt_of k _ = none

  abbrev pub status_of : WorkflowEvent J → Option WorkflowStatus
  status_of (workflow_completed _ _ _) = some completed
  status_of (workflow_failed _ _ _) = some failed
  status_of _ = none

  abbrev pub step_of : WorkflowEvent J → Option String
  step_of (step_started _ step _ _) = some step
  step_of _ = none

  -- A state shows the events that came after the state `s`.
  pub record Shows (s t : WorkflowExecutionState J) (es : List (WorkflowEvent J)) : Type 0 where
    pub identifier : t.workflow_id ≡ s.workflow_id
    pub outputs :
        (k : String) → get k t.completed_steps ≡ latest (output_of k) (get k s.completed_steps) es
    pub failures :
        (k : String) → get k t.failed_steps ≡ latest (failure_of k) (get k s.failed_steps) es
    pub attempts :
        (k : String) → get k t.step_attempts ≡ latest (attempt_of k) (get k s.step_attempts) es
    pub status : t.status ≡ latest status_of s.status es
    pub step : t.current_step ≡ latest step_of s.current_step es

  -- One event, field by field.
  apply_event-Shows :
      (s : WorkflowExecutionState J) (e : WorkflowEvent J)
      → Shows s (apply_event (some s) e) (e ∷ [])
  unfolding apply_event
  apply_event-Shows s (step_started i n a t) = record {
    identifier = refl;
    outputs = λ k. refl;
    failures = λ k. refl;
    attempts = λ k. rw get-put (ground arith);
    status = refl;
    step = refl;
  }
  apply_event-Shows s (step_completed i n o t) = record {
    identifier = refl;
    outputs = λ k. rw get-put (ground arith);
    failures = λ k. ground (arith, get-remove n k s.failed_steps, str_eq_iff n k);
    attempts = λ k. refl;
    status = refl;
    step = refl;
  }
  apply_event-Shows s (step_failed i n x a t) = record {
    identifier = refl;
    outputs = λ k. refl;
    failures = λ k. rw get-put (ground arith);
    attempts = λ k. refl;
    status = refl;
    step = refl;
  }
  apply_event-Shows s (step_retrying i n a d t) = record {
    identifier = refl;
    outputs = λ k. refl;
    failures = λ k. refl;
    attempts = λ k. rw get-put (ground arith);
    status = refl;
    step = refl;
  }
  apply_event-Shows s _ = record {
    identifier = refl;
    outputs = λ k. refl;
    failures = λ k. refl;
    attempts = λ k. refl;
    status = refl;
    step = refl;
  }

  pub latest-cons :
      {A : Type 0} (f : WorkflowEvent J → Option A) (d : A) (e : WorkflowEvent J)
      (es : List (WorkflowEvent J))
      → latest f (latest f d (e ∷ [])) es ≡ latest f d (e ∷ es)
  latest-cons f d e es = ground arith

  Shows-cons :
      (s t u : WorkflowExecutionState J) (e : WorkflowEvent J) (es : List (WorkflowEvent J))
      → Shows s t (e ∷ [])
      → Shows t u es
      → Shows s u (e ∷ es)
  Shows-cons s t u e es g h = record {
    identifier = h.identifier ∙ g.identifier;
    outputs = λ k.
        h.outputs k ∙ rw (g.outputs k) (latest-cons (output_of k) (get k s.completed_steps) e es);
    failures = λ k.
        h.failures k ∙ rw (g.failures k) (latest-cons (failure_of k) (get k s.failed_steps) e es);
    attempts = λ k.
        h.attempts k ∙ rw (g.attempts k) (latest-cons (attempt_of k) (get k s.step_attempts) e es);
    status = h.status ∙ rw g.status (latest-cons status_of s.status e es);
    step = h.step ∙ rw g.step (latest-cons step_of s.current_step e es);
  }

  replay_from-Shows :
      (s : WorkflowExecutionState J) (es : List (WorkflowEvent J))
      → (t : WorkflowExecutionState J) × (replay_from (some s) es ≡ some t) × Shows s t es
  unfolding replay_from
  replay_from-Shows s [] = (
    s,
    refl,
    record {
      identifier = refl;
      outputs = λ k. refl;
      failures = λ k. refl;
      attempts = λ k. refl;
      status = refl;
      step = refl;
    },
  )
  replay_from-Shows s (e ∷ es) =
      let (t, p, h) = replay_from-Shows (apply_event (some s) e) es in
      (t, p, Shows-cons s (apply_event (some s) e) t e es (apply_event-Shows s e) h)

  -- The status with which a replay begins: running, if the first event is the start.
  abbrev pub first_status : WorkflowEvent J → WorkflowStatus
  first_status (workflow_started _ _ _ _) = running
  first_status _ = pending

  -- What a replay tells of a log with the first event `e` and the further events `es`.
  pub record Reads (t : WorkflowExecutionState J) (e : WorkflowEvent J)
      (es : List (WorkflowEvent J)) : Type 0 where
    pub identifier : t.workflow_id.value ≡ ""
    pub outputs : (k : String) → get k t.completed_steps ≡ latest (output_of k) none es
    pub failures : (k : String) → get k t.failed_steps ≡ latest (failure_of k) none es
    pub attempts : (k : String) → get k t.step_attempts ≡ latest (attempt_of k) none es
    pub status : t.status ≡ latest status_of (first_status e) es
    pub step : t.current_step ≡ latest step_of "" es

  -- The replay of a log with at least one event succeeds, and tells of its events the following,
  -- where the first one counts for the status only: a step is completed with the output of its last
  -- completion; it is failed with its last failure unless it has completed since; its attempt is
  -- that of its last start or retry; the current step is the last started; the status is that of
  -- the last end of the workflow, else running or, where the first event is no start, pending. The
  -- identifier is empty.
  pub replay-Reads :
      (e : WorkflowEvent J) (es : List (WorkflowEvent J))
      → (t : WorkflowExecutionState J) × (replay_events (e ∷ es) ≡ ok t) × Reads t e es
  unfolding replay_events get
  replay-Reads e es =
      let (t, p, h) = replay_from-Shows (apply_event none e) es in (t, rw p, first e h)
    where
      first :
          {t : WorkflowExecutionState J} (e : WorkflowEvent J)
          → Shows (apply_event none e) t es
          → Reads t e es
      first (workflow_started i n x ts) h = record {
        identifier = ap (λ i. i.value) h.identifier;
        outputs = h.outputs;
        failures = h.failures;
        attempts = h.attempts;
        status = h.status;
        step = h.step;
      }
      first _ h = record {
        identifier = ap (λ i. i.value) h.identifier;
        outputs = h.outputs;
        failures = h.failures;
        attempts = h.attempts;
        status = h.status;
        step = h.step;
      }

  replay_from-append :
      (state : Option (WorkflowExecutionState J)) (es more : List (WorkflowEvent J))
      → replay_from state (es ++ more) ≡ replay_from (replay_from state es) more
  unfolding replay_from
  replay_from-append state [] more = refl
  replay_from-append state (e ∷ es) more = replay_from-append (some (apply_event state e)) es more

  finish-eq-ok :
      (state : Option (WorkflowExecutionState J)) (t : WorkflowExecutionState J)
      → finish state ≡ ok t
      → state ≡ some t
  unfolding finish
  finish-eq-ok none t h = cc
  finish-eq-ok (some s) t h = cc

  -- Replaying more events goes on from the state that the earlier ones gave.
  pub replay-append :
      {t : WorkflowExecutionState J} (es more : List (WorkflowEvent J))
      → replay_events es ≡ ok t
      → replay_events (es ++ more) ≡ finish (replay_from (some t) more)
  unfolding replay_events
  replay-append {t} es more h =
      rw (replay_from-append none es more, finish-eq-ok (replay_from none es) t h)
