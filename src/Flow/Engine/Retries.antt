-- ===== src/Flow/Engine/Retries.antt =====
-- How often a step is tried whose handler never succeeds.
use moonbit.Prelude.{
  ℕ, zero, suc, ◌+◌, ◌≡◌, refl, ◌∙◌, ap, Bool, true, false, Option, some, List, [], ◌∷◌, ◌++◌,
  String, inl, inr, Bool-cases, arith, if◌then◌else◌,
}
use text.Mathlib.TextPositions.{eq_refl}
use moonbit.Prelude.Int.{ℤ, pos, pos_part, ◌+ℤ◌, ◌-ℤ◌, ltb_ℤ}
use moonbit.Prelude.Dict.{get}
use moonbit.Flow.Async.{run}
use moonbit.Flow.Types.{WorkflowId, StepNode, Result, ok, err, step_max_retries_exceeded}
use moonbit.Flow.Event.{WorkflowEvent, step_started, step_retrying}
use moonbit.Flow.Event as Event
use moonbit.Flow.Errors.{err_to_string}
use moonbit.Flow.Snapshot.{WorkflowSnapshot}
use moonbit.Flow.Storage.{Storage, StorageLaws}
use moonbit.Flow.Engine.{Platform, StepExecutor, Engine, now_ms, emit, call_handler}
use moonbit.Flow.Engine.Step.{
  execute_with_timeout, run_handler, settle, with_handler, attempt_step, execute_step,
  execute_step_lem, more_left,
}
use moonbit.Flow.Engine.Journal.{emit-Follows, run_handler-Follows, log-emit}

abbrev pub IsErr : {A : Type 0} → Result A → Type 0
IsErr (ok a) = ⊥
IsErr (err x) = Unit

-- Whatever the input and the world, the handler returns an error.
abbrev pub AlwaysFails : {W J : Type 0} → StepExecutor W J → Type 0
AlwaysFails {W} {J} h = (input : J) (w : W) → let (a, w') = h input w in IsErr (run a w').0

module _ {J : Type 0} where
  -- The attempts that a log shows.
  pub starts : List (WorkflowEvent J) → ℕ
  starts [] = 0
  starts (step_started _ _ _ _ ∷ es) = suc (starts es)
  starts (_ ∷ es) = starts es

  starts-append : (xs ys : List (WorkflowEvent J)) → starts (xs ++ ys) ≡ starts xs + starts ys
  unfolding starts
  starts-append [] ys = omega arith
  starts-append (step_started _ _ _ _ ∷ xs) ys = omega (arith, starts-append xs ys)
  starts-append (_ ∷ xs) ys = starts-append xs ys

module _ {W J S : Type 0} (pf : Platform W J) (st : Storage J S)
    (log : String → S → List (WorkflowEvent J)) (snap : String → S → Option (WorkflowSnapshot J))
    (laws : StorageLaws st log snap) where
  abbrev attempts : WorkflowId → Engine W J S → ℕ
  attempts id e = starts (log id.value e.storage)

  attempts-emit :
      (id : WorkflowId) (event : ℤ → WorkflowEvent J) (e : Engine W J S)
      → attempts id (emit pf st id event e) ≡ attempts id e + starts (event (now_ms pf st e).0 ∷ [])
  attempts-emit id event e =
      rw (log-emit pf st log snap laws id event e id.value)
        (rw eq_refl (starts-append (log id.value e.storage) (event (now_ms pf st e).0 ∷ [])))

  attempts-other :
      (id : WorkflowId) (event : ℤ → WorkflowEvent J) (e : Engine W J S)
      → ((ts : ℤ) → starts (event ts ∷ []) ≡ 0)
      → attempts id (emit pf st id event e) ≡ attempts id e
  attempts-other id event e other =
      omega (arith, attempts-emit id event e, other (now_ms pf st e).0)

  attempts-start :
      (id : WorkflowId) (n : String) (a : ℤ) (e : Engine W J S)
      → attempts id (emit pf st id (step_started id n a) e) ≡ attempts id e + 1
  unfolding starts
  attempts-start id n a e = attempts-emit id (step_started id n a) e

  attempts-call :
      (id : WorkflowId) (h : StepExecutor W J) (input : J) (e : Engine W J S)
      → attempts id (call_handler h input e).1 ≡ attempts id e
  unfolding call_handler
  attempts-call id h input e = refl

  attempts-now :
      (id : WorkflowId) (e : Engine W J S) → attempts id (now_ms pf st e).1 ≡ attempts id e
  unfolding now_ms
  attempts-now id e = refl

  module _ (id : WorkflowId) (node : StepNode) (h : StepExecutor W J) (fails : AlwaysFails h) where
    call_handler_fails : (input : J) (e : Engine W J S) → IsErr (call_handler h input e).0
    unfolding call_handler
    call_handler_fails input e = fails input e.world

    -- The handler has failed, and no further attempt shows.
    abbrev Failed : Engine W J S → Result J × Engine W J S → Type 0
    Failed e r = IsErr r.0 × (attempts id r.1 ≡ attempts id e)

    if-Failed :
        (b : Bool) (e : Engine W J S) (x y : Result J × Engine W J S)
        → Failed e x
        → Failed e y
        → Failed e (if b then x else y)
    if-Failed true e x y p q = p
    if-Failed false e x y p q = q

    call-Failed : (input : J) (e : Engine W J S) → Failed e (call_handler h input e)
    call-Failed input e = (call_handler_fails input e, attempts-call id h input e)

    timeout-Failed :
        (input : J) (e : Engine W J S) → Failed e (execute_with_timeout pf st id node h input e)
    unfolding execute_with_timeout
    timeout-Failed input e =
        let e₁ = (now_ms pf st e).1 in
        let e₂ = (call_handler h input e₁).1 in
        let e₃ = (now_ms pf st e₂).1 in
        let same : attempts id e₃ ≡ attempts id e =
          attempts-now id e₂ ∙ attempts-call id h input e₁ ∙ attempts-now id e in
        let event = Event.WorkflowEvent.step_failed id node.name "timeout exceeded" (pos 1) in
        if-Failed _ e _ _ (tt, attempts-other id event e₃ (λ ts. unfold starts in refl) ∙ same)
          (call_handler_fails input e₁, same)

    run_handler-Failed :
        (input : J) (e : Engine W J S) → Failed e (run_handler pf st id node h input e)
    unfolding run_handler
    run_handler-Failed input e = if-Failed _ e _ _ (timeout-Failed input e) (call-Failed input e)

    settle_failed :
        (attempt : ℤ) (again : Engine W J S → Result J × Engine W J S) (r : Result J × Engine W J S)
        → IsErr r.0
        → (text : String) × (settle pf st id node attempt again r ≡ (
            if ltb_ℤ attempt node.config.max_retry
            then again (
                emit pf st id
                  (step_retrying id node.name (attempt +ℤ pos 1) node.config.retry_delay_ms)
                  r.1)
            else (
              err (step_max_retries_exceeded node.name attempt),
              emit pf st id (Event.WorkflowEvent.step_failed id node.name text attempt) r.1,
            )))
    unfolding settle
    settle_failed attempt again (ok o, e) h = absurd h
    settle_failed attempt again (err x, e) h = (err_to_string x, refl)

    step_settles :
        (input : J) (attempt : ℤ) (e : Engine W J S)
        → get node.name e.registry ≡ some h
        → execute_step pf st id node input attempt e
          ≡ settle pf st id node attempt (execute_step pf st id node input (attempt +ℤ pos 1)) (
              run_handler pf st id node h input
                (emit pf st id (step_started id node.name attempt) e))
    unfolding attempt_step
    step_settles input attempt e found =
        let again = execute_step pf st id node input (attempt +ℤ pos 1) in
        let e' = emit pf st id (step_started id node.name attempt) e in
        let kept =
          (emit-Follows pf st log snap laws id (step_started id node.name attempt) e).registry in
        execute_step_lem pf st id node input attempt e
        ∙ ap (λ o. with_handler pf st id node input attempt again o e')
            (ap (get node.name) kept ∙ found)

    -- The number of the last attempt, after `attempt`.
    abbrev pub last_attempt : ℤ → ℤ
    last_attempt attempt =
        if ltb_ℤ attempt node.config.max_retry then node.config.max_retry else attempt

    abbrev pub Exhausted : ℕ → ℤ → Engine W J S → Result J × Engine W J S → Type 0
    Exhausted left attempt e r =
        (r.0 ≡ err (step_max_retries_exceeded node.name (last_attempt attempt)))
        × (attempts id r.1 ≡ attempts id e + left + 1)

    last_next :
        (a : ℤ)
        → ltb_ℤ a node.config.max_retry ≡ true
        → last_attempt (a +ℤ pos 1) ≡ node.config.max_retry
    unfolding ◌+ℤ◌
    last_next a h = ground arith

    none_left : (m a : ℤ) → ltb_ℤ a m ≡ false → pos_part (m -ℤ a) ≡ 0
    unfolding ◌-ℤ◌
    none_left m a h = ground arith

    -- The run of one attempt and what follows: `next` is the claim for the attempts after it.
    tries_once :
        (left : ℕ) (input : J) (attempt : ℤ) (e : Engine W J S)
        → left ≡ pos_part (node.config.max_retry -ℤ attempt)
        → get node.name e.registry ≡ some h
        → (next : (f : Engine W J S)
            → ltb_ℤ attempt node.config.max_retry ≡ true
            → get node.name f.registry ≡ some h
            → (n : ℕ) × (left ≡ suc n)
              × Exhausted n
                  (attempt +ℤ pos 1)
                  f
                  (execute_step pf st id node input (attempt +ℤ pos 1) f))
        → Exhausted left attempt e (execute_step pf st id node input attempt e)
    tries_once left input attempt e l found next =
        let again = execute_step pf st id node input (attempt +ℤ pos 1) in
        let e₁ = emit pf st id (step_started id node.name attempt) e in
        let r = run_handler pf st id node h input e₁ in
        let retry = step_retrying id node.name (attempt +ℤ pos 1) node.config.retry_delay_ms in
        let f = emit pf st id retry r.1 in
        let (failed, same) = run_handler-Failed input e₁ in
        let (text, settled) = settle_failed attempt again r failed in
        let counted : attempts id r.1 ≡ attempts id e + 1 =
          same ∙ attempts-start id node.name attempt e in
        let known : get node.name f.registry ≡ some h =
          ap (get node.name) (
            (emit-Follows pf st log snap laws id retry r.1).registry
            ∙ (run_handler-Follows pf st log snap laws id node h input e₁).registry
            ∙ (emit-Follows pf st log snap laws id (step_started id node.name attempt) e).registry)
          ∙ found in
        rw (step_settles input attempt e found ∙ settled)
          (elim (Bool-cases (ltb_ℤ attempt node.config.max_retry)) [
            | inl more ↦
                let (n, l', (result, count)) = next f more known in
                let other : attempts id f ≡ attempts id r.1 =
                  attempts-other id retry r.1 (λ ts. unfold starts in refl) in
                rw more
                  (rw (last_next attempt more) at result, count ∙ omega (arith, other, counted, l'))
            | inr last ↦
                let none = none_left node.config.max_retry attempt last in
                let event = Event.WorkflowEvent.step_failed id node.name text attempt in
                rw last (
                  refl,
                  attempts-other id event r.1 (λ ts. unfold starts in refl)
                      ∙ omega (arith, counted, l, none),
                )
          ])

    tries :
        (left : ℕ) (input : J) (attempt : ℤ) (e : Engine W J S)
        → left ≡ pos_part (node.config.max_retry -ℤ attempt)
        → get node.name e.registry ≡ some h
        → Exhausted left attempt e (execute_step pf st id node input attempt e)
    tries zero input attempt e l found =
        tries_once zero input attempt e l found
          λ f more known. absurd (omega (arith, l, more_left node.config.max_retry attempt more))
    tries (suc left) input attempt e l found =
        tries_once (suc left) input attempt e l found λ f more known. (
          left,
          refl,
          tries left input (attempt +ℤ pos 1) f
              (omega (arith, l, more_left node.config.max_retry attempt more)) known,
        )

    -- A step whose registered handler always fails is tried once for each number from `attempt` to
    -- `max_retry`, and once where `attempt` is not below it: the log shows exactly so many further
    -- starts, and the result is the error that names the last of these numbers.
    pub execute_step-Exhausted :
        (input : J) (attempt : ℤ) (e : Engine W J S)
        → get node.name e.registry ≡ some h
        → Exhausted
            (pos_part (node.config.max_retry -ℤ attempt))
            attempt
            e
            (execute_step pf st id node input attempt e)
    execute_step-Exhausted input attempt e found = tries _ input attempt e refl found
