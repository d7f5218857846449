-- ===== src/Flow/Engine/Step.antt =====
-- One step with its timeout and its retries (`execute_step` and `execute_with_timeout` of
-- moonflow/core_engine.mbt).
use moonbit.Prelude.{
  ℕ, zero, suc, ◌≡◌, refl, true, false, Option, none, some, arith, inl, inr, Bool-cases,
  if◌then◌else◌,
}
use moonbit.Prelude.Int.{ℤ, pos, pos_part, ◌+ℤ◌, ◌-ℤ◌, ltb_ℤ, wrap64}
use moonbit.Prelude.Dict.{get}
use moonbit.Flow.Types.{
  WorkflowId, WorkflowError, StepNode, Result, ok, err, step_max_retries_exceeded, step_timeout,
}
use moonbit.Flow.Event.{step_started, step_retrying}
use moonbit.Flow.Event as Event
use moonbit.Flow.Errors.{err_to_string}
use moonbit.Flow.Storage.{Storage}
use moonbit.Flow.Engine.{Platform, StepExecutor, Engine, now_ms, emit, call_handler}

pub more_left :
    (m a : ℤ) → ltb_ℤ a m ≡ true → pos_part (m -ℤ a) ≡ suc (pos_part (m -ℤ (a +ℤ pos 1)))
unfolding ◌-ℤ◌ ◌+ℤ◌
more_left m a h = ground arith

module _ {W J S : Type 0} (pf : Platform W J) (st : Storage J S) where
  unfoldable pub execute_with_timeout :
      WorkflowId → StepNode → StepExecutor W J → J → Engine W J S → Result J × Engine W J S
  execute_with_timeout wf_id node handler input e =
      let (start_time, e₁) = now_ms pf st e in
      let (result, e₂) = call_handler handler input e₁ in
      let (end_time, e₃) = now_ms pf st e₂ in
      if ltb_ℤ node.config.timeout_ms (wrap64 (end_time -ℤ start_time))
      then (
        err (step_timeout node.name node.config.timeout_ms),
        emit pf st wf_id
            (Event.WorkflowEvent.step_failed wf_id node.name "timeout exceeded" (pos 1)) e₃,
      )
      else (result, e₃)

  unfoldable pub run_handler :
      WorkflowId → StepNode → StepExecutor W J → J → Engine W J S → Result J × Engine W J S
  unfolding execute_with_timeout
  run_handler wf_id node handler input e =
      if ltb_ℤ (pos 0) node.config.timeout_ms
      then execute_with_timeout wf_id node handler input e
      else call_handler handler input e

  -- What follows the handler: `again` is the recursive call for the next attempt. `attempt + 1` is at
  -- most `max_retry`, so that it does not wrap.
  unfoldable pub settle :
      WorkflowId
      → StepNode
      → ℤ
      → (Engine W J S → Result J × Engine W J S)
      → Result J × Engine W J S
      → Result J × Engine W J S
  settle wf_id node attempt again (ok output, e) = (ok output, e)
  settle wf_id node attempt again (err x, e) =
      if ltb_ℤ attempt node.config.max_retry
      then again (
          emit pf st wf_id
            (step_retrying wf_id node.name (attempt +ℤ pos 1) node.config.retry_delay_ms) e)
      else (
        err (step_max_retries_exceeded node.name attempt),
        emit pf st wf_id (Event.WorkflowEvent.step_failed wf_id node.name (err_to_string x) attempt)
            e,
      )

  unfoldable pub with_handler :
      WorkflowId
      → StepNode
      → J
      → ℤ
      → (Engine W J S → Result J × Engine W J S)
      → Option (StepExecutor W J)
      → Engine W J S
      → Result J × Engine W J S
  unfolding run_handler settle
  with_handler wf_id node input attempt again none e =
      (err (WorkflowError.step_failed node.name "no handler registered"), e)
  with_handler wf_id node input attempt again (some h) e =
      settle wf_id node attempt again (run_handler wf_id node h input e)

  -- The body of `execute_step`, over its recursive call.
  unfoldable pub attempt_step :
      WorkflowId
      → StepNode
      → J
      → ℤ
      → (Engine W J S → Result J × Engine W J S)
      → Engine W J S
      → Result J × Engine W J S
  unfolding with_handler
  attempt_step wf_id node input attempt again e =
      let e' = emit pf st wf_id (step_started wf_id node.name attempt) e in
      with_handler wf_id node input attempt again (get node.name e'.registry) e'

  -- The recursion, with the attempts left as fuel.
  unfoldable pub execute_step_from :
      ℕ → WorkflowId → StepNode → J → ℤ → Engine W J S → Result J × Engine W J S
  unfolding attempt_step
  execute_step_from zero wf_id node input attempt e =
      attempt_step wf_id node input attempt
        (λ e'. (err (step_max_retries_exceeded node.name attempt), e')) e
  execute_step_from (suc left) wf_id node input attempt e =
      attempt_step wf_id node input attempt
        (λ e'. execute_step_from left wf_id node input (attempt +ℤ pos 1) e') e

  -- Retries left: `max_retry - attempt`, or none.
  unfoldable pub execute_step :
      WorkflowId → StepNode → J → ℤ → Engine W J S → Result J × Engine W J S
  unfolding execute_step_from
  execute_step wf_id node input attempt e =
      execute_step_from (pos_part (node.config.max_retry -ℤ attempt)) wf_id node input attempt e

  -- The recursive call matters only while retries are left.
  settle_last :
      (wf_id : WorkflowId) (node : StepNode) (attempt : ℤ)
      (f g : Engine W J S → Result J × Engine W J S) (r : Result J × Engine W J S)
      → ltb_ℤ attempt node.config.max_retry ≡ false
      → settle wf_id node attempt f r ≡ settle wf_id node attempt g r
  unfolding settle
  settle_last wf_id node attempt f g (ok x, e) h = refl
  settle_last wf_id node attempt f g (err x, e) h = rw h

  with_handler_last :
      (wf_id : WorkflowId) (node : StepNode) (input : J) (attempt : ℤ)
      (f g : Engine W J S → Result J × Engine W J S) (o : Option (StepExecutor W J))
      (e : Engine W J S)
      → ltb_ℤ attempt node.config.max_retry ≡ false
      → with_handler wf_id node input attempt f o e ≡ with_handler wf_id node input attempt g o e
  unfolding with_handler
  with_handler_last wf_id node input attempt f g none e h = refl
  with_handler_last wf_id node input attempt f g (some x) e h =
      settle_last wf_id node attempt f g (run_handler wf_id node x input e) h

  attempt_step_last :
      (wf_id : WorkflowId) (node : StepNode) (input : J) (attempt : ℤ)
      (f g : Engine W J S → Result J × Engine W J S) (e : Engine W J S)
      → ltb_ℤ attempt node.config.max_retry ≡ false
      → attempt_step wf_id node input attempt f e ≡ attempt_step wf_id node input attempt g e
  unfolding attempt_step
  attempt_step_last wf_id node input attempt f g e h =
      let e' = emit pf st wf_id (step_started wf_id node.name attempt) e in
      with_handler_last wf_id node input attempt f g (get node.name e'.registry) e' h

  execute_step_from_last :
      (left : ℕ) (wf_id : WorkflowId) (node : StepNode) (input : J) (attempt : ℤ)
      (f : Engine W J S → Result J × Engine W J S) (e : Engine W J S)
      → ltb_ℤ attempt node.config.max_retry ≡ false
      → execute_step_from left wf_id node input attempt e
        ≡ attempt_step wf_id node input attempt f e
  unfolding execute_step_from
  execute_step_from_last zero wf_id node input attempt f e h =
      attempt_step_last wf_id node input attempt
        (λ e'. (err (step_max_retries_exceeded node.name attempt), e')) f e h
  execute_step_from_last (suc left) wf_id node input attempt f e h =
      attempt_step_last wf_id node input attempt
        (execute_step_from left wf_id node input (attempt +ℤ pos 1)) f e h

  -- The recursion of the source, with no fuel: a step is its body with itself, one attempt on, as
  -- the recursive call. So it ends, whatever the handlers do, for every retry limit.
  pub execute_step_lem :
      (wf_id : WorkflowId) (node : StepNode) (input : J) (attempt : ℤ) (e : Engine W J S)
      → execute_step wf_id node input attempt e
        ≡ attempt_step wf_id node input attempt (execute_step wf_id node input (attempt +ℤ pos 1)) e
  unfolding execute_step
  execute_step_lem wf_id node input attempt e =
      elim (Bool-cases (ltb_ℤ attempt node.config.max_retry)) [
        | inl retries ↦ rw (more_left node.config.max_retry attempt retries)
        | inr last ↦
            execute_step_from_last (pos_part (node.config.max_retry -ℤ attempt)) wf_id node input
              attempt (execute_step wf_id node input (attempt +ℤ pos 1)) e last
      ]
