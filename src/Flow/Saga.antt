-- ===== src/Flow/Saga.antt =====
-- Sagas: steps with compensations (moonflow/core_saga.mbt). The world is that of the handlers.
pub mod Rollback
pub mod Retry
use Prim.Native.String.{◌++◌ as append}
use moonbit.Prelude.{
  get_elem?, if◌then◌else◌, ℕ, zero, suc, Option, none, some, List, [], ◌∷◌, ◌++◌, String,
}
use moonbit.Prelude.Int.{ℤ, pos, ◌+ℤ◌, leb_ℤ, wrap32}
use moonbit.Prelude.Dict.{Dict, get}
use moonbit.Flow.Async.{pure}
use moonbit.Flow.Types.{
  WorkflowError, step_failed, step_timeout, step_max_retries_exceeded, workflow_not_found,
  invalid_transition, serialization_error, storage_error, Result, ok, err,
}
use moonbit.Flow.Errors.{show, pair_text}
use moonbit.Flow.Engine.{StepExecutor, call}

unfoldable pub saga_err_str : WorkflowError → String
unfolding show
saga_err_str (step_failed n r) = pair_text "StepFailed" n r
saga_err_str (step_timeout n t) = pair_text "StepTimeout" n (show t)
saga_err_str (step_max_retries_exceeded n a) = pair_text "MaxRetries" n (show a)
saga_err_str (workflow_not_found id) = append "NotFound(" (append id.value ")")
saga_err_str (invalid_transition f t) = pair_text "InvalidTransition" f t
saga_err_str (serialization_error m) = append "Serialization(" (append m ")")
saga_err_str (storage_error m) = append "Storage(" (append m ")")

module _ (W J : Type 0) where
  pub record SagaStep : Type 0 where
    pub name : String
    pub forward : StepExecutor W J
    pub compensate : StepExecutor W J

  -- The text of the first compensation that failed, if one did; or a step that is not there.
  pub data Compensated : Type 0 where
    compensated : Option String → W → Compensated
    no_such_step : Compensated

  pub data Executed : Type 0 where
    executed : Result J → W → Executed
    unfinished : Executed
    out_of_bounds : Executed

-- The result of the last attempt.
unfoldable pub last_result : {J : Type 0} → Option (Result J) → Result J
last_result none = err (step_failed "retry" "no attempts")
last_result (some r) = r

module _ {W J : Type 0} where
  -- `again` is the rest of the loop.
  unfoldable pub on_compensated :
      (J → W → Compensated W J) → String → Result J × W → Compensated W J
  unfolding saga_err_str
  on_compensated again name (ok output, w) = again output w
  on_compensated again name (err x, w) =
      compensated
        (some (append "compensation for '" (append name (append "' failed: " (saga_err_str x))))) w

  unfoldable pub compensate_at :
      (J → W → Compensated W J) → Option (SagaStep W J) → J → W → Compensated W J
  unfolding call on_compensated
  compensate_at again none input w = no_such_step
  compensate_at again (some step) input w =
      on_compensated again step.name (call step.compensate input w)

  -- `Saga::compensate`; the indices of the completed steps, the latest first.
  unfoldable pub compensate : List (SagaStep W J) → List ℕ → J → W → Compensated W J
  unfolding compensate_at
  compensate steps [] input w = compensated none w
  compensate steps (idx ∷ completed) input w =
      compensate_at (compensate steps completed) (get_elem? steps idx) input w

  -- After the compensations, for the error of the step that failed.
  unfoldable pub report : WorkflowError → Compensated W J → Executed W J
  report x (compensated none w) = executed (err x) w
  report x (compensated (some comp_err) w) =
      executed (err (storage_error (append "Saga failed and compensation also failed: " comp_err)))
        w
  report x no_such_step = out_of_bounds

  -- `execute_with_retry` drops what the compensations give back.
  unfoldable pub report_only : WorkflowError → Compensated W J → Executed W J
  report_only x (compensated comp_err w) = executed (err x) w
  report_only x no_such_step = out_of_bounds

  unfoldable pub on_attempt :
      (Option (Result J) → W → Option (Result J × W)) → Result J × W → Option (Result J × W)
  on_attempt again (ok output, w) = some (ok output, w)
  on_attempt again (err x, w) = again (some (err x)) w

  -- The loop on fuel, `none` where it has not ended: `attempt` is an `Int` and wraps.
  unfoldable pub retry_from :
      ℕ → ℤ → StepExecutor W J → J → ℤ → Option (Result J) → W → Option (Result J × W)
  unfolding call last_result on_attempt
  retry_from zero max_retry handler input attempt last w = none
  retry_from (suc fuel) max_retry handler input attempt last w =
      if leb_ℤ attempt max_retry
      then on_attempt (retry_from fuel max_retry handler input (wrap32 (attempt +ℤ pos 1)))
          (call handler input w)
      else some (last_result last, w)

  unfoldable pub retry_until : ℕ → ℤ → StepExecutor W J → J → W → Option (Result J × W)
  unfolding retry_from
  retry_until fuel max_retry handler input w =
      retry_from fuel max_retry handler input (pos 0) none w

  -- The loop that `Saga::execute` and `Saga::execute_with_retry` share, from the step `i` on: how a
  -- forward action is run and how a failure is reported are its first arguments, the rest of the
  -- steps is its last list.
  unfoldable pub on_forward :
      (J → W → Executed W J)
      → (WorkflowError → W → Executed W J)
      → Option (Result J × W)
      → Executed W J
  on_forward again failed none = unfinished
  on_forward again failed (some (ok output, w)) = again output w
  on_forward again failed (some (err x, w)) = failed x w

  unfoldable pub execute_from :
      (StepExecutor W J → J → W → Option (Result J × W))
      → (WorkflowError → Compensated W J → Executed W J)
      → List (SagaStep W J)
      → ℕ
      → List ℕ
      → List (SagaStep W J)
      → J
      → W
      → Executed W J
  unfolding on_forward compensate
  execute_from attempt reported steps i completed [] input w = executed (ok input) w
  execute_from attempt reported steps i completed (step ∷ rest) input w =
      on_forward (execute_from attempt reported steps (suc i) (i ∷ completed) rest)
        (λ x w'. reported x (compensate steps completed input w')) (attempt step.forward input w)

  unfoldable pub execute : List (SagaStep W J) → J → W → Executed W J
  unfolding call report execute_from
  execute steps input w =
      execute_from (λ handler x v. some (call handler x v)) report steps 0 [] steps input w

  -- The fuel is that of each loop over attempts.
  unfoldable pub execute_with_retry : ℕ → ℤ → List (SagaStep W J) → J → W → Executed W J
  unfolding retry_until report_only execute_from
  execute_with_retry fuel max_retry steps input w =
      execute_from (retry_until fuel max_retry) report_only steps 0 [] steps input w

  -- The builder: `Saga::step` and `Saga::step_by_name`, over the steps so far.
  unfoldable pub step :
      List (SagaStep W J) → String → StepExecutor W J → StepExecutor W J → List (SagaStep W J)
  step steps name forward compensate =
      steps ++ record { name = name; forward = forward; compensate = compensate } ∷ []

  -- The handler under a name, or one that fails.
  abbrev pub handler_or_failing : String → Option (StepExecutor W J) → StepExecutor W J
  handler_or_failing name (some h) = h
  handler_or_failing name none = λ input w. (pure (err (step_failed name "handler not found")), w)

  unfoldable pub step_by_name :
      Dict (StepExecutor W J)
      → List (SagaStep W J)
      → String
      → StepExecutor W J
      → List (SagaStep W J)
  unfolding step
  step_by_name registry steps name compensate =
      step steps name (handler_or_failing name (get name registry)) compensate
