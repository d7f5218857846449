-- ===== src/Flow/Middleware.antt =====
-- Middleware: functions that wrap a handler (moonflow/core_middleware.mbt). A mutable struct that a handler captures is a part of the world, which the wrapped
-- handler may reach as well.
pub mod Breaker
pub mod Attempts
use moonbit.Prelude.{ℕ, zero, suc, ◌≡◌, refl, String, Bool, true, false, if◌then◌else◌}
use moonbit.Prelude.Int.{ℤ, pos, pos_part, ◌-ℤ◌, ltb_ℤ, wrap32, wrap64}
use moonbit.Flow.Async.{Async, pure, suspend}
use moonbit.Flow.Types.{WorkflowError, step_timeout, Result, ok, err}
use moonbit.Flow.Clock.{now_ms, elapsed_ms, to_int}
use moonbit.Flow.Engine.{StepExecutor, call}

-- A struct in the world: how it is read and written.
pub record Ref (W A : Type 0) : Type 0 where
  pub read : W → A
  pub write : A → W → W

pub record RefLaws {W A : Type 0} (r : Ref W A) : Type 0 where
  pub read-write : (a : A) (w : W) → r.read (r.write a w) ≡ a
  pub write-read : (w : W) → r.write (r.read w) w ≡ w
  pub write-write : (a b : A) (w : W) → r.write a (r.write b w) ≡ r.write a w

abbrev pub update : {W A : Type 0} → Ref W A → (A → A) → W → W
update r f w = r.write (f (r.read w)) w

abbrev pub Middleware : Type 0 → Type 0 → Type 0
Middleware W J = StepExecutor W J → StepExecutor W J

-- `attempt < max_attempts` holds for so many attempts, of which the first is 1.
unfoldable pub left_after_first : ℤ → ℕ
unfolding ◌-ℤ◌
left_after_first max_attempts = pos_part (max_attempts -ℤ pos 1)

module _ {W J : Type 0} where
  unfoldable pub logging_middleware_continue : Async W (Result J) → Async W (Result J)
  logging_middleware_continue next = next

  unfoldable pub relay : Async W (Result J) → Async W (Result J)
  unfolding logging_middleware_continue
  relay (pure (ok o)) = pure (ok o)
  relay (pure (err x)) = pure (err x)
  relay (suspend e s) = suspend e (λ w. logging_middleware_continue (s w))

  unfoldable pub logging_middleware : StepExecutor W J → StepExecutor W J
  unfolding relay
  logging_middleware inner input w = let (result, w') = inner input w in (relay result, w')

  -- What follows a call that may be repeated: `again` is the rest of the attempts.
  unfoldable pub on_tried :
      (W → Async W (Result J) × W) → (WorkflowError → Bool) → Result J × W → Async W (Result J) × W
  on_tried again retryable (ok output, w) = (pure (ok output), w)
  on_tried again retryable (err x, w) = if retryable x then again w else (pure (err x), w)

  -- The recursion that `retry_with_delay` and `try_with_backoff` of the patterns share, over the
  -- errors after which it goes on, with so many attempts left after this one. `attempt + 1` is at
  -- most `max_attempts`, so that it does not wrap.
  unfoldable pub try_from :
      (WorkflowError → Bool) → StepExecutor W J → J → ℕ → W → Async W (Result J) × W
  unfolding on_tried call
  try_from retryable inner input zero w = let (result, w') = call inner input w in (pure result, w')
  try_from retryable inner input (suc left) w =
      on_tried (try_from retryable inner input left) retryable (call inner input w)

  unfoldable pub retry_middleware : ℤ → ℤ → StepExecutor W J → StepExecutor W J
  unfolding try_from left_after_first
  retry_middleware max_attempts delay_ms inner input w =
      try_from (λ _. true) inner input (left_after_first max_attempts) w

  -- `chain`
  unfoldable pub chain : Middleware W J → Middleware W J → StepExecutor W J → StepExecutor W J
  chain m₁ m₂ inner = m₁ (m₂ inner)

  -- The handler is run to its end, then the clock is looked at. The pattern of the same kind has
  -- another name in its error.
  unfoldable pub timeout_as : String → (W → ℕ × W) → ℤ → StepExecutor W J → StepExecutor W J
  unfolding now_ms elapsed_ms call
  timeout_as name clock timeout_ms inner input w =
      let (start, w₁) = now_ms clock w in
      let (result, w₂) = call inner input w₁ in
      let (end, w₃) = now_ms clock w₂ in
      if ltb_ℤ timeout_ms (to_int (elapsed_ms start end))
      then (pure (err (step_timeout name timeout_ms)), w₃)
      else (pure result, w₃)

  unfoldable pub timeout_middleware : (W → ℕ × W) → ℤ → StepExecutor W J → StepExecutor W J
  unfolding timeout_as
  timeout_middleware = timeout_as "middleware"
