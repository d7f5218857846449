-- ===== src/Flow/Patterns.antt =====
-- Patterns of execution, wrappers of handlers like the middleware (moonflow/pattern_lib.mbt).
pub mod Bulkhead
pub mod Circuit
pub mod Retrying
use moonbit.Prelude.{ℕ, Bool, true, false, if◌then◌else◌}
use moonbit.Prelude.Int.{ℤ, pos, ◌+ℤ◌, ◌-ℤ◌, ltb_ℤ, leb_ℤ, wrap32}
use moonbit.Flow.Async.{Async, pure}
use moonbit.Flow.Types.{storage_error, Result, ok, err}
use moonbit.Flow.Category.{should_retry}
use moonbit.Flow.Engine.{StepExecutor, call}
use moonbit.Flow.Clock.{now_ms, elapsed_ms}
use moonbit.Flow.Middleware.{Ref, update, try_from, left_after_first, timeout_as}

pub record PatternCircuitBreaker : Type 0 where
  pub failure_count : ℤ
  pub threshold : ℤ
  pub reset_ms : ℤ
  pub last_failure_ts : ℤ
  pub is_open : Bool

pub record PatternBulkhead : Type 0 where
  pub max_concurrent : ℤ
  pub active_count : ℤ

abbrev opening : PatternCircuitBreaker → PatternCircuitBreaker
opening b = if leb_ℤ b.threshold b.failure_count then record b { is_open = true } else b

unfoldable pub enter_bulkhead : PatternBulkhead → PatternBulkhead
unfolding ◌+ℤ◌
enter_bulkhead b = record b { active_count = wrap32 (b.active_count +ℤ pos 1) }

unfoldable pub leave_bulkhead : PatternBulkhead → PatternBulkhead
unfolding ◌-ℤ◌
leave_bulkhead b = record b { active_count = wrap32 (b.active_count -ℤ pos 1) }

module _ {W J : Type 0} where
  unfoldable pub pattern_retry_backoff : ℤ → ℤ → StepExecutor W J → StepExecutor W J
  unfolding try_from left_after_first should_retry
  pattern_retry_backoff base_ms max_attempts inner input w =
      try_from should_retry inner input (left_after_first max_attempts) w

  unfoldable pub pattern_timeout : (W → ℕ × W) → ℤ → StepExecutor W J → StepExecutor W J
  unfolding timeout_as
  pattern_timeout = timeout_as "pattern_timeout"

  unfoldable pub on_primary : StepExecutor W J → J → Result J × W → Async W (Result J) × W
  on_primary fallback input (ok output, w) = (pure (ok output), w)
  on_primary fallback input (err x, w) = fallback input w

  unfoldable pub pattern_fallback : StepExecutor W J → StepExecutor W J → StepExecutor W J
  unfolding on_primary call
  pattern_fallback primary fallback input w = on_primary fallback input (call primary input w)

  -- `PatternBulkhead::wrap`
  unfoldable pub enclose : Ref W PatternBulkhead → StepExecutor W J → StepExecutor W J
  unfolding call enter_bulkhead leave_bulkhead
  enclose self inner input w =
      let b = self.read w in
      if leb_ℤ b.max_concurrent b.active_count
      then (pure (err (storage_error "bulkhead limit reached")), w)
      else (let (result, w') = call inner input (self.write (enter_bulkhead b) w) in
          (pure result, self.write (leave_bulkhead (self.read w')) w'))

module _ {W J : Type 0} (clock : W → ℕ × W) (self : Ref W PatternCircuitBreaker) where
  unfoldable pub record_result : Result J × W → Async W (Result J) × W
  unfolding now_ms
  record_result (ok output, w) =
      (pure (ok output), update self (λ b. record b { failure_count = pos 0; is_open = false }) w)
  record_result (err x, w) =
      let (now, w') =
        now_ms clock
          (update self (λ b. record b { failure_count = wrap32 (b.failure_count +ℤ pos 1) }) w) in
      (pure (err x), update self opening (update self (λ b. record b { last_failure_ts = now }) w'))

  -- The probe of a breaker that is open.
  unfoldable pub probe : StepExecutor W J → J → ℤ → W → Async W (Result J) × W
  unfolding record_result call elapsed_ms
  probe inner input now w =
      let b = self.read w in
      if ltb_ℤ b.reset_ms (elapsed_ms b.last_failure_ts now)
      then record_result (call inner input (update self (λ c. record c { is_open = false }) w))
      else (pure (err (storage_error "circuit breaker open")), w)

  -- `PatternCircuitBreaker::wrap`
  unfoldable pub wrap : StepExecutor W J → StepExecutor W J
  unfolding probe record_result call now_ms
  wrap inner input w =
      if (self.read w).is_open
      then (let (now, w') = now_ms clock w in probe inner input now w')
      else record_result (call inner input w)

unfoldable pub new_breaker : ℤ → ℤ → PatternCircuitBreaker
new_breaker threshold reset = record {
  failure_count = pos 0;
  threshold = threshold;
  reset_ms = reset;
  last_failure_ts = pos 0;
  is_open = false;
}

unfoldable pub new_bulkhead : ℤ → PatternBulkhead
new_bulkhead max = record { max_concurrent = max; active_count = pos 0 }
