-- ===== src/Flow/Middleware/Breaker.antt =====
-- The circuit breaker (`CircuitBreaker` of moonflow/core_middleware.mbt). `Open` is a word of the
-- language: the state is `opened` here.
pub mod History
pub mod Writes
pub mod Refines
use moonbit.Prelude.{ℕ, ◌≡◌, refl, Bool, true, false, if◌then◌else◌}
use moonbit.Prelude.Int.{ℤ, pos, ◌+ℤ◌, ltb_ℤ, leb_ℤ, wrap32}
use moonbit.Flow.Async.{Async, pure}
use moonbit.Flow.Types.{WorkflowError, storage_error, Result, ok, err}
use moonbit.Flow.Engine.{StepExecutor, call}
use moonbit.Flow.Clock.{now_ms, elapsed_ms}
use moonbit.Flow.Middleware.{Ref, update}

pub data CircuitState : Type 0 where
  closed opened half_open : CircuitState

pub record CircuitBreaker : Type 0 where
  pub failure_count : ℤ
  pub failure_threshold : ℤ
  pub reset_timeout_ms : ℤ
  pub last_failure_time : ℤ
  pub state : CircuitState

unfoldable pub new : ℤ → ℤ → CircuitBreaker
new threshold reset = record {
  failure_count = pos 0;
  failure_threshold = threshold;
  reset_timeout_ms = reset;
  last_failure_time = pos 0;
  state = closed;
}

-- What the branches of `wrap` write.
unfoldable pub on_ok : CircuitBreaker → CircuitBreaker
on_ok b = record b { failure_count = pos 0; state = closed }

unfoldable pub count_failure : CircuitBreaker → CircuitBreaker
count_failure b = record b { failure_count = wrap32 (b.failure_count +ℤ pos 1) }

unfoldable pub note_time : ℤ → CircuitBreaker → CircuitBreaker
note_time now b = record b { last_failure_time = now }

unfoldable pub trip : CircuitBreaker → CircuitBreaker
trip b = if leb_ℤ b.failure_threshold b.failure_count then record b { state = opened } else b

abbrev pub refusal : {W J : Type 0} → Async W (Result J)
refusal = pure (err (storage_error "circuit breaker open"))

module _ {W : Type 0} (clock : W → ℕ × W) (self : Ref W CircuitBreaker) where
  -- Whether the call goes on.
  unfoldable pub after_reset : ℤ → W → Bool × W
  unfolding elapsed_ms
  after_reset now w =
      let b = self.read w in
      if ltb_ℤ b.reset_timeout_ms (elapsed_ms b.last_failure_time now)
      then (true, update self (λ c. record c { state = half_open }) w)
      else (false, w)

  unfoldable pub admit : CircuitState → W → Bool × W
  unfolding after_reset now_ms
  admit opened w = let (now, w') = now_ms clock w in after_reset now w'
  admit closed w = (true, w)
  admit half_open w = (true, w)

module _ {W J : Type 0} (clock : W → ℕ × W) (self : Ref W CircuitBreaker) where
  unfoldable pub record_result : Result J × W → Async W (Result J) × W
  unfolding on_ok count_failure note_time trip now_ms
  record_result (ok output, w) = (pure (ok output), update self on_ok w)
  record_result (err x, w) =
      let (now, w') = now_ms clock (update self count_failure w) in
      (pure (err x), update self trip (update self (note_time now) w'))

  unfoldable pub on_admitted : StepExecutor W J → J → Bool × W → Async W (Result J) × W
  unfolding record_result call
  on_admitted inner input (true, w) = record_result (call inner input w)
  on_admitted inner input (false, w) = (refusal, w)

  unfoldable pub wrap : StepExecutor W J → StepExecutor W J
  unfolding admit on_admitted
  wrap inner input w = on_admitted inner input (admit clock self (self.read w).state w)
