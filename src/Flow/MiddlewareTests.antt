-- ===== src/Flow/MiddlewareTests.antt =====
-- Wrapped handlers at concrete inputs. The world of a handler is a clock that ticks at every
-- reading.
use moonbit.Prelude.{ℕ, ◌+◌, ◌≡◌, refl, some, arith, [], ◌∷◌}
use moonbit.Prelude.Int.{pos, ◌-ℤ◌, wrap64}
use moonbit.Flow.Async.{pure, suspend}
use moonbit.Flow.Types.{step_failed, step_timeout, storage_error, ok, err}
use moonbit.Flow.Engine.{StepExecutor, call}
use moonbit.Flow.Middleware.{Ref, RefLaws, retry_middleware, timeout_middleware}
use moonbit.Flow.Category.{exponential_backoff, delay_for_attempt}
use moonbit.Flow.Category.Backoff.{delay_for_attempt-pow}
use moonbit.Flow.Middleware.Breaker as Breaker
use moonbit.Flow.Middleware.Breaker.{CircuitBreaker, opened, wrap}
use moonbit.Flow.Middleware.Breaker.History.{
  beside, clock_beside, handler_beside, breaker_of, streak, last_failure, tripped, tripped_by,
  serve, serve_if, lets_through, note_result, serve_all, call_all,
}
use moonbit.Flow.Middleware.Breaker.Refines.{wrap_lem, as_breaker_all}
use moonbit.Flow.Middleware.Attempts.{retry_until-retry_middleware}
use moonbit.Flow.Patterns as Patterns
use moonbit.Flow.Patterns.{PatternBulkhead, enclose, pattern_retry_backoff}
use moonbit.Flow.Patterns.Circuit.{forget, forgotten, wrap-forget}
use moonbit.Flow.Patterns.Bulkhead.{with_active, nest, nest_lem}
use moonbit.Flow.Patterns.Retrying.{timeout_middleware_lem}
use moonbit.Flow.Saga.{retry_until}

abbrev tick : ℕ → ℕ × ℕ
tick w = (w, w + 1)

abbrev refusing : StepExecutor ℕ ℕ
refusing input w = (pure (err (step_failed "a" "temporary")), w)

-- Works on one more than its input after a pause of 40 milliseconds.
abbrev slow : StepExecutor ℕ ℕ
slow input w = (suspend (λ w'. w' + 40) (λ w'. pure (ok (input + 1))), w)

-- Two failures open the breaker; the third call is refused without a call of the handler.
wrap_lem_example :
    call_all
      (wrap (clock_beside tick) beside (handler_beside refusing))
      (0 ∷ 0 ∷ 0 ∷ [])
      (Breaker.new (pos 2) (pos 50), 10)
    ≡ (
      err (step_failed "a" "temporary")
          ∷ err (step_failed "a" "temporary")
          ∷ err (storage_error "circuit breaker open")
          ∷ [],
      (
        record {
          failure_count = pos 2;
          failure_threshold = pos 2;
          reset_timeout_ms = pos 50;
          last_failure_time = pos 11;
          state = opened;
        },
        13,
      ),
    )
unfolding as_breaker_all serve_all serve serve_if lets_through note_result breaker_of streak tripped
    tripped_by last_failure call wrap64 ◌-ℤ◌
wrap_lem_example = wrap_lem tick refusing (pos 2) (pos 50) (0 ∷ 0 ∷ 0 ∷ []) 10 (omega arith)

abbrev tripped_breaker : CircuitBreaker
tripped_breaker = record {
  failure_count = pos 2;
  failure_threshold = pos 2;
  reset_timeout_ms = pos 50;
  last_failure_time = pos 11;
  state = opened;
}

wrap-forget_example :
    call
      (Patterns.wrap (clock_beside tick) beside (handler_beside slow))
      7
      (forget tripped_breaker, 80)
    ≡ forgotten tick slow (
        call
          (Breaker.wrap (clock_beside tick) beside (handler_beside slow))
          7
          (tripped_breaker, 80))
wrap-forget_example = wrap-forget tick slow tripped_breaker 7 80

-- A world that is a bulkhead and nothing else.
abbrev whole : Ref PatternBulkhead PatternBulkhead
whole = record { read = λ b. b; write = λ b w. b }

abbrev whole_laws : RefLaws whole
whole_laws = record {
  read-write = λ a w. refl;
  write-read = λ w. refl;
  write-write = λ a b w. refl;
}

abbrev leaf : StepExecutor PatternBulkhead ℕ
leaf input w = (pure (ok (input + 1)), w)

nest_lem_example :
    (call (nest whole whole_laws 2 leaf) 7 (with_active 3 1) ≡ (ok 8, with_active 3 1))
unfolding call
nest_lem_example =
    nest_lem whole whole_laws leaf 3 2 1 7 (with_active 3 1) (λ i w. refl) refl (omega arith)
      (omega arith)

retry_until-retry_middleware_example :
    retry_until 4 (pos 2) refusing 7 10
    ≡ some (call (retry_middleware (pos 3) (pos 100) refusing) 7 10)
retry_until-retry_middleware_example =
    retry_until-retry_middleware refusing 7 2 4 (pos 100) 10 (omega arith) (omega arith)

timeout_middleware_lem_example :
    call (timeout_middleware tick (pos 20) slow) 7 100
    ≡ (err (step_timeout "middleware" (pos 20)), 142)
unfolding call
timeout_middleware_lem_example =
    timeout_middleware_lem tick slow 7 20 100 101 141 142 (ok 8) 100 141 refl refl refl
      (omega arith) (omega arith) (omega arith)

delay_for_attempt-pow_example :
    delay_for_attempt (exponential_backoff (pos 100) (pos 2)) (pos 4) ≡ pos 800
delay_for_attempt-pow_example =
    delay_for_attempt-pow 100 2 3 (omega arith) (omega arith) (omega arith) (omega arith)
