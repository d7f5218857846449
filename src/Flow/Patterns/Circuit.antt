-- ===== src/Flow/Patterns/Circuit.antt =====
-- The circuit breaker of the patterns (moonflow/pattern_lib.mbt) and that of the middleware
-- (core_middleware.mbt) do the same. The handler and the clock have a world of their own.
use moonbit.Prelude.{ℕ, ◌≡◌, refl, Bool, true, false, arith, inl, inr, Bool-cases}
use moonbit.Prelude.Int.{ℤ, ltb_ℤ}
use moonbit.Flow.Async.{run}
use moonbit.Flow.Types.{Result, ok, err}
use moonbit.Flow.Engine.{StepExecutor, call}
use moonbit.Flow.Clock.{now_ms, elapsed_ms}
use moonbit.Flow.Middleware.Breaker as Breaker
use moonbit.Flow.Middleware.Breaker.{
  CircuitState, closed, opened, half_open, CircuitBreaker, on_ok, count_failure, note_time, trip,
  after_reset, admit, on_admitted,
}
use moonbit.Flow.Middleware.Breaker.History.{
  beside, clock_beside, handler_beside, call-handler_beside,
}
use moonbit.Flow.Patterns as Patterns
use moonbit.Flow.Patterns.{PatternCircuitBreaker, probe}

abbrev pub is_opened : CircuitState → Bool
is_opened opened = true
is_opened closed = false
is_opened half_open = false

-- Half open is not open.
abbrev pub forget : CircuitBreaker → PatternCircuitBreaker
forget b = record {
  failure_count = b.failure_count;
  threshold = b.failure_threshold;
  reset_ms = b.reset_timeout_ms;
  last_failure_ts = b.last_failure_time;
  is_open = is_opened b.state;
}

abbrev at_state : ℤ → ℤ → ℤ → ℤ → CircuitState → CircuitBreaker
at_state n threshold reset last st = record {
  failure_count = n;
  failure_threshold = threshold;
  reset_timeout_ms = reset;
  last_failure_time = last;
  state = st;
}

module _ {V J : Type 0} (clock : V → ℕ × V) (inner : StepExecutor V J) where
  abbrev pub forgotten : Result J × (CircuitBreaker × V) → Result J × (PatternCircuitBreaker × V)
  forgotten (r, s) = (r, (forget s.0, s.1))

  record_result-forget :
      (b : CircuitBreaker) (rv : Result J × V)
      → (let (m, w) = Patterns.record_result (clock_beside clock) beside (rv.0, (forget b, rv.1)) in
          run m w)
        ≡ forgotten (
            let (m, w) = Breaker.record_result (clock_beside clock) beside (rv.0, (b, rv.1)) in
            run m w)
  unfolding Patterns.record_result Breaker.record_result run on_ok count_failure note_time trip
      now_ms
  record_result-forget b (ok o, v) = refl
  record_result-forget b (err x, v) = ground arith

  step :
      (n threshold reset last : ℤ) (st : CircuitState) (input : J) (v : V)
      → (let b = at_state n threshold reset last st in
          call
            (Patterns.wrap (clock_beside clock) beside (handler_beside inner))
            input
            (forget b, v)
          ≡ forgotten
              (call (Breaker.wrap (clock_beside clock) beside (handler_beside inner)) input (b, v)))
  unfolding call Patterns.wrap Breaker.wrap admit on_admitted probe after_reset now_ms run
  step n threshold reset last closed input v =
      rw (call-handler_beside, call-handler_beside)
        (record_result-forget (at_state n threshold reset last closed) (call inner input v))
  step n threshold reset last half_open input v =
      rw (call-handler_beside, call-handler_beside)
        (record_result-forget (at_state n threshold reset last half_open) (call inner input v))
  step n threshold reset last opened input v =
      elim (Bool-cases (ltb_ℤ reset (elapsed_ms last (now_ms clock v).0))) [
        | inl t ↦
            rw (t, call-handler_beside, call-handler_beside)
              (record_result-forget (at_state n threshold reset last half_open)
                (call inner input (now_ms clock v).1))
        | inr f ↦ rw f refl
      ]

  -- A call through the breaker of the patterns gives what a call through that of the middleware
  -- gives, and leaves its breaker in the state that the other one is left in, half open being not
  -- open.
  pub wrap-forget :
      (b : CircuitBreaker) (input : J) (v : V)
      → call (Patterns.wrap (clock_beside clock) beside (handler_beside inner)) input (forget b, v)
        ≡ forgotten
            (call (Breaker.wrap (clock_beside clock) beside (handler_beside inner)) input (b, v))
  wrap-forget b input v =
      step b.failure_count b.failure_threshold b.reset_timeout_ms b.last_failure_time b.state input
        v
