-- ===== src/Flow/Middleware/Breaker/History.antt =====
-- The circuit breaker against the history of its calls: a description that knows only what came of
-- the calls so far. The handler and the clock have a world of their own beside the breaker, so that
-- they do not reach it.
use moonbit.Prelude.{ℕ, zero, suc, ◌≡◌, refl, Bool, true, false, List, [], ◌∷◌, if◌then◌else◌}
use moonbit.Prelude.Int.{ℤ, pos, ltb_ℤ, leb_ℤ}
use moonbit.Flow.Async.{Async, pure, suspend, run}
use moonbit.Flow.Types.{storage_error, Result, ok, err}
use moonbit.Flow.Engine.{StepExecutor, call}
use moonbit.Flow.Clock.{now_ms, elapsed_ms}
use moonbit.Flow.Middleware.{Ref}
use moonbit.Flow.Middleware.Breaker.{closed, opened, CircuitBreaker}

-- What came of a call: it was refused, or the handler succeeded, or failed at a time.
pub data Outcome : Type 0 where
  refused succeeded : Outcome
  failed_at : ℤ → Outcome

-- Failures since the last success, of a history with the latest outcome first.
unfoldable pub streak : List Outcome → ℕ
streak [] = 0
streak (refused ∷ h) = streak h
streak (succeeded ∷ h) = 0
streak (failed_at t ∷ h) = suc (streak h)

unfoldable pub last_failure : List Outcome → ℤ
last_failure [] = pos 0
last_failure (failed_at t ∷ h) = t
last_failure (refused ∷ h) = last_failure h
last_failure (succeeded ∷ h) = last_failure h

-- Enough failures in a row, and one at least.
unfoldable pub tripped_by : ℤ → ℕ → Bool
tripped_by threshold zero = false
tripped_by threshold (suc n) = leb_ℤ threshold (pos (suc n))

unfoldable pub tripped : ℤ → List Outcome → Bool
unfolding tripped_by streak
tripped threshold h = tripped_by threshold (streak h)

-- A struct beside a world.
abbrev pub beside : {A V : Type 0} → Ref (A × V) A
beside = record { read = λ s. s.0; write = λ a s. (a, s.1) }

abbrev pub clock_beside : {A V : Type 0} → (V → ℕ × V) → A × V → ℕ × (A × V)
clock_beside clock s = let (t, v) = clock s.1 in (t, (s.0, v))

module _ {A V J : Type 0} where
  unfoldable pub async_beside : Async V (Result J) → Async (A × V) (Result J)
  async_beside (pure r) = pure r
  async_beside (suspend e s) = suspend (λ w. (w.0, e w.1)) (λ w. async_beside (s w.1))

  unfoldable pub handler_beside : StepExecutor V J → StepExecutor (A × V) J
  unfolding async_beside
  handler_beside inner input w = let (a, v) = inner input w.1 in (async_beside a, (w.0, v))

  run-async_beside :
      (m : Async V (Result J)) (a : A) (v : V)
      → run (async_beside m) (a, v) ≡ (let (r, v') = run m v in (r, (a, v')))
  unfolding run async_beside
  run-async_beside (pure r) a v = refl
  run-async_beside (suspend e s) a v = run-async_beside (s v) a (e v)

  pub call-handler_beside :
      (inner : StepExecutor V J) (input : J) (a : A) (v : V)
      → call (handler_beside inner) input (a, v)
        ≡ (let (r, v') = call inner input v in (r, (a, v')))
  unfolding call handler_beside
  call-handler_beside inner input a v = let (m, v') = inner input v in run-async_beside m a v'

-- The breaker of a history.
unfoldable pub breaker_of : ℤ → ℤ → List Outcome → CircuitBreaker
unfolding streak last_failure tripped
breaker_of threshold reset h = record {
  failure_count = pos (streak h);
  failure_threshold = threshold;
  reset_timeout_ms = reset;
  last_failure_time = last_failure h;
  state = if tripped threshold h then opened else closed;
}

module _ {V J : Type 0} (clock : V → ℕ × V) (inner : StepExecutor V J) (threshold reset : ℤ) where
  unfoldable pub note_result : List Outcome → Result J × V → Result J × (List Outcome × V)
  unfolding now_ms
  note_result h (ok o, v) = (ok o, (succeeded ∷ h, v))
  note_result h (err x, v) = let (now, v') = now_ms clock v in (err x, (failed_at now ∷ h, v'))

  -- A call that the history lets through, or refuses.
  unfoldable pub serve_if : List Outcome → J → Bool × V → Result J × (List Outcome × V)
  unfolding note_result call
  serve_if h input (true, v) = note_result h (call inner input v)
  serve_if h input (false, v) = (err (storage_error "circuit breaker open"), (refused ∷ h, v))

  -- A history that has tripped refuses calls until the time has passed since the last failure.
  unfoldable pub lets_through : List Outcome → Bool → V → Bool × V
  unfolding last_failure now_ms elapsed_ms
  lets_through h true v =
      let (now, v') = now_ms clock v in (ltb_ℤ reset (elapsed_ms (last_failure h) now), v')
  lets_through h false v = (true, v)

  unfoldable pub serve : List Outcome → J → V → Result J × (List Outcome × V)
  unfolding serve_if lets_through tripped
  serve h input v = serve_if h input (lets_through h (tripped threshold h) v)

  unfoldable pub serve_all : List Outcome → List J → V → List (Result J) × (List Outcome × V)
  unfolding serve
  serve_all h [] v = ([], (h, v))
  serve_all h (input ∷ inputs) v =
      let (r, hv) = serve h input v in let (rs, end) = serve_all hv.0 inputs hv.1 in (r ∷ rs, end)

unfoldable pub call_all : {W J : Type 0} → StepExecutor W J → List J → W → List (Result J) × W
unfolding call
call_all handler [] w = ([], w)
call_all handler (input ∷ inputs) w =
    let (r, w') = call handler input w in
    let (rs, end) = call_all handler inputs w' in (r ∷ rs, end)
