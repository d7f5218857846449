-- ===== src/Flow/Middleware/Breaker/Refines.antt =====
-- The circuit breaker does what the history of its calls says.
use moonbit.Prelude.{
  ℕ, suc, ◌+◌, ◌≤◌, ◌<◌, ◌≡◌, refl, ap, ◌∙◌, Bool, true, false, List, [], ◌∷◌, arith, length, inl,
  inr, Bool-cases,
}
use moonbit.Prelude.Int.{ℤ, pos, ltb_ℤ, leb_ℤ}
use moonbit.Flow.Async.{run}
use moonbit.Flow.Types.{Result, ok, err}
use moonbit.Flow.Engine.{StepExecutor, call}
use moonbit.Flow.Clock.{now_ms, elapsed_ms}
use moonbit.Flow.Middleware.Breaker.{
  CircuitState, closed, opened, half_open, CircuitBreaker, new, after_reset, admit, record_result,
  on_admitted, wrap,
}
use moonbit.Flow.Middleware.Breaker.History.{
  Outcome, streak, last_failure, tripped_by, tripped, beside, clock_beside, handler_beside,
  call-handler_beside, breaker_of, note_result, serve_if, lets_through, serve, serve_all, call_all,
}
use moonbit.Flow.Middleware.Breaker.Writes.{after_failure, after_success, state_of, is_closed}

module _ {V J : Type 0} (clock : V → ℕ × V) (inner : StepExecutor V J) (threshold reset : ℤ) where
  -- The history that a call leaves, as the breaker that it leaves.
  pub as_breaker : Result J × (List Outcome × V) → Result J × (CircuitBreaker × V)
  unfolding breaker_of
  as_breaker (r, hv) = (r, (breaker_of threshold reset hv.0, hv.1))

  record_result_lem :
      (h : List Outcome) (st : CircuitState) (rv : Result J × V)
      → streak h < 2147483647
      → (leb_ℤ threshold (pos (suc (streak h))) ≡ false → st ≡ closed)
      → (let (m, w) =
            record_result
              (clock_beside clock)
              beside
              (rv.0, (record (breaker_of threshold reset h) { state = st }, rv.1)) in
          run m w)
        ≡ as_breaker (note_result clock inner threshold reset h rv)
  unfolding record_result run as_breaker note_result now_ms
  record_result_lem h st (ok o, v) bound stays = rw (after_success threshold reset h st) refl
  record_result_lem h st (err x, v) bound stays =
      rw (after_failure threshold reset h st (now_ms clock v).0 bound stays) refl

  -- A call that is let through with the breaker in some state.
  through :
      (h : List Outcome) (st : CircuitState) (input : J) (v : V)
      → streak h < 2147483647
      → (leb_ℤ threshold (pos (suc (streak h))) ≡ false → st ≡ closed)
      → (let (m, w) =
            on_admitted
              (clock_beside clock)
              beside
              (handler_beside inner)
              input
              (true, (record (breaker_of threshold reset h) { state = st }, v)) in
          run m w)
        ≡ as_breaker (serve_if clock inner threshold reset h input (true, v))
  unfolding on_admitted serve_if
  through h st input v bound stays =
      rw call-handler_beside (record_result_lem h st (call inner input v) bound stays)

  reaches :
      (h : List Outcome)
      → tripped threshold h ≡ true
      → leb_ℤ threshold (pos (suc (streak h))) ≡ false
      → half_open ≡ closed
  unfolding tripped tripped_by
  reaches h t f = ground (arith, f)

  refuses :
      (h : List Outcome) (input : J) (v : V)
      → (let (m, w) =
            on_admitted
              (clock_beside clock)
              beside
              (handler_beside inner)
              input
              (false, (breaker_of threshold reset h, v)) in
          run m w)
        ≡ as_breaker (serve_if clock inner threshold reset h input (false, v))
  unfolding on_admitted serve_if as_breaker run breaker_of streak tripped last_failure
  refuses h input v = refl

  -- One call, by what the history says of it.
  opened_call :
      (h : List Outcome) (input : J) (v : V) (go : Bool)
      → streak h < 2147483647
      → tripped threshold h ≡ true
      → ltb_ℤ reset (elapsed_ms (last_failure h) (now_ms clock v).0) ≡ go
      → (let (m, w) =
            on_admitted
              (clock_beside clock)
              beside
              (handler_beside inner)
              input
              (admit (clock_beside clock) beside opened (breaker_of threshold reset h, v)) in
          run m w)
        ≡ as_breaker (serve_if clock inner threshold reset h input (go, (now_ms clock v).1))
  unfolding admit after_reset breaker_of now_ms
  opened_call h input v true bound t go =
      rw go (through h half_open input (clock v).1 bound (reaches h t))
  opened_call h input v false bound t go = rw go (refuses h input (clock v).1)

  closed_call :
      (h : List Outcome) (input : J) (v : V)
      → streak h < 2147483647
      → tripped threshold h ≡ false
      → (let (m, w) =
            on_admitted
              (clock_beside clock)
              beside
              (handler_beside inner)
              input
              (admit (clock_beside clock) beside closed (breaker_of threshold reset h, v)) in
          run m w)
        ≡ as_breaker (serve_if clock inner threshold reset h input (true, v))
  unfolding admit
  closed_call h input v bound f =
      rw (is_closed threshold reset h f) (through h closed input v bound (λ _. refl))

  abbrev from_state : List Outcome → J → V → CircuitState → Result J × (CircuitBreaker × V)
  from_state h input v st =
      let (m, w) =
        on_admitted (clock_beside clock) beside (handler_beside inner) input
          (admit (clock_beside clock) beside st (breaker_of threshold reset h, v)) in
      run m w

  pub wrap-serve :
      (h : List Outcome) (input : J) (v : V)
      → streak h < 2147483647
      → call
          (wrap (clock_beside clock) beside (handler_beside inner))
          input
          (breaker_of threshold reset h, v)
        ≡ as_breaker (serve clock inner threshold reset h input v)
  unfolding call wrap serve lets_through
  wrap-serve h input v bound = elim (Bool-cases (tripped threshold h)) [
    | inl t ↦
        ap (from_state h input v) (state_of threshold reset h true t)
        ∙ rw t (opened_call h input v _ bound t refl)
    | inr f ↦
        ap (from_state h input v) (state_of threshold reset h false f)
        ∙ rw f (closed_call h input v bound f)
  ]

  unfoldable pub as_breaker_all :
      List (Result J) × (List Outcome × V) → List (Result J) × (CircuitBreaker × V)
  unfolding breaker_of
  as_breaker_all (rs, hv) = (rs, (breaker_of threshold reset hv.0, hv.1))

  streak-note_result :
      (h : List Outcome) (rv : Result J × V)
      → streak (note_result clock inner threshold reset h rv).1.0 ≤ suc (streak h)
  unfolding streak note_result
  streak-note_result h (ok o, v) = omega arith
  streak-note_result h (err x, v) = omega arith

  streak-serve_if :
      (h : List Outcome) (input : J) (gv : Bool × V)
      → streak (serve_if clock inner threshold reset h input gv).1.0 ≤ suc (streak h)
  unfolding streak serve_if
  streak-serve_if h input (true, v) = streak-note_result h (call inner input v)
  streak-serve_if h input (false, v) = omega arith

  streak-serve :
      (h : List Outcome) (input : J) (v : V)
      → streak (serve clock inner threshold reset h input v).1.0 ≤ suc (streak h)
  unfolding serve
  streak-serve h input v =
      streak-serve_if h input (lets_through clock inner threshold reset h (tripped threshold h) v)

  -- Any number of calls, one after the other, of a breaker with a history.
  call_all-serve_all :
      (h : List Outcome) (inputs : List J) (v : V)
      → streak h + length inputs ≤ 2147483647
      → call_all
          (wrap (clock_beside clock) beside (handler_beside inner))
          inputs
          (breaker_of threshold reset h, v)
        ≡ as_breaker_all (serve_all clock inner threshold reset h inputs v)
  unfolding call_all serve_all as_breaker_all as_breaker
  call_all-serve_all h [] v bound = refl
  call_all-serve_all h (input ∷ inputs) v bound =
      let (r, hv) = serve clock inner threshold reset h input v in
      rw
        (
          wrap-serve h input v (omega arith),
          call_all-serve_all hv.0 inputs hv.1 (omega (arith, streak-serve h input v)),
        )
        refl

  -- Where the handler leaves the breaker alone and a new breaker is called up to 2147483647 times, so
  -- that its count does not wrap, each call gives what the history
  -- of the calls before says, and the breaker is the one of the history: it is opened exactly if the
  -- failures since the last success reach the threshold, of which there must be one at least; while
  -- it is opened and the time has not passed since the last failure a call is refused without running
  -- the handler, and otherwise the handler is run.
  pub wrap_lem :
      (inputs : List J) (v : V)
      → length inputs ≤ 2147483647
      → call_all
          (wrap (clock_beside clock) beside (handler_beside inner))
          inputs
          (new threshold reset, v)
        ≡ as_breaker_all (serve_all clock inner threshold reset [] inputs v)
  unfolding new breaker_of streak tripped tripped_by last_failure
  wrap_lem inputs v bound = call_all-serve_all [] inputs v (omega arith)
