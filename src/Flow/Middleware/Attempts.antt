-- ===== src/Flow/Middleware/Attempts.antt =====
-- What repeating a call comes to (`retry_middleware` of moonflow/core_middleware.mbt, and
-- `retry_until` of core_saga.mbt), and what logging and chaining leave alone.
use moonbit.Prelude.{
  ℕ, zero, suc, ◌+◌, ◌<◌, ◌≤◌, ◌≡◌, refl, ap, ◌∙◌, ◌⊎◌, inl, inr, Bool, true, false, Option, none,
  some, arith, Bool-cases, if◌then◌else◌,
}
use moonbit.Prelude.Int.{ℤ, pos, ◌-ℤ◌}
use moonbit.Flow.Async.{Async, pure, suspend, run}
use moonbit.Flow.Types.{WorkflowError, Result, ok, err}
use moonbit.Flow.Engine.{StepExecutor, call}
use moonbit.Flow.Middleware.{
  logging_middleware_continue, relay, logging_middleware, on_tried, try_from, left_after_first,
  retry_middleware,
}
use moonbit.Flow.Saga.{retry_until}
use moonbit.Flow.Saga.Retry.{unless_ok, up_to, retry_until-up_to}

-- An error after which there is no other attempt, or a success.
abbrev pub Settled : {J : Type 0} → (WorkflowError → Bool) → Result J → Type 0
Settled retryable (ok output) = Unit
Settled retryable (err x) = retryable x ≡ false

module _ {W J : Type 0} (retryable : WorkflowError → Bool) (inner : StepExecutor W J)
    (input : J) where
  fails_then : (W → Option W) → Result J × W → Option W
  fails_then rest (ok output, w) = none
  fails_then rest (err x, w) = if retryable x then rest w else none

  -- The world after so many calls in a row that fail with errors to be retried, if they do.
  pub failing : ℕ → W → Option W
  unfolding fails_then call
  failing zero w = some w
  failing (suc k) w = fails_then (failing k) (call inner input w)

  -- The run of a number of attempts, of which so many are left after the first: some number of calls
  -- fail, and the next call gives the result. It is the last one, or ends the attempts by itself.
  pub record Attempted (left : ℕ) (w : W) (answer : Result J × W) : Type 0 where
    pub failures : ℕ
    pub reached : W
    pub few : failures ≤ left
    pub all_failed : failing failures w ≡ some reached
    pub answered : call inner input reached ≡ answer
    pub is_last : (failures ≡ left) ⊎ Settled retryable answer.0

  unfoldable pub run_tried : Async W (Result J) × W → Result J × W
  unfolding run
  run_tried (m, w) = run m w

  one_more :
      (left : ℕ) (w : W) (x : WorkflowError) (w' : W)
      → call inner input w ≡ (err x, w')
      → retryable x ≡ true
      → {answer : Result J × W} → Attempted left w' answer
      → Attempted (suc left) w answer
  unfolding failing fails_then
  one_more left w x w' e t a = record {
    failures = suc a.failures;
    reached = a.reached;
    few = omega (arith, a.few);
    all_failed = rw (e, t) a.all_failed;
    answered = a.answered;
    is_last = ground (arith, a.is_last);
  }

  attempt_again :
      (left : ℕ) (w : W) (rw' : Result J × W)
      → call inner input w ≡ rw'
      → ((w' : W) → Attempted left w' (run_tried (try_from retryable inner input left w')))
      → Attempted
          (suc left)
          w
          (run_tried (on_tried (try_from retryable inner input left) retryable rw'))
  unfolding on_tried run_tried run failing
  attempt_again left w (ok output, w') e ih = record {
    failures = 0;
    reached = w;
    few = omega arith;
    all_failed = refl;
    answered = e;
    is_last = inr tt;
  }
  attempt_again left w (err x, w') e ih = elim (Bool-cases (retryable x)) [
    | inl t ↦ rw t (one_more left w x w' e t (ih w'))
    | inr f ↦ rw f record {
      failures = 0;
      reached = w;
      few = omega arith;
      all_failed = refl;
      answered = e;
      is_last = inr f;
    }
  ]

  pub try_from-Attempted :
      (left : ℕ) (w : W) → Attempted left w (run_tried (try_from retryable inner input left w))
  unfolding try_from run_tried run failing
  try_from-Attempted zero w = record {
    failures = 0;
    reached = w;
    few = omega arith;
    all_failed = refl;
    answered = refl;
    is_last = inl refl;
  }
  try_from-Attempted (suc left) w =
      attempt_again left w (call inner input w) refl (try_from-Attempted left)

left_after-suc : (n : ℕ) → n ≡ left_after_first (pos (suc n))
unfolding left_after_first ◌-ℤ◌
left_after-suc n = ground arith

module _ {W J : Type 0} (inner : StepExecutor W J) (input : J) where
  unless_ok-on_tried :
      (again : W → Result J × W) (again' : W → Async W (Result J) × W) (rw' : Result J × W)
      → ((w : W) → again w ≡ run_tried (λ _. true) inner input (again' w))
      → unless_ok again rw' ≡ run_tried (λ _. true) inner input (on_tried again' (λ _. true) rw')
  unfolding unless_ok on_tried run_tried run
  unless_ok-on_tried again again' (ok output, w) h = refl
  unless_ok-on_tried again again' (err x, w) h = h w

  up_to-try_from :
      (left : ℕ) (w : W)
      → up_to left inner input w
        ≡ run_tried (λ _. true) inner input (try_from (λ _. true) inner input left w)
  unfolding up_to try_from run_tried run
  up_to-try_from zero w = refl
  up_to-try_from (suc left) w =
      unless_ok-on_tried (up_to left inner input) (try_from (λ _. true) inner input left)
        (call inner input w) (up_to-try_from left)

  -- A saga that retries a step up to `n` times, from 0 to 2147483646, does what the middleware does
  -- with `n + 1` attempts; `n + 2` rounds of fuel are enough for it.
  pub retry_until-retry_middleware :
      (n fuel : ℕ) (delay_ms : ℤ) (w : W)
      → n < 2147483647
      → n + 2 ≤ fuel
      → retry_until fuel (pos n) inner input w
        ≡ some (call (retry_middleware (pos (suc n)) delay_ms inner) input w)
  unfolding retry_middleware call run_tried
  retry_until-retry_middleware n fuel delay_ms w small enough =
      retry_until-up_to inner input n fuel w small enough
      ∙ ap some (
          up_to-try_from n w
          ∙ ap (λ left. run_tried (λ _. true) inner input (try_from (λ _. true) inner input left w))
              (left_after-suc n))

  relay-id : (m : Async W (Result J)) → relay m ≡ m
  unfolding relay logging_middleware_continue
  relay-id (pure (ok o)) = refl
  relay-id (pure (err x)) = refl
  relay-id (suspend e s) = refl

  -- A handler that is wrapped for logging returns, suspends and does to the world what it does
  -- without.
  pub logging_middleware_transparent : (w : W) → logging_middleware inner input w ≡ inner input w
  unfolding logging_middleware
  logging_middleware_transparent w = let (m, w') = inner input w in ap (λ a. (a, w')) (relay-id m)
