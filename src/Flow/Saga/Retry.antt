-- ===== src/Flow/Saga/Retry.antt =====
-- Sagas whose steps are repeated (`retry_until` and `execute_with_retry` of moonflow/core_saga.mbt).
use moonbit.Prelude.{
  String, ℕ, zero, suc, ◌+◌, ◌≤◌, ◌<◌, ◌≡◌, refl, ◌∙◌, true, false, Option, none, some, List, [],
  ◌∷◌, ◌++◌, arith,
}
use moonbit.Prelude.Int.{ℤ, pos, leb_ℤ, ◌+ℤ◌, wrap32}
use moonbit.Flow.Types.{WorkflowError, Result, ok, err}
use moonbit.Flow.Engine.{StepExecutor, call}
use moonbit.Flow.Engine.Retries.{IsErr, AlwaysFails}
use moonbit.Flow.Saga.{
  SagaStep, executed, retry_from, retry_until, on_attempt, last_result, report_only,
  execute_with_retry,
}
use moonbit.Flow.Saga.Rollback.{all_forward, both_ends, latest_first, Undone}

-- What follows a call that may be repeated.
unfoldable pub unless_ok : {W J : Type 0} → (W → Result J × W) → Result J × W → Result J × W
unless_ok again (ok output, w) = (ok output, w)
unless_ok again (err x, w) = again w

-- A call that is repeated up to so many times, until it succeeds.
unfoldable pub up_to : {W J : Type 0} → ℕ → StepExecutor W J → J → W → Result J × W
unfolding unless_ok
up_to zero handler input w = call handler input w
up_to (suc n) handler input w = unless_ok (up_to n handler input) (call handler input w)

next_attempt : (a : ℕ) → a < 2147483647 → wrap32 (pos a +ℤ pos 1) ≡ pos (a + 1)
unfolding wrap32 ◌+ℤ◌
next_attempt a h = ground arith

wrap32-at_most : (x : ℤ) → leb_ℤ (wrap32 x) (pos 2147483647) ≡ true
unfolding wrap32
wrap32-at_most x = ground arith

module _ {W J : Type 0} (handler : StepExecutor W J) (input : J) where
  on_attempt-unless_ok :
      (again : Option (Result J) → W → Option (Result J × W)) (again' : W → Result J × W)
      (r : Result J × W)
      → ((x : WorkflowError) (w : W) → again (some (err x)) w ≡ some (again' w))
      → on_attempt again r ≡ some (unless_ok again' r)
  unfolding on_attempt unless_ok
  on_attempt-unless_ok again again' (ok output, w) h = refl
  on_attempt-unless_ok again again' (err x, w) h = h x w

  on_attempt-last :
      (again : Option (Result J) → W → Option (Result J × W)) (r : Result J × W)
      → ((x : WorkflowError) (w : W) → again (some (err x)) w ≡ some (err x, w))
      → on_attempt again r ≡ some r
  unfolding on_attempt
  on_attempt-last again (ok output, w) h = refl
  on_attempt-last again (err x, w) h = h x w

  -- The test and the step of the loop, where the counter does not wrap.
  retry_from-more :
      (fuel m a : ℕ) (last : Option (Result J)) (w : W)
      → a ≤ m
      → m < 2147483647
      → retry_from (suc fuel) (pos m) handler input (pos a) last w
        ≡ on_attempt (retry_from fuel (pos m) handler input (pos (a + 1))) (call handler input w)
  unfolding retry_from
  retry_from-more fuel m a last w h small =
      let more : leb_ℤ (pos a) (pos m) ≡ true = ground (arith, h) in
      rw (more, next_attempt a (omega (arith, h, small))) refl

  retry_from-stop :
      (fuel m a : ℕ) (x : WorkflowError) (w : W)
      → m < a
      → retry_from (suc fuel) (pos m) handler input (pos a) (some (err x)) w ≡ some (err x, w)
  unfolding retry_from last_result
  retry_from-stop fuel m a x w h =
      let stop : leb_ℤ (pos a) (pos m) ≡ false = ground (arith, h) in rw stop refl

  retry_from-up_to :
      (left fuel m a : ℕ) (last : Option (Result J)) (w : W)
      → m ≡ a + left
      → m < 2147483647
      → left + 2 ≤ fuel
      → retry_from fuel (pos m) handler input (pos a) last w ≡ some (up_to left handler input w)
  unfolding up_to
  retry_from-up_to zero zero m a last w split small enough = absurd (omega (arith, enough))
  retry_from-up_to zero (suc zero) m a last w split small enough = absurd (omega (arith, enough))
  retry_from-up_to zero (suc (suc fuel)) m a last w split small enough =
      retry_from-more (suc fuel) m a last w (omega (arith, split)) small
      ∙ on_attempt-last (retry_from (suc fuel) (pos m) handler input (pos (a + 1)))
          (call handler input w) (λ x v. retry_from-stop fuel m (a + 1) x v (omega (arith, split)))
  retry_from-up_to (suc left) zero m a last w split small enough = absurd (omega (arith, enough))
  retry_from-up_to (suc left) (suc fuel) m a last w split small enough =
      retry_from-more fuel m a last w (omega (arith, split)) small
      ∙ on_attempt-unless_ok (retry_from fuel (pos m) handler input (pos (a + 1)))
          (up_to left handler input) (call handler input w)
          (λ x v.
            retry_from-up_to left fuel m (a + 1) (some (err x)) v (omega (arith, split)) small
              (omega (arith, enough)))

  -- With a limit from 0 to 2147483646 the loop of `retry_until` ends, for which `n + 2` rounds of
  -- fuel are enough, and comes to at most `n + 1` calls, of which the last one gives the result.
  pub retry_until-up_to :
      (n fuel : ℕ) (w : W)
      → n < 2147483647
      → n + 2 ≤ fuel
      → retry_until fuel (pos n) handler input w ≡ some (up_to n handler input w)
  unfolding retry_until
  retry_until-up_to n fuel w small enough =
      retry_from-up_to n fuel n 0 none w (omega arith) small enough

  on_attempt-none :
      (again : Option (Result J) → W → Option (Result J × W)) (r : Result J × W)
      → ((x : WorkflowError) (w : W) → again (some (err x)) w ≡ none)
      → IsErr r.0
      → on_attempt again r ≡ none
  unfolding on_attempt
  on_attempt-none again (ok output, w) h f = absurd f
  on_attempt-none again (err x, w) h f = h x w

  retry_from-none :
      (fuel : ℕ) (attempt : ℤ) (last : Option (Result J)) (w : W)
      → AlwaysFails handler
      → leb_ℤ attempt (pos 2147483647) ≡ true
      → retry_from fuel (pos 2147483647) handler input attempt last w ≡ none
  unfolding retry_from call
  retry_from-none zero attempt last w fails more = refl
  retry_from-none (suc fuel) attempt last w fails more = rw more (
      on_attempt-none (retry_from fuel (pos 2147483647) handler input (wrap32 (attempt +ℤ pos 1)))
        (call handler input w)
        (λ x v.
          retry_from-none fuel (wrap32 (attempt +ℤ pos 1)) (some (err x)) v fails
            (wrap32-at_most (attempt +ℤ pos 1)))
        (fails input w))

  -- With the limit 2147483647, the largest `Int`, repeating a handler that always fails never ends,
  -- however many rounds of the loop are run: the counter wraps before it passes the limit.
  pub retry_until_never_ends :
      (fuel : ℕ) (w : W)
      → AlwaysFails handler
      → retry_until fuel (pos 2147483647) handler input w ≡ none
  unfolding retry_until
  retry_until_never_ends fuel w fails = retry_from-none fuel (pos 0) none w fails refl

module _ {W J : Type 0} where
  -- The same for `execute_with_retry`, where a forward action is called up to `n + 1` times until it
  -- succeeds, for `n` from 0 to 2147483646 and `n + 2` rounds of fuel: a compensation that fails ends
  -- the compensations too, but the error of the step is given in any case.
  pub execute_with_retry-undo :
      (n fuel : ℕ) (before : List (SagaStep W J)) (failing : SagaStep W J)
      (after : List (SagaStep W J)) (input output : J) (w w' w'' : W) (x : WorkflowError)
      → n < 2147483647
      → n + 2 ≤ fuel
      → all_forward (up_to n) before input w ≡ some (output, w')
      → up_to n failing.forward output w' ≡ (err x, w'')
      → (execute_with_retry fuel (pos n) before input w ≡ executed (ok output) w')
        × ((text : Option String) × (end : W) × Undone (latest_first before []) output w'' text end
            × (execute_with_retry fuel (pos n) (before ++ (failing ∷ after)) input w
                ≡ executed (err x) end))
  unfolding execute_with_retry report_only
  execute_with_retry-undo n fuel before failing after input output w w' w'' x small enough ran
        failed =
      let (all_done, u) =
        both_ends (up_to n) (retry_until fuel (pos n))
          (λ h i v. retry_until-up_to h i n fuel v small enough) report_only before failing after
          input output w w' w'' x ran failed in
      (all_done, (u.text, u.after, u.how, u.told))
