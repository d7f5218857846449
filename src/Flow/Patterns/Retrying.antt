-- ===== src/Flow/Patterns/Retrying.antt =====
-- Retrying by the category of the error, around other wrappers; falling back; time limits
-- (moonflow/pattern_lib.mbt).
use moonbit.Prelude.{
  ℕ, zero, suc, ◌-◌, ◌^◌, ◌≤◌, ◌<◌, ◌≡◌, refl, Bool, true, false, arith, ltb, ◌&&◌, if◌then◌else◌,
}
use moonbit.Prelude.Int.{ℤ, pos, ◌-ℤ◌, ltb_ℤ, wrap32, wrap64}
use moonbit.Flow.Async.{pure, run}
use moonbit.Flow.Types.{WorkflowError, step_timeout, Result, ok, err}
use moonbit.Flow.Category.{should_retry}
use moonbit.Flow.Engine.{StepExecutor, call}
use moonbit.Flow.Clock.{now_ms, elapsed_ms}
use moonbit.Flow.Middleware.{on_tried, try_from, left_after_first, timeout_as, timeout_middleware}
use moonbit.Flow.Middleware.Attempts.{Attempted, try_from-Attempted, run_tried}
use moonbit.Flow.Patterns.{pattern_retry_backoff, pattern_fallback, on_primary}

module _ {W J : Type 0} (inner : StepExecutor W J) (input : J) where
  -- The retry pattern calls the handler until it succeeds or fails with an error that is not to be
  -- retried, and once at least; where `max_attempts` is 1 or more it calls it at most so often. The
  -- result, and the world, are those of the last call, and all calls before it fail with errors that
  -- are to be retried.
  pattern_retry_backoff-Attempted :
      (base_ms max_attempts : ℤ) (w : W)
      → Attempted should_retry inner input
          (left_after_first max_attempts)
          w
          (call (pattern_retry_backoff base_ms max_attempts inner) input w)
  unfolding pattern_retry_backoff call run_tried
  pattern_retry_backoff-Attempted base_ms max_attempts w =
      try_from-Attempted should_retry inner input (left_after_first max_attempts) w

  try_from_final :
      (left : ℕ) (w w' : W) (x : WorkflowError)
      → call inner input w ≡ (err x, w')
      → should_retry x ≡ false
      → run_tried should_retry inner input (try_from should_retry inner input left w) ≡ (err x, w')
  unfolding try_from on_tried run_tried run
  try_from_final zero w w' x e f = rw e refl
  try_from_final (suc left) w w' x e f = rw (e, f) refl

  -- Where the handler fails with an error that is not to be retried, one call is made, however many
  -- attempts there may be.
  pub pattern_retry_backoff_final :
      (base_ms max_attempts : ℤ) (w w' : W) (x : WorkflowError)
      → call inner input w ≡ (err x, w')
      → should_retry x ≡ false
      → call (pattern_retry_backoff base_ms max_attempts inner) input w ≡ (err x, w')
  unfolding call pattern_retry_backoff run_tried
  pattern_retry_backoff_final base_ms max_attempts w w' x e f =
      try_from_final (left_after_first max_attempts) w w' x e f

after_first :
    {W J : Type 0} (b c : StepExecutor W J) (input : J) (answer : Result J × W)
    → call
        (λ i w. on_primary c i (run_tried should_retry b i (on_primary b i (answer.0, w))))
        input
        answer.1
      ≡ run_tried should_retry b input (on_primary (pattern_fallback b c) input answer)
unfolding call on_primary pattern_fallback run run_tried
after_first b c input (ok o, w) = refl
after_first b c input (err x, w) = refl

-- Falling back is associative, whatever the handlers do to the world.
pub pattern_fallback_assoc :
    {W J : Type 0} (a b c : StepExecutor W J) (input : J) (w : W)
    → call (pattern_fallback (pattern_fallback a b) c) input w
      ≡ call (pattern_fallback a (pattern_fallback b c)) input w
unfolding call pattern_fallback run_tried
pattern_fallback_assoc a b c input w = after_first b c input (call a input w)

wrap64-pos : (n : ℕ) → n < 2 ^ 63 → wrap64 (pos n) ≡ pos n
unfolding wrap64
wrap64-pos n h = ground arith

pos-pos : (start end : ℕ) → start ≤ end → pos end -ℤ pos start ≡ pos (end - start)
unfolding ◌-ℤ◌
pos-pos start end le = ground arith

time_between :
    (start end : ℕ)
    → start ≤ end
    → end < 2 ^ 63
    → elapsed_ms (wrap64 (pos start)) (wrap64 (pos end)) ≡ pos (end - start)
unfolding elapsed_ms
time_between start end le fits =
    rw
      (
        wrap64-pos start (omega (arith, le, fits)),
        wrap64-pos end fits,
        pos-pos start end le,
        wrap64-pos (end - start) (omega (arith, fits)),
      )
      refl

out_of_time :
    (limit n : ℕ)
    → n < 4294967296
    → ltb_ℤ (pos limit) (wrap32 (pos n)) ≡ (ltb limit n && ltb n 2147483648)
unfolding wrap32
out_of_time limit n h = ground arith

module _ {W J : Type 0} (clock : W → ℕ × W) (inner : StepExecutor W J) (input : J) where
  limited :
      (b : Bool) (x : WorkflowError) (r : Result J) (w : W)
      → run_tried should_retry inner input (if b then (pure (err x), w) else (pure r, w))
        ≡ ((if b then err x else r), w)
  unfolding run run_tried
  limited true x r w = refl
  limited false x r w = refl

  -- A handler that takes less than 4294967296 milliseconds has run out of time exactly if it took
  -- more than the limit and less than 2147483648; its result is given otherwise. It has run in any
  -- case, and what it did to the world stays.
  pub timeout_middleware_lem :
      (timeout_ms : ℕ) (w w₁ w₂ w₃ : W) (r : Result J) (start end : ℕ)
      → clock w ≡ (start, w₁)
      → call inner input w₁ ≡ (r, w₂)
      → clock w₂ ≡ (end, w₃)
      → start ≤ end
      → end < 2 ^ 63
      → end - start < 4294967296
      → call (timeout_middleware clock (pos timeout_ms) inner) input w ≡ (
        (if ltb timeout_ms (end - start) && ltb (end - start) 2147483648
            then err (step_timeout "middleware" (pos timeout_ms))
            else r),
        w₃,
      )
  unfolding call timeout_middleware timeout_as now_ms run run_tried
  timeout_middleware_lem timeout_ms w w₁ w₂ w₃ r start end c₁ h c₂ le fits few =
      rw (c₁, h, c₂, time_between start end le fits, out_of_time timeout_ms (end - start) few)
        (limited _ (step_timeout "middleware" (pos timeout_ms)) r w₃)
