-- ===== src/Flow/Category.antt =====
-- Categories of errors and the delays of retries (moonflow/types_error_category.mbt, core_policy.mbt),
-- and priorities (core_priority.mbt).
pub mod Backoff
use text.Mathlib.Text.{find?}
use moonbit.Prelude.{ℕ, zero, suc, String, Bool, true, false, ◌||◌, if◌then◌else◌}
use moonbit.Prelude.Int.{ℤ, pos, pos_part, ◌-ℤ◌, ◌*ℤ◌, ltb_ℤ, wrap32}
use moonbit.Prelude.Dict.{is_some}
use moonbit.Flow.Types.{
  WorkflowError, step_failed, step_timeout, step_max_retries_exceeded, workflow_not_found,
  invalid_transition, serialization_error, storage_error,
}

pub data ErrorCategory : Type 0 where
  transient permanent timeout unknown : ErrorCategory

-- `String::contains`
abbrev pub contains : String → String → Bool
contains text part = is_some (find? text part)

unfoldable pub classify_error : WorkflowError → ErrorCategory
classify_error (step_timeout _ _) = timeout
classify_error (serialization_error _) = permanent
classify_error (invalid_transition _ _) = permanent
classify_error (workflow_not_found _) = permanent
classify_error (step_failed step reason) =
    if contains reason "timeout" || contains reason "temporary" || contains reason "unavailable"
    then transient
    else if contains reason "validation" || contains reason "auth" || contains reason "permission"
    then permanent
    else if contains reason "transient"
    then transient
    else unknown
classify_error (step_max_retries_exceeded _ _) = permanent
classify_error (storage_error msg) = if contains msg "timeout" then transient else permanent

unfoldable pub retries : ErrorCategory → Bool
retries transient = true
retries timeout = true
retries permanent = false
retries unknown = false

unfoldable pub should_retry : WorkflowError → Bool
unfolding classify_error retries
should_retry x = retries (classify_error x)

unfoldable pub delay_of : ErrorCategory → ℤ → ℤ → ℤ
delay_of timeout attempt base = wrap32 (wrap32 (base *ℤ attempt) *ℤ pos 2)
delay_of transient attempt base = wrap32 (base *ℤ attempt)
delay_of permanent attempt base = pos 0
delay_of unknown attempt base = pos 0

unfoldable pub retry_delay_for : WorkflowError → ℤ → ℤ → ℤ
unfolding classify_error delay_of
retry_delay_for x attempt base_delay_ms = delay_of (classify_error x) attempt base_delay_ms

pub data RetryPolicy : Type 0 where
  fixed : ℤ → RetryPolicy
  exponential_backoff : ℤ → ℤ → RetryPolicy
  no_retry : RetryPolicy

-- The loop from `i` to `exp`, with so many rounds left.
unfoldable pub multiply_from : ℤ → ℕ → ℤ → ℤ
multiply_from base zero result = result
multiply_from base (suc left) result = multiply_from base left (wrap32 (result *ℤ base))

unfoldable pub pow_int : ℤ → ℤ → ℤ
unfolding multiply_from
pow_int base exp = multiply_from base (pos_part exp) (pos 1)

unfoldable pub delay_for_attempt : RetryPolicy → ℤ → ℤ
unfolding pow_int
delay_for_attempt (fixed d) attempt = d
delay_for_attempt (exponential_backoff initial base) attempt =
    wrap32 (initial *ℤ pow_int base (wrap32 (attempt -ℤ pos 1)))
delay_for_attempt no_retry attempt = pos 0

pub data WorkflowPriority : Type 0 where
  low normal high critical : WorkflowPriority

unfoldable pub priority_value : WorkflowPriority → ℤ
priority_value low = pos 0
priority_value normal = pos 10
priority_value high = pos 20
priority_value critical = pos 30

unfoldable pub higher_priority : WorkflowPriority → WorkflowPriority → Bool
unfolding priority_value
higher_priority a b = ltb_ℤ (priority_value b) (priority_value a)

pub record WorkflowOptions : Type 0 where
  pub workflow_timeout_ms : ℤ
  pub auto_retry_on_failure : Bool
  pub max_parallelism : ℤ
  pub priority : WorkflowPriority

unfoldable pub default : WorkflowOptions
default = record {
  workflow_timeout_ms = pos 0;
  auto_retry_on_failure = false;
  max_parallelism = pos 10;
  priority = normal;
}
