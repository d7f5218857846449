-- ===== src/Flow/Errors.antt =====
-- The text of integers in interpolated strings, and of errors (`err_to_string` of
-- moonflow/core_engine.mbt).
use Prim.Native.String.{◌++◌}
use moonbit.Prelude.{ℕ, zero, suc, ◌+◌, ◌/◌, ◌%◌, String, List, [], ◌∷◌, ltb, if◌then◌else◌}
use moonbit.Prelude.Int.{ℤ, pos, negsuc}
use moonbit.Flow.Types.{
  WorkflowError, step_failed, step_timeout, step_max_retries_exceeded, workflow_not_found,
  invalid_transition, serialization_error, storage_error,
}

abbrev digit_at : List String → ℕ → String
digit_at [] n = ""
digit_at (d ∷ ds) zero = d
digit_at (d ∷ ds) (suc n) = digit_at ds n

digit : ℕ → String
digit = digit_at ("0" ∷ "1" ∷ "2" ∷ "3" ∷ "4" ∷ "5" ∷ "6" ∷ "7" ∷ "8" ∷ "9" ∷ [])

-- Decimal digits, at most `fuel` of them. An integer of 64 bits has no more than twenty.
digits_of : ℕ → ℕ → String
unfolding digit
digits_of zero n = ""
digits_of (suc fuel) n =
    let high = digits_of fuel (n / 10) in if ltb n 10 then digit n else high ++ digit (n % 10)

unfoldable pub show : ℤ → String
unfolding digits_of
show (pos n) = digits_of 20 n
show (negsuc n) = "-" ++ digits_of 20 (n + 1)

abbrev pub pair_text : String → String → String → String
pair_text head a b = head ++ "(" ++ a ++ ", " ++ b ++ ")"

unfoldable pub err_to_string : WorkflowError → String
unfolding show
err_to_string (step_failed n r) = pair_text "StepFailed" n r
err_to_string (step_timeout n t) = pair_text "StepTimeout" n (show t)
err_to_string (step_max_retries_exceeded n a) = pair_text "StepMaxRetriesExceeded" n (show a)
err_to_string (workflow_not_found id) = "WorkflowNotFound(" ++ id.value ++ ")"
err_to_string (invalid_transition f t) = pair_text "InvalidTransition" f t
err_to_string (serialization_error m) = "SerializationError(" ++ m ++ ")"
err_to_string (storage_error m) = "StorageError(" ++ m ++ ")"
